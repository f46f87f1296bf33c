-- ===== src/Handlers/Js/Vm/Laws.antt =====
-- What a script that ended has left, and when the run of a script never returns.
use mathlib.Core.Path.{subst}
use neon_oss.Base.{
  ◌≡◌, ◌↔◌, ◌⊎◌, refl, sym, ◌∙◌, inl, inr, Bool, true, false, Option, none, some, Result, ok, err,
  String, is_ok, ◌>>◌, if◌then◌else◌,
}
use neon_oss.Handlers.Js.Api.{
  JsValue, VmConfig, VmData, new_vm_data, Call, Reply, gives, panics, dispatch,
}
use neon_oss.Handlers.Js.Api.Laws.{IsSound, new_vm_data-IsSound, Leaves, dispatch-IsSound}
use neon_oss.Handlers.Js.Vm.{
  Script, finished, thrown, calls, Report, done, failed, crashed, run, Engine, VmResult,
  new_vm_result, returned, blocked, prepared, report, sent, await, interrupt, Ending, execute,
}

-- What a report leaves, if it is one of an end.
abbrev Done : (VmData → Type 0) → Report → Type 0
Done P (done d) = P d
Done P (failed e) = Unit
Done P crashed = Unit

module _ (json_parse : String → Result JsValue) (config : VmConfig) where
  -- The rest of a run after a reply.
  resumed : (Result JsValue → Script) → Reply VmData → Report
  resumed next panics = crashed
  resumed next (gives r d) = run json_parse config (next r) d

  run-calls :
      (c : Call) (next : Result JsValue → Script) (d : VmData) (r : Reply VmData)
      → dispatch json_parse config c d ≡ r
      → run json_parse config (calls c next) d ≡ resumed next r
  unfolding run resumed
  run-calls c next d panics e = rw (e, run) refl
  run-calls c next d (gives r d') e = rw (e, run) refl

  resumed-IsSound :
      (next : Result JsValue → Script) (x : Reply VmData)
      → ((r : Result JsValue) (d : VmData)
          → IsSound d
          → Done IsSound (run json_parse config (next r) d))
      → Leaves IsSound x
      → Done IsSound (resumed next x)
  unfolding resumed
  resumed-IsSound next panics ih h = tt
  resumed-IsSound next (gives r d) ih h = ih r d h

  pub run-IsSound : (s : Script) (d : VmData) → IsSound d → Done IsSound (run json_parse config s d)
  unfolding run
  run-IsSound finished d h = h
  run-IsSound (thrown e) d h = tt
  run-IsSound (calls c next) d h =
      subst (Done IsSound) (sym (run-calls c next d (dispatch json_parse config c d) refl)) (
        resumed-IsSound next (dispatch json_parse config c d) (λ r d' k. run-IsSound (next r) d' k)
          (dispatch-IsSound json_parse config c d h))

prepared-Done :
    (P : VmData → Type 0) (r : Result (Unit {0})) (next : Unit {0} → Report)
    → ((u : Unit {0}) → Done P (next u))
    → Done P (prepared r next)
prepared-Done P (err e) next h = tt
prepared-Done P (ok u) next h = h u

-- The goroutine reports the end of a script with sound data only.
report-IsSound : (engine : Engine) (c : VmConfig) (s : Script) → Done IsSound (report engine c s)
unfolding report
report-IsSound engine c s =
    prepared-Done IsSound (engine.configure >> engine.compile_script)
      (λ u. run engine.json_parse c s new_vm_data)
      λ u. run-IsSound engine.json_parse c s new_vm_data new_vm_data-IsSound

-- The end of `Execute`, by what the engine and the script do.
ends : Result (Unit {0}) → Bool → Option String → Report → Ending (Result VmResult)
ends context late i x = await late (sent context (if late then interrupt i x else x))

execute-ends :
    (engine : Engine) (c : VmConfig) (s : Script)
    → execute engine c s
      ≡ ends engine.new_context engine.late engine.interrupted (report engine c s)
unfolding execute ends
execute-ends engine c s = refl

-- There is a context, the script ends before the timer, and the result is what it has left.
pub record Ended (engine : Engine) (c : VmConfig) (s : Script) (r : VmResult) : Type 0 where
  pub context : is_ok engine.new_context ≡ true
  pub punctual : engine.late ≡ false
  pub left : VmData
  pub reported : report engine c s ≡ done left
  pub result : r ≡ new_vm_result left
  pub sound : IsSound left

ended :
    (context : Result (Unit {0})) (late : Bool) (i : Option String) (x : Report) (r : VmResult)
    → ends context late i x ≡ returned (ok r)
    → (is_ok context ≡ true) × (late ≡ false) × (d : VmData) × (x ≡ done d) × (r ≡ new_vm_result d)
unfolding ends await sent interrupt
ended (err e) late i x r h = absurd (cc h)
ended (ok u) false i (done d) r h =
    let e : new_vm_result d ≡ r = cc h in (refl, refl, d, refl, sym e)
ended (ok u) false i (failed e) r h = absurd (cc h)
ended (ok u) false i crashed r h = absurd (cc h)
ended (ok u) true (some e) x r h = absurd (cc h)
ended (ok u) true none (done d) r h = absurd (cc h)
ended (ok u) true none (failed e) r h = absurd (cc h)
ended (ok u) true none crashed r h = absurd (cc h)

-- When `Execute` gives a result, the script ended before the timer, and the result is what its calls
-- left: a page has a status, a redirection has its target and its status, and every status lies
-- between 100 and 599, whatever the script did.
pub execute-Ended :
    (engine : Engine) (c : VmConfig) (s : Script) (r : VmResult)
    → execute engine c s ≡ returned (ok r)
    → Ended engine c s r
execute-Ended engine c s r h =
    let (made, punctual, d, reported, result) =
      ended engine.new_context engine.late engine.interrupted (report engine c s) r
        (sym (execute-ends engine c s) ∙ h) in
    record {
      context = made;
      punctual = punctual;
      left = d;
      reported = reported;
      result = result;
      sound = subst (Done IsSound) reported (report-IsSound engine c s);
    }

-- There is no context, or the script ends after the timer and takes no notice of the interruption.
abbrev pub NeverReturns : Engine → VmConfig → Script → Type 0
NeverReturns engine c s =
    (is_ok engine.new_context ≡ false)
    ⊎ ((engine.late ≡ true)
        × (engine.interrupted ≡ none)
        × ((d : VmData) × (report engine c s ≡ done d)))

stuck_iff :
    (context : Result (Unit {0})) (late : Bool) (i : Option String) (x : Report)
    → (ends context late i x ≡ blocked)
      ↔ ((is_ok context ≡ false) ⊎ ((late ≡ true) × (i ≡ none) × ((d : VmData) × (x ≡ done d))))
unfolding ends await sent interrupt
stuck_iff (err e) late i x = (λ h. inl refl, λ h. refl)
stuck_iff (ok u) false i (done d) = (
  λ h. absurd (cc h),
  λ h. absurd (elim h [ inl no_context ↦ cc no_context | inr (late, ignored, left) ↦ cc late ]),
)
stuck_iff (ok u) false i (failed e) = (
  λ h. absurd (cc h),
  λ h. absurd (elim h [ inl no_context ↦ cc no_context | inr (late, ignored, left) ↦ cc late ]),
)
stuck_iff (ok u) false i crashed = (
  λ h. absurd (cc h),
  λ h. absurd (elim h [ inl no_context ↦ cc no_context | inr (late, ignored, left) ↦ cc late ]),
)
stuck_iff (ok u) true (some e) x = (
  λ h. absurd (cc h),
  λ h. absurd (elim h [ inl no_context ↦ cc no_context | inr (late, ignored, more) ↦ cc ignored ]),
)
stuck_iff (ok u) true none (done d) = (λ h. inr (refl, refl, (d, refl)), λ h. refl)
stuck_iff (ok u) true none (failed e) = (
  λ h. absurd (cc h),
  λ h. absurd (elim h [ inl no_context ↦ cc no_context | inr (late, ignored, left) ↦ cc (left.1) ]),
)
stuck_iff (ok u) true none crashed = (
  λ h. absurd (cc h),
  λ h. absurd (elim h [ inl no_context ↦ cc no_context | inr (late, ignored, left) ↦ cc (left.1) ]),
)

-- `Execute` never returns, waiting for a channel to which the goroutine sends nothing, exactly when
-- the engine gives no context, or when the timer ends first, the script takes no notice of the
-- interruption and then ends without an error.
pub execute_blocked_iff :
    (engine : Engine) (c : VmConfig) (s : Script)
    → (execute engine c s ≡ blocked) ↔ NeverReturns engine c s
execute_blocked_iff engine c s =
    let iff = stuck_iff engine.new_context engine.late engine.interrupted (report engine c s) in
    let same = execute-ends engine c s in (λ h. iff.0 (sym same ∙ h), λ h. same ∙ iff.1 h)
