-- ===== src/Handlers/Js/Vm.antt =====
-- pkg/modules/app/server/site/handlers/js/vm.go: the run of a script. A script is the code of the
-- engine's user, so it is represented by what it does: a tree of the calls that it makes, each
-- next call chosen by the values that the calls before gave. The calls of the engine are
-- parameters. Logging and the measuring of time are left out.
pub mod Laws
use neon_oss.Base.{
  ℕ, Bool, true, false, Dict, List, String, Option, none, some, Result, ok, err, ◌>>◌,
  if◌then◌else◌,
}
use neon_oss.Handlers.Js.Dom.{DomElementList}
use neon_oss.Handlers.Js.Api.{
  JsValue, VmConfig, VmData, new_vm_data, Call, Reply, gives, panics, dispatch,
}

-- It ends, or throws, or makes a call and goes on with its value or error.
pub data Script : Type 0 where
  finished : Script
  thrown : String → Script
  calls : Call → (Result JsValue → Script) → Script

-- What the goroutine that runs a script reports: `doneCh`, `errCh`, or a panic.
pub data Report : Type 0 where
  done : VmData → Report
  failed : String → Report
  crashed : Report

-- `ctx.ExecuteScript(script)`, with the functions of the API.
module _ (json_parse : String → Result JsValue) (config : VmConfig) where
  unfoldable pub run : Script → VmData → Report
  run finished d = done d
  run (thrown e) d = failed e
  run (calls c next) d = elim (dispatch json_parse config c d) [
    | panics ↦ crashed
    | gives r d' ↦ run (next r) d'
  ]

-- The calls of the engine in one execution. `late`: the timer ends before the goroutine reports;
-- `interrupted`: the error with which the script then stops, or none if it takes no notice.
pub record Engine : Type 0 where
  pub new_context : Result (Unit {0})
  pub configure : Result (Unit {0})
  pub compile_script : Result (Unit {0})
  pub json_parse : String → Result JsValue
  pub late : Bool
  pub interrupted : Option String

-- The type `vmResult`.
pub record VmResult : Type 0 where
  pub render : Option String
  pub status : Option ℕ
  pub redirect : Option Bool
  pub redirect_url : Option String
  pub redirect_status : Option ℕ
  pub headers : Option (Dict (List String))
  pub title : Option String
  pub metas : Option DomElementList
  pub links : Option DomElementList
  pub scripts : Option DomElementList

-- `newVMResult`
unfoldable pub new_vm_result : VmData → VmResult
new_vm_result d = record {
  render = d.render;
  status = d.status;
  redirect = d.redirect;
  redirect_url = d.redirect_url;
  redirect_status = d.redirect_status;
  headers = d.headers;
  title = d.title;
  metas = d.metas;
  links = d.links;
  scripts = d.scripts;
}

-- How a call ends that may wait for ever or panic.
pub data Ending (A : Type 0) : Type 0 where
  returned : A → Ending A
  blocked : Ending A
  panicked : Ending A

abbrev prepared : Result (Unit {0}) → (Unit {0} → Report) → Report
prepared (err e) next = failed e
prepared (ok u) next = next u

-- The goroutine, once it has a context.
unfoldable pub report : Engine → VmConfig → Script → Report
unfolding run
report engine config script =
    prepared (engine.configure >> engine.compile_script)
      λ u. run engine.json_parse config script new_vm_data

-- The channels of `Execute`, each with room for one value: what the goroutine sends in all, and
-- whether it panics, which ends the program.
pub record Channels : Type 0 where
  pub ctx_ch : Option (Unit {0})
  pub done_ch : Option VmData
  pub err_ch : Option String
  pub panics : Bool

abbrev no_sends : Channels
no_sends = record { ctx_ch = none; done_ch = none; err_ch = none; panics = false }

-- What the goroutine sends once it has sent the context.
with_context : Report → Channels
with_context (done d) = record no_sends { ctx_ch = some tt; done_ch = some d }
with_context (failed e) = record no_sends { ctx_ch = some tt; err_ch = some e }
with_context crashed = record no_sends { ctx_ch = some tt; panics = true }

-- The sends of the goroutine: it returns at the first error.
unfoldable pub sent : Result (Unit {0}) → Report → Channels
unfolding with_context
sent (err e) r = record no_sends { err_ch = some e }
sent (ok u) r = with_context r

-- A receive waits for ever on a channel to which nothing is sent.
abbrev pub receive : {A B : Type 0} → Option A → (A → Ending B) → Ending B
receive none next = blocked
receive (some a) next = next a

-- The `select` before the timer ends: the first of the two channels that has a value.
in_time : Channels → Ending (Result VmResult)
in_time c = elim c.done_ch [
  | some d ↦ returned (ok (new_vm_result d))
  | none ↦ receive c.err_ch λ e. returned (err "execution error")
]

-- What a script makes of the interruption that is requested when the timer ends: an error of it, or
-- it goes on.
interrupt : Option String → Report → Report
interrupt none r = r
interrupt (some e) r = failed e

-- The last case of the `select`: it receives from `errCh` alone.
timed_out : Channels → Ending (Result VmResult)
timed_out c = receive c.err_ch λ e. returned (err "execution timeout")

-- The body of `Execute` after the goroutine is started, where `late` says that the timer ends first.
unfoldable pub await : Bool → Channels → Ending (Result VmResult)
unfolding in_time timed_out
await late c =
    receive c.ctx_ch λ ctx. if c.panics then panicked else (if late then timed_out c else in_time c)

-- `Execute`
unfoldable pub execute : Engine → VmConfig → Script → Ending (Result VmResult)
unfolding report await sent interrupt new_vm_result
execute engine config script =
    let r = report engine config script in
    await engine.late
      (sent engine.new_context (if engine.late then interrupt engine.interrupted r else r))
