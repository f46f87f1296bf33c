-- ===== src/Loader/Laws.antt =====
-- What the loader's execution guarantees.
use neon_oss.Base.{
  refl, if◌then◌else◌, String, List, ℕ, ℤ, if◌then◌else◌, String, List, ℕ, ℤ, if◌then◌else◌, String,
  List, ℕ, ℤ, if◌then◌else◌, String, List, ℕ, ℤ, if◌then◌else◌, String, List, ℕ, ℤ, ◌+◌,
  if◌then◌else◌, String, List, ℕ, ℤ, ◌<◌, ◌≤◌, if◌then◌else◌, arith, String, List, ℕ, ℤ, ◌≡◌,
  if◌then◌else◌, String, List, ℕ, ℤ, [], ◌∷◌, pos, false, true,
}
use neon_oss.Loader.{LoaderConfig, is_positive}
use neon_oss.Loader.Run.{every, RunState, normal_ticker, Event, send, sleep, dispatch}

module _ {Config : Type 0} (c : LoaderConfig Config) where
  -- The ticker is the one that the flags say, and the failsafe flag is up only with an interval.
  pub record IsConsistent (s : RunState) : Type 0 where
    pub in_failsafe :
        s.failsafe ≡ true
        → (s.ticker ≡ every c.exec_failsafe_interval)
          × (is_positive c.exec_failsafe_interval ≡ true)
          × (s.startup ≡ false)
    pub in_normal : s.failsafe ≡ false → s.startup ≡ false → s.ticker ≡ normal_ticker c

-- The rules that are sent, in order.
abbrev pub sent : List Event → List String
sent [] = []
sent (send r ∷ es) = r ∷ sent es
sent (sleep ∷ es) = sent es

-- At most `max` rules are sent between two sleeps, `n` of them so far.
abbrev pub Bounded : ℕ → ℕ → List Event → Type 0
Bounded max n [] = n ≤ max
Bounded max n (send r ∷ es) = (n + 1 ≤ max) × Bounded max (n + 1) es
Bounded max n (sleep ∷ es) = Bounded max 0 es

sent-dispatch : (max : ℤ) (ops : ℕ) (rules : List String) → sent (dispatch max ops rules) ≡ rules
unfolding dispatch
sent-dispatch max ops [] = refl
sent-dispatch max ops (r ∷ rules) =
    ground (arith, sent-dispatch max 1 rules, sent-dispatch max (ops + 1) rules)

Bounded-dispatch :
    (max ops : ℕ) (rules : List String)
    → 0 < max
    → ops ≤ max
    → Bounded max ops (dispatch (pos max) ops rules)
unfolding dispatch
Bounded-dispatch max ops [] h k = k
Bounded-dispatch max ops (r ∷ rules) h k =
    ground (arith, Bounded-dispatch max 1 rules, Bounded-dispatch max (ops + 1) rules)

-- Every rule is sent exactly once and in order, whatever the limit; with a positive limit at most
-- that many rules are sent without a sleep between them.
pub dispatch_sound :
    (max : ℕ) (rules : List String)
    → (sent (dispatch (pos max) 0 rules) ≡ rules)
      × (0 < max → Bounded max 0 (dispatch (pos max) 0 rules))
dispatch_sound max rules =
    (sent-dispatch (pos max) 0 rules, λ h. Bounded-dispatch max 0 rules h (omega arith))
