-- ===== src/Loader/Run.antt =====
-- `execute` of internal/app/neon/loader.go. A tick of the ticker is one step: the rules are handed
-- out to the workers, the results are counted, and the ticker and the failsafe flag are set.
-- Workers take jobs from one channel; the order in which they finish is the order of the list.
use neon_oss.Base.{
  ◌||◌, suc, ltb_int, not, ◌+◌, ◌==◌, ◌&&◌, Result, get, ltb, if◌then◌else◌, Option, String, List,
  ℕ, Dict, Bool, ℤ, [], ◌∷◌, none, some, pos, false, true, ok, err,
}
use neon_oss.Exec.{Exec}
use neon_oss.Loader.{LoaderConfig, is_positive}

-- A `time.Ticker` and its period in seconds.
pub data Ticker : Type 0 where
  stopped : Ticker
  every : ℤ → Ticker

-- The variable `startup` of `execute`, its ticker, and the field `failsafe` of the state.
pub record RunState : Type 0 where
  pub startup : Bool
  pub ticker : Ticker
  pub failsafe : Bool

module _ {Config : Type 0} (c : LoaderConfig Config) where
  has_rules : Dict (Dict (Option Config)) → Bool
  has_rules [] = false
  has_rules (_ ∷ _) = true

  -- The test of `Start` (and of `Stop`) whether the execution runs at all.
  unfoldable pub runs : Bool
  unfolding has_rules
  runs = has_rules c.rules && (is_positive c.exec_startup || is_positive c.exec_interval)

  -- The state when `execute` starts.
  unfoldable pub start : RunState
  start = record {
    startup = true;
    ticker = if is_positive c.exec_startup then every c.exec_startup else every c.exec_interval;
    failsafe = false;
  }

  -- The ticker outside of startup and failsafe.
  unfoldable pub normal_ticker : Ticker
  normal_ticker = if is_positive c.exec_interval then every c.exec_interval else stopped

  leave_startup : RunState → RunState
  leave_startup s = if s.startup then record s { startup = false; ticker = normal_ticker } else s

  enter_failsafe : ℕ → RunState → RunState
  enter_failsafe failure s =
      if ltb 0 failure && not s.failsafe && is_positive c.exec_failsafe_interval
      then record s { ticker = every c.exec_failsafe_interval; failsafe = true }
      else s

  leave_failsafe : ℕ → RunState → RunState
  leave_failsafe failure s =
      if failure == 0 && s.failsafe
      then record s { ticker = normal_ticker; failsafe = false }
      else s

  -- One tick whose execution had `failure` failed rules.
  unfoldable pub tick : ℕ → RunState → RunState
  unfolding normal_ticker leave_startup enter_failsafe leave_failsafe
  tick failure s = leave_failsafe failure (enter_failsafe failure (leave_startup s))

  unfoldable pub ticks : List ℕ → RunState → RunState
  ticks [] s = s
  ticks (failure ∷ more) s = ticks more (tick failure s)

-- What the loop over the rules does: it sends a rule to the workers, or sleeps.
pub data Event : Type 0 where
  send : String → Event
  sleep : Event

at_limit : ℤ → ℕ → Bool
at_limit max_ops ops = is_positive max_ops && ltb_int max_ops (pos ops)

-- The loop, with `ops` rules sent since it last slept.
unfoldable pub dispatch : ℤ → ℕ → List String → List Event
unfolding at_limit
dispatch max_ops ops [] = []
dispatch max_ops ops (rule ∷ more) =
    let after = dispatch max_ops 1 more in
    let going = dispatch max_ops (ops + 1) more in
    if at_limit max_ops (ops + 1) then sleep ∷ send rule ∷ after else send rule ∷ going

module _ {Parser State : Type 0} (parse : Parser → Exec State (Unit {0})) where
  parse_with : Option Parser → Exec State (Unit {0})
  parse_with none s = (err "parser not found", s)
  parse_with (some p) s = parse p s

  -- The worker's treatment of one job; the result goes to the channel `results`.
  unfoldable pub work : Dict Parser → String → Exec State (Unit {0})
  unfolding parse_with
  work parsers rule = parse_with (get rule parsers)

  unfoldable pub work_all : Dict Parser → List String → State → List (Result (Unit {0})) × State
  work_all parsers [] s = ([], s)
  work_all parsers (rule ∷ more) s =
      let (r, s') = work parsers rule s in let (rs, s'') = work_all parsers more s' in (r ∷ rs, s'')

-- The counters `success` and `failure`.
unfoldable pub count_results : List (Result (Unit {0})) → ℕ × ℕ
count_results [] = (0, 0)
count_results (ok _ ∷ rs) = let (success, failure) = count_results rs in (suc success, failure)
count_results (err _ ∷ rs) = let (success, failure) = count_results rs in (success, suc failure)
