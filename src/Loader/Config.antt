-- ===== src/Loader/Config.antt =====
-- When the loader accepts a configuration, and what its workers count.
use neon_oss.Base.{
  ◌≤◌, suc, length, get, ◌+◌, ℕ, String, All, arith, ◌↔◌, List, is_ok, ◌≡◌, ◌≤ℤ◌, Dict, [], ◌∷◌,
  none, some, pos, false, true,
}
use neon_oss.Registry.{ModuleInfo}
use neon_oss.Modules.{decoded, Kind}
use neon_oss.Exec.{Exec}
use neon_oss.Fetcher.Laws.{FirstLoads, load_all_iff}
use neon_oss.Loader.{RawConfig, LoaderConfig, fill, option_errors, checked, init_config, init}
use neon_oss.Loader.Run.{work, work_all, count_results}

-- The ranges that the loader's options must lie in.
pub record InRange {Config : Type 0} (c : LoaderConfig Config) : Type 0 where
  pub startup : pos 0 ≤ℤ c.exec_startup
  pub interval : pos 0 ≤ℤ c.exec_interval
  pub failsafe : pos 0 ≤ℤ c.exec_failsafe_interval
  pub workers : pos 1 ≤ℤ c.exec_workers
  pub max_ops : pos 0 ≤ℤ c.exec_max_ops
  pub max_delay : pos 0 ≤ℤ c.exec_max_delay

option_errors_iff :
    {Config : Type 0} (c : LoaderConfig Config) → (option_errors c ≡ false) ↔ InRange c
unfolding option_errors
option_errors_iff c = (
  λ h. record {
    startup = ground arith;
    interval = ground arith;
    failsafe = ground arith;
    workers = ground arith;
    max_ops = ground arith;
    max_delay = ground arith;
  },
  λ r. ground (arith, r.startup, r.interval, r.failsafe, r.workers, r.max_ops, r.max_delay),
)

-- `Init` with a decoded configuration succeeds exactly when every option, with its default where
-- it is absent, lies in its range, and the first parser of every rule is registered, has the
-- parser interface and initialises.
pub loader_init_iff :
    {Instance Module Config : Type 0} (kind : Kind Instance Module Config)
    (registry : Dict (ModuleInfo Instance)) (raw : RawConfig Config) (parsers : Dict Module)
    → (is_ok (init kind registry (decoded raw) parsers) ≡ true) ↔ (
        InRange (fill raw) × All (λ p. FirstLoads kind registry "app.loader.parser." p.1) raw.rules)
unfolding init init_config checked
loader_init_iff kind registry raw parsers =
    let ranges = option_errors_iff (fill raw) in
    let loads = load_all_iff kind registry "app.loader.parser." raw.rules parsers in
    (λ h. (ranges.0 (ground arith), loads.0 (ground arith)), λ h. rw (ranges.1 h.0, loads.1 h.1))

module _ {Parser State : Type 0} (parse : Parser → Exec State (Unit {0}))
    (parsers : Dict Parser) where
  -- The rules that have no parser.
  abbrev pub orphans : List String → ℕ
  orphans [] = 0
  orphans (rule ∷ more) = elim (get rule parsers) [
    | none ↦ suc (orphans more)
    | some p ↦ orphans more
  ]

  counts-work_all :
      (rules : List String) (s : State)
      → (let (success, failure) = count_results (work_all parse parsers rules s).0 in
          (success + failure ≡ length rules) × (orphans rules ≤ failure))
  unfolding work_all work count_results
  counts-work_all [] s = omega arith
  counts-work_all (rule ∷ more) s =
      ground (arith, counts-work_all more (work parse parsers rule s).1)

-- Every rule handed to the workers is counted once, as a success or as a failure, and a rule
-- without a parser is a failure; so the loop that waits for one result per rule ends.
pub count_results-work_all :
    {Parser State : Type 0} (parse : Parser → Exec State (Unit {0})) (parsers : Dict Parser)
    (rules : List String) (s : State)
    → (let (success, failure) = count_results (work_all parse parsers rules s).0 in
        (success + failure ≡ length rules) × (orphans parse parsers rules ≤ failure))
count_results-work_all parse parsers rules s = counts-work_all parse parsers rules s
