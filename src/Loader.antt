-- ===== src/Loader.antt =====
-- internal/app/neon/loader.go: the loader's configuration, the rules' parsers, and the periodic
-- execution of the rules. `Run` has the state machine of the execution, `Laws` the theorems.
pub mod Run
pub mod Laws
pub mod Config
use neon_oss.Registry.{ModuleInfo}
use neon_oss.Modules.{Given, missing, undecodable, decoded, Kind}
use neon_oss.Fetcher.{load_all, Loaded}
use neon_oss.Base.{
  ok, err, if◌then◌else◌, wrap, ◌||◌, Result, leb_int, ltb_int, Dict, Bool, ℤ, Option, [], ◌∷◌,
  none, some, pos, negsuc, false, true,
}

-- `loaderConfig` as it is decoded: an option that is absent is nil.
pub record RawConfig (Config : Type 0) : Type 0 where
  pub exec_startup : Option ℤ
  pub exec_interval : Option ℤ
  pub exec_failsafe_interval : Option ℤ
  pub exec_workers : Option ℤ
  pub exec_max_ops : Option ℤ
  pub exec_max_delay : Option ℤ
  pub rules : Dict (Dict (Option Config))

-- The same with the defaults filled in.
pub record LoaderConfig (Config : Type 0) : Type 0 where
  pub exec_startup : ℤ
  pub exec_interval : ℤ
  pub exec_failsafe_interval : ℤ
  pub exec_workers : ℤ
  pub exec_max_ops : ℤ
  pub exec_max_delay : ℤ
  pub rules : Dict (Dict (Option Config))

-- `if p == nil { p = &defaultValue }`
abbrev pub or_default {ℓ} : {A : Type ℓ} → Option A → A → A
or_default none d = d
or_default (some a) d = a

-- `n < 0` and `n <= 0`
abbrev pub is_negative : ℤ → Bool
is_negative n = ltb_int n (pos 0)

abbrev pub is_not_positive : ℤ → Bool
is_not_positive n = leb_int n (pos 0)

abbrev pub is_positive : ℤ → Bool
is_positive n = ltb_int (pos 0) n

module _ {Config : Type 0} where
  abbrev pub no_config : RawConfig Config
  no_config = record {
    exec_startup = none;
    exec_interval = none;
    exec_failsafe_interval = none;
    exec_workers = none;
    exec_max_ops = none;
    exec_max_delay = none;
    rules = [];
  }

  unfoldable pub fill : RawConfig Config → LoaderConfig Config
  fill c = record {
    exec_startup = or_default c.exec_startup (pos 15);
    exec_interval = or_default c.exec_interval (pos 900);
    exec_failsafe_interval = or_default c.exec_failsafe_interval (pos 300);
    exec_workers = or_default c.exec_workers (pos 1);
    exec_max_ops = or_default c.exec_max_ops (pos 100);
    exec_max_delay = or_default c.exec_max_delay (pos 60);
    rules = c.rules;
  }

  -- `errConfig` after the checks of the options.
  unfoldable pub option_errors : LoaderConfig Config → Bool
  option_errors c =
      is_negative c.exec_startup
      || is_negative c.exec_interval
      || is_negative c.exec_failsafe_interval
      || is_not_positive c.exec_workers
      || is_negative c.exec_max_ops
      || is_negative c.exec_max_delay

module _ {Instance Module Config : Type 0} (kind : Kind Instance Module Config)
    (registry : Dict (ModuleInfo Instance)) where
  checked : LoaderConfig Config → Loaded Module → Result (LoaderConfig Config × Dict Module)
  checked c (failed, parsers) = if option_errors c || failed then err "config" else ok (c, parsers)

  init_config : RawConfig Config → Dict Module → Result (LoaderConfig Config × Dict Module)
  unfolding checked
  init_config raw parsers =
      checked (fill raw) (load_all kind registry "app.loader.parser." raw.rules (false, parsers))

  -- `Init`, with the parsers of the state before it.
  unfoldable pub init :
      Given (RawConfig Config) → Dict Module → Result (LoaderConfig Config × Dict Module)
  unfolding init_config fill option_errors
  init missing parsers = init_config no_config parsers
  init (undecodable e) parsers = wrap "parse config: " (err e)
  init (decoded raw) parsers = init_config raw parsers
