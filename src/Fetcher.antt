-- ===== src/Fetcher.antt =====
-- internal/app/neon/fetcher.go: the providers and the choice of one for a fetch. `World` is what a
-- fetch reads and changes outside the program.
pub mod Laws
use neon_oss.Base.{
  Bool, true, false, ◌||◌, Dict, get, put, List, [], ◌∷◌, String, Option, none, some, Result, ok,
  err, wrap, if◌then◌else◌,
}
use neon_oss.Exec.{Exec, wrapping, raise}
use neon_oss.Registry.{ModuleInfo}
use neon_oss.Modules.{Given, missing, undecodable, decoded, Kind, load_module}
use neon_oss.Resource.{Resource}
use Prim.Native.String

-- The first component of the loops' result is `errConfig`.
abbrev pub Loaded : Type 0 → Type 0
Loaded Module = Bool × Dict Module

module _ {Instance Module Config : Type 0} (kind : Kind Instance Module Config)
    (registry : Dict (ModuleInfo Instance)) (prefix : String) where
  -- The loop over the modules of one provider (or of one loader rule): a failure sets `errConfig`
  -- and goes on to the next module, the first success is kept and ends the loop.
  unfoldable pub load_first : String → Dict (Option Config) → Loaded Module → Loaded Module
  load_first name [] (failed, loaded) = (failed, loaded)
  load_first name ((module_name, config) ∷ more) (failed, loaded) =
      let rest = load_first name more (true, loaded) in
      elim (load_module kind registry prefix module_name config) [
        | ok m ↦ (failed, put name m loaded)
        | err e ↦ rest
      ]

  -- The loop over the providers (or over the rules).
  unfoldable pub load_all : Dict (Dict (Option Config)) → Loaded Module → Loaded Module
  load_all [] acc = acc
  load_all ((name, modules) ∷ more) acc = load_all more (load_first name modules acc)

config_error : {A : Type 0} → Bool × A → Result A
config_error (failed, a) = if failed then err "config" else ok a

module _ {Instance Module Config : Type 0} (kind : Kind Instance Module Config)
    (registry : Dict (ModuleInfo Instance)) where
  -- `Init`, from the providers of the state before it.
  unfoldable pub init : Given (Dict (Dict (Option Config))) → Dict Module → Result (Dict Module)
  unfolding config_error
  init missing providers = ok providers
  init (undecodable e) providers = wrap "parse config: " (err e)
  init (decoded config) providers =
      config_error (load_all kind registry "app.fetcher.provider." config (false, providers))

module _ {Module Config World : Type 0}
    (module_fetch : Module → String → Config → Exec World Resource) where
  fetch_with : String → Config → Option Module → Exec World Resource
  fetch_with name config none = raise "provider not found"
  fetch_with name config (some m) =
      wrapping (String.◌++◌ "fetch resource " (String.◌++◌ name ": ")) (module_fetch m name config)

  -- `Fetch`
  unfoldable pub fetch : Dict Module → String → String → Config → Exec World Resource
  unfolding fetch_with
  fetch providers name provider config = fetch_with name config (get provider providers)
