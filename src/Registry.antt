-- ===== src/Registry.antt =====
-- pkg/module/module.go: the table of registered modules. `Instance` stands for what a module's
-- `NewInstance` returns, which the table only hands on.
pub mod Laws
use neon_oss.Base.{
  Bool, true, false, Dict, get, put, List, [], ◌∷◌, String, Option, none, some, Result, ok, err,
}
use Prim.Native.String

pub record ModuleInfo (Instance : Type 0) : Type 0 where
  pub id : String
  pub new_instance : Instance

module _ {Instance : Type 0} where
  or_insert :
      Option (ModuleInfo Instance)
      → ModuleInfo Instance
      → Dict (ModuleInfo Instance)
      → Dict (ModuleInfo Instance)
  or_insert (some _) info modules = modules
  or_insert none info modules = put info.id info modules

  -- `Register`: a module that is there already stays.
  unfoldable pub register :
      ModuleInfo Instance → Dict (ModuleInfo Instance) → Dict (ModuleInfo Instance)
  unfolding or_insert
  register info modules = or_insert (get info.id modules) info modules

  found_or : String → Option (ModuleInfo Instance) → Result (ModuleInfo Instance)
  found_or id none = err (String.◌++◌ "module '" (String.◌++◌ id "' not registered"))
  found_or id (some info) = ok info

  -- `Lookup`
  unfoldable pub lookup : String → Dict (ModuleInfo Instance) → Result (ModuleInfo Instance)
  unfolding found_or
  lookup id modules = found_or id (get id modules)

  -- The package initialisers of a program run one after another.
  unfoldable pub register_all :
      List (ModuleInfo Instance) → Dict (ModuleInfo Instance) → Dict (ModuleInfo Instance)
  register_all [] modules = modules
  register_all (info ∷ more) modules = register_all more (register info modules)
