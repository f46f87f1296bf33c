-- ===== src/Store.antt =====
-- internal/app/neon/store.go: the store, which hands every call to its storage module. The
-- mediator's methods hold its lock and call the same operations.
pub mod Laws
use neon_oss.Base.{
  Bool, true, false, Dict, List, [], ◌∷◌, String, Option, none, some, Result, ok, err, wrap, ◌>>=◌,
}
use neon_oss.Registry.{ModuleInfo}
use neon_oss.Modules.{Given, missing, undecodable, decoded, Kind, load_module}
use neon_oss.Resource.{Resource, Storage}

-- The field `storage` of the state; nil before `Init`.
pub record StoreState (Module : Type 0) : Type 0 where
  pub storage : Option Module

abbrev pub new_store : {Module : Type 0} → StoreState Module
new_store = record { storage = none }

module _ {Instance Module Config : Type 0} (kind : Kind Instance Module Config)
    (registry : Dict (ModuleInfo Instance)) where
  -- The loop over the configured storages: every round ends in a `break`, and any failure becomes
  -- the error "config".
  init_storages : Dict (Option Config) → StoreState Module → Result (StoreState Module)
  init_storages [] s = err "config"
  init_storages ((storage, config) ∷ more) s =
      elim (load_module kind registry "app.store.storage." storage config) [
        | ok m ↦ ok (record s { storage = some m })
        | err e ↦ err "config"
      ]

  -- `Init`
  unfoldable pub init :
      Given (Dict (Option Config)) → StoreState Module → Result (StoreState Module)
  unfolding init_storages
  init missing s = init_storages (("memory", some kind.empty_config) ∷ []) s
  init (undecodable e) s = wrap "parse config: " (err e)
  init (decoded storages) s = init_storages storages s

module _ {Module : Type 0} (methods : Storage Module) where
  -- `LoadResource`: `none` is the panic of a call on a nil storage.
  unfoldable pub load_resource : String → StoreState Module → Option (Result Resource)
  load_resource name s = elim s.storage [
    | none ↦ none
    | some m ↦ some (wrap "load resource: " (methods.load_resource name m))
  ]

  -- `StoreResource`
  unfoldable pub store_resource :
      String → Resource → StoreState Module → Option (Result (Unit {0}) × StoreState Module)
  store_resource name r s = elim s.storage [
    | none ↦ none
    | some m ↦
        let (result, m') = methods.store_resource name r m in
        some (wrap "store resource: " result, record s { storage = some m' })
  ]
