-- ===== src/Store/Laws.antt =====
-- The store over any storage that keeps its laws, and the store that the default configuration
-- makes.
use neon_oss.Base.{
  Option-cases, inl, inr, Dict, [], ◌∷◌, String, Option, none, some, ok, ◌≡◌, ◌≢◌, arith,
}
use neon_oss.Registry.{ModuleInfo}
use neon_oss.Modules.{Given, missing, undecodable, decoded, Kind}
use neon_oss.Resource.{Resource, Storage, StorageLaws}
use neon_oss.Store.{StoreState, init, load_resource, store_resource}

-- A successful `Init` leaves a storage, whatever the configuration: neither of the store's
-- operations can panic on a nil storage after it.
pub init-ready :
    {Instance Module Config : Type 0} (kind : Kind Instance Module Config)
    (registry : Dict (ModuleInfo Instance)) (given : Given (Dict (Option Config)))
    (methods : Storage Module) (s s' : StoreState Module)
    → init kind registry given s ≡ ok s'
    → (name : String) (r : Resource)
    → (load_resource methods name s' ≢ none) × (store_resource methods name r s' ≢ none)
unfolding init load_resource store_resource
init-ready kind registry missing methods s s' h name r = ground arith
init-ready kind registry (undecodable e) methods s s' h name r = ground arith
init-ready kind registry (decoded []) methods s s' h name r = ground arith
init-ready kind registry (decoded ((k, c) ∷ more)) methods s s' h name r = ground arith

-- On a storage that keeps its laws: after a store that returned no error, the name loads as the
-- resource stored, and every other name as before.
pub load-store :
    {Module : Type 0} (methods : Storage Module) (laws : StorageLaws methods) (name other : String)
    (r : Resource) (s s' : StoreState Module)
    → store_resource methods name r s ≡ some (ok tt, s')
    → name ≢ other
    → (load_resource methods name s' ≡ some (ok r))
      × (load_resource methods other s' ≡ load_resource methods other s)
unfolding load_resource store_resource
load-store methods laws name other r s s' h ne = elim (Option-cases s.storage) [
  | inl e ↦ ground arith
  | inr (m, e) ↦ ground (arith, laws.load-store_self name r m, laws.load-store_ne name other r m)
]
