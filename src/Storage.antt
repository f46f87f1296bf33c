-- ===== src/Storage.antt =====
-- pkg/modules/app/store/storage/memory: the map behind the memory storage (cache.go) and the
-- storage module itself (memory.go). Each method holds the lock for its whole body, so a call is
-- one step.
pub mod Laws
use neon_oss.Base.{
  Bool, true, false, Dict, get, put, delete, List, [], ◌∷◌, String, Option, none, some, Result, ok,
  err,
}
use neon_oss.Resource.{Resource, Storage}

module _ {V : Type 0} where
  -- `newCache`
  abbrev pub new_cache : Dict V
  new_cache = []

  -- `Get`: nil for a missing key.
  unfoldable pub cache_get : String → Dict V → Option V
  unfolding get
  cache_get key m = get key m

  -- `Set`
  unfoldable pub cache_set : String → V → Dict V → Dict V
  unfolding put
  cache_set key value m = put key value m

  -- `Remove`
  unfoldable pub cache_remove : String → Dict V → Dict V
  unfolding delete
  cache_remove key m = delete key m

  clear_from : Dict V → Dict V → Dict V
  clear_from [] m = m
  clear_from ((key, _) ∷ more) m = clear_from more (delete key m)

  -- `Clear`: the loop over the keys deletes each of them.
  unfoldable pub cache_clear : Dict V → Dict V
  unfolding clear_from
  cache_clear m = clear_from m m

as_resource : Option Resource → Result Resource
as_resource none = err "no resource"
as_resource (some r) = ok r

-- `LoadResource`
unfoldable pub load_resource : String → Dict Resource → Result Resource
unfolding as_resource cache_get
load_resource name m = as_resource (cache_get name m)

-- `StoreResource`
unfoldable pub store_resource :
    String → Resource → Dict Resource → Result (Unit {0}) × Dict Resource
unfolding cache_set
store_resource name r m = (ok tt, cache_set name r m)

-- The memory storage as a storage module.
abbrev pub memory_storage : Storage (Dict Resource)
memory_storage = record { load_resource = load_resource; store_resource = store_resource }
