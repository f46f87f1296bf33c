-- ===== src/Tests/Storing.antt =====
-- The cache of the js handler, the memory storage, the store, the registry and the render writers.
use neon_oss.Base.{put, Dict, ℕ, List, [], ◌∷◌, String, none, some, ok, ◌≡◌, arith, get, refl}
use neon_oss.Cache.{Cache, new_cache, cache_get, cache_set}
use neon_oss.Cache.Recency.{Slot, find}
use neon_oss.Cache.Abstract.{Represents, get_spec, set_spec}
use neon_oss.Cache.Laws.{new_cache-Represents, cache_get-Represents, cache_set-Represents}
use neon_oss.Render.Laws.{
  Action, write_bytes, status, redirect_to, header_set, use_pool_many, use_pool_many-fresh,
  fresh_renders,
}
use neon_oss.Resource.{Resource}
use neon_oss.Store
use neon_oss.Store.{StoreState, new_store}
use neon_oss.Modules.{load_module, Kind, missing}
use neon_oss.Storage.{store_resource, cache_set as set_stored, memory_storage, cache_get as stored}
use neon_oss.Storage.Laws.{set, remove, Call, apply_all, history, cache_get-apply_all}
use neon_oss.Registry.{ModuleInfo, lookup}

-- A cache for two items.
abbrev two_places : Cache ℕ
two_places = new_cache 2

cache_set-Represents_example :
    (c' : Cache ℕ) × (cache_set "a" 7 two_places ≡ some c')
    × Represents c' (set_spec 2 two_places.next_id "a" 7 [] (find "a" []))
cache_set-Represents_example =
    cache_set-Represents two_places [] "a" 7 (omega arith) (new_cache-Represents 2)

-- The cache after the first item, and what it represents.
abbrev filled :
    (c' : Cache ℕ) × (cache_set "a" 7 two_places ≡ some c')
    × Represents c' (set_spec 2 two_places.next_id "a" 7 [] (find "a" []))
filled = cache_set-Represents two_places [] "a" 7 (omega arith) (new_cache-Represents 2)

abbrev one_slot : List (Slot ℕ)
one_slot = set_spec 2 two_places.next_id "a" 7 [] (find "a" [])

cache_get-Represents_example :
    ((cache_get "a" filled.0).0 ≡ (get_spec "a" one_slot (find "a" one_slot)).0)
    × Represents (cache_get "a" filled.0).1 (get_spec "a" one_slot (find "a" one_slot)).1
cache_get-Represents_example = cache_get-Represents filled.0 one_slot "a" filled.2

abbrev rounds : List (List Action)
rounds =
    (status 404 ∷ write_bytes (1 ∷ 2 ∷ []) ∷ [])
    ∷ (header_set "A" "b" ∷ redirect_to "/x" 301 ∷ [])
    ∷ (write_bytes (3 ∷ []) ∷ [])
    ∷ []

use_pool_many-fresh_example : (use_pool_many rounds []).0 ≡ fresh_renders rounds
use_pool_many-fresh_example = use_pool_many-fresh rounds

abbrev two_writes : List Action
two_writes = write_bytes (1 ∷ 2 ∷ []) ∷ status 500 ∷ write_bytes (3 ∷ []) ∷ []

abbrev page : Resource
page = record { data_array = (1 ∷ []) ∷ []; ttl = 5 }

abbrev other_page : Resource
other_page = record { data_array = (2 ∷ []) ∷ []; ttl = 6 }

abbrev calls : List Call
calls = set "a" page ∷ set "b" other_page ∷ remove "a" ∷ set "b" page ∷ []

cache_get-apply_all_example : stored "b" (apply_all calls []) ≡ history calls "b" none
cache_get-apply_all_example = cache_get-apply_all calls "b"

abbrev first_module : ModuleInfo ℕ
first_module = record { id = "app"; new_instance = 1 }

abbrev second_module : ModuleInfo ℕ
second_module = record { id = "app"; new_instance = 2 }

-- A store whose storage is the memory storage.
abbrev memory_store : StoreState (Dict Resource)
memory_store = record { storage = some [] }

abbrev memory_after : StoreState (Dict Resource)
memory_after = record { storage = some (("a", page) ∷ []) }

page_stored : Store.store_resource memory_storage "a" page memory_store ≡ some (ok tt, memory_after)
unfolding Store.store_resource store_resource set_stored put
page_stored = refl

-- The module that keeps its resources in memory, as its own registry gives it.
abbrev memory_kind : Kind ℕ (Dict Resource) (Dict String)
memory_kind = record { as_module = λ n. some []; init_module = λ config m. ok m; empty_config = [] }

abbrev memory_module : ModuleInfo ℕ
memory_module = record { id = "app.store.storage.memory"; new_instance = 0 }

memory_loaded :
    Store.init memory_kind ((memory_module.id, memory_module) ∷ []) missing new_store
    ≡ ok memory_store
unfolding Store.init load_module lookup get
memory_loaded = refl
