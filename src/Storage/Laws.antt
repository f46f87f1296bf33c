-- ===== src/Storage/Laws.antt =====
-- The memory storage keeps the laws of a storage; its map forgets what is cleared.
use text.Mathlib.TextPositions.{eq_refl}
use neon_oss.Base.{
  sym, ap, Bool-cases, inl, inr, Dict, get, delete, get-put, get-delete, List, [], ◌∷◌, String,
  Option, none, some, ok, ◌≡◌, refl, arith, eq_iff, str_eq, if◌then◌else◌, ◌∙◌,
}
use neon_oss.Resource.{Resource, StorageLaws}
use neon_oss.Storage.{
  clear_from, cache_clear, cache_get, cache_set, cache_remove, load_resource, store_resource,
  memory_storage,
}

module _ {V : Type 0} where
  get-clear_from-none :
      (key : String) (entries m : Dict V) → get key m ≡ none → get key (clear_from entries m) ≡ none
  unfolding clear_from
  get-clear_from-none key [] m h = h
  get-clear_from-none key ((k, v) ∷ more) m h =
      get-clear_from-none key more (delete k m) (ground (arith, get-delete k key m))

  get-clear_from :
      (key : String) (entries m : Dict V)
      → get key entries ≡ get key m
      → get key (clear_from entries m) ≡ none
  unfolding clear_from get
  get-clear_from key [] m h = sym h
  get-clear_from key ((k, v) ∷ more) m h = elim (Bool-cases (str_eq k key)) [
    | inl same ↦ get-clear_from-none key more (delete k m) (rw (get-delete k key m, same))
    | inr other ↦
        get-clear_from key more (delete k m) (rw (get-delete k key m, other) (ground arith))
  ]

  -- After `Clear` no key has a value.
  pub cache_get-cache_clear : (key : String) (m : Dict V) → cache_get key (cache_clear m) ≡ none
  unfolding cache_get cache_clear
  cache_get-cache_clear key m = get-clear_from key m m refl

load-store :
    (name other : String) (r : Resource) (m : Dict Resource)
    → load_resource other (store_resource name r m).1
      ≡ (if str_eq name other then ok r else load_resource other m)
unfolding load_resource store_resource
load-store name other r m = ground (arith, get-put name other r m)

-- The memory storage returns the resource that was last stored under a name, and a store changes
-- no other name.
pub memory_storage-StorageLaws : StorageLaws memory_storage
memory_storage-StorageLaws = record {
  load-store_self = λ name r m _. load-store name name r m ∙ rw (eq_refl name);
  load-store_ne = λ name other r m h. load-store name other r m ∙ ground (arith, eq_iff name other);
}

-- The calls that change the storage, and what a sequence of them leaves.
pub data Call : Type 0 where
  set : String → Resource → Call
  remove : String → Call
  clear : Call

pub apply : Call → Dict Resource → Dict Resource
apply (set key r) m = cache_set key r m
apply (remove key) m = cache_remove key m
apply clear m = cache_clear m

-- The history says it: the last call that concerns the key decides.
pub step : Call → String → Option Resource → Option Resource
step (set k r) key before = if str_eq k key then some r else before
step (remove k) key before = if str_eq k key then none else before
step clear key before = none

pub apply_all : List Call → Dict Resource → Dict Resource
apply_all [] m = m
apply_all (c ∷ more) m = apply_all more (apply c m)

pub history : List Call → String → Option Resource → Option Resource
history [] key o = o
history (c ∷ more) key o = history more key (step c key o)

get-apply :
    (c : Call) (key : String) (m : Dict Resource)
    → cache_get key (apply c m) ≡ step c key (cache_get key m)
unfolding apply step cache_get cache_set cache_remove
get-apply (set k r) key m = get-put k key r m
get-apply (remove k) key m = get-delete k key m
get-apply clear key m = unfold cache_get in cache_get-cache_clear key m

cache_get-apply_all-from :
    (calls : List Call) (key : String) (m : Dict Resource)
    → cache_get key (apply_all calls m) ≡ history calls key (cache_get key m)
unfolding apply_all history
cache_get-apply_all-from [] key m = refl
cache_get-apply_all-from (c ∷ more) key m =
    cache_get-apply_all-from more key (apply c m) ∙ ap (history more key) (get-apply c key m)

-- After any sequence of calls on a new cache, a key has the value of the last call that concerns
-- it: the stored value after a set of that key, and none after a removal of it, a clear, or no
-- such call.
pub cache_get-apply_all :
    (calls : List Call) (key : String) → cache_get key (apply_all calls []) ≡ history calls key none
unfolding cache_get
cache_get-apply_all calls key = cache_get-apply_all-from calls key []
