-- ===== src/Cache.antt =====
-- pkg/modules/app/server/site/handlers/js/cache.go: the cache of rendered pages, a map beside a
-- list of keys with the one used last in front. An element of the list has an identity, which the
-- map's items refer to; `next_id` gives the identity of the next element. Each method holds the
-- lock for its whole body, so a call is one step.
pub mod Recency
pub mod Abstract
pub mod Laws
use neon_oss.Base.{
  ℕ, ◌+◌, Bool, Dict, get, put, delete, List, [], ◌∷◌, String, Option, none, some, ◌==◌, leb,
  length, if◌then◌else◌,
}

-- A `list.Element` that holds a key.
pub record Element : Type 0 where
  pub id : ℕ
  pub value : String

-- The type `cacheItem`, its element by identity.
pub record CacheItem (V : Type 0) : Type 0 where
  pub v : V
  pub e : ℕ

-- The type `cache`.
pub record Cache (V : Type 0) : Type 0 where
  pub capacity : ℕ
  pub m : Dict (CacheItem V)
  pub l : List Element
  pub next_id : ℕ

-- `list.Remove`
pub remove_element : ℕ → List Element → List Element
remove_element id [] = []
remove_element id (x ∷ xs) = if x.id == id then xs else x ∷ remove_element id xs

pub find_element : ℕ → List Element → Option Element
find_element id [] = none
find_element id (x ∷ xs) = if x.id == id then some x else find_element id xs

-- `list.MoveToFront`: an element that is not of the list is left alone.
unfoldable pub move_to_front : ℕ → List Element → List Element
move_to_front id xs = elim (find_element id xs) [ none ↦ xs | some x ↦ x ∷ remove_element id xs ]

-- `list.Back`
pub back : List Element → Option Element
back [] = none
back (x ∷ []) = some x
back (x ∷ y ∷ xs) = back (y ∷ xs)

module _ {V : Type 0} where
  -- `newCache`
  abbrev pub new_cache : ℕ → Cache V
  new_cache capacity = record { capacity = capacity; m = []; l = []; next_id = 0 }

  touch : Cache V → Option (CacheItem V) → Option V × Cache V
  touch c none = (none, c)
  touch c (some i) = (some i.v, record c { l = move_to_front i.e c.l })

  -- `Get`
  unfoldable pub cache_get : String → Cache V → Option V × Cache V
  unfolding touch move_to_front
  cache_get key c = touch c (get key c.m)

  push_front : String → V → Cache V → Cache V
  push_front key value c = record c {
    m = put key (record { v = value; e = c.next_id }) c.m;
    l = record { id = c.next_id; value = key } ∷ c.l;
    next_id = c.next_id + 1;
  }

  drop_back : Cache V → Option Element → Option (Cache V)
  drop_back c none = none
  drop_back c (some x) = some (record c { m = delete x.value c.m; l = remove_element x.id c.l })

  -- `c.l.Remove(c.l.Back())` and the deletion of its key; `none` is the panic on an empty list.
  evict : Cache V → Option (Cache V)
  unfolding drop_back
  evict c = drop_back c (back c.l)

  pushed : String → V → Option (Cache V) → Option (Cache V)
  pushed key value none = none
  pushed key value (some c) = some (push_front key value c)

  set_item : String → V → Cache V → Option (CacheItem V) → Option (Cache V)
  set_item key value c (some i) =
      some (record c { m = put key (record i { v = value }) c.m; l = move_to_front i.e c.l })
  set_item key value c none =
      if leb c.capacity (length c.l)
      then pushed key value (evict c)
      else some (push_front key value c)

  -- `Set`
  unfoldable pub cache_set : String → V → Cache V → Option (Cache V)
  unfolding set_item pushed push_front evict move_to_front
  cache_set key value c = set_item key value c (get key c.m)

  remove_item : String → Cache V → Option (CacheItem V) → Cache V
  remove_item key c none = c
  remove_item key c (some i) = record c { m = delete key c.m; l = remove_element i.e c.l }

  -- `Remove`
  unfoldable pub cache_remove : String → Cache V → Cache V
  unfolding remove_item
  cache_remove key c = remove_item key c (get key c.m)

  clear_from : Dict (CacheItem V) → Cache V → Cache V
  clear_from [] c = c
  clear_from ((key, i) ∷ more) c =
      clear_from more (record c { m = delete key c.m; l = remove_element i.e c.l })

  -- `Clear`
  unfoldable pub cache_clear : Cache V → Cache V
  unfolding clear_from
  cache_clear c = clear_from c.m c
