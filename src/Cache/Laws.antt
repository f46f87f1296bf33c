-- ===== src/Cache/Laws.antt =====
-- The map and the list of the cache together implement the abstract cache.
use text.Mathlib.TextPositions.{eq_refl}
use neon_oss.Base.{
  true, false, get_absent, sym, ap, suc, put, inr, ◌∙◌, Distinct-delete, inl, Distinct-put,
  get-delete, sym, Option-cases, Bool-cases, get-put, delete, eq_iff, leb, refl, length, ◌≢◌, ◌<◌,
  arith, Dict, Distinct, ◌≡◌, get, ℕ, String, none, some, List, [], ◌∷◌,
}
use neon_oss.Cache.{
  touch, drop_back, remove_element, cache_clear, cache_remove, cache_set, cache_get, clear_from,
  set_item, push_front, evict, remove_item, pushed, CacheItem, Cache, new_cache,
}
use neon_oss.Cache.Recency.{
  without_absent, length-drop_last, All-drop_last, All-older, Apart-drop_last, All-fresh_id,
  remove_element-last, length-without, All-ne_key, back-elements, last, find-drop_last,
  find-without, All-without, Apart-without, All-pair, remove_element-elements, Slot, elements, find,
  without, drop_last, Apart,
}
use neon_oss.Cache.Abstract.{Represents-used, find-used, Represents, used, get_spec, room, set_spec}

module _ {V : Type 0} where
  find-used_same :
      (k j : String) (i : CacheItem V) (xs : List (Slot V))
      → find k xs ≡ some i
      → find j (used k i.v i xs) ≡ find j xs
  find-used_same k j i xs e = ground (arith, find-used k j i.v i xs, eq_iff k j)

  Represents-removed :
      (c : Cache V) (xs : List (Slot V)) (k : String) (i : CacheItem V)
      → Represents c xs
      → find k xs ≡ some i
      → Represents (record c { m = delete k c.m; l = remove_element i.e c.l }) (without k xs)
  Represents-removed c xs k i r e = record {
    listed = rw r.listed (remove_element-elements k xs i e r.apart).0;
    table = λ j. ground (arith, get-delete k j c.m, find-without k j xs, r.table j);
    keys = Distinct-delete k c.m r.keys;
    apart = Apart-without k xs r.apart;
    older = All-without (λ s. s.id < c.next_id) k xs r.older;
    fits = omega (arith, length-without k xs, r.fits);
  }

  -- The cache after the eviction of the key used longest ago.
  Represents-evicted :
      (c : Cache V) (s : Slot V) (xs : List (Slot V))
      → Represents c (s ∷ xs)
      → (c' : Cache V) × (evict c ≡ some c')
        × Represents c' (drop_last (s ∷ xs))
        × (c'.next_id ≡ c.next_id)
        × (c'.capacity ≡ c.capacity)
  unfolding evict drop_back
  Represents-evicted c s xs r = (
    record c { m = delete (last s xs).key c.m; l = remove_element (last s xs).id c.l },
    rw (r.listed, back-elements s xs),
    record {
      listed = rw r.listed (remove_element-last s xs r.apart);
      table = λ j.
          ground
            (arith, get-delete (last s xs).key j c.m, find-drop_last j s xs r.apart, r.table j);
      keys = Distinct-delete (last s xs).key c.m r.keys;
      apart = Apart-drop_last s xs r.apart;
      older = All-drop_last (λ t. t.id < c.next_id) s xs r.older;
      fits = omega (arith, length-drop_last s xs, r.fits);
    },
    refl,
    refl,
  )

  Represents-push_front :
      (c : Cache V) (xs : List (Slot V)) (k : String) (v : V) (n : ℕ)
      → n ≡ c.next_id
      → Represents c xs
      → find k xs ≡ none
      → length xs < c.capacity
      → Represents (push_front k v c) (record { id = n; key = k; value = v } ∷ xs)
  unfolding push_front find
  Represents-push_front c xs k v n same r e h = record {
    listed = ground (arith, r.listed);
    table = λ j.
        ground (arith, get-put k j (record { v = v; e = c.next_id }) c.m, r.table j, eq_iff k j);
    keys = Distinct-put k _ c.m r.keys;
    apart = (
      All-pair (λ t. k ≢ t.key) (λ t. n ≢ t.id) xs (All-ne_key k xs e)
          (rw same (All-fresh_id c.next_id xs r.older)),
      r.apart,
    );
    older = (omega arith, All-older c.next_id xs r.older);
    fits = omega arith;
  }

  length-elements : (xs : List (Slot V)) → length (elements xs) ≡ length xs
  length-elements [] = refl
  length-elements (s ∷ xs) = ap suc (length-elements xs)

  find-none-drop_last :
      (k : String) (s : Slot V) (xs : List (Slot V))
      → Apart (s ∷ xs)
      → find k (s ∷ xs) ≡ none
      → find k (drop_last (s ∷ xs)) ≡ none
  find-none-drop_last k s xs h e = ground (arith, find-drop_last k s xs h)

  set_item-full :
      (c c1 : Cache V) (k : String) (v : V)
      → leb c.capacity (length c.l) ≡ true
      → evict c ≡ some c1
      → set_item k v c none ≡ some (push_front k v c1)
  unfolding set_item pushed
  set_item-full c c1 k v full e = rw (full, e)

  length_listed : (c : Cache V) (xs : List (Slot V)) → c.l ≡ elements xs → length c.l ≡ length xs
  length_listed c xs h = ap length h ∙ length-elements xs

  set_new :
      (c : Cache V) (xs : List (Slot V)) (k : String) (v : V)
      → 0 < c.capacity
      → Represents c xs
      → find k xs ≡ none
      → (c' : Cache V) × (set_item k v c none ≡ some c')
        × Represents c' (record { id = c.next_id; key = k; value = v } ∷ room c.capacity xs)
  unfolding set_item pushed
  set_new c [] k v h r e =
      let full : leb c.capacity 0 ≡ false = ground arith in
      (
        push_front k v c,
        rw (r.listed, full),
        rw full (Represents-push_front c [] k v c.next_id refl r e (omega arith)),
      )
  set_new c (s ∷ xs) k v h r e = elim (Bool-cases (leb c.capacity (length (s ∷ xs)))) [
    | inl full ↦
        let (c1, evicted, r1, same, capacity) = Represents-evicted c s xs r in
        (
          push_front k v c1,
          set_item-full c c1 k v (rw (length_listed c (s ∷ xs) r.listed) full) evicted,
          rw full (
              Represents-push_front c1 (drop_last (s ∷ xs)) k v c.next_id (sym same) r1
                (find-none-drop_last k s xs r.apart e)
                (omega (arith, length-drop_last s xs, r.fits, capacity))),
        )
    | inr free ↦ (
      push_front k v c,
      rw (r.listed, length-elements xs, free),
      rw free (Represents-push_front c (s ∷ xs) k v c.next_id refl r e (ground arith)),
    )
  ]

  found_head : (s : Slot V) (xs : List (Slot V)) → ¬ (find s.key (s ∷ xs) ≡ none)
  unfolding find
  found_head s xs e = ground (arith, eq_refl s.key)

  clear_from-Represents :
      (entries : Dict (CacheItem V)) (c : Cache V) (xs : List (Slot V))
      → Represents c xs
      → Distinct entries
      → ((j : String) → find j xs ≡ get j entries)
      → Represents (clear_from entries c) []
  unfolding clear_from get
  clear_from-Represents [] c [] r d same = r
  clear_from-Represents [] c (s ∷ xs) r d same = absurd (found_head s xs (same s.key))
  clear_from-Represents ((k, i) ∷ more) c xs r d same =
      clear_from-Represents more _ (without k xs)
        (Represents-removed c xs k i r (ground (arith, same k, eq_refl k))) d.1
        (λ j. ground (arith, find-without k j xs, same j, get_absent k more d.0, eq_iff k j))

-- A new cache holds nothing.
pub new_cache-Represents : {V : Type 0} (capacity : ℕ) → Represents (new_cache {V = V} capacity) []
unfolding get find
new_cache-Represents capacity = record {
  listed = refl;
  table = λ k. refl;
  keys = tt;
  apart = tt;
  older = tt;
  fits = omega arith;
}

-- `Get` returns the value that the abstract cache has for the key, and makes the key the one used
-- last; a missing key gives nil and changes nothing.
pub cache_get-Represents :
    {V : Type 0} (c : Cache V) (xs : List (Slot V)) (k : String)
    → Represents c xs
    → ((cache_get k c).0 ≡ (get_spec k xs (find k xs)).0)
      × Represents (cache_get k c).1 (get_spec k xs (find k xs)).1
unfolding cache_get touch get_spec
cache_get-Represents c xs k r = elim (Option-cases (find k xs)) [
  | inl e ↦ let e' : get k c.m ≡ none = r.table k ∙ e in rw (e, e') (refl, r)
  | inr (i, e) ↦
      let e' : get k c.m ≡ some i = r.table k ∙ e in
      rw (e, e')
        (
          refl,
          Represents-used c xs k i.v i r e c.m r.keys
              (λ j. r.table j ∙ sym (find-used_same k j i xs e)),
        )
]

-- `Set` on a cache with room for at least one item never panics. It stores the value, makes the key
-- the one used last, and drops only the key used longest ago, and that only when a new key meets
-- a full cache. The number of items never passes the capacity.
pub cache_set-Represents :
    {V : Type 0} (c : Cache V) (xs : List (Slot V)) (k : String) (v : V)
    → 0 < c.capacity
    → Represents c xs
    → (c' : Cache V) × (cache_set k v c ≡ some c')
      × Represents c' (set_spec c.capacity c.next_id k v xs (find k xs))
unfolding cache_set set_item set_spec
cache_set-Represents c xs k v h r = elim (Option-cases (find k xs)) [
  | inl e ↦ let e' : get k c.m ≡ none = r.table k ∙ e in rw (e, e') (set_new c xs k v h r e)
  | inr (i, e) ↦
      let e' : get k c.m ≡ some i = r.table k ∙ e in
      rw (e, e')
        (
          _,
          refl,
          Represents-used c xs k v i r e (put k (record i { v = v }) c.m)
              (Distinct-put k _ c.m r.keys)
              (λ j.
                ground
                  (arith, get-put k j (record i { v = v }) c.m, find-used k j v i xs, r.table j)),
        )
]

-- `Remove` forgets the key and nothing else.
pub cache_remove-Represents :
    {V : Type 0} (c : Cache V) (xs : List (Slot V)) (k : String)
    → Represents c xs
    → Represents (cache_remove k c) (without k xs)
unfolding cache_remove remove_item
cache_remove-Represents c xs k r = elim (Option-cases (find k xs)) [
  | inl e ↦
      let e' : get k c.m ≡ none = r.table k ∙ e in
      rw (e', without_absent k xs (All-ne_key k xs e)) r
  | inr (i, e) ↦
      let e' : get k c.m ≡ some i = r.table k ∙ e in rw e' (Represents-removed c xs k i r e)
]

-- `Clear` leaves no item.
pub cache_clear-Represents :
    {V : Type 0} (c : Cache V) (xs : List (Slot V))
    → Represents c xs
    → Represents (cache_clear c) []
unfolding cache_clear
cache_clear-Represents c xs r = clear_from-Represents c.m c xs r r.keys (λ j. sym (r.table j))
