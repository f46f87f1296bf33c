-- ===== src/Cache/Abstract.antt =====
-- The abstract cache: slots in the order of their use, and what a read and a store make of them.
use neon_oss.Base.{
  str_eq, leb, if◌then◌else◌, ◌≤◌, length, ◌≢◌, ◌<◌, All, arith, Dict, Distinct, ◌≡◌, get, ℕ,
  String, Option, none, some, List, ◌∷◌,
}
use neon_oss.Cache.{CacheItem, Cache, move_to_front}
use neon_oss.Cache.Recency.{
  find-without, length-without_found, All-without, find-lt_id, Apart-without, All-ne_id_without,
  All-ne_key_without, All-pair, remove_element-elements, Slot, elements, find, without, drop_last,
  Apart,
}

-- The cache `c` holds the slots `xs`, in their order of use.
pub record Represents {V : Type 0} (c : Cache V) (xs : List (Slot V)) : Type 0 where
  pub listed : c.l ≡ elements xs
  pub table : (k : String) → get k c.m ≡ find k xs
  pub keys : Distinct c.m
  pub apart : Apart xs
  pub older : All (λ s. s.id < c.next_id) xs
  pub fits : length xs ≤ c.capacity

module _ {V : Type 0} where
  -- A use of `k` brings its slot to the front, with the value `v`.
  abbrev pub used : String → V → CacheItem V → List (Slot V) → List (Slot V)
  used k v i xs = record { id = i.e; key = k; value = v } ∷ without k xs

  unfoldable pub get_spec : String → List (Slot V) → Option (CacheItem V) → Option V × List (Slot V)
  get_spec k xs none = (none, xs)
  get_spec k xs (some i) = (some i.v, used k i.v i xs)

  -- A new key takes the place of the one used longest ago if the cache is full.
  abbrev pub room : ℕ → List (Slot V) → List (Slot V)
  room capacity xs = if leb capacity (length xs) then drop_last xs else xs

  unfoldable pub set_spec :
      ℕ → ℕ → String → V → List (Slot V) → Option (CacheItem V) → List (Slot V)
  set_spec capacity next k v xs none = record { id = next; key = k; value = v } ∷ room capacity xs
  set_spec capacity next k v xs (some i) = used k v i xs

  pub find-used :
      (k j : String) (v : V) (i : CacheItem V) (xs : List (Slot V))
      → find j (used k v i xs)
        ≡ (if str_eq k j then some (record { v = v; e = i.e }) else find j xs)
  unfolding find
  find-used k j v i xs = ground (arith, find-without k j xs)

  move_to_front-used :
      (k : String) (v : V) (i : CacheItem V) (xs : List (Slot V))
      → find k xs ≡ some i
      → Apart xs
      → move_to_front i.e (elements xs) ≡ elements (used k v i xs)
  unfolding move_to_front
  move_to_front-used k v i xs e h = ground (arith, remove_element-elements k xs i e h)

  -- The list after a use of a key that is there.
  pub Represents-used :
      (c : Cache V) (xs : List (Slot V)) (k : String) (v : V) (i : CacheItem V)
      → Represents c xs
      → find k xs ≡ some i
      → (m : Dict (CacheItem V)) → Distinct m
      → ((j : String) → get j m ≡ find j (used k v i xs))
      → Represents (record c { l = move_to_front i.e c.l; m = m }) (used k v i xs)
  Represents-used c xs k v i r e m dist table = record {
    listed = rw r.listed (move_to_front-used k v i xs e r.apart);
    table = table;
    keys = dist;
    apart = (
      All-pair (λ t. k ≢ t.key) (λ t. i.e ≢ t.id) (without k xs) (All-ne_key_without k xs)
          (All-ne_id_without k xs i e r.apart),
      Apart-without k xs r.apart,
    );
    older =
        (find-lt_id c.next_id k xs i e r.older, All-without (λ s. s.id < c.next_id) k xs r.older);
    fits = omega (arith, length-without_found k xs i e, r.fits);
  }
