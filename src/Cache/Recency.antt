-- ===== src/Cache/Recency.antt =====
-- The abstract cache: the keys with their values, the one used last in front. A slot also names
-- the list element that stands for it.
use neon_oss.Base.{
  ◌+◌, ◌≤◌, sym, suc, ap, length, inr, inl, Bool-cases, ℕ, ◌<◌, List, [], ◌∷◌, String, Option, none,
  some, ◌≡◌, ◌≢◌, refl, arith, eq_iff, str_eq, if◌then◌else◌, All,
}
use neon_oss.Cache.{back, Element, CacheItem, remove_element, find_element}

pub record Slot (V : Type 0) : Type 0 where
  pub id : ℕ
  pub key : String
  pub value : V

module _ {V : Type 0} where
  abbrev pub element : Slot V → Element
  element s = record { id = s.id; value = s.key }

  abbrev pub elements : List (Slot V) → List Element
  elements [] = []
  elements (s ∷ xs) = element s ∷ elements xs

  unfoldable pub find : String → List (Slot V) → Option (CacheItem V)
  find k [] = none
  find k (s ∷ xs) = if str_eq s.key k then some (record { v = s.value; e = s.id }) else find k xs

  unfoldable pub without : String → List (Slot V) → List (Slot V)
  without k [] = []
  without k (s ∷ xs) = let rest = without k xs in if str_eq s.key k then rest else s ∷ rest

  -- All but the one used longest ago.
  unfoldable pub drop_last : List (Slot V) → List (Slot V)
  drop_last [] = []
  drop_last (s ∷ []) = []
  drop_last (s ∷ t ∷ xs) = s ∷ drop_last (t ∷ xs)

  unfoldable pub last_key : List (Slot V) → Option String
  last_key [] = none
  last_key (s ∷ []) = some s.key
  last_key (s ∷ t ∷ xs) = last_key (t ∷ xs)

  -- No two slots share a key or an element.
  abbrev pub Apart : List (Slot V) → Type 0
  Apart [] = Unit
  Apart (s ∷ xs) = All (λ t. (s.key ≢ t.key) × (s.id ≢ t.id)) xs × Apart xs

  pub find-without :
      (k j : String) (xs : List (Slot V))
      → find j (without k xs) ≡ (if str_eq k j then none else find j xs)
  unfolding find without
  find-without k j [] = ground arith
  find-without k j (s ∷ xs) =
      ground (arith, find-without k j xs, eq_iff s.key k, eq_iff s.key j, eq_iff k j)

  pub All-without :
      (P : Slot V → Type 0) (k : String) (xs : List (Slot V)) → All P xs → All P (without k xs)
  unfolding without
  All-without P k [] h = tt
  All-without P k (s ∷ xs) h = ground (arith, All-without P k xs h.1)

  pub Apart-without : (k : String) (xs : List (Slot V)) → Apart xs → Apart (without k xs)
  unfolding without
  Apart-without k [] h = tt
  Apart-without k (s ∷ xs) h =
      ground
        (arith, Apart-without k xs h.1, All-without (λ t. (s.key ≢ t.key) × (s.id ≢ t.id)) k xs h.0)

  -- The element that a key stands for is one of the slots'.
  pub find-ne_id :
      (id : ℕ) (k : String) (xs : List (Slot V)) (i : CacheItem V)
      → find k xs ≡ some i
      → All (λ t. id ≢ t.id) xs
      → id ≢ i.e
  unfolding find
  find-ne_id id k [] i e h = cc
  find-ne_id id k (s ∷ xs) i e h = ground (arith, find-ne_id id k xs i)

  pub find-lt_id :
      (n : ℕ) (k : String) (xs : List (Slot V)) (i : CacheItem V)
      → find k xs ≡ some i
      → All (λ t. t.id < n) xs
      → i.e < n
  unfolding find
  find-lt_id n k [] i e h = cc
  find-lt_id n k (s ∷ xs) i e h = ground (arith, find-lt_id n k xs i)

  pub without_absent :
      (k : String) (xs : List (Slot V)) → All (λ t. k ≢ t.key) xs → without k xs ≡ xs
  unfolding without
  without_absent k [] h = refl
  without_absent k (s ∷ xs) h = ground (arith, without_absent k xs h.1, eq_iff s.key k)

  All-fst : (P Q : Slot V → Type 0) (xs : List (Slot V)) → All (λ t. P t × Q t) xs → All P xs
  All-fst P Q [] h = tt
  All-fst P Q (x ∷ xs) h = (h.0.0, All-fst P Q xs h.1)

  All-snd : (P Q : Slot V → Type 0) (xs : List (Slot V)) → All (λ t. P t × Q t) xs → All Q xs
  All-snd P Q [] h = tt
  All-snd P Q (x ∷ xs) h = (h.0.1, All-snd P Q xs h.1)

  -- Removing the element of a key from the list is removing the slot of the key.
  pub remove_element-elements :
      (k : String) (xs : List (Slot V)) (i : CacheItem V)
      → find k xs ≡ some i
      → Apart xs
      → (remove_element i.e (elements xs) ≡ elements (without k xs))
        × (find_element i.e (elements xs) ≡ some (record { id = i.e; value = k }))
  unfolding find without remove_element find_element
  remove_element-elements k [] i e h = cc
  remove_element-elements k (s ∷ xs) i e h = elim (Bool-cases (str_eq s.key k)) [
    | inl same ↦ ground (
      arith,
      eq_iff s.key k,
      without_absent s.key xs (All-fst (λ t. s.key ≢ t.key) (λ t. s.id ≢ t.id) xs h.0),
    )
    | inr other ↦ ground (
      arith,
      remove_element-elements k xs i,
      find-ne_id s.id k xs i (rw other at e)
          (All-snd (λ t. s.key ≢ t.key) (λ t. s.id ≢ t.id) xs h.0),
    )
  ]

  -- The slot used longest ago.
  abbrev pub last : Slot V → List (Slot V) → Slot V
  last s [] = s
  last s (t ∷ xs) = last t xs

  All-last :
      (P : Slot V → Type 0) (s : Slot V) (xs : List (Slot V)) → P s → All P xs → P (last s xs)
  All-last P s [] h hs = h
  All-last P s (t ∷ xs) h hs = All-last P t xs hs.0 hs.1

  pub All-drop_last :
      (P : Slot V → Type 0) (s : Slot V) (xs : List (Slot V))
      → All P (s ∷ xs)
      → All P (drop_last (s ∷ xs))
  unfolding drop_last
  All-drop_last P s [] h = tt
  All-drop_last P s (t ∷ xs) h = (h.0, All-drop_last P t xs h.1)

  pub Apart-drop_last :
      (s : Slot V) (xs : List (Slot V)) → Apart (s ∷ xs) → Apart (drop_last (s ∷ xs))
  unfolding drop_last
  Apart-drop_last s [] h = tt
  Apart-drop_last s (t ∷ xs) h =
      (All-drop_last (λ u. (s.key ≢ u.key) × (s.id ≢ u.id)) t xs h.0, Apart-drop_last t xs h.1)

  pub back-elements :
      (s : Slot V) (xs : List (Slot V)) → back (elements (s ∷ xs)) ≡ some (element (last s xs))
  unfolding back
  back-elements s [] = refl
  back-elements s (t ∷ xs) = back-elements t xs

  pub remove_element-last :
      (s : Slot V) (xs : List (Slot V))
      → Apart (s ∷ xs)
      → remove_element (last s xs).id (elements (s ∷ xs)) ≡ elements (drop_last (s ∷ xs))
  unfolding remove_element drop_last
  remove_element-last s [] h = ground arith
  remove_element-last s (t ∷ xs) h = ground (
    arith,
    remove_element-last t xs h.1,
    All-last (λ u. (s.key ≢ u.key) × (s.id ≢ u.id)) t xs h.0.0 h.0.1,
  )

  pub find-drop_last :
      (j : String) (s : Slot V) (xs : List (Slot V))
      → Apart (s ∷ xs)
      → find j (drop_last (s ∷ xs)) ≡ (if str_eq (last s xs).key j then none else find j (s ∷ xs))
  unfolding find drop_last
  find-drop_last j s [] h = ground arith
  find-drop_last j s (t ∷ xs) h = ground (
    arith,
    find-drop_last j t xs h.1,
    All-last (λ u. (s.key ≢ u.key) × (s.id ≢ u.id)) t xs h.0.0 h.0.1,
    eq_iff (last t xs).key j,
    eq_iff s.key j,
  )

  pub length-drop_last : (s : Slot V) (xs : List (Slot V)) → length (drop_last (s ∷ xs)) ≡ length xs
  unfolding drop_last
  length-drop_last s [] = refl
  length-drop_last s (t ∷ xs) = ap suc (length-drop_last t xs)

  pub length-without : (k : String) (xs : List (Slot V)) → length (without k xs) ≤ length xs
  unfolding without
  length-without k [] = omega arith
  length-without k (s ∷ xs) = ground (arith, length-without k xs)

  pub length-without_found :
      (k : String) (xs : List (Slot V)) (i : CacheItem V)
      → find k xs ≡ some i
      → length (without k xs) < length xs
  unfolding find without
  length-without_found k [] i h = cc
  length-without_found k (s ∷ xs) i h =
      ground (arith, length-without_found k xs i, length-without k xs)

  -- A slot whose key was looked for in vain has another key than every slot.
  pub All-ne_key : (k : String) (xs : List (Slot V)) → find k xs ≡ none → All (λ t. k ≢ t.key) xs
  unfolding find
  All-ne_key k [] h = tt
  All-ne_key k (s ∷ xs) h = ground (arith, eq_iff s.key k, All-ne_key k xs)

  pub All-ne_key_without : (k : String) (xs : List (Slot V)) → All (λ t. k ≢ t.key) (without k xs)
  unfolding without
  All-ne_key_without k [] = tt
  All-ne_key_without k (s ∷ xs) = ground (arith, eq_iff s.key k, All-ne_key_without k xs)

  pub All-pair :
      (P Q : Slot V → Type 0) (xs : List (Slot V)) → All P xs → All Q xs → All (λ t. P t × Q t) xs
  All-pair P Q [] h k = tt
  All-pair P Q (x ∷ xs) h k = ((h.0, k.0), All-pair P Q xs h.1 k.1)

  pub All-ne_id_without :
      (k : String) (xs : List (Slot V)) (i : CacheItem V)
      → find k xs ≡ some i
      → Apart xs
      → All (λ t. i.e ≢ t.id) (without k xs)
  unfolding find without
  All-ne_id_without k [] i e h = tt
  All-ne_id_without k (s ∷ xs) i e h = elim (Bool-cases (str_eq s.key k)) [
    | inl same ↦
        let here : s.id ≡ i.e = ground arith in
        rw (same, ← here)
          (All-without (λ t. s.id ≢ t.id) k xs
            (All-snd (λ t. s.key ≢ t.key) (λ t. s.id ≢ t.id) xs h.0))
    | inr other ↦ rw other (
      λ p.
          find-ne_id s.id k xs i (rw other at e)
            (All-snd (λ t. s.key ≢ t.key) (λ t. s.id ≢ t.id) xs h.0) (sym p),
      All-ne_id_without k xs i (rw other at e) h.1,
    )
  ]

  pub All-fresh_id : (n : ℕ) (xs : List (Slot V)) → All (λ t. t.id < n) xs → All (λ t. n ≢ t.id) xs
  All-fresh_id n [] h = tt
  All-fresh_id n (s ∷ xs) h = (omega arith, All-fresh_id n xs h.1)

  pub All-older : (n : ℕ) (xs : List (Slot V)) → All (λ t. t.id < n) xs → All (λ t. t.id < n + 1) xs
  All-older n [] h = tt
  All-older n (s ∷ xs) h = (omega arith, All-older n xs h.1)
