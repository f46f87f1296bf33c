-- ===== src/Base/Maps.antt =====
-- Go's maps with text keys, as association lists. The order of the entries stands for one order
-- in which a `range` may visit them, so what holds for every list holds for every order.
use Prim.Native.String.{String}
use neon_oss.Base.Lists.{All}
use mathlib.Core.Logic.{◌≢◌}
use mathlib.Core.Path.{◌≡◌, refl}
use mathlib.Core.Option.{Option, none, some}
use mathlib.Core.List.{List, [], ◌∷◌}
use native.Mathlib.Omega.{arith}
use text.Mathlib.TextEquality.{eq_iff}
use neon_oss.Base.Tests.{str_eq, if◌then◌else◌}

abbrev pub Dict {ℓ} : Type ℓ → Type ℓ
Dict V = List (String × V)

module _ {ℓ} {V : Type ℓ} where
  -- `v, ok := m[k]`
  unfoldable pub get : String → Dict V → Option V
  get k [] = none
  get k ((j, v) ∷ m) = if str_eq j k then some v else get k m

  -- `m[k] = v`
  unfoldable pub put : String → V → Dict V → Dict V
  put k v [] = (k, v) ∷ []
  put k v ((j, w) ∷ m) = if str_eq j k then (k, v) ∷ m else (j, w) ∷ put k v m

  -- `delete(m, k)`
  unfoldable pub delete : String → Dict V → Dict V
  delete k [] = []
  delete k ((j, v) ∷ m) = let rest = delete k m in if str_eq j k then rest else (j, v) ∷ rest

  pub get-put :
      (k j : String) (v : V) (m : Dict V)
      → get j (put k v m) ≡ (if str_eq k j then some v else get j m)
  unfolding get put
  get-put k j v [] = refl
  get-put k j v ((i, w) ∷ m) = ground (arith, eq_iff k j, eq_iff i k, eq_iff i j, get-put k j v m)

  pub get-delete :
      (k j : String) (m : Dict V) → get j (delete k m) ≡ (if str_eq k j then none else get j m)
  unfolding get delete
  get-delete k j [] = ground arith
  get-delete k j ((i, w) ∷ m) = ground (arith, eq_iff k j, eq_iff i k, eq_iff i j, get-delete k j m)

  -- No key has two entries, as in every map.
  abbrev pub Distinct : Dict V → Type 0
  Distinct [] = Unit
  Distinct ((k, v) ∷ m) = All (λ e. k ≢ e.0) m × Distinct m

  All-put :
      (j k : String) (v : V) (m : Dict V)
      → j ≢ k
      → All (λ e. j ≢ e.0) m
      → All (λ e. j ≢ e.0) (put k v m)
  unfolding put
  All-put j k v [] h hs = ground arith
  All-put j k v ((i, w) ∷ m) h hs = ground (arith, All-put j k v m h hs.1)

  pub Distinct-put : (k : String) (v : V) (m : Dict V) → Distinct m → Distinct (put k v m)
  unfolding put
  Distinct-put k v [] h = (tt, tt)
  Distinct-put k v ((i, w) ∷ m) h =
      ground (arith, eq_iff i k, Distinct-put k v m h.1, All-put i k v m)

  All-delete : (j k : String) (m : Dict V) → All (λ e. j ≢ e.0) m → All (λ e. j ≢ e.0) (delete k m)
  unfolding delete
  All-delete j k [] hs = tt
  All-delete j k ((i, w) ∷ m) hs = ground (arith, All-delete j k m hs.1)

  pub Distinct-delete : (k : String) (m : Dict V) → Distinct m → Distinct (delete k m)
  unfolding delete
  Distinct-delete k [] h = tt
  Distinct-delete k ((i, w) ∷ m) h = ground (arith, Distinct-delete k m h.1, All-delete i k m h.0)

  pub get_absent : (k : String) (m : Dict V) → All (λ e. k ≢ e.0) m → get k m ≡ none
  unfolding get
  get_absent k [] h = refl
  get_absent k ((i, w) ∷ m) h = ground (arith, eq_iff i k, get_absent k m h.1)

pub ruleset dict_laws = (get-put, get-delete)
