-- ===== src/Site/Nearest.antt =====
-- The search for the middlewares of a route ends, at the nearest route above it that has some.
use mathlib.Core.Path.{subst, sym}
use neon_oss.Base.{
  ℕ, zero, suc, true, false, List, String, none, some, get, ◌≡◌, ◌≢◌, refl, ◌∙◌, arith, eq_iff,
  str_eq, Option-cases, Bool-cases, inl, inr, ◌<◌, ap,
}
use neon_oss.Site.{Mediator, find_middlewares}

-- What is relied on of `path.Dir`, for a measure of paths: above every rooted path but the root
-- there is a shorter one, which is rooted.
pub record DirLaws (dir : String → String) (IsRooted : String → Type 0) (size : String → ℕ)
    : Type 0 where
  pub shorter : (route : String) → IsRooted route → route ≢ "/" → size (dir route) < size route
  pub rooted : (route : String) → IsRooted route → IsRooted (dir route)

-- The middlewares of the nearest path, from `route` upwards, that has some; those of the default
-- route where none has.
pub data Nearest {H : Type 0} (dir : String → String) (m : Mediator H)
    : String → List (H → H) → Type 0 where
  here :
      (route : String) (found : List (H → H))
      → get route m.routes_middlewares ≡ some found
      → Nearest dir m route found
  root : get "/" m.routes_middlewares ≡ none → Nearest dir m "/" m.default_middlewares
  above :
      (route : String) (found : List (H → H))
      → get route m.routes_middlewares ≡ none
      → route ≢ "/"
      → Nearest dir m (dir route) found
      → Nearest dir m route found

module _ {H : Type 0} (dir : String → String) (m : Mediator H) where
  find_here :
      (fuel : ℕ) (route : String) (found : List (H → H))
      → get route m.routes_middlewares ≡ some found
      → find_middlewares dir (suc fuel) m route ≡ some found
  unfolding find_middlewares
  find_here fuel route found e = rw (e, find_middlewares) refl

  find_root :
      (fuel : ℕ) (route : String)
      → get route m.routes_middlewares ≡ none
      → str_eq route "/" ≡ true
      → find_middlewares dir (suc fuel) m route ≡ some m.default_middlewares
  unfolding find_middlewares
  find_root fuel route e top = rw (e, find_middlewares, top) refl

  find_above :
      (fuel : ℕ) (route : String)
      → get route m.routes_middlewares ≡ none
      → str_eq route "/" ≡ false
      → find_middlewares dir (suc fuel) m route ≡ find_middlewares dir fuel m (dir route)
  unfolding find_middlewares
  find_above fuel route e below = rw (e, find_middlewares, below) refl

  -- `findRouteMiddlewares` returns on every rooted route, with the middlewares of the nearest route
  -- from it upwards that has some, and else with those of the default route.
  pub find_middlewares-Nearest :
      (IsRooted : String → Type 0) (size : String → ℕ) (laws : DirLaws dir IsRooted size) (fuel : ℕ)
      (route : String)
      → IsRooted route
      → size route < fuel
      → (found : List (H → H)) × (find_middlewares dir fuel m route ≡ some found)
        × Nearest dir m route found
  find_middlewares-Nearest IsRooted size laws zero route r h = absurd (omega arith)
  find_middlewares-Nearest IsRooted size laws (suc fuel) route r h =
      elim (Option-cases (get route m.routes_middlewares)) [
        | inr (found, e) ↦ (found, find_here fuel route found e, here route found e)
        | inl e ↦ elim (Bool-cases (str_eq route "/")) [
          | inl top ↦
              let eq : route ≡ "/" = (eq_iff route "/").0 top in
              (
                m.default_middlewares,
                find_root fuel route e top,
                subst (λ x. Nearest dir m x m.default_middlewares) (sym eq)
                    (root (ap (λ x. get x m.routes_middlewares) (sym eq) ∙ e)),
              )
          | inr below ↦
              let not_root : route ≢ "/" = λ eq. ground (arith, eq_iff route "/") in
              let (found, f, nearest) =
                find_middlewares-Nearest IsRooted size laws fuel (dir route) (laws.rooted route r)
                  (omega (arith, laws.shorter route r not_root)) in
              (found, find_above fuel route e below ∙ f, above route found e not_root nearest)
        ]
      ]
