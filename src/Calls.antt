-- ===== src/Calls.antt =====
-- The calls that an owner makes of its parts, one after another, until one fails: the shape of the
-- methods of app.go, server.go and serversite.go under internal/app/neon. A call changes the world,
-- which is a parameter with what the calls do to it.
pub mod Order
use neon_oss.Base.{List, [], ◌∷◌, ◌++◌, String, Result, ok, err, wrap}
use neon_oss.Exec.{Exec, pure, ◌>>◌}

-- The world, and the calls up to now.
pub record Run (W C : Type 0) : Type 0 where
  pub world : W
  pub calls : List C

module _ {W C : Type 0} (perform : C → W → Result (Unit {0}) × W) where
  -- A call, with the prefix of its error.
  unfoldable pub call : C → String → Exec (Run W C) (Unit {0})
  call c prefix s =
      let (r, w) = perform c s.world in
      (wrap prefix r, record { world = w; calls = s.calls ++ c ∷ [] })

  -- A loop that makes a call for each item.
  unfoldable pub call_each :
      {A : Type 0} → (A → C) → (A → String) → List A → Exec (Run W C) (Unit {0})
  call_each of prefix [] = pure tt
  call_each of prefix (a ∷ more) = call (of a) (prefix a) >> call_each of prefix more

  -- A loop whose body may make several calls.
  unfoldable pub each :
      {A : Type 0} → (A → Exec (Run W C) (Unit {0})) → List A → Exec (Run W C) (Unit {0})
  each body [] = pure tt
  each body (a ∷ more) = body a >> each body more
