-- ===== src/Exec.antt =====
-- Code that may fail and that changes the state of what it calls: the state comes back beside an
-- error too.
use neon_oss.Base.{refl, ◌∙◌, ◌≡◌, String, Result, ok, err, wrap}

abbrev pub Exec : Type 0 → Type 0 → Type 0
Exec S A = S → Result A × S

module _ {S A : Type 0} where
  abbrev pub pure : A → Exec S A
  pure a s = (ok a, s)

  abbrev pub raise : String → Exec S A
  raise e s = (err e, s)

  -- `fmt.Errorf("prefix: %v", err)` on a failure of a call.
  abbrev pub wrapping : String → Exec S A → Exec S A
  wrapping prefix m s = let (r, s') = m s in (wrap prefix r, s')

module _ {S A B : Type 0} where
  abbrev pub continue : Result A → (A → Exec S B) → Exec S B
  continue (ok a) f s = f a s
  continue (err e) f s = (err e, s)

  infixl 5 ◌>>=◌ ◌>>◌
  abbrev pub ◌>>=◌ : Exec S A → (A → Exec S B) → Exec S B
  ◌>>=◌ m f s = continue (m s).0 f (m s).1

  abbrev pub ◌>>◌ : Exec S A → Exec S B → Exec S B
  ◌>>◌ m n = m >>= λ _. n

-- Inversion of a successful sequence, and of a successful call whose error would be wrapped.
pub bind-eq-ok :
    {S A B : Type 0} (m : Exec S A) (f : A → Exec S B) (s : S) {b : B} {s' : S}
    → (m >>= f) s ≡ (ok b, s')
    → (a : A) × (s1 : S) × (m s ≡ (ok a, s1)) × (f a s1 ≡ (ok b, s'))
bind-eq-ok {S} {A} {B} m f s {b} {s'} h = go (m s).0 (m s).1 refl h
  where
    go :
        (r : Result A) (s1 : S)
        → m s ≡ (r, s1)
        → continue r f s1 ≡ (ok b, s')
        → (a : A) × (s2 : S) × (m s ≡ (ok a, s2)) × (f a s2 ≡ (ok b, s'))
    go (ok a) s1 e k = (a, s1, e, k)
    go (err x) s1 e k = absurd (cc k)

pub wrapping-eq-ok :
    {S A : Type 0} (prefix : String) (m : Exec S A) (s : S) {a : A} {s' : S}
    → wrapping prefix m s ≡ (ok a, s')
    → m s ≡ (ok a, s')
wrapping-eq-ok {S} {A} prefix m s {a} {s'} h = go (m s).0 (m s).1 refl h
  where
    go :
        (r : Result A) (s1 : S)
        → m s ≡ (r, s1)
        → (◌≡◌ {A = Result A × S} (wrap prefix r, s1) (ok a, s'))
        → m s ≡ (ok a, s')
    go (ok b) s1 e k = e ∙ k
    go (err x) s1 e k = absurd (cc k)
