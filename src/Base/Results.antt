-- ===== src/Base/Results.antt =====
-- A Go call that returns an error: its result, or the text of the error.
use Prim.Native.String.{String}
use mathlib.Core.Logic.{◌⊎◌, inl, inr}
use mathlib.Core.Path.{◌≡◌, refl}
use mathlib.Core.Bool.{Bool, true, false}

pub data Result {ℓ} (A : Type ℓ) : Type ℓ where
  ok : A → Result A
  err : String → Result A

-- `fmt.Errorf("prefix: %w", err)` on a failure.
abbrev pub wrap {ℓ} : {A : Type ℓ} → String → Result A → Result A
wrap prefix (ok a) = ok a
wrap prefix (err e) = err (Prim.Native.String.◌++◌ prefix e)

-- `if b { return errors.New(e) }`
abbrev pub fail_if : Bool → String → Result (Unit {0})
fail_if true e = err e
fail_if false e = ok tt

abbrev pub is_ok {ℓ} : {A : Type ℓ} → Result A → Bool
is_ok (ok a) = true
is_ok (err e) = false

infixl 5 ◌>>◌
abbrev pub ◌>>◌ {ℓ} : {B : Type ℓ} → Result (Unit {0}) → Result B → Result B
ok u >> later = later
err e >> later = err e

infixl 5 ◌>>=◌
-- `if err != nil { return err }`
abbrev pub ◌>>=◌ {ℓ κ} : {A : Type ℓ} {B : Type κ} → Result A → (A → Result B) → Result B
err e >>= next = err e
ok a >>= next = next a

pub Result-cases {ℓ} :
    {A : Type ℓ} (r : Result A) → ((a : A) × (r ≡ ok a)) ⊎ ((e : String) × (r ≡ err e))
Result-cases (ok a) = inl (a, refl)
Result-cases (err e) = inr (e, refl)

-- The result, where there is one, satisfies `P`.
abbrev pub Holds {ℓ κ} : {A : Type ℓ} → (A → Type κ) → Result A → Type κ
Holds P (ok a) = P a
Holds P (err e) = Unit

pub Holds->>= {ℓ κ} :
    {A : Type ℓ} {B : Type ℓ} (Q : A → Type κ) (P : B → Type κ) (m : Result A) (f : A → Result B)
    → Holds Q m
    → ((a : A) → Q a → Holds P (f a))
    → Holds P (m >>= f)
Holds->>= Q P (ok a) f h k = k a h
Holds->>= Q P (err e) f h k = tt

pub Holds-continue {ℓ κ} :
    {A : Type ℓ} {B : Type ℓ} (P : B → Type κ) (m : Result A) (f : A → Result B)
    → ((a : A) → Holds P (f a))
    → Holds P (m >>= f)
Holds-continue P (ok a) f k = k a
Holds-continue P (err e) f k = tt

pub Holds-wrap {ℓ κ} :
    {A : Type ℓ} (P : A → Type κ) (prefix : String) (m : Result A)
    → Holds P m
    → Holds P (wrap prefix m)
Holds-wrap P prefix (ok a) h = h
Holds-wrap P prefix (err e) h = tt

-- What a sequence that succeeded has passed through.
pub >>=-eq-ok {ℓ κ} :
    {A : Type ℓ} {B : Type κ} (r : Result A) (next : A → Result B) {b : B}
    → (r >>= next) ≡ ok b
    → (a : A) × (r ≡ ok a) × (next a ≡ ok b)
>>=-eq-ok (err e) next h = absurd (cc h)
>>=-eq-ok (ok a) next h = (a, refl, h)
