-- ===== src/App/Child/Cutting.antt =====
-- How a line of the handshake is taken apart.
use Prim.Native.Char.{Char, code}
use text.Mathlib.TextLemmas.{cons-append, nil-append}
use neon_oss.Base.{
  ℕ, ◌==◌, Bool, true, false, Bool-cases, inl, inr, ◌≡◌, refl, sym, ap, ◌∙◌, String, if◌then◌else◌,
}
use neon_oss.Strings.{◌+++◌}
use neon_oss.App.Child.{cut}

is_empty : String → Bool
is_empty String.[] = true
is_empty (String.◌∷◌ c s) = false

-- The separator is the last character, and only that.
unfoldable pub ends_with_sep : ℕ → String → Bool
unfolding is_empty
ends_with_sep sep String.[] = false
ends_with_sep sep (String.◌∷◌ c s) = if code c == sep then is_empty s else ends_with_sep sep s

module _ (sep : ℕ) where
  cut_here : (c : Char) (s : String) → (code c == sep) ≡ true → cut sep (String.◌∷◌ c s) ≡ ("", s)
  unfolding cut
  cut_here c s h = rw h refl

  cut_later :
      (c : Char) (s : String)
      → (code c == sep) ≡ false
      → cut sep (String.◌∷◌ c s) ≡ (String.◌∷◌ c (cut sep s).0, (cut sep s).1)
  unfolding cut
  cut_later c s h = rw h refl

  ends_here :
      (c : Char) (s : String)
      → (code c == sep) ≡ true
      → ends_with_sep sep (String.◌∷◌ c s) ≡ true
      → s ≡ ""
  unfolding ends_with_sep
  ends_here c String.[] h k = refl
  ends_here c (String.◌∷◌ d s) h k = let wrong : false ≡ true = rw h at k in absurd (cc wrong)

  ends_later :
      (c : Char) (s : String)
      → (code c == sep) ≡ false
      → ends_with_sep sep (String.◌∷◌ c s) ≡ true
      → ends_with_sep sep s ≡ true
  unfolding ends_with_sep
  ends_later c s h k = rw h at k

  -- A word that ends with the separator is cut from what follows it.
  pub cut_word :
      (word rest : String)
      → ends_with_sep sep word ≡ true
      → cut sep (word +++ rest) ≡ ((cut sep word).0, rest)
  unfolding ends_with_sep
  cut_word String.[] rest h = absurd (cc h)
  cut_word (String.◌∷◌ c s) rest h = elim (Bool-cases (code c == sep)) [
    | inl here ↦
        ap (cut sep) (cons-append c s rest)
        ∙ cut_here c (s +++ rest) here
        ∙ ap (λ t. ("", t)) (ap (λ x. x +++ rest) (ends_here c s here h) ∙ nil-append rest)
        ∙ ap (λ x. (x.0, rest)) (sym (cut_here c s here))
    | inr later ↦
        ap (cut sep) (cons-append c s rest)
        ∙ cut_later c (s +++ rest) later
        ∙ ap (λ x. (String.◌∷◌ c x.0, x.1)) (cut_word s rest (ends_later c s later h))
        ∙ ap (λ x. (x.0, rest)) (sym (cut_later c s later))
  ]
