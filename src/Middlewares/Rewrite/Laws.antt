-- ===== src/Middlewares/Rewrite/Laws.antt =====
-- What the rewriting of a path comes to.
use neon_oss.Base.{
  inr, refl, inl, Bool-cases, arith, ◌≡◌, ◌||◌, true, false, Option-cases, ◌∙◌, ap, Bool, List, [],
  ◌∷◌, String, Option, none, some, ℕ, if◌then◌else◌, str_eq,
}
use neon_oss.Middlewares.Rewrite.{
  next, redirect_to, decide, rewrite_handler, rewrite_all, rewrite_with, Rewriting, has_prefix,
  Rule, Compiled,
}

-- The path, the status and the redirection that a list of rules asks for, each read off the rules
-- alone.
pub final_path : List Rule → String → String
final_path [] path = path
final_path (r ∷ more) path = final_path more r.replacement

pub status_of : Option String → ℕ → ℕ
status_of none status = status
status_of (some f) status =
    if str_eq f "redirect" then 302 else if str_eq f "permanent" then 301 else status

pub final_status : List Rule → ℕ → ℕ
final_status [] status = status
final_status (r ∷ more) status = final_status more (status_of r.flag status)

-- The replacement is a remote address, or the flag is one of the two.
pub asks_redirect : Rule → Bool
asks_redirect r =
    has_prefix r.replacement "http://"
    || has_prefix r.replacement "https://"
    || elim r.flag [ none ↦ false | some f ↦ str_eq f "redirect" || str_eq f "permanent" ]

pub any_redirect : List Rule → Bool
any_redirect [] = false
any_redirect (r ∷ more) = asks_redirect r || any_redirect more

apply_all : List Rule → Rewriting → Rewriting
apply_all [] s = s
apply_all (r ∷ more) s = apply_all more (rewrite_with r s)

with-path : (r : Rule) (s : Rewriting) → (rewrite_with r s).path ≡ r.replacement
unfolding rewrite_with
with-path r s = elim (Option-cases r.flag) [ inl e ↦ rw e refl | inr (f, e) ↦ rw e (ground arith) ]

with-status : (r : Rule) (s : Rewriting) → (rewrite_with r s).status ≡ status_of r.flag s.status
unfolding rewrite_with status_of
with-status r s = ground arith

with-redirect :
    (r : Rule) (s : Rewriting) → (rewrite_with r s).redirect ≡ (s.redirect || asks_redirect r)
unfolding rewrite_with asks_redirect
with-redirect r s = ground arith

with-rewrite : (r : Rule) (s : Rewriting) → (rewrite_with r s).rewrite ≡ true
unfolding rewrite_with
with-rewrite r s = ground arith

all-path : (rs : List Rule) (s : Rewriting) → (apply_all rs s).path ≡ final_path rs s.path
unfolding apply_all final_path
all-path [] s = refl
all-path (r ∷ more) s = all-path more (rewrite_with r s) ∙ ap (final_path more) (with-path r s)

all-status : (rs : List Rule) (s : Rewriting) → (apply_all rs s).status ≡ final_status rs s.status
unfolding apply_all final_status
all-status [] s = refl
all-status (r ∷ more) s =
    all-status more (rewrite_with r s) ∙ ap (final_status more) (with-status r s)

all-redirect :
    (rs : List Rule) (s : Rewriting) → (apply_all rs s).redirect ≡ (s.redirect || any_redirect rs)
unfolding apply_all any_redirect
all-redirect [] s = ground arith
all-redirect (r ∷ more) s = ground (arith, all-redirect more (rewrite_with r s), with-redirect r s)

abbrev is_nonempty : List Rule → Bool
is_nonempty [] = false
is_nonempty (r ∷ more) = true

all-rewrite :
    (rs : List Rule) (s : Rewriting) → (apply_all rs s).rewrite ≡ (s.rewrite || is_nonempty rs)
unfolding apply_all
all-rewrite [] s = ground arith
all-rewrite (r ∷ more) s = ground (arith, all-rewrite more (rewrite_with r s), with-rewrite r s)

empty_final :
    (rs : List Rule) (path : String)
    → is_nonempty rs ≡ false
    → (final_path rs path ≡ path) × (any_redirect rs ≡ false)
unfolding final_path any_redirect
empty_final [] path h = (refl, refl)
empty_final (r ∷ more) path h = absurd (cc h)

module _ {Regexp : Type 0} (matches : Regexp → String → Bool) where
  -- The rules that are applied to a path: each that matches what the earlier ones made of it, up
  -- to the first that is marked as the last.
  pub applied : List (Compiled Regexp) → String → List Rule
  applied [] path = []
  applied (c ∷ more) path =
      let go = applied more c.rule.replacement in
      let stay = applied more path in
      if matches c.regexp path then c.rule ∷ (if c.rule.last then [] else go) else stay

  rewrite_all-applied :
      (rules : List (Compiled Regexp)) (s : Rewriting)
      → rewrite_all matches rules s ≡ apply_all (applied rules s.path) s
  unfolding rewrite_all applied apply_all
  rewrite_all-applied [] s = refl
  rewrite_all-applied (c ∷ more) s = elim (Bool-cases (matches c.regexp s.path)) [
    | inl hit ↦ elim (Bool-cases c.rule.last) [
      | inl last ↦ simp (hit, last)
      | inr go ↦
          simp (hit, go)
            (rewrite_all-applied more (rewrite_with c.rule s)
              ∙ ap (λ p. apply_all (applied more p) (rewrite_with c.rule s)) (with-path c.rule s))
    ]
    | inr miss ↦ simp miss (rewrite_all-applied more s)
  ]

  unchanged : String → Rewriting
  unchanged path = record { rewrite = false; path = path; status = 302; redirect = false }

  decided :
      (rs : List Rule) (path : String)
      → decide matches path (apply_all rs (unchanged path)) ≡ (
          if any_redirect rs
          then redirect_to (final_path rs path) (final_status rs 302)
          else next (final_path rs path))
  unfolding decide unchanged
  decided rs path = ground (
    arith,
    all-rewrite rs (unchanged path),
    all-redirect rs (unchanged path),
    all-path rs (unchanged path),
    all-status rs (unchanged path),
    empty_final rs path,
  )

  -- The outcome is read off the rules that are applied: without any, the path stays; with one
  -- that asks for it, there is a redirection to the last replacement with the last flag's status;
  -- and else the next handler gets the last replacement.
  pub rewrite_handler-applied :
      (rules : List (Compiled Regexp)) (path : String)
      → rewrite_handler matches rules path ≡ (
          let rs = applied rules path in
          if any_redirect rs
          then redirect_to (final_path rs path) (final_status rs 302)
          else next (final_path rs path))
  unfolding rewrite_handler unchanged
  rewrite_handler-applied rules path =
      ap (decide matches path) (rewrite_all-applied rules (unchanged path))
      ∙ decided (applied rules path) path
