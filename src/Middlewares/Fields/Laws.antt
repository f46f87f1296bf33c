-- ===== src/Middlewares/Fields/Laws.antt =====
-- Which value a header field gets.
use neon_oss.Base.{
  sym, append-nil, Bool, List, [], ◌∷◌, ◌++◌, String, Option, some, ◌≡◌, refl, if◌then◌else◌,
  str_eq, Bool-cases, inl, inr, Dict, get, put, get-put, ◌∙◌, ap,
}
use neon_oss.Strings.{canonical_key}
use neon_oss.Render.{Header}
use neon_oss.Middlewares.Fields.{Compiled, set_fields, set_matching, header_handler}
use neon_oss.Http.{ResponseWriter}

-- The value that the last of some assignments to a field gives it. A name is assigned to the field
-- of its canonical form.
pub last_value : String → Dict String → Option (List String) → Option (List String)
last_value name [] old = old
last_value name ((k, v) ∷ more) old =
    last_value name more (if str_eq (canonical_key k) name then some (v ∷ []) else old)

get-set_fields :
    (fields : Dict String) (h : Header) (name : String)
    → get name (set_fields fields h) ≡ last_value name fields (get name h)
unfolding set_fields last_value
get-set_fields [] h name = refl
get-set_fields ((k, v) ∷ more) h name =
    get-set_fields more (put (canonical_key k) (v ∷ []) h) name
    ∙ ap (last_value name more) (get-put (canonical_key k) name (v ∷ []) h)

last_value-append :
    (name : String) (a b : Dict String) (old : Option (List String))
    → last_value name (a ++ b) old ≡ last_value name b (last_value name a old)
unfolding last_value
last_value-append name [] b old = refl
last_value-append name ((k, v) ∷ more) b old =
    last_value-append name more b (if str_eq (canonical_key k) name then some (v ∷ []) else old)

module _ {Regexp : Type 0} (matches : Regexp → String → Bool) where
  -- The assignments of the rules that match a path, up to the first one that is marked as the
  -- last, one after another.
  pub assignments : List (Compiled Regexp) → String → Dict String
  assignments [] path = []
  assignments (c ∷ more) path =
      let rest = assignments more path in
      if matches c.regexp path then c.rule.fields ++ (if c.rule.last then [] else rest) else rest

  set_matching-get :
      (rules : List (Compiled Regexp)) (path : String) (h : Header) (name : String)
      → get name (set_matching matches rules path h)
        ≡ last_value name (assignments rules path) (get name h)
  unfolding set_matching assignments last_value
  set_matching-get [] path h name = refl
  set_matching-get (c ∷ more) path h name = elim (Bool-cases (matches c.regexp path)) [
    | inl hit ↦ elim (Bool-cases c.rule.last) [
      | inl last ↦
          simp (hit, last)
            (get-set_fields c.rule.fields h name
              ∙ ap (λ l. last_value name l (get name h)) (sym (append-nil c.rule.fields)))
      | inr go ↦
          simp (hit, go)
            (set_matching-get more path (set_fields c.rule.fields h) name
              ∙ ap (last_value name (assignments more path)) (get-set_fields c.rule.fields h name)
              ∙ sym (last_value-append name c.rule.fields (assignments more path) (get name h)))
    ]
    | inr miss ↦ simp miss (set_matching-get more path h name)
  ]

  -- Before the next handler is called, each header field has the value of the last assignment to it
  -- among those of the rules that match the path, or its old value where there is none. A name is
  -- assigned to the field of its canonical form, as `X-Frame-Options` for `x-frame-options`.
  pub header_handler-get :
      (rules : List (Compiled Regexp)) (path : String) (w : ResponseWriter) (name : String)
      → get name (header_handler matches rules path w).header
        ≡ last_value name (assignments rules path) (get name w.header)
  unfolding header_handler
  header_handler-get rules path w name = set_matching-get rules path w.header name
