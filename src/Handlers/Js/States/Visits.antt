-- ===== src/Handlers/Js/States/Visits.antt =====
-- The entries that a path visits, one after the other, and what they come to.
use neon_oss.Base.{
  ◌≡◌, refl, sym, ap, ◌∙◌, arith, Bool, true, false, ◌&&◌, List, [], ◌∷◌, ◌++◌, String, str_eq,
  if◌then◌else◌, Option, none, some, Result, is_ok,
}
use neon_oss.Resource.{Resource}
use neon_oss.Handlers.Js.States.{JsResource, js_resource}

-- An entry that is visited: its key and what the store has for it.
pub record Visit : Type 0 where
  pub key : String
  pub loaded : Result Resource
  pub exported : Bool

abbrev pub or_else : Option JsResource → Option JsResource → Option JsResource
or_else none o = o
or_else (some r) o = some r

pub or_else-none : (o : Option JsResource) → or_else o none ≡ o
or_else-none none = refl
or_else-none (some r) = refl

pub or_else_assoc : (a b c : Option JsResource) → or_else a (or_else b c) ≡ or_else (or_else a b) c
or_else_assoc none b c = refl
or_else_assoc (some r) b c = refl

-- The last of the visits to a key.
unfoldable pub latest : String → List Visit → Option JsResource
latest k [] = none
latest k (v ∷ vs) =
    or_else (latest k vs) (if str_eq v.key k then some (js_resource v.loaded) else none)

unfoldable pub exported_of : List Visit → List Visit
exported_of [] = []
exported_of (v ∷ vs) = let rest = exported_of vs in if v.exported then v ∷ rest else rest

unfoldable pub all_loaded : List Visit → Bool
all_loaded [] = true
all_loaded (v ∷ vs) = is_ok v.loaded && all_loaded vs

pub latest-append :
    (k : String) (xs ys : List Visit) → latest k (xs ++ ys) ≡ or_else (latest k ys) (latest k xs)
unfolding latest
latest-append k [] ys = sym (or_else-none (latest k ys))
latest-append k (v ∷ xs) ys =
    ap (λ o. or_else o (if str_eq v.key k then some (js_resource v.loaded) else none))
      (latest-append k xs ys)
    ∙ sym (or_else_assoc (latest k ys) (latest k xs) _)

pub exported_of-append :
    (xs ys : List Visit) → exported_of (xs ++ ys) ≡ exported_of xs ++ exported_of ys
unfolding exported_of
exported_of-append [] ys = refl
exported_of-append (v ∷ xs) ys = ground (arith, exported_of-append xs ys)

pub and_assoc : (a b c : Bool) → ((a && b) && c) ≡ (a && (b && c))
and_assoc true b c = refl
and_assoc false b c = refl

pub all_loaded-append :
    (xs ys : List Visit) → all_loaded (xs ++ ys) ≡ (all_loaded xs && all_loaded ys)
unfolding all_loaded
all_loaded-append [] ys = refl
all_loaded-append (v ∷ xs) ys =
    ap (λ b. is_ok v.loaded && b) (all_loaded-append xs ys)
    ∙ sym (and_assoc (is_ok v.loaded) (all_loaded xs) (all_loaded ys))
