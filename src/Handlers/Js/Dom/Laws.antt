-- ===== src/Handlers/Js/Dom/Laws.antt =====
-- What a list of elements holds after any calls of `Set`.
use neon_oss.Base.{
  ◌≡◌, refl, ap, sym, ◌∙◌, inl, inr, arith, eq_iff, get-put, Option-cases, Dict, get, put, String,
  str_eq, List, [], ◌∷◌, ◌++◌, append_assoc, append-nil, Option, none, some, if◌then◌else◌,
}
use neon_oss.Handlers.Js.Dom.{
  DomElement, DomElementList, new_dom_element_list, set_element, with_id, elements, collect,
  found_or_skip, found_element, get_element,
}

-- The calls of `Set` one after the other.
abbrev pub set_all : List DomElement → DomElementList → DomElementList
set_all [] l = l
set_all (e ∷ es) l = set_all es (set_element e l)

abbrev pub remove_id : String → List String → List String
remove_id id [] = []
remove_id id (x ∷ xs) = if str_eq id x then remove_id id xs else x ∷ remove_id id xs

-- The identifiers, each where it comes first.
abbrev pub first_ids : List DomElement → List String
first_ids [] = []
first_ids (e ∷ es) = e.id ∷ remove_id e.id (first_ids es)

abbrev pub or_else : Option DomElement → Option DomElement → Option DomElement
or_else none o = o
or_else (some e) o = some e

-- The last element with the identifier.
abbrev pub latest : String → List DomElement → Option DomElement
latest id [] = none
latest id (e ∷ es) = or_else (latest id es) (if str_eq e.id id then some e else none)

or_else-none : (o : Option DomElement) → or_else o none ≡ o
or_else-none none = refl
or_else-none (some e) = refl

abbrev pub pick : (String → Option DomElement) → List String → List DomElement
pick f [] = []
pick f (id ∷ ids) = elim (f id) [ none ↦ pick f ids | some e ↦ e ∷ pick f ids ]

-- Those identifiers that a map does not have yet.
new_ids : Dict DomElement → List String → List String
new_ids m [] = []
new_ids m (x ∷ xs) = elim (get x m) [ none ↦ x ∷ new_ids m xs | some e ↦ new_ids m xs ]

new_ids-put :
    (id : String) (e : DomElement) (m : Dict DomElement) (xs : List String)
    → new_ids (put id e m) xs ≡ new_ids m (remove_id id xs)
unfolding new_ids
new_ids-put id e m [] = refl
new_ids-put id e m (x ∷ xs) = ground (arith, get-put id x e m, new_ids-put id e m xs)

new_ids-remove :
    (id : String) (e : DomElement) (m : Dict DomElement) (xs : List String)
    → get id m ≡ some e
    → new_ids m (remove_id id xs) ≡ new_ids m xs
unfolding new_ids
new_ids-remove id e m [] h = refl
new_ids-remove id e m (x ∷ xs) h = ground (arith, eq_iff id x, new_ids-remove id e m xs h)

new_ids-empty : (xs : List String) → new_ids [] xs ≡ xs
unfolding new_ids get
new_ids-empty [] = refl
new_ids-empty (x ∷ xs) = ap (λ r. x ∷ r) (new_ids-empty xs)

set_old :
    (e old : DomElement) (l : DomElementList)
    → get e.id l.m ≡ some old
    → (set_element e l).ids ≡ l.ids
unfolding set_element with_id
set_old e old l h = rw h refl

set_new :
    (e : DomElement) (l : DomElementList)
    → get e.id l.m ≡ none
    → (set_element e l).ids ≡ l.ids ++ e.id ∷ []
unfolding set_element with_id
set_new e l h = rw h refl

set_map : (e : DomElement) (l : DomElementList) → (set_element e l).m ≡ put e.id e l.m
unfolding set_element
set_map e l = refl

new_first :
    (e : DomElement) (xs : List String) (m : Dict DomElement)
    → get e.id m ≡ none
    → new_ids m (e.id ∷ xs) ≡ e.id ∷ new_ids m xs
unfolding new_ids
new_first e xs m h = rw (h, new_ids) refl

old_first :
    (e old : DomElement) (xs : List String) (m : Dict DomElement)
    → get e.id m ≡ some old
    → new_ids m (e.id ∷ xs) ≡ new_ids m xs
unfolding new_ids
old_first e old xs m h = rw (h, new_ids) refl

set_all-ids :
    (es : List DomElement) (l : DomElementList)
    → (set_all es l).ids ≡ l.ids ++ new_ids l.m (first_ids es)
unfolding new_ids
set_all-ids [] l = sym (append-nil l.ids)
set_all-ids (e ∷ es) l =
    let later : (set_all es (set_element e l)).ids
        ≡ (set_element e l).ids ++ new_ids l.m (remove_id e.id (first_ids es)) =
      set_all-ids es (set_element e l)
      ∙ ap (λ r. (set_element e l).ids ++ r)
          (ap (λ m. new_ids m (first_ids es)) (set_map e l)
            ∙ new_ids-put e.id e l.m (first_ids es)) in
    elim (Option-cases (get e.id l.m)) [
      | inl absent ↦
          later
          ∙ ap (λ r. r ++ new_ids l.m (remove_id e.id (first_ids es))) (set_new e l absent)
          ∙ append_assoc l.ids (e.id ∷ []) (new_ids l.m (remove_id e.id (first_ids es)))
          ∙ ap (λ r. l.ids ++ r) (sym (new_first e (remove_id e.id (first_ids es)) l.m absent))
      | inr (old, present) ↦
          later
          ∙ ap (λ r. r ++ new_ids l.m (remove_id e.id (first_ids es))) (set_old e old l present)
          ∙ ap (λ r. l.ids ++ r) (sym (old_first e old (remove_id e.id (first_ids es)) l.m present))
    ]

set_all-get :
    (id : String) (es : List DomElement) (l : DomElementList)
    → get id (set_all es l).m ≡ or_else (latest id es) (get id l.m)
set_all-get id [] l = refl
set_all-get id (e ∷ es) l =
    ground (arith, set_all-get id es (set_element e l), set_map e l, get-put e.id id e l.m)

collect-pick :
    (f : String → Option DomElement) (ids : List String) (l : DomElementList)
    → ((id : String) → get id l.m ≡ f id)
    → collect ids l ≡ pick f ids
unfolding collect found_or_skip get_element found_element
collect-pick f [] l h = refl
collect-pick f (id ∷ ids) l h = ground (arith, h id, collect-pick f ids l h)

-- After any calls of `Set` on a new list, the loop over the list gives each identifier once, in the
-- order in which the identifiers were first set, and with the element that was set for it last.
pub elements-set_all :
    (es : List DomElement)
    → elements (set_all es new_dom_element_list) ≡ pick (λ id. latest id es) (first_ids es)
unfolding elements get
elements-set_all es =
    ap (λ ids. collect ids (set_all es new_dom_element_list))
      (set_all-ids es new_dom_element_list ∙ new_ids-empty (first_ids es))
    ∙ collect-pick (λ id. latest id es) (first_ids es) (set_all es new_dom_element_list)
        λ id. set_all-get id es new_dom_element_list ∙ or_else-none (latest id es)
