-- ===== src/Handlers/Js/Page/Total.antt =====
-- When the method `doc` finds every place that it needs.
use mathlib.Core.Path.{subst}
use neon_oss.Base.{
  ◌≡◌, refl, sym, ap, ◌∙◌, inl, inr, Bool, Option, none, some, Option-cases, Result, ok, ◌>>=◌,
  String, List, [], ◌∷◌, ◌++◌, All, All-append,
}
use neon_oss.Handlers.Js.Dom.{elements}
use neon_oss.Handlers.Js.Vm.{VmResult}
use neon_oss.Handlers.Js.Page.{
  Label, Node, Nodes, raw_node, leaf, only, append_first, is_container, is_tag, found,
  render_container, render_state, render_title, render_metas, render_links, render_scripts,
  state_element, title_node, meta_node, link_node, script_node, element_nodes, if_some, filled,
}
use neon_oss.Handlers.Js.Page.Tokens.{
  tokens, tokens_in, Misses, Inserted, append_first-Inserted, append_first-none,
}

All-left : {A : Type 0} (P : A → Type 0) (xs ys : List A) → All P (xs ++ ys) → All P xs
All-left P [] ys h = tt
All-left P (x ∷ xs) ys h = (h.0, All-left P xs ys h.1)

All-right : {A : Type 0} (P : A → Type 0) (xs ys : List A) → All P (xs ++ ys) → All P ys
All-right P [] ys h = h
All-right P (x ∷ xs) ys h = All-right P xs ys h.1

-- The document has a node that passes the test.
abbrev pub Has : (Label → Bool) → Node → Type 0
Has test n = ¬ All (Misses test) (tokens n)

-- What a document has it keeps when nodes are added.
Has-Inserted :
    (test other : Label → Bool) (kids : Nodes) (n n' : Node)
    → Inserted test kids (tokens n) (tokens n')
    → Has other n
    → Has other n'
Has-Inserted test other kids n n' i has misses =
    let P = Misses other in
    let after = subst (All P) i.now misses in
    let tail = All-right P i.pre _ after in
    let rest = All-right P (tokens_in i.inner ++ tokens_in kids) _ tail.1 in
    let inner =
      All-left P (tokens_in i.inner) (tokens_in kids)
        (All-left P (tokens_in i.inner ++ tokens_in kids) _ tail.1) in
    has (
      subst (All P) (sym i.was) (
        All-append P i.pre _ (All-left P i.pre _ after)
          (tail.0, All-append P (tokens_in i.inner) _ inner rest)))

-- The places that the document needs for all that can be added.
pub record HasPlaces (container : String) (n : Node) : Type 0 where
  pub container_place : Has (is_container container) n
  pub body_place : Has (is_tag "body") n
  pub head_place : Has (is_tag "head") n

HasPlaces-Inserted :
    (container : String) (test : Label → Bool) (kids : Nodes) (n n' : Node)
    → Inserted test kids (tokens n) (tokens n')
    → HasPlaces container n
    → HasPlaces container n'
HasPlaces-Inserted container test kids n n' i p = record {
  container_place = Has-Inserted test (is_container container) kids n n' i p.container_place;
  body_place = Has-Inserted test (is_tag "body") kids n n' i p.body_place;
  head_place = Has-Inserted test (is_tag "head") kids n n' i p.head_place;
}

-- A step that succeeds and keeps the places.
abbrev Goes : String → Result Node → Type 0
Goes container r = (n' : Node) × (r ≡ ok n') × HasPlaces container n'

found-Goes :
    (container missing : String) (test : Label → Bool) (kids : Nodes) (n : Node)
    → Has test n
    → HasPlaces container n
    → Goes container (found missing (append_first test kids n))
unfolding found
found-Goes container missing test kids n has p = elim (Option-cases (append_first test kids n)) [
  | inl fails ↦ absurd (has ((append_first-none test kids n).0 fails))
  | inr (n', e) ↦ (
    n',
    ap (found missing) e,
    HasPlaces-Inserted container test kids n n' (append_first-Inserted test kids n n' e) p,
  )
]

if_some-Goes :
    {A : Type 0} (container : String) (f : A → Node → Result Node) (o : Option A) (n : Node)
    → ((a : A) → Goes container (f a n))
    → HasPlaces container n
    → Goes container (if_some f o n)
if_some-Goes container f none n h p = (n, refl, p)
if_some-Goes container f (some a) n h p = h a

then-Goes :
    (container : String) (r : Result Node) (f : Node → Result Node)
    → Goes container r
    → ((n : Node) → HasPlaces container n → Goes container (f n))
    → Goes container (r >>= f)
then-Goes container r f (n, e, p) h = let (n', e', p') = h n p in (n', ap (λ x. x >>= f) e ∙ e', p')

-- A document with a container, a body and a head takes whatever a script's result and the state add
-- to it: none of the errors for a missing place arises.
pub filled_total :
    (container state_id : String) (state : Option String) (r : VmResult) (doc : Node)
    → HasPlaces container doc
    → (doc' : Node) × (filled container state_id state r doc ≡ ok doc') × HasPlaces container doc'
unfolding filled render_container render_state render_title render_metas render_links render_scripts
filled_total container state_id state r doc p0 =
    then-Goes container _ _
      (if_some-Goes container (render_container container) r.render doc
        (λ s.
          found-Goes container "container not found" (is_container container)
            (only (leaf raw_node s)) doc p0.container_place p0)
        p0)
      λ d1 p1.
        then-Goes container _ _
          (if_some-Goes container (render_state state_id) state d1
            (λ s.
              found-Goes container "body not found" (is_tag "body")
                (only (state_element state_id s)) d1 p1.body_place p1)
            p1)
          λ d2 p2.
            then-Goes container _ _
              (if_some-Goes container render_title r.title d2
                (λ s.
                  found-Goes container "head not found" (is_tag "head") (only (title_node s)) d2
                    p2.head_place p2)
                p2)
              λ d3 p3.
                then-Goes container _ _
                  (if_some-Goes container render_metas r.metas d3
                    (λ l.
                      found-Goes container "head not found" (is_tag "head")
                        (element_nodes meta_node (elements l)) d3 p3.head_place p3)
                    p3)
                  λ d4 p4.
                    then-Goes container _ _
                      (if_some-Goes container render_links r.links d4
                        (λ l.
                          found-Goes container "head not found" (is_tag "head")
                            (element_nodes link_node (elements l)) d4 p4.head_place p4)
                        p4)
                      λ d5 p5.
                        if_some-Goes container render_scripts r.scripts d5
                          (λ l.
                            found-Goes container "head not found" (is_tag "head")
                              (element_nodes script_node (elements l)) d5 p5.head_place p5)
                          p5
