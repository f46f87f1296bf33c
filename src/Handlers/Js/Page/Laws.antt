-- ===== src/Handlers/Js/Page/Laws.antt =====
-- What the method `doc` makes of the page's document.
use mathlib.Core.Option
use neon_oss.Base.{
  ℕ, ◌≡◌, sym, ap, Bool, Option, none, some, Result, ok, err, wrap, >>=-eq-ok, String, List,
}
use neon_oss.Handlers.Js.Dom.{DomElementList, elements}
use neon_oss.Handlers.Js.Vm.{VmResult}
use neon_oss.Handlers.Js.Page.{
  Label, Node, Nodes, raw_node, leaf, only, append_first, is_container, is_tag, found,
  render_container, render_state, render_title, render_metas, render_links, render_scripts,
  state_element, title_node, meta_node, link_node, script_node, element_nodes, if_some, filled,
  make_page,
}
use neon_oss.Handlers.Js.Page.Tokens.{tokens, Inserted, append_first-Inserted}

-- Nothing is added, or `kids` in the first node that passes the test.
abbrev pub Added : (Label → Bool) → Option Nodes → Node → Node → Type 0
Added test none before after = after ≡ before
Added test (some kids) before after = Inserted test kids (tokens before) (tokens after)

-- The steps from one document to another, each adding what the result has for it.
pub record Filled (container state_id : String) (state : Option String) (r : VmResult)
    (before after : Node) : Type 0 where
  pub d1 : Node
  pub d2 : Node
  pub d3 : Node
  pub d4 : Node
  pub d5 : Node
  pub content :
      Added (is_container container) (Option.map (λ s. only (leaf raw_node s)) r.render) before d1
  pub with_state :
      Added (is_tag "body") (Option.map (λ s. only (state_element state_id s)) state) d1 d2
  pub with_title : Added (is_tag "head") (Option.map (λ s. only (title_node s)) r.title) d2 d3
  pub with_metas :
      Added (is_tag "head") (Option.map (λ l. element_nodes meta_node (elements l)) r.metas) d3 d4
  pub with_links :
      Added (is_tag "head") (Option.map (λ l. element_nodes link_node (elements l)) r.links) d4 d5
  pub with_scripts :
      Added
        (is_tag "head")
        (Option.map (λ l. element_nodes script_node (elements l)) r.scripts)
        d5
        after

found-Inserted :
    (missing : String) (test : Label → Bool) (kids : Nodes) (before after : Node)
    → found missing (append_first test kids before) ≡ ok after
    → Inserted test kids (tokens before) (tokens after)
unfolding found
found-Inserted missing test kids before after h =
    append_first-Inserted test kids before after (was_found (append_first test kids before) h)
  where
    was_found : (o : Option Node) → found missing o ≡ ok after → o ≡ some after
    was_found none h = absurd (cc h)
    was_found (some n) h = let e : n ≡ after = cc h in ap some e

if_some-Added :
    {A : Type 0} (test : Label → Bool) (kids : A → Nodes) (f : A → Node → Result Node)
    (o : Option A) (before after : Node)
    → ((a : A) (n n' : Node) → f a n ≡ ok n' → Inserted test (kids a) (tokens n) (tokens n'))
    → if_some f o before ≡ ok after
    → Added test (Option.map kids o) before after
if_some-Added test kids f none before after h e = let same : before ≡ after = cc e in sym same
if_some-Added test kids f (some a) before after h e = h a before after e

container-Inserted :
    (id s : String) (n n' : Node)
    → render_container id s n ≡ ok n'
    → Inserted (is_container id) (only (leaf raw_node s)) (tokens n) (tokens n')
unfolding render_container
container-Inserted id s n n' h =
    found-Inserted "container not found" (is_container id) (only (leaf raw_node s)) n n' h

state-Inserted :
    (id s : String) (n n' : Node)
    → render_state id s n ≡ ok n'
    → Inserted (is_tag "body") (only (state_element id s)) (tokens n) (tokens n')
unfolding render_state
state-Inserted id s n n' h =
    found-Inserted "body not found" (is_tag "body") (only (state_element id s)) n n' h

title-Inserted :
    (s : String) (n n' : Node)
    → render_title s n ≡ ok n'
    → Inserted (is_tag "head") (only (title_node s)) (tokens n) (tokens n')
unfolding render_title
title-Inserted s n n' h =
    found-Inserted "head not found" (is_tag "head") (only (title_node s)) n n' h

metas-Inserted :
    (l : DomElementList) (n n' : Node)
    → render_metas l n ≡ ok n'
    → Inserted (is_tag "head") (element_nodes meta_node (elements l)) (tokens n) (tokens n')
unfolding render_metas
metas-Inserted l n n' h =
    found-Inserted "head not found" (is_tag "head") (element_nodes meta_node (elements l)) n n' h

links-Inserted :
    (l : DomElementList) (n n' : Node)
    → render_links l n ≡ ok n'
    → Inserted (is_tag "head") (element_nodes link_node (elements l)) (tokens n) (tokens n')
unfolding render_links
links-Inserted l n n' h =
    found-Inserted "head not found" (is_tag "head") (element_nodes link_node (elements l)) n n' h

scripts-Inserted :
    (l : DomElementList) (n n' : Node)
    → render_scripts l n ≡ ok n'
    → Inserted (is_tag "head") (element_nodes script_node (elements l)) (tokens n) (tokens n')
unfolding render_scripts
scripts-Inserted l n n' h =
    found-Inserted "head not found" (is_tag "head") (element_nodes script_node (elements l)) n n' h

filled-Filled :
    (container state_id : String) (state : Option String) (r : VmResult) (before after : Node)
    → filled container state_id state r before ≡ ok after
    → Filled container state_id state r before after
unfolding filled
filled-Filled container state_id state r before after h =
    let (d1, e1, h1) = >>=-eq-ok (if_some (render_container container) r.render before) _ h in
    let (d2, e2, h2) = >>=-eq-ok (if_some (render_state state_id) state d1) _ h1 in
    let (d3, e3, h3) = >>=-eq-ok (if_some render_title r.title d2) _ h2 in
    let (d4, e4, h4) = >>=-eq-ok (if_some render_metas r.metas d3) _ h3 in
    let (d5, e5, h5) = >>=-eq-ok (if_some render_links r.links d4) _ h4 in
    record {
      d1 = d1;
      d2 = d2;
      d3 = d3;
      d4 = d4;
      d5 = d5;
      content =
          if_some-Added (is_container container) (λ s. only (leaf raw_node s))
            (render_container container) r.render before d1 (container-Inserted container) e1;
      with_state =
          if_some-Added (is_tag "body") (λ s. only (state_element state_id s))
            (render_state state_id) state d1 d2 (state-Inserted state_id) e2;
      with_title =
          if_some-Added (is_tag "head") (λ s. only (title_node s)) render_title r.title d2 d3
            title-Inserted e3;
      with_metas =
          if_some-Added (is_tag "head") (λ l. element_nodes meta_node (elements l)) render_metas
            r.metas d3 d4 metas-Inserted e4;
      with_links =
          if_some-Added (is_tag "head") (λ l. element_nodes link_node (elements l)) render_links
            r.links d4 d5 links-Inserted e5;
      with_scripts =
          if_some-Added (is_tag "head") (λ l. element_nodes script_node (elements l)) render_scripts
            r.scripts d5 after scripts-Inserted h5;
    }

wrap-eq-ok : {A : Type 0} (prefix : String) (r : Result A) {a : A} → wrap prefix r ≡ ok a → r ≡ ok a
wrap-eq-ok prefix (ok b) h = h
wrap-eq-ok prefix (err e) h = absurd (cc h)

-- A page that `doc` makes is the print of the parsed index with these nodes added and nothing else
-- changed: the script's content at the end of the first container, the state at the end of the first
-- body, and the title, the metas, the links and the scripts, in this order, at the end of the first
-- head; each of them only if it is there.
pub make_page-Filled :
    (parse : List ℕ → Result Node) (print : Node → Result (List ℕ)) (container state_id : String)
    (index : List ℕ) (state : Option String) (r : VmResult) (page : List ℕ)
    → make_page parse print container state_id index state r ≡ ok page
    → (doc : Node) × (doc' : Node) × (parse index ≡ ok doc)
      × (print doc' ≡ ok page)
      × Filled container state_id state r doc doc'
unfolding make_page
make_page-Filled parse print container state_id index state r page h =
    let (doc, e1, h1) = >>=-eq-ok (wrap "parse html: " (parse index)) _ h in
    let (doc', e2, h2) = >>=-eq-ok (filled container state_id state r doc) _ h1 in
    (
      doc,
      doc',
      wrap-eq-ok "parse html: " (parse index) e1,
      wrap-eq-ok "render html: " (print doc') h2,
      filled-Filled container state_id state r doc doc' e2,
    )
