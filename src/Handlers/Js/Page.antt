-- ===== src/Handlers/Js/Page.antt =====
-- pkg/modules/app/server/site/handlers/js/js.go, the method `doc`: the page's HTML document and
-- what a script's result adds to it. The parser and the printer of HTML are parameters.
pub mod Tokens
pub mod Laws
pub mod Total
use mathlib.Core.Option
use neon_oss.Base.{
  ℕ, Bool, true, false, ◌&&◌, ◌||◌, String, str_eq, List, [], ◌∷◌, ◌++◌, Option, none, some, Result,
  ok, err, wrap, ◌>>=◌, if◌then◌else◌,
}
use neon_oss.Handlers.Js.Dom.{DomElement, DomElementList, elements, attributes, get_attribute}
use neon_oss.Handlers.Js.Vm.{VmResult}

-- `html.NodeType`, as far as it is told apart.
pub data Kind : Type 0 where
  element text_node raw_node other_node : Kind

-- `html.Attribute`
pub record Attribute : Type 0 where
  pub key : String
  pub val : String

-- What a node says of itself: its type, its tag or text, and its attributes.
pub record Label : Type 0 where
  pub kind : Kind
  pub tag : String
  pub attr : List Attribute

-- `html.Node`, with its children from `FirstChild` on.
mutual
  pub data Node : Type 0 where
    node : Label → Nodes → Node

  pub data Nodes : Type 0 where
    nil : Nodes
    child : Node → Nodes → Nodes

-- The children after those that are there: `n.AppendChild` for each.
unfoldable pub append_children : Nodes → Nodes → Nodes
append_children nil kids = kids
append_children (child n ns) kids = child n (append_children ns kids)

-- The recursion that all the closures of `doc` share: in the first node that passes the test, the
-- document in its order, children are added. `none` where no node passes.
module _ (test : Label → Bool) (kids : Nodes) where
  unfoldable mutual
    pub append_first : Node → Option Node
    append_first (node l ns) =
        let rest = append_within ns in
        if test l then some (node l (append_children ns kids)) else Option.map (node l) rest

    pub append_within : Nodes → Option Nodes
    append_within nil = none
    append_within (child n ns) =
        let rest = append_within ns in
        elim (append_first n) [ some n' ↦ some (child n' ns) | none ↦ Option.map (child n) rest ]

abbrev is_element : Kind → Bool
is_element element = true
is_element _ = false

-- `n.Type == html.ElementNode && n.Data == tag`
unfoldable pub is_tag : String → Label → Bool
is_tag tag l = is_element l.kind && str_eq l.tag tag

-- The loop over the attributes for the identifier.
unfoldable pub has_id : String → List Attribute → Bool
has_id id [] = false
has_id id (a ∷ more) = str_eq a.key "id" && str_eq a.val id || has_id id more

-- The test of `renderContainer`.
unfoldable pub is_container : String → Label → Bool
unfolding is_tag has_id
is_container id l = is_tag "div" l && has_id id l.attr

abbrev pub only : Node → Nodes
only n = child n nil

abbrev pub leaf : Kind → String → Node
leaf kind s = node (record { kind = kind; tag = s; attr = [] }) nil

unfoldable pub page_element : String → List Attribute → Nodes → Node
page_element tag attr kids = node (record { kind = element; tag = tag; attr = attr }) kids

found : String → Option Node → Result Node
found missing none = err missing
found missing (some n) = ok n

-- `renderContainer` and its call.
unfoldable pub render_container : String → String → Node → Result Node
unfolding found is_container
render_container id content doc =
    found "container not found" (append_first (is_container id) (only (leaf raw_node content)) doc)

-- The script element that carries the state.
unfoldable pub state_element : String → String → Node
unfolding page_element
state_element id state =
    page_element "script"
      (record { key = "id"; val = id } ∷ record { key = "type"; val = "application/json" } ∷ [])
      (only (leaf raw_node state))

-- `renderState`
unfoldable pub render_state : String → String → Node → Result Node
unfolding found state_element
render_state id state doc =
    found "body not found" (append_first (is_tag "body") (only (state_element id state)) doc)

unfoldable pub title_node : String → Node
unfolding page_element
title_node title = page_element "title" [] (only (leaf text_node title))

-- `renderTitle`
unfoldable pub render_title : String → Node → Result Node
unfolding found title_node
render_title title doc =
    found "head not found" (append_first (is_tag "head") (only (title_node title)) doc)

-- The attributes of an element under their names, but for the names that are passed over.
unfoldable pub attributes_of : (String → Bool) → List String → DomElement → List Attribute
attributes_of skip [] e = []
attributes_of skip (k ∷ ks) e =
    let rest = attributes_of skip ks e in
    if skip k then rest else record { key = k; val = get_attribute k e } ∷ rest

-- The nodes of the elements of a list, each of them with its identifier first.
unfoldable pub element_nodes : (DomElement → Node) → List DomElement → Nodes
element_nodes make [] = nil
element_nodes make (e ∷ es) = child (make e) (element_nodes make es)

unfoldable pub with_id : (String → Bool) → DomElement → List Attribute
unfolding attributes_of
with_id skip e = record { key = "id"; val = e.id } ∷ attributes_of skip (attributes e.m) e

abbrev pub no_name : String → Bool
no_name k = false

abbrev pub is_children : String → Bool
is_children k = str_eq k "children"

unfoldable pub meta_node : DomElement → Node
unfolding page_element with_id
meta_node e = page_element "meta" (with_id no_name e) nil

unfoldable pub link_node : DomElement → Node
unfolding page_element with_id
link_node e = page_element "link" (with_id no_name e) nil

-- `renderMetas`
unfoldable pub render_metas : DomElementList → Node → Result Node
unfolding found meta_node element_nodes
render_metas l doc =
    found "head not found" (append_first (is_tag "head") (element_nodes meta_node (elements l)) doc)

-- `renderLink`
unfoldable pub render_links : DomElementList → Node → Result Node
unfolding found link_node element_nodes
render_links l doc =
    found "head not found" (append_first (is_tag "head") (element_nodes link_node (elements l)) doc)

unfoldable pub script_node : DomElement → Node
unfolding page_element with_id
script_node e =
    page_element "script" (with_id is_children e)
      (only (leaf raw_node (get_attribute "children" e)))

-- `renderScript`
unfoldable pub render_scripts : DomElementList → Node → Result Node
unfolding found script_node element_nodes
render_scripts l doc =
    found "head not found"
      (append_first (is_tag "head") (element_nodes script_node (elements l)) doc)

-- A step that is taken if there is something to add.
abbrev pub if_some : {A : Type 0} → (A → Node → Result Node) → Option A → Node → Result Node
if_some f none doc = ok doc
if_some f (some a) doc = f a doc

-- The document with all that the result adds, in the order of `doc`.
unfoldable pub filled : String → String → Option String → VmResult → Node → Result Node
filled container state_id state r doc = do
  d1 ← if_some (render_container container) r.render doc
  d2 ← if_some (render_state state_id) state d1
  d3 ← if_some render_title r.title d2
  d4 ← if_some render_metas r.metas d3
  d5 ← if_some render_links r.links d4
  if_some render_scripts r.scripts d5

-- `doc`: `parse` is `html.Parse` and `print` is `html.Render`, into the bytes of the page.
unfoldable pub make_page :
    (List ℕ → Result Node)
    → (Node → Result (List ℕ))
    → String
    → String
    → List ℕ
    → Option String
    → VmResult
    → Result (List ℕ)
unfolding filled
make_page parse print container state_id index state r = do
  doc ← wrap "parse html: " (parse index)
  d ← filled container state_id state r doc
  wrap "render html: " (print d)
