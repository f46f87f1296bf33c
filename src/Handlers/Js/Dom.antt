-- ===== src/Handlers/Js/Dom.antt =====
-- pkg/modules/app/server/site/handlers/js/dom.go: the elements that a script asks for, by their
-- identifiers. An element is not changed once it is in a list, so a list holds values.
pub mod Laws
use neon_oss.Base.{Dict, get, put, String, List, [], ◌∷◌, ◌++◌, Option, none, some, Result, ok, err}

-- The type `domElement`.
pub record DomElement : Type 0 where
  pub id : String
  pub m : Dict String

-- `newDOMElement`
abbrev pub new_dom_element : String → DomElement
new_dom_element id = record { id = id; m = [] }

-- `Attributes`, in one order of the map.
unfoldable pub attributes : Dict String → List String
attributes [] = []
attributes ((k, v) ∷ more) = k ∷ attributes more

text_or_empty : Option String → String
text_or_empty none = ""
text_or_empty (some v) = v

-- `GetAttribute`
unfoldable pub get_attribute : String → DomElement → String
unfolding text_or_empty
get_attribute name e = text_or_empty (get name e.m)

-- `SetAttribute`
unfoldable pub set_attribute : String → String → DomElement → DomElement
set_attribute key value e = record e { m = put key value e.m }

-- The type `domElementList`.
pub record DomElementList : Type 0 where
  pub ids : List String
  pub m : Dict DomElement

-- `newDOMElementList`
abbrev pub new_dom_element_list : DomElementList
new_dom_element_list = record { ids = []; m = [] }

found_element : Option DomElement → Result DomElement
found_element none = err "invalid id"
found_element (some e) = ok e

-- `Get`
unfoldable pub get_element : String → DomElementList → Result DomElement
unfolding found_element
get_element id l = found_element (get id l.m)

with_id : String → List String → Option DomElement → List String
with_id id ids (some old) = ids
with_id id ids none = ids ++ id ∷ []

-- `Set`
unfoldable pub set_element : DomElement → DomElementList → DomElementList
unfolding with_id
set_element e l = record { ids = with_id e.id l.ids (get e.id l.m); m = put e.id e l.m }

found_or_skip : Result DomElement → List DomElement → List DomElement
found_or_skip (err e) rest = rest
found_or_skip (ok e) rest = e ∷ rest

collect : List String → DomElementList → List DomElement
collect [] l = []
collect (id ∷ ids) l = found_or_skip (get_element id l) (collect ids l)

-- The loop of js.go over `Ids` with `Get` for each, which skips an identifier without an element.
unfoldable pub elements : DomElementList → List DomElement
unfolding collect found_or_skip get_element
elements l = collect l.ids l
