-- ===== src/Handlers/Js/Api.antt =====
-- pkg/modules/app/server/site/handlers/js/vmapi.go: the functions that a script finds under
-- `server`. The engine (gomonkey) is not part of the repository: its values are represented by
-- what the functions read of them, and making a value of a text, a number or an array succeeds.
pub mod Laws
use neon_oss.Base.{
  ℕ, zero, suc, ◌+◌, ◌-◌, ◌%◌, Bool, true, false, ltb, if◌then◌else◌, ◌||◌, Dict, get, put, String,
  List, [], ◌∷◌, ◌++◌, Option, none, some, Result, ok, err, ℤ, pos, negsuc, pos_part, ltb_int,
}
use neon_oss.Strings.{format_int}
use neon_oss.Handlers.Js.Dom.{
  DomElement, DomElementList, new_dom_element, new_dom_element_list, set_attribute, set_element,
}

-- A value of the engine. An object is the entries that the iteration over its `entries()` gives,
-- or none where a call of the iteration fails.
pub data JsValue : Type 0 where
  text : String → JsValue
  int32 : ℤ → JsValue
  boolean : Bool → JsValue
  array : List String → JsValue
  object : Option (List (String × String)) → JsValue
  undefined : JsValue

-- `core.ServerSite`, as far as a script sees it.
pub record SiteInfo : Type 0 where
  pub name : String
  pub listeners : List String
  pub hosts : List String
  pub is_default : Bool

-- The parts of `http.Request` that a script sees. The query and the headers are the JSON texts of
-- them, for `json.Marshal`.
pub record PageRequest : Type 0 where
  pub method : String
  pub proto : String
  pub proto_major : ℕ
  pub proto_minor : ℕ
  pub remote_addr : String
  pub host : String
  pub path : String
  pub query : Result String
  pub headers : Result String

-- The type `vmConfig`.
pub record VmConfig : Type 0 where
  pub env : String
  pub state : Option String
  pub request : PageRequest
  pub site : SiteInfo

-- The type `vmData`.
pub record VmData : Type 0 where
  pub render : Option String
  pub status : Option ℕ
  pub redirect : Option Bool
  pub redirect_url : Option String
  pub redirect_status : Option ℕ
  pub headers : Option (Dict (List String))
  pub title : Option String
  pub metas : Option DomElementList
  pub links : Option DomElementList
  pub scripts : Option DomElementList

-- `&vmData{}`
abbrev pub new_vm_data : VmData
new_vm_data = record {
  render = none;
  status = none;
  redirect = none;
  redirect_url = none;
  redirect_status = none;
  headers = none;
  title = none;
  metas = none;
  links = none;
  scripts = none;
}

-- A call of one of the functions.
pub data Call : Type 0 where
  site_name site_listeners site_hosts site_is_default : Call
  handler_state : Call
  request_method request_proto request_proto_major request_proto_minor : Call
  request_remote_addr request_host request_path request_query request_headers : Call
  render redirect set_header set_title set_meta set_link set_script : List JsValue → Call

-- A call gives the engine a value or an error, or it panics.
pub data Reply (A : Type 0) : Type 0 where
  gives : Result JsValue → A → Reply A
  panics : Reply A

-- `int32(n)`
unfoldable pub to_int32 : ℕ → ℤ
to_int32 n =
    let low = n % 4294967296 in if ltb low 2147483648 then pos low else negsuc (4294967295 - low)

-- `apiSite`
unfoldable pub api_name : SiteInfo → Result JsValue
api_name s = ok (text s.name)

unfoldable pub api_listeners : SiteInfo → Result JsValue
api_listeners s = ok (array s.listeners)

unfoldable pub api_hosts : SiteInfo → Result JsValue
api_hosts s = ok (array s.hosts)

unfoldable pub api_is_default : SiteInfo → Result JsValue
api_is_default s = ok (boolean s.is_default)

-- `apiHandler`: `none` is the panic of `*v.config.State` where no rule made a state.
unfoldable pub api_state : (String → Result JsValue) → Option String → Option (Result JsValue)
api_state json_parse none = none
api_state json_parse (some s) = some (json_parse s)

as_text : Result String → Result JsValue
as_text (ok t) = ok (text t)
as_text (err e) = err e

bad_code : ℤ → Bool
bad_code code = ltb_int code (pos 100) || ltb_int (pos 599) code

-- `if len(args) >= 2 && args[1].IsInt32()`: the code that is given, or the default one.
code_or : String → ℕ → List JsValue → Result ℕ
code_or invalid default (int32 code ∷ more) =
    if bad_code code then err invalid else ok (pos_part code)
code_or invalid default _ = ok default

rendered : String → Result ℕ → VmData → Result JsValue × VmData
rendered content (err e) d = (err e, d)
rendered content (ok status) d =
    (ok undefined, record d { render = some content; status = some status })

-- `render`
unfoldable pub api_render : List JsValue → VmData → Result JsValue × VmData
unfolding rendered code_or bad_code
api_render [] d = (err "invalid arguments", d)
api_render (text content ∷ more) d = rendered content (code_or "invalid code" 200 more) d
api_render (other ∷ more) d = (err "invalid content", d)

redirected : String → Result ℕ → VmData → Result JsValue × VmData
redirected url (err e) d = (err e, d)
redirected url (ok status) d = (
  ok undefined,
  record d { redirect = some true; redirect_url = some url; redirect_status = some status },
)

-- `redirect`
unfoldable pub api_redirect : List JsValue → VmData → Result JsValue × VmData
unfolding redirected code_or bad_code
api_redirect [] d = (err "invalid arguments", d)
api_redirect (text url ∷ more) d = redirected url (code_or "invalid status" 302 more) d
api_redirect (other ∷ more) d = (err "invalid url", d)

abbrev or_none : Option (Dict (List String)) → Dict (List String)
or_none none = []
or_none (some m) = m

abbrev values_or_none : Option (List String) → List String
values_or_none none = []
values_or_none (some vs) = vs

-- `headers[key] = append(headers[key], value)`
unfoldable pub append_header : String → String → Option (Dict (List String)) → Dict (List String)
append_header key value headers =
    put key (values_or_none (get key (or_none headers)) ++ value ∷ []) (or_none headers)

-- `setHeader`
unfoldable pub api_set_header : List JsValue → VmData → Result JsValue × VmData
unfolding append_header
api_set_header [] d = (err "invalid arguments", d)
api_set_header (key ∷ []) d = (err "invalid arguments", d)
api_set_header (text key ∷ text value ∷ more) d =
    (ok undefined, record d { headers = some (append_header key value d.headers) })
api_set_header (text key ∷ other ∷ more) d = (err "invalid value", d)
api_set_header (other ∷ value ∷ more) d = (err "invalid key", d)

-- `setTitle`
unfoldable pub api_set_title : List JsValue → VmData → Result JsValue × VmData
api_set_title [] d = (err "invalid arguments", d)
api_set_title (text title ∷ more) d = (ok undefined, record d { title = some title })
api_set_title (other ∷ more) d = (err "invalid title", d)

-- The loop over the entries of the attributes.
unfoldable pub with_attributes : List (String × String) → DomElement → DomElement
with_attributes [] e = e
with_attributes ((k, v) ∷ more) e = with_attributes more (set_attribute k v e)

-- What `entries()` of an array gives: the items by their positions.
unfoldable pub indexed : ℕ → List String → List (String × String)
indexed i [] = []
indexed i (x ∷ xs) = (format_int (pos i), x) ∷ indexed (i + 1) xs

-- The head that `setMeta`, `setLink` and `setScript` share: an error, or the element that is set.
-- Where the iteration fails they return no error and set nothing.
unfoldable pub element_of : List JsValue → Result (Option DomElement)
unfolding with_attributes indexed
element_of [] = err "invalid arguments"
element_of (id ∷ []) = err "invalid arguments"
element_of (text id ∷ object none ∷ more) = ok none
element_of (text id ∷ object (some entries) ∷ more) =
    ok (some (with_attributes entries (new_dom_element id)))
element_of (text id ∷ array items ∷ more) =
    ok (some (with_attributes (indexed 0 items) (new_dom_element id)))
element_of (text id ∷ other ∷ more) = err "invalid attributes"
element_of (other ∷ attributes ∷ more) = err "invalid id"

or_new : Option DomElementList → DomElementList
or_new none = new_dom_element_list
or_new (some l) = l

-- The new list, where an element is set.
listed : Option DomElementList → Result (Option DomElement) → Option DomElementList
listed l (err e) = l
listed l (ok none) = l
listed l (ok (some e)) = some (set_element e (or_new l))

answered : Result (Option DomElement) → Result JsValue
answered (err e) = err e
answered (ok o) = ok undefined

-- `setMeta`
unfoldable pub api_set_meta : List JsValue → VmData → Result JsValue × VmData
unfolding listed or_new answered element_of
api_set_meta args d =
    (answered (element_of args), record d { metas = listed d.metas (element_of args) })

-- `setLink`
unfoldable pub api_set_link : List JsValue → VmData → Result JsValue × VmData
unfolding listed or_new answered element_of
api_set_link args d =
    (answered (element_of args), record d { links = listed d.links (element_of args) })

-- `setScript`
unfoldable pub api_set_script : List JsValue → VmData → Result JsValue × VmData
unfolding listed or_new answered element_of
api_set_script args d =
    (answered (element_of args), record d { scripts = listed d.scripts (element_of args) })

abbrev reads : VmData → Result JsValue → Reply VmData
reads d r = gives r d

abbrev writes : Result JsValue × VmData → Reply VmData
writes (r, d) = gives r d

abbrev or_panic : VmData → Option (Result JsValue) → Reply VmData
or_panic d none = panics
or_panic d (some r) = gives r d

-- The functions by their names. `json_parse` is `gomonkey.JSONParse`.
unfoldable pub dispatch : (String → Result JsValue) → VmConfig → Call → VmData → Reply VmData
unfolding api_name api_listeners api_hosts api_is_default api_state as_text api_render api_redirect
    api_set_header api_set_title api_set_meta api_set_link api_set_script to_int32
dispatch json_parse c site_name d = reads d (api_name c.site)
dispatch json_parse c site_listeners d = reads d (api_listeners c.site)
dispatch json_parse c site_hosts d = reads d (api_hosts c.site)
dispatch json_parse c site_is_default d = reads d (api_is_default c.site)
dispatch json_parse c handler_state d = or_panic d (api_state json_parse c.state)
dispatch json_parse c request_method d = reads d (ok (text c.request.method))
dispatch json_parse c request_proto d = reads d (ok (text c.request.proto))
dispatch json_parse c request_proto_major d = reads d (ok (int32 (to_int32 c.request.proto_major)))
dispatch json_parse c request_proto_minor d = reads d (ok (int32 (to_int32 c.request.proto_minor)))
dispatch json_parse c request_remote_addr d = reads d (ok (text c.request.remote_addr))
dispatch json_parse c request_host d = reads d (ok (text c.request.host))
dispatch json_parse c request_path d = reads d (ok (text c.request.path))
dispatch json_parse c request_query d = reads d (as_text c.request.query)
dispatch json_parse c request_headers d = reads d (as_text c.request.headers)
dispatch json_parse c (render args) d = writes (api_render args d)
dispatch json_parse c (redirect args) d = writes (api_redirect args d)
dispatch json_parse c (set_header args) d = writes (api_set_header args d)
dispatch json_parse c (set_title args) d = writes (api_set_title args d)
dispatch json_parse c (set_meta args) d = writes (api_set_meta args d)
dispatch json_parse c (set_link args) d = writes (api_set_link args d)
dispatch json_parse c (set_script args) d = writes (api_set_script args d)
