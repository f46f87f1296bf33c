-- ===== src/Tests/Pages.antt =====
-- The handler that renders pages by a script.
use neon_oss.Base.{
  ℕ, ◌≤◌, ◌≡◌, ◌↔◌, refl, arith, true, false, Dict, get, List, [], ◌∷◌, String, Option, none, some,
  Result, ok, err, pos,
}
use neon_oss.Render.{Render, new_render_writer}
use neon_oss.Resource.{Resource}
use neon_oss.Http.{new_response, FileInfo, seconds}
use neon_oss.Handlers.Js.Dom.{DomElement, new_dom_element, new_dom_element_list, set_attribute}
use neon_oss.Handlers.Js.Dom.Laws.{set_all}
use neon_oss.Handlers.Js.Api.{
  JsValue, text, int32, array, object, SiteInfo, PageRequest, VmConfig, VmData, Call, set_title,
  set_meta, redirect, new_vm_data,
}
use neon_oss.Handlers.Js.Api
use neon_oss.Handlers.Js.Vm.{Engine, Script, finished, calls, VmResult, execute, returned, blocked}
use neon_oss.Handlers.Js.Vm.Laws.{Ended, execute-Ended, NeverReturns, execute_blocked_iff}
use neon_oss.Handlers.Js.Page.{
  Node, node, Nodes, nil, child, element, Attribute, make_page, filled, is_container, is_tag,
}
use neon_oss.Handlers.Js.Page.Laws.{Filled, make_page-Filled}
use neon_oss.Handlers.Js.Page.Total.{HasPlaces, filled_total}
use neon_oss.Handlers.Js.Page.Tokens.{tokens}
use neon_oss.Handlers.Js.Dom.{elements}
use neon_oss.Handlers.Js.Dom.Laws.{pick, latest, elements-set_all}
use neon_oss.Handlers.Js.Page.{append_first, render_container, render_state, render_title}
use neon_oss.Handlers.Js.Options.{Compiled, Config}
use neon_oss.Handlers.Js.States.{
  JsResource, States, new_states, rule_states, add_entries, add_entry, marshal_states, route_params,
  or_no_entry,
}
use neon_oss.Handlers.Js.States.Visits.{latest as last_visit, exported_of, all_loaded}
use neon_oss.Handlers.Js.States.Laws.{visits, rule_states-latest}
use neon_oss.Handlers.Js.States.Marshalling.{Marshalled}
use neon_oss.Strings.{replace_all, canonical_key}
use neon_oss.Base.{str_eq, if◌then◌else◌, put}
use neon_oss.Cache.{new_cache, cache_get}
use neon_oss.Cache.Laws.{new_cache-Represents}
use neon_oss.Handlers.{fresh}
use neon_oss.Handlers.Js.Serving.{World, JsHandler, make_render, read, serve, reply}
use neon_oss.Handlers.Js.Serving.Laws.{Rendered, make_render-Rendered}
use neon_oss.Handlers.Js.Serving.Caching.{serve-serve_page}
use neon_oss.Render.{pool_put, pool_get, render, write, write_header, set_header}
use neon_oss.Handlers.{add_all}
use neon_oss.Handlers.Js.Serving.{redirection, page_status, page_headers}

abbrev site_info : SiteInfo
site_info = record { name = "main"; listeners = "http" ∷ []; hosts = []; is_default = true }

abbrev page_request : PageRequest
page_request = record {
  method = "GET";
  proto = "HTTP/1.1";
  proto_major = 1;
  proto_minor = 1;
  remote_addr = "127.0.0.1";
  host = "a.org";
  path = "/a";
  query = ok "";
  headers = ok "";
}

abbrev vm_config : VmConfig
vm_config = record {
  env = "production";
  state = some "{}";
  request = page_request;
  site = site_info;
}

abbrev engine : Engine
engine = record {
  new_context = ok tt;
  configure = ok tt;
  compile_script = ok tt;
  json_parse = λ t. ok (object none);
  late = false;
  interrupted = none;
}

-- A script that renders a page with the status 201 and a title.
abbrev script : Script
script =
    calls (Api.render (text "Hello" ∷ int32 (pos 201) ∷ []))
      λ r. calls (set_title (text "A page" ∷ [])) λ r2. finished

abbrev result : VmResult
result = record {
  render = some "Hello";
  status = some 201;
  redirect = none;
  redirect_url = none;
  redirect_status = none;
  headers = none;
  title = some "A page";
  metas = none;
  links = none;
  scripts = none;
}

script_runs : execute engine vm_config script ≡ returned (ok result)
unfolding execute Api.dispatch
script_runs = refl

execute-Ended_example : Ended engine vm_config script result
execute-Ended_example = execute-Ended engine vm_config script result script_runs

execute_blocked_iff_example :
    (execute engine vm_config script ≡ blocked) ↔ NeverReturns engine vm_config script
execute_blocked_iff_example = execute_blocked_iff engine vm_config script

abbrev tagged : String → List Attribute → Nodes → Node
tagged tag attr ns = node (record { kind = element; tag = tag; attr = attr }) ns

abbrev root_attr : List Attribute
root_attr = record { key = "id"; val = "root" } ∷ []

-- <html><head></head><body><div id="root"></div></body></html>
abbrev document : Node
document = tagged "html" [] (
    child (tagged "head" [] nil)
      (child (tagged "body" [] (child (tagged "div" root_attr nil) nil)) nil))

abbrev parse : List ℕ → Result Node
parse bytes = ok document

abbrev print : Node → Result (List ℕ)
print n = ok (60 ∷ 62 ∷ [])

page_made : make_page parse print "root" "state" [] (some "{}") result ≡ ok (60 ∷ 62 ∷ [])
unfolding make_page append_first render_container render_state render_title
page_made = refl

make_page-Filled_example :
    (doc : Node) × (doc' : Node) × (parse [] ≡ ok doc)
    × (print doc' ≡ ok (60 ∷ 62 ∷ []))
    × Filled "root" "state" (some "{}") result doc doc'
make_page-Filled_example =
    make_page-Filled parse print "root" "state" [] (some "{}") result (60 ∷ 62 ∷ []) page_made

document-HasPlaces : HasPlaces "root" document
unfolding tokens is_container is_tag
document-HasPlaces = record {
  container_place = λ m. cc (m.1.1.1.1.0);
  body_place = λ m. cc (m.1.1.1.0);
  head_place = λ m. cc (m.1.0);
}

filled_total_example :
    (doc' : Node) × (filled "root" "state" (some "{}") result document ≡ ok doc')
    × HasPlaces "root" doc'
filled_total_example = filled_total "root" "state" (some "{}") result document document-HasPlaces

abbrev author : String → DomElement
author name = set_attribute "content" name (new_dom_element "author")

abbrev icon : DomElement
icon = new_dom_element "icon"

elements-set_all_example :
    elements (set_all (author "a" ∷ icon ∷ author "b" ∷ []) new_dom_element_list)
    ≡ pick (λ id. latest id (author "a" ∷ icon ∷ author "b" ∷ [])) ("author" ∷ "icon" ∷ [])
unfolding set_attribute
elements-set_all_example = elements-set_all (author "a" ∷ icon ∷ author "b" ∷ [])

-- An expression is the path that it matches.
abbrev submatch : String → String → Option (List String)
submatch re path = if str_eq re path then some (path ∷ []) else none

abbrev no_names : String → List String
no_names re = []

abbrev load : String → Result Resource
load name = if str_eq name "news" then ok (record { data_array = []; ttl = 0 }) else err "missing"

abbrev marshal : Dict JsResource → Result String
marshal m = ok "{}"

abbrev page_rules : List (Compiled String)
page_rules =
    record {
      regexp = "/a";
      rule = record {
        path = "/a";
        state =
            record { key = "news"; resource = "news"; export = some true }
            ∷ record { key = "secret"; resource = "news"; export = none }
            ∷ [];
        last = true;
      };
    }
    ∷ []

abbrev news : JsResource
news = record { data_array = some []; error = "" }

abbrev page_states : States
page_states = record {
  valid = true;
  server = some (("news", news) ∷ ("secret", news) ∷ []);
  server_text = some "{}";
  client = some (("news", news) ∷ []);
  client_text = some "{}";
}

states_made : rule_states submatch no_names load marshal "/a" page_rules new_states ≡ ok page_states
unfolding rule_states add_entries add_entry marshal_states get put route_params replace_all
states_made = refl

rule_states-latest_example :
    (let vs = visits submatch no_names load marshal "/a" page_rules in
      (page_states.valid ≡ all_loaded vs)
      × ((k : String) → get k (or_no_entry page_states.server) ≡ last_visit k vs)
      × ((k : String) → get k (or_no_entry page_states.client) ≡ last_visit k (exported_of vs))
      × Marshalled marshal page_states.server page_states.server_text
      × Marshalled marshal page_states.client page_states.client_text)
rule_states-latest_example =
    rule_states-latest submatch no_names load marshal "/a" page_rules page_states states_made

abbrev file_info : FileInfo
file_info = record { is_dir = false; mod_time = 7 }

abbrev world : World String
world = record {
  files = record {
    open_file = λ path. ok tt;
    stat = λ path. ok file_info;
    read_file = λ path. ok [];
  };
  find_submatch = submatch;
  subexp_names = no_names;
  load = load;
  marshal = marshal;
  site = site_info;
  engine = engine;
  script = λ bundle. script;
  parse = parse;
  print = print;
  redirect = λ url status resp. resp;
}

abbrev page_config : Config
page_config = record {
  index = "index.html";
  bundle = "bundle.js";
  env = "production";
  container = "root";
  state = "state";
  max_vms = pos 4;
  vm_max_heap_size = pos 0;
  vm_stack_size = pos 0;
  vm_timeout = pos 1000;
  cache = true;
  cache_ttl = pos 60;
  cache_max_items = pos 100;
  rules = [];
}

abbrev handler : JsHandler String
handler = record {
  config = page_config;
  rules = page_rules;
  index = none;
  index_info = none;
  bundle = [];
  bundle_info = none;
  pool = [];
  cache = new_cache 100;
}

abbrev handler_read : JsHandler String
handler_read = record handler { index = some []; index_info = some 7; bundle_info = some 7 }

abbrev page_render : Render
page_render = record {
  body = 60 ∷ 62 ∷ [];
  header = ("Content-Type", "text/html; charset=utf-8" ∷ []) ∷ [];
  status_code = 201;
  redirect = false;
  redirect_url = "";
}

page_rendered :
    make_render world page_request handler_read
    ≡ (returned (ok page_render), record handler_read { pool = new_render_writer ∷ [] })
unfolding make_render rule_states marshal_states add_entries add_entry execute Api.dispatch
    redirection page_status route_params put get replace_all make_page pool_put pool_get
    render_container append_first render_state render_title render write write_header page_headers
    set_header add_all canonical_key
page_rendered = refl

make_render-Rendered_example :
    Rendered world page_request handler_read page_render
    × (100 ≤ page_render.status_code)
    × (page_render.status_code ≤ 599)
make_render-Rendered_example =
    make_render-Rendered world page_request handler_read
      (record handler_read { pool = new_render_writer ∷ [] }) page_render tt page_rendered

files_read : read world.files handler ≡ (ok tt, handler_read)
unfolding read
files_read = refl

serve-serve_page_example :
    ((serve world 5 6 page_request new_response handler).0
      ≡ returned (reply world page_render new_response))
    × ((serve world 7 8 page_request new_response
          (serve world 5 6 page_request new_response handler).1).0
        ≡ returned (reply world page_render new_response))
unfolding cache_get fresh read get seconds
serve-serve_page_example =
    serve-serve_page world world handler (record handler_read { pool = new_render_writer ∷ [] }) []
      5 6 7 8 page_request page_request new_response new_response page_render refl
      (new_cache-Represents 100) (omega arith) refl refl refl page_rendered refl refl (omega arith)
