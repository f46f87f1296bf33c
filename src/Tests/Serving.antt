-- ===== src/Tests/Serving.antt =====
-- The handlers of a site.
use neon_oss.Base.{
  negsuc, ℕ, Bool, true, false, List, [], ◌∷◌, ◌++◌, String, Option, none, some, Result, ok, err, ℤ,
  pos, pos_part, ◌≡◌, ◌≢◌, ◌≤◌, ◌↔◌, arith, inl, inr, refl, All, Any, is_ok, if◌then◌else◌, str_eq,
  ◌||◌,
}
use neon_oss.Render.{Header, Render}
use neon_oss.Http.{FileSystem, FileInfo, Request, new_response, seconds, is_informational}
use neon_oss.Strings.{canonical_key}
use neon_oss.Resource.{Resource}
use neon_oss.Values.{Value, str, arr, item, nil}
use neon_oss.Handlers.File
use neon_oss.Handlers.File.Contents.{InSync, serve_current}
use neon_oss.Handlers.File.Caching.{serve-serve_cached}
use neon_oss.Handlers.Text.{TextHandler, TextState}
use neon_oss.Handlers.Text
use neon_oss.Handlers.Robots
use neon_oss.Handlers.Robots.Laws.{robots-generate}
use neon_oss.Handlers.Sitemap

abbrev info : FileInfo
info = record { is_dir = false; mod_time = 7 }

abbrev files : FileSystem
files = record {
  open_file = λ path. ok tt;
  stat = λ path. ok info;
  read_file = λ path. ok (1 ∷ 2 ∷ []);
}

abbrev get_request : Request
get_request = record { method = "GET"; host = "a.org"; path = "/" }

abbrev raw_file : File.RawConfig
raw_file = record {
  path = "/www/a.txt";
  content_type = none;
  status_code = some (pos 200);
  cache = none;
  cache_ttl = none;
}

abbrev plain : String → String
plain path = "text/plain"

abbrev file_config : Bool → File.Config
file_config cache = record {
  path = "/www/a.txt";
  content_type = none;
  status_code = pos 200;
  cache = cache;
  cache_ttl = pos 60;
}

-- A handler that has not read its file.
abbrev unread : Bool → File.FileHandler
unread cache = record {
  config = file_config cache;
  file = none;
  file_info = none;
  cached = none;
  pool = [];
}

abbrev contents : ℕ → List ℕ
contents time = 1 ∷ 2 ∷ []

unread-InSync : InSync contents (unread false)
unread-InSync = record { loaded = inl refl; clean = tt }

serve_current_example :
    (let (w', h') = File.serve plain files 100 101 get_request new_response (unread false) in
      (w'.body ≡ 1 ∷ 2 ∷ [])
      × ((header : Header) × (w'.sent ≡ some (200, header)))
      × InSync contents h')
unfolding is_informational
serve_current_example =
    serve_current contents files info plain (unread false) 100 101 get_request new_response
      unread-InSync (λ t e. absurd (cc e)) refl refl refl refl refl

abbrev made : Render
made = record {
  body = 1 ∷ 2 ∷ [];
  header = ("Content-Type", "text/plain" ∷ []) ∷ [];
  status_code = 200;
  redirect = false;
  redirect_url = "";
}

file_readable : (File.read files (unread true)).0 ≡ ok tt
unfolding File.read
file_readable = refl

file_rendered : (File.make_render plain (File.read files (unread true)).1).0 ≡ ok made
unfolding File.make_render File.read neon_oss.Base.put canonical_key
file_rendered = refl

serve-serve_cached_example :
    (let h' = (File.serve plain files 100 101 get_request new_response (unread true)).1 in
      File.serve plain files 5000 5001 get_request new_response h'
      ≡ ((File.serve plain files 100 101 get_request new_response (unread true)).0, h'))
unfolding neon_oss.Handlers.fresh seconds
serve-serve_cached_example =
    serve-serve_cached plain files files (unread true) 100 101 5000 5001 get_request get_request
      new_response new_response made refl refl refl refl file_readable file_rendered (omega arith)

-- Ten thousand million seconds are more nanoseconds than an `int64` holds: the time is negative.
seconds_wrap : seconds (pos 10000000000) ≡ negsuc 8446744073709551615
unfolding seconds
seconds_wrap = refl

frame_options : canonical_key "x-frame-OPTIONS" ≡ "X-Frame-Options"
unfolding canonical_key
frame_options = refl

-- A name with a space is no field name, and is kept as it is.
with_space : canonical_key "x frame" ≡ "x frame"
unfolding canonical_key
with_space = refl

abbrev text_handler : TextHandler ℕ
text_handler = record {
  cache = true;
  cache_ttl = pos 60;
  content_type = "text/plain; charset=utf-8";
  failure = "execute template: ";
  generate = λ r n. (n ∷ [], ok tt);
}

abbrev empty_state : TextState
empty_state = record { cached = none; pool = [] }

abbrev text_made : Render
text_made = record {
  body = 3 ∷ [];
  header = ("Content-Type", "text/plain; charset=utf-8" ∷ []) ∷ [];
  status_code = 200;
  redirect = false;
  redirect_url = "";
}

text_rendered : (Text.make_render text_handler get_request 3 empty_state).0 ≡ ok text_made
unfolding Text.make_render neon_oss.Render.render neon_oss.Render.write neon_oss.Render.write_header
    neon_oss.Render.pool_get neon_oss.Render.set_header neon_oss.Base.put canonical_key
text_rendered = refl

abbrev robots_config : Robots.Config
robots_config = record {
  hosts = "b.org" ∷ "a.org" ∷ [];
  cache = false;
  cache_ttl = pos 60;
  sitemaps = [];
}

abbrev execute : Bool → List String → List ℕ × Result (Unit {0})
execute check sitemaps = (if check then 1 ∷ [] else 0 ∷ [], ok tt)

robots-generate_example :
    (check : Bool) × ((Robots.robots execute robots_config).generate get_request robots_config
      ≡ execute check [])
    × ((check ≡ true) ↔ Any (λ h. h ≡ "a.org") robots_config.hosts)
robots-generate_example = robots-generate execute robots_config get_request

abbrev list_entry : Sitemap.ListEntry ℕ
list_entry = record {
  resource = "posts";
  filter = "$";
  item_loc = "$.loc";
  item_lastmod = none;
  item_ignore = none;
  changefreq = none;
  priority = none;
}

abbrev static_entry : Sitemap.StaticEntry ℕ
static_entry = record { loc = "/about"; lastmod = none; changefreq = none; priority = none }

abbrev entries : List (Sitemap.Entry ℕ)
entries =
    (record { name = "about"; type = "static"; static = static_entry; list = list_entry })
    ∷ (record { name = "posts"; type = "list"; static = static_entry; list = list_entry })
    ∷ []

abbrev never : ℕ → Bool
never n = false

abbrev no_text : ℕ → String
no_text n = ""

-- A path that asks for the items gives them, and any other the value itself.
abbrev json_get : String → Value → Result Value
json_get path v = if str_eq path "$" then ok (arr (item (str "/post") nil)) else ok v

abbrev posts : String → Result Resource
posts name = ok (record { data_array = (1 ∷ []) ∷ []; ttl = 0 })
