-- ===== src/Handlers/Js/Serving.antt =====
-- pkg/modules/app/server/site/handlers/js/js.go: the reading of the files, the render of a page and
-- `ServeHTTP`. The code of the bundle, the engine and the HTML parser are parameters, as is
-- `http.Redirect`. One request at a time is modelled, so the locks and the channel that limits the
-- machines in use are left out.
pub mod Laws
pub mod Caching
use neon_oss.Base.{
  ℕ, Bool, true, false, ltb, Dict, List, [], ◌∷◌, String, str_eq, ◌||◌, if◌then◌else◌, Option, none,
  some, Result, ok, err, wrap, ℤ, pos_part,
}
use neon_oss.Strings.{◌+++◌}
use neon_oss.Resource.{Resource}
use neon_oss.Render.{
  Header, Render, RenderWriter, Pool, pool_get, pool_put, render, write, write_header,
  write_redirect, set_header,
}
use neon_oss.Http.{ResponseWriter, FileInfo, FileSystem, after_seconds}
use neon_oss.Cache.{Cache, cache_get, cache_set, cache_clear, new_cache}
use neon_oss.Handlers.{Cached, not_allowed, unavailable, emit, add_all, fresh}
use neon_oss.Handlers.File.{is_newer}
use neon_oss.Handlers.Js.Api.{SiteInfo, PageRequest, VmConfig}
use neon_oss.Handlers.Js.Vm.{Engine, Script, Ending, returned, blocked, panicked, VmResult, execute}
use neon_oss.Handlers.Js.Page.{Node, make_page}
use neon_oss.Handlers.Js.Options.{Config, Compiled}
use neon_oss.Handlers.Js.States.{JsResource, States, new_states, rule_states}

-- The type `jsHandler`.
pub record JsHandler (Regexp : Type 0) : Type 0 where
  pub config : Config
  pub rules : List (Compiled Regexp)
  pub index : Option (List ℕ)
  pub index_info : Option ℕ
  pub bundle : List ℕ
  pub bundle_info : Option ℕ
  pub pool : Pool
  pub cache : Cache Cached

-- What the handler calls and the repository does not define.
pub record World (Regexp : Type 0) : Type 0 where
  pub files : FileSystem
  pub find_submatch : Regexp → String → Option (List String)
  pub subexp_names : Regexp → List String
  pub load : String → Result Resource
  pub marshal : Dict JsResource → Result String
  pub site : SiteInfo
  pub engine : Engine
  pub script : List ℕ → Script
  pub parse : List ℕ → Result Node
  pub print : Node → Result (List ℕ)
  pub redirect : String → ℕ → ResponseWriter → ResponseWriter

-- The handler after `Init`.
unfoldable pub new_handler : {Regexp : Type 0} → Config → List (Compiled Regexp) → JsHandler Regexp
new_handler config rules = record {
  config = config;
  rules = rules;
  index = none;
  index_info = none;
  bundle = [];
  bundle_info = none;
  pool = [];
  cache = new_cache (pos_part config.cache_max_items);
}

-- A redirection that is complete.
unfoldable pub redirection : VmResult → Option (String × ℕ)
redirection r = elim r.redirect [
  | none ↦ none
  | some b ↦ elim r.redirect_url [
    | none ↦ none
    | some url ↦ elim r.redirect_status [
      | none ↦ none
      | some status ↦ if b then some (url, status) else none
    ]
  ]
]

abbrev pub or_no_headers : Option (Dict (List String)) → Header
or_no_headers none = []
or_no_headers (some m) = m

-- The headers of the page, on a writer of the pool.
unfoldable pub page_headers : VmResult → RenderWriter → RenderWriter
page_headers r writer = record writer {
  header =
      add_all (or_no_headers r.headers)
        (set_header "Content-Type" "text/html; charset=utf-8" writer.header);
}

-- The status of the page; `none` is the panic of `*vmResult.Status` without one.
unfoldable pub page_status : Bool → Option ℕ → Option ℕ
page_status false status = some 503
page_status true status = status

index_or_error : Option (List ℕ) → (List ℕ → Result (List ℕ)) → Result (List ℕ)
index_or_error none page = err "index not loaded"
index_or_error (some index) page = page index

printed : Result (List ℕ) → RenderWriter → Result Render × RenderWriter
printed (err e) writer = (err ("process render: " +++ e), writer)
printed (ok bytes) writer = (ok (render (write bytes writer)), write bytes writer)

-- What a writer has when `render` returns; `none` is a panic.
abbrev pub Written : Type 0
Written = Option (Result Render × RenderWriter)

-- What `serve` leaves: how it ends, with the response, and the handler.
abbrev pub Served : Type 0 → Type 0
Served Regexp = Ending ResponseWriter × JsHandler Regexp

module _ {Regexp : Type 0} where
  index_read : ℕ → Result (List ℕ) → JsHandler Regexp → Result (Unit {0}) × JsHandler Regexp
  index_read time (err e) h = (err ("read file " +++ h.config.index +++ ": " +++ e), h)
  index_read time (ok buf) h = (ok tt, record h { index = some buf; index_info = some time })

  index_stat :
      FileSystem → Result FileInfo → JsHandler Regexp → Result (Unit {0}) × JsHandler Regexp
  index_stat fs (err e) h = (err ("stat file " +++ h.config.index +++ ": " +++ e), h)
  index_stat fs (ok fi) h =
      if is_newer fi.mod_time h.index_info
      then index_read fi.mod_time (fs.read_file h.config.index) h
      else (ok tt, h)

  bundle_read : ℕ → Result (List ℕ) → JsHandler Regexp → Result (Unit {0}) × JsHandler Regexp
  bundle_read time (err e) h = (err ("read file " +++ h.config.bundle +++ ": " +++ e), h)
  bundle_read time (ok buf) h = (ok tt, record h { bundle = buf; bundle_info = some time })

  bundle_stat :
      FileSystem → Result FileInfo → JsHandler Regexp → Result (Unit {0}) × JsHandler Regexp
  bundle_stat fs (err e) h = (err ("stat file " +++ h.config.bundle +++ ": " +++ e), h)
  bundle_stat fs (ok fi) h =
      if is_newer fi.mod_time h.bundle_info
      then bundle_read fi.mod_time (fs.read_file h.config.bundle) h
      else (ok tt, h)

  then_bundle :
      FileSystem → Result (Unit {0}) × JsHandler Regexp → Result (Unit {0}) × JsHandler Regexp
  then_bundle fs (err e, h) = (err e, h)
  then_bundle fs (ok u, h) = bundle_stat fs (fs.stat h.config.bundle) h

  -- `read`
  unfoldable pub read : FileSystem → JsHandler Regexp → Result (Unit {0}) × JsHandler Regexp
  unfolding index_read index_stat bundle_read bundle_stat then_bundle is_newer
  read fs h = then_bundle fs (index_stat fs (fs.stat h.config.index) h)

  -- `Start` and `Stop`
  unfoldable pub start : FileSystem → JsHandler Regexp → Result (Unit {0}) × JsHandler Regexp
  unfolding read
  start fs h = let (r, h') = read fs h in (wrap "read: " r, h')

  unfoldable pub stop : JsHandler Regexp → JsHandler Regexp
  stop h = record h { index_info = none; bundle_info = none; cache = cache_clear h.cache }

  page : World Regexp → JsHandler Regexp → States → VmResult → RenderWriter → Option ℕ → Written
  page w h s r writer none = none
  page w h s r writer (some status) = some (
      printed
        (index_or_error h.index λ index.
          make_page w.parse w.print h.config.container h.config.state index s.client_text r)
        (write_header status (page_headers r writer)))

  answered :
      World Regexp
      → JsHandler Regexp
      → States
      → VmResult
      → RenderWriter
      → Option (String × ℕ)
      → Written
  answered w h s r writer (some (url, status)) =
      let writer' = write_redirect url status writer in some (ok (render writer'), writer')
  answered w h s r writer none = page w h s r writer (page_status s.valid r.status)

  -- The writer goes back to the pool, also after a panic.
  put_back :
      JsHandler Regexp → Pool → RenderWriter → Written → Ending (Result Render) × JsHandler Regexp
  put_back h pool writer none = (panicked, record h { pool = pool_put writer pool })
  put_back h pool writer (some (r, writer')) =
      (returned r, record h { pool = pool_put writer' pool })

  -- After the script: while it runs without an end the writer stays out of the pool, and a panic in
  -- its goroutine ends the program.
  executed :
      World Regexp
      → JsHandler Regexp
      → States
      → RenderWriter
      → Pool
      → Ending (Result VmResult)
      → Ending (Result Render) × JsHandler Regexp
  executed w h s writer pool blocked = (blocked, record h { pool = pool })
  executed w h s writer pool panicked = (panicked, record h { pool = pool })
  executed w h s writer pool (returned (err e)) =
      put_back h pool writer (some (err ("execute VM: " +++ e), writer))
  executed w h s writer pool (returned (ok r)) =
      put_back h pool writer (answered w h s r writer (redirection r))

  -- The states, and then the script with them.
  stated :
      World Regexp
      → PageRequest
      → JsHandler Regexp
      → RenderWriter
      → Pool
      → Result States
      → Ending (Result Render) × JsHandler Regexp
  stated w req h writer pool (err e) = put_back h pool writer (some (err e, writer))
  stated w req h writer pool (ok s) =
      let config : VmConfig = record {
        env = h.config.env;
        state = s.server_text;
        request = req;
        site = w.site;
      } in
      executed w h s writer pool (execute w.engine config (w.script h.bundle))

  unfoldable pub states_of : World Regexp → PageRequest → JsHandler Regexp → Result States
  states_of w req h =
      rule_states w.find_submatch w.subexp_names w.load w.marshal req.path h.rules new_states

  -- `render`
  unfoldable pub make_render :
      World Regexp → PageRequest → JsHandler Regexp → Ending (Result Render) × JsHandler Regexp
  unfolding stated executed put_back answered page printed index_or_error states_of
  make_render w req h =
      let (writer, pool) = pool_get h.pool in stated w req h writer pool (states_of w req h)

  -- A render as the response: a redirection goes by `http.Redirect`.
  unfoldable pub reply : World Regexp → Render → ResponseWriter → ResponseWriter
  unfolding emit add_all
  reply w r resp =
      let resp' = record resp { header = add_all r.header resp.header } in
      if r.redirect then w.redirect r.redirect_url r.status_code resp' else emit r resp'

  stored : Option (Cache Cached) → ResponseWriter → JsHandler Regexp → Served Regexp
  stored none resp h = (panicked, h)
  stored (some c) resp h = (returned resp, record h { cache = c })

  -- The render is kept, if the cache is on, and answered.
  finished :
      World Regexp → PageRequest → ℕ → ResponseWriter → Render → JsHandler Regexp → Served Regexp
  finished w req now resp r h =
      if h.config.cache
      then stored
          (cache_set req.path (record { render = r; expire = after_seconds now h.config.cache_ttl })
            h.cache)
          (reply w r resp) h
      else (returned (reply w r resp), h)

  rendered :
      World Regexp
      → PageRequest
      → ℕ
      → ResponseWriter
      → Ending (Result Render) × JsHandler Regexp
      → Served Regexp
  rendered w req now resp (panicked, h) = (panicked, h)
  rendered w req now resp (blocked, h) = (blocked, h)
  rendered w req now resp (returned (err e), h) = (returned (unavailable resp), h)
  rendered w req now resp (returned (ok r), h) = finished w req now resp r h

  after_read :
      World Regexp
      → PageRequest
      → ℕ
      → ResponseWriter
      → Result (Unit {0}) × JsHandler Regexp
      → Served Regexp
  after_read w req now resp (err e, h) = (returned (unavailable resp), h)
  after_read w req now resp (ok u, h) = rendered w req now resp (make_render w req h)

  -- The look into the cache; `Get` makes the key the one used last, also for a render that is over.
  unfoldable pub looked_up : PageRequest → ℕ → JsHandler Regexp → Option Render × JsHandler Regexp
  looked_up req now h =
      if h.config.cache
      then (let (item, c) = cache_get req.path h.cache in (fresh item now, record h { cache = c }))
      else (none, h)

  missed :
      World Regexp
      → PageRequest
      → ℕ
      → ResponseWriter
      → Option Render × JsHandler Regexp
      → Served Regexp
  missed w req later resp (some r, h) = (returned (reply w r resp), h)
  missed w req later resp (none, h) = after_read w req later resp (read w.files h)

  -- `ServeHTTP`: `now` is the time of the look into the cache, `later` that of the render.
  unfoldable pub serve :
      World Regexp → ℕ → ℕ → PageRequest → ResponseWriter → JsHandler Regexp → Served Regexp
  unfolding read make_render reply stored finished rendered after_read looked_up missed unavailable
      not_allowed fresh
  serve w now later req resp h =
      if str_eq req.method "GET" || str_eq req.method "HEAD"
      then missed w req later resp (looked_up req now h)
      else (returned (not_allowed resp), h)
