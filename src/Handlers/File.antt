-- ===== src/Handlers/File.antt =====
-- pkg/modules/app/server/site/handlers/file/file.go: the handler that serves one file. The MIME
-- type of an extension is a parameter.
pub mod Options
pub mod Contents
pub mod Caching
use neon_oss.Base.{
  ℕ, Bool, true, false, List, [], String, if◌then◌else◌, Option, none, some, Result, ok, err, ℤ,
  ltb, ltb_int, str_eq, ◌||◌, pos, pos_part, wrap,
}
use neon_oss.Modules.Maps.{GivenMap, undecodable, decoded}
use neon_oss.Loader.{or_default}
use neon_oss.Render.{
  Render, RenderWriter, Pool, pool_get, pool_put, render, write, write_header, set_header,
}
use neon_oss.Http.{Request, ResponseWriter, FileInfo, FileSystem, is_read}
use neon_oss.Handlers.{Cached, not_allowed, unavailable, emit, add_all, fresh, remember}
use neon_oss.Strings.{◌+++◌}

-- The type `fileHandlerConfig` as it is decoded.
pub record RawConfig : Type 0 where
  pub path : String
  pub content_type : Option String
  pub status_code : Option ℤ
  pub cache : Option Bool
  pub cache_ttl : Option ℤ

-- The same with the defaults filled in.
pub record Config : Type 0 where
  pub path : String
  pub content_type : Option String
  pub status_code : ℤ
  pub cache : Bool
  pub cache_ttl : ℤ

-- The type `fileHandler`.
pub record FileHandler : Type 0 where
  pub config : Config
  pub file : Option (List ℕ)
  pub file_info : Option ℕ
  pub cached : Option Cached
  pub pool : Pool

unfoldable pub fill : RawConfig → Config
fill c = record {
  path = c.path;
  content_type = c.content_type;
  status_code = or_default c.status_code (pos 200);
  cache = or_default c.cache false;
  cache_ttl = or_default c.cache_ttl (pos 60);
}

stat_errors : Result FileInfo → Bool
stat_errors (err e) = true
stat_errors (ok fi) = fi.is_dir

opened_errors : Result (Unit {0}) → Result FileInfo → Bool
opened_errors (err e) info = true
opened_errors (ok u) info = stat_errors info

-- The checks of the option `Path`.
unfoldable pub path_errors : FileSystem → String → Bool
unfolding opened_errors stat_errors
path_errors fs path =
    if str_eq path "" then true else opened_errors (fs.open_file path) (fs.stat path)

content_type_errors : Option String → Bool
content_type_errors none = false
content_type_errors (some t) = str_eq t ""

-- `errConfig`: a `CacheTTL` that is not positive is logged and accepted.
unfoldable pub option_errors : FileSystem → Config → Bool
unfolding path_errors content_type_errors
option_errors fs c =
    path_errors fs c.path
    || content_type_errors c.content_type
    || ltb_int c.status_code (pos 100)
    || ltb_int (pos 599) c.status_code

init_config : FileSystem → RawConfig → Result FileHandler
init_config fs raw =
    if option_errors fs (fill raw)
    then err "config"
    else ok (record { config = fill raw; file = none; file_info = none; cached = none; pool = [] })

-- `Init`
unfoldable pub init : FileSystem → GivenMap RawConfig → Result FileHandler
unfolding init_config fill option_errors
init fs (undecodable e) = wrap "parse config: " (err e)
init fs (decoded raw) = init_config fs raw

-- `h.fileInfo == nil || fileInfo.ModTime().After(*h.fileInfo)`
unfoldable pub is_newer : ℕ → Option ℕ → Bool
is_newer mod_time none = true
is_newer mod_time (some seen) = ltb seen mod_time

read_newer : ℕ → Result (List ℕ) → FileHandler → Result (Unit {0}) × FileHandler
read_newer mod_time (err e) h = (err ("read file " +++ h.config.path +++ ": " +++ e), h)
read_newer mod_time (ok buf) h = (ok tt, record h { file = some buf; file_info = some mod_time })

read_info : FileSystem → Result FileInfo → FileHandler → Result (Unit {0}) × FileHandler
read_info fs (err e) h = (err ("stat file " +++ h.config.path +++ ": " +++ e), h)
read_info fs (ok fi) h =
    if is_newer fi.mod_time h.file_info
    then read_newer fi.mod_time (fs.read_file h.config.path) h
    else (ok tt, h)

-- `read`
unfoldable pub read : FileSystem → FileHandler → Result (Unit {0}) × FileHandler
unfolding read_info read_newer is_newer
read fs h = read_info fs (fs.stat h.config.path) h

-- `Start` and `Stop`
unfoldable pub start : FileSystem → FileHandler → Result (Unit {0}) × FileHandler
unfolding read
start fs h = let (r, h') = read fs h in (wrap "read: " r, h')

unfoldable pub stop : FileHandler → FileHandler
stop h = record h { file = none; file_info = none; cached = none }

module _ (mime_type : String → String) where
  typed : String → RenderWriter → RenderWriter
  typed t rw = record rw { header = set_header "Content-Type" t rw.header }

  type_of : Config → RenderWriter → RenderWriter
  type_of c rw = elim c.content_type [
    | some t ↦ typed t rw
    | none ↦ if str_eq (mime_type c.path) "" then rw else typed (mime_type c.path) rw
  ]

  rendered : Config → Option (List ℕ) → RenderWriter → Result Render × RenderWriter
  rendered c none rw =
      let rw' = write_header (pos_part c.status_code) (type_of c rw) in
      (err "process render: file not loaded", rw')
  rendered c (some bytes) rw =
      let rw' = write bytes (write_header (pos_part c.status_code) (type_of c rw)) in
      (ok (render rw'), rw')

  -- `render`, with the writer taken from the pool and put back.
  unfoldable pub make_render : FileHandler → Result Render × FileHandler
  unfolding rendered type_of typed set_header render write write_header pool_get pool_put
  make_render h =
      let (rw, pool) = pool_get h.pool in
      let (r, rw') = rendered h.config h.file rw in (r, record h { pool = pool_put rw' pool })

  -- The headers of the render are added to the response.
  unfoldable pub reply : Render → ResponseWriter → ResponseWriter
  unfolding emit add_all
  reply r w = emit r (record w { header = add_all r.header w.header })

  answer : Result Render × FileHandler → ℕ → ResponseWriter → ResponseWriter × FileHandler
  answer (err e, h) now w = (unavailable w, h)
  answer (ok r, h) now w =
      (reply r w, record h { cached = remember h.config.cache h.config.cache_ttl r now h.cached })

  after_read : Result (Unit {0}) × FileHandler → ℕ → ResponseWriter → ResponseWriter × FileHandler
  after_read (err e, h) now w = (unavailable w, h)
  after_read (ok u, h) now w = answer (make_render h) now w

  -- `ServeHTTP`: `now` is the time of the look into the cache, `later` that of the render.
  unfoldable pub serve :
      FileSystem → ℕ → ℕ → Request → ResponseWriter → FileHandler → ResponseWriter × FileHandler
  unfolding read make_render reply answer after_read remember unavailable not_allowed fresh
  serve fs now later r w h =
      if is_read r
      then elim (if h.config.cache then fresh h.cached now else none) [
        | some cached ↦ (reply cached w, h)
        | none ↦ after_read (read fs h) later w
      ]
      else (not_allowed w, h)
