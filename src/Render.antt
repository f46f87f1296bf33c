-- ===== src/Render.antt =====
-- pkg/render: the buffered response writer, its snapshot and its pool. Bytes are numbers.
pub mod Laws
use neon_oss.Strings.{canonical_key}
use neon_oss.Base.{
  ℕ, Bool, true, false, Dict, List, [], ◌∷◌, ◌++◌, String, if◌then◌else◌, get, put, Option, none,
  some,
}

-- `http.Header`: each name has a list of values.
abbrev pub Header : Type 0
Header = Dict (List String)

-- The type `render`.
pub record Render : Type 0 where
  pub body : List ℕ
  pub header : Header
  pub status_code : ℕ
  pub redirect : Bool
  pub redirect_url : String

-- The type `renderWriter`, its buffer as the bytes that it holds.
pub record RenderWriter : Type 0 where
  pub buf : List ℕ
  pub header : Header
  pub status_code : ℕ
  pub redirect : Bool
  pub redirect_url : String

-- `NewRenderWriter`
abbrev pub new_render_writer : RenderWriter
new_render_writer = record {
  buf = [];
  header = [];
  status_code = 200;
  redirect = false;
  redirect_url = "";
}

-- `Reset`
unfoldable pub reset : RenderWriter → RenderWriter
reset w = record w { buf = []; header = []; status_code = 200; redirect = false; redirect_url = "" }

-- `Write`: a `bytes.Buffer` takes every byte and returns no error.
unfoldable pub write : List ℕ → RenderWriter → RenderWriter
write p w = record w { buf = w.buf ++ p }

-- `WriteHeader`
unfoldable pub write_header : ℕ → RenderWriter → RenderWriter
write_header status_code w = record w { status_code = status_code }

-- `WriteRedirect`
unfoldable pub write_redirect : String → ℕ → RenderWriter → RenderWriter
write_redirect url status_code w = record w {
  redirect = true;
  redirect_url = url;
  status_code = status_code;
}

-- `Render`: the body and the header are copies.
unfoldable pub render : RenderWriter → Render
render w = record {
  body = if w.redirect then [] else w.buf;
  header = w.header;
  status_code = w.status_code;
  redirect = w.redirect;
  redirect_url = if w.redirect then w.redirect_url else "";
}

-- `header.Set(name, value)` and `header.Add(name, value)`
unfoldable pub set_header : String → String → Header → Header
set_header name value h = put (canonical_key name) (value ∷ []) h

values_of : Option (List String) → List String
values_of none = []
values_of (some vs) = vs

unfoldable pub add_header : String → String → Header → Header
unfolding values_of
add_header name value h =
    let key = canonical_key name in put key (values_of (get key h) ++ value ∷ []) h

-- `renderWriterPool`: the writers at rest.
abbrev pub Pool : Type 0
Pool = List RenderWriter

-- `Get`: some writer of the pool, here the first, or a new one.
unfoldable pub pool_get : Pool → RenderWriter × Pool
pool_get [] = (new_render_writer, [])
pool_get (w ∷ pool) = (w, pool)

-- `Put`
unfoldable pub pool_put : RenderWriter → Pool → Pool
unfolding reset
pool_put w pool = reset w ∷ pool
