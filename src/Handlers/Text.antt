-- ===== src/Handlers/Text.antt =====
-- The methods `ServeHTTP`, `render` and `Stop` that handlers/robots/robots.go and
-- handlers/sitemap/sitemap.go have in the same words: a generated text, kept for a while.
pub mod Laws
use neon_oss.Base.{
  ℕ, Bool, List, String, if◌then◌else◌, Option, none, some, Result, ok, err, ℤ, wrap,
}
use neon_oss.Render.{
  Render, RenderWriter, Pool, pool_get, pool_put, render, write, write_header, set_header,
}
use neon_oss.Http.{Request, ResponseWriter, is_read}
use neon_oss.Handlers.{Cached, not_allowed, unavailable, emit, fresh, remember}

-- The mutable fields of a handler.
pub record TextState : Type 0 where
  pub cached : Option Cached
  pub pool : Pool

-- The configuration and what generates the text: the bytes written, and an error or none. The
-- state `S` is what the text is made from.
pub record TextHandler (S : Type 0) : Type 0 where
  pub cache : Bool
  pub cache_ttl : ℤ
  pub content_type : String
  pub failure : String
  pub generate : Request → S → List ℕ × Result (Unit {0})

-- `Stop`
unfoldable pub stop : TextState → TextState
stop s = record s { cached = none }

module _ {S : Type 0} (h : TextHandler S) where
  finish : Result (Unit {0}) → RenderWriter → Result Render
  finish (err e) rw = wrap h.failure (err e)
  finish (ok u) rw = ok (render rw)

  -- `render`
  unfoldable pub make_render : Request → S → TextState → Result Render × TextState
  unfolding finish
  make_render r source s =
      let (rw, pool) = pool_get s.pool in
      let rw1 = record rw { header = set_header "Content-Type" h.content_type rw.header } in
      let (bytes, result) = h.generate r source in
      let rw2 = write bytes (write_header 200 rw1) in
      (finish result rw2, record s { pool = pool_put rw2 pool })

  answer : Result Render × TextState → ℕ → ResponseWriter → ResponseWriter × TextState
  answer (err e, s) now w = (unavailable w, s)
  answer (ok r, s) now w =
      (emit r w, record s { cached = remember h.cache h.cache_ttl r now s.cached })

  -- `ServeHTTP`: `now` is the time of the look into the cache, `later` that of the render.
  unfoldable pub serve :
      S → ℕ → ℕ → Request → ResponseWriter → TextState → ResponseWriter × TextState
  unfolding answer
  serve source now later r w s =
      if is_read r
      then elim (if h.cache then fresh s.cached now else none) [
        | some cached ↦ (emit cached w, s)
        | none ↦ answer (make_render r source s) later w
      ]
      else (not_allowed w, s)
