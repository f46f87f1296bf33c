-- ===== src/Handlers.antt =====
-- pkg/modules/app/server/site/handlers: what the handlers file, robots and sitemap share, the
-- answer to a method that is not allowed and the cache of one render. A response that cannot be
-- written to the client is only logged, so the result of that write is not modelled.
pub mod Text
pub mod Robots
pub mod Sitemap
pub mod File
pub mod Js
use neon_oss.Base.{
  ℕ, Bool, true, false, List, [], ◌∷◌, String, if◌then◌else◌, Option, none, some, Result, ok, err,
  ℤ, ltb, get,
}
use neon_oss.Render.{Header, Render, add_header}
use neon_oss.Http.{
  Request, ResponseWriter, write_status, write_body, set_field, is_read, after_seconds,
}

-- `fileHandlerCache`, `robotsHandlerCache` and `sitemapHandlerCache`
pub record Cached : Type 0 where
  pub render : Render
  pub expire : ℕ

-- `w.Header().Set("Allow", "GET, HEAD")` and the status 405.
unfoldable pub not_allowed : ResponseWriter → ResponseWriter
unfolding set_field write_status
not_allowed w = write_status 405 (set_field "Allow" "GET, HEAD" w)

-- The status 503.
unfoldable pub unavailable : ResponseWriter → ResponseWriter
unfolding write_status
unavailable w = write_status 503 w

-- The status of a render and its body.
unfoldable pub emit : Render → ResponseWriter → ResponseWriter
unfolding write_status write_body
emit r w = write_body r.body (write_status r.status_code w)

add_values : String → List String → Header → Header
add_values name [] h = h
add_values name (v ∷ vs) h = add_values name vs (add_header name v h)

-- The loop that adds the headers of a render to those of the response.
unfoldable pub add_all : Header → Header → Header
unfolding add_values
add_all [] h = h
add_all ((name, vs) ∷ more) h = add_all more (add_values name vs h)

-- `h.cache != nil && h.cache.expire.After(time.Now())`
unfoldable pub fresh : Option Cached → ℕ → Option Render
fresh none now = none
fresh (some c) now = if ltb now c.expire then some c.render else none

-- The new cache after a render.
unfoldable pub remember : Bool → ℤ → Render → ℕ → Option Cached → Option Cached
remember false ttl r now old = old
remember true ttl r now old = some (record { render = r; expire = after_seconds now ttl })
