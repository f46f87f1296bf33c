-- ===== src/Site/Guard.antt =====
-- internal/app/neon/serversite.go, `serverSiteMiddleware` and `serverSiteHandler`: what stands around
-- every handler of a site. A handler may panic; `uuid.NewString` is a parameter.
use neon_oss.Base.{String, none, some, ◌≡◌, refl}
use neon_oss.Http.{Request, ResponseWriter, write_status, set_field}

-- What a handler leaves: it returns, or it panics.
pub data Ended : Type 0 where
  returned : ResponseWriter → Ended
  panicked : ResponseWriter → Ended

-- The deferred function: after a panic the status 500 is sent, where none was.
unfoldable pub recover : Ended → ResponseWriter
recover (returned w) = w
recover (panicked w) = write_status 500 w

-- The fields that every response has.
unfoldable pub with_fields : String → ResponseWriter → ResponseWriter
with_fields uuid w = set_field "X-Request-ID" uuid (set_field "Server" "neon" w)

-- `Handler` of the middleware
unfoldable pub handler :
    String → (ResponseWriter → Request → Ended) → ResponseWriter → Request → ResponseWriter
handler uuid next w r = recover (next (with_fields uuid w) r)

-- A handler that panics before it has sent a status is answered by the status 500, with the header
-- as the handler has left it.
pub handler-panicked :
    (uuid : String) (next : ResponseWriter → Request → Ended) (w w' : ResponseWriter) (r : Request)
    → next (with_fields uuid w) r ≡ panicked w'
    → w'.sent ≡ none
    → (handler uuid next w r).sent ≡ some (500, w'.header)
unfolding handler recover write_status
handler-panicked uuid next w w' r h unsent = rw (h, unsent) refl
