-- ===== src/Handlers/File/Caching.antt =====
-- What the file handler answers with its cache.
use neon_oss.Base.{◌∙◌, ap, ◌<◌, ℕ, true, String, none, some, Result, ok, err, ◌≡◌, arith, refl}
use neon_oss.Render.{render, Render}
use neon_oss.Http.{ResponseWriter, FileSystem}
use neon_oss.Handlers.{remember, after_seconds, fresh, is_read, Request}
use neon_oss.Handlers.File.{
  after_read, serve, FileHandler, read, read_newer, read_info, make_render, reply, answer,
}

read-config : (fs : FileSystem) (h : FileHandler) → (read fs h).1.config ≡ h.config
unfolding read read_info read_newer
read-config fs h = ground arith

module _ (mime_type : String → String) where
  -- The handler after a render was made and remembered.
  filled : FileSystem → ℕ → FileHandler → Render → FileHandler
  filled fs later h r = record (make_render mime_type (read fs h).1).1 {
    cached = some (record { render = r; expire = after_seconds later h.config.cache_ttl });
  }

  answer_made :
      (h : FileHandler) (later : ℕ) (w : ResponseWriter) (r : Render)
      → h.config.cache ≡ true
      → (make_render mime_type h).0 ≡ ok r
      → answer mime_type (make_render mime_type h) later w ≡ (
        reply mime_type r w,
        record (make_render mime_type h).1 {
          cached = some (record { render = r; expire = after_seconds later h.config.cache_ttl });
        },
      )
  unfolding answer make_render remember
  answer_made h later w r on made = rw (made, on) refl

  after_read_ok :
      (p : Result (Unit {0}) × FileHandler) (later : ℕ) (w : ResponseWriter)
      → p.0 ≡ ok tt
      → after_read mime_type p later w ≡ answer mime_type (make_render mime_type p.1) later w
  unfolding after_read
  after_read_ok (ok u, h) later w e = refl
  after_read_ok (err x, h) later w e = absurd (cc e)

  serve_missed :
      (fs : FileSystem) (h : FileHandler) (now later : ℕ) (r : Request) (w : ResponseWriter)
      (made : Render)
      → h.config.cache ≡ true
      → fresh h.cached now ≡ none
      → is_read r ≡ true
      → (read fs h).0 ≡ ok tt
      → (make_render mime_type (read fs h).1).0 ≡ ok made
      → serve mime_type fs now later r w h ≡ (reply mime_type made w, filled fs later h made)
  unfolding serve filled
  serve_missed fs h now later r w made on stale get readable e =
      simp (get, on, stale)
        (after_read_ok (read fs h) later w readable
          ∙ answer_made (read fs h).1 later w made (ap (λ c. c.cache) (read-config fs h) ∙ on) e
          ∙ cc (read-config fs h))

  serve_hit :
      (fs : FileSystem) (h : FileHandler) (now later : ℕ) (r : Request) (w : ResponseWriter)
      (made : Render)
      → h.config.cache ≡ true
      → fresh h.cached now ≡ some made
      → is_read r ≡ true
      → serve mime_type fs now later r w h ≡ (reply mime_type made w, h)
  unfolding serve
  serve_hit fs h now later r w made on e get = simp (get, on, e)

  filled-fresh :
      (fs : FileSystem) (later : ℕ) (h : FileHandler) (r : Render) (now : ℕ)
      → now < after_seconds later h.config.cache_ttl
      → fresh (filled fs later h r).cached now ≡ some r
  unfolding filled fresh
  filled-fresh fs later h r now soon = ground (arith, soon)

  filled-config :
      (fs : FileSystem) (later : ℕ) (h : FileHandler) (r : Render)
      → (filled fs later h r).config ≡ h.config
  unfolding filled make_render
  filled-config fs later h r = read-config fs h

-- With the cache on, a request that finds no fresh render but a readable file decides the answers
-- of the time to live: any further GET or HEAD request in that time gets the same answer, whatever
-- became of the file, and the handler does not change. The time to live is an `int64` of
-- nanoseconds, which wraps around.
pub serve-serve_cached :
    (mime_type : String → String) (fs fs' : FileSystem) (h : FileHandler)
    (now later now' later' : ℕ) (r r' : Request) (w w' : ResponseWriter) (render : Render)
    → h.config.cache ≡ true
    → fresh h.cached now ≡ none
    → is_read r ≡ true
    → is_read r' ≡ true
    → (read fs h).0 ≡ ok tt
    → (make_render mime_type (read fs h).1).0 ≡ ok render
    → now' < after_seconds later h.config.cache_ttl
    → (let h' = (serve mime_type fs now later r w h).1 in
        serve mime_type fs' now' later' r' w' h' ≡ ((serve mime_type fs now later r w' h).0, h'))
serve-serve_cached mime_type fs fs' h now later now' later' r r' w w' render on stale get get'
      readable made soon =
    let first = serve_missed mime_type fs h now later r w render on stale get readable made in
    let again = serve_missed mime_type fs h now later r w' render on stale get readable made in
    let state = filled mime_type fs later h render in
    let hit =
      serve_hit mime_type fs' state now' later' r' w' render
        (ap (λ c. c.cache) (filled-config mime_type fs later h render) ∙ on)
        (filled-fresh mime_type fs later h render now' soon) get' in
    rw (first, again) hit
