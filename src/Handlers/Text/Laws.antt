-- ===== src/Handlers/Text/Laws.antt =====
-- What a handler of a generated text answers: the header of a render is lost, and a render is kept
-- for its time to live.
use neon_oss.Base.{
  if◌then◌else◌, ℕ, true, none, some, Result, ok, err, ◌≡◌, refl, arith, inl, inr, Option-cases,
  ◌<◌,
}
use neon_oss.Render.{Render}
use neon_oss.Http.{Request, ResponseWriter, is_read, write_body, write_status, after_seconds}
use neon_oss.Handlers.{emit, unavailable, fresh, remember}
use neon_oss.Handlers.Text.{TextHandler, TextState, make_render, answer, serve}

module _ {S : Type 0} (h : TextHandler S) where
  answer-header :
      (o : Result Render × TextState) (now : ℕ) (w : ResponseWriter)
      → (answer h o now w).0.header ≡ w.header
  unfolding answer emit unavailable write_body write_status
  answer-header (ok r, s) now w = refl
  answer-header (err e, s) now w = refl

  -- The response to a GET or HEAD request has only the header fields that it had before: those of
  -- the render, its content type among them, are never copied.
  pub text_serve-header :
      (source : S) (now later : ℕ) (r : Request) (w : ResponseWriter) (s : TextState)
      → is_read r ≡ true
      → (serve h source now later r w s).0.header ≡ w.header
  unfolding serve emit write_body write_status
  text_serve-header source now later r w s get =
      elim (Option-cases (if h.cache then fresh s.cached now else none)) [
        | inl missed ↦ simp (get, missed) (answer-header (make_render h r source s) later w)
        | inr (made, hit) ↦ simp (get, hit)
      ]

  text_missed :
      (source : S) (now later : ℕ) (r : Request) (w : ResponseWriter) (s : TextState)
      (made : Render)
      → h.cache ≡ true
      → fresh s.cached now ≡ none
      → is_read r ≡ true
      → (make_render h r source s).0 ≡ ok made
      → serve h source now later r w s ≡ (
        emit made w,
        record (make_render h r source s).1 {
          cached = some (record { render = made; expire = after_seconds later h.cache_ttl });
        },
      )
  unfolding serve answer remember make_render
  text_missed source now later r w s made on stale get e = simp (get, on, stale, e)

  text_hit :
      (source : S) (now later : ℕ) (r : Request) (w : ResponseWriter) (s : TextState)
      (made : Render)
      → h.cache ≡ true
      → fresh s.cached now ≡ some made
      → is_read r ≡ true
      → serve h source now later r w s ≡ (emit made w, s)
  unfolding serve
  text_hit source now later r w s made on e get = simp (get, on, e)

-- With the cache on, a request that finds no fresh render but makes one decides the answers of the
-- time to live: any further GET or HEAD request in that time gets the same answer, whatever the
-- text is made from by then, and the handler does not change.
pub text_serve-serve :
    {S : Type 0} (h : TextHandler S) (source source' : S) (now later now' later' : ℕ)
    (r r' : Request) (w w' : ResponseWriter) (s : TextState) (made : Render)
    → h.cache ≡ true
    → fresh s.cached now ≡ none
    → is_read r ≡ true
    → is_read r' ≡ true
    → (make_render h r source s).0 ≡ ok made
    → now' < after_seconds later h.cache_ttl
    → (let s' = (serve h source now later r w s).1 in
        serve h source' now' later' r' w' s' ≡ ((serve h source now later r w' s).0, s'))
unfolding fresh
text_serve-serve h source source' now later now' later' r r' w w' s made on stale get get' e soon =
    let first = text_missed h source now later r w s made on stale get e in
    let again = text_missed h source now later r w' s made on stale get e in
    rw (first, again) (text_hit h source' now' later' r' w' _ made on (ground (arith, soon)) get')
