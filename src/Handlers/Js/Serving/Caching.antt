-- ===== src/Handlers/Js/Serving/Caching.antt =====
-- What the handler answers out of its cache of rendered pages.
use mathlib.Core.Path.{subst}
use neon_oss.Base.{
  ℕ, ◌<◌, ◌≡◌, refl, sym, ap, ◌∙◌, arith, Bool, true, ◌||◌, List, String, str_eq, eq_iff, Option,
  none, some, Result, ok, err,
}
use neon_oss.Render.{Render, Pool, RenderWriter}
use neon_oss.Http.{ResponseWriter, FileInfo, FileSystem, after_seconds}
use neon_oss.Cache.{Cache, CacheItem, cache_get, cache_set}
use neon_oss.Cache.Recency.{Slot, find}
use neon_oss.Cache.Abstract.{Represents, get_spec, set_spec, find-used}
use neon_oss.Cache.Laws.{cache_get-Represents, cache_set-Represents}
use neon_oss.Handlers.{Cached, fresh}
use neon_oss.Handlers.Js.Api.{PageRequest}
use neon_oss.Handlers.Js.Vm.{Ending, returned, blocked, panicked, VmResult}
use neon_oss.Handlers.Js.States.{States}
use neon_oss.Handlers.Js.Serving.{
  JsHandler, World, Written, put_back, executed, stated, states_of, make_render, reply, read, serve,
  looked_up, index_read, index_stat, bundle_read, bundle_stat, then_bundle, missed, after_read,
  rendered, finished, stored,
}

-- A value that was stored is the one that is read.
module _ {V : Type 0} (c : Cache V) (xs : List (Slot V)) (k : String) (v : V) where
  find-set_spec :
      (n : ℕ) (o : Option (CacheItem V))
      → (i : CacheItem V) × (find k (set_spec c.capacity n k v xs o) ≡ some i) × (i.v ≡ v)
  unfolding find set_spec
  find-set_spec n none = (record { v = v; e = n }, ground (arith, eq_iff k k), refl)
  find-set_spec n (some i) =
      (record { v = v; e = i.e }, ground (arith, eq_iff k k, find-used k k v i xs), refl)

  get-set :
      0 < c.capacity
      → Represents c xs
      → (c' : Cache V) × (cache_set k v c ≡ some c') × ((cache_get k c').0 ≡ some v)
  unfolding get_spec
  get-set h r =
      let (c', e, r') = cache_set-Represents c xs k v h r in
      let (i, f, same) = find-set_spec c.next_id (find k xs) in
      let (got, more) =
        cache_get-Represents c' (set_spec c.capacity c.next_id k v xs (find k xs)) k r' in
      (
        c',
        e,
        got
            ∙ ap (λ o. (get_spec k (set_spec c.capacity c.next_id k v xs (find k xs)) o).0) f
            ∙ ap some same,
      )

-- The parts of the handler that a request does not change by reading files or rendering.
record Same {Regexp : Type 0} (h h' : JsHandler Regexp) : Type 0 where
  same_config : h'.config ≡ h.config
  same_cache : h'.cache ≡ h.cache

Same-both : {Regexp : Type 0} {a b c : JsHandler Regexp} → Same a b → Same b c → Same a c
Same-both s t = record {
  same_config = t.same_config ∙ s.same_config;
  same_cache = t.same_cache ∙ s.same_cache;
}

module _ {Regexp : Type 0} where
  index_stat-Same :
      (fs : FileSystem) (i : Result FileInfo) (h : JsHandler Regexp) → Same h (index_stat fs i h).1
  unfolding index_stat index_read
  index_stat-Same fs i h = record { same_config = ground arith; same_cache = ground arith }

  bundle_stat-Same :
      (fs : FileSystem) (i : Result FileInfo) (h : JsHandler Regexp) → Same h (bundle_stat fs i h).1
  unfolding bundle_stat bundle_read
  bundle_stat-Same fs i h = record { same_config = ground arith; same_cache = ground arith }

  then_bundle-Same :
      (fs : FileSystem) (p : Result (Unit {0}) × JsHandler Regexp) → Same p.1 (then_bundle fs p).1
  unfolding then_bundle
  then_bundle-Same fs (err e, h) = record { same_config = refl; same_cache = refl }
  then_bundle-Same fs (ok u, h) = bundle_stat-Same fs (fs.stat h.config.bundle) h

  read-Same : (fs : FileSystem) (h : JsHandler Regexp) → Same h (read fs h).1
  unfolding read
  read-Same fs h =
      Same-both (index_stat-Same fs (fs.stat h.config.index) h)
        (then_bundle-Same fs (index_stat fs (fs.stat h.config.index) h))

  put_back-Same :
      (h : JsHandler Regexp) (pool : Pool) (wr : RenderWriter) (x : Written)
      → Same h (put_back h pool wr x).1
  unfolding put_back
  put_back-Same h pool wr none = record { same_config = refl; same_cache = refl }
  put_back-Same h pool wr (some (r, wr')) = record { same_config = refl; same_cache = refl }

  module _ (w : World Regexp) (req : PageRequest) where
    executed-Same :
        (h : JsHandler Regexp) (s : States) (wr : RenderWriter) (pool : Pool)
        (x : Ending (Result VmResult))
        → Same h (executed w h s wr pool x).1
    unfolding executed
    executed-Same h s wr pool blocked = record { same_config = refl; same_cache = refl }
    executed-Same h s wr pool panicked = record { same_config = refl; same_cache = refl }
    executed-Same h s wr pool (returned (err e)) = put_back-Same h pool wr _
    executed-Same h s wr pool (returned (ok r)) = put_back-Same h pool wr _

    stated-Same :
        (h : JsHandler Regexp) (wr : RenderWriter) (pool : Pool) (x : Result States)
        → Same h (stated w req h wr pool x).1
    unfolding stated
    stated-Same h wr pool (err e) = put_back-Same h pool wr _
    stated-Same h wr pool (ok s) = executed-Same h s wr pool _

    make_render-Same : (h : JsHandler Regexp) → Same h (make_render w req h).1
    unfolding make_render
    make_render-Same h = stated-Same h _ _ (states_of w req h)

abbrev pub reads : PageRequest → Bool
reads req = str_eq req.method "GET" || str_eq req.method "HEAD"

capacity-get : {V : Type 0} (k : String) (c : Cache V) → (cache_get k c).1.capacity ≡ c.capacity
unfolding cache_get
capacity-get k c = ground arith

module _ {Regexp : Type 0} where
  -- The handler after the look into the cache.
  abbrev pub after_look : PageRequest → JsHandler Regexp → JsHandler Regexp
  after_look req h = record h { cache = (cache_get req.path h.cache).1 }

  look_on :
      (req : PageRequest) (now : ℕ) (h : JsHandler Regexp)
      → h.config.cache ≡ true
      → looked_up req now h ≡ (fresh (cache_get req.path h.cache).0 now, after_look req h)
  unfolding looked_up
  look_on req now h on = rw on refl

  serve_read :
      (w : World Regexp) (now later : ℕ) (req : PageRequest) (resp : ResponseWriter)
      (h : JsHandler Regexp) (o : Option Render)
      → h.config.cache ≡ true
      → reads req ≡ true
      → fresh (cache_get req.path h.cache).0 now ≡ o
      → serve w now later req resp h ≡ missed w req later resp (o, after_look req h)
  unfolding serve
  serve_read w now later req resp h o on get e = rw (get, look_on req now h on, e) refl

  module _ (w : World Regexp) (req : PageRequest) where
    missed_made :
        (later : ℕ) (resp : ResponseWriter) (h h1 : JsHandler Regexp) (r : Render)
        → (read w.files h).0 ≡ ok tt
        → make_render w req (read w.files h).1 ≡ (returned (ok r), h1)
        → missed w req later resp (none, h) ≡ finished w req later resp r h1
    unfolding missed after_read rendered
    missed_made later resp h h1 r readable made = go (read w.files h) readable made
      where
        go :
            (p : Result (Unit {0}) × JsHandler Regexp)
            → p.0 ≡ ok tt
            → make_render w req p.1 ≡ (returned (ok r), h1)
            → after_read w req later resp p ≡ finished w req later resp r h1
        go (ok u, h2) e k = ap (rendered w req later resp) k
        go (err x, h2) e k = absurd (cc e)

    item_of : ℕ → Render → JsHandler Regexp → Cached
    item_of later r h = record { render = r; expire = after_seconds later h.config.cache_ttl }

    finished_on :
        (later : ℕ) (resp : ResponseWriter) (r : Render) (h : JsHandler Regexp) (c : Cache Cached)
        → h.config.cache ≡ true
        → cache_set req.path (item_of later r h) h.cache ≡ some c
        → finished w req later resp r h ≡ (returned (reply w r resp), record h { cache = c })
    unfolding finished stored item_of
    finished_on later resp r h c on e = rw (on, e) refl

fresh_item :
    {Regexp : Type 0} (w : World Regexp) (req : PageRequest) (later now : ℕ) (r : Render)
    (h : JsHandler Regexp) (o : Option Cached)
    → o ≡ some (item_of w req later r h)
    → now < after_seconds later h.config.cache_ttl
    → fresh o now ≡ some r
unfolding fresh item_of
fresh_item w req later now r h o e soon = rw e (ground (arith, soon))

hit_answer :
    {Regexp : Type 0} (w : World Regexp) (req : PageRequest) (later : ℕ) (resp : ResponseWriter)
    (r : Render) (h : JsHandler Regexp)
    → missed w req later resp (some r, h) ≡ (returned (reply w r resp), h)
unfolding missed
hit_answer w req later resp r h = refl

-- With the cache on and room for at least one page in it, a GET or HEAD request that finds no fresh
-- page but makes one decides the answers for its path during the time to live: the next such request
-- in that time is answered with the same page, whatever became of the files, the store, the script
-- and the engine, and without running a script. The time to live is an `int64` of nanoseconds, which
-- wraps around.
pub serve-serve_page :
    {Regexp : Type 0} (w w' : World Regexp) (h h1 : JsHandler Regexp) (xs : List (Slot Cached))
    (now later now' later' : ℕ) (req req' : PageRequest) (resp resp' : ResponseWriter) (r : Render)
    → h.config.cache ≡ true
    → Represents h.cache xs
    → 0 < h.cache.capacity
    → reads req ≡ true
    → fresh (cache_get req.path h.cache).0 now ≡ none
    → (read w.files (after_look req h)).0 ≡ ok tt
    → make_render w req (read w.files (after_look req h)).1 ≡ (returned (ok r), h1)
    → reads req' ≡ true
    → req'.path ≡ req.path
    → now' < after_seconds later h.config.cache_ttl
    → ((serve w now later req resp h).0 ≡ returned (reply w r resp))
      × ((serve w' now' later' req' resp' (serve w now later req resp h).1).0
          ≡ returned (reply w' r resp'))
serve-serve_page w w' h h1 xs now later now' later' req req' resp resp' r on represents room get
      stale readable made get' path soon =
    let h0 = after_look req h in
    let same : Same h0 h1 = Same-both (read-Same w.files h0) (
      subst (λ p. Same (read w.files h0).1 p.1) made
        (make_render-Same w req (read w.files h0).1)) in
    let config : h1.config ≡ h.config = same.same_config in
    let got = (cache_get-Represents h.cache xs req.path represents).1 in
    let kept =
      subst (λ c. Represents c (get_spec req.path xs (find req.path xs)).1) (sym same.same_cache)
        got in
    let capacity : h1.cache.capacity ≡ h.cache.capacity =
      ap (λ c. c.capacity) same.same_cache ∙ capacity-get req.path h.cache in
    let (c, set, read_back) =
      get-set h1.cache _ req.path (item_of w req later r h1) (omega (arith, capacity, room)) kept in
    let first : serve w now later req resp h
        ≡ (returned (reply w r resp), record h1 { cache = c }) =
      serve_read w now later req resp h none on get stale
      ∙ missed_made w req later resp h0 h1 r readable made
      ∙ finished_on w req later resp r h1 c (ap (λ x. x.cache) config ∙ on) set in
    let second : serve w' now' later' req' resp' (record h1 { cache = c })
        ≡ missed w' req' later' resp' (some r, after_look req' (record h1 { cache = c })) =
      serve_read w' now' later' req' resp' (record h1 { cache = c }) (some r)
        (ap (λ x. x.cache) config ∙ on) get'
        (fresh_item w req later now' r h1 _ (ap (λ p. (cache_get p c).0) path ∙ read_back)
          (subst (λ x. now' < after_seconds later x.cache_ttl) (sym config) soon)) in
    (
      ap (λ p. p.0) first,
      ap (λ p. (serve w' now' later' req' resp' p.1).0) first
          ∙ ap (λ p. p.0) second
          ∙ ap (λ p. p.0) (hit_answer w' req' later' resp' r _),
    )
