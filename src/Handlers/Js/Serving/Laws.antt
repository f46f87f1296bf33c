-- ===== src/Handlers/Js/Serving/Laws.antt =====
-- What a render of the handler is made of.
use mathlib.Core.Path.{subst}
use neon_oss.Base.{
  ℕ, ◌≤◌, ◌≡◌, ◌⊎◌, refl, sym, ap, ◌∙◌, arith, inl, inr, Bool, true, false, List, [], ◌∷◌, String,
  Option, none, some, Result, ok, err, All,
}
use neon_oss.Render.{
  Render, RenderWriter, new_render_writer, Pool, pool_get, render, write, write_header,
  write_redirect, set_header,
}
use neon_oss.Handlers.{add_all}
use neon_oss.Handlers.Js.Api.{PageRequest, VmConfig, VmData}
use neon_oss.Handlers.Js.Api.Laws.{InRange, IsSound}
use neon_oss.Handlers.Js.Vm.{Ending, returned, blocked, panicked, VmResult, new_vm_result, execute}
use neon_oss.Handlers.Js.Vm.Laws.{execute-Ended}
use neon_oss.Handlers.Js.Page.{make_page}
use neon_oss.Handlers.Js.States.{States}
use neon_oss.Handlers.Js.Serving.{
  JsHandler, World, redirection, or_no_headers, page_headers, page_status, index_or_error, printed,
  Written, page, answered, put_back, executed, stated, states_of, make_render,
}

ok-eq : {A : Type 0} (a b : A) → ok a ≡ ok b → a ≡ b
ok-eq a b e = cc e

some-eq : {A : Type 0} (a b : A) → some a ≡ some b → a ≡ b
some-eq a b e = cc e

-- Every writer of the pool is as a new one.
abbrev pub IsFresh : Pool → Type 0
IsFresh = All (λ w. w ≡ new_render_writer)

-- The script asked for a redirection, with its target and its status.
abbrev pub AsksRedirect : VmResult → String → ℕ → Type 0
AsksRedirect res url status =
    (res.redirect ≡ some true) × (res.redirect_url ≡ some url) × (res.redirect_status ≡ some status)

-- The status of a page: the script's, or 503 where the states are not valid.
pub data PageStatus : Bool → Option ℕ → ℕ → Type 0 where
  of_script : (status : ℕ) → PageStatus true (some status) status
  unavailable : (status : Option ℕ) → PageStatus false status 503

redirection-eq-some :
    (b : Option Bool) (u : Option String) (st : Option ℕ) (res : VmResult) (url : String)
    (status : ℕ)
    → res.redirect ≡ b
    → res.redirect_url ≡ u
    → res.redirect_status ≡ st
    → redirection res ≡ some (url, status)
    → AsksRedirect res url status
unfolding redirection
redirection-eq-some none u st res url status e f g k = absurd (cc (e, k))
redirection-eq-some (some b) none st res url status e f g k = absurd (cc (e, f, k))
redirection-eq-some (some b) (some x) none res url status e f g k = absurd (cc (e, f, g, k))
redirection-eq-some (some false) (some x) (some y) res url status e f g k = absurd (cc (e, f, g, k))
redirection-eq-some (some true) (some x) (some y) res url status e f g k =
    (e, cc (e, f, g, k), cc (e, f, g, k))

redirection-eq-none :
    (res : VmResult)
    → redirection res ≡ none
    → (url : String) (status : ℕ) → ¬ (AsksRedirect res url status)
unfolding redirection
redirection-eq-none res k url status (a, b, c) = absurd (cc (a, b, c, k))

page_status-PageStatus :
    (valid : Bool) (o : Option ℕ) (status : ℕ)
    → page_status valid o ≡ some status
    → PageStatus valid o status
unfolding page_status
page_status-PageStatus false o status k =
    subst (PageStatus false o) (some-eq 503 status k) (unavailable o)
page_status-PageStatus true o status k =
    subst (λ x. PageStatus true x status) (sym k) (of_script status)

module _ {Regexp : Type 0} (w : World Regexp) (h : JsHandler Regexp) (s : States)
    (res : VmResult) where
  -- The redirection that the script asked for, with nothing else.
  pub record Redirects (r : Render) : Type 0 where
    pub url : String
    pub status : ℕ
    pub asked : AsksRedirect res url status
    pub is : r ≡ record {
      body = [];
      header = [];
      status_code = status;
      redirect = true;
      redirect_url = url;
    }

  -- The page, with the script's headers, and with the script's status if the states are valid.
  pub record Shows (r : Render) : Type 0 where
    pub index : List ℕ
    pub status : ℕ
    pub asked : (url : String) (status : ℕ) → ¬ (AsksRedirect res url status)
    pub read : h.index ≡ some index
    pub with_status : PageStatus s.valid res.status status
    pub made :
        make_page w.parse w.print h.config.container h.config.state index s.client_text res
        ≡ ok r.body
    pub status_code : r.status_code ≡ status
    pub redirect : r.redirect ≡ false
    pub header :
        r.header
        ≡ add_all
            (or_no_headers res.headers)
            (set_header "Content-Type" "text/html; charset=utf-8" [])

  printed_page :
      (status : ℕ) (p : Result (List ℕ)) (r : Render) (wr : RenderWriter)
      → printed p (write_header status (page_headers res new_render_writer)) ≡ (ok r, wr)
      → (p ≡ ok r.body)
        × (r.status_code ≡ status)
        × (r.redirect ≡ false)
        × (r.header
            ≡ add_all
                (or_no_headers res.headers)
                (set_header "Content-Type" "text/html; charset=utf-8" []))
  unfolding printed write write_header page_headers render
  printed_page status (err e) r wr k = absurd (cc (ap (λ x. x.0) k))
  printed_page status (ok bytes) r wr k =
      let shown = render (write bytes (write_header status (page_headers res new_render_writer))) in
      let e : shown ≡ r = ok-eq shown r (ap (λ x. x.0) k) in
      (
        ap (λ x. ok x.body) e,
        sym (ap (λ x. x.status_code) e),
        sym (ap (λ x. x.redirect) e),
        sym (ap (λ x. x.header) e),
      )

  page-Shows :
      (o : Option ℕ) (i : Option (List ℕ)) (r : Render) (wr : RenderWriter)
      → redirection res ≡ none
      → page_status s.valid res.status ≡ o
      → h.index ≡ i
      → page w (record h { index = i }) s res new_render_writer o ≡ some (ok r, wr)
      → Shows r
  unfolding page index_or_error
  page-Shows none i r wr asked e f k = absurd (cc k)
  page-Shows (some status) none r wr asked e f k =
      absurd (cc ((printed_page status (err "index not loaded") r wr (some-eq _ _ k)).0))
  page-Shows (some status) (some index) r wr asked e f k =
      let p = make_page w.parse w.print h.config.container h.config.state index s.client_text res in
      let parts = printed_page status p r wr (some-eq _ _ k) in
      record {
        index = index;
        status = status;
        asked = redirection-eq-none res asked;
        read = f;
        with_status = page_status-PageStatus s.valid res.status status e;
        made = parts.0;
        status_code = parts.1;
        redirect = parts.2;
        header = parts.3;
      }

  answered-Answers :
      (o : Option (String × ℕ)) (r : Render) (wr : RenderWriter)
      → redirection res ≡ o
      → answered w h s res new_render_writer o ≡ some (ok r, wr)
      → Redirects r ⊎ Shows r
  unfolding answered render write_redirect
  answered-Answers none r wr e k =
      inr (page-Shows (page_status s.valid res.status) h.index r wr e refl refl k)
  answered-Answers (some (url, status)) r wr e k =
      let shown = render (write_redirect url status new_render_writer) in
      inl (record {
        url = url;
        status = status;
        asked = redirection-eq-some _ _ _ res url status refl refl refl e;
        is = sym (ok-eq shown r (ap (λ x. x.0) (some-eq _ _ k)));
      })

module _ {Regexp : Type 0} (w : World Regexp) (req : PageRequest) where
  abbrev config_of : JsHandler Regexp → States → VmConfig
  config_of h s = record { env = h.config.env; state = s.server_text; request = req; site = w.site }

  -- Where a render comes from.
  pub record Rendered (h : JsHandler Regexp) (r : Render) : Type 0 where
    pub states : States
    pub result : VmResult
    pub stated : states_of w req h ≡ ok states
    pub ran : execute w.engine (config_of h states) (w.script h.bundle) ≡ returned (ok result)
    pub answer : Redirects w h states result r ⊎ Shows w h states result r

  put_back-returned :
      (h h' : JsHandler Regexp) (pool : Pool) (wr : RenderWriter) (x : Written) (r : Render)
      → put_back h pool wr x ≡ (returned (ok r), h')
      → (wr' : RenderWriter) × (x ≡ some (ok r, wr'))
  unfolding put_back
  put_back-returned h h' pool wr none r k = absurd (cc (ap (λ x. x.0) k))
  put_back-returned h h' pool wr (some (q, wr')) r k =
      let e : returned q ≡ returned (ok r) = ap (λ x. x.0) k in
      let same : q ≡ ok r = cc e in (wr', cc same)

  executed-Rendered :
      (h h' : JsHandler Regexp) (s : States) (pool : Pool) (x : Ending (Result VmResult))
      (r : Render)
      → states_of w req h ≡ ok s
      → execute w.engine (config_of h s) (w.script h.bundle) ≡ x
      → executed w h s new_render_writer pool x ≡ (returned (ok r), h')
      → Rendered h r
  unfolding executed
  executed-Rendered h h' s pool blocked r e f k = absurd (cc (ap (λ x. x.0) k))
  executed-Rendered h h' s pool panicked r e f k = absurd (cc (ap (λ x. x.0) k))
  executed-Rendered h h' s pool (returned (err x)) r e f k =
      absurd (cc ((put_back-returned h h' pool new_render_writer _ r k).1))
  executed-Rendered h h' s pool (returned (ok res)) r e f k =
      let (wr', g) = put_back-returned h h' pool new_render_writer _ r k in
      record {
        states = s;
        result = res;
        stated = e;
        ran = f;
        answer = answered-Answers w h s res (redirection res) r wr' refl g;
      }

  stated-Rendered :
      (h h' : JsHandler Regexp) (pool : Pool) (x : Result States) (r : Render)
      → states_of w req h ≡ x
      → stated w req h new_render_writer pool x ≡ (returned (ok r), h')
      → Rendered h r
  unfolding stated
  stated-Rendered h h' pool (err x) r e k =
      absurd (cc ((put_back-returned h h' pool new_render_writer _ r k).1))
  stated-Rendered h h' pool (ok s) r e k =
      executed-Rendered h h' s pool (execute w.engine (config_of h s) (w.script h.bundle)) r e refl
        k

  make_render-stated :
      (h h' : JsHandler Regexp) (r : Render)
      → IsFresh h.pool
      → make_render w req h ≡ (returned (ok r), h')
      → Rendered h r
  unfolding make_render pool_get
  make_render-stated h h' r fresh k = go h.pool fresh k
    where
      go :
          (pool : Pool)
          → IsFresh pool
          → stated w req h (pool_get pool).0 (pool_get pool).1 (states_of w req h)
            ≡ (returned (ok r), h')
          → Rendered h r
      go [] f e = stated-Rendered h h' [] (states_of w req h) r refl e
      go (x ∷ pool) f e =
          stated-Rendered h h' pool (states_of w req h) r refl
            (ap (λ y. stated w req h y pool (states_of w req h)) (sym f.0) ∙ e)

status-InRange :
    (valid : Bool) (o : Option ℕ) (status : ℕ)
    → InRange o
    → PageStatus valid o status
    → (100 ≤ status) × (status ≤ 599)
status-InRange valid o status h (unavailable st) = (omega arith, omega arith)
status-InRange valid o status h (of_script n) = h

module _ {Regexp : Type 0} (w : World Regexp) (req : PageRequest) where
  answer_in_range :
      (h : JsHandler Regexp) (s : States) (res : VmResult) (r : Render) (d : VmData)
      → res ≡ new_vm_result d
      → IsSound d
      → Redirects w h s res r ⊎ Shows w h s res r
      → (100 ≤ r.status_code) × (r.status_code ≤ 599)
  unfolding new_vm_result
  answer_in_range h s res r d e sound (inl a) =
      let range : InRange (some a.status) =
        subst InRange (sym (ap (λ x. x.redirect_status) e) ∙ a.asked.2) sound.redirect_range in
      let same : r.status_code ≡ a.status = ap (λ x. x.status_code) a.is in
      omega (arith, same, range.0, range.1)
  answer_in_range h s res r d e sound (inr a) =
      let (lo, hi) =
        status-InRange s.valid res.status a.status
          (subst InRange (sym (ap (λ x. x.status) e)) sound.status_range) a.with_status in
      omega (arith, a.status_code, lo, hi)

  -- With a pool of writers that are as new, a render that `render` returns is either the redirection
  -- that the script asked for, or the page that `doc` makes of the index, the script's result and the
  -- client's state, with the script's headers, and with the script's status if the store had every
  -- resource of the states, and else with 503. The script ran on the state of the rules, ended in
  -- time, and the status lies between 100 and 599.
  pub make_render-Rendered :
      (h h' : JsHandler Regexp) (r : Render)
      → IsFresh h.pool
      → make_render w req h ≡ (returned (ok r), h')
      → Rendered w req h r × (100 ≤ r.status_code) × (r.status_code ≤ 599)
  make_render-Rendered h h' r fresh k =
      let m = make_render-stated w req h h' r fresh k in
      let end = execute-Ended w.engine _ (w.script h.bundle) m.result m.ran in
      let (lo, hi) = answer_in_range h m.states m.result r end.left end.result end.sound m.answer in
      (m, lo, hi)
