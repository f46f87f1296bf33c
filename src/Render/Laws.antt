-- ===== src/Render/Laws.antt =====
-- A writer from the pool shows nothing of its former use, and a render shows what was written.
use neon_oss.Base.{
  ◌∙◌, sym, Bool, true, false, append-nil, append_assoc, arith, if◌then◌else◌, ◌||◌, ℕ, Bool, true,
  false, List, [], ◌∷◌, ◌++◌, String, ◌≡◌, refl, All,
}
use neon_oss.Render.{
  Render, RenderWriter, new_render_writer, write, write_header, write_redirect, render, Pool,
  pool_get, pool_put, set_header,
}

-- What a holder of a writer does with it before it goes back to the pool.
pub data Action : Type 0 where
  write_bytes : List ℕ → Action
  status : ℕ → Action
  redirect_to : String → ℕ → Action
  header_set : String → String → Action

pub act : Action → RenderWriter → RenderWriter
act (write_bytes p) w = write p w
act (status code) w = write_header code w
act (redirect_to url code) w = write_redirect url code w
act (header_set name value) w = record w { header = set_header name value w.header }

pub run : List Action → RenderWriter → RenderWriter
run [] w = w
run (a ∷ more) w = run more (act a w)

-- One round of `Get`, use, `Render` and `Put`, as the handlers make it.
pub use_pool : List Action → Pool → Render × Pool
use_pool actions pool =
    let (w, rest) = pool_get pool in let w' = run actions w in (render w', pool_put w' rest)

pub use_pool_many : List (List Action) → Pool → List Render × Pool
use_pool_many [] pool = ([], pool)
use_pool_many (actions ∷ more) pool =
    let (r, pool') = use_pool actions pool in
    let (rs, pool'') = use_pool_many more pool' in (r ∷ rs, pool'')

abbrev IsFresh : Pool → Type 0
IsFresh = All (λ w. w ≡ new_render_writer)

IsFresh-use_pool :
    (actions : List Action) (pool : Pool) → IsFresh pool → IsFresh (use_pool actions pool).1
unfolding use_pool pool_get pool_put
IsFresh-use_pool actions [] h = (refl, tt)
IsFresh-use_pool actions (w ∷ pool) h = (refl, h.1)

use_pool-eq-run :
    (actions : List Action) (pool : Pool)
    → IsFresh pool
    → (use_pool actions pool).0 ≡ render (run actions new_render_writer)
unfolding use_pool pool_get
use_pool-eq-run actions [] h = refl
use_pool-eq-run actions (w ∷ pool) h = rw h.0

abbrev pub fresh_renders : List (List Action) → List Render
fresh_renders [] = []
fresh_renders (actions ∷ more) = render (run actions new_render_writer) ∷ fresh_renders more

use_pool_many-eq :
    (rounds : List (List Action)) (pool : Pool)
    → IsFresh pool
    → (use_pool_many rounds pool).0 ≡ fresh_renders rounds
unfolding use_pool_many
use_pool_many-eq [] pool h = refl
use_pool_many-eq (actions ∷ more) pool h = cc (
  use_pool-eq-run actions pool h,
  use_pool_many-eq more (use_pool actions pool).1 (IsFresh-use_pool actions pool h),
)

-- Over any series of uses of a pool that starts empty, each render is the one that a new writer
-- would give: no body, header, status or redirect of an earlier use shows.
pub use_pool_many-fresh :
    (rounds : List (List Action)) → (use_pool_many rounds []).0 ≡ fresh_renders rounds
use_pool_many-fresh rounds = use_pool_many-eq rounds [] tt

abbrev pub bytes_of : List Action → List ℕ
bytes_of [] = []
bytes_of (write_bytes p ∷ more) = p ++ bytes_of more
bytes_of (_ ∷ more) = bytes_of more

abbrev pub redirects : List Action → Bool
redirects [] = false
redirects (redirect_to url code ∷ more) = true
redirects (_ ∷ more) = redirects more

redirect-run :
    (actions : List Action) (w : RenderWriter)
    → (run actions w).redirect ≡ (w.redirect || redirects actions)
unfolding run act write write_header write_redirect
redirect-run [] w = ground arith
redirect-run (a ∷ more) w = ground (arith, redirect-run more (act a w))

buf-run :
    (actions : List Action) (w : RenderWriter) → (run actions w).buf ≡ w.buf ++ bytes_of actions
unfolding run act write write_header write_redirect
buf-run [] w = sym (append-nil w.buf)
buf-run (write_bytes p ∷ more) w = buf-run more (write p w) ∙ append_assoc w.buf p (bytes_of more)
buf-run (status code ∷ more) w = buf-run more (write_header code w)
buf-run (redirect_to url code ∷ more) w = buf-run more (write_redirect url code w)
buf-run (header_set name value ∷ more) w =
    buf-run more (record w { header = set_header name value w.header })

-- What a new writer renders after any actions: the bytes written, in order, unless one of the
-- actions was a redirect; then the flag is set and the body is empty.
pub render-run :
    (actions : List Action)
    → ((render (run actions new_render_writer)).redirect ≡ redirects actions)
      × ((render (run actions new_render_writer)).body
          ≡ (if redirects actions then [] else bytes_of actions))
unfolding render
render-run actions =
    ground (arith, redirect-run actions new_render_writer, buf-run actions new_render_writer)
