-- ===== src/Rest/Paging.antt =====
-- The pages that a fetch collects.
use neon_oss.Base.{
  Bool, ◌∙◌, length, List, String, Option, refl, zero, suc, append_assoc, ap, some, arith, ◌≤◌, ◌≡◌,
  ℕ, Result, [], ◌∷◌, some, ok, ◌++◌,
}
use neon_oss.Rest.{
  Header, ResourceConfig, ProviderConfig, Request, Response, Page, with_defaults, fetch_resource,
  stop, go_on, following, pages, fetch,
}

module _ {World : Type 0} (client_do : Request → World → Result Response × World) where
  module _ (new_request : String → String → Result Request) (p : ProviderConfig)
      (next_from_header : Header → String) (next_from_body : List ℕ → String → String) where
    -- The pages that a server gives one after another: the last one, or one whose link leads on.
    pub data Chain : ResourceConfig → World → List (List ℕ) → World → Type 0 where
      last :
          (cfg : ResourceConfig) (w w' : World) (page : Page)
          → fetch_resource client_do new_request p cfg w ≡ some (ok page, w')
          → following client_do new_request p next_from_header next_from_body cfg page ≡ stop
          → Chain cfg w (page.0 ∷ []) w'
      more :
          (cfg : ResourceConfig) (w w' w'' : World) (bodies : List (List ℕ)) (page : Page)
          (cfg' : ResourceConfig)
          → fetch_resource client_do new_request p cfg w ≡ some (ok page, w')
          → following client_do new_request p next_from_header next_from_body cfg page ≡ go_on cfg'
          → Chain cfg' w' bodies w''
          → Chain cfg w (page.0 ∷ bodies) w''

    pages-stop :
        (cfg : ResourceConfig) (w w' : World) (page : Page) (fuel : ℕ) (collected : List (List ℕ))
        → fetch_resource client_do new_request p cfg w ≡ some (ok page, w')
        → following client_do new_request p next_from_header next_from_body cfg page ≡ stop
        → pages client_do new_request p next_from_header next_from_body (suc fuel) cfg collected w
          ≡ some (ok (collected ++ page.0 ∷ []), w')
    unfolding pages
    pages-stop cfg w w' page fuel collected e f = rw (e, pages, f, pages) refl

    pages-more :
        (cfg : ResourceConfig) (w w' : World) (page : Page) (cfg' : ResourceConfig) (fuel : ℕ)
        (collected : List (List ℕ))
        → fetch_resource client_do new_request p cfg w ≡ some (ok page, w')
        → following client_do new_request p next_from_header next_from_body cfg page ≡ go_on cfg'
        → pages client_do new_request p next_from_header next_from_body (suc fuel) cfg collected w
          ≡ pages client_do new_request p next_from_header next_from_body fuel cfg'
              (collected ++ page.0 ∷ [])
              w'
    unfolding pages
    pages-more cfg w w' page cfg' fuel collected e f = rw (e, pages, f, pages) refl

    pages-Chain :
        (cfg : ResourceConfig) (w : World) (bodies : List (List ℕ)) (w' : World) (fuel : ℕ)
        (collected : List (List ℕ))
        → Chain cfg w bodies w'
        → length bodies ≤ fuel
        → pages client_do new_request p next_from_header next_from_body fuel cfg collected w
          ≡ some (ok (collected ++ bodies), w')
    pages-Chain _ _ _ _ zero collected (last cfg w w' page e f) h = absurd (omega arith)
    pages-Chain _ _ _ _ (suc fuel) collected (last cfg w w' page e f) h =
        pages-stop cfg w w' page fuel collected e f
    pages-Chain _ _ _ _ zero collected (more cfg w w' w'' bodies page cfg' e f c) h =
        absurd (omega arith)
    pages-Chain _ _ _ _ (suc fuel) collected (more cfg w w' w'' bodies page cfg' e f c) h =
        pages-more cfg w w' page cfg' fuel collected e f
        ∙ pages-Chain cfg' w' bodies w'' fuel (collected ++ page.0 ∷ []) c (omega arith)
        ∙ ap (λ all. some (ok all, w'')) (append_assoc collected (page.0 ∷ []) bodies)

    -- `Fetch` returns the bodies of all pages in their order, when the server gives a chain of
    -- pages whose links lead from one to the next, with one round of fuel for each page.
    pub fetch-Chain :
        (cfg : ResourceConfig) (w : World) (bodies : List (List ℕ)) (w' : World) (fuel : ℕ)
        → Chain (with_defaults cfg) w bodies w'
        → length bodies ≤ fuel
        → fetch client_do new_request p next_from_header next_from_body fuel cfg w
          ≡ some (ok bodies, w')
    unfolding fetch
    fetch-Chain cfg w bodies w' fuel c h = pages-Chain (with_defaults cfg) w bodies w' fuel [] c h

    -- The parser that a resource names for its next page is never used: with `next` configured,
    -- the fetch is the same whatever the parser is.
    pub fetch-next_parser :
        (cfg : ResourceConfig) (next : Bool) (a b : Option String) (w : World) (fuel : ℕ)
        → fetch client_do new_request p next_from_header next_from_body fuel
            (record cfg { next = some next; next_parser = a })
            w
          ≡ fetch client_do new_request p next_from_header next_from_body fuel
              (record cfg { next = some next; next_parser = b })
              w
    unfolding fetch with_defaults
    fetch-next_parser cfg next a b w fuel = refl
