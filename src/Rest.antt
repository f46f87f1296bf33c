-- ===== src/Rest.antt =====
-- pkg/modules/app/fetcher/providers/rest/rest.go: fetching a resource with retries and following
-- the links to further pages. The HTTP client and the making of a request, which the provider
-- holds as fields, and the decoding of JSON are parameters.
pub mod Retries
pub mod Options
pub mod Paging
use neon_oss.Base.{
  zero, ◌||◌, ◌++◌, ◌+◌, ◌==◌, str_eq, pos_part, leb_int, ltb, if◌then◌else◌, suc, put, Bool,
  Result, Dict, List, ℕ, String, ℤ, Option, [], ◌∷◌, none, some, pos, negsuc, false, true, ok, err,
}
use neon_oss.Resource.{Resource}
use neon_oss.Render.{Header}
use neon_oss.Strings.{◌+++◌, format_int}
use neon_oss.Loader.{or_default}

-- The type `restResourceConfig`.
pub record ResourceConfig : Type 0 where
  pub method : Option String
  pub url : String
  pub params : Dict String
  pub headers : Dict String
  pub next : Option Bool
  pub next_parser : Option String
  pub next_filter : Option String

-- The fields of `restProviderConfig` that a fetch reads.
pub record ProviderConfig : Type 0 where
  pub retry : ℤ
  pub headers : Dict String
  pub params : Dict String

pub record Request : Type 0 where
  pub method : String
  pub url : String
  pub query : Dict String
  pub header : Dict String

-- A response; reading its body may fail.
pub record Response : Type 0 where
  pub status_code : ℕ
  pub header : Header
  pub body : Result (List ℕ)

-- A body with its headers.
abbrev pub Page : Type 0
Page = List ℕ × Header

set_all : Dict String → Dict String → Dict String
set_all [] target = target
set_all ((k, v) ∷ more) target = set_all more (put k v target)

-- The statuses 429, 500, 502, 503 and 504.
unfoldable pub is_retryable : ℕ → Bool
is_retryable code = code == 429 || code == 500 || code == 502 || code == 503 || code == 504

status_error : ℕ → String
status_error code = "request error " +++ format_int (pos code)

-- `restResourceConfig` after the defaults of `Fetch`: a configuration with `next` has its parser
-- replaced by the default, whether it names one or not.
unfoldable pub with_defaults : ResourceConfig → ResourceConfig
with_defaults cfg = elim cfg.next [
  | none ↦ record cfg { method = some (or_default cfg.method "GET") }
  | some _ ↦ record cfg { method = some (or_default cfg.method "GET"); next_parser = some "body" }
]

-- What the loop does with a response whose body was read: it returns, fails, or goes on.
pub data Verdict : Type 0 where
  retry : Verdict
  done : Result Page → Verdict

judge_read : ℤ → ℕ → Response → List ℕ → Verdict
judge_read limit attempt r bytes =
    if is_retryable r.status_code
    then (if leb_int limit (pos attempt) then done (err (status_error r.status_code)) else retry)
    else if ltb r.status_code 200 || ltb 299 r.status_code
    then done (err (status_error r.status_code))
    else done (ok (bytes, r.header))

-- The body of the loop after the request was sent.
unfoldable pub judge : ℤ → ℕ → Result Response → Verdict
unfolding is_retryable judge_read status_error
judge limit attempt (err e) = done (err ("send requests: " +++ e))
judge limit attempt (ok r) = elim r.body [
  | err e ↦ done (err ("read response: " +++ e))
  | ok bytes ↦ judge_read limit attempt r bytes
]

-- What follows a page: a panic, the end, or the configuration of the next request.
pub data Following : Type 0 where
  panic : Following
  stop : Following
  go_on : ResourceConfig → Following

follow : ResourceConfig → Option String → Following
follow cfg none = panic
follow cfg (some url) =
    if str_eq url "" then stop else go_on (record cfg { url = url; params = [] })

module _ {World : Type 0} (client_do : Request → World → Result Response × World) where
  -- The loop, with `attempt` requests sent before; `none` means that the fuel ran out.
  unfoldable pub attempts : ℕ → ℤ → ℕ → Request → World → Option (Result Page × World)
  attempts zero limit attempt request w = none
  attempts (suc fuel) limit attempt request w =
      let (response, w') = client_do request w in
      elim (judge limit (attempt + 1) response) [
        | retry ↦ attempts fuel limit (attempt + 1) request w'
        | done result ↦ some (result, w')
      ]

  module _ (new_request : String → String → Result Request) (p : ProviderConfig) where
    prepare : ResourceConfig → Request → Request
    prepare cfg r = record r {
      query = set_all cfg.params (set_all p.params r.query);
      header = set_all cfg.headers (set_all p.headers r.header);
    }

    fetch_made : ResourceConfig → Result Request → World → Option (Result Page × World)
    fetch_made cfg (err e) w = some (err ("create request: " +++ e), w)
    fetch_made cfg (ok r) w = attempts (suc (pos_part p.retry)) p.retry 0 (prepare cfg r) w

    -- `fetchResource`
    unfoldable pub fetch_resource : ResourceConfig → World → Option (Result Page × World)
    unfolding fetch_made prepare set_all attempts
    fetch_resource cfg w = fetch_made cfg (new_request (or_default cfg.method "GET") cfg.url) w

    module _ (next_from_header : Header → String) (next_from_body : List ℕ → String → String) where
      -- The address of the next page, or ""; the outer `none` is the panic on a nil filter.
      unfoldable pub next_url : ResourceConfig → Page → Option String
      next_url cfg (bytes, header) =
          if or_default cfg.next false
          then (let parser = or_default cfg.next_parser "" in
              if str_eq parser "header"
              then some (next_from_header header)
              else if str_eq parser "body"
              then elim cfg.next_filter [ none ↦ none | some f ↦ some (next_from_body bytes f) ]
              else some "")
          else some ""

      unfoldable pub following : ResourceConfig → Page → Following
      unfolding next_url follow
      following cfg page = follow cfg (next_url cfg page)

      -- The loop `fetch: … goto fetch`; `none` means that the fuel ran out or the program panicked.
      unfoldable pub pages :
          ℕ → ResourceConfig → List (List ℕ) → World → Option (Result (List (List ℕ)) × World)
      pages zero cfg collected w = none
      pages (suc fuel) cfg collected w = elim (fetch_resource cfg w) [
        | none ↦ none
        | some (err e, w') ↦ some (err e, w')
        | some (ok page, w') ↦ elim (following cfg page) [
          | panic ↦ none
          | stop ↦ some (ok (collected ++ page.0 ∷ []), w')
          | go_on cfg' ↦ pages fuel cfg' (collected ++ page.0 ∷ []) w'
        ]
      ]

      -- `Fetch`, for a configuration that decodes.
      unfoldable pub fetch : ℕ → ResourceConfig → World → Option (Result (List (List ℕ)) × World)
      unfolding with_defaults
      fetch fuel cfg w = pages fuel (with_defaults cfg) [] w
