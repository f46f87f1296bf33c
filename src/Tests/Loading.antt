-- ===== src/Tests/Loading.antt =====
-- The fetcher, the loader, the parsers and the rest provider.
use Prim.Native.Nat.{max}
use neon_oss.Base.{
  eq_iff, ℕ, true, List, [], ◌∷◌, Dict, String, Option, none, some, Result, ok, err, pos, ◌≡◌, ◌≤◌,
  ◌<◌, ◌+◌, ltb, arith, get, refl, if◌then◌else◌, str_eq,
}
use neon_oss.Registry.{ModuleInfo}
use neon_oss.Modules.{Kind}
use neon_oss.Exec.{Exec}
use neon_oss.Loader.{RawConfig, no_config}
use neon_oss.Loader.Run.{dispatch}
use neon_oss.Loader.Laws.{sent, Bounded, dispatch_sound}
use neon_oss.Resource.{Resource}
use neon_oss.Storage.{memory_storage}
use neon_oss.Values.{arr, item, nil, Value, str, bool, obj, Fields, end, field}
use neon_oss.Strings.Laws.{Lacks}
use neon_oss.Values.Laws.{PlainValue, PlainFields}
use neon_oss.Parsers.{Surroundings, Services, JsonConfig, raw_parse}
use neon_oss.Rest
use neon_oss.Rest.{
  ResourceConfig, ProviderConfig, Request, Response, Page, attempts, with_defaults, fetch_resource,
  following, stop, go_on,
}
use neon_oss.Rest.Retries.{counting, attempts_bound}
use neon_oss.Rest.Paging.{Chain, fetch-Chain}

-- Modules are numbers, and every one of them initialises.
abbrev number_kind : Kind ℕ ℕ (Dict String)
number_kind = record { as_module = λ n. some n; init_module = λ config n. ok n; empty_config = [] }

abbrev registry : Dict (ModuleInfo ℕ)
registry =
    ("app.fetcher.provider.rest", record { id = "app.fetcher.provider.rest"; new_instance = 4 })
    ∷ ("app.loader.parser.json", record { id = "app.loader.parser.json"; new_instance = 6 })
    ∷ []

abbrev providers : Dict (Dict (Option (Dict String)))
providers = ("api", ("rest", none) ∷ []) ∷ ("empty", []) ∷ []

abbrev raw_loader : RawConfig (Dict String)
raw_loader = record no_config {
  exec_workers = some (pos 2);
  rules = ("posts", ("json", none) ∷ []) ∷ [];
}

abbrev rules : List String
rules = "a" ∷ "b" ∷ "c" ∷ []

dispatch_sound_example :
    (sent (dispatch (pos 2) 0 rules) ≡ rules) × (0 < 2 → Bounded 2 0 (dispatch (pos 2) 0 rules))
dispatch_sound_example = dispatch_sound 2 rules

-- A parser counts its runs, and fails on every second one.
abbrev parse_counted : ℕ → Exec ℕ (Unit {0})
parse_counted limit n = (if ltb n limit then ok tt else err "limit", n + 1)

abbrev nested : Fields
nested = field "url" (str "/posts") (field "next" (bool true) end)

Lacks-url : Lacks b'$' "url"
Lacks-url = (
  λ e. absurd (omega (arith, e)),
  (λ e. absurd (omega (arith, e)), (λ e. absurd (omega (arith, e)), tt)),
)

Lacks-next : Lacks b'$' "next"
Lacks-next = (
  λ e. absurd (omega (arith, e)),
  (
    λ e. absurd (omega (arith, e)),
    (λ e. absurd (omega (arith, e)), (λ e. absurd (omega (arith, e)), tt)),
  ),
)

Lacks-posts : Lacks b'$' "/posts"
Lacks-posts = (
  λ e. absurd (omega (arith, e)),
  (
    λ e. absurd (omega (arith, e)),
    (
      λ e. absurd (omega (arith, e)),
      (
        λ e. absurd (omega (arith, e)),
        (λ e. absurd (omega (arith, e)), (λ e. absurd (omega (arith, e)), tt)),
      ),
    ),
  ),
)

nested_plain : PlainFields nested
unfolding PlainFields PlainValue
nested_plain = (
  Lacks-url,
  Lacks-posts,
  (λ e. ground (arith, eq_iff "next" "url"), tt),
  (Lacks-next, tt, tt, tt),
)

abbrev resource : Resource
resource = record { data_array = (1 ∷ []) ∷ []; ttl = 0 }

-- The world counts the fetches.
abbrev services : Services ℕ (Dict Resource)
services = record {
  fetch = λ name provider config n. (ok resource, n + 1);
  storage = memory_storage;
}

abbrev before : Surroundings ℕ (Dict Resource)
before = record { world = 0; stored = [] }

abbrev after : Surroundings ℕ (Dict Resource)
after = record { world = 1; stored = ("posts", resource) ∷ [] }

abbrev option : Dict (Dict Value)
option = ("posts", ("api", obj end) ∷ []) ∷ []

raw_parsed : raw_parse services option before ≡ (ok tt, after)
unfolding raw_parse get neon_oss.Storage.store_resource
raw_parsed = refl

-- The resource has two items, and each gives a resource of its own.
abbrev item_of : String → Value
item_of n = obj (field "id" (str n) end)

abbrev two_items : List ℕ → Result Value
two_items bytes = ok (arr (item (item_of "1") (item (item_of "2") nil)))

-- A path that asks for the number of an item, and one for all.
abbrev id_or_all : String → Value → Result Value
id_or_all path (obj (field k id more)) = ok id
id_or_all path (arr items) = ok (arr items)
id_or_all path _ = err "unknown key"

abbrev json_config : JsonConfig
json_config = record {
  resource = option;
  filter = "$";
  item_params = ("id", "$.id") ∷ [];
  item_resource = ("post-$id", ("api", obj end) ∷ []) ∷ [];
  store = true;
}

abbrev after_items : Surroundings ℕ (Dict Resource)
after_items = record {
  world = 3;
  stored = ("post-1", resource) ∷ ("post-2", resource) ∷ ("posts", resource) ∷ [];
}

-- A server that is busy once and then gives two pages, the first with a link to the second.
abbrev answer : ℕ → Request → Response
answer n r =
    if ltb n 1
    then record { status_code = 503; header = []; body = ok [] }
    else if str_eq r.url "/2"
    then record { status_code = 200; header = []; body = ok (2 ∷ []) }
    else record { status_code = 200; header = []; body = ok (1 ∷ []) }

abbrev client : Request → ℕ → Result Response × ℕ
client r n = (ok (answer n r), n + 1)

abbrev request : Request
request = record { method = "GET"; url = "/1"; query = []; header = [] }

attempts_bound_example :
    (result : Result Page) × (sent : ℕ) × (w' : ℕ) × (attempts
        (counting client)
        4
        (pos 3)
        0
        request
        (0, 0)
      ≡ some (result, (sent, w')))
    × (sent ≤ max 1 3)
attempts_bound_example = attempts_bound client (pos 3) request 0

abbrev make_request : String → String → Result Request
make_request method url = ok (record { method = method; url = url; query = []; header = [] })

abbrev provider : ProviderConfig
provider = record { retry = pos 3; headers = []; params = [] }

abbrev no_link : Dict (List String) → String
no_link header = ""

-- The first page links to the second.
abbrev link : List ℕ → String → String
link [] filter = ""
link (n ∷ more) filter = if ltb n 2 then "/2" else ""

abbrev paged : ResourceConfig
paged = record {
  method = none;
  url = "/1";
  params = [];
  headers = [];
  next = some true;
  next_parser = some "body";
  next_filter = some "$.next";
}

two_pages :
    Chain client make_request provider no_link link
      (with_defaults paged)
      0
      ((1 ∷ []) ∷ (2 ∷ []) ∷ [])
      3
unfolding with_defaults fetch_resource following Rest.judge
two_pages =
    Chain.more (with_defaults paged) 0 2 3 ((2 ∷ []) ∷ []) (1 ∷ [], [])
      (record (with_defaults paged) { url = "/2"; params = [] }) refl refl
      (Chain.last (record (with_defaults paged) { url = "/2"; params = [] }) 2 3 (2 ∷ [], []) refl
        refl)

fetch-Chain_example :
    Rest.fetch client make_request provider no_link link 2 paged 0
    ≡ some (ok ((1 ∷ []) ∷ (2 ∷ []) ∷ []), 3)
fetch-Chain_example =
    fetch-Chain client make_request provider no_link link paged 0 ((1 ∷ []) ∷ (2 ∷ []) ∷ []) 3 2
      two_pages (omega arith)
