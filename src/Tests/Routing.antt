-- ===== src/Tests/Routing.antt =====
-- The site, its middlewares, the listener and the server.
use neon_oss.Base.{
  ◌⊎◌, Bool-cases, inl, inr, ◌==◌, ℕ, Bool, true, false, List, [], ◌∷◌, Dict, String, none, some,
  ok, err, ◌≡◌, ◌≢◌, ◌↔◌, ◌+◌, ◌*◌, arith, get, put, delete, Any, eq_iff, refl, All, is_ok,
  if◌then◌else◌, str_eq,
}
use neon_oss.Strings.{has_prefix}
use neon_oss.Site.{
  through, Mediator, RouteState, new_mediator, find_middlewares, build_router, route_handler,
  root_base, base_handler,
}
use neon_oss.Site.Nearest.{DirLaws, Nearest, find_middlewares-Nearest}
use neon_oss.Site.Routing.{build_router-get}
use neon_oss.Middlewares.Rewrite
use neon_oss.Middlewares.Rewrite.Laws as RewriteLaws
use neon_oss.Middlewares.Fields.Laws as FieldsLaws
use neon_oss.Listener.Laws as ListenerLaws
use neon_oss.Server.Laws as ServerLaws
use neon_oss.Middlewares.Rewrite.Laws.{rewrite_handler-applied}
use neon_oss.Middlewares.Fields
use neon_oss.Middlewares.Fields.Laws.{header_handler-get}
use neon_oss.Middlewares.Static.{StaticFileSystem, static_handler}
use neon_oss.Middlewares.Static.Laws.{IsServed, Rooted, static_handler-IsServed}
use neon_oss.Http.{FileSystem, new_response}
use neon_oss.App
use neon_oss.App.Handover
use neon_oss.App.Handover.{handle_child-Follows}
use neon_oss.Listener
use neon_oss.Listener.Laws.{link-IsServed}
use neon_oss.Listener.Unlinking
use neon_oss.Listener.Unlinking.{unlink-IsServed}
use neon_oss.Server
use neon_oss.Server.Laws.{server_init_iff}
use neon_oss.Server.Start
use neon_oss.Server.Start.Laws.{start-IsServed}
use neon_oss.Modules.{decoded}

-- Handlers are numbers, and the middlewares count on them.
abbrev add_one : ℕ → ℕ
add_one h = h + 1

abbrev double : ℕ → ℕ
double h = 2 * h

abbrev routes : Dict (RouteState ℕ)
routes =
    ("/a", record { middlewares = add_one ∷ double ∷ []; handler = some 5 })
    ∷ ("default", record { middlewares = double ∷ []; handler = none })
    ∷ []

routes_differ : ◌≢◌ {A = String} "/a" "default"
routes_differ e = ground (arith, eq_iff "/a" "default")

abbrev mediator : Mediator ℕ
mediator = record new_mediator {
  default_middlewares = double ∷ [];
  default_handler = some 9;
  routes_middlewares = ("/a", add_one ∷ []) ∷ [];
  routes_handler = ("/a", 5) ∷ [];
}

-- The parent of each of the paths below.
abbrev parent : String → String
parent path = if str_eq path "/a/b" then "/a" else "/"

abbrev depth : String → ℕ
depth path = if str_eq path "/a/b" then 2 else if str_eq path "/" then 0 else 1

abbrev IsRooted : String → Type 0
IsRooted path = Unit {0}

parent_laws : DirLaws parent IsRooted depth
parent_laws = record {
  shorter = λ route r not_root. elim (Bool-cases (str_eq route "/a/b")) [
    | inl deep ↦ rw deep (omega arith)
    | inr flat ↦ elim (Bool-cases (str_eq route "/")) [
      | inl top ↦ absurd (not_root ((eq_iff route "/").0 top))
      | inr below ↦ rw (flat, below) (omega arith)
    ]
  ];
  rooted = λ route r. tt;
}

find_middlewares-Nearest_example :
    (found : List (ℕ → ℕ)) × (find_middlewares parent 3 mediator "/a/b" ≡ some found)
    × Nearest parent mediator "/a/b" found
find_middlewares-Nearest_example =
    find_middlewares-Nearest parent mediator IsRooted depth parent_laws 3 "/a/b" tt (omega arith)

abbrev router : Dict ℕ
router = ("/a", 106) ∷ ("/", 118) ∷ []

router_built : build_router parent (λ h. h + 100) 404 3 [] ("/a" ∷ []) mediator ≡ some router
unfolding build_router get put has_prefix route_handler find_middlewares through base_handler
    root_base
router_built = refl

build_router-get_example : get "/a" router ≡ (
    if has_prefix "/a" "/"
    then route_handler parent
        (λ h. h + 100)
        404
        3
        mediator
        "/a"
        (base_handler parent (λ h. h + 100) 404 mediator "/a")
    else none)
build_router-get_example =
    build_router-get parent (λ h. h + 100) 404 3 mediator ("/a" ∷ []) router "/a" router_built

-- An expression matches the text that it is.
abbrev same : String → String → Bool
same re path = str_eq re path

abbrev rewrite_rules : List (Rewrite.Compiled String)
rewrite_rules =
    (record {
      regexp = "/old";
      rule = record { path = "/old"; replacement = "/new"; flag = none; last = false };
    })
    ∷ (record {
      regexp = "/new";
      rule = record {
        path = "/new";
        replacement = "/newest";
        flag = some "permanent";
        last = true;
      };
    })
    ∷ []

abbrev field_rules : List (Fields.Compiled String)
field_rules =
    (record {
      regexp = "/a";
      rule = record { path = "/a"; fields = ("x", "1") ∷ ("Y", "2") ∷ []; last = false };
    })
    ∷ (record {
      regexp = "/a";
      rule = record { path = "/a"; fields = ("X", "3") ∷ []; last = true };
    })
    ∷ []

rewrite_handler-applied_example : Rewrite.rewrite_handler same rewrite_rules "/old" ≡ (
    let rs = RewriteLaws.applied same rewrite_rules "/old" in
    if RewriteLaws.any_redirect rs
    then Rewrite.redirect_to (RewriteLaws.final_path rs "/old") (RewriteLaws.final_status rs 302)
    else Rewrite.next (RewriteLaws.final_path rs "/old"))
rewrite_handler-applied_example = rewrite_handler-applied same rewrite_rules "/old"

header_handler-get_example :
    get "X" (Fields.header_handler same field_rules "/a" new_response).header
    ≡ FieldsLaws.last_value "X" (FieldsLaws.assignments same field_rules "/a") none
unfolding get
header_handler-get_example = header_handler-get same field_rules "/a" new_response "X"

-- A directory `/www` with an index and a file.
abbrev www : FileSystem
www = record {
  open_file = λ path. ok tt;
  stat = λ path.
      if str_eq path "/www/"
      then ok (record { is_dir = true; mod_time = 1 })
      else if str_eq path "/www/index.html"
      then ok (record { is_dir = false; mod_time = 2 })
      else err "no such file";
  read_file = λ path. ok [];
}

abbrev www_files : StaticFileSystem
www_files = record { prefix = "/www"; index = true }

abbrev joined : String → String → String
joined a b =
    if str_eq b "index.html"
    then "/www/index.html"
    else if str_eq b "/"
    then "/www/"
    else "/www/other"

abbrev by_file : String → ℕ
by_file r = 1

abbrev by_next : String → ℕ
by_next r = 2

static_handler-IsServed_example :
    (full : String) × Rooted "/" full
    × (((IsServed www www_files
            (joined (joined "/www" full) "index.html")
            (www.stat (joined "/www" full)))
          × (static_handler joined www by_file by_next (λ r. r) www_files "/" ≡ by_file "/"))
        ⊎ ((¬ (
              IsServed www www_files
                (joined (joined "/www" full) "index.html")
                (www.stat (joined "/www" full))))
            × (static_handler joined www by_file by_next (λ r. r) www_files "/" ≡ by_next "/")))
static_handler-IsServed_example =
    static_handler-IsServed joined www www_files by_file by_next (λ r. r) "/"

abbrev site_a : Listener.Site ℕ
site_a = record { name = "a"; router = ok (("/", 1) ∷ []) }

abbrev site_b : Listener.Site ℕ
site_b = record { name = "b"; router = ok (("b.org/", 2) ∷ []) }

abbrev with_a : Listener.ListenerState ℕ
with_a = record { sites = ("a", site_a) ∷ []; router = none }

abbrev with_both : Listener.ListenerState ℕ
with_both = record {
  sites = ("a", site_a) ∷ ("b", site_b) ∷ [];
  router = some (("/", 1) ∷ ("b.org/", 2) ∷ []);
}

b_linked : Listener.link site_b with_a ≡ some (ok tt, with_both)
unfolding Listener.link get put
b_linked = refl

link-IsServed_example :
    (mux : Dict ℕ) × (with_both.router ≡ some mux)
    × (with_both.sites ≡ put "b" site_b with_a.sites)
    × All (λ e. ListenerLaws.IsServed mux e.1) with_both.sites
    × ListenerLaws.IsServed mux site_b
link-IsServed_example = link-IsServed site_b with_a with_both b_linked

abbrev only_b : Listener.ListenerState ℕ
only_b = record { sites = ("b", site_b) ∷ []; router = some (("b.org/", 2) ∷ []) }

a_unlinked : Listener.unlink site_a with_both ≡ some (ok tt, only_b)
unfolding Listener.unlink get delete put
a_unlinked = refl

unlink-IsServed_example :
    ((name : String)
      → get name only_b.sites ≡ (if str_eq "a" name then none else get name with_both.sites))
    × (mux : Dict ℕ) × (only_b.router ≡ some mux)
    × All (λ e. ListenerLaws.IsServed mux e.1) only_b.sites
    × ((p : String)
        → Unlinking.WhenSome (λ h. Any (λ e. Unlinking.Offers p h e.1) only_b.sites) (get p mux))
unlink-IsServed_example = unlink-IsServed site_a with_both only_b a_unlinked

abbrev unlinked : Dict (Listener.ListenerState ℕ)
unlinked =
    ("http", record { sites = []; router = none })
    ∷ ("https", record { sites = []; router = none })
    ∷ []

abbrev all_linked : Dict (Listener.ListenerState ℕ)
all_linked = ("http", with_both) ∷ ("https", with_both) ∷ []

both_started :
    Start.start (λ l. ok tt) (λ s. ok tt) (site_a ∷ site_b ∷ []) unlinked ≡ some (ok tt, all_linked)
unfolding Start.start Start.link_sites Start.link_all Listener.link get put
both_started = refl

start-IsServed_example :
    All
      (λ e.
        All
          (λ site. (mux : Dict ℕ) × (e.1.router ≡ some mux) × ListenerLaws.IsServed mux site)
          (site_a ∷ site_b ∷ []))
      all_linked
start-IsServed_example =
    start-IsServed (λ l. ok tt) (λ s. ok tt) (site_a ∷ site_b ∷ []) unlinked all_linked
      (tt, (((λ e. ground (arith, eq_iff "a" "b")), tt), tt)) (refl, (refl, tt)) both_started

-- Listeners and sites are numbers; the site 0 is a default site.
abbrev server_config : Server.ServerConfig ℕ
server_config = record {
  listeners = ("http", some 1) ∷ [];
  sites = ("main", some 5) ∷ ("other", some 0) ∷ [];
}

sites_named : All (λ e. e.0 ≢ "") server_config.sites
sites_named = (λ e. ground (arith, eq_iff "main" ""), (λ e. ground (arith, eq_iff "other" ""), tt))

abbrev is_zero : ℕ → Bool
is_zero n = n == 0

server_init_iff_example :
    (is_ok (Server.init 0 (λ name c. ok c) (λ name c. ok c) is_zero (decoded server_config)) ≡ true)
    ↔ ((Server.is_empty server_config.listeners ≡ false)
        × All
            (ServerLaws.ListenerStarts 0 (λ name c. ok c) (λ name c. ok c) is_zero)
            server_config.listeners
        × ServerLaws.FirstStarts 0 (λ name c. ok c) (λ name c. ok c) is_zero server_config.sites)
server_init_iff_example =
    server_init_iff 0 (λ name c. ok c) (λ name c. ok c) is_zero server_config sites_named

-- The handshake of a child with its parent, after a line that neither knows.
abbrev handshake : List App.Line
handshake =
    (record { cmd = "HELLO"; payload = "" })
    ∷ (record { cmd = "PING"; payload = "" })
    ∷ (record { cmd = "RELOAD"; payload = "secret" })
    ∷ (record { cmd = "READY"; payload = "" })
    ∷ []

handshake_sent :
    Handover.sends_done (
      App.handle_child
        (λ text. ok tt)
        (λ text. ok text)
        (App.complete [] (ok "[]"))
        "secret"
        (ok tt)
        handshake
        App.first_progress)
    ≡ true
unfolding App.handle_child App.turn
handshake_sent = refl

handle_child-Follows_example :
    Handover.Follows
      (Handover.IsHello ∷ Handover.IsReload (λ text. ok text) "secret" ∷ Handover.IsReady ∷ [])
      handshake
handle_child-Follows_example =
    handle_child-Follows (λ text. ok tt) (λ text. ok text) (App.complete [] (ok "[]")) "secret"
      (ok tt) handshake handshake_sent
