-- ===== src/Tests/Processes.antt =====
-- The instance, its child process, and the network listeners.
use neon_oss.Base.{
  ◌↔◌, ℕ, ◌+◌, ◌==◌, false, List, [], ◌∷◌, ◌++◌, map, Dict, get, Distinct, String, Option, none,
  some, Result, ok, err, ◌≡◌, refl, if◌then◌else◌, eq_iff, arith, pos,
}
use neon_oss.Strings.{◌+++◌}
use neon_oss.App.{described, reply, done, handle_child, first_progress}
use neon_oss.App.Child.{Parent, child, or_no_listeners, pass_files}
use neon_oss.App.Child.Dealing.{sockets, dealt}
use neon_oss.App.Child.Sockets.{response_of, AreOpen}
use neon_oss.App.Child.Handshake.{replies, lines_of, handshake}
use neon_oss.App.Life.{
  exit, Host, Call, Signal, reload, told_init, told_done, boot, serve, events, retried,
  reload_instance, reloading, launch, shutdown_instance,
}
use neon_oss.App.Life.Order.{ServeEnds, serve-InOrder}
use neon_oss.App.Life.Ending.{Halted, serve-Halted}
use neon_oss.Calls.{Run, call}
use neon_oss.Calls.Order.{Ends, joined}
use neon_oss.Server.Life as ServerLife
use neon_oss.Server.Life.Order.{closings}
use neon_oss.Server.Life.Links.{AllDiffer, shutdown-linked}
use neon_oss.Rest.Options as RestOptions
use neon_oss.Rest.Options.{LacksKeys, init_panics_iff}
use neon_oss.Site.Setup
use neon_oss.Site.Setup.{SiteConfig}
use neon_oss.Registry.{ModuleInfo}
use neon_oss.Modules.Maps
use neon_oss.Modules.{decoded, Kind}
use neon_oss.Http.{FileSystem}
use neon_oss.Listeners.{
  Options, no_options, fill, Mediator, or_nil, new_mediator, register, passed_on, kept,
}
use neon_oss.Listeners.Inherited.{register-inherited}
use neon_oss.Listeners.Redirect
use neon_oss.Listeners.Redirect.{http_redirect, redirect_handler}
use neon_oss.Listeners.Redirect.Target.{IsName, IsAnswered, location, redirect_handler-location}
use neon_oss.Listeners.Tls
use neon_oss.Listeners.Tls.{Certificates}

-- Sockets are numbers, and the file of a socket is its number.
abbrev file_of : ℕ → Option (Result ℕ)
file_of l = some (ok l)

abbrev file_named : ℕ → Option (Result String)
file_named l = some (ok "socket")

abbrev marshalled : Dict (List String) → Result String
marshalled r = ok "answer"

abbrev two_listeners : Dict (List ℕ)
two_listeners = ("a", 7 ∷ 8 ∷ []) ∷ ("b", 9 ∷ []) ∷ []

-- The same listeners in the order of another iteration.
abbrev named_listeners : Dict (List ℕ)
named_listeners = ("b", 9 ∷ []) ∷ ("a", 7 ∷ 8 ∷ []) ∷ []

-- The name `b` gets a socket of `a`.
crossed : dealt named_listeners (sockets two_listeners) ≡ ("b", 7 ∷ []) ∷ ("a", 8 ∷ 9 ∷ []) ∷ []
crossed = refl

abbrev silent_parent : Parent ℕ
silent_parent = record {
  write = λ t. ok tt;
  encode_request = λ key. ok key;
  decode_response = λ r. err "";
  file_listener = λ fd name. ok (fd + 4);
}

abbrev same_name : ℕ → String
same_name l = "socket"

abbrev speaking_parent : Parent ℕ
speaking_parent = record {
  write = λ t. ok tt;
  encode_request = λ key. ok key;
  decode_response = λ r. ok (response_of silent_parent same_name named_listeners);
  file_listener = λ fd name. ok (fd + 4);
}

abbrev ok_write : String → Result (Unit {0})
ok_write t = ok tt

abbrev ok_key : String → Result String
ok_key t = ok t

named_listeners-Distinct : Distinct named_listeners
named_listeners-Distinct = ((λ e. ground (arith, eq_iff "b" "a"), tt), (tt, tt))

two_listeners-passed : pass_files file_of two_listeners [] ≡ ok (7 ∷ 8 ∷ 9 ∷ [])
unfolding pass_files
two_listeners-passed = refl

opened_as : (n l : ℕ) → file_of l ≡ some (ok n) → ◌≡◌ {A = Result ℕ} (ok n) (ok l)
opened_as n l h = cc h

sockets-AreOpen : AreOpen file_of speaking_parent 3 (7 ∷ 8 ∷ 9 ∷ [])
sockets-AreOpen =
    (λ l h name. opened_as 7 l h, (λ l h name. opened_as 8 l h, (λ l h name. opened_as 9 l h, tt)))

handshake_example :
    let o = child speaking_parent (ok tt) "key" (replies "answer") in
    (o.result ≡ ok tt)
    × ((k : String)
        → or_no_listeners (get k o.listeners)
          ≡ or_no_listeners (get k (dealt named_listeners (sockets two_listeners))))
    × (sockets (dealt named_listeners (sockets two_listeners)) ≡ sockets two_listeners)
    × (dealt two_listeners (sockets two_listeners) ≡ two_listeners)
    × (handle_child ok_write ok_key
          (described file_named marshalled (ok named_listeners))
          "key"
          (ok tt)
          (lines_of o.said)
          first_progress
        ≡ map reply (replies "answer") ++ done ∷ [])
handshake_example =
    handshake speaking_parent file_of same_name file_named marshalled ok_write ok_key two_listeners
      named_listeners (7 ∷ 8 ∷ 9 ∷ []) "key" "key" "answer" named_listeners-Distinct refl
      two_listeners-passed sockets-AreOpen (λ t. refl) (λ t. refl) refl refl (λ l. refl) refl refl

-- A host whose seventh call fails, and one whose calls succeed; the world counts the calls.
abbrev host : ℕ → Host ℕ ℕ ℕ
host bad = record {
  perform = λ c w. (if w == bad then err "refused" else ok tt, w + 1);
  listeners = λ w. ok two_listeners;
  file_of = file_of;
  executable = ok "/bin/neon";
  environ = "CHILD=old" ∷ "HOME=/" ∷ [];
  std_files = 0 ∷ 1 ∷ 2 ∷ [];
}

abbrev at_start : Run ℕ (Call ℕ)
at_start = record { world = 0; calls = [] }

serve-InOrder_example :
    ServeEnds (host 6) none (exit ∷ []) at_start (serve (host 6) none (exit ∷ []) at_start)
serve-InOrder_example = serve-InOrder (host 6) none (exit ∷ []) at_start

-- A reload without a key, and one whose child becomes ready.
abbrev two_reloads : List Signal
two_reloads = reload (err "rand") [] ∷ reload (ok "key") (told_init ∷ told_done ∷ []) ∷ []

abbrev at_end : Run ℕ (Call ℕ)
at_end = (serve (host 100) none two_reloads at_start).1

at_end-ok : serve (host 100) none two_reloads at_start ≡ (some (ok tt), at_end)
unfolding serve boot call events retried reload_instance reloading launch pass_files
    shutdown_instance
at_end-ok = refl

serve-Halted_example : Halted (host 100) at_end
serve-Halted_example = serve-Halted (host 100) none two_reloads at_start at_end at_end-ok

abbrev defaults : Options
defaults = fill (pos 80) no_options

abbrev first_socket : String → String → Result ℕ
first_socket network addr = ok 7

abbrev no_socket : String → String → Result ℕ
no_socket network addr = err "address in use"

abbrev one_registered : Mediator ℕ
one_registered = record { inherited = []; listeners = 7 ∷ [] }

one_registered-opens : register first_socket defaults (new_mediator "a" []) ≡ (ok 7, one_registered)
unfolding register new_mediator get
one_registered-opens = refl

one_handed :
    ◌≡◌ {A = Result (List ℕ)}
      (ok (or_nil (get "a" (("a", 7 ∷ []) ∷ []))))
      (passed_on (some one_registered))
unfolding passed_on get
one_handed = refl

register-inherited_example :
    let child = register no_socket defaults (new_mediator "a" (("a", 7 ∷ []) ∷ [])) in
    (child.0 ≡ ok 7) × (passed_on (kept child).1 ≡ ok [])
register-inherited_example =
    register-inherited first_socket no_socket defaults defaults "a" 7 (("a", 7 ∷ []) ∷ [])
      one_registered one_registered-opens one_handed

abbrev to_8443 : Redirect.Config
to_8443 = record { options = defaults; redirect_port = some (pos 8443) }

example_org-IsName : IsName "example.org"
unfolding Redirect.has_char
example_org-IsName = record { no_colon = refl; no_open = refl; no_close = refl }

port_80-IsName : IsName "80"
unfolding Redirect.has_char
port_80-IsName = record { no_colon = refl; no_open = refl; no_close = refl }

redirect_handler-location_example :
    IsAnswered (location (some (pos 8443)) "example.org" "/a?b") "GET" (
      redirect_handler to_8443
        (record { method = "GET"; host = "example.org"; request_uri = "/a?b" }))
    × IsAnswered (location (some (pos 8443)) "example.org" "/a?b") "GET" (
        redirect_handler to_8443
          (record { method = "GET"; host = "example.org" +++ ":" +++ "80"; request_uri = "/a?b" }))
redirect_handler-location_example =
    redirect_handler-location to_8443 "GET" "example.org" "80" "/a?b" example_org-IsName
      port_80-IsName

abbrev files : FileSystem
files = record {
  open_file = λ name. ok tt;
  stat = λ name. ok (record { is_dir = false; mod_time = 0 });
  read_file = λ name. ok (1 ∷ []);
}

abbrev raw_tls : Tls.RawConfig
raw_tls = record {
  options = no_options;
  ca_files = some ("ca.pem" ∷ []);
  cert_files = "cert.pem" ∷ [];
  key_files = "key.pem" ∷ [];
  client_auth = some "require";
}

abbrev tls : Tls.Config
tls = Tls.fill_config raw_tls

-- A pool is its bytes, and a certificate its file.
abbrev x509 : Certificates (List ℕ) String
x509 = record {
  new_pool = [];
  append_certs = λ pool pem. pool ++ pem;
  load_key_pair = λ cert key. ok cert;
}

-- The server with two listeners and two sites; the world counts the calls, and the tenth fails.
abbrev tenth_fails : ServerLife.ServerCall → ℕ → Result (Unit {0}) × ℕ
tenth_fails c w = (if w == 9 then err "busy" else ok tt, w + 1)

abbrev names : List String
names = "a" ∷ "b" ∷ []

abbrev sites : List String
sites = "x" ∷ "y" ∷ []

sites-AllDiffer : AllDiffer sites
sites-AllDiffer = ((λ e. ground (arith, eq_iff "y" "x"), tt), (tt, tt))

abbrev no_calls : Run ℕ ServerLife.ServerCall
no_calls = record { world = 0; calls = [] }

shutdown-linked_example :
    let got =
      ServerLife.shutdown tenth_fails names sites
        (no_calls, ServerLife.link_sites sites names []) in
    Ends tenth_fails
      (map ServerLife.shutdown_listener names
        ++ joined tenth_fails (λ site. map (λ l. ServerLife.unlink_site l site) names) sites
        ++ (joined tenth_fails closings names ++ map ServerLife.stop_site sites))
      no_calls
      (got.0, got.1.0)
shutdown-linked_example = shutdown-linked tenth_fails names sites no_calls sites-AllDiffer

-- Middlewares and handlers are numbers, made by modules of one registry.
abbrev number_modules : Kind ℕ ℕ ℕ
number_modules = record {
  as_module = λ n. some n;
  init_module = λ config n. if config == 0 then ok n else err "options";
  empty_config = 0;
}

abbrev site_registry : Dict (ModuleInfo ℕ)
site_registry =
    (
      "app.server.site.middleware.log",
      (record { id = "app.server.site.middleware.log"; new_instance = 1 }),
    )
    ∷ (
      "app.server.site.handler.file",
      (record { id = "app.server.site.handler.file"; new_instance = 2 }),
    )
    ∷ []

abbrev one_route : SiteConfig ℕ
one_route = record {
  listeners = "a" ∷ [];
  hosts = [];
  routes =
      ("/", (record { middlewares = ("log", none) ∷ []; handler = ("file", some 0) ∷ [] })) ∷ [];
}

-- A provider whose certificate has no key.
abbrev keyless : RestOptions.RawConfig
keyless = record RestOptions.no_config { tls_cert_files = some ("cert.pem" ∷ []) }

init_panics_iff_example :
    (RestOptions.init x509 files (Maps.decoded keyless) ≡ none) ↔ LacksKeys x509 files keyless
init_panics_iff_example = init_panics_iff x509 files keyless
