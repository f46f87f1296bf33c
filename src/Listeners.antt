-- ===== src/Listeners.antt =====
-- pkg/modules/app/server/listener/listeners: what the listeners `local`, `redirect` and `tls` have in
-- common, in each of their files: the options, `Init`, `Register`, and the `http.Server` of `Serve`.
-- The listener `local` has nothing else. With the part of internal/app/neon/serverlistener.go that
-- keeps the sockets of a listener. `net.Listen` is a parameter.
pub mod Inherited
pub mod Redirect
pub mod Tls
use neon_oss.Base.{
  Bool, true, false, ◌||◌, List, [], ◌∷◌, ◌++◌, Dict, get, String, Option, none, some, Result, ok,
  err, wrap, ℤ, pos, pos_part, neg_part, ltb_int, if◌then◌else◌, ℕ, ◌*◌,
}
use neon_oss.Modules.Maps.{GivenMap, undecodable, decoded}
use neon_oss.Loader.{or_default}
use neon_oss.Strings.{◌+++◌, format_int}

-- The options that all listeners have, as they are decoded.
pub record RawOptions : Type 0 where
  pub listen_addr : Option String
  pub listen_port : Option ℤ
  pub read_timeout : Option ℤ
  pub read_header_timeout : Option ℤ
  pub write_timeout : Option ℤ
  pub idle_timeout : Option ℤ

-- The same with the defaults filled in.
pub record Options : Type 0 where
  pub listen_addr : String
  pub listen_port : ℤ
  pub read_timeout : ℤ
  pub read_header_timeout : ℤ
  pub write_timeout : ℤ
  pub idle_timeout : ℤ

abbrev pub no_options : RawOptions
no_options = record {
  listen_addr = none;
  listen_port = none;
  read_timeout = none;
  read_header_timeout = none;
  write_timeout = none;
  idle_timeout = none;
}

-- The defaults: the port is 80, and 443 for `tls`.
unfoldable pub fill : ℤ → RawOptions → Options
fill port c = record {
  listen_addr = or_default c.listen_addr "";
  listen_port = or_default c.listen_port port;
  read_timeout = or_default c.read_timeout (pos 60);
  read_header_timeout = or_default c.read_header_timeout (pos 10);
  write_timeout = or_default c.write_timeout (pos 60);
  idle_timeout = or_default c.idle_timeout (pos 60);
}

unfoldable pub option_errors : Options → Bool
option_errors c =
    ltb_int c.listen_port (pos 0)
    || ltb_int c.read_timeout (pos 0)
    || ltb_int c.read_header_timeout (pos 0)
    || ltb_int c.write_timeout (pos 0)
    || ltb_int c.idle_timeout (pos 0)

init_options : Options → Result Options
init_options c = if option_errors c then err "config" else ok c

-- `Init` of `local`.
unfoldable pub init : GivenMap RawOptions → Result Options
unfolding init_options fill option_errors
init (undecodable e) = wrap "parse config: " (err e)
init (decoded raw) = init_options (fill (pos 80) raw)

-- `fmt.Sprintf("%s:%d", *l.config.ListenAddr, *l.config.ListenPort)`
unfoldable pub address : Options → String
address c = c.listen_addr +++ ":" +++ format_int c.listen_port

-- The type `http.Server`, with its time limits in seconds.
pub record HttpServer (H : Type 0) : Type 0 where
  pub addr : String
  pub handler : H
  pub read_timeout : ℤ
  pub read_header_timeout : ℤ
  pub write_timeout : ℤ
  pub idle_timeout : ℤ
  pub disable_general_options_handler : Bool

-- The server that `Serve` makes.
unfoldable pub new_http_server : {H : Type 0} → Options → H → HttpServer H
new_http_server c handler = record {
  addr = address c;
  handler = handler;
  read_timeout = c.read_timeout;
  read_header_timeout = c.read_header_timeout;
  write_timeout = c.write_timeout;
  idle_timeout = c.idle_timeout;
  disable_general_options_handler = true;
}

-- `serverListenerMediator`: the sockets that the application has for the listener's name, and those
-- that the listener has registered.
pub record Mediator (L : Type 0) : Type 0 where
  pub inherited : List L
  pub listeners : List L

-- `m.app.Listeners()[m.listener.name]`, which is nil for a missing name.
abbrev pub or_nil : {L : Type 0} → Option (List L) → List L
or_nil none = []
or_nil (some ls) = ls

unfoldable pub new_mediator : {L : Type 0} → String → Dict (List L) → Mediator L
new_mediator name app_listeners = record {
  inherited = or_nil (get name app_listeners);
  listeners = [];
}

unfoldable pub register_listener : {L : Type 0} → L → Mediator L → Mediator L
register_listener l m = record m { listeners = m.listeners ++ l ∷ [] }

module _ {L : Type 0} (listen : String → String → Result L) where
  -- A socket that `net.Listen` opened.
  unfoldable pub opened : Result L → Mediator L → Result L × Mediator L
  unfolding register_listener
  opened (err e) m = (err ("listen: " +++ e), m)
  opened (ok l) m = (ok l, register_listener l m)

  -- `len(listeners) == 1`
  unfoldable pub held : List L → Options → Mediator L → Result L × Mediator L
  unfolding opened
  held [] c m = opened (listen "tcp" (address c)) m
  held (l ∷ []) c m = (ok l, m)
  held (l ∷ l' ∷ more) c m = opened (listen "tcp" (address c)) m

  -- `Register`, with the socket that it leaves in the field `listener`.
  unfoldable pub register : Options → Mediator L → Result L × Mediator L
  unfolding held
  register c m = held m.inherited c m

-- `Listeners` of the listener, for the application that hands its sockets on: an error until
-- `Register` has succeeded.
unfoldable pub passed_on : {L : Type 0} → Option (Mediator L) → Result (List L)
passed_on none = err "listener not ready"
passed_on (some m) = ok m.listeners

-- `Register` of internal/app/neon/serverlistener.go: the mediator is kept where the module's own
-- `Register` succeeds.
unfoldable pub kept : {L : Type 0} → Result L × Mediator L → Result (Unit {0}) × Option (Mediator L)
kept (err e, m) = (err ("register listener: " +++ e), none)
kept (ok l, m) = (ok tt, some m)

-- `Shutdown` and `Close`, with what the `http.Server` answers.
unfoldable pub shutdown : Result (Unit {0}) → Result (Unit {0})
shutdown (err e) = err ("shutdown listener: " +++ e)
shutdown (ok u) = ok tt

unfoldable pub close : Result (Unit {0}) → Result (Unit {0})
close (err e) = err ("close listener: " +++ e)
close (ok u) = ok tt
