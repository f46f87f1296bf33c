-- ===== src/Listeners/Redirect.antt =====
-- pkg/modules/app/server/listener/listeners/redirect/redirect.go: the listener that sends its clients
-- to HTTPS, with what it uses of Go's package `net` for a host and its port.
pub mod Target
use Prim.Native.Char.{Char, code}
use neon_oss.Base.{
  Bool, true, false, ◌||◌, ◌&&◌, ◌==◌, str_eq, String, Option, none, some, Result, ok, err, wrap, ℤ,
  pos, ltb_int, if◌then◌else◌, ℕ,
}
use neon_oss.Modules.Maps.{GivenMap, undecodable, decoded}
use neon_oss.Strings.{◌+++◌, format_int}
use neon_oss.Listeners
use neon_oss.Listeners.{
  Mediator, RawOptions, Options, HttpServer, no_options, fill, option_errors, new_http_server,
}

-- The type `redirectListenerConfig`: the options of all listeners, and `RedirectPort`.
pub record RawConfig : Type 0 where
  pub options : RawOptions
  pub redirect_port : Option ℤ

pub record Config : Type 0 where
  pub options : Options
  pub redirect_port : Option ℤ

unfoldable pub port_errors : Option ℤ → Bool
port_errors none = false
port_errors (some port) = ltb_int port (pos 0)

init_config : RawConfig → Result Config
init_config raw =
    let options = fill (pos 80) raw.options in
    if option_errors options || port_errors raw.redirect_port
    then err "config"
    else ok (record { options = options; redirect_port = raw.redirect_port })

-- `Init`
unfoldable pub init : GivenMap RawConfig → Result Config
unfolding init_config port_errors option_errors fill
init (undecodable e) = wrap "parse config: " (err e)
init (decoded raw) = init_config raw

-- Whether a text has the character.
unfoldable pub has_char : ℕ → String → Bool
has_char sep String.[] = false
has_char sep (String.◌∷◌ c s) = code c == sep || has_char sep s

-- A text before and after the first such character.
unfoldable pub cut_first : ℕ → String → Option (String × String)
cut_first sep String.[] = none
cut_first sep (String.◌∷◌ c s) =
    let rest = cut_first sep s in
    if code c == sep
    then some ("", s)
    else elim rest [ none ↦ none | some (before, later) ↦ some (String.◌∷◌ c before, later) ]

-- A text before and after the last such character.
unfoldable pub cut_last : ℕ → String → Option (String × String)
cut_last sep String.[] = none
cut_last sep (String.◌∷◌ c s) = elim (cut_last sep s) [
  | none ↦ if code c == sep then some ("", s) else none
  | some (before, later) ↦ some (String.◌∷◌ c before, later)
]

-- No bracket where none may stand.
unbracketed : String → String → String × String → Result (String × String)
unbracketed no_open no_close found =
    if has_char b'[' no_open
    then err "unexpected '[' in address"
    else if has_char b']' no_close
    then err "unexpected ']' in address"
    else ok found

-- A host in brackets: `host` stands between them, and `later` after them.
after_bracket : String → String → Result (String × String)
after_bracket host String.[] = err "missing port in address"
after_bracket host (String.◌∷◌ c port) =
    if code c == b':'
    then if has_char b':' port
      then err "too many colons in address"
      else unbracketed (host +++ port) port (host, port)
    else err "missing port in address"

bracketed : Option (String × String) → Result (String × String)
bracketed none = err "missing ']' in address"
bracketed (some (host, later)) = after_bracket host later

plain : String → String × String → Result (String × String)
plain hostport (host, port) =
    if has_char b':' host
    then err "too many colons in address"
    else unbracketed hostport hostport (host, port)

with_colon : String → String × String → Result (String × String)
with_colon String.[] found = plain "" found
with_colon (String.◌∷◌ c s) found =
    if code c == b'[' then bracketed (cut_first b']' s) else plain (String.◌∷◌ c s) found

from_last : String → Option (String × String) → Result (String × String)
from_last hostport none = err "missing port in address"
from_last hostport (some found) = with_colon hostport found

-- `net.SplitHostPort`
unfoldable pub split_host_port : String → Result (String × String)
unfolding from_last with_colon bracketed after_bracket plain unbracketed
split_host_port hostport = from_last hostport (cut_last b':' hostport)

-- `net.JoinHostPort`
unfoldable pub join_host_port : String → String → String
join_host_port host port =
    if has_char b':' host then "[" +++ host +++ "]:" +++ port else host +++ ":" +++ port

-- The parts of a request that the handler reads: `r.URL.RequestURI()` is given.
pub record Request : Type 0 where
  pub method : String
  pub host : String
  pub request_uri : String

-- The call that answers: `http.Error` with a text, or `http.Redirect` to a target.
pub data Answer : Type 0 where
  http_error : String → ℕ → Answer
  http_redirect : String → ℕ → Answer

host_of : String → Result (String × String) → String
host_of hostport (err e) = hostport
host_of hostport (ok (host, port)) = host

target : Option ℤ → String → String → String
target none host uri = "https://" +++ host +++ uri
target (some port) host uri = "https://" +++ join_host_port host (format_int port) +++ uri

-- `redirectHandler`
unfoldable pub redirect_handler : Config → Request → Answer
unfolding host_of target
redirect_handler c r =
    if str_eq r.method "GET" || str_eq r.method "HEAD"
    then http_redirect
        (target c.redirect_port (host_of r.host (split_host_port r.host)) r.request_uri) 302
    else http_error "Use HTTPS" 400

-- The server of `Serve`: the handler that `Serve` is given is not used.
unfoldable pub serve : {H : Type 0} → Config → H → HttpServer (Request → Answer)
serve c handler = new_http_server c.options (redirect_handler c)

-- `Register`, which is that of all listeners.
unfoldable pub register :
    {L : Type 0} → (String → String → Result L) → Config → Mediator L → Result L × Mediator L
register listen c m = Listeners.register listen c.options m
