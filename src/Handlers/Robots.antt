-- ===== src/Handlers/Robots.antt =====
-- pkg/modules/app/server/site/handlers/robots/robots.go. The execution of the template by
-- `text/template` is a parameter.
pub mod Laws
use neon_oss.Base.{
  ℕ, Bool, true, false, List, [], ◌∷◌, String, if◌then◌else◌, Option, none, Result, ok, err, ℤ,
  wrap, str_eq, ◌||◌, pos,
}
use neon_oss.Modules.Maps.{GivenMap, undecodable, decoded}
use neon_oss.Loader.{or_default, is_not_positive}
use neon_oss.Http.{Request, ResponseWriter}
use neon_oss.Handlers.Text.{TextHandler, TextState, serve}

-- The type `robotsHandlerConfig` as it is decoded.
pub record RawConfig : Type 0 where
  pub hosts : List String
  pub cache : Option Bool
  pub cache_ttl : Option ℤ
  pub sitemaps : List String

-- The same with the defaults filled in.
pub record Config : Type 0 where
  pub hosts : List String
  pub cache : Bool
  pub cache_ttl : ℤ
  pub sitemaps : List String

unfoldable pub fill : RawConfig → Config
fill c = record {
  hosts = c.hosts;
  cache = or_default c.cache false;
  cache_ttl = or_default c.cache_ttl (pos 60);
  sitemaps = c.sitemaps;
}

-- The loops over `Hosts` and `Sitemaps`: an item is empty.
unfoldable pub any_empty : List String → Bool
any_empty [] = false
any_empty (s ∷ more) = str_eq s "" || any_empty more

unfoldable pub option_errors : Config → Bool
unfolding any_empty
option_errors c = any_empty c.hosts || is_not_positive c.cache_ttl || any_empty c.sitemaps

init_config : RawConfig → Result Config
init_config raw = if option_errors (fill raw) then err "config" else ok (fill raw)

-- `Init`; the parsing of the fixed template does not fail.
unfoldable pub init : GivenMap RawConfig → Result Config
unfolding init_config fill option_errors
init (undecodable e) = wrap "parse config: " (err e)
init (decoded raw) = init_config raw

-- The loop over the hosts.
unfoldable pub check_host : List String → String → Bool → Bool
check_host [] host check = check
check_host (h ∷ more) host check = check_host more host (if str_eq h host then true else check)

module _ (execute : Bool → List String → List ℕ × Result (Unit {0})) where
  -- The handler with its `render`.
  unfoldable pub robots : Config → TextHandler Config
  unfolding check_host
  robots c = record {
    cache = c.cache;
    cache_ttl = c.cache_ttl;
    content_type = "text/plain; charset=utf-8";
    failure = "execute template: ";
    generate = λ r source. execute (check_host source.hosts r.host false) source.sitemaps;
  }

  -- `ServeHTTP`
  unfoldable pub serve_robots :
      Config → ℕ → ℕ → Request → ResponseWriter → TextState → ResponseWriter × TextState
  unfolding robots serve
  serve_robots c now later r w s = serve (robots c) c now later r w s
