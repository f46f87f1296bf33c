-- ===== src/Site/Setup.antt =====
-- internal/app/neon/serversite.go, `newServerSite` and `Init`: the modules of a site's routes are made
-- out of the configuration. The modules' kinds and the registry are parameters, as in `Modules`.
pub mod Laws
use neon_oss.Base.{
  Bool, true, false, ◌||◌, Dict, put, List, [], ◌∷◌, ◌++◌, String, Option, none, some, Result, ok,
  err, wrap, if◌then◌else◌,
}
use neon_oss.Modules.{Given, missing, undecodable, decoded, Kind, load_module}
use neon_oss.Registry.{ModuleInfo}
use neon_oss.Server.{is_empty}

-- `serverSiteRouteConfig`
pub record RouteConfig (C : Type 0) : Type 0 where
  pub middlewares : Dict (Option C)
  pub handler : Dict (Option C)

-- `serverSiteConfig`
pub record SiteConfig (C : Type 0) : Type 0 where
  pub listeners : List String
  pub hosts : List String
  pub routes : Dict (RouteConfig C)

-- `serverSiteRouteState`
pub record RouteMade (M H : Type 0) : Type 0 where
  pub middlewares : Dict M
  pub handler : Option H

-- What `Init` writes of `serverSiteState`.
pub record SiteState (M H : Type 0) : Type 0 where
  pub listeners : List String
  pub hosts : List String
  pub default_site : Bool
  pub routes : List String
  pub routes_map : Dict (RouteMade M H)

-- `newServerSite`
abbrev pub new_site : {M H : Type 0} → SiteState M H
new_site = record { listeners = []; hosts = []; default_site = false; routes = []; routes_map = [] }

module _ {I M H C : Type 0} (middlewares : Kind I M C) (handlers : Kind I H C)
    (registry : Dict (ModuleInfo I)) where
  with_middleware : String → Result M → Bool × Dict M → Bool × Dict M
  with_middleware name (err e) (failed, made) = (true, made)
  with_middleware name (ok m) (failed, made) = (failed, put name m made)

  -- The loop over the middlewares of a route, which goes on after an error.
  unfoldable pub init_middlewares : Dict (Option C) → Bool × Dict M → Bool × Dict M
  unfolding with_middleware
  init_middlewares [] s = s
  init_middlewares ((name, config) ∷ more) s = init_middlewares more (
      with_middleware name
        (load_module middlewares registry "app.server.site.middleware." name config) s)

  with_handler : Result H → Bool × Option H
  with_handler (err e) = (true, none)
  with_handler (ok h) = (false, some h)

  -- The loop over the handlers of a route, which ends in its first turn.
  unfoldable pub init_handler : Dict (Option C) → Bool × Option H
  unfolding with_handler
  init_handler [] = (false, none)
  init_handler ((name, config) ∷ more) =
      with_handler (load_module handlers registry "app.server.site.handler." name config)

  -- The body of the loop over the routes.
  unfoldable pub init_route : String → RouteConfig C → Bool × SiteState M H → Bool × SiteState M H
  init_route route c (failed, s) =
      let (bad_middleware, made) = init_middlewares c.middlewares (false, []) in
      let (bad_handler, handler) = init_handler c.handler in
      (
        failed || bad_middleware || bad_handler,
        record s {
          routes = s.routes ++ route ∷ [];
          routes_map = put route (record { middlewares = made; handler = handler }) s.routes_map;
        },
      )

  -- The loop over the routes.
  unfoldable pub init_routes : Dict (RouteConfig C) → Bool × SiteState M H → Bool × SiteState M H
  init_routes [] s = s
  init_routes ((route, c) ∷ more) s = init_routes more (init_route route c s)

  finish : Bool × SiteState M H → Result (SiteState M H)
  finish (failed, s) = if failed then err "config" else ok s

  -- The state before the loop.
  begin : SiteConfig C → SiteState M H → SiteState M H
  begin c s = record s {
    listeners = s.listeners ++ c.listeners;
    hosts = s.hosts ++ c.hosts;
    default_site = s.default_site || is_empty (s.hosts ++ c.hosts);
  }

  -- `Init`
  unfoldable pub init : Given (SiteConfig C) → SiteState M H → Result (SiteState M H)
  unfolding finish begin
  init missing s = err "missing configuration"
  init (undecodable e) s = wrap "parse config: " (err e)
  init (decoded c) s = finish (init_routes c.routes (is_empty c.listeners, begin c s))
