-- ===== src/Site/Setup/Laws.antt =====
-- When a site accepts its configuration, and what it has made then.
use neon_oss.Base.{true, Dict, [], ◌∷◌, String, Option, is_ok, All, ◌≡◌}
use neon_oss.Modules.{Kind, load_module}
use neon_oss.Registry.{ModuleInfo}
use neon_oss.Site.Setup.{RouteConfig}

module _ {I M H C : Type 0} (middlewares : Kind I M C) (handlers : Kind I H C)
    (registry : Dict (ModuleInfo I)) where
  -- The module of the middleware is registered, is one, and accepts its options.
  pub MiddlewareLoads : String × Option C → Type 0
  MiddlewareLoads e =
      is_ok (load_module middlewares registry "app.server.site.middleware." e.0 e.1) ≡ true

  -- There is no handler, or the one that the map gives first loads.
  abbrev pub HandlerLoads : Dict (Option C) → Type 0
  HandlerLoads [] = Unit
  HandlerLoads (e ∷ more) =
      is_ok (load_module handlers registry "app.server.site.handler." e.0 e.1) ≡ true

  pub RouteLoads : String × RouteConfig C → Type 0
  RouteLoads r = All MiddlewareLoads r.1.middlewares × HandlerLoads r.1.handler
