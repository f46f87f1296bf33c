-- ===== src/Site/Life.antt =====
-- internal/app/neon/serversite.go, `Start` and `Stop`: the modules of a site's routes. A map of
-- middlewares is given as the list of its values in the order of the loop.
use neon_oss.Base.{Dict, get, List, [], ◌∷◌, ◌++◌, map, String, Option, none, some, Result}
use neon_oss.Exec.{Exec, pure, ◌>>◌}
use neon_oss.Calls.{Run, call, call_each, each}
use neon_oss.Calls.Order.{
  InOrder, InOrder-call, InOrder-pure, InOrder-call_each, InOrder-each, InOrder->>, joined,
}

-- The type `serverSiteRouteState`.
pub record RouteModules (M H : Type 0) : Type 0 where
  pub middlewares : List M
  pub handler : Option H

pub data SiteCall (M H : Type 0) : Type 0 where
  start_middleware : M → SiteCall M H
  start_handler : H → SiteCall M H
  stop_middleware : M → SiteCall M H
  stop_handler : H → SiteCall M H

-- `s.state.routesMap[route]`, which is the empty state for a missing route.
abbrev pub or_no_modules : {M H : Type 0} → Option (RouteModules M H) → RouteModules M H
or_no_modules none = record { middlewares = []; handler = none }
or_no_modules (some r) = r

module _ {W M H : Type 0} (perform : SiteCall M H → W → Result (Unit {0}) × W)
    (routes_map : Dict (RouteModules M H)) where
  -- The call of a route's handler, where there is one.
  unfoldable pub call_handler :
      (H → SiteCall M H) → String → Option H → Exec (Run W (SiteCall M H)) (Unit {0})
  call_handler of prefix none = pure tt
  call_handler of prefix (some h) = call perform (of h) prefix

  start_route : String → Exec (Run W (SiteCall M H)) (Unit {0})
  start_route route =
      let r = or_no_modules (get route routes_map) in
      call_each perform start_middleware (λ m. "start middleware: ") r.middlewares
      >> call_handler start_handler "start handler: " r.handler

  -- `Start`
  unfoldable pub start : List String → Exec (Run W (SiteCall M H)) (Unit {0})
  unfolding start_route
  start routes = each perform start_route routes

  stop_route : String → Exec (Run W (SiteCall M H)) (Unit {0})
  stop_route route =
      let r = or_no_modules (get route routes_map) in
      call_each perform stop_middleware (λ m. "stop middleware: ") r.middlewares
      >> call_handler stop_handler "stop handler: " r.handler

  -- `Stop`
  unfoldable pub stop : List String → Exec (Run W (SiteCall M H)) (Unit {0})
  unfolding stop_route
  stop routes = each perform stop_route routes

  -- The calls for a handler, where there is one.
  abbrev pub one_of : (H → SiteCall M H) → Option H → List (SiteCall M H)
  one_of of none = []
  one_of of (some h) = of h ∷ []

  -- What is started for a route: its middlewares, and then its handler.
  abbrev pub starts : String → List (SiteCall M H)
  starts route =
      let r = or_no_modules (get route routes_map) in
      map start_middleware r.middlewares ++ one_of start_handler r.handler

  abbrev pub stops : String → List (SiteCall M H)
  stops route =
      let r = or_no_modules (get route routes_map) in
      map stop_middleware r.middlewares ++ one_of stop_handler r.handler

  call_handler-InOrder :
      (of : H → SiteCall M H) (prefix : String) (h : Option H)
      → InOrder perform (one_of of h) (call_handler of prefix h)
  unfolding call_handler
  call_handler-InOrder of prefix none = InOrder-pure perform
  call_handler-InOrder of prefix (some h) = InOrder-call perform (of h) prefix

  -- `Start` starts the modules of the routes in their order, and `Stop` stops them in the same order;
  -- each ends with the error of the first call that fails, and makes no call after it.
  pub start-stop :
      (routes : List String)
      → InOrder perform (joined perform starts routes) (start routes)
        × InOrder perform (joined perform stops routes) (stop routes)
  unfolding start stop start_route stop_route
  start-stop routes = (
    InOrder-each perform starts start_route routes λ route.
        InOrder->> perform _ _ _ _ (InOrder-call_each perform start_middleware _ _)
          (call_handler-InOrder start_handler _ _),
    InOrder-each perform stops stop_route routes λ route.
        InOrder->> perform _ _ _ _ (InOrder-call_each perform stop_middleware _ _)
          (call_handler-InOrder stop_handler _ _),
  )
