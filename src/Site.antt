-- ===== src/Site.antt =====
-- internal/app/neon/serversite.go: the mediator with which the modules of a site register, and the
-- router that is built from what they registered. `http.Handler` is a type parameter; a
-- middleware is a function on handlers. `path.Dir` and the site's own middleware are parameters.
pub mod Chains
pub mod Guard
pub mod Life
pub mod Setup
pub mod Routing
pub mod Nearest
use neon_oss.Base.{
  ℕ, zero, suc, Bool, true, false, Dict, List, [], ◌∷◌, ◌++◌, String, Option, none, some, Result,
  ok, err, get, put, str_eq, if◌then◌else◌, wrap, ◌>>=◌,
}
use neon_oss.Strings.{◌+++◌, has_prefix}

-- The type `serverSiteMediator`, its maps nil or empty alike.
pub record Mediator (H : Type 0) : Type 0 where
  pub current_route : String
  pub default_middlewares : List (H → H)
  pub default_handler : Option H
  pub routes_middlewares : Dict (List (H → H))
  pub routes_handler : Dict H

-- What one route's modules register, in the order of the loop in `Register`; a module's own
-- `Register` calls the mediator's method.
pub record RouteState (H : Type 0) : Type 0 where
  pub middlewares : List (H → H)
  pub handler : Option H

-- A missing key reads as the nil slice.
abbrev pub or_none : {A : Type 0} → Option (List A) → List A
or_none none = []
or_none (some l) = l

abbrev pub mapped : {A B : Type 0} → (A → B) → Option A → Option B
mapped f none = none
mapped f (some a) = some (f a)

abbrev pub continued : {A B : Type 0} → Option A → (A → Option B) → Option B
continued none f = none
continued (some a) f = f a

module _ {H : Type 0} where
  -- `newServerSiteMediator`
  abbrev pub new_mediator : Mediator H
  new_mediator = record {
    current_route = "";
    default_middlewares = [];
    default_handler = none;
    routes_middlewares = [];
    routes_handler = [];
  }

  -- `RegisterMiddleware`
  unfoldable pub register_middleware : (H → H) → Mediator H → Mediator H
  register_middleware f m =
      if str_eq m.current_route "default"
      then record m { default_middlewares = m.default_middlewares ++ f ∷ [] }
      else (record m {
        routes_middlewares =
            put m.current_route (or_none (get m.current_route m.routes_middlewares) ++ f ∷ [])
              m.routes_middlewares;
      })

  or_first : Option H → H → H
  or_first none h = h
  or_first (some first) h = first

  -- `RegisterHandler`: a route keeps its first handler, the default route takes the last.
  unfoldable pub register_handler : H → Mediator H → Mediator H
  unfolding or_first
  register_handler h m =
      if str_eq m.current_route "default"
      then record m { default_handler = some h }
      else (record m {
        routes_handler =
            put m.current_route (or_first (get m.current_route m.routes_handler) h)
              m.routes_handler;
      })

  unfoldable pub register_middlewares : List (H → H) → Mediator H → Mediator H
  unfolding register_middleware
  register_middlewares [] m = m
  register_middlewares (f ∷ more) m = register_middlewares more (register_middleware f m)

  register_handlers : Option H → Mediator H → Mediator H
  register_handlers none m = m
  register_handlers (some h) m = register_handler h m

  -- The body of the loop over the routes in `Register`.
  unfoldable pub register_route : String → RouteState H → Mediator H → Mediator H
  unfolding register_middlewares register_handlers register_handler
  register_route route s m =
      register_handlers s.handler
        (register_middlewares s.middlewares (record m { current_route = route }))

  -- The loop over the routes in `Register`.
  unfoldable pub register_routes : Dict (RouteState H) → Mediator H → Mediator H
  unfolding register_route
  register_routes [] m = m
  register_routes ((route, s) ∷ more) m = register_routes more (register_route route s m)

  -- `for i := len(m) - 1; i >= 0; i-- { handler = m[i](handler) }`: the first is the outermost.
  unfoldable pub through : List (H → H) → H → H
  through [] h = h
  through (f ∷ more) h = f (through more h)

  module _ (dir : String → String) where
    -- `findRouteMiddlewares`; `none` means that the fuel ran out.
    unfoldable pub find_middlewares : ℕ → Mediator H → String → Option (List (H → H))
    find_middlewares zero m route = none
    find_middlewares (suc fuel) m route = elim (get route m.routes_middlewares) [
      | some found ↦ some found
      | none ↦
          let up = find_middlewares fuel m (dir route) in
          if str_eq route "/" then some m.default_middlewares else up
    ]

    module _ (site_middleware : H → H) (not_found : H) where
      -- The handler of a route without its middlewares.
      unfoldable pub base_handler : Mediator H → String → H
      base_handler m route = elim (get route m.routes_handler) [ some h ↦ h | none ↦ not_found ]

      -- The handler of a route.
      unfoldable pub route_handler : ℕ → Mediator H → String → H → Option H
      route_handler fuel m route base =
          mapped (λ middlewares. site_middleware (through middlewares base))
            (find_middlewares fuel m route)

      -- The loop over the routes in `buildRouter`.
      unfoldable pub add_routes : ℕ → Mediator H → List String → Dict H → Option (Dict H)
      add_routes fuel m [] routes = some routes
      add_routes fuel m (route ∷ more) routes =
          if has_prefix route "/"
          then (continued (route_handler fuel m route (base_handler m route))
              λ h. add_routes fuel m more (put route h routes))
          else add_routes fuel m more routes

      -- The handler of "/" where none is registered for it.
      unfoldable pub root_base : Mediator H → H
      root_base m = elim m.default_handler [ some h ↦ h | none ↦ not_found ]

      -- The route "/" that is added when no handler is registered for it.
      unfoldable pub add_root : ℕ → Mediator H → Dict H → Option (Dict H)
      add_root fuel m routes = elim (get "/" m.routes_handler) [
        | some h ↦ some routes
        | none ↦ mapped (λ h. put "/" h routes) (route_handler fuel m "/" (root_base m))
      ]

      with_host : String → Dict H → Dict H → Dict H
      with_host name [] router = router
      with_host name ((route, h) ∷ more) router =
          with_host name more (put (name +++ route) h router)

      with_hosts : List String → Dict H → Dict H → Dict H
      with_hosts [] routes router = router
      with_hosts (name ∷ more) routes router = with_hosts more routes (with_host name routes router)

      -- The patterns of the router: every host before every route, or the routes alone.
      unfoldable pub patterns : List String → Dict H → Dict H
      unfolding with_host with_hosts
      patterns [] routes = routes
      patterns (name ∷ more) routes = with_hosts (name ∷ more) routes []

      -- `buildRouter`
      unfoldable pub build_router : ℕ → List String → List String → Mediator H → Option (Dict H)
      unfolding add_routes add_root patterns
      build_router fuel hosts routes m =
          continued (add_routes fuel m routes [])
            λ added. continued (add_root fuel m added) λ all. some (patterns hosts all)
