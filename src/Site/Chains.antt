-- ===== src/Site/Chains.antt =====
-- What registering leaves in the mediator: the middlewares of a route in their order, and its
-- handler.
use mathlib.Core.Path.{subst}
use neon_oss.Base.{
  inr, get_absent, inl, Bool-cases, Dict, List, [], ◌∷◌, ◌++◌, String, Option, none, some, get, ◌≡◌,
  ◌≢◌, refl, ◌∙◌, sym, append_assoc, append-nil, arith, eq_iff, get-put, str_eq, if◌then◌else◌, ap,
  All, Distinct,
}
use neon_oss.Site.{
  Mediator, RouteState, new_mediator, or_none, register_middleware, register_middlewares,
  register_handler, register_handlers, register_route, register_routes,
}

module _ {H : Type 0} where
  -- The middlewares registered under a key.
  abbrev pub middlewares_at : String → Mediator H → List (H → H)
  middlewares_at route m =
      if str_eq route "default"
      then m.default_middlewares
      else or_none (get route m.routes_middlewares)

  middleware-at :
      (f : H → H) (m : Mediator H) (r : String)
      → middlewares_at r (register_middleware f m)
        ≡ (if str_eq m.current_route r then middlewares_at r m ++ f ∷ [] else middlewares_at r m)
  unfolding register_middleware
  middleware-at f m r = ground (
    arith,
    eq_iff m.current_route r,
    eq_iff m.current_route "default",
    eq_iff r "default",
    get-put m.current_route r (or_none (get m.current_route m.routes_middlewares) ++ f ∷ [])
        m.routes_middlewares,
  )

  middleware-route :
      (f : H → H) (m : Mediator H) → (register_middleware f m).current_route ≡ m.current_route
  unfolding register_middleware
  middleware-route f m = ground arith

  middlewares-at :
      (fs : List (H → H)) (m : Mediator H) (r : String)
      → middlewares_at r (register_middlewares fs m)
        ≡ (if str_eq m.current_route r then middlewares_at r m ++ fs else middlewares_at r m)
  unfolding register_middlewares
  middlewares-at [] m r = ground (arith, append-nil (middlewares_at r m))
  middlewares-at (f ∷ more) m r = ground (
    arith,
    middlewares-at more (register_middleware f m) r,
    middleware-at f m r,
    middleware-route f m,
    append_assoc (middlewares_at r m) (f ∷ []) more,
  )

  handlers-keep :
      (h : Option H) (m : Mediator H) (r : String)
      → middlewares_at r (register_handlers h m) ≡ middlewares_at r m
  unfolding register_handlers register_handler
  handlers-keep none m r = refl
  handlers-keep (some h) m r = ground arith

  route-at :
      (route : String) (s : RouteState H) (m : Mediator H) (r : String)
      → middlewares_at r (register_route route s m)
        ≡ (if str_eq route r then middlewares_at r m ++ s.middlewares else middlewares_at r m)
  unfolding register_route
  route-at route s m r =
      let m' = record m { current_route = route } in
      handlers-keep s.handler (register_middlewares s.middlewares m') r
      ∙ middlewares-at s.middlewares m' r

  -- The middlewares of a route's configuration; none for a route that is not configured.
  abbrev pub configured : Option (RouteState H) → List (H → H)
  configured none = []
  configured (some s) = s.middlewares

  routes-at :
      (routes : Dict (RouteState H)) (m : Mediator H) (r : String)
      → Distinct routes
      → middlewares_at r (register_routes routes m)
        ≡ middlewares_at r m ++ configured (get r routes)
  unfolding register_routes get
  routes-at [] m r d = sym (append-nil (middlewares_at r m))
  routes-at ((route, s) ∷ more) m r d = elim (Bool-cases (str_eq route r)) [
    | inl same ↦
        let absent : get r more ≡ none =
          get_absent r more (subst (λ x. All (λ e. x ≢ e.0) more) ((eq_iff route r).0 same) d.0) in
        ground (
          arith,
          routes-at more (register_route route s m) r d.1,
          route-at route s m r,
          same,
          absent,
          append-nil (middlewares_at r m ++ s.middlewares),
        )
    | inr other ↦
        ground (arith, routes-at more (register_route route s m) r d.1, route-at route s m r, other)
  ]

  new-at : (route : String) → middlewares_at route (new_mediator {H = H}) ≡ []
  unfolding get
  new-at route = ground arith

  -- After the registration of a site whose routes are distinct, each route has the middlewares
  -- that its own modules registered, in that order, and no other; so has the default route.
  pub register_routes-chains :
      (routes : Dict (RouteState H)) (route : String)
      → Distinct routes
      → middlewares_at route (register_routes routes new_mediator) ≡ configured (get route routes)
  register_routes-chains routes route d =
      routes-at routes new_mediator route d
      ∙ ap (λ l. l ++ configured (get route routes)) (new-at route)
