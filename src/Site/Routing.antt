-- ===== src/Site/Routing.antt =====
-- What the router of a site gives for a route.
use neon_oss.Base.{
  not, ap, ◌∙◌, sym, true, Option-cases, ℕ, Bool, false, ◌&&◌, ◌||◌, Dict, List, [], ◌∷◌, String,
  Option, none, some, get, put, ◌≡◌, refl, arith, eq_iff, get-put, str_eq, if◌then◌else◌,
  Bool-cases, inl, inr,
}
use neon_oss.Strings.{has_prefix}
use neon_oss.Site.{
  patterns, build_router, mapped, root_base, add_root, Mediator, base_handler, route_handler,
  add_routes, continued,
}

-- The route is in the list.
abbrev pub is_member : String → List String → Bool
is_member route [] = false
is_member route (r ∷ more) = str_eq r route || is_member route more

-- A handler is registered.
abbrev pub has_root : {H : Type 0} → Option H → Bool
has_root none = false
has_root (some h) = true

continued-eq-some :
    {A B : Type 0} (o : Option A) (f : A → Option B) {b : B}
    → continued o f ≡ some b
    → (a : A) × (o ≡ some a) × (f a ≡ some b)
continued-eq-some none f h = absurd (cc h)
continued-eq-some (some a) f h = (a, refl, h)

module _ {H : Type 0} (dir : String → String) (site_middleware : H → H) (not_found : H) (fuel : ℕ)
    (m : Mediator H) where
  handler_of : String → Option H
  handler_of route =
      route_handler dir site_middleware not_found fuel m route
        (base_handler dir site_middleware not_found m route)

  abbrev adding : List String → Dict H → Option (Dict H)
  adding routes before = add_routes dir site_middleware not_found fuel m routes before

  add_routes_rooted :
      (r : String) (more : List String) (before : Dict H)
      → has_prefix r "/" ≡ true
      → adding (r ∷ more) before ≡ continued (handler_of r) (λ h. adding more (put r h before))
  unfolding add_routes handler_of
  add_routes_rooted r more before rooted = rw rooted refl

  add_routes_other :
      (r : String) (more : List String) (before : Dict H)
      → has_prefix r "/" ≡ false
      → adding (r ∷ more) before ≡ adding more before
  unfolding add_routes
  add_routes_other r more before other = rw other refl

  added_other :
      (r : String) (more : List String) (before after : Dict H) (route : String)
      → has_prefix r "/" ≡ false
      → get route after ≡ (
          if is_member route more && has_prefix route "/"
          then handler_of route
          else get route before)
      → get route after ≡ (
          if is_member route (r ∷ more) && has_prefix route "/"
          then handler_of route
          else get route before)
  added_other r more before after route other rest = elim (Bool-cases (str_eq r route)) [
    | inl same ↦
        let other' : has_prefix route "/" ≡ false =
          ap (λ x. has_prefix x "/") (sym ((eq_iff r route).0 same)) ∙ other in
        ground (arith, rest, same, other')
    | inr differs ↦ ground (arith, rest, differs)
  ]

  added_rooted :
      (r : String) (more : List String) (before after : Dict H) (route : String) (made : H)
      → has_prefix r "/" ≡ true
      → handler_of r ≡ some made
      → get route after ≡ (
          if is_member route more && has_prefix route "/"
          then handler_of route
          else get route (put r made before))
      → get route after ≡ (
          if is_member route (r ∷ more) && has_prefix route "/"
          then handler_of route
          else get route before)
  added_rooted r more before after route made rooted e rest = elim (Bool-cases (str_eq r route)) [
    | inl same ↦
        let eq : r ≡ route = (eq_iff r route).0 same in
        let rooted' : has_prefix route "/" ≡ true = ap (λ x. has_prefix x "/") (sym eq) ∙ rooted in
        let e' : handler_of route ≡ some made = ap handler_of (sym eq) ∙ e in
        let got : get route (put r made before) ≡ some made =
          ground (arith, get-put r route made before, same) in
        ground (arith, rest, same, rooted', e', got)
    | inr other ↦
        let got : get route (put r made before) ≡ get route before =
          ground (arith, get-put r route made before, other) in
        ground (arith, rest, other, got)
  ]

  -- The routes of the list that begin with a slash have their handler, the others what they had.
  get-add_routes :
      (routes : List String) (before after : Dict H) (route : String)
      → adding routes before ≡ some after
      → get route after ≡ (
          if is_member route routes && has_prefix route "/"
          then handler_of route
          else get route before)
  unfolding add_routes
  get-add_routes [] before after route h = ground (arith, h)
  get-add_routes (r ∷ more) before after route h = elim (Bool-cases (has_prefix r "/")) [
    | inl rooted ↦
        let (made, e, f) =
          continued-eq-some (handler_of r) _ (sym (add_routes_rooted r more before rooted) ∙ h) in
        let rest = get-add_routes more (put r made before) after route f in
        added_rooted r more before after route made rooted e rest
    | inr other ↦
        let rest =
          get-add_routes more before after route (sym (add_routes_other r more before other) ∙ h) in
        added_other r more before after route other rest
  ]

  root_handler : Option H
  root_handler =
      route_handler dir site_middleware not_found fuel m "/"
        (root_base dir site_middleware not_found m)

  mapped-eq-some :
      {A B : Type 0} (f : A → B) (o : Option A) {b : B}
      → mapped f o ≡ some b
      → (a : A) × (o ≡ some a) × (f a ≡ b)
  mapped-eq-some f none h = absurd (cc h)
  mapped-eq-some f (some a) h = (a, refl, cc h)

  abbrev rooting : Dict H → Option (Dict H)
  rooting before = add_root dir site_middleware not_found fuel m before

  root_kept :
      (before : Dict H) (own : H)
      → get "/" m.routes_handler ≡ some own
      → rooting before ≡ some before
  unfolding add_root
  root_kept before own has = rw (has, add_root) refl

  root_added :
      (before : Dict H)
      → get "/" m.routes_handler ≡ none
      → rooting before ≡ mapped (λ h. put "/" h before) root_handler
  unfolding add_root root_handler
  root_added before none_yet = rw (none_yet, add_root) refl

  -- What "/" leads to.
  get-add_root :
      (before after : Dict H) (route : String)
      → rooting before ≡ some after
      → get route after ≡ (
          if str_eq "/" route && not (has_root (get "/" m.routes_handler))
          then root_handler
          else get route before)
  get-add_root before after route h = elim (Option-cases (get "/" m.routes_handler)) [
    | inl none_yet ↦
        let (made, e, f) =
          mapped-eq-some (λ h'. put "/" h' before) root_handler
            (sym (root_added before none_yet) ∙ h) in
        ground (arith, none_yet, e, f, get-put "/" route made before)
    | inr (own, has) ↦
        let same : before ≡ after = cc (sym (root_kept before own has) ∙ h) in
        ground (arith, has, same)
  ]

-- The router of a site without hosts, when it is built, has for each route: at "/", without a
-- handler registered there, the default handler behind the middlewares of "/"; at a configured
-- route that begins with a slash, its own handler behind the middlewares that are found for it;
-- and nothing else.
pub build_router-get :
    {H : Type 0} (dir : String → String) (site_middleware : H → H) (not_found : H) (fuel : ℕ)
    (m : Mediator H) (routes : List String) (router : Dict H) (route : String)
    → build_router dir site_middleware not_found fuel [] routes m ≡ some router
    → get route router ≡ (
        if str_eq "/" route && not (has_root (get "/" m.routes_handler))
        then route_handler dir site_middleware not_found fuel m "/"
            (root_base dir site_middleware not_found m)
        else if is_member route routes && has_prefix route "/"
        then route_handler dir site_middleware not_found fuel m route
            (base_handler dir site_middleware not_found m route)
        else none)
unfolding build_router patterns handler_of root_handler get
build_router-get dir site_middleware not_found fuel m routes router route h =
    let (some_routes, e, f) =
      continued-eq-some (add_routes dir site_middleware not_found fuel m routes []) _ h in
    let (all, e', f') =
      continued-eq-some (add_root dir site_middleware not_found fuel m some_routes) _ f in
    let first = get-add_routes dir site_middleware not_found fuel m routes [] some_routes route e in
    let second = get-add_root dir site_middleware not_found fuel m some_routes all route e' in
    let same : all ≡ router = cc f' in ground (arith, first, second, same)
