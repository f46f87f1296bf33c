-- ===== src/Listener/Unlinking.antt =====
-- What the router of a listener still holds after a site was unlinked.
use mathlib.Core.Path.{subst}
use neon_oss.Base.{
  Bool-cases, Option-cases, ◌∙◌, sym, ap, eq_iff, get-put, get-delete, str_eq, arith, ◌≡◌, ◌⊎◌,
  refl, All, Any, Dict, List, [], ◌∷◌, String, Option, none, some, ok, get, put, delete, wrap, inl,
  inr, if◌then◌else◌, >>=-eq-ok,
}
use neon_oss.Listener.{
  Site, ListenerState, handle_all, new_router, routers_of, update_router, unlink,
}
use neon_oss.Listener.Mux.{handle_free, handle_taken, router_step, some-eq}
use neon_oss.Listener.Laws.{
  IsServed, update_router-routers, update_router-IsServed, failing-eq-ok, ok-eq, wrap-eq-ok,
}

module _ {H : Type 0} where
  -- Some routes have the pattern with the handler.
  abbrev pub Has : String → H → Dict H → Type 0
  Has p h routes = Any (λ e. (e.0 ≡ p) × (e.1 ≡ h)) routes

  -- The site is ready, and its router has the pattern with the handler.
  pub record Offers (p : String) (h : H) (site : Site H) : Type 0 where
    pub routes : Dict H
    pub ready : site.router ≡ ok routes
    pub has : Has p h routes

  -- A value that is there satisfies the predicate.
  abbrev pub WhenSome : (H → Type 0) → Option H → Type 0
  WhenSome P none = Unit
  WhenSome P (some h) = P h

  when_some : (P : H → Type 0) (o : Option H) → ((h : H) → o ≡ some h → P h) → WhenSome P o
  when_some P none f = tt
  when_some P (some h) f = f h refl

  put-only :
      (p q : String) (h k : H) (more mux : Dict H)
      → get p (put q k mux) ≡ some h
      → (get p mux ≡ some h) ⊎ Has p h ((q, k) ∷ more)
  put-only p q h k more mux at = elim (Bool-cases (str_eq q p)) [
    | inl same ↦
        let e : some k ≡ some h = ground (arith, get-put q p k mux, same, at) in
        inr (inl ((eq_iff q p).0 same, some-eq k h e))
    | inr other ↦ inl (ground (arith, get-put q p k mux, other, at))
  ]

  handled_none : (mux after : Dict H) → handle_all [] mux ≡ some after → mux ≡ after
  unfolding handle_all
  handled_none mux after e = some-eq mux after e

  routed_none : (mux after : Dict H) → new_router [] mux ≡ some after → mux ≡ after
  unfolding new_router
  routed_none mux after e = some-eq mux after e

  handle_all-only :
      (routes mux after : Dict H) (p : String) (h : H)
      → handle_all routes mux ≡ some after
      → get p after ≡ some h
      → (get p mux ≡ some h) ⊎ Has p h routes
  handle_all-only [] mux after p h e at = inl (ap (get p) (handled_none mux after e) ∙ at)
  handle_all-only ((q, k) ∷ more) mux after p h e at = elim (Option-cases (get q mux)) [
    | inl free ↦
        elim (handle_all-only more (put q k mux) after p h (sym (handle_free q k more mux free) ∙ e)
          at) [ inl before ↦ put-only p q h k more mux before | inr later ↦ inr (inr later) ]
    | inr (taken, is) ↦ absurd (cc (handle_taken q k taken more mux is, e))
  ]

  new_router-only :
      (routers : List (Dict H)) (mux after : Dict H) (p : String) (h : H)
      → new_router routers mux ≡ some after
      → get p after ≡ some h
      → (get p mux ≡ some h) ⊎ Any (Has p h) routers
  new_router-only [] mux after p h e at = inl (ap (get p) (routed_none mux after e) ∙ at)
  new_router-only (routes ∷ more) mux after p h e at =
      let (mid, f, g) = router_step routes more mux after e in
      elim (new_router-only more mid after p h g at) [
        | inr later ↦ inr (inr later)
        | inl here ↦ elim (handle_all-only routes mux mid p h f here) [
          | inl before ↦ inl before
          | inr has ↦ inr (inl has)
        ]
      ]

  no_routers : (routers : List (Dict H)) → routers_of {H = H} [] ≡ ok routers → [] ≡ routers
  unfolding routers_of
  no_routers routers e = ok-eq [] routers e

  more_routers :
      (name : String) (site : Site H) (more : Dict (Site H)) (routers : List (Dict H))
      → routers_of ((name, site) ∷ more) ≡ ok routers
      → (router : Dict H) × (rest : List (Dict H)) × (site.router ≡ ok router)
        × (routers_of more ≡ ok rest)
        × (routers ≡ router ∷ rest)
  unfolding routers_of
  more_routers name site more routers e =
      let (router, e1, f) = >>=-eq-ok (wrap "get router: " site.router) _ e in
      let (rest, e2, g) = >>=-eq-ok (routers_of more) _ f in
      (
        router,
        rest,
        wrap-eq-ok "get router: " site.router e1,
        e2,
        sym (ok-eq (router ∷ rest) routers g),
      )

  routers_of-Offers :
      (sites : Dict (Site H)) (routers : List (Dict H)) (p : String) (h : H)
      → routers_of sites ≡ ok routers
      → Any (Has p h) routers
      → Any (λ e. Offers p h e.1) sites
  routers_of-Offers [] routers p h e any = subst (Any (Has p h)) (sym (no_routers routers e)) any
  routers_of-Offers ((name, site) ∷ more) routers p h e any =
      let (router, rest, ready, f, eq) = more_routers name site more routers e in
      elim (subst (Any (Has p h)) eq any) [
        | inl has ↦ inl (record { routes = router; ready = ready; has = has })
        | inr later ↦ inr (routers_of-Offers more rest p h f later)
      ]

  none_before : (p : String) (h : H) → get p [] ≡ some h → ⊥
  unfolding get
  none_before p h e = absurd (cc e)

  -- When `Unlink` succeeds, the listener has forgotten the site and no other; its router serves
  -- every route of every site that it still knows, each by the handler of its own site; and every
  -- route of the router comes from such a site.
  pub unlink-IsServed :
      (site : Site H) (s s' : ListenerState H)
      → unlink site s ≡ some (ok tt, s')
      → ((name : String)
          → get name s'.sites ≡ (if str_eq site.name name then none else get name s.sites))
        × (mux : Dict H) × (s'.router ≡ some mux)
        × All (λ e. IsServed mux e.1) s'.sites
        × ((p : String) → WhenSome (λ h. Any (λ e. Offers p h e.1) s'.sites) (get p mux))
  unfolding unlink
  unlink-IsServed site s s' done =
      let before : ListenerState H = record s { sites = delete site.name s.sites } in
      let (routers, mux, r, f, e) =
        update_router-routers before s'
          (failing-eq-ok "unlink site: " (update_router before) s' done) in
      let kept : s'.sites ≡ before.sites = ap (λ x. x.sites) e in
      (
        λ name. ap (get name) kept ∙ get-delete site.name name s.sites,
        mux,
        ap (λ x. x.router) e,
        subst (All (λ e. IsServed mux e.1)) (sym kept)
            (update_router-IsServed before routers mux r f),
        λ p.
            when_some (λ h. Any (λ e. Offers p h e.1) s'.sites) (get p mux)
              λ h at.
                subst (Any (λ e. Offers p h e.1)) (sym kept)
                  (elim (new_router-only routers [] mux p h f at) [
                    | inl nothing ↦ absurd (none_before p h nothing)
                    | inr any ↦ routers_of-Offers before.sites routers p h r any
                  ]),
      )
