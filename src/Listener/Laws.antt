-- ===== src/Listener/Laws.antt =====
-- What the router of a listener holds after a site was linked.
use mathlib.Core.Path.{subst}
use neon_oss.Base.{
  Result-cases, Bool-cases, sym, ap, str_eq, ◌≡◌, refl, All, Dict, List, [], ◌∷◌, String, Option,
  none, some, Result, ok, err, put, wrap, Option-cases, inl, inr, >>=-eq-ok, true, false,
}
use neon_oss.Listener.{
  Site, ListenerState, new_router, routers_of, routed, collected, update_router, failing, link,
}
use neon_oss.Listener.Mux.{Serves, new_router-Serves}

pub ok-eq : {A : Type 0} (a b : A) → ok a ≡ ok b → a ≡ b
ok-eq a b e = cc e

pub wrap-eq-ok :
    {A : Type 0} (prefix : String) (r : Result A) {a : A} → wrap prefix r ≡ ok a → r ≡ ok a
wrap-eq-ok prefix (ok b) h = h
wrap-eq-ok prefix (err e) h = absurd (cc h)

module _ {H : Type 0} where
  -- The site is ready, and the multiplexer has its routes.
  pub record IsServed (mux : Dict H) (site : Site H) : Type 0 where
    pub routes : Dict H
    pub ready : site.router ≡ ok routes
    pub served : Serves mux routes

  routers_of-IsServed :
      (sites : Dict (Site H)) (routers : List (Dict H)) (mux : Dict H)
      → routers_of sites ≡ ok routers
      → All (Serves mux) routers
      → All (λ e. IsServed mux e.1) sites
  unfolding routers_of
  routers_of-IsServed [] routers mux e s = tt
  routers_of-IsServed ((name, site) ∷ more) routers mux e s =
      let (router, e1, f) = >>=-eq-ok (wrap "get router: " site.router) _ e in
      let (rest, e2, g) = >>=-eq-ok (routers_of more) _ f in
      let parts : All (Serves mux) (router ∷ rest) =
        subst (All (Serves mux)) (sym (ok-eq (router ∷ rest) routers g)) s in
      (
        record {
          routes = router;
          ready = wrap-eq-ok "get router: " site.router e1;
          served = parts.0;
        },
        routers_of-IsServed more rest mux e2 parts.1,
      )

  put_same :
      (j name : String) (site other : Site H) (more : Dict (Site H))
      → str_eq j name ≡ true
      → put name site ((j, other) ∷ more) ≡ (name, site) ∷ more
  unfolding put
  put_same j name site other more same = rw same refl

  put_other :
      (j name : String) (site other : Site H) (more : Dict (Site H))
      → str_eq j name ≡ false
      → put name site ((j, other) ∷ more) ≡ (j, other) ∷ put name site more
  unfolding put
  put_other j name site other more differs = rw differs refl

  update_done :
      (s : ListenerState H) (routers : List (Dict H)) (mux : Dict H)
      → routers_of s.sites ≡ ok routers
      → new_router routers [] ≡ some mux
      → update_router s ≡ some (ok tt, record s { router = some mux })
  unfolding update_router collected routed
  update_done s routers mux e f = rw (e, f) refl

  update_panics :
      (s : ListenerState H) (routers : List (Dict H))
      → routers_of s.sites ≡ ok routers
      → new_router routers [] ≡ none
      → update_router s ≡ none
  unfolding update_router collected routed
  update_panics s routers e f = rw (e, f) refl

  update_fails :
      (s : ListenerState H) (x : String)
      → routers_of s.sites ≡ err x
      → update_router s ≡ some (err x, s)
  unfolding update_router collected
  update_fails s x e = rw e refl

  All-put_self :
      (P : Site H → Type 0) (name : String) (site : Site H) (sites : Dict (Site H))
      → All (λ e. P e.1) (put name site sites)
      → P site
  unfolding put
  All-put_self P name site [] all = all.0
  All-put_self P name site ((j, other) ∷ more) all = elim (Bool-cases (str_eq j name)) [
    | inl same ↦ (subst (All (λ e. P e.1)) (put_same j name site other more same) all).0
    | inr differs ↦
        All-put_self P name site more
          (subst (All (λ e. P e.1)) (put_other j name site other more differs) all).1
  ]

  pub update_router-routers :
      (s s' : ListenerState H)
      → update_router s ≡ some (ok tt, s')
      → (routers : List (Dict H)) × (mux : Dict H) × (routers_of s.sites ≡ ok routers)
        × (new_router routers [] ≡ some mux)
        × (s' ≡ record s { router = some mux })
  unfolding update_router
  update_router-routers s s' h = elim (Result-cases (routers_of s.sites)) [
    | inl (routers, e) ↦ elim (Option-cases (new_router routers [])) [
      | inr (mux, f) ↦ (routers, mux, e, f, cc (update_done s routers mux e f, h))
      | inl panic ↦ absurd (cc (update_panics s routers e panic, h))
    ]
    | inr (x, e) ↦ absurd (cc (update_fails s x e, h))
  ]

  pub update_router-IsServed :
      (s : ListenerState H) (routers : List (Dict H)) (mux : Dict H)
      → routers_of s.sites ≡ ok routers
      → new_router routers [] ≡ some mux
      → All (λ e. IsServed mux e.1) s.sites
  update_router-IsServed s routers mux e f =
      routers_of-IsServed s.sites routers mux e (new_router-Serves routers [] mux f)

  pub failing-eq-ok :
      (prefix : String) (o : Option (Result (Unit {0}) × ListenerState H)) (s' : ListenerState H)
      → failing prefix o ≡ some (ok tt, s')
      → o ≡ some (ok tt, s')
  unfolding failing
  failing-eq-ok prefix none s' h = absurd (cc h)
  failing-eq-ok prefix (some (ok u, s)) s' h = h
  failing-eq-ok prefix (some (err e, s)) s' h = absurd (cc h)

  -- When `Link` succeeds, the listener knows the site, and its router serves every route of every
  -- site that it knows, each by the handler of its own site; the new site is among them.
  pub link-IsServed :
      (site : Site H) (s s' : ListenerState H)
      → link site s ≡ some (ok tt, s')
      → (mux : Dict H) × (s'.router ≡ some mux)
        × (s'.sites ≡ put site.name site s.sites)
        × All (λ e. IsServed mux e.1) s'.sites
        × IsServed mux site
  unfolding link
  link-IsServed site s s' h =
      let before : ListenerState H = record s { sites = put site.name site s.sites } in
      let (routers, mux, r, f, e) =
        update_router-routers before s' (failing-eq-ok "link site: " (update_router before) s' h) in
      let served = update_router-IsServed before routers mux r f in
      (
        mux,
        ap (λ x. x.router) e,
        ap (λ x. x.sites) e,
        subst (λ x. All (λ e. IsServed mux e.1) x.sites) (sym e) served,
        All-put_self (IsServed mux) site.name site s.sites served,
      )
