-- ===== src/Listener/Mux.antt =====
-- What a multiplexer holds after the routes of some routers were added to it.
use neon_oss.Base.{
  Bool-cases, ◌∙◌, sym, ap, eq_iff, get-put, str_eq, arith, ◌≡◌, refl, All, Dict, List, [], ◌∷◌,
  String, none, some, get, put, Option-cases, inl, inr,
}
use neon_oss.Listener.{handle_all, new_router}

pub some-eq : {A : Type 0} (a b : A) → some a ≡ some b → a ≡ b
some-eq a b e = cc e

module _ {H : Type 0} where
  -- The multiplexer has every pattern of some routes, with its handler.
  abbrev pub Serves : Dict H → Dict H → Type 0
  Serves mux routes = All (λ e. get e.0 mux ≡ some e.1) routes

  nothing_more :
      (mux after : Dict H) (p : String) (h : H)
      → handle_all [] mux ≡ some after
      → get p mux ≡ some h
      → get p after ≡ some h
  unfolding handle_all
  nothing_more mux after p h e at = ap (get p) (sym (some-eq mux after e)) ∙ at

  no_router :
      (mux after : Dict H) (p : String) (h : H)
      → new_router [] mux ≡ some after
      → get p mux ≡ some h
      → get p after ≡ some h
  unfolding new_router
  no_router mux after p h e at = ap (get p) (sym (some-eq mux after e)) ∙ at

  router_next :
      (routes : Dict H) (more : List (Dict H)) (mux mid : Dict H)
      → handle_all routes mux ≡ some mid
      → new_router (routes ∷ more) mux ≡ new_router more mid
  unfolding new_router
  router_next routes more mux mid f = rw (f, new_router) refl

  router_failed :
      (routes : Dict H) (more : List (Dict H)) (mux : Dict H)
      → handle_all routes mux ≡ none
      → new_router (routes ∷ more) mux ≡ none
  unfolding new_router
  router_failed routes more mux f = rw (f, new_router) refl

  pub handle_free :
      (q : String) (k : H) (more mux : Dict H)
      → get q mux ≡ none
      → handle_all ((q, k) ∷ more) mux ≡ handle_all more (put q k mux)
  unfolding handle_all
  handle_free q k more mux free = rw (free, handle_all) refl

  pub handle_taken :
      (q : String) (k taken : H) (more mux : Dict H)
      → get q mux ≡ some taken
      → handle_all ((q, k) ∷ more) mux ≡ none
  unfolding handle_all
  handle_taken q k taken more mux is = rw (is, handle_all) refl

  put-keeps :
      (p q : String) (h k : H) (mux : Dict H)
      → get q mux ≡ none
      → get p mux ≡ some h
      → get p (put q k mux) ≡ some h
  put-keeps p q h k mux free at = elim (Bool-cases (str_eq q p)) [
    | inl same ↦ absurd (cc ((eq_iff q p).0 same, free, at))
    | inr other ↦ get-put q p k mux ∙ rw other at
  ]

  put_self : (q : String) (k : H) (mux : Dict H) → get q (put q k mux) ≡ some k
  put_self q k mux = ground (arith, get-put q q k mux, eq_iff q q)

  -- What a multiplexer has stays when patterns are added.
  handle_all-keeps :
      (routes mux after : Dict H) (p : String) (h : H)
      → handle_all routes mux ≡ some after
      → get p mux ≡ some h
      → get p after ≡ some h
  handle_all-keeps [] mux after p h e at = nothing_more mux after p h e at
  handle_all-keeps ((q, k) ∷ more) mux after p h e at = elim (Option-cases (get q mux)) [
    | inl free ↦
        handle_all-keeps more (put q k mux) after p h (sym (handle_free q k more mux free) ∙ e)
          (put-keeps p q h k mux free at)
    | inr (taken, is) ↦ absurd (cc (handle_taken q k taken more mux is, e))
  ]

  handle_all-Serves :
      (routes mux after : Dict H) → handle_all routes mux ≡ some after → Serves after routes
  handle_all-Serves [] mux after e = tt
  handle_all-Serves ((q, k) ∷ more) mux after e = elim (Option-cases (get q mux)) [
    | inl free ↦
        let e' = sym (handle_free q k more mux free) ∙ e in
        (
          handle_all-keeps more (put q k mux) after q k e' (put_self q k mux),
          handle_all-Serves more (put q k mux) after e',
        )
    | inr (taken, is) ↦ absurd (cc (handle_taken q k taken more mux is, e))
  ]

  pub router_step :
      (routes : Dict H) (more : List (Dict H)) (mux after : Dict H)
      → new_router (routes ∷ more) mux ≡ some after
      → (mid : Dict H) × (handle_all routes mux ≡ some mid) × (new_router more mid ≡ some after)
  router_step routes more mux after e = elim (Option-cases (handle_all routes mux)) [
    | inl failed ↦ absurd (cc (router_failed routes more mux failed, e))
    | inr (mid, f) ↦ (mid, f, sym (router_next routes more mux mid f) ∙ e)
  ]

  new_router-keeps :
      (routers : List (Dict H)) (mux after : Dict H) (p : String) (h : H)
      → new_router routers mux ≡ some after
      → get p mux ≡ some h
      → get p after ≡ some h
  new_router-keeps [] mux after p h e at = no_router mux after p h e at
  new_router-keeps (routes ∷ more) mux after p h e at =
      let (mid, f, g) = router_step routes more mux after e in
      new_router-keeps more mid after p h g (handle_all-keeps routes mux mid p h f at)

  Serves-later :
      (routes : Dict H) (routers : List (Dict H)) (mux after : Dict H)
      → new_router routers mux ≡ some after
      → Serves mux routes
      → Serves after routes
  Serves-later [] routers mux after e s = tt
  Serves-later ((p, h) ∷ more) routers mux after e s =
      (new_router-keeps routers mux after p h e s.0, Serves-later more routers mux after e s.1)

  pub new_router-Serves :
      (routers : List (Dict H)) (mux after : Dict H)
      → new_router routers mux ≡ some after
      → All (Serves after) routers
  new_router-Serves [] mux after e = tt
  new_router-Serves (routes ∷ more) mux after e =
      let (mid, f, g) = router_step routes more mux after e in
      (
        Serves-later routes more mid after g (handle_all-Serves routes mux mid f),
        new_router-Serves more mid after g,
      )
