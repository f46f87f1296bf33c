-- ===== src/Server/Laws.antt =====
-- When the server accepts its configuration.
use neon_oss.Base.{
  Bool, true, false, Dict, [], ◌∷◌, String, Option, Result, ok, err, is_ok, All, ◌≡◌, ◌≢◌, ◌↔◌,
  refl, arith, eq_iff,
}
use neon_oss.Modules.{decoded, or_empty}
use neon_oss.Server.{
  ServerConfig, SiteLoop, is_empty, init_listeners, with_listener, with_site, init_sites, finish,
  init_config, init,
}

module _ {Config L S : Type 0} (empty : Config) (init_listener : String → Config → Result L)
    (init_site : String → Config → Result S) (is_default : S → Bool) where
  -- The entry's listener initialises.
  pub ListenerStarts : String × Option Config → Type 0
  ListenerStarts e = is_ok (init_listener e.0 (or_empty empty e.1)) ≡ true

  -- The entry's site initialises.
  pub SiteStarts : String × Option Config → Type 0
  SiteStarts e = is_ok (init_site e.0 (or_empty empty e.1)) ≡ true

  -- The result is a site that is no default site.
  abbrev pub IsPlain : Result S → Type 0
  IsPlain (err e) = ⊥
  IsPlain (ok site) = is_default site ≡ false

  abbrev pub FirstStarts : Dict (Option Config) → Type 0
  FirstStarts [] = ⊥
  FirstStarts (e ∷ more) =
      SiteStarts e × All (λ e'. IsPlain (init_site e'.0 (or_empty empty e'.1))) more

  abbrev listening : String → Result L → Bool × Dict L → Bool × Dict L
  listening = with_listener empty init_listener init_site is_default

  abbrev siting : String → Result S → SiteLoop S → SiteLoop S
  siting = with_site empty init_listener init_site is_default

  abbrev all_sites : Dict (Option Config) → SiteLoop S → SiteLoop S
  all_sites = init_sites empty init_listener init_site is_default

  abbrev all_listeners : Dict (Option Config) → Bool × Dict L → Bool × Dict L
  all_listeners = init_listeners empty init_listener init_site is_default

  listening_iff :
      (name : String) (r : Result L) (s : Bool × Dict L)
      → ((listening name r s).0 ≡ false) ↔ ((s.0 ≡ false) × (is_ok r ≡ true))
  unfolding with_listener
  listening_iff name (ok l) s = (λ h. (h, refl), λ h. h.0)
  listening_iff name (err e) s = (λ h. absurd (cc h), λ h. absurd (cc (h.1)))

  listeners_iff :
      (listeners : Dict (Option Config)) (s : Bool × Dict L)
      → ((all_listeners listeners s).0 ≡ false) ↔ ((s.0 ≡ false) × All ListenerStarts listeners)
  unfolding init_listeners ListenerStarts
  listeners_iff [] s = (λ h. (h, tt), λ h. h.0)
  listeners_iff ((name, config) ∷ more) s =
      let made = init_listener name (or_empty empty config) in
      let rest = listeners_iff more (listening name made s) in
      let step = listening_iff name made s in
      (
        λ h. ((step.0 (rest.0 h).0).0, ((step.0 (rest.0 h).0).1, (rest.0 h).1)),
        λ h. rest.1 (step.1 (h.0, h.1.0), h.1.1),
      )

  siting_iff :
      (name : String) (r : Result S) (s : SiteLoop S)
      → s.default_name ≢ ""
      → ((siting name r s).failed ≡ false) ↔ ((s.failed ≡ false) × IsPlain r)
  unfolding with_site
  siting_iff name (ok site) s set = ground (arith, eq_iff s.default_name "")
  siting_iff name (err e) s set = (λ h. absurd (cc h), λ h. absurd h.1)

  siting-name :
      (name : String) (r : Result S) (s : SiteLoop S)
      → s.default_name ≢ ""
      → name ≢ ""
      → (siting name r s).default_name ≢ ""
  unfolding with_site
  siting-name name (ok site) s set named = named
  siting-name name (err e) s set named = set

  IsPlain-iff :
      (sites : Dict (Option Config)) (s : SiteLoop S)
      → s.default_name ≢ ""
      → All (λ e. e.0 ≢ "") sites
      → ((all_sites sites s).failed ≡ false)
        ↔ ((s.failed ≡ false) × All (λ e. IsPlain (init_site e.0 (or_empty empty e.1))) sites)
  unfolding init_sites
  IsPlain-iff [] s set named = (λ h. (h, tt), λ h. h.0)
  IsPlain-iff ((name, config) ∷ more) s set named =
      let made = init_site name (or_empty empty config) in
      let rest =
        IsPlain-iff more (siting name made s) (siting-name name made s set named.0) named.1 in
      let step = siting_iff name made s set in
      (
        λ h. ((step.0 (rest.0 h).0).0, ((step.0 (rest.0 h).0).1, (rest.0 h).1)),
        λ h. rest.1 (step.1 (h.0, h.1.0), h.1.1),
      )

  siting-failed :
      (name : String) (r : Result S) (s : SiteLoop S)
      → s.failed ≡ true
      → (siting name r s).failed ≡ true
  unfolding with_site
  siting-failed name (ok site) s h = ground (arith, h)
  siting-failed name (err e) s h = refl

  sites-failed :
      (sites : Dict (Option Config)) (s : SiteLoop S)
      → s.failed ≡ true
      → (all_sites sites s).failed ≡ true
  unfolding init_sites
  sites-failed [] s h = h
  sites-failed ((name, config) ∷ more) s h =
      sites-failed more (siting name (init_site name (or_empty empty config)) s)
        (siting-failed name (init_site name (or_empty empty config)) s h)

  abbrev first_site : SiteLoop S
  first_site = record { failed = false; default_name = ""; sites = [] }

  sites_iff :
      (name : String) (config : Option Config) (more : Dict (Option Config)) (made : Result S)
      → name ≢ ""
      → All (λ e. e.0 ≢ "") more
      → ((all_sites more (siting name made first_site)).failed ≡ false)
        ↔ ((is_ok made ≡ true) × All (λ e'. IsPlain (init_site e'.0 (or_empty empty e'.1))) more)
  unfolding with_site
  sites_iff name config more (ok site) named rest_named =
      let rest = IsPlain-iff more (siting name (ok site) first_site) named rest_named in
      (λ h. (refl, (rest.0 h).1), λ h. rest.1 (ground (arith, eq_iff "" ""), h.1))
  sites_iff name config more (err e) named rest_named = (
    λ h. absurd (cc (h, sites-failed more (siting name (err e) first_site) refl)),
    λ h. absurd (cc (h.0)),
  )

  loop_iff :
      (sites : Dict (Option Config))
      → All (λ e. e.0 ≢ "") sites
      → ((all_sites sites
            (record { failed = is_empty sites; default_name = ""; sites = [] })).failed
          ≡ false)
        ↔ FirstStarts sites
  unfolding init_sites SiteStarts
  loop_iff [] named = (λ h. absurd (cc h), λ h. absurd h)
  loop_iff ((name, config) ∷ more) named =
      sites_iff name config more (init_site name (or_empty empty config)) named.0 named.1

  -- `Init` with a decoded configuration whose sites have names succeeds exactly when there are
  -- listeners and sites, every listener and every site initialises, and no site but the one that
  -- is visited first is a default site: a default site that the map gives later is refused, even
  -- when it is the only one.
  pub server_init_iff :
      (c : ServerConfig Config)
      → All (λ e. e.0 ≢ "") c.sites
      → (is_ok (init empty init_listener init_site is_default (decoded c)) ≡ true)
        ↔ ((is_empty c.listeners ≡ false) × All ListenerStarts c.listeners × FirstStarts c.sites)
  unfolding init init_config finish
  server_init_iff c named =
      let ls = listeners_iff c.listeners (is_empty c.listeners, []) in
      let ss = loop_iff c.sites named in
      (
        λ h. ((ls.0 (ground (arith, h))).0, (ls.0 (ground (arith, h))).1, ss.0 (ground (arith, h))),
        λ h. ground (arith, ls.1 (h.0, h.1), ss.1 h.2),
      )
