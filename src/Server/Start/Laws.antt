-- ===== src/Server/Start/Laws.antt =====
-- What `Start` of the server leaves: every listener serves every site.
use mathlib.Core.Path.{subst}
use neon_oss.Base.{
  Bool-cases, Dict, List, [], ◌∷◌, String, Option, none, some, Result, ok, err, get, put, ◌≡◌, ◌≢◌,
  refl, sym, ap, All, arith, eq_iff, get-put, inl, inr, str_eq,
}
use neon_oss.Listener.{Site, ListenerState, link}
use neon_oss.Listener.Laws.{IsServed, link-IsServed}
use neon_oss.Server.Start.{
  Linked, each, linked_one, link_all, next_site, link_sites, served_all, started, start,
}

module _ {H : Type 0} where
  -- The listener knows the sites that were linked, and its router serves what it knows.
  pub record Serves (sites : List (Site H)) (l : ListenerState H) : Type 0 where
    pub knows : All (λ site. get site.name l.sites ≡ some site) sites
    pub routes :
        (site : Site H)
        → get site.name l.sites ≡ some site
        → (mux : Dict H) × (l.router ≡ some mux) × IsServed mux site

  All-get :
      (P : Site H → Type 0) (k : String) (site : Site H) (sites : Dict (Site H))
      → All (λ e. P e.1) sites
      → get k sites ≡ some site
      → P site
  unfolding get
  All-get P k site [] all h = absurd (cc h)
  All-get P k site ((j, other) ∷ more) all h = elim (Bool-cases (str_eq j k)) [
    | inl same ↦ let e : other ≡ site = ground (arith, same, h) in subst P e all.0
    | inr differs ↦
        let e : get k more ≡ some site = ground (arith, differs, h) in All-get P k site more all.1 e
  ]

  kept :
      (site : Site H) (done : List (Site H)) (sites : Dict (Site H))
      → All (λ other. other.name ≢ site.name) done
      → All (λ other. get other.name sites ≡ some other) done
      → All (λ other. get other.name (put site.name site sites) ≡ some other) done
  kept site [] sites apart h = tt
  kept site (other ∷ more) sites apart h = (
    ground
        (arith, get-put site.name other.name site sites, eq_iff site.name other.name, apart.0, h.0),
    kept site more sites apart.1 h.1,
  )

  link-Serves :
      (site : Site H) (done : List (Site H)) (l l' : ListenerState H)
      → All (λ other. other.name ≢ site.name) done
      → All (λ other. get other.name l.sites ≡ some other) done
      → link site l ≡ some (ok tt, l')
      → Serves (site ∷ done) l'
  link-Serves site done l l' apart knows h =
      let (mux, routed, sites, served, self) = link-IsServed site l l' h in
      record {
        knows =
            subst (λ m. All (λ other. get other.name m ≡ some other) (site ∷ done)) (sym sites)
              (
                ground
                    (arith, get-put site.name site.name site l.sites, eq_iff site.name site.name),
                kept site done l.sites apart knows,
              );
        routes = λ other known.
            (mux, routed, All-get (IsServed mux) other.name other l'.sites served known);
      }

  linked-step :
      (name : String) (site : Site H) (l : ListenerState H) (more ls : Dict (ListenerState H))
      → link_all site ((name, l) ∷ more) ≡ some (ok tt, ls)
      → (l' : ListenerState H) × (ls' : Dict (ListenerState H)) × (link site l ≡ some (ok tt, l'))
        × (link_all site more ≡ some (ok tt, ls'))
        × (ls ≡ (name, l') ∷ ls')
  unfolding link_all
  linked-step name site l more ls h = split (link site l) (link_all site more) refl refl h
    where
      split :
          (one : Option (Result (Unit {0}) × ListenerState H)) (rest : Linked H)
          → link site l ≡ one
          → link_all site more ≡ rest
          → linked_one name more one rest ≡ some (ok tt, ls)
          → (l' : ListenerState H) × (ls' : Dict (ListenerState H)) × (link site l
              ≡ some (ok tt, l'))
            × (link_all site more ≡ some (ok tt, ls'))
            × (ls ≡ (name, l') ∷ ls')
      split none rest e f k = absurd (cc k)
      split (some (err x, l')) rest e f k = absurd (cc k)
      split (some (ok u, l')) none e f k = absurd (cc k)
      split (some (ok u, l')) (some (err x, ls')) e f k = absurd (cc k)
      split (some (ok u, l')) (some (ok v, ls')) e f k = (l', ls', e, f, cc k)

  nothing_linked :
      (site : Site H) (ls' : Dict (ListenerState H))
      → link_all site [] ≡ some (ok tt, ls')
      → [] ≡ ls'
  unfolding link_all
  nothing_linked site ls' h = cc h

  link_all-Serves :
      (site : Site H) (done : List (Site H)) (ls ls' : Dict (ListenerState H))
      → All (λ other. other.name ≢ site.name) done
      → All (λ e. All (λ other. get other.name e.1.sites ≡ some other) done) ls
      → link_all site ls ≡ some (ok tt, ls')
      → All (λ e. Serves (site ∷ done) e.1) ls'
  link_all-Serves site done [] ls' apart knows h =
      subst (All (λ e. Serves (site ∷ done) e.1)) (nothing_linked site ls' h) tt
  link_all-Serves site done ((name, l) ∷ more) ls' apart knows h =
      let (l', rest, e, f, eq) = linked-step name site l more ls' h in
      subst (All (λ e. Serves (site ∷ done) e.1)) (sym eq) (
        link-Serves site done l l' apart knows.0 e,
        link_all-Serves site done more rest apart knows.1 f,
      )

  -- No site has the name of one before it.
  abbrev pub NamesApart : List (Site H) → List (Site H) → Type 0
  NamesApart done [] = Unit
  NamesApart done (site ∷ more) =
      All (λ other. other.name ≢ site.name) done × NamesApart (site ∷ done) more

  sites_step :
      (site : Site H) (more : List (Site H)) (ls after : Dict (ListenerState H))
      → link_sites (site ∷ more) ls ≡ some (ok tt, after)
      → (mid : Dict (ListenerState H)) × (link_all site ls ≡ some (ok tt, mid))
        × (link_sites more mid ≡ some (ok tt, after))
  unfolding link_sites
  sites_step site more ls after h = split (link_all site ls) refl h
    where
      split :
          (one : Linked H)
          → link_all site ls ≡ one
          → next_site one (λ ls'. link_sites more ls') ≡ some (ok tt, after)
          → (mid : Dict (ListenerState H)) × (link_all site ls ≡ some (ok tt, mid))
            × (link_sites more mid ≡ some (ok tt, after))
      split none e k = absurd (cc k)
      split (some (err x, mid)) e k = absurd (cc k)
      split (some (ok u, mid)) e k = (mid, e, k)

  -- The listener serves what was linked, and knows what is linked last.
  abbrev Both : List (Site H) → List (Site H) → String × ListenerState H → Type 0
  Both done more e = Serves done e.1 × All (λ site. get site.name e.1.sites ≡ some site) more

  earlier :
      (site : Site H) (done more : List (Site H)) (ls : Dict (ListenerState H))
      → All (Both (site ∷ done) more) ls
      → All (Both done (site ∷ more)) ls
  earlier site done more [] all = tt
  earlier site done more (e ∷ ls) all = (
    (record { knows = all.0.0.knows.1; routes = all.0.0.routes }, (all.0.0.knows.0, all.0.1)),
    earlier site done more ls all.1,
  )

  none_more :
      (done : List (Site H)) (ls : Dict (ListenerState H))
      → All (λ e. Serves done e.1) ls
      → All (Both done []) ls
  none_more done [] all = tt
  none_more done (e ∷ ls) all = ((all.0, tt), none_more done ls all.1)

  known :
      (done : List (Site H)) (ls : Dict (ListenerState H))
      → All (λ e. Serves done e.1) ls
      → All (λ e. All (λ other. get other.name e.1.sites ≡ some other) done) ls
  known done [] all = tt
  known done (e ∷ ls) all = (all.0.knows, known done ls all.1)

  no_site :
      (ls after : Dict (ListenerState H)) → link_sites [] ls ≡ some (ok tt, after) → ls ≡ after
  unfolding link_sites
  no_site ls after h = cc h

  link_sites-Both :
      (sites done : List (Site H)) (ls after : Dict (ListenerState H))
      → NamesApart done sites
      → All (λ e. Serves done e.1) ls
      → link_sites sites ls ≡ some (ok tt, after)
      → All (Both done sites) after
  link_sites-Both [] done ls after apart all h =
      subst (All (Both done [])) (no_site ls after h) (none_more done ls all)
  link_sites-Both (site ∷ more) done ls after apart all h =
      let (mid, e, f) = sites_step site more ls after h in
      earlier site done more after (
        link_sites-Both more (site ∷ done) mid after apart.1
          (link_all-Serves site done ls mid apart.0 (known done ls all) e) f)

  served_all-Linked :
      (begin : Site H → Result (Unit {0})) (sites : List (Site H))
      (ls after : Dict (ListenerState H)) (r : Result (Unit {0}))
      → served_all begin sites ls r ≡ some (ok tt, after)
      → ◌≡◌ {A = Linked H} (some (ok tt, ls)) (some (ok tt, after))
  served_all-Linked begin sites ls after (err e) h = absurd (cc h)
  served_all-Linked begin sites ls after (ok u) h =
      let same : ls ≡ after = cc h in ap (λ l. some (ok tt, l)) same

  started-Linked :
      (serve : ListenerState H → Result (Unit {0})) (begin : Site H → Result (Unit {0}))
      (sites : List (Site H)) (o : Linked H) (after : Dict (ListenerState H))
      → started serve begin sites o ≡ some (ok tt, after)
      → o ≡ some (ok tt, after)
  unfolding started
  started-Linked serve begin sites none after h = absurd (cc h)
  started-Linked serve begin sites (some (err e, ls)) after h = absurd (cc h)
  started-Linked serve begin sites (some (ok u, ls)) after h =
      served_all-Linked begin sites ls after (each "serve listener: " (λ e. serve e.1) ls) h

  -- A listener before the start: it knows no site.
  abbrev pub IsFresh : ListenerState H → Type 0
  IsFresh l = l.sites ≡ []

  fresh_serve :
      (ls : Dict (ListenerState H)) → All (λ e. IsFresh e.1) ls → All (λ e. Serves [] e.1) ls
  unfolding get
  fresh_serve [] h = tt
  fresh_serve (e ∷ ls) h =
      (record { knows = tt; routes = λ site k. absurd (cc (h.0, k)) }, fresh_serve ls h.1)

  served :
      (sites : List (Site H)) (l : ListenerState H)
      → Serves [] l
      → All (λ site. get site.name l.sites ≡ some site) sites
      → All (λ site. (mux : Dict H) × (l.router ≡ some mux) × IsServed mux site) sites
  served [] l s all = tt
  served (site ∷ more) l s all = (s.routes site all.0, served more l s all.1)

  all_served :
      (sites : List (Site H)) (ls : Dict (ListenerState H))
      → All (Both [] sites) ls
      → All
          (λ e. All (λ site. (mux : Dict H) × (e.1.router ≡ some mux) × IsServed mux site) sites)
          ls
  all_served sites [] all = tt
  all_served sites (e ∷ ls) all = (served sites e.1 all.0.0 all.0.1, all_served sites ls all.1)

  -- When `Start` succeeds on listeners that know no site, and no two sites have the same name,
  -- every listener has a router that serves every route of every site by the site's own handler,
  -- whatever listeners the site is configured for.
  pub start-IsServed :
      (serve : ListenerState H → Result (Unit {0})) (begin : Site H → Result (Unit {0}))
      (sites : List (Site H)) (ls after : Dict (ListenerState H))
      → NamesApart [] sites
      → All (λ e. IsFresh e.1) ls
      → start serve begin sites ls ≡ some (ok tt, after)
      → All
          (λ e. All (λ site. (mux : Dict H) × (e.1.router ≡ some mux) × IsServed mux site) sites)
          after
  unfolding start
  start-IsServed serve begin sites ls after apart fresh h = all_served sites after (
      link_sites-Both sites [] ls after apart (fresh_serve ls fresh)
        (started-Linked serve begin sites (link_sites sites ls) after h))
