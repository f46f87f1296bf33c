-- ===== src/Server/Life/Links.antt =====
-- `Shutdown` after `Start`: every site is unlinked from every listener.
use mathlib.Core.Path.{subst}
use neon_oss.Base.{
  Bool-cases, inl, inr, Dict, get, put, delete, List, [], ◌∷◌, ◌++◌, append-nil, append_assoc, map,
  String, Result, str_eq, eq_iff, arith, All, if◌then◌else◌, ◌≡◌, ◌≢◌, refl, sym, ap, ◌∙◌, get-put,
  get-delete, Option-cases,
}
use neon_oss.Listeners.{or_nil}
use neon_oss.Calls.{Run}
use neon_oss.Calls.Order.{Ends, joined}
use neon_oss.Server.Life.{
  ServerCall, shutdown_listener, unlink_site, stop_site, link_site, link_sites, shutdown,
}
use neon_oss.Server.Life.Order.{unlinks, closings, shutdown-Ends}

-- No name comes twice.
abbrev pub AllDiffer : List String → Type 0
AllDiffer [] = Unit
AllDiffer (x ∷ xs) = All (λ y. y ≢ x) xs × AllDiffer xs

put_lookup :
    (site k : String) (ls : List String) (links : Dict (List String))
    → or_nil (get k (put site ls links)) ≡ (if str_eq site k then ls else or_nil (get k links))
put_lookup site k ls links = ground (arith, get-put site k ls links)

-- What a site's links are after the inner loop.
link_site-get :
    (site k : String) (ls : List String) (links : Dict (List String))
    → or_nil (get k (link_site site ls links))
      ≡ (if str_eq site k then or_nil (get k links) ++ ls else or_nil (get k links))
unfolding link_site
link_site-get site k [] links = elim (Bool-cases (str_eq site k)) [
  | inl same ↦ rw same (sym (append-nil _))
  | inr other ↦ rw other refl
]
link_site-get site k (l ∷ ls) links =
    let rest = link_site-get site k ls (put site (or_nil (get site links) ++ l ∷ []) links) in
    let here = put_lookup site k (or_nil (get site links) ++ l ∷ []) links in
    elim (Bool-cases (str_eq site k)) [
      | inl same ↦
          let e = rw same at rest in
          let f = rw same at here in
          rw same (
            e
            ∙ ap (λ x. x ++ ls) f
            ∙ append_assoc (or_nil (get site links)) (l ∷ []) ls
            ∙ ap (λ n. or_nil (get n links) ++ l ∷ ls) ((eq_iff site k).0 same))
      | inr other ↦ let e = rw other at rest in let f = rw other at here in rw other (e ∙ f)
    ]

-- The links of a site that is not among them stay as they are.
link_sites-other :
    (k : String) (sites ls : List String) (links : Dict (List String))
    → All (λ y. y ≢ k) sites
    → or_nil (get k (link_sites sites ls links)) ≡ or_nil (get k links)
unfolding link_sites
link_sites-other k [] ls links h = refl
link_sites-other k (site ∷ more) ls links (h, hs) =
    link_sites-other k more ls (link_site site ls links) hs
    ∙ link_site-get site k ls links
    ∙ ground (arith, eq_iff site k, h)

link_sites-all :
    (sites ls : List String) (links : Dict (List String))
    → AllDiffer sites
    → All (λ s. or_nil (get s links) ≡ []) sites
    → All (λ s. or_nil (get s (link_sites sites ls links)) ≡ ls) sites
unfolding link_sites
link_sites-all [] ls links h new = tt
link_sites-all (site ∷ more) ls links (h, hs) (n, new) = (
  link_sites-other site more ls (link_site site ls links) h
      ∙ link_site-get site site ls links
      ∙ rw ((eq_iff site site).1 refl, n) refl,
  link_sites-all more ls (link_site site ls links) hs (still_new site ls links more h new),
)
  where
    still_new :
        (site : String) (ls : List String) (links : Dict (List String)) (more : List String)
        → All (λ y. y ≢ site) more
        → All (λ s. or_nil (get s links) ≡ []) more
        → All (λ s. or_nil (get s (link_site site ls links)) ≡ []) more
    still_new site ls links [] h new = tt
    still_new site ls links (k ∷ more) (h, hs) (n, new) = (
      link_site-get site k ls links ∙ ground (arith, eq_iff site k, h, n),
      still_new site ls links more hs new,
    )

nothing_linked : (sites : List String) → All (λ s. or_nil {L = String} (get s []) ≡ []) sites
unfolding get
nothing_linked [] = tt
nothing_linked (site ∷ more) = (refl, nothing_linked more)

module _ {W : Type 0} (perform : ServerCall → W → Result (Unit {0}) × W) where
  -- The calls of the sites by some lists that agree.
  joined-agree :
      (f g : String → List String) (sites : List String)
      → All (λ s. f s ≡ g s) sites
      → joined perform (λ s. map (λ l. unlink_site l s) (f s)) sites
        ≡ joined perform (λ s. map (λ l. unlink_site l s) (g s)) sites
  joined-agree f g [] h = refl
  joined-agree f g (s ∷ more) (h, hs) = rw (h, joined-agree f g more hs) refl

  after_delete :
      (site : String) (links : Dict (List String)) (more : List String)
      → All (λ y. y ≢ site) more
      → All (λ s. or_nil (get s (delete site links)) ≡ or_nil (get s links)) more
  after_delete site links [] h = tt
  after_delete site links (k ∷ more) (h, hs) =
      (ground (arith, get-delete site k links, eq_iff site k, h), after_delete site links more hs)

  unlinks-joined :
      (sites : List String) (links : Dict (List String))
      → AllDiffer sites
      → unlinks sites links
        ≡ joined perform (λ s. map (λ l. unlink_site l s) (or_nil (get s links))) sites
  unlinks-joined [] links h = refl
  unlinks-joined (site ∷ more) links (h, hs) = elim (Option-cases (get site links)) [
    | inl absent ↦ rw (absent, unlinks) (unlinks-joined more links hs)
    | inr (ls, found) ↦
        rw (found, unlinks)
          (ap (λ x. map (λ l. unlink_site l site) ls ++ x)
            (unlinks-joined more (delete site links) hs
              ∙ joined-agree (λ k. or_nil (get k (delete site links))) (λ k. or_nil (get k links))
                  more (after_delete site links more h)))
  ]

-- The server has been started with listeners and sites whose names differ, and each site has been
-- linked to each listener. Then `Shutdown` shuts the listeners down, unlinks every site from every
-- listener, closes and removes the listeners and stops the sites, in this order; it ends with the
-- error of the first call that fails, and makes no call after it.
pub shutdown-linked :
    {W : Type 0} (perform : ServerCall → W → Result (Unit {0}) × W) (listeners sites : List String)
    (s : Run W ServerCall)
    → AllDiffer sites
    → let got = shutdown perform listeners sites (s, link_sites sites listeners []) in
      Ends perform
        (map shutdown_listener listeners
          ++ joined perform (λ site. map (λ l. unlink_site l site) listeners) sites
          ++ (joined perform closings listeners ++ map stop_site sites))
        s
        (got.0, got.1.0)
shutdown-linked perform listeners sites s h =
    let links = link_sites sites listeners [] in
    let linked = link_sites-all sites listeners [] h (nothing_linked sites) in
    let same =
      unlinks-joined perform sites links h
      ∙ joined-agree perform (λ site. or_nil (get site links)) (λ site. listeners) sites linked in
    subst
      (λ us.
        Ends perform
          (map shutdown_listener listeners
            ++ us
            ++ (joined perform closings listeners ++ map stop_site sites))
          s
          (
            (shutdown perform listeners sites (s, links)).0,
            (shutdown perform listeners sites (s, links)).1.0,
          ))
      same (shutdown-Ends perform listeners sites (s, links))
