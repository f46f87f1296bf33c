-- ===== src/Server/Start.antt =====
-- `Start` of internal/app/neon/server.go: every site is linked to every listener, then the
-- listeners serve and the sites start. Serving and starting are calls of the modules, and
-- parameters. The sites and listeners are in the order in which the maps are gone through; the
-- list of a site's listeners is an argument of `Shutdown`, in Server/Life.
pub mod Laws
use mathlib.Core.Path.{subst}
use neon_oss.Base.{
  Bool-cases, Dict, List, [], ◌∷◌, String, Option, none, some, Result, ok, err, get, put, ◌≡◌, ◌≢◌,
  refl, sym, ap, All, arith, eq_iff, get-put, inl, inr, str_eq,
}
use neon_oss.Strings.{◌+++◌}
use neon_oss.Listener.{Site, ListenerState, link}
use neon_oss.Listener.Laws.{IsServed, link-IsServed}

-- What a loop over the listeners leaves; `none` is a panic of a multiplexer.
abbrev pub Linked : Type 0 → Type 0
Linked H = Option (Result (Unit {0}) × Dict (ListenerState H))

-- The loops that call every listener and every site, up to the first error.
each {ℓ} : {A : Type ℓ} → String → (A → Result (Unit {0})) → List A → Result (Unit {0})
each prefix f [] = ok tt
each prefix f (a ∷ more) = elim (f a) [ err e ↦ err (prefix +++ e) | ok u ↦ each prefix f more ]

module _ {H : Type 0} where
  -- One listener before the others that were linked after it.
  abbrev beside : String → ListenerState H → Linked H → Linked H
  beside name l none = none
  beside name l (some (r, more)) = some (r, (name, l) ∷ more)

  abbrev linked_one :
      String
      → Dict (ListenerState H)
      → Option (Result (Unit {0}) × ListenerState H)
      → Linked H
      → Linked H
  linked_one name more none rest = none
  linked_one name more (some (err e, l)) rest = some (err ("link site: " +++ e), (name, l) ∷ more)
  linked_one name more (some (ok u, l)) rest = beside name l rest

  -- The inner loop: a site and all listeners; `none` is a panic of a multiplexer.
  unfoldable pub link_all : Site H → Dict (ListenerState H) → Linked H
  link_all site [] = some (ok tt, [])
  link_all site ((name, l) ∷ more) = linked_one name more (link site l) (link_all site more)

  abbrev next_site : Linked H → (Dict (ListenerState H) → Linked H) → Linked H
  next_site none next = none
  next_site (some (err e, ls)) next = some (err e, ls)
  next_site (some (ok u, ls)) next = next ls

  -- The outer loop.
  unfoldable pub link_sites : List (Site H) → Dict (ListenerState H) → Linked H
  link_sites [] ls = some (ok tt, ls)
  link_sites (site ∷ more) ls = next_site (link_all site ls) λ ls'. link_sites more ls'

  abbrev served_all :
      (Site H → Result (Unit {0}))
      → List (Site H)
      → Dict (ListenerState H)
      → Result (Unit {0})
      → Linked H
  served_all begin sites ls (err e) = some (err e, ls)
  served_all begin sites ls (ok u) = some (each "start site: " begin sites, ls)

  started :
      (ListenerState H → Result (Unit {0}))
      → (Site H → Result (Unit {0}))
      → List (Site H)
      → Linked H
      → Linked H
  started serve begin sites none = none
  started serve begin sites (some (err e, ls)) = some (err e, ls)
  started serve begin sites (some (ok u, ls)) =
      served_all begin sites ls (each "serve listener: " (λ e. serve e.1) ls)

  -- `Start`
  unfoldable pub start :
      (ListenerState H → Result (Unit {0}))
      → (Site H → Result (Unit {0}))
      → List (Site H)
      → Dict (ListenerState H)
      → Linked H
  unfolding each started link_sites link_all
  start serve begin sites ls = started serve begin sites (link_sites sites ls)
