-- ===== src/Server/Life.antt =====
-- internal/app/neon/server.go, `Register`, `Stop` and `Shutdown`: the calls of the listeners and the
-- sites, in the order of the maps.
pub mod Order
pub mod Links
use neon_oss.Base.{
  Dict, get, put, delete, List, [], ◌∷◌, ◌++◌, String, Option, none, some, Result, ok, err,
}
use neon_oss.Strings.{◌+++◌}
use neon_oss.Exec.{Exec, pure, ◌>>◌}
use neon_oss.Listeners.{or_nil}
use neon_oss.Calls.{Run, call, call_each, each}

-- The calls: of the listener or the site with the name.
pub data ServerCall : Type 0 where
  register_listener : String → ServerCall
  register_site : String → ServerCall
  close_listener : String → ServerCall
  shutdown_listener : String → ServerCall
  remove_listener : String → ServerCall
  unlink_site : String → String → ServerCall
  stop_site : String → ServerCall

-- A run, and the field `sitesListeners`: the listeners to which a site has been linked.
abbrev pub Serving : Type 0 → Type 0
Serving W = Run W ServerCall × Dict (List String)

-- The inner loop over the links in `Start`, where all calls succeed: `sitesListeners` gets the listener.
unfoldable pub link_site : String → List String → Dict (List String) → Dict (List String)
link_site site [] links = links
link_site site (l ∷ ls) links =
    link_site site ls (put site (or_nil (get site links) ++ l ∷ []) links)

-- The outer loop.
unfoldable pub link_sites : List String → List String → Dict (List String) → Dict (List String)
link_sites [] ls links = links
link_sites (site ∷ more) ls links = link_sites more ls (link_site site ls links)

module _ {W : Type 0} (perform : ServerCall → W → Result (Unit {0}) × W)
    (listeners sites : List String) where
  -- `Register`
  unfoldable pub register : Exec (Run W ServerCall) (Unit {0})
  register =
      call_each perform register_listener (λ l. "register listener " +++ l +++ ": ") listeners
      >> call_each perform register_site (λ s. "register site " +++ s +++ ": ") sites

  -- `Stop`
  unfoldable pub stop : Exec (Run W ServerCall) (Unit {0})
  stop =
      call_each perform close_listener (λ l. "close listener: ") listeners
      >> call_each perform stop_site (λ s. "stop site: ") sites

  -- Calls that leave the links as they are.
  unfoldable pub on_run : Exec (Run W ServerCall) (Unit {0}) → Exec (Serving W) (Unit {0})
  on_run m (s, links) = let (r, s') = m s in (r, (s', links))

  forget :
      String
      → Dict (List String)
      → Result (Unit {0}) × Run W ServerCall
      → Result (Unit {0}) × Serving W
  forget site links (err e, s) = (err e, (s, links))
  forget site links (ok u, s) = (ok tt, (s, delete site links))

  unlink_all : String → Option (List String) → Exec (Serving W) (Unit {0})
  unlink_all site none s = (ok tt, s)
  unlink_all site (some ls) (s, links) =
      forget site links
        (call_each perform (λ l. unlink_site l site) (λ l. "unlink listener: ") ls s)

  -- The loop over the sites: a site that was not linked is only logged.
  unfoldable pub unlink_sites : List String → Exec (Serving W) (Unit {0})
  unfolding unlink_all forget
  unlink_sites [] = pure tt
  unlink_sites (site ∷ more) = (λ s. unlink_all site (get site s.1) s) >> unlink_sites more

  close_and_remove : String → Exec (Run W ServerCall) (Unit {0})
  close_and_remove l =
      call perform (close_listener l) "close listener: "
      >> call perform (remove_listener l) "remove listener: "

  -- The loops before and after the one over the links.
  unfoldable pub shut_listeners : Exec (Run W ServerCall) (Unit {0})
  shut_listeners = call_each perform shutdown_listener (λ l. "shutdown listener: ") listeners

  unfoldable pub end_all : Exec (Run W ServerCall) (Unit {0})
  unfolding close_and_remove
  end_all =
      each perform close_and_remove listeners
      >> call_each perform stop_site (λ s. "stop site: ") sites

  -- `Shutdown`
  unfoldable pub shutdown : Exec (Serving W) (Unit {0})
  shutdown = on_run shut_listeners >> unlink_sites sites >> on_run end_all
