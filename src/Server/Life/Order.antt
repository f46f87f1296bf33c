-- ===== src/Server/Life/Order.antt =====
-- The order in which the server's listeners and sites are registered, stopped and shut down.
use mathlib.Core.Path.{subst}
use neon_oss.Base.{
  Dict, get, delete, List, [], ◌∷◌, ◌++◌, map, String, Option, none, some, Result, ok, err, ◌≡◌,
  sym, ap,
}
use neon_oss.Exec.{Exec, ◌>>◌}
use neon_oss.Calls.{Run, call_each}
use neon_oss.Calls.Order.{
  Ends, Ends-then, InOrder, InOrder-call, InOrder-pure, InOrder-call_each, InOrder-each, InOrder->>,
  joined,
}
use neon_oss.Server.Life.{
  ServerCall, register_listener, register_site, close_listener, shutdown_listener, remove_listener,
  unlink_site, stop_site, Serving, register, stop, on_run, forget, unlink_all, unlink_sites,
  close_and_remove, shut_listeners, end_all, shutdown,
}

-- The sites that are linked are unlinked from their listeners, each once.
abbrev pub unlinks : List String → Dict (List String) → List ServerCall
unlinks [] links = []
unlinks (site ∷ more) links = elim (get site links) [
  | none ↦ unlinks more links
  | some ls ↦ map (λ l. unlink_site l site) ls ++ unlinks more (delete site links)
]

-- A listener is closed and then removed.
abbrev pub closings : String → List ServerCall
closings l = close_listener l ∷ remove_listener l ∷ []

module _ {W : Type 0} (perform : ServerCall → W → Result (Unit {0}) × W)
    (listeners sites : List String) where
  -- The calls of a run with links.
  abbrev pub EndsOn : List ServerCall → Serving W → Result (Unit {0}) × Serving W → Type 0
  EndsOn order s got = Ends perform order s.0 (got.0, got.1.0)

  EndsOn-then :
      (xs ys : List ServerCall) (s : Serving W) (got : Result (Unit {0}) × Serving W)
      (next : Exec (Serving W) (Unit {0}))
      → EndsOn xs s got
      → ((s1 : Serving W) → got ≡ (ok tt, s1) → EndsOn ys s1 (next s1))
      → EndsOn (xs ++ ys) s (((λ _. got) >> next) s)
  EndsOn-then xs ys s (ok u, (s1, links)) next h k =
      Ends-then perform xs ys s.0 (ok u, s1)
        (λ run. ((next (run, links)).0, (next (run, links)).1.0)) h
        λ run e. k (run, links) (ap (λ m. (m.0, (m.1, links))) e)
  EndsOn-then xs ys s (err e, (s1, links)) next h k =
      Ends-then perform xs ys s.0 (err e, s1)
        (λ run. ((next (run, links)).0, (next (run, links)).1.0)) h λ run e. absurd (cc e)

  EndsOn-on_run :
      (order : List ServerCall) (m : Exec (Run W ServerCall) (Unit {0})) (s : Serving W)
      → InOrder perform order m
      → EndsOn order s (on_run perform listeners sites m s)
  unfolding on_run InOrder
  EndsOn-on_run order m s h = h s.0

  EndsOn-forget :
      (order : List ServerCall) (site : String) (s : Serving W)
      (got : Result (Unit {0}) × Run W ServerCall)
      → Ends perform order s.0 got
      → EndsOn order s (forget perform listeners sites site s.1 got)
  unfolding forget
  EndsOn-forget order site s (ok u, s1) h = h
  EndsOn-forget order site s (err e, s1) h = h

  forget-links :
      (site : String) (links : Dict (List String)) (got : Result (Unit {0}) × Run W ServerCall)
      (s1 : Serving W)
      → forget perform listeners sites site links got ≡ (ok tt, s1)
      → s1.1 ≡ delete site links
  unfolding forget
  forget-links site links (ok u, s) s1 h = sym (ap (λ m. m.1.1) h)
  forget-links site links (err e, s) s1 h = absurd (cc h)

  EndsOn-site :
      (site : String) (more : List String) (s : Serving W) (found : Option (List String))
      → ((s1 : Serving W)
          → EndsOn (unlinks more s1.1) s1 (unlink_sites perform listeners sites more s1))
      → EndsOn
          (elim found [
            | none ↦ unlinks more s.1
            | some ls ↦ map (λ l. unlink_site l site) ls ++ unlinks more (delete site s.1)
          ])
          s
          (((λ _. unlink_all perform listeners sites site found s)
              >> unlink_sites perform listeners sites more)
            s)
  unfolding unlink_all InOrder
  EndsOn-site site more s none later = later s
  EndsOn-site site more s (some ls) later =
      let calls = call_each perform (λ l. unlink_site l site) (λ l. "unlink listener: ") ls s.0 in
      let here : EndsOn (map (λ l. unlink_site l site) ls) s
          (forget perform listeners sites site s.1 calls) =
        EndsOn-forget (map (λ l. unlink_site l site) ls) site s calls
          (InOrder-call_each perform (λ l. unlink_site l site) (λ l. "unlink listener: ") ls s.0) in
      EndsOn-then (map (λ l. unlink_site l site) ls) (unlinks more (delete site s.1)) s
        (forget perform listeners sites site s.1 calls) (unlink_sites perform listeners sites more)
        here
        λ s1 e.
          subst (λ d. EndsOn (unlinks more d) s1 (unlink_sites perform listeners sites more s1))
            (forget-links site s.1 calls s1 e) (later s1)

  EndsOn-unlink_sites :
      (names : List String) (s : Serving W)
      → EndsOn (unlinks names s.1) s (unlink_sites perform listeners sites names s)
  unfolding unlink_sites InOrder
  EndsOn-unlink_sites [] s = InOrder-pure perform s.0
  EndsOn-unlink_sites (site ∷ more) s =
      EndsOn-site site more s (get site s.1) (EndsOn-unlink_sites more)

  end_all-InOrder :
      InOrder perform
        (joined perform closings listeners ++ map stop_site sites)
        (end_all perform listeners sites)
  unfolding end_all close_and_remove
  end_all-InOrder =
      InOrder->> perform _ _ _ _
        (InOrder-each perform closings (close_and_remove perform listeners sites) listeners λ l.
          InOrder->> perform _ _ _ _ (InOrder-call perform (close_listener l) _)
            (InOrder-call perform (remove_listener l) _))
        (InOrder-call_each perform stop_site _ sites)

  shut_listeners-InOrder :
      InOrder perform (map shutdown_listener listeners) (shut_listeners perform listeners sites)
  unfolding shut_listeners
  shut_listeners-InOrder = InOrder-call_each perform shutdown_listener _ listeners

  -- `Shutdown` shuts the listeners down, unlinks the sites from the listeners that they are linked to,
  -- closes and removes the listeners and stops the sites, in this order; it ends with the error of
  -- the first call that fails, and makes no call after it.
  pub shutdown-Ends :
      (s : Serving W)
      → Ends perform
          (map shutdown_listener listeners
            ++ unlinks sites s.1
            ++ (joined perform closings listeners ++ map stop_site sites))
          s.0
          ((shutdown perform listeners sites s).0, (shutdown perform listeners sites s).1.0)
  unfolding shutdown on_run
  shutdown-Ends s =
      let first = on_run perform listeners sites (shut_listeners perform listeners sites) in
      let links = unlink_sites perform listeners sites sites in
      EndsOn-then (map shutdown_listener listeners ++ unlinks sites s.1)
        (joined perform closings listeners ++ map stop_site sites) s ((first >> links) s)
        (on_run perform listeners sites (end_all perform listeners sites))
        (EndsOn-then (map shutdown_listener listeners) (unlinks sites s.1) s (first s) links
          (EndsOn-on_run _ _ s shut_listeners-InOrder)
          λ s1 e.
            subst (λ d. EndsOn (unlinks sites d) s1 (links s1)) (sym (ap (λ m. m.1.1) e))
              (EndsOn-unlink_sites sites s1))
        λ s1 e. EndsOn-on_run _ _ s1 end_all-InOrder

  -- `Register` registers the listeners and then the sites, and `Stop` closes the listeners and then
  -- stops the sites; each ends with the error of the first call that fails.
  pub register-stop :
      InOrder perform
        (map register_listener listeners ++ map register_site sites)
        (register perform listeners sites)
      × InOrder perform
          (map close_listener listeners ++ map stop_site sites)
          (stop perform listeners sites)
  unfolding register stop
  register-stop = (
    InOrder->> perform _ _ _ _ (InOrder-call_each perform register_listener _ listeners)
        (InOrder-call_each perform register_site _ sites),
    InOrder->> perform _ _ _ _ (InOrder-call_each perform close_listener _ listeners)
        (InOrder-call_each perform stop_site _ sites),
  )
