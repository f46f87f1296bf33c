-- ===== src/App/Life/Ending.antt =====
-- How an instance that has been served ends: what has been stopped, and in which order.
use neon_oss.Base.{
  List, [], ◌∷◌, ◌++◌, append_assoc, String, Option, none, some, Result, ok, err, wrap, ◌≡◌, refl,
  ap, ◌∙◌, ◌⊎◌, inl, inr,
}
use neon_oss.Exec.{◌>>◌}
use neon_oss.Calls.{Run, call}
use neon_oss.Calls.Order.{call-eq-ok, >>-eq-ok}
use neon_oss.App.Life.{
  server, loader, Call, stop, shutdown_server, Host, Told, told_init, told_done, told_error, Signal,
  context_done, exit, shutdown, reload, Waiting, ended, after, boot, stop_instance,
  shutdown_instance, launch, reloading, reload_instance, retried, events, serve,
}

after-eq-ok :
    {W F : Type 0} (m : Result (Unit {0}) × Run W (Call F)) (next : Run W (Call F) → Waiting W F)
    (s' : Run W (Call F))
    → after m next ≡ (some (ok tt), s')
    → (s1 : Run W (Call F)) × (next s1 ≡ (some (ok tt), s'))
after-eq-ok (err e, s) next s' h = absurd (cc h)
after-eq-ok (ok u, s) next s' h = (s, h)

ended-eq-ok :
    {W F : Type 0} (m : Result (Unit {0}) × Run W (Call F)) (s' : Run W (Call F))
    → ended m ≡ (some (ok tt), s')
    → m ≡ (ok tt, s')
ended-eq-ok (ok u, s) s' h = ap (λ x. (ok tt, x.1)) h
ended-eq-ok (err e, s) s' h = absurd (cc h)

module _ {W L F : Type 0} (h : Host W L F) where
  -- The last two calls stop the server and then the loader, and both succeed.
  pub record Halted (s' : Run W (Call F)) : Type 0 where
    pub before : List (Call F)
    pub halt : Call F
    pub is_halt : (halt ≡ stop server) ⊎ (halt ≡ shutdown_server)
    pub made : s'.calls ≡ before ++ halt ∷ stop loader ∷ []
    pub world : W
    pub between : W
    pub halted : h.perform halt world ≡ (ok tt, between)
    pub stopped : h.perform (stop loader) between ≡ (ok tt, s'.world)

  pair-Halted :
      (c : Call F) (p q : String) (s s' : Run W (Call F))
      → (c ≡ stop server) ⊎ (c ≡ shutdown_server)
      → (call h.perform c p >> call h.perform (stop loader) q) s ≡ (ok tt, s')
      → Halted s'
  pair-Halted c p q s s' which e =
      let (s1, first, second) =
        >>-eq-ok h.perform (call h.perform c p) (call h.perform (stop loader) q) s s' e in
      let (f, fs) = call-eq-ok h.perform c p s s1 first in
      let (g, gs) = call-eq-ok h.perform (stop loader) q s1 s' second in
      record {
        before = s.calls;
        halt = c;
        is_halt = which;
        made =
            gs
            ∙ ap (λ x. x ++ stop loader ∷ []) fs
            ∙ append_assoc s.calls (c ∷ []) (stop loader ∷ []);
        world = s.world;
        between = s1.world;
        halted = f;
        stopped = g;
      }

  wrapped-eq-ok :
      (prefix : String) (m : Result (Unit {0}) × Run W (Call F)) (s' : Run W (Call F))
      → ended (wrap prefix m.0, m.1) ≡ (some (ok tt), s')
      → m ≡ (ok tt, s')
  wrapped-eq-ok prefix (ok u, s) s' e = ap (λ x. (ok tt, x.1)) e
  wrapped-eq-ok prefix (err x, s) s' e = absurd (cc e)

  stop_instance-Halted : (s s' : Run W (Call F)) → stop_instance h s ≡ (ok tt, s') → Halted s'
  unfolding stop_instance
  stop_instance-Halted s s' e = pair-Halted (stop server) _ _ s s' (inl refl) e

  shutdown_instance-Halted :
      (s s' : Run W (Call F)) → shutdown_instance h s ≡ (ok tt, s') → Halted s'
  unfolding shutdown_instance
  shutdown_instance-Halted s s' e = pair-Halted shutdown_server _ _ s s' (inr refl) e

  reloading-Halted :
      (key : String) (told : List Told) (s s' : Run W (Call F))
      → reloading h key told s ≡ (some (ok tt), s')
      → Halted s'
  unfolding reloading
  reloading-Halted key [] s s' e = absurd (cc e)
  reloading-Halted key (told_init ∷ more) s s' e =
      let (s1, rest) = after-eq-ok (launch h key s) _ s' e in reloading-Halted key more s1 s' rest
  reloading-Halted key (told_done ∷ more) s s' e =
      shutdown_instance-Halted s s' (wrapped-eq-ok _ (shutdown_instance h s) s' e)
  reloading-Halted key (told_error x ∷ more) s s' e = absurd (cc e)

  reload_instance-Halted :
      (key : Result String) (told : List Told) (s s' : Run W (Call F))
      → reload_instance h key told s ≡ (some (ok tt), s')
      → Halted s'
  unfolding reload_instance
  reload_instance-Halted (err x) told s s' e = absurd (cc e)
  reload_instance-Halted (ok key) told s s' e = reloading-Halted key told s s' e

  retried-Halted :
      (m : Waiting W F) (next : Run W (Call F) → Waiting W F) (s' : Run W (Call F))
      → ((s1 : Run W (Call F)) → m ≡ (some (ok tt), s1) → Halted s1)
      → ((s1 : Run W (Call F)) → next s1 ≡ (some (ok tt), s') → Halted s')
      → retried h m next ≡ (some (ok tt), s')
      → Halted s'
  unfolding retried
  retried-Halted (none, s) next s' here later e = absurd (cc e)
  retried-Halted (some (ok u), s) next s' here later e = here s' e
  retried-Halted (some (err x), s) next s' here later e = later s e

  events-Halted :
      (signals : List Signal) (s s' : Run W (Call F))
      → events h signals s ≡ (some (ok tt), s')
      → Halted s'
  unfolding events
  events-Halted [] s s' e = absurd (cc e)
  events-Halted (context_done x ∷ more) s s' e = absurd (cc e)
  events-Halted (exit ∷ more) s s' e =
      retried-Halted (ended (stop_instance h s)) _ s'
        (λ s1 k. stop_instance-Halted s s1 (ended-eq-ok (stop_instance h s) s1 k))
        (λ s1. events-Halted more s1 s') e
  events-Halted (shutdown ∷ more) s s' e =
      retried-Halted (ended (shutdown_instance h s)) _ s'
        (λ s1 k. shutdown_instance-Halted s s1 (ended-eq-ok (shutdown_instance h s) s1 k))
        (λ s1. events-Halted more s1 s') e
  events-Halted (reload key told ∷ more) s s' e =
      retried-Halted (reload_instance h key told s) _ s'
        (λ s1. reload_instance-Halted key told s s1) (λ s1. events-Halted more s1 s') e

  booted-Halted :
      (signals : List Signal) (s s' : Run W (Call F))
      → after (boot h s) (events h signals) ≡ (some (ok tt), s')
      → Halted s'
  booted-Halted signals s s' e =
      let (s1, rest) = after-eq-ok (boot h s) (events h signals) s' e in
      events-Halted signals s1 s' rest

-- Where `Serve` returns without an error, whatever signals have come before, the last two calls
-- have stopped the server and then the loader, and both have succeeded.
pub serve-Halted :
    {W L F : Type 0} (h : Host W L F) (as_child : Option (Result (Unit {0})))
    (signals : List Signal) (s s' : Run W (Call F))
    → serve h as_child signals s ≡ (some (ok tt), s')
    → Halted h s'
unfolding serve
serve-Halted h none signals s s' e = booted-Halted h signals s s' e
serve-Halted h (some (ok u)) signals s s' e = booted-Halted h signals s s' e
serve-Halted h (some (err x)) signals s s' e = absurd (cc e)
