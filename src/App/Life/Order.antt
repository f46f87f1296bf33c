-- ===== src/App/Life/Order.antt =====
-- The order in which `Serve` calls the components, and where it stops.
use neon_oss.Base.{List, [], ◌∷◌, Option, none, some, Result, ok, err, ◌≡◌, refl, ◌⊎◌, inl, inr}
use neon_oss.Calls.Order.{Ends, Finished, Failed, InOrder, InOrder-call, InOrder-next}
use neon_oss.App.Life.{
  store, fetcher, loader, server, Call, init, register, start, Host, boot, Signal, Waiting, after,
  events, serve,
}
use neon_oss.Calls.{Run}
use neon_oss.Strings.{◌+++◌}

-- The calls of `Serve`, in their order.
abbrev pub boot_order : {F : Type 0} → List (Call F)
boot_order =
    init store
    ∷ register store
    ∷ init fetcher
    ∷ register fetcher
    ∷ init loader
    ∷ register loader
    ∷ start loader
    ∷ init server
    ∷ register server
    ∷ start server
    ∷ []

boot-InOrder : {W L F : Type 0} (h : Host W L F) → InOrder h.perform boot_order (boot h)
unfolding boot
boot-InOrder h = InOrder-next h.perform _ _ _ _ (
    InOrder-next h.perform _ _ _ _ (
      InOrder-next h.perform _ _ _ _ (
        InOrder-next h.perform _ _ _ _ (
          InOrder-next h.perform _ _ _ _ (
            InOrder-next h.perform _ _ _ _ (
              InOrder-next h.perform _ _ _ _ (
                InOrder-next h.perform _ _ _ _
                  (InOrder-next h.perform _ _ _ _ (InOrder-call h.perform _ _)))))))))

-- What `Serve` comes to after its work as a child, if it is one.
abbrev pub ServeEnds :
    {W L F : Type 0}
    → Host W L F
    → Option (Result (Unit {0}))
    → List Signal
    → Run W (Call F)
    → Waiting W F
    → Type 0
ServeEnds h (some (err e)) signals s end = end ≡ (some (err ("execute child: " +++ e)), s)
ServeEnds h _ signals s end =
    (r : Result (Unit {0})) × (s' : Run _ (Call _)) × ((Finished h.perform boot_order s r s'
        × (end ≡ events h signals s'))
      ⊎ (Failed h.perform boot_order s r s' × (end ≡ (some r, s'))))

after-Ends :
    {W L F : Type 0} (h : Host W L F) (signals : List Signal) (s : Run W (Call F))
    (got : Result (Unit {0}) × Run W (Call F))
    → Ends h.perform boot_order s got
    → (r : Result (Unit {0})) × (s' : Run W (Call F)) × ((Finished h.perform boot_order s r s'
          × (after got (λ t. events h signals t) ≡ events h signals s'))
        ⊎ (Failed h.perform boot_order s r s'
            × (after got (λ t. events h signals t) ≡ (some r, s'))))
after-Ends h signals s (ok u, s') (inl all) = (ok u, s', inl (all, refl))
after-Ends h signals s (err e, s') (inl all) = absurd (cc (all.returned))
after-Ends h signals s (err e, s') (inr bad) = (err e, s', inr (bad, refl))
after-Ends h signals s (ok u, s') (inr bad) = absurd (cc (bad.returned))

-- A child whose handover fails makes no call, and `Serve` returns the error. Else `Serve` makes the
-- calls in this order: all succeed and it goes on to its loop over the signals, or it returns the
-- error of the first that fails, and makes no call after it.
pub serve-InOrder :
    {W L F : Type 0} (h : Host W L F) (as_child : Option (Result (Unit {0})))
    (signals : List Signal) (s : Run W (Call F))
    → ServeEnds h as_child signals s (serve h as_child signals s)
unfolding serve InOrder
serve-InOrder h (some (err e)) signals s = refl
serve-InOrder h (some (ok u)) signals s = after-Ends h signals s (boot h s) (boot-InOrder h s)
serve-InOrder h none signals s = after-Ends h signals s (boot h s) (boot-InOrder h s)
