-- ===== src/Calls/Order.antt =====
-- Calls that are made in an order, up to the first that fails.
use mathlib.Core.Path.{subst}
use neon_oss.Base.{
  List, [], ◌∷◌, ◌++◌, append_assoc, append-nil, map, String, Result, ok, err, wrap, ◌≡◌, refl, sym,
  ap, ◌∙◌, ◌⊎◌, inl, inr,
}
use neon_oss.Strings.{◌+++◌}
use neon_oss.Exec.{Exec, pure, ◌>>◌}
use neon_oss.Calls.{Run, call, call_each, each}

module _ {W C : Type 0} (perform : C → W → Result (Unit {0}) × W) where
  -- All calls succeed, one after another.
  abbrev pub AllOk : List C → W → W → Type 0
  AllOk [] w w' = w ≡ w'
  AllOk (c ∷ cs) w w' = ((perform c w).0 ≡ ok tt) × AllOk cs (perform c w).1 w'

  -- A call of the order failed, after all before it succeeded and before any other was made.
  pub record Failed (order : List C) (s : Run W C) (r : Result (Unit {0})) (s' : Run W C)
      : Type 0 where
    pub before : List C
    pub failing : C
    pub later : List C
    pub world : W
    pub prefix : String
    pub error : String
    pub in_order : order ≡ before ++ failing ∷ later
    pub before_ok : AllOk before s.world world
    pub fails : perform failing world ≡ (err error, s'.world)
    pub made : s'.calls ≡ s.calls ++ (before ++ failing ∷ [])
    pub returned : r ≡ err (prefix +++ error)

  pub record Finished (order : List C) (s : Run W C) (r : Result (Unit {0})) (s' : Run W C)
      : Type 0 where
    pub all_ok : AllOk order s.world s'.world
    pub made : s'.calls ≡ s.calls ++ order
    pub returned : r ≡ ok tt

  abbrev pub Ends : List C → Run W C → Result (Unit {0}) × Run W C → Type 0
  Ends order s (r, s') = Finished order s r s' ⊎ Failed order s r s'

  -- From any run on, the calls are made in the order: all of them, or up to one that fails.
  unfoldable pub InOrder : List C → Exec (Run W C) (Unit {0}) → Type 0
  InOrder order m = (s : Run W C) → Ends order s (m s)

  AllOk-append :
      (xs ys : List C) (w w1 w2 : W) → AllOk xs w w1 → AllOk ys w1 w2 → AllOk (xs ++ ys) w w2
  AllOk-append [] ys w w1 w2 h k = subst (λ u. AllOk ys u w2) (sym h) k
  AllOk-append (x ∷ xs) ys w w1 w2 (here, h) k =
      (here, AllOk-append xs ys (perform x w).1 w1 w2 h k)

  pub Ends-then :
      (xs ys : List C) (s : Run W C) (got : Result (Unit {0}) × Run W C)
      (next : Exec (Run W C) (Unit {0}))
      → Ends xs s got
      → ((s1 : Run W C) → got ≡ (ok tt, s1) → Ends ys s1 (next s1))
      → Ends (xs ++ ys) s (((λ _. got) >> next) s)
  Ends-then xs ys s (ok u, s1) next (inl f) later = after_ok (next s1) (later s1 refl)
    where
      after_ok : (got : Result (Unit {0}) × Run W C) → Ends ys s1 got → Ends (xs ++ ys) s got
      after_ok (r, s2) (inl g) = inl (record {
        all_ok = AllOk-append xs ys s.world s1.world s2.world f.all_ok g.all_ok;
        made = g.made ∙ ap (λ l. l ++ ys) f.made ∙ append_assoc s.calls xs ys;
        returned = g.returned;
      })
      after_ok (r, s2) (inr g) = inr (record {
        before = xs ++ g.before;
        failing = g.failing;
        later = g.later;
        world = g.world;
        prefix = g.prefix;
        error = g.error;
        in_order =
            ap (λ l. xs ++ l) g.in_order ∙ sym (append_assoc xs g.before (g.failing ∷ g.later));
        before_ok = AllOk-append xs g.before s.world s1.world g.world f.all_ok g.before_ok;
        fails = g.fails;
        made =
            g.made
            ∙ ap (λ l. l ++ (g.before ++ g.failing ∷ [])) f.made
            ∙ append_assoc s.calls xs (g.before ++ g.failing ∷ [])
            ∙ ap (λ l. s.calls ++ l) (sym (append_assoc xs g.before (g.failing ∷ [])));
        returned = g.returned;
      })
  Ends-then xs ys s (ok u, s1) next (inr f) later = absurd (cc (f.returned))
  Ends-then xs ys s (err e, s1) next (inl f) later = absurd (cc (f.returned))
  Ends-then xs ys s (err e, s1) next (inr f) later = inr (record {
    before = f.before;
    failing = f.failing;
    later = f.later ++ ys;
    world = f.world;
    prefix = f.prefix;
    error = f.error;
    in_order = ap (λ l. l ++ ys) f.in_order ∙ append_assoc f.before (f.failing ∷ f.later) ys;
    before_ok = f.before_ok;
    fails = f.fails;
    made = f.made;
    returned = f.returned;
  })

  pub InOrder->> :
      (xs ys : List C) (m n : Exec (Run W C) (Unit {0}))
      → InOrder xs m
      → InOrder ys n
      → InOrder (xs ++ ys) (m >> n)
  unfolding InOrder
  InOrder->> xs ys m n h k s = Ends-then xs ys s (m s) n (h s) λ s1 e. k s1

  pub InOrder-pure : InOrder [] (pure tt)
  unfolding InOrder
  InOrder-pure s = inl (record { all_ok = refl; made = sym (append-nil s.calls); returned = refl })

  Ends-call :
      (c : C) (prefix : String) (s : Run W C) (got : Result (Unit {0}) × W)
      → perform c s.world ≡ got
      → Ends (c ∷ []) s (call perform c prefix s)
  unfolding call
  Ends-call c prefix s (ok u, w) h =
      rw h (inl (record { all_ok = rw h (refl, refl); made = refl; returned = refl }))
  Ends-call c prefix s (err e, w) h = rw h (
      inr (record {
        before = [];
        failing = c;
        later = [];
        world = s.world;
        prefix = prefix;
        error = e;
        in_order = refl;
        before_ok = refl;
        fails = h;
        made = refl;
        returned = refl;
      }))

  pub InOrder-call : (c : C) (prefix : String) → InOrder (c ∷ []) (call perform c prefix)
  unfolding InOrder
  InOrder-call c prefix s = Ends-call c prefix s (perform c s.world) refl

  -- One call more.
  pub InOrder-next :
      (xs : List C) (m : Exec (Run W C) (Unit {0})) (c : C) (prefix : String)
      → InOrder xs m
      → InOrder (xs ++ c ∷ []) (m >> call perform c prefix)
  InOrder-next xs m c prefix h =
      InOrder->> xs (c ∷ []) m (call perform c prefix) h (InOrder-call c prefix)

  module _ {A : Type 0} where
    -- The orders of a loop's turns, one after another.
    abbrev pub joined : (A → List C) → List A → List C
    joined of [] = []
    joined of (a ∷ more) = of a ++ joined of more

    pub InOrder-each :
        (of : A → List C) (body : A → Exec (Run W C) (Unit {0})) (items : List A)
        → ((a : A) → InOrder (of a) (body a))
        → InOrder (joined of items) (each perform body items)
    unfolding each
    InOrder-each of body [] h = InOrder-pure
    InOrder-each of body (a ∷ more) h =
        InOrder->> (of a) (joined of more) (body a) (each perform body more) (h a)
          (InOrder-each of body more h)

    pub InOrder-call_each :
        (of : A → C) (prefix : A → String) (items : List A)
        → InOrder (map of items) (call_each perform of prefix items)
    unfolding call_each
    InOrder-call_each of prefix [] = InOrder-pure
    InOrder-call_each of prefix (a ∷ more) =
        InOrder->> (of a ∷ []) (map of more) (call perform (of a) (prefix a))
          (call_each perform of prefix more) (InOrder-call (of a) (prefix a))
          (InOrder-call_each of prefix more)

  -- A call, by what it gives.
  called : C → String → Run W C → Result (Unit {0}) × W → Result (Unit {0}) × Run W C
  called c prefix s (r, w) = (wrap prefix r, record { world = w; calls = s.calls ++ c ∷ [] })

  called-eq-ok :
      (c : C) (prefix : String) (s s' : Run W C) (got : Result (Unit {0}) × W)
      → called c prefix s got ≡ (ok tt, s')
      → (got ≡ (ok tt, s'.world)) × (s'.calls ≡ s.calls ++ c ∷ [])
  unfolding called
  called-eq-ok c prefix s s' (ok u, w) e =
      (ap (λ m. (ok tt, m.1.world)) e, sym (ap (λ m. m.1.calls) e))
  called-eq-ok c prefix s s' (err x, w) e = absurd (cc e)

  -- What a call that succeeded did.
  pub call-eq-ok :
      (c : C) (prefix : String) (s s' : Run W C)
      → call perform c prefix s ≡ (ok tt, s')
      → (perform c s.world ≡ (ok tt, s'.world)) × (s'.calls ≡ s.calls ++ c ∷ [])
  unfolding call called
  call-eq-ok c prefix s s' e = called-eq-ok c prefix s s' (perform c s.world) e

  sequel-eq-ok :
      (m : Result (Unit {0}) × Run W C) (n : Exec (Run W C) (Unit {0})) (s s' : Run W C)
      → ((λ _. m) >> n) s ≡ (ok tt, s')
      → (s1 : Run W C) × (m ≡ (ok tt, s1)) × (n s1 ≡ (ok tt, s'))
  sequel-eq-ok (ok u, s1) n s s' e = (s1, refl, e)
  sequel-eq-ok (err x, s1) n s s' e = absurd (cc e)

  -- What a sequence that succeeded has passed through.
  pub >>-eq-ok :
      (m n : Exec (Run W C) (Unit {0})) (s s' : Run W C)
      → (m >> n) s ≡ (ok tt, s')
      → (s1 : Run W C) × (m s ≡ (ok tt, s1)) × (n s1 ≡ (ok tt, s'))
  >>-eq-ok m n s s' e = sequel-eq-ok (m s) n s s' e
