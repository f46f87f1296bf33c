-- ===== src/App/Child/Dealing.antt =====
-- internal/app/neon/app.go: the loop of `reload` over the listeners orders their files, and the loop
-- of `handleChild` over them, in an order of its own, orders their names. This is what the names get
-- when the files are dealt to them by position.
use neon_oss.Base.{
  ℕ, ◌+◌, ◌≡◌, ◌≢◌, refl, ap, ◌∙◌, arith, Dict, Distinct, String, List, [], ◌∷◌, ◌++◌, length, All,
  append_assoc, append-nil, sym,
}

module _ {L : Type 0} where
  -- All sockets, in the order of the names.
  abbrev pub sockets : Dict (List L) → List L
  sockets [] = []
  sockets ((name, ls) ∷ more) = ls ++ sockets more

  -- The first sockets, as many as a list has items, and the rest.
  abbrev pub taken : List L → List L → List L × List L
  taken [] s = ([], s)
  taken (l ∷ ls) [] = ([], [])
  taken (l ∷ ls) (x ∷ s) = let (here, rest) = taken ls s in (x ∷ here, rest)

  -- Each name gets as many sockets as it has, from the front of a list.
  abbrev pub dealt : Dict (List L) → List L → Dict (List L)
  dealt [] s = []
  dealt ((name, ls) ∷ more) s = let (here, rest) = taken ls s in (name, here) ∷ dealt more rest

  pub taken-append : (ls s : List L) → (taken ls s).0 ++ (taken ls s).1 ≡ s
  taken-append [] s = refl
  taken-append (l ∷ ls) [] = refl
  taken-append (l ∷ ls) (x ∷ s) = ap (λ t. x ∷ t) (taken-append ls s)

  pub length-taken :
      (ls s : List L) (n : ℕ)
      → length ls + n ≡ length s
      → (length (taken ls s).0 ≡ length ls) × (n ≡ length (taken ls s).1)
  length-taken [] s n h = (refl, omega (arith, h))
  length-taken (l ∷ ls) [] n h = absurd (omega (arith, h))
  length-taken (l ∷ ls) (x ∷ s) n h =
      let (a, b) = length-taken ls s n (omega (arith, h)) in (omega (arith, a), b)

  taken-all : (ls rest : List L) → taken ls (ls ++ rest) ≡ (ls, rest)
  taken-all [] rest = refl
  taken-all (l ∷ ls) rest = ap (λ (p : List L × List L). (l ∷ p.0, p.1)) (taken-all ls rest)

  -- In the same order each name has its own sockets.
  pub dealt-same : (m : Dict (List L)) → dealt m (sockets m) ≡ m
  dealt-same [] = refl
  dealt-same ((name, ls) ∷ more) =
      ap (λ (p : List L × List L). (name, p.0) ∷ dealt more p.1) (taken-all ls (sockets more))
      ∙ ap (λ m. (name, ls) ∷ m) (dealt-same more)

  empty-of : (s : List L) → 0 ≡ length s → [] ≡ s
  empty-of [] h = refl
  empty-of (x ∷ s) h = absurd (omega (arith, h))

  -- No socket is lost.
  pub sockets-dealt :
      (m : Dict (List L)) (s : List L) → length (sockets m) ≡ length s → sockets (dealt m s) ≡ s
  sockets-dealt [] s h = empty-of s h
  sockets-dealt ((name, ls) ∷ more) s h =
      let (a, b) =
        length-taken ls s (length (sockets more))
          (omega (arith, h, neon_oss.Base.length-append ls (sockets more))) in
      ap (λ t. (taken ls s).0 ++ t) (sockets-dealt more (taken ls s).1 b) ∙ taken-append ls s

  All-dealt :
      (k : String) (m : Dict (List L)) (s : List L)
      → All (λ e. k ≢ e.0) m
      → All (λ e. k ≢ e.0) (dealt m s)
  All-dealt k [] s h = tt
  All-dealt k ((name, ls) ∷ more) s h = (h.0, All-dealt k more (taken ls s).1 h.1)

  pub Distinct-dealt : (m : Dict (List L)) (s : List L) → Distinct m → Distinct (dealt m s)
  Distinct-dealt [] s h = tt
  Distinct-dealt ((name, ls) ∷ more) s h =
      (All-dealt name more (taken ls s).1 h.0, Distinct-dealt more (taken ls s).1 h.1)
