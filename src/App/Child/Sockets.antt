-- ===== src/App/Child/Sockets.antt =====
-- The child names the sockets of its parent by the order of the descriptors.
use mathlib.Core.Path.{subst}
use neon_oss.Base.{
  >>=-eq-ok, ℕ, ◌+◌, Bool-cases, inl, inr, ◌≡◌, ◌≢◌, refl, sym, ap, ◌∙◌, arith, eq_iff, Dict,
  Distinct, get, put, get-put, String, str_eq, List, [], ◌∷◌, ◌++◌, append-nil, append_assoc,
  length, length-append, All, if◌then◌else◌, Option, none, some, Result, ok, err,
}
use neon_oss.App.Child.Dealing.{sockets, taken, dealt, taken-append, length-taken, Distinct-dealt}
use neon_oss.App.Child.{
  file_result, Response, Parent, or_no_listeners, copy_files, copy_listeners, files_of, pass_files,
}

module _ {L : Type 0} (p : Parent L) (name_of : L → String) where
  -- From the descriptor `fd` on stand the sockets, whatever name a file is given.
  abbrev pub AreAt : ℕ → List L → Type 0
  AreAt fd [] = Unit
  AreAt fd (l ∷ ls) = ((file : String) → p.file_listener fd file ≡ ok l) × AreAt (fd + 1) ls

  abbrev pub names : List L → List String
  names [] = []
  names (l ∷ ls) = name_of l ∷ names ls

  -- What the parent answers: each listener's name with the names of its files.
  abbrev pub response_of : Dict (List L) → Response
  response_of [] = []
  response_of ((name, ls) ∷ more) = (name, names ls) ∷ response_of more

  AreAt-append :
      (fd : ℕ) (xs ys : List L) → AreAt fd (xs ++ ys) → AreAt fd xs × AreAt (fd + length xs) ys
  AreAt-append fd [] ys h = (tt, subst (λ n. AreAt n ys) (omega arith) h)
  AreAt-append fd (x ∷ xs) ys h =
      let (a, b) = AreAt-append (fd + 1) xs ys h.1 in
      ((h.0, a), subst (λ n. AreAt n ys) (omega arith) b)

  copied_one :
      (name file : String) (more : List String) (fd : ℕ) (acc : Dict (List L)) (l : L)
      → p.file_listener fd file ≡ ok l
      → copy_files p name (file ∷ more) (fd, acc)
        ≡ copy_files p name more (fd + 1, put name (or_no_listeners (get name acc) ++ l ∷ []) acc)
  unfolding copy_files
  copied_one name file more fd acc l h = rw (h, copy_files) refl

  -- What one name gets.
  abbrev Gets : Dict (List L) → String → List L → Dict (List L) → Type 0
  Gets acc name ls acc' =
      (k : String)
      → or_no_listeners (get k acc')
        ≡ or_no_listeners (get k acc) ++ (if str_eq name k then ls else [])

  Gets-none : (acc : Dict (List L)) (name : String) → Gets acc name [] acc
  Gets-none acc name k = elim (Bool-cases (str_eq name k)) [
    | inl same ↦ rw same (sym (append-nil _))
    | inr other ↦ rw other (sym (append-nil _))
  ]

  put_lookup :
      (acc : Dict (List L)) (name k : String) (ls : List L)
      → or_no_listeners (get k (put name ls acc))
        ≡ (if str_eq name k then ls else or_no_listeners (get k acc))
  put_lookup acc name k ls = ground (arith, get-put name k ls acc)

  Gets-more :
      (acc acc' : Dict (List L)) (name : String) (l : L) (ls : List L)
      → Gets (put name (or_no_listeners (get name acc) ++ l ∷ []) acc) name ls acc'
      → Gets acc name (l ∷ ls) acc'
  Gets-more acc acc' name l ls h k =
      let now = put_lookup acc name k (or_no_listeners (get name acc) ++ l ∷ []) in
      let both : or_no_listeners (get k acc')
          ≡ (if str_eq name k
              then or_no_listeners (get name acc) ++ l ∷ []
              else or_no_listeners (get k acc))
            ++ (if str_eq name k then ls else []) =
        h k ∙ ap (λ x. x ++ (if str_eq name k then ls else [])) now in
      elim (Bool-cases (str_eq name k)) [
        | inl same ↦
            let e = rw same at both in
            rw same (
              e
              ∙ append_assoc (or_no_listeners (get name acc)) (l ∷ []) ls
              ∙ ap (λ n. or_no_listeners (get n acc) ++ l ∷ ls) ((eq_iff name k).0 same))
        | inr other ↦ let e = rw other at both in rw other e
      ]

  copied_files :
      (name : String) (files : List String) (ls : List L) (fd : ℕ) (acc : Dict (List L))
      → length files ≡ length ls
      → AreAt fd ls
      → (acc' : Dict (List L)) × (copy_files p name files (fd, acc) ≡ ok (fd + length ls, acc'))
        × Gets acc name ls acc'
  unfolding copy_files
  copied_files name [] [] fd acc n h =
      (acc, ap (λ n. ok (n, acc)) (omega arith), Gets-none acc name)
  copied_files name (file ∷ files) [] fd acc n h = absurd (omega (arith, n))
  copied_files name [] (l ∷ ls) fd acc n h = absurd (omega (arith, n))
  copied_files name (file ∷ files) (l ∷ ls) fd acc n h =
      let next = put name (or_no_listeners (get name acc) ++ l ∷ []) acc in
      let (acc', e, g) = copied_files name files ls (fd + 1) next (omega (arith, n)) h.1 in
      (
        acc',
        copied_one name file files fd acc l (h.0 file) ∙ e ∙ ap (λ n. ok (n, acc')) (omega arith),
        Gets-more acc acc' name l ls g,
      )

  length-names : (ls : List L) → length (names ls) ≡ length ls
  length-names [] = refl
  length-names (l ∷ ls) = omega (arith, length-names ls)

  -- All sockets under one name.
  abbrev all_of : String → Dict (List L) → List L
  all_of k [] = []
  all_of k ((name, ls) ∷ more) = (if str_eq name k then ls else []) ++ all_of k more

  all_of_absent : (k : String) (m : Dict (List L)) → All (λ e. k ≢ e.0) m → all_of k m ≡ []
  all_of_absent k [] h = refl
  all_of_absent k ((name, ls) ∷ more) h = ground (arith, eq_iff name k, all_of_absent k more h.1)

  all_of-get :
      (k : String) (m : Dict (List L)) → Distinct m → all_of k m ≡ or_no_listeners (get k m)
  unfolding get
  all_of-get k [] h = refl
  all_of-get k ((name, ls) ∷ more) h = elim (Bool-cases (str_eq name k)) [
    | inl same ↦
        let gone =
          all_of_absent k more
            (subst (λ n. All (λ e. n ≢ e.0) more) ((eq_iff name k).0 same) h.0) in
        rw (same, gone) (append-nil ls)
    | inr other ↦ rw other (all_of-get k more h.1)
  ]

  copied_next :
      (name : String) (files : List String) (more : Response) (s s' : ℕ × Dict (List L))
      → copy_files p name files s ≡ ok s'
      → copy_listeners p ((name, files) ∷ more) s ≡ copy_listeners p more s'
  unfolding copy_listeners
  copied_next name files more s s' h = rw (h, copy_listeners) refl

  copied_all :
      (m : Dict (List L)) (s : List L) (fd : ℕ) (acc : Dict (List L))
      → length (sockets m) ≡ length s
      → AreAt fd s
      → (fd' : ℕ) × (acc' : Dict (List L)) × (copy_listeners p (response_of m) (fd, acc)
          ≡ ok (fd', acc'))
        × ((k : String)
            → or_no_listeners (get k acc') ≡ or_no_listeners (get k acc) ++ all_of k (dealt m s))
  unfolding copy_listeners
  copied_all [] s fd acc n h = (fd, acc, refl, λ k. sym (append-nil _))
  copied_all ((name, ls) ∷ more) s fd acc n h =
      let (many, left) =
        length-taken ls s (length (sockets more))
          (omega (arith, n, length-append ls (sockets more))) in
      let (here, later) =
        AreAt-append fd (taken ls s).0 (taken ls s).1
          (subst (λ t. AreAt fd t) (sym (taken-append ls s)) h) in
      let same : length (names ls) ≡ length (taken ls s).0 = length-names ls ∙ sym many in
      let (acc1, e, g) = copied_files name (names ls) (taken ls s).0 fd acc same here in
      let (fd', acc', f, gs) =
        copied_all more (taken ls s).1 (fd + length (taken ls s).0) acc1 left later in
      (
        fd',
        acc',
        copied_next name (names ls) (response_of more) (fd, acc) (fd + length (taken ls s).0, acc1)
              e
            ∙ f,
        λ k.
            gs k
            ∙ ap (λ x. x ++ all_of k (dealt more (taken ls s).1)) (g k)
            ∙ append_assoc _ _ (all_of k (dealt more (taken ls s).1)),
      )

-- When some sockets stand at the descriptors of the child from 3 on, as many as the answer names
-- files, the child has under each name those that are dealt to it.
pub copy_listeners_all :
    {L : Type 0} (p : Parent L) (name_of : L → String) (m : Dict (List L)) (s : List L)
    → Distinct m
    → length (sockets m) ≡ length s
    → AreAt p name_of 3 s
    → (fd : ℕ) × (ls : Dict (List L)) × (copy_listeners p (response_of p name_of m) (3, [])
        ≡ ok (fd, ls))
      × ((k : String) → or_no_listeners (get k ls) ≡ or_no_listeners (get k (dealt m s)))
unfolding get
copy_listeners_all p name_of m s distinct n at =
    let (fd, ls, e, g) = copied_all p name_of m s 3 [] n at in
    (fd, ls, e, λ k. g k ∙ all_of-get p name_of k (dealt m s) (Distinct-dealt m s distinct))

-- The files of the parent, where its loop succeeds.
module _ {L F : Type 0} (file_of : L → Option (Result F)) where
  -- The files of some listeners, one by one.
  abbrev FilesOf : List L → List F → Type 0
  FilesOf [] [] = Unit
  FilesOf [] (f ∷ fs) = ⊥
  FilesOf (l ∷ ls) [] = ⊥
  FilesOf (l ∷ ls) (f ∷ fs) = (file_of l ≡ some (ok f)) × FilesOf ls fs

  -- From the descriptor `fd` on, a file is opened as the listener that it is of.
  abbrev pub AreOpen : Parent L → ℕ → List F → Type 0
  AreOpen p fd [] = Unit
  AreOpen p fd (f ∷ fs) =
      ((l : L) → file_of l ≡ some (ok f) → (name : String) → p.file_listener fd name ≡ ok l)
      × AreOpen p (fd + 1) fs

  AreOpen-AreAt :
      (p : Parent L) (name_of : L → String) (ls : List L) (fs : List F) (fd : ℕ)
      → FilesOf ls fs
      → AreOpen p fd fs
      → AreAt p name_of fd ls
  AreOpen-AreAt p name_of [] fs fd h rest = tt
  AreOpen-AreAt p name_of (l ∷ ls) (f ∷ fs) fd (here, later) (o, rest) =
      (o l here, AreOpen-AreAt p name_of ls fs (fd + 1) later rest)
  AreOpen-AreAt p name_of (l ∷ ls) [] fd h rest = absurd h

  FilesOf-append :
      (xs ys : List L) (fs gs : List F)
      → FilesOf xs fs
      → FilesOf ys gs
      → FilesOf (xs ++ ys) (fs ++ gs)
  FilesOf-append [] ys [] gs h k = k
  FilesOf-append [] ys (f ∷ fs) gs h k = absurd h
  FilesOf-append (x ∷ xs) ys [] gs h k = absurd h
  FilesOf-append (x ∷ xs) ys (f ∷ fs) gs (here, later) k =
      (here, FilesOf-append xs ys fs gs later k)

  file_result-ok : (r : Option (Result F)) (f : F) → file_result file_of r ≡ ok f → r ≡ some (ok f)
  unfolding file_result
  file_result-ok none f h = absurd (cc h)
  file_result-ok (some (err e)) f h = absurd (cc h)
  file_result-ok (some (ok g)) f h = cc h

  files_of-FilesOf :
      (ls : List L) (files got : List F)
      → files_of file_of ls files ≡ ok got
      → (fs : List F) × FilesOf ls fs × (got ≡ files ++ fs)
  unfolding files_of
  files_of-FilesOf [] files got h =
      let same : got ≡ files = cc h in ([], tt, same ∙ sym (append-nil files))
  files_of-FilesOf (l ∷ ls) files got h =
      let (f, here, later) = >>=-eq-ok (file_result file_of (file_of l)) _ h in
      let (fs, of, e) = files_of-FilesOf ls (files ++ f ∷ []) got later in
      (f ∷ fs, (file_result-ok (file_of l) f here, of), e ∙ append_assoc files (f ∷ []) fs)

  pass_files-FilesOf :
      (m : Dict (List L)) (files got : List F)
      → pass_files file_of m files ≡ ok got
      → (fs : List F) × FilesOf (sockets m) fs × (got ≡ files ++ fs)
  unfolding pass_files
  pass_files-FilesOf [] files got h =
      let same : got ≡ files = cc h in ([], tt, same ∙ sym (append-nil files))
  pass_files-FilesOf ((name, ls) ∷ more) files got h =
      let (files', here, later) = >>=-eq-ok (files_of file_of ls files) _ h in
      let (fs, of, e) = files_of-FilesOf ls files files' here in
      let (gs, ofs, e') = pass_files-FilesOf more files' got later in
      (
        fs ++ gs,
        FilesOf-append ls (sockets more) fs gs of ofs,
        e' ∙ ap (λ x. x ++ gs) e ∙ append_assoc files fs gs,
      )

  pub pass_files-AreAt :
      (p : Parent L) (name_of : L → String) (m : Dict (List L)) (files : List F)
      → pass_files file_of m [] ≡ ok files
      → AreOpen p 3 files
      → AreAt p name_of 3 (sockets m)
  pass_files-AreAt p name_of m files h o =
      let (fs, of, e) = pass_files-FilesOf m [] files h in
      AreOpen-AreAt p name_of (sockets m) fs 3 of (subst (λ f. AreOpen p 3 f) e o)
