-- ===== src/App/Handover.antt =====
-- The child replaces its parent only after the whole handshake.
use mathlib.Core.Path.{subst}
use neon_oss.Base.{
  if◌then◌else◌, ◌&&◌, Bool, true, false, List, [], ◌∷◌, ◌++◌, String, Result, ok, err, ◌≡◌, refl,
  arith, eq_iff, str_eq, Bool-cases, inl, inr, ◌⊎◌, ◌||◌, ◌∙◌, sym, ap,
}
use neon_oss.App.{
  first_progress, handle_child, after, Line, Event, reply, report, done, crash, Naming, complete,
  panics, reports, before, Progress, Turn, returns, goes_on, written, saying, offer, with_key,
  on_hello, on_reload, on_ready, turn,
}

-- The word that the child is ready is among the events.
abbrev pub sends_done : List Event → Bool
sends_done [] = false
sends_done (done ∷ more) = true
sends_done (reply t ∷ more) = sends_done more
sends_done (report e ∷ more) = sends_done more
sends_done (crash ∷ more) = sends_done more

sends_done-append : (a b : List Event) → sends_done (a ++ b) ≡ (sends_done a || sends_done b)
sends_done-append [] b = refl
sends_done-append (done ∷ more) b = refl
sends_done-append (reply t ∷ more) b = sends_done-append more b
sends_done-append (report e ∷ more) b = sends_done-append more b
sends_done-append (crash ∷ more) b = sends_done-append more b

reports-silent : (es : List String) (b : List Event) → sends_done (reports es ++ b) ≡ sends_done b
unfolding reports
reports-silent [] b = refl
reports-silent (e ∷ es) b = reports-silent es b

-- Some lines satisfy the predicates, one after another, with any lines between them.
abbrev pub Follows : List (Line → Type 0) → List Line → Type 0
Follows [] lines = Unit
Follows (P ∷ more) [] = ⊥
Follows (P ∷ more) (l ∷ lines) = (P l × Follows more lines) ⊎ Follows (P ∷ more) lines

pub IsHello : Line → Type 0
IsHello l = l.cmd ≡ "HELLO"

pub IsReady : Line → Type 0
IsReady l = l.cmd ≡ "READY"

if-true : {A : Type 0} (b : Bool) (x y : A) → b ≡ true → (if b then x else y) ≡ x
if-true true x y h = refl
if-true false x y h = absurd (cc h)

if-false : {A : Type 0} (b : Bool) (x y : A) → b ≡ false → (if b then x else y) ≡ y
if-false true x y h = absurd (cc h)
if-false false x y h = refl

module _ (parse_key : String → Result String) (key : String) where
  -- A request with the key that the parent gave its child.
  pub IsReload : Line → Type 0
  IsReload l = (l.cmd ≡ "RELOAD") × (parse_key l.payload ≡ ok key)

  is_reload :
      (l : Line) (k : String) → l.cmd ≡ "RELOAD" → parse_key l.payload ≡ ok k → k ≡ key → IsReload l
  unfolding IsReload
  is_reload l k cmd parsed same = (cmd, parsed ∙ ap ok same)

-- What a turn may do: it ends without the word, it goes on without it, or it sends it.
module _ (write : String → Result (Unit {0})) (parse_key : String → Result String)
    (listeners : Naming (Result String)) (key : String) where
  -- What one line may bring about.
  data Step (line : Line) (s : Progress) : Turn → Type 0 where
    ends : (events : List Event) → sends_done events ≡ false → Step line s (returns events)
    stays : (events : List Event) → sends_done events ≡ false → Step line s (goes_on events s)
    greets :
        (events : List Event)
        → sends_done events ≡ false
        → IsHello line
        → Step line s (goes_on events (record s { hello = true }))
    reloads :
        (events : List Event)
        → sends_done events ≡ false
        → s.hello ≡ true
        → IsReload parse_key key line
        → Step line s (goes_on events (record s { reload = true }))
    readies :
        (events : List Event)
        → s.hello ≡ true
        → s.reload ≡ true
        → IsReady line
        → Step line s (goes_on events s)

  written-Step :
      (line : Line) (s : Progress) (text : String) (r : Result (Unit {0})) (t : Turn)
      → Step line s t
      → Step line s (written write text r t)
  unfolding written
  written-Step line s text (err e) t h = ends (report _ ∷ []) refl
  written-Step line s text (ok u) _ (ends events h) = ends (reply text ∷ events) h
  written-Step line s text (ok u) _ (stays events h) = stays (reply text ∷ events) h
  written-Step line s text (ok u) _ (greets events h is) = greets (reply text ∷ events) h is
  written-Step line s text (ok u) _ (reloads events h on is) = reloads (reply text ∷ events) h on is
  written-Step line s text (ok u) _ (readies events on ready is) =
      readies (reply text ∷ events) on ready is

  saying-Step :
      (line : Line) (s : Progress) (text : String) (t : Turn)
      → Step line s t
      → Step line s (saying write text t)
  unfolding saying
  saying-Step line s text t h = written-Step line s text (write text) t h

  before-Step :
      (line : Line) (s : Progress) (es : List String) (t : Turn)
      → Step line s t
      → Step line s (before (reports es) t)
  unfolding before
  before-Step line s es _ (ends events h) =
      ends (reports es ++ events) (reports-silent es events ∙ h)
  before-Step line s es _ (stays events h) =
      stays (reports es ++ events) (reports-silent es events ∙ h)
  before-Step line s es _ (greets events h is) =
      greets (reports es ++ events) (reports-silent es events ∙ h) is
  before-Step line s es _ (reloads events h on is) =
      reloads (reports es ++ events) (reports-silent es events ∙ h) on is
  before-Step line s es _ (readies events on ready is) = readies (reports es ++ events) on ready is

  offer-Step :
      (line : Line) (s : Progress) (r : Naming (Result String))
      → s.hello ≡ true
      → IsReload parse_key key line
      → Step line s (offer write parse_key listeners key r s)
  unfolding offer
  offer-Step line s (panics es) on is = ends _ (reports-silent es (crash ∷ []))
  offer-Step line s (complete es (err e)) on is = ends _ (reports-silent es (report e ∷ []))
  offer-Step line s (complete es (ok response)) on is =
      before-Step line s es _
        (saying-Step line s _ (goes_on [] (record s { reload = true })) (reloads [] refl on is))

  with_key-Step :
      (line : Line) (s : Progress) (r : Result String)
      → s.hello ≡ true
      → line.cmd ≡ "RELOAD"
      → parse_key line.payload ≡ r
      → Step line s (with_key write parse_key listeners key r s)
  unfolding with_key
  with_key-Step line s (err e) on cmd parsed = stays [] refl
  with_key-Step line s (ok k) on cmd parsed = elim (Bool-cases (str_eq k key)) [
    | inl right ↦ rw right (
        offer-Step line s listeners on
          (is_reload parse_key key line k cmd parsed ((eq_iff k key).0 right)))
    | inr wrong ↦ rw wrong (saying-Step line s "ERROR:invalid key" (returns []) (ends [] refl))
  ]

  reload-Step :
      (line : Line) (s : Progress)
      → line.cmd ≡ "RELOAD"
      → Step line s (on_reload write parse_key listeners key line.payload s)
  unfolding on_reload
  reload-Step line s cmd = elim (Bool-cases s.hello) [
    | inl on ↦
        subst (Step line s) (sym (if-true s.hello _ _ on))
          (with_key-Step line s (parse_key line.payload) on cmd refl)
    | inr off ↦
        subst (Step line s) (sym (if-false s.hello _ _ off))
          (saying-Step line s "ERROR" (returns []) (ends [] refl))
  ]

  ready-Step :
      (line : Line) (s : Progress)
      → line.cmd ≡ "READY"
      → Step line s (on_ready write parse_key listeners key line.payload s)
  unfolding on_ready IsReady
  ready-Step line s cmd = elim (Bool-cases (s.hello && s.reload)) [
    | inl both ↦ subst (Step line s) (sym (if-true (s.hello && s.reload) _ _ both)) (
        saying-Step line s _ (goes_on (done ∷ []) s)
          (readies (done ∷ []) (ground (arith, both)) (ground (arith, both)) cmd))
    | inr missing ↦
        subst (Step line s) (sym (if-false (s.hello && s.reload) _ _ missing))
          (saying-Step line s "ERROR" (returns []) (ends [] refl))
  ]

  turn-Step : (line : Line) (s : Progress) → Step line s (turn write parse_key listeners key line s)
  unfolding turn on_hello IsHello
  turn-Step line s = elim (Bool-cases (str_eq line.cmd "HELLO")) [
    | inl hello ↦ subst (Step line s) (sym (if-true _ _ _ hello)) (
        saying-Step line s "HELLO" (goes_on [] (record s { hello = true }))
          (greets [] refl ((eq_iff line.cmd "HELLO").0 hello)))
    | inr not_hello ↦
        subst (Step line s) (sym (if-false _ _ _ not_hello))
          (elim (Bool-cases (str_eq line.cmd "RELOAD")) [
            | inl reload ↦
                subst (Step line s) (sym (if-true _ _ _ reload))
                  (reload-Step line s ((eq_iff line.cmd "RELOAD").0 reload))
            | inr not_reload ↦
                subst (Step line s) (sym (if-false _ _ _ not_reload))
                  (elim (Bool-cases (str_eq line.cmd "READY")) [
                    | inl ready ↦
                        subst (Step line s) (sym (if-true _ _ _ ready))
                          (ready-Step line s ((eq_iff line.cmd "READY").0 ready))
                    | inr other ↦
                        subst (Step line s) (sym (if-false _ _ _ other))
                          (saying-Step line s "ERROR" (goes_on [] s) (stays [] refl))
                  ])
          ])
  ]

  -- What is still to come before the word is sent.
  abbrev needed : Bool → Bool → List (Line → Type 0)
  needed hello true = IsReady ∷ []
  needed true false = IsReload parse_key key ∷ IsReady ∷ []
  needed false false = IsHello ∷ IsReload parse_key key ∷ IsReady ∷ []

  later :
      (Ps : List (Line → Type 0)) (line : Line) (lines : List Line)
      → Follows Ps lines
      → Follows Ps (line ∷ lines)
  later [] line lines h = tt
  later (P ∷ more) line lines h = inr h

  -- The word comes from the later lines if this line's own events do not hold it.
  from_rest :
      (events rest : List Event)
      → sends_done events ≡ false
      → sends_done (events ++ rest) ≡ true
      → sends_done rest ≡ true
  from_rest events rest h sent = ground (arith, sends_done-append events rest, h, sent)

  greeted-Follows :
      (hello reload : Bool) (line : Line) (lines : List Line)
      → IsHello line
      → Follows (needed true reload) lines
      → Follows (needed hello reload) (line ∷ lines)
  greeted-Follows hello true line lines is h = inr h
  greeted-Follows true false line lines is h = inr h
  greeted-Follows false false line lines is h = inl (is, h)

  reloaded-Follows :
      (reload : Bool) (line : Line) (lines : List Line)
      → IsReload parse_key key line
      → Follows (needed true true) lines
      → Follows (needed true reload) (line ∷ lines)
  reloaded-Follows true line lines is h = inr h
  reloaded-Follows false line lines is h = inl (is, h)

  after-Follows :
      (line : Line) (lines : List Line) (s : Progress) (t : Turn) (rest : Progress → List Event)
      → Step line s t
      → ((s' : Progress) → sends_done (rest s') ≡ true → Follows (needed s'.hello s'.reload) lines)
      → sends_done (after t rest) ≡ true
      → Follows (needed s.hello s.reload) (line ∷ lines)
  after-Follows line lines s _ rest (ends events h) later_lines sent = absurd (cc (h, sent))
  after-Follows line lines s _ rest (stays events h) later_lines sent =
      later (needed s.hello s.reload) line lines (later_lines s (from_rest events (rest s) h sent))
  after-Follows line lines s _ rest (greets events h is) later_lines sent =
      greeted-Follows s.hello s.reload line lines is (
        later_lines (record s { hello = true })
          (from_rest events (rest (record s { hello = true })) h sent))
  after-Follows line lines s _ rest (reloads events h on is) later_lines sent =
      subst (λ b. Follows (needed b s.reload) (line ∷ lines)) (sym on)
        (reloaded-Follows s.reload line lines is (
          subst (λ b. Follows (needed b true) lines) on
            (later_lines (record s { reload = true })
              (from_rest events (rest (record s { reload = true })) h sent))))
  after-Follows line lines s _ rest (readies events on ready is) later_lines sent =
      subst (λ b. Follows (needed s.hello b) (line ∷ lines)) (sym ready) (inl (is, tt))

  handle_child-needed :
      (scan_err : Result (Unit {0})) (lines : List Line) (s : Progress)
      → sends_done (handle_child write parse_key listeners key scan_err lines s) ≡ true
      → Follows (needed s.hello s.reload) lines
  unfolding handle_child
  handle_child-needed (ok u) [] s sent = absurd (cc sent)
  handle_child-needed (err e) [] s sent = absurd (cc sent)
  handle_child-needed scan_err (line ∷ more) s sent =
      after-Follows line more s (turn write parse_key listeners key line s) _ (turn-Step line s)
        (λ s' sent'. handle_child-needed scan_err more s' sent') sent

  -- The parent stops for its child only after a whole handshake: whenever `handleChild` sends the
  -- word that the child is ready, it has read a greeting, later a request with the very key that
  -- was given to the child, and later the line that the child is ready; whatever else was read
  -- between, and whichever writes fail.
  pub handle_child-Follows :
      (scan_err : Result (Unit {0})) (lines : List Line)
      → sends_done (handle_child write parse_key listeners key scan_err lines first_progress) ≡ true
      → Follows (IsHello ∷ IsReload parse_key key ∷ IsReady ∷ []) lines
  handle_child-Follows scan_err lines sent = handle_child-needed scan_err lines first_progress sent
