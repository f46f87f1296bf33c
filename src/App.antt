-- ===== src/App.antt =====
-- internal/app/neon/app.go, `handleChild`: the instance hands its listeners over to the child
-- process that is to replace it. A line is a command and its data, as `bytes.Cut` gives them at the
-- first colon. The decoding of the key, `Listeners` of the server, the marshalling of the answer
-- and the writes to the connection are parameters.
pub mod Handover
pub mod Child
pub mod Life
pub mod Setup
use neon_oss.Base.{
  Dict, Option, none, some, wrap, Bool, true, false, List, [], ◌∷◌, ◌++◌, String, Result, ok, err,
  str_eq, if◌then◌else◌, ◌&&◌, not, ◌||◌,
}
use neon_oss.Strings.{◌+++◌}

pub record Line : Type 0 where
  pub cmd : String
  pub payload : String

-- A line for the child, an error for `reload`, the word that the child is ready, or a panic, which
-- ends the program.
pub data Event : Type 0 where
  reply : String → Event
  report : String → Event
  done : Event
  crash : Event

-- What a loop comes to that goes on after it has reported an error: its errors with its result, or
-- up to a panic.
pub data Naming (A : Type 0) : Type 0 where
  complete : List String → A → Naming A
  panics : List String → Naming A

after_reports : {A : Type 0} → List String → Naming A → Naming A
after_reports es (complete es' a) = complete (es ++ es') a
after_reports es (panics es') = panics (es ++ es')

and_then : {A B : Type 0} → Naming A → (A → Naming B) → Naming B
and_then (complete es a) next = after_reports es (next a)
and_then (panics es) next = panics es

-- A file before the others: that of a listener of an unknown type is left out.
named_file : Option (Result String) → Naming (List String) → Naming (List String)
unfolding and_then after_reports
named_file none rest = after_reports ("invalid listener type" ∷ []) rest
named_file (some (err e)) rest = panics (("get listener file: " +++ e) ∷ [])
named_file (some (ok name)) rest = and_then rest λ names. complete [] (name ∷ names)

-- The answer to the child: each listener's name with the names of its files. `file_name` is the
-- switch on the type of a listener, with the calls of `File` and of `Name`: the nil file of a failed
-- `File` has no name.
module _ {L : Type 0} (file_name : L → Option (Result String)) where
  pub name_files : List L → Naming (List String)
  unfolding named_file
  name_files [] = complete [] []
  name_files (l ∷ ls) = named_file (file_name l) (name_files ls)

  pub name_listeners : Dict (List L) → Naming (Dict (List String))
  unfolding name_files and_then after_reports
  name_listeners [] = complete [] []
  name_listeners ((name, ls) ∷ more) =
      let rest = name_listeners more in
      and_then (name_files ls)
        λ files. and_then rest λ response. complete [] ((name, files) ∷ response)

  -- The answer as a text, of what `Listeners` gives.
  unfoldable pub described :
      (Dict (List String) → Result String) → Result (Dict (List L)) → Naming (Result String)
  unfolding name_listeners and_then after_reports
  described marshal (err e) = complete [] (err ("get listeners: " +++ e))
  described marshal (ok ls) =
      and_then (name_listeners ls)
        λ response. complete [] (wrap "marshal reload response: " (marshal response))

-- The variables `hello` and `reload`.
pub record Progress : Type 0 where
  pub hello : Bool
  pub reload : Bool

-- What a case of the `switch` does: it returns, or goes on to the next line.
pub data Turn : Type 0 where
  returns : List Event → Turn
  goes_on : List Event → Progress → Turn

pub reports : List String → List Event
reports [] = []
reports (e ∷ es) = report e ∷ reports es

pub before : List Event → Turn → Turn
before events (returns more) = returns (events ++ more)
before events (goes_on more s) = goes_on (events ++ more) s

-- The events of a turn, and of what follows if it goes on.
abbrev pub after : Turn → (Progress → List Event) → List Event
after (returns events) rest = events
after (goes_on events s) rest = events ++ rest s

module _ (write : String → Result (Unit {0})) where
  -- A write: the connection's error is reported, and ends the handler.
  written : String → Result (Unit {0}) → Turn → Turn
  written text (err e) next = returns (report ("write: " +++ e) ∷ [])
  written text (ok u) (returns events) = returns (reply text ∷ events)
  written text (ok u) (goes_on events s) = goes_on (reply text ∷ events) s

  saying : String → Turn → Turn
  saying text next = written text (write text) next

  module _ (parse_key : String → Result String) (listeners : Naming (Result String))
      (key : String) where
    offer : Naming (Result String) → Progress → Turn
    unfolding reports before
    offer (panics es) s = returns (reports es ++ crash ∷ [])
    offer (complete es (err e)) s = returns (reports es ++ report e ∷ [])
    offer (complete es (ok response)) s =
        before (reports es) (saying ("OK " +++ response) (goes_on [] (record s { reload = true })))

    with_key : Result String → Progress → Turn
    with_key (err e) s = goes_on [] s
    with_key (ok k) s =
        if str_eq k key then offer listeners s else saying "ERROR:invalid key" (returns [])

    on_hello : Progress → Turn
    on_hello s = saying "HELLO" (goes_on [] (record s { hello = true }))

    on_reload : String → Progress → Turn
    on_reload payload s =
        if s.hello then with_key (parse_key payload) s else saying "ERROR" (returns [])

    on_ready : String → Progress → Turn
    on_ready payload s =
        if s.hello && s.reload
        then saying ("OK " +++ payload) (goes_on (done ∷ []) s)
        else saying "ERROR" (returns [])

    -- The `switch` on the command.
    unfoldable pub turn : Line → Progress → Turn
    unfolding on_hello on_reload on_ready with_key offer saying written
    turn line s =
        if str_eq line.cmd "HELLO"
        then on_hello s
        else if str_eq line.cmd "RELOAD"
        then on_reload line.payload s
        else if str_eq line.cmd "READY"
        then on_ready line.payload s
        else saying "ERROR" (goes_on [] s)

    -- The loop over the lines, with the error of the scanner after the last one.
    unfoldable pub handle_child : Result (Unit {0}) → List Line → Progress → List Event
    handle_child (ok u) [] s = []
    handle_child (err e) [] s = report ("read: " +++ e) ∷ []
    handle_child scan_err (line ∷ more) s = after (turn line s) λ s'. handle_child scan_err more s'

-- `hello` and `reload` at the start.
abbrev pub first_progress : Progress
first_progress = record { hello = false; reload = false }
