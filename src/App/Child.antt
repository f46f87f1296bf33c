-- ===== src/App/Child.antt =====
-- internal/app/neon/app.go, `child`: the child process asks its parent for the listeners. The
-- lines that it reads are without their ends. The connection's writes, the JSON texts and
-- `net.FileListener` are parameters.
pub mod Cutting
pub mod Dealing
pub mod Sockets
pub mod Handshake
use Prim.Native.Char.{code}
use neon_oss.Base.{
  ◌>>=◌, ℕ, ◌+◌, Dict, get, put, String, str_eq, ◌==◌, List, [], ◌∷◌, ◌++◌, if◌then◌else◌, Option,
  none, some, Result, ok, err, wrap,
}
use neon_oss.Strings.{◌+++◌}

-- `bytes.Cut` at a separator of one character: the whole text and nothing where there is none.
unfoldable pub cut : ℕ → String → String × String
cut sep String.[] = ("", "")
cut sep (String.◌∷◌ c s) =
    let (before, after) = cut sep s in
    if code c == sep then ("", s) else (String.◌∷◌ c before, after)

-- `childReloadResponse`: each listener's name with the names of its files.
abbrev pub Response : Type 0
Response = Dict (List String)

-- What the child calls; `L` is a network listener.
pub record Parent (L : Type 0) : Type 0 where
  pub write : String → Result (Unit {0})
  pub encode_request : String → Result String
  pub decode_response : String → Result Response
  pub file_listener : ℕ → String → Result L

-- What the child has written, the listeners that it has, and what it returns.
pub record Outcome (L : Type 0) : Type 0 where
  pub said : List String
  pub listeners : Dict (List L)
  pub result : Result (Unit {0})

abbrev pub or_no_listeners : {L : Type 0} → Option (List L) → List L
or_no_listeners none = []
or_no_listeners (some ls) = ls

module _ {L : Type 0} (p : Parent L) where
  -- The loop over the files of one listener: the descriptors count on.
  unfoldable pub copy_files : String → List String → ℕ × Dict (List L) → Result (ℕ × Dict (List L))
  copy_files name [] s = ok s
  copy_files name (file ∷ more) (fd, ls) =
      let rest = copy_files name more in
      elim (p.file_listener fd file) [
        | err e ↦ err ("copy network listener: " +++ e)
        | ok l ↦ rest (fd + 1, put name (or_no_listeners (get name ls) ++ l ∷ []) ls)
      ]

  -- The loop over the listeners of the response.
  unfoldable pub copy_listeners : Response → ℕ × Dict (List L) → Result (ℕ × Dict (List L))
  unfolding copy_files
  copy_listeners [] s = ok s
  copy_listeners ((name, files) ∷ more) s = elim (copy_files name files s) [
    | err e ↦ err e
    | ok s' ↦ copy_listeners more s'
  ]

  ended : Dict (List L) → Result (Unit {0}) → Outcome L
  ended ls r = record { said = []; listeners = ls; result = r }

  saying : String → Outcome L → Outcome L
  saying text o = record o { said = text ∷ o.said }

  -- A write: an error ends the child.
  written : String → String → Dict (List L) → Result (Unit {0}) → Outcome L → Outcome L
  written text prefix ls (err e) next = ended ls (err (prefix +++ e))
  written text prefix ls (ok u) next = saying text next

  sends : String → String → Dict (List L) → Outcome L → Outcome L
  sends text prefix ls next = written text prefix ls (p.write text) next

  -- After the last line: the scanner's error, or none.
  no_line : Result (Unit {0}) → Dict (List L) → Outcome L
  no_line (err e) ls = ended ls (err ("read: " +++ e))
  no_line (ok u) ls = ended ls (err "not ready")

  -- The line after `READY`.
  on_ready : Result (Unit {0}) → Dict (List L) → List String → Outcome L
  on_ready scan_err ls [] = no_line scan_err ls
  on_ready scan_err ls (line ∷ more) =
      ended ls (if str_eq (cut b' ' line).0 "OK" then ok tt else err "ready")

  copied : Result (Unit {0}) → List String → Result (ℕ × Dict (List L)) → Outcome L
  copied scan_err more (err e) = ended [] (err e)
  copied scan_err more (ok (fd, ls)) = sends "READY" "send ready: " ls (on_ready scan_err ls more)

  decoded : Result (Unit {0}) → List String → Result Response → Outcome L
  decoded scan_err more (err e) = ended [] (err ("decode reload response: " +++ e))
  decoded scan_err more (ok response) = copied scan_err more (copy_listeners response (3, []))

  -- The line after the request: the descriptors of the child begin at 3.
  on_reload : Result (Unit {0}) → List String → Outcome L
  on_reload scan_err [] = no_line scan_err []
  on_reload scan_err (line ∷ more) =
      if str_eq (cut b' ' line).0 "OK"
      then decoded scan_err more (p.decode_response (cut b' ' line).1)
      else ended [] (err "reload")

  requested : Result (Unit {0}) → List String → Result String → Outcome L
  requested scan_err more (err e) = ended [] (err "encode reload request")
  requested scan_err more (ok request) =
      sends ("RELOAD:" +++ request) "send reload: " [] (on_reload scan_err more)

  -- The loop over the lines: what is not a greeting is passed over.
  read_lines : Result (Unit {0}) → String → List String → Outcome L
  read_lines scan_err key [] = no_line scan_err []
  read_lines scan_err key (line ∷ more) =
      let rest = read_lines scan_err key more in
      if str_eq (cut b':' line).0 "HELLO"
      then requested scan_err more (p.encode_request key)
      else rest

  -- `child`, once it is connected.
  unfoldable pub child : Result (Unit {0}) → String → List String → Outcome L
  unfolding read_lines requested on_reload decoded copied on_ready no_line sends written saying
      ended
  child scan_err key lines = sends "HELLO" "write: " [] (read_lines scan_err key lines)

-- `reload` hands the files of all listeners to the child, in the order of its loop. `file_of` is the
-- switch on the type of a listener, which knows two of them, with the call of `File` there.
module _ {L F : Type 0} (file_of : L → Option (Result F)) where
  unfoldable pub file_result : Option (Result F) → Result F
  file_result none = err "invalid listener type"
  file_result (some (err e)) = err ("get listener file: " +++ e)
  file_result (some (ok f)) = ok f

  unfoldable pub files_of : List L → List F → Result (List F)
  unfolding file_result
  files_of [] files = ok files
  files_of (l ∷ ls) files = file_result (file_of l) >>= λ f. files_of ls (files ++ f ∷ [])

  unfoldable pub pass_files : Dict (List L) → List F → Result (List F)
  unfolding files_of
  pass_files [] files = ok files
  pass_files ((name, ls) ∷ more) files = files_of ls files >>= λ files'. pass_files more files'
