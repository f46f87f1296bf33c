-- ===== src/App/Child/Handshake.antt =====
-- The two sides of the handshake together: `handleChild` of the parent and `child`.
use neon_oss.Base.{
  ℕ, ◌≡◌, refl, eq_iff, true, false, Dict, get, Distinct, length, String, List, [], ◌∷◌, ◌++◌, map,
  Option, Result, ok,
}
use neon_oss.Strings.{◌+++◌}
use neon_oss.App.{
  after_reports, and_then, named_file, some, complete, name_files, name_listeners, described, Line,
  reply, done, Progress, goes_on, turn, handle_child, first_progress,
}
use neon_oss.App.Child.{
  or_no_listeners, pass_files, cut, Response, Parent, copy_listeners, child, ended, saying, written,
  sends, no_line, on_ready, copied, decoded, on_reload, requested, read_lines,
}
use neon_oss.App.Child.Dealing.{sockets, dealt, sockets-dealt, dealt-same}
use neon_oss.App.Child.Sockets.{names, response_of, AreOpen, pass_files-AreAt, copy_listeners_all}
use neon_oss.App.Child.Cutting.{cut_word, ends_with_sep}

-- `bytes.Cut(s.Bytes(), []byte(":"))` of the parent.
unfoldable pub line_of : String → Line
unfolding cut
line_of text = let (cmd, payload) = cut b':' text in record { cmd = cmd; payload = payload }

pub lines_of : List String → List Line
lines_of [] = []
lines_of (t ∷ ts) = line_of t ∷ lines_of ts

cut_reload : (request : String) → cut b':' ("RELOAD:" +++ request) ≡ ("RELOAD", request)
unfolding cut ends_with_sep
cut_reload request = cut_word b':' "RELOAD:" request refl

cut_ok : (response : String) → cut b' ' ("OK " +++ response) ≡ ("OK", response)
unfolding cut ends_with_sep
cut_ok response = cut_word b' ' "OK " response refl

module _ (write : String → Result (Unit {0})) (parse_key : String → Result String)
    (response key : String) (wrote : (t : String) → write t ≡ ok tt) where
  turn_hello :
      (payload : String) (s : Progress)
      → turn write parse_key
          (complete [] (ok response))
          key
          (record { cmd = "HELLO"; payload = payload })
          s
        ≡ goes_on (reply "HELLO" ∷ []) (record s { hello = true })
  unfolding turn
  turn_hello payload s = rw (wrote "HELLO") refl

  turn_reload :
      (payload : String) (s : Progress)
      → s.hello ≡ true
      → parse_key payload ≡ ok key
      → turn write parse_key
          (complete [] (ok response))
          key
          (record { cmd = "RELOAD"; payload = payload })
          s
        ≡ goes_on (reply ("OK " +++ response) ∷ []) (record s { reload = true })
  unfolding turn
  turn_reload payload s greeted parsed =
      rw (greeted, parsed, (eq_iff key key).1 refl, wrote ("OK " +++ response)) refl

  turn_ready :
      (payload : String) (s : Progress)
      → s.hello ≡ true
      → s.reload ≡ true
      → turn write parse_key
          (complete [] (ok response))
          key
          (record { cmd = "READY"; payload = payload })
          s
        ≡ goes_on (reply ("OK " +++ payload) ∷ done ∷ []) s
  unfolding turn
  turn_ready payload s greeted reloaded = rw (greeted, reloaded, wrote ("OK " +++ payload)) refl

  parent_side :
      (request : String)
      → parse_key request ≡ ok key
      → handle_child write parse_key
          (complete [] (ok response))
          key
          (ok tt)
          (lines_of ("HELLO" ∷ ("RELOAD:" +++ request) ∷ "READY" ∷ []))
          first_progress
        ≡ reply "HELLO" ∷ reply ("OK " +++ response) ∷ reply ("OK " +++ "") ∷ done ∷ []
  unfolding handle_child line_of lines_of cut
  parent_side request parsed =
      let greeted : Progress = record { hello = true; reload = false } in
      let reloaded : Progress = record { hello = true; reload = true } in
      rw
        (
          turn_hello "" first_progress,
          cut_reload request,
          turn_reload request greeted refl parsed,
          turn_ready "" reloaded refl refl,
        )
        refl

module _ {L : Type 0} (p : Parent L) (wrote : (t : String) → p.write t ≡ ok tt) where
  child_side :
      (request response key : String) (resp : Response) (fd : ℕ) (ls : Dict (List L))
      → p.encode_request key ≡ ok request
      → p.decode_response response ≡ ok resp
      → copy_listeners p resp (3, []) ≡ ok (fd, ls)
      → child p (ok tt) key ("HELLO" ∷ ("OK " +++ response) ∷ ("OK " +++ "") ∷ []) ≡ record {
        said = "HELLO" ∷ ("RELOAD:" +++ request) ∷ "READY" ∷ [];
        listeners = ls;
        result = ok tt;
      }
  unfolding child cut read_lines requested on_reload decoded copied on_ready no_line sends written
      saying ended
  child_side request response key resp fd ls encoded answer copies =
      rw
        (
          wrote "HELLO",
          encoded,
          wrote ("RELOAD:" +++ request),
          cut_ok response,
          answer,
          copies,
          wrote "READY",
        )
        refl

-- The answer of the parent, where every file has its name.
module _ {L : Type 0} (p : Parent L) (name_of : L → String) (file_name : L → Option (Result String))
    (all_named : (l : L) → file_name l ≡ some (ok (name_of l))) where
  name_files-names : (ls : List L) → name_files file_name ls ≡ complete [] (names p name_of ls)
  unfolding name_files named_file and_then after_reports
  name_files-names [] = refl
  name_files-names (l ∷ ls) = rw (all_named l, name_files-names ls) refl

  name_listeners-response :
      (m : Dict (List L)) → name_listeners file_name m ≡ complete [] (response_of p name_of m)
  unfolding name_listeners and_then after_reports
  name_listeners-response [] = refl
  name_listeners-response ((name, ls) ∷ more) =
      rw (name_files-names ls, name_listeners-response more) refl

  described-response :
      (marshal : Response → Result String) (m : Dict (List L)) (response : String)
      → marshal (response_of p name_of m) ≡ ok response
      → described file_name marshal (ok m) ≡ complete [] (ok response)
  unfolding described and_then after_reports
  described-response marshal m response h = rw (name_listeners-response m, h) refl

-- What the parent writes in an exchange without an error.
abbrev pub replies : String → List String
replies response = "HELLO" ∷ ("OK " +++ response) ∷ ("OK " +++ "") ∷ []

-- The parent visits its listeners twice, each time in an order of its own: as `passed` for the files
-- that it hands to the child, and as `named` for its answer. Where all writes succeed, each file has its
-- name, and both have as many sockets, the child that reads what the parent writes ends without an error, and the sockets
-- in the order of `passed` are dealt to the names in the order of `named`, none of them lost; in
-- one order for both, each name would get its own sockets. The parent that reads what the child writes
-- gives these replies and then the word that the child is ready.
pub handshake :
    {L F : Type 0} (p : Parent L) (file_of : L → Option (Result F)) (name_of : L → String)
    (file_name : L → Option (Result String)) (marshal : Response → Result String)
    (write : String → Result (Unit {0})) (parse_key : String → Result String)
    (passed named : Dict (List L)) (files : List F) (key request response : String)
    → Distinct named
    → length (sockets named) ≡ length (sockets passed)
    → pass_files file_of passed [] ≡ ok files
    → AreOpen file_of p 3 files
    → ((t : String) → p.write t ≡ ok tt)
    → ((t : String) → write t ≡ ok tt)
    → p.encode_request key ≡ ok request
    → parse_key request ≡ ok key
    → ((l : L) → file_name l ≡ some (ok (name_of l)))
    → marshal (response_of p name_of named) ≡ ok response
    → p.decode_response response ≡ ok (response_of p name_of named)
    → let o = child p (ok tt) key (replies response) in
      (o.result ≡ ok tt)
      × ((k : String)
          → or_no_listeners (get k o.listeners)
            ≡ or_no_listeners (get k (dealt named (sockets passed))))
      × (sockets (dealt named (sockets passed)) ≡ sockets passed)
      × (dealt passed (sockets passed) ≡ passed)
      × (handle_child write parse_key
            (described file_name marshal (ok named))
            key
            (ok tt)
            (lines_of o.said)
            first_progress
          ≡ map reply (replies response) ++ done ∷ [])
handshake p file_of name_of file_name marshal write parse_key passed named files key request
      response distinct many files_passed are_open wrote writes encoded parsed all_named marshalled
      answer =
    let at = pass_files-AreAt file_of p name_of passed files files_passed are_open in
    let (fd, ls, copies, same) =
      copy_listeners_all p name_of named (sockets passed) distinct many at in
    let ends =
      child_side p wrote request response key (response_of p name_of named) fd ls encoded answer
        copies in
    let offered =
      described-response p name_of file_name all_named marshal named response marshalled in
    rw (ends, offered)
      (
        refl,
        same,
        sockets-dealt named (sockets passed) many,
        dealt-same passed,
        parent_side write parse_key response key writes request parsed,
      )
