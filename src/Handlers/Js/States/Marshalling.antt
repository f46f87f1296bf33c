-- ===== src/Handlers/Js/States/Marshalling.antt =====
-- The texts that belong to the states of a page, and the states after some entries.
use mathlib.Core.Path.{subst}
use neon_oss.Base.{
  ◌≡◌, refl, sym, ap, ◌∙◌, Bool, true, false, ◌&&◌, Dict, get, List, [], ◌++◌, String, Option, none,
  some, Result, ok, err, wrap, ◌>>=◌, >>=-eq-ok,
}
use neon_oss.Handlers.Js.States.{JsResource, States, or_no_entry, marshal_with, marshal_states}
use neon_oss.Handlers.Js.States.Visits.{
  Visit, and_assoc, or_else, or_else_assoc, latest, exported_of, all_loaded, latest-append,
  exported_of-append, all_loaded-append,
}

-- The text of a state is its JSON, and there is none without a state.
abbrev pub Marshalled :
    (Dict JsResource → Result String) → Option (Dict JsResource) → Option String → Type 0
Marshalled marshal none t = t ≡ none
Marshalled marshal (some m) t = (buf : String) × (marshal m ≡ ok buf) × (t ≡ some buf)

-- Without a state there is no text.
abbrev pub Bare : Option (Dict JsResource) → Option String → Type 0
Bare none t = t ≡ none
Bare (some m) t = Unit

pub Marshalled-Bare :
    (marshal : Dict JsResource → Result String) (m : Option (Dict JsResource)) (t : Option String)
    → Marshalled marshal m t
    → Bare m t
Marshalled-Bare marshal none t h = h
Marshalled-Bare marshal (some m) t h = tt

marshal_with-Marshalled :
    (prefix : String) (marshal : Dict JsResource → Result String) (m : Option (Dict JsResource))
    (old : Option String) {t : Option String}
    → Bare m old
    → marshal_with prefix marshal m old ≡ ok t
    → Marshalled marshal m t
unfolding marshal_with
marshal_with-Marshalled prefix marshal none old {t} bare h = cc (bare, h)
marshal_with-Marshalled prefix marshal (some m) old {t} bare h = go (marshal m) refl h
  where
    go :
        (r : Result String)
        → marshal m ≡ r
        → (wrap prefix r >>= (λ buf. ok (some buf))) ≡ ok t
        → (buf : String) × (marshal m ≡ ok buf) × (t ≡ some buf)
    go (ok buf) e k = (buf, e, cc k)
    go (err x) e k = absurd (cc k)

pub record Marshalling (marshal : Dict JsResource → Result String) (s s' : States) : Type 0 where
  pub same_valid : s'.valid ≡ s.valid
  pub same_server : s'.server ≡ s.server
  pub same_client : s'.client ≡ s.client
  pub server_marshalled : Marshalled marshal s'.server s'.server_text
  pub client_marshalled : Marshalled marshal s'.client s'.client_text

pub marshal_states-Marshalling :
    (marshal : Dict JsResource → Result String) (s s' : States)
    → Bare s.server s.server_text
    → Bare s.client s.client_text
    → marshal_states marshal s ≡ ok s'
    → Marshalling marshal s s'
unfolding marshal_states
marshal_states-Marshalling marshal s s' bare bare' h =
    let (server, e, h1) =
      >>=-eq-ok (marshal_with "marshal server state: " marshal s.server s.server_text) _ h in
    let (client, f, h2) =
      >>=-eq-ok (marshal_with "marshal client state: " marshal s.client s.client_text) _ h1 in
    let same : record s { server_text = server; client_text = client } ≡ s' = cc h2 in
    subst (Marshalling marshal s) same (record {
      same_valid = refl;
      same_server = refl;
      same_client = refl;
      server_marshalled =
          marshal_with-Marshalled "marshal server state: " marshal s.server s.server_text bare e;
      client_marshalled =
          marshal_with-Marshalled "marshal client state: " marshal s.client s.client_text bare' f;
    })

-- What the visits come to, on top of what was there.
pub record Visited (vs : List Visit) (s s' : States) : Type 0 where
  pub validity : s'.valid ≡ (s.valid && all_loaded vs)
  pub for_server :
      (k : String)
      → get k (or_no_entry s'.server) ≡ or_else (latest k vs) (get k (or_no_entry s.server))
  pub for_client :
      (k : String)
      → get k (or_no_entry s'.client)
        ≡ or_else (latest k (exported_of vs)) (get k (or_no_entry s.client))

pub and_true : (b : Bool) → b ≡ (b && true)
and_true true = refl
and_true false = refl

pub Visited-none : (s : States) → Visited [] s s
unfolding latest exported_of all_loaded
Visited-none s = record {
  validity = and_true s.valid;
  for_server = λ k. refl;
  for_client = λ k. refl;
}

pub Visited-both :
    (xs ys : List Visit) (s s1 s2 : States)
    → Visited xs s s1
    → Visited ys s1 s2
    → Visited (xs ++ ys) s s2
Visited-both xs ys s s1 s2 v w = record {
  validity =
      w.validity
      ∙ ap (λ b. b && all_loaded ys) v.validity
      ∙ and_assoc s.valid (all_loaded xs) (all_loaded ys)
      ∙ ap (λ b. s.valid && b) (sym (all_loaded-append xs ys));
  for_server = λ k.
      w.for_server k
      ∙ ap (or_else (latest k ys)) (v.for_server k)
      ∙ or_else_assoc (latest k ys) (latest k xs) (get k (or_no_entry s.server))
      ∙ ap (λ o. or_else o (get k (or_no_entry s.server))) (sym (latest-append k xs ys));
  for_client = λ k.
      w.for_client k
      ∙ ap (or_else (latest k (exported_of ys))) (v.for_client k)
      ∙ or_else_assoc (latest k (exported_of ys)) (latest k (exported_of xs))
          (get k (or_no_entry s.client))
      ∙ ap (λ o. or_else o (get k (or_no_entry s.client)))
          (sym (latest-append k (exported_of xs) (exported_of ys))
            ∙ ap (latest k) (sym (exported_of-append xs ys)));
}

abbrev pub AreBare : States → Type 0
AreBare s = Bare s.server s.server_text × Bare s.client s.client_text
