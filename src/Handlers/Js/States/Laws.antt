-- ===== src/Handlers/Js/States/Laws.antt =====
-- The states of a page against the entries of the rules that its path visits.
use mathlib.Core.Path.{subst}
use neon_oss.Base.{
  ◌≡◌, refl, sym, ap, ◌∙◌, arith, inl, inr, Bool, true, false, ◌&&◌, Option-cases, Dict, get,
  get-put, List, [], ◌∷◌, ◌++◌, String, if◌then◌else◌, Option, none, some, Result, ok, is_ok, ◌>>=◌,
  >>=-eq-ok,
}
use neon_oss.Resource.{Resource}
use neon_oss.Handlers.Js.Options.{StateEntry, Compiled}
use neon_oss.Handlers.Js.States.{
  JsResource, States, new_states, or_no_entry, replace_index_route_parameters, route_params,
  exports, js_resource, add_entry, add_entries, marshal_states, rule_states,
}
use neon_oss.Handlers.Js.States.Visits.{Visit, or_else-none, latest, exported_of, all_loaded}
use neon_oss.Handlers.Js.States.Marshalling.{
  Marshalled, Bare, Marshalled-Bare, Marshalling, marshal_states-Marshalling, Visited, and_true,
  Visited-none, Visited-both, AreBare,
}

module _ (load : String → Result Resource) (params : Dict String) where
  abbrev pub visit_of : StateEntry → Visit
  visit_of e = record {
    key = replace_index_route_parameters e.key params;
    loaded = load (replace_index_route_parameters e.resource params);
    exported = exports e;
  }

  add_entry-Visited :
      (e : StateEntry) (s : States) → Visited (visit_of e ∷ []) s (add_entry load params e s)
  unfolding latest exported_of all_loaded add_entry
  add_entry-Visited e s =
      let key = replace_index_route_parameters e.key params in
      let loaded = load (replace_index_route_parameters e.resource params) in
      record {
        validity = ap (λ b. s.valid && b) (and_true (is_ok loaded));
        for_server = λ k. ground (arith, get-put key k (js_resource loaded) (or_no_entry s.server));
        for_client = λ k. ground (arith, get-put key k (js_resource loaded) (or_no_entry s.client));
      }

  unfoldable pub visits_of : List StateEntry → List Visit
  visits_of [] = []
  visits_of (e ∷ es) = visit_of e ∷ visits_of es

  add_entries-Visited :
      (es : List StateEntry) (s : States) → Visited (visits_of es) s (add_entries load params es s)
  unfolding add_entries visits_of
  add_entries-Visited [] s = Visited-none s
  add_entries-Visited (e ∷ es) s =
      Visited-both (visit_of e ∷ []) (visits_of es) s (add_entry load params e s)
        (add_entries load params es (add_entry load params e s)) (add_entry-Visited e s)
        (add_entries-Visited es (add_entry load params e s))

  Bare-either :
      (b : Bool) (m : Dict JsResource) (old : Option (Dict JsResource)) (t : Option String)
      → Bare old t
      → Bare (if b then some m else old) t
  Bare-either true m old t h = tt
  Bare-either false m old t h = h

  add_entries-AreBare :
      (es : List StateEntry) (s : States) → AreBare s → AreBare (add_entries load params es s)
  unfolding add_entries add_entry
  add_entries-AreBare [] s h = h
  add_entries-AreBare (e ∷ es) s h =
      add_entries-AreBare es (add_entry load params e s)
        (tt, Bare-either (exports e) _ s.client s.client_text h.1)

module _ {Regexp : Type 0} (find_submatch : Regexp → String → Option (List String))
    (subexp_names : Regexp → List String) (load : String → Result Resource)
    (marshal : Dict JsResource → Result String) (path : String) where
  -- The entries of the rules that match the path, up to and with the first that is marked as last.
  unfoldable pub visits : List (Compiled Regexp) → List Visit
  visits [] = []
  visits (c ∷ more) =
      let rest = visits more in
      elim (find_submatch c.regexp path) [
        | none ↦ rest
        | some m ↦
            visits_of load (route_params path m (subexp_names c.regexp)) c.rule.state
            ++ (if c.rule.last then [] else rest)
      ]

  abbrev all_states : List (Compiled Regexp) → States → Result States
  all_states = rule_states find_submatch subexp_names load marshal path

  abbrev AreMarshalled : States → Type 0
  AreMarshalled s =
      Marshalled marshal s.server s.server_text × Marshalled marshal s.client s.client_text

  abbrev matched : Compiled Regexp → List String → States → States
  matched c m = add_entries load (route_params path m (subexp_names c.regexp)) c.rule.state

  passes_over :
      (c : Compiled Regexp) (more : List (Compiled Regexp)) (s : States)
      → find_submatch c.regexp path ≡ none
      → (all_states (c ∷ more) s ≡ all_states more s) × (visits (c ∷ more) ≡ visits more)
  unfolding rule_states visits
  passes_over c more s h = (rw (h, rule_states) refl, rw (h, visits) refl)

  abbrev after_match : Compiled Regexp → List (Compiled Regexp) → Result States → Result States
  after_match c more r = r >>= λ s'. if c.rule.last then ok s' else all_states more s'

  stops_at :
      (c : Compiled Regexp) (more : List (Compiled Regexp)) (s : States) (m : List String)
      → find_submatch c.regexp path ≡ some m
      → (all_states (c ∷ more) s ≡ after_match c more (marshal_states marshal (matched c m s)))
        × (visits (c ∷ more)
            ≡ visits_of load (route_params path m (subexp_names c.regexp)) c.rule.state
              ++ (if c.rule.last then [] else visits more))
  unfolding rule_states visits
  stops_at c more s m h = (rw (h, rule_states) refl, rw (h, visits) refl)

  Marshalling-Visited :
      (vs : List Visit) (s s1 s2 : States)
      → Visited vs s s1
      → Marshalling marshal s1 s2
      → Visited vs s s2
  Marshalling-Visited vs s s1 s2 v h = record {
    validity = h.same_valid ∙ v.validity;
    for_server = λ k. ap (λ m. get k (or_no_entry m)) h.same_server ∙ v.for_server k;
    for_client = λ k. ap (λ m. get k (or_no_entry m)) h.same_client ∙ v.for_client k;
  }

  AreMarshalled-AreBare : (s : States) → AreMarshalled s → AreBare s
  AreMarshalled-AreBare s h = (
    Marshalled-Bare marshal s.server s.server_text h.0,
    Marshalled-Bare marshal s.client s.client_text h.1,
  )

  after_last :
      (last : Bool) (xs : List Visit) (rules : List (Compiled Regexp)) (s s1 s' : States)
      → Visited xs s s1
      → AreMarshalled s1
      → ((t : States)
          → AreMarshalled s1
          → all_states rules s1 ≡ ok t
          → Visited (visits rules) s1 t × AreMarshalled t)
      → (if last then ok s1 else all_states rules s1) ≡ ok s'
      → Visited (xs ++ (if last then [] else visits rules)) s s' × AreMarshalled s'
  after_last true xs rules s s1 s' v m ih h =
      let same : s1 ≡ s' = cc h in
      subst (λ t. Visited (xs ++ []) s t × AreMarshalled t) same
        (Visited-both xs [] s s1 s1 v (Visited-none s1), m)
  after_last false xs rules s s1 s' v m ih h =
      let (w, k) = ih s' m h in (Visited-both xs (visits rules) s s1 s' v w, k)

  rule_states-Visited :
      (rules : List (Compiled Regexp)) (s s' : States)
      → AreMarshalled s
      → all_states rules s ≡ ok s'
      → Visited (visits rules) s s' × AreMarshalled s'
  unfolding rule_states visits
  rule_states-Visited [] s s' m h =
      let same : s ≡ s' = cc h in
      subst (λ t. Visited [] s t × AreMarshalled t) same (Visited-none s, m)
  rule_states-Visited (c ∷ more) s s' m h = elim (Option-cases (find_submatch c.regexp path)) [
    | inl fails ↦
        let (e, f) = passes_over c more s fails in
        let (v, k) = rule_states-Visited more s s' m (sym e ∙ h) in
        (subst (λ vs. Visited vs s s') (sym f) v, k)
    | inr (ms, found) ↦
        let (e, f) = stops_at c more s ms found in
        let params = route_params path ms (subexp_names c.regexp) in
        let (s1, g, h1) = >>=-eq-ok (marshal_states marshal (matched c ms s)) _ (sym e ∙ h) in
        let bare = add_entries-AreBare load params c.rule.state s (AreMarshalled-AreBare s m) in
        let texts = marshal_states-Marshalling marshal (matched c ms s) s1 bare.0 bare.1 g in
        let v =
          Marshalling-Visited (visits_of load params c.rule.state) s (matched c ms s) s1
            (add_entries-Visited load params c.rule.state s) texts in
        subst (λ vs. Visited vs s s' × AreMarshalled s') (sym f)
          (after_last c.rule.last (visits_of load params c.rule.state) more s s1 s' v
            (texts.server_marshalled, texts.client_marshalled)
            (λ t k. rule_states-Visited more s1 t k) h1)
  ]

-- When the loop over the rules succeeds, the page is valid exactly if the store had the resource of
-- every entry that was visited, in the rules that match the path up to the first that is marked as
-- last. The script's state has for each key what the last visit to the key loaded; the client's state
-- has for each key what the last visit by an exported entry loaded, so that nothing else reaches the
-- client. The texts are the JSON of the states.
pub rule_states-latest :
    {Regexp : Type 0} (find_submatch : Regexp → String → Option (List String))
    (subexp_names : Regexp → List String) (load : String → Result Resource)
    (marshal : Dict JsResource → Result String) (path : String) (rules : List (Compiled Regexp))
    (s : States)
    → rule_states find_submatch subexp_names load marshal path rules new_states ≡ ok s
    → (let vs = visits find_submatch subexp_names load marshal path rules in
        (s.valid ≡ all_loaded vs)
        × ((k : String) → get k (or_no_entry s.server) ≡ latest k vs)
        × ((k : String) → get k (or_no_entry s.client) ≡ latest k (exported_of vs))
        × Marshalled marshal s.server s.server_text
        × Marshalled marshal s.client s.client_text)
unfolding get
rule_states-latest find_submatch subexp_names load marshal path rules s h =
    let vs = visits find_submatch subexp_names load marshal path rules in
    let (v, m) =
      rule_states-Visited find_submatch subexp_names load marshal path rules new_states s
        (refl, refl) h in
    (
      v.validity,
      λ k. v.for_server k ∙ or_else-none (latest k vs),
      λ k. v.for_client k ∙ or_else-none (latest k (exported_of vs)),
      m.0,
      m.1,
    )
