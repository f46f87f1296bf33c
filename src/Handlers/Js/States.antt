-- ===== src/Handlers/Js/States.antt =====
-- pkg/modules/app/server/site/handlers/js/js.go, the method `render`: the rules that match a path,
-- and the states that their entries make for the script and for the client. The regular
-- expressions, the store and the JSON text of a state are parameters.
pub mod Visits
pub mod Laws
pub mod Marshalling
use neon_oss.Base.{
  ℕ, suc, ◌+◌, Bool, true, false, ◌&&◌, Dict, get, put, List, [], ◌∷◌, ◌++◌, String, str_eq,
  if◌then◌else◌, Option, none, some, Result, ok, err, wrap, is_ok, ◌>>=◌, pos,
}
use neon_oss.Strings.{replace_all, format_int, ◌+++◌}
use neon_oss.Resource.{Resource}
use neon_oss.Handlers.Js.Options.{StateEntry, JsRule, Compiled}

-- The type `jsResource`; `none` is a nil slice.
pub record JsResource : Type 0 where
  pub data_array : Option (List (List ℕ))
  pub error : String

-- What the loop over the rules keeps; `none` is nil.
pub record States : Type 0 where
  pub valid : Bool
  pub server : Option (Dict JsResource)
  pub server_text : Option String
  pub client : Option (Dict JsResource)
  pub client_text : Option String

abbrev pub new_states : States
new_states = record {
  valid = true;
  server = none;
  server_text = none;
  client = none;
  client_text = none;
}

abbrev pub or_no_entry : Option (Dict JsResource) → Dict JsResource
or_no_entry none = []
or_no_entry (some m) = m

-- `replaceIndexRouteParameters`, the parameters in the order in which the loop visits them.
unfoldable pub replace_index_route_parameters : String → Dict String → String
replace_index_route_parameters s [] = s
replace_index_route_parameters s ((key, value) ∷ more) =
    replace_index_route_parameters (replace_all s ("$" +++ key) value) more

-- The loop over the values of the submatches, from the position `i` on.
numbered : ℕ → List String → Dict String → Dict String
numbered i [] params = params
numbered i (v ∷ vs) params = numbered (i + 1) vs (put (format_int (pos i)) v params)

-- The loop over the names of the subexpressions; a name belongs to the submatch at its position.
named : List String → List String → Dict String → Dict String
named [] vs params = params
named (n ∷ ns) [] params = params
named (n ∷ ns) (v ∷ vs) params = named ns vs (if str_eq n "" then params else put n v params)

abbrev rest_of : List String → List String
rest_of [] = []
rest_of (x ∷ xs) = xs

-- The parameters of a rule that matches: the whole match, in front, is passed over.
unfoldable pub route_params : String → List String → List String → Dict String
unfolding numbered named
route_params url m names =
    named (rest_of names) (rest_of m) (numbered 1 (rest_of m) (put "url" url []))

abbrev pub exports : StateEntry → Bool
exports e = elim e.export [ none ↦ false | some b ↦ b ]

-- `resourceResult`
unfoldable pub js_resource : Result Resource → JsResource
js_resource (err e) = record { data_array = none; error = "unknown resource" }
js_resource (ok r) = record { data_array = some r.data_array; error = "" }

-- One round of the loop over the entries of a rule.
unfoldable pub add_entry : (String → Result Resource) → Dict String → StateEntry → States → States
unfolding replace_index_route_parameters js_resource
add_entry load params entry s =
    let state_key = replace_index_route_parameters entry.key params in
    let loaded = load (replace_index_route_parameters entry.resource params) in
    record s {
      valid = s.valid && is_ok loaded;
      server = some (put state_key (js_resource loaded) (or_no_entry s.server));
      client =
          if exports entry
          then some (put state_key (js_resource loaded) (or_no_entry s.client))
          else s.client;
    }

unfoldable pub add_entries :
    (String → Result Resource) → Dict String → List StateEntry → States → States
add_entries load params [] s = s
add_entries load params (e ∷ es) s = add_entries load params es (add_entry load params e s)

marshal_with :
    String
    → (Dict JsResource → Result String)
    → Option (Dict JsResource)
    → Option String
    → Result (Option String)
marshal_with prefix marshal none old = ok old
marshal_with prefix marshal (some m) old = do buf ← wrap prefix (marshal m); ok (some buf)

-- The texts of the states, after the entries of a rule.
unfoldable pub marshal_states : (Dict JsResource → Result String) → States → Result States
unfolding marshal_with
marshal_states marshal s = do
  server ← marshal_with "marshal server state: " marshal s.server s.server_text
  client ← marshal_with "marshal client state: " marshal s.client s.client_text
  ok (record s { server_text = server; client_text = client })

module _ {Regexp : Type 0} (find_submatch : Regexp → String → Option (List String))
    (subexp_names : Regexp → List String) (load : String → Result Resource)
    (marshal : Dict JsResource → Result String) (path : String) where
  -- The loop over the rules.
  unfoldable pub rule_states : List (Compiled Regexp) → States → Result States
  rule_states [] s = ok s
  rule_states (c ∷ more) s =
      let rest = rule_states more in
      elim (find_submatch c.regexp path) [
        | none ↦ rest s
        | some m ↦ do
          s' ←
              marshal_states marshal
                (add_entries load (route_params path m (subexp_names c.regexp)) c.rule.state s)
          if c.rule.last then ok s' else rest s'
      ]
