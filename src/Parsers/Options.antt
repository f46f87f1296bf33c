-- ===== src/Parsers/Options.antt =====
-- pkg/modules/app/loader/parsers: the two methods `Init`. A map that is missing is nil, which an empty
-- one is not.
use neon_oss.Base.{
  Bool, true, false, ◌||◌, Dict, [], String, Option, none, some, Result, ok, err, wrap, str_eq,
  is_ok, if◌then◌else◌, ◌≡◌, ◌≢◌, ◌↔◌, arith, eq_iff,
}
use neon_oss.Modules.Maps.{GivenMap, undecodable, decoded}
use neon_oss.Values.{Value}
use neon_oss.Parsers.{JsonConfig}

abbrev pub is_nil {ℓ} : {A : Type ℓ} → Option A → Bool
is_nil none = true
is_nil (some a) = false

abbrev pub or_empty_map : {V : Type 0} → Option (Dict V) → Dict V
or_empty_map none = []
or_empty_map (some m) = m

-- `rawParserConfig` as it is decoded.
abbrev pub RawOptions : Type 0
RawOptions = Option (Dict (Dict Value))

raw_checked : RawOptions → Result (Dict (Dict Value))
raw_checked none = err "config"
raw_checked (some resource) = ok resource

-- `rawParser.Init`
unfoldable pub raw_init : GivenMap RawOptions → Result (Dict (Dict Value))
unfolding raw_checked
raw_init (undecodable e) = wrap "parse config: " (err e)
raw_init (decoded resource) = raw_checked resource

-- `jsonParserConfig` as it is decoded: what is missing is empty, and nil for the maps.
pub record JsonOptions : Type 0 where
  pub resource : Option (Dict (Dict Value))
  pub filter : String
  pub item_params : Option (Dict String)
  pub item_resource : Option (Dict (Dict Value))
  pub store : Bool

json_errors : JsonOptions → Bool
json_errors c = is_nil c.resource || str_eq c.filter "" || is_nil c.item_resource

json_checked : JsonOptions → Result JsonConfig
json_checked c =
    if json_errors c
    then err "config"
    else (ok (record {
      resource = or_empty_map c.resource;
      filter = c.filter;
      item_params = or_empty_map c.item_params;
      item_resource = or_empty_map c.item_resource;
      store = c.store;
    }))

-- `jsonParser.Init`
unfoldable pub json_init : GivenMap JsonOptions → Result JsonConfig
unfolding json_checked json_errors
json_init (undecodable e) = wrap "parse config: " (err e)
json_init (decoded c) = json_checked c

-- The JSON parser accepts exactly the options that name a resource, a filter and a resource for the
-- items.
pub json_init_iff :
    (c : JsonOptions)
    → (is_ok (json_init (decoded c)) ≡ true)
      ↔ ((is_nil c.resource ≡ false) × (c.filter ≢ "") × (is_nil c.item_resource ≡ false))
unfolding json_init json_checked json_errors
json_init_iff c = ground (arith, eq_iff c.filter "")
