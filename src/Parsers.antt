-- ===== src/Parsers.antt =====
-- pkg/modules/app/loader/parsers: the raw parser (raw/raw.go) and the JSON parser (json/json.go).
-- `jsonpath.Get` and the decoding of JSON (the handler's field `jsonUnmarshal`) are parameters; the
-- fetcher and the store are those of `Fetcher` and `Resource`.
pub mod Laws
pub mod Options
use neon_oss.Base.{
  str_eq, if◌then◌else◌, wrap, put, ℕ, Bool, get, List, Result, Option, Dict, String, [], ◌∷◌, none,
  some, false, true, ok, err,
}
use neon_oss.Strings.{◌+++◌}
use neon_oss.Exec.{Exec, pure, raise, wrapping, ◌>>=◌, ◌>>◌}
use neon_oss.Resource.{Resource, Storage}
use neon_oss.Values.{
  Value, null, obj, arr, str, Items, nil, item, Fields, end, field, replace_parameters,
  replace_in_map,
}

-- What a parser works on: the world outside, which fetches change, and the state of the storage.
pub record Surroundings (World Stored : Type 0) : Type 0 where
  pub world : World
  pub stored : Stored

-- `fetcher.Fetch(ctx, name, provider, config)` and the methods of the store.
pub record Services (World Stored : Type 0) : Type 0 where
  pub fetch : String → String → Fields → Exec World Resource
  pub storage : Storage Stored

module _ {World Stored : Type 0} (services : Services World Stored) where
  fetch : String → String → Fields → Exec (Surroundings World Stored) Resource
  fetch name provider config s =
      let (r, w) = services.fetch name provider config s.world in (r, record s { world = w })

  store : String → Resource → Exec (Surroundings World Stored) (Unit {0})
  store name resource s =
      let (r, st) = services.storage.store_resource name resource s.stored in
      (r, record s { stored = st })

-- The loops `for k := range m { name = k; break }`: the first key, or "" where there is none.
unfoldable pub first_key {ℓ} : {V : Type ℓ} → Dict V → String
first_key [] = ""
first_key ((k, _) ∷ _) = k

-- `m[key]`, the zero value of a map type for a missing key.
section_of : Option (Dict Value) → Dict Value
section_of none = []
section_of (some m) = m

-- `config, _ = v.(map[string]interface{})`: nil, which has no fields, if it is no map.
as_map : Option Value → Fields
as_map (some (obj fs)) = fs
as_map _ = end

-- A resource option: its name, its provider and its configuration.
pub record Source : Type 0 where
  pub name : String
  pub provider : String
  pub config : Fields

-- The choice of name, provider and configuration at the head of each `Parse`, with the two errors.
unfoldable pub source_of : String → String → Dict (Dict Value) → Result Source
unfolding first_key section_of as_map
source_of bad_name bad_provider option =
    let name = first_key option in
    let providers = section_of (get name option) in
    let provider = first_key providers in
    let source : Source = record {
      name = name;
      provider = provider;
      config = as_map (get provider providers);
    } in
    if str_eq name ""
    then err bad_name
    else if str_eq provider ""
    then err bad_provider
    else ok source

lift : {S A : Type 0} → Result A → Exec S A
lift r s = (r, s)

module _ {World Stored : Type 0} (services : Services World Stored) where
  raw_store : Source → Resource → Exec (Surroundings World Stored) (Unit {0})
  raw_store source resource =
      wrapping ("store resource " +++ source.name +++ ": ") (store services source.name resource)

  fetch_source : Source → Exec (Surroundings World Stored) Resource
  fetch_source source =
      wrapping ("fetch resource " +++ source.name +++ ": ")
        (fetch services source.name source.provider source.config)

  raw_fetch : Source → Exec (Surroundings World Stored) (Unit {0})
  raw_fetch source = fetch_source source >>= raw_store source

  -- `rawParser.Parse`
  unfoldable pub raw_parse : Dict (Dict Value) → Exec (Surroundings World Stored) (Unit {0})
  unfolding source_of fetch store lift raw_fetch fetch_source raw_store
  raw_parse option =
      lift (source_of "invalid resource name" "invalid resource provider" option) >>= raw_fetch

-- The type `jsonParserConfig`.
pub record JsonConfig : Type 0 where
  pub resource : Dict (Dict Value)
  pub filter : String
  pub item_params : Dict String
  pub item_resource : Dict (Dict Value)
  pub store : Bool

module _ {World Stored : Type 0} (services : Services World Stored)
    (json_unmarshal : List ℕ → Result Value) (jsonpath_get : String → Value → Result Value)
    (c : JsonConfig) where
  -- `params[k] = data`, unless the extraction fails or gives nil.
  add_param : String → Result Value → Dict Value → Dict Value
  add_param k (err e) params = params
  add_param k (ok null) params = params
  add_param k (ok v) params = put k v params

  params_from : Dict String → Value → Dict Value → Dict Value
  params_from [] it params = params
  params_from ((k, path) ∷ more) it params =
      params_from more it (add_param k (jsonpath_get path it) params)

  -- `executeResourceFromItem`
  unfoldable pub execute_item : Fields → Exec (Surroundings World Stored) (Unit {0})
  unfolding source_of fetch store lift params_from add_param
  execute_item it = do
    source ←
        lift
          (source_of "invalid item resource name" "invalid item resource provider" c.item_resource)
    let params = params_from c.item_params (obj it) []
    let name = replace_parameters source.name params
    let provider = replace_parameters source.provider params
    let config = replace_in_map params source.config end
    resource ← wrapping "fetch item resource: " (fetch services name provider config)
    wrapping "store item resource: " (store services name resource)

  execute_items : String → Items → Exec (Surroundings World Stored) (Unit {0})
  execute_items name nil = pure tt
  execute_items name (item (obj fs) more) =
      let rest = execute_items name more in
      do wrapping ("execute resource " +++ name +++ " subresource: ") (execute_item fs); rest
  execute_items name (item v more) = raise ("parse resource " +++ name +++ " item: <nil>")

  -- A filter result that is no array is passed over.
  execute_result : String → Value → Exec (Surroundings World Stored) (Unit {0})
  execute_result name (arr items) = execute_items name items
  execute_result name v = pure tt

  pub execute_data : String → List (List ℕ) → Exec (Surroundings World Stored) (Unit {0})
  unfolding lift
  execute_data name [] = pure tt
  execute_data name (bytes ∷ more) =
      let rest = execute_data name more in
      do
        json ← lift (wrap ("parse resource " +++ name +++ " data: ") (json_unmarshal bytes))
        result ←
            lift (wrap ("filter resource " +++ name +++ " data: ") (jsonpath_get c.filter json))
        execute_result name result
        rest

  store_if : Bool → String → Resource → Exec (Surroundings World Stored) (Unit {0})
  unfolding store
  store_if true name resource =
      wrapping ("store resource " +++ name +++ ": ") (store services name resource)
  store_if false name resource = pure tt

  json_finish : Source → Resource → Exec (Surroundings World Stored) (Unit {0})
  json_finish source resource = do
    execute_data source.name resource.data_array
    store_if c.store source.name resource

  json_fetch : Source → Exec (Surroundings World Stored) (Unit {0})
  json_fetch source = fetch_source services source >>= json_finish source

  -- `jsonParser.Parse`
  unfoldable pub json_parse : Exec (Surroundings World Stored) (Unit {0})
  unfolding source_of fetch lift execute_data execute_result execute_items execute_item store_if
      json_finish json_fetch fetch_source
  json_parse =
      lift (source_of "invalid resource name" "invalid resource provider" c.resource) >>= json_fetch
