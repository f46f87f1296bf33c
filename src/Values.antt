-- ===== src/Values.antt =====
-- Go's `interface{}` values as configurations and decoded JSON hold them, and the replacement of
-- parameters in them (pkg/modules/app/loader/parsers/json/json.go). A float64 is represented by
-- the text that `strconv.FormatFloat(v, 'f', -1, 64)` gives for it.
pub mod Laws
use neon_oss.Base.{
  Bool, true, false, Dict, List, [], ◌∷◌, String, Option, none, some, ℤ, str_eq, if◌then◌else◌,
}
use neon_oss.Strings.{replace_all, format_int, format_bool, ◌+++◌}

mutual
  pub data Value : Type 0 where
    null : Value
    bool : Bool → Value
    int : ℤ → Value
    float : String → Value
    str : String → Value
    arr : Items → Value
    maps : Maps → Value
    obj : Fields → Value

  -- `[]interface{}`
  pub data Items : Type 0 where
    nil : Items
    item : Value → Items → Items

  -- `[]map[string]interface{}`
  pub data Maps : Type 0 where
    no_map : Maps
    map_of : Fields → Maps → Maps

  -- `map[string]interface{}`
  pub data Fields : Type 0 where
    end : Fields
    field : String → Value → Fields → Fields

-- The text that stands for a parameter's value; other kinds of values give the empty text.
unfoldable pub parameter_text : Value → String
parameter_text (str s) = s
parameter_text (int n) = format_int n
parameter_text (float t) = t
parameter_text (bool b) = format_bool b
parameter_text _ = ""

-- `replaceParameters`, the parameters in the order in which the loop visits them.
unfoldable pub replace_parameters : String → Dict Value → String
replace_parameters s [] = s
replace_parameters s ((k, v) ∷ more) =
    replace_parameters (replace_all s ("$" +++ k) (parameter_text v)) more

-- `t[key] = value`
unfoldable pub put_field : String → Value → Fields → Fields
put_field k v end = field k v end
put_field k v (field j w fs) = if str_eq j k then field k v fs else field j w (put_field k v fs)

unfoldable pub get_field : String → Fields → Option Value
get_field k end = none
get_field k (field j w fs) = if str_eq j k then some w else get_field k fs

-- `replaceParametersInMap`: the loop over the map adds to `t`.
unfoldable mutual
  pub replace_value : Dict Value → Value → Value
  replace_value params (maps ms) = maps (replace_maps params ms)
  replace_value params (obj fs) = obj (replace_in_map params fs end)
  replace_value params (str s) = str (replace_parameters s params)
  replace_value params v = v

  pub replace_maps : Dict Value → Maps → Maps
  replace_maps params no_map = no_map
  replace_maps params (map_of fs ms) =
      map_of (replace_in_map params fs end) (replace_maps params ms)

  pub replace_in_map : Dict Value → Fields → Fields → Fields
  replace_in_map params end t = t
  replace_in_map params (field k v fs) t =
      replace_in_map params fs (put_field (replace_parameters k params) (replace_value params v) t)
