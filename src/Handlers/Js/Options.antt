-- ===== src/Handlers/Js/Options.antt =====
-- pkg/modules/app/server/site/handlers/js/js.go: the configuration of the handler and its `Init`.
use neon_oss.Base.{
  Bool, true, false, ◌||◌, List, [], ◌∷◌, ◌++◌, String, str_eq, if◌then◌else◌, Option, none, Result,
  ok, err, wrap, ℤ, pos, leb_int, ltb_int,
}
use neon_oss.Modules.Maps.{GivenMap, undecodable, decoded}
use neon_oss.Loader.{or_default}
use neon_oss.Http.{FileSystem}
use neon_oss.Handlers.File.{path_errors}

-- The type `JSRuleStateEntry`.
pub record StateEntry : Type 0 where
  pub key : String
  pub resource : String
  pub export : Option Bool

-- The type `JSRule`.
pub record JsRule : Type 0 where
  pub path : String
  pub state : List StateEntry
  pub last : Bool

-- The type `jsHandlerConfig` as it is decoded.
pub record RawConfig : Type 0 where
  pub index : String
  pub bundle : String
  pub env : Option String
  pub container : Option String
  pub state : Option String
  pub max_vms : Option ℤ
  pub vm_max_heap_size : Option ℤ
  pub vm_stack_size : Option ℤ
  pub vm_timeout : Option ℤ
  pub cache : Option Bool
  pub cache_ttl : Option ℤ
  pub cache_max_items : Option ℤ
  pub rules : List JsRule

-- The same with the defaults filled in.
pub record Config : Type 0 where
  pub index : String
  pub bundle : String
  pub env : String
  pub container : String
  pub state : String
  pub max_vms : ℤ
  pub vm_max_heap_size : ℤ
  pub vm_stack_size : ℤ
  pub vm_timeout : ℤ
  pub cache : Bool
  pub cache_ttl : ℤ
  pub cache_max_items : ℤ
  pub rules : List JsRule

-- A rule with its compiled expression: the fields `regexps` and `Rules` side by side.
pub record Compiled (Regexp : Type 0) : Type 0 where
  pub regexp : Regexp
  pub rule : JsRule

unfoldable pub fill : RawConfig → Config
fill c = record {
  index = c.index;
  bundle = c.bundle;
  env = or_default c.env "production";
  container = or_default c.container "root";
  state = or_default c.state "state";
  max_vms = or_default c.max_vms (pos 4);
  vm_max_heap_size = or_default c.vm_max_heap_size (pos 0);
  vm_stack_size = or_default c.vm_stack_size (pos 0);
  vm_timeout = or_default c.vm_timeout (pos 1000);
  cache = or_default c.cache false;
  cache_ttl = or_default c.cache_ttl (pos 60);
  cache_max_items = or_default c.cache_max_items (pos 100);
  rules = c.rules;
}

-- The checks of the options but for the rules: the index and the bundle are files that can be
-- opened and are no directories.
unfoldable pub option_errors : FileSystem → Config → Bool
option_errors fs c =
    path_errors fs c.index
    || path_errors fs c.bundle
    || str_eq c.env ""
    || str_eq c.container ""
    || str_eq c.state ""
    || leb_int c.max_vms (pos 0)
    || ltb_int c.vm_max_heap_size (pos 0)
    || ltb_int c.vm_stack_size (pos 0)
    || leb_int c.vm_timeout (pos 0)
    || leb_int c.cache_ttl (pos 0)
    || leb_int c.cache_max_items (pos 0)

entry_errors : List StateEntry → Bool
entry_errors [] = false
entry_errors (e ∷ more) = str_eq e.key "" || str_eq e.resource "" || entry_errors more

module _ {Regexp : Type 0} (compile : String → Result Regexp) where
  compiled : JsRule → Result Regexp → Bool × List (Compiled Regexp)
  compiled rule (err e) = (true, [])
  compiled rule (ok re) = (false, record { regexp = re; rule = rule } ∷ [])

  check_path : JsRule → Bool × List (Compiled Regexp)
  check_path rule = if str_eq rule.path "" then (true, []) else compiled rule (compile rule.path)

  -- The loop over the rules: whether there was an error, and the expressions compiled.
  unfoldable pub check_rules : List JsRule → Bool × List (Compiled Regexp)
  unfolding compiled check_path entry_errors
  check_rules [] = (false, [])
  check_rules (rule ∷ more) =
      let (failed, here) = check_path rule in
      let (later, rest) = check_rules more in
      (failed || entry_errors rule.state || later, here ++ rest)

  accepted : FileSystem → Config → Result (Config × List (Compiled Regexp))
  accepted fs c =
      let (failed, rules) = check_rules c.rules in
      if option_errors fs c || failed then err "config" else ok (c, rules)

  abbrev no_config : RawConfig
  no_config = record {
    index = "";
    bundle = "";
    env = none;
    container = none;
    state = none;
    max_vms = none;
    vm_max_heap_size = none;
    vm_stack_size = none;
    vm_timeout = none;
    cache = none;
    cache_ttl = none;
    cache_max_items = none;
    rules = [];
  }

  -- `Init`, up to the making of the cache, the pool and the slots of the machines.
  unfoldable pub init : FileSystem → GivenMap RawConfig → Result (Config × List (Compiled Regexp))
  unfolding accepted
  init fs (undecodable e) = wrap "parse config: " (err e)
  init fs (decoded raw) = accepted fs (fill raw)
