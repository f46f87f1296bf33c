-- ===== src/Modules.antt =====
-- The step that every component of internal/app/neon takes to make a module out of its
-- configuration: look the name up in the registry, make an instance, assert its interface,
-- replace a nil configuration by an empty one, and initialise the module.
pub mod Maps
use neon_oss.Base.{Dict, String, Option, none, some, Result, ok, err, ◌>>=◌}
use neon_oss.Registry.{ModuleInfo, lookup}
use Prim.Native.String

-- The argument of a component's `Init`: nil, or a map that `mapstructure.Decode` refuses (with its error) or
-- decodes.
pub data Given (C : Type 0) : Type 0 where
  missing : Given C
  undecodable : String → Given C
  decoded : C → Given C

-- `Instance`: what `NewInstance` returns; `Module`: the interface that is asserted; `Config`: a
-- `map[string]interface{}`.
pub record Kind (Instance Module Config : Type 0) : Type 0 where
  pub as_module : Instance → Option Module
  pub init_module : Config → Module → Result Module
  pub empty_config : Config

assert_module : {Module : Type 0} → Option Module → Result Module
assert_module none = err "module instance not valid"
assert_module (some m) = ok m

abbrev pub or_empty : {Config : Type 0} → Config → Option Config → Config
or_empty empty none = empty
or_empty empty (some c) = c

unfoldable pub load_module :
    {Instance Module Config : Type 0}
    → Kind Instance Module Config
    → Dict (ModuleInfo Instance)
    → String
    → String
    → Option Config
    → Result Module
unfolding assert_module
load_module kind registry prefix name config = do
  info ← lookup (String.◌++◌ prefix name) registry
  made ← assert_module (kind.as_module info.new_instance)
  kind.init_module (or_empty kind.empty_config config) made
