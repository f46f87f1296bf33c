-- ===== src/Modules/Maps.antt =====
-- The argument of a module's `Init`, as the components of internal/app/neon pass it: `load_module`
-- replaces a nil configuration by an empty map, so that a module is never given nil.

use neon_oss.Base.{String}

-- A map that `mapstructure.Decode` refuses, with its error, or decodes.
pub data GivenMap (C : Type 0) : Type 0 where
  undecodable : String → GivenMap C
  decoded : C → GivenMap C
