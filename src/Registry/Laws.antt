-- ===== src/Registry/Laws.antt =====
-- What a lookup finds after a series of registrations.
use neon_oss.Base.{
  ◌↔◌, Dict, get, get-put, List, [], ◌∷◌, String, Option, none, some, ok, ◌≡◌, arith, eq_iff,
  str_eq, if◌then◌else◌,
}
use neon_oss.Registry.{ModuleInfo, register, lookup, register_all}

-- The first module of a list that has the identifier.
pub first_with :
    {Instance : Type 0} → String → List (ModuleInfo Instance) → Option (ModuleInfo Instance)
first_with id [] = none
first_with id (info ∷ more) = if str_eq info.id id then some info else first_with id more

abbrev or_else : {A : Type 0} → Option A → Option A → Option A
or_else none o = o
or_else (some a) o = some a

module _ {Instance : Type 0} where
  get-register :
      (id : String) (info : ModuleInfo Instance) (modules : Dict (ModuleInfo Instance))
      → get id (register info modules)
        ≡ or_else (get id modules) (if str_eq info.id id then some info else none)
  unfolding register
  get-register id info modules = ground (arith, get-put info.id id info modules, eq_iff info.id id)

  get-register_all :
      (id : String) (infos : List (ModuleInfo Instance)) (modules : Dict (ModuleInfo Instance))
      → get id (register_all infos modules) ≡ or_else (get id modules) (first_with id infos)
  unfolding register_all first_with
  get-register_all id [] modules = ground arith
  get-register_all id (info ∷ more) modules =
      ground (arith, get-register_all id more (register info modules), get-register id info modules)

-- After any series of registrations into an empty table, a lookup returns a module exactly when it
-- is the first registered one of that identifier, whatever was registered under it later; in
-- particular it fails for an identifier that was never registered.
pub lookup-register_all :
    {Instance : Type 0} (id : String) (infos : List (ModuleInfo Instance))
    (info : ModuleInfo Instance)
    → (lookup id (register_all infos []) ≡ ok info) ↔ (first_with id infos ≡ some info)
unfolding lookup get
lookup-register_all id infos info = ground (arith, get-register_all id infos [])
