-- ===== src/App/Setup.antt =====
-- internal/app/neon/app.go, `ModuleInfo` and `Init`: the four components are modules themselves.
use neon_oss.Base.{
  get, put, Dict, [], ◌∷◌, String, Option, none, some, Result, ok, err, wrap, ◌>>=◌, ◌≡◌, refl,
}
use neon_oss.Strings.{◌+++◌}
use neon_oss.Modules.{Given, missing, undecodable, decoded}
use neon_oss.Registry.{ModuleInfo, register_all, register, lookup}

-- The type assertions of the interfaces `Store`, `Fetcher`, `Loader` and `Server`.
pub record Kinds (I S F L V : Type 0) : Type 0 where
  pub as_store : I → Option S
  pub as_fetcher : I → Option F
  pub as_loader : I → Option L
  pub as_server : I → Option V

-- What `Init` writes of `appState`.
pub record AppState (S F L V : Type 0) : Type 0 where
  pub store : S
  pub fetcher : F
  pub loader : L
  pub server : V

asserted : {A : Type 0} → String → Option A → Result A
asserted e none = err e
asserted e (some a) = ok a

module _ {I S F L V : Type 0} (kinds : Kinds I S F L V) (modules : Dict (ModuleInfo I)) where
  looked_up : String → Result (ModuleInfo I)
  looked_up id = wrap ("lookup module " +++ id +++ ": ") (lookup id modules)

  with_config : Result (Unit {0}) → Result (AppState S F L V)
  with_config decoding = do
    u ← decoding
    store_info ← looked_up "app.store"
    store ← asserted "invalid store" (kinds.as_store store_info.new_instance)
    fetcher_info ← looked_up "app.fetcher"
    fetcher ← asserted "invalid fetcher" (kinds.as_fetcher fetcher_info.new_instance)
    loader_info ← looked_up "app.loader"
    loader ← asserted "invalid loader" (kinds.as_loader loader_info.new_instance)
    server_info ← looked_up "app.server"
    server ← asserted "invalid server" (kinds.as_server server_info.new_instance)
    ok (record { store = store; fetcher = fetcher; loader = loader; server = server })

  -- `Init`
  unfoldable pub init : Given (Unit {0}) → Result (AppState S F L V)
  unfolding with_config looked_up asserted
  init missing = with_config (ok tt)
  init (undecodable e) = with_config (err ("parse config: " +++ e))
  init (decoded u) = with_config (ok tt)

-- `ModuleInfo` of the application registers its components, given by what makes an instance.
unfoldable pub register_components :
    {I : Type 0} → I → I → I → I → Dict (ModuleInfo I) → Dict (ModuleInfo I)
register_components store fetcher loader server modules =
    register_all
      ((record { id = "app.store"; new_instance = store })
        ∷ (record { id = "app.fetcher"; new_instance = fetcher })
        ∷ (record { id = "app.loader"; new_instance = loader })
        ∷ (record { id = "app.server"; new_instance = server })
        ∷ [])
      modules

-- After the registration into an empty table, `Init` has the four components.
pub init-register_components :
    {I S F L V : Type 0} (kinds : Kinds I S F L V) (a b c d : I) (s : S) (f : F) (l : L) (v : V)
    → kinds.as_store a ≡ some s
    → kinds.as_fetcher b ≡ some f
    → kinds.as_loader c ≡ some l
    → kinds.as_server d ≡ some v
    → init kinds (register_components a b c d []) missing
      ≡ ok (record { store = s; fetcher = f; loader = l; server = v })
unfolding init with_config asserted looked_up register_components register_all register lookup get
    put
init-register_components kinds a b c d s f l v hs hf hl hv = rw (hs, hf, hl, hv) refl
