-- ===== src/Listener.antt =====
-- internal/app/neon/serverlistener.go: the listener with its sites and its router. The goroutine
-- `waitForEvents` answers each update before `Link` or `Unlink` returns, so an update is a step of
-- those. The listener module and `http.ServeMux` at a request are parameters.
pub mod Mux
pub mod Laws
pub mod Unlinking
use neon_oss.Base.{
  Bool, true, false, Dict, List, [], ◌∷◌, String, Option, none, some, Result, ok, err, get, put,
  delete, wrap, ◌>>=◌, if◌then◌else◌,
}
use neon_oss.Registry.{ModuleInfo}
use neon_oss.Modules.{Kind, load_module}
use neon_oss.Http.{ResponseWriter, write_status}

-- What a listener sees of a site: its name, and its router or the error of one that is not ready.
pub record Site (H : Type 0) : Type 0 where
  pub name : String
  pub router : Result (Dict H)

-- The state; the router is nil until the first update.
pub record ListenerState (H : Type 0) : Type 0 where
  pub sites : Dict (Site H)
  pub router : Option (Dict H)

module _ {Instance Module Config : Type 0} (kind : Kind Instance Module Config)
    (registry : Dict (ModuleInfo Instance)) where
  first_listener : Dict (Option Config) → Result Module
  first_listener [] = err "config"
  first_listener ((listener, config) ∷ more) =
      elim (load_module kind registry "app.server.listener." listener config) [
        | ok m ↦ ok m
        | err e ↦ err "config"
      ]

  -- `Init`: the loop ends with its first round. A configuration that is no map counts as empty.
  unfoldable pub init : Option (Dict (Option Config)) → Result Module
  unfolding first_listener
  init none = err "missing configuration"
  init (some listeners) = first_listener listeners

module _ {H : Type 0} where
  -- `mux.Handle` for every pattern of one router; `none` is the panic on a pattern that is taken.
  unfoldable pub handle_all : Dict H → Dict H → Option (Dict H)
  handle_all [] mux = some mux
  handle_all ((pattern, h) ∷ more) mux = elim (get pattern mux) [
    | some taken ↦ none
    | none ↦ handle_all more (put pattern h mux)
  ]

  -- `newServerListenerRouter`
  unfoldable pub new_router : List (Dict H) → Dict H → Option (Dict H)
  unfolding handle_all
  new_router [] mux = some mux
  new_router (routes ∷ more) mux = elim (handle_all routes mux) [
    | none ↦ none
    | some mux' ↦ new_router more mux'
  ]

  -- The loop that collects the routers.
  unfoldable pub routers_of : Dict (Site H) → Result (List (Dict H))
  routers_of [] = ok []
  routers_of ((name, site) ∷ more) = do
    router ← wrap "get router: " site.router
    rest ← routers_of more
    ok (router ∷ rest)

  routed : ListenerState H → Option (Dict H) → Option (Result (Unit {0}) × ListenerState H)
  routed s none = none
  routed s (some mux) = some (ok tt, record s { router = some mux })

  collected :
      ListenerState H → Result (List (Dict H)) → Option (Result (Unit {0}) × ListenerState H)
  collected s (err e) = some (err e, s)
  collected s (ok routers) = routed s (new_router routers [])

  -- `updateRouter`; `none` is the panic of the multiplexer.
  unfoldable pub update_router : ListenerState H → Option (Result (Unit {0}) × ListenerState H)
  unfolding collected routed routers_of new_router
  update_router s = collected s (routers_of s.sites)

  pub failing :
      String
      → Option (Result (Unit {0}) × ListenerState H)
      → Option (Result (Unit {0}) × ListenerState H)
  failing prefix none = none
  failing prefix (some (r, s)) = some (wrap prefix (wrap "update router: " r), s)

  -- `Link`
  unfoldable pub link : Site H → ListenerState H → Option (Result (Unit {0}) × ListenerState H)
  unfolding failing update_router
  link site s =
      failing "link site: " (update_router (record s { sites = put site.name site s.sites }))

  -- `Unlink`
  unfoldable pub unlink : Site H → ListenerState H → Option (Result (Unit {0}) × ListenerState H)
  unfolding failing update_router
  unlink site s =
      failing "unlink site: " (update_router (record s { sites = delete site.name s.sites }))

  -- The handler's `ServeHTTP`, for what the multiplexer does with a request.
  unfoldable pub serve :
      (Dict H → ResponseWriter → ResponseWriter) → ListenerState H → ResponseWriter → ResponseWriter
  serve mux_serve s w = elim s.router [ none ↦ write_status 503 w | some mux ↦ mux_serve mux w ]
