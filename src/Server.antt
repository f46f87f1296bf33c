-- ===== src/Server.antt =====
-- internal/app/neon/server.go: the initialisation of the listeners and the sites. What makes one
-- listener or one site is a parameter, for `Listener` and `Site` model them.
pub mod Laws
pub mod Life
pub mod Start
use neon_oss.Base.{
  Bool, true, false, Dict, List, [], ◌∷◌, String, Option, none, some, Result, ok, err, put, ◌||◌,
  ◌&&◌, not, str_eq, if◌then◌else◌, wrap,
}
use neon_oss.Modules.{Given, missing, undecodable, decoded, or_empty}

-- `serverConfig`
pub record ServerConfig (Config : Type 0) : Type 0 where
  pub listeners : Dict (Option Config)
  pub sites : Dict (Option Config)

-- The variables of the loop over the sites.
pub record SiteLoop (S : Type 0) : Type 0 where
  pub failed : Bool
  pub default_name : String
  pub sites : Dict S

abbrev pub is_empty {ℓ} : {A : Type ℓ} → List A → Bool
is_empty [] = true
is_empty (x ∷ xs) = false

module _ {Config L S : Type 0} (empty : Config) (init_listener : String → Config → Result L)
    (init_site : String → Config → Result S) (is_default : S → Bool) where
  with_listener : String → Result L → Bool × Dict L → Bool × Dict L
  with_listener name (err e) (failed, listeners) = (true, listeners)
  with_listener name (ok l) (failed, listeners) = (failed, put name l listeners)

  -- The loop over the listeners.
  unfoldable pub init_listeners : Dict (Option Config) → Bool × Dict L → Bool × Dict L
  unfolding with_listener
  init_listeners [] s = s
  init_listeners ((name, config) ∷ more) s =
      init_listeners more (with_listener name (init_listener name (or_empty empty config)) s)

  -- The body of the loop over the sites: the name of the last site stands where that of the default
  -- site is meant to.
  unfoldable pub with_site : String → Result S → SiteLoop S → SiteLoop S
  with_site name (err e) s = record s { failed = true }
  with_site name (ok site) s = record {
    failed = s.failed || (is_default site && not (str_eq s.default_name ""));
    default_name = name;
    sites = put name site s.sites;
  }

  -- The loop over the sites.
  unfoldable pub init_sites : Dict (Option Config) → SiteLoop S → SiteLoop S
  unfolding with_site
  init_sites [] s = s
  init_sites ((name, config) ∷ more) s =
      init_sites more (with_site name (init_site name (or_empty empty config)) s)

  finish : Bool → Dict L → SiteLoop S → Result (Dict L × Dict S)
  finish failed listeners s = if failed || s.failed then err "config" else ok (listeners, s.sites)

  init_config : ServerConfig Config → Result (Dict L × Dict S)
  init_config c =
      let (failed, listeners) = init_listeners c.listeners (is_empty c.listeners, []) in
      finish failed listeners
        (init_sites c.sites (record { failed = is_empty c.sites; default_name = ""; sites = [] }))

  -- `Init`
  unfoldable pub init : Given (ServerConfig Config) → Result (Dict L × Dict S)
  unfolding init_config finish init_listeners init_sites
  init missing = err "missing configuration"
  init (undecodable e) = wrap "parse config: " (err e)
  init (decoded c) = init_config c
