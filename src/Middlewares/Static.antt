-- ===== src/Middlewares/Static.antt =====
-- middlewares/static/static.go. The functions `filepath.Abs` and `filepath.Join`, and the file
-- server that answers for an existing file, are parameters.
pub mod Laws
use neon_oss.Base.{
  Bool, true, false, String, Option, none, Result, ok, err, str_eq, if◌then◌else◌, wrap, not, is_ok,
}
use neon_oss.Modules.Maps.{GivenMap, undecodable, decoded}
use neon_oss.Loader.{or_default}
use neon_oss.Strings.{◌+++◌, has_prefix}
use neon_oss.Http.{FileInfo, FileSystem}

pub record RawConfig : Type 0 where
  pub path : String
  pub index : Option Bool

-- The configuration after `Init`.
pub record Config : Type 0 where
  pub path : String
  pub index : Bool

stat_errors : Result FileInfo → Bool
stat_errors (err e) = true
stat_errors (ok fi) = not fi.is_dir

opened_errors : Result (Unit {0}) → Result FileInfo → Bool
opened_errors (err e) info = true
opened_errors (ok u) info = stat_errors info

-- The checks of the option `Path`.
unfoldable pub path_errors : FileSystem → String → Bool
unfolding opened_errors stat_errors
path_errors fs path =
    if str_eq path "" then true else opened_errors (fs.open_file path) (fs.stat path)

init_config : FileSystem → RawConfig → Result Config
init_config fs c =
    if path_errors fs c.path
    then err "config"
    else ok (record { path = c.path; index = or_default c.index false })

-- `Init`
unfoldable pub init : FileSystem → GivenMap RawConfig → Result Config
unfolding init_config path_errors
init fs (undecodable e) = wrap "parse config: " (err e)
init fs (decoded raw) = init_config fs raw

-- The type `staticFileSystem`.
pub record StaticFileSystem : Type 0 where
  pub prefix : String
  pub index : Bool

-- `Start`
unfoldable pub start : (String → Result String) → Config → Result StaticFileSystem
start abs c = elim (abs c.path) [
  | err e ↦ err ("resolve absolute path: " +++ e)
  | ok path ↦ ok (record { prefix = path; index = c.index })
]

module _ (join : String → String → String) (fs : FileSystem) where
  -- The name with a slash before it.
  unfoldable pub rooted : String → String
  rooted name = if has_prefix name "/" then name else "/" +++ name

  found : StaticFileSystem → String → Result FileInfo → Bool
  found s name (err e) = false
  found s name (ok fi) =
      if fi.is_dir
      then (if s.index then is_ok (fs.stat (join name "index.html")) else false)
      else true

  -- `Exists`
  unfoldable pub exists : StaticFileSystem → String → Bool
  unfolding found
  exists s name = let full = join s.prefix (rooted name) in found s full (fs.stat full)

  -- The handler: the file server for a path that exists, and else the next handler.
  unfoldable pub static_handler :
      {Request Response : Type 0}
      → (Request → Response)
      → (Request → Response)
      → (Request → String)
      → StaticFileSystem
      → Request
      → Response
  static_handler file_server next path_of s r =
      if exists s (path_of r) then file_server r else next r
