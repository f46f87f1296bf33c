-- ===== src/FileProvider.antt =====
-- pkg/modules/app/fetcher/providers/file/file.go: the provider of the files of this host.
use neon_oss.Base.{List, [], ◌∷◌, ℕ, String, Result, ok, err}
use neon_oss.Modules.{Given, missing, undecodable, decoded}
use neon_oss.Http.{FileSystem}
use neon_oss.Resource.{Resource}
use neon_oss.Strings.{◌+++◌}

-- `Init`: there are no options.
unfoldable pub init : Given (Unit {0}) → Result (Unit {0})
init missing = ok tt
init (undecodable e) = err ("parse config: " +++ e)
init (decoded u) = ok tt

read_file : String → Result (List ℕ) → Result Resource
read_file path (err e) = err ("read file " +++ path +++ ": " +++ e)
read_file path (ok bytes) = ok (record { data_array = bytes ∷ []; ttl = 0 })

-- `Fetch`, with the option `Path` of the resource, which is empty where it is missing.
unfoldable pub fetch : FileSystem → String → Given String → Result Resource
unfolding read_file
fetch fs name missing = read_file "" (fs.read_file "")
fetch fs name (undecodable e) = err ("parse resource " +++ name +++ " config: " +++ e)
fetch fs name (decoded path) = read_file path (fs.read_file path)
