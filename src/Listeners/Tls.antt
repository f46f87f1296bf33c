-- ===== src/Listeners/Tls.antt =====
-- pkg/modules/app/server/listener/listeners/tls/tls.go: the listener for HTTPS. The files are those of
-- one moment; the pool of certificates and the loading of a key pair are parameters.
pub mod Serving
use neon_oss.Base.{
  Bool, true, false, ◌||◌, ◌&&◌, not, ◌==◌, str_eq, List, [], ◌∷◌, ◌++◌, length, String, Option,
  none, some, Result, ok, err, wrap, ℤ, pos, if◌then◌else◌, ℕ,
}
use neon_oss.Modules.Maps.{GivenMap, undecodable, decoded}
use neon_oss.Loader.{or_default}
use neon_oss.Strings.{◌+++◌}
use neon_oss.Http.{FileInfo, FileSystem}
use neon_oss.Listeners
use neon_oss.Listeners.{
  Mediator, RawOptions, Options, HttpServer, no_options, fill, option_errors, new_http_server,
}

-- The type `tlsListenerConfig` as it is decoded.
pub record RawConfig : Type 0 where
  pub options : RawOptions
  pub ca_files : Option (List String)
  pub cert_files : List String
  pub key_files : List String
  pub client_auth : Option String

-- The same with the defaults filled in.
pub record Config : Type 0 where
  pub options : Options
  pub ca_files : Option (List String)
  pub cert_files : List String
  pub key_files : List String
  pub client_auth : String

unfoldable pub fill_config : RawConfig → Config
fill_config c = record {
  options = fill (pos 443) c.options;
  ca_files = c.ca_files;
  cert_files = c.cert_files;
  key_files = c.key_files;
  client_auth = or_default c.client_auth "none";
}

stat_errors : Result FileInfo → Bool
stat_errors (err e) = true
stat_errors (ok fi) = fi.is_dir

opened_errors : Result (Unit {0}) → Result FileInfo → Bool
opened_errors (err e) info = true
opened_errors (ok u) info = stat_errors info

-- The checks of one file.
unfoldable pub file_errors : FileSystem → String → Bool
unfolding opened_errors stat_errors
file_errors fs item =
    if str_eq item "" then true else opened_errors (fs.open_file item) (fs.stat item)

-- The loops over the files.
unfoldable pub files_errors : FileSystem → List String → Bool
files_errors fs [] = false
files_errors fs (item ∷ more) = file_errors fs item || files_errors fs more

ca_errors : FileSystem → Option (List String) → Bool
ca_errors fs none = false
ca_errors fs (some files) = files_errors fs files

-- The `switch` of `Init`.
unfoldable pub auth_errors : String → Bool
auth_errors auth = not (
    str_eq auth "none"
    || str_eq auth "request"
    || str_eq auth "require"
    || str_eq auth "verify"
    || str_eq auth "requireAndVerify")

unfoldable pub config_errors : FileSystem → Config → Bool
unfolding ca_errors
config_errors fs c =
    option_errors c.options
    || ca_errors fs c.ca_files
    || length c.cert_files == 0
    || files_errors fs c.cert_files
    || length c.key_files == 0
    || not (length c.key_files == length c.cert_files)
    || files_errors fs c.key_files
    || auth_errors c.client_auth

init_config : FileSystem → RawConfig → Result Config
init_config fs raw =
    if config_errors fs (fill_config raw) then err "config" else ok (fill_config raw)

-- `Init`
unfoldable pub init : FileSystem → GivenMap RawConfig → Result Config
unfolding init_config
init fs (undecodable e) = wrap "parse config: " (err e)
init fs (decoded raw) = init_config fs raw

-- `tls.ClientAuthType`
pub data ClientAuthType : Type 0 where
  no_client_cert : ClientAuthType
  request_client_cert : ClientAuthType
  require_any_client_cert : ClientAuthType
  verify_client_cert_if_given : ClientAuthType
  require_and_verify_client_cert : ClientAuthType

-- The `switch` of `Serve`, which leaves the first value for another text.
unfoldable pub client_auth_type : String → ClientAuthType
client_auth_type auth =
    if str_eq auth "none"
    then no_client_cert
    else if str_eq auth "request"
    then request_client_cert
    else if str_eq auth "verify"
    then verify_client_cert_if_given
    else if str_eq auth "require"
    then request_client_cert
    else if str_eq auth "requireAndVerify"
    then require_and_verify_client_cert
    else no_client_cert

-- The type `tls.Config`, with its minimal version 1.2.
pub record TlsConfig (Pool Cert : Type 0) : Type 0 where
  pub client_cas : Option Pool
  pub certificates : List Cert
  pub client_auth : ClientAuthType

-- The library of certificates: an empty pool, `AppendCertsFromPEM`, and `LoadX509KeyPair`.
pub record Certificates (Pool Cert : Type 0) : Type 0 where
  pub new_pool : Pool
  pub append_certs : Pool → List ℕ → Pool
  pub load_key_pair : String → String → Result Cert

-- The server of `Serve` with its `TLSConfig`.
pub record TlsServer (Pool Cert H : Type 0) : Type 0 where
  pub server : HttpServer H
  pub tls_config : TlsConfig Pool Cert

module _ {Pool Cert : Type 0} (x509 : Certificates Pool Cert) (fs : FileSystem) where
  read_ca : String → Result (List ℕ) → (List ℕ → Result Pool) → Result Pool
  read_ca name (err e) next = err ("read file " +++ name +++ ": " +++ e)
  read_ca name (ok ca) next = next ca

  -- The loop over the files of the certificate authorities.
  unfoldable pub load_cas : List String → Pool → Result Pool
  unfolding read_ca
  load_cas [] pool = ok pool
  load_cas (name ∷ more) pool =
      read_ca name (fs.read_file name) λ ca. load_cas more (x509.append_certs pool ca)

  unfoldable pub client_cas : Option (List String) → Result (Option Pool)
  client_cas none = ok none
  client_cas (some files) = elim (load_cas files x509.new_pool) [
    | err e ↦ err e
    | ok pool ↦ ok (some pool)
  ]

  -- A key pair of the loop, and the pairs of its later turns.
  pair_first :
      String → String → Result Cert → Option (Result (List Cert)) → Option (Result (List Cert))
  pair_first cert key (err e) rest =
      some (err ("load keypair " +++ cert +++ "/" +++ key +++ ": " +++ e))
  pair_first cert key (ok c) none = none
  pair_first cert key (ok c) (some (err e)) = some (err e)
  pair_first cert key (ok c) (some (ok cs)) = some (ok (c ∷ cs))

  -- The loop over the certificates; `none` is the panic of `KeyFiles[i]` out of range.
  unfoldable pub load_pairs : List String → List String → Option (Result (List Cert))
  unfolding pair_first
  load_pairs [] keys = some (ok [])
  load_pairs (cert ∷ certs) [] = none
  load_pairs (cert ∷ certs) (key ∷ keys) =
      pair_first cert key (x509.load_key_pair cert key) (load_pairs certs keys)

  with_pairs :
      {H : Type 0}
      → Config
      → H
      → Option Pool
      → Option (Result (List Cert))
      → Option (Result (TlsServer Pool Cert H))
  with_pairs c handler cas none = none
  with_pairs c handler cas (some (err e)) = some (err e)
  with_pairs c handler cas (some (ok certs)) = some (
      ok (record {
        server = new_http_server c.options handler;
        tls_config = record {
          client_cas = cas;
          certificates = certs;
          client_auth = client_auth_type c.client_auth;
        };
      }))

  with_cas :
      {H : Type 0} → Config → H → Result (Option Pool) → Option (Result (TlsServer Pool Cert H))
  with_cas c handler (err e) = some (err e)
  with_cas c handler (ok cas) = with_pairs c handler cas (load_pairs c.cert_files c.key_files)

  -- `Serve` up to the start of its goroutine; `none` is a panic.
  unfoldable pub serve : {H : Type 0} → Config → H → Option (Result (TlsServer Pool Cert H))
  unfolding with_cas with_pairs
  serve c handler = with_cas c handler (client_cas c.ca_files)

-- `Register`, which is that of all listeners.
unfoldable pub register :
    {L : Type 0} → (String → String → Result L) → Config → Mediator L → Result L × Mediator L
register listen c m = Listeners.register listen c.options m
