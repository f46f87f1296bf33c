-- ===== src/Listeners/Tls/Serving.antt =====
-- What the listener for HTTPS serves with, once its configuration is accepted.
use neon_oss.Base.{
  arith, List, [], ◌∷◌, length, String, Option, none, some, Result, ok, err, ◌≡◌, ◌≢◌, refl,
}
use neon_oss.Http.{FileSystem}
use neon_oss.Listeners.{new_http_server}
use neon_oss.Listeners.Tls.{
  Config, ClientAuthType, no_client_cert, request_client_cert, verify_client_cert_if_given,
  require_and_verify_client_cert, Certificates, TlsServer, client_cas, pair_first, load_pairs,
}

-- What each value of the option `ClientAuth` is served with: `require`, too, only requests a
-- certificate.
pub data AuthOf : String → ClientAuthType → Type 0 where
  auth_none : AuthOf "none" no_client_cert
  auth_request : AuthOf "request" request_client_cert
  auth_require : AuthOf "require" request_client_cert
  auth_verify : AuthOf "verify" verify_client_cert_if_given
  auth_require_and_verify : AuthOf "requireAndVerify" require_and_verify_client_cert

module _ {Pool Cert : Type 0} (x509 : Certificates Pool Cert) where
  -- The pairs of a configuration, one for each certificate with its key.
  abbrev pub PairOf : List String → List String → List Cert → Type 0
  PairOf [] keys [] = Unit
  PairOf [] keys (c ∷ cs) = ⊥
  PairOf (cert ∷ certs) [] cs = ⊥
  PairOf (cert ∷ certs) (key ∷ keys) [] = ⊥
  PairOf (cert ∷ certs) (key ∷ keys) (c ∷ cs) =
      (x509.load_key_pair cert key ≡ ok c) × PairOf certs keys cs

  pair_first-total :
      (fs : FileSystem) (cert key : String) (first : Result Cert)
      (rest : Option (Result (List Cert))) (r : Result (List Cert))
      → rest ≡ some r
      → (r' : Result (List Cert)) × (pair_first x509 fs cert key first rest ≡ some r')
  unfolding pair_first
  pair_first-total fs cert key (err e) rest r h = (err _, refl)
  pair_first-total fs cert key (ok c) none r h = absurd (cc h)
  pair_first-total fs cert key (ok c) (some (err e)) r h = (err e, refl)
  pair_first-total fs cert key (ok c) (some (ok cs)) r h = (ok (c ∷ cs), refl)

  pub load_pairs-total :
      (fs : FileSystem) (certs keys : List String)
      → length keys ≡ length certs
      → (r : Result (List Cert)) × (load_pairs x509 fs certs keys ≡ some r)
  unfolding load_pairs
  load_pairs-total fs [] keys h = (ok [], refl)
  load_pairs-total fs (cert ∷ certs) [] h = absurd (omega arith)
  load_pairs-total fs (cert ∷ certs) (key ∷ keys) h =
      let (r, rest) = load_pairs-total fs certs keys (omega arith) in
      pair_first-total fs cert key (x509.load_key_pair cert key) (load_pairs x509 fs certs keys) r
        rest

-- What a configuration is served with: the address and the time limits of the options, the pool of
-- the authorities where there are any, a certificate with its key for each file, and what is asked
-- of the client.
pub record IsServedWith {Pool Cert H : Type 0} (x509 : Certificates Pool Cert) (fs : FileSystem)
    (c : Config) (handler : H) (s : TlsServer Pool Cert H) : Type 0 where
  pub server : s.server ≡ new_http_server c.options handler
  pub cas : client_cas x509 fs c.ca_files ≡ ok s.tls_config.client_cas
  pub pairs : PairOf x509 c.cert_files c.key_files s.tls_config.certificates
  pub some_pair : s.tls_config.certificates ≢ []
  pub auth : AuthOf c.client_auth s.tls_config.client_auth
