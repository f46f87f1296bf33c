-- ===== src/Rest/Options.antt =====
-- pkg/modules/app/fetcher/providers/rest/rest.go, `Init`: the options of the rest provider and the
-- client that it makes. The checks of the files, the pool of certificates and the key pairs are those
-- of the listener `tls`. `none` is a panic.
use neon_oss.Base.{
  Bool, true, false, Option-cases, Bool-cases, inl, inr, ◌||◌, not, ◌==◌, Dict, List, [], ◌∷◌,
  length, String, str_eq, Option, none, some, Result, ok, err, wrap, ℤ, pos, ltb_int, if◌then◌else◌,
  ◌≡◌, ◌≢◌, ◌↔◌, refl, arith,
}
use neon_oss.Modules.Maps.{GivenMap, undecodable, decoded}
use neon_oss.Loader.{or_default}
use neon_oss.Http.{FileSystem}
use neon_oss.Listeners.{or_nil}
use neon_oss.Listeners.Tls.{Certificates, files_errors, client_cas, load_pairs}
use neon_oss.Listeners.Tls.Serving.{load_pairs-total}

-- The type `restProviderConfig` as it is decoded.
pub record RawConfig : Type 0 where
  pub tls_ca_files : Option (List String)
  pub tls_cert_files : Option (List String)
  pub tls_key_files : Option (List String)
  pub timeout : Option ℤ
  pub connect_timeout : Option ℤ
  pub max_idle_conns : Option ℤ
  pub max_idle_conns_per_host : Option ℤ
  pub idle_conn_timeout : Option ℤ
  pub max_conns_per_host : Option ℤ
  pub retry : Option ℤ
  pub retry_delay : Option ℤ
  pub headers : Dict String
  pub params : Dict String

abbrev pub no_config : RawConfig
no_config = record {
  tls_ca_files = none;
  tls_cert_files = none;
  tls_key_files = none;
  timeout = none;
  connect_timeout = none;
  max_idle_conns = none;
  max_idle_conns_per_host = none;
  idle_conn_timeout = none;
  max_conns_per_host = none;
  retry = none;
  retry_delay = none;
  headers = [];
  params = [];
}

-- The numbers with the defaults filled in.
pub record Numbers : Type 0 where
  pub timeout : ℤ
  pub connect_timeout : ℤ
  pub max_idle_conns : ℤ
  pub max_idle_conns_per_host : ℤ
  pub idle_conn_timeout : ℤ
  pub max_conns_per_host : ℤ
  pub retry : ℤ
  pub retry_delay : ℤ

unfoldable pub fill : RawConfig → Numbers
fill c = record {
  timeout = or_default c.timeout (pos 15);
  connect_timeout = or_default c.connect_timeout (pos 5);
  max_idle_conns = or_default c.max_idle_conns (pos 100);
  max_idle_conns_per_host = or_default c.max_idle_conns_per_host (pos 100);
  idle_conn_timeout = or_default c.idle_conn_timeout (pos 60);
  max_conns_per_host = or_default c.max_conns_per_host (pos 100);
  retry = or_default c.retry (pos 3);
  retry_delay = or_default c.retry_delay (pos 1);
}

number_errors : Numbers → Bool
number_errors c =
    ltb_int c.timeout (pos 0)
    || ltb_int c.connect_timeout (pos 0)
    || ltb_int c.max_idle_conns (pos 0)
    || ltb_int c.max_idle_conns_per_host (pos 0)
    || ltb_int c.idle_conn_timeout (pos 0)
    || ltb_int c.max_conns_per_host (pos 0)
    || ltb_int c.retry (pos 0)
    || ltb_int c.retry_delay (pos 0)

-- The loops over the keys of `Headers` and `Params`.
empty_key : Dict String → Bool
empty_key [] = false
empty_key ((k, v) ∷ more) = str_eq k "" || empty_key more

-- `p.config.TLSCertFiles == nil || len(keys) != len(certs)`
unpaired : List String → Option (List String) → Bool
unpaired keys none = true
unpaired keys (some certs) = not (length keys == length certs)

key_errors : FileSystem → Option (List String) → Option (List String) → Bool
key_errors fs certs none = false
key_errors fs certs (some keys) = unpaired keys certs || files_errors fs keys

unfoldable pub config_errors : FileSystem → RawConfig → Bool
unfolding number_errors empty_key key_errors unpaired
config_errors fs c =
    files_errors fs (or_nil c.tls_ca_files)
    || files_errors fs (or_nil c.tls_cert_files)
    || key_errors fs c.tls_cert_files c.tls_key_files
    || number_errors (fill c)
    || empty_key c.headers
    || empty_key c.params

-- The type `http.Client` with its transport, as far as `Init` writes it.
pub record Client (Pool Cert : Type 0) : Type 0 where
  pub root_cas : Option Pool
  pub certificates : List Cert
  pub numbers : Numbers

module _ {Pool Cert : Type 0} (x509 : Certificates Pool Cert) (fs : FileSystem) where
  with_pairs :
      RawConfig → Option Pool → Option (Result (List Cert)) → Option (Result (Client Pool Cert))
  with_pairs c cas none = none
  with_pairs c cas (some (err e)) = some (err e)
  with_pairs c cas (some (ok certs)) =
      some (ok (record { root_cas = cas; certificates = certs; numbers = fill c }))

  with_cas : RawConfig → Result (Option Pool) → Option (Result (Client Pool Cert))
  with_cas c (err e) = some (err e)
  with_cas c (ok cas) =
      with_pairs c cas (load_pairs x509 fs (or_nil c.tls_cert_files) (or_nil c.tls_key_files))

  init_config : RawConfig → Option (Result (Client Pool Cert))
  init_config c =
      if config_errors fs c
      then some (err "config")
      else with_cas c (client_cas x509 fs c.tls_ca_files)

  -- `Init`; the keys are read by their index without a look at whether there are any.
  unfoldable pub init : GivenMap RawConfig → Option (Result (Client Pool Cert))
  unfolding init_config with_cas with_pairs
  init (undecodable e) = some (wrap "parse config: " (err e))
  init (decoded c) = init_config c

  -- The certificates are given without their keys.
  pub record LacksKeys (c : RawConfig) : Type 0 where
    pub checked : config_errors fs c ≡ false
    pub pool : Option Pool
    pub cas : client_cas x509 fs c.tls_ca_files ≡ ok pool
    pub no_keys : c.tls_key_files ≡ none
    pub some_cert : or_nil c.tls_cert_files ≢ []

  equal_lengths :
      (certs : Option (List String)) (keys : List String)
      → unpaired keys certs ≡ false
      → length keys ≡ length (or_nil certs)
  unfolding unpaired
  equal_lengths none keys h = absurd (cc h)
  equal_lengths (some certs) keys h = ground arith

  paired :
      (c : RawConfig) (keys : List String)
      → config_errors fs c ≡ false
      → c.tls_key_files ≡ some keys
      → length keys ≡ length (or_nil c.tls_cert_files)
  unfolding config_errors key_errors
  paired c keys h k = equal_lengths c.tls_cert_files keys (let e = rw k at h in ground arith)

  -- The loading of the pairs panics only without any keys.
  pairs_panic :
      (c : RawConfig)
      → config_errors fs c ≡ false
      → load_pairs x509 fs (or_nil c.tls_cert_files) (or_nil c.tls_key_files) ≡ none
      → (c.tls_key_files ≡ none) × (or_nil c.tls_cert_files ≢ [])
  unfolding load_pairs
  pairs_panic c h p = elim (Option-cases c.tls_key_files) [
    | inl absent ↦ (absent, λ e. let q = rw (e, load_pairs) at p in absurd (cc q))
    | inr (keys, found) ↦
        let q = rw found at p in
        let (r, loads) =
          load_pairs-total x509 fs (or_nil c.tls_cert_files) keys (paired c keys h found) in
        absurd (cc (loads, q))
  ]

  pairs_none : (certs : List String) → certs ≢ [] → load_pairs x509 fs certs [] ≡ none
  unfolding load_pairs
  pairs_none [] h = absurd (h refl)
  pairs_none (cert ∷ certs) h = refl

  from_panic :
      (c : RawConfig) (cas : Result (Option Pool)) (pairs : Option (Result (List Cert)))
      → config_errors fs c ≡ false
      → client_cas x509 fs c.tls_ca_files ≡ cas
      → load_pairs x509 fs (or_nil c.tls_cert_files) (or_nil c.tls_key_files) ≡ pairs
      → with_cas c cas ≡ none
      → LacksKeys c
  unfolding with_cas with_pairs
  from_panic c (err e) pairs h k l p = absurd (cc p)
  from_panic c (ok pool) none h k l p =
      let (no_keys, some_cert) = pairs_panic c h l in
      record { checked = h; pool = pool; cas = k; no_keys = no_keys; some_cert = some_cert }
  from_panic c (ok pool) (some (err e)) h k l p = let q = rw l at p in absurd (cc q)
  from_panic c (ok pool) (some (ok certs)) h k l p = let q = rw l at p in absurd (cc q)

  -- `Init` panics exactly when its checks succeed, the authorities are read, and certificates are
  -- named without any keys.
  pub init_panics_iff : (c : RawConfig) → (init (decoded c) ≡ none) ↔ LacksKeys c
  unfolding init init_config with_cas with_pairs
  init_panics_iff c = (
    λ p. elim (Bool-cases (config_errors fs c)) [
      | inl bad ↦ let q = rw bad at p in absurd (cc q)
      | inr good ↦ let q = rw good at p in from_panic c _ _ good refl refl q
    ],
    λ l. rw (l.checked, l.cas, l.no_keys, pairs_none (or_nil c.tls_cert_files) l.some_cert) refl,
  )
