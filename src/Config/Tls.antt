-- ===== src/Config/Tls.antt =====
-- BuildMQTTTLSConfig of internal/config/config.go. The files and the packages x509 and tls are
-- parameters.
use nx_iio_t_gateway_max_gat.Shared.{Bool, not, ◌||◌, [], Option, none, some, if◌then◌else◌}
use nx_iio_t_gateway_max_gat.Queue.Codec.Names.{same_bytes}
use nx_iio_t_gateway_max_gat.Config.{Text, TlsConfig}

-- `read` is os.ReadFile, `pool_of` AppendCertsFromPEM on a new pool, `load_pair` LoadX509KeyPair;
-- `none` is an error.
pub record Certificates : Type 1 where
  pub Pool : Type 0
  pub Pair : Type 0
  pub read : Text → Option Text
  pub pool_of : Text → Option Pool
  pub load_pair : Text → Text → Option Pair

module _ (crt : Certificates) where
  -- What is set of a tls.Config.
  pub record Tls : Type 0 where
    pub insecure_skip_verify : Bool
    pub root_cas : Option crt.Pool
    pub certificate : Option crt.Pair

  add_pair : TlsConfig → Tls → Option Tls
  add_pair cfg tls =
      if not (same_bytes cfg.cert_file []) || not (same_bytes cfg.key_file [])
      then elim (crt.load_pair cfg.cert_file cfg.key_file) [
        | none ↦ none
        | some pair ↦ some (record tls { certificate = some pair })
      ]
      else some tls

  add_pool : TlsConfig → Tls → Option Tls
  add_pool cfg tls = if same_bytes cfg.ca_file [] then some tls else elim (crt.read cfg.ca_file) [
    | none ↦ none
    | some pem ↦ elim (crt.pool_of pem) [
      | none ↦ none
      | some pool ↦ some (record tls { root_cas = some pool })
    ]
  ]

  build_enabled : TlsConfig → Option Tls
  unfolding add_pool add_pair
  build_enabled cfg =
      elim (add_pool cfg (record {
        insecure_skip_verify = cfg.insecure_skip_verify;
        root_cas = none;
        certificate = none;
      })) [ none ↦ none | some tls ↦ add_pair cfg tls ]

  -- The outer `none` is an error, the inner one the nil of a disabled TLS.
  unfoldable pub build_mqtt_tls : TlsConfig → Option (Option Tls)
  unfolding build_enabled
  build_mqtt_tls cfg =
      if not cfg.enabled
      then some none
      else elim (build_enabled cfg) [ none ↦ none | some tls ↦ some (some tls) ]
