-- ===== src/Grpc/Client/Tls.antt =====
-- The transport of NewClient of internal/grpc/client.go and the TLS configuration.
use tetragon_kafka_adapter.Prelude.{◌≡◌, Text, ◌∷◌, refl, ◌≢◌, ◌⊎◌, true, [], none, some, arith}
use tetragon_kafka_adapter.Config.{TlsConfig, TetragonConfig}
use tetragon_kafka_adapter.Grpc.Client.{
  Environment, TlsSettings, Client, Result, ok, err, load_tls_config, new_client,
}

abbrev pub UsesTls : Environment → TlsConfig → TlsSettings → Type 0
UsesTls env cfg t =
    (((cfg.ca_cert ≡ []) × (t.root_cas ≡ none))
      ⊎ ((t.root_cas ≡ env.read_file cfg.ca_cert) × (t.root_cas ≢ none)))
    × (((t.certificates ≡ []) × ((cfg.client_cert ≡ []) ⊎ (cfg.client_key ≡ [])))
        ⊎ ((pair : Text) × (env.load_key_pair cfg.client_cert cfg.client_key ≡ some pair)
            × (t.certificates ≡ pair ∷ [])
            × (cfg.client_cert ≢ [])
            × (cfg.client_key ≢ [])))

load_tls_config-UsesTls :
    (env : Environment) (cfg : TlsConfig) (t : TlsSettings)
    → load_tls_config env cfg ≡ ok t
    → UsesTls env cfg t
unfolding load_tls_config
load_tls_config-UsesTls env cfg t e = (ground arith, ground arith)

new_client_settings :
    (env : Environment) (cfg : TetragonConfig) (c : Client) (r : Result TlsSettings)
    → load_tls_config env cfg.tls ≡ r
    → cfg.tls.enabled ≡ true
    → new_client env cfg ≡ ok c
    → (t : TlsSettings) × (r ≡ ok t) × (c.transport ≡ some t)
unfolding new_client
new_client_settings env cfg c (ok t) e h k = (t, refl, ground arith)
new_client_settings env cfg c (err x) e h k = ground arith

-- A client with TLS enabled never falls back to plain text. Its roots are those of the CA file,
-- which was read, or the system's if no CA file is named; it presents the
-- pair loaded from the certificate file and the key file if both are named, and otherwise no
-- certificate: one of them alone is ignored.
pub new_client-UsesTls :
    (env : Environment) (cfg : TetragonConfig) (c : Client)
    → cfg.tls.enabled ≡ true
    → new_client env cfg ≡ ok c
    → (t : TlsSettings) × (c.transport ≡ some t) × UsesTls env cfg.tls t
new_client-UsesTls env cfg c h e =
    let (t, r, k) = new_client_settings env cfg c _ refl h e in
    (t, k, load_tls_config-UsesTls env cfg.tls t r)
