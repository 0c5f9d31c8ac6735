-- ===== src/MultiUser/Start.antt =====
-- `NewMUServer` and `StartServer` of internal/core/multi_user_server.go. The result of listening,
-- and the calls of crypto/tls, are parameters.
use mos_tls_tunnel.Prelude.{
  ℕ, ◌≡◌, refl, ap, Bool, true, false, ◌&&◌, Option, none, some, List, Bytes, if◌then◌else◌, Result,
  ok, err, ◌>>=◌,
}
use mos_tls_tunnel.Certificate.{CertificateError, generate_certificate}
use mos_tls_tunnel.Config.{MuServerConfig, ServerConfig}
use mos_tls_tunnel.Client.New.{is_nil, LogLevel, info, error}
use mos_tls_tunnel.Server.New.{
  Certificates, NewServerError, generate_failed, load_failed, or_fail, alone, tls_of,
}
use mos_tls_tunnel.MultiUser.Table.{Mux, new_mux}

-- `http.Server` with its address.
pub record MuServer : Type 0 where
  pub conf : MuServerConfig
  pub mux : Mux
  pub server_addr : Bytes
  pub controller_addr : Bytes
  pub log_level : LogLevel

-- It has no error.
unfoldable pub new_mu_server : MuServerConfig → MuServer
new_mu_server c = record {
  conf = c;
  mux = new_mux c.enable_mux c.timeout;
  server_addr = c.server_addr;
  controller_addr = c.http_controller_addr;
  log_level = if c.verbose then info else error;
}

-- `http.Server.ServeTLS` loads the files if the configuration of TLS has no certificate.
abbrev pub serve_tls :
    Certificates → Option (List ℕ) → Bytes → Bytes → Result NewServerError (Option (List ℕ))
serve_tls certs none cert key = or_fail load_failed (alone (certs.load cert key))
serve_tls certs (some cs) cert key = ok (some cs)

-- The certificates of `TLSConfig` after the branch that generates one.
unfoldable pub tls_config_of :
    Certificates → MuServerConfig → Result NewServerError (Option (List ℕ))
tls_config_of certs c =
    if is_nil c.cert && is_nil c.key
    then or_fail generate_failed (generate_certificate certs.crypto certs.random c.server_name)
    else ok none

pub data StartError : Type 0 where
  listen_failed : ℕ → StartError
  tls_failed : NewServerError → StartError

abbrev pub as_start_error :
    Result NewServerError (Option (List ℕ)) → Result StartError (Option (List ℕ))
as_start_error (ok t) = ok t
as_start_error (err e) = err (tls_failed e)

-- What is served: plain HTTP, or TLS with these certificates.
unfoldable pub serve_with : Certificates → MuServerConfig → Result NewServerError (Option (List ℕ))
serve_with certs c =
    if c.disable_tls
    then ok none
    else do tls ← tls_config_of certs c; serve_tls certs tls c.cert c.key

-- `StartServer` up to the serving; `listen` is the result of listening.
unfoldable pub start_server :
    Certificates → Result ℕ (Unit {0}) → MuServer → Result StartError (Option (List ℕ))
start_server certs (err e) s = err (listen_failed e)
start_server certs (ok _) s = as_start_error (serve_with certs s.conf)

serve_tls-or_fail :
    (certs : Certificates) (cert key : Bytes) (r : Result CertificateError (List ℕ))
    → (or_fail generate_failed r >>= λ tls. serve_tls certs tls cert key)
      ≡ or_fail generate_failed r
serve_tls-or_fail certs cert key (ok x) = refl
serve_tls-or_fail certs cert key (err e) = refl

-- Both servers get their certificate from the same source.
serve_with-tls_of :
    (certs : Certificates) (c : MuServerConfig) (sc : ServerConfig)
    → sc.disable_tls ≡ c.disable_tls
    → sc.cert ≡ c.cert
    → sc.key ≡ c.key
    → sc.server_name ≡ c.server_name
    → serve_with certs c ≡ tls_of certs sc
unfolding serve_with tls_config_of tls_of
serve_with-tls_of certs c sc d ce k n =
    rw (d, ce, k, n) (go c.disable_tls (is_nil c.cert && is_nil c.key))
  where
    go :
        (off empty : Bool)
        → (if off
            then ok none
            else ((if empty
                  then or_fail generate_failed
                      (generate_certificate certs.crypto certs.random c.server_name)
                  else ok none)
                >>= λ tls. serve_tls certs tls c.cert c.key))
          ≡ (if off
              then ok none
              else if empty
              then or_fail generate_failed
                  (generate_certificate certs.crypto certs.random c.server_name)
              else or_fail load_failed (alone (certs.load c.cert c.key)))
    go true empty = refl
    go false true =
        serve_tls-or_fail certs c.cert c.key
          (generate_certificate certs.crypto certs.random c.server_name)
    go false false = refl

-- A multi-user server that listens serves TLS with the certificate that `NewServer` would take for
-- the same settings, fails with the same error, or serves without TLS where `NewServer` would.
pub start_server-tls_of :
    (certs : Certificates) (c : MuServerConfig) (sc : ServerConfig)
    → sc.disable_tls ≡ c.disable_tls
    → sc.cert ≡ c.cert
    → sc.key ≡ c.key
    → sc.server_name ≡ c.server_name
    → start_server certs (ok tt) (new_mu_server c) ≡ as_start_error (tls_of certs sc)
unfolding start_server new_mu_server
start_server-tls_of certs c sc d ce k n = ap as_start_error (serve_with-tls_of certs c sc d ce k n)
