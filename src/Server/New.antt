-- ===== src/Server/New.antt =====
-- `NewServer` of internal/core/server.go. The calls of crypto/tls are parameters.
use mos_tls_tunnel.Prelude.{
  ℕ, false, not, ◌&&◌, Option, none, some, List, [], ◌∷◌, Bytes, pos, int_ltb, if◌then◌else◌,
  Result, ok, err, ◌>>=◌,
}
use mos_tls_tunnel.Config.{
  ServerConfig, SmuxConfig, default_smux_config, default_hand_shake_timeout,
}
use mos_tls_tunnel.Certificate.{Crypto, CertificateError, generate_certificate}
use mos_tls_tunnel.Tcp.{TcpConfig}
use mos_tls_tunnel.Upgrader.{Upgrader, upgrader_of_servers}
use mos_tls_tunnel.Client.New.{is_nil, LogLevel, debug, error}

-- What a certificate is made with, `random` being the name that `randServerName` gives, and
-- `tls.LoadX509KeyPair`. A certificate is a number here; so is an error.
pub record Certificates : Type 0 where
  pub crypto : Crypto
  pub random : Option Bytes
  pub load : Bytes → Bytes → Result ℕ ℕ

pub data NewServerError : Type 0 where
  need_bind_address need_destination bad_timeout : NewServerError
  generate_failed : CertificateError → NewServerError
  load_failed : ℕ → NewServerError

pub record Server : Type 0 where
  pub conf : ServerConfig
  pub tls_certificates : Option (List ℕ)
  pub tcp_config : TcpConfig
  pub upgrader : Upgrader
  pub dial_timeout : ℕ
  pub smux_config : SmuxConfig
  pub log_level : LogLevel

abbrev pub or_fail :
    {E : Type 0}
    → (E → NewServerError)
    → Result E (List ℕ)
    → Result NewServerError (Option (List ℕ))
or_fail f (ok cs) = ok (some cs)
or_fail f (err e) = err (f e)

abbrev pub alone : Result ℕ ℕ → Result ℕ (List ℕ)
alone (ok c) = ok (c ∷ [])
alone (err e) = err e

-- The branch on `DisableTLS`.
unfoldable pub tls_of : Certificates → ServerConfig → Result NewServerError (Option (List ℕ))
tls_of certs c =
    if c.disable_tls
    then ok none
    else if is_nil c.cert && is_nil c.key
    then or_fail generate_failed (generate_certificate certs.crypto certs.random c.server_name)
    else or_fail load_failed (alone (certs.load c.cert c.key))

unfoldable pub build_server : ServerConfig → Option (List ℕ) → Server
build_server c tls = record {
  conf = c;
  tls_certificates = tls;
  tcp_config = record { vpn_mode = false; tfo = c.enable_tfo };
  upgrader = upgrader_of_servers;
  dial_timeout = default_hand_shake_timeout;
  smux_config = default_smux_config;
  log_level = if c.verbose then debug else error;
}

unfoldable pub new_server : Certificates → ServerConfig → Result NewServerError Server
new_server certs c =
    if is_nil c.bind_addr
    then err need_bind_address
    else if is_nil c.dst_addr
    then err need_destination
    else if not (int_ltb (pos 0) c.timeout)
    then err bad_timeout
    else do tls ← tls_of certs c; ok (build_server c tls)
