-- ===== src/Client/New.antt =====
-- `NewClient` of internal/core/client.go. `net.ParseIP(s) != nil` is the parameter `is_ip`. The
-- configuration is changed in place, also where an error follows, so it is returned beside the
-- result.
use mos_tls_tunnel.Prelude.{
  ℕ, Bool, true, false, not, ◌&&◌, ◌||◌, Option, none, some, List, [], ◌∷◌, ◌++◌, Bytes, codes, pos,
  int_ltb, if◌then◌else◌, Result, ok, err,
}
use mos_tls_tunnel.Config.{
  ClientConfig, SmuxConfig, default_smux_config, default_smux_max_stream,
  default_hand_shake_timeout, default_ws_io_buffer_size,
}
use mos_tls_tunnel.GoStd.Strings.{has_prefix}
use mos_tls_tunnel.GoStd.Net.{AddrError, split_host_port}
use mos_tls_tunnel.Tcp.{TcpConfig}
use mos_tls_tunnel.Upgrader.{websocket_subprotocol_smux_on, websocket_subprotocol_smux_off}

pub data NewClientError : Type 0 where
  need_bind_address need_remote_address bad_timeout no_host bad_max_stream : NewClientError
  bad_fallback_dns : Bytes → NewClientError

pub data LogLevel : Type 0 where
  debug info error : LogLevel

pub record TlsConfig : Type 0 where
  pub insecure_skip_verify : Bool
  pub server_name : Bytes
  pub session_cache : ℕ

pub record WsDialer : Type 0 where
  pub tls_client_config : TlsConfig
  pub read_buffer_size : ℕ
  pub write_buffer_size : ℕ
  pub handshake_timeout : ℕ
  pub subprotocols : List Bytes

-- `resolver_dns` is the server that `net.DefaultResolver` is made to dial, if it is overwritten.
pub record Client : Type 0 where
  pub conf : ClientConfig
  pub tls_conf : TlsConfig
  pub tcp_config : TcpConfig
  pub wss_url : Bytes
  pub ws_dialer : WsDialer
  pub dial_timeout : ℕ
  pub smux_config : SmuxConfig
  pub log_level : LogLevel
  pub resolver_dns : Option Bytes

abbrev pub is_nil : Bytes → Bool
is_nil [] = true
is_nil (_ ∷ _) = false

abbrev pub with_host :
    ClientConfig → Result AddrError (Bytes × Bytes) → Result NewClientError ClientConfig
with_host c (ok (host, _)) = ok (record c { server_name = host })
with_host c (err _) = err no_host

-- `if len(c.ServerName) == 0`
unfoldable pub set_server_name : ClientConfig → Result NewClientError ClientConfig
set_server_name c =
    if is_nil c.server_name then with_host c (split_host_port c.remote_addr) else ok c

-- `if !strings.HasPrefix(c.WSSPath, "/")`
unfoldable pub set_wss_path : ClientConfig → ClientConfig
set_wss_path c =
    if not (has_prefix c.wss_path (codes "/"))
    then record c { wss_path = codes "/" ++ c.wss_path }
    else c

abbrev tls_conf_of : ClientConfig → TlsConfig
tls_conf_of c = record {
  insecure_skip_verify = c.insecure_skip_verify;
  server_name = c.server_name;
  session_cache = 16;
}

unfoldable pub build_client : ClientConfig → Client
build_client c = record {
  conf = c;
  tls_conf = tls_conf_of c;
  tcp_config = record { vpn_mode = c.vpn_mode; tfo = c.enable_tfo };
  wss_url = codes "wss://" ++ (c.server_name ++ c.wss_path);
  ws_dialer = record {
    tls_client_config = tls_conf_of c;
    read_buffer_size = default_ws_io_buffer_size;
    write_buffer_size = default_ws_io_buffer_size;
    handshake_timeout = default_hand_shake_timeout;
    subprotocols =
        (if c.enable_mux then websocket_subprotocol_smux_on else websocket_subprotocol_smux_off)
        ∷ [];
  };
  dial_timeout = default_hand_shake_timeout;
  smux_config = default_smux_config;
  log_level = if c.verbose then debug else error;
  resolver_dns = if is_nil c.fallback_dns then none else some c.fallback_dns;
}

-- From the check of the fallback DNS server to the end.
unfoldable pub finish : (Bytes → Bool) → ClientConfig → ClientConfig × Result NewClientError Client
finish is_ip c =
    if not (is_nil c.fallback_dns) && not (is_ip c.fallback_dns)
    then (c, err (bad_fallback_dns c.fallback_dns))
    else (c, ok (build_client c))

-- From the check of `MuxMaxStream` on.
unfoldable pub check_streams :
    (Bytes → Bool) → ClientConfig → ClientConfig × Result NewClientError Client
check_streams is_ip c =
    if int_ltb c.mux_max_stream (pos 1) || int_ltb (pos default_smux_max_stream) c.mux_max_stream
    then (c, err bad_max_stream)
    else finish is_ip (set_wss_path c)

abbrev pub named :
    (Bytes → Bool)
    → ClientConfig
    → Result NewClientError ClientConfig
    → ClientConfig × Result NewClientError Client
named is_ip c (err e) = (c, err e)
named is_ip c (ok c') = check_streams is_ip c'

unfoldable pub new_client :
    (Bytes → Bool) → ClientConfig → ClientConfig × Result NewClientError Client
new_client is_ip c =
    if is_nil c.bind_addr
    then (c, err need_bind_address)
    else if is_nil c.remote_addr
    then (c, err need_remote_address)
    else if not (int_ltb (pos 0) c.timeout)
    then (c, err bad_timeout)
    else named is_ip c (set_server_name c)
