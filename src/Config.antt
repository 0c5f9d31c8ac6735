-- ===== src/Config.antt =====
-- internal/core/config.go: the constants and the three configurations.
use mos_tls_tunnel.Prelude.{ℕ, ◌*◌, Bool, false, Bytes, ℤ, pos, []}

abbrev pub second : ℕ
second = 1000000000

abbrev pub default_ws_io_buffer_size : ℕ
default_ws_io_buffer_size = 32 * 1024

abbrev pub default_copy_io_buffer_size : ℕ
default_copy_io_buffer_size = 16 * 1024

abbrev pub default_hand_shake_timeout : ℕ
default_hand_shake_timeout = second * 10

abbrev pub default_smux_max_stream : ℕ
default_smux_max_stream = 16

-- `smux.Config`, the fields that the program sets.
pub record SmuxConfig : Type 0 where
  pub version : ℕ
  pub keep_alive_interval : ℕ
  pub keep_alive_timeout : ℕ
  pub max_frame_size : ℕ
  pub max_receive_buffer : ℕ
  pub max_stream_buffer : ℕ

abbrev pub default_smux_config : SmuxConfig
default_smux_config = record {
  version = 1;
  keep_alive_interval = 30 * second;
  keep_alive_timeout = 70 * second;
  max_frame_size = 16 * 1024;
  max_receive_buffer = 256 * 1024;
  max_stream_buffer = 64 * 1024;
}

pub record ClientConfig : Type 0 where
  pub bind_addr : Bytes
  pub remote_addr : Bytes
  pub enable_wss : Bool
  pub wss_path : Bytes
  pub enable_mux : Bool
  pub mux_max_stream : ℤ
  pub server_name : Bytes
  pub insecure_skip_verify : Bool
  pub timeout : ℤ
  pub enable_tfo : Bool
  pub vpn_mode : Bool
  pub fallback_dns : Bytes
  pub verbose : Bool

pub record ServerConfig : Type 0 where
  pub bind_addr : Bytes
  pub bind_unix : Bool
  pub dst_addr : Bytes
  pub enable_wss : Bool
  pub wss_path : Bytes
  pub enable_mux : Bool
  pub key : Bytes
  pub cert : Bytes
  pub server_name : Bytes
  pub disable_tls : Bool
  pub timeout : ℤ
  pub enable_tfo : Bool
  pub verbose : Bool

pub record MuServerConfig : Type 0 where
  pub server_addr : Bytes
  pub server_bind_unix : Bool
  pub http_controller_addr : Bytes
  pub key : Bytes
  pub cert : Bytes
  pub server_name : Bytes
  pub disable_tls : Bool
  pub enable_mux : Bool
  pub enable_tfo : Bool
  pub timeout : ℤ
  pub verbose : Bool

-- `new(core.ClientConfig)` and its like.
abbrev pub zero_client_config : ClientConfig
zero_client_config = record {
  bind_addr = [];
  remote_addr = [];
  enable_wss = false;
  wss_path = [];
  enable_mux = false;
  mux_max_stream = pos 0;
  server_name = [];
  insecure_skip_verify = false;
  timeout = pos 0;
  enable_tfo = false;
  vpn_mode = false;
  fallback_dns = [];
  verbose = false;
}

abbrev pub zero_server_config : ServerConfig
zero_server_config = record {
  bind_addr = [];
  bind_unix = false;
  dst_addr = [];
  enable_wss = false;
  wss_path = [];
  enable_mux = false;
  key = [];
  cert = [];
  server_name = [];
  disable_tls = false;
  timeout = pos 0;
  enable_tfo = false;
  verbose = false;
}
