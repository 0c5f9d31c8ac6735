-- ===== src/Upgrader.antt =====
-- The subprotocols of internal/core/websocket.go, and the upgrader that internal/core/server.go and
-- internal/core/multi_user_http_mux.go both build from them.
use mos_tls_tunnel.Prelude.{ℕ, List, [], ◌∷◌, Bytes, codes}
use mos_tls_tunnel.Config.{default_hand_shake_timeout}

abbrev pub websocket_subprotocol_smux_on : Bytes
websocket_subprotocol_smux_on = codes "smux_on"

abbrev pub websocket_subprotocol_smux_off : Bytes
websocket_subprotocol_smux_off = codes "smux_off"

-- `websocket.Upgrader`, with the fields that the program sets.
pub record Upgrader : Type 0 where
  pub handshake_timeout : ℕ
  pub read_buffer_size : ℕ
  pub write_buffer_size : ℕ
  pub subprotocols : List Bytes

abbrev pub supported_subprotocols : List Bytes
supported_subprotocols = websocket_subprotocol_smux_on ∷ websocket_subprotocol_smux_off ∷ []

abbrev pub upgrader_of_servers : Upgrader
upgrader_of_servers = record {
  handshake_timeout = default_hand_shake_timeout;
  read_buffer_size = 0;
  write_buffer_size = 0;
  subprotocols = supported_subprotocols;
}
