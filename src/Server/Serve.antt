-- ===== src/Server/Serve.antt =====
-- The handlers of `Server` in internal/core/server.go, as the list of what they do.
use mos_tls_tunnel.Prelude.{
  ℕ, Bool, true, false, not, ◌&&◌, Option, none, some, List, [], ◌∷◌, Bytes, same, if◌then◌else◌,
  Result, ok, err,
}
use mos_tls_tunnel.Config.{ServerConfig}
use mos_tls_tunnel.Upgrader.{websocket_subprotocol_smux_on, websocket_subprotocol_smux_off}
use mos_tls_tunnel.Streams.Accept.{Round}
use mos_tls_tunnel.Handlers.{
  left, right, handshake_failed, upgrade_failed, Action, opened, warned, deferred,
}
use mos_tls_tunnel.Handlers.Tunnelled.{Network, server_handler, handle_mux, session_ends}

-- What the other side does to a handler: the TLS handshake, the HTTP upgrade with the subprotocol
-- that it negotiated, the session, its streams, and the destination.
pub record Peer : Type 0 where
  pub handshake : Bool
  pub upgrade : Option Bytes
  pub session : Result ℕ (Unit {0})
  pub rounds : List Round
  pub net : Network

-- `switch leftWSConn.Subprotocol()`
unfoldable pub uses_mux : Bytes → Bool → Bool
uses_mux subprotocol enable =
    if same subprotocol websocket_subprotocol_smux_on
    then true
    else if same subprotocol websocket_subprotocol_smux_off
    then false
    else enable

unfoldable pub handle_conn : ServerConfig → Bool → Peer → List Action
handle_conn c mux p =
    if mux
    then handle_mux (server_handler p.net c.dst_addr c.timeout) p.session p.rounds
    else server_handler p.net c.dst_addr c.timeout left right

-- The body of the goroutine of `ActiveAndServe`, without its deferred call.
unfoldable pub serve_accepted : ServerConfig → Peer → List Action
serve_accepted c p =
    if not c.disable_tls && not p.handshake
    then warned handshake_failed ∷ []
    else handle_conn c c.enable_mux p

-- Whether this body has come to its end.
unfoldable pub serving_ends : ServerConfig → Peer → Bool
serving_ends c p =
    if not c.disable_tls && not p.handshake
    then true
    else if c.enable_mux
    then session_ends p.session p.rounds
    else true

unfoldable pub serve_conn : ServerConfig → Peer → List Action
unfolding deferred
serve_conn c p = deferred left (serving_ends c p) (serve_accepted c p)

-- `for` of `ActiveAndServe`: one list for each connection, and the error of `Accept`.
unfoldable pub active_and_serve :
    ServerConfig → List (Result ℕ Peer) → List (List Action) × Option ℕ
active_and_serve c [] = ([], none)
active_and_serve c (err e ∷ rest) = ([], some e)
active_and_serve c (ok p ∷ rest) = let r = active_and_serve c rest in (serve_conn c p ∷ r.0, r.1)

abbrev pub upgraded : ServerConfig → Peer → Option Bytes → List Action
upgraded c p none = warned upgrade_failed ∷ []
upgraded c p (some subprotocol) =
    opened left [] ∷ handle_conn c (uses_mux subprotocol c.enable_mux) p

-- `ServeHTTP`, which closes the connection nowhere itself.
unfoldable pub serve_http : ServerConfig → Peer → List Action
serve_http c p = upgraded c p p.upgrade
