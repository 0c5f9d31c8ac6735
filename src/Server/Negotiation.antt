-- ===== src/Server/Negotiation.antt =====
-- The WebSocket subprotocol by which a client of internal/core/client.go tells a server of
-- internal/core/server.go whether it uses smux. The negotiation itself, which gorilla/websocket
-- does, is a parameter.
use mos_tls_tunnel.Prelude.{
  ◌≡◌, refl, Bool, true, false, List, [], ◌∷◌, Bytes, if◌then◌else◌, ℤ, same, bytes_dec, ◌||◌, ok,
}
use mos_tls_tunnel.Config.{ClientConfig, ServerConfig}
use mos_tls_tunnel.Client.New.{Client, new_client, build_client}
use mos_tls_tunnel.Upgrader.{
  websocket_subprotocol_smux_on, websocket_subprotocol_smux_off, supported_subprotocols,
}
use mos_tls_tunnel.MultiUser.Table.{new_mux}
use mos_tls_tunnel.Client.NewLaws.{new_client_only_accepts}
use mos_tls_tunnel.Server.New.{Server, Certificates, new_server, build_server}
use mos_tls_tunnel.Server.NewLaws.{new_server_only_accepts}
use mos_tls_tunnel.Server.Serve.{uses_mux}

abbrev pub has : Bytes → List Bytes → Bool
has p [] = false
has p (q ∷ rest) = same p q || has p rest

-- Documented for the upgrader: the subprotocol is one that the server has and the client asks for.
-- For a client that asks for one only it is that one.
abbrev pub ChoosesOffered : (List Bytes → List Bytes → Bytes) → Type 0
ChoosesOffered negotiate =
    (server : List Bytes) (p : Bytes) → has p server ≡ true → negotiate server (p ∷ []) ≡ p

asked : Bool → Bytes
asked mux = if mux then websocket_subprotocol_smux_on else websocket_subprotocol_smux_off

has-asked : (mux : Bool) → has (asked mux) supported_subprotocols ≡ true
unfolding asked bytes_dec
has-asked true = refl
has-asked false = refl

uses_mux-asked : (mux enable : Bool) → uses_mux (asked mux) enable ≡ mux
unfolding uses_mux asked bytes_dec
uses_mux-asked true enable = refl
uses_mux-asked false enable = refl

-- If the negotiation of a client that asks for one subprotocol, which the server has, gives that
-- one, then over WebSocket every server that `NewServer` makes, and every multi-user server, uses
-- smux for a connection exactly when the client that `NewClient` made does, whatever the server's
-- own setting is.
pub uses_mux-negotiate :
    (negotiate : List Bytes → List Bytes → Bytes)
    → ChoosesOffered negotiate
    → (is_ip : Bytes → Bool) (c : ClientConfig) (cl : Client) → (new_client is_ip c).1 ≡ ok cl
    → (certs : Certificates) (sc : ServerConfig) (srv : Server) → new_server certs sc ≡ ok srv
    → (enable : Bool) (timeout : ℤ)
    → (uses_mux (negotiate srv.upgrader.subprotocols cl.ws_dialer.subprotocols) sc.enable_mux
        ≡ c.enable_mux)
      × (uses_mux
            (negotiate (new_mux enable timeout).upgrader.subprotocols cl.ws_dialer.subprotocols)
            enable
          ≡ c.enable_mux)
unfolding build_client build_server asked new_mux
uses_mux-negotiate negotiate law is_ip c cl hc certs sc srv hs enable timeout =
    let (name, v, e) = new_client_only_accepts is_ip c cl hc in
    let (b, d, t, (tls, src, f)) = new_server_only_accepts certs sc srv hs in
    rw (e, f, law supported_subprotocols (asked c.enable_mux) (has-asked c.enable_mux))
      (uses_mux-asked c.enable_mux sc.enable_mux, uses_mux-asked c.enable_mux enable)
