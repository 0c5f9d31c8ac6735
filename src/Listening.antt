-- ===== src/Listening.antt =====
-- What the program listens on: `Start` of internal/core/client.go and internal/core/server.go,
-- `StartServer` of internal/core/multi_user_server.go, and `listenUnix` of internal/core/common.go.
pub mod Lifecycle
pub mod Sound
pub mod Closing
use mos_tls_tunnel.Prelude.{
  ◌≡◌, ◌⊎◌, refl, Bool, true, false, Bool-cases, inl, inr, List, [], ◌∷◌, Bytes, codes,
  if◌then◌else◌,
}
use mos_tls_tunnel.Config.{ClientConfig, ServerConfig, MuServerConfig}
use mos_tls_tunnel.GoStd.Strings.{has_prefix}
use mos_tls_tunnel.Tcp.{TcpConfig}

-- The calls of os and net, the last one with the options of the socket.
pub data ListenCall : Type 0 where
  remove_all : Bytes → ListenCall
  on_unix : Bytes → ListenCall
  on_tcp : Bytes → TcpConfig → ListenCall

-- A name in the abstract namespace begins with `@` and has no file.
unfoldable pub listen_unix : Bytes → List ListenCall
listen_unix addr =
    if has_prefix addr (codes "@") then on_unix addr ∷ [] else remove_all addr ∷ on_unix addr ∷ []

unfoldable pub client_listening : ClientConfig → List ListenCall
client_listening c = on_tcp c.bind_addr (record { vpn_mode = c.vpn_mode; tfo = c.enable_tfo }) ∷ []

unfoldable pub server_listening : ServerConfig → List ListenCall
unfolding listen_unix
server_listening c =
    if c.bind_unix
    then listen_unix c.bind_addr
    else on_tcp c.bind_addr (record { vpn_mode = false; tfo = c.enable_tfo }) ∷ []

unfoldable pub mu_server_listening : MuServerConfig → List ListenCall
unfolding listen_unix
mu_server_listening c =
    if c.server_bind_unix
    then listen_unix c.server_addr
    else on_tcp c.server_addr (record { vpn_mode = false; tfo = c.enable_tfo }) ∷ []

-- With the same settings, the server and the multi-user server listen by the same calls.
pub server_listening-mu_server_listening :
    (c : ServerConfig) (m : MuServerConfig)
    → c.bind_unix ≡ m.server_bind_unix
    → c.bind_addr ≡ m.server_addr
    → c.enable_tfo ≡ m.enable_tfo
    → server_listening c ≡ mu_server_listening m
unfolding server_listening mu_server_listening
server_listening-mu_server_listening c m u a t = rw (u, a, t) refl

-- The paths that are removed.
abbrev pub removed : List ListenCall → List Bytes
removed [] = []
removed (remove_all p ∷ rest) = p ∷ removed rest
removed (on_unix p ∷ rest) = removed rest
removed (on_tcp p c ∷ rest) = removed rest

-- A server removes nothing but the path that it is to listen on, and only if that is not a name in
-- the abstract namespace and a Unix socket is asked for.
pub server_listening-removed :
    (c : ServerConfig)
    → ((removed (server_listening c) ≡ [])
        × ((c.bind_unix ≡ false) ⊎ (has_prefix c.bind_addr (codes "@") ≡ true)))
      ⊎ ((removed (server_listening c) ≡ c.bind_addr ∷ [])
          × (c.bind_unix ≡ true)
          × (has_prefix c.bind_addr (codes "@") ≡ false))
unfolding server_listening listen_unix
server_listening-removed c = elim (Bool-cases c.bind_unix) [
  | inr tcp ↦ inl (rw tcp refl, inl tcp)
  | inl unix ↦ elim (Bool-cases (has_prefix c.bind_addr (codes "@"))) [
    | inl named ↦ inl (rw (unix, named) refl, inr named)
    | inr path ↦ inr (rw (unix, path) refl, unix, path)
  ]
]
