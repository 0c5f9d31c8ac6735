-- ===== src/Server/ServeLaws.antt =====
-- What `Server` leaves open.
use mos_tls_tunnel.Prelude.{
  ℕ, List, [], ◌∷◌, ◌++◌, map, Result, ok, err, ◌≡◌, refl, Bool, true, false, not, ◌&&◌, ◌||◌, ◌∙◌,
  ap, arith, Bytes, Option, none, some, Bool-cases, inl, inr, ◌≢◌,
}
use mos_tls_tunnel.Config.{ServerConfig}
use mos_tls_tunnel.Handlers.{
  ConnId, left, right, stream, dialled_for, handshake_failed, closes, opens, Balanced,
  warned-Balanced, deferred-left_open, deferred-Balanced, Balanced-left_open, left_open, same_conn,
  upgrade_failed, opened-Balanced,
}
use mos_tls_tunnel.Handlers.Tunnelled.{
  IsTcp, server_handler, server_handler-IsTidy, handle_mux-Balanced,
}
use mos_tls_tunnel.Handlers.Lasting.{
  goes_on, session_ends-goes_on, server_handler-IsAway, handle_mux-IsAway, not-not,
}
use mos_tls_tunnel.Server.Serve.{
  serving_ends, Peer, handle_conn, serve_accepted, serve_conn, upgraded, uses_mux, serve_http,
  active_and_serve,
}

handle_conn-Balanced :
    (c : ServerConfig) (mux : Bool) (p : Peer) (k : ConnId)
    → IsTcp k
    → Balanced k (handle_conn c mux p)
unfolding handle_conn
handle_conn-Balanced c true p k i =
    handle_mux-Balanced (server_handler p.net c.dst_addr c.timeout) p.session p.rounds k
      (server_handler-IsTidy p.net c.dst_addr c.timeout) i
handle_conn-Balanced c false p k i = server_handler-IsTidy p.net c.dst_addr c.timeout k left right

serve_accepted-Balanced :
    (c : ServerConfig) (p : Peer) (k : ConnId) → IsTcp k → Balanced k (serve_accepted c p)
unfolding serve_accepted
serve_accepted-Balanced c p k i = elim (Bool-cases (not c.disable_tls && not p.handshake)) [
  | inl e ↦ rw e (warned-Balanced k handshake_failed)
  | inr e ↦ rw e (handle_conn-Balanced c c.enable_mux p k i)
]

-- A connection that is still in the loop over the streams of its session.
abbrev pub in_loop : ServerConfig → Peer → Bool
in_loop c p = (c.disable_tls || p.handshake) && (c.enable_mux && goes_on p.session p.rounds)

serving_ends-in_loop : (c : ServerConfig) (p : Peer) → serving_ends c p ≡ not (in_loop c p)
unfolding serving_ends
serving_ends-in_loop c p = ground (arith, session_ends-goes_on p.session p.rounds)

closes_left-serve_accepted :
    (c : ServerConfig) (p : Peer)
    → serving_ends c p ≡ false
    → closes left (serve_accepted c p) ≡ false
unfolding serving_ends serve_accepted handle_conn
closes_left-serve_accepted c p h = ground (
  arith,
  handle_mux-IsAway (server_handler p.net c.dst_addr c.timeout) p.session p.rounds
      (server_handler-IsAway p.net c.dst_addr c.timeout),
)

serve_conn_others :
    (c : ServerConfig) (p : Peer) (k : ConnId)
    → IsTcp k
    → same_conn k left ≡ false
    → left_open k (serve_conn c p) ≡ false
unfolding serve_conn
serve_conn_others c p k i n = Balanced-left_open k (serve_conn c p) (
    deferred-Balanced k left (serving_ends c p) (serve_accepted c p) n
      (serve_accepted-Balanced c p k i))

-- Of the connection that `ActiveAndServe` accepts and of those that are dialled for it or for its
-- streams, the goroutines of the server leave at most the first one open, and exactly as long as
-- its session goes on: it has a session that was made, that is not closed, has given no error of
-- any kind, and has never had more than 16 streams.
pub left_open-serve_conn :
    (c : ServerConfig) (p : Peer) (k : ConnId)
    → IsTcp k
    → left_open k (serve_conn c p) ≡ (same_conn k left && in_loop c p)
unfolding serve_conn
left_open-serve_conn c p left i =
    deferred-left_open left (serving_ends c p) (serve_accepted c p) refl
      (closes_left-serve_accepted c p)
    ∙ ap not (serving_ends-in_loop c p)
    ∙ not-not (in_loop c p)
left_open-serve_conn c p right i = serve_conn_others c p right i refl
left_open-serve_conn c p (dialled_for n) i = serve_conn_others c p (dialled_for n) i refl
left_open-serve_conn c p (stream n) i = absurd i

upgraded-Balanced :
    (c : ServerConfig) (p : Peer) (o : Option Bytes) (k : ConnId)
    → IsTcp k
    → k ≢ left
    → Balanced k (upgraded c p o)
upgraded-Balanced c p none k i n = warned-Balanced k upgrade_failed
upgraded-Balanced c p (some s) k i n =
    opened-Balanced k left _ n (handle_conn-Balanced c (uses_mux s c.enable_mux) p k i)

-- `ServeHTTP` closes every connection that it dials.
pub serve_http-Balanced :
    (c : ServerConfig) (p : Peer) (k : ConnId)
    → IsTcp k
    → k ≢ left
    → opens k (serve_http c p) ≡ true
    → closes k (serve_http c p) ≡ true
unfolding serve_http
serve_http-Balanced c p k i n = upgraded-Balanced c p p.upgrade k i n

-- In `ServeHTTP` of the server, a connection that was upgraded for a client without smux is
-- opened and never closed if the destination cannot be dialled.
pub serve_http_leaks :
    (c : ServerConfig) (p : Peer) (subprotocol : Bytes)
    → p.upgrade ≡ some subprotocol
    → uses_mux subprotocol c.enable_mux ≡ false
    → p.net.dials left ≡ false
    → (opens left (serve_http c p) ≡ true) × (closes left (serve_http c p) ≡ false)
unfolding serve_http handle_conn server_handler opens closes
serve_http_leaks c p s u m d = rw (u, m, d) (refl, refl)

-- Every connection that is accepted before the first error of `Accept` is served, once and in order,
-- and that error is what the loop ends with, whatever would follow.
pub active_and_serve_lem :
    (c : ServerConfig) (ps : List Peer) (e : ℕ) (rest : List (Result ℕ Peer))
    → active_and_serve c (map (λ (p : Peer). ok p) ps ++ (err e ∷ rest))
      ≡ (map (serve_conn c) ps, some e)
unfolding active_and_serve
active_and_serve_lem c [] e rest = refl
active_and_serve_lem c (p ∷ ps) e rest = rw (active_and_serve_lem c ps e rest) refl
