-- ===== src/Handlers/Streamed.antt =====
-- `handleClientConn` of both servers as the goroutine of each stream of a connection.
use mos_tls_tunnel.Prelude.{
  ℕ, ◌≡◌, ◌≢◌, refl, ◌∙◌, false, not, Bool-cases, inl, inr, List, ◌∷◌, ◌++◌, arith, Bytes, ℤ,
  ==_refl, All,
}
use mos_tls_tunnel.Handlers.{ConnId, stream, dialled_for, Action, same_conn}
use mos_tls_tunnel.Handlers.Tunnelled.{Network, Handler, server_handler, mux_handler, of_accept}
use mos_tls_tunnel.Handlers.Interleaved.{
  Interleaves, open_after, goroutines, IsOf, IsApart, open_after-Interleaves,
}
use mos_tls_tunnel.Streams.Accept.{handle}

other_conns :
    (t u : ℕ) (c : ConnId)
    → IsOf t c
    → u ≢ t
    → (same_conn c (stream u) ≡ false) × (same_conn c (dialled_for u) ≡ false)
other_conns t u c (inl e) n = rw e (ground arith, refl)
other_conns t u c (inr e) n = rw e (refl, ground arith)

server_handler-IsApart :
    (net : Network) (dst : Bytes) (timeout : ℤ) → IsApart (server_handler net dst timeout)
unfolding server_handler
server_handler-IsApart net dst timeout t u c own n =
    let (a, b) = other_conns t u c own n in
    elim (Bool-cases (net.dials (stream u))) [
      | inr refused ↦ rw (refused, a) (refl, (refl, tt))
      | inl dialled ↦ elim (Bool-cases (net.fails (stream u))) [
        | inl failed ↦ rw (dialled, failed, a, b) (refl, (refl, (refl, (refl, (refl, tt)))))
        | inr done ↦ rw (dialled, done, a, b) (refl, (refl, (refl, (refl, tt))))
      ]
    ]

mux_handler-IsApart :
    (net : Network) (dst : Bytes) (timeout : ℤ) → IsApart (mux_handler net dst timeout)
unfolding mux_handler
mux_handler-IsApart net dst timeout t u c own n =
    let (a, b) = other_conns t u c own n in
    elim (Bool-cases (net.dials (stream u))) [
      | inr refused ↦ rw (refused, a) (refl, (refl, tt))
      | inl dialled ↦ rw (dialled, a, b) (refl, (refl, (refl, (refl, tt))))
    ]

server_goroutine :
    (net : Network) (dst : Bytes) (timeout : ℤ) (t : ℕ)
    → (open_after (dialled_for t) false (of_accept (server_handler net dst timeout) (handle t))
        ≡ false)
      × (open_after (stream t) false (of_accept (server_handler net dst timeout) (handle t))
          ≡ not (net.dials (stream t)))
unfolding server_handler
server_goroutine net dst timeout t = (ground (arith, ==_refl t), ground (arith, ==_refl t))

mux_goroutine :
    (net : Network) (dst : Bytes) (timeout : ℤ) (t : ℕ)
    → (open_after (dialled_for t) false (of_accept (mux_handler net dst timeout) (handle t))
        ≡ false)
      × (open_after (stream t) false (of_accept (mux_handler net dst timeout) (handle t))
          ≡ not (net.dials (stream t)))
unfolding mux_handler
mux_goroutine net dst timeout t = (ground (arith, ==_refl t), ground (arith, ==_refl t))

-- The handlers of the two servers.
pub data HandlerOf (net : Network) : Handler → Type 0 where
  of_server : (dst : Bytes) (timeout : ℤ) → HandlerOf net (server_handler net dst timeout)
  of_mux : (dst : Bytes) (timeout : ℤ) → HandlerOf net (mux_handler net dst timeout)

-- On both servers, in every interleaving of the goroutines of a connection's streams, of which `t`
-- is one and comes once, the connection that was dialled for `t` does not stay open, and the stream
-- `t` stays open exactly if its destination could not be dialled.
pub streams-open_after :
    (net : Network) (f : Handler) (t : ℕ) (before after : List ℕ) (out : List Action)
    → HandlerOf net f
    → All (λ (u : ℕ). u ≢ t) before
    → All (λ (u : ℕ). u ≢ t) after
    → Interleaves (goroutines f (before ++ (t ∷ after))) out
    → (open_after (dialled_for t) false out ≡ false)
      × (open_after (stream t) false out ≡ not (net.dials (stream t)))
streams-open_after net f t before after out (of_server dst timeout) d e i =
    let apart = server_handler-IsApart net dst timeout in
    let (a, b) = server_goroutine net dst timeout t in
    (
      open_after-Interleaves f apart t (dialled_for t) (inr refl) before after false d e i ∙ a,
      open_after-Interleaves f apart t (stream t) (inl refl) before after false d e i ∙ b,
    )
streams-open_after net f t before after out (of_mux dst timeout) d e i =
    let apart = mux_handler-IsApart net dst timeout in
    let (a, b) = mux_goroutine net dst timeout t in
    (
      open_after-Interleaves f apart t (dialled_for t) (inr refl) before after false d e i ∙ a,
      open_after-Interleaves f apart t (stream t) (inl refl) before after false d e i ∙ b,
    )
