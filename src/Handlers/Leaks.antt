-- ===== src/Handlers/Leaks.antt =====
-- What becomes of the streams that `handleClientMuxConn` hands to `handleClientConn`.
use mos_tls_tunnel.Prelude.{ℕ, ◌≡◌, arith, Bytes, ℤ, ==_refl}
use mos_tls_tunnel.Handlers.{stream, closes}
use mos_tls_tunnel.Handlers.Tunnelled.{Network, server_handler, mux_handler, of_accept}
use mos_tls_tunnel.Streams.Accept.{handle}

-- A stream that was accepted is closed exactly if its destination can be dialled, on both servers:
-- where it cannot, the stream stays open in its session.
pub handled_stream_closes :
    (net : Network) (dst : Bytes) (timeout : ℤ) (t : ℕ)
    → (closes (stream t) (of_accept (server_handler net dst timeout) (handle t))
        ≡ net.dials (stream t))
      × (closes (stream t) (of_accept (mux_handler net dst timeout) (handle t))
          ≡ net.dials (stream t))
unfolding closes server_handler mux_handler
handled_stream_closes net dst timeout t = (ground (arith, ==_refl t), ground (arith, ==_refl t))
