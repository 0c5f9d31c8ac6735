-- ===== src/Tests/Streaming.antt =====
-- Two streams of one connection on the server of internal/core/server.go: the destination of the
-- first can be dialled, and that of the second cannot.
use mos_tls_tunnel.Prelude.{◌≡◌, Bool, false, not, ◌==◌, List, [], ◌∷◌, arith, codes, pos}
use mos_tls_tunnel.Handlers.{
  ConnId, stream, dialled_for, dial_failed, Action, opened, joined, closed, warned,
}
use mos_tls_tunnel.Handlers.Tunnelled.{Network, server_handler}
use mos_tls_tunnel.Handlers.Interleaved.{
  Interleaves, nobody, joins, none, first, second, open_after, goroutines,
}
use mos_tls_tunnel.Handlers.Streamed.{of_server, streams-open_after}

abbrev dials : ConnId → Bool
dials (stream t) = t == 1
dials _ = false

abbrev network : Network
network = record { dials = dials; fails = λ c. false }

abbrev out : List Action
out =
    opened (stream 1) []
    ∷ opened (stream 2) []
    ∷ opened (dialled_for 1) (codes "d")
    ∷ warned dial_failed
    ∷ joined (dialled_for 1) (stream 1) (pos 9)
    ∷ closed (dialled_for 1)
    ∷ []

out-Interleaves :
    Interleaves (goroutines (server_handler network (codes "d") (pos 9)) (1 ∷ 2 ∷ [])) out
unfolding server_handler
out-Interleaves =
    joins (joins nobody (first (first none))) (first (second (first (second (first (first none))))))

streams-open_after_example :
    (open_after (dialled_for 2) false out ≡ false)
    × (open_after (stream 2) false out ≡ not (network.dials (stream 2)))
streams-open_after_example =
    streams-open_after network (server_handler network (codes "d") (pos 9)) 2 (1 ∷ []) [] out
      (of_server (codes "d") (pos 9)) (λ e. omega (arith, e), tt) tt out-Interleaves
