-- ===== src/Tunnel/EndToEnd.antt =====
-- Two tunnels in a row: that of the client, whose second connection is the link to the server, and
-- that of the server, whose first connection is the destination and whose second one is the link.
use mos_tls_tunnel.Prelude.{◌≡◌, ap, ◌∙◌, none, ◌++◌, append_assoc, Bytes, ℤ}
use mos_tls_tunnel.Tunnel.Worker.{End, Stage, cleanup}
use mos_tls_tunnel.Tunnel.System.{System, worker, Reach}
use mos_tls_tunnel.Tunnel.Safety.{delivered_prefix, delivered_all}

prefix_chain :
    (read sent read' sent' x in_flight y : Bytes)
    → read ≡ sent ++ x
    → sent ≡ read' ++ in_flight
    → read' ≡ sent' ++ y
    → read ≡ sent' ++ (y ++ (in_flight ++ x))
prefix_chain read sent read' sent' x in_flight y f link g =
    f ∙ ap (λ (z : Bytes). z ++ x) (link ∙ ap (λ (z : Bytes). z ++ in_flight) g) ∙ regroup
  where
    regroup : ((sent' ++ y) ++ in_flight) ++ x ≡ sent' ++ (y ++ (in_flight ++ x))
    regroup = append_assoc (sent' ++ y) in_flight x ∙ append_assoc sent' y (in_flight ++ x)

-- If the link has given the second tunnel a prefix of what the first one has sent, then what the
-- second tunnel has sent is a prefix of what the first one has received, in every state of the two
-- tunnels and in either direction.
pub end_to_end_prefix :
    {timeout timeout' : ℤ} {near far : System} (e e' : End) (in_flight : Bytes)
    → Reach timeout near
    → Reach timeout' far
    → (worker e near).sent ≡ (worker e' far).received ++ in_flight
    → (rest : Bytes) × ((worker e near).received ≡ (worker e' far).sent ++ rest)
end_to_end_prefix {near} {far} e e' in_flight r q link =
    let (n, (x, f)) = delivered_prefix e r in
    let (m, (y, g)) = delivered_prefix e' q in
    (y ++ (in_flight ++ x), prefix_chain _ _ _ _ x in_flight y f link g)

-- If moreover both goroutines of a direction have ended with no error, and the link has given the
-- second tunnel all that the first one sent, all that the first tunnel received has been sent on.
pub end_to_end_all :
    {timeout timeout' : ℤ} {near far : System} (e e' : End) (stage stage' : Stage)
    → Reach timeout near
    → Reach timeout' far
    → (worker e near).pc ≡ cleanup stage none
    → (worker e' far).pc ≡ cleanup stage' none
    → (worker e near).sent ≡ (worker e' far).received
    → (worker e near).received ≡ (worker e' far).sent
end_to_end_all e e' stage stage' r q c d link =
    delivered_all e stage r c ∙ link ∙ delivered_all e' stage' q d
