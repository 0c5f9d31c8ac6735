-- ===== src/Tests/Routes.antt =====
-- A byte of the local client comes to the destination over a WebSocket connection.
use mos_tls_tunnel.Prelude.{◌≡◌, refl, none, some, [], ◌∷◌, ◌++◌, arith, Bytes, pos}
use mos_tls_tunnel.Tunnel.Worker.{a_end, Answer, step, step_pc, after_nr, after_read, after_write}
use mos_tls_tunnel.Tunnel.System.{System, open_tunnel, worker, sys_step}
use mos_tls_tunnel.Websocket.{read, write}
use mos_tls_tunnel.Websocket.Reading.{stream, concat}
use mos_tls_tunnel.Websocket.Route.{
  Network, arrived, delivered, Route, RouteReach, opened, near_moves, near_writes, far_moves,
  far_reads,
}
use mos_tls_tunnel.Websocket.EndToEnd.{destination_prefix}
use mos_tls_tunnel.Tests.Handshakes.{box, box-IsWs, sender}

abbrev pub wire : Network box box-IsWs
wire = record { arrive = λ b c. c ++ (b ∷ []); messages-arrive = λ b c. refl }

abbrev moves : Answer
moves = record { now = 7; read = 1 ∷ 2 ∷ []; er = none; nw = 2; ew = none }

abbrev takes_one : Answer
takes_one = record { now = 8; read = 1 ∷ []; er = none; nw = 1; ew = none }

abbrev near_end : System
unfolding sys_step step step_pc after_nr after_write after_read open_tunnel
near_end = sys_step a_end moves (
    sys_step a_end moves (
      sys_step a_end moves (
        sys_step a_end moves (sys_step a_end moves (sys_step a_end moves (open_tunnel (pos 30)))))))

abbrev far_end : System
unfolding sys_step step step_pc after_nr after_write after_read open_tunnel
far_end = sys_step a_end takes_one (
    sys_step a_end takes_one (
      sys_step a_end takes_one (
        sys_step a_end takes_one
          (sys_step a_end takes_one (sys_step a_end takes_one (open_tunnel (pos 40)))))))

abbrev routed : Route box box-IsWs wire
routed = record {
  near = near_end;
  far = far_end;
  sender = record { ws = (1 ∷ 2 ∷ []) ∷ []; reader = none };
  receiver = record { ws = []; reader = some (2 ∷ []) };
}

routed-Reach : RouteReach box box-IsWs wire (pos 30) (pos 40) a_end a_end routed
unfolding near_end far_end sys_step step step_pc after_nr after_write after_read open_tunnel read
    write stream concat
routed-Reach =
    far_moves takes_one
      (far_moves takes_one
        (far_moves takes_one
          (far_reads takes_one
            (far_moves takes_one
              (far_moves takes_one
                (near_writes moves (1 ∷ 2 ∷ []) none (arrived box box-IsWs wire (1 ∷ 2 ∷ []) sender)
                  (near_moves moves
                    (near_moves moves
                      (near_moves moves
                        (near_moves moves (near_moves moves (opened sender sender refl) tt (λ h. h))
                          tt (λ h. h))
                        (omega arith, λ h. absurd (cc)) (λ h. h))
                      tt (λ h. h))
                    tt (λ h. h))
                  (omega arith, λ h. absurd (cc)) refl (refl, refl) (delivered none))
                tt (λ h. h))
              tt (λ h. h))
            (omega arith, λ h. absurd (cc)) tt (refl, refl))
          tt (λ h. h))
        tt (λ h. h))
      (omega arith, λ h. absurd (cc)) (λ h. h)

test_sent : ((worker a_end near_end).received ≡ 1 ∷ 2 ∷ []) × ((worker a_end far_end).sent ≡ 1 ∷ [])
unfolding near_end far_end
test_sent = (refl, refl)

destination_prefix_example :
    (rest : Bytes) × ((worker a_end near_end).received ≡ (worker a_end far_end).sent ++ rest)
destination_prefix_example = destination_prefix box box-IsWs wire routed-Reach
