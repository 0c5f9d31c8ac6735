-- ===== src/Tests/Delivered.antt =====
-- All that the local client sends comes to the destination over a WebSocket connection.
use mos_tls_tunnel.Prelude.{
  ℕ, ◌≤◌, ◌≡◌, refl, none, some, List, [], ◌∷◌, ◌++◌, arith, pos, Bytes, Result, ok, err,
}
use mos_tls_tunnel.Tunnel.FirstErr.{eof, other}
use mos_tls_tunnel.Tunnel.Worker.{
  a_end, Answer, step, step_pc, after_nr, after_read, after_write, reporting, cleanup,
}
use mos_tls_tunnel.Tunnel.System.{System, open_tunnel, worker, sys_step}
use mos_tls_tunnel.Websocket.{Ws, ReadError, failed, Wrapper, done, read, write}
use mos_tls_tunnel.Websocket.Reading.{
  IsWs, NextReads, next_message, no_message, MessageReads, some_bytes, at_end, stream, concat,
}
use mos_tls_tunnel.Websocket.Route.{
  Network, read_link, arrived, delivered, Route, RouteReach, opened, near_moves, near_writes,
  far_moves, far_reads,
}
use mos_tls_tunnel.Websocket.EndToEnd.{reports, destination_all}
use mos_tls_tunnel.Tests.Handshakes.{take_byte}

-- A connection that keeps its messages, and has been closed behind them with the code 1000.
abbrev next_or_closed : List Bytes → List Bytes × Result ReadError Bytes
next_or_closed [] = ([], err (failed 1000))
next_or_closed (m ∷ ms) = (ms, ok m)

abbrev closing : Ws
closing = record {
  Conn = List Bytes;
  Reader = Bytes;
  next_reader = next_or_closed;
  read_message = take_byte;
  write_message = λ c b. (c ++ (b ∷ []), none);
}

closing-NextReads : (c : List Bytes) → NextReads closing c (λ ms. ms) (λ m. m) (next_or_closed c)
closing-NextReads [] = no_message [] (failed 1000) refl refl
closing-NextReads (m ∷ ms) = next_message ms m refl

closing-MessageReads :
    (r : Bytes) (size : ℕ) → 1 ≤ size → MessageReads closing r (λ m. m) (take_byte r size)
closing-MessageReads [] size h = at_end [] refl
closing-MessageReads (b ∷ bs) size h = some_bytes bs b [] refl

abbrev closing-IsWs : IsWs closing
closing-IsWs = record {
  messages = λ ms. ms;
  content = λ m. m;
  next = closing-NextReads;
  reads = closing-MessageReads;
}

abbrev wire : Network closing closing-IsWs
wire = record { arrive = λ b c. c ++ (b ∷ []); messages-arrive = λ b c. refl }

abbrev sender : Wrapper closing
sender = record { ws = []; reader = none }

abbrev moves : Answer
moves = record { now = 7; read = 1 ∷ []; er = some eof; nw = 1; ew = none }

abbrev takes : Answer
takes = record { now = 8; read = 1 ∷ []; er = none; nw = 1; ew = none }

abbrev ends : Answer
ends = record { now = 9; read = []; er = some (other 1000); nw = 0; ew = none }

abbrev near_end : System
unfolding sys_step step step_pc after_nr after_write after_read open_tunnel
near_end = sys_step a_end moves (
    sys_step a_end moves (
      sys_step a_end moves (
        sys_step a_end moves (sys_step a_end moves (sys_step a_end moves (open_tunnel (pos 30)))))))

abbrev far_taken : System
unfolding sys_step step step_pc after_nr after_write after_read open_tunnel
far_taken = sys_step a_end takes (
    sys_step a_end takes (
      sys_step a_end takes (
        sys_step a_end takes (sys_step a_end takes (sys_step a_end takes (open_tunnel (pos 40)))))))

abbrev far_reading : System
unfolding far_taken
far_reading = sys_step a_end ends (sys_step a_end ends far_taken)

abbrev taken : Route closing closing-IsWs wire
taken = record {
  near = near_end;
  far = far_taken;
  sender = record { ws = (1 ∷ []) ∷ []; reader = none };
  receiver = record { ws = []; reader = some [] };
}

taken-Reach : RouteReach closing closing-IsWs wire (pos 30) (pos 40) a_end a_end taken
unfolding near_end far_taken sys_step step step_pc after_nr after_write after_read open_tunnel read
    write stream concat
taken-Reach =
    far_moves takes
      (far_moves takes
        (far_moves takes
          (far_reads takes
            (far_moves takes
              (far_moves takes
                (near_writes moves (1 ∷ []) (some eof)
                  (arrived closing closing-IsWs wire (1 ∷ []) sender)
                  (near_moves moves
                    (near_moves moves
                      (near_moves moves
                        (near_moves moves (near_moves moves (opened sender sender refl) tt (λ h. h))
                          tt (λ h. h))
                        (omega arith, λ h. absurd (cc)) (λ h. h))
                      tt (λ h. h))
                    tt (λ h. h))
                  (omega arith, λ h. absurd (cc)) refl (refl, refl) (delivered none))
                tt (λ h. h))
              tt (λ h. h))
            (omega arith, λ h. absurd (cc)) tt (refl, refl))
          tt (λ h. h))
        tt (λ h. h))
      (omega arith, λ h. absurd (cc)) (λ h. h)

abbrev drained : Route closing closing-IsWs wire
drained = record taken { far = far_reading }

drained-Reach : RouteReach closing closing-IsWs wire (pos 30) (pos 40) a_end a_end drained
unfolding far_reading sys_step step step_pc after_nr after_read
drained-Reach = far_moves ends (far_moves ends taken-Reach tt (λ h. h)) tt (λ h. h)

destination_all_example :
    (x : ReadError) × ((read_link closing closing-IsWs wire drained.receiver).1 ≡ done [] (some x))
    × ((worker a_end (sys_step a_end ends far_reading)).pc ≡ cleanup reporting (reports x))
    × ((worker a_end near_end).received ≡ (worker a_end (sys_step a_end ends far_reading)).sent)
unfolding near_end far_reading stream concat read
destination_all_example =
    destination_all closing closing-IsWs wire reporting ends drained-Reach refl refl refl
      (refl, refl)
