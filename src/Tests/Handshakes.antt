-- ===== src/Tests/Handshakes.antt =====
-- A tunnel over a WebSocket connection, and messages between two wrappers.
use mos_tls_tunnel.Prelude.{
  ℕ, ◌≤◌, ◌≡◌, refl, Option, none, some, List, [], ◌∷◌, ◌++◌, arith, Bytes, Result, ok, err, ℤ, pos,
}
use mos_tls_tunnel.Tunnel.Worker.{a_end, b_end, conn, step, step_pc, after_nr, after_read, Answer}
use mos_tls_tunnel.Tunnel.System.{System, open_tunnel, sys_step, Reach, start, next}
use mos_tls_tunnel.Tunnel.Liveness.{Turn, interleave}
use mos_tls_tunnel.Websocket.{Ws, ReadError, end_of_file, Wrapper}
use mos_tls_tunnel.Websocket.Reading.{
  IsWs, NextReads, next_message, no_message, MessageReads, some_bytes, at_end, concat,
}
use mos_tls_tunnel.Websocket.Closing.{
  set_write_deadline, write_close_message, close_below, write_binary,
}
use mos_tls_tunnel.Websocket.Messages.{
  IsSender, accepted, write_all, read_all, Gathers, written-read,
}
use mos_tls_tunnel.Websocket.Tunnelled.{open_wired, wired_run, close_messages, count_of}
use mos_tls_tunnel.Websocket.Handshake.{closes_once}
use mos_tls_tunnel.Websocket.Overlap.{after_eof, next_calls, close_overlaps_write}

abbrev pub take_next : List Bytes → List Bytes × Result ReadError Bytes
take_next [] = ([], err end_of_file)
take_next (m ∷ ms) = (ms, ok m)

abbrev pub take_byte : Bytes → ℕ → Bytes × (Bytes × Option ReadError)
take_byte [] size = ([], ([], some end_of_file))
take_byte (b ∷ bs) size = (bs, (b ∷ [], none))

-- A connection that keeps its messages, for both ends.
abbrev pub box : Ws
box = record {
  Conn = List Bytes;
  Reader = Bytes;
  next_reader = take_next;
  read_message = take_byte;
  write_message = λ c b. (c ++ (b ∷ []), none);
}

pub box-NextReads : (c : List Bytes) → NextReads box c (λ ms. ms) (λ m. m) (take_next c)
box-NextReads [] = no_message [] end_of_file refl refl
box-NextReads (m ∷ ms) = next_message ms m refl

pub box-MessageReads :
    (r : Bytes) (size : ℕ) → 1 ≤ size → MessageReads box r (λ m. m) (take_byte r size)
box-MessageReads [] size h = at_end [] refl
box-MessageReads (b ∷ bs) size h = some_bytes bs b [] refl

abbrev pub box-IsWs : IsWs box
box-IsWs = record {
  messages = λ ms. ms;
  content = λ m. m;
  next = box-NextReads;
  reads = box-MessageReads;
}

abbrev pub box-IsSender : IsSender box
box-IsSender = record { sent = λ ms. ms; sends = λ c b. accepted (c ++ (b ∷ [])) refl }

abbrev pub sender : Wrapper box
sender = record { ws = []; reader = none }

abbrev writes : List Bytes
writes = (1 ∷ 2 ∷ []) ∷ (3 ∷ []) ∷ []

abbrev receiver : Wrapper box
receiver = record { ws = writes; reader = none }

abbrev sizes : List ℕ
sizes = 8 ∷ 8 ∷ 8 ∷ 8 ∷ []

written-read_example : Gathers box box-IsWs (concat writes) (read_all box box-IsWs sizes receiver)
unfolding write_all
written-read_example =
    written-read box box-IsSender box box-IsWs writes sender receiver sizes refl refl refl refl
      (omega arith)

test_read_all : (read_all box box-IsWs sizes receiver).1 ≡ (1 ∷ 2 ∷ 3 ∷ [], some end_of_file)
unfolding read_all
test_read_all = refl

abbrev moves : Answer
moves = record { now = 7; read = 1 ∷ 2 ∷ []; er = none; nw = 2; ew = none }

abbrev timeout : ℤ
timeout = pos 300

-- One goroutine is in its write, the other one in its read.
abbrev busy_turns : List Turn
busy_turns =
    (b_end, moves)
    ∷ (b_end, moves)
    ∷ (b_end, moves)
    ∷ (b_end, moves)
    ∷ (b_end, moves)
    ∷ (a_end, moves)
    ∷ (a_end, moves)
    ∷ []

abbrev busy : System
unfolding interleave sys_step step step_pc after_nr after_read open_tunnel
busy = interleave busy_turns (open_tunnel timeout)

busy-Reach : Reach timeout busy
unfolding busy sys_step step step_pc after_nr
busy-Reach =
    next a_end moves
      (next a_end moves
        (next b_end moves
          (next b_end moves
            (next b_end moves (next b_end moves (next b_end moves start tt) tt)
              (omega arith, λ h. absurd (cc)))
            tt)
          tt)
        tt)
      tt

close_overlaps_write_example :
    Reach timeout (after_eof a_end busy)
    × (next_calls a_end a_end (after_eof a_end busy)
        ≡ set_write_deadline 100 ∷ write_close_message ∷ close_below ∷ [])
    × (next_calls a_end b_end (after_eof a_end busy) ≡ write_binary (1 ∷ 2 ∷ []) ∷ [])
unfolding busy
close_overlaps_write_example = close_overlaps_write a_end busy-Reach refl refl

closes_once_example :
    close_messages (wired_run a_end busy_turns (open_wired timeout)).calls
    ≡ count_of (conn a_end (interleave busy_turns (open_tunnel timeout)).shared).closed
closes_once_example = closes_once a_end busy_turns timeout
