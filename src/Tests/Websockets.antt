-- ===== src/Tests/Websockets.antt =====
-- The wrapper of internal/core/websocket.go over a connection that holds its messages.
use mos_tls_tunnel.Prelude.{
  ℕ, ◌≤◌, ◌≡◌, refl, Option, none, some, List, [], ◌∷◌, arith, Bytes, Result, ok, err,
}
use mos_tls_tunnel.Websocket.{Ws, ReadError, end_of_file, Wrapper, done, read}
use mos_tls_tunnel.Websocket.Reading.{
  IsWs, NextReads, next_message, no_message, MessageReads, some_bytes, at_end, stream, Reads,
  read-Reads,
}
use mos_tls_tunnel.Websocket.Closing.{
  set_write_deadline, write_close_message, closes_below, close_times, wrap, close_times_once,
}

abbrev held_next : List Bytes → List Bytes × Result ReadError Bytes
held_next [] = ([], err end_of_file)
held_next (m ∷ ms) = (ms, ok m)

-- One byte at a time.
abbrev held_read : Bytes → ℕ → Bytes × (Bytes × Option ReadError)
held_read [] size = ([], ([], some end_of_file))
held_read (b ∷ bs) size = (bs, (b ∷ [], none))

abbrev held : Ws
held = record {
  Conn = List Bytes;
  Reader = Bytes;
  next_reader = held_next;
  read_message = held_read;
  write_message = λ c b. (c, none);
}

held-NextReads : (c : List Bytes) → NextReads held c (λ ms. ms) (λ m. m) (held_next c)
held-NextReads [] = no_message [] end_of_file refl refl
held-NextReads (m ∷ ms) = next_message ms m refl

held-MessageReads :
    (r : Bytes) (size : ℕ) → 1 ≤ size → MessageReads held r (λ m. m) (held_read r size)
held-MessageReads [] size h = at_end [] refl
held-MessageReads (b ∷ bs) size h = some_bytes bs b [] refl

held-IsWs : IsWs held
held-IsWs = record {
  messages = λ ms. ms;
  content = λ m. m;
  next = held-NextReads;
  reads = held-MessageReads;
}

-- An empty message, and one of two bytes.
abbrev two_messages : Wrapper held
two_messages = record { ws = [] ∷ (1 ∷ 2 ∷ []) ∷ []; reader = none }

read-Reads_example :
    Reads held held-IsWs (stream held held-IsWs two_messages) (read held 4 16 two_messages)
unfolding held-IsWs
read-Reads_example = read-Reads held held-IsWs 4 16 two_messages (omega arith) (omega arith)

test_read : (read held 4 16 two_messages).1 ≡ done (1 ∷ []) none
unfolding read
test_read = refl

test_close_times_once :
    close_times 3 wrap ≡ set_write_deadline 100 ∷ write_close_message ∷ closes_below 3
test_close_times_once = close_times_once 2
