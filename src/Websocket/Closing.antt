-- ===== src/Websocket/Closing.antt =====
-- `Close` of internal/core/websocket.go. What it does to the connection below is a list of calls.
use mos_tls_tunnel.Prelude.{
  ℕ, zero, suc, ◌≡◌, refl, Bool, true, false, List, [], ◌∷◌, ◌++◌, if◌then◌else◌, Bytes,
}
use mos_tls_tunnel.Tunnel.Worker.{Deadline}

-- `SetWriteDeadline` with its milliseconds from now, `WriteMessage` with the close message, and
-- `Close`; then the calls of the other methods (`Websocket.Methods`).
pub data WsCall : Type 0 where
  set_write_deadline : ℕ → WsCall
  write_close_message close_below : WsCall
  read_messages : WsCall
  write_binary : Bytes → WsCall
  set_read_deadline_to set_write_deadline_to set_underlying_deadline_to : Deadline → WsCall

-- `closeOnce`
pub record Closer : Type 0 where
  pub close_once_done : Bool

unfoldable pub close_with_dead_line : ℕ → Closer → Closer × List WsCall
close_with_dead_line t c = if c.close_once_done then (c, close_below ∷ []) else (
  record { close_once_done = true },
  set_write_deadline t ∷ write_close_message ∷ close_below ∷ [],
)

unfoldable pub close : Closer → Closer × List WsCall
close c = close_with_dead_line 100 c

-- The calls of so many calls of `Close`.
unfoldable pub close_times : ℕ → Closer → List WsCall
close_times zero c = []
close_times (suc n) c = let r = close c in r.1 ++ close_times n r.0

abbrev pub wrap : Closer
wrap = record { close_once_done = false }

unfoldable pub closes_below : ℕ → List WsCall
closes_below zero = []
closes_below (suc n) = close_below ∷ closes_below n

close_times_done : (n : ℕ) → close_times n (record { close_once_done = true }) ≡ closes_below n
unfolding close_times close close_with_dead_line closes_below
close_times_done zero = refl
close_times_done (suc n) = rw (close_times_done n) refl

-- However often a connection is closed, the close message is written once, before the first close
-- of the connection below and with a deadline of 100 ms, and each call closes that connection.
pub close_times_once :
    (n : ℕ)
    → close_times (suc n) wrap ≡ set_write_deadline 100 ∷ write_close_message ∷ closes_below (suc n)
unfolding close_times close close_with_dead_line closes_below
close_times_once n = rw (close_times_done n) refl
