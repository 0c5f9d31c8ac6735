-- ===== src/Websocket.antt =====
-- `webSocketConnWrapper` of internal/core/websocket.go: a stream of bytes over messages. The
-- connection of gorilla/websocket is a parameter.
pub mod Reading
pub mod Closing
pub mod Methods
pub mod Tunnelled
pub mod Handshake
pub mod Messages
pub mod Overlap
pub mod Route
pub mod Moves
pub mod Flows
pub mod EndToEnd
use mos_tls_tunnel.Prelude.{
  ℕ, zero, suc, ◌≤◌, ◌≡◌, ◌≢◌, Bool, true, false, Option, none, some, List, [], ◌∷◌, ◌++◌, Bytes,
  Result, ok, err, length,
}

pub data ReadError : Type 0 where
  end_of_file : ReadError
  failed : ℕ → ReadError

-- What `Read` returns; `out_of_fuel` is no result of the code.
pub data Read : Type 0 where
  done : Bytes → Option ReadError → Read
  out_of_fuel : Read

-- `NextReader`, the `Read` of its reader, and `WriteMessage` with a binary message.
pub record Ws : Type 1 where
  pub Conn : Type 0
  pub Reader : Type 0
  pub next_reader : Conn → Conn × Result ReadError Reader
  pub read_message : Reader → ℕ → Reader × (Bytes × Option ReadError)
  pub write_message : Conn → Bytes → Conn × Option ℕ

module _ (W : Ws) where
  open W use {Conn, Reader, next_reader, read_message, write_message}

  pub record Wrapper : Type 0 where
    pub ws : Conn
    pub reader : Option Reader

  -- `if n == 0 && err == io.EOF`
  abbrev pub is_at_end : Bytes × Option ReadError → Bool
  is_at_end ([], some end_of_file) = true
  is_at_end ([], some (failed n)) = false
  is_at_end ([], none) = false
  is_at_end (b ∷ bs, e) = false

  -- The rest of a turn of the loop, from the read on; `again` is the next turn.
  abbrev pub after_message :
      Conn → (Wrapper → Wrapper × Read) → Reader × (Bytes × Option ReadError) → Wrapper × Read
  after_message c again (r, ([], some end_of_file)) = again (record { ws = c; reader = none })
  after_message c again (r, ([], some (failed n))) =
      (record { ws = c; reader = some r }, done [] (some (failed n)))
  after_message c again (r, ([], none)) = (record { ws = c; reader = some r }, done [] none)
  after_message c again (r, (b ∷ bs, e)) = (record { ws = c; reader = some r }, done (b ∷ bs) e)

  abbrev pub after_next :
      ℕ → (Wrapper → Wrapper × Read) → Conn × Result ReadError Reader → Wrapper × Read
  after_next size again (c, err e) = (record { ws = c; reader = none }, done [] (some e))
  after_next size again (c, ok r) = after_message c again (read_message r size)

  abbrev pub turn : ℕ → (Wrapper → Wrapper × Read) → Conn → Option Reader → Wrapper × Read
  turn size again c none = after_next size again (next_reader c)
  turn size again c (some r) = after_message c again (read_message r size)

  -- `Read` into a buffer of this size.
  unfoldable pub read : ℕ → ℕ → Wrapper → Wrapper × Read
  read zero size w = (w, out_of_fuel)
  read (suc fuel) size w = turn size (read fuel size) w.ws w.reader

  abbrev pub written : ℕ → Option ℕ → ℕ × Option ℕ
  written n none = (n, none)
  written n (some e) = (0, some e)

  unfoldable pub write : Bytes → Wrapper → Wrapper × (ℕ × Option ℕ)
  write b w = let r = write_message w.ws b in (record w { ws = r.0 }, written (length b) r.1)
