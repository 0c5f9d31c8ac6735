-- ===== src/Websocket/Reading.antt =====
-- Reading over messages (`Read` of internal/core/websocket.go) is reading one stream of bytes.
use mos_tls_tunnel.Prelude.{
  ℕ, zero, suc, ◌+◌, ◌≤◌, ◌≡◌, refl, Option, none, some, List, [], ◌∷◌, ◌++◌, arith, Bytes, Result,
  ok, err, length, append_assoc,
}
use mos_tls_tunnel.Websocket.{
  Ws, ReadError, end_of_file, failed, Wrapper, Read, done, after_message, after_next, turn, read,
}

unfoldable pub concat : List Bytes → Bytes
concat [] = []
concat (m ∷ ms) = m ++ concat ms

module _ (W : Ws) where
  open W use {Conn, Reader, next_reader, read_message, write_message}

  pub data NextReads (ms : List Bytes) (rest : Conn → List Bytes) (content : Reader → Bytes)
      : Conn × Result ReadError Reader → Type 0 where
    next_message :
        (c : Conn) (r : Reader) → ms ≡ content r ∷ rest c → NextReads ms rest content (c, ok r)
    no_message :
        (c : Conn) (e : ReadError) → ms ≡ [] → rest c ≡ [] → NextReads ms rest content (c, err e)

  -- A read of a message that has bytes left gives some of them; one of a message that has none left
  -- gives the end of file; and the connection can break. Bytes do not come together with an error, as
  -- they do not from the connections of the packages net and crypto/tls below.
  pub data MessageReads (m : Bytes) (content : Reader → Bytes)
      : Reader × (Bytes × Option ReadError) → Type 0 where
    some_bytes :
        (r : Reader) (b : ℕ) (bs : Bytes)
        → m ≡ b ∷ (bs ++ content r)
        → MessageReads m content (r, (b ∷ bs, none))
    at_end : (r : Reader) → m ≡ [] → MessageReads m content (r, ([], some end_of_file))
    broken : (r : Reader) (n : ℕ) → MessageReads m content (r, ([], some (failed n)))

  -- What the wrapper relies on: the messages that will come, and what is left of a message.
  pub record IsWs : Type 0 where
    pub messages : Conn → List Bytes
    pub content : Reader → Bytes
    pub next : (c : Conn) → NextReads (messages c) messages content (next_reader c)
    pub reads :
        (r : Reader) (size : ℕ) → 1 ≤ size → MessageReads (content r) content (read_message r size)

  module _ (I : IsWs) where
    open I use {messages, content, next, reads}

    abbrev pub left_over : Option Reader → Bytes
    left_over none = []
    left_over (some r) = content r

    -- The bytes that are still to be read.
    unfoldable pub stream : Wrapper W → Bytes
    stream w = left_over w.reader ++ concat (messages w.ws)

    -- What a read gives: a part of the stream that is not empty, an error at the end of the stream,
    -- or the error of a connection that broke.
    pub data Reads (before : Bytes) : Wrapper W × Read → Type 0 where
      gives :
          (w : Wrapper W) (b : ℕ) (bs : Bytes)
          → before ≡ b ∷ (bs ++ stream w)
          → Reads before (w, done (b ∷ bs) none)
      ends :
          (w : Wrapper W) (e : ReadError)
          → before ≡ []
          → stream w ≡ []
          → Reads before (w, done [] (some e))
      breaks : (w : Wrapper W) (n : ℕ) → Reads before (w, done [] (some (failed n)))

    reads_message :
        (c : Conn) (again : Wrapper W → Wrapper W × Read) (m : Bytes)
        (r : Reader × (Bytes × Option ReadError))
        → MessageReads m content r
        → Reads (concat (messages c)) (again (record { ws = c; reader = none }))
        → Reads (m ++ concat (messages c)) (after_message W c again r)
    unfolding stream
    reads_message c again m _ (some_bytes r b bs e) k =
        gives (record { ws = c; reader = some r }) b bs
          (ground (arith, e, append_assoc bs (content r) (concat (messages c))))
    reads_message c again m _ (at_end r e) k = rw e k
    reads_message c again m _ (broken r n) k = breaks (record { ws = c; reader = some r }) n

    -- `again` is the next turn on the connection after it.
    reads_next :
        (size : ℕ) (again : Wrapper W → Wrapper W × Read) (ms : List Bytes)
        (r : Conn × Result ReadError Reader)
        → 1 ≤ size
        → NextReads ms messages content r
        → ((c : Conn)
            → suc (length (messages c)) ≡ length ms
            → Reads (concat (messages c)) (again (record { ws = c; reader = none })))
        → Reads (concat ms) (after_next W size again r)
    unfolding concat stream
    reads_next size again ms _ h (no_message c e m m') k =
        ends (record { ws = c; reader = none }) e (rw m refl) (rw m' refl)
    reads_next size again ms _ h (next_message c r m) k =
        rw m (
          reads_message c again (content r) (read_message r size) (reads r size h)
            (k c (rw m refl)))

    read_without :
        (fuel size : ℕ) (c : Conn)
        → 1 ≤ size
        → length (messages c) + 1 ≤ fuel
        → Reads (concat (messages c)) (read W fuel size (record { ws = c; reader = none }))
    unfolding read
    read_without zero size c h f = absurd (omega arith)
    read_without (suc fuel) size c h f =
        reads_next size (read W fuel size) (messages c) (next_reader c) h (next c)
          (λ c' e. read_without fuel size c' h (omega (arith, e)))

    -- `Read` with room for a byte returns within two turns more than there are messages to
    -- come. It gives a part of the stream that is not empty, in order, and leaves the rest of
    -- the stream, across messages and empty messages alike; or it gives an error, at the end
    -- of the stream or when the connection breaks.
    pub read-Reads :
        (fuel size : ℕ) (w : Wrapper W)
        → 1 ≤ size
        → length (messages w.ws) + 2 ≤ fuel
        → Reads (stream w) (read W fuel size w)
    unfolding read stream
    read-Reads zero size w h f = absurd (omega arith)
    read-Reads (suc fuel) size w h f = go w.reader
      where
        go :
            (o : Option Reader)
            → Reads (left_over o ++ concat (messages w.ws)) (turn W size (read W fuel size) w.ws o)
        go none =
            reads_next size (read W fuel size) (messages w.ws) (next_reader w.ws) h (next w.ws)
              (λ c' e. read_without fuel size c' h (omega (arith, e)))
        go (some r) =
            reads_message w.ws (read W fuel size) (content r) (read_message r size) (reads r size h)
              (read_without fuel size w.ws h (omega arith))
