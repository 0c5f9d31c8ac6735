-- ===== src/Streams/Pool.antt =====
-- `smuxSessPool` and `getMuxStream` of internal/core/client.go.
-- A call visits the sessions of the pool one after the other. Other goroutines use them meanwhile,
-- so a visit has the state that `IsClosed` sees and the state that `openStream` finds.
use mos_tls_tunnel.Prelude.{ℕ, Option, none, some, List, [], ◌∷◌, ℤ, if◌then◌else◌, Result, ok, err}
use mos_tls_tunnel.Streams.Smux.{Smux}
use mos_tls_tunnel.Streams.Session.{OpenError, too_many_streams, smux_error, mux_open_stream}

module _ (S : Smux) where
  open S use {Session, Stream, Error, is_closed, num_streams, open_stream}

  pub record Visit : Type 0 where
    pub id : ℕ
    pub checked : Session
    pub session : Session

  pub record Entry : Type 0 where
    pub id : ℕ
    pub session : Session

  -- A stream of the session with this number.
  pub record MuxStream : Type 0 where
    pub id : ℕ
    pub stream : Stream

  pub data StreamError : Type 0 where
    dial_error : Error → StreamError
    open_error : OpenError Error → StreamError

  -- What `try` does with a session: it deletes it, leaves it to the next, or takes a stream.
  pub data Act : Type 0 where
    deleted : Act
    full : Session → Act
    taken : Session → Stream → Act

  abbrev pub act_on : Session × Result (OpenError Error) Stream → Act
  act_on (s, ok t) = taken s t
  act_on (s, err too_many_streams) = full s
  act_on (s, err (smux_error e)) = deleted

  unfoldable pub try_session : ℤ → Visit → Act
  try_session limit v =
      if is_closed v.checked then deleted else act_on (mux_open_stream S limit v.session)

  abbrev pub entries : List Visit → List Entry
  entries [] = []
  entries (v ∷ vs) = record { id = v.id; session = v.session } ∷ entries vs

  abbrev pub keep : ℕ → Session → List Entry × Option MuxStream → List Entry × Option MuxStream
  keep id s (pool, got) = (record { id = id; session = s } ∷ pool, got)

  -- `Range` goes on while `try` returns true.
  abbrev pub range_step :
      Visit → List Visit → Act → List Entry × Option MuxStream → List Entry × Option MuxStream
  range_step v vs deleted rest = rest
  range_step v vs (full s) rest = keep v.id s rest
  range_step v vs (taken s t) rest =
      (record { id = v.id; session = s } ∷ entries vs, some (record { id = v.id; stream = t }))

  -- `client.smuxSessPool.Range(try)`
  unfoldable pub range_pool : ℤ → List Visit → List Entry × Option MuxStream
  range_pool limit [] = ([], none)
  range_pool limit (v ∷ vs) =
      let rest = range_pool limit vs in range_step v vs (try_session limit v) rest

  abbrev pub on_fresh :
      ℕ
      → List Entry
      → Session × Result (OpenError Error) Stream
      → List Entry × Result StreamError MuxStream
  on_fresh id pool (s, ok t) =
      (record { id = id; session = s } ∷ pool, ok (record { id = id; stream = t }))
  on_fresh id pool (s, err e) = (record { id = id; session = s } ∷ pool, err (open_error e))

  abbrev pub or_dial :
      ℤ
      → ℕ
      → Result Error Session
      → List Entry × Option MuxStream
      → List Entry × Result StreamError MuxStream
  or_dial limit id dialed (pool, some t) = (pool, ok t)
  or_dial limit id (err e) (pool, none) = (pool, err (dial_error e))
  or_dial limit id (ok s) (pool, none) = on_fresh id pool (mux_open_stream S limit s)

  -- `dialed` is the result of `dialNewSmuxSess`, which is called only where it is read; the new
  -- session goes into the pool under a number of its own.
  unfoldable pub get_mux_stream :
      ℤ → List Visit → ℕ → Result Error Session → List Entry × Result StreamError MuxStream
  get_mux_stream limit pool id dialed = or_dial limit id dialed (range_pool limit pool)
