-- ===== src/Streams/Session.antt =====
-- `muxSession` and `muxStream` of internal/core/cmux.go. Each operation holds the lock of the
-- session.
use mos_tls_tunnel.Prelude.{
  ℕ, ◌≤◌, ◌<◌, ◌≡◌, ◌⊎◌, inl, inr, refl, true, arith, ℤ, pos, int_ltb, ◌==◌, if◌then◌else◌, Result,
  ok, err, dec_lt, lt→ltb, le→ltb, Result-cases, ◌≢◌,
}
use mos_tls_tunnel.Streams.Smux.{Smux, IsSmux}

-- `ErrTooManyStreams` of internal/core/err.go, or an error of smux.
pub data OpenError (E : Type 0) : Type 0 where
  too_many_streams : OpenError E
  smux_error : E → OpenError E

module _ (S : Smux) where
  open S use {Session, Stream, Error, is_closed, num_streams, open_stream, close_stream, close}

  abbrev relabel : Result Error Stream → Result (OpenError Error) Stream
  relabel (ok t) = ok t
  relabel (err e) = err (smux_error e)

  -- `openStream`
  unfoldable pub mux_open_stream : ℤ → Session → Session × Result (OpenError Error) Stream
  mux_open_stream limit s =
      if int_ltb (pos (num_streams s)) limit
      then ((open_stream s).0, relabel (open_stream s).1)
      else (s, err too_many_streams)

  -- `tryCloseOnIdle`
  unfoldable pub try_close_on_idle : Session → Session
  try_close_on_idle s = if num_streams s == 0 then close s else s

  -- `muxStream.Close`
  unfoldable pub mux_stream_close : Stream → Session → Session
  mux_stream_close t s = try_close_on_idle (close_stream t s)

  relabel-ne : (r : Result Error Stream) → relabel r ≢ err too_many_streams
  relabel-ne (ok t) e = cc
  relabel-ne (err x) e = cc

  -- `openStream` refuses with `ErrTooManyStreams` exactly when the limit is reached, and then
  -- leaves the session alone.
  pub mux_open_stream_cases :
      (limit : ℕ) (s : Session)
      → ((limit ≤ num_streams s) × (mux_open_stream (pos limit) s ≡ (s, err too_many_streams)))
        ⊎ ((num_streams s < limit) × ((mux_open_stream (pos limit) s).1 ≢ err too_many_streams))
  unfolding mux_open_stream
  mux_open_stream_cases limit s = elim (dec_lt (num_streams s) limit) [
    | yes below ↦ rw (lt→ltb (num_streams s) limit below) (inr (below, relabel-ne _))
    | no above ↦ rw (le→ltb (num_streams s) limit (omega arith)) (inl (omega arith, refl))
  ]

  module _ (laws : IsSmux S) where
    -- An open, whatever becomes of it, leaves at most as many streams as the limit allows.
    pub mux_open_stream-le :
        (limit : ℕ) (s : Session)
        → num_streams s ≤ limit
        → num_streams (mux_open_stream (pos limit) s).0 ≤ limit
    unfolding mux_open_stream
    mux_open_stream-le limit s h = elim (Result-cases (open_stream s).1) [
      | inl (t, e) ↦ ground (arith, laws.open_counts s t e)
      | inr (x, e) ↦ ground (arith, laws.open_fails s x e)
    ]

    -- If a stream is closed that was the last one of its session, the session is closed;
    -- otherwise it is left as the close of the stream left it.
    pub mux_stream_close_cases :
        (t : Stream) (s : Session)
        → ((num_streams (close_stream t s) ≡ 0) × (is_closed (mux_stream_close t s) ≡ true))
          ⊎ ((num_streams (close_stream t s) ≢ 0) × (mux_stream_close t s ≡ close_stream t s))
    unfolding mux_stream_close try_close_on_idle
    mux_stream_close_cases t s = ground (arith, laws.close_closes (close_stream t s))
