-- ===== src/Streams/Shared/Race.antt =====
-- A call of `getMuxStream` may lose the session that it has just dialled to another call.
use mos_tls_tunnel.Prelude.{ℕ, ◌≡◌, refl, false, Option, none, some, List, [], ◌∷◌, arith, pos, ok}
use mos_tls_tunnel.Streams.Smux.{Smux, IsSmux}
use mos_tls_tunnel.Streams.Session.{too_many_streams, mux_open_stream}
use mos_tls_tunnel.Streams.Shared.{
  open_error, System, ranging, failed, Choice, Event, turn, call_step, shared_step, run_shared,
}

module _ (S : Smux) where
  open S use {Session, Stream, Error, is_closed, num_streams, open_stream}

  abbrev pub offers : Option ℕ → Session → Choice S
  offers v x = record { visits = v; dialled = ok x }

  -- The first call dials and stores its session; the second one finds it and opens a stream; then
  -- the first one opens its own.
  abbrev pub race : Session → List (Event S)
  race x =
      turn 0 (offers none x)
      ∷ turn 0 (offers none x)
      ∷ turn 0 (offers none x)
      ∷ turn 1 (offers (some 0) x)
      ∷ turn 1 (offers (some 0) x)
      ∷ turn 1 (offers (some 0) x)
      ∷ turn 0 (offers none x)
      ∷ []

  abbrev pub before_race : Session → System S
  before_race x = record { sessions = λ id. x; made = 0; pool = []; calls = λ g. ranging }

  -- With a limit of one stream, a call that has dialled a session can fail with
  -- `ErrTooManyStreams`: the session is in the pool before the call opens its stream.
  pub fresh_session_lost :
      (laws : IsSmux S) (x : Session) (t : Stream)
      → is_closed x ≡ false
      → num_streams x ≡ 0
      → (open_stream x).1 ≡ ok t
      → (run_shared S (pos 1) (race x) (before_race x)).calls 0
        ≡ failed (open_error too_many_streams)
  unfolding run_shared shared_step call_step mux_open_stream
  fresh_session_lost laws x t o n h =
      let one : num_streams (open_stream x).0 ≡ 1 = omega (arith, laws.open_counts x t h, n) in
      rw (o, n, one) refl
