-- ===== src/Streams/Shared.antt =====
-- Calls of `getMuxStream` of internal/core/client.go by many goroutines at once, with the closing of
-- streams in between. Each access to the pool or to a session is one step; an operation of a session
-- holds its lock.
pub mod Within
pub mod Weight
pub mod Ending
pub mod Race
use mos_tls_tunnel.Prelude.{
  ℕ, suc, ◌≡◌, ◌≤◌, Bool, true, false, Option, none, some, List, [], ◌∷◌, ℤ, ◌==◌, if◌then◌else◌,
  Result, ok, err,
}
use mos_tls_tunnel.Streams.Smux.{Smux}
use mos_tls_tunnel.Streams.Session.{
  OpenError, too_many_streams, smux_error, mux_open_stream, try_close_on_idle,
}

-- The function with another value at one number.
abbrev pub at {ℓ} : {A : Type ℓ} → ℕ → A → (ℕ → A) → ℕ → A
at i x f k = if k == i then x else f k

abbrev pub without : ℕ → List ℕ → List ℕ
without i [] = []
without i (j ∷ js) = let rest = without i js in if i == j then rest else j ∷ rest

module _ (S : Smux) where
  open S use {Session, Stream, Error, is_closed, num_streams, close_stream}

  pub data CallError : Type 0 where
    dial_error : Error → CallError
    open_error : OpenError Error → CallError

  -- Where a call stands: in `Range`, in `try` with a session, or with the session that it dials.
  pub data Pc : Type 0 where
    ranging dialling : Pc
    checking opening deleting storing opening_fresh : ℕ → Pc
    got : ℕ → Stream → Pc
    failed : CallError → Pc

  -- The sessions by their numbers, the pool, and the calls by theirs.
  pub record System : Type 0 where
    pub sessions : ℕ → Session
    pub made : ℕ
    pub pool : List ℕ
    pub calls : ℕ → Pc

  -- What `Range` does next, and what a dial gives.
  pub record Choice : Type 0 where
    pub visits : Option ℕ
    pub dialled : Result Error Session

  abbrev pub range_next : Option ℕ → Pc
  range_next none = dialling
  range_next (some id) = checking id

  abbrev pub goes : ℕ → Pc → System → System
  goes g pc s = record s { calls = at g pc s.calls }

  abbrev pub after_open : ℕ → Result (OpenError Error) Stream → Pc
  after_open id (ok t) = got id t
  after_open id (err too_many_streams) = ranging
  after_open id (err (smux_error e)) = deleting id

  abbrev pub after_fresh : ℕ → Result (OpenError Error) Stream → Pc
  after_fresh id (ok t) = got id t
  after_fresh id (err e) = failed (open_error e)

  abbrev pub after_dial : ℕ → Result Error Session → System → System
  after_dial g (err e) s = goes g (failed (dial_error e)) s
  after_dial g (ok fresh) s =
      goes g (storing s.made)
        (record s { sessions = at s.made fresh s.sessions; made = suc s.made })

  -- The session of this number after `openStream`.
  abbrev pub with_session : ℕ → Session → System → System
  with_session id x s = record s { sessions = at id x s.sessions }

  -- A step of the call `g`, by where it stands.
  unfoldable pub call_step : ℤ → ℕ → Choice → Pc → System → System
  call_step limit g c ranging s = goes g (range_next c.visits) s
  call_step limit g c (checking id) s =
      goes g (if is_closed (s.sessions id) then deleting id else opening id) s
  call_step limit g c (opening id) s =
      let (x, r) = mux_open_stream S limit (s.sessions id) in
      goes g (after_open id r) (with_session id x s)
  call_step limit g c (deleting id) s = goes g ranging (record s { pool = without id s.pool })
  call_step limit g c dialling s = after_dial g c.dialled s
  call_step limit g c (storing id) s = goes g (opening_fresh id) (record s { pool = id ∷ s.pool })
  call_step limit g c (opening_fresh id) s =
      let (x, r) = mux_open_stream S limit (s.sessions id) in
      goes g (after_fresh id r) (with_session id x s)
  call_step limit g c (got id t) s = s
  call_step limit g c (failed e) s = s

  -- A call goes on, `muxStream.Close` closes a stream and then looks whether the session is idle, or
  -- the network or smux changes a session.
  pub data Event : Type 0 where
    turn : ℕ → Choice → Event
    stream_closes : ℕ → Stream → Event
    idles : ℕ → Event
    changes : ℕ → Session → Event

  unfoldable pub shared_step : ℤ → Event → System → System
  unfolding call_step
  shared_step limit (turn g c) s = call_step limit g c (s.calls g) s
  shared_step limit (stream_closes id t) s = with_session id (close_stream t (s.sessions id)) s
  shared_step limit (idles id) s = with_session id (try_close_on_idle S (s.sessions id)) s
  shared_step limit (changes id x) s = with_session id x s

  unfoldable pub run_shared : ℤ → List Event → System → System
  run_shared limit [] s = s
  run_shared limit (e ∷ es) s = run_shared limit es (shared_step limit e s)
