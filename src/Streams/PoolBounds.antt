-- ===== src/Streams/PoolBounds.antt =====
-- The limit on streams, and the sessions that a call of `getMuxStream` leaves in the pool.
use mathlib.Core.List.{Mem, mem-cons_self, mem-cons_of_mem}
use mos_tls_tunnel.Prelude.{
  ℕ, ◌≤◌, inl, inr, Option, none, some, List, [], ◌∷◌, ◌++◌, ℤ, pos, Result, ok, err, All,
  Bool-cases,
}
use mos_tls_tunnel.Streams.Smux.{Smux, IsSmux}
use mos_tls_tunnel.Streams.Session.{
  OpenError, too_many_streams, smux_error, mux_open_stream, mux_open_stream-le,
}
use mos_tls_tunnel.Streams.Pool.{
  Visit, Entry, MuxStream, Act, deleted, full, taken, act_on, try_session, entries, range_pool,
  get_mux_stream, or_dial, on_fresh, range_step,
}
use mos_tls_tunnel.Streams.PoolLaws.{AreWithin, IsFull, try_session_full}

module _ (S : Smux) (laws : IsSmux S) (limit : ℕ) where
  open S use {Session, Stream, Error, num_streams}

  abbrev VisitsWithin : List (Visit S) → Type 0
  VisitsWithin = All (λ (v : Visit S). num_streams v.session ≤ limit)

  entries-AreWithin : (vs : List (Visit S)) → VisitsWithin vs → AreWithin S limit (entries S vs)
  entries-AreWithin [] h = tt
  entries-AreWithin (v ∷ vs) (h, hs) = (h, entries-AreWithin vs hs)

  -- The session that an act leaves.
  abbrev ActWithin : Act S → Type 0
  ActWithin deleted = Unit {0}
  ActWithin (full s) = num_streams s ≤ limit
  ActWithin (taken s t) = num_streams s ≤ limit

  act_on-ActWithin :
      (r : Session × Result (OpenError Error) Stream)
      → num_streams r.0 ≤ limit
      → ActWithin (act_on S r)
  act_on-ActWithin (s, ok t) h = h
  act_on-ActWithin (s, err too_many_streams) h = h
  act_on-ActWithin (s, err (smux_error e)) h = tt

  try_session-ActWithin :
      (v : Visit S) → num_streams v.session ≤ limit → ActWithin (try_session S (pos limit) v)
  unfolding try_session
  try_session-ActWithin v h = elim (Bool-cases (S.is_closed v.checked)) [
    | inl c ↦ rw c tt
    | inr o ↦ rw o (act_on-ActWithin _ (mux_open_stream-le S laws limit v.session h))
  ]

  range_step-AreWithin :
      (v : Visit S) (vs : List (Visit S)) (a : Act S) (rest : List (Entry S) × Option (MuxStream S))
      → ActWithin a
      → VisitsWithin vs
      → AreWithin S limit rest.0
      → AreWithin S limit (range_step S v vs a rest).0
  range_step-AreWithin v vs deleted rest a h r = r
  range_step-AreWithin v vs (full s) (p, got) a h r = (a, r)
  range_step-AreWithin v vs (taken s t) rest a h r = (a, entries-AreWithin vs h)

  range_pool-AreWithin :
      (vs : List (Visit S)) → VisitsWithin vs → AreWithin S limit (range_pool S (pos limit) vs).0
  unfolding range_pool
  range_pool-AreWithin [] h = tt
  range_pool-AreWithin (v ∷ vs) (h, hs) =
      range_step-AreWithin v vs (try_session S (pos limit) v) _ (try_session-ActWithin v h) hs
        (range_pool-AreWithin vs hs)

  abbrev DialedWithin : Result Error Session → Type 0
  DialedWithin (ok s) = num_streams s ≤ limit
  DialedWithin (err e) = Unit {0}

  on_fresh-AreWithin :
      (id : ℕ) (pool : List (Entry S)) (r : Session × Result (OpenError Error) Stream)
      → num_streams r.0 ≤ limit
      → AreWithin S limit pool
      → AreWithin S limit (on_fresh S id pool r).0
  on_fresh-AreWithin id pool (s, ok t) h p = (h, p)
  on_fresh-AreWithin id pool (s, err e) h p = (h, p)

  or_dial-AreWithin :
      (id : ℕ) (dialed : Result Error Session) (r : List (Entry S) × Option (MuxStream S))
      → DialedWithin dialed
      → AreWithin S limit r.0
      → AreWithin S limit (or_dial S (pos limit) id dialed r).0
  or_dial-AreWithin id dialed (p, some t) d h = h
  or_dial-AreWithin id (err e) (p, none) d h = h
  or_dial-AreWithin id (ok s) (p, none) d h =
      on_fresh-AreWithin id p _ (mux_open_stream-le S laws limit s d) h

  -- If every session that a call of `getMuxStream` finds, and the one that a dial gives, has at
  -- most `MuxMaxStream` streams, so has every session of the pool that the call leaves.
  pub get_mux_stream-AreWithin :
      (vs : List (Visit S)) (id : ℕ) (dialed : Result Error Session)
      → VisitsWithin vs
      → DialedWithin dialed
      → AreWithin S limit (get_mux_stream S (pos limit) vs id dialed).0
  unfolding get_mux_stream
  get_mux_stream-AreWithin vs id dialed h d =
      or_dial-AreWithin id dialed _ d (range_pool-AreWithin vs h)

module _ (S : Smux) where
  open S use {Session, Stream, Error, num_streams}

  abbrev pub entry : Visit S → Entry S
  entry v = record { id = v.id; session = v.session }

  mem-entries :
      (before : List (Visit S)) (v : Visit S) (after : List (Visit S))
      → Mem (entry v) (entries S (before ++ (v ∷ after)))
  mem-entries [] v after = mem-cons_self
  mem-entries (u ∷ before) v after = mem-cons_of_mem (entry u) (mem-entries before v after)

  mem-range_step :
      (x : Entry S) (u : Visit S) (vs : List (Visit S)) (a : Act S)
      (rest : List (Entry S) × Option (MuxStream S))
      → Mem x (entries S vs)
      → Mem x rest.0
      → Mem x (range_step S u vs a rest).0
  mem-range_step x u vs deleted rest h r = r
  mem-range_step x u vs (full s) (p, got) h r = mem-cons_of_mem _ r
  mem-range_step x u vs (taken s t) rest h r = mem-cons_of_mem _ h

  mem-or_dial :
      (x : Entry S) (limit : ℤ) (id : ℕ) (dialed : Result Error Session)
      (r : List (Entry S) × Option (MuxStream S))
      → Mem x r.0
      → Mem x (or_dial S limit id dialed r).0
  mem-or_dial x limit id dialed (p, some t) h = h
  mem-or_dial x limit id (err e) (p, none) h = h
  mem-or_dial x limit id (ok s) (p, none) h = mem-on_fresh (mux_open_stream S limit s)
    where
      mem-on_fresh : (q : Session × Result (OpenError Error) Stream) → Mem x (on_fresh S id p q).0
      mem-on_fresh (s', ok t) = mem-cons_of_mem _ h
      mem-on_fresh (s', err e) = mem-cons_of_mem _ h

  module _ (limit : ℕ) where
    mem-range_pool :
        (before : List (Visit S)) (v : Visit S) (after : List (Visit S))
        → IsFull S limit v
        → Mem (entry v) (range_pool S (pos limit) (before ++ (v ∷ after))).0
    unfolding range_pool
    mem-range_pool [] v after f = rw (range_pool, try_session_full S limit v f) mem-cons_self
    mem-range_pool (u ∷ before) v after f =
        mem-range_step (entry v) u _ (try_session S (pos limit) u) _ (mem-entries before v after)
          (mem-range_pool before v after f)

    -- A session that is open but full stays in the pool, as it was, whatever the call does.
    pub get_mux_stream_keeps :
        (before : List (Visit S)) (v : Visit S) (after : List (Visit S)) (id : ℕ)
        (dialed : Result Error Session)
        → IsFull S limit v
        → Mem (entry v) (get_mux_stream S (pos limit) (before ++ (v ∷ after)) id dialed).0
    unfolding get_mux_stream
    get_mux_stream_keeps before v after id dialed f =
        mem-or_dial (entry v) (pos limit) id dialed _ (mem-range_pool before v after f)
