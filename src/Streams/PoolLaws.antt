-- ===== src/Streams/PoolLaws.antt =====
-- What `getMuxStream` promises.
use mos_tls_tunnel.Prelude.{
  ℕ, ◌≤◌, ◌<◌, ◌≡◌, ◌⊎◌, inl, inr, refl, ap, true, false, Option, none, some, List, [], ◌∷◌, ◌++◌,
  arith, pos, Result, ok, err, Bool-cases, Result-cases, All, dec_lt,
}
use mos_tls_tunnel.Streams.Smux.{Smux}
use mos_tls_tunnel.Streams.Session.{mux_open_stream}
use mos_tls_tunnel.Streams.Pool.{
  Visit, Entry, MuxStream, dial_error, deleted, full, taken, try_session, range_pool,
  get_mux_stream, or_dial,
}

module _ (S : Smux) where
  open S use {Session, Stream, Error, is_closed, num_streams, open_stream}

  -- Not more streams than the limit on any session.
  abbrev pub AreWithin : ℕ → List (Entry S) → Type 0
  AreWithin limit = All (λ (e : Entry S). num_streams e.session ≤ limit)

  -- What a visit makes of a session, said without the code of `openStream`: it is deleted when it
  -- is closed or fails to open a stream, it is full at the limit, and otherwise it gives a stream.
  abbrev pub IsUsable : ℕ → Visit S → Type 0
  IsUsable limit v =
      (is_closed v.checked ≡ false)
      × (num_streams v.session < limit)
      × ((t : Stream) × ((open_stream v.session).1 ≡ ok t))

  abbrev pub IsFull : ℕ → Visit S → Type 0
  IsFull limit v = (is_closed v.checked ≡ false) × (limit ≤ num_streams v.session)

  abbrev pub IsDead : ℕ → Visit S → Type 0
  IsDead limit v =
      (is_closed v.checked ≡ true)
      ⊎ ((num_streams v.session < limit) × ((e : Error) × ((open_stream v.session).1 ≡ err e)))

  pub try_session_usable :
      (limit : ℕ) (v : Visit S) (t : Stream)
      → is_closed v.checked ≡ false
      → num_streams v.session < limit
      → (open_stream v.session).1 ≡ ok t
      → try_session S (pos limit) v ≡ taken (open_stream v.session).0 t
  unfolding try_session mux_open_stream
  try_session_usable limit v t o h e = ground arith

  pub try_session_full :
      (limit : ℕ) (v : Visit S) → IsFull limit v → try_session S (pos limit) v ≡ full v.session
  unfolding try_session mux_open_stream
  try_session_full limit v h = ground arith

  pub try_session_dead :
      (limit : ℕ) (v : Visit S) → IsDead limit v → try_session S (pos limit) v ≡ deleted
  unfolding try_session mux_open_stream
  try_session_dead limit v (inl h) = ground arith
  try_session_dead limit v (inr (h, (x, e))) = ground arith

  pub data Kind (limit : ℕ) (v : Visit S) : Type 0 where
    usable : IsUsable limit v → Kind limit v
    filled : IsFull limit v → Kind limit v
    dead : IsDead limit v → Kind limit v

  pub visit-Kind : (limit : ℕ) (v : Visit S) → Kind limit v
  visit-Kind limit v = elim (Bool-cases (is_closed v.checked)) [
    | inl closed ↦ dead (inl closed)
    | inr opened ↦ elim (dec_lt (num_streams v.session) limit) [
      | no above ↦ filled (opened, omega arith)
      | yes below ↦ elim (Result-cases (open_stream v.session).1) [
        | inl (t, e) ↦ usable (opened, below, (t, e))
        | inr (x, e) ↦ dead (inr (below, (x, e)))
      ]
    ]
  ]

  module _ (limit : ℕ) where
    -- A stream that the session of a visit opens, under the id of this session.
    abbrev pub IsFrom : Visit S → MuxStream S → Type 0
    IsFrom u t = IsUsable limit u × (t.id ≡ u.id) × ((open_stream u.session).1 ≡ ok t.stream)

    -- The first visit of a session that can give a stream gives it.
    abbrev pub Finds : List (Visit S) → MuxStream S → Type 0
    Finds vs t =
        (before : List (Visit S)) × (u : Visit S) × (after : List (Visit S)) × (vs
          ≡ before ++ (u ∷ after))
        × All (λ v. IsFull limit v ⊎ IsDead limit v) before
        × IsFrom u t

    Finds-cons :
        (u : Visit S) (vs : List (Visit S)) (t : MuxStream S)
        → IsFull limit u ⊎ IsDead limit u
        → Finds vs t
        → Finds (u ∷ vs) t
    Finds-cons u vs t h (before, v, after, e, all, from) =
        (u ∷ before, v, after, ap (◌∷◌ u) e, (h, all), from)

    range_pool-Finds :
        (before : List (Visit S)) (v : Visit S) (after : List (Visit S))
        → IsUsable limit v
        → (t : MuxStream S) × ((range_pool S (pos limit) (before ++ (v ∷ after))).1 ≡ some t)
          × Finds (before ++ (v ∷ after)) t
    unfolding range_pool
    range_pool-Finds [] v after (o, h, (t, e)) = (
      record { id = v.id; stream = t },
      rw (range_pool, try_session_usable limit v t o h e) refl,
      ([], v, after, refl, tt, ((o, h, (t, e)), refl, e)),
    )
    range_pool-Finds (u ∷ before) v after h = elim (visit-Kind limit u) [
      | usable (o, l, (t, e)) ↦ (
        record { id = u.id; stream = t },
        rw (range_pool, try_session_usable limit u t o l e) refl,
        ([], u, before ++ (v ∷ after), refl, tt, ((o, l, (t, e)), refl, e)),
      )
      | filled f ↦
          let (t, found, from) = range_pool-Finds before v after h in
          (
            t,
            rw (range_pool, try_session_full limit u f) found,
            Finds-cons u (before ++ (v ∷ after)) t (inl f) from,
          )
      | dead d ↦
          let (t, found, from) = range_pool-Finds before v after h in
          (
            t,
            rw (range_pool, try_session_dead limit u d) found,
            Finds-cons u (before ++ (v ∷ after)) t (inr d) from,
          )
    ]

    range_misses :
        (vs : List (Visit S))
        → All (λ v. IsFull limit v ⊎ IsDead limit v) vs
        → (range_pool S (pos limit) vs).1 ≡ none
    unfolding range_pool
    range_misses [] h = refl
    range_misses (v ∷ vs) (inl f, h) =
        rw (range_pool, try_session_full limit v f) (range_misses vs h)
    range_misses (v ∷ vs) (inr d, h) =
        rw (range_pool, try_session_dead limit v d) (range_misses vs h)

    or_dial_found :
        (r : List (Entry S) × Option (MuxStream S)) (id : ℕ) (dialed : Result Error Session)
        (t : MuxStream S)
        → r.1 ≡ some t
        → or_dial S (pos limit) id dialed r ≡ (r.0, ok t)
    or_dial_found (p, some u) id dialed t h = ground arith
    or_dial_found (p, none) id dialed t h = cc

    -- If some session of the pool is open, below the limit and able to open a stream, the call
    -- returns what the first visited session of that kind gives: the stream that it opens, under
    -- the id of this session, whatever a dial would give.
    pub get_mux_stream_reuses :
        (before : List (Visit S)) (v : Visit S) (after : List (Visit S)) (id : ℕ)
        (dialed : Result Error Session)
        → IsUsable limit v
        → (t : MuxStream S) × ((get_mux_stream S (pos limit) (before ++ (v ∷ after)) id dialed).1
            ≡ ok t)
          × Finds (before ++ (v ∷ after)) t
    unfolding get_mux_stream
    get_mux_stream_reuses before v after id dialed h =
        let (t, found, from) = range_pool-Finds before v after h in
        (t, ap (λ r. r.1) (or_dial_found _ id dialed t found), from)

    or_dial_missed :
        (r : List (Entry S) × Option (MuxStream S)) (id : ℕ) (s : Session) (t : Stream)
        → r.1 ≡ none
        → num_streams s < limit
        → (open_stream s).1 ≡ ok t
        → (or_dial S (pos limit) id (ok s) r).1 ≡ ok (record { id = id; stream = t })
    unfolding mux_open_stream
    or_dial_missed (p, some u) id s t h l o = absurd (cc)
    or_dial_missed (p, none) id s t h l o = ground arith

    or_dial_fails :
        (r : List (Entry S) × Option (MuxStream S)) (id : ℕ) (e : Error)
        → r.1 ≡ none
        → (or_dial S (pos limit) id (err e) r).1 ≡ err (dial_error e)
    or_dial_fails (p, some u) id e h = absurd (cc)
    or_dial_fails (p, none) id e h = refl

    -- If every session of the pool is full, closed or failing, and a dial gives a session below the
    -- limit that opens a stream, the call returns this stream.
    pub get_mux_stream_dials :
        (vs : List (Visit S)) (id : ℕ) (s : Session) (t : Stream)
        → All (λ v. IsFull limit v ⊎ IsDead limit v) vs
        → num_streams s < limit
        → (open_stream s).1 ≡ ok t
        → (get_mux_stream S (pos limit) vs id (ok s)).1 ≡ ok (record { id = id; stream = t })
    unfolding get_mux_stream
    get_mux_stream_dials vs id s t h =
        or_dial_missed (range_pool S (pos limit) vs) id s t (range_misses vs h)

    -- If every session of the pool is full, closed or failing, and the dial fails, the call fails
    -- with the error of the dial.
    pub get_mux_stream_dial_error :
        (vs : List (Visit S)) (id : ℕ) (e : Error)
        → All (λ v. IsFull limit v ⊎ IsDead limit v) vs
        → (get_mux_stream S (pos limit) vs id (err e)).1 ≡ err (dial_error e)
    unfolding get_mux_stream
    get_mux_stream_dial_error vs id e h =
        or_dial_fails (range_pool S (pos limit) vs) id e (range_misses vs h)
