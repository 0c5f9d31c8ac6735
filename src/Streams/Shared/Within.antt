-- ===== src/Streams/Shared/Within.antt =====
-- The limit of streams holds for every session in every interleaving.
use mos_tls_tunnel.Prelude.{
  ℕ, ◌≤◌, ◌≡◌, refl, Bool-cases, inl, inr, List, [], ◌∷◌, arith, pos, ◌==◌, Result, ok, err,
}
use mos_tls_tunnel.Streams.Smux.{Smux, IsSmux}
use mos_tls_tunnel.Streams.Session.{mux_open_stream-le, try_close_on_idle}
use mos_tls_tunnel.Streams.Shared.{
  System, Pc, ranging, dialling, checking, opening, deleting, storing, opening_fresh, got, failed,
  Choice, Event, turn, stream_closes, idles, changes, at, after_dial, call_step, shared_step,
  run_shared,
}

-- What smux documents besides: to close a stream adds none to its session.
abbrev pub ClosesNoMore : Smux → Type 0
ClosesNoMore S =
    (t : S.Stream) (s : S.Session) → S.num_streams (S.close_stream t s) ≤ S.num_streams s

module _ (S : Smux) (limit : ℕ) where
  open S use {Session, num_streams}

  -- A session that is dialled, or changed from outside, has no stream more than the limit, as one
  -- has that was just made, or is closed.
  abbrev pub IsLawfulStep : Event S → Type 0
  IsLawfulStep (turn g c) = (x : Session) → c.dialled ≡ ok x → num_streams x ≤ limit
  IsLawfulStep (stream_closes id t) = Unit {0}
  IsLawfulStep (idles id) = Unit {0}
  IsLawfulStep (changes id x) = num_streams x ≤ limit

  abbrev pub AllLawfulSteps : List (Event S) → Type 0
  AllLawfulSteps [] = Unit {0}
  AllLawfulSteps (e ∷ es) = IsLawfulStep e × AllLawfulSteps es

  abbrev pub IsWithin : System S → Type 0
  IsWithin s = (id : ℕ) → num_streams (s.sessions id) ≤ limit

  at-within :
      (i k : ℕ) (x : Session) (f : ℕ → Session)
      → num_streams x ≤ limit
      → ((id : ℕ) → num_streams (f id) ≤ limit)
      → num_streams (at i x f k) ≤ limit
  at-within i k x f h v = elim (Bool-cases (k == i)) [
    | inl same ↦ rw same h
    | inr different ↦ rw different (v k)
  ]

module _ (S : Smux) (laws : IsSmux S) (closes : ClosesNoMore S) (limit : ℕ) where
  open S use {Session, Error, num_streams}

  try_close_on_idle-le :
      (s : Session) → num_streams s ≤ limit → num_streams (try_close_on_idle S s) ≤ limit
  unfolding try_close_on_idle
  try_close_on_idle-le s h = ground (arith, laws.closed_empty (S.close s) (laws.close_closes s))

  after_dial-IsWithin :
      (g : ℕ) (r : Result Error Session) (s : System S)
      → ((x : Session) → r ≡ ok x → num_streams x ≤ limit)
      → IsWithin S limit s
      → IsWithin S limit (after_dial S g r s)
  after_dial-IsWithin g (err e) s l v = v
  after_dial-IsWithin g (ok x) s l v = λ k. at-within S limit s.made k x s.sessions (l x refl) v

  call_step-IsWithin :
      (g : ℕ) (c : Choice S) (pc : Pc S) (s : System S)
      → ((x : Session) → c.dialled ≡ ok x → num_streams x ≤ limit)
      → IsWithin S limit s
      → IsWithin S limit (call_step S (pos limit) g c pc s)
  unfolding call_step
  call_step-IsWithin g c ranging s l v = v
  call_step-IsWithin g c (checking id) s l v = v
  call_step-IsWithin g c (opening id) s l v = λ k.
      at-within S limit id k _ s.sessions (mux_open_stream-le S laws limit (s.sessions id) (v id)) v
  call_step-IsWithin g c (deleting id) s l v = v
  call_step-IsWithin g c dialling s l v = after_dial-IsWithin g c.dialled s l v
  call_step-IsWithin g c (storing id) s l v = v
  call_step-IsWithin g c (opening_fresh id) s l v = λ k.
      at-within S limit id k _ s.sessions (mux_open_stream-le S laws limit (s.sessions id) (v id)) v
  call_step-IsWithin g c (got id t) s l v = v
  call_step-IsWithin g c (failed e) s l v = v

  shared_step-IsWithin :
      (e : Event S) (s : System S)
      → IsLawfulStep S limit e
      → IsWithin S limit s
      → IsWithin S limit (shared_step S (pos limit) e s)
  unfolding shared_step
  shared_step-IsWithin (turn g c) s l v = call_step-IsWithin g c (s.calls g) s l v
  shared_step-IsWithin (stream_closes id t) s l v =
      λ k. at-within S limit id k _ s.sessions (omega (arith, closes t (s.sessions id), v id)) v
  shared_step-IsWithin (idles id) s l v =
      λ k. at-within S limit id k _ s.sessions (try_close_on_idle-le (s.sessions id) (v id)) v
  shared_step-IsWithin (changes id x) s l v = λ k. at-within S limit id k x s.sessions l v

  -- If no session has more streams than the limit, none has in any interleaving of calls of
  -- `getMuxStream`, closed streams and idle checks, as long as a dial and the network give no
  -- session that has more, and smux counts streams as it documents.
  pub run_shared-IsWithin :
      (es : List (Event S)) (s : System S)
      → AllLawfulSteps S limit es
      → IsWithin S limit s
      → IsWithin S limit (run_shared S (pos limit) es s)
  unfolding run_shared
  run_shared-IsWithin [] s l v = v
  run_shared-IsWithin (e ∷ es) s (l, ls) v =
      run_shared-IsWithin es (shared_step S (pos limit) e s) ls (shared_step-IsWithin e s l v)
