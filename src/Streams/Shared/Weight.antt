-- ===== src/Streams/Shared/Weight.antt =====
-- How many turns a call of `getMuxStream` has left.
use mos_tls_tunnel.Prelude.{
  ℕ, ◌+◌, ◌*◌, ◌≤◌, ◌≡◌, ap, subst, refl, Bool, false, Bool-cases, inl, inr, Option, none, some,
  arith, ℤ, ◌==◌, ==_refl, ==_iff, if◌then◌else◌, Result, ok, err,
}
use mos_tls_tunnel.Streams.Smux.{Smux}
use mos_tls_tunnel.Streams.Session.{OpenError, too_many_streams, smux_error, mux_open_stream}
use mos_tls_tunnel.Streams.Shared.{
  System, Pc, ranging, dialling, checking, opening, deleting, storing, opening_fresh, got, failed,
  Choice, Event, turn, at, range_next, after_open, after_fresh, after_dial, call_step,
}

module _ (S : Smux) where
  open S use {Session, Stream, Error, is_closed}

  -- The turns that a call has left, with no further session to try.
  abbrev pub weight : Pc S → ℕ
  weight (got id t) = 0
  weight (failed e) = 0
  weight (opening_fresh id) = 1
  weight (storing id) = 2
  weight dialling = 3
  weight ranging = 4
  weight (deleting id) = 5
  weight (opening id) = 6
  weight (checking id) = 7

  abbrev pub credit : Option ℕ → ℕ
  credit none = 0
  credit (some id) = 1

  -- The turns of a call, and those that offer it a session to try.
  abbrev pub turn_of : ℕ → Event S → ℕ
  turn_of g (turn h c) = if g == h then 1 else 0
  turn_of g _ = 0

  abbrev pub visit_of : ℕ → Event S → ℕ
  visit_of g (turn h c) = if g == h then credit c.visits else 0
  visit_of g _ = 0

  weight-at : (g : ℕ) (p : Pc S) (f : ℕ → Pc S) → weight (at g p f g) ≡ weight p
  weight-at g p f = rw (==_refl g) refl

  weight-after_open :
      (id : ℕ) (r : Result (OpenError Error) Stream) → weight (after_open S id r) ≤ 5
  weight-after_open id (ok t) = omega arith
  weight-after_open id (err too_many_streams) = omega arith
  weight-after_open id (err (smux_error e)) = omega arith

  weight-after_fresh :
      (id : ℕ) (r : Result (OpenError Error) Stream) → weight (after_fresh S id r) ≤ 0
  weight-after_fresh id (ok t) = omega arith
  weight-after_fresh id (err e) = omega arith

  weight-after_dial :
      (g : ℕ) (r : Result Error Session) (s : System S) → weight ((after_dial S g r s).calls g) ≤ 2
  weight-after_dial g (ok x) s = omega (arith, weight-at g (storing s.made) s.calls)
  weight-after_dial g (err e) s = rw (==_refl g) (omega arith)

  weight-range_next : (v : Option ℕ) → weight (range_next S v) ≤ 3 + 4 * credit v
  weight-range_next none = omega arith
  weight-range_next (some id) = omega arith

  weight-checked : (b : Bool) (id : ℕ) → weight (if b then deleting id else opening id) ≤ 6
  weight-checked b id = ground arith

  -- A turn of a call that has not ended.
  call_step-weight :
      (limit : ℤ) (g : ℕ) (c : Choice S) (p : Pc S) (s : System S)
      → 1 ≤ weight p
      → weight ((call_step S limit g c p s).calls g) + 1 ≤ weight p + 4 * credit c.visits
  unfolding call_step
  call_step-weight limit g c ranging s h =
      omega (arith, weight-at g (range_next S c.visits) s.calls, weight-range_next c.visits)
  call_step-weight limit g c (checking id) s h =
      let p : Pc S = if is_closed (s.sessions id) then deleting id else opening id in
      omega (arith, weight-at g p s.calls, weight-checked (is_closed (s.sessions id)) id)
  call_step-weight limit g c (opening id) s h =
      let r = (mux_open_stream S limit (s.sessions id)).1 in
      omega (arith, weight-at g (after_open S id r) s.calls, weight-after_open id r)
  call_step-weight limit g c (deleting id) s h = omega (arith, weight-at g ranging s.calls)
  call_step-weight limit g c dialling s h = omega (arith, weight-after_dial g c.dialled s)
  call_step-weight limit g c (storing id) s h =
      omega (arith, weight-at g (opening_fresh id) s.calls)
  call_step-weight limit g c (opening_fresh id) s h =
      let r = (mux_open_stream S limit (s.sessions id)).1 in
      omega (arith, weight-at g (after_fresh S id r) s.calls, weight-after_fresh id r)
  call_step-weight limit g c (got id t) s h = absurd (omega arith)
  call_step-weight limit g c (failed e) s h = absurd (omega arith)

  pub call_step-ended :
      (limit : ℤ) (g : ℕ) (c : Choice S) (p : Pc S) (s : System S)
      → weight p ≡ 0
      → call_step S limit g c p s ≡ s
  unfolding call_step
  call_step-ended limit g c (got id t) s h = refl
  call_step-ended limit g c (failed e) s h = refl
  call_step-ended limit g c ranging s h = absurd (omega arith)
  call_step-ended limit g c dialling s h = absurd (omega arith)
  call_step-ended limit g c (checking id) s h = absurd (omega arith)
  call_step-ended limit g c (opening id) s h = absurd (omega arith)
  call_step-ended limit g c (deleting id) s h = absurd (omega arith)
  call_step-ended limit g c (storing id) s h = absurd (omega arith)
  call_step-ended limit g c (opening_fresh id) s h = absurd (omega arith)

  -- The turns of another call do not move this one.
  pub other_call :
      (limit : ℤ) (g h : ℕ) (c : Choice S) (p : Pc S) (s : System S)
      → (g == h) ≡ false
      → (call_step S limit h c p s).calls g ≡ s.calls g
  unfolding call_step
  other_call limit g h c ranging s n = rw n refl
  other_call limit g h c (checking id) s n = rw n refl
  other_call limit g h c (opening id) s n = rw n refl
  other_call limit g h c (deleting id) s n = rw n refl
  other_call limit g h c dialling s n = other_dial c.dialled
    where
      other_dial : (r : Result Error Session) → (after_dial S h r s).calls g ≡ s.calls g
      other_dial (ok x) = rw n refl
      other_dial (err e) = rw n refl
  other_call limit g h c (storing id) s n = rw n refl
  other_call limit g h c (opening_fresh id) s n = rw n refl
  other_call limit g h c (got id t) s n = refl
  other_call limit g h c (failed e) s n = refl

  pub turn-weight :
      (limit : ℤ) (g h : ℕ) (c : Choice S) (s : System S)
      → 1 ≤ weight (s.calls g)
      → weight ((call_step S limit h c (s.calls h) s).calls g) + turn_of g (turn h c)
        ≤ weight (s.calls g) + 4 * visit_of g (turn h c)
  turn-weight limit g h c s w = elim (Bool-cases (g == h)) [
    | inr other ↦ rw other (omega (arith, ap weight (other_call limit g h c (s.calls h) s other)))
    | inl same ↦
        let e : g ≡ h = (==_iff g h).0 same in
        rw same (
          subst
            (λ k.
              weight ((call_step S limit k c (s.calls k) s).calls g) + 1
              ≤ weight (s.calls g) + 4 * credit c.visits)
            e (call_step-weight limit g c (s.calls g) s w))
  ]
