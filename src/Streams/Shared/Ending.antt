-- ===== src/Streams/Shared/Ending.antt =====
-- Every call of `getMuxStream` ends, whatever the other calls do.
use mos_tls_tunnel.Prelude.{
  ℕ, ◌+◌, ◌*◌, ◌≤◌, ◌≡◌, ◌⊎◌, ap, ◌∙◌, subst, dec_lt, refl, Bool-cases, inl, inr, List, [], ◌∷◌,
  arith, ℤ, ◌==◌, ==_iff,
}
use mos_tls_tunnel.Streams.Smux.{Smux}
use mos_tls_tunnel.Streams.Shared.{
  System, Pc, ranging, dialling, checking, opening, deleting, storing, opening_fresh, got, failed,
  Event, turn, stream_closes, idles, changes, shared_step, run_shared,
}
use mos_tls_tunnel.Streams.Shared.Weight.{
  weight, turn_of, visit_of, call_step-ended, other_call, turn-weight,
}

module _ (S : Smux) where
  open S use {Session, Stream, Error, is_closed}

  abbrev pub turns : ℕ → List (Event S) → ℕ
  turns g [] = 0
  turns g (e ∷ es) = turn_of S g e + turns g es

  abbrev pub visits : ℕ → List (Event S) → ℕ
  visits g [] = 0
  visits g (e ∷ es) = visit_of S g e + visits g es

  event-weight :
      (limit : ℤ) (g : ℕ) (e : Event S) (s : System S)
      → 1 ≤ weight S (s.calls g)
      → weight S ((shared_step S limit e s).calls g) + turn_of S g e
        ≤ weight S (s.calls g) + 4 * visit_of S g e
  unfolding shared_step
  event-weight limit g (turn h c) s w = turn-weight S limit g h c s w
  event-weight limit g (stream_closes id t) s w = omega arith
  event-weight limit g (idles id) s w = omega arith
  event-weight limit g (changes id x) s w = omega arith

  event_ended :
      (limit : ℤ) (g : ℕ) (e : Event S) (s : System S)
      → weight S (s.calls g) ≡ 0
      → (shared_step S limit e s).calls g ≡ s.calls g
  unfolding shared_step
  event_ended limit g (turn h c) s w = elim (Bool-cases (g == h)) [
    | inr other ↦ other_call S limit g h c (s.calls h) s other
    | inl same ↦
        let e : g ≡ h = (==_iff g h).0 same in
        ap (λ (x : System S). x.calls g)
          (call_step-ended S limit h c (s.calls h) s (subst (λ k. weight S (s.calls k) ≡ 0) e w))
  ]
  event_ended limit g (stream_closes id t) s w = refl
  event_ended limit g (idles id) s w = refl
  event_ended limit g (changes id x) s w = refl

  run_ended :
      (limit : ℤ) (g : ℕ) (es : List (Event S)) (s : System S)
      → weight S (s.calls g) ≡ 0
      → (run_shared S limit es s).calls g ≡ s.calls g
  unfolding run_shared
  run_ended limit g [] s w = refl
  run_ended limit g (e ∷ es) s w =
      let f = event_ended limit g e s w in
      run_ended limit g es (shared_step S limit e s) (ap (weight S) f ∙ w) ∙ f

  run-weight :
      (limit : ℤ) (g : ℕ) (es : List (Event S)) (s : System S)
      → (weight S ((run_shared S limit es s).calls g) ≡ 0)
        ⊎ (weight S ((run_shared S limit es s).calls g) + turns g es
            ≤ weight S (s.calls g) + 4 * visits g es)
  unfolding run_shared
  run-weight limit g [] s = inr (omega arith)
  run-weight limit g (e ∷ es) s = elim (dec_lt 0 (weight S (s.calls g))) [
    | no ended ↦
        let zero_left : weight S (s.calls g) ≡ 0 = omega arith in
        inl (ap (weight S) (run_ended limit g (e ∷ es) s zero_left) ∙ zero_left)
    | yes going ↦ elim (run-weight limit g es (shared_step S limit e s)) [
      | inl ended ↦ inl ended
      | inr left ↦ inr (omega (arith, left, event-weight limit g e s (omega arith)))
    ]
  ]

  -- What a call ends with: a stream, or an error.
  abbrev pub HasEnded : Pc S → Type 0
  HasEnded (got id t) = Unit {0}
  HasEnded (failed e) = Unit {0}
  HasEnded _ = ⊥

  ended_of_zero : (p : Pc S) → weight S p ≡ 0 → HasEnded p
  ended_of_zero (got id t) h = tt
  ended_of_zero (failed e) h = tt
  ended_of_zero ranging h = absurd (omega arith)
  ended_of_zero dialling h = absurd (omega arith)
  ended_of_zero (checking id) h = absurd (omega arith)
  ended_of_zero (opening id) h = absurd (omega arith)
  ended_of_zero (deleting id) h = absurd (omega arith)
  ended_of_zero (storing id) h = absurd (omega arith)
  ended_of_zero (opening_fresh id) h = absurd (omega arith)

  -- A call of `getMuxStream` ends with a stream or an error, in every interleaving with other calls,
  -- within four turns and four more for each session that `Range` offers it.
  pub call_ends :
      (limit : ℤ) (g : ℕ) (es : List (Event S)) (s : System S)
      → s.calls g ≡ ranging
      → 4 + 4 * visits g es ≤ turns g es
      → HasEnded ((run_shared S limit es s).calls g)
  call_ends limit g es s r n = elim (run-weight limit g es s) [
    | inl ended ↦ ended_of_zero ((run_shared S limit es s).calls g) ended
    | inr left ↦
        ended_of_zero ((run_shared S limit es s).calls g) (omega (arith, left, ap (weight S) r))
  ]
