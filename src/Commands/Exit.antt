-- ===== src/Commands/Exit.antt =====
-- How the client and the server end.
use mos_tls_tunnel.Prelude.{
  ℕ, ◌≡◌, ◌⊎◌, subst, refl, false, Option, none, some, List, [], ◌∷◌, inl, inr,
}
use mos_tls_tunnel.Listening.Lifecycle.{
  StartPc, listening, registering, serving, closing, returned, panicking, panicked, over_http,
  start_step, Answer, starts, IsLawful,
}
use mos_tls_tunnel.Listening.Sound.{IsSound, IsAt, after-IsSound, new_endpoint-IsSound}
use mos_tls_tunnel.Commands.Running.{
  Program, wss_of, Process, new_process, ProcessEvent, start_turn, main_turn, handler_panic,
  goroutine, unless_exited, process_step, run_process, AllLawfulEvents,
}

abbrev pub NoSignal : List ProcessEvent → Type 0
NoSignal [] = Unit {0}
NoSignal (start_turn i ∷ es) = NoSignal es
NoSignal (main_turn ∷ es) = ⊥
NoSignal (handler_panic ∷ es) = NoSignal es

-- Some goroutine of a connection panics.
abbrev pub HasPanic : List ProcessEvent → Type 0
HasPanic [] = ⊥
HasPanic (start_turn i ∷ es) = HasPanic es
HasPanic (main_turn ∷ es) = HasPanic es
HasPanic (handler_panic ∷ es) = Unit {0}

-- What a panic comes from: a goroutine of a connection, or `Start` with an empty path.
abbrev pub Cause : Program → List ProcessEvent → Type 0
Cause g es = HasPanic es ⊎ (wss_of g ≡ over_http [])

-- The status 1 comes with a listener that is not open, and the status 2 has its cause.
abbrev pub EndsAs : Type 0 → Process → ℕ → Type 0
EndsAs C p status = ((status ≡ 1) × (p.start.is_open ≡ false)) ⊎ ((status ≡ 2) × C)

-- The program runs, or it has ended in one of these ways.
record IsAlive (g : Program) (C : Type 0) (p : Process) : Type 0 where
  sound : IsSound (wss_of g) p.start
  failed : (p.exit ≡ none) ⊎ ((status : ℕ) × (p.exit ≡ some status) × EndsAs C p status)

module _ (g : Program) (C : Type 0) (of_path : wss_of g ≡ over_http [] → C) where
  goes_on-IsAlive :
      (i : Answer) (p : Process)
      → IsLawful (wss_of g) (starts i) p.start
      → p.exit ≡ none
      → IsSound (wss_of g) p.start
      → IsAlive g C (record p { start = start_step (wss_of g) i p.start })
  goes_on-IsAlive i p l n v = record {
    sound = after-IsSound (wss_of g) (starts i) p.start l v;
    failed = inl n;
  }

  goroutine-IsAlive :
      (i : Answer) (pc : StartPc) (p : Process)
      → p.start.pc ≡ pc
      → IsLawful (wss_of g) (starts i) p.start
      → p.exit ≡ none
      → IsSound (wss_of g) p.start
      → IsAlive g C (goroutine g i pc p)
  goroutine-IsAlive i (returned (some r)) p e l n v = record {
    sound = v;
    failed = inr (1, refl, inl (refl, (subst (λ x. IsAt (wss_of g) p.start x) e v).0));
  }
  goroutine-IsAlive i (returned none) p e l n v =
      absurd ((subst (λ x. IsAt (wss_of g) p.start x) e v).1 refl)
  goroutine-IsAlive i panicked p e l n v = record {
    sound = v;
    failed = inr (2, refl, inr (refl, of_path (subst (λ x. IsAt (wss_of g) p.start x) e v).1));
  }
  goroutine-IsAlive i listening p e l n v = goes_on-IsAlive i p l n v
  goroutine-IsAlive i registering p e l n v = goes_on-IsAlive i p l n v
  goroutine-IsAlive i serving p e l n v = goes_on-IsAlive i p l n v
  goroutine-IsAlive i panicking p e l n v = goes_on-IsAlive i p l n v
  goroutine-IsAlive i (closing r) p e l n v = goes_on-IsAlive i p l n v

  unless_exited-IsAlive :
      (o : Option ℕ) (p q : Process)
      → (o ≡ none → IsAlive g C q)
      → IsAlive g C p
      → IsAlive g C (unless_exited o p q)
  unless_exited-IsAlive none p q f v = f refl
  unless_exited-IsAlive (some status) p q f v = v

  process_step-IsAlive :
      (i : Answer) (p : Process)
      → IsLawful (wss_of g) (starts i) p.start
      → IsAlive g C p
      → IsAlive g C (process_step g (start_turn i) p)
  unfolding process_step
  process_step-IsAlive i p l v =
      unless_exited-IsAlive p.exit p (goroutine g i p.start.pc p)
        (λ n. goroutine-IsAlive i p.start.pc p refl l n v.sound) v

  handler_panic-IsAlive :
      (p : Process) → C → IsAlive g C p → IsAlive g C (process_step g handler_panic p)
  unfolding process_step
  handler_panic-IsAlive p c v =
      unless_exited-IsAlive p.exit p (record p { exit = some 2 })
        (λ n. record { sound = v.sound; failed = inr (2, refl, inr (refl, c)) }) v

  run_process-IsAlive :
      (es : List ProcessEvent) (p : Process)
      → NoSignal es
      → (HasPanic es → C)
      → AllLawfulEvents g es p
      → IsAlive g C p
      → IsAlive g C (run_process g es p)
  unfolding run_process
  run_process-IsAlive [] p n f l v = v
  run_process-IsAlive (start_turn i ∷ es) p n f (l, ls) v =
      run_process-IsAlive es _ n f ls (process_step-IsAlive i p l v)
  run_process-IsAlive (handler_panic ∷ es) p n f (l, ls) v =
      run_process-IsAlive es _ n (λ h. f tt) ls (handler_panic-IsAlive p (f tt) v)
  run_process-IsAlive (main_turn ∷ es) p n f l v = absurd n

new_process-IsAlive : (g : Program) (C : Type 0) → IsAlive g C new_process
unfolding new_process
new_process-IsAlive g C = record { sound = new_endpoint-IsSound (wss_of g); failed = inl refl }

of_failed :
    (g : Program) (C : Type 0) (p : Process) (status : ℕ)
    → IsAlive g C p
    → p.exit ≡ some status
    → EndsAs C p status
of_failed g C p status v e = elim v.failed [
  | inl n ↦ cc
  | inr (s, f, h) ↦ subst (EndsAs C p) (cc) h
]

-- A client or a server that gets no signal ends, if it does, with the exit status 1 and its listener
-- not open, or with 2 where a goroutine of a connection panics or the server has `EnableWSS` and an
-- empty path, if net and net/http answer as they document.
pub exit-without_signal :
    (g : Program) (es : List ProcessEvent) (status : ℕ)
    → NoSignal es
    → AllLawfulEvents g es new_process
    → (run_process g es new_process).exit ≡ some status
    → EndsAs (Cause g es) (run_process g es new_process) status
exit-without_signal g es status n l e =
    of_failed g (Cause g es) (run_process g es new_process) status
      (run_process-IsAlive g (Cause g es) (λ h. inr h) es new_process n (λ h. inl h) l
        (new_process-IsAlive g (Cause g es)))
      e
