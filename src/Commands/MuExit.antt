-- ===== src/Commands/MuExit.antt =====
-- How mtt-mu-server ends.
use mos_tls_tunnel.Prelude.{
  ℕ, suc, ◌-◌, ◌≤◌, ◌≡◌, ◌≢◌, refl, Option, none, some, List, [], ◌∷◌, arith, All,
}
use mos_tls_tunnel.Commands.MuRunning.{
  Goroutine, calling, finished, MainPc, waiting, closing_controller, closing_server, MuProcess,
  new_mu_process, MuEvent, server_turn, controller_turn, main_turn, status_of, goes_on,
  server_goroutine, controller_goroutine, on_mu_event, unless_ended, mu_process_step,
  run_mu_process, IsLawfulMuEvent,
}

abbrev pub main_turns : List MuEvent → ℕ
main_turns [] = 0
main_turns (main_turn ∷ es) = suc (main_turns es)
main_turns (server_turn i ∷ es) = main_turns es
main_turns (controller_turn i ∷ es) = main_turns es

abbrev left_of : MainPc → ℕ
left_of waiting = 3
left_of closing_controller = 2
left_of closing_server = 1

-- The turns of `main` that are left.
abbrev main_left : Option ℕ → MainPc → ℕ
main_left (some status) m = 0
main_left none m = left_of m

abbrev is_main : MuEvent → ℕ
is_main main_turn = 1
is_main (server_turn i) = 0
is_main (controller_turn i) = 0

main_left_event :
    (e : MuEvent) (p : MuProcess) (m : MainPc)
    → p.main ≡ m
    → p.exit ≡ none
    → main_left (on_mu_event e p).exit (on_mu_event e p).main ≤ left_of m - is_main e
main_left_event main_turn p waiting h n = ground arith
main_left_event main_turn p closing_controller h n = ground arith
main_left_event main_turn p closing_server h n = ground arith
main_left_event (server_turn i) p m h n = ground arith
main_left_event (controller_turn i) p m h n = ground arith

main_left_ended :
    (o : Option ℕ) (e : MuEvent) (p : MuProcess)
    → p.exit ≡ o
    → main_left (unless_ended o p (on_mu_event e p)).exit (unless_ended o p (on_mu_event e p)).main
      ≤ main_left o p.main - is_main e
main_left_ended none e p h = main_left_event e p p.main refl h
main_left_ended (some status) e p h = ground arith

main_left_step :
    (e : MuEvent) (p : MuProcess)
    → main_left (mu_process_step e p).exit (mu_process_step e p).main
      ≤ main_left p.exit p.main - is_main e
unfolding mu_process_step
main_left_step e p = main_left_ended p.exit e p refl

main_left_run :
    (es : List MuEvent) (p : MuProcess)
    → main_left (run_mu_process es p).exit (run_mu_process es p).main
      ≤ main_left p.exit p.main - main_turns es
unfolding run_mu_process
main_left_run [] p = omega arith
main_left_run (main_turn ∷ es) p =
    omega (arith, main_left_step main_turn p, main_left_run es (mu_process_step main_turn p))
main_left_run (server_turn i ∷ es) p =
    omega (
      arith,
      main_left_step (server_turn i) p,
      main_left_run es (mu_process_step (server_turn i) p),
    )
main_left_run (controller_turn i ∷ es) p = omega (
  arith,
  main_left_step (controller_turn i) p,
  main_left_run es (mu_process_step (controller_turn i) p),
)

exited_of_zero : (o : Option ℕ) (m : MainPc) → main_left o m ≤ 0 → (status : ℕ) × (o ≡ some status)
exited_of_zero (some status) m h = (status, refl)
exited_of_zero none waiting h = absurd (omega arith)
exited_of_zero none closing_controller h = absurd (omega arith)
exited_of_zero none closing_server h = absurd (omega arith)

-- Once `main` of mtt-mu-server has got its signal and had the two turns that follow it, the program
-- has ended, whatever its goroutines do in between.
pub signal_ends :
    (es : List MuEvent)
    → 3 ≤ main_turns es
    → (status : ℕ) × ((run_mu_process es new_mu_process).exit ≡ some status)
unfolding new_mu_process
signal_ends es h =
    exited_of_zero (run_mu_process es new_mu_process).exit (run_mu_process es new_mu_process).main
      (omega (arith, h, main_left_run es new_mu_process))

-- No call that has returned gave `nil`, and the program has not ended, or with the status 1.
record HasNoSuccess (p : MuProcess) : Type 0 where
  server_fails : p.server ≢ finished none
  controller_fails : p.controller ≢ finished none
  not_zero : p.exit ≢ some 0

status_of_error : (r : Option ℕ) → r ≢ none → status_of r ≢ 0
status_of_error none h = absurd (h refl)
status_of_error (some e) h = λ e. ground arith

goes_on-ne : (i : Option (Option ℕ)) → i ≢ some none → goes_on i ≢ finished none
goes_on-ne none h = λ e. cc
goes_on-ne (some none) h = absurd (h refl)
goes_on-ne (some (some e)) h = λ e. cc

server_goroutine-HasNoSuccess :
    (i : Option (Option ℕ)) (g : Goroutine) (p : MuProcess)
    → i ≢ some none
    → p.server ≡ g
    → HasNoSuccess p
    → HasNoSuccess (server_goroutine i g p)
server_goroutine-HasNoSuccess i calling p l h v = record {
  server_fails = goes_on-ne i l;
  controller_fails = v.controller_fails;
  not_zero = v.not_zero;
}
server_goroutine-HasNoSuccess i (finished none) p l h v = absurd (v.server_fails h)
server_goroutine-HasNoSuccess i (finished (some e)) p l h v = record {
  server_fails = v.server_fails;
  controller_fails = v.controller_fails;
  not_zero = λ e. ground arith;
}

controller_goroutine-HasNoSuccess :
    (i : Option (Option ℕ)) (g : Goroutine) (p : MuProcess)
    → i ≢ some none
    → p.controller ≡ g
    → HasNoSuccess p
    → HasNoSuccess (controller_goroutine i g p)
controller_goroutine-HasNoSuccess i calling p l h v = record {
  server_fails = v.server_fails;
  controller_fails = goes_on-ne i l;
  not_zero = v.not_zero;
}
controller_goroutine-HasNoSuccess i (finished none) p l h v = absurd (v.controller_fails h)
controller_goroutine-HasNoSuccess i (finished (some e)) p l h v = record {
  server_fails = v.server_fails;
  controller_fails = v.controller_fails;
  not_zero = λ e. ground arith;
}

unless_ended-HasNoSuccess :
    (o : Option ℕ) (p q : MuProcess)
    → HasNoSuccess p
    → HasNoSuccess q
    → HasNoSuccess (unless_ended o p q)
unless_ended-HasNoSuccess none p q v w = w
unless_ended-HasNoSuccess (some status) p q v w = v

run-HasNoSuccess :
    (es : List MuEvent) (p : MuProcess)
    → main_turns es ≡ 0
    → All IsLawfulMuEvent es
    → HasNoSuccess p
    → HasNoSuccess (run_mu_process es p)
unfolding run_mu_process mu_process_step
run-HasNoSuccess [] p n l v = v
run-HasNoSuccess (main_turn ∷ es) p n l v = absurd (omega arith)
run-HasNoSuccess (server_turn i ∷ es) p n (l, ls) v =
    run-HasNoSuccess es _ n ls
      (unless_ended-HasNoSuccess p.exit p _ v (server_goroutine-HasNoSuccess i p.server p l refl v))
run-HasNoSuccess (controller_turn i ∷ es) p n (l, ls) v = run-HasNoSuccess es _ n ls (
    unless_ended-HasNoSuccess p.exit p _ v
      (controller_goroutine-HasNoSuccess i p.controller p l refl v))

new_mu_process-HasNoSuccess : HasNoSuccess new_mu_process
unfolding new_mu_process
new_mu_process-HasNoSuccess = record {
  server_fails = λ e. cc;
  controller_fails = λ e. cc;
  not_zero = λ e. cc;
}

-- Without a signal mtt-mu-server never ends with the exit status 0.
pub mu_exit_without_signal :
    (es : List MuEvent)
    → main_turns es ≡ 0
    → All IsLawfulMuEvent es
    → (run_mu_process es new_mu_process).exit ≢ some 0
mu_exit_without_signal es n l =
    (run-HasNoSuccess es new_mu_process n l new_mu_process-HasNoSuccess).not_zero

-- A signal may end mtt-mu-server with the exit status 1: when the deferred call has closed the
-- controller, its goroutine sees an error, and ends the program before `main` returns.
pub signal_fails :
    (e : ℕ)
    → (run_mu_process
        (main_turn
          ∷ main_turn
          ∷ controller_turn (some (some e))
          ∷ controller_turn none
          ∷ main_turn
          ∷ [])
        new_mu_process).exit
      ≡ some 1
unfolding run_mu_process mu_process_step new_mu_process
signal_fails e = refl
