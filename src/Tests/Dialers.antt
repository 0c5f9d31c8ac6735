-- ===== src/Tests/Dialers.antt =====
-- A run of `dummyDialerListener`: two calls of `Dial` and one of `Accept`, two that meet, and `Close`
-- with a call that still waits.
use mos_tls_tunnel.Prelude.{◌+◌, ◌≤◌, ◌≡◌, ◌⊎◌, refl, true, false, some, List, [], ◌∷◌, length}
use mos_tls_tunnel.Dialer.{
  near, far, conn, err_closed_pipe, DummyDialerListener, new_dummy_dialer_listener, close, Step,
  dials, accepts, closes, meets, refuses_dial, step, run,
}
use mos_tls_tunnel.Dialer.Counting.{calls, nears, fars}
use mos_tls_tunnel.Dialer.Laws.{run-pairs}
use mos_tls_tunnel.Dialer.Draining.{waiting, IsReturn, closed_drains}

abbrev steps : List Step
steps = dials ∷ accepts ∷ dials ∷ meets 0 1 ∷ closes ∷ closes ∷ []

abbrev closed_listener : DummyDialerListener
closed_listener = record {
  is_closed = true;
  close_once = true;
  next = 3;
  dialling = 2 ∷ [];
  accepting = [];
  returned = (0, conn (near 0)) ∷ (1, conn (far 0)) ∷ [];
  panicked = false;
}

test_steps : run steps new_dummy_dialer_listener ≡ some closed_listener
unfolding run step close new_dummy_dialer_listener
test_steps = refl

run-pairs_example :
    (closed_listener.panicked ≡ false)
    × (calls 0 closed_listener.returned ≤ 1)
    × (nears 0 closed_listener.returned ≡ fars 0 closed_listener.returned)
    × (nears 0 closed_listener.returned ≤ 1)
run-pairs_example = run-pairs steps closed_listener 0 test_steps

abbrev drained : DummyDialerListener
drained = record closed_listener {
  dialling = [];
  returned = (2, err_closed_pipe) ∷ (0, conn (near 0)) ∷ (1, conn (far 0)) ∷ [];
}

test_drained : run (refuses_dial 2 ∷ []) closed_listener ≡ some drained
unfolding run step
test_drained = refl

test_closed_drains :
    (waiting drained + length (refuses_dial 2 ∷ []) ≤ waiting closed_listener)
    × ((waiting drained ≡ 0)
        ⊎ ((s : Step) × IsReturn s × ((f : DummyDialerListener) × (step s drained ≡ some f))))
test_closed_drains =
    closed_drains (refuses_dial 2 ∷ []) closed_listener drained refl (tt, tt) test_drained
