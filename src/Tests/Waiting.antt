-- ===== src/Tests/Waiting.antt =====
-- A read that times out, and the `atomic.Value`s of a tunnel.
use mos_tls_tunnel.Prelude.{◌≡◌, refl, Option, none, some, List, [], ◌∷◌, arith, ℤ, pos}
use mos_tls_tunnel.Tunnel.FirstErr.{IoError, other, short_write, new_first_err}
use mos_tls_tunnel.Tunnel.Worker.{
  a_end, b_end, conn, cleanup, returned, step_cleanup, after_nr, after_read, Answer, step, step_pc,
}
use mos_tls_tunnel.Tunnel.System.{System, open_tunnel, worker, sys_step, Reach, start, next}
use mos_tls_tunnel.Tunnel.Liveness.{Turn, interleave, AllLawful}
use mos_tls_tunnel.Tunnel.Deadlines.{IsIdle}
use mos_tls_tunnel.Tunnel.Timeout.{HasStopped, ends_after_timeout, returns_after_timeout}
use mos_tls_tunnel.Tunnel.AtomicValue.{
  Err, ErrCell, new_err_cell, report_all, returns, panics, without_types, report_untyped,
  report_all-returns, store, error_value,
}

abbrev timeout : ℤ
timeout = pos 300

abbrev starts : Answer
starts = record { now = 7; read = []; er = none; nw = 0; ew = none }

abbrev waits : System
unfolding sys_step step step_pc open_tunnel
waits = sys_step a_end starts (sys_step a_end starts (open_tunnel timeout))

waits-Reach : Reach timeout waits
unfolding waits
waits-Reach = next a_end starts (next a_end starts start tt) tt

-- 400 is behind 7 + 300.
abbrev times_out : Answer
times_out = record { now = 400; read = []; er = some (other 9); nw = 0; ew = none }

test_ends_after_timeout :
    IsIdle timeout (conn a_end waits.shared).read_deadline
    × HasStopped (worker a_end (sys_step a_end times_out waits)).pc
test_ends_after_timeout =
    ends_after_timeout a_end times_out waits-Reach (unfold waits in refl) (unfold waits in refl)
      (λ h. (refl, λ e. cc)) (unfold waits in omega arith)

abbrev over : System
unfolding waits sys_step step step_pc after_nr after_read
over = sys_step a_end times_out waits

abbrev six_turns : List Turn
six_turns =
    (a_end, times_out)
    ∷ (a_end, times_out)
    ∷ (a_end, times_out)
    ∷ (a_end, times_out)
    ∷ (a_end, times_out)
    ∷ (a_end, times_out)
    ∷ []

abbrev twelve_turns : List Turn
twelve_turns =
    (b_end, times_out)
    ∷ (b_end, times_out)
    ∷ (b_end, times_out)
    ∷ (b_end, times_out)
    ∷ (b_end, times_out)
    ∷ (b_end, times_out)
    ∷ (b_end, times_out)
    ∷ (b_end, times_out)
    ∷ (b_end, times_out)
    ∷ (b_end, times_out)
    ∷ (b_end, times_out)
    ∷ (b_end, times_out)
    ∷ []

six-AllLawful : AllLawful six_turns over
unfolding over sys_step step step_pc step_cleanup
six-AllLawful = (tt, (tt, (tt, (tt, (tt, (tt, tt))))))

twelve-AllLawful : AllLawful twelve_turns (interleave six_turns over)
unfolding over interleave sys_step step step_pc step_cleanup after_nr after_read
twelve-AllLawful = (
  tt,
  (
    tt,
    ((omega arith, λ h. (refl, λ e. cc)), (tt, (tt, (tt, (tt, (tt, (tt, (tt, (tt, (tt, tt)))))))))),
  ),
)

returns_after_timeout_example :
    IsIdle timeout (conn a_end waits.shared).read_deadline
    × ((x : Option IoError) × (y : Option IoError) × ((worker a_end
            (interleave twelve_turns (interleave six_turns over))).pc
          ≡ cleanup returned x)
        × ((worker b_end (interleave twelve_turns (interleave six_turns over))).pc
            ≡ cleanup returned y))
unfolding sys_step over
returns_after_timeout_example =
    returns_after_timeout a_end times_out six_turns twelve_turns waits-Reach (unfold waits in refl)
      (unfold waits in refl) (unfold waits in (omega arith, λ h. (refl, λ e. cc)))
      (λ h. (refl, λ e. cc)) (unfold waits in omega arith) six-AllLawful twelve-AllLawful
      (omega arith) (omega arith)

abbrev errors : List Err
errors = some (1, other 5) ∷ none ∷ some (2, short_write) ∷ []

report_all-returns_example :
    (c : ErrCell) × (report_all errors new_err_cell ≡ returns c)
    × (without_types c ≡ report_untyped errors new_first_err)
report_all-returns_example = report_all-returns errors

-- Without `reportrOnce` the second error of another type would panic.
test_store : store (error_value 2 short_write) (some (error_value 1 (other 5))) ≡ panics
unfolding store
test_store = refl
