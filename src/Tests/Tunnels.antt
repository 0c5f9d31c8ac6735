-- ===== src/Tests/Tunnels.antt =====
-- A run of the tunnel of internal/core/common.go: two bytes go through, then the first connection
-- ends.
use mos_tls_tunnel.Prelude.{
  ◌≡◌, refl, true, false, Option, none, some, List, [], ◌∷◌, ◌++◌, arith, Bytes, ℤ, pos, length,
}
use mos_tls_tunnel.Tunnel.FirstErr.{other, IoError, eof, report}
use mos_tls_tunnel.Tunnel.Worker.{
  reporting, End, a_end, b_end, Answer, cleanup, returned, step, step_pc, after_read, after_write,
  after_nr, step_cleanup,
}
use mos_tls_tunnel.Tunnel.System.{System, open_tunnel, worker, sys_step, Reach, start, next, result}
use mos_tls_tunnel.Tunnel.Safety.{delivered_prefix, delivered_all, returned_closes}
use mos_tls_tunnel.Tunnel.Reporting.{here, later, result-first_report}
use mos_tls_tunnel.Tunnel.EndToEnd.{end_to_end_prefix}
use mos_tls_tunnel.Tunnel.Liveness.{Turn, interleave, AllLawful, HasLeft, both_return}
use mos_tls_tunnel.Tunnel.Termination.{run, IsLawfulRun, other_returns}

abbrev timeout : ℤ
timeout = pos 300

abbrev moves : Answer
moves = record { now = 7; read = 1 ∷ 2 ∷ []; er = none; nw = 2; ew = none }

abbrev ends : Answer
ends = record { now = 8; read = []; er = some eof; nw = 0; ew = some eof }

abbrev a_answers : List Answer
a_answers =
    moves ∷ moves ∷ moves ∷ moves ∷ moves ∷ moves ∷ ends ∷ ends ∷ ends ∷ ends ∷ ends ∷ ends ∷ ends
    ∷ ends ∷ ends ∷ []

abbrev b_answers : List Answer
b_answers = ends ∷ ends ∷ ends ∷ ends ∷ ends ∷ ends ∷ ends ∷ ends ∷ ends ∷ ends ∷ ends ∷ ends ∷ []

abbrev a_ended : System
unfolding run sys_step step step_pc after_read after_write after_nr step_cleanup open_tunnel
a_ended = run a_end a_answers (open_tunnel timeout)

Reach-run :
    (e : End) (is : List Answer) {s : System}
    → Reach timeout s
    → IsLawfulRun e is s
    → Reach timeout (run e is s)
unfolding run
Reach-run e [] r l = r
Reach-run e (i ∷ is) r (l, ls) = Reach-run e is (next e i r l) ls

a_lawful : IsLawfulRun a_end a_answers (open_tunnel timeout)
unfolding run sys_step step step_pc after_read after_write after_nr step_cleanup open_tunnel report
a_lawful = (
  tt,
  (
    tt,
    (
      (omega arith, λ h. absurd (cc)),
      (
        tt,
        (
          tt,
          (
            (omega arith, λ h. absurd (cc)),
            (tt, (tt, ((omega arith, λ h. absurd (cc)), (tt, (tt, (tt, (tt, (tt, (tt, tt))))))))),
          ),
        ),
      ),
    ),
  ),
)

a_ended-Reach : Reach timeout a_ended
unfolding a_ended
a_ended-Reach = Reach-run a_end a_answers start a_lawful

b_lawful : IsLawfulRun b_end b_answers a_ended
unfolding a_ended
b_lawful = (
  tt,
  (
    tt,
    ((omega arith, λ h. (refl, λ e. cc)), (tt, (tt, (tt, (tt, (tt, (tt, (tt, (tt, (tt, tt)))))))))),
  ),
)

test_a_returned : (worker a_end a_ended).pc ≡ cleanup returned none
unfolding a_ended
test_a_returned = refl

test_sent : (worker a_end a_ended).sent ≡ 1 ∷ 2 ∷ []
unfolding a_ended
test_sent = refl

delivered_prefix_example :
    ((worker a_end a_ended).written ≡ length (worker a_end a_ended).sent)
    × ((rest : Bytes) × ((worker a_end a_ended).received ≡ (worker a_end a_ended).sent ++ rest))
delivered_prefix_example = delivered_prefix a_end a_ended-Reach

delivered_all_example : (worker a_end a_ended).received ≡ (worker a_end a_ended).sent
delivered_all_example = delivered_all a_end returned a_ended-Reach test_a_returned

returned_closes_example :
    (a_ended.shared.a.closed ≡ true)
    × (a_ended.shared.b.closed ≡ true)
    × (a_ended.shared.mu_timeout ≡ pos 0)
returned_closes_example = returned_closes a_end a_ended-Reach test_a_returned

test_other_returns :
    (e : Option IoError) × ((worker b_end (run b_end b_answers a_ended)).pc ≡ cleanup returned e)
test_other_returns =
    other_returns a_end b_answers a_ended-Reach test_a_returned b_lawful (omega arith)

abbrev breaks : Answer
breaks = record { now = 9; read = []; er = some (other 5); nw = 0; ew = some (other 6) }

-- The first goroutine is about to report the error of its read.
abbrev a_reporting : System
unfolding run sys_step step step_pc after_read after_nr open_tunnel
a_reporting = run a_end (breaks ∷ breaks ∷ breaks ∷ []) (open_tunnel timeout)

test_a_reporting :
    ((worker a_end a_reporting).pc ≡ cleanup reporting (some (other 5)))
    × (a_reporting.shared.fe.reported ≡ false)
unfolding a_reporting
test_a_reporting = (refl, refl)

-- Then the other one reads an end of file.
abbrev after_report : System
after_report =
    sys_step b_end ends
      (sys_step b_end ends (sys_step b_end ends (sys_step a_end breaks a_reporting)))

result-first_report_example : result after_report ≡ some (other 5)
result-first_report_example =
    result-first_report a_reporting after_report (some (other 5)) a_end breaks test_a_reporting.0
      test_a_reporting.1 (later b_end ends (later b_end ends (later b_end ends here)))

a_reporting-Reach : Reach timeout a_reporting
unfolding a_reporting
a_reporting-Reach =
    Reach-run a_end (breaks ∷ breaks ∷ breaks ∷ []) start
      (tt, (tt, ((omega arith, λ h. absurd (cc)), tt)))

-- The other goroutine comes to its read while the first one closes the connections.
abbrev mixed : List Turn
mixed =
    (a_end, ends)
    ∷ (b_end, ends)
    ∷ (a_end, ends)
    ∷ (a_end, ends)
    ∷ (b_end, ends)
    ∷ (a_end, ends)
    ∷ (a_end, ends)
    ∷ (a_end, ends)
    ∷ []

abbrev rest : List Turn
rest =
    (b_end, ends)
    ∷ (b_end, ends)
    ∷ (b_end, ends)
    ∷ (b_end, ends)
    ∷ (b_end, ends)
    ∷ (b_end, ends)
    ∷ (b_end, ends)
    ∷ (b_end, ends)
    ∷ (b_end, ends)
    ∷ (b_end, ends)
    ∷ (b_end, ends)
    ∷ (b_end, ends)
    ∷ []

mixed-AllLawful : AllLawful mixed a_reporting
unfolding a_reporting
mixed-AllLawful = (tt, (tt, (tt, (tt, (tt, (tt, (tt, (tt, tt))))))))

rest-AllLawful : AllLawful rest (interleave mixed a_reporting)
unfolding a_reporting interleave
rest-AllLawful = (
  (omega arith, λ h. (refl, λ e. cc)),
  (tt, (tt, (tt, (tt, (tt, (tt, (tt, (tt, (tt, (tt, (tt, tt))))))))))),
)

a_reporting-HasLeft : HasLeft (worker a_end a_reporting).pc
unfolding a_reporting
a_reporting-HasLeft = tt

both_return_example :
    (x : Option IoError) × (y : Option IoError) × ((worker a_end
        (interleave rest (interleave mixed a_reporting))).pc
      ≡ cleanup returned x)
    × ((worker b_end (interleave rest (interleave mixed a_reporting))).pc ≡ cleanup returned y)
both_return_example =
    both_return a_end mixed rest a_reporting a_reporting-Reach a_reporting-HasLeft mixed-AllLawful
      rest-AllLawful (omega arith) (omega arith)

-- The client's tunnel and the server's, after the same run.
test_link : (worker a_end a_ended).sent ≡ (worker a_end a_ended).received ++ []
unfolding a_ended
test_link = refl

test_end_to_end_prefix :
    (left_over : Bytes) × ((worker a_end a_ended).received
      ≡ (worker a_end a_ended).sent ++ left_over)
test_end_to_end_prefix = end_to_end_prefix a_end a_end [] a_ended-Reach a_ended-Reach test_link
