-- ===== src/Tunnel/Termination.antt =====
-- A tunnel ends: once the one goroutine has returned, the other returns within twelve steps.
use mos_tls_tunnel.Prelude.{
  ℕ, ◌-◌, ◌≤◌, ◌≡◌, ◌≢◌, refl, true, Option, none, some, List, [], ◌∷◌, arith, Bytes, ℤ, length,
}
use mos_tls_tunnel.Tunnel.FirstErr.{IoError, eof, short_write, other}
use mos_tls_tunnel.Tunnel.Worker.{
  End, a_end, b_end, opposite, Shared, conn, Stage, reporting, storing, expiring_src, expiring_dst,
  closing_src, closing_dst, returned, Pc, top, arm_read, reading, got, arm_write, writing, cleanup,
  Worker, Answer, after_read, after_write, after_nr, step_pc,
}
use mos_tls_tunnel.Tunnel.System.{System, worker, sys_step, IsLawfulAt, IsLawful, Reach, next}
use mos_tls_tunnel.Tunnel.Safety.{returned_closes}

-- The steps that are left on closed connections.
abbrev pub remaining_stage : Stage → ℕ
remaining_stage reporting = 6
remaining_stage storing = 5
remaining_stage expiring_src = 4
remaining_stage expiring_dst = 3
remaining_stage closing_src = 2
remaining_stage closing_dst = 1
remaining_stage returned = 0

abbrev pub remaining : Pc → ℕ
remaining top = 12
remaining (arm_read d) = 11
remaining reading = 10
remaining (got buf er) = 9
remaining (arm_write d buf er) = 8
remaining (writing buf er) = 7
remaining (cleanup st err) = remaining_stage st

remaining-after_read : (er : Option IoError) → er ≢ none → remaining (after_read er) ≡ 6
unfolding after_read
remaining-after_read none h = absurd (h refl)
remaining-after_read (some eof) h = refl
remaining-after_read (some short_write) h = refl
remaining-after_read (some (other n)) h = refl

remaining-after_write :
    (buf : Bytes) (er : Option IoError) (nw : ℕ) (ew : Option IoError)
    → ew ≢ none
    → remaining (after_write buf er nw ew) ≡ 6
unfolding after_write
remaining-after_write buf er nw none h = absurd (h refl)
remaining-after_write buf er nw (some e) h = refl

remaining-after_nr :
    (buf : Bytes) (er : Option IoError) → buf ≡ [] → er ≢ none → remaining (after_nr buf er) ≡ 6
unfolding after_nr
remaining-after_nr [] er h k = remaining-after_read er k
remaining-after_nr (x ∷ buf) er h k = cc

pub remaining-step_pc :
    (e : End) (i : Answer) (p : Pc) (w : Worker) (s : Shared)
    → (conn e s).closed ≡ true
    → (conn (opposite e) s).closed ≡ true
    → IsLawfulAt e i s p
    → remaining (step_pc e i p w s).0.pc ≤ remaining p - 1
unfolding step_pc
remaining-step_pc e i top w s c d l = omega arith
remaining-step_pc e i (arm_read t) w s c d l = omega arith
remaining-step_pc e i reading w s c d l =
    omega (arith, remaining-after_nr i.read i.er (l.1 c).0 (l.1 c).1)
remaining-step_pc e i (got buf er) w s c d l = omega arith
remaining-step_pc e i (arm_write t buf er) w s c d l = omega arith
remaining-step_pc e i (writing buf er) w s c d l =
    omega (arith, remaining-after_write buf er i.nw i.ew (l.1 d).1)
remaining-step_pc e i (cleanup reporting err) w s c d l = omega arith
remaining-step_pc e i (cleanup storing err) w s c d l = omega arith
remaining-step_pc e i (cleanup expiring_src err) w s c d l = omega arith
remaining-step_pc e i (cleanup expiring_dst err) w s c d l = omega arith
remaining-step_pc e i (cleanup closing_src err) w s c d l = omega arith
remaining-step_pc e i (cleanup closing_dst err) w s c d l = omega arith
remaining-step_pc e i (cleanup returned err) w s c d l = omega arith

pub remaining-zero :
    (p : Pc) → remaining p ≤ 0 → (err : Option IoError) × (p ≡ cleanup returned err)
remaining-zero (cleanup returned err) h = (err, refl)
remaining-zero (cleanup reporting err) h = absurd (omega arith)
remaining-zero (cleanup storing err) h = absurd (omega arith)
remaining-zero (cleanup expiring_src err) h = absurd (omega arith)
remaining-zero (cleanup expiring_dst err) h = absurd (omega arith)
remaining-zero (cleanup closing_src err) h = absurd (omega arith)
remaining-zero (cleanup closing_dst err) h = absurd (omega arith)
remaining-zero top h = absurd (omega arith)
remaining-zero (arm_read d) h = absurd (omega arith)
remaining-zero reading h = absurd (omega arith)
remaining-zero (got buf er) h = absurd (omega arith)
remaining-zero (arm_write d buf er) h = absurd (omega arith)
remaining-zero (writing buf er) h = absurd (omega arith)

pub remaining-le : (p : Pc) → remaining p ≤ 12
remaining-le (cleanup reporting err) = omega arith
remaining-le (cleanup storing err) = omega arith
remaining-le (cleanup expiring_src err) = omega arith
remaining-le (cleanup expiring_dst err) = omega arith
remaining-le (cleanup closing_src err) = omega arith
remaining-le (cleanup closing_dst err) = omega arith
remaining-le (cleanup returned err) = omega arith
remaining-le top = omega arith
remaining-le (arm_read d) = omega arith
remaining-le reading = omega arith
remaining-le (got buf er) = omega arith
remaining-le (arm_write d buf er) = omega arith
remaining-le (writing buf er) = omega arith

-- Steps of one goroutine with these answers, each of which is lawful where it is given.
unfoldable pub run : End → List Answer → System → System
run e [] s = s
run e (i ∷ rest) s = run e rest (sys_step e i s)

abbrev pub IsLawfulRun : End → List Answer → System → Type 0
IsLawfulRun e [] s = Unit {0}
IsLawfulRun e (i ∷ rest) s = IsLawful e i s × IsLawfulRun e rest (sys_step e i s)

remaining-run :
    (e : End) (is : List Answer) {timeout : ℤ} {s : System} {err : Option IoError}
    → Reach timeout s
    → (worker e s).pc ≡ cleanup returned err
    → IsLawfulRun (opposite e) is s
    → remaining (worker (opposite e) (run (opposite e) is s)).pc
      ≤ remaining (worker (opposite e) s).pc - length is
unfolding run sys_step
remaining-run e [] r h l = omega arith
remaining-run a_end (i ∷ is) {s = s} r h (l, ls) =
    let closed = returned_closes a_end r h in
    omega (
      arith,
      remaining-run a_end is (next b_end i r l) h ls,
      remaining-step_pc b_end i s.from_b.pc s.from_b s.shared closed.1 closed.0 l,
    )
remaining-run b_end (i ∷ is) {s = s} r h (l, ls) =
    let closed = returned_closes b_end r h in
    omega (
      arith,
      remaining-run b_end is (next a_end i r l) h ls,
      remaining-step_pc a_end i s.from_a.pc s.from_a s.shared closed.0 closed.1 l,
    )

-- When one goroutine has returned, the other returns within twelve more steps of its own,
-- whatever the connections answer within what `net.Conn` documents.
pub other_returns :
    {timeout : ℤ} {s : System} {err : Option IoError} (e : End) (is : List Answer)
    → Reach timeout s
    → (worker e s).pc ≡ cleanup returned err
    → IsLawfulRun (opposite e) is s
    → 12 ≤ length is
    → (err' : Option IoError) × ((worker (opposite e) (run (opposite e) is s)).pc
        ≡ cleanup returned err')
other_returns {s} e is r h l n =
    remaining-zero (worker (opposite e) (run (opposite e) is s)).pc
      (omega (arith, remaining-run e is r h l, remaining-le (worker (opposite e) s).pc))
