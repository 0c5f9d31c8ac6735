-- ===== src/Tests/Buffering.antt =====
-- Two tunnels that use one buffer after the other.
use mos_tls_tunnel.Prelude.{ℕ, ◌+◌, ◌≡◌, refl, Option, none, some, List, [], ◌∷◌, arith, ℤ, pos}
use mos_tls_tunnel.Tunnel.FirstErr.{eof, report}
use mos_tls_tunnel.Tunnel.Worker.{a_end, b_end, Answer, step_cleanup}
use mos_tls_tunnel.Tunnel.System.{Reach}
use mos_tls_tunnel.Buffers.{SyncPool, IsSyncPool, Gets, one_if, zeros}
use mos_tls_tunnel.Buffers.Thread.{running, entering, finished}
use mos_tls_tunnel.Buffers.Process.{
  Gid, gid, Process, start_process, process_step, IsLawfulStep, ProcessReach, started, stepped,
  view,
}
use mos_tls_tunnel.Buffers.Exclusive.{Owned, Reach-IsOwned}
use mos_tls_tunnel.Buffers.Isolation.{IsFilled, Reach-IsFilled}
use mos_tls_tunnel.Buffers.Refinement.{view-Reach}

-- A pool that keeps everything and gives the last buffer first.
abbrev pop : List ℕ → List ℕ × Option ℕ
pop [] = ([], none)
pop (b ∷ bs) = (bs, some b)

abbrev stack : SyncPool
stack = record { State = List ℕ; empty = []; get = pop; put = λ b bs. b ∷ bs }

abbrev occurrences : List ℕ → ℕ → ℕ
occurrences [] a = 0
occurrences (b ∷ bs) a = one_if b a + occurrences bs a

stack-get_lem : (s : List ℕ) → Gets occurrences s (pop s)
stack-get_lem [] = λ a. omega arith
stack-get_lem (b ∷ bs) = λ a. omega arith

abbrev stack-IsSyncPool : IsSyncPool stack
stack-IsSyncPool = record {
  count = occurrences;
  count-empty = λ a. refl;
  get_lem = stack-get_lem;
  put_lem = λ b s a. omega arith;
}

abbrev Turn : Type 0
Turn = Gid × Answer

run_process : List Turn → Process stack → Process stack
run_process [] p = p
run_process (t ∷ ts) p = run_process ts (process_step stack t.0 t.1 p)

abbrev AllLawful : List Turn → Process stack → Type 0
AllLawful [] p = Unit {0}
AllLawful (t ∷ ts) p = IsLawfulStep stack t.0 t.1 p × AllLawful ts (process_step stack t.0 t.1 p)

abbrev timeouts : ℕ → ℤ
timeouts t = pos 30

ProcessReach-run :
    (ts : List Turn) {p : Process stack}
    → ProcessReach stack timeouts p
    → AllLawful ts p
    → ProcessReach stack timeouts (run_process ts p)
unfolding run_process
ProcessReach-run [] r l = r
ProcessReach-run (t ∷ ts) r (l, ls) = ProcessReach-run ts (stepped t.0 t.1 r l) ls

abbrev moves : Answer
moves = record { now = 7; read = 1 ∷ 2 ∷ []; er = some eof; nw = 2; ew = none }

abbrev first : Gid
first = gid a_end 0

abbrev second : Gid
second = gid b_end 1

-- The first goroutine copies two bytes and returns; then the second one starts.
abbrev copying : List Turn
copying =
    (first, moves)
    ∷ (first, moves)
    ∷ (first, moves)
    ∷ (first, moves)
    ∷ (first, moves)
    ∷ (first, moves)
    ∷ (first, moves)
    ∷ (first, moves)
    ∷ []

abbrev copied : Process stack
unfolding run_process process_step start_process
copied = run_process copying (start_process stack timeouts)

copying_lawful : AllLawful copying (start_process stack timeouts)
unfolding process_step start_process zeros
copying_lawful = (
  tt,
  (
    tt,
    (
      tt,
      (tt, ((omega arith, λ h. absurd (cc)), (tt, (tt, ((omega arith, λ h. absurd (cc)), tt))))),
    ),
  ),
)

copied-Reach : ProcessReach stack timeouts copied
unfolding copied
copied-Reach = ProcessReach-run copying started copying_lawful

abbrev returning : List Turn
returning =
    (first, moves)
    ∷ (first, moves)
    ∷ (first, moves)
    ∷ (first, moves)
    ∷ (first, moves)
    ∷ (first, moves)
    ∷ (first, moves)
    ∷ (second, moves)
    ∷ []

abbrev reused : Process stack
unfolding run_process process_step step_cleanup report
reused = run_process returning copied

returning_lawful : AllLawful returning copied
unfolding copied process_step zeros
returning_lawful = (tt, (tt, (tt, (tt, (tt, (tt, (tt, (tt, tt))))))))

reused-Reach : ProcessReach stack timeouts reused
unfolding reused
reused-Reach = ProcessReach-run returning copied-Reach returning_lawful

-- The second goroutine has the buffer that the first one gave back.
test_reused : ((reused.threads second).place ≡ running 0 entering) × (reused.heap.next ≡ 1)
unfolding reused copied zeros
test_reused = (refl, refl)

test_copied :
    ((reused.threads first).sent ≡ 1 ∷ 2 ∷ []) × ((reused.threads first).place ≡ finished none)
unfolding reused copied zeros
test_copied = (refl, refl)

view-Reach_example : Reach (pos 30) (view stack reused 0)
view-Reach_example = view-Reach stack stack-IsSyncPool reused-Reach 0

Reach-IsOwned_example : Owned stack stack-IsSyncPool reused
Reach-IsOwned_example = Reach-IsOwned stack stack-IsSyncPool reused-Reach

Reach-IsFilled_example : IsFilled stack stack-IsSyncPool reused
Reach-IsFilled_example = Reach-IsFilled stack stack-IsSyncPool reused-Reach
