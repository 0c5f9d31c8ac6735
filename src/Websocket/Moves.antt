-- ===== src/Websocket/Moves.antt =====
-- What one step of a tunnel does to the bytes of its goroutines (internal/core/common.go).
use mos_tls_tunnel.Prelude.{
  ℕ, ◌≡◌, ◌≢◌, refl, sym, Option, none, some, [], ◌++◌, Bytes, take, append-nil,
}
use mos_tls_tunnel.Tunnel.FirstErr.{IoError, other}
use mos_tls_tunnel.Tunnel.Worker.{
  End, a_end, b_end, opposite, Shared, Pc, top, arm_read, reading, got, arm_write, writing, cleanup,
  Worker, Answer, step, step_pc, step_cleanup, Stage, reporting, after_read, after_write, after_nr,
}
use mos_tls_tunnel.Tunnel.System.{System, worker, sys_step}
use mos_tls_tunnel.Websocket.Route.{IsReading, IsWriting}

-- What a step of a goroutine adds to the bytes that it has read and written.
abbrev pub gained : Pc → Answer → Bytes
gained reading i = i.read
gained _ i = []

abbrev pub passed_on : Pc → Answer → Bytes
passed_on (writing buf er) i = take i.nw buf
passed_on _ i = []

cleanup_keeps :
    (e : End) (st : Stage) (err : Option IoError) (w : Worker) (s : Shared)
    → ((step_cleanup e st err w s).0.received ≡ w.received ++ [])
      × ((step_cleanup e st err w s).0.sent ≡ w.sent ++ [])
unfolding step_cleanup
cleanup_keeps e reporting err w s = (sym (append-nil w.received), sym (append-nil w.sent))
cleanup_keeps e _ err w s = (sym (append-nil w.received), sym (append-nil w.sent))

step_pc_moves :
    (e : End) (i : Answer) (p : Pc) (w : Worker) (s : Shared)
    → ((step_pc e i p w s).0.received ≡ w.received ++ gained p i)
      × ((step_pc e i p w s).0.sent ≡ w.sent ++ passed_on p i)
unfolding step_pc
step_pc_moves e i (cleanup st err) w s = cleanup_keeps e st err w s
step_pc_moves e i reading w s = (refl, sym (append-nil w.sent))
step_pc_moves e i (writing buf er) w s = (sym (append-nil w.received), refl)
step_pc_moves e i top w s = (sym (append-nil w.received), sym (append-nil w.sent))
step_pc_moves e i _ w s = (sym (append-nil w.received), sym (append-nil w.sent))

pub sys_step_moves :
    (e : End) (i : Answer) (s : System)
    → ((worker e (sys_step e i s)).received ≡ (worker e s).received ++ gained (worker e s).pc i)
      × ((worker e (sys_step e i s)).sent ≡ (worker e s).sent ++ passed_on (worker e s).pc i)
unfolding sys_step step
sys_step_moves a_end i s = step_pc_moves a_end i s.from_a.pc s.from_a s.shared
sys_step_moves b_end i s = step_pc_moves b_end i s.from_b.pc s.from_b s.shared

pub worker_other :
    (e : End) (i : Answer) (s : System) → worker e (sys_step (opposite e) i s) ≡ worker e s
unfolding sys_step
worker_other a_end i s = refl
worker_other b_end i s = refl

-- A goroutine whose copying has ended with an error.
abbrev pub HasFailed : Pc → Type 0
HasFailed (cleanup st (some e)) = Unit {0}
HasFailed _ = ⊥

step_cleanup-HasFailed :
    (e : End) (st : Stage) (err : IoError) (w : Worker) (s : Shared)
    → HasFailed (step_cleanup e st (some err) w s).0.pc
unfolding step_cleanup
step_cleanup-HasFailed e reporting err w s = tt
step_cleanup-HasFailed e _ err w s = tt

step_pc-HasFailed :
    (e : End) (i : Answer) (p : Pc) (w : Worker) (s : Shared)
    → HasFailed p
    → HasFailed (step_pc e i p w s).0.pc
unfolding step_pc
step_pc-HasFailed e i (cleanup st (some err)) w s h = step_cleanup-HasFailed e st err w s
step_pc-HasFailed e i (cleanup st none) w s h = absurd h
step_pc-HasFailed e i top w s h = absurd h
step_pc-HasFailed e i (arm_read t) w s h = absurd h
step_pc-HasFailed e i reading w s h = absurd h
step_pc-HasFailed e i (got buf er) w s h = absurd h
step_pc-HasFailed e i (arm_write t buf er) w s h = absurd h
step_pc-HasFailed e i (writing buf er) w s h = absurd h

sys_step-HasFailed :
    (e : End) (i : Answer) (s : System)
    → HasFailed (worker e s).pc
    → HasFailed (worker e (sys_step e i s)).pc
unfolding sys_step step
sys_step-HasFailed a_end i s h = step_pc-HasFailed a_end i s.from_a.pc s.from_a s.shared h
sys_step-HasFailed b_end i s h = step_pc-HasFailed b_end i s.from_b.pc s.from_b s.shared h

-- A goroutine that has not failed after a step had not failed before it.
pub was_well :
    (e : End) (i : Answer) (s : System)
    → (HasFailed (worker e (sys_step e i s)).pc → ⊥)
    → HasFailed (worker e s).pc
    → ⊥
was_well e i s h l = h (sys_step-HasFailed e i s l)

pub no_gain : (p : Pc) (i : Answer) → (IsReading p → ⊥) → gained p i ≡ []
no_gain reading i h = absurd (h tt)
no_gain top i h = refl
no_gain _ i h = refl

pub no_pass : (p : Pc) (i : Answer) → (IsWriting p → ⊥) → passed_on p i ≡ []
no_pass (writing buf er) i h = absurd (h tt)
no_pass top i h = refl
no_pass _ i h = refl

after_write-HasFailed :
    (buf : Bytes) (er : Option IoError) (nw : ℕ) (ew : Option IoError)
    → ew ≢ none
    → HasFailed (after_write buf er nw ew)
unfolding after_write
after_write-HasFailed buf er nw none h = absurd (h refl)
after_write-HasFailed buf er nw (some e) h = tt

-- A failed call ends the loop with its error.
pub write_fails :
    (e : End) (i : Answer) (s : System) (buf : Bytes) (er : Option IoError)
    → (worker e s).pc ≡ writing buf er
    → i.ew ≢ none
    → HasFailed (worker e (sys_step e i s)).pc
unfolding sys_step step step_pc
write_fails a_end i s buf er p h = rw (p, step_pc) (after_write-HasFailed buf er i.nw i.ew h)
write_fails b_end i s buf er p h = rw (p, step_pc) (after_write-HasFailed buf er i.nw i.ew h)

after_nr_fails :
    (buf : Bytes) (er : Option IoError) (n : ℕ)
    → buf ≡ []
    → er ≡ some (other n)
    → HasFailed (after_nr buf er)
unfolding after_nr after_read
after_nr_fails buf er n h k = rw (h, k, after_nr, after_read) tt

pub read_fails :
    (e : End) (i : Answer) (s : System) (n : ℕ)
    → (worker e s).pc ≡ reading
    → i.read ≡ []
    → i.er ≡ some (other n)
    → HasFailed (worker e (sys_step e i s)).pc
unfolding sys_step step step_pc
read_fails a_end i s n p h k = rw (p, step_pc) (after_nr_fails i.read i.er n h k)
read_fails b_end i s n p h k = rw (p, step_pc) (after_nr_fails i.read i.er n h k)
