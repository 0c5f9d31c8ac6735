-- ===== src/Tunnel/Deadlines.antt =====
-- The idle timeout of a tunnel: the deadlines of the calls that `copyBuffer` waits in
-- (internal/core/common.go).
use mos_tls_tunnel.Prelude.{
  ℕ, ◌≡◌, inl, inr, refl, ◌∙◌, true, false, Option, none, some, [], ◌∷◌, arith, ℤ, Bytes,
  Bool-cases, length, ◌==◌,
}
use mos_tls_tunnel.Tunnel.FirstErr.{IoError, eof, short_write, other, report}
use mos_tls_tunnel.Tunnel.Worker.{
  End, a_end, b_end, opposite, Deadline, after, Shared, conn, Stage, reporting, Pc, top, arm_read,
  reading, got, arm_write, writing, cleanup, Worker, Answer, step, step_pc, step_cleanup, after_nr,
  after_read, after_write,
}
use mos_tls_tunnel.Tunnel.System.{System, worker, sys_step, open_tunnel, Reach, start, next}
use mos_tls_tunnel.Tunnel.Invariant.{Cleaned, step_pc-Later}
use mos_tls_tunnel.Tunnel.Safety.{Reach-WorkerInv}

-- The deadline is the idle timeout behind some reading of the clock.
abbrev pub IsIdle : ℤ → Deadline → Type 0
IsIdle timeout d = (now : ℕ) × (d ≡ after now timeout)

-- The deadline of a call that a goroutine is about to make or is in.
abbrev pub IsIdleAt : ℤ → End → Pc → Shared → Type 0
IsIdleAt timeout e (arm_read t) s = IsIdle timeout t
IsIdleAt timeout e reading s = IsIdle timeout (conn e s).read_deadline
IsIdleAt timeout e (arm_write t buf er) s = IsIdle timeout t
IsIdleAt timeout e (writing buf er) s = IsIdle timeout (conn (opposite e) s).write_deadline
IsIdleAt timeout e _ s = Unit {0}

-- Before the first report nothing has ended the idle timeout.
pub record Idle (timeout : ℤ) (s : System) : Type 0 where
  stored : s.shared.mu_timeout ≡ timeout
  at_a : IsIdleAt timeout a_end s.from_a.pc s.shared
  at_b : IsIdleAt timeout b_end s.from_b.pc s.shared

after_read-IsIdleAt :
    (timeout : ℤ) (e : End) (er : Option IoError) (s : Shared)
    → IsIdleAt timeout e (after_read er) s
unfolding after_read
after_read-IsIdleAt timeout e none s = tt
after_read-IsIdleAt timeout e (some eof) s = tt
after_read-IsIdleAt timeout e (some short_write) s = tt
after_read-IsIdleAt timeout e (some (other n)) s = tt

after_nr-IsIdleAt :
    (timeout : ℤ) (e : End) (buf : Bytes) (er : Option IoError) (s : Shared)
    → IsIdleAt timeout e (after_nr buf er) s
unfolding after_nr
after_nr-IsIdleAt timeout e [] er s = after_read-IsIdleAt timeout e er s
after_nr-IsIdleAt timeout e (x ∷ buf) er s = tt

after_write-IsIdleAt :
    (timeout : ℤ) (e : End) (buf : Bytes) (er : Option IoError) (nw : ℕ) (ew : Option IoError)
    (s : Shared)
    → IsIdleAt timeout e (after_write buf er nw ew) s
unfolding after_write
after_write-IsIdleAt timeout e buf er nw (some x) s = tt
after_write-IsIdleAt timeout e buf er nw none s = elim (Bool-cases (length buf == nw)) [
  | inl all ↦ rw (all, after_write) (after_read-IsIdleAt timeout e er s)
  | inr short ↦ rw (short, after_write) tt
]

-- Behind a report the goroutine that steps does nothing that these lemmas are about.
step_cleanup-reported :
    (e : End) (st : Stage) (err : Option IoError) (w : Worker) (s : Shared)
    → Cleaned e (cleanup st err) s
    → (step_cleanup e st err w s).1.fe.reported ≡ true
unfolding step_cleanup report
step_cleanup-reported a_end reporting err w s c = ground arith
step_cleanup-reported a_end _ err w s c = ground arith
step_cleanup-reported b_end reporting err w s c = ground arith
step_cleanup-reported b_end _ err w s c = ground arith

step_pc-IsIdleAt :
    (timeout : ℤ) (e : End) (i : Answer) (p : Pc) (w : Worker) (s : Shared)
    → Cleaned e p s
    → (step_pc e i p w s).1.fe.reported ≡ false
    → s.mu_timeout ≡ timeout
    → IsIdleAt timeout e p s
    → ((step_pc e i p w s).1.mu_timeout ≡ timeout)
      × IsIdleAt timeout e (step_pc e i p w s).0.pc (step_pc e i p w s).1
unfolding step_pc
step_pc-IsIdleAt timeout e i (cleanup st err) w s c h m d =
    absurd (cc (step_cleanup-reported e st err w s c))
step_pc-IsIdleAt timeout e i top w s c h m d = (m, (i.now, rw m refl))
step_pc-IsIdleAt timeout a_end i (arm_read t) w s c h m d = (m, d)
step_pc-IsIdleAt timeout b_end i (arm_read t) w s c h m d = (m, d)
step_pc-IsIdleAt timeout e i reading w s c h m d = (m, after_nr-IsIdleAt timeout e i.read i.er s)
step_pc-IsIdleAt timeout e i (got buf er) w s c h m d = (m, (i.now, rw m refl))
step_pc-IsIdleAt timeout a_end i (arm_write t buf er) w s c h m d = (m, d)
step_pc-IsIdleAt timeout b_end i (arm_write t buf er) w s c h m d = (m, d)
step_pc-IsIdleAt timeout e i (writing buf er) w s c h m d =
    (m, after_write-IsIdleAt timeout e buf er i.nw i.ew s)

IsIdleAt-eq :
    (timeout : ℤ) (e : End) (q : Pc) (s s' : Shared)
    → (conn e s').read_deadline ≡ (conn e s).read_deadline
    → (conn (opposite e) s').write_deadline ≡ (conn (opposite e) s).write_deadline
    → IsIdleAt timeout e q s
    → IsIdleAt timeout e q s'
IsIdleAt-eq timeout e reading s s' r w d = (d.0, r ∙ d.1)
IsIdleAt-eq timeout e (writing buf er) s s' r w d = (d.0, w ∙ d.1)
IsIdleAt-eq timeout e top s s' r w d = tt
IsIdleAt-eq timeout e (arm_read t) s s' r w d = d
IsIdleAt-eq timeout e (got buf er) s s' r w d = tt
IsIdleAt-eq timeout e (arm_write t buf er) s s' r w d = d
IsIdleAt-eq timeout e (cleanup st err) s s' r w d = tt

-- A goroutine in its loop sets no deadline that the other one waits with.
step_pc-others :
    (timeout : ℤ) (e : End) (i : Answer) (p : Pc) (w : Worker) (s : Shared) (q : Pc)
    → Cleaned e p s
    → (step_pc e i p w s).1.fe.reported ≡ false
    → IsIdleAt timeout (opposite e) q s
    → IsIdleAt timeout (opposite e) q (step_pc e i p w s).1
unfolding step_pc
step_pc-others timeout e i (cleanup st err) w s q c h d =
    absurd (cc (step_cleanup-reported e st err w s c))
step_pc-others timeout e i top w s q c h d = d
step_pc-others timeout e i reading w s q c h d = d
step_pc-others timeout e i (got buf er) w s q c h d = d
step_pc-others timeout e i (writing buf er) w s q c h d = d
step_pc-others timeout a_end i (arm_read t) w s q c h d =
    IsIdleAt-eq timeout b_end q s _ refl refl d
step_pc-others timeout b_end i (arm_read t) w s q c h d =
    IsIdleAt-eq timeout a_end q s _ refl refl d
step_pc-others timeout a_end i (arm_write t buf er) w s q c h d =
    IsIdleAt-eq timeout b_end q s _ refl refl d
step_pc-others timeout b_end i (arm_write t buf er) w s q c h d =
    IsIdleAt-eq timeout a_end q s _ refl refl d

not_reported_before :
    {timeout : ℤ} {s : System} (e : End) (i : Answer)
    → Reach timeout s
    → (step_pc e i (worker e s).pc (worker e s) s.shared).1.fe.reported ≡ false
    → s.shared.fe.reported ≡ false
not_reported_before {timeout} {s} e i r h = elim (Bool-cases s.shared.fe.reported) [
  | inl x ↦ absurd (
      cc (
        (step_pc-Later e i (worker e s).pc (worker e s) s.shared
            (Reach-WorkerInv e r).armed).reported
          x))
  | inr x ↦ x
]

pub Reach-Idle :
    {timeout : ℤ} {s : System} → Reach timeout s → s.shared.fe.reported ≡ false → Idle timeout s
unfolding open_tunnel sys_step step
Reach-Idle start h = record { stored = refl; at_a = tt; at_b = tt }
Reach-Idle {timeout} (next {s} a_end i r l) h =
    let v = Reach-Idle r (not_reported_before a_end i r h) in
    let c = (Reach-WorkerInv a_end r).cleaned in
    let own = step_pc-IsIdleAt timeout a_end i s.from_a.pc s.from_a s.shared c h v.stored v.at_a in
    record {
      stored = own.0;
      at_a = own.1;
      at_b = step_pc-others timeout a_end i s.from_a.pc s.from_a s.shared s.from_b.pc c h v.at_b;
    }
Reach-Idle {timeout} (next {s} b_end i r l) h =
    let v = Reach-Idle r (not_reported_before b_end i r h) in
    let c = (Reach-WorkerInv b_end r).cleaned in
    let own = step_pc-IsIdleAt timeout b_end i s.from_b.pc s.from_b s.shared c h v.stored v.at_b in
    record {
      stored = own.0;
      at_a = step_pc-others timeout b_end i s.from_b.pc s.from_b s.shared s.from_a.pc c h v.at_a;
      at_b = own.1;
    }

pub Idle-at :
    {timeout : ℤ} {s : System} (e : End)
    → Idle timeout s
    → IsIdleAt timeout e (worker e s).pc s.shared
Idle-at a_end v = v.at_a
Idle-at b_end v = v.at_b
