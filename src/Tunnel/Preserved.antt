-- ===== src/Tunnel/Preserved.antt =====
-- Every step of a tunnel keeps its invariant.
use mos_tls_tunnel.Prelude.{
  ℕ, ◌+◌, ◌≡◌, ◌⊎◌, inl, inr, refl, true, Option, none, some, [], ◌∷◌, arith, Bytes, ℤ, length,
  take, length-append, length-take_le, ◌==◌, Bool-cases,
}
use mos_tls_tunnel.Tunnel.FirstErr.{IoError, eof, short_write, other}
use mos_tls_tunnel.Tunnel.Worker.{
  End, a_end, b_end, Shared, Stage, reporting, storing, expiring_src, expiring_dst, closing_src,
  closing_dst, returned, Pc, top, arm_read, reading, got, arm_write, writing, cleanup, Worker,
  Answer, after_read, after_write, after_nr, step_cleanup, step_pc,
}
use mos_tls_tunnel.Tunnel.System.{
  System, open_tunnel, sys_step, IsLawfulAt, IsLawful, Reach, start, next,
}
use mos_tls_tunnel.Tunnel.Invariant.{Accounts, IsArmed, WorkerInv, step_pc-Later, WorkerInv-Later}
use mos_tls_tunnel.Tunnel.Delivery.{after_write-Accounts, after_nr-Accounts}

-- A goroutine at the head of its loop, with data in hand, or done with copying.
abbrev IsFresh : Pc → Type 0
IsFresh top = Unit {0}
IsFresh (got buf er) = Unit {0}
IsFresh (cleanup reporting err) = Unit {0}
IsFresh _ = ⊥

after_read-IsFresh : (er : Option IoError) → IsFresh (after_read er)
unfolding after_read
after_read-IsFresh none = tt
after_read-IsFresh (some eof) = tt
after_read-IsFresh (some short_write) = tt
after_read-IsFresh (some (other n)) = tt

after_nr-IsFresh : (buf : Bytes) (er : Option IoError) → IsFresh (after_nr buf er)
unfolding after_nr
after_nr-IsFresh [] er = after_read-IsFresh er
after_nr-IsFresh (x ∷ buf) er = tt

after_write-IsFresh :
    (buf : Bytes) (er : Option IoError) (nw : ℕ) (ew : Option IoError)
    → IsFresh (after_write buf er nw ew)
unfolding after_write
after_write-IsFresh buf er nw (some e) = tt
after_write-IsFresh buf er nw none = elim (Bool-cases (length buf == nw)) [
  | inl all ↦ rw (all, after_write) (after_read-IsFresh er)
  | inr short ↦ rw (short, after_write) tt
]

WorkerInv-IsFresh :
    (e : End) (p : Pc) (n : ℕ) (received sent : Bytes) (s : Shared)
    → IsFresh p
    → n ≡ length sent
    → Accounts p received sent
    → WorkerInv e (record { pc = p; written = n; received = received; sent = sent }) s
WorkerInv-IsFresh e top n r t s f c a = record {
  counted = c;
  accounts = a;
  armed = tt;
  timed = tt;
  cleaned = tt;
}
WorkerInv-IsFresh e (got buf er) n r t s f c a = record {
  counted = c;
  accounts = a;
  armed = tt;
  timed = tt;
  cleaned = tt;
}
WorkerInv-IsFresh e (cleanup reporting err) n r t s f c a = record {
  counted = c;
  accounts = a;
  armed = tt;
  timed = tt;
  cleaned = tt;
}
WorkerInv-IsFresh e (cleanup storing err) n r t s f c a = absurd f
WorkerInv-IsFresh e (cleanup expiring_src err) n r t s f c a = absurd f
WorkerInv-IsFresh e (cleanup expiring_dst err) n r t s f c a = absurd f
WorkerInv-IsFresh e (cleanup closing_src err) n r t s f c a = absurd f
WorkerInv-IsFresh e (cleanup closing_dst err) n r t s f c a = absurd f
WorkerInv-IsFresh e (cleanup returned err) n r t s f c a = absurd f
WorkerInv-IsFresh e (arm_read d) n r t s f c a = absurd f
WorkerInv-IsFresh e reading n r t s f c a = absurd f
WorkerInv-IsFresh e (arm_write d buf er) n r t s f c a = absurd f
WorkerInv-IsFresh e (writing buf er) n r t s f c a = absurd f

abbrev at_pc : Worker → Pc → Worker
at_pc w p = record w { pc = p }

step_cleanup-WorkerInv :
    (e : End) (st : Stage) (err : Option IoError) (w : Worker) (s : Shared)
    → WorkerInv e (at_pc w (cleanup st err)) s
    → WorkerInv e
        (step_cleanup e st err (at_pc w (cleanup st err)) s).0
        (step_cleanup e st err (at_pc w (cleanup st err)) s).1
unfolding step_cleanup
step_cleanup-WorkerInv a_end reporting err w s v = ground arith
step_cleanup-WorkerInv a_end _ err w s v = ground arith
step_cleanup-WorkerInv b_end reporting err w s v = ground arith
step_cleanup-WorkerInv b_end _ err w s v = ground arith

step_pc-WorkerInv :
    (e : End) (i : Answer) (p : Pc) (w : Worker) (s : Shared)
    → IsLawfulAt e i s p
    → WorkerInv e (at_pc w p) s
    → WorkerInv e (step_pc e i p (at_pc w p) s).0 (step_pc e i p (at_pc w p) s).1
unfolding step_pc
step_pc-WorkerInv e i (cleanup st err) w s l v = step_cleanup-WorkerInv e st err w s v
step_pc-WorkerInv e i reading w s l v =
    WorkerInv-IsFresh e (after_nr i.read i.er) w.written _ _ s (after_nr-IsFresh i.read i.er)
      v.counted (after_nr-Accounts i.read i.er w.received w.sent v.accounts)
step_pc-WorkerInv e i (writing buf er) w s l v =
    WorkerInv-IsFresh e (after_write buf er i.nw i.ew) (w.written + i.nw) _ _ s
      (after_write-IsFresh buf er i.nw i.ew)
      (omega (arith, length-append w.sent (take i.nw buf), length-take_le i.nw buf l.0, v.counted))
      (after_write-Accounts buf er i.nw i.ew w.received w.sent v.accounts)
step_pc-WorkerInv a_end i top w s l v = ground arith
step_pc-WorkerInv a_end i _ w s l v = ground arith
step_pc-WorkerInv b_end i top w s l v = ground arith
step_pc-WorkerInv b_end i _ w s l v = ground arith

-- The goroutine that has reported, with the error that is stored.
abbrev pub ReportedWith : Pc → Option IoError → Type 0
ReportedWith (cleanup reporting err) o = ⊥
ReportedWith (cleanup _ err) o = o ≡ err
ReportedWith _ o = ⊥

pub record Inv (s : System) : Type 0 where
  pub inv_a : WorkerInv a_end s.from_a s.shared
  pub inv_b : WorkerInv b_end s.from_b s.shared
  pub first :
      s.shared.fe.reported ≡ true
      → ReportedWith s.from_a.pc s.shared.fe.stored ⊎ ReportedWith s.from_b.pc s.shared.fe.stored

-- A step that finds a report leaves it, and its goroutine is still known by it.
step_pc-ReportedWith :
    (e : End) (i : Answer) (p : Pc) (w : Worker) (s : Shared)
    → s.fe.reported ≡ true
    → ReportedWith p s.fe.stored
    → ReportedWith (step_pc e i p w s).0.pc (step_pc e i p w s).1.fe.stored
unfolding step_pc
step_pc-ReportedWith e i (cleanup reporting err) w s h r = absurd r
step_pc-ReportedWith e i (cleanup storing err) w s h r = r
step_pc-ReportedWith a_end i (cleanup expiring_src err) w s h r = r
step_pc-ReportedWith b_end i (cleanup expiring_src err) w s h r = r
step_pc-ReportedWith a_end i (cleanup expiring_dst err) w s h r = r
step_pc-ReportedWith b_end i (cleanup expiring_dst err) w s h r = r
step_pc-ReportedWith a_end i (cleanup closing_src err) w s h r = r
step_pc-ReportedWith b_end i (cleanup closing_src err) w s h r = r
step_pc-ReportedWith a_end i (cleanup closing_dst err) w s h r = r
step_pc-ReportedWith b_end i (cleanup closing_dst err) w s h r = r
step_pc-ReportedWith e i (cleanup returned err) w s h r = r
step_pc-ReportedWith e i top w s h r = absurd r
step_pc-ReportedWith e i reading w s h r = absurd r
step_pc-ReportedWith e i (arm_read d) w s h r = absurd r
step_pc-ReportedWith e i (got buf er) w s h r = absurd r
step_pc-ReportedWith e i (arm_write d buf er) w s h r = absurd r
step_pc-ReportedWith e i (writing buf er) w s h r = absurd r

-- A report is either an old one or that of the goroutine that steps.
step_pc-reported :
    (e : End) (i : Answer) (p : Pc) (w : Worker) (s : Shared)
    → (step_pc e i p w s).1.fe.reported ≡ true
    → (s.fe.reported ≡ true) ⊎ ReportedWith (step_pc e i p w s).0.pc (step_pc e i p w s).1.fe.stored
unfolding step_pc
step_pc-reported e i (cleanup reporting err) w s h = ground arith
step_pc-reported e i (cleanup storing err) w s h = inl h
step_pc-reported a_end i _ w s h = ground arith
step_pc-reported b_end i _ w s h = ground arith

step_first :
    (e : End) (i : Answer) (p : Pc) (w : Worker) (s : Shared) (q : Pc)
    → IsArmed p
    → (s.fe.reported ≡ true → ReportedWith p s.fe.stored ⊎ ReportedWith q s.fe.stored)
    → (step_pc e i p w s).1.fe.reported ≡ true
    → ReportedWith (step_pc e i p w s).0.pc (step_pc e i p w s).1.fe.stored
      ⊎ ReportedWith q (step_pc e i p w s).1.fe.stored
step_first e i p w s q armed before now = elim (step_pc-reported e i p w s now) [
  | inr new ↦ inl new
  | inl old ↦ elim (before old) [
    | inl own ↦ inl (step_pc-ReportedWith e i p w s old own)
    | inr others ↦ inr (rw ((step_pc-Later e i p w s armed).stored old) others)
  ]
]

swap {ℓ κ} : {A : Type ℓ} {B : Type κ} → A ⊎ B → B ⊎ A
swap (inl a) = inr a
swap (inr b) = inl b

sys_step-Inv : (e : End) (i : Answer) (s : System) → IsLawful e i s → Inv s → Inv (sys_step e i s)
unfolding sys_step
sys_step-Inv a_end i s l v =
    let w = s.from_a in
    let later = step_pc-Later a_end i w.pc w s.shared v.inv_a.armed in
    record {
      inv_a = step_pc-WorkerInv a_end i w.pc w s.shared l v.inv_a;
      inv_b = WorkerInv-Later b_end s.from_b later v.inv_b;
      first = step_first a_end i w.pc w s.shared s.from_b.pc v.inv_a.armed v.first;
    }
sys_step-Inv b_end i s l v =
    let w = s.from_b in
    let later = step_pc-Later b_end i w.pc w s.shared v.inv_b.armed in
    record {
      inv_a = WorkerInv-Later a_end s.from_a later v.inv_a;
      inv_b = step_pc-WorkerInv b_end i w.pc w s.shared l v.inv_b;
      first = λ h.
          swap (
            step_first b_end i w.pc w s.shared s.from_a.pc v.inv_b.armed (λ g. swap (v.first g)) h);
    }

open_tunnel-Inv : (timeout : ℤ) → Inv (open_tunnel timeout)
unfolding open_tunnel
open_tunnel-Inv timeout = record {
  inv_a = record { counted = refl; accounts = refl; armed = tt; timed = tt; cleaned = tt };
  inv_b = record { counted = refl; accounts = refl; armed = tt; timed = tt; cleaned = tt };
  first = λ h. cc;
}

pub Reach-Inv : {timeout : ℤ} {s : System} → Reach timeout s → Inv s
Reach-Inv {timeout} start = open_tunnel-Inv timeout
Reach-Inv (next {s} e i r l) = sys_step-Inv e i s l (Reach-Inv r)
