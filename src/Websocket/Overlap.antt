-- ===== src/Websocket/Overlap.antt =====
-- When the goroutine that reads a WebSocket connection ends, it closes the connection while the
-- other goroutine of the tunnel may be in a write to it (internal/core/common.go and
-- internal/core/websocket.go).
use mos_tls_tunnel.Prelude.{
  ◌≡◌, inl, inr, refl, sym, ap, ◌∙◌, subst, Bool, true, false, Option, none, some, List, [], ◌∷◌,
  arith, ℤ, Bytes, Bool-cases,
}
use mos_tls_tunnel.Tunnel.FirstErr.{IoError, eof}
use mos_tls_tunnel.Tunnel.Worker.{
  End, a_end, b_end, opposite, Shared, conn, Stage, reporting, storing, expiring_src, expiring_dst,
  closing_src, Pc, top, reading, writing, cleanup, Worker, Answer, step, step_pc, step_cleanup,
  after_nr,
}
use mos_tls_tunnel.Tunnel.System.{
  System, worker, sys_step, open_tunnel, IsLawfulAt, Reach, start, next,
}
use mos_tls_tunnel.Tunnel.Invariant.{Cleaned}
use mos_tls_tunnel.Tunnel.Preserved.{ReportedWith, Reach-Inv}
use mos_tls_tunnel.Tunnel.Safety.{Reach-WorkerInv}
use mos_tls_tunnel.Websocket.Closing.{
  WsCall, set_write_deadline, write_close_message, close_below, write_binary, close_with_dead_line,
  close,
}
use mos_tls_tunnel.Websocket.Methods.{write_calls}
use mos_tls_tunnel.Websocket.Tunnelled.{net_calls, through}

-- A tunnel closes a connection only behind a report.
step_cleanup-closed :
    (c e : End) (st : Stage) (err : Option IoError) (w : Worker) (s : Shared)
    → Cleaned e (cleanup st err) s
    → ((conn c s).closed ≡ true → s.fe.reported ≡ true)
    → (conn c (step_cleanup e st err w s).1).closed ≡ true
    → (step_cleanup e st err w s).1.fe.reported ≡ true
unfolding step_cleanup
step_cleanup-closed a_end a_end reporting err w s v h k = ground arith
step_cleanup-closed a_end a_end _ err w s v h k = ground arith
step_cleanup-closed a_end b_end reporting err w s v h k = ground arith
step_cleanup-closed a_end b_end _ err w s v h k = ground arith
step_cleanup-closed b_end a_end reporting err w s v h k = ground arith
step_cleanup-closed b_end a_end _ err w s v h k = ground arith
step_cleanup-closed b_end b_end reporting err w s v h k = ground arith
step_cleanup-closed b_end b_end _ err w s v h k = ground arith

step_pc-closed :
    (c e : End) (i : Answer) (p : Pc) (w : Worker) (s : Shared)
    → Cleaned e p s
    → ((conn c s).closed ≡ true → s.fe.reported ≡ true)
    → (conn c (step_pc e i p w s).1).closed ≡ true
    → (step_pc e i p w s).1.fe.reported ≡ true
unfolding step_pc
step_pc-closed c e i (cleanup st err) w s v h k = step_cleanup-closed c e st err w s v h k
step_pc-closed a_end a_end i top w s v h k = ground arith
step_pc-closed a_end a_end i _ w s v h k = ground arith
step_pc-closed a_end b_end i top w s v h k = ground arith
step_pc-closed a_end b_end i _ w s v h k = ground arith
step_pc-closed b_end a_end i top w s v h k = ground arith
step_pc-closed b_end a_end i _ w s v h k = ground arith
step_pc-closed b_end b_end i top w s v h k = ground arith
step_pc-closed b_end b_end i _ w s v h k = ground arith

-- The shared state after a step of either goroutine.
shared-sys_step :
    (e : End) (i : Answer) (s : System)
    → (sys_step e i s).shared ≡ (step_pc e i (worker e s).pc (worker e s) s.shared).1
unfolding sys_step step
shared-sys_step a_end i s = refl
shared-sys_step b_end i s = refl

closed_reported :
    {timeout : ℤ} {s : System} (c : End)
    → Reach timeout s
    → (conn c s.shared).closed ≡ true
    → s.shared.fe.reported ≡ true
unfolding open_tunnel
closed_reported a_end start h = absurd (cc)
closed_reported b_end start h = absurd (cc)
closed_reported c (next {s} e i r l) h = rw (shared-sys_step e i s) (
    step_pc-closed c e i (worker e s).pc (worker e s) s.shared (Reach-WorkerInv e r).cleaned
      (closed_reported c r) (rw (shared-sys_step e i s) at h))

-- Neither goroutine has left its loop.
copying_not_reported :
    {timeout : ℤ} {s : System} {buf : Bytes} {er : Option IoError} (c : End)
    → Reach timeout s
    → (worker c s).pc ≡ reading
    → (worker (opposite c) s).pc ≡ writing buf er
    → s.shared.fe.reported ≡ true
    → ⊥
copying_not_reported {timeout} {s} a_end r p q h = elim ((Reach-Inv r).first h) [
  | inl x ↦ subst (λ o. ReportedWith o s.shared.fe.stored) p x
  | inr x ↦ subst (λ o. ReportedWith o s.shared.fe.stored) q x
]
copying_not_reported {timeout} {s} b_end r p q h = elim ((Reach-Inv r).first h) [
  | inl x ↦ subst (λ o. ReportedWith o s.shared.fe.stored) q x
  | inr x ↦ subst (λ o. ReportedWith o s.shared.fe.stored) p x
]

-- The read meets the end of the stream.
abbrev pub at_eof : Answer
at_eof = record { now = 0; read = []; er = some eof; nw = 0; ew = none }

record Near (timeout : ℤ) (c : End) (p q : Pc) (s : System) : Type 0 where
  reach : Reach timeout s
  here : (worker c s).pc ≡ p
  there : (worker (opposite c) s).pc ≡ q
  is_open : (conn c s.shared).closed ≡ false

pc-sys_step :
    (e : End) (i : Answer) (s : System)
    → (worker e (sys_step e i s)).pc ≡ (step_pc e i (worker e s).pc (worker e s) s.shared).0.pc
unfolding sys_step step
pc-sys_step a_end i s = refl
pc-sys_step b_end i s = refl

pc_opposite :
    (e : End) (i : Answer) (s : System)
    → (worker (opposite e) (sys_step e i s)).pc ≡ (worker (opposite e) s).pc
unfolding sys_step
pc_opposite a_end i s = refl
pc_opposite b_end i s = refl

-- What the goroutine does before it comes to its first `Close`.
data Quiet : Pc → Pc → Type 0 where
  reads_eof : Quiet reading (cleanup reporting none)
  reports : Quiet (cleanup reporting none) (cleanup storing none)
  stores : Quiet (cleanup storing none) (cleanup expiring_src none)
  expires_src : Quiet (cleanup expiring_src none) (cleanup expiring_dst none)
  expires_dst : Quiet (cleanup expiring_dst none) (cleanup closing_src none)

Quiet-pc :
    {p p' : Pc} (c : End) (w : Worker) (s : Shared)
    → Quiet p p'
    → (step_pc c at_eof p w s).0.pc ≡ p'
unfolding step_pc after_nr
Quiet-pc c w s reads_eof = refl
Quiet-pc c w s reports = refl
Quiet-pc c w s stores = refl
Quiet-pc c w s expires_src = refl
Quiet-pc c w s expires_dst = refl

Quiet-closed :
    {p p' : Pc} (c : End) (w : Worker) (s : Shared)
    → Quiet p p'
    → (conn c (step_pc c at_eof p w s).1).closed ≡ (conn c s).closed
unfolding step_pc
Quiet-closed c w s reads_eof = refl
Quiet-closed a_end w s reports = refl
Quiet-closed b_end w s reports = refl
Quiet-closed a_end w s stores = refl
Quiet-closed b_end w s stores = refl
Quiet-closed a_end w s expires_src = refl
Quiet-closed b_end w s expires_src = refl
Quiet-closed a_end w s expires_dst = refl
Quiet-closed b_end w s expires_dst = refl

Quiet-lawful : {p p' : Pc} (c : End) (s : Shared) → Quiet p p' → IsLawfulAt c at_eof s p
Quiet-lawful c s reads_eof = (omega arith, λ h. (refl, λ e. cc))
Quiet-lawful c s reports = tt
Quiet-lawful c s stores = tt
Quiet-lawful c s expires_src = tt
Quiet-lawful c s expires_dst = tt

Near-step :
    {timeout : ℤ} {p p' q : Pc} {s : System} (c : End)
    → Quiet p p'
    → Near timeout c p q s
    → Near timeout c p' q (sys_step c at_eof s)
Near-step {p = p} {s = s} c m n = record {
  reach =
      next c at_eof n.reach
        (subst (λ o. IsLawfulAt c at_eof s.shared o) (sym n.here) (Quiet-lawful c s.shared m));
  here = pc-sys_step c at_eof s ∙ rw n.here (Quiet-pc c (worker c s) s.shared m);
  there = pc_opposite c at_eof s ∙ n.there;
  is_open =
      rw (shared-sys_step c at_eof s, n.here) (Quiet-closed c (worker c s) s.shared m ∙ n.is_open);
}

-- The goroutine that reads `c` meets the end of the stream and goes on to its first `Close`.
abbrev pub after_eof : End → System → System
after_eof c s =
    sys_step c at_eof
      (sys_step c at_eof (sys_step c at_eof (sys_step c at_eof (sys_step c at_eof s))))

after_eof-Near :
    {timeout : ℤ} {q : Pc} {s : System} (c : End)
    → Near timeout c reading q s
    → Near timeout c (cleanup closing_src none) q (after_eof c s)
after_eof-Near c n =
    Near-step c expires_dst
      (Near-step c expires_src (Near-step c stores (Near-step c reports (Near-step c reads_eof n))))

-- The calls that the next step of a goroutine makes on the connection of gorilla/websocket below
-- the wrapper `c`.
abbrev pub calls_at : End → End → Pc → Bool → List WsCall
calls_at c e p once = (through (net_calls c e p) (record { close_once_done = once })).1

abbrev pub next_calls : End → End → System → List WsCall
next_calls c e s = calls_at c e (worker e s).pc (conn c s.shared).closed

closing_calls :
    (c : End)
    → calls_at c c (cleanup closing_src none) false
      ≡ set_write_deadline 100 ∷ write_close_message ∷ close_below ∷ []
unfolding through close close_with_dead_line
closing_calls a_end = refl
closing_calls b_end = refl

writing_calls :
    (c : End) (buf : Bytes) (er : Option IoError) (b : Bool)
    → calls_at c (opposite c) (writing buf er) b ≡ write_binary buf ∷ []
unfolding through write_calls
writing_calls a_end buf er b = refl
writing_calls b_end buf er b = refl

-- Where one goroutine of a tunnel is in a read of the connection `c` and the other one in a write to
-- it, an end of the stream that the first one reads leads to a state in which its next call, if
-- `c` is a wrapper, sets the write deadline of the WebSocket connection and writes the close
-- message to it, while the other goroutine is still in its write.
pub close_overlaps_write :
    {timeout : ℤ} {s : System} {buf : Bytes} {er : Option IoError} (c : End)
    → Reach timeout s
    → (worker c s).pc ≡ reading
    → (worker (opposite c) s).pc ≡ writing buf er
    → Reach timeout (after_eof c s)
      × (next_calls c c (after_eof c s)
          ≡ set_write_deadline 100 ∷ write_close_message ∷ close_below ∷ [])
      × (next_calls c (opposite c) (after_eof c s) ≡ write_binary buf ∷ [])
close_overlaps_write {timeout} {s} {buf} {er} c r p q =
    let is_open : (conn c s.shared).closed ≡ false = elim (Bool-cases (conn c s.shared).closed) [
      | inl x ↦ absurd (copying_not_reported c r p q (closed_reported c r x))
      | inr x ↦ x
    ] in
    let n = after_eof-Near c (record { reach = r; here = p; there = q; is_open = is_open }) in
    (
      n.reach,
      ap (λ o. calls_at c c o (conn c (after_eof c s).shared).closed) n.here
          ∙ ap (calls_at c c (cleanup closing_src none)) n.is_open
          ∙ closing_calls c,
      ap (λ o. calls_at c (opposite c) o (conn c (after_eof c s).shared).closed) n.there
          ∙ writing_calls c buf er (conn c (after_eof c s).shared).closed,
    )
