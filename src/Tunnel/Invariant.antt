-- ===== src/Tunnel/Invariant.antt =====
-- What holds of a tunnel in every reachable state.
use mos_tls_tunnel.Prelude.{
  ◌≡◌, ◌≢◌, refl, true, Option, none, some, ◌++◌, arith, Bytes, pos, length,
}
use mos_tls_tunnel.Tunnel.FirstErr.{IoError}
use mos_tls_tunnel.Tunnel.Worker.{
  End, a_end, b_end, opposite, unset, Shared, conn, Stage, reporting, storing, expiring_src,
  expiring_dst, closing_src, closing_dst, returned, Pc, top, arm_read, reading, got, arm_write,
  writing, cleanup, Worker, Answer, step_cleanup, step_pc,
}

-- Without an error all bytes were written; with one, some may be left.
abbrev pub AccountsEnd : Option IoError → Bytes → Bytes → Type 0
AccountsEnd none received sent = received ≡ sent
AccountsEnd (some e) received sent = (rest : Bytes) × (received ≡ sent ++ rest)

-- The bytes that a goroutine has read are those that it has written, with those in its buffer.
abbrev pub Accounts : Pc → Bytes → Bytes → Type 0
Accounts top received sent = received ≡ sent
Accounts (arm_read t) received sent = received ≡ sent
Accounts reading received sent = received ≡ sent
Accounts (got buf er) received sent = received ≡ sent ++ buf
Accounts (arm_write t buf er) received sent = received ≡ sent ++ buf
Accounts (writing buf er) received sent = received ≡ sent ++ buf
Accounts (cleanup stage err) received sent = AccountsEnd err received sent

-- A computed deadline is one.
abbrev pub IsArmed : Pc → Type 0
IsArmed (arm_read t) = t ≢ unset
IsArmed (arm_write t buf er) = t ≢ unset
IsArmed _ = Unit {0}

-- The deadline of the call that a goroutine is in has been set.
abbrev pub IsTimed : End → Pc → Shared → Type 0
IsTimed e reading s = (conn e s).read_deadline ≢ unset
IsTimed e (writing buf er) s = (conn (opposite e) s).write_deadline ≢ unset
IsTimed e _ s = Unit {0}

-- What the statements of the cleanup have done.
abbrev pub CleanedAt : End → Stage → Shared → Type 0
CleanedAt e reporting s = Unit {0}
CleanedAt e storing s = s.fe.reported ≡ true
CleanedAt e expiring_src s = (s.fe.reported ≡ true) × (s.mu_timeout ≡ pos 0)
CleanedAt e expiring_dst s = (s.fe.reported ≡ true) × (s.mu_timeout ≡ pos 0)
CleanedAt e closing_src s = (s.fe.reported ≡ true) × (s.mu_timeout ≡ pos 0)
CleanedAt e closing_dst s =
    (s.fe.reported ≡ true) × (s.mu_timeout ≡ pos 0) × ((conn e s).closed ≡ true)
CleanedAt e returned s =
    (s.fe.reported ≡ true)
    × (s.mu_timeout ≡ pos 0)
    × ((conn e s).closed ≡ true)
    × ((conn (opposite e) s).closed ≡ true)

abbrev pub Cleaned : End → Pc → Shared → Type 0
Cleaned e (cleanup stage err) s = CleanedAt e stage s
Cleaned e _ s = Unit {0}

pub record WorkerInv (e : End) (w : Worker) (s : Shared) : Type 0 where
  pub counted : w.written ≡ length w.sent
  pub accounts : Accounts w.pc w.received w.sent
  pub armed : IsArmed w.pc
  pub timed : IsTimed e w.pc s
  pub cleaned : Cleaned e w.pc s

-- What a step of the one goroutine leaves to the other.
pub record Later (s s' : Shared) : Type 0 where
  pub reported : s.fe.reported ≡ true → s'.fe.reported ≡ true
  pub stored : s.fe.reported ≡ true → s'.fe.stored ≡ s.fe.stored
  pub timeout : s.mu_timeout ≡ pos 0 → s'.mu_timeout ≡ pos 0
  pub closed_a : s.a.closed ≡ true → s'.a.closed ≡ true
  pub closed_b : s.b.closed ≡ true → s'.b.closed ≡ true
  pub read_a : s.a.read_deadline ≢ unset → s'.a.read_deadline ≢ unset
  pub read_b : s.b.read_deadline ≢ unset → s'.b.read_deadline ≢ unset
  pub write_a : s.a.write_deadline ≢ unset → s'.a.write_deadline ≢ unset
  pub write_b : s.b.write_deadline ≢ unset → s'.b.write_deadline ≢ unset

pub Later-refl : (s : Shared) → Later s s
Later-refl s = record {
  reported = λ h. h;
  stored = λ h. refl;
  timeout = λ h. h;
  closed_a = λ h. h;
  closed_b = λ h. h;
  read_a = λ h. h;
  read_b = λ h. h;
  write_a = λ h. h;
  write_b = λ h. h;
}

step_cleanup-Later :
    (e : End) (st : Stage) (err : Option IoError) (w : Worker) (s : Shared)
    → Later s (step_cleanup e st err w s).1
unfolding step_cleanup
step_cleanup-Later a_end reporting err w s = ground arith
step_cleanup-Later a_end _ err w s = ground arith
step_cleanup-Later b_end reporting err w s = ground arith
step_cleanup-Later b_end _ err w s = ground arith

pub step_pc-Later :
    (e : End) (i : Answer) (p : Pc) (w : Worker) (s : Shared)
    → IsArmed p
    → Later s (step_pc e i p w s).1
unfolding step_pc
step_pc-Later e i (cleanup st err) w s h = step_cleanup-Later e st err w s
step_pc-Later a_end i top w s h = ground arith
step_pc-Later a_end i _ w s h = ground arith
step_pc-Later b_end i top w s h = ground arith
step_pc-Later b_end i _ w s h = ground arith

IsTimed-Later : (e : End) (p : Pc) {s s' : Shared} → Later s s' → IsTimed e p s → IsTimed e p s'
IsTimed-Later a_end reading l t = l.read_a t
IsTimed-Later b_end reading l t = l.read_b t
IsTimed-Later a_end (writing buf er) l t = l.write_b t
IsTimed-Later b_end (writing buf er) l t = l.write_a t
IsTimed-Later e top l t = tt
IsTimed-Later e (arm_read d) l t = tt
IsTimed-Later e (got buf er) l t = tt
IsTimed-Later e (arm_write d buf er) l t = tt
IsTimed-Later e (cleanup st err) l t = tt

CleanedAt-Later :
    (e : End) (st : Stage) {s s' : Shared} → Later s s' → CleanedAt e st s → CleanedAt e st s'
CleanedAt-Later a_end reporting l c = tt
CleanedAt-Later a_end _ l c = ground arith
CleanedAt-Later b_end reporting l c = tt
CleanedAt-Later b_end _ l c = ground arith

Cleaned-Later : (e : End) (p : Pc) {s s' : Shared} → Later s s' → Cleaned e p s → Cleaned e p s'
Cleaned-Later e (cleanup st err) l c = CleanedAt-Later e st l c
Cleaned-Later e top l c = tt
Cleaned-Later e reading l c = tt
Cleaned-Later e (writing buf er) l c = tt
Cleaned-Later e (arm_read d) l c = tt
Cleaned-Later e (got buf er) l c = tt
Cleaned-Later e (arm_write d buf er) l c = tt

pub WorkerInv-Later :
    (e : End) (w : Worker) {s s' : Shared} → Later s s' → WorkerInv e w s → WorkerInv e w s'
WorkerInv-Later e w l v = record {
  counted = v.counted;
  accounts = v.accounts;
  armed = v.armed;
  timed = IsTimed-Later e w.pc l v.timed;
  cleaned = Cleaned-Later e w.pc l v.cleaned;
}
