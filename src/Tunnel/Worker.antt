-- ===== src/Tunnel/Worker.antt =====
-- One goroutine of a tunnel: `openOneWayTunnel` with its `copyBuffer`, step by step.
use mos_tls_tunnel.Prelude.{
  ℕ, ◌+◌, Bool, true, false, Option, none, some, [], ◌∷◌, ◌++◌, Bytes, ℤ, pos, length, take,
  if◌then◌else◌, ◌==◌,
}
use mos_tls_tunnel.Tunnel.FirstErr.{IoError, eof, short_write, other, FirstErr, report}

-- The two connections of `openTunnel(a, b, timeout)`.
pub data End : Type 0 where
  a_end b_end : End

abbrev pub opposite : End → End
opposite a_end = b_end
opposite b_end = a_end

abbrev pub same_end : End → End → Bool
same_end a_end a_end = true
same_end b_end b_end = true
same_end _ _ = false

-- No deadline yet, `time.Now().Add(timeout)`, or `longTimeAgo`.
pub data Deadline : Type 0 where
  unset : Deadline
  after : (now : ℕ) (timeout : ℤ) → Deadline
  long_time_ago : Deadline

pub record Conn : Type 0 where
  pub closed : Bool
  pub read_deadline : Deadline
  pub write_deadline : Deadline

-- What the goroutines share: `muTimeout`, `fe` and the connections.
pub record Shared : Type 0 where
  pub mu_timeout : ℤ
  pub fe : FirstErr
  pub a : Conn
  pub b : Conn

abbrev pub conn : End → Shared → Conn
conn a_end s = s.a
conn b_end s = s.b

abbrev pub set_conn : End → Conn → Shared → Shared
set_conn a_end c s = record s { a = c }
set_conn b_end c s = record s { b = c }

-- The statements of `openOneWayTunnel` behind `copyBuffer`.
pub data Stage : Type 0 where
  reporting storing expiring_src expiring_dst closing_src closing_dst returned : Stage

-- Where a goroutine stands. `top` is the head of the loop in `copyBuffer`; the deadline of a call
-- is computed (from `muTimeout`) before it is set. `cleanup` carries the error of `copyBuffer`.
pub data Pc : Type 0 where
  top : Pc
  arm_read : Deadline → Pc
  reading : Pc
  got : Bytes → Option IoError → Pc
  arm_write : Deadline → Bytes → Option IoError → Pc
  writing : Bytes → Option IoError → Pc
  cleanup : Stage → Option IoError → Pc

-- `received` and `sent` are the bytes that went through, for the statements only.
pub record Worker : Type 0 where
  pub pc : Pc
  pub written : ℕ
  pub received : Bytes
  pub sent : Bytes

-- What the environment answers in one step: the clock, the result of a read, that of a write.
pub record Answer : Type 0 where
  pub now : ℕ
  pub read : Bytes
  pub er : Option IoError
  pub nw : ℕ
  pub ew : Option IoError

-- `if er != nil { if er != io.EOF { err = er }; break }`
unfoldable pub after_read : Option IoError → Pc
after_read none = top
after_read (some eof) = cleanup reporting none
after_read (some short_write) = cleanup reporting (some short_write)
after_read (some (other n)) = cleanup reporting (some (other n))

-- The tests on the result of a write.
unfoldable pub after_write : Bytes → Option IoError → ℕ → Option IoError → Pc
unfolding after_read
after_write buf er nw (some ew) = cleanup reporting (some ew)
after_write buf er nw none =
    if length buf == nw then after_read er else cleanup reporting (some short_write)

-- The branch `if nr > 0`.
unfoldable pub after_nr : Bytes → Option IoError → Pc
unfolding after_read
after_nr [] er = after_read er
after_nr (x ∷ buf) er = got (x ∷ buf) er

abbrev pub go : Pc → Worker → Worker
go p w = record w { pc = p }

abbrev pub expire : Conn → Conn
expire c = record c { read_deadline = long_time_ago; write_deadline = long_time_ago }

-- A statement of the cleanup.
unfoldable pub step_cleanup : End → Stage → Option IoError → Worker → Shared → Worker × Shared
unfolding report
step_cleanup src reporting e w s = (go (cleanup storing e) w, record s { fe = report e s.fe })
step_cleanup src storing e w s = (go (cleanup expiring_src e) w, record s { mu_timeout = pos 0 })
step_cleanup src expiring_src e w s =
    (go (cleanup expiring_dst e) w, set_conn src (expire (conn src s)) s)
step_cleanup src expiring_dst e w s =
    let dst = opposite src in (go (cleanup closing_src e) w, set_conn dst (expire (conn dst s)) s)
step_cleanup src closing_src e w s =
    (go (cleanup closing_dst e) w, set_conn src (record (conn src s) { closed = true }) s)
step_cleanup src closing_dst e w s =
    let dst = opposite src in
    (go (cleanup returned e) w, set_conn dst (record (conn dst s) { closed = true }) s)
step_cleanup src returned e w s = (go (cleanup returned e) w, s)

unfoldable pub step_pc : End → Answer → Pc → Worker → Shared → Worker × Shared
unfolding after_nr after_write step_cleanup
step_pc src i top w s = (go (arm_read (after i.now s.mu_timeout)) w, s)
step_pc src i (arm_read t) w s =
    (go reading w, set_conn src (record (conn src s) { read_deadline = t }) s)
step_pc src i reading w s =
    (record w { pc = after_nr i.read i.er; received = w.received ++ i.read }, s)
step_pc src i (got buf er) w s = (go (arm_write (after i.now s.mu_timeout) buf er) w, s)
step_pc src i (arm_write t buf er) w s =
    let dst = opposite src in
    (go (writing buf er) w, set_conn dst (record (conn dst s) { write_deadline = t }) s)
step_pc src i (writing buf er) w s = (
  record w {
    pc = after_write buf er i.nw i.ew;
    written = w.written + i.nw;
    sent = w.sent ++ take i.nw buf;
  },
  s,
)
step_pc src i (cleanup stage e) w s = step_cleanup src stage e w s

-- One step of the goroutine that copies from `src` to the other connection.
unfoldable pub step : End → Answer → Worker → Shared → Worker × Shared
unfolding step_pc
step src i w s = step_pc src i w.pc w s
