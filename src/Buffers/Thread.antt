-- ===== src/Buffers/Thread.antt =====
-- `openOneWayTunnel` and `copyBuffer` of internal/core/common.go once more, with the buffer in the
-- shared heap: a read fills it in place, and a write sends from it.
use mos_tls_tunnel.Prelude.{
  ℕ, zero, suc, ◌+◌, Option, none, some, ◌++◌, Bytes, length, take, drop, if◌then◌else◌, ◌==◌,
}
use mos_tls_tunnel.Tunnel.FirstErr.{IoError, eof, short_write, other}
use mos_tls_tunnel.Tunnel.Worker.{
  End, opposite, Deadline, after, Shared, conn, set_conn, Stage, reporting, storing, expiring_src,
  expiring_dst, closing_src, closing_dst, returned, Pc, Worker, Answer, step_cleanup,
}
use mos_tls_tunnel.Buffers.{SyncPool, Heap, acquire_io_buf, release_io_buf, update}

-- The statements behind `buf := acquireIOBuf()`; a number stands for `nr`.
pub data Local : Type 0 where
  entering at_top : Local
  arming_read : Deadline → Local
  in_read : Local
  has_read : ℕ → Option IoError → Local
  arming_write : Deadline → ℕ → Option IoError → Local
  in_write : ℕ → Option IoError → Local
  cleaning : Stage → Option IoError → Local

-- The number of the buffer that `buf` holds, while it holds one.
pub data Place : Type 0 where
  starting : Place
  running : ℕ → Local → Place
  finished : Option IoError → Place
  panicked : Place

pub record Thread : Type 0 where
  pub place : Place
  pub written : ℕ
  pub received : Bytes
  pub sent : Bytes

unfoldable pub local_after_read : Option IoError → Local
local_after_read none = at_top
local_after_read (some eof) = cleaning reporting none
local_after_read (some short_write) = cleaning reporting (some short_write)
local_after_read (some (other n)) = cleaning reporting (some (other n))

unfoldable pub local_after_nr : ℕ → Option IoError → Local
unfolding local_after_read
local_after_nr zero er = local_after_read er
local_after_nr (suc n) er = has_read (suc n) er

unfoldable pub local_after_write : ℕ → Option IoError → ℕ → Option IoError → Local
unfolding local_after_read
local_after_write nr er nw (some ew) = cleaning reporting (some ew)
local_after_write nr er nw none =
    if nr == nw then local_after_read er else cleaning reporting (some short_write)

abbrev pub next_stage : Stage → Stage
next_stage reporting = storing
next_stage storing = expiring_src
next_stage expiring_src = expiring_dst
next_stage expiring_dst = closing_src
next_stage closing_src = closing_dst
next_stage closing_dst = returned
next_stage returned = returned

abbrev pub local_pc : Bytes → Local → Pc
local_pc bytes entering = Pc.top
local_pc bytes at_top = Pc.top
local_pc bytes (arming_read d) = Pc.arm_read d
local_pc bytes in_read = Pc.reading
local_pc bytes (has_read n er) = Pc.got (take n bytes) er
local_pc bytes (arming_write d n er) = Pc.arm_write d (take n bytes) er
local_pc bytes (in_write n er) = Pc.writing (take n bytes) er
local_pc bytes (cleaning stage e) = Pc.cleanup stage e

abbrev pub place_pc : (ℕ → Bytes) → Place → Pc
place_pc content starting = Pc.top
place_pc content (running b p) = local_pc (content b) p
place_pc content (finished e) = Pc.cleanup returned e
place_pc content panicked = Pc.top

-- The goroutine as `Tunnel.Worker` has it, with the bytes themselves in place of their number.
abbrev pub worker_of : (ℕ → Bytes) → Thread → Worker
worker_of content w = record {
  pc = place_pc content w.place;
  written = w.written;
  received = w.received;
  sent = w.sent;
}

abbrev pub moved_to : ℕ → Local → Thread → Thread
moved_to b p w = record w { place = running b p }

-- A read that gives these bytes overwrites as many at the head of the buffer.
abbrev pub filled : Bytes → Bytes → Bytes
filled bytes buf = bytes ++ drop (length bytes) buf

-- `if len(buf) <= 0 { panic("buf size <= 0") }`
unfoldable pub enter : ℕ → Thread → Bytes → Thread
enter b w buf = if length buf == 0 then record w { place = panicked } else moved_to b at_top w

module _ (P : SyncPool) where
  unfoldable pub step_cleaning :
      End → ℕ → Stage → Option IoError → Thread → Shared → Heap P → Thread × Shared × Heap P
  unfolding step_cleanup release_io_buf
  step_cleaning src b returned e w s h = (record w { place = finished e }, s, release_io_buf P b h)
  step_cleaning src b stage e w s h = (
    moved_to b (cleaning (next_stage stage) e) w,
    (step_cleanup src stage e (worker_of h.content w) s).1,
    h,
  )

  unfoldable pub step_local :
      End → Answer → ℕ → Local → Thread → Shared → Heap P → Thread × Shared × Heap P
  unfolding enter local_after_nr local_after_write step_cleaning
  step_local src i b entering w s h = (enter b w (h.content b), s, h)
  step_local src i b at_top w s h = (moved_to b (arming_read (after i.now s.mu_timeout)) w, s, h)
  step_local src i b (arming_read t) w s h =
      (moved_to b in_read w, set_conn src (record (conn src s) { read_deadline = t }) s, h)
  step_local src i b in_read w s h = (
    record w {
      place = running b (local_after_nr (length i.read) i.er);
      received = w.received ++ i.read;
    },
    s,
    record h { content = update b (filled i.read (h.content b)) h.content },
  )
  step_local src i b (has_read n er) w s h =
      (moved_to b (arming_write (after i.now s.mu_timeout) n er) w, s, h)
  step_local src i b (arming_write t n er) w s h =
      let dst = opposite src in
      (moved_to b (in_write n er) w, set_conn dst (record (conn dst s) { write_deadline = t }) s, h)
  step_local src i b (in_write n er) w s h = (
    record w {
      place = running b (local_after_write n er i.nw i.ew);
      written = w.written + i.nw;
      sent = w.sent ++ take i.nw (take n (h.content b));
    },
    s,
    h,
  )
  step_local src i b (cleaning stage e) w s h = step_cleaning src b stage e w s h

  unfoldable pub step_place :
      End → Answer → Place → Thread → Shared → Heap P → Thread × Shared × Heap P
  unfolding acquire_io_buf step_local
  step_place src i starting w s h = let r = acquire_io_buf P h in (moved_to r.0 entering w, s, r.1)
  step_place src i (running b p) w s h = step_local src i b p w s h
  step_place src i (finished e) w s h = (w, s, h)
  step_place src i panicked w s h = (w, s, h)
