-- ===== src/Tunnel/System.antt =====
-- `openTunnel` of internal/core/common.go: two goroutines over one shared state.
use mos_tls_tunnel.Prelude.{◌≤◌, ◌≡◌, ◌≢◌, true, false, Option, none, [], ℤ, length}
use mos_tls_tunnel.Config.{default_copy_io_buffer_size}
use mos_tls_tunnel.Tunnel.FirstErr.{IoError, new_first_err, get_err}
use mos_tls_tunnel.Tunnel.Worker.{
  End, a_end, b_end, opposite, unset, Conn, Shared, conn, returned, Pc, top, reading, writing,
  cleanup, Worker, Answer, step,
}

-- The goroutines are named by the connection that they read.
pub record System : Type 0 where
  pub shared : Shared
  pub from_a : Worker
  pub from_b : Worker

abbrev fresh_conn : Conn
fresh_conn = record { closed = false; read_deadline = unset; write_deadline = unset }

abbrev fresh_worker : Worker
fresh_worker = record { pc = top; written = 0; received = []; sent = [] }

unfoldable pub open_tunnel : ℤ → System
open_tunnel timeout = record {
  shared = record { mu_timeout = timeout; fe = new_first_err; a = fresh_conn; b = fresh_conn };
  from_a = fresh_worker;
  from_b = fresh_worker;
}

abbrev pub worker : End → System → Worker
worker a_end s = s.from_a
worker b_end s = s.from_b

abbrev pub with_worker : End → System → Worker × Shared → System
with_worker a_end s (w, sh) = record s { from_a = w; shared = sh }
with_worker b_end s (w, sh) = record s { from_b = w; shared = sh }

unfoldable pub sys_step : End → Answer → System → System
unfolding step
sys_step e i s = with_worker e s (step e i (worker e s) s.shared)

-- What `net.Conn` documents: a read fills no more than the buffer, a write takes no more than it
-- is given, and on a closed connection both fail and move nothing.
abbrev pub IsLawfulAt : End → Answer → Shared → Pc → Type 0
IsLawfulAt e i s reading =
    (length i.read ≤ default_copy_io_buffer_size)
    × ((conn e s).closed ≡ true → (i.read ≡ []) × (i.er ≢ none))
IsLawfulAt e i s (writing buf er) =
    (i.nw ≤ length buf) × ((conn (opposite e) s).closed ≡ true → (i.nw ≡ 0) × (i.ew ≢ none))
IsLawfulAt e i s _ = Unit {0}

abbrev pub IsLawful : End → Answer → System → Type 0
IsLawful e i s = IsLawfulAt e i s.shared (worker e s).pc

-- The states that an interleaving leads to.
pub data Reach (timeout : ℤ) : System → Type 0 where
  start : Reach timeout (open_tunnel timeout)
  next :
      {s : System} (e : End) (i : Answer)
      → Reach timeout s
      → IsLawful e i s
      → Reach timeout (sys_step e i s)

abbrev pub HasReturned : Pc → Type 0
HasReturned (cleanup returned _) = Unit {0}
HasReturned _ = ⊥

-- `wg.Wait` is over, and `openTunnel` returns this.
unfoldable pub result : System → Option IoError
unfolding get_err
result s = get_err s.shared.fe
