-- ===== src/Buffers/Process.antt =====
-- All the tunnels of a process, whose goroutines share one heap of buffers and interleave in any
-- order (`openTunnel` and `acquireIOBuf` of internal/core/common.go).
use mos_tls_tunnel.Prelude.{
  ℕ, ◌≤◌, ◌≡◌, ◌≢◌, Bool, true, ◌&&◌, none, [], Bytes, ℤ, length, if◌then◌else◌, ◌==◌,
}
use mos_tls_tunnel.Tunnel.Worker.{End, same_end, a_end, b_end, opposite, Shared, conn, Answer}
use mos_tls_tunnel.Tunnel.System.{System, open_tunnel}
use mos_tls_tunnel.Buffers.{SyncPool, Heap, io_copybuff_pool, update}
use mos_tls_tunnel.Buffers.Thread.{
  Local, in_read, in_write, Place, starting, running, Thread, worker_of, step_place,
}

-- The goroutine of a tunnel that reads this end, by the number of the tunnel.
pub record Gid : Type 0 where
  pub end : End
  pub tunnel : ℕ

abbrev pub gid : End → ℕ → Gid
gid e t = record { end = e; tunnel = t }

abbrev pub same : Gid → Gid → Bool
same g g' = same_end g.end g'.end && (g.tunnel == g'.tunnel)

abbrev pub update_at {ℓ} : {A : Type ℓ} → Gid → A → (Gid → A) → Gid → A
update_at g v f g' = if same g g' then v else f g'

abbrev fresh_thread : Thread
fresh_thread = record { place = starting; written = 0; received = []; sent = [] }

-- The answers that `net.Conn` documents, with the length of the buffer that the call is given.
abbrev pub IsLawfulLocal : End → Answer → Shared → Bytes → Local → Type 0
IsLawfulLocal e i s buf in_read =
    (length i.read ≤ length buf) × ((conn e s).closed ≡ true → (i.read ≡ []) × (i.er ≢ none))
IsLawfulLocal e i s buf (in_write n er) =
    (i.nw ≤ n) × ((conn (opposite e) s).closed ≡ true → (i.nw ≡ 0) × (i.ew ≢ none))
IsLawfulLocal e i s buf _ = Unit {0}

abbrev pub IsLawfulPlace : End → Answer → Shared → (ℕ → Bytes) → Place → Type 0
IsLawfulPlace e i s content (running b p) = IsLawfulLocal e i s (content b) p
IsLawfulPlace e i s content _ = Unit {0}

module _ (P : SyncPool) where
  pub record Process : Type 0 where
    pub shared : ℕ → Shared
    pub threads : Gid → Thread
    pub heap : Heap P

  -- Each tunnel with the timeout of its `openTunnel`; its goroutines start at any time.
  unfoldable pub start_process : (ℕ → ℤ) → Process
  unfolding open_tunnel io_copybuff_pool
  start_process timeouts = record {
    shared = λ t. (open_tunnel (timeouts t)).shared;
    threads = λ g. fresh_thread;
    heap = io_copybuff_pool P;
  }

  abbrev pub step_thread : Gid → Answer → Process → Thread × Shared × Heap P
  unfolding step_place
  step_thread g i p =
      step_place P g.end i (p.threads g).place (p.threads g) (p.shared g.tunnel) p.heap

  unfoldable pub process_step : Gid → Answer → Process → Process
  unfolding step_place
  process_step g i p =
      let r = step_thread g i p in
      record {
        shared = update g.tunnel r.1 p.shared;
        threads = update_at g r.0 p.threads;
        heap = r.2;
      }

  abbrev pub IsLawfulStep : Gid → Answer → Process → Type 0
  IsLawfulStep g i p = IsLawfulPlace g.end i (p.shared g.tunnel) p.heap.content (p.threads g).place

  -- The states that an interleaving of all the goroutines leads to.
  pub data ProcessReach (timeouts : ℕ → ℤ) : Process → Type 0 where
    started : ProcessReach timeouts (start_process timeouts)
    stepped :
        {p : Process} (g : Gid) (i : Answer)
        → ProcessReach timeouts p
        → IsLawfulStep g i p
        → ProcessReach timeouts (process_step g i p)

  -- One tunnel as `Tunnel.System` has it.
  abbrev pub view : Process → ℕ → System
  view p t = record {
    shared = p.shared t;
    from_a = worker_of p.heap.content (p.threads (gid a_end t));
    from_b = worker_of p.heap.content (p.threads (gid b_end t));
  }
