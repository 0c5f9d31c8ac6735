-- ===== src/Buffers/Simulation.antt =====
-- The tunnels of a process that share their buffers are tunnels as `Tunnel.System` has them, each
-- goroutine with bytes of its own (`openOneWayTunnel` and `copyBuffer` of internal/core/common.go).
use mos_tls_tunnel.Prelude.{
  ℕ, ◌+◌, ◌≤◌, ◌<◌, ◌≡◌, ◌⊎◌, refl, ap, subst, Option, none, some, [], ◌∷◌, Bool-cases, Bytes,
  length, take, drop, ◌++◌, ◌==◌, inl, inr, ==_refl, take-append, length-take_le,
}
use mos_tls_tunnel.Config.{default_copy_io_buffer_size}
use mos_tls_tunnel.Tunnel.FirstErr.{IoError, eof, short_write, other}
use mos_tls_tunnel.Tunnel.Worker.{
  End, Shared, Stage, reporting, storing, expiring_src, expiring_dst, closing_src, closing_dst,
  returned, Answer, Pc, Worker, step, step_pc, step_cleanup, after_read, after_nr, after_write,
}
use mos_tls_tunnel.Tunnel.System.{IsLawfulAt}
use mos_tls_tunnel.Buffers.{SyncPool, Heap, update}
use mos_tls_tunnel.Buffers.Thread.{
  Local, entering, at_top, arming_read, in_read, has_read, arming_write, in_write, cleaning, Place,
  starting, running, finished, panicked, Thread, enter, step_cleaning, step_local, step_place,
  local_after_read, local_after_nr, local_after_write, local_pc, place_pc, worker_of,
}
use mos_tls_tunnel.Buffers.Process.{IsLawfulLocal, IsLawfulPlace}
use mos_tls_tunnel.Buffers.Ownership.{held}
use mos_tls_tunnel.Buffers.Filling.{FitsLocal, FitsPlace, IsSized}

place_pc-eq :
    (content content' : ℕ → Bytes) (p : Place)
    → ((b : ℕ) → held p ≡ some b → content' b ≡ content b)
    → place_pc content' p ≡ place_pc content p
place_pc-eq content content' starting k = refl
place_pc-eq content content' (running b p) k = ap (λ c. local_pc c p) (k b refl)
place_pc-eq content content' (finished er) k = refl
place_pc-eq content content' panicked k = refl

abbrev pub with_pc : Pc → Thread → Worker
with_pc p w = record { pc = p; written = w.written; received = w.received; sent = w.sent }

pub worker_of-eq :
    (content content' : ℕ → Bytes) (w : Thread)
    → ((b : ℕ) → held w.place ≡ some b → content' b ≡ content b)
    → worker_of content' w ≡ worker_of content w
worker_of-eq content content' w k = ap (λ p. with_pc p w) (place_pc-eq content content' w.place k)

local_pc-after_read :
    (buf : Bytes) (er : Option IoError) → local_pc buf (local_after_read er) ≡ after_read er
unfolding local_after_read after_read
local_pc-after_read buf none = refl
local_pc-after_read buf (some eof) = refl
local_pc-after_read buf (some short_write) = refl
local_pc-after_read buf (some (other n)) = refl

-- What was read is at the head of the buffer.
local_pc-after_nr :
    (bytes rest : Bytes) (er : Option IoError)
    → local_pc (bytes ++ rest) (local_after_nr (length bytes) er) ≡ after_nr bytes er
unfolding local_after_nr after_nr
local_pc-after_nr [] rest er = local_pc-after_read rest er
local_pc-after_nr (x ∷ bytes) rest er = rw (take-append bytes rest) refl

local_pc-after_write :
    (buf : Bytes) (nr : ℕ) (er : Option IoError) (nw : ℕ) (ew : Option IoError)
    → nr ≤ length buf
    → local_pc buf (local_after_write nr er nw ew) ≡ after_write (take nr buf) er nw ew
unfolding local_after_write after_write
local_pc-after_write buf nr er nw (some e) h = refl
local_pc-after_write buf nr er nw none h =
    rw (length-take_le nr buf h) (elim (Bool-cases (nr == nw)) [
      | inl e ↦ rw e (local_pc-after_read buf er)
      | inr e ↦ rw e refl
    ])

module _ (P : SyncPool) where
  abbrev pub Simulates : End → Answer → Worker → Shared → Thread × Shared × Heap P → Type 0
  Simulates e i w s r =
      ((worker_of r.2.content r.0 ≡ (step e i w s).0) × (r.1 ≡ (step e i w s).1))
      ⊎ ((worker_of r.2.content r.0 ≡ w) × (r.1 ≡ s))

  module _ (e : End) (i : Answer) (w : Thread) (s : Shared) (h : Heap P) where
    step_cleaning-Simulates :
        (b : ℕ) (st : Stage) (err : Option IoError)
        → w.place ≡ running b (cleaning st err)
        → Simulates e i (worker_of h.content w) s (step_cleaning P e b st err w s h)
    unfolding step_cleaning step step_pc step_cleanup
    step_cleaning-Simulates b returned err q = inl (rw q refl, rw q refl)
    step_cleaning-Simulates b reporting err q = inl (rw q refl, rw q refl)
    step_cleaning-Simulates b storing err q = inl (rw q refl, rw q refl)
    step_cleaning-Simulates b expiring_src err q = inl (rw q refl, rw q refl)
    step_cleaning-Simulates b expiring_dst err q = inl (rw q refl, rw q refl)
    step_cleaning-Simulates b closing_src err q = inl (rw q refl, rw q refl)
    step_cleaning-Simulates b closing_dst err q = inl (rw q refl, rw q refl)

    step_local-Simulates :
        (b : ℕ) (p : Local)
        → w.place ≡ running b p
        → IsLawfulLocal e i s (h.content b) p
        → FitsLocal (length (h.content b)) p
        → Simulates e i (worker_of h.content w) s (step_local P e i b p w s h)
    unfolding step_local step step_pc
    step_local-Simulates b entering q l f = elim (Bool-cases (length (h.content b) == 0)) [
      | inl z ↦ inr (rw (z, q, enter) refl, refl)
      | inr z ↦ inr (rw (z, q, enter) refl, refl)
    ]
    step_local-Simulates b at_top q l f = inl (rw q refl, rw q refl)
    step_local-Simulates b (arming_read t) q l f = inl (rw q refl, rw q refl)
    step_local-Simulates b in_read q l f = inl (
      rw (q, ==_refl b, update)
          (ap
            (λ p. record {
              pc = p;
              written = w.written;
              received = w.received ++ i.read;
              sent = w.sent;
            })
            (local_pc-after_nr i.read (drop (length i.read) (h.content b)) i.er)),
      rw q refl,
    )
    step_local-Simulates b (has_read n er) q l f = inl (rw q refl, rw q refl)
    step_local-Simulates b (arming_write t n er) q l f = inl (rw q refl, rw q refl)
    step_local-Simulates b (in_write n er) q l f = inl (
      rw q (
          ap
            (λ p. record {
              pc = p;
              written = w.written + i.nw;
              received = w.received;
              sent = w.sent ++ take i.nw (take n (h.content b));
            })
            (local_pc-after_write (h.content b) n er i.nw i.ew f)),
      rw q refl,
    )
    step_local-Simulates b (cleaning st er) q l f = step_cleaning-Simulates b st er q

    -- A step of a goroutine is the step of the goroutine with bytes of its own, or changes nothing
    -- that the latter has (`acquireIOBuf` and the test of the length).
    pub step_place-Simulates :
        (p : Place)
        → w.place ≡ p
        → IsLawfulPlace e i s h.content p
        → FitsPlace h.content p
        → Simulates e i (worker_of h.content w) s (step_place P e i p w s h)
    unfolding step_place
    step_place-Simulates starting q l f = inr (rw q refl, refl)
    step_place-Simulates (running b p) q l f = step_local-Simulates b p q l f
    step_place-Simulates (finished er) q l f = inr (refl, refl)
    step_place-Simulates panicked q l f = absurd f

  IsLawful-local :
      (e : End) (i : Answer) (s : Shared) (buf : Bytes) (p : Local)
      → length buf ≡ default_copy_io_buffer_size
      → FitsLocal (length buf) p
      → IsLawfulLocal e i s buf p
      → IsLawfulAt e i s (local_pc buf p)
  IsLawful-local e i s buf in_read z f l = (subst (λ n. length i.read ≤ n) z l.0, l.1)
  IsLawful-local e i s buf (in_write n er) z f l = (rw (length-take_le n buf f) l.0, l.1)
  IsLawful-local e i s buf entering z f l = tt
  IsLawful-local e i s buf at_top z f l = tt
  IsLawful-local e i s buf (arming_read t) z f l = tt
  IsLawful-local e i s buf (has_read n er) z f l = tt
  IsLawful-local e i s buf (arming_write t n er) z f l = tt
  IsLawful-local e i s buf (cleaning st er) z f l = tt

  -- What `net.Conn` answers for a buffer of full size is lawful for the bytes alone.
  pub IsLawful-place :
      (e : End) (i : Answer) (s : Shared) (h : Heap P) (p : Place)
      → IsSized P h
      → ((b : ℕ) → held p ≡ some b → b < h.next)
      → FitsPlace h.content p
      → IsLawfulPlace e i s h.content p
      → IsLawfulAt e i s (place_pc h.content p)
  IsLawful-place e i s h (running b p) v m f l =
      IsLawful-local e i s (h.content b) p (v b (m b refl)) f l
  IsLawful-place e i s h starting v m f l = tt
  IsLawful-place e i s h (finished er) v m f l = tt
  IsLawful-place e i s h panicked v m f l = tt
