-- ===== src/Buffers/Exclusive.antt =====
-- No buffer of `ioCopybuffPool` is used by two goroutines at a time (internal/core/common.go).
use mos_tls_tunnel.Prelude.{
  ℕ, ◌≡◌, refl, fun_ext, Option, none, some, arith, ℤ, inl, inr, Bool-cases, Bytes, length, ◌==◌,
}
use mos_tls_tunnel.Tunnel.FirstErr.{IoError}
use mos_tls_tunnel.Tunnel.Worker.{
  End, Shared, Stage, reporting, storing, expiring_src, expiring_dst, closing_src, closing_dst,
  returned, Answer,
}
use mos_tls_tunnel.Buffers.{
  SyncPool, IsSyncPool, Gets, Heap, io_copybuff_pool, got_buf, new_buf, acquire_io_buf,
  release_io_buf,
}
use mos_tls_tunnel.Buffers.Thread.{
  Local, entering, at_top, arming_read, in_read, has_read, arming_write, in_write, cleaning, Place,
  starting, running, finished, panicked, Thread, enter, step_cleaning, step_local, step_place,
}
use mos_tls_tunnel.Buffers.Process.{
  Gid, same, update_at, Process, start_process, process_step, step_thread, ProcessReach, started,
  stepped,
}
use mos_tls_tunnel.Buffers.Ownership.{
  held, IsOwned, Effect, keeps, reuses, makes, releases, Effect-IsOwned,
}

module _ (P : SyncPool) (I : IsSyncPool P) where
  abbrev pub EffectOf : Place → Heap P → Thread × Shared × Heap P → Type 0
  EffectOf p h r =
      Effect (held p) (I.count h.pool) h.next (held r.0.place) (I.count r.2.pool) r.2.next

  -- A goroutine gives its buffer back only behind the code that uses it.
  step_cleaning-Effect :
      (e : End) (b : ℕ) (st : Stage) (err : Option IoError) (w : Thread) (s : Shared) (h : Heap P)
      → EffectOf (running b (cleaning st err)) h (step_cleaning P e b st err w s h)
  unfolding step_cleaning release_io_buf
  step_cleaning-Effect e b returned err w s h = releases b refl refl (I.put_lem b h.pool) refl
  step_cleaning-Effect e b reporting err w s h = keeps refl (λ a. omega arith) refl
  step_cleaning-Effect e b storing err w s h = keeps refl (λ a. omega arith) refl
  step_cleaning-Effect e b expiring_src err w s h = keeps refl (λ a. omega arith) refl
  step_cleaning-Effect e b expiring_dst err w s h = keeps refl (λ a. omega arith) refl
  step_cleaning-Effect e b closing_src err w s h = keeps refl (λ a. omega arith) refl
  step_cleaning-Effect e b closing_dst err w s h = keeps refl (λ a. omega arith) refl

  got_buf-Effect :
      (h : Heap P) (r : P.State × Option ℕ)
      → Gets I.count h.pool r
      → Effect none
          (I.count h.pool)
          h.next
          (some (got_buf P h r).0)
          (I.count (got_buf P h r).1.pool)
          (got_buf P h r).1.next
  unfolding got_buf new_buf
  got_buf-Effect h (s, none) g = makes refl refl g refl
  got_buf-Effect h (s, some b) g = reuses b refl refl g refl

  enter-Effect :
      (b : ℕ) (w : Thread) (buf : Bytes) (s : Shared) (h : Heap P)
      → EffectOf (running b entering) h (enter b w buf, s, h)
  unfolding enter
  enter-Effect b w buf s h = elim (Bool-cases (length buf == 0)) [
    | inl e ↦ rw (e, enter) (releases b refl refl (λ a. omega arith) refl)
    | inr e ↦ rw (e, enter) (keeps refl (λ a. omega arith) refl)
  ]

  step_local-Effect :
      (e : End) (i : Answer) (b : ℕ) (p : Local) (w : Thread) (s : Shared) (h : Heap P)
      → EffectOf (running b p) h (step_local P e i b p w s h)
  unfolding step_local
  step_local-Effect e i b entering w s h = enter-Effect b w (h.content b) s h
  step_local-Effect e i b at_top w s h = keeps refl (λ a. omega arith) refl
  step_local-Effect e i b (arming_read t) w s h = keeps refl (λ a. omega arith) refl
  step_local-Effect e i b in_read w s h = keeps refl (λ a. omega arith) refl
  step_local-Effect e i b (has_read n er) w s h = keeps refl (λ a. omega arith) refl
  step_local-Effect e i b (arming_write t n er) w s h = keeps refl (λ a. omega arith) refl
  step_local-Effect e i b (in_write n er) w s h = keeps refl (λ a. omega arith) refl
  step_local-Effect e i b (cleaning st er) w s h = step_cleaning-Effect e b st er w s h

  pub step_place-Effect :
      (e : End) (i : Answer) (p : Place) (w : Thread) (s : Shared) (h : Heap P)
      → w.place ≡ p
      → EffectOf p h (step_place P e i p w s h)
  unfolding step_place acquire_io_buf
  step_place-Effect e i starting w s h q = got_buf-Effect h (P.get h.pool) (I.get_lem h.pool)
  step_place-Effect e i (running b p) w s h q = step_local-Effect e i b p w s h
  step_place-Effect e i (finished er) w s h q = keeps (rw q) (λ a. omega arith) refl
  step_place-Effect e i panicked w s h q = keeps (rw q) (λ a. omega arith) refl

  abbrev pub owner : Process P → Gid → Option ℕ
  owner p g = held (p.threads g).place

  abbrev pub Owned : Process P → Type 0
  Owned p = IsOwned (owner p) (I.count p.heap.pool) p.heap.next

  owner-process_step :
      (g : Gid) (i : Answer) (p : Process P)
      → owner (process_step P g i p) ≡ update_at g (held (step_thread P g i p).0.place) (owner p)
  unfolding process_step
  owner-process_step g i p =
      fun_ext (λ x. elim (Bool-cases (same g x)) [ inl e ↦ rw e | inr e ↦ rw e ])

  process_step-IsOwned :
      (g : Gid) (i : Answer) (p : Process P) → Owned p → Owned (process_step P g i p)
  process_step-IsOwned g i p v = rw (owner-process_step g i p) (
      unfold process_step in
      Effect-IsOwned v g (
        step_place-Effect g.end i (p.threads g).place (p.threads g) (p.shared g.tunnel) p.heap
          refl))

  -- In every state of a process, however its goroutines interleave: a buffer that a goroutine has
  -- acquired and not released is held by no other goroutine and is not in the pool, no buffer
  -- is in the pool twice, and all of them were made by `New`.
  pub Reach-IsOwned : {timeouts : ℕ → ℤ} {p : Process P} → ProcessReach P timeouts p → Owned p
  unfolding start_process io_copybuff_pool
  Reach-IsOwned started = record {
    made = λ g b h. absurd (cc);
    apart = λ g g' b h k. absurd (cc);
    free = λ g b h. absurd (cc);
    pooled_once = λ b. omega (arith, I.count-empty b);
    pooled_made = λ b h. absurd (omega (arith, I.count-empty b));
  }
  Reach-IsOwned (stepped {p} g i r l) = process_step-IsOwned g i p (Reach-IsOwned r)
