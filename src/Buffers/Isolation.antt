-- ===== src/Buffers/Isolation.antt =====
-- What a goroutine does with its buffer leaves those of the others alone, and no goroutine panics
-- (internal/core/common.go).
use mos_tls_tunnel.Prelude.{
  ℕ, ◌≡◌, refl, sym, subst, some, ℤ, Bytes, Bool-cases, inl, inr, arith, length,
}
use mos_tls_tunnel.Tunnel.Worker.{Answer}
use mos_tls_tunnel.Buffers.{SyncPool, IsSyncPool, io_copybuff_pool}
use mos_tls_tunnel.Buffers.Thread.{Place, starting, running, finished, panicked}
use mos_tls_tunnel.Buffers.Process.{
  Gid, same, Process, start_process, process_step, IsLawfulStep, ProcessReach, started, stepped,
}
use mos_tls_tunnel.Buffers.Ownership.{held, ne_of_same}
use mos_tls_tunnel.Buffers.Exclusive.{Owned, Reach-IsOwned}
use mos_tls_tunnel.Buffers.Filling.{
  FitsLocal, FitsPlace, IsSized, step_place-KeepsOthers, step_place-IsSized, step_place-Fits,
}

FitsPlace-eq :
    (content content' : ℕ → Bytes) (p : Place)
    → ((b : ℕ) → held p ≡ some b → content' b ≡ content b)
    → FitsPlace content p
    → FitsPlace content' p
FitsPlace-eq content content' starting k f = tt
FitsPlace-eq content content' (running b p) k f =
    subst (λ c. FitsLocal (length c) p) (sym (k b refl)) f
FitsPlace-eq content content' (finished er) k f = tt
FitsPlace-eq content content' panicked k f = f

module _ (P : SyncPool) (I : IsSyncPool P) where
  pub record IsFilled (p : Process P) : Type 0 where
    pub sized : IsSized P p.heap
    pub fits : (g : Gid) → FitsPlace p.heap.content (p.threads g).place

  pub others :
      (g : Gid) (i : Answer) (p : Process P) (x : Gid)
      → Owned P I p
      → IsSized P p.heap
      → (g ≡ x → ⊥)
      → (b : ℕ) → held (p.threads x).place ≡ some b
      → (process_step P g i p).heap.content b ≡ p.heap.content b
  unfolding process_step
  others g i p x o z d b h =
      step_place-KeepsOthers P g.end i (p.threads g) (p.shared g.tunnel) p.heap z
        (p.threads g).place b (o.made x b h) (λ k. d (o.apart g x b k h))

  process_step-IsFilled :
      (g : Gid) (i : Answer) (p : Process P)
      → Owned P I p
      → IsFilled p
      → IsLawfulStep P g i p
      → IsFilled (process_step P g i p)
  unfolding process_step
  process_step-IsFilled g i p o v l = record {
    sized =
        step_place-IsSized P g.end i (p.threads g) (p.shared g.tunnel) p.heap v.sized
          (p.threads g).place l;
    fits = λ x. elim (Bool-cases (same g x)) [
      | inl q ↦ rw q (
          step_place-Fits P g.end i (p.threads g) (p.shared g.tunnel) p.heap v.sized
            (p.threads g).place refl (o.made g) l (v.fits g))
      | inr q ↦ rw q (
          FitsPlace-eq p.heap.content (process_step P g i p).heap.content (p.threads x).place
            (others g i p x o v.sized (ne_of_same g x q)) (v.fits x))
    ];
  }

  -- In every state of a process each buffer has the length `defaultCopyIOBufferSize`, no goroutine
  -- has come to the panic of `copyBuffer`, and none has more bytes in hand than fit into its
  -- buffer.
  pub Reach-IsFilled : {timeouts : ℕ → ℤ} {p : Process P} → ProcessReach P timeouts p → IsFilled p
  unfolding start_process io_copybuff_pool
  Reach-IsFilled started = record { sized = λ b h. absurd (omega arith); fits = λ g. tt }
  Reach-IsFilled (stepped {p} g i r l) =
      process_step-IsFilled g i p (Reach-IsOwned P I r) (Reach-IsFilled r) l
