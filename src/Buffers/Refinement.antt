-- ===== src/Buffers/Refinement.antt =====
-- The tunnels of a process that share their buffers are tunnels as `Tunnel.System` has them
-- (internal/core/common.go).
use mos_tls_tunnel.Prelude.{
  ℕ, ◌≡◌, ◌⊎◌, inl, inr, refl, sym, subst, true, false, ℤ, Bool-cases, ==_refl, ==_iff, ◌==◌,
}
use mos_tls_tunnel.Tunnel.Worker.{End, a_end, b_end, Answer, Worker, Shared}
use mos_tls_tunnel.Tunnel.System.{Reach, start, next, System, sys_step, IsLawful}
use mos_tls_tunnel.Buffers.{SyncPool, IsSyncPool, update}
use mos_tls_tunnel.Buffers.Thread.{worker_of, step_place}
use mos_tls_tunnel.Buffers.Process.{
  Gid, gid, same, Process, start_process, process_step, step_thread, IsLawfulStep, ProcessReach,
  started, stepped, view,
}
use mos_tls_tunnel.Buffers.Ownership.{ne_of_same}
use mos_tls_tunnel.Buffers.Exclusive.{Owned, Reach-IsOwned}
use mos_tls_tunnel.Buffers.Simulation.{
  Simulates, step_place-Simulates, IsLawful-place, worker_of-eq,
}
use mos_tls_tunnel.Buffers.Isolation.{IsFilled, others, Reach-IsFilled}

system_eq :
    {s s' : Shared} {a a' b b' : Worker}
    → s ≡ s'
    → a ≡ a'
    → b ≡ b'
    → Path System
        (record { shared = s; from_a = a; from_b = b })
        (record { shared = s'; from_a = a'; from_b = b' })
system_eq p q r = λ i. record { shared = p i; from_a = q i; from_b = r i }

module _ (P : SyncPool) (I : IsSyncPool P) where
  -- A step shows in one tunnel at most, as a step of it.
  abbrev Shows : Process P → ℕ → Gid → Answer → Process P → Type 0
  Shows p t g i p' =
      ((g.tunnel ≡ t) × (view P p' t ≡ sys_step g.end i (view P p t))) ⊎ (view P p' t ≡ view P p t)

  module _ (i : Answer) (p : Process P) (o : Owned P I p) (f : IsFilled P I p) where
    other_worker :
        (g x : Gid)
        → same g x ≡ false
        → worker_of (process_step P g i p).heap.content ((process_step P g i p).threads x)
          ≡ worker_of p.heap.content (p.threads x)
    unfolding process_step
    other_worker g x d = rw d (
        worker_of-eq p.heap.content (process_step P g i p).heap.content (p.threads x)
          (others P I g i p x o f.sized (ne_of_same g x d)))

    own_worker :
        (g : Gid)
        → IsLawfulStep P g i p
        → Simulates P g.end i
            (worker_of p.heap.content (p.threads g))
            (p.shared g.tunnel)
            (step_thread P g i p)
    unfolding step_place
    own_worker g l =
        step_place-Simulates P g.end i (p.threads g) (p.shared g.tunnel) p.heap (p.threads g).place
          refl l (f.fits g)

    -- The goroutine that steps, and what its tunnel shares.
    stepped_worker :
        (g : Gid)
        → same g g ≡ true
        → IsLawfulStep P g i p
        → Simulates P g.end i (worker_of p.heap.content (p.threads g)) (p.shared g.tunnel) (
          (process_step P g i p).threads g,
          (process_step P g i p).shared g.tunnel,
          (process_step P g i p).heap,
        )
    unfolding process_step
    stepped_worker g e l = rw (e, ==_refl g.tunnel) (own_worker g l)

    view_own :
        (e : End) (t : ℕ)
        → IsLawfulStep P (gid e t) i p
        → Shows p t (gid e t) i (process_step P (gid e t) i p)
    unfolding sys_step
    view_own a_end t l = elim (stepped_worker (gid a_end t) (==_refl t) l) [
      | inl (w, s) ↦ inl (refl, system_eq s w (other_worker (gid a_end t) (gid b_end t) refl))
      | inr (w, s) ↦ inr (system_eq s w (other_worker (gid a_end t) (gid b_end t) refl))
    ]
    view_own b_end t l = elim (stepped_worker (gid b_end t) (==_refl t) l) [
      | inl (w, s) ↦ inl (refl, system_eq s (other_worker (gid b_end t) (gid a_end t) refl) w)
      | inr (w, s) ↦ inr (system_eq s (other_worker (gid b_end t) (gid a_end t) refl) w)
    ]

    other_shared :
        (g : Gid) (t : ℕ) → (g.tunnel == t) ≡ false → (process_step P g i p).shared t ≡ p.shared t
    unfolding process_step
    other_shared g t d = rw (d, update)

    view_other :
        (e : End) (k t : ℕ)
        → (k == t) ≡ false
        → view P (process_step P (gid e k) i p) t ≡ view P p t
    view_other a_end k t d =
        system_eq (other_shared (gid a_end k) t d) (other_worker (gid a_end k) (gid a_end t) d)
          (other_worker (gid a_end k) (gid b_end t) refl)
    view_other b_end k t d =
        system_eq (other_shared (gid b_end k) t d) (other_worker (gid b_end k) (gid a_end t) refl)
          (other_worker (gid b_end k) (gid b_end t) d)

    view-process_step :
        (e : End) (k t : ℕ)
        → IsLawfulStep P (gid e k) i p
        → Shows p t (gid e k) i (process_step P (gid e k) i p)
    view-process_step e k t l = elim (Bool-cases (k == t)) [
      | inl q ↦
          subst (λ n. Shows p n (gid e k) i (process_step P (gid e k) i p)) ((==_iff k t).0 q)
            (view_own e k l)
      | inr q ↦ inr (view_other e k t q)
    ]

    IsLawful-view : (e : End) (k : ℕ) → IsLawfulStep P (gid e k) i p → IsLawful e i (view P p k)
    IsLawful-view a_end k l =
        IsLawful-place P a_end i (p.shared k) p.heap _ f.sized (o.made (gid a_end k))
          (f.fits (gid a_end k)) l
    IsLawful-view b_end k l =
        IsLawful-place P b_end i (p.shared k) p.heap _ f.sized (o.made (gid b_end k))
          (f.fits (gid b_end k)) l

  -- In a process whose goroutines share the buffers of one `sync.Pool`, which keeps what it
  -- documents, and interleave in any order, each tunnel goes only through states that it can
  -- reach on its own, with bytes of its own for each goroutine in place of a shared buffer.
  pub view-Reach :
      {timeouts : ℕ → ℤ} {p : Process P}
      → ProcessReach P timeouts p
      → (t : ℕ) → Reach (timeouts t) (view P p t)
  unfolding start_process
  view-Reach started t = start
  view-Reach {timeouts} (stepped {p} g i r l) t =
      elim (view-process_step i p (Reach-IsOwned P I r) (Reach-IsFilled P I r) g.end g.tunnel t l) [
        | inl (q, e) ↦
            subst (λ v. Reach (timeouts t) v) (sym e)
              (next g.end i (view-Reach r t) (
                subst (λ n. IsLawful g.end i (view P p n)) q
                  (IsLawful-view i p (Reach-IsOwned P I r) (Reach-IsFilled P I r) g.end g.tunnel
                    l)))
        | inr e ↦ subst (λ v. Reach (timeouts t) v) (sym e) (view-Reach r t)
      ]
