-- ===== src/Buffers/Ownership.antt =====
-- No buffer of `ioCopybuffPool` is used by two goroutines at a time (internal/core/common.go).
use mos_tls_tunnel.Prelude.{
  ℕ, suc, ◌+◌, ◌≤◌, ◌<◌, ◌≡◌, ◌⊎◌, inl, inr, sym, ap, ◌∙◌, subst, true, false, Option, none, some,
  arith, Bool-cases, dec_le, ==_refl, ◌==◌, ==_iff,
}
use mos_tls_tunnel.Tunnel.Worker.{End, a_end, b_end}
use mos_tls_tunnel.Buffers.{one_if}
use mos_tls_tunnel.Buffers.Thread.{Place, running}
use mos_tls_tunnel.Buffers.Process.{Gid, same, update_at}

-- The buffer of a goroutine between `acquireIOBuf` and `releaseIOBuf`.
abbrev pub held : Place → Option ℕ
held (running b p) = some b
held _ = none

-- `own` gives the buffer of each goroutine, `count` what is in the pool.
pub record IsOwned (own : Gid → Option ℕ) (count : ℕ → ℕ) (next : ℕ) : Type 0 where
  pub made : (g : Gid) (b : ℕ) → own g ≡ some b → b < next
  pub apart : (g g' : Gid) (b : ℕ) → own g ≡ some b → own g' ≡ some b → g ≡ g'
  pub free : (g : Gid) (b : ℕ) → own g ≡ some b → count b ≡ 0
  pub pooled_once : (b : ℕ) → count b ≤ 1
  pub pooled_made : (b : ℕ) → 1 ≤ count b → b < next

pub same-cases : (g g' : Gid) → (g ≡ g') ⊎ (same g g' ≡ false)
same-cases g g' = elim (Bool-cases (same g g')) [
  | inl e ↦ inl (same→eq g.end g'.end g.tunnel g'.tunnel e)
  | inr e ↦ inr e
]
  where
    same→eq :
        (e e' : End) (t t' : ℕ)
        → same (record { end = e; tunnel = t }) (record { end = e'; tunnel = t' }) ≡ true
        → Path Gid (record { end = e; tunnel = t }) (record { end = e'; tunnel = t' })
    same→eq a_end a_end t t' h = ground arith
    same→eq b_end b_end t t' h = ground arith
    same→eq a_end b_end t t' h = ground arith
    same→eq b_end a_end t t' h = ground arith

same_refl :
    (e : End) (t : ℕ)
    → same (record { end = e; tunnel = t }) (record { end = e; tunnel = t }) ≡ true
same_refl a_end t = ==_refl t
same_refl b_end t = ==_refl t

pub ne_of_same : (g x : Gid) → same g x ≡ false → g ≡ x → ⊥
ne_of_same g x e q = cc (same_refl x.end x.tunnel, subst (λ y. same y x ≡ false) q e)

-- What a step does to the buffer of its goroutine, to the pool and to the number of buffers made.
pub data Effect (o : Option ℕ) (c : ℕ → ℕ) (n : ℕ) (o' : Option ℕ) (c' : ℕ → ℕ) (n' : ℕ)
    : Type 0 where
  keeps : o' ≡ o → ((a : ℕ) → c' a ≤ c a) → n' ≡ n → Effect o c n o' c' n'
  reuses :
      (b : ℕ)
      → o ≡ none
      → o' ≡ some b
      → ((a : ℕ) → c' a + one_if b a ≤ c a)
      → n' ≡ n
      → Effect o c n o' c' n'
  makes : o ≡ none → o' ≡ some n → ((a : ℕ) → c' a ≤ c a) → n' ≡ suc n → Effect o c n o' c' n'
  releases :
      (b : ℕ)
      → o ≡ some b
      → o' ≡ none
      → ((a : ℕ) → c' a ≤ c a + one_if b a)
      → n' ≡ n
      → Effect o c n o' c' n'

-- What holds a buffer after the update: the goroutine that stepped, or another one.
update_at_cases :
    (g : Gid) (o : Option ℕ) (own : Gid → Option ℕ) (x : Gid) (b : ℕ)
    → update_at g o own x ≡ some b
    → ((g ≡ x) × (o ≡ some b)) ⊎ ((own x ≡ some b) × (g ≡ x → ⊥))
update_at_cases g o own x b h = elim (same-cases g x) [
  | inl e ↦ inl (e, own_part e h)
  | inr e ↦ inr (rw e at h, ne_of_same g x e)
]
  where
    own_part : g ≡ x → update_at g o own x ≡ some b → o ≡ some b
    own_part e k = rw (subst (λ y. same g y ≡ true) e (same_refl g.end g.tunnel)) at k

not_pooled :
    {own : Gid → Option ℕ} {c : ℕ → ℕ} {n : ℕ} → IsOwned own c n → (b : ℕ) → n ≤ b → c b ≡ 0
not_pooled {own} {c} v b h = elim (dec_le 1 (c b)) [
  | yes p ↦ absurd (omega (arith, v.pooled_made b p))
  | no p ↦ omega arith
]

module _ {own : Gid → Option ℕ} {c c' : ℕ → ℕ} {n n' : ℕ} (v : IsOwned own c n) (g : Gid)
    {o : Option ℕ} where
  -- The buffer that its goroutine holds after a step was its own before, or nobody's.
  Effect-held :
      Effect (own g) c n o c' n'
      → (b : ℕ) → o ≡ some b
      → (c' b ≡ 0) × (b < n') × ((own g ≡ some b) ⊎ ((x : Gid) → own x ≡ some b → ⊥))
  Effect-held (keeps e d m) b h =
      let k : own g ≡ some b = sym e ∙ h in
      (omega (arith, d b, v.free g b k), omega (arith, v.made g b k, m), inl k)
  Effect-held (reuses b' e f d m) b h =
      let q : b' ≡ b = cc in
      (
        omega (arith, d b, v.pooled_once b, eq_one q),
        omega (arith, d b, v.pooled_made b, eq_one q, m),
        inr (λ x k. omega (arith, d b, v.free x b k, eq_one q)),
      )
    where
      eq_one : {a b : ℕ} → a ≡ b → one_if a b ≡ 1
      eq_one {a} {b} q = ground arith
  Effect-held (makes e f d m) b h =
      let q : n ≡ b = cc in
      (
        omega (arith, d b, not_pooled v b (omega (arith, q))),
        omega (arith, q, m),
        inr (λ x k. omega (arith, v.made x b k, q)),
      )
  Effect-held (releases b' e f d m) b h = absurd (cc)

  Effect-mono : Effect (own g) c n o c' n' → n ≤ n'
  Effect-mono (keeps e d m) = omega arith
  Effect-mono (reuses b' e f d m) = omega arith
  Effect-mono (makes e f d m) = omega arith
  Effect-mono (releases b' e f d m) = omega arith

  -- A step puts no buffer of another goroutine into the pool.
  Effect-free :
      Effect (own g) c n o c' n' → (x : Gid) (b : ℕ) → own x ≡ some b → (g ≡ x → ⊥) → c' b ≡ 0
  Effect-free (keeps e d m) x b h d' = omega (arith, d b, v.free x b h)
  Effect-free (reuses b' e f d m) x b h d' = omega (arith, d b, v.free x b h)
  Effect-free (makes e f d m) x b h d' = omega (arith, d b, v.free x b h)
  Effect-free (releases b' e f d m) x b h d' = elim (Bool-cases (b' == b)) [
    | inl q ↦ absurd (d' (v.apart g x b (e ∙ ap some ((==_iff b' b).0 q)) h))
    | inr q ↦ omega (arith, rw q at (d b), v.free x b h)
  ]

  Effect-pooled : Effect (own g) c n o c' n' → (b : ℕ) → (c' b ≤ 1) × (1 ≤ c' b → b < n')
  Effect-pooled (keeps e d m) b =
      (omega (arith, d b, v.pooled_once b), λ h. omega (arith, d b, v.pooled_made b, m))
  Effect-pooled (reuses b' e f d m) b =
      (omega (arith, d b, v.pooled_once b), λ h. omega (arith, d b, v.pooled_made b, m))
  Effect-pooled (makes e f d m) b =
      (omega (arith, d b, v.pooled_once b), λ h. omega (arith, d b, v.pooled_made b, m))
  Effect-pooled (releases b' e f d m) b = elim (Bool-cases (b' == b)) [
    | inl q ↦ (
      omega (arith, rw q at (d b), v.free g b (e ∙ ap some ((==_iff b' b).0 q))),
      λ h. omega (arith, v.made g b (e ∙ ap some ((==_iff b' b).0 q)), m),
    )
    | inr q ↦ (
      omega (arith, rw q at (d b), v.pooled_once b),
      λ h. omega (arith, rw q at (d b), v.pooled_made b, m),
    )
  ]

  -- Every such step keeps buffers apart.
  pub Effect-IsOwned : Effect (own g) c n o c' n' → IsOwned (update_at g o own) c' n'
  Effect-IsOwned f = record {
    made = λ x b h. elim (update_at_cases g o own x b h) [
      | inl (e, k) ↦ (Effect-held f b k).1
      | inr (k, d) ↦ omega (arith, v.made x b k, Effect-mono f)
    ];
    apart = λ x y b h k. both x y b (update_at_cases g o own x b h) (update_at_cases g o own y b k);
    free = λ x b h. elim (update_at_cases g o own x b h) [
      | inl (e, k) ↦ (Effect-held f b k).0
      | inr (k, d) ↦ Effect-free f x b k d
    ];
    pooled_once = λ b. (Effect-pooled f b).0;
    pooled_made = λ b. (Effect-pooled f b).1;
  }
    where
      taken : (x y : Gid) (b : ℕ) → g ≡ x → o ≡ some b → own y ≡ some b → (g ≡ y → ⊥) → x ≡ y
      taken x y b e k l d = elim (Effect-held f b k).2 [
        | inl m ↦ absurd (d (v.apart g y b m l))
        | inr none_held ↦ absurd (none_held y l)
      ]

      both :
          (x y : Gid) (b : ℕ)
          → ((g ≡ x) × (o ≡ some b)) ⊎ ((own x ≡ some b) × (g ≡ x → ⊥))
          → ((g ≡ y) × (o ≡ some b)) ⊎ ((own y ≡ some b) × (g ≡ y → ⊥))
          → x ≡ y
      both x y b (inl (e, k)) (inl (e', k')) = sym e ∙ e'
      both x y b (inl (e, k)) (inr (l, d)) = taken x y b e k l d
      both x y b (inr (l, d)) (inl (e, k)) = sym (taken y x b e k l d)
      both x y b (inr (l, d)) (inr (l', d')) = v.apart x y b l l'
