-- ===== src/Tunnel/Safety.antt =====
-- What a tunnel promises in every interleaving.
use mos_tls_tunnel.Prelude.{
  ◌≡◌, ◌≢◌, ◌⊎◌, inl, inr, sym, subst, ◌∙◌, true, Option, none, some, [], ◌++◌, Bytes, ℤ, pos,
  length, append-nil,
}
use mos_tls_tunnel.Tunnel.FirstErr.{IoError, get_err}
use mos_tls_tunnel.Tunnel.Worker.{
  End, a_end, b_end, opposite, unset, conn, Stage, returned, Pc, top, arm_read, reading, got,
  arm_write, writing, cleanup,
}
use mos_tls_tunnel.Tunnel.System.{System, worker, Reach, result}
use mos_tls_tunnel.Tunnel.Invariant.{Accounts, AccountsEnd, Cleaned, IsTimed, WorkerInv}
use mos_tls_tunnel.Tunnel.Preserved.{ReportedWith, Reach-Inv}

pub Reach-WorkerInv :
    {timeout : ℤ} {s : System} (e : End) → Reach timeout s → WorkerInv e (worker e s) s.shared
Reach-WorkerInv a_end r = (Reach-Inv r).inv_a
Reach-WorkerInv b_end r = (Reach-Inv r).inv_b

AccountsEnd-prefix :
    (err : Option IoError) (received sent : Bytes)
    → AccountsEnd err received sent
    → (rest : Bytes) × (received ≡ sent ++ rest)
AccountsEnd-prefix none received sent h = ([], h ∙ sym (append-nil sent))
AccountsEnd-prefix (some e) received sent h = h

Accounts-prefix :
    (p : Pc) (received sent : Bytes)
    → Accounts p received sent
    → (rest : Bytes) × (received ≡ sent ++ rest)
Accounts-prefix top received sent h = ([], h ∙ sym (append-nil sent))
Accounts-prefix (arm_read d) received sent h = ([], h ∙ sym (append-nil sent))
Accounts-prefix reading received sent h = ([], h ∙ sym (append-nil sent))
Accounts-prefix (got buf er) received sent h = (buf, h)
Accounts-prefix (arm_write d buf er) received sent h = (buf, h)
Accounts-prefix (writing buf er) received sent h = (buf, h)
Accounts-prefix (cleanup st err) received sent h = AccountsEnd-prefix err received sent h

-- At any moment and in either direction, the bytes written to one connection are a prefix of the
-- bytes read from the other, in order and unchanged, and `written` counts them.
pub delivered_prefix :
    {timeout : ℤ} {s : System} (e : End)
    → Reach timeout s
    → ((worker e s).written ≡ length (worker e s).sent)
      × ((rest : Bytes) × ((worker e s).received ≡ (worker e s).sent ++ rest))
delivered_prefix {s} e r =
    let v = Reach-WorkerInv e r in (v.counted, Accounts-prefix (worker e s).pc _ _ v.accounts)

-- A direction that ends with no error has delivered every byte that it read.
pub delivered_all :
    {timeout : ℤ} {s : System} (e : End) (stage : Stage)
    → Reach timeout s
    → (worker e s).pc ≡ cleanup stage none
    → (worker e s).received ≡ (worker e s).sent
delivered_all {s} e stage r h =
    subst (λ p. Accounts p (worker e s).received (worker e s).sent) h (Reach-WorkerInv e r).accounts

-- When one goroutine has returned, both connections are closed and the idle timeout is zero.
pub returned_closes :
    {timeout : ℤ} {s : System} {err : Option IoError} (e : End)
    → Reach timeout s
    → (worker e s).pc ≡ cleanup returned err
    → (s.shared.a.closed ≡ true) × (s.shared.b.closed ≡ true) × (s.shared.mu_timeout ≡ pos 0)
returned_closes {s} a_end r h =
    let c = subst (λ p. Cleaned a_end p s.shared) h (Reach-WorkerInv a_end r).cleaned in
    (c.2, c.3, c.1)
returned_closes {s} b_end r h =
    let c = subst (λ p. Cleaned b_end p s.shared) h (Reach-WorkerInv b_end r).cleaned in
    (c.3, c.2, c.1)

-- When both goroutines have returned, `openTunnel` returns what one of them ended with: `nil` only
-- if one of them had no error.
pub result_of_first :
    {timeout : ℤ} {s : System} {ea eb : Option IoError}
    → Reach timeout s
    → s.from_a.pc ≡ cleanup returned ea
    → s.from_b.pc ≡ cleanup returned eb
    → (result s ≡ ea) ⊎ (result s ≡ eb)
unfolding result get_err
result_of_first {s} {ea} {eb} r ha hb =
    let v = Reach-Inv r in
    let c = subst (λ p. Cleaned a_end p s.shared) ha v.inv_a.cleaned in
    elim (v.first c.0) [
      | inl x ↦ inl (subst (λ p. ReportedWith p s.shared.fe.stored) ha x)
      | inr x ↦ inr (subst (λ p. ReportedWith p s.shared.fe.stored) hb x)
    ]

-- No goroutine is ever inside a read for which no deadline was set.
pub reading_has_deadline :
    {timeout : ℤ} {s : System} (e : End)
    → Reach timeout s
    → (worker e s).pc ≡ reading
    → (conn e s.shared).read_deadline ≢ unset
reading_has_deadline {s} e r h = subst (λ p. IsTimed e p s.shared) h (Reach-WorkerInv e r).timed

-- No goroutine is ever inside a write for which no deadline was set.
pub writing_has_deadline :
    {timeout : ℤ} {s : System} {buf : Bytes} {er : Option IoError} (e : End)
    → Reach timeout s
    → (worker e s).pc ≡ writing buf er
    → (conn (opposite e) s.shared).write_deadline ≢ unset
writing_has_deadline {s} e r h = subst (λ p. IsTimed e p s.shared) h (Reach-WorkerInv e r).timed
