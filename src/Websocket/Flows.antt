-- ===== src/Websocket/Flows.antt =====
-- Where the bytes of the local client are: in the tunnels and on the link between them
-- (internal/core/common.go and internal/core/websocket.go).
use mos_tls_tunnel.Prelude.{
  ℕ, ◌≡◌, ◌≢◌, refl, sym, ap, ◌∙◌, subst, Option, none, some, List, [], ◌∷◌, ◌++◌, arith, Bytes,
  length, take, append_assoc, append-nil, take-length_le, Option-cases, inl, inr,
}
use mos_tls_tunnel.Tunnel.FirstErr.{IoError}
use mos_tls_tunnel.Tunnel.Worker.{End, reading, writing, Worker, Answer}
use mos_tls_tunnel.Tunnel.System.{System, worker, sys_step}
use mos_tls_tunnel.Tunnel.Invariant.{Accounts}
use mos_tls_tunnel.Websocket.{Ws, Wrapper, Read}
use mos_tls_tunnel.Websocket.Messages.{concat-append}
use mos_tls_tunnel.Websocket.Reading.{IsWs, left_over, stream, concat, Reads, gives, ends, breaks}
use mos_tls_tunnel.Websocket.Route.{
  IsReading, IsWriting, AnswersRead, Network, arrived, Delivers, delivered, lost, Route,
}
use mos_tls_tunnel.Websocket.Moves.{
  HasFailed, gained, passed_on, sys_step_moves, was_well, no_gain, no_pass, write_fails, read_fails,
}

-- A write reads nothing.
write_reads_nothing :
    (e : End) (i : Answer) (s : System) (buf : Bytes) (er : Option IoError)
    → (worker e s).pc ≡ writing buf er
    → (worker e (sys_step e i s)).received ≡ (worker e s).received
write_reads_nothing e i s buf er p =
    (sys_step_moves e i s).0
    ∙ ap (λ x. (worker e s).received ++ gained x i) p
    ∙ append-nil (worker e s).received

write_passes_all :
    (e : End) (i : Answer) (s : System) (buf : Bytes) (er : Option IoError)
    → (worker e s).pc ≡ writing buf er
    → i.nw ≡ length buf
    → (worker e (sys_step e i s)).sent ≡ (worker e s).sent ++ buf
write_passes_all e i s buf er p h =
    (sys_step_moves e i s).1
    ∙ ap (λ x. (worker e s).sent ++ passed_on x i) p
    ∙ ap (λ (x : ℕ). (worker e s).sent ++ take x buf) h
    ∙ ap (◌++◌ (worker e s).sent) (take-length_le (length buf) buf (omega arith))

read_nothing :
    (e : End) (i : Answer) (s : System)
    → (worker e s).pc ≡ reading
    → i.read ≡ []
    → (worker e (sys_step e i s)).received ≡ (worker e s).received
read_nothing e i s p h =
    (sys_step_moves e i s).0
    ∙ ap (λ x. (worker e s).received ++ gained x i) p
    ∙ ap (◌++◌ (worker e s).received) h
    ∙ append-nil (worker e s).received

module _ (W : Ws) (I : IsWs W) (N : Network W I) where
  -- While no call on the link has failed, the bytes of the link are those between what was written to
  -- it and what was read from it.
  pub record Flows (near far : Worker) (link : Bytes) : Type 0 where
    pub in_step :
        (HasFailed near.pc → ⊥) → (HasFailed far.pc → ⊥) → near.sent ≡ far.received ++ link
    pub coming :
        (HasFailed far.pc → ⊥) → (rest : Bytes) × (near.received ≡ (far.received ++ link) ++ rest)
    pub come : (rest : Bytes) × (near.received ≡ far.received ++ rest)

  abbrev pub FlowsIn : End → End → Route W I N → Type 0
  FlowsIn e e' ρ = Flows (worker e ρ.near) (worker e' ρ.far) (stream W I ρ.receiver)

  stream-arrived : (b : Bytes) (r : Wrapper W) → stream W I (arrived W I N b r) ≡ stream W I r ++ b
  unfolding stream concat
  stream-arrived b r =
      ap (λ (ms : List Bytes). left_over W I r.reader ++ concat ms) (N.messages-arrive b r.ws)
      ∙ ap (◌++◌ (left_over W I r.reader)) (
          concat-append (I.messages r.ws) (b ∷ [])
          ∙ ap (◌++◌ (concat (I.messages r.ws))) (append-nil b))
      ∙ sym (append_assoc (left_over W I r.reader) (concat (I.messages r.ws)) b)

  -- More bytes are read from the local client.
  pub near_moves-Flows :
      (e e' : End) (i : Answer) (ρ : Route W I N)
      → (IsWriting (worker e ρ.near).pc → ⊥)
      → FlowsIn e e' ρ
      → FlowsIn e e' (record ρ { near = sys_step e i ρ.near })
  near_moves-Flows e e' i ρ n v =
      let m = sys_step_moves e i ρ.near in
      let more = gained (worker e ρ.near).pc i in
      record {
        in_step = λ h k.
            m.1
            ∙ ap (◌++◌ (worker e ρ.near).sent) (no_pass (worker e ρ.near).pc i n)
            ∙ append-nil (worker e ρ.near).sent
            ∙ v.in_step (was_well e i ρ.near h) k;
        coming = λ h.
            let (rest, q) = v.coming h in
            (rest ++ more, m.0 ∙ ap (λ (x : Bytes). x ++ more) q ∙ append_assoc _ rest more);
        come =
            let (rest, q) = v.come in
            (rest ++ more, m.0 ∙ ap (λ (x : Bytes). x ++ more) q ∙ append_assoc _ rest more);
      }

  pub far_moves-Flows :
      (e e' : End) (i : Answer) (ρ : Route W I N)
      → (IsReading (worker e' ρ.far).pc → ⊥)
      → FlowsIn e e' ρ
      → FlowsIn e e' (record ρ { far = sys_step e' i ρ.far })
  far_moves-Flows e e' i ρ n v =
      let same : (worker e' (sys_step e' i ρ.far)).received ≡ (worker e' ρ.far).received =
        (sys_step_moves e' i ρ.far).0
        ∙ ap (◌++◌ (worker e' ρ.far).received) (no_gain (worker e' ρ.far).pc i n)
        ∙ append-nil (worker e' ρ.far).received in
      record {
        in_step = λ h k. rw same (v.in_step h (was_well e' i ρ.far k));
        coming = λ h. rw same (v.coming (was_well e' i ρ.far h));
        come = rw same v.come;
      }

  -- What a read of the link gives moves from the link to the far goroutine.
  pub far_reads-Flows :
      (e e' : End) (i : Answer) (ρ : Route W I N) (r : Wrapper W × Read)
      → (worker e' ρ.far).pc ≡ reading
      → Reads W I (stream W I ρ.receiver) r
      → AnswersRead r.1 i
      → FlowsIn e e' ρ
      → FlowsIn e e' (record ρ { far = sys_step e' i ρ.far; receiver = r.0 })
  far_reads-Flows e e' i ρ _ p (gives w b bs q) a v =
      let m : (worker e' (sys_step e' i ρ.far)).received ≡ (worker e' ρ.far).received ++ (b ∷ bs) =
        (sys_step_moves e' i ρ.far).0
        ∙ ap (λ x. (worker e' ρ.far).received ++ gained x i) p
        ∙ ap (◌++◌ (worker e' ρ.far).received) a.0 in
      let same : (worker e' (sys_step e' i ρ.far)).received ++ stream W I w
          ≡ (worker e' ρ.far).received ++ stream W I ρ.receiver =
        ap (λ (x : Bytes). x ++ stream W I w) m
        ∙ append_assoc (worker e' ρ.far).received (b ∷ bs) (stream W I w)
        ∙ ap (◌++◌ (worker e' ρ.far).received) (sym q) in
      record {
        in_step = λ h k. v.in_step h (was_well e' i ρ.far k) ∙ sym same;
        coming = λ h.
            let (rest, c) = v.coming (was_well e' i ρ.far h) in
            (rest, c ∙ ap (λ (x : Bytes). x ++ rest) (sym same));
        come =
            let (rest, c) = v.coming (λ l. subst HasFailed p l) in
            (
              stream W I w ++ rest,
              c
                  ∙ ap (λ (x : Bytes). x ++ rest) (sym same)
                  ∙ append_assoc (worker e' (sys_step e' i ρ.far)).received (stream W I w) rest,
            );
      }
  far_reads-Flows e e' i ρ _ p (ends w x q t) a v =
      let m = read_nothing e' i ρ.far p a.0 in
      let same : stream W I w ≡ stream W I ρ.receiver = t ∙ sym q in
      record {
        in_step = λ h k. rw (m, same) (v.in_step h (was_well e' i ρ.far k));
        coming = λ h. rw (m, same) (v.coming (was_well e' i ρ.far h));
        come = rw m v.come;
      }
  far_reads-Flows e e' i ρ _ p (breaks w n) a v =
      let l = read_fails e' i ρ.far n p a.0 a.1 in
      record {
        in_step = λ h k. absurd (k l);
        coming = λ h. absurd (h l);
        come = rw (read_nothing e' i ρ.far p a.0) v.come;
      }

  -- A message that is written comes to the link; where the write failed, it may have come or not.
  pub near_writes-Flows :
      (e e' : End) (i : Answer) (ρ : Route W I N) (buf : Bytes) (er : Option IoError)
      (s r : Wrapper W) (x : Option ℕ)
      → Accounts (worker e ρ.near).pc (worker e ρ.near).received (worker e ρ.near).sent
      → (worker e ρ.near).pc ≡ writing buf er
      → (x ≡ none → i.nw ≡ length buf)
      → ((n : ℕ) → x ≡ some n → i.ew ≢ none)
      → Delivers W I N buf ρ.receiver x r
      → FlowsIn e e' ρ
      → FlowsIn e e' (record ρ { near = sys_step e i ρ.near; sender = s; receiver = r })
  near_writes-Flows e e' i ρ buf er s _ x acc p ok bad (delivered _) v =
      let same = write_reads_nothing e i ρ.near buf er p in
      let well : HasFailed (worker e ρ.near).pc → ⊥ = λ l. subst HasFailed p l in
      let far = (worker e' ρ.far).received in
      let link = stream W I ρ.receiver in
      let moved : (k : HasFailed (worker e' ρ.far).pc → ⊥)
          → (worker e ρ.near).sent ++ buf ≡ far ++ stream W I (arrived W I N buf ρ.receiver) =
        λ k.
          ap (λ (y : Bytes). y ++ buf) (v.in_step well k)
          ∙ append_assoc far link buf
          ∙ ap (◌++◌ far) (sym (stream-arrived buf ρ.receiver)) in
      record {
        in_step = λ h k. elim (Option-cases x) [
          | inl q ↦ write_passes_all e i ρ.near buf er p (ok q) ∙ moved k
          | inr (n, q) ↦ absurd (h (write_fails e i ρ.near buf er p (bad n q)))
        ];
        coming = λ k. (
          [],
          same
              ∙ subst (λ y. Accounts y (worker e ρ.near).received (worker e ρ.near).sent) p acc
              ∙ moved k
              ∙ sym (append-nil (far ++ stream W I (arrived W I N buf ρ.receiver))),
        );
        come = rw same v.come;
      }
  near_writes-Flows e e' i ρ buf er s _ _ acc p ok bad (lost n) v =
      let l = write_fails e i ρ.near buf er p (bad n refl) in
      let same = write_reads_nothing e i ρ.near buf er p in
      record {
        in_step = λ h k. absurd (h l);
        coming = λ k. rw same (v.coming k);
        come = rw same v.come;
      }
