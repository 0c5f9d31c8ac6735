-- ===== src/Websocket/EndToEnd.antt =====
-- What the destination is sent over WebSocket is what the local client sent, in order
-- (internal/core/common.go and internal/core/websocket.go).
use mos_tls_tunnel.Prelude.{
  ℕ, ◌+◌, ◌≡◌, refl, ap, ◌∙◌, Option, none, some, [], ◌++◌, arith, Bytes, ℤ, length, append_assoc,
  sym, append-nil, subst,
}
use mos_tls_tunnel.Config.{default_copy_io_buffer_size}
use mos_tls_tunnel.Tunnel.Worker.{
  End, a_end, b_end, Stage, reporting, Answer, Pc, top, arm_read, reading, got, arm_write, writing,
  cleanup, step, step_pc, after_nr, after_read,
}
use mos_tls_tunnel.Tunnel.System.{System, worker, open_tunnel, sys_step}
use mos_tls_tunnel.Tunnel.FirstErr.{IoError, other}
use mos_tls_tunnel.Tunnel.Invariant.{Accounts}
use mos_tls_tunnel.Tunnel.Safety.{Reach-WorkerInv, delivered_prefix, delivered_all}
use mos_tls_tunnel.Websocket.{
  Ws, ReadError, end_of_file, failed, Wrapper, Read, done, write, written,
}
use mos_tls_tunnel.Websocket.Reading.{IsWs, stream, Reads, gives, ends, breaks, read-Reads}
use mos_tls_tunnel.Websocket.Route.{
  IsReading, AnswersRead, read_error, Network, Route, read_link, RouteReach, opened, near_other,
  near_moves, near_writes, far_other, far_moves, far_reads, near-Reach, far-Reach,
}
use mos_tls_tunnel.Websocket.Moves.{HasFailed, passed_on, sys_step_moves, worker_other}
use mos_tls_tunnel.Websocket.Flows.{
  Flows, FlowsIn, near_moves-Flows, far_moves-Flows, far_reads-Flows, near_writes-Flows,
}

opened_worker :
    (e : End) (timeout : ℤ)
    → worker e (open_tunnel timeout) ≡ record { pc = top; written = 0; received = []; sent = [] }
unfolding open_tunnel
opened_worker a_end timeout = refl
opened_worker b_end timeout = refl

-- What the copying reports of an error of a read: the end of the file is none.
abbrev pub reports : ReadError → Option IoError
reports end_of_file = none
reports (failed n) = some (other n)

read_ends :
    (e : End) (i : Answer) (s : System) (x : ReadError)
    → (worker e s).pc ≡ reading
    → i.read ≡ []
    → i.er ≡ some (read_error x)
    → (worker e (sys_step e i s)).pc ≡ cleanup reporting (reports x)
unfolding sys_step step step_pc after_nr after_read
read_ends a_end i s end_of_file p h k = rw (p, step_pc, h, k) refl
read_ends a_end i s (failed n) p h k = rw (p, step_pc, h, k) refl
read_ends b_end i s end_of_file p h k = rw (p, step_pc, h, k) refl
read_ends b_end i s (failed n) p h k = rw (p, step_pc, h, k) refl

read_sends_nothing :
    (e : End) (i : Answer) (s : System)
    → (worker e s).pc ≡ reading
    → (worker e (sys_step e i s)).sent ≡ (worker e s).sent
read_sends_nothing e i s p =
    (sys_step_moves e i s).1
    ∙ ap (λ x. (worker e s).sent ++ passed_on x i) p
    ∙ append-nil (worker e s).sent

module _ (W : Ws) (I : IsWs W) (N : Network W I) where
  opened-Flows :
      (timeout timeout' : ℤ) (e e' : End) (link : Bytes)
      → link ≡ []
      → Flows W I N (worker e (open_tunnel timeout)) (worker e' (open_tunnel timeout')) link
  unfolding open_tunnel
  opened-Flows t t' e e' link h =
      rw (h, opened_worker e t, opened_worker e' t')
        (record { in_step = λ k l. refl; coming = λ k. ([], refl); come = ([], refl) })

  written_all : (n : ℕ) (o : Option ℕ) → (written W n o).1 ≡ none → (written W n o).0 ≡ n
  written_all n none h = refl
  written_all n (some e) h = absurd (cc)

  write_all_or_fails :
      (buf : Bytes) (s : Wrapper W) → (write W buf s).1.1 ≡ none → (write W buf s).1.0 ≡ length buf
  unfolding write
  write_all_or_fails buf s h = written_all (length buf) (W.write_message s.ws buf).1 h

  reading_of : (p : Pc) → IsReading p → p ≡ reading
  reading_of reading h = refl
  reading_of top h = absurd h
  reading_of (arm_read t) h = absurd h
  reading_of (got buf er) h = absurd h
  reading_of (arm_write t buf er) h = absurd h
  reading_of (writing buf er) h = absurd h
  reading_of (cleanup st err) h = absurd h

  Reach-Flows :
      {timeout timeout' : ℤ} {e e' : End} {ρ : Route W I N}
      → RouteReach W I N timeout timeout' e e' ρ
      → FlowsIn W I N e e' ρ
  unfolding open_tunnel
  Reach-Flows {timeout} {timeout'} {e} {e'} (opened s r h) =
      opened-Flows timeout timeout' e e' (stream W I r) h
  Reach-Flows {e = e} {e' = e'} (near_other {ρ} i q l) =
      rw (worker_other e i ρ.near) (Reach-Flows q)
  Reach-Flows {e = e} {e' = e'} (near_moves {ρ} i q l n) =
      near_moves-Flows W I N e e' i ρ n (Reach-Flows q)
  Reach-Flows {e = e} {e' = e'} (near_writes {ρ} i buf er r q l p a d) =
      near_writes-Flows W I N e e' i ρ buf er (write W buf ρ.sender).0 r (write W buf ρ.sender).1.1
        (Reach-WorkerInv e (near-Reach W I N q)).accounts p
        (λ h. a.0 ∙ write_all_or_fails buf ρ.sender h) (λ n h k. cc a.1) d (Reach-Flows q)
  Reach-Flows {e = e} {e' = e'} (far_other {ρ} i q l) = rw (worker_other e' i ρ.far) (Reach-Flows q)
  Reach-Flows {e = e} {e' = e'} (far_moves {ρ} i q l n) =
      far_moves-Flows W I N e e' i ρ n (Reach-Flows q)
  Reach-Flows {e = e} {e' = e'} (far_reads {ρ} i q l p a) =
      far_reads-Flows W I N e e' i ρ (read_link W I N ρ.receiver)
        (reading_of (worker e' ρ.far).pc p)
        (read-Reads W I (length (I.messages ρ.receiver.ws) + 2) default_copy_io_buffer_size
          ρ.receiver (omega arith) (omega arith))
        a (Reach-Flows q)

  -- From the local client to the destination, where the tunnel of the client writes to a
  -- wrapper and that of the server reads from the one at the other end, and the messages that
  -- are sent come in their order: however the steps of the two tunnels interleave, and whatever
  -- calls fail, the bytes sent to the destination are at any time a prefix of the bytes read
  -- from the local client.
  pub destination_prefix :
      {timeout timeout' : ℤ} {e e' : End} {ρ : Route W I N}
      → RouteReach W I N timeout timeout' e e' ρ
      → (rest : Bytes) × ((worker e ρ.near).received ≡ (worker e' ρ.far).sent ++ rest)
  destination_prefix {e = e} {e' = e'} {ρ = ρ} q =
      let (rest, c) = (Reach-Flows q).come in
      let (n, (held, d)) = delivered_prefix e' (far-Reach W I N q) in
      (
        held ++ rest,
        c ∙ ap (λ (x : Bytes). x ++ rest) d ∙ append_assoc (worker e' ρ.far).sent held rest,
      )

  -- A read of a link on which nothing is left gives an error.
  read_of_nothing :
      (i : Answer) (r : Wrapper W × Read)
      → Reads W I [] r
      → AnswersRead r.1 i
      → (x : ReadError) × (r.1 ≡ done [] (some x)) × (i.read ≡ []) × (i.er ≡ some (read_error x))
  read_of_nothing i _ (gives w b bs h) a = absurd (cc)
  read_of_nothing i _ (ends w x h k) a = (x, refl, a.0, a.1)
  read_of_nothing i _ (breaks w n) a = (failed n, refl, a.0, a.1)

  -- From the local client to the destination, over a tunnel of the client, two wrappers and a
  -- tunnel of the server, in any interleaving: if the copying to the wrappers has ended with no
  -- error, and the goroutine of the server reads from its wrapper when nothing is left of what was
  -- sent, then this read gives an error, as that of a closed connection, and with it the copying
  -- ends, reporting every error but the end of the file; and by then the destination was sent all
  -- that was read from the local client.
  pub destination_all :
      {timeout timeout' : ℤ} {e e' : End} {ρ : Route W I N} (stage : Stage) (i : Answer)
      → RouteReach W I N timeout timeout' e e' ρ
      → (worker e ρ.near).pc ≡ cleanup stage none
      → (worker e' ρ.far).pc ≡ reading
      → stream W I ρ.receiver ≡ []
      → AnswersRead (read_link W I N ρ.receiver).1 i
      → (x : ReadError) × ((read_link W I N ρ.receiver).1 ≡ done [] (some x))
        × ((worker e' (sys_step e' i ρ.far)).pc ≡ cleanup reporting (reports x))
        × ((worker e ρ.near).received ≡ (worker e' (sys_step e' i ρ.far)).sent)
  destination_all {e = e} {e' = e'} {ρ = ρ} stage i q c d drained a =
      let link = (Reach-Flows q).in_step (λ l. subst HasFailed c l) (λ l. subst HasFailed d l) in
      let far_sent =
        subst (λ p. Accounts p (worker e' ρ.far).received (worker e' ρ.far).sent) d
          (Reach-WorkerInv e' (far-Reach W I N q)).accounts in
      let reads =
        subst (λ (b : Bytes). Reads W I b (read_link W I N ρ.receiver)) drained
          (read-Reads W I (length (I.messages ρ.receiver.ws) + 2) default_copy_io_buffer_size
            ρ.receiver (omega arith) (omega arith)) in
      let (x, gave, none_read, er) = read_of_nothing i (read_link W I N ρ.receiver) reads a in
      (
        x,
        gave,
        read_ends e' i ρ.far x d none_read er,
        delivered_all e stage (near-Reach W I N q) c
            ∙ link
            ∙ ap (◌++◌ (worker e' ρ.far).received) drained
            ∙ append-nil (worker e' ρ.far).received
            ∙ far_sent
            ∙ sym (read_sends_nothing e' i ρ.far d),
      )
