-- ===== src/Tunnel/Liveness.antt =====
-- A tunnel ends in every interleaving: once one goroutine has left its loop, both return.
use mos_tls_tunnel.Prelude.{ℕ, ◌+◌, ◌-◌, ◌≤◌, ◌≡◌, refl, Option, List, [], ◌∷◌, arith, ℤ}
use mos_tls_tunnel.Tunnel.FirstErr.{IoError}
use mos_tls_tunnel.Tunnel.Worker.{
  End, a_end, b_end, opposite, Shared, reporting, storing, expiring_src, expiring_dst, closing_src,
  closing_dst, returned, Pc, top, arm_read, reading, got, arm_write, writing, cleanup, Worker,
  Answer, step_pc, step_cleanup,
}
use mos_tls_tunnel.Tunnel.System.{System, worker, sys_step, IsLawful, Reach, next}
use mos_tls_tunnel.Tunnel.Safety.{returned_closes}
use mos_tls_tunnel.Tunnel.Termination.{remaining, remaining-step_pc, remaining-zero, remaining-le}

-- An interleaving: whose step it is, and what is answered.
abbrev pub Turn : Type 0
Turn = End × Answer

unfoldable pub interleave : List Turn → System → System
interleave [] s = s
interleave (t ∷ ts) s = interleave ts (sys_step t.0 t.1 s)

abbrev pub AllLawful : List Turn → System → Type 0
AllLawful [] s = Unit {0}
AllLawful (t ∷ ts) s = IsLawful t.0 t.1 s × AllLawful ts (sys_step t.0 t.1 s)

abbrev pub is_of : End → End → ℕ
is_of a_end a_end = 1
is_of b_end b_end = 1
is_of _ _ = 0

-- The steps of one goroutine among them.
abbrev pub turns : End → List Turn → ℕ
turns e [] = 0
turns e (t ∷ ts) = is_of e t.0 + turns e ts

abbrev pub HasLeft : Pc → Type 0
HasLeft (cleanup st err) = Unit {0}
HasLeft _ = ⊥

left_step :
    (e : End) (i : Answer) (p : Pc) (w : Worker) (s : Shared)
    → HasLeft p
    → HasLeft (step_pc e i p w s).0.pc × (remaining (step_pc e i p w s).0.pc ≤ remaining p - 1)
unfolding step_pc step_cleanup
left_step e i (cleanup reporting err) w s h = (tt, omega arith)
left_step e i (cleanup storing err) w s h = (tt, omega arith)
left_step e i (cleanup expiring_src err) w s h = (tt, omega arith)
left_step e i (cleanup expiring_dst err) w s h = (tt, omega arith)
left_step e i (cleanup closing_src err) w s h = (tt, omega arith)
left_step e i (cleanup closing_dst err) w s h = (tt, omega arith)
left_step e i (cleanup returned err) w s h = (tt, omega arith)
left_step e i top w s h = absurd h
left_step e i (arm_read t) w s h = absurd h
left_step e i reading w s h = absurd h
left_step e i (got buf er) w s h = absurd h
left_step e i (arm_write t buf er) w s h = absurd h
left_step e i (writing buf er) w s h = absurd h

remaining-left : (p : Pc) → HasLeft p → remaining p ≤ 6
remaining-left (cleanup reporting err) h = omega arith
remaining-left (cleanup storing err) h = omega arith
remaining-left (cleanup expiring_src err) h = omega arith
remaining-left (cleanup expiring_dst err) h = omega arith
remaining-left (cleanup closing_src err) h = omega arith
remaining-left (cleanup closing_dst err) h = omega arith
remaining-left (cleanup returned err) h = omega arith
remaining-left top h = absurd h
remaining-left (arm_read t) h = absurd h
remaining-left reading h = absurd h
remaining-left (got buf er) h = absurd h
remaining-left (arm_write t buf er) h = absurd h
remaining-left (writing buf er) h = absurd h

pub interleave-Reach :
    {timeout : ℤ} (ts : List Turn) {s : System}
    → Reach timeout s
    → AllLawful ts s
    → Reach timeout (interleave ts s)
unfolding interleave
interleave-Reach [] r l = r
interleave-Reach (t ∷ ts) r (l, ls) = interleave-Reach ts (next t.0 t.1 r l) ls

pub left_turn :
    (e : End) (t : Turn) (s : System)
    → HasLeft (worker e s).pc
    → HasLeft (worker e (sys_step t.0 t.1 s)).pc
      × (remaining (worker e (sys_step t.0 t.1 s)).pc ≤ remaining (worker e s).pc - is_of e t.0)
unfolding sys_step
left_turn a_end (a_end, i) s h = left_step a_end i s.from_a.pc s.from_a s.shared h
left_turn a_end (b_end, i) s h = (h, omega arith)
left_turn b_end (a_end, i) s h = (h, omega arith)
left_turn b_end (b_end, i) s h = left_step b_end i s.from_b.pc s.from_b s.shared h

-- The steps of a goroutine that has left its loop are counted down by its own turns only.
interleave_left :
    (e : End) (ts : List Turn) (s : System)
    → HasLeft (worker e s).pc
    → remaining (worker e (interleave ts s)).pc ≤ remaining (worker e s).pc - turns e ts
unfolding interleave
interleave_left e [] s h = omega arith
interleave_left e (t ∷ ts) s h =
    let (left, n) = left_turn e t s h in
    omega (arith, n, interleave_left e ts (sys_step t.0 t.1 s) left)

returned_turn :
    (e : End) (t : Turn) {timeout : ℤ} (s : System) {err : Option IoError}
    → Reach timeout s
    → (worker e s).pc ≡ cleanup returned err
    → IsLawful t.0 t.1 s
    → ((worker e (sys_step t.0 t.1 s)).pc ≡ cleanup returned err)
      × (remaining (worker (opposite e) (sys_step t.0 t.1 s)).pc
          ≤ remaining (worker (opposite e) s).pc - is_of (opposite e) t.0)
unfolding sys_step step_pc step_cleanup
returned_turn a_end (a_end, i) s r h l = (rw h refl, omega arith)
returned_turn b_end (b_end, i) s r h l = (rw h refl, omega arith)
returned_turn a_end (b_end, i) s r h l =
    let closed = returned_closes a_end r h in
    (h, remaining-step_pc b_end i s.from_b.pc s.from_b s.shared closed.1 closed.0 l)
returned_turn b_end (a_end, i) s r h l =
    let closed = returned_closes b_end r h in
    (h, remaining-step_pc a_end i s.from_a.pc s.from_a s.shared closed.0 closed.1 l)

-- Once one goroutine has returned, the turns of the other count down its steps.
interleave_returned :
    (e : End) (ts : List Turn) {timeout : ℤ} (s : System) {err : Option IoError}
    → Reach timeout s
    → (worker e s).pc ≡ cleanup returned err
    → AllLawful ts s
    → ((worker e (interleave ts s)).pc ≡ cleanup returned err)
      × (remaining (worker (opposite e) (interleave ts s)).pc
          ≤ remaining (worker (opposite e) s).pc - turns (opposite e) ts)
unfolding interleave
interleave_returned e [] s r h l = (h, omega arith)
interleave_returned e (t ∷ ts) s r h (l, ls) =
    let (g, n) = returned_turn e t s r h l in
    let (k, m) = interleave_returned e ts (sys_step t.0 t.1 s) (next t.0 t.1 r l) g ls in
    (k, omega (arith, n, m))

-- Once one goroutine has left its loop, the tunnel ends in every interleaving that lets it take six
-- steps and then lets the other take twelve: both goroutines have returned, whatever the
-- connections answer within what `net.Conn` documents.
pub both_return :
    (e : End) (first second : List Turn) {timeout : ℤ} (s : System)
    → Reach timeout s
    → HasLeft (worker e s).pc
    → AllLawful first s
    → AllLawful second (interleave first s)
    → 6 ≤ turns e first
    → 12 ≤ turns (opposite e) second
    → (x : Option IoError) × (y : Option IoError) × ((worker e
          (interleave second (interleave first s))).pc
        ≡ cleanup returned x)
      × ((worker (opposite e) (interleave second (interleave first s))).pc ≡ cleanup returned y)
both_return e first second s r h l k n m =
    let (x, left) =
      remaining-zero (worker e (interleave first s)).pc
        (omega (arith, interleave_left e first s h, remaining-left (worker e s).pc h)) in
    let (stays, counted) =
      interleave_returned e second (interleave first s) (interleave-Reach first r l) left k in
    let (y, right) =
      remaining-zero (worker (opposite e) (interleave second (interleave first s))).pc
        (omega (arith, counted, remaining-le (worker (opposite e) (interleave first s)).pc)) in
    (x, y, stays, right)
