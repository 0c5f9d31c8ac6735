-- ===== src/Tunnel/Reporting.antt =====
-- Which error `openTunnel` of internal/core/common.go returns.
use mos_tls_tunnel.Prelude.{◌≡◌, refl, ap, ◌∙◌, true, false, Option, arith}
use mos_tls_tunnel.Tunnel.FirstErr.{IoError, FirstErr, report, get_err}
use mos_tls_tunnel.Tunnel.Worker.{
  End, a_end, b_end, Answer, Worker, Shared, Stage, reporting, storing, Pc, cleanup, step, step_pc,
  step_cleanup,
}
use mos_tls_tunnel.Tunnel.System.{System, worker, sys_step, result}

-- What can follow a state: steps of the two goroutines in any order, whatever they are answered.
pub data Follows (s : System) : System → Type 0 where
  here : Follows s s
  later : {t : System} (e : End) (i : Answer) → Follows s t → Follows s (sys_step e i t)

report-reported : (e : Option IoError) (fe : FirstErr) → fe.reported ≡ true → report e fe ≡ fe
unfolding report
report-reported e fe h = rw h refl

step_cleanup-fe :
    (src : End) (st : Stage) (e : Option IoError) (w : Worker) (s : Shared)
    → s.fe.reported ≡ true
    → (step_cleanup src st e w s).1.fe ≡ s.fe
unfolding step_cleanup
step_cleanup-fe src reporting e w s h = report-reported e s.fe h
step_cleanup-fe src storing e w s h = refl
step_cleanup-fe a_end _ e w s h = ground arith
step_cleanup-fe b_end _ e w s h = ground arith

step_pc-fe :
    (src : End) (i : Answer) (p : Pc) (w : Worker) (s : Shared)
    → s.fe.reported ≡ true
    → (step_pc src i p w s).1.fe ≡ s.fe
unfolding step_pc
step_pc-fe src i (cleanup st e) w s h = step_cleanup-fe src st e w s h
step_pc-fe a_end i _ w s h = ground arith
step_pc-fe b_end i _ w s h = ground arith

sys_step-fe :
    (e : End) (i : Answer) (s : System)
    → s.shared.fe.reported ≡ true
    → (sys_step e i s).shared.fe ≡ s.shared.fe
unfolding sys_step step
sys_step-fe a_end i s h = step_pc-fe a_end i s.from_a.pc s.from_a s.shared h
sys_step-fe b_end i s h = step_pc-fe b_end i s.from_b.pc s.from_b s.shared h

Follows-fe : {s t : System} → s.shared.fe.reported ≡ true → Follows s t → t.shared.fe ≡ s.shared.fe
Follows-fe h here = refl
Follows-fe h (later {t} e i f) =
    let kept = Follows-fe h f in
    sys_step-fe e i t (ap (λ (x : FirstErr). x.reported) kept ∙ h) ∙ kept

reports :
    (e : End) (i : Answer) (s : System) {err : Option IoError}
    → (worker e s).pc ≡ cleanup reporting err
    → s.shared.fe.reported ≡ false
    → (sys_step e i s).shared.fe ≡ record { reported = true; stored = err }
unfolding sys_step step step_pc step_cleanup report
reports a_end i s p h = rw (p, h) refl
reports b_end i s p h = rw (p, h) refl

-- The goroutine that is first to report decides what `openTunnel` returns: its error, or `nil` if it
-- has none, in every state that follows, whatever error the other one reports later.
pub result-first_report :
    (s t : System) (err : Option IoError) (e : End) (i : Answer)
    → (worker e s).pc ≡ cleanup reporting err
    → s.shared.fe.reported ≡ false
    → Follows (sys_step e i s) t
    → result t ≡ err
unfolding result get_err
result-first_report s t err e i p h f =
    let first = reports e i s p h in
    ap (λ (x : FirstErr). x.stored) (Follows-fe (ap (λ (x : FirstErr). x.reported) first) f ∙ first)
