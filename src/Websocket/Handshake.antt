-- ===== src/Websocket/Handshake.antt =====
-- The closing handshake of a tunnel over a WebSocket connection (internal/core/common.go and
-- internal/core/websocket.go).
use mos_tls_tunnel.Prelude.{◌+◌, ◌≡◌, refl, sym, ap, ◌∙◌, Option, List, [], ◌∷◌, ◌++◌, arith, ℤ}
use mos_tls_tunnel.Tunnel.FirstErr.{IoError}
use mos_tls_tunnel.Tunnel.Worker.{
  End, a_end, b_end, Shared, conn, Stage, reporting, Pc, top, cleanup, Worker, Answer, step,
  step_pc, step_cleanup,
}
use mos_tls_tunnel.Tunnel.System.{System, worker, sys_step, open_tunnel}
use mos_tls_tunnel.Tunnel.Liveness.{Turn, interleave}
use mos_tls_tunnel.Websocket.Closing.{WsCall, Closer, close, close_with_dead_line}
use mos_tls_tunnel.Websocket.Tunnelled.{
  stage_calls, net_calls, through, Wired, open_wired, wired_step, wired_run, close_messages,
  count_of,
}

module _ (i : Answer) (w : Worker) (s : Shared) (k : Closer) where
  stage_calls-step :
      (c e : End) (st : Stage) (err : Option IoError)
      → k.close_once_done ≡ (conn c s).closed
      → ((through (stage_calls c e st) k).0.close_once_done
          ≡ (conn c (step_cleanup e st err w s).1).closed)
        × (count_of (conn c s).closed + close_messages (through (stage_calls c e st) k).1
            ≡ count_of (conn c (step_cleanup e st err w s).1).closed)
  unfolding step_cleanup through close close_with_dead_line close_messages
  stage_calls-step a_end a_end reporting err h = ground arith
  stage_calls-step a_end a_end _ err h = ground arith
  stage_calls-step a_end b_end reporting err h = ground arith
  stage_calls-step a_end b_end _ err h = ground arith
  stage_calls-step b_end a_end reporting err h = ground arith
  stage_calls-step b_end a_end _ err h = ground arith
  stage_calls-step b_end b_end reporting err h = ground arith
  stage_calls-step b_end b_end _ err h = ground arith

  pub net_calls-step :
      (c e : End) (p : Pc)
      → k.close_once_done ≡ (conn c s).closed
      → ((through (net_calls c e p) k).0.close_once_done ≡ (conn c (step_pc e i p w s).1).closed)
        × (count_of (conn c s).closed + close_messages (through (net_calls c e p) k).1
            ≡ count_of (conn c (step_pc e i p w s).1).closed)
  unfolding step_pc through close_messages
  net_calls-step c e (cleanup st err) h = stage_calls-step c e st err h
  net_calls-step a_end a_end top h = ground arith
  net_calls-step a_end a_end _ h = ground arith
  net_calls-step a_end b_end top h = ground arith
  net_calls-step a_end b_end _ h = ground arith
  net_calls-step b_end a_end top h = ground arith
  net_calls-step b_end a_end _ h = ground arith
  net_calls-step b_end b_end top h = ground arith
  net_calls-step b_end b_end _ h = ground arith

close_messages-append :
    (ks ls : List WsCall) → close_messages (ks ++ ls) ≡ close_messages ks + close_messages ls
unfolding close_messages
close_messages-append [] ls = omega arith
close_messages-append (k ∷ ks) ls = omega (arith, close_messages-append ks ls)

-- `closeOnce` has run exactly if the tunnel has closed the connection, and the close message was
-- written as often.
record InStep (c : End) (w : Wired) : Type 0 where
  once : w.closer.close_once_done ≡ (conn c w.system.shared).closed
  counted : close_messages w.calls ≡ count_of (conn c w.system.shared).closed

conn-sys_step :
    (c e : End) (i : Answer) (s : System)
    → (conn c (sys_step e i s).shared).closed
      ≡ (conn c (step_pc e i (worker e s).pc (worker e s) s.shared).1).closed
unfolding sys_step step
conn-sys_step c a_end i s = refl
conn-sys_step c b_end i s = refl

wired_step-InStep : (c : End) (t : Turn) (w : Wired) → InStep c w → InStep c (wired_step c t w)
unfolding wired_step
wired_step-InStep c (e, i) w v =
    let p = (worker e w.system).pc in
    let n = net_calls-step i (worker e w.system) w.system.shared w.closer c e p v.once in
    record {
      once = n.0 ∙ sym (conn-sys_step c e i w.system);
      counted = rw (conn-sys_step c e i w.system) (
          omega (
            arith,
            close_messages-append w.calls (through (net_calls c e p) w.closer).1,
            n.1,
            v.counted,
          ));
    }

wired_run-InStep : (c : End) (ts : List Turn) (w : Wired) → InStep c w → InStep c (wired_run c ts w)
unfolding wired_run
wired_run-InStep c [] w v = v
wired_run-InStep c (t ∷ ts) w v =
    wired_run-InStep c ts (wired_step c t w) (wired_step-InStep c t w v)

-- The wrapper below changes nothing of how the tunnel goes.
pub system-wired_run :
    (c : End) (ts : List Turn) (w : Wired) → (wired_run c ts w).system ≡ interleave ts w.system
unfolding wired_run wired_step interleave
system-wired_run c [] w = refl
system-wired_run c ((e, i) ∷ ts) w = system-wired_run c ts (wired_step c (e, i) w)

open_wired-InStep : (c : End) (timeout : ℤ) → InStep c (open_wired timeout)
unfolding open_wired open_tunnel close_messages
open_wired-InStep a_end timeout = record { once = refl; counted = refl }
open_wired-InStep b_end timeout = record { once = refl; counted = refl }

-- However the two goroutines of a tunnel over a WebSocket connection interleave, both of
-- which close it in the end, the close message is written once if the tunnel has closed the
-- connection, and not at all before.
pub closes_once :
    (c : End) (ts : List Turn) (timeout : ℤ)
    → close_messages (wired_run c ts (open_wired timeout)).calls
      ≡ count_of (conn c (interleave ts (open_tunnel timeout)).shared).closed
unfolding open_wired
closes_once c ts timeout =
    (wired_run-InStep c ts (open_wired timeout) (open_wired-InStep c timeout)).counted
    ∙ ap (λ s. count_of (conn c s.shared).closed) (system-wired_run c ts (open_wired timeout))
