-- ===== src/Websocket/Tunnelled.antt =====
-- A tunnel over a WebSocket connection: `openTunnel` of internal/core/common.go with the wrapper of
-- internal/core/websocket.go as one of its connections.
use mos_tls_tunnel.Prelude.{ℕ, ◌+◌, Bool, true, false, List, [], ◌∷◌, ◌++◌, if◌then◌else◌, ℤ}
use mos_tls_tunnel.Tunnel.Worker.{
  End, same_end, opposite, long_time_ago, Stage, expiring_src, expiring_dst, closing_src,
  closing_dst, Pc, arm_read, reading, arm_write, writing, cleanup,
}
use mos_tls_tunnel.Tunnel.System.{System, worker, sys_step, open_tunnel}
use mos_tls_tunnel.Tunnel.Liveness.{Turn}
use mos_tls_tunnel.Websocket.Closing.{WsCall, write_close_message, Closer, wrap}
use mos_tls_tunnel.Websocket.Methods.{
  NetCall, read_call, close_call, write_call, read_deadline_call, write_deadline_call,
  deadline_call, method,
}

abbrev pub on : Bool → NetCall → List NetCall
on true k = k ∷ []
on false k = []

-- What the next step of the goroutine that reads `src` calls on the connection `c`.
abbrev pub stage_calls : End → End → Stage → List NetCall
stage_calls c src expiring_src = on (same_end c src) (deadline_call long_time_ago)
stage_calls c src expiring_dst = on (same_end c (opposite src)) (deadline_call long_time_ago)
stage_calls c src closing_src = on (same_end c src) close_call
stage_calls c src closing_dst = on (same_end c (opposite src)) close_call
stage_calls c src _ = []

abbrev pub net_calls : End → End → Pc → List NetCall
net_calls c src (arm_read t) = on (same_end c src) (read_deadline_call t)
net_calls c src reading = on (same_end c src) read_call
net_calls c src (arm_write t buf er) = on (same_end c (opposite src)) (write_deadline_call t)
net_calls c src (writing buf er) = on (same_end c (opposite src)) (write_call buf)
net_calls c src (cleanup stage e) = stage_calls c src stage
net_calls c src _ = []

unfoldable pub through : List NetCall → Closer → Closer × List WsCall
unfolding method
through [] c = (c, [])
through (k ∷ ks) c = let r = method k c in let rest = through ks r.0 in (rest.0, r.1 ++ rest.1)

-- A tunnel whose connection `ws_end` is a wrapper: the tunnel, `closeOnce`, and the calls that the
-- connection of gorilla/websocket got.
pub record Wired : Type 0 where
  pub system : System
  pub closer : Closer
  pub calls : List WsCall

unfoldable pub open_wired : ℤ → Wired
open_wired timeout = record { system = open_tunnel timeout; closer = wrap; calls = [] }

unfoldable pub wired_step : End → Turn → Wired → Wired
unfolding through
wired_step ws_end (e, i) w =
    let r = through (net_calls ws_end e (worker e w.system).pc) w.closer in
    record { system = sys_step e i w.system; closer = r.0; calls = w.calls ++ r.1 }

unfoldable pub wired_run : End → List Turn → Wired → Wired
wired_run ws_end [] w = w
wired_run ws_end (t ∷ ts) w = wired_run ws_end ts (wired_step ws_end t w)

abbrev pub is_close_message : WsCall → ℕ
is_close_message write_close_message = 1
is_close_message _ = 0

unfoldable pub close_messages : List WsCall → ℕ
close_messages [] = 0
close_messages (k ∷ ks) = is_close_message k + close_messages ks

abbrev pub count_of : Bool → ℕ
count_of b = if b then 1 else 0
