-- ===== src/Commands/Running.antt =====
-- The `main` functions from the call that builds the client or the server on: one goroutine runs
-- `Start`, and `main` waits for a signal.
use mos_tls_tunnel.Prelude.{ℕ, Bool, Option, none, some, List, [], ◌∷◌, Bytes, Result, ok, err}
use mos_tls_tunnel.GoStd.Flag.{Numbers}
use mos_tls_tunnel.Sip003.Args.{Environment}
use mos_tls_tunnel.Client.New.{Client, NewClientError, new_client}
use mos_tls_tunnel.Server.New.{Server, Certificates, NewServerError, new_server}
use mos_tls_tunnel.MultiUser.Start.{MuServer, new_mu_server}
use mos_tls_tunnel.Listening.Lifecycle.{
  StartPc, returned, panicked, Mode, accepting, Endpoint, new_endpoint, Answer, start_step, close,
  server_close, starts, IsLawful,
}
use mos_tls_tunnel.Commands.Client.{Fatal, Started, client_main}
use mos_tls_tunnel.Commands.Server.{server_main}
use mos_tls_tunnel.Commands.MuServer.{mu_server_main}

-- What a program dies of before it serves.
pub data Death (E : Type 0) : Type 0 where
  fatal : Fatal → Death E
  init_failed : E → Death E

abbrev pub or_dies : {E A : Type 0} → Result E A → Result (Death E) A
or_dies (ok a) = ok a
or_dies (err e) = err (init_failed e)

abbrev pub then_new :
    {E C A : Type 0} → Result Fatal (Started C) → (C → Result E A) → Result (Death E) A
then_new (err e) new = err (fatal e)
then_new (ok s) new = or_dies (new s.config)

unfoldable pub client_startup :
    Numbers → (Bytes → Bool) → Environment → List Bytes → Result (Death NewClientError) Client
client_startup nums is_ip env argv =
    then_new (client_main nums env argv) (λ c. (new_client is_ip c).1)

unfoldable pub server_startup :
    Numbers → Certificates → Environment → List Bytes → Result (Death NewServerError) Server
server_startup nums certs env argv = then_new (server_main nums env argv) (new_server certs)

unfoldable pub mu_server_startup : Numbers → List Bytes → Result (Death ⊥) MuServer
mu_server_startup nums argv = then_new (mu_server_main nums argv) (λ c. ok (new_mu_server c))

-- mtt-client, or mtt-server with its branch of `EnableWSS`.
pub data Program : Type 0 where
  client : Program
  server : Mode → Program

abbrev pub wss_of : Program → Mode
wss_of client = accepting
wss_of (server wss) = wss

-- Where `main` stands: before the signal, before its deferred `Close`, or behind it.
pub data MainPc : Type 0 where
  waiting closing_start returning : MainPc

-- A client or a server that runs, and its exit status.
pub record Process : Type 0 where
  pub start : Endpoint
  pub main : MainPc
  pub exit : Option ℕ

unfoldable pub new_process : Process
unfolding new_endpoint
new_process = record { start = new_endpoint; main = waiting; exit = none }

-- A turn of `Start`, one of `main`, and a panic of the goroutine of a connection or of a stream, of
-- which none recovers.
pub data ProcessEvent : Type 0 where
  start_turn : Answer → ProcessEvent
  main_turn : ProcessEvent
  handler_panic : ProcessEvent

-- A turn of the goroutine: `Start` goes on, or it has returned or panicked, and the program ends. A
-- panic ends a Go program with the status 2.
abbrev pub goroutine : Program → Answer → StartPc → Process → Process
goroutine g i (returned none) p = record p { exit = some 0 }
goroutine g i (returned (some e)) p = record p { exit = some 1 }
goroutine g i panicked p = record p { exit = some 2 }
goroutine g i _ p = record p { start = start_step (wss_of g) i p.start }

-- A turn of `main`, the first one with the signal. The client exits at once; the server returns,
-- which runs its deferred call.
abbrev pub main_goes_on : Program → MainPc → Process → Process
main_goes_on client m p = record p { exit = some 0 }
main_goes_on (server wss) waiting p = record p { main = closing_start }
main_goes_on (server wss) closing_start p = record p {
  main = returning;
  start = server_close p.start;
}
main_goes_on (server wss) returning p = record p { exit = some 0 }

abbrev pub on_event : Program → ProcessEvent → Process → Process
on_event g (start_turn i) p = goroutine g i p.start.pc p
on_event g main_turn p = main_goes_on g p.main p
on_event g handler_panic p = record p { exit = some 2 }

abbrev pub unless_exited : Option ℕ → Process → Process → Process
unless_exited none p q = q
unless_exited (some status) p q = p

unfoldable pub process_step : Program → ProcessEvent → Process → Process
unfolding start_step close
process_step g e p = unless_exited p.exit p (on_event g e p)

unfoldable pub run_process : Program → List ProcessEvent → Process → Process
run_process g [] p = p
run_process g (e ∷ es) p = run_process g es (process_step g e p)

abbrev pub IsLawfulEvent : Program → ProcessEvent → Process → Type 0
IsLawfulEvent g (start_turn i) p = IsLawful (wss_of g) (starts i) p.start
IsLawfulEvent g main_turn p = Unit {0}
IsLawfulEvent g handler_panic p = Unit {0}

abbrev pub AllLawfulEvents : Program → List ProcessEvent → Process → Type 0
AllLawfulEvents g [] p = Unit {0}
AllLawfulEvents g (e ∷ es) p = IsLawfulEvent g e p × AllLawfulEvents g es (process_step g e p)
