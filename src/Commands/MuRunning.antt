-- ===== src/Commands/MuRunning.antt =====
-- cmd/mtt-mu-server/mu_server.go: `main` from the start of its two goroutines on. The first calls
-- `StartServer`, the second `StartController`; `main` waits for a signal, and its deferred calls
-- close the controller first and then the server.
use mos_tls_tunnel.Prelude.{ℕ, ◌≢◌, Bool, true, false, Option, none, some, List, [], ◌∷◌}

-- What a goroutine does: it is in the call, or the call has returned this.
pub data Goroutine : Type 0 where
  calling : Goroutine
  finished : Option ℕ → Goroutine

pub data MainPc : Type 0 where
  waiting closing_controller closing_server : MainPc

pub record MuProcess : Type 0 where
  pub main : MainPc
  pub server : Goroutine
  pub controller : Goroutine
  pub server_closed : Bool
  pub controller_closed : Bool
  pub exit : Option ℕ

unfoldable pub new_mu_process : MuProcess
new_mu_process = record {
  main = waiting;
  server = calling;
  controller = calling;
  server_closed = false;
  controller_closed = false;
  exit = none;
}

-- What a call gives in one turn: `none` while it goes on.
pub data MuEvent : Type 0 where
  server_turn controller_turn : Option (Option ℕ) → MuEvent
  main_turn : MuEvent

abbrev pub status_of : Option ℕ → ℕ
status_of none = 0
status_of (some e) = 1

abbrev pub goes_on : Option (Option ℕ) → Goroutine
goes_on none = calling
goes_on (some r) = finished r

abbrev pub server_goroutine : Option (Option ℕ) → Goroutine → MuProcess → MuProcess
server_goroutine i calling p = record p { server = goes_on i }
server_goroutine i (finished r) p = record p { exit = some (status_of r) }

-- `StartController`, which is `ListenAndServe`.
abbrev pub start_controller : Option (Option ℕ) → Goroutine
start_controller i = goes_on i

-- `CloseController` and `CloseServer`
abbrev pub close_controller : MuProcess → MuProcess
close_controller p = record p { controller_closed = true }

abbrev pub close_server : MuProcess → MuProcess
close_server p = record p { server_closed = true }

abbrev pub controller_goroutine : Option (Option ℕ) → Goroutine → MuProcess → MuProcess
controller_goroutine i calling p = record p { controller = start_controller i }
controller_goroutine i (finished r) p = record p { exit = some (status_of r) }

-- The first turn is that of the signal; behind the last one `main` returns.
abbrev pub main_goes_on : MainPc → MuProcess → MuProcess
main_goes_on waiting p = record p { main = closing_controller }
main_goes_on closing_controller p = close_controller (record p { main = closing_server })
main_goes_on closing_server p = close_server (record p { exit = some 0 })

abbrev pub on_mu_event : MuEvent → MuProcess → MuProcess
on_mu_event (server_turn i) p = server_goroutine i p.server p
on_mu_event (controller_turn i) p = controller_goroutine i p.controller p
on_mu_event main_turn p = main_goes_on p.main p

abbrev pub unless_ended : Option ℕ → MuProcess → MuProcess → MuProcess
unless_ended none p q = q
unless_ended (some status) p q = p

unfoldable pub mu_process_step : MuEvent → MuProcess → MuProcess
mu_process_step e p = unless_ended p.exit p (on_mu_event e p)

unfoldable pub run_mu_process : List MuEvent → MuProcess → MuProcess
run_mu_process [] p = p
run_mu_process (e ∷ es) p = run_mu_process es (mu_process_step e p)

-- What net/http documents: `Serve`, `ServeTLS` and `ListenAndServe` never return `nil`.
abbrev pub IsLawfulMuEvent : MuEvent → Type 0
IsLawfulMuEvent (server_turn i) = i ≢ some none
IsLawfulMuEvent (controller_turn i) = i ≢ some none
IsLawfulMuEvent main_turn = Unit {0}
