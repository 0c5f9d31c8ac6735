-- ===== src/Tests/Listeners.antt =====
-- Runs of `Start` and `Close`, of the programs of cmd, and of the control function of android.
use mos_tls_tunnel.Prelude.{
  ℕ, ◌≡◌, ◌≢◌, refl, true, false, ◌&&◌, none, some, List, [], ◌∷◌, arith, ok, err,
}
use mos_tls_tunnel.Tcp.{TcpConfig, Service, android_control}
use mos_tls_tunnel.Tcp.Bypass.{obeys, calls_of, sends, accepts, android_control-obeys}
use mos_tls_tunnel.Listening.Lifecycle.{
  accepting, over_http, returned, accept_failed, new_endpoint, Answer, start_step, close, Event,
  starts, closes, run, AllLawful,
}
use mos_tls_tunnel.Listening.Sound.{run-returned}
use mos_tls_tunnel.Listening.Closing.{HasEnded, close-returned}
use mos_tls_tunnel.Commands.Running.{
  client, server, new_process, ProcessEvent, start_turn, process_step, run_process, AllLawfulEvents,
}
use mos_tls_tunnel.Commands.Exit.{EndsAs, Cause, exit-without_signal}
use mos_tls_tunnel.Commands.MuRunning.{
  new_mu_process, MuEvent, server_turn, controller_turn, main_turn, run_mu_process, mu_process_step,
}
use mos_tls_tunnel.Commands.MuExit.{signal_ends}

abbrev works : Answer
works = record { listen = none; accept = ok 3; http = none }

abbrev fails : Answer
fails = record { listen = none; accept = err 9; http = none }

-- `Start` listens and accepts one connection.
abbrev up : List Event
up = starts works ∷ starts works ∷ starts works ∷ []

up-AllLawful : AllLawful accepting up new_endpoint
unfolding start_step new_endpoint
up-AllLawful = (tt, (tt, (λ h. absurd (cc), tt)))

test_registered : (run accepting up new_endpoint).registered ≡ true
unfolding run start_step new_endpoint
test_registered = refl

abbrev down : List Event
down = starts fails ∷ closes ∷ starts fails ∷ []

down-AllLawful : AllLawful accepting down (close (run accepting up new_endpoint))
unfolding run start_step new_endpoint close
down-AllLawful = (λ h c e. cc, (tt, (tt, tt)))

close-returned_example :
    HasEnded accepting (run accepting down (close (run accepting up new_endpoint))).pc
close-returned_example =
    close-returned accepting up down up-AllLawful test_registered down-AllLawful (omega arith)

abbrev whole : List Event
whole =
    starts works ∷ starts works ∷ starts works ∷ closes ∷ starts fails ∷ closes ∷ starts fails ∷ []

whole-AllLawful : AllLawful accepting whole new_endpoint
unfolding start_step new_endpoint close
whole-AllLawful = (tt, (tt, (λ h. absurd (cc), (tt, (λ h c e. cc, (tt, (tt, tt)))))))

test_returned : (run accepting whole new_endpoint).pc ≡ returned (some (accept_failed 9))
unfolding run start_step new_endpoint close
test_returned = refl

run-returned_example :
    ((run accepting whole new_endpoint).is_open ≡ false) × (some (accept_failed 9) ≢ none)
run-returned_example =
    run-returned accepting whole (some (accept_failed 9)) whole-AllLawful test_returned

-- The listener breaks, and the program ends.
abbrev breaking : List ProcessEvent
breaking =
    start_turn works
    ∷ start_turn works
    ∷ start_turn fails
    ∷ start_turn fails
    ∷ start_turn fails
    ∷ []

breaking-AllLawfulEvents : AllLawfulEvents client breaking new_process
unfolding process_step start_step new_process new_endpoint
breaking-AllLawfulEvents = (tt, (tt, (λ h. absurd (cc), (tt, (tt, tt)))))

test_exit : (run_process client breaking new_process).exit ≡ some 1
unfolding run_process process_step start_step new_process new_endpoint
test_exit = refl

exit-without_signal_example :
    EndsAs (Cause client breaking) (run_process client breaking new_process) 1
exit-without_signal_example =
    exit-without_signal client breaking 1 tt breaking-AllLawfulEvents test_exit

-- A server with `EnableWSS` and an empty path panics.
test_panics :
    (run_process
      (server (over_http []))
      (start_turn works ∷ start_turn works ∷ start_turn works ∷ start_turn works ∷ [])
      new_process).exit
    ≡ some 2
unfolding run_process process_step start_step new_process new_endpoint
test_panics = refl

abbrev stopping : List MuEvent
stopping =
    server_turn none ∷ main_turn ∷ main_turn ∷ controller_turn (some (some 1)) ∷ main_turn ∷ []

test_signal_ends : (status : ℕ) × ((run_mu_process stopping new_mu_process).exit ≡ some status)
test_signal_ends = signal_ends stopping (omega arith)

test_stopping : (run_mu_process stopping new_mu_process).exit ≡ some 0
unfolding run_mu_process mu_process_step new_mu_process
test_stopping = refl

abbrev service : Service
service = record { on_socket = ok 8; on_connect = none; on_send = none }

abbrev vpn : TcpConfig
vpn = record { vpn_mode = true; tfo = true }

android_control-obeys_example :
    (obeys 5 none (calls_of (android_control service vpn true true 5)) ≡ true)
    × (sends 5 (calls_of (android_control service vpn true true 5))
        ≡ vpn.vpn_mode && (true && accepts service))
android_control-obeys_example = android_control-obeys service vpn true true 5
