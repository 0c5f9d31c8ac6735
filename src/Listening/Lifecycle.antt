-- ===== src/Listening/Lifecycle.antt =====
-- `Start` and `Close` of internal/core/client.go and internal/core/server.go: one goroutine that
-- listens and accepts, and calls of `Close` from others. Each of them holds the lock of the
-- listener for its one access.
use mos_tls_tunnel.Prelude.{
  ℕ, suc, ◌≡◌, ◌≢◌, Bool, true, false, Option, none, some, List, [], ◌∷◌, if◌then◌else◌, Bytes,
  Result, ok, err,
}
use mos_tls_tunnel.Config.{ServerConfig}

pub data StartError : Type 0 where
  listen_failed accept_failed serve_failed : ℕ → StartError

-- Where `Start` stands; `closing` is its deferred `Close`, and `panicking` is that `Close` while it
-- panics. Each of the last two has its result, `none` for `nil`.
pub data StartPc : Type 0 where
  listening registering serving panicking panicked : StartPc
  closing returned : Option StartError → StartPc

-- The branch on `EnableWSS`: the loop over `Accept`, or `http.Serve` for the path.
pub data Mode : Type 0 where
  accepting : Mode
  over_http : Bytes → Mode

abbrev pub mode_of : ServerConfig → Mode
mode_of c = if c.enable_wss then over_http c.wss_path else accepting

-- Whether `listener` is set, whether that listener is open, and the connections that were accepted
-- (the last one first), each of which has a goroutine.
pub record Endpoint : Type 0 where
  pub pc : StartPc
  pub registered : Bool
  pub is_open : Bool
  pub accepted : List ℕ

unfoldable pub new_endpoint : Endpoint
new_endpoint = record { pc = listening; registered = false; is_open = false; accepted = [] }

-- What the calls in one step give: the error of `Listen`, the result of `Accept`, and that of
-- `http.Serve` once it returns.
pub record Answer : Type 0 where
  pub listen : Option ℕ
  pub accept : Result ℕ ℕ
  pub http : Option (Option ℕ)

abbrev pub on_listen : Option ℕ → Endpoint → Endpoint
on_listen (some e) s = record s { pc = returned (some (listen_failed e)) }
on_listen none s = record s { pc = registering; is_open = true }

-- A turn of the loop over `Accept`.
abbrev pub on_accept : Result ℕ ℕ → Endpoint → Endpoint
on_accept (err e) s = record s { pc = closing (some (accept_failed e)) }
on_accept (ok c) s = record s { pc = serving; accepted = c ∷ s.accepted }

-- `http.Serve`, whose connections net/http accepts.
abbrev pub on_http : Option (Option ℕ) → Endpoint → Endpoint
on_http none s = record s { pc = serving }
on_http (some none) s = record s { pc = closing none }
on_http (some (some e)) s = record s { pc = closing (some (serve_failed e)) }

-- The listener is registered. `Handle` of `http.ServeMux` panics on an empty pattern.
abbrev pub on_register : Mode → Endpoint → Endpoint
on_register accepting s = record s { pc = serving; registered = true }
on_register (over_http []) s = record s { pc = panicking; registered = true }
on_register (over_http (b ∷ path)) s = record s { pc = serving; registered = true }

abbrev pub on_serving : Mode → Answer → Endpoint → Endpoint
on_serving (over_http path) i s = on_http i.http s
on_serving accepting i s = on_accept i.accept s

abbrev pub step_at : Mode → Answer → StartPc → Endpoint → Endpoint
step_at wss i listening s = on_listen i.listen s
step_at wss i registering s = on_register wss s
step_at wss i serving s = on_serving wss i s
step_at wss i (closing e) s = record s { pc = returned e; is_open = false }
step_at wss i (returned e) s = s
step_at wss i panicking s = record s { pc = panicked; is_open = false }
step_at wss i panicked s = s

-- A step of `Start`.
unfoldable pub start_step : Mode → Answer → Endpoint → Endpoint
start_step wss i s = step_at wss i s.pc s

-- The client has the loop over `Accept` only.
unfoldable pub client_start_step : Answer → Endpoint → Endpoint
unfolding start_step
client_start_step i s = start_step accepting i s

unfoldable pub server_start_step : ServerConfig → Answer → Endpoint → Endpoint
unfolding start_step
server_start_step c i s = start_step (mode_of c) i s

-- `Close`
unfoldable pub close : Endpoint → Endpoint
close s = if s.registered then record s { is_open = false } else s

-- The same code in the server.
abbrev pub server_close : Endpoint → Endpoint
server_close s = close s

-- What net and net/http document: on a closed listener `Accept` fails and `http.Serve` returns, and
-- `http.Serve` never returns `nil`.
abbrev pub IsLawfulAt : Mode → Answer → Endpoint → StartPc → Type 0
IsLawfulAt (over_http path) i s serving = (i.http ≢ some none) × (s.is_open ≡ false → i.http ≢ none)
IsLawfulAt accepting i s serving = s.is_open ≡ false → (c : ℕ) → i.accept ≢ ok c
IsLawfulAt wss i s _ = Unit {0}

pub data Event : Type 0 where
  starts : Answer → Event
  closes : Event

abbrev pub after : Mode → Event → Endpoint → Endpoint
after wss (starts i) s = start_step wss i s
after wss closes s = close s

abbrev pub IsLawful : Mode → Event → Endpoint → Type 0
IsLawful wss (starts i) s = IsLawfulAt wss i s s.pc
IsLawful wss closes s = Unit {0}

-- What an order of steps leads to.
unfoldable pub run : Mode → List Event → Endpoint → Endpoint
run wss [] s = s
run wss (e ∷ es) s = run wss es (after wss e s)

abbrev pub AllLawful : Mode → List Event → Endpoint → Type 0
AllLawful wss [] s = Unit {0}
AllLawful wss (e ∷ es) s = IsLawful wss e s × AllLawful wss es (after wss e s)

-- The steps of `Start` among them.
abbrev pub start_count : List Event → ℕ
start_count [] = 0
start_count (starts i ∷ es) = suc (start_count es)
start_count (closes ∷ es) = start_count es
