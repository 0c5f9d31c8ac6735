-- ===== src/Dialer.antt =====
-- `dummyDialerListener` of internal/core/dummy_conn.go: `Dial` and `Accept` from any goroutines meet
-- on a channel without a buffer, or fail once the other channel is closed.
pub mod Counting
pub mod Laws
pub mod Draining
use mos_tls_tunnel.Prelude.{
  ℕ, zero, suc, Bool, true, false, Option, none, some, List, [], ◌∷◌, ◌==◌, if◌then◌else◌,
}

-- The two ends of the pipe that the call of this number has made.
pub data PipeEnd : Type 0 where
  near far : ℕ → PipeEnd

-- What a call returns; `err_closed_pipe` is `io.ErrClosedPipe`.
pub data Outcome : Type 0 where
  conn : PipeEnd → Outcome
  err_closed_pipe : Outcome

-- The channel `isClosed` and `closeOnce`, the calls that wait in their `select`, and those that have
-- returned (the last one first). The calls are numbered as they come; `panicked` is the panic of
-- closing a closed channel.
pub record DummyDialerListener : Type 0 where
  pub is_closed : Bool
  pub close_once : Bool
  pub next : ℕ
  pub dialling : List ℕ
  pub accepting : List ℕ
  pub returned : List (ℕ × Outcome)
  pub panicked : Bool

unfoldable pub new_dummy_dialer_listener : DummyDialerListener
new_dummy_dialer_listener = record {
  is_closed = false;
  close_once = false;
  next = 0;
  dialling = [];
  accepting = [];
  returned = [];
  panicked = false;
}

abbrev pub behind : ℕ → Option (List ℕ) → Option (List ℕ)
behind j none = none
behind j (some js) = some (j ∷ js)

-- The list without the number, if it is there.
abbrev pub take_out : ℕ → List ℕ → Option (List ℕ)
take_out i [] = none
take_out i (j ∷ js) = if i == j then some js else behind j (take_out i js)

-- A call of `Dial`, which makes a pipe, or of `Accept`, up to its `select`.
abbrev pub dial : DummyDialerListener → DummyDialerListener
dial d = record d { next = suc d.next; dialling = d.next ∷ d.dialling }

abbrev pub accept : DummyDialerListener → DummyDialerListener
accept d = record d { next = suc d.next; accepting = d.next ∷ d.accepting }

-- The send of the one and the receipt of the other happen together.
abbrev pub meet :
    ℕ → ℕ → Option (List ℕ) → Option (List ℕ) → DummyDialerListener → Option DummyDialerListener
meet i j (some is) (some js) d = some (record d {
  dialling = is;
  accepting = js;
  returned = (i, conn (near i)) ∷ (j, conn (far i)) ∷ d.returned;
})
meet i j none js d = none
meet i j (some is) none d = none

abbrev pub dial_fails : ℕ → Option (List ℕ) → DummyDialerListener → Option DummyDialerListener
dial_fails i none d = none
dial_fails i (some is) d =
    some (record d { dialling = is; returned = (i, err_closed_pipe) ∷ d.returned })

abbrev pub accept_fails : ℕ → Option (List ℕ) → DummyDialerListener → Option DummyDialerListener
accept_fails j none d = none
accept_fails j (some js) d =
    some (record d { accepting = js; returned = (j, err_closed_pipe) ∷ d.returned })

-- `close(d.isClosed)`
abbrev pub close_channel : DummyDialerListener → DummyDialerListener
close_channel d = record d { is_closed = true; panicked = if d.is_closed then true else d.panicked }

unfoldable pub close : DummyDialerListener → DummyDialerListener
close d = if d.close_once then d else close_channel (record d { close_once = true })

-- The steps; `meets i j` is that of the calls `i` of `Dial` and `j` of `Accept`.
pub data Step : Type 0 where
  dials accepts closes : Step
  meets : ℕ → ℕ → Step
  refuses_dial refuses_accept : ℕ → Step

-- `none` where the step cannot happen.
unfoldable pub step : Step → DummyDialerListener → Option DummyDialerListener
unfolding close
step dials d = some (dial d)
step accepts d = some (accept d)
step closes d = some (close d)
step (meets i j) d = meet i j (take_out i d.dialling) (take_out j d.accepting) d
step (refuses_dial i) d = if d.is_closed then dial_fails i (take_out i d.dialling) d else none
step (refuses_accept j) d = if d.is_closed then accept_fails j (take_out j d.accepting) d else none

abbrev pub and_then :
    Option DummyDialerListener
    → (DummyDialerListener → Option DummyDialerListener)
    → Option DummyDialerListener
and_then none f = none
and_then (some d) f = f d

unfoldable pub run : List Step → DummyDialerListener → Option DummyDialerListener
run [] d = some d
run (s ∷ ss) d = and_then (step s d) (run ss)
