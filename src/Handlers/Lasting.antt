-- ===== src/Handlers/Lasting.antt =====
-- How long the servers keep the connection of a session, in the loop over its streams.
use mos_tls_tunnel.Prelude.{
  ℕ, ◌≡◌, refl, Bool, true, false, not, ◌&&◌, ◌||◌, List, [], ◌∷◌, arith, Bytes, ℤ, ltb, Result, ok,
  err,
}
use mos_tls_tunnel.Handlers.{left, stream, dialled_for, closes, closes-append}
use mos_tls_tunnel.Handlers.Tunnelled.{
  Network, Handler, server_handler, mux_handler, of_accept, all_of_accept, at_end, is_ended,
  session_ends, handle_mux,
}
use mos_tls_tunnel.Config.{default_smux_max_stream}
use mos_tls_tunnel.Streams.Accept
use mos_tls_tunnel.Streams.Accept.{
  AcceptError, Round, handle, close_stream, warn_accept, warn_too_many, log_server_error, Ending,
  session_closed, refused, panicked, open_still, accept_loop, on_accept, handle_client_mux_conn,
}

abbrev is_error : Result AcceptError ℕ → Bool
is_error (ok t) = false
is_error (err e) = true

-- The session is closed, gives any error, or has more streams than 16.
abbrev pub ends_round : Round → Bool
ends_round r = r.closed || is_error r.accept || ltb 16 r.num_streams

abbrev pub no_end : List Round → Bool
no_end [] = true
no_end (r ∷ rounds) = not (ends_round r) && no_end rounds

-- A session that was made, and that no round ends.
abbrev pub goes_on : Result ℕ (Unit {0}) → List Round → Bool
goes_on (err e) rounds = false
goes_on (ok u) rounds = no_end rounds

is_ended-accept_loop :
    (rounds : List Round)
    → is_ended (accept_loop default_smux_max_stream rounds).1 ≡ not (no_end rounds)
unfolding accept_loop on_accept
is_ended-accept_loop [] = refl
is_ended-accept_loop (r ∷ rounds) = ground (arith, is_ended-accept_loop rounds)

pub not-not : (b : Bool) → not (not b) ≡ b
not-not true = refl
not-not false = refl

pub session_ends-goes_on :
    (session : Result ℕ (Unit {0})) (rounds : List Round)
    → session_ends session rounds ≡ not (goes_on session rounds)
unfolding session_ends handle_client_mux_conn
session_ends-goes_on (err e) rounds = refl
session_ends-goes_on (ok u) rounds = is_ended-accept_loop rounds

-- The handler of a stream leaves the connection of its session alone.
abbrev pub IsAway : Handler → Type 0
IsAway f = (t : ℕ) → closes left (f (stream t) (dialled_for t)) ≡ false

pub server_handler-IsAway :
    (net : Network) (dst : Bytes) (timeout : ℤ) → IsAway (server_handler net dst timeout)
unfolding server_handler closes
server_handler-IsAway net dst timeout t = ground arith

pub mux_handler-IsAway :
    (net : Network) (dst : Bytes) (timeout : ℤ) → IsAway (mux_handler net dst timeout)
unfolding mux_handler closes
mux_handler-IsAway net dst timeout t = ground arith

of_accept-IsAway :
    (f : Handler) (a : Accept.Action) → IsAway f → closes left (of_accept f a) ≡ false
unfolding closes
of_accept-IsAway f (handle t) away = away t
of_accept-IsAway f (close_stream t) away = refl
of_accept-IsAway f (warn_accept n) away = refl
of_accept-IsAway f warn_too_many away = refl
of_accept-IsAway f (log_server_error n) away = refl

all_of_accept-IsAway :
    (f : Handler) (acts : List Accept.Action)
    → IsAway f
    → closes left (all_of_accept f acts) ≡ false
unfolding closes
all_of_accept-IsAway f [] away = refl
all_of_accept-IsAway f (a ∷ rest) away =
    rw (closes-append left (of_accept f a) (all_of_accept f rest), of_accept-IsAway f a away)
      (all_of_accept-IsAway f rest away)

at_end-IsAway : (e : Ending) → closes left (at_end e) ≡ false
unfolding closes
at_end-IsAway panicked = refl
at_end-IsAway session_closed = refl
at_end-IsAway Ending.accept_failed = refl
at_end-IsAway refused = refl
at_end-IsAway open_still = refl

pub handle_mux-IsAway :
    (f : Handler) (session : Result ℕ (Unit {0})) (rounds : List Round)
    → IsAway f
    → closes left (handle_mux f session rounds) ≡ false
unfolding handle_mux
handle_mux-IsAway f session rounds away =
    let r = handle_client_mux_conn session default_smux_max_stream rounds in
    rw (closes-append left (all_of_accept f r.0) (at_end r.1), all_of_accept-IsAway f r.0 away)
      (at_end-IsAway r.1)
