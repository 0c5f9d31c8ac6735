-- ===== src/Client/Forward.antt =====
-- `Start`, `ForwardConn` and the dialling of internal/core/client.go, as the list of what they do.
-- The remote address, the TLS handshake, the HTTP upgrade, the session and the tunnel answer by
-- arguments, and so do the sessions of the pool, which `Streams.Pool` has.
use mos_tls_tunnel.Prelude.{
  ℕ, ◌≡◌, refl, Bool, true, false, not, ◌&&◌, ◌||◌, Option, none, some, List, [], ◌∷◌, ◌++◌, arith,
  if◌then◌else◌, Bool-cases, inl, inr,
}
use mos_tls_tunnel.Config.{ClientConfig}
use mos_tls_tunnel.Handlers.{
  ConnId, left, right, stream, Action, opened, joined, closed, closes, opens, closes-append,
  opens-append, same_conn, warned, panics,
}

-- Whether each call succeeds, the stream that the sessions of the pool give, and the one that a new
-- session gives.
pub record Remote : Type 0 where
  pub raw : Bool
  pub handshake : Bool
  pub websocket : Bool
  pub smux : Bool
  pub pooled : Option ℕ
  pub new_stream : Option ℕ
  pub tunnel : Bool

pub data ForwardError : Type 0 where
  get_stream connect open_tunnel : ForwardError

-- `dialServerRaw`; `testDialServerRaw` is `nil` outside the tests of the program.
unfoldable pub dial_server_raw : ClientConfig → Remote → List Action × Bool
dial_server_raw c r = if r.raw then (opened right c.remote_addr ∷ [], true) else ([], false)

-- `dialTLS`; the flag says whether it returns a connection.
unfoldable pub dial_tls : ClientConfig → Remote → List Action × Bool
unfolding dial_server_raw
dial_tls c r =
    let raw = dial_server_raw c r in
    if not raw.1
    then ([], false)
    else if not r.handshake
    then (raw.0 ++ (closed right ∷ []), false)
    else (raw.0, true)

-- `dialWSS`: the dialer of gorilla/websocket closes what it opened when it fails.
unfoldable pub dial_wss : ClientConfig → Remote → List Action × Bool
dial_wss c r = if r.websocket then (opened right c.remote_addr ∷ [], true) else ([], false)

unfoldable pub dial_server : ClientConfig → Remote → List Action × Bool
dial_server c r = if c.enable_wss then dial_wss c r else dial_tls c r

abbrev pub with_session : Bool → List Action × Bool → List Action × Bool
with_session smux (acts, false) = (acts, false)
with_session true (acts, true) = (acts, true)
with_session false (acts, true) = (acts ++ (closed right ∷ []), false)

-- `dialNewSmuxSess`; the session keeps the connection.
unfoldable pub dial_new_smux_sess : ClientConfig → Remote → List Action × Bool
dial_new_smux_sess c r = with_session r.smux (dial_server c r)

abbrev pub tunnel_error : Bool → Option ForwardError
tunnel_error true = none
tunnel_error false = some open_tunnel

-- The end of `ForwardConn`, with the deferred `Close`.
unfoldable pub forward_to : ClientConfig → Bool → ConnId → List Action × Option ForwardError
forward_to c tunnel k = (joined left k c.timeout ∷ closed k ∷ [], tunnel_error tunnel)

-- The dial of `getMuxStream`, where the pool gave no stream; `openStream` of the new session may fail,
-- and the session stays in the pool.
abbrev pub open_new : Option ℕ → List Action × Bool → List Action × Option ℕ
open_new new_stream (acts, true) = (acts, new_stream)
open_new new_stream (acts, false) = (acts, none)

abbrev pub or_dial : ClientConfig → Remote → Option ℕ → List Action × Option ℕ
or_dial c r (some t) = ([], some t)
or_dial c r none = open_new r.new_stream (dial_new_smux_sess c r)

unfoldable pub get_mux_stream : ClientConfig → Remote → List Action × Option ℕ
get_mux_stream c r = or_dial c r r.pooled

abbrev pub over_stream :
    ClientConfig → Bool → List Action × Option ℕ → List Action × Option ForwardError
over_stream c tunnel (acts, none) = (acts, some get_stream)
over_stream c tunnel (acts, some t) =
    (acts ++ (forward_to c tunnel (stream t)).0, (forward_to c tunnel (stream t)).1)

abbrev pub over_conn : ClientConfig → Bool → List Action × Bool → List Action × Option ForwardError
over_conn c tunnel (acts, false) = (acts, some connect)
over_conn c tunnel (acts, true) =
    (acts ++ (forward_to c tunnel right).0, (forward_to c tunnel right).1)

unfoldable pub forward_conn : ClientConfig → Remote → List Action × Option ForwardError
forward_conn c r =
    if c.enable_mux
    then over_stream c r.tunnel (get_mux_stream c r)
    else over_conn c r.tunnel (dial_server c r)

-- Whether `ForwardConn` came to its tunnel.
abbrev pub reached_tunnel : Option ForwardError → Bool
reached_tunnel none = true
reached_tunnel (some open_tunnel) = true
reached_tunnel (some get_stream) = false
reached_tunnel (some connect) = false

-- A connection to the server is left open.
abbrev pub leaves_open : List Action → Bool
leaves_open acts = opens right acts && not (closes right acts)

dial_server-leaves_open :
    (c : ClientConfig) (r : Remote) → leaves_open (dial_server c r).0 ≡ (dial_server c r).1
unfolding dial_server dial_wss dial_tls opens closes
dial_server-leaves_open c r = ground arith

with_session-leaves_open :
    (smux : Bool) (d : List Action × Bool)
    → leaves_open d.0 ≡ d.1
    → leaves_open (with_session smux d).0 ≡ (with_session smux d).1
unfolding opens closes
with_session-leaves_open smux (acts, false) h = h
with_session-leaves_open true (acts, true) h = h
with_session-leaves_open false (acts, true) h = ground (
  arith,
  closes-append right acts (closed right ∷ []),
  opens-append right acts (closed right ∷ []),
)

-- The dial of a new session leaves a connection to the server open exactly when it succeeds.
pub dial_new_smux_sess-leaves_open :
    (c : ClientConfig) (r : Remote)
    → leaves_open (dial_new_smux_sess c r).0 ≡ (dial_new_smux_sess c r).1
unfolding dial_new_smux_sess
dial_new_smux_sess-leaves_open c r =
    with_session-leaves_open r.smux (dial_server c r) (dial_server-leaves_open c r)

-- The tunnel has this connection as its second one.
unfoldable pub joins : ConnId → List Action → Bool
joins k [] = false
joins k (joined a b timeout ∷ acts) = same_conn k b || joins k acts
joins k (opened a dst ∷ acts) = joins k acts
joins k (closed a ∷ acts) = joins k acts
joins k (warned w ∷ acts) = joins k acts
joins k (panics ∷ acts) = joins k acts

-- A `Close` of this connection by the goroutine itself.
unfoldable pub gives_back : ConnId → List Action → Bool
gives_back k [] = false
gives_back k (closed a ∷ acts) = same_conn k a || gives_back k acts
gives_back k (joined a b timeout ∷ acts) = gives_back k acts
gives_back k (opened a dst ∷ acts) = gives_back k acts
gives_back k (warned w ∷ acts) = gives_back k acts
gives_back k (panics ∷ acts) = gives_back k acts

-- The server answers to a dial of the client.
abbrev pub is_reached : ClientConfig → Remote → Bool
is_reached c r = if c.enable_wss then r.websocket else r.raw && r.handshake

abbrev pub is_missing : Option ℕ → Bool
is_missing none = true
is_missing (some t) = false

-- The pool gets a new session.
abbrev pub adds_session : ClientConfig → Remote → Bool
adds_session c r = c.enable_mux && is_missing r.pooled && is_reached c r && r.smux

-- What is given to the tunnel and not closed by the goroutine itself.
abbrev pub keeps : ConnId → List Action → Bool
keeps k acts = joins k acts && not (gives_back k acts)

dial_server-closes_left : (c : ClientConfig) (r : Remote) → closes left (dial_server c r).0 ≡ false
unfolding dial_server dial_wss dial_tls closes
dial_server-closes_left c r = ground arith

over_conn-closes_left :
    (c : ClientConfig) (tunnel : Bool) (d : List Action × Bool)
    → closes left d.0 ≡ false
    → closes left (over_conn c tunnel d).0 ≡ reached_tunnel (over_conn c tunnel d).1
unfolding forward_to closes
over_conn-closes_left c tunnel (acts, false) h = h
over_conn-closes_left c true (acts, true) h =
    ground (arith, closes-append left acts (forward_to c true right).0)
over_conn-closes_left c false (acts, true) h =
    ground (arith, closes-append left acts (forward_to c false right).0)

dial_new_smux_sess-closes_left :
    (c : ClientConfig) (r : Remote) → closes left (dial_new_smux_sess c r).0 ≡ false
unfolding dial_new_smux_sess dial_server dial_wss dial_tls closes
dial_new_smux_sess-closes_left c r = ground arith

open_new-closes_left :
    (o : Option ℕ) (d : List Action × Bool)
    → closes left d.0 ≡ false
    → closes left (open_new o d).0 ≡ false
open_new-closes_left o (acts, true) h = h
open_new-closes_left o (acts, false) h = h

or_dial-closes_left :
    (c : ClientConfig) (r : Remote) (o : Option ℕ) → closes left (or_dial c r o).0 ≡ false
unfolding closes
or_dial-closes_left c r (some t) = refl
or_dial-closes_left c r none =
    open_new-closes_left r.new_stream (dial_new_smux_sess c r) (dial_new_smux_sess-closes_left c r)

over_stream-closes_left :
    (c : ClientConfig) (tunnel : Bool) (d : List Action × Option ℕ)
    → closes left d.0 ≡ false
    → closes left (over_stream c tunnel d).0 ≡ reached_tunnel (over_stream c tunnel d).1
unfolding forward_to closes
over_stream-closes_left c tunnel (acts, none) h = h
over_stream-closes_left c true (acts, some t) h =
    ground (arith, closes-append left acts (forward_to c true (stream t)).0)
over_stream-closes_left c false (acts, some t) h =
    ground (arith, closes-append left acts (forward_to c false (stream t)).0)

-- `ForwardConn` closes the connection of the local client exactly when it comes to the tunnel: when
-- no stream is to be had or the server cannot be reached, that connection stays open.
pub forward_conn_leaks :
    (c : ClientConfig) (r : Remote)
    → closes left (forward_conn c r).0 ≡ reached_tunnel (forward_conn c r).1
unfolding forward_conn forward_to dial_server dial_wss dial_tls get_mux_stream dial_new_smux_sess
forward_conn_leaks c r = elim (Bool-cases c.enable_mux) [
  | inl e ↦
      rw e
        (over_stream-closes_left c r.tunnel (get_mux_stream c r) (or_dial-closes_left c r r.pooled))
  | inr e ↦ rw e (over_conn-closes_left c r.tunnel (dial_server c r) (dial_server-closes_left c r))
]
