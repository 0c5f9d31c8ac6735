-- ===== src/Handlers/Tunnelled.antt =====
-- `handleClientConn` and `handleClientMuxConn` of internal/core/server.go and
-- internal/core/multi_user_http_mux.go, which differ in their logging and in the order of the
-- connections that they join.
use mos_tls_tunnel.Prelude.{
  ℕ, Bool, true, false, Option, none, some, List, [], ◌∷◌, ◌++◌, arith, Bytes, ℤ, if◌then◌else◌,
  Result,
}
use mos_tls_tunnel.Config.{default_smux_max_stream}
use mos_tls_tunnel.Handlers.{
  ConnId, left, right, stream, dialled_for, dial_failed, tunnel_failed, accept_failed,
  too_many_streams, Action, opened, joined, closed, warned, panics, closes, opens, Balanced,
  Balanced-append,
}
use mos_tls_tunnel.Streams.Accept
use mos_tls_tunnel.Streams.Accept.{
  Round, handle, close_stream, warn_accept, warn_too_many, log_server_error, Ending, session_closed,
  refused, panicked, open_still, handle_client_mux_conn,
}

-- What the network answers to the handler of a connection: whether the destination can be dialled,
-- and whether the tunnel ends with an error.
pub record Network : Type 0 where
  pub dials : ConnId → Bool
  pub fails : ConnId → Bool

-- A handler of a connection, which dials under the second name.
abbrev pub Handler : Type 0
Handler = ConnId → ConnId → List Action

-- `dialDst`, which dials for a connection under the second name; `testDialDst` is `nil` outside the
-- tests of the program.
abbrev pub dial_dst : Network → Bytes → ConnId → ConnId → Option Action
dial_dst net dst conn dialled = if net.dials conn then some (opened dialled dst) else none

abbrev pub with_dst : Option Action → List Action → List Action
with_dst (some dial) rest = dial ∷ rest
with_dst none rest = warned dial_failed ∷ []

-- `Server.handleClientConn`
unfoldable pub server_handler : Network → Bytes → ℤ → Handler
server_handler net dst timeout conn dialled = with_dst (dial_dst net dst conn dialled) (
    joined dialled conn timeout
    ∷ (if net.fails conn then warned tunnel_failed ∷ closed dialled ∷ [] else closed dialled ∷ []))

-- `mux.handleClientConn`, which does not look at the error of the tunnel
unfoldable pub mux_handler : Network → Bytes → ℤ → Handler
mux_handler net dst timeout conn dialled =
    if net.dials conn
    then opened dialled dst ∷ joined conn dialled timeout ∷ closed dialled ∷ []
    else warned dial_failed ∷ []

-- Each stream has a goroutine with the handler; what one goroutine does stands together.
abbrev pub of_accept : Handler → Accept.Action → List Action
of_accept f (handle t) = opened (stream t) [] ∷ f (stream t) (dialled_for t)
of_accept f (close_stream t) = opened (stream t) [] ∷ closed (stream t) ∷ []
of_accept f (warn_accept n) = warned accept_failed ∷ []
of_accept f warn_too_many = warned too_many_streams ∷ []
of_accept f (log_server_error n) = warned accept_failed ∷ []

abbrev pub all_of_accept : Handler → List Accept.Action → List Action
all_of_accept f [] = []
all_of_accept f (a ∷ rest) = of_accept f a ++ all_of_accept f rest

abbrev pub at_end : Ending → List Action
at_end panicked = panics ∷ []
at_end session_closed = []
at_end Ending.accept_failed = []
at_end refused = []
at_end open_still = []

abbrev pub actions_of : Handler → List Accept.Action × Ending → List Action
actions_of f (acts, e) = all_of_accept f acts ++ at_end e

-- `handleClientMuxConn` with the limit of the servers
unfoldable pub handle_mux : Handler → Result ℕ (Unit {0}) → List Round → List Action
handle_mux f session rounds =
    actions_of f (handle_client_mux_conn session default_smux_max_stream rounds)

-- `open_still` says that the loop has not ended. A panic runs the deferred calls too.
abbrev pub is_ended : Ending → Bool
is_ended open_still = false
is_ended session_closed = true
is_ended Ending.accept_failed = true
is_ended refused = true
is_ended panicked = true

-- Whether `handle_mux` has come to its end.
unfoldable pub session_ends : Result ℕ (Unit {0}) → List Round → Bool
session_ends session rounds =
    is_ended (handle_client_mux_conn session default_smux_max_stream rounds).1

-- `mux.handleClientMuxConn`, whose closure has the destination of the user
unfoldable pub mux_handle_mux : Network → Bytes → ℤ → Result ℕ (Unit {0}) → List Round → List Action
unfolding handle_mux mux_handler
mux_handle_mux net dst timeout session rounds =
    handle_mux (mux_handler net dst timeout) session rounds

-- A connection other than a stream of a session.
abbrev pub IsTcp : ConnId → Type 0
IsTcp (stream t) = ⊥
IsTcp _ = Unit {0}

-- A handler closes what it opens.
abbrev pub IsTidy : Handler → Type 0
IsTidy f = (c conn : ConnId) (dialled : ConnId) → Balanced c (f conn dialled)

pub server_handler-IsTidy :
    (net : Network) (dst : Bytes) (timeout : ℤ) → IsTidy (server_handler net dst timeout)
unfolding server_handler closes opens
server_handler-IsTidy net dst timeout c conn dialled h = ground arith

pub mux_handler-IsTidy :
    (net : Network) (dst : Bytes) (timeout : ℤ) → IsTidy (mux_handler net dst timeout)
unfolding mux_handler closes opens
mux_handler-IsTidy net dst timeout c conn dialled h = ground arith

of_accept-Balanced :
    (f : Handler) (a : Accept.Action) (c : ConnId) → IsTidy f → IsTcp c → Balanced c (of_accept f a)
unfolding closes opens
of_accept-Balanced f (handle t) left tidy i h = tidy left (stream t) (dialled_for t) h
of_accept-Balanced f (handle t) right tidy i h = tidy right (stream t) (dialled_for t) h
of_accept-Balanced f (handle t) (dialled_for n) tidy i h =
    tidy (dialled_for n) (stream t) (dialled_for t) h
of_accept-Balanced f (handle t) (stream n) tidy i h = absurd i
of_accept-Balanced f (close_stream t) c tidy i h = ground arith
of_accept-Balanced f (warn_accept n) c tidy i h = cc
of_accept-Balanced f warn_too_many c tidy i h = cc
of_accept-Balanced f (log_server_error n) c tidy i h = cc

all_of_accept-Balanced :
    (f : Handler) (acts : List Accept.Action) (c : ConnId)
    → IsTidy f
    → IsTcp c
    → Balanced c (all_of_accept f acts)
all_of_accept-Balanced f [] c tidy i = unfold opens in (λ h. cc)
all_of_accept-Balanced f (a ∷ rest) c tidy i =
    Balanced-append c (of_accept f a) _ (of_accept-Balanced f a c tidy i)
      (all_of_accept-Balanced f rest c tidy i)

at_end-Balanced : (e : Ending) (c : ConnId) → Balanced c (at_end e)
unfolding closes opens
at_end-Balanced panicked c h = cc
at_end-Balanced session_closed c h = cc
at_end-Balanced Ending.accept_failed c h = cc
at_end-Balanced refused c h = cc
at_end-Balanced open_still c h = cc

pub handle_mux-Balanced :
    (f : Handler) (session : Result ℕ (Unit {0})) (rounds : List Round) (c : ConnId)
    → IsTidy f
    → IsTcp c
    → Balanced c (handle_mux f session rounds)
unfolding handle_mux
handle_mux-Balanced f session rounds c tidy i =
    let r = handle_client_mux_conn session default_smux_max_stream rounds in
    Balanced-append c (all_of_accept f r.0) (at_end r.1) (all_of_accept-Balanced f r.0 c tidy i)
      (at_end-Balanced r.1 c)
