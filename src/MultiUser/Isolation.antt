-- ===== src/MultiUser/Isolation.antt =====
-- Which destinations a user reaches through `mux.ServeHTTP`.
use mos_tls_tunnel.Prelude.{
  if◌then◌else◌, ℕ, ◌≡◌, refl, Bool, true, false, Bool-cases, Option, none, some, inl, inr, List,
  [], ◌∷◌, Bytes, ℤ, All, All-append,
}
use mos_tls_tunnel.Handlers.{
  ConnId, left, right, stream, dialled_for, invalid_path, Action, opened, joined, closed, warned,
  panics, deferred,
}
use mos_tls_tunnel.Handlers.Tunnelled.{
  mux_handle_mux, Network, Handler, mux_handler, all_of_accept, at_end, of_accept, handle_mux,
}
use mos_tls_tunnel.Server.Serve.{Peer, uses_mux}
use mos_tls_tunnel.Streams.Accept
use mos_tls_tunnel.Streams.Accept.{
  Round, Ending, session_closed, refused, panicked, open_still, handle_client_mux_conn, handle,
  close_stream, warn_accept, warn_too_many, log_server_error,
}
use mos_tls_tunnel.Config.{default_smux_max_stream}
use mos_tls_tunnel.MultiUser.Table.{Mux, new_mux}
use mos_tls_tunnel.MultiUser.Controller.{Json, Request, serve_all}
use mos_tls_tunnel.MultiUser.Spec.{users_after}
use mos_tls_tunnel.MultiUser.History.{get-serve_all}
use mos_tls_tunnel.MultiUser.Routing.{user_ends, serve_user, after_upgrade, serve_http}

-- A connection that is dialled goes to this destination.
abbrev pub DialsTo : Bytes → Action → Type 0
DialsTo dst (opened right d) = d ≡ dst
DialsTo dst (opened (dialled_for n) d) = d ≡ dst
DialsTo dst (opened left d) = Unit {0}
DialsTo dst (opened (stream n) d) = Unit {0}
DialsTo dst (joined a b timeout) = Unit {0}
DialsTo dst (closed k) = Unit {0}
DialsTo dst (warned w) = Unit {0}
DialsTo dst panics = Unit {0}

abbrev pub AllDialTo : Bytes → List Action → Type 0
AllDialTo dst acts = All (DialsTo dst) acts

abbrev DialsOnly : Bytes → Handler → Type 0
DialsOnly dst f = (k : ConnId) (n : ℕ) → AllDialTo dst (f k (dialled_for n))

mux_handler-DialsOnly :
    (net : Network) (dst : Bytes) (timeout : ℤ) → DialsOnly dst (mux_handler net dst timeout)
unfolding mux_handler
mux_handler-DialsOnly net dst timeout k n = elim (Bool-cases (net.dials k)) [
  | inl e ↦ rw e (refl, (tt, (tt, tt)))
  | inr e ↦ rw e (tt, tt)
]

mux_handler-AllDialTo_right :
    (net : Network) (dst : Bytes) (timeout : ℤ)
    → AllDialTo dst (mux_handler net dst timeout left right)
unfolding mux_handler
mux_handler-AllDialTo_right net dst timeout = elim (Bool-cases (net.dials left)) [
  | inl e ↦ rw e (refl, (tt, (tt, tt)))
  | inr e ↦ rw e (tt, tt)
]

of_accept-AllDialTo :
    (dst : Bytes) (f : Handler) (a : Accept.Action)
    → DialsOnly dst f
    → AllDialTo dst (of_accept f a)
of_accept-AllDialTo dst f (handle t) h = (tt, h (stream t) t)
of_accept-AllDialTo dst f (close_stream t) h = (tt, (tt, tt))
of_accept-AllDialTo dst f (warn_accept n) h = (tt, tt)
of_accept-AllDialTo dst f warn_too_many h = (tt, tt)
of_accept-AllDialTo dst f (log_server_error n) h = (tt, tt)

all_of_accept-AllDialTo :
    (dst : Bytes) (f : Handler) (acts : List Accept.Action)
    → DialsOnly dst f
    → AllDialTo dst (all_of_accept f acts)
all_of_accept-AllDialTo dst f [] h = tt
all_of_accept-AllDialTo dst f (a ∷ rest) h =
    All-append (DialsTo dst) (of_accept f a) _ (of_accept-AllDialTo dst f a h)
      (all_of_accept-AllDialTo dst f rest h)

at_end-AllDialTo : (dst : Bytes) (e : Ending) → AllDialTo dst (at_end e)
at_end-AllDialTo dst panicked = (tt, tt)
at_end-AllDialTo dst session_closed = tt
at_end-AllDialTo dst Ending.accept_failed = tt
at_end-AllDialTo dst refused = tt
at_end-AllDialTo dst open_still = tt

serve_user-AllDialTo :
    (m : Mux) (dst : Bytes) (p : Peer) (mux : Bool) → AllDialTo dst (serve_user m dst p mux)
unfolding serve_user handle_mux mux_handle_mux
serve_user-AllDialTo m dst p true =
    let r = handle_client_mux_conn p.session default_smux_max_stream p.rounds in
    let f = mux_handler p.net dst m.timeout in
    All-append (DialsTo dst) (all_of_accept f r.0) (at_end r.1)
      (all_of_accept-AllDialTo dst f r.0 (mux_handler-DialsOnly p.net dst m.timeout))
      (at_end-AllDialTo dst r.1)
serve_user-AllDialTo m dst p false = mux_handler-AllDialTo_right p.net dst m.timeout

closing-AllDialTo :
    (dst : Bytes) (ended : Bool) → AllDialTo dst (if ended then closed left ∷ [] else [])
closing-AllDialTo dst true = (tt, tt)
closing-AllDialTo dst false = tt

after_upgrade-AllDialTo :
    (m : Mux) (dst : Bytes) (p : Peer) (o : Option Bytes) → AllDialTo dst (after_upgrade m dst p o)
unfolding deferred
after_upgrade-AllDialTo m dst p none = (tt, tt)
after_upgrade-AllDialTo m dst p (some s) = (
  tt,
  All-append (DialsTo dst) (serve_user m dst p (uses_mux s m.enable_mux)) _
      (serve_user-AllDialTo m dst p (uses_mux s m.enable_mux))
      (closing-AllDialTo dst (user_ends p (uses_mux s m.enable_mux))),
)

module _ (json : Json) (rs : List Request) (enable : Bool) (timeout : ℤ) (path : Bytes) where
  -- Whatever the other side does on the path of a user, every connection that the server dials for
  -- it goes to the destination that the requests to the controller gave the user.
  pub serve_http-AllDialTo :
      (p : Peer) (dst : Bytes)
      → users_after json rs (λ _. none) path ≡ some dst
      → AllDialTo dst (serve_http (serve_all json rs (new_mux enable timeout)) path p)
  unfolding serve_http
  serve_http-AllDialTo p dst h =
      rw (get-serve_all json rs enable timeout path, h)
        (after_upgrade-AllDialTo (serve_all json rs (new_mux enable timeout)) dst p p.upgrade)

  -- On a path that the requests to the controller gave to no user, or took away again, the server
  -- does nothing but log a warning.
  pub serve_http-unknown :
      (p : Peer)
      → users_after json rs (λ _. none) path ≡ none
      → serve_http (serve_all json rs (new_mux enable timeout)) path p
        ≡ warned (invalid_path path) ∷ []
  unfolding serve_http
  serve_http-unknown p h = rw (get-serve_all json rs enable timeout path, h) refl
