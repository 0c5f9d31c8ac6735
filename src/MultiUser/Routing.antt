-- ===== src/MultiUser/Routing.antt =====
-- `mux.ServeHTTP` of internal/core/multi_user_http_mux.go: which user a request belongs to, and
-- what its handler does.
use mos_tls_tunnel.Prelude.{
  ◌≡◌, refl, Bool, true, false, not, ◌&&◌, ◌∙◌, arith, Option, none, some, List, [], ◌∷◌, Bytes,
  if◌then◌else◌,
}
use mos_tls_tunnel.Handlers.{
  ConnId, left, right, stream, dialled_for, invalid_path, upgrade_failed, Action, warned, closes,
  opens, Balanced, deferred, deferred-left_open, deferred-Balanced, left_open, Balanced-left_open,
  same_conn,
}
use mos_tls_tunnel.Handlers.Tunnelled.{
  IsTcp, mux_handle_mux, mux_handler, mux_handler-IsTidy, handle_mux-Balanced, session_ends,
}
use mos_tls_tunnel.Handlers.Lasting.{
  goes_on, session_ends-goes_on, mux_handler-IsAway, handle_mux-IsAway,
}
use mos_tls_tunnel.Server.Serve.{Peer, uses_mux}
use mos_tls_tunnel.MultiUser.Table.{Mux, get}

-- `handleClientMuxConn` or `handleClientConn`
unfoldable pub serve_user : Mux → Bytes → Peer → Bool → List Action
serve_user m dst p mux =
    if mux
    then mux_handle_mux p.net dst m.timeout p.session p.rounds
    else mux_handler p.net dst m.timeout left right

-- Whether it has come to its end.
unfoldable pub user_ends : Peer → Bool → Bool
user_ends p mux = if mux then session_ends p.session p.rounds else true

abbrev pub after_upgrade : Mux → Bytes → Peer → Option Bytes → List Action
after_upgrade m dst p none = warned upgrade_failed ∷ []
after_upgrade m dst p (some subprotocol) =
    let mux = uses_mux subprotocol m.enable_mux in
    deferred left (user_ends p mux) (serve_user m dst p mux)

abbrev pub after_get : Mux → Bytes → Peer → Option Bytes → List Action
after_get m path p none = warned (invalid_path path) ∷ []
after_get m path p (some dst) = after_upgrade m dst p p.upgrade

unfoldable pub serve_http : Mux → Bytes → Peer → List Action
serve_http m path p = after_get m path p (get path m)

serve_user-Balanced :
    (m : Mux) (dst : Bytes) (p : Peer) (mux : Bool) (k : ConnId)
    → IsTcp k
    → Balanced k (serve_user m dst p mux)
unfolding serve_user mux_handle_mux
serve_user-Balanced m dst p true k i =
    handle_mux-Balanced (mux_handler p.net dst m.timeout) p.session p.rounds k
      (mux_handler-IsTidy p.net dst m.timeout) i
serve_user-Balanced m dst p false k i = mux_handler-IsTidy p.net dst m.timeout k left right

-- The other side of a user is still in the loop over the streams of its session.
abbrev pub upgraded_on : Mux → Peer → Option Bytes → Bool
upgraded_on m p none = false
upgraded_on m p (some subprotocol) = uses_mux subprotocol m.enable_mux && goes_on p.session p.rounds

abbrev pub user_on : Mux → Peer → Option Bytes → Bool
user_on m p none = false
user_on m p (some dst) = upgraded_on m p p.upgrade

not-user_ends :
    (p : Peer) (mux : Bool) → not (user_ends p mux) ≡ (mux && goes_on p.session p.rounds)
unfolding user_ends
not-user_ends p mux = ground (arith, session_ends-goes_on p.session p.rounds)

closes_left-serve_user :
    (m : Mux) (dst : Bytes) (p : Peer) (mux : Bool)
    → user_ends p mux ≡ false
    → closes left (serve_user m dst p mux) ≡ false
unfolding user_ends serve_user mux_handle_mux
closes_left-serve_user m dst p true h =
    handle_mux-IsAway (mux_handler p.net dst m.timeout) p.session p.rounds
      (mux_handler-IsAway p.net dst m.timeout)
closes_left-serve_user m dst p false h = cc

after_upgrade-others :
    (m : Mux) (dst : Bytes) (p : Peer) (s : Bytes) (k : ConnId)
    → IsTcp k
    → same_conn k left ≡ false
    → left_open k (after_upgrade m dst p (some s)) ≡ false
after_upgrade-others m dst p s k i n = Balanced-left_open k (after_upgrade m dst p (some s)) (
    deferred-Balanced k left (user_ends p (uses_mux s m.enable_mux)) _ n
      (serve_user-Balanced m dst p _ k i))

after_upgrade-left_open :
    (m : Mux) (dst : Bytes) (p : Peer) (o : Option Bytes) (k : ConnId)
    → IsTcp k
    → left_open k (after_upgrade m dst p o) ≡ (same_conn k left && upgraded_on m p o)
unfolding opens
after_upgrade-left_open m dst p none k i = ground arith
after_upgrade-left_open m dst p (some s) left i =
    let mux = uses_mux s m.enable_mux in
    deferred-left_open left (user_ends p mux) (serve_user m dst p mux) refl
      (closes_left-serve_user m dst p mux)
    ∙ not-user_ends p mux
after_upgrade-left_open m dst p (some s) right i = after_upgrade-others m dst p s right i refl
after_upgrade-left_open m dst p (some s) (dialled_for n) i =
    after_upgrade-others m dst p s (dialled_for n) i refl
after_upgrade-left_open m dst p (some s) (stream n) i = absurd i

after_get-left_open :
    (m : Mux) (path : Bytes) (p : Peer) (o : Option Bytes) (k : ConnId)
    → IsTcp k
    → left_open k (after_get m path p o) ≡ (same_conn k left && user_on m p o)
unfolding opens
after_get-left_open m path p none k i = ground arith
after_get-left_open m path p (some dst) k i = after_upgrade-left_open m dst p p.upgrade k i

-- Of the connection of a user and of those that are dialled for it or for its streams, the
-- multi-user server leaves at most the first one open, and exactly as long as its session goes on:
-- it has a session that was made, that is not closed, has given no error of any kind, and has never
-- had more than 16 streams.
pub left_open-serve_http :
    (m : Mux) (path : Bytes) (p : Peer) (k : ConnId)
    → IsTcp k
    → left_open k (serve_http m path p) ≡ (same_conn k left && user_on m p (get path m))
unfolding serve_http
left_open-serve_http m path p k i = after_get-left_open m path p (get path m) k i
