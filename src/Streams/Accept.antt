-- ===== src/Streams/Accept.antt =====
-- `handleClientMuxConn` of internal/core/common.go: the server's loop over the streams of one
-- connection. A round has what the session answers in it.
use mos_tls_tunnel.Prelude.{
  ℕ, ◌≤◌, ◌<◌, ◌≡◌, ◌≢◌, Bool, true, false, List, [], ◌∷◌, ◌++◌, arith, ltb, if◌then◌else◌, Result,
  ok, err, All, map,
}

-- `websocket.CloseError` with the normal code, `io.EOF`, and any other error.
pub data AcceptError : Type 0 where
  normal_closure end_of_file : AcceptError
  unexpected : ℕ → AcceptError

pub record Round : Type 0 where
  pub closed : Bool
  pub accept : Result AcceptError ℕ
  pub num_streams : ℕ

pub data Action : Type 0 where
  handle : ℕ → Action
  close_stream : ℕ → Action
  warn_accept : ℕ → Action
  warn_too_many : Action
  log_server_error : ℕ → Action

-- How the loop ends; `open_still` is no end: the rounds are used up.
pub data Ending : Type 0 where
  session_closed accept_failed refused panicked open_still : Ending

abbrev pub after_handle : ℕ → List Action × Ending → List Action × Ending
after_handle t (acts, e) = (handle t ∷ acts, e)

unfoldable pub on_accept :
    ℕ → Round → Result AcceptError ℕ → List Action × Ending → List Action × Ending
on_accept max r (err normal_closure) rest = ([], accept_failed)
on_accept max r (err end_of_file) rest = ([], accept_failed)
on_accept max r (err (unexpected n)) rest = (warn_accept n ∷ [], accept_failed)
on_accept max r (ok t) rest =
    if ltb max r.num_streams
    then (close_stream t ∷ warn_too_many ∷ [], refused)
    else after_handle t rest

unfoldable pub accept_loop : ℕ → List Round → List Action × Ending
accept_loop max [] = ([], open_still)
accept_loop max (r ∷ rounds) =
    let rest = accept_loop max rounds in
    if r.closed then ([], session_closed) else on_accept max r r.accept rest

-- `smux.Server` may fail. The error is logged, and the loop begins with the session that is nil.
unfoldable pub handle_client_mux_conn : Result ℕ (Unit {0}) → ℕ → List Round → List Action × Ending
handle_client_mux_conn (err e) max rounds = (log_server_error e ∷ [], panicked)
handle_client_mux_conn (ok _) max rounds = accept_loop max rounds

-- A round that serves a stream, and one that ends the loop in a certain way.
abbrev pub Serves : ℕ → Round → ℕ → Type 0
Serves max r t = (r.closed ≡ false) × (r.accept ≡ ok t) × (r.num_streams ≤ max)

pub data Stops (max : ℕ) (r : Round) : List Action × Ending → Type 0 where
  by_close : r.closed ≡ true → Stops max r ([], session_closed)
  by_normal_closure :
      r.closed ≡ false → r.accept ≡ err normal_closure → Stops max r ([], accept_failed)
  by_end_of_file : r.closed ≡ false → r.accept ≡ err end_of_file → Stops max r ([], accept_failed)
  by_error :
      (n : ℕ)
      → r.closed ≡ false
      → r.accept ≡ err (unexpected n)
      → Stops max r (warn_accept n ∷ [], accept_failed)
  by_limit :
      (t : ℕ)
      → r.closed ≡ false
      → r.accept ≡ ok t
      → max < r.num_streams
      → Stops max r (close_stream t ∷ warn_too_many ∷ [], refused)

-- Rounds that serve these streams, one each.
abbrev pub AllServe : ℕ → List Round → List ℕ → Type 0
AllServe max [] [] = Unit {0}
AllServe max (r ∷ rs) (t ∷ ts) = Serves max r t × AllServe max rs ts
AllServe max _ _ = ⊥

accept_loop_stop :
    (max : ℕ) (r : Round) (rest : List Round) {out : List Action × Ending}
    → Stops max r out
    → accept_loop max (r ∷ rest) ≡ out
unfolding accept_loop on_accept
accept_loop_stop max r rest (by_close c) = ground arith
accept_loop_stop max r rest (by_normal_closure c a) = rw (c, a)
accept_loop_stop max r rest (by_end_of_file c a) = rw (c, a)
accept_loop_stop max r rest (by_error n c a) = rw (c, a)
accept_loop_stop max r rest (by_limit t c a h) = ground arith

-- Every stream that is accepted while the session is open and within its limit is handled, once
-- and in order, and the first round that is otherwise ends the loop: with no warning if the session
-- was closed or ended in the expected ways, with a warning on another error, and by closing the
-- stream that is one too many.
pub accept_loop_lem :
    (max : ℕ) (before : List Round) (ts : List ℕ) (r : Round) (rest : List Round)
    {out : List Action × Ending}
    → AllServe max before ts
    → Stops max r out
    → accept_loop max (before ++ (r ∷ rest)) ≡ (map handle ts ++ out.0, out.1)
unfolding accept_loop on_accept
accept_loop_lem max [] [] r rest h s = accept_loop_stop max r rest s
accept_loop_lem max [] (t ∷ ts) r rest h s = absurd h
accept_loop_lem max (b ∷ before) [] r rest h s = absurd h
accept_loop_lem max (b ∷ before) (t ∷ ts) r rest ((c, a, n), h) s =
    ground (arith, accept_loop_lem max before ts r rest h s)

-- If a session has at most `limit` streams in every round, for a limit that is no larger than the
-- server's own, the server never refuses a stream for being one too many.
pub accept_loop-ne-refused :
    (max limit : ℕ) (rounds : List Round)
    → limit ≤ max
    → All (λ (r : Round). r.num_streams ≤ limit) rounds
    → (accept_loop max rounds).1 ≢ refused
unfolding accept_loop on_accept
accept_loop-ne-refused max limit [] h a = cc
accept_loop-ne-refused max limit (r ∷ rounds) h (n, a) =
    ground (arith, accept_loop-ne-refused max limit rounds h a)
