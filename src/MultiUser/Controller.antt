-- ===== src/MultiUser/Controller.antt =====
-- `MUServer.ServeHTTP` and `sendMURes` of internal/core/multi_user_server.go.
-- encoding/json is a parameter: what it reads from a body, and the text of a result.
use mos_tls_tunnel.Prelude.{
  ℕ, ◌*◌, ◌<◌, ◌≤◌, ◌≡◌, arith, take-length_le, length-take_le, lt→ltb, Bool, true, false, not,
  Option, none, some, List, [], ◌∷◌, Bytes, codes, same, length, take, ℤ, pos, int_eq,
  if◌then◌else◌, ◌==◌, ltb,
}
use mos_tls_tunnel.MultiUser.Table.{Args, Mux, add, del, reset, len}

abbrev pub max_control_body_size : ℕ
max_control_body_size = 1024 * 1024 * 2

pub record MuCmd : Type 0 where
  pub opt : ℤ
  pub args_bunch : List Args

abbrev pub opt_add : ℤ
opt_add = pos 1

abbrev pub opt_del : ℤ
opt_del = pos 2

abbrev pub opt_reset : ℤ
opt_reset = pos 3

abbrev pub opt_ping : ℤ
opt_ping = pos 9

pub record MuRes : Type 0 where
  pub res : ℤ
  pub err_string : Bytes
  pub current_users : ℕ

abbrev pub res_ok : ℤ
res_ok = pos 1

abbrev pub res_err : ℤ
res_err = pos 2

pub record Json : Type 0 where
  pub unmarshal : Bytes → Option MuCmd
  pub marshal : MuRes → Option Bytes

-- What the client of a request sends: the bytes of its body, and whether the connection fails
-- behind them.
pub record Request : Type 0 where
  pub method : Bytes
  pub body : Bytes
  pub broken : Bool

pub data Warning : Type 0 where
  bad_method too_large read_failed bad_json bad_opt : Warning

pub record Outcome : Type 0 where
  pub mux : Mux
  pub written : List Bytes
  pub warnings : List Warning

-- `buf.ReadFrom(io.LimitReader(r.Body, max))`: the bytes, and whether it fails. A limit that is
-- reached ends the read before the connection can fail.
unfoldable pub read_limited : ℕ → Request → Bytes × Bool
read_limited limit r = (take limit r.body, if ltb (length r.body) limit then r.broken else false)

pub read_limited_small :
    (limit : ℕ) (r : Request) → length r.body < limit → read_limited limit r ≡ (r.body, r.broken)
unfolding read_limited
read_limited_small limit r h = rw (take-length_le limit r.body (omega arith), lt→ltb _ _ h)

pub read_limited_large :
    (limit : ℕ) (r : Request) → limit ≤ length r.body → length (read_limited limit r).0 ≡ limit
unfolding read_limited
read_limited_large limit r h = length-take_le limit r.body h

unfoldable pub send_mu_res : Json → ℤ → ℕ → Bytes → List Bytes
send_mu_res json res current_users err_str =
    elim (json.marshal
      (record { res = res; err_string = err_str; current_users = current_users })) [
        | none ↦ []
        | some b ↦ b ∷ []
      ]

abbrev pub reject : Mux → Warning → Outcome
reject m w = record { mux = m; written = []; warnings = w ∷ [] }

abbrev pub reply : Mux → List Bytes → Outcome
reply m written = record { mux = m; written = written; warnings = [] }

abbrev pub is_empty : List Args → Bool
is_empty [] = true
is_empty (_ ∷ _) = false

-- The switch on `muCmd.Opt`.
unfoldable pub execute : Json → MuCmd → Mux → Outcome
execute json c m =
    if int_eq c.opt opt_add
    then (if is_empty c.args_bunch
        then reply m (send_mu_res json res_err 0 (codes "empty args"))
        else reply (add c.args_bunch m) (send_mu_res json res_ok 0 []))
    else if int_eq c.opt opt_del
    then (if is_empty c.args_bunch
        then reply m (send_mu_res json res_err 0 (codes "empty args"))
        else reply (del c.args_bunch m) (send_mu_res json res_ok 0 []))
    else if int_eq c.opt opt_reset
    then reply (reset m) (send_mu_res json res_ok 0 [])
    else if int_eq c.opt opt_ping
    then reply m (send_mu_res json res_ok (len m) [])
    else (record {
      mux = m;
      written = send_mu_res json res_err 0 (codes "invalid opt");
      warnings = bad_opt ∷ [];
    })

abbrev pub parsed : Json → Option MuCmd → Mux → Outcome
parsed json none m = reject m bad_json
parsed json (some c) m = execute json c m

unfoldable pub serve_http : Json → Request → Mux → Outcome
serve_http json r m =
    if not (same r.method (codes "POST"))
    then reject m bad_method
    else (let (buf, failed) = read_limited max_control_body_size r in
        if length buf == max_control_body_size
        then reject m too_large
        else if failed
        then reject m read_failed
        else parsed json (json.unmarshal buf) m)

-- A controller serves its requests, in the order in which they take the lock.
unfoldable pub serve_all : Json → List Request → Mux → Mux
serve_all json [] m = m
serve_all json (r ∷ rest) m = serve_all json rest (serve_http json r m).mux
