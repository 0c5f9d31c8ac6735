-- ===== src/MultiUser/History.antt =====
-- The table after any history of requests.
use mathlib.Core.Path.{fun_ext}
use mos_tls_tunnel.Prelude.{
  ◌≡◌, refl, ◌∙◌, ap, Bool, Option, none, some, List, [], ◌∷◌, arith, Bytes, length, ℤ, dec_lt,
}
use mos_tls_tunnel.MultiUser.Table.{
  Mux, new_mux, get, get-add, get-del, get-reset, get-new_mux, reset, IsTable, add-IsTable,
  del-IsTable, last_dst,
}
use mos_tls_tunnel.MultiUser.Controller.{
  MuCmd, Json, Request, max_control_body_size, execute, serve_http, serve_all, parsed, read_limited,
  read_limited_small, read_limited_large,
}
use mos_tls_tunnel.MultiUser.Spec.{Users, view, command, perform, perform_if, users_after}

get-execute :
    (json : Json) (c : MuCmd) (m : Mux) (p : Bytes)
    → get p (execute json c m).mux ≡ perform c (view m) p
unfolding execute perform last_dst
get-execute json c m p =
    ground (arith, get-add p c.args_bunch m, get-del p c.args_bunch m, get-reset p m)

get-parsed :
    (json : Json) (c : Option MuCmd) (m : Mux) (p : Bytes)
    → get p (parsed json c m).mux ≡ perform_if c (view m) p
get-parsed json none m p = refl
get-parsed json (some c) m p = get-execute json c m p

get-serve_http :
    (json : Json) (r : Request) (m : Mux) (p : Bytes)
    → get p (serve_http json r m).mux ≡ perform_if (command json r) (view m) p
unfolding serve_http command
get-serve_http json r m p = elim (dec_lt (length r.body) max_control_body_size) [
  | yes small ↦
      rw (read_limited_small max_control_body_size r small)
        (ground (arith, get-parsed json (json.unmarshal r.body) m p))
  | no large ↦ ground (arith, read_limited_large max_control_body_size r)
]

view-serve_http :
    (json : Json) (r : Request) (m : Mux)
    → view (serve_http json r m).mux ≡ perform_if (command json r) (view m)
view-serve_http json r m = fun_ext (get-serve_http json r m)

view-serve_all :
    (json : Json) (rs : List Request) (m : Mux)
    → view (serve_all json rs m) ≡ users_after json rs (view m)
unfolding serve_all users_after
view-serve_all json [] m = refl
view-serve_all json (r ∷ rest) m =
    view-serve_all json rest _ ∙ ap (users_after json rest) (view-serve_http json r m)

-- Whatever requests the controller of a new server has handled, a path is routed to the
-- destination that the commands among them, performed in order, give it.
pub get-serve_all :
    (json : Json) (rs : List Request) (enable : Bool) (timeout : ℤ) (p : Bytes)
    → get p (serve_all json rs (new_mux enable timeout)) ≡ users_after json rs (λ _. none) p
get-serve_all json rs enable timeout p =
    ap (λ (u : Users). u p) (view-serve_all json rs (new_mux enable timeout))
    ∙ ap (λ (u : Users). users_after json rs u p) (fun_ext (λ q. get-new_mux q enable timeout))

execute-IsTable : (json : Json) (c : MuCmd) (m : Mux) → IsTable m → IsTable (execute json c m).mux
unfolding execute reset
execute-IsTable json c m h =
    ground (arith, add-IsTable c.args_bunch m h, del-IsTable c.args_bunch m h)

parsed-IsTable :
    (json : Json) (c : Option MuCmd) (m : Mux) → IsTable m → IsTable (parsed json c m).mux
parsed-IsTable json none m h = h
parsed-IsTable json (some c) m h = execute-IsTable json c m h

pub serve_http-IsTable :
    (json : Json) (r : Request) (m : Mux) → IsTable m → IsTable (serve_http json r m).mux
unfolding serve_http
serve_http-IsTable json r m h =
    ground
      (arith, h, parsed-IsTable json (json.unmarshal (read_limited max_control_body_size r).0) m h)

pub new_mux-IsTable : (enable : Bool) (timeout : ℤ) → IsTable (new_mux enable timeout)
unfolding new_mux
new_mux-IsTable enable timeout = tt

pub serve_all-IsTable :
    (json : Json) (rs : List Request) (m : Mux) → IsTable m → IsTable (serve_all json rs m)
unfolding serve_all
serve_all-IsTable json [] m h = h
serve_all-IsTable json (r ∷ rest) m h =
    serve_all-IsTable json rest _ (serve_http-IsTable json r m h)
