-- ===== src/MultiUser/Spec.antt =====
-- What the controller promises, with no table in it: a set of users is a function from a path to
-- its destination, and a command acts on that function.
use mos_tls_tunnel.Prelude.{
  Bool, true, false, ◌&&◌, Option, none, some, List, [], ◌∷◌, Bytes, codes, bytes_dec, length,
  int_eq, if◌then◌else◌, ite, dec_lt, ◌||◌,
}
use mos_tls_tunnel.MultiUser.Table.{Mux, get, last_dst, or_else}
use mos_tls_tunnel.MultiUser.Controller.{
  MuCmd, Json, Request, max_control_body_size, opt_add, opt_del, opt_reset, opt_ping, is_empty,
}

abbrev pub Users : Type 0
Users = Bytes → Option Bytes

abbrev pub view : Mux → Users
view m p = get p m

-- The command that a request carries: it is a POST whose whole body has arrived, is shorter than
-- the limit, and is the JSON of a command.
unfoldable pub command : Json → Request → Option MuCmd
command json r =
    ite (bytes_dec r.method (codes "POST"))
      (ite (dec_lt (length r.body) max_control_body_size)
        (if r.broken then none else json.unmarshal r.body) none)
      none

-- What a command does to the users. A later entry of a bunch wins over an earlier one.
unfoldable pub perform : MuCmd → Users → Users
perform c u p =
    if int_eq c.opt opt_add
    then or_else (last_dst p c.args_bunch) (u p)
    else if int_eq c.opt opt_del
    then elim (last_dst p c.args_bunch) [ some _ ↦ none | none ↦ u p ]
    else if int_eq c.opt opt_reset
    then none
    else u p

abbrev pub perform_if : Option MuCmd → Users → Users
perform_if none u = u
perform_if (some c) u = perform c u

unfoldable pub users_after : Json → List Request → Users → Users
users_after json [] u = u
users_after json (r ∷ rest) u = users_after json rest (perform_if (command json r) u)

-- The commands that are answered by OK.
unfoldable pub is_valid : MuCmd → Bool
is_valid c =
    ((int_eq c.opt opt_add || int_eq c.opt opt_del)
      && (if is_empty c.args_bunch then false else true))
    || (int_eq c.opt opt_reset || int_eq c.opt opt_ping)
