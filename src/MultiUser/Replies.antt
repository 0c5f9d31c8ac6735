-- ===== src/MultiUser/Replies.antt =====
-- What the controller writes back.
use mathlib.Core.List.{Mem, Nodup}
use mos_tls_tunnel.Prelude.{
  ℕ, ◌≡◌, ◌≢◌, ◌↔◌, refl, ◌∙◌, sym, ap, Bool, false, Option, none, some, List, [], ◌∷◌, arith,
  Bytes, codes, length, ℤ, pos, dec_lt, if◌then◌else◌, int_eq, int_eq_iff,
}
use mos_tls_tunnel.GoMap.{keys, mem-keys, keys-Nodup, length-keys}
use mos_tls_tunnel.MultiUser.Table.{Mux, new_mux, get, len}
use mos_tls_tunnel.MultiUser.Controller.{
  MuCmd, Json, Request, max_control_body_size, opt_add, opt_del, opt_reset, opt_ping, res_ok,
  send_mu_res, execute, serve_http, serve_all, parsed, read_limited_small, read_limited_large,
}
use mos_tls_tunnel.MultiUser.Spec.{command, is_valid, users_after}
use mos_tls_tunnel.MultiUser.History.{serve_all-IsTable, get-serve_all, new_mux-IsTable}

-- The text of the error in a reply.
pub complaint : MuCmd → Bytes
unfolding is_valid
complaint c =
    if is_valid c
    then []
    else if int_eq c.opt opt_add
    then codes "empty args"
    else if int_eq c.opt opt_del
    then codes "empty args"
    else codes "invalid opt"

-- The result in a reply: 1 for OK, 2 for an error.
pub verdict : MuCmd → ℤ
verdict c = if is_valid c then pos 1 else pos 2

-- The bytes of a reply, where encoding/json makes any.
abbrev pub to_list : Option Bytes → List Bytes
to_list none = []
to_list (some b) = b ∷ []

-- The number of users in a reply: that of the paths for a ping.
abbrev pub population : MuCmd → Mux → ℕ
population c m = if int_eq c.opt opt_ping then length (keys m.path_map) else 0

pub answer : Json → Option MuCmd → Mux → List Bytes
unfolding complaint verdict
answer json none m = []
answer json (some c) m = to_list (
    json.marshal
      (record { res = verdict c; err_string = complaint c; current_users = population c m }))

written-execute :
    (json : Json) (c : MuCmd) (m : Mux) → (execute json c m).written ≡ answer json (some c) m
unfolding execute answer verdict complaint send_mu_res len is_valid
written-execute json c m = ground (
  arith,
  length-keys m.path_map,
  int_eq_iff c.opt opt_add,
  int_eq_iff c.opt opt_del,
  int_eq_iff c.opt opt_ping,
  int_eq_iff c.opt opt_reset,
)

written-parsed :
    (json : Json) (c : Option MuCmd) (m : Mux) → (parsed json c m).written ≡ answer json c m
unfolding answer
written-parsed json none m = refl
written-parsed json (some c) m = written-execute json c m

-- Every request gets the reply that its command calls for, on all branches: nothing where it
-- carries no command, 2 with the text of the error where the command lacks arguments or is unknown,
-- and otherwise 1 with no text, and with the number of the paths if it is a ping.
pub written-serve_http :
    (json : Json) (r : Request) (m : Mux)
    → (serve_http json r m).written ≡ answer json (command json r) m
unfolding serve_http command answer
written-serve_http json r m = elim (dec_lt (length r.body) max_control_body_size) [
  | yes small ↦
      rw (read_limited_small max_control_body_size r small)
        (ground (arith, written-parsed json (json.unmarshal r.body) m))
  | no large ↦ ground (arith, read_limited_large max_control_body_size r)
]

mux-execute_invalid :
    (json : Json) (c : MuCmd) (m : Mux) → is_valid c ≡ false → (execute json c m).mux ≡ m
unfolding execute is_valid
mux-execute_invalid json c m h = ground arith

mux-parsed_invalid :
    (json : Json) (c : Option MuCmd) (m : Mux)
    → ((d : MuCmd) → c ≡ some d → is_valid d ≡ false)
    → (parsed json c m).mux ≡ m
mux-parsed_invalid json none m h = refl
mux-parsed_invalid json (some c) m h = mux-execute_invalid json c m (h c refl)

mux-serve_http :
    (json : Json) (r : Request) (m : Mux)
    → (serve_http json r m).mux ≡ (parsed json (command json r) m).mux
unfolding serve_http command
mux-serve_http json r m = elim (dec_lt (length r.body) max_control_body_size) [
  | yes small ↦ rw (read_limited_small max_control_body_size r small) (ground arith)
  | no large ↦ ground (arith, read_limited_large max_control_body_size r)
]

-- A request that carries no command, or one that is answered by an error, leaves the users alone.
pub mux-serve_http_invalid :
    (json : Json) (r : Request) (m : Mux)
    → ((c : MuCmd) → command json r ≡ some c → is_valid c ≡ false)
    → (serve_http json r m).mux ≡ m
mux-serve_http_invalid json r m h =
    mux-serve_http json r m ∙ mux-parsed_invalid json (command json r) m h

answer_ping :
    (json : Json) (c : MuCmd) (m : Mux)
    → c.opt ≡ opt_ping
    → answer json (some c) m ≡ send_mu_res json res_ok (len m) []
unfolding answer verdict complaint is_valid send_mu_res len
answer_ping json c m h = rw (h, length-keys m.path_map) refl

-- A ping is answered by the number of the paths that are routed: after any history of requests
-- there is a list of that many different paths, and they are those that the commands gave a
-- destination.
pub ping_counts_users :
    (json : Json) (rs : List Request) (enable : Bool) (timeout : ℤ) (r : Request) (c : MuCmd)
    → command json r ≡ some c
    → c.opt ≡ opt_ping
    → (paths : List Bytes) × Nodup paths
      × ((p : Bytes) → Mem p paths ↔ (users_after json rs (λ _. none) p ≢ none))
      × ((serve_http json r (serve_all json rs (new_mux enable timeout))).written
          ≡ send_mu_res json res_ok (length paths) [])
unfolding len get
ping_counts_users json rs enable timeout r c carried ping =
    let m = serve_all json rs (new_mux enable timeout) in
    (
      keys m.path_map,
      keys-Nodup m.path_map (serve_all-IsTable json rs _ (new_mux-IsTable enable timeout)),
      λ p. rw (← get-serve_all json rs enable timeout p) (mem-keys p m.path_map),
      written-serve_http json r m
          ∙ ap (λ o. answer json o m) carried
          ∙ answer_ping json c m ping
          ∙ ap (λ n. send_mu_res json res_ok n []) (sym (length-keys m.path_map)),
    )
