-- ===== src/MultiUser/Table.antt =====
-- `mux` of internal/core/multi_user_http_mux.go: the table from path to destination.
use mos_tls_tunnel.Prelude.{
  ℕ, ◌≡◌, refl, Bool, Option, none, some, List, [], ◌∷◌, arith, Bytes, bytes_dec, length, ℤ, ite,
}
use mos_tls_tunnel.GoMap.{StringMap, lookup, assign, delete, IsMap, assign-IsMap, delete-IsMap}
use mos_tls_tunnel.GoMap.{lookup-assign, lookup-delete}
use mos_tls_tunnel.Config.{SmuxConfig, default_smux_config}
use mos_tls_tunnel.Upgrader.{Upgrader, upgrader_of_servers}

pub record Args : Type 0 where
  pub path : Bytes
  pub dst : Bytes

-- The lock and the logger carry no state of the program.
pub record Mux : Type 0 where
  pub path_map : StringMap Bytes
  pub enable_mux : Bool
  pub timeout : ℤ
  pub upgrader : Upgrader
  pub smux_config : SmuxConfig

unfoldable pub new_mux : Bool → ℤ → Mux
new_mux enable timeout = record {
  path_map = [];
  enable_mux = enable;
  timeout = timeout;
  upgrader = upgrader_of_servers;
  smux_config = default_smux_config;
}

-- The loop of `add`.
add_all : List Args → StringMap Bytes → StringMap Bytes
add_all [] m = m
add_all (a ∷ rest) m = add_all rest (assign a.path a.dst m)

-- The loop of `del`.
del_all : List Args → StringMap Bytes → StringMap Bytes
del_all [] m = m
del_all (a ∷ rest) m = del_all rest (delete a.path m)

unfoldable pub add : List Args → Mux → Mux
unfolding add_all assign
add a m = record m { path_map = add_all a m.path_map }

unfoldable pub del : List Args → Mux → Mux
unfolding del_all delete
del a m = record m { path_map = del_all a m.path_map }

unfoldable pub reset : Mux → Mux
reset m = record m { path_map = [] }

unfoldable pub get : Bytes → Mux → Option Bytes
unfolding lookup
get path m = lookup path m.path_map

unfoldable pub len : Mux → ℕ
len m = length m.path_map

-- The destination that a bunch gives a path: that of its last entry for the path.
unfoldable pub last_dst : Bytes → List Args → Option Bytes
last_dst p [] = none
last_dst p (a ∷ rest) = elim (last_dst p rest) [
  | some d ↦ some d
  | none ↦ ite (bytes_dec a.path p) (some a.dst) none
]

abbrev pub or_else : Option Bytes → Option Bytes → Option Bytes
or_else (some d) o = some d
or_else none o = o

lookup-add_all :
    (p : Bytes) (a : List Args) (m : StringMap Bytes)
    → lookup p (add_all a m) ≡ or_else (last_dst p a) (lookup p m)
unfolding add_all last_dst
lookup-add_all p [] m = refl
lookup-add_all p (a ∷ rest) m =
    ground (arith, lookup-add_all p rest (assign a.path a.dst m), lookup-assign p a.path a.dst m)

lookup-del_all :
    (p : Bytes) (a : List Args) (m : StringMap Bytes)
    → lookup p (del_all a m) ≡ elim (last_dst p a) [ some _ ↦ none | none ↦ lookup p m ]
unfolding del_all last_dst
lookup-del_all p [] m = refl
lookup-del_all p (a ∷ rest) m =
    ground (arith, lookup-del_all p rest (delete a.path m), lookup-delete p a.path m)

pub get-add :
    (p : Bytes) (a : List Args) (m : Mux) → get p (add a m) ≡ or_else (last_dst p a) (get p m)
unfolding get add
get-add p a m = lookup-add_all p a m.path_map

pub get-reset : (p : Bytes) (m : Mux) → get p (reset m) ≡ none
unfolding get reset
get-reset p m = refl

pub get-new_mux : (p : Bytes) (enable : Bool) (timeout : ℤ) → get p (new_mux enable timeout) ≡ none
unfolding get new_mux
get-new_mux p enable timeout = refl

pub get-del :
    (p : Bytes) (a : List Args) (m : Mux)
    → get p (del a m) ≡ elim (last_dst p a) [ some _ ↦ none | none ↦ get p m ]
unfolding get del
get-del p a m = lookup-del_all p a m.path_map

add_all-IsMap : (a : List Args) (m : StringMap Bytes) → IsMap m → IsMap (add_all a m)
unfolding add_all
add_all-IsMap [] m h = h
add_all-IsMap (a ∷ rest) m h = add_all-IsMap rest _ (assign-IsMap a.path a.dst m h)

del_all-IsMap : (a : List Args) (m : StringMap Bytes) → IsMap m → IsMap (del_all a m)
unfolding del_all
del_all-IsMap [] m h = h
del_all-IsMap (a ∷ rest) m h = del_all-IsMap rest _ (delete-IsMap a.path m h)

abbrev pub IsTable : Mux → Type 0
IsTable m = IsMap m.path_map

pub add-IsTable : (a : List Args) (m : Mux) → IsTable m → IsTable (add a m)
unfolding add
add-IsTable a m h = add_all-IsMap a m.path_map h

pub del-IsTable : (a : List Args) (m : Mux) → IsTable m → IsTable (del a m)
unfolding del
del-IsTable a m h = del_all-IsMap a m.path_map h
