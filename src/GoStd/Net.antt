-- ===== src/GoStd/Net.antt =====
-- `net.JoinHostPort` and `net.SplitHostPort`.
use mos_tls_tunnel.Prelude.{
  ◌≡◌, false, Option, none, some, [], ◌∷◌, ◌++◌, arith, Bytes, ◌==◌, if◌then◌else◌, Result, ok, err,
}
use mos_tls_tunnel.GoStd.Strings.{
  contains_byte, cut, cut_last, contains_byte-append, cut_append, cut_last_append,
}

unfoldable pub join_host_port : Bytes → Bytes → Bytes
join_host_port host port =
    if contains_byte b':' host then b'[' ∷ (host ++ (b']' ∷ b':' ∷ port)) else host ++ (b':' ∷ port)

pub data AddrError : Type 0 where
  missing_port too_many_colons missing_bracket unexpected_open unexpected_close : AddrError

-- The checks at the end: no `[` where the first may not stand, and no `]`.
abbrev checked : Bytes → Bytes → Bytes → Bytes → Result AddrError (Bytes × Bytes)
checked host port no_open no_close =
    if contains_byte b'[' no_open
    then err unexpected_open
    else if contains_byte b']' no_close
    then err unexpected_close
    else ok (host, port)

-- What stands behind the first `]` of an address that begins with `[`.
abbrev bracketed : Bytes → Bytes → Result AddrError (Bytes × Bytes)
bracketed host [] = err missing_port
bracketed host (c ∷ port) =
    if c == b':'
    then (if contains_byte b':' port
        then err too_many_colons
        else checked host port (host ++ (b']' ∷ b':' ∷ port)) (b':' ∷ port))
    else err missing_port

abbrev from_bracket : Option (Bytes × Bytes) → Result AddrError (Bytes × Bytes)
from_bracket none = err missing_bracket
from_bracket (some (host, rest)) = bracketed host rest

abbrev split_plain : Bytes → Option (Bytes × Bytes) → Result AddrError (Bytes × Bytes)
split_plain s none = err missing_port
split_plain s (some (host, port)) =
    if contains_byte b':' host then err too_many_colons else checked host port s s

unfoldable pub split_host_port : Bytes → Result AddrError (Bytes × Bytes)
split_host_port [] = err missing_port
split_host_port (c ∷ s) =
    if c == b'['
    then (if contains_byte b':' s then from_bracket (cut b']' s) else err missing_port)
    else split_plain (c ∷ s) (cut_last b':' (c ∷ s))

plain-join :
    (host port : Bytes)
    → contains_byte b':' host ≡ false
    → contains_byte b':' port ≡ false
    → contains_byte b'[' host ≡ false
    → contains_byte b']' host ≡ false
    → contains_byte b'[' port ≡ false
    → contains_byte b']' port ≡ false
    → split_host_port (host ++ (b':' ∷ port)) ≡ ok (host, port)
unfolding split_host_port contains_byte
plain-join [] port c d e f g h = ground (arith, cut_last_append b':' [] port d)
plain-join (x ∷ host) port c d e f g h = ground (
  arith,
  cut_last_append b':' (x ∷ host) port d,
  contains_byte-append b'[' host (b':' ∷ port),
  contains_byte-append b']' host (b':' ∷ port),
)

bracketed-join :
    (host port : Bytes)
    → contains_byte b':' port ≡ false
    → contains_byte b'[' host ≡ false
    → contains_byte b']' host ≡ false
    → contains_byte b'[' port ≡ false
    → contains_byte b']' port ≡ false
    → split_host_port (b'[' ∷ (host ++ (b']' ∷ b':' ∷ port))) ≡ ok (host, port)
unfolding split_host_port contains_byte
bracketed-join host port d e f g h = ground (
  arith,
  cut_append b']' host (b':' ∷ port) f,
  contains_byte-append b':' host (b']' ∷ b':' ∷ port),
  contains_byte-append b'[' host (b']' ∷ b':' ∷ port),
)

-- The parts of an address without brackets.
pub record IsPlain (host port : Bytes) : Type 0 where
  pub port_colon : contains_byte b':' port ≡ false
  pub host_open : contains_byte b'[' host ≡ false
  pub host_close : contains_byte b']' host ≡ false
  pub port_open : contains_byte b'[' port ≡ false
  pub port_close : contains_byte b']' port ≡ false

pub split_host_port-join_host_port :
    (host port : Bytes)
    → IsPlain host port
    → split_host_port (join_host_port host port) ≡ ok (host, port)
unfolding join_host_port
split_host_port-join_host_port host port p = ground (
  arith,
  plain-join host port,
  bracketed-join host port p.port_colon p.host_open p.host_close p.port_open p.port_close,
)
