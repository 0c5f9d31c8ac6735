-- ===== src/Client/NewLaws.antt =====
-- Which configurations `NewClient` of internal/core/client.go accepts, and what it makes of them.
use mos_tls_tunnel.Prelude.{
  ◌≡◌, ◌≢◌, ◌↔◌, sym, inl, inr, refl, ap, ◌∙◌, Bool, [], Bytes, pos, int_ltb, Result, ok, err,
  Bool-cases,
}
use mos_tls_tunnel.Config.{ClientConfig}
use mos_tls_tunnel.GoStd.Net.{
  join_host_port, split_host_port, split_host_port-join_host_port, IsPlain,
}
use mos_tls_tunnel.Client.New.{
  Client, NewClientError, is_nil, set_server_name, build_client, check_streams, named, new_client,
}
use mos_tls_tunnel.Client.Checks.{
  IsPositive, from_remote, IsAccepted, completed, int-IsPositive, is_nil-ne, ne_of_is_nil,
  set_server_name-IsNamed, IsNamed-set_server_name, check_streams_ok, of_check_streams,
  int_positive_passes,
}

-- `NewClient` succeeds on every acceptable configuration, with the client of that configuration,
-- its server name found and its path made absolute.
pub new_client_accepts :
    (is_ip : Bytes → Bool) (c : ClientConfig) (name : Bytes)
    → IsAccepted is_ip c name
    → (new_client is_ip c).1 ≡ ok (build_client (completed c name))
unfolding new_client
new_client_accepts is_ip c name v =
    rw
      (
        is_nil-ne c.bind_addr v.bound,
        is_nil-ne c.remote_addr v.remote,
        int_positive_passes c.timeout v.timed,
        set_server_name-IsNamed c name v.named_as,
      )
      (check_streams_ok is_ip (record c { server_name = name }) v.streams v.dns)

of_named :
    (is_ip : Bytes → Bool) (c : ClientConfig) (r : Result NewClientError ClientConfig) (cl : Client)
    → (named is_ip c r).1 ≡ ok cl
    → (d : ClientConfig) × (r ≡ ok d) × ((check_streams is_ip d).1 ≡ ok cl)
of_named is_ip c (ok d) cl h = (d, refl, h)
of_named is_ip c (err e) cl h = cc

-- Where `NewClient` succeeds, the configuration is acceptable (`IsAccepted`), and the client is
-- that of the configuration with its server name found and its path made absolute.
pub new_client_only_accepts :
    (is_ip : Bytes → Bool) (c : ClientConfig) (cl : Client)
    → (new_client is_ip c).1 ≡ ok cl
    → (name : Bytes) × IsAccepted is_ip c name × (cl ≡ build_client (completed c name))
unfolding new_client
new_client_only_accepts is_ip c cl h = elim (Bool-cases (is_nil c.bind_addr)) [
  | inl bad ↦ let g = rw bad at h in cc
  | inr bound ↦
      let g = rw bound at h in
      elim (Bool-cases (is_nil c.remote_addr)) [
        | inl bad ↦ let k = rw bad at g in cc
        | inr remote ↦
            let k = rw remote at g in
            elim (Bool-cases (int_ltb (pos 0) c.timeout)) [
              | inr bad ↦ let l = rw bad at k in cc
              | inl timed ↦
                  accepted (ne_of_is_nil _ bound) (ne_of_is_nil _ remote) (int-IsPositive _ timed)
                    (of_named is_ip c _ cl (rw timed at k))
            ]
      ]
]
  where
    accepted :
        c.bind_addr ≢ []
        → c.remote_addr ≢ []
        → IsPositive c.timeout
        → ((d : ClientConfig) × (set_server_name c ≡ ok d) × ((check_streams is_ip d).1 ≡ ok cl))
        → (name : Bytes) × IsAccepted is_ip c name × (cl ≡ build_client (completed c name))
    accepted b r t (d, e, f) =
        let (name, n, same) = IsNamed-set_server_name c d e in
        let (streams, dns, eq) =
          of_check_streams is_ip (record c { server_name = name }) cl (rw same at f) in
        (
          name,
          record { bound = b; remote = r; timed = t; named_as = n; streams = streams; dns = dns },
          eq,
        )

-- `NewClient` succeeds exactly on the acceptable configurations (`IsAccepted`), and gives the client
-- of the configuration with its server name found and its path made absolute.
pub new_client-IsAccepted :
    (is_ip : Bytes → Bool) (c : ClientConfig) (cl : Client)
    → ((new_client is_ip c).1 ≡ ok cl)
      ↔ ((name : Bytes) × IsAccepted is_ip c name × (cl ≡ build_client (completed c name)))
new_client-IsAccepted is_ip c cl = (
  new_client_only_accepts is_ip c cl,
  λ h. new_client_accepts is_ip c (h.0) (h.1) ∙ ap ok (sym (h.2)),
)

-- A client with no server name of its own and the remote address of a host and a port without
-- brackets, the port without a colon, takes the host for its server name, be it a name, an IPv4
-- or an IPv6 address.
pub set_server_name-join_host_port :
    (c : ClientConfig) (host port : Bytes)
    → IsPlain host port
    → c.server_name ≡ []
    → c.remote_addr ≡ join_host_port host port
    → set_server_name c ≡ ok (record c { server_name = host })
set_server_name-join_host_port c host port p n r =
    set_server_name-IsNamed c host
      (from_remote port n (ap split_host_port r ∙ split_host_port-join_host_port host port p))
