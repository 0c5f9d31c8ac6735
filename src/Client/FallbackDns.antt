-- ===== src/Client/FallbackDns.antt =====
-- The server that the overwritten resolver dials, in `NewClient` of internal/core/client.go.
use mos_tls_tunnel.Prelude.{
  ◌≡◌, ◌⊎◌, inl, inr, refl, sym, ap, subst, ◌∙◌, Bool, ℕ, true, false, none, some, [], ◌∷◌, arith,
  Bytes, codes, if◌then◌else◌, ok, err, ◌++◌,
}
use mos_tls_tunnel.Config.{ClientConfig}
use mos_tls_tunnel.GoStd.Strings.{contains_byte, cut_last, has_prefix}
use mos_tls_tunnel.GoStd.Net.{AddrError, split_host_port}
use mos_tls_tunnel.Client.New.{Client, new_client, build_client, is_nil}
use mos_tls_tunnel.Client.Checks.{absolute-has_prefix}
use mos_tls_tunnel.Client.NewLaws.{new_client_only_accepts}
use mathlib.Core.Option.{some-injective}

-- What `net.ParseIP` documents of a text that it reads: it does not begin with a bracket, and it
-- has no colon (IPv4), or at least two (IPv6).
pub data IsIpText (s : Bytes) : Type 0 where
  v4 : contains_byte b'[' s ≡ false → contains_byte b':' s ≡ false → IsIpText s
  v6 :
      (host port : Bytes)
      → contains_byte b'[' s ≡ false
      → cut_last b':' s ≡ some (host, port)
      → contains_byte b':' host ≡ true
      → IsIpText s

cut_last_lacks : (b : ℕ) (s : Bytes) → contains_byte b s ≡ false → cut_last b s ≡ none
unfolding contains_byte cut_last
cut_last_lacks b [] h = refl
cut_last_lacks b (c ∷ s) h = ground (arith, cut_last_lacks b s)

split_host_port_ip : (s : Bytes) → IsIpText s → (e : AddrError) × (split_host_port s ≡ err e)
unfolding split_host_port contains_byte
split_host_port_ip [] h = (_, refl)
split_host_port_ip (c ∷ s) (v4 o h) =
    (AddrError.missing_port, ground (arith, cut_last_lacks b':' (c ∷ s) h))
split_host_port_ip (c ∷ s) (v6 host port o h k) = (AddrError.too_many_colons, ground arith)

-- Whatever fallback DNS server `NewClient` accepts, the address that the resolver then dials has
-- no port that `net.SplitHostPort` would find in it, if `net.ParseIP` reads texts of the documented
-- forms only.
pub resolver_dns_has_no_port :
    (is_ip : Bytes → Bool) (c : ClientConfig) (cl : Client) (dns : Bytes)
    → ((s : Bytes) → is_ip s ≡ true → IsIpText s)
    → (new_client is_ip c).1 ≡ ok cl
    → cl.resolver_dns ≡ some dns
    → (e : AddrError) × (split_host_port dns ≡ err e)
unfolding build_client
resolver_dns_has_no_port is_ip c cl dns reads h r =
    let (name, v, eq) = new_client_only_accepts is_ip c cl h in
    split_host_port_ip dns
      (read c.fallback_dns v.dns (sym (ap (λ (k : Client). k.resolver_dns) eq) ∙ r))
  where
    read :
        (s : Bytes)
        → (s ≡ []) ⊎ (is_ip s ≡ true)
        → (if is_nil s then none else some s) ≡ some dns
        → IsIpText dns
    read [] v e = cc
    read (x ∷ s) (inl e) f = cc
    read (x ∷ s) (inr e) f = subst IsIpText (some-injective _ _ f) (reads (x ∷ s) e)

-- The URL of a client: its scheme, the name that TLS verifies, and a path that begins with a slash.
pub client_url :
    (is_ip : Bytes → Bool) (c : ClientConfig) (cl : Client)
    → (new_client is_ip c).1 ≡ ok cl
    → (cl.wss_url ≡ codes "wss://" ++ (cl.tls_conf.server_name ++ cl.conf.wss_path))
      × (has_prefix cl.conf.wss_path (codes "/") ≡ true)
      × (cl.tls_conf.server_name ≡ cl.conf.server_name)
unfolding build_client
client_url is_ip c cl h =
    let (name, v, eq) = new_client_only_accepts is_ip c cl h in
    rw eq (refl, absolute-has_prefix c.wss_path, refl)
