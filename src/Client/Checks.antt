-- ===== src/Client/Checks.antt =====
-- What `NewClient` of internal/core/client.go checks, one condition after the other.
use mos_tls_tunnel.Prelude.{
  ℕ, ◌≤◌, ◌≡◌, ◌≢◌, ◌⊎◌, inl, inr, refl, Bool, true, false, [], ◌∷◌, arith, Bytes, codes, ℤ, pos,
  negsuc, int_ltb, if◌then◌else◌, Result, ok, err, ◌||◌, ◌&&◌, not, Bool-cases,
}
use mos_tls_tunnel.Config.{ClientConfig, default_smux_max_stream}
use mos_tls_tunnel.GoStd.Strings.{has_prefix}
use mos_tls_tunnel.GoStd.Net.{AddrError, split_host_port}
use mos_tls_tunnel.Client.New.{
  Client, is_nil, set_server_name, set_wss_path, build_client, finish, check_streams, with_host,
}

-- The number of streams is from 1 to 16.
abbrev pub IsStreamLimit : ℤ → Type 0
IsStreamLimit n = (k : ℕ) × (n ≡ pos k) × (1 ≤ k) × (k ≤ default_smux_max_stream)

abbrev pub IsPositive : ℤ → Type 0
IsPositive n = (k : ℕ) × (n ≡ pos k) × (1 ≤ k)

-- The name of the server: the one that is given, or the host of the remote address.
pub data IsNamed (c : ClientConfig) (name : Bytes) : Type 0 where
  given : c.server_name ≢ [] → name ≡ c.server_name → IsNamed c name
  from_remote :
      (port : Bytes)
      → c.server_name ≡ []
      → split_host_port c.remote_addr ≡ ok (name, port)
      → IsNamed c name

pub record IsAccepted (is_ip : Bytes → Bool) (c : ClientConfig) (name : Bytes) : Type 0 where
  pub bound : c.bind_addr ≢ []
  pub remote : c.remote_addr ≢ []
  pub timed : IsPositive c.timeout
  pub named_as : IsNamed c name
  pub streams : IsStreamLimit c.mux_max_stream
  pub dns : (c.fallback_dns ≡ []) ⊎ (is_ip c.fallback_dns ≡ true)

-- The path with its slash.
unfoldable pub absolute : Bytes → Bytes
absolute p = if has_prefix p (codes "/") then p else b'/' ∷ p

-- The configuration of the client: the given one with its name and its path completed.
abbrev pub completed : ClientConfig → Bytes → ClientConfig
completed c name = record c { server_name = name; wss_path = absolute c.wss_path }

pub int-IsPositive : (n : ℤ) → int_ltb (pos 0) n ≡ true → IsPositive n
int-IsPositive (pos k) h = (k, refl, ground arith)
int-IsPositive (negsuc k) h = cc

pub is_nil-ne : (s : Bytes) → s ≢ [] → is_nil s ≡ false
is_nil-ne [] h = absurd (h refl)
is_nil-ne (x ∷ s) h = refl

pub nil_of_is_nil : (s : Bytes) → is_nil s ≡ true → s ≡ []
nil_of_is_nil [] h = refl
nil_of_is_nil (x ∷ s) h = cc

pub ne_of_is_nil : (s : Bytes) → is_nil s ≡ false → s ≢ []
ne_of_is_nil [] h = cc
ne_of_is_nil (x ∷ s) h = λ e. cc

pub set_server_name-IsNamed :
    (c : ClientConfig) (name : Bytes)
    → IsNamed c name
    → set_server_name c ≡ ok (record c { server_name = name })
unfolding set_server_name
set_server_name-IsNamed c name (given h e) = rw (e, is_nil-ne c.server_name h)
set_server_name-IsNamed c name (from_remote port h e) = rw (h, e) refl

host_of :
    (c d : ClientConfig) (r : Result AddrError (Bytes × Bytes))
    → with_host c r ≡ ok d
    → (name port : Bytes) × (r ≡ ok (name, port)) × (d ≡ record c { server_name = name })
host_of c d (ok (name, port)) h = (name, port, refl, ground arith)
host_of c d (err e) h = cc

pub IsNamed-set_server_name :
    (c d : ClientConfig)
    → set_server_name c ≡ ok d
    → (name : Bytes) × IsNamed c name × (d ≡ record c { server_name = name })
unfolding set_server_name
IsNamed-set_server_name c d h = elim (Bool-cases (is_nil c.server_name)) [
  | inl e ↦
      let (name, port, s, r) = host_of c d (split_host_port c.remote_addr) (rw e at h) in
      (name, from_remote port (nil_of_is_nil _ e) s, r)
  | inr e ↦ (c.server_name, given (ne_of_is_nil _ e) refl, ground arith)
]

set_wss_path_lem : (c : ClientConfig) → set_wss_path c ≡ record c { wss_path = absolute c.wss_path }
unfolding set_wss_path absolute
set_wss_path_lem c = elim (Bool-cases (has_prefix c.wss_path (codes "/"))) [
  | inl e ↦ rw e refl
  | inr e ↦ rw e refl
]

dns_of :
    (is_ip : Bytes → Bool) (s : Bytes)
    → (not (is_nil s) && not (is_ip s)) ≡ false
    → (s ≡ []) ⊎ (is_ip s ≡ true)
dns_of is_ip s h = elim (Bool-cases (is_nil s)) [
  | inl e ↦ inl (nil_of_is_nil s e)
  | inr e ↦ inr (ground arith)
]

dns_passes :
    (is_ip : Bytes → Bool) (s : Bytes)
    → (s ≡ []) ⊎ (is_ip s ≡ true)
    → (not (is_nil s) && not (is_ip s)) ≡ false
dns_passes is_ip [] h = refl
dns_passes is_ip (x ∷ s) (inl e) = cc
dns_passes is_ip (x ∷ s) (inr e) = rw e refl

limit_of :
    (n : ℤ)
    → (int_ltb n (pos 1) || int_ltb (pos default_smux_max_stream) n) ≡ false
    → IsStreamLimit n
limit_of (pos k) h = (k, refl, ground arith, ground arith)
limit_of (negsuc k) h = cc

limit_passes :
    (n : ℤ)
    → IsStreamLimit n
    → (int_ltb n (pos 1) || int_ltb (pos default_smux_max_stream) n) ≡ false
limit_passes n (k, e, l, u) = rw e (ground arith)

pub check_streams_ok :
    (is_ip : Bytes → Bool) (c : ClientConfig)
    → IsStreamLimit c.mux_max_stream
    → (c.fallback_dns ≡ []) ⊎ (is_ip c.fallback_dns ≡ true)
    → (check_streams is_ip c).1 ≡ ok (build_client (record c { wss_path = absolute c.wss_path }))
unfolding check_streams finish
check_streams_ok is_ip c n d =
    rw (limit_passes c.mux_max_stream n, set_wss_path_lem c, dns_passes is_ip c.fallback_dns d) refl

pub of_check_streams :
    (is_ip : Bytes → Bool) (c : ClientConfig) (cl : Client)
    → (check_streams is_ip c).1 ≡ ok cl
    → IsStreamLimit c.mux_max_stream
      × ((c.fallback_dns ≡ []) ⊎ (is_ip c.fallback_dns ≡ true))
      × (cl ≡ build_client (record c { wss_path = absolute c.wss_path }))
unfolding check_streams finish
of_check_streams is_ip c cl h =
    elim (Bool-cases (int_ltb n (pos 1) || int_ltb (pos default_smux_max_stream) n)) [
      | inl bad ↦ let g = rw bad at h in cc
      | inr good ↦
          let g = rw (good, set_wss_path_lem c) at h in
          elim (Bool-cases (not (is_nil c.fallback_dns) && not (is_ip c.fallback_dns))) [
            | inl bad ↦ let k = rw bad at g in cc
            | inr fine ↦
                let k = rw fine at g in (limit_of n good, dns_of is_ip c.fallback_dns fine, cc)
          ]
    ]
  where
    n : ℤ
    n = c.mux_max_stream

pub int_positive_passes : (n : ℤ) → IsPositive n → int_ltb (pos 0) n ≡ true
int_positive_passes n (k, e, h) = rw e (ground arith)

pub absolute-has_prefix : (p : Bytes) → has_prefix (absolute p) (codes "/") ≡ true
unfolding absolute
absolute-has_prefix p = elim (Bool-cases (has_prefix p (codes "/"))) [
  | inl e ↦ rw e e
  | inr e ↦ rw e (unfold has_prefix in refl)
]
