-- ===== src/Tunnel/Delivery.antt =====
-- The bytes that `copyBuffer` of internal/core/common.go has read and written, in one step of its loop.
use mos_tls_tunnel.Prelude.{
  ℕ, ◌≡◌, inl, inr, sym, ap, ◌∙◌, Option, none, some, [], ◌∷◌, ◌++◌, arith, Bytes, length, take,
  take-length_le, append_assoc, append-nil, drop, take-append-drop, ◌==◌, Bool-cases,
}
use mos_tls_tunnel.Tunnel.FirstErr.{IoError, eof, short_write, other}
use mos_tls_tunnel.Tunnel.Worker.{after_read, after_write, after_nr}
use mos_tls_tunnel.Tunnel.Invariant.{Accounts}

-- The end of a loop round, after a write that took all.
pub after_read-Accounts :
    (er : Option IoError) (received sent : Bytes)
    → received ≡ sent
    → Accounts (after_read er) received sent
unfolding after_read
after_read-Accounts none received sent h = h
after_read-Accounts (some eof) received sent h = h
after_read-Accounts (some short_write) received sent h = ([], h ∙ sym (append-nil sent))
after_read-Accounts (some (other n)) received sent h = ([], h ∙ sym (append-nil sent))

split_buf :
    (nw : ℕ) (buf received sent : Bytes)
    → received ≡ sent ++ buf
    → received ≡ (sent ++ take nw buf) ++ drop nw buf
split_buf nw buf received sent h =
    h ∙ ap (◌++◌ sent) (sym (take-append-drop nw buf)) ∙ sym (append_assoc sent _ _)

pub after_write-Accounts :
    (buf : Bytes) (er : Option IoError) (nw : ℕ) (ew : Option IoError) (received sent : Bytes)
    → received ≡ sent ++ buf
    → Accounts (after_write buf er nw ew) received (sent ++ take nw buf)
unfolding after_write
after_write-Accounts buf er nw (some e) received sent h = (_, split_buf nw buf received sent h)
after_write-Accounts buf er nw none received sent h = elim (Bool-cases (length buf == nw)) [
  | inl all ↦
      rw (all, after_write)
        (after_read-Accounts er received _
          (h ∙ ap (◌++◌ sent) (sym (take-length_le nw buf (ground arith)))))
  | inr short ↦ rw (short, after_write) (_, split_buf nw buf received sent h)
]

pub after_nr-Accounts :
    (buf : Bytes) (er : Option IoError) (received sent : Bytes)
    → received ≡ sent
    → Accounts (after_nr buf er) (received ++ buf) sent
unfolding after_nr
after_nr-Accounts [] er received sent h = after_read-Accounts er _ sent (append-nil received ∙ h)
after_nr-Accounts (x ∷ buf) er received sent h = ap (λ (t : Bytes). t ++ (x ∷ buf)) h
