-- ===== src/Sip003/Errors.antt =====
-- Which plugin options `FormatSSPluginOptions` refuses.
use mos_tls_tunnel.Prelude.{
  ℕ, suc, ◌≤◌, ◌<◌, ◌≡◌, ◌⊎◌, inl, inr, ◌↔◌, refl, true, false, Option, none, some, List, [], ◌∷◌,
  ◌++◌, arith, Bytes, ◌==◌, if◌then◌else◌, length, ltb, err, Bool-cases,
}
use mos_tls_tunnel.GoStd.Strings.{split, extend_head}
use mos_tls_tunnel.Sip003.Options.{option_args, format_loop, format_ss_plugin_options}

-- How often a byte stands in a text.
pub count_byte : ℕ → Bytes → ℕ
count_byte b [] = 0
count_byte b (c ∷ s) = if c == b then suc (count_byte b s) else count_byte b s

length-extend_head : (c : ℕ) (ps : List Bytes) → length (extend_head c ps) ≡ length ps
length-extend_head c [] = refl
length-extend_head c (p ∷ ps) = refl

length-split : (b : ℕ) (s : Bytes) → length (split b s) ≡ suc (count_byte b s)
unfolding split count_byte
length-split b [] = refl
length-split b (c ∷ s) = ground (arith, length-split b s, length-extend_head c (split b s))

-- The first text with more than one `=`.
pub first_bad : List Bytes → Option Bytes
unfolding count_byte
first_bad [] = none
first_bad (so ∷ rest) = if ltb 1 (count_byte b'=' so) then some so else first_bad rest

option_args_long : (ps : List Bytes) → 2 < length ps → option_args ps ≡ none
unfolding option_args
option_args_long [] h = absurd (omega arith)
option_args_long (k ∷ []) h = absurd (omega arith)
option_args_long (k ∷ v ∷ []) h = absurd (omega arith)
option_args_long (k ∷ v ∷ w ∷ ps) h = refl

option_args_short :
    (ps : List Bytes)
    → 0 < length ps
    → length ps ≤ 2
    → (args : List Bytes) × (option_args ps ≡ some args)
unfolding option_args
option_args_short [] h l = absurd (omega arith)
option_args_short (k ∷ []) h l = (_, refl)
option_args_short (k ∷ v ∷ []) h l = (_, refl)
option_args_short (k ∷ v ∷ w ∷ ps) h l = absurd (omega arith)

option_args-split :
    (so : Bytes)
    → ((ltb 1 (count_byte b'=' so) ≡ true) × (option_args (split b'=' so) ≡ none))
      ⊎ ((ltb 1 (count_byte b'=' so) ≡ false)
          × ((args : List Bytes) × (option_args (split b'=' so) ≡ some args)))
option_args-split so = elim (Bool-cases (ltb 1 (count_byte b'=' so))) [
  | inl many ↦ inl (many, option_args_long (split b'=' so) (ground (arith, length-split b'=' so)))
  | inr few ↦ inr (
    few,
    option_args_short (split b'=' so) (omega (arith, length-split b'=' so))
        (ground (arith, length-split b'=' so)),
  )
]

format_loop_error :
    (parts out : List Bytes) (so : Bytes)
    → (format_loop parts out ≡ err so) ↔ (first_bad parts ≡ some so)
unfolding format_loop first_bad
format_loop_error [] out so = (λ e. cc, λ e. cc)
format_loop_error (p ∷ parts) out so = elim (option_args-split p) [
  | inl (many, e) ↦ ground arith
  | inr (few, (args, e)) ↦ ground (arith, format_loop_error parts (out ++ args) so)
]

-- The options are refused exactly when one of them has more than one `=`, and the error names the
-- first such option.
pub format_ss_plugin_options_error :
    (spo so : Bytes)
    → (format_ss_plugin_options spo ≡ err so) ↔ (first_bad (split b';' spo) ≡ some so)
unfolding format_ss_plugin_options
format_ss_plugin_options_error spo so = format_loop_error (split b';' spo) [] so
