-- ===== src/GoMap.antt =====
-- Go's `map[string]V` as an association list: assignment, `delete`, the two-valued read and `len`.
use mathlib.Core.List.{
  Mem, Nodup, mem-cons, mem-cons_self, mem-cons_of_mem, not-mem-nil, Nodup-cons, Nodup-nil,
}
use mathlib.Core.Logic.Or
use mathlib.Core.HLevel.{¬_prop}
use mos_tls_tunnel.Prelude.{
  ◌≡◌, ◌≢◌, ◌↔◌, refl, sym, ap, suc, ite, Option, none, some, List, [], ◌∷◌, arith, Bytes,
  bytes_dec, length,
}

abbrev pub StringMap {ℓ} : Type ℓ → Type ℓ
StringMap V = List (Bytes × V)

module _ {ℓ} {V : Type ℓ} where
  -- `v, ok = m[k]`
  unfoldable pub lookup : Bytes → StringMap V → Option V
  lookup k [] = none
  lookup k ((j, v) ∷ m) = ite (bytes_dec j k) (some v) (lookup k m)

  -- `m[k] = v`
  unfoldable pub assign : Bytes → V → StringMap V → StringMap V
  assign k v [] = (k, v) ∷ []
  assign k v ((j, w) ∷ m) = ite (bytes_dec j k) ((k, v) ∷ m) ((j, w) ∷ assign k v m)

  -- `delete(m, k)`
  unfoldable pub delete : Bytes → StringMap V → StringMap V
  delete k [] = []
  delete k ((j, w) ∷ m) = ite (bytes_dec j k) (delete k m) ((j, w) ∷ delete k m)

  pub keys : StringMap V → List Bytes
  keys [] = []
  keys ((k, _) ∷ m) = k ∷ keys m

  -- No key stands twice.
  abbrev pub IsMap : StringMap V → Type ℓ
  IsMap [] = Unit
  IsMap ((k, _) ∷ m) = (lookup k m ≡ none) × IsMap m

  pub lookup-assign :
      (j k : Bytes) (v : V) (m : StringMap V)
      → lookup j (assign k v m) ≡ ite (bytes_dec k j) (some v) (lookup j m)
  unfolding lookup assign
  lookup-assign j k v [] = refl
  lookup-assign j k v ((i, w) ∷ m) = ground (arith, lookup-assign j k v m)

  pub lookup-delete :
      (j k : Bytes) (m : StringMap V)
      → lookup j (delete k m) ≡ ite (bytes_dec k j) none (lookup j m)
  unfolding lookup delete
  lookup-delete j k [] = ground arith
  lookup-delete j k ((i, w) ∷ m) = ground (arith, lookup-delete j k m)

  pub assign-IsMap : (k : Bytes) (v : V) (m : StringMap V) → IsMap m → IsMap (assign k v m)
  unfolding assign lookup
  assign-IsMap k v [] h = (refl, tt)
  assign-IsMap k v ((j, w) ∷ m) (fresh, h) =
      ground (arith, lookup-assign j k v m, assign-IsMap k v m h)

  pub delete-IsMap : (k : Bytes) (m : StringMap V) → IsMap m → IsMap (delete k m)
  unfolding delete
  delete-IsMap k [] h = tt
  delete-IsMap k ((j, w) ∷ m) (fresh, h) = ground (arith, lookup-delete j k m, delete-IsMap k m h)

  pub length-keys : (m : StringMap V) → length (keys m) ≡ length m
  unfolding keys
  length-keys [] = refl
  length-keys (_ ∷ m) = ap suc (length-keys m)

  -- The keys are those that a read finds.
  pub mem-keys : (p : Bytes) (m : StringMap V) → Mem p (keys m) ↔ (lookup p m ≢ none)
  unfolding keys lookup
  mem-keys p [] = (λ h. absurd (not-mem-nil h), λ h. absurd (h refl))
  mem-keys p ((k, v) ∷ m) = elim (bytes_dec k p) [
    | yes e ↦ (λ _. ground arith, λ _. rw e mem-cons_self)
    | no e ↦ (
      λ q.
          Or.elim ¬_prop (mem-cons.0 q) (λ f. absurd (e (sym f)))
            (λ r. ground (arith, (mem-keys p m).0 r)),
      λ h. mem-cons_of_mem k ((mem-keys p m).1 (ground arith)),
    )
  ]

  pub keys-Nodup : (m : StringMap V) → IsMap m → Nodup (keys m)
  unfolding keys
  keys-Nodup [] h = Nodup-nil
  keys-Nodup ((k, v) ∷ m) (fresh, h) = Nodup-cons.1 (λ q. (mem-keys k m).0 q fresh, keys-Nodup m h)
