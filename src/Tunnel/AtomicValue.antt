-- ===== src/Tunnel/AtomicValue.antt =====
-- The two `atomic.Value`s of a tunnel in internal/core/common.go: the error of `firstErr` and
-- `muTimeout`. sync/atomic documents that a `Store` of `nil`, or of a value of another type than the
-- one that is stored, panics, and the assertion on what `Load` gives panics on a wrong type.
use mos_tls_tunnel.Prelude.{
  ℕ, ◌≡◌, refl, ap, ◌∙◌, Bool, true, false, Option, none, some, List, [], ◌∷◌, ℤ, ◌==◌,
  if◌then◌else◌,
}
use mos_tls_tunnel.Tunnel.FirstErr.{IoError, FirstErr, new_first_err, report}

-- An interface value with its dynamic type; the types of errors are numbered.
pub data Value : Type 0 where
  nil_value : Value
  duration : ℤ → Value
  error_value : (error_type : ℕ) → IoError → Value

abbrev pub same_type : Value → Value → Bool
same_type (duration t) (duration u) = true
same_type (error_value a e) (error_value b f) = a == b
same_type _ _ = false

pub data Outcome (A : Type 0) : Type 0 where
  returns : A → Outcome A
  panics : Outcome A

infixl 5 ◌>>=◌
abbrev pub ◌>>=◌ : {A B : Type 0} → Outcome A → (A → Outcome B) → Outcome B
returns a >>= f = f a
panics >>= f = panics

-- `Store` of `atomic.Value`, and what it holds before the first one.
unfoldable pub store : Value → Option Value → Outcome (Option Value)
store nil_value cell = panics
store v none = returns (some v)
store v (some u) = if same_type v u then returns (some v) else panics

-- `muTimeout.Load().(time.Duration)`
unfoldable pub load_duration : Option Value → Outcome ℤ
load_duration (some (duration t)) = returns t
load_duration _ = panics

-- `firstErr`, with `reportrOnce` and `err`.
pub record ErrCell : Type 0 where
  pub once_done : Bool
  pub value : Option Value

unfoldable pub new_err_cell : ErrCell
new_err_cell = record { once_done = false; value = none }

-- An error with its type, or `nil`.
abbrev pub Err : Type 0
Err = Option (ℕ × IoError)

-- What `Do` runs: `if err != nil { fe.err.Store(err) }`
unfoldable pub store_err : Err → Option Value → Outcome (Option Value)
unfolding store
store_err none cell = returns cell
store_err (some (t, e)) cell = store (error_value t e) cell

unfoldable pub report_err : Err → ErrCell → Outcome ErrCell
unfolding store_err
report_err e c =
    if c.once_done
    then returns c
    else (store_err e c.value >>= λ v. returns (record { once_done = true; value = v }))

-- `v, ok := fe.err.Load().(error)`
unfoldable pub get : ErrCell → Option IoError
get c = elim c.value [ some (error_value t e) ↦ some e | _ ↦ none ]

unfoldable pub report_all : List Err → ErrCell → Outcome ErrCell
unfolding report_err
report_all [] c = returns c
report_all (e ∷ es) c = report_err e c >>= report_all es

abbrev pub untyped : Err → Option IoError
untyped none = none
untyped (some (t, e)) = some e

unfoldable pub report_untyped : List Err → FirstErr → FirstErr
report_untyped [] f = f
report_untyped (e ∷ es) f = report_untyped es (report (untyped e) f)

-- `muTimeout.Store(timeout)` of `openTunnel`, then the stores of the goroutines.
unfoldable pub store_all : List ℤ → Option Value → Outcome (Option Value)
unfolding store
store_all [] cell = returns cell
store_all (t ∷ ts) cell = store (duration t) cell >>= store_all ts

-- The cell as `Tunnel.FirstErr` has it, without the types of the errors.
abbrev pub without_types : ErrCell → FirstErr
unfolding get
without_types c = record { reported = c.once_done; stored = get c }

report_err-returns :
    (e : Err) (once : Bool) (v : Option Value)
    → (once ≡ false → v ≡ none)
    → (c : ErrCell) × (report_err e (record { once_done = once; value = v }) ≡ returns c)
      × (without_types c
          ≡ report (untyped e) (without_types (record { once_done = once; value = v })))
      × (c.once_done ≡ true)
unfolding report_err store get report
report_err-returns e true v h = (record { once_done = true; value = v }, refl, refl, refl)
report_err-returns none false v h =
    (record { once_done = true; value = v }, refl, rw (h refl) refl, refl)
report_err-returns (some (t, x)) false v h =
    (record { once_done = true; value = some (error_value t x) }, rw (h refl) refl, refl, refl)

report_all-from :
    (es : List Err) (c : ErrCell)
    → (c.once_done ≡ false → c.value ≡ none)
    → (c' : ErrCell) × (report_all es c ≡ returns c')
      × (without_types c' ≡ report_untyped es (without_types c))
unfolding report_all report_untyped
report_all-from [] c h = (c, refl, refl)
report_all-from (e ∷ es) c h =
    let (d, r, u, o) = report_err-returns e c.once_done c.value h in
    let (c', r', u') = report_all-from es d (λ k. absurd (cc o)) in
    (c', ap (λ x. x >>= report_all es) r ∙ r', u' ∙ ap (report_untyped es) u)

-- Whatever errors the goroutines report, in whatever order, of whatever types and `nil` among them,
-- no `Store` of `firstErr` panics, and `getErr` gives what `firstErr` gives for the errors
-- without their types: the first report.
pub report_all-returns :
    (es : List Err)
    → (c : ErrCell) × (report_all es new_err_cell ≡ returns c)
      × (without_types c ≡ report_untyped es new_first_err)
unfolding new_err_cell get
report_all-returns es = report_all-from es new_err_cell (λ h. refl)

abbrev pub last_of : ℤ → List ℤ → ℤ
last_of t [] = t
last_of t (u ∷ us) = last_of u us

load_all :
    (ts : List ℤ) (t : ℤ)
    → (store_all ts (some (duration t)) >>= load_duration) ≡ returns (last_of t ts)
unfolding store_all store load_duration
load_all [] t = refl
load_all (u ∷ ts) t = load_all ts u

-- After the `Store` of `openTunnel` no access to `muTimeout` panics, and each one finds the last
-- duration that was stored.
pub load-store_all :
    (t : ℤ) (ts : List ℤ) → (store_all (t ∷ ts) none >>= load_duration) ≡ returns (last_of t ts)
unfolding store_all store
load-store_all t ts = load_all ts t
