-- ===== src/Buffers/Filling.antt =====
-- A buffer of `ioCopybuffPool` always has its full size, what is written from it was read into it,
-- and a goroutine writes to no buffer but its own (internal/core/common.go).
use mos_tls_tunnel.Prelude.{
  ℕ, zero, suc, ◌≤◌, ◌<◌, ◌≡◌, ◌≢◌, refl, ap, ◌∙◌, Option, none, some, arith, Bool-cases, Bytes,
  length, drop, ◌==◌, inl, inr, ==_iff, ==_refl, length-append, length-drop,
}
use mos_tls_tunnel.Config.{default_copy_io_buffer_size}
use mos_tls_tunnel.Tunnel.FirstErr.{IoError, eof, short_write, other}
use mos_tls_tunnel.Tunnel.Worker.{
  End, Shared, Stage, reporting, storing, expiring_src, expiring_dst, closing_src, closing_dst,
  returned, Answer,
}
use mos_tls_tunnel.Buffers.{
  SyncPool, Heap, got_buf, new_buf, acquire_io_buf, release_io_buf, zeros, update,
}
use mos_tls_tunnel.Buffers.Thread.{
  Local, entering, at_top, arming_read, in_read, has_read, arming_write, in_write, cleaning, Place,
  starting, running, finished, panicked, Thread, enter, step_cleaning, step_local, step_place,
  local_after_read, local_after_nr, local_after_write, filled,
}
use mos_tls_tunnel.Buffers.Process.{IsLawfulLocal, IsLawfulPlace}
use mos_tls_tunnel.Buffers.Ownership.{held}

pub length-zeros : (n : ℕ) → length (zeros n) ≡ n
unfolding zeros
length-zeros zero = refl
length-zeros (suc n) = omega (arith, length-zeros n)

length-filled :
    (bytes buf : Bytes) → length bytes ≤ length buf → length (filled bytes buf) ≡ length buf
length-filled bytes buf h =
    omega (arith, length-append bytes (drop (length bytes) buf), length-drop (length bytes) buf h)

-- `nr` is no more than the length of the buffer.
abbrev pub FitsLocal : ℕ → Local → Type 0
FitsLocal size (has_read n er) = n ≤ size
FitsLocal size (arming_write t n er) = n ≤ size
FitsLocal size (in_write n er) = n ≤ size
FitsLocal size _ = Unit {0}

abbrev pub FitsPlace : (ℕ → Bytes) → Place → Type 0
FitsPlace content (running b p) = FitsLocal (length (content b)) p
FitsPlace content panicked = ⊥
FitsPlace content _ = Unit {0}

abbrev pub MadeBefore : ℕ → Place → Type 0
MadeBefore next p = (b : ℕ) → held p ≡ some b → b < next

after_read-Fits : (size : ℕ) (er : Option IoError) → FitsLocal size (local_after_read er)
unfolding local_after_read
after_read-Fits size none = tt
after_read-Fits size (some eof) = tt
after_read-Fits size (some short_write) = tt
after_read-Fits size (some (other n)) = tt

after_nr-Fits :
    (size nr : ℕ) (er : Option IoError) → nr ≤ size → FitsLocal size (local_after_nr nr er)
unfolding local_after_nr
after_nr-Fits size zero er h = after_read-Fits size er
after_nr-Fits size (suc n) er h = h

after_write-Fits :
    (size nr : ℕ) (er : Option IoError) (nw : ℕ) (ew : Option IoError)
    → FitsLocal size (local_after_write nr er nw ew)
unfolding local_after_write
after_write-Fits size nr er nw (some e) = tt
after_write-Fits size nr er nw none = elim (Bool-cases (nr == nw)) [
  | inl e ↦ rw (e, local_after_write) (after_read-Fits size er)
  | inr e ↦ rw (e, local_after_write) tt
]

module _ (P : SyncPool) where
  abbrev pub IsSized : Heap P → Type 0
  IsSized h = (b : ℕ) → b < h.next → length (h.content b) ≡ default_copy_io_buffer_size

  -- Of the buffers made before, only one that the goroutine held can change.
  abbrev pub KeepsOthers : Option ℕ → Heap P → Heap P → Type 0
  KeepsOthers o h h' = (b : ℕ) → b < h.next → o ≢ some b → h'.content b ≡ h.content b

  got_buf-KeepsOthers :
      (o : Option ℕ) (h : Heap P) (r : P.State × Option ℕ) → KeepsOthers o h (got_buf P h r).1
  unfolding got_buf new_buf
  got_buf-KeepsOthers o h (s, none) b l d = ground arith
  got_buf-KeepsOthers o h (s, some b') b l d = refl

  got_buf-IsSized : (h : Heap P) (r : P.State × Option ℕ) → IsSized h → IsSized (got_buf P h r).1
  unfolding got_buf new_buf
  got_buf-IsSized h (s, some b') v b l = v b l
  got_buf-IsSized h (s, none) v b l = elim (Bool-cases (h.next == b)) [
    | inl e ↦ rw (e, update) (length-zeros default_copy_io_buffer_size)
    | inr e ↦ rw (e, update) (v b (let k : b < suc h.next = l in ground arith))
  ]

  module _ (e : End) (i : Answer) (w : Thread) (s : Shared) (h : Heap P) (v : IsSized h) where
    step_cleaning-content :
        (b : ℕ) (st : Stage) (err : Option IoError)
        → (step_cleaning P e b st err w s h).2.content ≡ h.content
    unfolding step_cleaning release_io_buf
    step_cleaning-content b returned err = refl
    step_cleaning-content b reporting err = refl
    step_cleaning-content b _ err = refl

    step_cleaning-next :
        (b : ℕ) (st : Stage) (err : Option IoError)
        → (step_cleaning P e b st err w s h).2.next ≡ h.next
    unfolding step_cleaning release_io_buf
    step_cleaning-next b returned err = refl
    step_cleaning-next b reporting err = refl
    step_cleaning-next b _ err = refl

    step_cleaning-Fits :
        (b : ℕ) (st : Stage) (err : Option IoError) (content : ℕ → Bytes)
        → FitsPlace content (step_cleaning P e b st err w s h).0.place
    unfolding step_cleaning
    step_cleaning-Fits b returned err content = tt
    step_cleaning-Fits b reporting err content = tt
    step_cleaning-Fits b storing err content = tt
    step_cleaning-Fits b expiring_src err content = tt
    step_cleaning-Fits b expiring_dst err content = tt
    step_cleaning-Fits b closing_src err content = tt
    step_cleaning-Fits b closing_dst err content = tt

    step_local-KeepsOthers :
        (b : ℕ) (p : Local) → KeepsOthers (some b) h (step_local P e i b p w s h).2
    unfolding step_local
    step_local-KeepsOthers b (cleaning st er) a l d =
        ap (λ (c : ℕ → Bytes). c a) (step_cleaning-content b st er)
    step_local-KeepsOthers b in_read a l d = elim (Bool-cases (b == a)) [
      | inl q ↦ absurd (d (ap some ((==_iff b a).0 q)))
      | inr q ↦ rw (q, update) refl
    ]
    step_local-KeepsOthers b entering a l d = refl
    step_local-KeepsOthers b _ a l d = refl

    step_local-IsSized :
        (b : ℕ) (p : Local)
        → IsLawfulLocal e i s (h.content b) p
        → IsSized (step_local P e i b p w s h).2
    unfolding step_local
    step_local-IsSized b (cleaning st er) l a k =
        ap (λ (c : ℕ → Bytes). length (c a)) (step_cleaning-content b st er)
        ∙ v a (rw (step_cleaning-next b st er) at k)
    step_local-IsSized b in_read l a k = elim (Bool-cases (b == a)) [
      | inl q ↦
          rw (q, update)
            (length-filled i.read (h.content b) l.0 ∙ v b (rw (← (==_iff b a).0 q) at k))
      | inr q ↦ rw (q, update) (v a k)
    ]
    step_local-IsSized b entering l a k = v a k
    step_local-IsSized b _ l a k = v a k

    enter-Fits : (b : ℕ) → b < h.next → FitsPlace h.content (enter b w (h.content b)).place
    unfolding enter
    enter-Fits b l = elim (Bool-cases (length (h.content b) == 0)) [
      | inl q ↦ absurd (omega (arith, v b l, (==_iff (length (h.content b)) 0).0 q))
      | inr q ↦ rw (q, enter) tt
    ]

    step_local-Fits :
        (b : ℕ) (p : Local)
        → b < h.next
        → IsLawfulLocal e i s (h.content b) p
        → FitsPlace h.content (running b p)
        → FitsPlace (step_local P e i b p w s h).2.content (step_local P e i b p w s h).0.place
    unfolding step_local
    step_local-Fits b entering l k f = enter-Fits b l
    step_local-Fits b at_top l k f = tt
    step_local-Fits b (arming_read t) l k f = tt
    step_local-Fits b in_read l k f =
        after_nr-Fits _ (length i.read) i.er
          (rw (==_refl b, update) (omega (arith, length-filled i.read (h.content b), k.0)))
    step_local-Fits b (has_read n er) l k f = f
    step_local-Fits b (arming_write t n er) l k f = f
    step_local-Fits b (in_write n er) l k f = after_write-Fits _ n er i.nw i.ew
    step_local-Fits b (cleaning st er) l k f =
        step_cleaning-Fits b st er (step_cleaning P e b st er w s h).2.content

    pub step_place-KeepsOthers : (p : Place) → KeepsOthers (held p) h (step_place P e i p w s h).2
    unfolding step_place acquire_io_buf
    step_place-KeepsOthers starting = got_buf-KeepsOthers none h (P.get h.pool)
    step_place-KeepsOthers (running b p) = step_local-KeepsOthers b p
    step_place-KeepsOthers (finished er) = λ b l d. refl
    step_place-KeepsOthers panicked = λ b l d. refl

    pub step_place-IsSized :
        (p : Place) → IsLawfulPlace e i s h.content p → IsSized (step_place P e i p w s h).2
    unfolding step_place acquire_io_buf
    step_place-IsSized starting k = got_buf-IsSized h (P.get h.pool) v
    step_place-IsSized (running b p) k = step_local-IsSized b p k
    step_place-IsSized (finished er) k = v
    step_place-IsSized panicked k = v

    pub step_place-Fits :
        (p : Place)
        → w.place ≡ p
        → ((b : ℕ) → held p ≡ some b → b < h.next)
        → IsLawfulPlace e i s h.content p
        → FitsPlace h.content p
        → FitsPlace (step_place P e i p w s h).2.content (step_place P e i p w s h).0.place
    unfolding step_place acquire_io_buf
    step_place-Fits starting q m k f = tt
    step_place-Fits (running b p) q m k f = step_local-Fits b p (m b refl) k f
    step_place-Fits (finished er) q m k f = rw q tt
    step_place-Fits panicked q m k f = absurd f
