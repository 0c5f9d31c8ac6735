-- ===== src/Websocket/Messages.antt =====
-- What one wrapper writes is what the wrapper at the other end reads (`Write` and `Read` of
-- internal/core/websocket.go).
use mos_tls_tunnel.Prelude.{
  ℕ, ◌+◌, ◌≤◌, ◌≡◌, refl, sym, subst, ap, ◌∙◌, Option, none, some, List, [], ◌∷◌, ◌++◌, arith,
  Bytes, length, append_assoc, append-nil, All, length-append,
}
use mos_tls_tunnel.Websocket.{
  Ws, ReadError, failed, Wrapper, Read, done, out_of_fuel, read, write, written,
}
use mos_tls_tunnel.Websocket.Reading.{IsWs, concat, stream, Reads, gives, ends, breaks, read-Reads}

pub concat-append : (ms ls : List Bytes) → concat (ms ++ ls) ≡ concat ms ++ concat ls
unfolding concat
concat-append [] ls = refl
concat-append (m ∷ ms) ls =
    ap (λ (x : Bytes). m ++ x) (concat-append ms ls) ∙ sym (append_assoc m (concat ms) (concat ls))

module _ (W : Ws) where
  -- A message that `WriteMessage` takes is sent behind those before it.
  pub data Sends (sent : W.Conn → List Bytes) (before : List Bytes) (b : Bytes)
      : W.Conn × Option ℕ → Type 0 where
    accepted : (c : W.Conn) → sent c ≡ before ++ (b ∷ []) → Sends sent before b (c, none)
    refused : (c : W.Conn) (e : ℕ) → Sends sent before b (c, some e)

  pub record IsSender : Type 0 where
    pub sent : W.Conn → List Bytes
    pub sends : (c : W.Conn) (b : Bytes) → Sends sent (sent c) b (W.write_message c b)

  -- Calls of `Write` in a row, up to the first error; the bytes that they took.
  abbrev pub then_rest :
      (Wrapper W → Wrapper W × (ℕ × Option ℕ))
      → Wrapper W × (ℕ × Option ℕ)
      → Wrapper W × (ℕ × Option ℕ)
  then_rest rest (w, (n, some e)) = (w, (n, some e))
  then_rest rest (w, (n, none)) = let r = rest w in (r.0, (n + r.1.0, r.1.1))

  unfoldable pub write_all : List Bytes → Wrapper W → Wrapper W × (ℕ × Option ℕ)
  unfolding write
  write_all [] w = (w, (0, none))
  write_all (b ∷ bs) w = then_rest (write_all bs) (write W b w)

  module _ (S : IsSender) where
    write-then :
        (b : Bytes) (bs : List Bytes) (w : Wrapper W) (m : W.Conn × Option ℕ)
        → Sends S.sent (S.sent w.ws) b m
        → ((v : Wrapper W)
            → (write_all bs v).1.1 ≡ none
            → (S.sent (write_all bs v).0.ws ≡ S.sent v.ws ++ bs)
              × ((write_all bs v).1.0 ≡ length (concat bs)))
        → (then_rest (write_all bs) (record w { ws = m.0 }, written W (length b) m.1)).1.1 ≡ none
        → (S.sent (then_rest (write_all bs) (record w { ws = m.0 }, written W (length b) m.1)).0.ws
            ≡ S.sent w.ws ++ (b ∷ bs))
          × ((then_rest (write_all bs) (record w { ws = m.0 }, written W (length b) m.1)).1.0
              ≡ length (concat (b ∷ bs)))
    unfolding concat
    write-then b bs w _ (refused c e) rest h = absurd (cc)
    write-then b bs w _ (accepted c e) rest h =
        let r = rest (record w { ws = c }) h in
        (
          r.0 ∙ ap (λ (x : List Bytes). x ++ bs) e ∙ append_assoc (S.sent w.ws) (b ∷ []) bs,
          omega (arith, r.1, length-append b (concat bs)),
        )

    -- Each `Write` that succeeds is one message, and reports all of its bytes.
    pub write_all-sent :
        (bs : List Bytes) (w : Wrapper W)
        → (write_all bs w).1.1 ≡ none
        → (S.sent (write_all bs w).0.ws ≡ S.sent w.ws ++ bs)
          × ((write_all bs w).1.0 ≡ length (concat bs))
    unfolding write_all write concat
    write_all-sent [] w h = (sym (append-nil (S.sent w.ws)), refl)
    write_all-sent (b ∷ bs) w h =
        write-then b bs w (W.write_message w.ws b) (S.sends w.ws b) (write_all-sent bs) h

  module _ (I : IsWs W) where
    open I use {messages}

    -- Calls of `Read` in a row, into buffers of these sizes, up to the first error. Each has as many
    -- turns as `read-Reads` asks for.
    abbrev pub then_read :
        (Wrapper W → Wrapper W × (Bytes × Option ReadError))
        → Wrapper W × Read
        → Wrapper W × (Bytes × Option ReadError)
    then_read rest (w, out_of_fuel) = (w, ([], none))
    then_read rest (w, done bs (some e)) = (w, (bs, some e))
    then_read rest (w, done bs none) = let r = rest w in (r.0, (bs ++ r.1.0, r.1.1))

    unfoldable pub read_all : List ℕ → Wrapper W → Wrapper W × (Bytes × Option ReadError)
    unfolding read
    read_all [] w = (w, ([], none))
    read_all (n ∷ ns) w = then_read (read_all ns) (read W (length (messages w.ws) + 2) n w)

    -- What the calls gave of a stream: a part of it, with the rest still to come; all of it, before
    -- an error; or a part of it, where the connection broke.
    pub data Gathers (whole : Bytes) : Wrapper W × (Bytes × Option ReadError) → Type 0 where
      so_far :
          (w : Wrapper W) (got : Bytes)
          → whole ≡ got ++ stream W I w
          → Gathers whole (w, (got, none))
      to_the_end :
          (w : Wrapper W) (got : Bytes) (e : ReadError)
          → whole ≡ got
          → Gathers whole (w, (got, some e))
      cut_off :
          (w : Wrapper W) (got rest : Bytes) (n : ℕ)
          → whole ≡ got ++ rest
          → Gathers whole (w, (got, some (failed n)))

    Gathers-behind :
        (got whole : Bytes) (r : Wrapper W × (Bytes × Option ReadError))
        → Gathers whole r
        → Gathers (got ++ whole) (r.0, (got ++ r.1.0, r.1.1))
    Gathers-behind got whole _ (so_far w g e) =
        so_far w (got ++ g)
          (ap (λ (x : Bytes). got ++ x) e ∙ sym (append_assoc got g (stream W I w)))
    Gathers-behind got whole _ (to_the_end w g x e) =
        to_the_end w (got ++ g) x (ap (λ (x : Bytes). got ++ x) e)
    Gathers-behind got whole _ (cut_off w g rest n e) =
        cut_off w (got ++ g) rest n (ap (λ (x : Bytes). got ++ x) e ∙ sym (append_assoc got g rest))

    read-then :
        (rest : Wrapper W → Wrapper W × (Bytes × Option ReadError)) (before : Bytes)
        (r : Wrapper W × Read)
        → Reads W I before r
        → ((w : Wrapper W) → Gathers (stream W I w) (rest w))
        → Gathers before (then_read rest r)
    read-then rest before _ (gives w b bs e) k =
        subst (λ x. Gathers x (then_read rest (w, done (b ∷ bs) none))) (sym e)
          (Gathers-behind (b ∷ bs) (stream W I w) (rest w) (k w))
    read-then rest before _ (ends w x e s) k = to_the_end w [] x e
    read-then rest before _ (breaks w n) k = cut_off w [] before n refl

    pub read_all-Gathers :
        (ns : List ℕ) (w : Wrapper W) → All (λ n. 1 ≤ n) ns → Gathers (stream W I w) (read_all ns w)
    unfolding read_all
    read_all-Gathers [] w h = so_far w [] refl
    read_all-Gathers (n ∷ ns) w (h, hs) =
        read-then (read_all ns) (stream W I w) (read W (length (messages w.ws) + 2) n w)
          (read-Reads W I (length (messages w.ws) + 2) n w h (omega arith))
          (λ v. read_all-Gathers ns v hs)

-- Where the messages to come at the one end are those that were sent at the other end, and all calls
-- of `Write` there succeeded, calls of `Read` with room for a byte give the bytes that were
-- written, in order, whatever the sizes of the writes and of the reads: a part of them so
-- far, with the rest to come; all of them, before an error; or a part of them, where the
-- connection broke.
pub written-read :
    (W : Ws) (S : IsSender W) (V : Ws) (I : IsWs V) (bs : List Bytes) (w : Wrapper W)
    (r : Wrapper V) (ns : List ℕ)
    → S.sent w.ws ≡ []
    → (write_all W bs w).1.1 ≡ none
    → I.messages r.ws ≡ S.sent (write_all W bs w).0.ws
    → r.reader ≡ none
    → All (λ n. 1 ≤ n) ns
    → Gathers V I (concat bs) (read_all V I ns r)
unfolding stream
written-read W S V I bs w r ns e h m n k =
    subst (λ x. Gathers V I x (read_all V I ns r)) whole (read_all-Gathers V I ns r k)
  where
    whole : stream V I r ≡ concat bs
    whole = rw (n, m, (write_all-sent W S bs w h).0, e) refl
