-- ===== src/EventLoop/Turns.antt =====
-- One turn of the loop of src/server/event_loop.rs over a client's frames: fuel, bytes that come later, and
-- a relay that a message opens.
use lrmux.Base.{Bool, true, false, ◌||◌}
use lrmux.Base.{ℕ, zero, suc, ◌+◌, ◌*◌, ◌≤◌, ◌<◌, ◌≡◌, ◌≢◌, ◌⊎◌, inl, inr, refl, sym, ap, ◌∙◌}
use lrmux.Base.{arith, Option, none, some, [], ◌∷◌, ◌++◌, length, take, drop}
use lrmux.Base.{length-append, length-drop, ltb, if_true, if_false}
use lrmux.Base.{Bool-cases, le→ltb, ltb→le, ap₂}
use lrmux.Proto.Utf8.{Bytes}
use lrmux.Proto.Reader.{Result, ok, err, panic, Result-cases}
use lrmux.Proto.Message.{ClientMsg}
use lrmux.EventLoop.Frame.{parse_body, parse_payload, try_parse_frame}
use lrmux.EventLoop.Loop.{
  Dispatch, Outcome, stays, leaves, stops, Conn, Batch, in_front, outcome, opens, handled, turn,
  go_on, take_frames, frames_of,
}

parse_payload-ne_none : (p : Bytes) → parse_payload p ≢ ok none
unfolding parse_payload
parse_payload-ne_none [] e = cc
parse_payload-ne_none (t ∷ r) e = elim (Result-cases (parse_body t r)) [
  | inl (m, q) ↦ ground arith
  | inr (inl (x, q)) ↦ ground arith
  | inr (inr q) ↦ ground arith
]

take-append_le : (n : ℕ) (xs ys : Bytes) → n ≤ length xs → take n (xs ++ ys) ≡ take n xs
take-append_le zero xs ys h = refl
take-append_le (suc n) [] ys h = absurd (omega arith)
take-append_le (suc n) (x ∷ xs) ys h = ap (λ t. x ∷ t) (take-append_le n xs ys (omega arith))

drop-append_le : (n : ℕ) (xs ys : Bytes) → n ≤ length xs → drop n (xs ++ ys) ≡ drop n xs ++ ys
drop-append_le zero xs ys h = refl
drop-append_le (suc n) [] ys h = absurd (omega arith)
drop-append_le (suc n) (x ∷ xs) ys h = drop-append_le n xs ys (omega arith)

-- A frame was taken off the front, and what stands behind it makes no difference.
pub record Turn (buf : Bytes) : Type 0 where
  pub result : Result (Option ClientMsg)
  pub rest : Bytes
  pub taken : try_parse_frame buf ≡ (result, rest)
  pub more : (b : Bytes) → try_parse_frame (buf ++ b) ≡ (result, rest ++ b)
  pub shorter : length rest < length buf
  pub settled : result ≢ ok none

pub taken_or_left : (buf : Bytes) → (try_parse_frame buf ≡ (ok none, buf)) ⊎ Turn buf
unfolding try_parse_frame
taken_or_left [] = inl refl
taken_or_left (a ∷ []) = inl refl
taken_or_left (a ∷ b ∷ []) = inl refl
taken_or_left (a ∷ b ∷ c ∷ []) = inl refl
taken_or_left (a ∷ b ∷ c ∷ d ∷ r) =
    let len = a + 256 * b + 65536 * c + 16777216 * d in
    elim (Bool-cases (ltb (length r) len)) [
      | inl short ↦ inl (if_true _ short)
      | inr whole ↦ inr (record {
        result = parse_payload (take len r);
        rest = drop len r;
        taken = if_false _ whole;
        more = λ s.
            let fits = ltb→le (length r) len whole in
            if_false _ (le→ltb (length (r ++ s)) len (omega (arith, fits, length-append r s)))
            ∙ ap₂ (λ p t. (parse_payload p, t)) (take-append_le len r s fits)
                (drop-append_le len r s fits);
        shorter = omega (arith, length-drop len r);
        settled = parse_payload-ne_none (take len r);
      })
    ]

or_false : (a b : Bool) → (a || b) ≡ false → a ≡ false
or_false true b h = h
or_false false b h = refl

module _ {S : Type 0} (d : Dispatch S) where
  -- Fuel beyond the length of the buffer makes no difference.
  take_frames-fuel :
      (f g : ℕ) (c : Conn S) (buf : Bytes)
      → length buf < f
      → length buf < g
      → take_frames d f c buf ≡ take_frames d g c buf
  unfolding take_frames
  take_frames-fuel zero g c buf hf hg = absurd (omega arith)
  take_frames-fuel (suc f) zero c buf hf hg = absurd (omega arith)
  take_frames-fuel (suc f) (suc g) c buf hf hg = elim (taken_or_left buf) [
    | inl e ↦ ap (go_on d (take_frames d f) c) e ∙ sym (ap (go_on d (take_frames d g) c) e)
    | inr t ↦
        let ih : (c' : Conn S) → take_frames d f c' t.rest ≡ take_frames d g c' t.rest = λ c'.
          take_frames-fuel f g c' t.rest (omega (arith, t.shorter)) (omega (arith, t.shorter)) in
        ap (go_on d (take_frames d f) c) t.taken
        ∙ go_on_same t.result t.rest ih
        ∙ sym (ap (go_on d (take_frames d g) c) t.taken)
  ]
    where
      turn_same :
          (o : Outcome) (c' : Conn S) (rest : Bytes)
          → take_frames d f c' rest ≡ take_frames d g c' rest
          → turn o (λ e. take_frames d f e rest) c' ≡ turn o (λ e. take_frames d g e rest) c'
      turn_same stays c' rest e = e
      turn_same leaves c' rest e = refl
      turn_same stops c' rest e = refl

      go_on_same :
          (r : Result (Option ClientMsg)) (rest : Bytes)
          → ((c' : Conn S) → take_frames d f c' rest ≡ take_frames d g c' rest)
          → go_on d (take_frames d f) c (r, rest) ≡ go_on d (take_frames d g) c (r, rest)
      go_on_same (ok none) rest e = refl
      go_on_same (ok (some m)) rest e =
          ap (in_front m) (turn_same (outcome d c.state m) (handled d c m) rest (e (handled d c m)))
      go_on_same (err x) rest e = refl
      go_on_same panic rest e = refl

  pub frames_of_fuel :
      (f : ℕ) (c : Conn S) (buf : Bytes)
      → length buf < f
      → take_frames d f c buf ≡ frames_of d c buf
  unfolding frames_of
  frames_of_fuel f c buf h = take_frames-fuel f (suc (length buf)) c buf h (omega arith)

  -- A relay that is open stays open while frames are taken.
  abbrev AtFirst : (Conn S → Batch S) → Type 0
  AtFirst next = (c : Conn S) → (next c).conn.relay_peer ≡ false → c.relay_peer ≡ false

  turn-AtFirst :
      (c : Conn S) (m : ClientMsg) (next : Conn S → Batch S) (o : Outcome)
      → AtFirst next
      → (turn o next (handled d c m)).conn.relay_peer ≡ false
      → c.relay_peer ≡ false
  turn-AtFirst c m next stays ih h =
      or_false c.relay_peer (opens d c.state m) (ih (handled d c m) h)
  turn-AtFirst c m next leaves ih h = or_false c.relay_peer (opens d c.state m) h
  turn-AtFirst c m next stops ih h = or_false c.relay_peer (opens d c.state m) h

  take_frames-AtFirst : (f : ℕ) (buf : Bytes) → AtFirst (λ c. take_frames d f c buf)
  unfolding take_frames
  take_frames-AtFirst zero buf c h = h
  take_frames-AtFirst (suc f) buf c h =
      by_result (take_frames-AtFirst f) (try_parse_frame buf).0 (try_parse_frame buf).1 h
    where
      by_result :
          ((b : Bytes) → AtFirst (λ c. take_frames d f c b))
          → (r : Result (Option ClientMsg)) (rest : Bytes)
          → (go_on d (take_frames d f) c (r, rest)).conn.relay_peer ≡ false
          → c.relay_peer ≡ false
      by_result ih (ok none) rest e = e
      by_result ih (ok (some m)) rest e =
          turn-AtFirst c m (λ c'. take_frames d f c' rest) (outcome d c.state m) (ih rest) e
      by_result ih (err x) rest e = e
      by_result ih panic rest e = e

  -- A relay that a part of the bytes opened is open after all of them.
  turn_shut :
      (o : Outcome) (next next' : Conn S → Batch S) (c : Conn S)
      → ((next' c).conn.relay_peer ≡ false → (next c).conn.relay_peer ≡ false)
      → (turn o next' c).conn.relay_peer ≡ false
      → (turn o next c).conn.relay_peer ≡ false
  turn_shut stays next next' c ih h = ih h
  turn_shut leaves next next' c ih h = h
  turn_shut stops next next' c ih h = h

  take_frames_shut :
      (f g : ℕ) (c : Conn S) (a b : Bytes)
      → length a < f
      → length (a ++ b) < g
      → (take_frames d g c (a ++ b)).conn.relay_peer ≡ false
      → (take_frames d f c a).conn.relay_peer ≡ false
  unfolding take_frames
  take_frames_shut zero g c a b hf hg shut = absurd (omega arith)
  take_frames_shut (suc f) zero c a b hf hg shut = absurd (omega arith)
  take_frames_shut (suc f) (suc g) c a b hf hg shut = elim (taken_or_left a) [
    | inl e ↦
        ap (λ t. (go_on d (take_frames d f) c t).conn.relay_peer) e
        ∙ take_frames-AtFirst (suc g) (a ++ b) c shut
    | inr t ↦
        ap (λ u. (go_on d (take_frames d f) c u).conn.relay_peer) t.taken
        ∙ by_result t.result t.rest
            (λ c'.
              take_frames_shut f g c' t.rest b (omega (arith, t.shorter))
                (omega (arith, t.shorter, length-append a b, length-append t.rest b)))
            (sym (ap (λ u. (go_on d (take_frames d g) c u).conn.relay_peer) (t.more b)) ∙ shut)
  ]
    where
      by_result :
          (r : Result (Option ClientMsg)) (rest : Bytes)
          → ((c' : Conn S)
              → (take_frames d g c' (rest ++ b)).conn.relay_peer ≡ false
              → (take_frames d f c' rest).conn.relay_peer ≡ false)
          → (go_on d (take_frames d g) c (r, rest ++ b)).conn.relay_peer ≡ false
          → (go_on d (take_frames d f) c (r, rest)).conn.relay_peer ≡ false
      by_result (ok none) rest ih e = e
      by_result (ok (some m)) rest ih e =
          turn_shut (outcome d c.state m) (λ c'. take_frames d f c' rest)
            (λ c'. take_frames d g c' (rest ++ b)) (handled d c m) (ih (handled d c m)) e
      by_result (err x) rest ih e = e
      by_result panic rest ih e = e

  pub frames_of_shut :
      (c : Conn S) (a b : Bytes)
      → (frames_of d c (a ++ b)).conn.relay_peer ≡ false
      → (frames_of d c a).conn.relay_peer ≡ false
  unfolding frames_of
  frames_of_shut c a b h =
      take_frames_shut (suc (length a)) (suc (length (a ++ b))) c a b (omega arith) (omega arith) h
