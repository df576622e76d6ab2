-- ===== src/Input/Split.antt =====
-- Input that arrives in two reads (src/client/input_filter.rs).
use lrmux.Base.{
  ℕ, zero, suc, ◌≤◌, ◌≡◌, refl, sym, ap, ap₂, ◌∙◌, arith, Bool, true, false, ◌==◌, if◌then◌else◌,
  none, some, [], ◌∷◌, ◌++◌, length, take, drop, append_assoc, some_step, inl, inr, length-drop,
  subst,
}
use lrmux.Input.Filter.{Bytes, InputFilter, is_empty, hold, feed}
use lrmux.Input.Scan.{
  IsTurn, plain, last, alone, dropped, reply, passed, turn-cases, IsTurn-bounds, Scans, Scans-nil,
  Scans-hold, Scans-turn, scan-Scans, str_end-append, csi_from-append, csi_from_bounds,
}

-- Whether the last byte is an ESC.
abbrev pub ends_in_esc : Bytes → Bool
ends_in_esc [] = false
ends_in_esc (b ∷ []) = b == 0x1b
ends_in_esc (b ∷ c ∷ rest) = ends_in_esc (c ∷ rest)

ends_in_esc-drop :
    (n : ℕ) (bytes : Bytes) → ends_in_esc bytes ≡ false → ends_in_esc (drop n bytes) ≡ false
ends_in_esc-drop zero bytes h = h
ends_in_esc-drop (suc n) [] h = refl
ends_in_esc-drop (suc zero) (b ∷ []) h = refl
ends_in_esc-drop (suc (suc n)) (b ∷ []) h = refl
ends_in_esc-drop (suc n) (b ∷ c ∷ rest) h = ends_in_esc-drop n (c ∷ rest) h

drop_within : (n : ℕ) (xs ys : Bytes) → n ≤ length xs → drop n (xs ++ ys) ≡ drop n xs ++ ys
drop_within zero xs ys h = refl
drop_within (suc n) [] ys h = absurd (omega arith)
drop_within (suc n) (x ∷ xs) ys h = drop_within n xs ys (omega arith)

take_within : (n : ℕ) (xs ys : Bytes) → n ≤ length xs → take n (xs ++ ys) ≡ take n xs
take_within zero xs ys h = refl
take_within (suc n) [] ys h = absurd (omega arith)
take_within (suc n) (x ∷ xs) ys h = ap (λ t. x ∷ t) (take_within n xs ys (omega arith))

-- More bytes behind do not change a turn.
IsTurn-append :
    (bytes ys out : Bytes) (used : ℕ)
    → ends_in_esc bytes ≡ false
    → IsTurn bytes out used
    → IsTurn (bytes ++ ys) out used
IsTurn-append _ ys _ _ h (plain b rest other) = plain b (rest ++ ys) other
IsTurn-append _ ys _ _ h last = absurd (ground arith)
IsTurn-append _ ys _ _ h (alone c rest o) = alone c (rest ++ ys) o
IsTurn-append _ ys _ _ h (dropped c rest e o found) =
    dropped c (rest ++ ys) e o (str_end-append 2 rest ys e found)
IsTurn-append _ ys _ _ h (reply c rest e o found) =
    reply c (rest ++ ys) e o (csi_from-append 2 rest ys (e, true) found)
IsTurn-append _ ys _ _ h (passed c rest e o found) =
    let size = csi_from_bounds 2 rest e false found in
    subst (λ t. IsTurn (0x1b ∷ c ∷ (rest ++ ys)) t e)
      (take_within e (0x1b ∷ c ∷ rest) ys (omega (arith, size)))
      (passed c (rest ++ ys) e o (csi_from-append 2 rest ys (e, false) found))

-- What the loop does with bytes, and with these bytes and more behind them.
abbrev Continues : Bytes → Type 0
Continues xs =
    (out : Bytes) × (held : Bytes) × Scans xs out held
    × ((ys out' held' : Bytes)
        → Scans (held ++ ys) out' held'
        → Scans (xs ++ ys) (out ++ out') held')

scan-Continues : (n : ℕ) (xs : Bytes) → length xs ≤ n → ends_in_esc xs ≡ false → Continues xs
scan-Continues n [] h end = ([], [], Scans-nil, λ ys out' held' go. go)
scan-Continues zero (b ∷ xs) h end = absurd (omega arith)
scan-Continues (suc n) (b ∷ xs) h end = elim (turn-cases b xs) [
  | inl stop ↦ ([], b ∷ xs, Scans-hold b xs stop, λ ys out' held' go. go)
  | inr (o, used, t) ↦
      let size = IsTurn-bounds (b ∷ xs) o used t in
      let (out, held, go, more) =
        scan-Continues n (drop used (b ∷ xs)) (omega (arith, size, length-drop used (b ∷ xs)))
          (ends_in_esc-drop used (b ∷ xs) end) in
      (
        o ++ out,
        held,
        Scans-turn b xs o out held used t go,
        λ ys out' held' rest.
            subst (λ t. Scans ((b ∷ xs) ++ ys) t held') (sym (append_assoc o out out'))
              (Scans-turn b (xs ++ ys) o (out ++ out') held' used
                (IsTurn-append (b ∷ xs) ys o used end t)
                (subst (λ t. Scans t (out ++ out') held')
                  (sym (drop_within used (b ∷ xs) ys size.1)) (more ys out' held' rest))),
      )
]

-- The filter after a read that left `held`.
abbrev pub kept : ℕ → Bytes → InputFilter
kept now held =
    let taken : InputFilter = record {
      pending = [];
      pending_since = none;
      injected = [];
      ready = [];
    } in
    if is_empty held then taken else hold now held taken

pub feed_lem :
    (now : ℕ) (input out held : Bytes) (f : InputFilter)
    → Scans (f.injected ++ (f.pending ++ input)) out held
    → feed now input f ≡ some (kept now held, f.ready ++ out)
unfolding feed
feed_lem now input out held f go =
    some_step _ _ (go (length (f.injected ++ (f.pending ++ input))) (omega arith)) refl

kept-pending :
    (now : ℕ) (held : Bytes)
    → ((kept now held).pending ≡ held)
      × ((kept now held).injected ≡ [])
      × ((kept now held).ready ≡ [])
unfolding hold
kept-pending now [] = (refl, refl, refl)
kept-pending now (b ∷ held) = (refl, refl, refl)

-- Two reads, one after the other, leave the filter as one read of both at the later time does, and
-- the outputs of the two in turn are the output of the one, unless what the first read has to look
-- at (the injected bytes, the held ones, then its own) ends in an ESC.
pub feed-append :
    (now later : ℕ) (xs ys : Bytes) (f : InputFilter)
    → ends_in_esc (f.injected ++ (f.pending ++ xs)) ≡ false
    → (f1 : InputFilter) × (f2 : InputFilter) × (out1 : Bytes) × (out2 : Bytes) × (feed now xs f
        ≡ some (f1, out1))
      × (feed later ys f1 ≡ some (f2, out2))
      × (feed later (xs ++ ys) f ≡ some (f2, out1 ++ out2))
feed-append now later xs ys f end =
    let first = f.injected ++ (f.pending ++ xs) in
    let (out, held, go, more) = scan-Continues (length first) first (omega arith) end in
    let (out', held', go') = scan-Scans (held ++ ys) in
    let shape = kept-pending now held in
    let whole : first ++ ys ≡ f.injected ++ (f.pending ++ (xs ++ ys)) =
      append_assoc f.injected (f.pending ++ xs) ys
      ∙ ap (λ t. f.injected ++ t) (append_assoc f.pending xs ys) in
    let next : held ++ ys ≡ (kept now held).injected ++ ((kept now held).pending ++ ys) =
      ap₂ (λ a b. a ++ (b ++ ys)) (sym shape.1) (sym shape.0) in
    (
      kept now held,
      kept later held',
      f.ready ++ out,
      out',
      feed_lem now xs out held f go,
      feed_lem later ys out' held' (kept now held) (subst (λ t. Scans t out' held') next go')
          ∙ ap (λ t. some (kept later held', t ++ out')) shape.2,
      feed_lem later (xs ++ ys) (out ++ out') held' f
            (subst (λ t. Scans t (out ++ out') held') whole (more ys out' held' go'))
          ∙ ap (λ t. some (kept later held', t)) (sym (append_assoc f.ready out out')),
    )
