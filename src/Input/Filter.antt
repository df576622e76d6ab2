-- ===== src/Input/Filter.antt =====
-- src/client/input_filter.rs. A slice `&data[i..]` is the list of the bytes left. The time is the number of
-- milliseconds on the clock, an argument of the calls that read it.
use lrmux.Base.{
  ℕ, zero, suc, ◌+◌, ◌-◌, max, Bool, true, false, not, ◌&&◌, ◌||◌, leb, ◌==◌, if◌then◌else◌, Option,
  none, some, List, [], ◌∷◌, ◌++◌, length, take, drop, contains, ◌>>=◌,
}

abbrev pub Bytes : Type 0
Bytes = List ℕ

-- `HOLD`, in milliseconds.
abbrev pub hold_ms : ℕ
hold_ms = 100

-- `b"cntxyR"`
abbrev pub csi_reply_finals : Bytes
csi_reply_finals = 0x63 ∷ 0x6e ∷ 0x74 ∷ 0x78 ∷ 0x79 ∷ 0x52 ∷ []

pub record InputFilter : Type 0 where
  pub pending : Bytes
  pub pending_since : Option ℕ
  pub injected : Bytes
  pub ready : Bytes

unfoldable pub new : InputFilter
new = record { pending = []; pending_since = none; injected = []; ready = [] }

unfoldable pub inject : Bytes → InputFilter → InputFilter
inject bytes f = record f { injected = f.injected ++ bytes }

abbrev pub is_empty : Bytes → Bool
is_empty [] = true
is_empty (b ∷ bytes) = false

unfoldable pub has_staged : InputFilter → Bool
has_staged f = not (is_empty f.injected) || not (is_empty f.ready)

-- The loop of `str_seq_end` from offset `i` on.
unfoldable pub str_end : ℕ → Bytes → Option ℕ
str_end i [] = none
str_end i (b ∷ rest) =
    let later = str_end (i + 1) rest in
    let at_esc : Option ℕ = elim rest [
      | [] ↦ none
      | c ∷ _ ↦ if c == 0x5c then some (i + 2) else some i
    ] in
    if b == 0x07 then some (i + 1) else if b == 0x1b then at_esc else later

unfoldable pub str_seq_end : Bytes → Option ℕ
str_seq_end bytes = str_end 2 (drop 2 bytes)

-- The loop of `csi_end` from offset `i` on.
unfoldable pub csi_from : ℕ → Bytes → Option (ℕ × Bool)
csi_from i [] = none
csi_from i (b ∷ rest) =
    let later = csi_from (i + 1) rest in
    if leb 0x20 b && leb b 0x3f
    then later
    else if leb 0x40 b && leb b 0x7e
    then some (i + 1, contains csi_reply_finals b)
    else some (i, false)

unfoldable pub csi_end : Bytes → Option (ℕ × Bool)
csi_end bytes = csi_from 2 (drop 2 bytes)

-- What the byte behind an ESC starts.
pub data Opener : Type 0 where
  string csi key : Opener

unfoldable pub opener_of : ℕ → Opener
opener_of c =
    if c == 0x5d || c == 0x50 || c == 0x5f || c == 0x5e || c == 0x58
    then string
    else if c == 0x5b
    then csi
    else key

-- One turn of the loop of `feed`: the bytes to emit and how many bytes are used up, or `none` if the
-- bytes left are to be held.
unfoldable pub turn : Bytes → Option (Bytes × ℕ)
turn [] = some ([], 0)
turn (b ∷ []) = some (b ∷ [], 1)
turn (b ∷ c ∷ rest) =
    let bytes = b ∷ c ∷ rest in
    let opened : Option (Bytes × ℕ) = elim (opener_of c) [
      | string ↦ str_seq_end bytes >>= (λ ending. some ([], ending))
      | csi ↦
          csi_end bytes >>= (λ found. some (if found.1 then [] else take found.0 bytes, found.0))
      | key ↦ some (b ∷ [], 1)
    ] in
    if not (b == 0x1b) then some (b ∷ [], 1) else opened

-- The loop of `feed` over the bytes left: the bytes to emit, and the bytes to hold. The first number is
-- fuel, and `none` is its end.
unfoldable pub scan : ℕ → Bytes → Option (Bytes × Bytes)
scan fuel [] = some ([], [])
scan zero (b ∷ bytes) = none
scan (suc fuel) (b ∷ bytes) = elim (turn (b ∷ bytes)) [
  | none ↦ some ([], b ∷ bytes)
  | some (out, used) ↦ scan fuel (drop used (b ∷ bytes)) >>= (λ rest. some (out ++ rest.0, rest.1))
]

-- `hold`, on a filter whose `pending` was taken.
unfoldable pub hold : ℕ → Bytes → InputFilter → InputFilter
hold now bytes f = record f {
  pending_since = elim f.pending_since [ none ↦ some now | some t ↦ some t ];
  pending = f.pending ++ bytes;
}

-- A length of fuel is one for each byte.
unfoldable pub feed : ℕ → Bytes → InputFilter → Option (InputFilter × Bytes)
feed now input f = do
  let bytes = f.injected ++ (f.pending ++ input)
  found ← scan (length bytes) bytes
  let taken : InputFilter = record { pending = []; pending_since = none; injected = []; ready = [] }
  some (if is_empty found.1 then taken else hold now found.1 taken, f.ready ++ found.0)

unfoldable pub flush_expired : ℕ → InputFilter → InputFilter
flush_expired now f = elim f.pending_since [
  | none ↦ f
  | some since ↦
      if leb hold_ms (now - since)
      then record f { pending_since = none; ready = f.ready ++ f.pending; pending = [] }
      else f
]

unfoldable pub hold_remaining_ms : ℕ → InputFilter → Option ℕ
hold_remaining_ms now f = elim f.pending_since [
  | none ↦ none
  | some since ↦ some (max (hold_ms - (now - since)) 1)
]
