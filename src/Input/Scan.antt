-- ===== src/Input/Scan.antt =====
-- The loop of `feed` (src/client/input_filter.rs): each turn uses up a byte at least, so it ends.
use lrmux.Base.{
  ℕ, zero, suc, ◌+◌, ◌≤◌, ◌≡◌, refl, arith, Bool, true, false, ◌==◌, none, some, [], ◌∷◌, ◌++◌,
  length, take, drop, Option-cases, inl, inr, length-drop, Bool-cases, ◌⊎◌, ==→≡,
}
use lrmux.Input.Filter.{
  Bytes, str_end, str_seq_end, csi_from, csi_end, Opener, string, csi, key, opener_of, turn, scan,
}

-- An end that is found lies behind the offset and not behind the bytes.
pub str_end_bounds :
    (i : ℕ) (bytes : Bytes) (e : ℕ) → str_end i bytes ≡ some e → (i ≤ e) × (e ≤ i + length bytes)
unfolding str_end
str_end_bounds i [] e h = cc
str_end_bounds i (b ∷ []) e h = ground arith
str_end_bounds i (b ∷ c ∷ rest) e h = ground (arith, str_end_bounds (i + 1) (c ∷ rest) e)

pub csi_from_bounds :
    (i : ℕ) (bytes : Bytes) (e : ℕ) (reply : Bool)
    → csi_from i bytes ≡ some (e, reply)
    → (i ≤ e) × (e ≤ i + length bytes)
unfolding csi_from
csi_from_bounds i [] e reply h = cc
csi_from_bounds i (b ∷ rest) e reply h = ground (arith, csi_from_bounds (i + 1) rest e reply)

-- More bytes behind do not move an end that is found.
pub str_end-append :
    (i : ℕ) (bytes ys : Bytes) (e : ℕ) → str_end i bytes ≡ some e → str_end i (bytes ++ ys) ≡ some e
unfolding str_end
str_end-append i [] ys e h = cc
str_end-append i (b ∷ []) ys e h = ground arith
str_end-append i (b ∷ c ∷ rest) ys e h = ground (arith, str_end-append (i + 1) (c ∷ rest) ys e)

pub csi_from-append :
    (i : ℕ) (bytes ys : Bytes) (found : ℕ × Bool)
    → csi_from i bytes ≡ some found
    → csi_from i (bytes ++ ys) ≡ some found
unfolding csi_from
csi_from-append i [] ys found h = cc
csi_from-append i (b ∷ rest) ys found h = ground (arith, csi_from-append (i + 1) rest ys found)

-- What one turn does, as the cases of its match.
pub data IsTurn : Bytes → Bytes → ℕ → Type 0 where
  plain : (b : ℕ) (rest : Bytes) → (b == 0x1b) ≡ false → IsTurn (b ∷ rest) (b ∷ []) 1
  last : IsTurn (0x1b ∷ []) (0x1b ∷ []) 1
  alone : (c : ℕ) (rest : Bytes) → opener_of c ≡ key → IsTurn (0x1b ∷ c ∷ rest) (0x1b ∷ []) 1
  dropped :
      (c : ℕ) (rest : Bytes) (e : ℕ)
      → opener_of c ≡ string
      → str_end 2 rest ≡ some e
      → IsTurn (0x1b ∷ c ∷ rest) [] e
  reply :
      (c : ℕ) (rest : Bytes) (e : ℕ)
      → opener_of c ≡ csi
      → csi_from 2 rest ≡ some (e, true)
      → IsTurn (0x1b ∷ c ∷ rest) [] e
  passed :
      (c : ℕ) (rest : Bytes) (e : ℕ)
      → opener_of c ≡ csi
      → csi_from 2 rest ≡ some (e, false)
      → IsTurn (0x1b ∷ c ∷ rest) (take e (0x1b ∷ c ∷ rest)) e

pub turn-IsTurn :
    (bytes out : Bytes) (used : ℕ) → IsTurn bytes out used → turn bytes ≡ some (out, used)
unfolding turn str_seq_end csi_end
turn-IsTurn bytes out used (plain b [] h) = refl
turn-IsTurn bytes out used (plain b (c ∷ rest) h) = ground arith
turn-IsTurn bytes out used last = refl
turn-IsTurn bytes out used (alone c rest h) = ground arith
turn-IsTurn bytes out used (dropped c rest e h found) = ground arith
turn-IsTurn bytes out used (reply c rest e h found) = ground arith
turn-IsTurn bytes out used (passed c rest e h found) = ground arith

string_cases :
    (c : ℕ) (rest : Bytes)
    → opener_of c ≡ string
    → (turn (0x1b ∷ c ∷ rest) ≡ none)
      ⊎ ((out : Bytes) × (used : ℕ) × IsTurn (0x1b ∷ c ∷ rest) out used)
unfolding turn str_seq_end
string_cases c rest h = elim (Option-cases (str_end 2 rest)) [
  | inl unended ↦ inl (ground arith)
  | inr (e, found) ↦ inr ([], e, dropped c rest e h found)
]

csi_cases :
    (c : ℕ) (rest : Bytes)
    → opener_of c ≡ csi
    → (turn (0x1b ∷ c ∷ rest) ≡ none)
      ⊎ ((out : Bytes) × (used : ℕ) × IsTurn (0x1b ∷ c ∷ rest) out used)
unfolding turn csi_end
csi_cases c rest h = elim (Option-cases (csi_from 2 rest)) [
  | inl unended ↦ inl (ground arith)
  | inr ((e, true), found) ↦ inr ([], e, reply c rest e h found)
  | inr ((e, false), found) ↦ inr (_, e, passed c rest e h found)
]

opener_cases : (o : Opener) → (o ≡ string) ⊎ ((o ≡ csi) ⊎ (o ≡ key))
opener_cases string = inl refl
opener_cases csi = inr (inl refl)
opener_cases key = inr (inr refl)

esc_cases :
    (rest : Bytes)
    → (turn (0x1b ∷ rest) ≡ none) ⊎ ((out : Bytes) × (used : ℕ) × IsTurn (0x1b ∷ rest) out used)
esc_cases [] = inr (_, 1, last)
esc_cases (c ∷ rest) = elim (opener_cases (opener_of c)) [
  | inl h ↦ string_cases c rest h
  | inr (inl h) ↦ csi_cases c rest h
  | inr (inr h) ↦ inr (_, 1, alone c rest h)
]

-- A turn that does not hold the bytes is one of these.
pub turn-cases :
    (b : ℕ) (bytes : Bytes)
    → (turn (b ∷ bytes) ≡ none) ⊎ ((out : Bytes) × (used : ℕ) × IsTurn (b ∷ bytes) out used)
turn-cases b bytes = elim (Bool-cases (b == 0x1b)) [
  | inr other ↦ inr (b ∷ [], 1, plain b bytes other)
  | inl esc ↦ rw (==→≡ b 0x1b esc) (esc_cases bytes)
]

-- A turn uses up a byte at least, and no more than there are.
pub IsTurn-bounds :
    (bytes out : Bytes) (used : ℕ) → IsTurn bytes out used → (1 ≤ used) × (used ≤ length bytes)
IsTurn-bounds _ _ _ (plain b rest h) = (omega arith, omega arith)
IsTurn-bounds _ _ _ last = (omega arith, omega arith)
IsTurn-bounds _ _ _ (alone c rest h) = (omega arith, omega arith)
IsTurn-bounds _ _ _ (dropped c rest e h found) =
    let b = str_end_bounds 2 rest e found in (omega (arith, b), omega (arith, b))
IsTurn-bounds _ _ _ (reply c rest e h found) =
    let b = csi_from_bounds 2 rest e true found in (omega (arith, b), omega (arith, b))
IsTurn-bounds _ _ _ (passed c rest e h found) =
    let b = csi_from_bounds 2 rest e false found in (omega (arith, b), omega (arith, b))

-- With a byte of fuel for each byte left, the loop emits `out` and holds `held`.
abbrev pub Scans : Bytes → Bytes → Bytes → Type 0
Scans bytes out held = (fuel : ℕ) → length bytes ≤ fuel → scan fuel bytes ≡ some (out, held)

pub Scans-nil : Scans [] [] []
unfolding scan
Scans-nil zero h = refl
Scans-nil (suc fuel) h = refl

pub Scans-hold :
    (b : ℕ) (bytes : Bytes) → turn (b ∷ bytes) ≡ none → Scans (b ∷ bytes) [] (b ∷ bytes)
unfolding scan
Scans-hold b bytes stop zero h = absurd (omega arith)
Scans-hold b bytes stop (suc fuel) h = ground (arith, stop)

pub Scans-turn :
    (b : ℕ) (bytes o out held : Bytes) (used : ℕ)
    → IsTurn (b ∷ bytes) o used
    → Scans (drop used (b ∷ bytes)) out held
    → Scans (b ∷ bytes) (o ++ out) held
unfolding scan
Scans-turn b bytes o out held used t go zero h = absurd (omega arith)
Scans-turn b bytes o out held used t go (suc fuel) h =
    let size = IsTurn-bounds (b ∷ bytes) o used t in
    ground (
      arith,
      turn-IsTurn (b ∷ bytes) o used t,
      go fuel (omega (arith, size, length-drop used (b ∷ bytes))),
    )

-- The loop ends, whatever the bytes.
scan_total :
    (n : ℕ) (bytes : Bytes)
    → length bytes ≤ n
    → (out : Bytes) × (held : Bytes) × Scans bytes out held
scan_total n [] h = ([], [], Scans-nil)
scan_total zero (b ∷ bytes) h = absurd (omega arith)
scan_total (suc n) (b ∷ bytes) h = elim (turn-cases b bytes) [
  | inl stop ↦ ([], b ∷ bytes, Scans-hold b bytes stop)
  | inr (o, used, t) ↦
      let size = IsTurn-bounds (b ∷ bytes) o used t in
      let (out, held, go) =
        scan_total n (drop used (b ∷ bytes)) (omega (arith, size, length-drop used (b ∷ bytes))) in
      (o ++ out, held, Scans-turn b bytes o out held used t go)
]

pub scan-Scans : (bytes : Bytes) → (out : Bytes) × (held : Bytes) × Scans bytes out held
scan-Scans bytes = scan_total (length bytes) bytes (omega arith)
