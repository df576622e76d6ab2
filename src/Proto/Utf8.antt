-- ===== src/Proto/Utf8.antt =====
-- `String::from_utf8_lossy` of Rust's standard library, which the decoder (src/proto/mod.rs) calls on
-- every text. A `String` is modelled by its bytes.
use lrmux.Base.{ℕ, zero, suc, Bool, true, false, ◌&&◌, ◌||◌, ◌≡◌, refl, arith}
use lrmux.Base.{leb, ltb, ◌==◌, if◌then◌else◌, List, [], ◌∷◌, ◌++◌, length, take, drop}
use lrmux.Base.{take-append-drop}

abbrev pub Bytes : Type 0
Bytes = List ℕ

-- The byte at an index, 0 past the end.
abbrev pub byte_at : Bytes → ℕ → ℕ
byte_at [] i = 0
byte_at (b ∷ bs) zero = b
byte_at (b ∷ bs) (suc i) = byte_at bs i

abbrev pub between : ℕ → ℕ → ℕ → Bool
between low high b = leb low b && leb b high

abbrev pub is_cont : ℕ → Bool
is_cont b = between 0x80 0xbf b

-- Which second bytes may follow the first byte of a character of three or four bytes.
abbrev pub second_of_three : ℕ → ℕ → Bool
second_of_three b n =
    b == 0xe0 && between 0xa0 0xbf n
    || between 0xe1 0xec b && is_cont n
    || b == 0xed && between 0x80 0x9f n
    || between 0xee 0xef b && is_cont n

abbrev pub second_of_four : ℕ → ℕ → Bool
second_of_four b n =
    b == 0xf0 && between 0x90 0xbf n
    || between 0xf1 0xf3 b && is_cont n
    || b == 0xf4 && between 0x80 0x8f n

-- What stands at the start of `b ∷ r`: the length of a character and `true`, or the length of the
-- longest ill-formed part and `false`.
unfoldable pub first_char : ℕ → Bytes → ℕ × Bool
first_char b r =
    if ltb b 0x80
    then (1, true)
    else if between 0xc2 0xdf b
    then (if is_cont (byte_at r 0) then (2, true) else (1, false))
    else if between 0xe0 0xef b
    then (if second_of_three b (byte_at r 0)
        then (if is_cont (byte_at r 1) then (3, true) else (2, false))
        else (1, false))
    else if between 0xf0 0xf4 b
    then (if second_of_four b (byte_at r 0)
        then (if is_cont (byte_at r 1)
            then (if is_cont (byte_at r 2) then (4, true) else (3, false))
            else (2, false))
        else (1, false))
    else (1, false)

-- U+FFFD
abbrev pub replacement : Bytes
replacement = 0xef ∷ 0xbf ∷ 0xbd ∷ []

-- The fuel bounds the number of characters; the number of bytes is enough.
lossy_from : ℕ → Bytes → Bytes
lossy_from fuel [] = []
lossy_from zero (b ∷ r) = []
lossy_from (suc fuel) (b ∷ r) =
    let (n, valid) = first_char b r in
    (if valid then take n (b ∷ r) else replacement) ++ lossy_from fuel (drop n (b ∷ r))

valid_from : ℕ → Bytes → Bool
valid_from fuel [] = true
valid_from zero (b ∷ r) = false
valid_from (suc fuel) (b ∷ r) =
    let (n, valid) = first_char b r in valid && valid_from fuel (drop n (b ∷ r))

unfoldable pub from_utf8_lossy : Bytes → Bytes
unfolding lossy_from
from_utf8_lossy s = lossy_from (length s) s

unfoldable pub is_utf8 : Bytes → Bool
unfolding valid_from
is_utf8 s = valid_from (length s) s

lossy_from-valid : (fuel : ℕ) (s : Bytes) → valid_from fuel s ≡ true → lossy_from fuel s ≡ s
unfolding lossy_from valid_from
lossy_from-valid zero [] h = refl
lossy_from-valid (suc fuel) [] h = refl
lossy_from-valid zero (b ∷ r) h = cc
lossy_from-valid (suc fuel) (b ∷ r) h = ground (
  arith,
  lossy_from-valid fuel (drop (first_char b r).0 (b ∷ r)),
  take-append-drop (first_char b r).0 (b ∷ r),
)

-- Well-formed text is read as it stands.
pub from_utf8_lossy-valid : (s : Bytes) → is_utf8 s ≡ true → from_utf8_lossy s ≡ s
unfolding from_utf8_lossy is_utf8
from_utf8_lossy-valid s h = lossy_from-valid (length s) s h
