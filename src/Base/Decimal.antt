-- ===== src/Base/Decimal.antt =====
-- Numbers as text: `format!("{n}")` and `format!("{n:04x}")`, as lists of bytes.
use Prim.Native.Nat.{ℕ, zero, suc, ◌+◌, ◌/◌, ◌%◌}
use mathlib.Core.List.{List, [], ◌∷◌, ◌++◌}
use lrmux.Base.Tests.{ltb, if◌then◌else◌}

-- The decimal digits of a number; `n` turns are enough for a number below 10 ^ n.
unfoldable pub to_decimal : ℕ → ℕ → List ℕ
to_decimal zero n = []
to_decimal (suc turns) n =
    let low = (48 + n % 10) ∷ [] in if ltb n 10 then low else to_decimal turns (n / 10) ++ low

abbrev pub hex_digit : ℕ → ℕ
hex_digit n = if ltb n 10 then 48 + n else 87 + n

-- The four hexadecimal digits of a `u16`.
abbrev pub to_hex4 : ℕ → List ℕ
to_hex4 n =
    hex_digit (n / 4096 % 16)
    ∷ hex_digit (n / 256 % 16)
    ∷ hex_digit (n / 16 % 16)
    ∷ hex_digit (n % 16)
    ∷ []
