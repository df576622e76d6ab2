-- ===== src/Base/Words.antt =====
-- Rust's operators on `u16`, with the wrap of a release build written out.
use Prim.Native.Nat.{ℕ, ◌+◌, ◌%◌, ◌<◌, min}

abbrev pub IsU8 : ℕ → Type 0
IsU8 n = n < 256

abbrev pub IsU16 : ℕ → Type 0
IsU16 n = n < 65536

abbrev pub IsU32 : ℕ → Type 0
IsU32 n = n < 4294967296

-- `a + b` on `u16`.
abbrev pub add16 : ℕ → ℕ → ℕ
add16 a b = (a + b) % 65536

-- `a.saturating_add(b)` on `u16`.
abbrev pub sat_add16 : ℕ → ℕ → ℕ
sat_add16 a b = min (a + b) 65535
