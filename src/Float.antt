-- ===== src/Float.antt =====
-- The operations on `f64` that the layout (src/layout/mod.rs) uses, with no law assumed: a theorem that needs one names
-- it. `round_u16 x` is `x.round() as u16`, and
-- `ceil_usize x` is `x.ceil() as usize`.
use lrmux.Base.{ℕ}

pub record Float (R : Type 0) : Type 0 where
  pub of_int : ℕ → R
  pub mul : R → R → R
  pub div : R → R → R
  pub sqrt : R → R
  pub clamp : R → R → R → R
  pub round_u16 : R → ℕ
  pub ceil_usize : R → ℕ
