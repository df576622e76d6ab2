-- ===== src/Grid/Cell.antt =====
-- src/grid/cell.rs: a cell of the screen.
use lrmux.Base.{ℕ, Bool, false}

pub data Color : Type 0 where
  default : Color
  indexed : ℕ → Color
  rgb : ℕ → ℕ → ℕ → Color

pub record Attr : Type 0 where
  pub bold : Bool
  pub italic : Bool
  pub underline : Bool
  pub reverse : Bool

-- `ch` is the code point.
pub record Cell : Type 0 where
  pub ch : ℕ
  pub fg : Color
  pub bg : Color
  pub attrs : Attr

-- `Attr::default()`, and `Cell::blank()`, which is `Cell::default()`: its character is NUL.
abbrev pub plain : Attr
plain = record { bold = false; italic = false; underline = false; reverse = false }

abbrev pub blank : Cell
blank = record { ch = 0; fg = default; bg = default; attrs = plain }
