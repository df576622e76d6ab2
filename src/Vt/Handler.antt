-- ===== src/Vt/Handler.antt =====
-- src/vt/mod.rs: the state of `VtHandler` and the helpers of its callbacks. `none` is a
-- panic. A byte or a character is its number.
use lrmux.Base.{◌>>=◌}
use lrmux.Base.{
  to_decimal, ℕ, zero, suc, ◌+◌, ◌-◌, ◌/◌, ◌%◌, Bool, true, false, ◌&&◌, ◌||◌, ltb, ◌==◌,
}
use lrmux.Base.{if◌then◌else◌, Option, none, some, List, [], ◌∷◌, ◌++◌, get_elem?}
use lrmux.Grid.Cell.{Cell}
use lrmux.Grid.Screen.{Grid, print, move_cursor}

pub data PendingReply : Type 0 where
  bytes : List ℕ → PendingReply
  osc : ℕ → Bool → PendingReply

pub record VtHandler : Type 0 where
  pub grid : Grid
  pub replies : List PendingReply

-- A signed `i32`.
pub data ℤ : Type 0 where
  pos : ℕ → ℤ
  negsuc : ℕ → ℤ

-- `(a as i32 + d).max(0) as usize`, for a grid of less than 2^31 rows and columns less 65536.
abbrev pub add_clamped : ℕ → ℤ → ℕ
add_clamped a (pos n) = a + n
add_clamped a (negsuc n) = a - (n + 1)

-- `-(n as i32)`
abbrev pub negate : ℕ → ℤ
negate zero = pos 0
negate (suc n) = negsuc n

unfoldable pub move_cursor_rel : ℤ → ℤ → Grid → Grid
move_cursor_rel drow dcol g =
    move_cursor (add_clamped g.cursor_row drow) (add_clamped g.cursor_col dcol) g

-- `param(idx, default)` and `param1(idx)`.
abbrev pub param : List ℕ → ℕ → ℕ → ℕ
param p idx default = elim (get_elem? p idx) [ some v ↦ v | none ↦ default ]

abbrev pub param1 : List ℕ → ℕ → ℕ
param1 p idx = let v = param p idx 1 in if v == 0 then 1 else v

-- `x |= bit` and `x &= !bit`, for one bit.
abbrev pub set_bit : ℕ → ℕ → ℕ
set_bit x bit = if (x / bit) % 2 == 1 then x else x + bit

abbrev pub clear_bit : ℕ → ℕ → ℕ
clear_bit x bit = if (x / bit) % 2 == 1 then x - bit else x

-- One turn of the loop of 'h', and of 'l'.
abbrev pub set_mode : ℕ → Grid → Grid
set_mode m g = record g {
  app_cursor_keys = if m == 1 then true else g.app_cursor_keys;
  auto_wrap = if m == 7 then true else g.auto_wrap;
  cursor_visible = if m == 25 then true else g.cursor_visible;
  mouse_tracking =
      if m == 1000
      then set_bit g.mouse_tracking 1
      else if m == 1002
      then set_bit g.mouse_tracking 2
      else if m == 1003
      then set_bit g.mouse_tracking 4
      else g.mouse_tracking;
  mouse_fmt = if m == 1005 then 5 else if m == 1006 then 6 else g.mouse_fmt;
  mouse_altscroll = if m == 1007 then true else g.mouse_altscroll;
}

abbrev pub reset_mode : ℕ → Grid → Grid
reset_mode m g = record g {
  app_cursor_keys = if m == 1 then false else g.app_cursor_keys;
  auto_wrap = if m == 7 then false else g.auto_wrap;
  cursor_visible = if m == 25 then false else g.cursor_visible;
  mouse_tracking =
      if m == 1000
      then clear_bit g.mouse_tracking 1
      else if m == 1002
      then clear_bit g.mouse_tracking 2
      else if m == 1003
      then clear_bit g.mouse_tracking 4
      else g.mouse_tracking;
  mouse_fmt = if m == 1005 || m == 1006 then 0 else g.mouse_fmt;
  mouse_altscroll = if m == 1007 then false else g.mouse_altscroll;
}

unfoldable pub set_modes : List ℕ → Grid → Grid
set_modes [] g = g
set_modes (m ∷ p) g = set_modes p (set_mode m g)

unfoldable pub reset_modes : List ℕ → Grid → Grid
reset_modes [] g = g
reset_modes (m ∷ p) g = reset_modes p (reset_mode m g)

-- `for _ in 0..n { self.grid.print(ch) }`
unfoldable pub print_times : ℕ → ℕ → Grid → Option Grid
print_times zero ch g = some g
print_times (suc n) ch g = do g' ← print ch g; print_times n ch g'

unfoldable pub cell : ℕ → ℕ → Grid → Option Cell
cell row col g = do r ← get_elem? g.rows row; get_elem? r col

-- The body of 'b', once the cell is looked up.
abbrev pub repeat_cell : ℕ → Grid → Option Cell → Option Grid
repeat_cell n g none = some g
repeat_cell n g (some c) = print_times n c.ch g

-- 'b': the character in front of the cursor is printed again.
unfoldable pub repeat : ℕ → Grid → Option Grid
repeat n g =
    if ltb 0 n && ltb 0 g.cursor_col
    then repeat_cell n g (cell g.cursor_row (g.cursor_col - 1) g)
    else some g

-- `format!("\x1b[{row};{col}R")`; a `usize` has at most twenty digits.
abbrev pub cursor_report : ℕ → ℕ → List ℕ
cursor_report row col = 0x1b ∷ 0x5b ∷ (to_decimal 20 row ++ 0x3b ∷ (to_decimal 20 col ++ 0x52 ∷ []))
