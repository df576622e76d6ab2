-- ===== src/Vt/Safe.antt =====
-- The callbacks of src/vt/mod.rs against the well-formedness of a grid.
use lrmux.Base.{some_step}
use lrmux.Base.{
  ℕ, zero, suc, ◌+◌, ◌-◌, ◌<◌, ◌≡◌, ◌⊎◌, inl, inr, refl, arith, Option, none, some, List, [], ◌∷◌,
}
use lrmux.Base.{Bool, true, false, leb, ◌==◌, if◌then◌else◌, Bool-cases}
use lrmux.Grid.Screen.{Grid, move_cursor, carriage_return}
use lrmux.Grid.Screen.{set_scroll_region, reset_scroll_region}
use lrmux.Grid.Valid.{IsShape, IsValid, IsSafe, KeepsShape}
use lrmux.Grid.Rows.{
  scroll_up-KeepsShape, scroll_down-KeepsShape, insert_lines-KeepsShape, delete_lines-KeepsShape,
}
use lrmux.Grid.Cursor.{move_cursor-IsValid, carriage_return-IsValid, backspace-IsValid, tab-IsValid}
use lrmux.Grid.Cursor.{
  line_feed-IsSafe, print-IsSafe, set_scroll_region-IsValid, reset_scroll_region-IsValid,
}
use lrmux.Grid.Cursor.{save_cursor-IsValid, restore_cursor-IsValid}
use lrmux.Grid.Cells.{
  insert_chars-IsSafe, delete_chars-IsSafe, erase_chars-IsSafe, erase_to_end_of_line-IsSafe,
}
use lrmux.Grid.Cells.{erase_to_cursor-IsSafe, erase_line-IsValid, erase_screen-IsValid}
use lrmux.Grid.Cells.{erase_to_end_of_screen-IsSafe, erase_to_start_of_screen-IsSafe}
use lrmux.Vt.Sgr.{set_sgr}
use lrmux.Vt.Handler.{
  VtHandler, ℤ, pos, negate, negsuc, move_cursor_rel, param, param1, set_modes, reset_modes,
}
use lrmux.Vt.Handler.{set_mode, reset_mode, print_times, repeat, repeat_cell, cell}
use lrmux.Grid.Cell.{Cell}
use lrmux.Vt.Dispatch.{
  Csi, cuu, cud, cuf, cub, cnl, cpl, cha, cup, vpa, ed, el, sgr, su, sd, il, dl, ich,
}
use lrmux.Vt.Dispatch.{
  dch, ech, decstbm, sm, rm, scp, rcp, rep, dsr, da, other, csi_of, csi_grid, set_margins,
}
use lrmux.Vt.Dispatch.{
  erase_display, erase_in_line, csi_dispatch, execute, esc_dispatch, Callback, perform,
}
use lrmux.Vt.Dispatch.{print_call, execute_call, osc_call, csi_call, esc_call, flatten}

if-IsValid : (b : Bool) (g h : Grid) → IsValid g → IsValid h → IsValid (if b then g else h)
if-IsValid true g h vg vh = vg
if-IsValid false g h vg vh = vh

if-IsSafe : (b : Bool) (o p : Option Grid) → IsSafe o → IsSafe p → IsSafe (if b then o else p)
if-IsSafe true o p ho hp = ho
if-IsSafe false o p ho hp = hp

done : (g : Grid) → IsValid g → IsSafe (some g)
done g v = (g, refl, v)

-- An operation that keeps the shape and the place of the cursor.
shape-IsSafe : (g : Grid) (o : Option Grid) → IsValid g → KeepsShape g o → IsSafe o
shape-IsSafe g o v (h, run, shape, same) =
    (h, run, (shape, omega (arith, same, v.1), omega (arith, same, v.2)))

set_sgr-IsValid : (params : List (List ℕ)) (g : Grid) → IsValid g → IsValid (set_sgr params g)
unfolding set_sgr
set_sgr-IsValid params g v = (
  record {
    screen = v.0.screen;
    size = v.0.size;
    region = v.0.region;
    history = v.0.history;
    marks = v.0.marks;
  },
  v.1,
  v.2,
)

set_modes-IsValid : (p : List ℕ) (g : Grid) → IsValid g → IsValid (set_modes p g)
unfolding set_modes
set_modes-IsValid [] g v = v
set_modes-IsValid (m ∷ p) g v =
    let s : IsShape (set_mode m g) = record {
      screen = v.0.screen;
      size = v.0.size;
      region = v.0.region;
      history = v.0.history;
      marks = v.0.marks;
    } in
    set_modes-IsValid p (set_mode m g) (s, v.1, v.2)

reset_modes-IsValid : (p : List ℕ) (g : Grid) → IsValid g → IsValid (reset_modes p g)
unfolding reset_modes
reset_modes-IsValid [] g v = v
reset_modes-IsValid (m ∷ p) g v =
    let s : IsShape (reset_mode m g) = record {
      screen = v.0.screen;
      size = v.0.size;
      region = v.0.region;
      history = v.0.history;
      marks = v.0.marks;
    } in
    reset_modes-IsValid p (reset_mode m g) (s, v.1, v.2)

print_times-IsSafe : (n ch : ℕ) (g : Grid) → IsValid g → IsSafe (print_times n ch g)
unfolding print_times
print_times-IsSafe zero ch g v = done g v
print_times-IsSafe (suc n) ch g v =
    let (h, run, vh) = print-IsSafe g v ch in
    let (h', run', vh') = print_times-IsSafe n ch h vh in (h', some_step _ _ run run', vh')

repeat_cell-IsSafe :
    (n : ℕ) (g : Grid) (found : Option Cell) → IsValid g → IsSafe (repeat_cell n g found)
repeat_cell-IsSafe n g none v = done g v
repeat_cell-IsSafe n g (some c) v = print_times-IsSafe n c.ch g v

repeat-IsSafe : (n : ℕ) (g : Grid) → IsValid g → IsSafe (repeat n g)
unfolding repeat
repeat-IsSafe n g v =
    if-IsSafe _ _ _ (repeat_cell-IsSafe n g (cell g.cursor_row (g.cursor_col - 1) g) v) (done g v)

-- The first row of the margins that a DECSTBM sets is on the screen, or it resets them.
abbrev pub IsInside : List ℕ → Grid → Type 0
IsInside p g = (param p 1 0 ≡ 0) ⊎ (param p 0 1 - 1 < g.row_count)

set_margins-IsValid : (p : List ℕ) (g : Grid) → IsValid g → IsInside p g → IsValid (set_margins p g)
unfolding set_margins
set_margins-IsValid p g v h = elim (Bool-cases (param p 1 0 == 0)) [
  | inl reset ↦ rw reset (
      move_cursor-IsValid (reset_scroll_region g) (reset_scroll_region-IsValid g v)
        (param p 0 1 - 1) 0)
  | inr given ↦
      let top = param p 0 1 - 1 in
      let bottom = param p 1 0 in
      rw given (
        move_cursor-IsValid (set_scroll_region top bottom g)
          (set_scroll_region-IsValid g v top bottom (ground arith)) top 0)
]

module _ (g : Grid) (v : IsValid g) where
  move_cursor_rel-IsSafe : (drow dcol : ℤ) → IsSafe (some (move_cursor_rel drow dcol g))
  unfolding move_cursor_rel
  move_cursor_rel-IsSafe drow dcol = done _ (move_cursor-IsValid g v _ _)

  moved : (row col : ℕ) → IsSafe (some (move_cursor row col g))
  moved row col = done _ (move_cursor-IsValid g v row col)

  erase_display-IsSafe : (n : ℕ) → IsSafe (erase_display n g)
  unfolding erase_display
  erase_display-IsSafe n = if-IsSafe _ _ _ (erase_to_end_of_screen-IsSafe g v) (
      if-IsSafe _ _ _ (erase_to_start_of_screen-IsSafe g v)
        (if-IsSafe _ _ _ (done _ (erase_screen-IsValid g v)) (done g v)))

  erase_in_line-IsSafe : (n : ℕ) → IsSafe (erase_in_line n g)
  unfolding erase_in_line
  erase_in_line-IsSafe n = if-IsSafe _ _ _ (erase_to_end_of_line-IsSafe g v) (
      if-IsSafe _ _ _ (erase_to_cursor-IsSafe g v)
        (if-IsSafe _ _ _ (done _ (erase_line-IsValid g v)) (done g v)))

  csi_grid-IsSafe :
      (arm : Csi) (groups : List (List ℕ)) (p marks : List ℕ)
      → (arm ≡ decstbm → IsInside p g)
      → IsSafe (csi_grid arm groups p marks g)
  unfolding csi_grid
  csi_grid-IsSafe cuu groups p marks h = move_cursor_rel-IsSafe (negate (param1 p 0)) (pos 0)
  csi_grid-IsSafe cud groups p marks h = move_cursor_rel-IsSafe (pos (param1 p 0)) (pos 0)
  csi_grid-IsSafe cuf groups p marks h = move_cursor_rel-IsSafe (pos 0) (pos (param1 p 0))
  csi_grid-IsSafe cub groups p marks h = move_cursor_rel-IsSafe (pos 0) (negate (param1 p 0))
  csi_grid-IsSafe cnl groups p marks h = moved (g.cursor_row + param1 p 0) 0
  csi_grid-IsSafe cpl groups p marks h = moved (g.cursor_row - param1 p 0) 0
  csi_grid-IsSafe cha groups p marks h = moved g.cursor_row (param p 0 1 - 1)
  csi_grid-IsSafe cup groups p marks h = moved (param p 0 1 - 1) (param p 1 1 - 1)
  csi_grid-IsSafe vpa groups p marks h = moved (param p 0 1 - 1) g.cursor_col
  csi_grid-IsSafe ed groups p marks h = erase_display-IsSafe (param p 0 0)
  csi_grid-IsSafe el groups p marks h = erase_in_line-IsSafe (param p 0 0)
  csi_grid-IsSafe sgr groups p marks h = done _ (if-IsValid _ _ _ (set_sgr-IsValid groups g v) v)
  csi_grid-IsSafe su groups p marks h = shape-IsSafe g _ v (scroll_up-KeepsShape (param1 p 0) g v.0)
  csi_grid-IsSafe sd groups p marks h =
      shape-IsSafe g _ v (scroll_down-KeepsShape (param1 p 0) g v.0)
  csi_grid-IsSafe il groups p marks h =
      shape-IsSafe g _ v (insert_lines-KeepsShape (param1 p 0) g v.0)
  csi_grid-IsSafe dl groups p marks h =
      shape-IsSafe g _ v (delete_lines-KeepsShape (param1 p 0) g v.0)
  csi_grid-IsSafe ich groups p marks h = insert_chars-IsSafe g v (param1 p 0)
  csi_grid-IsSafe dch groups p marks h = delete_chars-IsSafe g v (param1 p 0)
  csi_grid-IsSafe ech groups p marks h = erase_chars-IsSafe g v (param1 p 0)
  csi_grid-IsSafe decstbm groups p marks h = done _ (set_margins-IsValid p g v (h refl))
  csi_grid-IsSafe sm groups p marks h = done _ (if-IsValid _ _ _ (set_modes-IsValid p g v) v)
  csi_grid-IsSafe rm groups p marks h = done _ (if-IsValid _ _ _ (reset_modes-IsValid p g v) v)
  csi_grid-IsSafe scp groups p marks h = done _ (if-IsValid _ _ _ (save_cursor-IsValid g v) v)
  csi_grid-IsSafe rcp groups p marks h = done _ (if-IsValid _ _ _ (restore_cursor-IsValid g v) v)
  csi_grid-IsSafe rep groups p marks h = repeat-IsSafe (param p 0 1) g v
  csi_grid-IsSafe dsr groups p marks h = done g v
  csi_grid-IsSafe da groups p marks h = done g v
  csi_grid-IsSafe other groups p marks h = done g v

  execute-IsSafe : (byte : ℕ) → IsSafe (execute byte g)
  unfolding execute
  execute-IsSafe byte = if-IsSafe _ _ _ (done _ (backspace-IsValid g v)) (
      if-IsSafe _ _ _ (done _ (tab-IsValid g v)) (
        if-IsSafe _ _ _ (line_feed-IsSafe g v)
          (if-IsSafe _ _ _ (done _ (carriage_return-IsValid g v)) (done g v))))

  esc_dispatch-IsSafe : (byte : ℕ) → IsSafe (esc_dispatch byte g)
  unfolding esc_dispatch
  esc_dispatch-IsSafe byte = if-IsSafe (byte == 0x37) _ _ (done _ (save_cursor-IsValid g v)) (
      if-IsSafe (byte == 0x38) _ _ (done _ (restore_cursor-IsValid g v)) (
        if-IsSafe (byte == 0x4d) _ _
          (if-IsSafe (leb g.cursor_row g.scroll_top) _ _
            (shape-IsSafe g _ v (scroll_down-KeepsShape 1 g v.0))
            (move_cursor_rel-IsSafe (negsuc 0) (pos 0)))
          (if-IsSafe (byte == 0x44) _ _ (line_feed-IsSafe g v) (
            if-IsSafe (byte == 0x45) _ _
              (line_feed-IsSafe (carriage_return g) (carriage_return-IsValid g v)) (done g v)))))

-- A call of the parser that sets no margins outside the screen.
abbrev pub IsAllowed : Callback → Grid → Type 0
IsAllowed (csi_call params marks action) g = csi_of action ≡ decstbm → IsInside (flatten params) g
IsAllowed (print_call c) g = Unit
IsAllowed (execute_call byte) g = Unit
IsAllowed (osc_call params bell) g = Unit
IsAllowed (esc_call byte) g = Unit

-- On a well-formed grid every callback of the parser, save a DECSTBM that sets margins with their
-- first row below the screen, returns with no index out of range and no subtraction below zero,
-- and leaves the grid well formed.
pub perform-IsSafe :
    (call : Callback) (h : VtHandler)
    → IsValid h.grid
    → IsAllowed call h.grid
    → (h' : VtHandler) × (perform call h ≡ some h') × IsValid h'.grid
unfolding perform csi_dispatch
perform-IsSafe (print_call c) h v ok =
    let (g, run, vg) = print-IsSafe h.grid v c in (_, some_step _ _ run refl, vg)
perform-IsSafe (execute_call byte) h v ok =
    let (g, run, vg) = execute-IsSafe h.grid v byte in (_, some_step _ _ run refl, vg)
perform-IsSafe (osc_call params bell) h v ok = (_, refl, v)
perform-IsSafe (csi_call params marks action) h v ok =
    let (g, run, vg) = csi_grid-IsSafe h.grid v (csi_of action) params (flatten params) marks ok in
    (_, some_step _ _ run refl, vg)
perform-IsSafe (esc_call byte) h v ok =
    let (g, run, vg) = esc_dispatch-IsSafe h.grid v byte in (_, some_step _ _ run refl, vg)
