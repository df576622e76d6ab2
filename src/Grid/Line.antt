-- ===== src/Grid/Line.antt =====
-- src/grid/mod.rs: the operations inside a line, the erasing of lines, and `resize`. As in Screen, `none`
-- is a panic.
use lrmux.Base.{◌>>=◌}
use lrmux.Base.{
  ℕ, zero, suc, ◌+◌, ◌-◌, min, true, false, ltb, leb, ◌==◌, if◌then◌else◌, Option, none, some,
}
use lrmux.Base.{List, [], ◌∷◌, ◌++◌, length, get_elem?, set, take, replicate, map}
use lrmux.Grid.Cell.{blank}
use lrmux.Grid.Slice.{rotate_left, rotate_right}
use lrmux.Grid.Scrollback
use lrmux.Grid.Screen.{Row, Grid, blank_row, mark_dirty, on_slice}

-- `fill(Cell::blank())`
abbrev pub blank_all : Row → Row
blank_all row = replicate (length row) blank

-- `Vec::resize`
abbrev pub resize_to {ℓ} : {A : Type ℓ} → ℕ → A → List A → List A
resize_to n v xs = take n xs ++ replicate (n - length xs) v

-- The end of `insert_chars`, `delete_chars` and `erase_chars`: the row of the cursor is stored.
abbrev pub put_line : Row → Grid → Grid
put_line row g =
    mark_dirty g.cursor_row (record g { rows = set g.rows g.cursor_row row; wrap_pending = false })

-- On a row with the cursor in it: `row[ccol..].rotate_right(n)`, and the first `n` of these cells blanked.
unfoldable pub insert_cells : ℕ → ℕ → Row → Option Row
insert_cells ccol n row = do
  moved ← on_slice ccol (length row) (rotate_right n) row
  on_slice ccol (ccol + n) blank_all moved

-- `row[ccol..].rotate_left(n)`, and the last `n` cells of the row blanked.
unfoldable pub delete_cells : ℕ → ℕ → Row → Option Row
delete_cells ccol n row = do
  moved ← on_slice ccol (length row) (rotate_left n) row
  on_slice (length moved - n) (length moved) blank_all moved

-- The guards that `insert_chars` and `delete_chars` share.
unfoldable pub shift_chars : (ℕ → ℕ → Row → Option Row) → ℕ → Grid → Option Grid
shift_chars f n0 g = elim (get_elem? g.rows g.cursor_row) [
  | none ↦ some g
  | some row ↦
      let n = min n0 (length row - g.cursor_col) in
      let shifted = (do row' ← f g.cursor_col n row; some (put_line row' g)) in
      if leb (length row) g.cursor_col then some g else if n == 0 then some g else shifted
]

unfoldable pub insert_chars : ℕ → Grid → Option Grid
insert_chars n g = shift_chars insert_cells n g

unfoldable pub delete_chars : ℕ → Grid → Option Grid
delete_chars n g = shift_chars delete_cells n g

unfoldable pub erase_chars : ℕ → Grid → Option Grid
erase_chars n g = elim (get_elem? g.rows g.cursor_row) [
  | none ↦ some g
  | some row ↦
      let ending = min (g.cursor_col + n) (length row) in
      let erased = (do row' ← on_slice g.cursor_col ending blank_all row; some (put_line row' g)) in
      if leb (length row) g.cursor_col then some g else erased
]

unfoldable pub erase_to_end_of_line : Grid → Option Grid
erase_to_end_of_line g = elim (get_elem? g.rows g.cursor_row) [
  | none ↦ some (mark_dirty g.cursor_row g)
  | some row ↦ do
    row' ← on_slice (min g.cursor_col (length row)) (length row) blank_all row
    some (mark_dirty g.cursor_row (record g { rows = set g.rows g.cursor_row row' }))
]

unfoldable pub erase_to_cursor : Grid → Option Grid
erase_to_cursor g = elim (get_elem? g.rows g.cursor_row) [
  | none ↦ some (mark_dirty g.cursor_row g)
  | some row ↦
      let erased = (do
        row' ← on_slice 0 (min g.cursor_col (length row - 1) + 1) blank_all row
        some (mark_dirty g.cursor_row (record g { rows = set g.rows g.cursor_row row' }))) in
      if length row == 0 then some g else erased
]

-- `row.fill(Cell::blank())` on row `i`, if there is one, and `mark_dirty(i)`.
unfoldable pub clear_row : ℕ → Grid → Grid
clear_row i g = elim (get_elem? g.rows i) [
  | none ↦ mark_dirty i g
  | some row ↦ mark_dirty i (record g { rows = set g.rows i (blank_all row) })
]

-- `for i in i..i + n`
unfoldable pub clear_rows : ℕ → ℕ → Grid → Grid
clear_rows zero i g = g
clear_rows (suc n) i g = clear_rows n (i + 1) (clear_row i g)

unfoldable pub erase_line : Grid → Grid
erase_line g = clear_row g.cursor_row g

unfoldable pub erase_to_end_of_screen : Grid → Option Grid
erase_to_end_of_screen g = do
  g' ← erase_to_end_of_line g
  some (clear_rows (g'.row_count - (g'.cursor_row + 1)) (g'.cursor_row + 1) g')

unfoldable pub erase_to_start_of_screen : Grid → Option Grid
erase_to_start_of_screen g = do g' ← erase_to_cursor g; some (clear_rows g'.cursor_row 0 g')

unfoldable pub erase_screen : Grid → Grid
erase_screen g = clear_rows g.row_count 0 g

-- The loop of `resize` that takes `n` rows off the bottom.
unfoldable pub pop_rows : ℕ → Grid → Option Grid
pop_rows zero g = some g
pop_rows (suc n) g = elim (get_elem? g.rows (length g.rows - 1)) [
  | none ↦ none
  | some row ↦ elim (Scrollback.push g.scrollback row) [
    | none ↦ none
    | some history ↦ pop_rows n (record g {
      rows = take (length g.rows - 1) g.rows;
      scrollback = history;
      pending_scrollback = g.pending_scrollback ++ row ∷ [];
    })
  ]
]

-- The first part of `resize`: rows are added or taken at the bottom.
unfoldable pub fit_rows : ℕ → ℕ → Grid → Option Grid
fit_rows rows cols g =
    if ltb g.row_count rows
    then some (record g { rows = g.rows ++ replicate (rows - g.row_count) (blank_row cols) })
    else pop_rows (g.row_count - rows) g

unfoldable pub resize : ℕ → ℕ → Grid → Option Grid
resize rows cols g = do
  g' ← fit_rows rows cols g
  some (record g' {
    rows = map (resize_to cols blank) g'.rows;
    row_count = rows;
    cols = cols;
    scroll_top = 0;
    scroll_bottom = rows;
    dirty = map (λ d. true) (resize_to rows true g'.dirty);
    cursor_row = min g'.cursor_row (rows - 1);
    cursor_col = min g'.cursor_col (cols - 1);
    wrap_pending = false;
  })
