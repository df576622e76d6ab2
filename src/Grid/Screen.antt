-- ===== src/Grid/Screen.antt =====
-- src/grid/mod.rs: the grid, its cursor and its scrolling. An operation that can panic returns `none` where
-- it does: an index or a slice out of range, or a subtraction below zero in a debug build.
use lrmux.Base.{◌>>=◌}
use lrmux.Base.{ℕ, zero, suc, ◌+◌, ◌-◌, ◌*◌, ◌/◌, min, max, Bool, true, false, ◌&&◌, ltb, leb, ◌==◌}
use lrmux.Base.{if◌then◌else◌, Option, none, some, List, [], ◌∷◌, ◌++◌, length, get_elem?, set}
use lrmux.Base.{take, drop, replicate}
use lrmux.Grid.Cell.{Color, default, Attr, plain, Cell, blank}
use lrmux.Grid.Slice.{rotate_left, rotate_right}
use lrmux.Grid.Scrollback
use lrmux.Grid.Scrollback.{Scrollback, store}

abbrev pub Row : Type 0
Row = List Cell

pub record Grid : Type 0 where
  pub rows : List Row
  pub cols : ℕ
  pub row_count : ℕ
  pub cursor_row : ℕ
  pub cursor_col : ℕ
  pub cursor_visible : Bool
  pub fg : Color
  pub bg : Color
  pub attrs : Attr
  pub scrollback : Scrollback Row
  pub pending_scrollback : List Row
  pub scroll_top : ℕ
  pub scroll_bottom : ℕ
  pub wrap_pending : Bool
  pub auto_wrap : Bool
  pub saved_cursor : Option (ℕ × ℕ)
  pub app_cursor_keys : Bool
  pub mouse_tracking : ℕ
  pub mouse_fmt : ℕ
  pub mouse_altscroll : Bool
  pub dirty : List Bool

abbrev pub checked_sub : ℕ → ℕ → Option ℕ
checked_sub a b = if leb b a then some (a - b) else none

-- `vec![Cell::blank(); cols]`
abbrev pub blank_row : ℕ → Row
blank_row cols = replicate cols blank

unfoldable pub new : ℕ → ℕ → ℕ → Grid
new rows0 cols0 scrollback_capacity =
    let rows = max rows0 1 in
    let cols = max cols0 1 in
    record {
      rows = replicate rows (blank_row cols);
      cols = cols;
      row_count = rows;
      cursor_row = 0;
      cursor_col = 0;
      cursor_visible = true;
      fg = default;
      bg = default;
      attrs = plain;
      scrollback = Scrollback.new scrollback_capacity;
      pending_scrollback = [];
      scroll_top = 0;
      scroll_bottom = rows;
      wrap_pending = false;
      auto_wrap = true;
      saved_cursor = none;
      app_cursor_keys = false;
      mouse_tracking = 0;
      mouse_fmt = 0;
      mouse_altscroll = false;
      dirty = replicate rows true;
    }

-- A row out of range is left alone.
abbrev pub mark_dirty : ℕ → Grid → Grid
mark_dirty row g = record g { dirty = set g.dirty row true }

-- `for i in i..i + n { self.mark_dirty(i) }`
abbrev pub mark_rows : ℕ → ℕ → List Bool → List Bool
mark_rows zero i dirty = dirty
mark_rows (suc n) i dirty = mark_rows n (i + 1) (set dirty i true)

abbrev pub mark_range : ℕ → ℕ → Grid → Grid
mark_range top bottom g = record g { dirty = mark_rows (bottom - top) top g.dirty }

unfoldable pub take_pending_scrollback : Grid → Grid × List Row
take_pending_scrollback g = (record g { pending_scrollback = [] }, g.pending_scrollback)

unfoldable pub move_cursor : ℕ → ℕ → Grid → Grid
move_cursor row col g = record g {
  cursor_row = min row (g.row_count - 1);
  cursor_col = min col (g.cols - 1);
  wrap_pending = false;
}

unfoldable pub carriage_return : Grid → Grid
carriage_return g = record g { cursor_col = 0; wrap_pending = false }

unfoldable pub backspace : Grid → Grid
backspace g = record g {
  cursor_col = if ltb 0 g.cursor_col then g.cursor_col - 1 else g.cursor_col;
  wrap_pending = false;
}

unfoldable pub tab : Grid → Grid
tab g = record g {
  cursor_col = min ((g.cursor_col / 8 + 1) * 8) (g.cols - 1);
  wrap_pending = false;
}

-- `f(&mut xs[a..b])`
unfoldable pub on_slice {ℓ} : {A : Type ℓ} → ℕ → ℕ → (List A → List A) → List A → Option (List A)
on_slice a b f xs =
    if leb a b && leb b (length xs)
    then some (take a xs ++ (f (take (b - a) (drop a xs)) ++ drop b xs))
    else none

-- The first loop of `scroll_up`: `n` rows from `row_idx` on are blanked and go to the history.
unfoldable pub save_rows : ℕ → ℕ → Grid → Option Grid
save_rows zero row_idx g = some g
save_rows (suc n) row_idx g = elim (get_elem? g.rows row_idx) [
  | none ↦ save_rows n (row_idx + 1) g
  | some row ↦ elim (Scrollback.push g.scrollback row) [
    | none ↦ none
    | some history ↦ save_rows n (row_idx + 1) (record g {
      rows = set g.rows row_idx (blank_row g.cols);
      scrollback = history;
      pending_scrollback = g.pending_scrollback ++ row ∷ [];
    })
  ]
]

-- `for i in 0..n { self.rows[idx + i] = blank_row.clone() }`
unfoldable pub blank_rows : ℕ → ℕ → Row → List Row → Option (List Row)
blank_rows zero idx line rows = some rows
blank_rows (suc n) idx line rows = elim (store rows idx line) [
  | none ↦ none
  | some rows' ↦ blank_rows n (idx + 1) line rows'
]

-- `for i in i..i + n { self.rows[bottom - 1 - i] = blank_row.clone() }`
unfoldable pub blank_rows_up : ℕ → ℕ → ℕ → Row → List Row → Option (List Row)
blank_rows_up zero i bottom line rows = some rows
blank_rows_up (suc n) i bottom line rows = elim (store rows (bottom - 1 - i) line) [
  | none ↦ none
  | some rows' ↦ blank_rows_up n (i + 1) bottom line rows'
]

unfoldable pub scroll_up : ℕ → Grid → Option Grid
scroll_up n0 g = do
  size ← checked_sub g.scroll_bottom g.scroll_top
  let n = min n0 size
  let scrolled = do
    g' ← save_rows n g.scroll_top g
    rows ← on_slice g.scroll_top g.scroll_bottom (rotate_left n) g'.rows
    some (mark_range g.scroll_top g.scroll_bottom (record g' { rows = rows }))
  if n == 0 then some g else scrolled

unfoldable pub scroll_down : ℕ → Grid → Option Grid
scroll_down n0 g = do
  size ← checked_sub g.scroll_bottom g.scroll_top
  let n = min n0 size
  let scrolled = do
    rows ← on_slice g.scroll_top g.scroll_bottom (rotate_right n) g.rows
    rows' ← blank_rows n g.scroll_top (blank_row g.cols) rows
    some (mark_range g.scroll_top g.scroll_bottom (record g { rows = rows' }))
  if n == 0 then some g else scrolled

-- Whether the cursor stands in the scroll region.
abbrev pub in_region : Grid → Bool
in_region g = leb g.scroll_top g.cursor_row && ltb g.cursor_row g.scroll_bottom

unfoldable pub insert_lines : ℕ → Grid → Option Grid
insert_lines n0 g =
    let cursor = g.cursor_row in
    let n = min n0 (g.scroll_bottom - cursor) in
    let inserted = (do
      rows ← on_slice cursor g.scroll_bottom (rotate_right n) g.rows
      rows' ← blank_rows n cursor (blank_row g.cols) rows
      some (mark_range cursor g.scroll_bottom (record g { rows = rows' }))) in
    if in_region g then (if n == 0 then some g else inserted) else some g

unfoldable pub delete_lines : ℕ → Grid → Option Grid
delete_lines n0 g =
    let cursor = g.cursor_row in
    let n = min n0 (g.scroll_bottom - cursor) in
    let deleted = (do
      rows ← on_slice cursor g.scroll_bottom (rotate_left n) g.rows
      rows' ← blank_rows_up n 0 g.scroll_bottom (blank_row g.cols) rows
      some (mark_range cursor g.scroll_bottom (record g { rows = rows' }))) in
    if in_region g then (if n == 0 then some g else deleted) else some g

unfoldable pub line_feed : Grid → Option Grid
line_feed g =
    let down = record g { cursor_row = g.cursor_row + 1 } in
    let scrolled = (do
      g' ← scroll_up 1 down
      row ← checked_sub g'.scroll_bottom 1
      some (record g' { cursor_row = row; wrap_pending = false })) in
    if leb g.scroll_bottom down.cursor_row
    then scrolled
    else some (record down { wrap_pending = false })

unfoldable pub set_scroll_region : ℕ → ℕ → Grid → Grid
set_scroll_region top bottom g = record g {
  scroll_top = min top g.row_count;
  scroll_bottom = max (min bottom g.row_count) (top + 1);
}

unfoldable pub reset_scroll_region : Grid → Grid
reset_scroll_region g = record g { scroll_top = 0; scroll_bottom = g.row_count }

unfoldable pub save_cursor : Grid → Grid
save_cursor g = record g { saved_cursor = some (g.cursor_row, g.cursor_col) }

unfoldable pub restore_cursor : Grid → Grid
restore_cursor g = elim g.saved_cursor [ some (row, col) ↦ move_cursor row col g | none ↦ g ]

-- The first part of `print`: a wrap that was put off is made now.
unfoldable pub wrap_line : Grid → Option Grid
wrap_line g =
    let next = record g { cursor_col = 0; cursor_row = g.cursor_row + 1; wrap_pending = false } in
    let scrolled = (do
      g' ← scroll_up 1 next
      some (record g' { cursor_row = g'.scroll_bottom - 1 })) in
    if g.wrap_pending
    then (if leb g.scroll_bottom next.cursor_row then scrolled else some next)
    else some g

-- `row[ccol] = cell` if the row is there and long enough.
unfoldable pub write_cell : ℕ → ℕ → Cell → List Row → List Row
write_cell crow ccol cell rows = elim (get_elem? rows crow) [
  | some row ↦ if ltb ccol (length row) then set rows crow (set row ccol cell) else rows
  | none ↦ rows
]

-- The last part of `print`: the cursor moves on, or a wrap is put off.
unfoldable pub advance : Grid → Grid
advance g =
    let col = g.cursor_col + 1 in
    if leb g.cols col
    then record g { cursor_col = g.cols - 1; wrap_pending = g.auto_wrap }
    else record g { cursor_col = col }

unfoldable pub print : ℕ → Grid → Option Grid
print c g = do
  g' ← wrap_line g
  let col = if leb g'.cols g'.cursor_col then g'.cols - 1 else g'.cursor_col
  let cell : Cell = record { ch = c; fg = g'.fg; bg = g'.bg; attrs = g'.attrs }
  let written = record g' { cursor_col = col; rows = write_cell g'.cursor_row col cell g'.rows }
  some (advance (mark_dirty g'.cursor_row written))
