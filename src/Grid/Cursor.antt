-- ===== src/Grid/Cursor.antt =====
-- The operations of src/grid/mod.rs that move the cursor, and `print`, against well-formedness.
use lrmux.Base.{some_step}
use lrmux.Base.{ℕ, ◌+◌, ◌-◌, ◌<◌, ◌≡◌, refl, ap, ◌∙◌, max, arith, Option}
use lrmux.Base.{
  some, none, List, length, get_elem?, set, inl, inr, leb, ltb, Option-cases, length-set,
}
use lrmux.Base.{true, false, Bool-cases, if◌then◌else◌, length-replicate}
use lrmux.Grid.Cell.{Cell}
use lrmux.Grid.History
use lrmux.Grid.Screen.{Row, Grid, blank_row, line_feed, wrap_line, print}
use lrmux.Grid.Screen.{
  new, move_cursor, carriage_return, backspace, tab, write_cell, advance, mark_dirty,
}
use lrmux.Grid.Screen.{set_scroll_region, reset_scroll_region, save_cursor, restore_cursor}
use lrmux.Grid.Valid.{
  HasWidth, IsScreen, IsShape, IsValid, IsSafe, mark_dirty-IsShape, rows-IsShape,
}
use lrmux.Grid.Valid.{cursor-IsShape, set-IsScreen, All-get_elem?, All-replicate}
use lrmux.Grid.Rows.{scroll_up-KeepsShape, blank_row-HasWidth, checked_sub-some}

pub new-IsValid : (rows cols capacity : ℕ) → 0 < capacity → IsValid (new rows cols capacity)
unfolding new
new-IsValid rows cols capacity h = (
  record {
    screen = (
      length-replicate (max rows 1) (blank_row (max cols 1)),
      All-replicate (HasWidth (max cols 1)) (max rows 1) (blank_row (max cols 1))
          (blank_row-HasWidth (max cols 1)),
    );
    size = (omega arith, omega arith);
    region = (omega arith, omega arith);
    history = (History.new-IsValid capacity h).0;
    marks = length-replicate (max rows 1) true;
  },
  omega arith,
  omega arith,
)

module _ (g : Grid) (v : IsValid g) where
  pub move_cursor-IsValid : (row col : ℕ) → IsValid (move_cursor row col g)
  unfolding move_cursor
  move_cursor-IsValid row col =
      (cursor-IsShape g v.0 _ _ _, omega (arith, v.0.size), omega (arith, v.0.size))

  pub carriage_return-IsValid : IsValid (carriage_return g)
  unfolding carriage_return
  carriage_return-IsValid = (cursor-IsShape g v.0 _ _ _, v.1, omega (arith, v.0.size))

  pub backspace-IsValid : IsValid (backspace g)
  unfolding backspace
  backspace-IsValid = (cursor-IsShape g v.0 _ _ _, v.1, ground arith)

  pub tab-IsValid : IsValid (tab g)
  unfolding tab
  tab-IsValid = (cursor-IsShape g v.0 _ _ _, v.1, omega (arith, v.0.size))

  pub line_feed-IsSafe : IsSafe (line_feed g)
  unfolding line_feed
  line_feed-IsSafe =
      let down = record g { cursor_row = g.cursor_row + 1 } in
      let (h, run, shape, same) =
        scroll_up-KeepsShape 1 down
          (cursor-IsShape g v.0 (g.cursor_row + 1) g.cursor_col g.wrap_pending) in
      let last = checked_sub-some h.scroll_bottom 1 (omega (arith, shape.region)) in
      elim (Bool-cases (leb g.scroll_bottom (g.cursor_row + 1))) [
        | inl scrolled ↦ (
          record h { cursor_row = h.scroll_bottom - 1; wrap_pending = false },
          rw scrolled (some_step _ _ run (some_step _ _ last refl)),
          (cursor-IsShape h shape _ _ _, omega (arith, shape.region), omega (arith, same, v)),
        )
        | inr room ↦ (
          record down { wrap_pending = false },
          rw room refl,
          (cursor-IsShape g v.0 _ _ _, ground (arith, v.0.region), v.2),
        )
      ]

  wrap_line-IsSafe : IsSafe (wrap_line g)
  unfolding wrap_line
  wrap_line-IsSafe =
      let next = record g { cursor_col = 0; cursor_row = g.cursor_row + 1; wrap_pending = false } in
      let (h, run, shape, same) =
        scroll_up-KeepsShape 1 next (cursor-IsShape g v.0 (g.cursor_row + 1) 0 false) in
      elim (Bool-cases g.wrap_pending) [
        | inr idle ↦ (g, rw idle refl, v)
        | inl pending ↦ elim (Bool-cases (leb g.scroll_bottom (g.cursor_row + 1))) [
          | inl scrolled ↦ (
            record h { cursor_row = h.scroll_bottom - 1 },
            rw (pending, scrolled) (some_step _ _ run refl),
            (
              cursor-IsShape h shape _ _ _,
              omega (arith, shape.region),
              omega (arith, same, shape.size),
            ),
          )
          | inr room ↦ (
            next,
            rw (pending, room) refl,
            (cursor-IsShape g v.0 _ _ _, ground (arith, v.0.region), omega (arith, v.0.size)),
          )
        ]
      ]

write_cell-IsScreen :
    (n w crow ccol : ℕ) (cell : Cell) (rows : List Row)
    → IsScreen n w rows
    → IsScreen n w (write_cell crow ccol cell rows)
unfolding write_cell
write_cell-IsScreen n w crow ccol cell rows h = elim (Option-cases (get_elem? rows crow)) [
  | inl missing ↦ rw (write_cell, missing) h
  | inr (row, at) ↦
      let wide = All-get_elem? (HasWidth _) rows crow row h.1 at in
      elim (Bool-cases (ltb ccol (length row))) [
        | inl inside ↦
            rw (write_cell, at, inside)
              (set-IsScreen rows crow (set row ccol cell) h (length-set row ccol cell ∙ wide))
        | inr outside ↦ rw (write_cell, at, outside) h
      ]
]

advance-IsValid : (g : Grid) → IsShape g → g.cursor_row < g.row_count → IsValid (advance g)
unfolding advance
advance-IsValid g v h = elim (Bool-cases (leb g.cols (g.cursor_col + 1))) [
  | inl full ↦ rw full (cursor-IsShape g v _ _ _, h, omega (arith, v.size))
  | inr room ↦ rw room (cursor-IsShape g v _ _ g.wrap_pending, h, ground arith)
]

-- `restore_cursor` with what it finds saved.
abbrev restored : Grid → Option (ℕ × ℕ) → Grid
restored g saved = elim saved [ some (row, col) ↦ move_cursor row col g | none ↦ g ]

module _ (g : Grid) (v : IsValid g) where
  pub print-IsSafe : (c : ℕ) → IsSafe (print c g)
  unfolding print
  print-IsSafe c =
      let (h, run, valid) = wrap_line-IsSafe g v in
      let col = if leb h.cols h.cursor_col then h.cols - 1 else h.cursor_col in
      let cell : Cell = record { ch = c; fg = h.fg; bg = h.bg; attrs = h.attrs } in
      let rows = write_cell h.cursor_row col cell h.rows in
      let placed = cursor-IsShape h valid.0 h.cursor_row col h.wrap_pending in
      let at = record h { cursor_col = col } in
      let written =
        rows-IsShape at placed rows
          (write_cell-IsScreen h.row_count h.cols h.cursor_row col cell h.rows valid.0.screen) in
      let marked = mark_dirty-IsShape (record at { rows = rows }) written h.cursor_row in
      (
        advance (mark_dirty h.cursor_row (record at { rows = rows })),
        some_step _ _ run refl,
        advance-IsValid (mark_dirty h.cursor_row (record at { rows = rows })) marked valid.1,
      )

  pub set_scroll_region-IsValid :
      (top bottom : ℕ) → top < g.row_count → IsValid (set_scroll_region top bottom g)
  unfolding set_scroll_region
  set_scroll_region-IsValid top bottom h = (
    record {
      screen = v.0.screen;
      size = v.0.size;
      region = (omega arith, omega arith);
      history = v.0.history;
      marks = v.0.marks;
    },
    v.1,
    v.2,
  )

  pub reset_scroll_region-IsValid : IsValid (reset_scroll_region g)
  unfolding reset_scroll_region
  reset_scroll_region-IsValid = (
    record {
      screen = v.0.screen;
      size = v.0.size;
      region = (v.0.size.0, omega arith);
      history = v.0.history;
      marks = v.0.marks;
    },
    v.1,
    v.2,
  )

  pub save_cursor-IsValid : IsValid (save_cursor g)
  unfolding save_cursor
  save_cursor-IsValid = (
    record {
      screen = v.0.screen;
      size = v.0.size;
      region = v.0.region;
      history = v.0.history;
      marks = v.0.marks;
    },
    v.1,
    v.2,
  )

  pub restore_cursor-IsValid : IsValid (restore_cursor g)
  unfolding restore_cursor
  restore_cursor-IsValid = elim (Option-cases g.saved_cursor) [
    | inl never ↦ let same : restore_cursor g ≡ g = ap (restored g) never in rw same v
    | inr ((row, col), saved) ↦
        let same : restore_cursor g ≡ move_cursor row col g = ap (restored g) saved in
        rw same (move_cursor-IsValid g v row col)
  ]
