-- ===== src/Grid/Cells.antt =====
-- The operations of src/grid/mod.rs inside a line, and the erasing ones, against well-formedness.
use lrmux.Base.{some_step}
use lrmux.Base.{ℕ, zero, suc, ◌+◌, ◌-◌, ◌≤◌, ◌≡◌, refl, ◌∙◌, min, arith, Option, some}
use lrmux.Base.{[], ◌∷◌, length, get_elem?, set, All, inl, inr, leb, Option-cases, Bool-cases}
use lrmux.Base.{◌==◌, length-replicate}
use lrmux.Grid.Cell.{Cell, blank}
use lrmux.Grid.Slice.{rotate_left, rotate_right, length-rotate_left}
use lrmux.Grid.Screen.{Row, Grid, on_slice, mark_dirty}
use lrmux.Grid.Line.{blank_all, put_line, insert_cells, delete_cells, shift_chars, insert_chars}
use lrmux.Grid.Line.{
  delete_chars, erase_chars, erase_to_end_of_line, erase_to_cursor, clear_row, clear_rows,
}
use lrmux.Grid.Line.{erase_line, erase_to_end_of_screen, erase_to_start_of_screen, erase_screen}
use lrmux.Grid.Valid.{HasWidth, IsShape, IsValid, IsSafe, on_slice-Keeps}
use lrmux.Grid.Valid.{mark_dirty-IsShape, rows-IsShape}
use lrmux.Grid.Valid.{set-IsScreen, All-get_elem?}

abbrev Anything : Cell → Type 0
Anything c = Unit

anything : (row : Row) → All Anything row
anything [] = tt
anything (c ∷ row) = (tt, anything row)

-- A slice of a row within the row.
slice_some :
    (a b : ℕ) (f : Row → Row) (row : Row)
    → a ≤ b
    → b ≤ length row
    → ((ys : Row) → length (f ys) ≡ length ys)
    → (row' : Row) × (on_slice a b f row ≡ some row') × (length row' ≡ length row)
slice_some a b f row hab hb keeps =
    let (row', run, len, every) =
      on_slice-Keeps Anything a b f row hab hb (λ ys. (keeps ys, λ h. anything (f ys)))
        (anything row) in
    (row', run, len)

length-blank_all : (row : Row) → length (blank_all row) ≡ length row
length-blank_all row = length-replicate (length row) blank

-- What `insert_cells` and `delete_cells` have in common.
abbrev KeepsWidth : (ℕ → ℕ → Row → Option Row) → Type 0
KeepsWidth f =
    (ccol n : ℕ) (row : Row)
    → ccol + n ≤ length row
    → (row' : Row) × (f ccol n row ≡ some row') × (length row' ≡ length row)

insert_cells-KeepsWidth : KeepsWidth insert_cells
unfolding insert_cells
insert_cells-KeepsWidth ccol n row h =
    let (moved, run, len) =
      slice_some ccol (length row) (rotate_right n) row (omega arith) (omega arith)
        (λ ys. length-rotate_left (length ys - n) ys) in
    let (row', filled, len') =
      slice_some ccol (ccol + n) blank_all moved (omega arith) (omega (arith, len))
        length-blank_all in
    (row', some_step _ _ run filled, len' ∙ len)

delete_cells-KeepsWidth : KeepsWidth delete_cells
unfolding delete_cells
delete_cells-KeepsWidth ccol n row h =
    let (moved, run, len) =
      slice_some ccol (length row) (rotate_left n) row (omega arith) (omega arith)
        (length-rotate_left n) in
    let (row', filled, len') =
      slice_some (length moved - n) (length moved) blank_all moved (omega arith) (omega arith)
        length-blank_all in
    (row', some_step _ _ run filled, len' ∙ len)

-- A row of the same width is stored in the place of row `i`.
store-IsShape :
    (i : ℕ) (row row' : Row) (g : Grid)
    → IsShape g
    → get_elem? g.rows i ≡ some row
    → length row' ≡ length row
    → IsShape (mark_dirty i (record g { rows = set g.rows i row' }))
store-IsShape i row row' g v at len =
    let wide = All-get_elem? (HasWidth g.cols) g.rows i row v.screen.1 at in
    let rows = set g.rows i row' in
    mark_dirty-IsShape (record g { rows = rows })
      (rows-IsShape g v rows (set-IsScreen g.rows i row' v.screen (len ∙ wide))) i

clear_row-IsValid : (i : ℕ) (g : Grid) → IsValid g → IsValid (clear_row i g)
unfolding clear_row
clear_row-IsValid i g v = elim (Option-cases (get_elem? g.rows i)) [
  | inl missing ↦ rw (clear_row, missing) (mark_dirty-IsShape g v.0 i, v.1, v.2)
  | inr (row, at) ↦
      rw (clear_row, at)
        (store-IsShape i row (blank_all row) g v.0 at (length-blank_all row), v.1, v.2)
]

clear_rows-IsValid : (n i : ℕ) (g : Grid) → IsValid g → IsValid (clear_rows n i g)
unfolding clear_rows
clear_rows-IsValid zero i g v = v
clear_rows-IsValid (suc n) i g v =
    clear_rows-IsValid n (i + 1) (clear_row i g) (clear_row-IsValid i g v)

module _ (g : Grid) (v : IsValid g) where
  put_line-IsValid :
      (row row' : Row)
      → get_elem? g.rows g.cursor_row ≡ some row
      → length row' ≡ length row
      → IsValid (put_line row' g)
  put_line-IsValid row row' at len =
      let stored = store-IsShape g.cursor_row row row' g v.0 at len in
      (
        record {
          screen = stored.screen;
          size = stored.size;
          region = stored.region;
          history = stored.history;
          marks = stored.marks;
        },
        v.1,
        v.2,
      )

  shift_chars-IsSafe :
      (f : ℕ → ℕ → Row → Option Row) → KeepsWidth f → (n : ℕ) → IsSafe (shift_chars f n g)
  unfolding shift_chars
  shift_chars-IsSafe f keeps n = elim (Option-cases (get_elem? g.rows g.cursor_row)) [
    | inl missing ↦ (g, rw (shift_chars, missing) refl, v)
    | inr (row, at) ↦
        let k = min n (length row - g.cursor_col) in
        elim (Bool-cases (leb (length row) g.cursor_col)) [
          | inl outside ↦ (g, rw (shift_chars, at, outside) refl, v)
          | inr inside ↦ elim (Bool-cases (k == 0)) [
            | inl none_left ↦ (g, rw (shift_chars, at, inside, none_left) refl, v)
            | inr some_left ↦
                let (row', run, len) = keeps g.cursor_col k row (ground arith) in
                (
                  put_line row' g,
                  rw (shift_chars, at, inside, some_left) (some_step _ _ run refl),
                  put_line-IsValid row row' at len,
                )
          ]
        ]
  ]

  pub insert_chars-IsSafe : (n : ℕ) → IsSafe (insert_chars n g)
  unfolding insert_chars
  insert_chars-IsSafe n = shift_chars-IsSafe insert_cells insert_cells-KeepsWidth n

  pub delete_chars-IsSafe : (n : ℕ) → IsSafe (delete_chars n g)
  unfolding delete_chars
  delete_chars-IsSafe n = shift_chars-IsSafe delete_cells delete_cells-KeepsWidth n

  pub erase_chars-IsSafe : (n : ℕ) → IsSafe (erase_chars n g)
  unfolding erase_chars
  erase_chars-IsSafe n = elim (Option-cases (get_elem? g.rows g.cursor_row)) [
    | inl missing ↦ (g, rw (erase_chars, missing) refl, v)
    | inr (row, at) ↦ elim (Bool-cases (leb (length row) g.cursor_col)) [
      | inl outside ↦ (g, rw (erase_chars, at, outside) refl, v)
      | inr inside ↦
          let (row', run, len) =
            slice_some g.cursor_col (min (g.cursor_col + n) (length row)) blank_all row
              (ground arith) (omega arith) length-blank_all in
          (
            put_line row' g,
            rw (erase_chars, at, inside) (some_step _ _ run refl),
            put_line-IsValid row row' at len,
          )
    ]
  ]

  pub erase_to_end_of_line-IsSafe : IsSafe (erase_to_end_of_line g)
  unfolding erase_to_end_of_line
  erase_to_end_of_line-IsSafe = elim (Option-cases (get_elem? g.rows g.cursor_row)) [
    | inl missing ↦ (
      mark_dirty g.cursor_row g,
      rw (erase_to_end_of_line, missing) refl,
      (mark_dirty-IsShape g v.0 g.cursor_row, v.1, v.2),
    )
    | inr (row, at) ↦
        let (row', run, len) =
          slice_some (min g.cursor_col (length row)) (length row) blank_all row (omega arith)
            (omega arith) length-blank_all in
        (
          mark_dirty g.cursor_row (record g { rows = set g.rows g.cursor_row row' }),
          rw (erase_to_end_of_line, at) (some_step _ _ run refl),
          (store-IsShape g.cursor_row row row' g v.0 at len, v.1, v.2),
        )
  ]

  pub erase_to_cursor-IsSafe : IsSafe (erase_to_cursor g)
  unfolding erase_to_cursor
  erase_to_cursor-IsSafe = elim (Option-cases (get_elem? g.rows g.cursor_row)) [
    | inl missing ↦ (
      mark_dirty g.cursor_row g,
      rw (erase_to_cursor, missing) refl,
      (mark_dirty-IsShape g v.0 g.cursor_row, v.1, v.2),
    )
    | inr (row, at) ↦ elim (Bool-cases (length row == 0)) [
      | inl empty ↦ (g, rw (erase_to_cursor, at, empty) refl, v)
      | inr full ↦
          let (row', run, len) =
            slice_some 0 (min g.cursor_col (length row - 1) + 1) blank_all row (omega arith)
              (ground arith) length-blank_all in
          (
            mark_dirty g.cursor_row (record g { rows = set g.rows g.cursor_row row' }),
            rw (erase_to_cursor, at, full) (some_step _ _ run refl),
            (store-IsShape g.cursor_row row row' g v.0 at len, v.1, v.2),
          )
    ]
  ]

  pub erase_line-IsValid : IsValid (erase_line g)
  unfolding erase_line
  erase_line-IsValid = clear_row-IsValid g.cursor_row g v

  pub erase_screen-IsValid : IsValid (erase_screen g)
  unfolding erase_screen
  erase_screen-IsValid = clear_rows-IsValid g.row_count 0 g v

module _ (g : Grid) (v : IsValid g) where
  pub erase_to_end_of_screen-IsSafe : IsSafe (erase_to_end_of_screen g)
  unfolding erase_to_end_of_screen
  erase_to_end_of_screen-IsSafe =
      let (h, run, valid) = erase_to_end_of_line-IsSafe g v in
      (
        _,
        some_step _ _ run refl,
        clear_rows-IsValid (h.row_count - (h.cursor_row + 1)) (h.cursor_row + 1) h valid,
      )

  pub erase_to_start_of_screen-IsSafe : IsSafe (erase_to_start_of_screen g)
  unfolding erase_to_start_of_screen
  erase_to_start_of_screen-IsSafe =
      let (h, run, valid) = erase_to_cursor-IsSafe g v in
      (_, some_step _ _ run refl, clear_rows-IsValid h.cursor_row 0 h valid)
