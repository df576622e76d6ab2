-- ===== src/Grid/Rows.antt =====
-- The operations of src/grid/mod.rs that move rows, against well-formedness.
use lrmux.Base.{◌>>=◌, some_step}
use lrmux.Base.{ℕ, zero, suc, ◌+◌, ◌-◌, ◌<◌, ◌≤◌, ◌≡◌, refl, ◌∙◌, min, arith, Option, some}
use lrmux.Base.{List, [], ◌∷◌, ◌++◌, length, set, inl, inr}
use lrmux.Base.{length-set, length-replicate, lt→ltb}
use lrmux.Base.{◌==◌, Bool-cases}
use lrmux.Grid.Cell.{blank}
use lrmux.Grid.Slice.{rotate_left, rotate_right, get_elem?-some}
use lrmux.Grid.Scrollback.{store}
use lrmux.Grid.History
use lrmux.Grid.Screen.{Row, Grid, checked_sub, blank_row, on_slice, save_rows, blank_rows}
use lrmux.Grid.Screen.{blank_rows_up, scroll_up, scroll_down, insert_lines, delete_lines}
use lrmux.Grid.Screen.{mark_range, in_region}
use lrmux.Grid.Valid.{HasWidth, IsScreen, IsShape, IsAlike, KeepsShape, on_slice-Keeps}
use lrmux.Grid.Valid.{
  Keeps, rotate_left-Keeps, rotate_right-Keeps, mark_range-IsShape, rows-IsShape,
}
use lrmux.Grid.Valid.{set-IsScreen}

pub blank_row-HasWidth : (w : ℕ) → HasWidth w (blank_row w)
blank_row-HasWidth w = length-replicate w blank

-- The rows and the history after some rows went to the history.
save_rows-IsShape :
    (n i : ℕ) (g : Grid) → IsShape g → i + n ≤ length g.rows → KeepsShape g (save_rows n i g)
unfolding save_rows
save_rows-IsShape zero i g v h = (g, refl, v, (refl, refl, refl, refl, refl, refl))
save_rows-IsShape (suc n) i g v h =
    let (row, at) = get_elem?-some g.rows i (omega arith) in
    let (s, pushed, valid, same, kept) = History.push-remember g.scrollback row v.history in
    let line = blank_row g.cols in
    let g1 : Grid = record g {
      rows = set g.rows i line;
      scrollback = s;
      pending_scrollback = g.pending_scrollback ++ row ∷ [];
    } in
    let v1 : IsShape g1 = record {
      screen = set-IsScreen g.rows i line v.screen (blank_row-HasWidth g.cols);
      size = v.size;
      region = v.region;
      history = valid;
      marks = v.marks;
    } in
    let (g', run, v', alike) =
      save_rows-IsShape n (i + 1) g1 v1 (omega (arith, length-set g.rows i line)) in
    (g', ground (arith, at, pushed, run), v', alike)

module _ (line : Row) (w : ℕ) (hw : HasWidth w line) where
  store-IsScreen :
      {n : ℕ} (i : ℕ) (rows : List Row)
      → IsScreen n w rows
      → i < n
      → (rows' : List Row) × (store rows i line ≡ some rows') × IsScreen n w rows'
  store-IsScreen i rows h hi =
      (set rows i line, ground (arith, lt→ltb i (length rows)), set-IsScreen rows i line h hw)

  blank_rows-IsScreen :
      {n : ℕ} (k i : ℕ) (rows : List Row)
      → IsScreen n w rows
      → i + k ≤ n
      → (rows' : List Row) × (blank_rows k i line rows ≡ some rows') × IsScreen n w rows'
  unfolding blank_rows
  blank_rows-IsScreen zero i rows h hi = (rows, refl, h)
  blank_rows-IsScreen (suc k) i rows h hi =
      let (rows1, stored, h1) = store-IsScreen i rows h (omega arith) in
      let (rows2, run, h2) = blank_rows-IsScreen k (i + 1) rows1 h1 (omega arith) in
      (rows2, ground (arith, stored, run), h2)

  blank_rows_up-IsScreen :
      {n : ℕ} (k i bottom : ℕ) (rows : List Row)
      → IsScreen n w rows
      → i + k ≤ bottom
      → bottom ≤ n
      → (rows' : List Row) × (blank_rows_up k i bottom line rows ≡ some rows') × IsScreen n w rows'
  unfolding blank_rows_up
  blank_rows_up-IsScreen zero i bottom rows h hi hb = (rows, refl, h)
  blank_rows_up-IsScreen (suc k) i bottom rows h hi hb =
      let (rows1, stored, h1) = store-IsScreen (bottom - 1 - i) rows h (omega arith) in
      let (rows2, run, h2) = blank_rows_up-IsScreen k (i + 1) bottom rows1 h1 (omega arith) hb in
      (rows2, ground (arith, stored, run), h2)

pub checked_sub-some : (a b : ℕ) → b ≤ a → checked_sub a b ≡ some (a - b)
checked_sub-some a b h = ground arith

abbrev alike : (g : Grid) → IsAlike g g
alike g = (refl, refl, refl, refl, refl, refl)

pub scroll_up-KeepsShape : (n : ℕ) (g : Grid) → IsShape g → KeepsShape g (scroll_up n g)
unfolding scroll_up
scroll_up-KeepsShape n g v =
    let k = min n (g.scroll_bottom - g.scroll_top) in
    let size = checked_sub-some g.scroll_bottom g.scroll_top (omega (arith, v.region)) in
    let (g1, saved, v1, same) =
      save_rows-IsShape k g.scroll_top g v (omega (arith, v.region, v.screen.0)) in
    let (rows, moved, len, wide) =
      on_slice-Keeps (HasWidth g.cols) g.scroll_top g.scroll_bottom (rotate_left k) g1.rows
        (omega (arith, v.region)) (omega (arith, v.region, v1.screen.0, same.0))
        (rotate_left-Keeps (HasWidth g.cols) k) (rw (same.1) at v1.screen.1) in
    elim (Bool-cases (k == 0)) [
      | inl none_left ↦ (g, some_step _ _ size (rw none_left refl), v, alike g)
      | inr some_left ↦ (
        mark_range g.scroll_top g.scroll_bottom (record g1 { rows = rows }),
        some_step _ _ size (rw some_left (some_step _ _ saved (some_step _ _ moved refl))),
        mark_range-IsShape (record g1 { rows = rows })
            (rows-IsShape g1 v1 rows (len ∙ v1.screen.0, rw (same.1) wide)) g.scroll_top
            g.scroll_bottom,
        same,
      )
    ]

-- The slice from `a` to the bottom of the region is changed, and some of its rows are blanked.
slice-KeepsShape :
    (a : ℕ) (f : List Row → List Row) (blanked : List Row → Option (List Row)) (g : Grid)
    → IsShape g
    → a ≤ g.scroll_bottom
    → ((w : ℕ) → Keeps (HasWidth w) f)
    → ((rows : List Row)
        → IsScreen g.row_count g.cols rows
        → (rows' : List Row) × (blanked rows ≡ some rows') × IsScreen g.row_count g.cols rows')
    → KeepsShape g (
        on_slice a g.scroll_bottom f g.rows >>= (λ rows.
          blanked rows
          >>= (λ rows'. some (mark_range a g.scroll_bottom (record g { rows = rows' })))))
slice-KeepsShape a f blanked g v ha keeps fill =
    let (rows, moved, len, wide) =
      on_slice-Keeps (HasWidth g.cols) a g.scroll_bottom f g.rows ha
        (omega (arith, v.region, v.screen.0)) (keeps g.cols) v.screen.1 in
    let (rows', filled, shape) = fill rows (len ∙ v.screen.0, wide) in
    (
      mark_range a g.scroll_bottom (record g { rows = rows' }),
      some_step _ _ moved (some_step _ _ filled refl),
      mark_range-IsShape (record g { rows = rows' }) (rows-IsShape g v rows' shape) a
          g.scroll_bottom,
      alike g,
    )

pub scroll_down-KeepsShape : (n : ℕ) (g : Grid) → IsShape g → KeepsShape g (scroll_down n g)
unfolding scroll_down
scroll_down-KeepsShape n g v =
    let k = min n (g.scroll_bottom - g.scroll_top) in
    let line = blank_row g.cols in
    let size = checked_sub-some g.scroll_bottom g.scroll_top (omega (arith, v.region)) in
    let (h, run, shape, same) =
      slice-KeepsShape g.scroll_top (rotate_right k) (blank_rows k g.scroll_top line) g v
        (omega (arith, v.region)) (λ w. rotate_right-Keeps (HasWidth w) k)
        (λ rows screen.
          blank_rows-IsScreen line g.cols (blank_row-HasWidth g.cols) k g.scroll_top rows screen
            (omega (arith, v.region))) in
    elim (Bool-cases (k == 0)) [
      | inl none_left ↦ (g, some_step _ _ size (rw none_left refl), v, alike g)
      | inr some_left ↦ (h, some_step _ _ size (rw some_left run), shape, same)
    ]

pub insert_lines-KeepsShape : (n : ℕ) (g : Grid) → IsShape g → KeepsShape g (insert_lines n g)
unfolding insert_lines
insert_lines-KeepsShape n g v = elim (Bool-cases (in_region g)) [
  | inr outside ↦ (g, rw outside refl, v, alike g)
  | inl inside ↦
      let k = min n (g.scroll_bottom - g.cursor_row) in
      let line = blank_row g.cols in
      let above : g.cursor_row < g.scroll_bottom = ground arith in
      let (h, run, shape, same) =
        slice-KeepsShape g.cursor_row (rotate_right k) (blank_rows k g.cursor_row line) g v
          (omega arith) (λ w. rotate_right-Keeps (HasWidth w) k)
          (λ rows screen.
            blank_rows-IsScreen line g.cols (blank_row-HasWidth g.cols) k g.cursor_row rows screen
              (omega (arith, v.region))) in
      elim (Bool-cases (k == 0)) [
        | inl none_left ↦ (g, rw (inside, none_left) refl, v, alike g)
        | inr some_left ↦ (h, rw (inside, some_left) run, shape, same)
      ]
]

pub delete_lines-KeepsShape : (n : ℕ) (g : Grid) → IsShape g → KeepsShape g (delete_lines n g)
unfolding delete_lines
delete_lines-KeepsShape n g v = elim (Bool-cases (in_region g)) [
  | inr outside ↦ (g, rw outside refl, v, alike g)
  | inl inside ↦
      let k = min n (g.scroll_bottom - g.cursor_row) in
      let line = blank_row g.cols in
      let above : g.cursor_row < g.scroll_bottom = ground arith in
      let (h, run, shape, same) =
        slice-KeepsShape g.cursor_row (rotate_left k) (blank_rows_up k 0 g.scroll_bottom line) g v
          (omega arith) (λ w. rotate_left-Keeps (HasWidth w) k)
          (λ rows screen.
            blank_rows_up-IsScreen line g.cols (blank_row-HasWidth g.cols) k 0 g.scroll_bottom rows
              screen (omega arith) (omega (arith, v.region))) in
      elim (Bool-cases (k == 0)) [
        | inl none_left ↦ (g, rw (inside, none_left) refl, v, alike g)
        | inr some_left ↦ (h, rw (inside, some_left) run, shape, same)
      ]
]
