-- ===== src/Grid/Margins.antt =====
-- `set_scroll_region` of src/grid/mod.rs with a first row below the screen.
use lrmux.Base.{◌>>=◌, some_step}
use lrmux.Base.{
  ℕ, zero, suc, ◌+◌, ◌-◌, ◌<◌, ◌≤◌, ◌≡◌, refl, ap, min, arith, Option, none, some, length,
}
use lrmux.Base.{false, List, ◌==◌}
use lrmux.Grid.Slice.{rotate_left, rotate_right, get_elem?-none}
use lrmux.Grid.Screen.{Grid, on_slice, save_rows, scroll_up, scroll_down, set_scroll_region}
use lrmux.Grid.Rows.{checked_sub-some}

-- Rows that are not there are passed over.
save_rows_past : (n i : ℕ) (g : Grid) → length g.rows ≤ i → save_rows n i g ≡ some g
unfolding save_rows
save_rows_past zero i g h = refl
save_rows_past (suc n) i g h =
    ground (arith, get_elem?-none g.rows i h, save_rows_past n (i + 1) g (omega arith))

none_step : {A B : Type 0} (m : Option A) (f : A → Option B) → m ≡ none → (m >>= f) ≡ none
none_step m f e = ap (λ t. t >>= f) e

-- A region below the rows cannot be sliced.
on_slice_past :
    {A : Type 0} (a b : ℕ) (f : List A → List A) (xs : List A)
    → length xs < b
    → on_slice a b f xs ≡ none
unfolding on_slice
on_slice_past a b f xs h = ground arith

module _ (n : ℕ) (g : Grid) (past : length g.rows ≤ g.scroll_top)
    (some_rows : g.scroll_top < g.scroll_bottom) (some_lines : 0 < n) where
  scroll_up_past : scroll_up n g ≡ none
  unfolding scroll_up
  scroll_up_past =
      let k = min n (g.scroll_bottom - g.scroll_top) in
      let size = checked_sub-some g.scroll_bottom g.scroll_top (omega arith) in
      let more : (k == 0) ≡ false = ground arith in
      some_step _ _ size (
        rw more (
          some_step _ _ (save_rows_past k g.scroll_top g past) (
            none_step _ _
              (on_slice_past g.scroll_top g.scroll_bottom (rotate_left k) g.rows (omega arith)))))

  scroll_down_past : scroll_down n g ≡ none
  unfolding scroll_down
  scroll_down_past =
      let k = min n (g.scroll_bottom - g.scroll_top) in
      let size = checked_sub-some g.scroll_bottom g.scroll_top (omega arith) in
      let more : (k == 0) ≡ false = ground arith in
      some_step _ _ size (
        rw more (
          none_step _ _
            (on_slice_past g.scroll_top g.scroll_bottom (rotate_right k) g.rows (omega arith))))

-- On a grid with as many rows as it states, margins whose first row is not on the screen make
-- every scroll by one line or more panic, up or down.
pub set_scroll_region_past :
    (top bottom n : ℕ) (g : Grid)
    → length g.rows ≡ g.row_count
    → g.row_count ≤ top
    → 0 < n
    → (scroll_up n (set_scroll_region top bottom g) ≡ none)
      × (scroll_down n (set_scroll_region top bottom g) ≡ none)
unfolding set_scroll_region
set_scroll_region_past top bottom n g len past some_lines =
    let h = set_scroll_region top bottom g in
    (
      scroll_up_past n h (omega arith) (omega arith) some_lines,
      scroll_down_past n h (omega arith) (omega arith) some_lines,
    )
