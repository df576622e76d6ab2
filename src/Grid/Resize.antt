-- ===== src/Grid/Resize.antt =====
-- `resize` of src/grid/mod.rs against well-formedness.
use lrmux.Base.{some_step}
use lrmux.Base.{ℕ, zero, suc, ◌+◌, ◌-◌, ◌<◌, ◌≤◌, ◌≡◌, refl, ◌∙◌, arith, Option, some}
use lrmux.Base.{List, [], ◌∷◌, ◌++◌, length, take, replicate, inl, inr}
use lrmux.Base.{length-append, length-take, length-replicate, true, ltb, Bool-cases}
use lrmux.Grid.Cell.{blank}
use lrmux.Grid.Slice.{get_elem?-some}
use lrmux.Grid.History
use lrmux.Grid.Screen.{Grid, blank_row}
use lrmux.Grid.Line.{resize_to, pop_rows, fit_rows, resize}
use lrmux.Grid.Valid.{HasWidth, IsValid, IsSafe, length-map, All-map}

length-resize_to : {A : Type 0} (n : ℕ) (v : A) (xs : List A) → length (resize_to n v xs) ≡ n
length-resize_to n v xs = omega (
  arith,
  length-append (take n xs) (replicate (n - length xs) v),
  length-take n xs,
  length-replicate (n - length xs) v,
)

-- The number of rows after `n` of them went, and the history.
abbrev Popped : ℕ → Grid → Option Grid → Type 0
Popped n g o =
    (h : Grid) × (o ≡ some h) × (length h.rows + n ≡ length g.rows) × History.IsValid h.scrollback

pop_rows-Popped :
    (n : ℕ) (g : Grid)
    → History.IsValid g.scrollback
    → n ≤ length g.rows
    → Popped n g (pop_rows n g)
unfolding pop_rows
pop_rows-Popped zero g v h = (g, refl, omega arith, v)
pop_rows-Popped (suc n) g v h =
    let last = length g.rows - 1 in
    let (row, at) = get_elem?-some g.rows last (omega arith) in
    let (s, pushed, valid, same, kept) = History.push-remember g.scrollback row v in
    let g1 : Grid = record g {
      rows = take last g.rows;
      scrollback = s;
      pending_scrollback = g.pending_scrollback ++ row ∷ [];
    } in
    let size = length-take last g.rows in
    let (h', run, count, v') = pop_rows-Popped n g1 valid (omega (arith, size)) in
    (h', ground (arith, at, pushed, run), omega (arith, size, count), v')

-- After the rows were added or taken, there are as many as asked for.
fit_rows_lem :
    (rows cols : ℕ) (g : Grid)
    → IsValid g
    → (h : Grid) × (fit_rows rows cols g ≡ some h)
      × (length h.rows ≡ rows)
      × History.IsValid h.scrollback
unfolding fit_rows
fit_rows_lem rows cols g v = elim (Bool-cases (ltb g.row_count rows)) [
  | inl more ↦
      let added = replicate (rows - g.row_count) (blank_row cols) in
      (
        record g { rows = g.rows ++ added },
        rw more refl,
        ground (
          arith,
          length-append g.rows added,
          length-replicate (rows - g.row_count) (blank_row cols),
          v.0.screen.0,
        ),
        v.0.history,
      )
  | inr fewer ↦
      let (h, run, count, valid) =
        pop_rows-Popped (g.row_count - rows) g v.0.history (omega (arith, v.0.screen.0)) in
      (h, rw fewer run, ground (arith, v.0.screen.0), valid)
]

pub resize-IsSafe :
    (rows cols : ℕ) (g : Grid) → 0 < rows → 0 < cols → IsValid g → IsSafe (resize rows cols g)
unfolding resize
resize-IsSafe rows cols g hr hc v =
    let (h, run, count, valid) = fit_rows_lem rows cols g v in
    (
      _,
      some_step _ _ run refl,
      (
        record {
          screen = (
            length-map (resize_to cols blank) h.rows ∙ count,
            All-map (HasWidth cols) (resize_to cols blank) h.rows (length-resize_to cols blank),
          );
          size = (hr, hc);
          region = (hr, omega arith);
          history = valid;
          marks =
              length-map (λ d. true) (resize_to rows true h.dirty)
              ∙ length-resize_to rows true h.dirty;
        },
        omega arith,
        omega arith,
      ),
    )
