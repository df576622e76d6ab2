-- ===== src/Grid/Scroll.antt =====
-- What scrolling does to the rows of src/grid/mod.rs: which rows move, which go to the history, and which
-- are blanked.
use lrmux.Base.{some_step}
use lrmux.Base.{ℕ, suc, ◌+◌, ◌-◌, ◌≡◌, ◌≢◌, refl, sym, ap, ap₂, ◌∙◌, min, arith}
use lrmux.Base.{some, List, [], ◌∷◌, ◌++◌, length, get_elem?, set, replicate, append-nil}
use lrmux.Base.{append_assoc, length-append, length-replicate}
use lrmux.Grid.Slice.{rotate_left, rotate_right}
use lrmux.Grid.Scrollback
use lrmux.Grid.Scrollback.{Scrollback, store}
use lrmux.Grid.History
use lrmux.Grid.History.{contents, remember, push-remember}
use lrmux.Grid.Middle.{
  get_elem?-middle, set-middle, on_slice-middle, rotate_left-append, rotate_right-append,
}
use lrmux.Grid.Middle.{blank_rows_lem, length_ne_zero}
use lrmux.Grid.Screen.{Row, Grid, checked_sub, blank_row, mark_range, on_slice, save_rows}
use lrmux.Grid.Screen.{scroll_up, scroll_down}

-- The history after the rows of a list are pushed in turn.
abbrev pub remember_all : {A : Type 0} → ℕ → List A → List A → List A
remember_all capacity rows [] = rows
remember_all capacity rows (x ∷ xs) = remember_all capacity (remember capacity rows x) xs

-- The grid after `off`, which stood between `pre` and `rest`, went to the history `h`.
abbrev pub saved : Grid → Scrollback Row → List Row → List Row → List Row → Grid
saved g h pre off rest = record g {
  rows = pre ++ (replicate (length off) (blank_row g.cols) ++ rest);
  scrollback = h;
  pending_scrollback = g.pending_scrollback ++ off;
}

pub record Kept (g : Grid) (h : Scrollback Row) (off : List Row) : Type 0 where
  pub valid : History.IsValid h
  pub same : h.capacity ≡ g.scrollback.capacity
  pub rows : contents h ≡ remember_all g.scrollback.capacity (contents g.scrollback) off

save_rows_step :
    (n i : ℕ) (g : Grid) (x : Row) (h : Scrollback Row)
    → get_elem? g.rows i ≡ some x
    → Scrollback.push g.scrollback x ≡ some h
    → save_rows (suc n) i g
      ≡ save_rows n (i + 1) (record g {
        rows = set g.rows i (blank_row g.cols);
        scrollback = h;
        pending_scrollback = g.pending_scrollback ++ x ∷ [];
      })
unfolding save_rows
save_rows_step n i g x h at pushed = ground (arith)

save_rows_lem :
    (off pre rest : List Row) (i : ℕ) (g : Grid)
    → History.IsValid g.scrollback
    → g.rows ≡ pre ++ (off ++ rest)
    → length pre ≡ i
    → (h : Scrollback Row) × (save_rows (length off) i g ≡ some (saved g h pre off rest))
      × Kept g h off
unfolding save_rows
save_rows_lem [] pre rest i g v e ei = (
  g.scrollback,
  ground (arith, append-nil g.pending_scrollback),
  record { valid = v; same = refl; rows = refl },
)
save_rows_lem (x ∷ off) pre rest i g v e ei =
    let (h1, pushed, v1, same1, rows1) = push-remember g.scrollback x v in
    let line = blank_row g.cols in
    let at : get_elem? g.rows i ≡ some x =
      ap₂ get_elem? e (sym ei) ∙ get_elem?-middle pre (off ++ rest) x in
    let put : set g.rows i line ≡ pre ++ line ∷ (off ++ rest) =
      ap₂ (λ r n. set r n line) e (sym ei) ∙ set-middle pre (off ++ rest) x line in
    let g1 : Grid = record g {
      rows = set g.rows i line;
      scrollback = h1;
      pending_scrollback = g.pending_scrollback ++ x ∷ [];
    } in
    let (h, run, kept) =
      save_rows_lem off (pre ++ line ∷ []) rest (i + 1) g1 v1
        (put ∙ sym (append_assoc pre (line ∷ []) (off ++ rest)))
        (omega (arith, length-append pre (line ∷ []))) in
    (
      h,
      save_rows_step (length off) i g x h1 at pushed
          ∙ run
          ∙ ap₂ (λ r p. some (record g { rows = r; scrollback = h; pending_scrollback = p }))
              (append_assoc pre (line ∷ []) (replicate (length off) line ++ rest))
              (append_assoc g.pending_scrollback (x ∷ []) off),
      record {
        valid = kept.valid;
        same = kept.same ∙ same1;
        rows = kept.rows ∙ ap₂ (λ c r. remember_all c r off) same1 rows1;
      },
    )

-- The rows of a grid as its scroll region stands between `pre` and `post`.
abbrev pub Region : Grid → List Row → List Row → List Row → Type 0
Region g pre mid post =
    (g.rows ≡ pre ++ (mid ++ post))
    × (length pre ≡ g.scroll_top)
    × (length pre + length mid ≡ g.scroll_bottom)

-- On a grid with a well-formed history, whose scroll region holds the rows `off` and then `keep`,
-- `scroll_up n` for an `n` that comes to the number of rows in `off`, which is not zero, does not
-- panic: the rows of `off` go to the history and to the rows waiting for the clients, in order;
-- those of `keep` move up; as many blank rows as went stand below them; the rows outside the
-- region stay; and the rows of the region are marked as changed.
pub scroll_up_lem :
    (n : ℕ) (g : Grid) (pre off keep post : List Row)
    → History.IsValid g.scrollback
    → Region g pre (off ++ keep) post
    → min n (length off + length keep) ≡ length off
    → off ≢ []
    → let rows' = pre ++ ((keep ++ replicate (length off) (blank_row g.cols)) ++ post) in
      (h : Scrollback Row) × (scroll_up n g
        ≡ some (
            mark_range g.scroll_top g.scroll_bottom (record g {
              rows = rows';
              scrollback = h;
              pending_scrollback = g.pending_scrollback ++ off;
            })))
      × Kept g h off
unfolding scroll_up
scroll_up_lem n g pre off keep post v (e, et, eb) en some_off =
    let k = length off in
    let lines = replicate k (blank_row g.cols) in
    let blanks = length-replicate k (blank_row g.cols) in
    let size : checked_sub g.scroll_bottom g.scroll_top ≡ some (g.scroll_bottom - g.scroll_top) =
      ground arith in
    let count : min n (g.scroll_bottom - g.scroll_top) ≡ k =
      omega (arith, length-append off keep) in
    let split = ap (λ t. pre ++ t) (append_assoc off keep post) in
    let (h, run, kept) = save_rows_lem off pre (keep ++ post) g.scroll_top g v (e ∙ split) et in
    let moved =
      ap (λ t. on_slice g.scroll_top g.scroll_bottom (rotate_left k) (pre ++ t))
        (sym (append_assoc lines keep post))
      ∙ on_slice-middle pre (lines ++ keep) post g.scroll_top g.scroll_bottom (rotate_left k) et
          (omega (arith, length-append off keep, length-append lines keep))
      ∙ ap (λ t. some (pre ++ (t ++ post)))
          (ap (λ i. rotate_left i (lines ++ keep)) (sym blanks) ∙ rotate_left-append lines keep) in
    (
      h,
      some_step _ _ size
          (rw (count, length_ne_zero off some_off) (some_step _ _ run (some_step _ _ moved refl))),
      kept,
    )

-- On a grid whose scroll region holds the rows `keep` and then `off`, `scroll_down n` for an `n`
-- that comes to the number of rows in `off`, which is not zero, does not panic: the rows of `off`
-- are lost; those of `keep` move down; as many blank rows stand above them; the rows outside the
-- region and the history stay; and the rows of the region are marked as changed.
pub scroll_down_lem :
    (n : ℕ) (g : Grid) (pre keep off post : List Row)
    → Region g pre (keep ++ off) post
    → min n (length keep + length off) ≡ length off
    → off ≢ []
    → scroll_down n g
      ≡ some (
          mark_range g.scroll_top g.scroll_bottom (record g {
            rows = pre ++ ((replicate (length off) (blank_row g.cols) ++ keep) ++ post);
          }))
unfolding scroll_down
scroll_down_lem n g pre keep off post (e, et, eb) en some_off =
    let k = length off in
    let line = blank_row g.cols in
    let size : checked_sub g.scroll_bottom g.scroll_top ≡ some (g.scroll_bottom - g.scroll_top) =
      ground arith in
    let count : min n (g.scroll_bottom - g.scroll_top) ≡ k =
      omega (arith, length-append keep off) in
    let moved =
      ap (on_slice g.scroll_top g.scroll_bottom (rotate_right k)) e
      ∙ on_slice-middle pre (keep ++ off) post g.scroll_top g.scroll_bottom (rotate_right k) et eb
      ∙ ap (λ t. some (pre ++ t))
          (ap (λ t. t ++ post) (rotate_right-append keep off) ∙ append_assoc off keep post) in
    let filled =
      blank_rows_lem off pre (keep ++ post) g.scroll_top line et
      ∙ ap (λ t. some (pre ++ t)) (sym (append_assoc (replicate k line) keep post)) in
    some_step _ _ size
      (rw (count, length_ne_zero off some_off) (some_step _ _ moved (some_step _ _ filled refl)))
