-- ===== src/Grid/Lines.antt =====
-- What `insert_lines` and `delete_lines` of src/grid/mod.rs do to the rows from the cursor to the bottom of
-- the scroll region.
use lrmux.Base.{some_step}
use lrmux.Base.{ℕ, zero, suc, ◌+◌, ◌-◌, ◌≤◌, ◌<◌, ◌≡◌, ◌≢◌, refl, sym, ap, ◌∙◌, min, arith, some}
use lrmux.Base.{List, [], ◌∷◌, ◌++◌, length, set, replicate, append_assoc, length-append, true}
use lrmux.Grid.Slice.{rotate_left, rotate_right}
use lrmux.Grid.Scrollback.{store}
use lrmux.Grid.Screen.{Row, Grid, blank_row, mark_range, on_slice, blank_rows_up, in_region}
use lrmux.Grid.Screen.{insert_lines, delete_lines}
use lrmux.Grid.Middle.{
  set-middle, on_slice-middle, rotate_left-append, rotate_right-append, blank_rows_lem,
}
use lrmux.Grid.Middle.{length_ne_zero}

-- A list that is not empty has a last element.
snoc_view :
    {A : Type 0} (k : ℕ) (xs : List A)
    → length xs ≡ suc k
    → (front : List A) × (x : A) × (xs ≡ front ++ x ∷ []) × (length front ≡ k)
snoc_view k [] h = absurd (omega arith)
snoc_view zero (x ∷ []) h = ([], x, refl, refl)
snoc_view zero (x ∷ y ∷ xs) h = absurd (omega arith)
snoc_view (suc k) (x ∷ xs) h =
    let (front, last, e, size) = snoc_view k xs (omega arith) in
    (x ∷ front, last, ap (λ t. x ∷ t) e, omega (arith, size))

replicate-snoc :
    {A : Type 0} (k : ℕ) (a : A) (xs : List A) → replicate k a ++ a ∷ xs ≡ a ∷ (replicate k a ++ xs)
replicate-snoc zero a xs = refl
replicate-snoc (suc k) a xs = ap (λ t. a ∷ t) (replicate-snoc k a xs)

-- Blanking from the bottom up.
blank_rows_up_lem :
    (k : ℕ) (off pre post : List Row) (i bottom : ℕ) (line : Row)
    → length off ≡ k
    → i + (length pre + length off) ≡ bottom
    → blank_rows_up k i bottom line (pre ++ (off ++ post))
      ≡ some (pre ++ (replicate k line ++ post))
unfolding blank_rows_up
blank_rows_up_lem zero [] pre post i bottom line size at = refl
blank_rows_up_lem zero (x ∷ off) pre post i bottom line size at = absurd (omega arith)
blank_rows_up_lem (suc k) off pre post i bottom line size at =
    let (front, x, e, short) = snoc_view k off size in
    let all = (pre ++ front) ++ x ∷ post in
    let index : bottom - 1 - i ≡ length (pre ++ front) =
      omega (arith, length-append pre front, short) in
    let whole : pre ++ (off ++ post) ≡ all =
      ap (λ t. pre ++ (t ++ post)) e
      ∙ ap (λ t. pre ++ t) (append_assoc front (x ∷ []) post)
      ∙ sym (append_assoc pre front (x ∷ post)) in
    let put : set all (bottom - 1 - i) line ≡ pre ++ (front ++ line ∷ post) =
      ap (λ n. set all n line) index
      ∙ set-middle (pre ++ front) post x line
      ∙ append_assoc pre front (line ∷ post) in
    let stored : store (pre ++ (off ++ post)) (bottom - 1 - i) line
        ≡ some (pre ++ (front ++ line ∷ post)) =
      rw whole (ground (arith, put, length-append (pre ++ front) (x ∷ post))) in
    let again =
      blank_rows_up_lem k front pre (line ∷ post) (i + 1) bottom line short (omega arith) in
    ground (arith, stored, again, replicate-snoc k line post)

-- The rows from the cursor to the bottom of the region stand between `pre` and `post`, and the cursor is
-- in the region.
abbrev pub Below : Grid → List Row → List Row → List Row → Type 0
Below g pre mid post =
    (g.rows ≡ pre ++ (mid ++ post))
    × (length pre ≡ g.cursor_row)
    × (length pre + length mid ≡ g.scroll_bottom)
    × (g.scroll_top ≤ g.cursor_row)

inside :
    (g : Grid) (pre mid post : List Row)
    → Below g pre mid post
    → 0 < length mid
    → in_region g ≡ true
inside g pre mid post b h = ground arith

positive : (off : List Row) → off ≢ [] → 0 < length off
positive [] h = absurd (h refl)
positive (x ∷ off) h = omega arith

-- On a grid whose cursor is in the scroll region, with the rows `keep` and then `off` from there
-- to the bottom of the region, `insert_lines n` for an `n` that comes to the number of rows in
-- `off`, which is not zero, does not panic: the rows of `off` are lost; those of `keep` move down;
-- as many blank rows stand above them, from the cursor on; the other rows and the history stay;
-- and the rows from the cursor to the bottom of the region are marked as changed.
pub insert_lines_lem :
    (n : ℕ) (g : Grid) (pre keep off post : List Row)
    → Below g pre (keep ++ off) post
    → min n (length keep + length off) ≡ length off
    → off ≢ []
    → insert_lines n g
      ≡ some (
          mark_range g.cursor_row g.scroll_bottom (record g {
            rows = pre ++ ((replicate (length off) (blank_row g.cols) ++ keep) ++ post);
          }))
unfolding insert_lines
insert_lines_lem n g pre keep off post b en some_off =
    let (e, et, eb, above) = b in
    let k = length off in
    let line = blank_row g.cols in
    let size = length-append keep off in
    let within = inside g pre (keep ++ off) post b (omega (arith, size, positive off some_off)) in
    let count : min n (g.scroll_bottom - g.cursor_row) ≡ k = omega (arith, size) in
    let moved =
      ap (on_slice g.cursor_row g.scroll_bottom (rotate_right k)) e
      ∙ on_slice-middle pre (keep ++ off) post g.cursor_row g.scroll_bottom (rotate_right k) et eb
      ∙ ap (λ t. some (pre ++ t))
          (ap (λ t. t ++ post) (rotate_right-append keep off) ∙ append_assoc off keep post) in
    let filled =
      blank_rows_lem off pre (keep ++ post) g.cursor_row line et
      ∙ ap (λ t. some (pre ++ t)) (sym (append_assoc (replicate k line) keep post)) in
    rw (within, count, length_ne_zero off some_off)
      (some_step _ _ moved (some_step _ _ filled refl))

-- On a grid whose cursor is in the scroll region, with the rows `off` and then `keep` from there
-- to the bottom of the region, `delete_lines n` for an `n` that comes to the number of rows in
-- `off`, which is not zero, does not panic: the rows of `off` are lost; those of `keep` move up to
-- the cursor; as many blank rows stand below them; the other rows and the history stay; and the
-- rows from the cursor to the bottom of the region are marked as changed.
pub delete_lines_lem :
    (n : ℕ) (g : Grid) (pre off keep post : List Row)
    → Below g pre (off ++ keep) post
    → min n (length off + length keep) ≡ length off
    → off ≢ []
    → delete_lines n g
      ≡ some (
          mark_range g.cursor_row g.scroll_bottom (record g {
            rows = pre ++ ((keep ++ replicate (length off) (blank_row g.cols)) ++ post);
          }))
unfolding delete_lines
delete_lines_lem n g pre off keep post b en some_off =
    let (e, et, eb, above) = b in
    let k = length off in
    let line = blank_row g.cols in
    let size = length-append off keep in
    let within = inside g pre (off ++ keep) post b (omega (arith, size, positive off some_off)) in
    let count : min n (g.scroll_bottom - g.cursor_row) ≡ k = omega (arith, size) in
    let moved =
      ap (on_slice g.cursor_row g.scroll_bottom (rotate_left k)) e
      ∙ on_slice-middle pre (off ++ keep) post g.cursor_row g.scroll_bottom (rotate_left k) et eb
      ∙ ap some (
          ap (λ t. pre ++ (t ++ post)) (rotate_left-append off keep)
          ∙ ap (λ t. pre ++ t) (append_assoc keep off post)
          ∙ sym (append_assoc pre keep (off ++ post))) in
    let filled =
      blank_rows_up_lem k off (pre ++ keep) post 0 g.scroll_bottom line refl
        (omega (arith, size, length-append pre keep))
      ∙ ap some (
          append_assoc pre keep (replicate k line ++ post)
          ∙ ap (λ t. pre ++ t) (sym (append_assoc keep (replicate k line) post))) in
    rw (within, count, length_ne_zero off some_off)
      (some_step _ _ moved (some_step _ _ filled refl))
