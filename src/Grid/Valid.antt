-- ===== src/Grid/Valid.antt =====
-- When a grid of src/grid/mod.rs is well formed, and what keeps a list of rows in shape.
use lrmux.Base.{ℕ, zero, suc, ◌+◌, ◌-◌, ◌<◌, ◌≤◌, ◌≡◌, refl, ap, ◌∙◌, arith, Option, some, map}
use lrmux.Base.{List, [], ◌∷◌, ◌++◌, length, get_elem?, set, take, drop, replicate, All, All-append}
use lrmux.Base.{Bool, length-append, length-take, length-drop, length-set, true}
use lrmux.Grid.Slice.{rotate_left, rotate_right, length-rotate_left}
use lrmux.Grid.History
use lrmux.Grid.Screen.{Row, Grid, on_slice, mark_rows, mark_range, mark_dirty}

abbrev pub HasWidth : ℕ → Row → Type 0
HasWidth w row = length row ≡ w

-- `n` rows of `w` cells.
abbrev pub IsScreen : ℕ → ℕ → List Row → Type 0
IsScreen n w rows = (length rows ≡ n) × All (HasWidth w) rows

-- The rows and the marks have the size that the grid states, which is not zero; the scroll region is not
-- empty and lies on the screen; the history is well formed.
pub record IsShape (g : Grid) : Type 0 where
  pub screen : IsScreen g.row_count g.cols g.rows
  pub size : (0 < g.row_count) × (0 < g.cols)
  pub region : (g.scroll_top < g.scroll_bottom) × (g.scroll_bottom ≤ g.row_count)
  pub history : History.IsValid g.scrollback
  pub marks : length g.dirty ≡ g.row_count

-- The cursor is on the screen as well.
abbrev pub IsValid : Grid → Type 0
IsValid g = IsShape g × (g.cursor_row < g.row_count) × (g.cursor_col < g.cols)

-- The same size, the same region and the same place of the cursor.
abbrev pub IsAlike : Grid → Grid → Type 0
IsAlike g h =
    (h.row_count ≡ g.row_count)
    × (h.cols ≡ g.cols)
    × (h.scroll_top ≡ g.scroll_top)
    × (h.scroll_bottom ≡ g.scroll_bottom)
    × (h.cursor_row ≡ g.cursor_row)
    × (h.cursor_col ≡ g.cursor_col)

-- The operation does not panic, and keeps the shape, and where the cursor is.
abbrev pub KeepsShape : Grid → Option Grid → Type 0
KeepsShape g o = (h : Grid) × (o ≡ some h) × IsShape h × IsAlike g h

-- The operation does not panic, and its result is well formed.
abbrev pub IsSafe : Option Grid → Type 0
IsSafe o = (h : Grid) × (o ≡ some h) × IsValid h

module _ {ℓ κ} {A : Type ℓ} (P : A → Type κ) where
  pub All-take : (n : ℕ) (xs : List A) → All P xs → All P (take n xs)
  All-take zero xs h = tt
  All-take (suc n) [] h = tt
  All-take (suc n) (x ∷ xs) h = (h.0, All-take n xs h.1)

  pub All-drop : (n : ℕ) (xs : List A) → All P xs → All P (drop n xs)
  All-drop zero xs h = h
  All-drop (suc n) [] h = tt
  All-drop (suc n) (x ∷ xs) h = All-drop n xs h.1

  pub All-set : (xs : List A) (i : ℕ) (v : A) → All P xs → P v → All P (set xs i v)
  All-set [] i v h hv = tt
  All-set (x ∷ xs) zero v h hv = (hv, h.1)
  All-set (x ∷ xs) (suc i) v h hv = (h.0, All-set xs i v h.1 hv)

  pub All-replicate : (n : ℕ) (v : A) → P v → All P (replicate n v)
  All-replicate zero v h = tt
  All-replicate (suc n) v h = (h, All-replicate n v h)

  pub All-get_elem? : (xs : List A) (i : ℕ) (x : A) → All P xs → get_elem? xs i ≡ some x → P x
  All-get_elem? [] i x h e = cc
  All-get_elem? (y ∷ ys) zero x h e = ground arith
  All-get_elem? (y ∷ ys) (suc i) x h e = All-get_elem? ys i x h.1 e

  pub All-rotate_left : (n : ℕ) (xs : List A) → All P xs → All P (rotate_left n xs)
  All-rotate_left n xs h = All-append P (drop n xs) (take n xs) (All-drop n xs h) (All-take n xs h)

pub All-map :
    {A B : Type 0} (P : B → Type 0) (f : A → B) (xs : List A)
    → ((x : A) → P (f x))
    → All P (map f xs)
All-map P f [] h = tt
All-map P f (x ∷ xs) h = (h x, All-map P f xs h)

pub length-map : {A B : Type 0} (f : A → B) (xs : List A) → length (map f xs) ≡ length xs
length-map f [] = refl
length-map f (x ∷ xs) = ap suc (length-map f xs)

-- A function that keeps the length and a property of the elements.
abbrev pub Keeps : {A : Type 0} → (A → Type 0) → (List A → List A) → Type 0
Keeps P f = (ys : List _) → (length (f ys) ≡ length ys) × (All P ys → All P (f ys))

pub on_slice-Keeps :
    {A : Type 0} (P : A → Type 0) (a b : ℕ) (f : List A → List A) (xs : List A)
    → a ≤ b
    → b ≤ length xs
    → Keeps P f
    → All P xs
    → (ys : List A) × (on_slice a b f xs ≡ some ys) × (length ys ≡ length xs) × All P ys
unfolding on_slice
on_slice-Keeps P a b f xs hab hb keeps h =
    let mid = take (b - a) (drop a xs) in
    let end = drop b xs in
    (
      take a xs ++ (f mid ++ end),
      ground arith,
      omega (
        arith,
        length-append (take a xs) (f mid ++ end),
        length-append (f mid) end,
        (keeps mid).0,
        length-take a xs,
        length-take (b - a) (drop a xs),
        length-drop a xs,
        length-drop b xs,
      ),
      All-append P (take a xs) (f mid ++ end) (All-take P a xs h) (
          All-append P (f mid) end
            ((keeps mid).1 (All-take P (b - a) (drop a xs) (All-drop P a xs h)))
            (All-drop P b xs h)),
    )

module _ {A : Type 0} (P : A → Type 0) (n : ℕ) where
  pub rotate_left-Keeps : Keeps P (rotate_left n)
  rotate_left-Keeps ys = (length-rotate_left n ys, All-rotate_left P n ys)

  pub rotate_right-Keeps : Keeps P (rotate_right n)
  rotate_right-Keeps ys =
      (length-rotate_left (length ys - n) ys, All-rotate_left P (length ys - n) ys)

pub length-mark_rows : (n i : ℕ) (dirty : List Bool) → length (mark_rows n i dirty) ≡ length dirty
length-mark_rows zero i dirty = refl
length-mark_rows (suc n) i dirty =
    length-mark_rows n (i + 1) (set dirty i true) ∙ length-set dirty i true

module _ (g : Grid) (v : IsShape g) where
  pub mark_range-IsShape : (top bottom : ℕ) → IsShape (mark_range top bottom g)
  mark_range-IsShape top bottom = record {
    screen = v.screen;
    size = v.size;
    region = v.region;
    history = v.history;
    marks = length-mark_rows (bottom - top) top g.dirty ∙ v.marks;
  }

  pub mark_dirty-IsShape : (row : ℕ) → IsShape (mark_dirty row g)
  mark_dirty-IsShape row = record {
    screen = v.screen;
    size = v.size;
    region = v.region;
    history = v.history;
    marks = length-set g.dirty row true ∙ v.marks;
  }

  -- New rows of the same shape.
  pub rows-IsShape :
      (rows : List Row) → IsScreen g.row_count g.cols rows → IsShape (record g { rows = rows })
  rows-IsShape rows h = record {
    screen = h;
    size = v.size;
    region = v.region;
    history = v.history;
    marks = v.marks;
  }

  -- Where the cursor is does not matter.
  pub cursor-IsShape :
      (row col : ℕ) (pending : Bool)
      → IsShape (record g { cursor_row = row; cursor_col = col; wrap_pending = pending })
  cursor-IsShape row col pending = record {
    screen = v.screen;
    size = v.size;
    region = v.region;
    history = v.history;
    marks = v.marks;
  }

-- One row of the same width is stored.
pub set-IsScreen :
    {n w : ℕ} (rows : List Row) (i : ℕ) (row : Row)
    → IsScreen n w rows
    → HasWidth w row
    → IsScreen n w (set rows i row)
set-IsScreen rows i row h hw = (length-set rows i row ∙ h.0, All-set (HasWidth _) rows i row h.1 hw)
