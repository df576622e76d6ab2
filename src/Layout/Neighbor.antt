-- ===== src/Layout/Neighbor.antt =====
-- `Layout::neighbor` of src/layout/mod.rs. A distance along the axis is kept only if it is 1 or more, so
-- all the distances are natural numbers.
use lrmux.Base.{ℕ, ◌+◌, ◌-◌, ◌/◌, Bool, false, ◌&&◌, ◌||◌, ltb, leb, ◌==◌, if◌then◌else◌}
use lrmux.Base.{Option, none, some, List, [], ◌∷◌, add16, sat_add16}
use lrmux.Float.{Float}
use lrmux.Layout.Tree.{FocusDir, up, down, left, right, Layout}
use lrmux.Layout.Geometry.{Rect, leaf_rect, reflow}

unfoldable pub ranges_overlap : ℕ → ℕ → ℕ → ℕ → Bool
ranges_overlap a0 a_len b0 b_len =
    let a1 = sat_add16 a0 a_len in let b1 = sat_add16 b0 b_len in ltb a0 b1 && ltb b0 a1

-- `(a - b).abs()`
abbrev pub abs_diff : ℕ → ℕ → ℕ
abs_diff a b = if leb a b then b - a else a - b

-- The distance of the centers across the axis.
abbrev pub across_x : Rect → Rect → ℕ
across_x src r = abs_diff (src.x + src.cols / 2) (r.x + r.cols / 2)

abbrev pub across_y : Rect → Rect → ℕ
across_y src r = abs_diff (src.y + src.rows / 2) (r.y + r.rows / 2)

-- The arms of the match on `dir`: `(primary, secondary)`, or `none` where the test fails.
unfoldable pub distances : FocusDir → Rect → Rect → Option (ℕ × ℕ)
unfolding ranges_overlap
distances left src r =
    let edge = add16 r.x r.cols in
    if ltb edge src.x && ranges_overlap src.y src.rows r.y r.rows
    then some (src.x - edge, across_y src r)
    else none
distances right src r =
    let edge = add16 src.x src.cols in
    if ltb edge r.x && ranges_overlap src.y src.rows r.y r.rows
    then some (r.x - edge, across_y src r)
    else none
distances up src r =
    let edge = add16 r.y r.rows in
    if ltb edge src.y && ranges_overlap src.x src.cols r.x r.cols
    then some (src.y - edge, across_x src r)
    else none
distances down src r =
    let edge = add16 src.y src.rows in
    if ltb edge r.y && ranges_overlap src.x src.cols r.x r.cols
    then some (r.y - edge, across_x src r)
    else none

abbrev pub Best : Type 0
Best = Option (ℕ × ℕ × ℕ)

-- `primary < bp || (primary == bp && secondary < bs)`
abbrev pub closer : ℕ → ℕ → ℕ → ℕ → Bool
closer primary secondary bp bs = ltb primary bp || (primary == bp && ltb secondary bs)

-- The match on `best`.
abbrev pub improve : ℕ → ℕ × ℕ → Best → Best
improve id (primary, secondary) none = some (id, primary, secondary)
improve id (primary, secondary) (some (b, bp, bs)) =
    if closer primary secondary bp bs then some (id, primary, secondary) else some (b, bp, bs)

-- One turn of the loop.
unfoldable pub consider : FocusDir → ℕ → Rect → ℕ × Rect → Best → Best
consider dir from src (id, r) best =
    if id == from
    then best
    else elim (distances dir src r) [ none ↦ best | some found ↦ improve id found best ]

unfoldable pub best_of : FocusDir → ℕ → Rect → List (ℕ × Rect) → Best → Best
best_of dir from src [] best = best
best_of dir from src (entry ∷ rects) best =
    best_of dir from src rects (consider dir from src entry best)

-- `rects.iter().any(|(id, _)| *id == from)`
abbrev pub is_placed : List (ℕ × Rect) → ℕ → Bool
is_placed [] from = false
is_placed ((id, r) ∷ rects) from = id == from || is_placed rects from

abbrev pub id_of_best : Best → Option ℕ
id_of_best none = none
id_of_best (some (id, primary, secondary)) = some id

unfoldable pub neighbor : {R : Type 0} → Float R → Layout R → ℕ → FocusDir → ℕ → ℕ → Option ℕ
neighbor f l from dir cols rows =
    let rects = reflow f l cols rows in
    let src = leaf_rect rects from in
    if is_placed rects from then id_of_best (best_of dir from src rects none) else none
