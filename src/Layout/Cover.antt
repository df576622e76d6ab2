-- ===== src/Layout/Cover.antt =====
-- Where `reflow` of src/layout/mod.rs puts the panes.
use lrmux.Base.{ℕ, ◌+◌, ◌≤◌, ◌<◌, max, Bool, ◌&&◌, ◌≡◌, ◌⊎◌, refl, sym, ap, ap₂, ◌∙◌, arith, IsU16}
use lrmux.Base.{ltb, leb, if◌then◌else◌, List, [], ◌∷◌, ◌++◌, append_assoc}
use lrmux.Float.{Float}
use lrmux.Layout.Tree.{SplitDir, horizontal, vertical, Node, leaf, split, Layout, pane_ids}
use lrmux.Layout.Geometry.{Rect, split_rect, reflow_node, reflow}
use lrmux.Layout.Edit.{ids_of, pane_ids_lem}

-- Whether the cell in column `cx` and row `cy` lies in a rectangle.
abbrev pub holds : Rect → ℕ → ℕ → Bool
holds r cx cy = leb r.x cx && ltb cx (r.x + r.cols) && leb r.y cy && ltb cy (r.y + r.rows)

abbrev pub holds_count : Rect → ℕ → ℕ → ℕ
holds_count r cx cy = if holds r cx cy then 1 else 0

-- How many of the placed panes hold the cell.
abbrev pub cover : List (ℕ × Rect) → ℕ → ℕ → ℕ
cover [] cx cy = 0
cover ((id, r) ∷ rects) cx cy = holds_count r cx cy + cover rects cx cy

-- A rectangle that ends within the range of `u16`.
abbrev pub Fits : Rect → Type 0
Fits r = IsU16 (r.x + r.cols) × IsU16 (r.y + r.rows)

-- Along the axis of the split both parts keep the origin and the extent across it, and their sizes and
-- the one border cell between them, which is left out where the area has less than three cells, add
-- up to the size of the area; with two cells or more neither part is empty.
abbrev pub Partition : Rect → SplitDir → Rect × Rect → Type 0
Partition area horizontal (a, b) =
    (a ≡ record area { cols = a.cols })
    × (b ≡ record area { x = b.x; cols = b.cols })
    × (b.x + b.cols ≡ area.x + area.cols)
    × (b.x ≡ area.x + a.cols + (if leb area.cols 2 then 0 else 1))
    × ((area.cols < 2) ⊎ ((1 ≤ a.cols) × (1 ≤ b.cols)))
Partition area vertical (a, b) =
    (a ≡ record area { rows = a.rows })
    × (b ≡ record area { y = b.y; rows = b.rows })
    × (b.y + b.rows ≡ area.y + area.rows)
    × (b.y ≡ area.y + a.rows + (if leb area.rows 2 then 0 else 1))
    × ((area.rows < 2) ⊎ ((1 ≤ a.rows) × (1 ≤ b.rows)))

-- A cell is held by at most one part of a partition, and only if the area holds it.
pub holds_count-Partition :
    (area a b : Rect) (d : SplitDir) (cx cy : ℕ)
    → Partition area d (a, b)
    → Fits area
    → (holds_count a cx cy + holds_count b cx cy ≤ holds_count area cx cy) × Fits a × Fits b
holds_count-Partition area a b horizontal cx cy p fits = (ground arith, ground arith, ground arith)
holds_count-Partition area a b vertical cx cy p fits = (ground arith, ground arith, ground arith)

cover-append :
    (xs ys : List (ℕ × Rect)) (cx cy : ℕ) → cover (xs ++ ys) cx cy ≡ cover xs cx cy + cover ys cx cy
cover-append [] ys cx cy = omega arith
cover-append ((id, r) ∷ xs) ys cx cy = omega (arith, cover-append xs ys cx cy)

abbrev pub placed_ids : List (ℕ × Rect) → List ℕ
placed_ids [] = []
placed_ids ((id, r) ∷ rects) = id ∷ placed_ids rects

pub placed_ids-append :
    (xs ys : List (ℕ × Rect)) → placed_ids (xs ++ ys) ≡ placed_ids xs ++ placed_ids ys
placed_ids-append [] ys = refl
placed_ids-append ((id, r) ∷ xs) ys = ap (λ t. id ∷ t) (placed_ids-append xs ys)

module _ {R : Type 0} (f : Float R) where
  -- Whatever the ratio, `split_rect` partitions an area that ends within the range of `u16`:
  -- across the split both parts keep the origin and the extent; along it their sizes and the
  -- border cell between them, which is left out where the area has less than three cells, add up
  -- to the size of the area; and with two cells or more neither part is empty.
  pub split_rect-Partition :
      (area : Rect) (dir : SplitDir) (ratio : R)
      → Fits area
      → Partition area dir (split_rect f area dir ratio)
  unfolding split_rect
  split_rect-Partition area horizontal ratio fits = ground arith
  split_rect-Partition area vertical ratio fits = ground arith

  reflow_node_out :
      (n : Node R) (area : Rect) (out : List (ℕ × Rect))
      → reflow_node f n area out ≡ out ++ reflow_node f n area []
  unfolding reflow_node
  reflow_node_out (leaf id) area out = refl
  reflow_node_out (split d r first second) area out =
      let (a, b) = split_rect f area d r in
      reflow_node_out second b (reflow_node f first a out)
      ∙ ap (λ t. t ++ reflow_node f second b []) (reflow_node_out first a out)
      ∙ append_assoc out (reflow_node f first a []) (reflow_node f second b [])
      ∙ ap (λ t. out ++ t) (sym (reflow_node_out second b (reflow_node f first a [])))

  pub reflow_node-split :
      (d : SplitDir) (r : R) (first second : Node R) (area : Rect)
      → let (a, b) = split_rect f area d r in
        reflow_node f (split d r first second) area []
        ≡ reflow_node f first a [] ++ reflow_node f second b []
  unfolding reflow_node
  reflow_node-split d r first second area =
      let (a, b) = split_rect f area d r in reflow_node_out second b (reflow_node f first a [])

  cover-reflow_node :
      (n : Node R) (area : Rect) (cx cy : ℕ)
      → Fits area
      → cover (reflow_node f n area []) cx cy ≤ holds_count area cx cy
  cover-reflow_node (leaf id) area cx cy fits = unfold reflow_node in (omega arith)
  cover-reflow_node (split d r first second) area cx cy fits =
      let (a, b) = split_rect f area d r in
      let parts =
        holds_count-Partition area a b d cx cy (split_rect-Partition area d r fits) fits in
      rw (reflow_node-split d r first second area, cover-append)
        (omega (
          arith,
          parts.0,
          cover-reflow_node first a cx cy parts.1,
          cover-reflow_node second b cx cy parts.2,
        ))

  pub placed_ids-reflow_node :
      (n : Node R) (area : Rect) → placed_ids (reflow_node f n area []) ≡ ids_of n
  placed_ids-reflow_node (leaf id) area = unfold reflow_node in refl
  placed_ids-reflow_node (split d r first second) area =
      let (a, b) = split_rect f area d r in
      rw (reflow_node-split d r first second area, placed_ids-append)
        (ap₂ ◌++◌ (placed_ids-reflow_node first a) (placed_ids-reflow_node second b))

  pub placed_ids-reflow :
      (l : Layout R) (cols rows : ℕ) → placed_ids (reflow f l cols rows) ≡ pane_ids l
  unfolding reflow
  placed_ids-reflow l cols rows =
      placed_ids-reflow_node l.root (record { x = 0; y = 0; cols = max cols 1; rows = max rows 1 })
      ∙ sym (pane_ids_lem l)

  -- In a window whose size is a `u16`, `reflow` places every pane of the layout once, in tree order. Every
  -- cell is held by no pane, or it is held by exactly one and lies in the window, which counts as one
  -- column wide or one row high where that size is zero.
  pub reflow-cover :
      (l : Layout R) (cols rows cx cy : ℕ)
      → IsU16 cols
      → IsU16 rows
      → (placed_ids (reflow f l cols rows) ≡ pane_ids l)
        × ((cover (reflow f l cols rows) cx cy ≡ 0)
            ⊎ ((cover (reflow f l cols rows) cx cy ≡ 1) × (cx < max cols 1) × (cy < max rows 1)))
  unfolding reflow
  reflow-cover l cols rows cx cy hc hr =
      let area : Rect = record { x = 0; y = 0; cols = max cols 1; rows = max rows 1 } in
      let most = cover-reflow_node l.root area cx cy (omega arith, omega arith) in
      (placed_ids-reflow_node l.root area ∙ sym (pane_ids_lem l), ground arith)
