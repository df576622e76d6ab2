-- ===== src/Layout/Geometry.antt =====
-- The geometry of a layout (src/layout/mod.rs): `Rect`, `split_rect`, `reflow` and `leaf_rect`.
use lrmux.Base.{ℕ, ◌-◌, max, ltb, leb, ◌==◌, if◌then◌else◌, List, [], ◌∷◌, ◌++◌}
use lrmux.Base.{add16, sat_add16}
use lrmux.Float.{Float}
use lrmux.Layout.Tree.{SplitDir, horizontal, vertical, Node, leaf, split, Layout}

pub record Rect : Type 0 where
  pub x : ℕ
  pub y : ℕ
  pub cols : ℕ
  pub rows : ℕ

-- `Ord::clamp` on `u16`.
abbrev pub clamp16 : ℕ → ℕ → ℕ → ℕ
clamp16 n low high = if ltb n low then low else if ltb high n then high else n

abbrev pub leaf_rect : List (ℕ × Rect) → ℕ → Rect
leaf_rect [] pane_id = record { x = 0; y = 0; cols = 1; rows = 1 }
leaf_rect ((id, r) ∷ rects) pane_id = if id == pane_id then r else leaf_rect rects pane_id

module _ {R : Type 0} (f : Float R) where
  unfoldable pub split_rect : Rect → SplitDir → R → Rect × Rect
  split_rect area horizontal ratio =
      if leb area.cols 2
      then (let left = max (area.cols - 1) (if ltb 0 area.cols then 1 else 0) in
          let right = area.cols - left in
          (record area { cols = left }, record area { x = sat_add16 area.x left; cols = right }))
      else (let usable = area.cols - 1 in
          let left = clamp16 (f.round_u16 (f.mul (f.of_int usable) ratio)) 1 (usable - 1) in
          let right = usable - left in
          (
            record area { cols = left },
            record area { x = add16 (add16 area.x left) 1; cols = right },
          ))
  split_rect area vertical ratio =
      if leb area.rows 2
      then (let top = max (area.rows - 1) (if ltb 0 area.rows then 1 else 0) in
          let bottom = area.rows - top in
          (record area { rows = top }, record area { y = sat_add16 area.y top; rows = bottom }))
      else (let usable = area.rows - 1 in
          let top = clamp16 (f.round_u16 (f.mul (f.of_int usable) ratio)) 1 (usable - 1) in
          let bottom = usable - top in
          (
            record area { rows = top },
            record area { y = add16 (add16 area.y top) 1; rows = bottom },
          ))

  unfoldable pub reflow_node : Node R → Rect → List (ℕ × Rect) → List (ℕ × Rect)
  reflow_node (leaf id) area out = out ++ (id, area) ∷ []
  reflow_node (split dir ratio first second) area out =
      let (a, b) = split_rect area dir ratio in reflow_node second b (reflow_node first a out)

  unfoldable pub reflow : Layout R → ℕ → ℕ → List (ℕ × Rect)
  unfolding reflow_node
  reflow l cols rows =
      reflow_node l.root (record { x = 0; y = 0; cols = max cols 1; rows = max rows 1 }) []
