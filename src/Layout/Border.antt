-- ===== src/Layout/Border.antt =====
-- `Layout::resize_border` of src/layout/mod.rs. An operation on `&mut` returns the new value beside its
-- result. A signed amount is a direction, `true` for growth, and a size.
use lrmux.Base.{ℕ, ◌+◌, ◌-◌, max, Bool, true, false, not, ◌&&◌, ◌||◌, leb, ◌==◌, if◌then◌else◌}
use lrmux.Float.{Float}
use lrmux.Layout.Tree.{
  SplitDir, horizontal, vertical, FocusDir, up, down, left, right, Node, leaf, split, Layout,
  contains_node, contains,
}
use lrmux.Layout.Geometry.{Rect, clamp16, split_rect}

-- The extent along an axis.
abbrev pub extent : SplitDir → Rect → ℕ
extent horizontal r = r.cols
extent vertical r = r.rows

-- `*dir == axis`
abbrev pub same_axis : SplitDir → SplitDir → Bool
same_axis horizontal horizontal = true
same_axis vertical vertical = true
same_axis d e = false

-- `(first_size + delta).clamp(1, usable - 1)`; below zero is below one.
abbrev pub moved : Bool → ℕ → ℕ → ℕ → ℕ
moved grow amount first_size usable =
    clamp16 (if grow then first_size + amount else first_size - amount) 1 (usable - 1)

-- `delta` is `change` for a pane in the first part and `-change` for one in the second.
abbrev pub first_grows : Bool → Bool → Bool
first_grows in_first grow = if in_first then grow else not grow

-- The axis, and whether the pane grows.
abbrev pub axis_of : FocusDir → SplitDir × Bool
axis_of right = (horizontal, true)
axis_of left = (horizontal, false)
axis_of down = (vertical, true)
axis_of up = (vertical, false)

module _ {R : Type 0} (f : Float R) where
  -- The end of `apply_size_change`: this split's own ratio.
  unfoldable pub move_divider : Node R → SplitDir → Bool → ℕ → Rect → Node R × Bool
  move_divider (leaf id) axis grow amount area = (leaf id, false)
  move_divider (split dir ratio first second) axis grow amount area =
      let (a, b) = split_rect f area dir ratio in
      let usable = extent axis area - 1 in
      let new_first = moved grow amount (extent axis a) usable in
      if not (same_axis dir axis) || leb (extent axis area) 2 || new_first == extent axis a
      then (split dir ratio first second, false)
      else (split dir (f.div (f.of_int new_first) (f.of_int usable)) first second, true)

  -- The arm of a split, with what the calls on its two parts give: `first'` and `second'` with their
  -- results, which count where the part holds the pane.
  unfoldable pub settle :
      SplitDir
      → R
      → Node R
      → Node R
      → Bool
      → Bool
      → Node R × Bool
      → Node R × Bool
      → SplitDir
      → Bool
      → ℕ
      → Rect
      → Node R × Bool
  settle dir ratio first second in_first in_second (first', done) (second', done') axis grow amount
        area =
      if not in_first && not in_second
      then (split dir ratio first second, false)
      else if in_first && done
      then (split dir ratio first' second, true)
      else let tried = if in_first then first' else first in
        if in_second && done'
        then (split dir ratio tried second', true)
        else move_divider (split dir ratio tried (if in_second then second' else second)) axis
            (first_grows in_first grow) amount area

  unfoldable pub apply_size_change : Node R → ℕ → SplitDir → Bool → ℕ → Rect → Node R × Bool
  apply_size_change (leaf id) pane axis grow amount area = (leaf id, false)
  apply_size_change (split dir ratio first second) pane axis grow amount area =
      let (a, b) = split_rect f area dir ratio in
      settle dir ratio first second (contains_node first pane) (contains_node second pane)
        (apply_size_change first pane axis grow amount a)
        (apply_size_change second pane axis grow amount b) axis grow amount area

  -- The callers pass a `u16` as the amount.
  unfoldable pub resize_border : Layout R → ℕ → FocusDir → ℕ → ℕ → ℕ → Layout R × Bool
  resize_border l pane_id dir amount cols rows =
      let (axis, grow) = axis_of dir in
      let area : Rect = record { x = 0; y = 0; cols = max cols 1; rows = max rows 1 } in
      let (root', done) = apply_size_change l.root pane_id axis grow amount area in
      if amount == 0 || not (contains l pane_id)
      then (l, false)
      else (record { root = root' }, done)
