-- ===== src/Layout/Tree.antt =====
-- The layout tree (src/layout/mod.rs): `Node`, `Layout`, and the operations that add, remove and
-- list panes. An operation on `&mut self` returns the new value beside its result.
use lrmux.Base.{ℕ, Bool, true, false, ◌||◌, ◌==◌, if◌then◌else◌, List, [], ◌∷◌, ◌++◌, length}
use lrmux.Float.{Float}

pub data SplitDir : Type 0 where
  horizontal vertical : SplitDir

pub data FocusDir : Type 0 where
  up down left right : FocusDir

-- `R` is the type of the ratios, `f64` in the source.
pub data Node (R : Type 0) : Type 0 where
  leaf : ℕ → Node R
  split : SplitDir → R → Node R → Node R → Node R

pub record Layout (R : Type 0) : Type 0 where
  pub root : Node R

module _ {R : Type 0} where
  unfoldable pub single : ℕ → Layout R
  single pane_id = record { root = leaf pane_id }

  unfoldable pub contains_node : Node R → ℕ → Bool
  contains_node (leaf id) pane_id = id == pane_id
  contains_node (split d r first second) pane_id =
      contains_node first pane_id || contains_node second pane_id

  unfoldable pub contains : Layout R → ℕ → Bool
  unfolding contains_node
  contains l pane_id = contains_node l.root pane_id

  unfoldable pub collect_ids : Node R → List ℕ → List ℕ
  collect_ids (leaf id) out = out ++ id ∷ []
  collect_ids (split d r first second) out = collect_ids second (collect_ids first out)

  unfoldable pub pane_ids : Layout R → List ℕ
  unfolding collect_ids
  pane_ids l = collect_ids l.root []

  unfoldable pub pane_count : Layout R → ℕ
  unfolding pane_ids
  pane_count l = length (pane_ids l)

  unfoldable pub split_node : Node R → ℕ → SplitDir → ℕ → R → Node R × Bool
  split_node (leaf id) target dir new_pane ratio =
      if id == target
      then (split dir ratio (leaf target) (leaf new_pane), true)
      else (leaf id, false)
  split_node (split d r first second) target dir new_pane ratio =
      let (first', found) = split_node first target dir new_pane ratio in
      let (second', found') = split_node second target dir new_pane ratio in
      if found then (split d r first' second, true) else (split d r first' second', found')

  -- `matches!(node, Node::Leaf { pane_id: id } if *id == pane_id)`.
  abbrev pub is_leaf_of : Node R → ℕ → Bool
  is_leaf_of (leaf id) pane_id = id == pane_id
  is_leaf_of (split d r first second) pane_id = false

  unfoldable pub remove_node : Node R → ℕ → Node R × Bool
  remove_node (leaf id) pane_id = (leaf id, false)
  remove_node (split d r first second) pane_id =
      let (first', found) = remove_node first pane_id in
      let (second', found') = remove_node second pane_id in
      if is_leaf_of first pane_id
      then (second, true)
      else if is_leaf_of second pane_id
      then (first, true)
      else if found
      then (split d r first' second, true)
      else (split d r first' second', found')

  unfoldable pub remove : Layout R → ℕ → Layout R × Bool
  unfolding remove_node
  remove l pane_id =
      if is_leaf_of l.root pane_id
      then (l, false)
      else let (root', found) = remove_node l.root pane_id in (record { root = root' }, found)

module _ {R : Type 0} (f : Float R) where
  -- `Layout::split`: `ratio.clamp(0.05, 0.95)`, the bounds written as quotients.
  unfoldable pub split_pane : Layout R → ℕ → SplitDir → ℕ → R → Layout R × Bool
  unfolding split_node
  split_pane l target dir new_pane ratio =
      let low = f.div (f.of_int 5) (f.of_int 100) in
      let high = f.div (f.of_int 95) (f.of_int 100) in
      let (root', found) = split_node l.root target dir new_pane (f.clamp ratio low high) in
      (record { root = root' }, found)
