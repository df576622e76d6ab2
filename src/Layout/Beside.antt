-- ===== src/Layout/Beside.antt =====
-- Where the pane that `Layout::neighbor` of src/layout/mod.rs chooses lies.
use lrmux.Base.{ℕ, ◌+◌, ◌<◌, max, true, ◌≡◌, ◌≢◌, sym, subst, arith, IsU16}
use lrmux.Base.{none, some, List, [], ◌∷◌, All, All-append, Bool-cases, Option-cases, inl, inr}
use mathlib.Core.List.{Memᴰ}
use mathlib.Core.List.Memᴰ.{head, tail}
use lrmux.Float.{Float}
use lrmux.Layout.Tree.{FocusDir, up, down, left, right, Node, leaf, split, Layout}
use lrmux.Layout.Geometry.{Rect, leaf_rect, reflow, reflow_node, split_rect}
use lrmux.Layout.Cover.{Fits, holds_count-Partition, split_rect-Partition, reflow_node-split}
use lrmux.Layout.Neighbor.{distances, best_of, is_placed, neighbor}
use lrmux.Layout.Nearest.{IsOneOf, best_of-IsOneOf}

-- The second rectangle lies beyond a border on that side of the first, and they share a row or a column.
abbrev pub IsBeside : FocusDir → Rect → Rect → Type 0
IsBeside left a b = (b.x + b.cols < a.x) × (a.y < b.y + b.rows) × (b.y < a.y + a.rows)
IsBeside right a b = (a.x + a.cols < b.x) × (a.y < b.y + b.rows) × (b.y < a.y + a.rows)
IsBeside up a b = (b.y + b.rows < a.y) × (a.x < b.x + b.cols) × (b.x < a.x + a.cols)
IsBeside down a b = (a.y + a.rows < b.y) × (a.x < b.x + b.cols) × (b.x < a.x + a.cols)

distances-IsBeside :
    (dir : FocusDir) (a b : Rect) (d : ℕ × ℕ)
    → Fits a
    → Fits b
    → distances dir a b ≡ some d
    → IsBeside dir a b
unfolding distances
distances-IsBeside left a b d ha hb h = ground arith
distances-IsBeside right a b d ha hb h = ground arith
distances-IsBeside up a b d ha hb h = ground arith
distances-IsBeside down a b d ha hb h = ground arith

abbrev FitsEntry : ℕ × Rect → Type 0
FitsEntry (id, r) = Fits r

All-Mem : {A : Type 0} (P : A → Type 0) (xs : List A) (x : A) → All P xs → Memᴰ x xs → P x
All-Mem P [] x h m = elim m [ ]
All-Mem P (y ∷ xs) x h (head e) = subst P (sym e) h.0
All-Mem P (y ∷ xs) x h (tail m) = All-Mem P xs x h.1 m

leaf_rect-Fits :
    (rects : List (ℕ × Rect)) (id : ℕ) → All FitsEntry rects → Fits (leaf_rect rects id)
leaf_rect-Fits [] id h = (omega arith, omega arith)
leaf_rect-Fits ((id', r) ∷ rects) id h = ground (arith, leaf_rect-Fits rects id h.1)

module _ {R : Type 0} (f : Float R) where
  reflow_node-Fits :
      (n : Node R) (area : Rect) → Fits area → All FitsEntry (reflow_node f n area [])
  reflow_node-Fits (leaf id) area h = unfold reflow_node in (h, tt)
  reflow_node-Fits (split d r first second) area h =
      let (a, b) = split_rect f area d r in
      let parts = holds_count-Partition area a b d 0 0 (split_rect-Partition f area d r h) h in
      rw (reflow_node-split f d r first second area) (
        All-append FitsEntry (reflow_node f first a []) (reflow_node f second b [])
          (reflow_node-Fits first a parts.1) (reflow_node-Fits second b parts.2))

  pub reflow-Fits :
      (l : Layout R) (cols rows : ℕ)
      → IsU16 cols
      → IsU16 rows
      → All FitsEntry (reflow f l cols rows)
  unfolding reflow
  reflow-Fits l cols rows hc hr =
      reflow_node-Fits l.root (record { x = 0; y = 0; cols = max cols 1; rows = max rows 1 })
        (omega arith, omega arith)

  -- In a window whose size is a `u16`, a pane that `neighbor` answers is another pane that the
  -- layout places, the pane to leave is placed, and the answer lies beyond a border on the side
  -- asked for and shares a row, or a column, with the pane to leave.
  pub neighbor-IsBeside :
      (l : Layout R) (from : ℕ) (dir : FocusDir) (cols rows id : ℕ)
      → IsU16 cols
      → IsU16 rows
      → neighbor f l from dir cols rows ≡ some id
      → (r : Rect) × Memᴰ (id, r) (reflow f l cols rows)
        × (id ≢ from)
        × (is_placed (reflow f l cols rows) from ≡ true)
        × IsBeside dir (leaf_rect (reflow f l cols rows) from) r
  unfolding neighbor
  neighbor-IsBeside l from dir cols rows id hc hr h =
      let rects = reflow f l cols rows in
      let fits = reflow-Fits l cols rows hc hr in
      let src = leaf_rect rects from in
      let one = best_of-IsOneOf dir from src rects rects none (λ e m'. m') tt in
      elim (Bool-cases (is_placed rects from)) [
        | inr out ↦ ground arith
        | inl placed ↦ elim (Option-cases (best_of dir from src rects none)) [
          | inl e ↦ ground arith
          | inr ((id', p, s), e) ↦
              let (r, m, other, near) = subst (IsOneOf dir from src rects) e one in
              let same : id' ≡ id = ground arith in
              subst
                (λ i.
                  (r : Rect) × Memᴰ (i, r) rects
                  × (i ≢ from)
                  × (is_placed rects from ≡ true)
                  × IsBeside dir src r)
                same
                (
                  r,
                  m,
                  other,
                  placed,
                  distances-IsBeside dir src r (p, s) (leaf_rect-Fits rects from fits)
                      (All-Mem FitsEntry rects (id', r) fits m) near,
                )
        ]
      ]
