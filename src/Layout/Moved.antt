-- ===== src/Layout/Moved.antt =====
-- The divider that `Layout::resize_border` of src/layout/mod.rs moves.
use lrmux.Base.{ℕ, ◌-◌, ◌≤◌, ◌<◌, max, Bool, true, false, not, ◌||◌, ◌≡◌, ◌≢◌, refl, arith, IsU16}
use lrmux.Base.{leb, ◌==◌, Bool-cases, inl, inr, subst, sym}
use mathlib.Core.Bool.{false≢true}
use lrmux.Float.{Float}
use lrmux.Layout.Tree.{
  SplitDir, horizontal, vertical, FocusDir, Node, leaf, split, Layout, contains_node, contains,
}
use lrmux.Layout.Geometry.{Rect, split_rect}
use lrmux.Layout.Cover.{Fits, split_rect-Partition, holds_count-Partition}
use lrmux.Layout.Border.{
  extent, same_axis, moved, first_grows, move_divider, settle, apply_size_change, axis_of,
  resize_border,
}
use lrmux.Layout.Divider.{IsKept, unchanged, apply_size_change-IsKept}

-- The ratio `k / u` of two sizes, multiplied by `u` and rounded, is `k` again.
abbrev pub IsExact : {R : Type 0} → Float R → Type 0
IsExact f =
    (k u : ℕ)
    → 1 ≤ k
    → k < u
    → IsU16 u
    → f.round_u16 (f.mul (f.of_int u) (f.div (f.of_int k) (f.of_int u))) ≡ k

module _ {R : Type 0} (f : Float R) where
  -- One divider along the axis moved: `pane` is in one of its parts, and the size of the first part
  -- is changed by the amount, for a pane in the second part the other way, and stays between 1 and
  -- the size of both parts less 1.
  pub data IsMoved (pane : ℕ) (axis : SplitDir) (grow : Bool) (amount : ℕ)
      : Node R → Node R → Rect → Type 0 where
    moved_here :
        {r r' : R} {first second : Node R} {area : Rect}
        → (contains_node first pane || contains_node second pane) ≡ true
        → extent axis (split_rect f area axis r').0
          ≡ moved
              (first_grows (contains_node first pane) grow)
              amount
              (extent axis (split_rect f area axis r).0)
              (extent axis area - 1)
        → extent axis (split_rect f area axis r').0 ≢ extent axis (split_rect f area axis r).0
        → IsMoved pane axis grow amount
            (split axis r first second)
            (split axis r' first second)
            area
    moved_first :
        {d : SplitDir} {r : R} {first first' second : Node R} {area : Rect}
        → IsMoved pane axis grow amount first first' (split_rect f area d r).0
        → IsMoved pane axis grow amount (split d r first second) (split d r first' second) area
    moved_second :
        {d : SplitDir} {r : R} {first second second' : Node R} {area : Rect}
        → IsMoved pane axis grow amount second second' (split_rect f area d r).1
        → IsMoved pane axis grow amount (split d r first second) (split d r first second') area

  -- This split's own divider.
  move_divider_size :
      (axis : SplitDir) (r : R) (area : Rect) (new_first : ℕ)
      → IsExact f
      → Fits area
      → 2 < extent axis area
      → 1 ≤ new_first
      → new_first < extent axis area - 1
      → extent axis
          (split_rect f area axis (f.div (f.of_int new_first) (f.of_int (extent axis area - 1)))).0
        ≡ new_first
  unfolding split_rect
  move_divider_size horizontal r area n exact fits big low high =
      ground (arith, exact n (area.cols - 1) low high (omega arith))
  move_divider_size vertical r area n exact fits big low high =
      ground (arith, exact n (area.rows - 1) low high (omega arith))

  move_divider_here :
      (pane : ℕ) (axis : SplitDir) (r : R) (first second : Node R) (grow : Bool) (amount : ℕ)
      (area : Rect)
      → IsExact f
      → Fits area
      → (contains_node first pane || contains_node second pane) ≡ true
      → (move_divider f
          (split axis r first second)
          axis
          (first_grows (contains_node first pane) grow)
          amount
          area).1
        ≡ true
      → IsMoved pane axis grow amount
          (split axis r first second)
          (move_divider f
            (split axis r first second)
            axis
            (first_grows (contains_node first pane) grow)
            amount
            area).0
          area
  unfolding move_divider
  move_divider_here pane axis r first second grow amount area exact fits within h =
      let old = extent axis (split_rect f area axis r).0 in
      let size =
        moved (first_grows (contains_node first pane) grow) amount old (extent axis area - 1) in
      elim (Bool-cases (not (same_axis axis axis) || leb (extent axis area) 2 || size == old)) [
        | inl stop ↦ ground arith
        | inr moves ↦
            let kept =
              move_divider_size axis r area size exact fits (ground arith) (ground arith)
                (ground arith) in
            rw moves (moved_here within kept (λ e. ground arith))
      ]

  move_divider-IsMoved :
      (pane : ℕ) (axis d : SplitDir) (r : R) (first second : Node R) (grow : Bool) (amount : ℕ)
      (area : Rect)
      → IsExact f
      → Fits area
      → (contains_node first pane || contains_node second pane) ≡ true
      → (move_divider f
          (split d r first second)
          axis
          (first_grows (contains_node first pane) grow)
          amount
          area).1
        ≡ true
      → IsMoved pane axis grow amount
          (split d r first second)
          (move_divider f
            (split d r first second)
            axis
            (first_grows (contains_node first pane) grow)
            amount
            area).0
          area
  move_divider-IsMoved pane horizontal horizontal r first second grow amount area exact fits within
        h =
      move_divider_here pane horizontal r first second grow amount area exact fits within h
  move_divider-IsMoved pane vertical vertical r first second grow amount area exact fits within h =
      move_divider_here pane vertical r first second grow amount area exact fits within h
  move_divider-IsMoved pane horizontal vertical r first second grow amount area exact fits within
        h =
      absurd (false≢true (unfold move_divider in h))
  move_divider-IsMoved pane vertical horizontal r first second grow amount area exact fits within
        h =
      absurd (false≢true (unfold move_divider in h))

  -- The same where the parts were tried before, and stayed as they are.
  move_divider_tried :
      (pane : ℕ) (axis d : SplitDir) (r : R) (first second first' second' : Node R)
      (in_first : Bool) (grow : Bool) (amount : ℕ) (area : Rect)
      → IsExact f
      → Fits area
      → (contains_node first pane || contains_node second pane) ≡ true
      → first' ≡ first
      → second' ≡ second
      → in_first ≡ contains_node first pane
      → (move_divider f (split d r first' second') axis (first_grows in_first grow) amount area).1
        ≡ true
      → IsMoved pane axis grow amount
          (split d r first second)
          (move_divider f (split d r first' second') axis (first_grows in_first grow) amount area).0
          area
  move_divider_tried pane axis d r first second first' second' in_first grow amount area exact fits
        within e e' i =
      rw (e, e', i)
        (move_divider-IsMoved pane axis d r first second grow amount area exact fits within)

  settle-IsMoved :
      (pane : ℕ) (axis d : SplitDir) (r : R) (first second : Node R) (in_first in_second : Bool)
      (p q : Node R × Bool) (grow : Bool) (amount : ℕ) (area : Rect)
      → IsExact f
      → Fits area
      → in_first ≡ contains_node first pane
      → in_second ≡ contains_node second pane
      → IsKept first p
      → IsKept second q
      → (p.1 ≡ true → IsMoved pane axis grow amount first p.0 (split_rect f area d r).0)
      → (q.1 ≡ true → IsMoved pane axis grow amount second q.0 (split_rect f area d r).1)
      → (settle f d r first second in_first in_second p q axis grow amount area).1 ≡ true
      → IsMoved pane axis grow amount
          (split d r first second)
          (settle f d r first second in_first in_second p q axis grow amount area).0
          area
  unfolding settle
  settle-IsMoved pane axis d r first second false false p q grow amount area exact fits i j hp hq mp
        mq h =
      absurd (false≢true h)
  settle-IsMoved pane axis d r first second true in_second' (first', true) q grow amount area exact
        fits i j hp hq mp mq h =
      moved_first (mp refl)
  settle-IsMoved pane axis d r first second true true (first', false) (second', true) grow amount
        area exact fits i j hp hq mp mq h =
      subst (λ t. IsMoved pane axis grow amount (split d r first second) (split d r t second') area)
        (sym (unchanged refl hp.1)) (moved_second (mq refl))
  settle-IsMoved pane axis d r first second true true (first', false) (second', false) grow amount
        area exact fits i j hp hq mp mq h =
      move_divider_tried pane axis d r first second first' second' true grow amount area exact fits
        (ground arith) (unchanged refl hp.1) (unchanged refl hq.1) i h
  settle-IsMoved pane axis d r first second true false (first', false) q grow amount area exact fits
        i j hp hq mp mq h =
      move_divider_tried pane axis d r first second first' second true grow amount area exact fits
        (ground arith) (unchanged refl hp.1) refl i h
  settle-IsMoved pane axis d r first second false true p (second', true) grow amount area exact fits
        i j hp hq mp mq h =
      moved_second (mq refl)
  settle-IsMoved pane axis d r first second false true p (second', false) grow amount area exact
        fits i j hp hq mp mq h =
      move_divider_tried pane axis d r first second first second' false grow amount area exact fits
        (ground arith) refl (unchanged refl hq.1) i h

  apply_size_change-IsMoved :
      (n : Node R) (pane : ℕ) (axis : SplitDir) (grow : Bool) (amount : ℕ) (area : Rect)
      → IsExact f
      → Fits area
      → (apply_size_change f n pane axis grow amount area).1 ≡ true
      → IsMoved pane axis grow amount n (apply_size_change f n pane axis grow amount area).0 area
  unfolding apply_size_change
  apply_size_change-IsMoved (leaf id) pane axis grow amount area exact fits =
      λ h. absurd (false≢true h)
  apply_size_change-IsMoved (split d r first second) pane axis grow amount area exact fits =
      let (a, b) = split_rect f area d r in
      let parts =
        holds_count-Partition area a b d 0 0 (split_rect-Partition f area d r fits) fits in
      settle-IsMoved pane axis d r first second (contains_node first pane)
        (contains_node second pane) (apply_size_change f first pane axis grow amount a)
        (apply_size_change f second pane axis grow amount b) grow amount area exact fits refl refl
        (apply_size_change-IsKept f first pane axis grow amount a)
        (apply_size_change-IsKept f second pane axis grow amount b)
        (apply_size_change-IsMoved first pane axis grow amount a exact parts.1)
        (apply_size_change-IsMoved second pane axis grow amount b exact parts.2)

  -- In a window whose size is a `u16`, with ratios that round back to the size they were made
  -- from, a `resize_border` that answers `true` moved exactly one divider, along the axis of the
  -- direction and with the pane on one of its sides: the first part's size is changed by the
  -- amount, the other way for a pane in the second part, within 1 and the size of both parts less
  -- 1, and is not what it was.
  pub resize_border-IsMoved :
      (l : Layout R) (pane_id : ℕ) (dir : FocusDir) (amount cols rows : ℕ)
      → IsExact f
      → IsU16 cols
      → IsU16 rows
      → (resize_border f l pane_id dir amount cols rows).1 ≡ true
      → let (axis, grow) = axis_of dir in
        IsMoved pane_id axis grow amount l.root
          (resize_border f l pane_id dir amount cols rows).0.root
          (record { x = 0; y = 0; cols = max cols 1; rows = max rows 1 })
  unfolding resize_border
  resize_border-IsMoved l pane_id dir amount cols rows exact hc hr h =
      let (axis, grow) = axis_of dir in
      let area : Rect = record { x = 0; y = 0; cols = max cols 1; rows = max rows 1 } in
      elim (Bool-cases (amount == 0 || not (contains l pane_id))) [
        | inl still ↦ ground arith
        | inr moves ↦ rw moves (
            apply_size_change-IsMoved l.root pane_id axis grow amount area exact
              (omega arith, omega arith) (ground arith))
      ]
