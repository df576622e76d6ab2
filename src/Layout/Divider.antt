-- ===== src/Layout/Divider.antt =====
-- What `Layout::resize_border` of src/layout/mod.rs does to the panes and to the divider it moves.
use lrmux.Base.{ℕ, ◌≤◌, max, Bool, true, false, not, ◌||◌, ◌≡◌, refl, ap, ap₂, arith}
use lrmux.Base.{◌==◌, ◌++◌, Bool-cases, inl, inr, sym, ◌∙◌, ◌⊎◌}
use mathlib.Core.Bool.{false≢true}
use lrmux.Float.{Float}
use lrmux.Layout.Tree.{
  SplitDir, FocusDir, Node, leaf, split, Layout, contains_node, contains, pane_ids,
}
use lrmux.Layout.Geometry.{Rect, split_rect}
use lrmux.Layout.Edit.{ids_of, pane_ids_lem}
use lrmux.Layout.Border.{
  first_grows, move_divider, settle, apply_size_change, axis_of, resize_border,
}

-- The ids of the old tree, and the old tree itself if nothing was changed.
abbrev pub IsKept : {R : Type 0} → Node R → Node R × Bool → Type 0
IsKept n (n', done) = (ids_of n' ≡ ids_of n) × ((done ≡ true) ⊎ (n' ≡ n))

pub unchanged : {A : Type 0} {b : Bool} → b ≡ false → (b ≡ true) ⊎ A → A
unchanged e (inl e') = absurd (false≢true (sym e ∙ e'))
unchanged e (inr a) = a

module _ {R : Type 0} (f : Float R) where
  move_divider-IsKept :
      (d : SplitDir) (r : R) (first second first' second' : Node R) (axis : SplitDir) (grow : Bool)
      (amount : ℕ) (area : Rect)
      → first' ≡ first
      → second' ≡ second
      → IsKept
          (split d r first second)
          (move_divider f (split d r first' second') axis grow amount area)
  unfolding move_divider
  move_divider-IsKept d r first second first' second' axis grow amount area e e' = ground arith

  settle-IsKept :
      (d : SplitDir) (r : R) (first second : Node R) (in_first in_second : Bool)
      (p q : Node R × Bool) (axis : SplitDir) (grow : Bool) (amount : ℕ) (area : Rect)
      → IsKept first p
      → IsKept second q
      → IsKept
          (split d r first second)
          (settle f d r first second in_first in_second p q axis grow amount area)
  unfolding settle
  settle-IsKept d r first second false false p q axis grow amount area hp hq = (refl, inr refl)
  settle-IsKept d r first second true in_second (first', true) q axis grow amount area hp hq =
      (ap (λ t. t ++ ids_of second) hp.0, inl refl)
  settle-IsKept d r first second true true (first', false) (second', true) axis grow amount area hp
        hq =
      (ap₂ ◌++◌ hp.0 hq.0, inl refl)
  settle-IsKept d r first second true true (first', false) (second', false) axis grow amount area hp
        hq =
      move_divider-IsKept d r first second first' second' axis (first_grows true grow) amount area
        (unchanged refl hp.1) (unchanged refl hq.1)
  settle-IsKept d r first second true false (first', false) q axis grow amount area hp hq =
      move_divider-IsKept d r first second first' second axis (first_grows true grow) amount area
        (unchanged refl hp.1) refl
  settle-IsKept d r first second false true p (second', true) axis grow amount area hp hq =
      (ap (λ t. ids_of first ++ t) hq.0, inl refl)
  settle-IsKept d r first second false true p (second', false) axis grow amount area hp hq =
      move_divider-IsKept d r first second first second' axis (first_grows false grow) amount area
        refl (unchanged refl hq.1)

  pub apply_size_change-IsKept :
      (n : Node R) (pane : ℕ) (axis : SplitDir) (grow : Bool) (amount : ℕ) (area : Rect)
      → IsKept n (apply_size_change f n pane axis grow amount area)
  unfolding apply_size_change
  apply_size_change-IsKept (leaf id) pane axis grow amount area = (refl, inr refl)
  apply_size_change-IsKept (split d r first second) pane axis grow amount area =
      let (a, b) = split_rect f area d r in
      settle-IsKept d r first second (contains_node first pane) (contains_node second pane)
        (apply_size_change f first pane axis grow amount a)
        (apply_size_change f second pane axis grow amount b) axis grow amount area
        (apply_size_change-IsKept first pane axis grow amount a)
        (apply_size_change-IsKept second pane axis grow amount b)

  -- `resize_border` keeps the panes and their order. It answers `true` only for an amount that is
  -- not zero and a pane of the layout, and where it answers `false` the layout stays the same.
  pub resize_border-pane_ids :
      (l : Layout R) (pane_id : ℕ) (dir : FocusDir) (amount cols rows : ℕ)
      → let (l', done) = resize_border f l pane_id dir amount cols rows in
        (pane_ids l' ≡ pane_ids l)
        × (((done ≡ true) × (1 ≤ amount) × (contains l pane_id ≡ true))
            ⊎ ((done ≡ false) × (l' ≡ l)))
  unfolding resize_border
  resize_border-pane_ids l pane_id dir amount cols rows =
      let (axis, grow) = axis_of dir in
      let area : Rect = record { x = 0; y = 0; cols = max cols 1; rows = max rows 1 } in
      let kept = apply_size_change-IsKept l.root pane_id axis grow amount area in
      elim (Bool-cases (amount == 0 || not (contains l pane_id))) [
        | inl still ↦ rw still (refl, inr (refl, refl))
        | inr moves ↦ rw moves (
          pane_ids_lem _ ∙ kept.0 ∙ sym (pane_ids_lem l),
          elim (Bool-cases (apply_size_change f l.root pane_id axis grow amount area).1) [
            | inl e ↦ inl (e, ground arith, ground arith)
            | inr e ↦ inr (e, ap (λ t. record { root = t }) (unchanged e kept.1))
          ],
        )
      ]
