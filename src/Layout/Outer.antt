-- ===== src/Layout/Outer.antt =====
-- The rectangles and the checksum in the text form of a layout (src/layout/mod.rs).
use lrmux.Base.{ℕ, ◌<◌, max, false, true, ◌≡◌, ◌≢◌, refl, sym, ap, ap₂, ◌∙◌, arith, IsU16}
use lrmux.Base.{
  List, [], ◌∷◌, ◌++◌, append_assoc, append-nil, contains as id_in, contains-append, IsDistinct,
  subst,
}
use lrmux.Float.{Float}
use lrmux.Layout.Tree.{SplitDir, horizontal, vertical, Node, leaf, split, Layout, pane_ids}
use lrmux.Layout.Geometry.{Rect, leaf_rect, reflow, reflow_node, split_rect}
use lrmux.Layout.Edit.{ids_of, pane_ids_lem, IsDistinct-append}
use lrmux.Layout.Cover.{
  Fits, Partition, holds_count-Partition, split_rect-Partition, reflow_node-split, placed_ids,
  placed_ids-append, placed_ids-reflow_node,
}
use lrmux.Layout.Text.{
  Text, union_rect, node_outer_rect, checksum_step, checksum_from, layout_checksum,
}

leaf_rect-append :
    (xs ys : List (ℕ × Rect)) (id : ℕ)
    → (id_in (placed_ids xs) id ≡ true → leaf_rect (xs ++ ys) id ≡ leaf_rect xs id)
      × (id_in (placed_ids xs) id ≡ false → leaf_rect (xs ++ ys) id ≡ leaf_rect ys id)
leaf_rect-append [] ys id = (λ h. ground arith, λ h. refl)
leaf_rect-append ((id', r) ∷ xs) ys id =
    let ih = leaf_rect-append xs ys id in (λ h. ground (arith, ih.0), λ h. ground (arith, ih.1))

-- The parts of a partition span the area.
union_rect-Partition :
    (area a b : Rect) (d : SplitDir) → Fits area → Partition area d (a, b) → union_rect d a b ≡ area
union_rect-Partition area a b horizontal fits p = ground arith
union_rect-Partition area a b vertical fits p = ground arith

checksum_step-injective :
    (c d b : ℕ) → IsU16 c → IsU16 d → checksum_step c b ≡ checksum_step d b → c ≡ d
checksum_step-injective c d b hc hd e = omega arith

checksum_step-IsU16 : (c b : ℕ) → IsU16 (checksum_step c b)
checksum_step-IsU16 c b = omega arith

checksum_from-injective :
    (layout : Text) (c d : ℕ)
    → IsU16 c
    → IsU16 d
    → checksum_from c layout ≡ checksum_from d layout
    → c ≡ d
unfolding checksum_from
checksum_from-injective [] c d hc hd e = e
checksum_from-injective (b ∷ layout) c d hc hd e = checksum_step-injective c d b hc hd (
    checksum_from-injective layout (checksum_step c b) (checksum_step d b) (checksum_step-IsU16 c b)
      (checksum_step-IsU16 d b) e)

checksum_from-append :
    (xs ys : Text) (c : ℕ) → checksum_from c (xs ++ ys) ≡ checksum_from (checksum_from c xs) ys
unfolding checksum_from
checksum_from-append [] ys c = refl
checksum_from-append (b ∷ xs) ys c = checksum_from-append xs ys (checksum_step c b)

checksum_from-IsU16 : (xs : Text) (c : ℕ) → IsU16 c → IsU16 (checksum_from c xs)
unfolding checksum_from
checksum_from-IsU16 [] c h = h
checksum_from-IsU16 (b ∷ xs) c h =
    checksum_from-IsU16 xs (checksum_step c b) (checksum_step-IsU16 c b)

-- Two layout texts that differ in one byte alone have different checksums.
pub layout_checksum-ne :
    (before after : Text) (a b : ℕ)
    → a < 256
    → b < 256
    → a ≢ b
    → layout_checksum (before ++ a ∷ after) ≢ layout_checksum (before ++ b ∷ after)
unfolding layout_checksum checksum_from
layout_checksum-ne before after a b ha hb other e =
    let c = checksum_from 0 before in
    let small = checksum_from-IsU16 before 0 (omega arith) in
    let same =
      checksum_from-injective after (checksum_step c a) (checksum_step c b)
        (checksum_step-IsU16 c a) (checksum_step-IsU16 c b)
        (sym (checksum_from-append before (a ∷ after) 0)
          ∙ e
          ∙ checksum_from-append before (b ∷ after) 0) in
    other (omega arith)

module _ {R : Type 0} (f : Float R) where
  -- Whatever stands around the rectangles of a part, if it names none of its panes in front.
  node_outer_rect_around :
      (n : Node R) (area : Rect) (before after : List (ℕ × Rect))
      → Fits area
      → IsDistinct (ids_of n)
      → ((id : ℕ) → id_in (ids_of n) id ≡ true → id_in (placed_ids before) id ≡ false)
      → node_outer_rect n (before ++ (reflow_node f n area [] ++ after)) ≡ area
  unfolding node_outer_rect
  node_outer_rect_around (leaf id) area before after fits distinct away =
      let skip = (leaf_rect-append before ((id, area) ∷ after) id).1 (away id (ground arith)) in
      unfold reflow_node in (skip ∙ ground arith)
  node_outer_rect_around (split d r first second) area before after fits distinct away =
      let (a, b) = split_rect f area d r in
      let partition = split_rect-Partition f area d r fits in
      let parts = holds_count-Partition area a b d 0 0 partition fits in
      let ids = IsDistinct-append (ids_of first) (ids_of second) distinct in
      let inside = reflow_node f first a [] in
      let rest = reflow_node f second b [] in
      let within = contains-append (ids_of first) (ids_of second) in
      let names : placed_ids inside ≡ ids_of first = placed_ids-reflow_node f first a in
      let ih1 =
        node_outer_rect_around first a before (rest ++ after) parts.1 ids.0
          (λ id h. away id (ground (arith, within id))) in
      let ih2 = node_outer_rect_around second b (before ++ inside) after parts.2 ids.1 (λ id h.
        rw (placed_ids-append, names)
          (ground (
            arith,
            away id,
            within id,
            ids.2 id,
            contains-append (placed_ids before) (ids_of first) id,
          ))) in
      let one : before ++ ((inside ++ rest) ++ after) ≡ before ++ (inside ++ (rest ++ after)) =
        ap (λ t. before ++ t) (append_assoc inside rest after) in
      let two : before ++ (inside ++ (rest ++ after)) ≡ (before ++ inside) ++ (rest ++ after) =
        sym (append_assoc before inside (rest ++ after)) in
      ap
        (λ t.
          union_rect d (node_outer_rect first (before ++ (t ++ after)))
            (node_outer_rect second (before ++ (t ++ after))))
        (reflow_node-split f d r first second area)
      ∙ ap₂ (λ x y. union_rect d x y) (ap (node_outer_rect first) one ∙ ih1)
          (ap (node_outer_rect second) (one ∙ two) ∙ ih2)
      ∙ union_rect-Partition area a b d fits partition

  -- In a layout of panes with distinct ids, in a window whose size is a `u16`, the rectangle that
  -- the text form computes for the whole tree from the panes is the window, at least one column
  -- wide and one row high.
  pub node_outer_rect-reflow :
      (l : Layout R) (cols rows : ℕ)
      → IsU16 cols
      → IsU16 rows
      → IsDistinct (pane_ids l)
      → node_outer_rect l.root (reflow f l cols rows)
        ≡ record { x = 0; y = 0; cols = max cols 1; rows = max rows 1 }
  unfolding reflow
  node_outer_rect-reflow l cols rows hc hr distinct =
      let area : Rect = record { x = 0; y = 0; cols = max cols 1; rows = max rows 1 } in
      ap (node_outer_rect l.root) (sym (append-nil (reflow_node f l.root area [])))
      ∙ node_outer_rect_around l.root area [] [] (omega arith, omega arith)
          (subst IsDistinct (pane_ids_lem l) distinct) (λ id h. refl)
