-- ===== src/Layout/Rebuild.antt =====
-- What the presets of src/layout/mod.rs do to the list of panes.
use lrmux.Base.{some_step}
use lrmux.Base.{ℕ, zero, suc, ◌+◌, ◌/◌, ◌%◌, ◌≤◌, ◌<◌, ◌≡◌, refl, sym, ap, ap₂, ◌∙◌, max, arith}
use lrmux.Base.{
  none, some, List, [], ◌∷◌, ◌++◌, length, take, drop, length-take, length-drop, append_assoc,
}
use lrmux.Base.{take-append-drop, append-nil, Bool-cases, inl, inr, ◌==◌, All, map}
use lrmux.Float.{Float}
use lrmux.Layout.Tree.{SplitDir, horizontal, vertical, Node, leaf, split, Layout, single, pane_ids}
use lrmux.Layout.Edit.{ids_of, pane_ids_lem}
use lrmux.Layout.Presets.{chunks, even_node, even_rebuild, even_rows, stack_nodes, tiled_rebuild}
use lrmux.Layout.Presets.{across, main_rebuild, cycle_preset, quotient, Preset, named_preset}
use lrmux.Layout.Presets.{
  even_horizontal, even_vertical, tiled, main_horizontal, main_vertical, unknown,
}
use lrmux.Base.{◌⊎◌}

-- Half of a list of two or more, rounded down, is not empty and not the whole list.
half : (n : ℕ) → 2 ≤ n → (1 ≤ max (n / 2) 1) × (max (n / 2) 1 < n)
half n h = (omega arith, omega arith)

abbrev flatten : List (List ℕ) → List ℕ
flatten [] = []
flatten (xs ∷ xss) = xs ++ flatten xss

flatten-append : (xss yss : List (List ℕ)) → flatten (xss ++ yss) ≡ flatten xss ++ flatten yss
flatten-append [] yss = refl
flatten-append (xs ∷ xss) yss =
    ap (λ t. xs ++ t) (flatten-append xss yss) ∙ sym (append_assoc xs (flatten xss) (flatten yss))

map-append : {A B : Type 0} (f : A → B) (xs ys : List A) → map f (xs ++ ys) ≡ map f xs ++ map f ys
map-append f [] ys = refl
map-append f (x ∷ xs) ys = ap (λ t. f x ∷ t) (map-append f xs ys)

abbrev IsFull : List ℕ → Type 0
IsFull xs = 1 ≤ length xs

flatten-chunks :
    (fuel n : ℕ) (xs : List ℕ)
    → 1 ≤ n
    → length xs ≤ fuel
    → (flatten (chunks fuel n xs) ≡ xs) × All IsFull (chunks fuel n xs)
unfolding chunks
flatten-chunks zero n [] hn h = (refl, tt)
flatten-chunks zero n (x ∷ xs) hn h = absurd (omega arith)
flatten-chunks (suc fuel) n [] hn h = (refl, tt)
flatten-chunks (suc fuel) n (x ∷ xs) hn h =
    let all = x ∷ xs in
    let rest = flatten-chunks fuel n (drop n all) hn (omega (arith, length-drop n all)) in
    (
      ap (λ t. take n all ++ t) rest.0 ∙ take-append-drop n all,
      (omega (arith, length-take n all), rest.1),
    )

module _ {R : Type 0} (f : Float R) where
  even_node_lem :
      (fuel : ℕ) (ids : List ℕ) (dir : SplitDir)
      → 1 ≤ length ids
      → length ids ≤ fuel
      → (n : Node R) × (even_node f fuel ids dir ≡ some n) × (ids_of n ≡ ids)
  unfolding even_node
  even_node_lem fuel [] dir full h = absurd (omega arith)
  even_node_lem zero (id ∷ ids) dir full h = absurd (omega arith)
  even_node_lem (suc fuel) (id ∷ []) dir full h = (leaf id, refl, refl)
  even_node_lem (suc fuel) (id ∷ next ∷ rest) dir full h =
      let ids = id ∷ next ∷ rest in
      let mid = max (length ids / 2) 1 in
      let parts = half (length ids) (omega arith) in
      let (a, run_a, ids_a) =
        even_node_lem fuel (take mid ids) dir (omega (arith, length-take mid ids, parts))
          (omega (arith, length-take mid ids, parts)) in
      let (b, run_b, ids_b) =
        even_node_lem fuel (drop mid ids) dir (omega (arith, length-drop mid ids, parts))
          (omega (arith, length-drop mid ids, parts)) in
      (
        split dir (quotient f (length (take mid ids)) (length ids)) a b,
        some_step _ _ run_a (some_step _ _ run_b refl),
        ap₂ ◌++◌ ids_a ids_b ∙ take-append-drop mid ids,
      )

  even_rows_lem :
      (rows : List (List ℕ))
      → All IsFull rows
      → (nodes : List (Node R)) × (even_rows f rows ≡ some nodes) × (map ids_of nodes ≡ rows)
  unfolding even_rows
  even_rows_lem [] full = ([], refl, refl)
  even_rows_lem (row ∷ rows) full =
      let (n, run_n, ids_n) = even_node_lem (length row) row horizontal full.0 (omega arith) in
      let (nodes, run, ids) = even_rows_lem rows full.1 in
      (n ∷ nodes, some_step _ _ run_n (some_step _ _ run refl), ap₂ (λ x xs. x ∷ xs) ids_n ids)

  stack_nodes_lem :
      (fuel : ℕ) (nodes : List (Node R)) (dir : SplitDir)
      → 1 ≤ length nodes
      → length nodes ≤ fuel
      → (n : Node R) × (stack_nodes f fuel nodes dir ≡ some n)
        × (ids_of n ≡ flatten (map ids_of nodes))
  unfolding stack_nodes
  stack_nodes_lem fuel [] dir full h = absurd (omega arith)
  stack_nodes_lem zero (n ∷ nodes) dir full h = absurd (omega arith)
  stack_nodes_lem (suc fuel) (n ∷ []) dir full h = (n, refl, sym (append-nil (ids_of n)))
  stack_nodes_lem (suc fuel) (n ∷ next ∷ rest) dir full h =
      let nodes = n ∷ next ∷ rest in
      let mid = max (length nodes / 2) 1 in
      let parts = half (length nodes) (omega arith) in
      let (a, run_a, ids_a) =
        stack_nodes_lem fuel (take mid nodes) dir (omega (arith, length-take mid nodes, parts))
          (omega (arith, length-take mid nodes, parts)) in
      let (b, run_b, ids_b) =
        stack_nodes_lem fuel (drop mid nodes) dir (omega (arith, length-drop mid nodes, parts))
          (omega (arith, length-drop mid nodes, parts)) in
      (
        split dir (quotient f mid (length nodes)) a b,
        some_step _ _ run_a (some_step _ _ run_b refl),
        ap₂ ◌++◌ ids_a ids_b
            ∙ sym (flatten-append (map ids_of (take mid nodes)) (map ids_of (drop mid nodes)))
            ∙ ap flatten (sym (map-append ids_of (take mid nodes) (drop mid nodes)))
            ∙ ap (λ t. flatten (map ids_of t)) (take-append-drop mid nodes),
      )

  even_rebuild_lem :
      (ids : List ℕ) (dir : SplitDir)
      → 1 ≤ length ids
      → (l : Layout R) × (even_rebuild f ids dir ≡ some l) × (pane_ids l ≡ ids)
  unfolding even_rebuild
  even_rebuild_lem [] dir full = absurd (omega arith)
  even_rebuild_lem (id ∷ ids) dir full =
      let (n, run, kept) =
        even_node_lem (length (id ∷ ids)) (id ∷ ids) dir (omega arith) (omega arith) in
      (record { root = n }, some_step _ _ run refl, pane_ids_lem (record { root = n }) ∙ kept)

  tiled_rebuild_lem :
      (ids : List ℕ)
      → 1 ≤ length ids
      → (l : Layout R) × (tiled_rebuild f ids ≡ some l) × (pane_ids l ≡ ids)
  unfolding tiled_rebuild single
  tiled_rebuild_lem [] full = absurd (omega arith)
  tiled_rebuild_lem (id ∷ []) full =
      (record { root = leaf id }, refl, pane_ids_lem (record { root = leaf id }))
  tiled_rebuild_lem (id ∷ next ∷ rest) full =
      let ids = id ∷ next ∷ rest in
      let cols = max (f.ceil_usize (f.sqrt (f.of_int (length ids)))) 1 in
      let (whole, rows_full) = flatten-chunks (length ids) cols ids (omega arith) (omega arith) in
      let (nodes, run, kept) = even_rows_lem (chunks (length ids) cols ids) rows_full in
      let some_nodes = flatten_full nodes id (next ∷ rest) (ap flatten kept ∙ whole) in
      let (n, run_n, kept_n) =
        stack_nodes_lem (length nodes) nodes vertical some_nodes (omega arith) in
      (
        record { root = n },
        some_step _ _ run (some_step _ _ run_n refl),
        pane_ids_lem (record { root = n }) ∙ kept_n ∙ ap flatten kept ∙ whole,
      )
    where
      flatten_full :
          (nodes : List (Node R)) (x : ℕ) (xs : List ℕ)
          → flatten (map ids_of nodes) ≡ x ∷ xs
          → 1 ≤ length nodes
      flatten_full [] x xs e = cc
      flatten_full (n ∷ nodes) x xs e = omega arith

  main_rebuild_lem :
      (ids : List ℕ) (axis : SplitDir)
      → 1 ≤ length ids
      → (l : Layout R) × (main_rebuild f ids axis ≡ some l) × (pane_ids l ≡ ids)
  unfolding main_rebuild single
  main_rebuild_lem [] axis full = absurd (omega arith)
  main_rebuild_lem (id ∷ []) axis full =
      (record { root = leaf id }, refl, pane_ids_lem (record { root = leaf id }))
  main_rebuild_lem (id ∷ next ∷ rest) axis full =
      let (n, run, kept) =
        even_node_lem (length (next ∷ rest)) (next ∷ rest) (across axis) (omega arith)
          (omega arith) in
      let root = split axis (quotient f 1 2) (leaf id) n in
      (
        record { root = root },
        some_step _ _ run refl,
        pane_ids_lem (record { root = root }) ∙ ap (λ t. id ∷ t) kept,
      )

  -- From a list of panes that is not empty `cycle_preset` makes a layout, whatever the kind
  -- before, with exactly these panes in this order: the recursion ends, and no half of a list is
  -- empty.
  pub cycle_preset-pane_ids :
      (ids : List ℕ) (kind : ℕ)
      → 1 ≤ length ids
      → (l : Layout R) × ((cycle_preset f ids kind).0 ≡ some l) × (pane_ids l ≡ ids)
  unfolding cycle_preset
  cycle_preset-pane_ids ids kind full =
      let next = ((kind + 1) % 256) % 3 in
      elim (Bool-cases (next == 0)) [
        | inl first ↦ rw first (even_rebuild_lem ids horizontal full)
        | inr other ↦ elim (Bool-cases (next == 1)) [
          | inl second ↦ rw (other, second) (even_rebuild_lem ids vertical full)
          | inr third ↦ rw (other, third) (tiled_rebuild_lem ids full)
        ]
      ]

  -- From a list of panes that is not empty `named_preset` makes, for every name but an unknown
  -- one, a layout with exactly these panes in this order; for an unknown name it answers that
  -- there is none.
  pub named_preset-pane_ids :
      (ids : List ℕ) (name : Preset)
      → 1 ≤ length ids
      → ((name ≡ unknown) × (named_preset f ids name ≡ none))
        ⊎ ((l : Layout R) × (named_preset f ids name ≡ some (some l)) × (pane_ids l ≡ ids))
  unfolding named_preset
  named_preset-pane_ids [] name full = absurd (omega arith)
  named_preset-pane_ids (id ∷ ids) even_horizontal full =
      let (l, run, kept) = even_rebuild_lem (id ∷ ids) horizontal full in inr (l, ap some run, kept)
  named_preset-pane_ids (id ∷ ids) even_vertical full =
      let (l, run, kept) = even_rebuild_lem (id ∷ ids) vertical full in inr (l, ap some run, kept)
  named_preset-pane_ids (id ∷ ids) tiled full =
      let (l, run, kept) = tiled_rebuild_lem (id ∷ ids) full in inr (l, ap some run, kept)
  named_preset-pane_ids (id ∷ ids) main_horizontal full =
      let (l, run, kept) = main_rebuild_lem (id ∷ ids) vertical full in inr (l, ap some run, kept)
  named_preset-pane_ids (id ∷ ids) main_vertical full =
      let (l, run, kept) = main_rebuild_lem (id ∷ ids) horizontal full in inr (l, ap some run, kept)
  named_preset-pane_ids (id ∷ ids) unknown full = inl (refl, refl)
