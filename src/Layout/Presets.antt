-- ===== src/Layout/Presets.antt =====
-- The presets of src/layout/mod.rs, which rebuild the tree from the list of panes. `none` is a panic, or
-- the end of the fuel; the length of the list is enough.
use lrmux.Base.{◌>>=◌}
use lrmux.Base.{ℕ, zero, suc, ◌+◌, ◌/◌, ◌%◌, max, ◌==◌, if◌then◌else◌, Option, none, some, List, []}
use lrmux.Base.{◌∷◌, length, take, drop}
use lrmux.Float.{Float}
use lrmux.Layout.Tree.{SplitDir, horizontal, vertical, Node, leaf, split, Layout, single}

-- `ids.chunks(n)`; the first number is fuel.
unfoldable pub chunks {ℓ} : {A : Type ℓ} → ℕ → ℕ → List A → List (List A)
chunks zero n xs = []
chunks (suc fuel) n [] = []
chunks (suc fuel) n (x ∷ xs) = take n (x ∷ xs) ∷ chunks fuel n (drop n (x ∷ xs))

-- The arms of `named_preset`; a name and its short form share one.
pub data Preset : Type 0 where
  even_horizontal even_vertical tiled main_horizontal main_vertical unknown : Preset

-- `rest_dir`
abbrev pub across : SplitDir → SplitDir
across horizontal = vertical
across vertical = horizontal

module _ {R : Type 0} (f : Float R) where
  -- `a as f64 / b as f64`
  abbrev pub quotient : ℕ → ℕ → R
  quotient a b = f.div (f.of_int a) (f.of_int b)

  unfoldable pub even_node : ℕ → List ℕ → SplitDir → Option (Node R)
  even_node zero ids dir = none
  even_node (suc fuel) [] dir = none
  even_node (suc fuel) (id ∷ []) dir = some (leaf id)
  even_node (suc fuel) (id ∷ next ∷ rest) dir =
      let ids = id ∷ next ∷ rest in
      let mid = max (length ids / 2) 1 in
      let ratio = quotient (length (take mid ids)) (length ids) in
      even_node fuel (take mid ids) dir >>= (λ first.
        even_node fuel (drop mid ids) dir >>= (λ second. some (split dir ratio first second)))

  unfoldable pub even_rebuild : List ℕ → SplitDir → Option (Layout R)
  even_rebuild [] dir = some (single 0)
  even_rebuild (id ∷ ids) dir =
      even_node (length (id ∷ ids)) (id ∷ ids) dir >>= (λ n. some (record { root = n }))

  -- `row_nodes`
  unfoldable pub even_rows : List (List ℕ) → Option (List (Node R))
  even_rows [] = some []
  even_rows (row ∷ rows) =
      even_node (length row) row horizontal
      >>= (λ n. even_rows rows >>= (λ nodes. some (n ∷ nodes)))

  unfoldable pub stack_nodes : ℕ → List (Node R) → SplitDir → Option (Node R)
  stack_nodes zero nodes dir = none
  stack_nodes (suc fuel) [] dir = none
  stack_nodes (suc fuel) (n ∷ []) dir = some n
  stack_nodes (suc fuel) (n ∷ next ∷ rest) dir =
      let nodes = n ∷ next ∷ rest in
      let mid = max (length nodes / 2) 1 in
      stack_nodes fuel (take mid nodes) dir >>= (λ first.
        stack_nodes fuel (drop mid nodes) dir
        >>= (λ second. some (split dir (quotient mid (length nodes)) first second)))

  unfoldable pub tiled_rebuild : List ℕ → Option (Layout R)
  tiled_rebuild [] = some (single 0)
  tiled_rebuild (id ∷ []) = some (single id)
  tiled_rebuild (id ∷ next ∷ rest) =
      let ids = id ∷ next ∷ rest in
      let cols = max (f.ceil_usize (f.sqrt (f.of_int (length ids)))) 1 in
      even_rows (chunks (length ids) cols ids)
      >>= (λ nodes. stack_nodes (length nodes) nodes vertical >>= (λ n. some (record { root = n })))

  unfoldable pub main_rebuild : List ℕ → SplitDir → Option (Layout R)
  main_rebuild [] main_axis = some (single 0)
  main_rebuild (id ∷ []) main_axis = some (single id)
  main_rebuild (id ∷ next ∷ rest) main_axis =
      even_node (length (next ∷ rest)) (next ∷ rest) (across main_axis)
      >>= (λ n. some (record { root = split main_axis (quotient 1 2) (leaf id) n }))

  -- The new layout and the new kind; `kind + 1` is a sum of `u8`.
  unfoldable pub cycle_preset : List ℕ → ℕ → Option (Layout R) × ℕ
  cycle_preset ids kind =
      let next = ((kind + 1) % 256) % 3 in
      (
        if next == 0
            then even_rebuild ids horizontal
            else if next == 1
            then even_rebuild ids vertical
            else tiled_rebuild ids,
        next,
      )

  -- `none` outside is the unknown name or the empty list, inside a panic.
  unfoldable pub named_preset : List ℕ → Preset → Option (Option (Layout R))
  named_preset [] name = none
  named_preset (id ∷ ids) even_horizontal = some (even_rebuild (id ∷ ids) horizontal)
  named_preset (id ∷ ids) even_vertical = some (even_rebuild (id ∷ ids) vertical)
  named_preset (id ∷ ids) tiled = some (tiled_rebuild (id ∷ ids))
  named_preset (id ∷ ids) main_horizontal = some (main_rebuild (id ∷ ids) vertical)
  named_preset (id ∷ ids) main_vertical = some (main_rebuild (id ∷ ids) horizontal)
  named_preset (id ∷ ids) unknown = none
