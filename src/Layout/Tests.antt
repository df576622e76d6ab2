-- ===== src/Layout/Tests.antt =====
-- The layout of src/layout/mod.rs on small windows, with the ratios in hundredths.
use lrmux.Base.{ℕ, ◌+◌, ◌*◌, ◌/◌, ◌≡◌, ◌<◌, ◌≢◌, ◌⊎◌, refl, max, arith, ltb, if◌then◌else◌, false}
use lrmux.Base.{contains as id_in}
use lrmux.Float.{Float}
use lrmux.Layout.Tree.{
  horizontal, vertical, leaf, split, Layout, contains, pane_ids, split_pane, remove,
}
use lrmux.Layout.Geometry.{Rect, split_rect, reflow}
use lrmux.Layout.Edit.{insert_after, without, split_pane-pane_ids, remove-pane_ids}
use lrmux.Base.{some, ◌∷◌, []}
use lrmux.Layout.Presets.{cycle_preset}
use lrmux.Layout.Rebuild.{cycle_preset-pane_ids}
use lrmux.Layout.Cover.{cover, placed_ids, reflow-cover}
use lrmux.Base.{true, ◌==◌}
use mathlib.Core.List.{Memᴰ}
use mathlib.Core.List.Memᴰ.{head}
use lrmux.Layout.Tree.{left, contains_node}
use lrmux.Layout.Geometry.{leaf_rect}
use lrmux.Layout.Border.{resize_border, apply_size_change, settle, move_divider}
use lrmux.Layout.Moved.{IsExact, IsMoved, resize_border-IsMoved}
use lrmux.Layout.Neighbor.{neighbor, distances, best_of, consider, is_placed}
use lrmux.Layout.Nearest.{NoFarther, neighbor_nearest}
use lrmux.Layout.Beside.{IsBeside, neighbor-IsBeside}

abbrev hundredths : Float ℕ
hundredths = record {
  of_int = λ n. n * 100;
  mul = λ a b. a * b / 100;
  div = λ a b. a * 100 / b;
  sqrt = λ a. a;
  clamp = λ a low high. if ltb a low then low else if ltb high a then high else a;
  round_u16 = λ a. (a + 50) / 100;
  ceil_usize = λ a. (a + 99) / 100;
}

-- Pane 1 on the left; on the right pane 2 over pane 3.
abbrev three : Layout ℕ
three = record { root = split horizontal 50 (leaf 1) (split vertical 30 (leaf 2) (leaf 3)) }

split_pane-pane_ids_example :
    let (l', found) = split_pane hundredths three 2 vertical 4 60 in
    (pane_ids l' ≡ insert_after 2 4 (pane_ids three))
    × (found ≡ contains three 2)
    × (contains three 2 ≡ id_in (pane_ids three) 2)
split_pane-pane_ids_example = split_pane-pane_ids hundredths three 2 vertical 4 60

remove-pane_ids_example :
    let (l', found) = remove three 2 in
    ((three.root ≡ leaf 2) × (l' ≡ three) × (found ≡ false))
    ⊎ ((three.root ≢ leaf 2)
        × (pane_ids l' ≡ without 2 (pane_ids three))
        × (found ≡ contains three 2))
unfolding pane_ids
remove-pane_ids_example = remove-pane_ids three 2 (refl, (refl, (refl, tt)))

abbrev window : Rect
window = record { x = 0; y = 0; cols = 80; rows = 24 }

reflow-cover_example :
    (placed_ids (reflow hundredths three 80 24) ≡ pane_ids three)
    × ((cover (reflow hundredths three 80 24) 45 20 ≡ 0)
        ⊎ ((cover (reflow hundredths three 80 24) 45 20 ≡ 1) × (45 < max 80 1) × (20 < max 24 1)))
reflow-cover_example = reflow-cover hundredths three 80 24 45 20 (omega arith) (omega arith)

-- The left pane has 40 of the 80 columns, and column 40 is the border.
left_right :
    split_rect hundredths window horizontal 50
    ≡ (record window { cols = 40 }, record window { x = 41; cols = 39 })
unfolding split_rect
left_right = refl

cycle_preset-pane_ids_example :
    (l : Layout ℕ) × ((cycle_preset hundredths (7 ∷ 3 ∷ 5 ∷ []) 1).0 ≡ some l)
    × (pane_ids l ≡ 7 ∷ 3 ∷ 5 ∷ [])
cycle_preset-pane_ids_example = cycle_preset-pane_ids hundredths (7 ∷ 3 ∷ 5 ∷ []) 1 (omega arith)

-- Fractions, with a common factor taken out where a product shows it.
abbrev fractions : Float (ℕ × ℕ)
fractions = record {
  of_int = λ n. (n, 1);
  mul = λ a b. if b.1 == a.0 then (b.0, a.1) else (a.0 * b.0, a.1 * b.1);
  div = λ a b. (a.0 * b.1, a.1 * b.0);
  sqrt = λ a. a;
  clamp = λ a low high. a;
  round_u16 = λ a. if a.1 == 1 then a.0 else (2 * a.0 + a.1) / (2 * a.1);
  ceil_usize = λ a. a.0;
}

fractions-IsExact : IsExact fractions
fractions-IsExact k u low high small = ground arith

-- Pane 1 is 39 columns wide, panes 2 and 3 are 40.
abbrev columns : Layout (ℕ × ℕ)
columns = record {
  root = split horizontal (39, 79) (leaf 1) (split vertical (1, 2) (leaf 2) (leaf 3));
}

resize_border-IsMoved_example :
    IsMoved fractions 3 horizontal false 5 columns.root
      (resize_border fractions columns 3 left 5 80 24).0.root
      (record { x = 0; y = 0; cols = 80; rows = 24 })
unfolding resize_border apply_size_change settle move_divider split_rect contains_node contains
resize_border-IsMoved_example =
    resize_border-IsMoved fractions columns 3 left 5 80 24 fractions-IsExact (omega arith)
      (omega arith) refl

-- From pane 2, up and to the right of the middle, to pane 1.
neighbor_nearest_example :
    (id' : ℕ) × (r' : Rect) × (d' : ℕ × ℕ) × (neighbor hundredths three 2 left 80 24 ≡ some id')
    × Memᴰ (id', r') (reflow hundredths three 80 24)
    × (id' ≢ 2)
    × (distances left (leaf_rect (reflow hundredths three 80 24) 2) r' ≡ some d')
    × NoFarther d' (1, 9)
unfolding reflow split_rect distances
neighbor_nearest_example =
    neighbor_nearest hundredths three 2 left 80 24 1 (record { x = 0; y = 0; cols = 40; rows = 24 })
      (1, 9) refl (head refl) (ground arith) refl

neighbor-IsBeside_example :
    (r : Rect) × Memᴰ (1, r) (reflow hundredths three 80 24)
    × (◌≢◌ {A = ℕ} 1 2)
    × (is_placed (reflow hundredths three 80 24) 2 ≡ true)
    × IsBeside left (leaf_rect (reflow hundredths three 80 24) 2) r
unfolding neighbor reflow split_rect distances best_of consider
neighbor-IsBeside_example =
    neighbor-IsBeside hundredths three 2 left 80 24 1 (omega arith) (omega arith) refl
