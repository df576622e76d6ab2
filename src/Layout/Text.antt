-- ===== src/Layout/Text.antt =====
-- The text form of a layout (src/layout/mod.rs): `to_tmux_str`, `format_node` and `layout_checksum`. Text is
-- a list of bytes.
use lrmux.Base.{ℕ, ◌-◌, ◌*◌, ◌/◌, ◌%◌, min, max, List, [], ◌∷◌, ◌++◌, add16, sat_add16}
use lrmux.Base.{to_decimal, to_hex4}
use lrmux.Float.{Float}
use lrmux.Layout.Tree.{SplitDir, horizontal, vertical, Node, leaf, split, Layout}
use lrmux.Layout.Geometry.{Rect, leaf_rect, reflow}

abbrev pub Text : Type 0
Text = List ℕ

-- What the two parts of a container span.
abbrev pub union_rect : SplitDir → Rect → Rect → Rect
union_rect horizontal a b =
    let x = min a.x b.x in
    record { x = x; y = min a.y b.y; cols = sat_add16 b.x b.cols - x; rows = max a.rows b.rows }
union_rect vertical a b =
    let y = min a.y b.y in
    record { x = min a.x b.x; y = y; cols = max a.cols b.cols; rows = sat_add16 b.y b.rows - y }

-- `format!("{cols}x{rows},{x},{y}")`; twenty digits are enough for each number.
abbrev pub format_rect : Rect → Text
format_rect r =
    to_decimal 20 r.cols
    ++ (0x78 ∷ (to_decimal 20 r.rows ++ (0x2c ∷ (to_decimal 20 r.x ++ (0x2c ∷ to_decimal 20 r.y)))))

-- The brackets around the parts of a container.
abbrev pub enclose : SplitDir → Text → Text
enclose horizontal inside = 0x7b ∷ (inside ++ 0x7d ∷ [])
enclose vertical inside = 0x5b ∷ (inside ++ 0x5d ∷ [])

module _ {R : Type 0} where
  unfoldable pub node_outer_rect : Node R → List (ℕ × Rect) → Rect
  node_outer_rect (leaf pane_id) rects = leaf_rect rects pane_id
  node_outer_rect (split dir ratio first second) rects =
      union_rect dir (node_outer_rect first rects) (node_outer_rect second rects)

  unfoldable pub format_node : Node R → List (ℕ × Rect) → Text
  unfolding node_outer_rect
  format_node (leaf pane_id) rects =
      format_rect (leaf_rect rects pane_id) ++ (0x2c ∷ to_decimal 20 pane_id)
  format_node (split dir ratio first second) rects =
      format_rect (union_rect dir (node_outer_rect first rects) (node_outer_rect second rects))
      ++ enclose dir (format_node first rects ++ (0x2c ∷ format_node second rects))

-- `(csum >> 1).wrapping_add((csum & 1) << 15).wrapping_add(u16::from(b))`
abbrev pub checksum_step : ℕ → ℕ → ℕ
checksum_step csum b = add16 (add16 (csum / 2) (csum % 2 * 32768)) b

-- The loop of `layout_checksum`.
unfoldable pub checksum_from : ℕ → Text → ℕ
checksum_from csum [] = csum
checksum_from csum (b ∷ layout) = checksum_from (checksum_step csum b) layout

unfoldable pub layout_checksum : Text → ℕ
layout_checksum layout = checksum_from 0 layout

unfoldable pub to_tmux_str : {R : Type 0} → Float R → Layout R → ℕ → ℕ → Text
to_tmux_str f l cols rows =
    let body = format_node l.root (reflow f l cols rows) in
    to_hex4 (layout_checksum body) ++ (0x2c ∷ body)
