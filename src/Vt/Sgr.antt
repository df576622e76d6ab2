-- ===== src/Vt/Sgr.antt =====
-- Colors and attributes: `set_sgr` and `parse_sgr_color` of src/grid/mod.rs. A parameter group is the list
-- of its numbers.
use lrmux.Base.{
  ℕ, zero, suc, ◌+◌, ◌-◌, ◌%◌, Bool, true, false, ◌&&◌, ◌||◌, ltb, leb, ◌==◌, if◌then◌else◌,
}
use lrmux.Base.{Option, none, some, List, [], ◌∷◌, ◌++◌, length, get_elem?, drop}
use lrmux.Grid.Cell.{Color, default, indexed, rgb, Attr, plain}
use lrmux.Grid.Screen.{Grid}

-- The three fields of a grid that `set_sgr` changes.
pub record Pen : Type 0 where
  pub fg : Color
  pub bg : Color
  pub attrs : Attr

abbrev pub reset_pen : Pen
reset_pen = record { fg = default; bg = default; attrs = plain }

-- `u16 as u8`, and an index that the guard puts in range.
abbrev pub as_u8 : ℕ → ℕ
as_u8 n = n % 256

abbrev pub at_or_zero : List ℕ → ℕ → ℕ
at_or_zero args i = elim (get_elem? args i) [ some n ↦ n | none ↦ 0 ]

unfoldable pub parse_sgr_color : List ℕ → Option Color
parse_sgr_color [] = none
parse_sgr_color (mode ∷ args) =
    let n = length (mode ∷ args) in
    let at : ℕ → ℕ = λ i. as_u8 (at_or_zero (mode ∷ args) i) in
    if mode == 5
    then (if leb 2 n then some (indexed (at 1)) else none)
    else if mode == 2 && n == 4
    then some (rgb (at 1) (at 2) (at 3))
    else if mode == 2 && leb 5 n
    then some (rgb (at 2) (at 3) (at 4))
    else none

-- `while args.len() < needed && i + consumed < params.len()`; the last list is `params[i + consumed..]`.
unfoldable pub pull_args : ℕ → List ℕ → ℕ → List (List ℕ) → List ℕ × ℕ
pull_args needed args consumed [] = (args, consumed)
pull_args needed args consumed (group ∷ params) =
    if ltb (length args) needed
    then pull_args needed (args ++ group) (consumed + 1) params
    else (args, consumed)

abbrev pub needed_args : List ℕ → ℕ
needed_args [] = 1
needed_args (mode ∷ args) = if mode == 5 then 2 else if mode == 2 then 4 else 1

-- The arguments of an extended color in `group`, or behind it in `params`, and how many groups they take.
unfoldable pub color_args : List ℕ → List (List ℕ) → List ℕ × ℕ
color_args group params = elim (drop 1 group) [
  | arg ∷ args ↦ pull_args (needed_args (arg ∷ args)) (arg ∷ args) 1 params
  | [] ↦ elim params [ [] ↦ ([], 1) | next ∷ rest ↦ pull_args (needed_args next) next 2 rest ]
]

abbrev pub set_color : ℕ → Color → Pen → Pen
set_color code color pen =
    if code == 38
    then record pen { fg = color }
    else if code == 48
    then record pen { bg = color }
    else pen

-- Whether `low <= n && n <= high`.
abbrev pub within : ℕ → ℕ → ℕ → Bool
within low high n = leb low n && leb n high

-- The codes that take no arguments.
unfoldable pub sgr_code : ℕ → Pen → Pen
sgr_code code pen =
    let attrs = pen.attrs in
    if code == 0
    then reset_pen
    else if code == 1
    then record pen { attrs = record attrs { bold = true } }
    else if code == 3
    then record pen { attrs = record attrs { italic = true } }
    else if code == 4
    then record pen { attrs = record attrs { underline = true } }
    else if code == 7
    then record pen { attrs = record attrs { reverse = true } }
    else if code == 22
    then record pen { attrs = record attrs { bold = false } }
    else if code == 23
    then record pen { attrs = record attrs { italic = false } }
    else if code == 24
    then record pen { attrs = record attrs { underline = false } }
    else if code == 27
    then record pen { attrs = record attrs { reverse = false } }
    else if code == 39
    then record pen { fg = default }
    else if code == 49
    then record pen { bg = default }
    else if within 30 37 code
    then record pen { fg = indexed (as_u8 code - 30) }
    else if within 90 97 code
    then record pen { fg = indexed (as_u8 code - 90 + 8) }
    else if within 40 47 code
    then record pen { bg = indexed (as_u8 code - 40) }
    else if within 100 107 code
    then record pen { bg = indexed (as_u8 code - 100 + 8) }
    else pen

-- One turn of the loop: how many of the following groups are used up, and the pen.
unfoldable pub sgr_group : List ℕ → List (List ℕ) → Pen → ℕ × Pen
sgr_group group params pen =
    let code = at_or_zero group 0 in
    let (args, consumed) = color_args group params in
    if code == 38 || code == 48 || code == 58
    then (
      consumed - 1,
      elim (parse_sgr_color args) [ some color ↦ set_color code color pen | none ↦ pen ],
    )
    else (0, sgr_code code pen)

-- The loop of `set_sgr`, with how many groups are to be skipped before the next turn.
unfoldable pub sgr_groups : ℕ → List (List ℕ) → Pen → Pen
sgr_groups skip [] pen = pen
sgr_groups (suc skip) (group ∷ params) pen = sgr_groups skip params pen
sgr_groups zero (group ∷ params) pen =
    let (skip, pen') = sgr_group group params pen in sgr_groups skip params pen'

unfoldable pub set_sgr : List (List ℕ) → Grid → Grid
set_sgr params g =
    let start : Pen = record { fg = g.fg; bg = g.bg; attrs = g.attrs } in
    let pen : Pen = elim params [
      | [] ↦ reset_pen
      | group ∷ rest ↦ sgr_groups 0 (group ∷ rest) start
    ] in
    record g { fg = pen.fg; bg = pen.bg; attrs = pen.attrs }
