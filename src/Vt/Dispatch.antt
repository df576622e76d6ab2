-- ===== src/Vt/Dispatch.antt =====
-- src/vt/mod.rs: `impl Perform for VtHandler`. The match on the final character of a control sequence goes
-- through a type of its own, with a constructor for each arm.
use lrmux.Base.{◌>>=◌}
use lrmux.Base.{ℕ, ◌+◌, ◌-◌, Bool, true, false, ◌&&◌, ◌||◌, leb, ◌==◌, if◌then◌else◌, Option, some}
use lrmux.Base.{List, [], ◌∷◌, ◌++◌, length, contains}
use lrmux.Grid.Screen.{Grid, print, line_feed, backspace, tab, carriage_return, move_cursor}
use lrmux.Grid.Screen.{scroll_up, scroll_down, insert_lines, delete_lines, set_scroll_region}
use lrmux.Grid.Screen.{reset_scroll_region, save_cursor, restore_cursor}
use lrmux.Grid.Line.{insert_chars, delete_chars, erase_chars, erase_to_end_of_line, erase_to_cursor}
use lrmux.Grid.Line.{erase_line, erase_to_end_of_screen, erase_to_start_of_screen, erase_screen}
use lrmux.Vt.Sgr.{set_sgr}
use lrmux.Vt.Handler.{
  PendingReply, bytes, osc, VtHandler, pos, negate, negsuc, move_cursor_rel, param,
}
use lrmux.Vt.Handler.{param1, set_modes, reset_modes, repeat, cursor_report}

-- The arms of `csi_dispatch` that act on the grid alone, and those that only reply.
pub data Csi : Type 0 where
  cuu cud cuf cub cnl cpl cha cup vpa ed el sgr su sd il dl ich dch ech decstbm sm rm scp rcp rep :
      Csi
  dsr da other : Csi

-- The character of each arm.
unfoldable pub csi_of : ℕ → Csi
csi_of c =
    if c == 0x41
    then cuu
    else if c == 0x42
    then cud
    else if c == 0x43
    then cuf
    else if c == 0x44
    then cub
    else if c == 0x45
    then cnl
    else if c == 0x46
    then cpl
    else if c == 0x47
    then cha
    else if c == 0x48 || c == 0x66
    then cup
    else if c == 0x64
    then vpa
    else if c == 0x4a
    then ed
    else if c == 0x4b
    then el
    else if c == 0x6d
    then sgr
    else if c == 0x53
    then su
    else if c == 0x54
    then sd
    else if c == 0x4c
    then il
    else if c == 0x4d
    then dl
    else if c == 0x40
    then ich
    else if c == 0x50
    then dch
    else if c == 0x58
    then ech
    else if c == 0x72
    then decstbm
    else if c == 0x68
    then sm
    else if c == 0x6c
    then rm
    else if c == 0x73
    then scp
    else if c == 0x75
    then rcp
    else if c == 0x62
    then rep
    else if c == 0x6e
    then dsr
    else if c == 0x63
    then da
    else other

abbrev pub is_empty : List ℕ → Bool
is_empty intermediates = length intermediates == 0

-- What 'J' and 'K' do.
unfoldable pub erase_display : ℕ → Grid → Option Grid
erase_display n g =
    if n == 0
    then erase_to_end_of_screen g
    else if n == 1
    then erase_to_start_of_screen g
    else if n == 2 || n == 3
    then some (erase_screen g)
    else some g

unfoldable pub erase_in_line : ℕ → Grid → Option Grid
erase_in_line n g =
    if n == 0
    then erase_to_end_of_line g
    else if n == 1
    then erase_to_cursor g
    else if n == 2
    then some (erase_line g)
    else some g

-- What 'r' does.
unfoldable pub set_margins : List ℕ → Grid → Grid
set_margins p g =
    let top = param p 0 1 in
    let bottom = param p 1 0 in
    move_cursor (top - 1) 0
      (if bottom == 0 then reset_scroll_region g else set_scroll_region (top - 1) bottom g)

-- What an arm does to the grid. `groups` are the parameters, and `p` is the flat list of them.
unfoldable pub csi_grid : Csi → List (List ℕ) → List ℕ → List ℕ → Grid → Option Grid
csi_grid cuu groups p marks g = some (move_cursor_rel (negate (param1 p 0)) (pos 0) g)
csi_grid cud groups p marks g = some (move_cursor_rel (pos (param1 p 0)) (pos 0) g)
csi_grid cuf groups p marks g = some (move_cursor_rel (pos 0) (pos (param1 p 0)) g)
csi_grid cub groups p marks g = some (move_cursor_rel (pos 0) (negate (param1 p 0)) g)
csi_grid cnl groups p marks g = some (move_cursor (g.cursor_row + param1 p 0) 0 g)
csi_grid cpl groups p marks g = some (move_cursor (g.cursor_row - param1 p 0) 0 g)
csi_grid cha groups p marks g = some (move_cursor g.cursor_row (param p 0 1 - 1) g)
csi_grid cup groups p marks g = some (move_cursor (param p 0 1 - 1) (param p 1 1 - 1) g)
csi_grid vpa groups p marks g = some (move_cursor (param p 0 1 - 1) g.cursor_col g)
csi_grid ed groups p marks g = erase_display (param p 0 0) g
csi_grid el groups p marks g = erase_in_line (param p 0 0) g
csi_grid sgr groups p marks g = some (if is_empty marks then set_sgr groups g else g)
csi_grid su groups p marks g = scroll_up (param1 p 0) g
csi_grid sd groups p marks g = scroll_down (param1 p 0) g
csi_grid il groups p marks g = insert_lines (param1 p 0) g
csi_grid dl groups p marks g = delete_lines (param1 p 0) g
csi_grid ich groups p marks g = insert_chars (param1 p 0) g
csi_grid dch groups p marks g = delete_chars (param1 p 0) g
csi_grid ech groups p marks g = erase_chars (param1 p 0) g
csi_grid decstbm groups p marks g = some (set_margins p g)
csi_grid sm groups p marks g = some (if contains marks 0x3f then set_modes p g else g)
csi_grid rm groups p marks g = some (if contains marks 0x3f then reset_modes p g else g)
csi_grid scp groups p marks g = some (if is_empty marks then save_cursor g else g)
csi_grid rcp groups p marks g = some (if is_empty marks then restore_cursor g else g)
csi_grid rep groups p marks g = repeat (param p 0 1) g
csi_grid dsr groups p marks g = some g
csi_grid da groups p marks g = some g
csi_grid other groups p marks g = some g

-- `xs == ys` on byte strings.
unfoldable pub same_bytes : List ℕ → List ℕ → Bool
same_bytes [] [] = true
same_bytes [] (y ∷ ys) = false
same_bytes (x ∷ xs) [] = false
same_bytes (x ∷ xs) (y ∷ ys) = x == y && same_bytes xs ys

-- What an arm replies: the kitty query, the reports, and the device attributes.
unfoldable pub csi_reply : Csi → List ℕ → List ℕ → Grid → List PendingReply
csi_reply rcp p marks g =
    if same_bytes marks (0x3f ∷ []) then bytes (0x1b ∷ 0x5b ∷ 0x3f ∷ 0x30 ∷ 0x75 ∷ []) ∷ [] else []
csi_reply dsr p marks g =
    let n = param p 0 0 in
    if is_empty marks && n == 5
    then bytes (0x1b ∷ 0x5b ∷ 0x30 ∷ 0x6e ∷ []) ∷ []
    else if is_empty marks && n == 6
    then bytes (cursor_report (g.cursor_row + 1) (g.cursor_col + 1)) ∷ []
    else []
csi_reply da p marks g =
    if is_empty marks
    then bytes (0x1b ∷ 0x5b ∷ 0x3f ∷ 0x36 ∷ 0x32 ∷ 0x3b ∷ 0x31 ∷ 0x3b ∷ 0x32 ∷ 0x63 ∷ []) ∷ []
    else []
csi_reply _ p marks g = []

unfoldable pub flatten : List (List ℕ) → List ℕ
flatten [] = []
flatten (group ∷ groups) = group ++ flatten groups

unfoldable pub csi_dispatch : List (List ℕ) → List ℕ → ℕ → VtHandler → Option VtHandler
csi_dispatch params marks action h =
    let arm = csi_of action in
    let p = flatten params in
    csi_grid arm params p marks h.grid
    >>= (λ g. some (record { grid = g; replies = h.replies ++ csi_reply arm p marks h.grid }))

unfoldable pub execute : ℕ → Grid → Option Grid
execute byte g =
    if byte == 0x08
    then some (backspace g)
    else if byte == 0x09
    then some (tab g)
    else if leb 0x0a byte && leb byte 0x0c
    then line_feed g
    else if byte == 0x0d
    then some (carriage_return g)
    else some g

unfoldable pub esc_dispatch : ℕ → Grid → Option Grid
esc_dispatch byte g =
    if byte == 0x37
    then some (save_cursor g)
    else if byte == 0x38
    then some (restore_cursor g)
    else if byte == 0x4d
    then (if leb g.cursor_row g.scroll_top
        then scroll_down 1 g
        else some (move_cursor_rel (negsuc 0) (pos 0) g))
    else if byte == 0x44
    then line_feed g
    else if byte == 0x45
    then line_feed (carriage_return g)
    else some g

unfoldable pub osc_dispatch : List (List ℕ) → Bool → List PendingReply → List PendingReply
osc_dispatch (code ∷ query ∷ rest) bell replies =
    if same_bytes query (0x3f ∷ [])
    then (if same_bytes code (0x31 ∷ 0x30 ∷ [])
        then replies ++ osc 10 bell ∷ []
        else if same_bytes code (0x31 ∷ 0x31 ∷ [])
        then replies ++ osc 11 bell ∷ []
        else replies)
    else replies
osc_dispatch _ bell replies = replies

-- A call of the parser.
pub data Callback : Type 0 where
  print_call : ℕ → Callback
  execute_call : ℕ → Callback
  osc_call : List (List ℕ) → Bool → Callback
  csi_call : List (List ℕ) → List ℕ → ℕ → Callback
  esc_call : ℕ → Callback

abbrev on_grid : (Grid → Option Grid) → VtHandler → Option VtHandler
on_grid f h = f h.grid >>= (λ g. some (record h { grid = g }))

unfoldable pub perform : Callback → VtHandler → Option VtHandler
perform (print_call c) h = on_grid (print c) h
perform (execute_call byte) h = on_grid (execute byte) h
perform (osc_call params bell) h = some (record h { replies = osc_dispatch params bell h.replies })
perform (csi_call params marks action) h = csi_dispatch params marks action h
perform (esc_call byte) h = on_grid (esc_dispatch byte) h

-- `parse_bytes`, from the calls that the parser makes of the bytes.
unfoldable pub perform_all : List Callback → VtHandler → Option VtHandler
perform_all [] h = some h
perform_all (call ∷ calls) h = do h' ← perform call h; perform_all calls h'
