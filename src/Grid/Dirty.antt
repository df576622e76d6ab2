-- ===== src/Grid/Dirty.antt =====
-- The dirty rows of a grid and its mouse flags on the wire (src/grid/mod.rs).
use lrmux.Base.{
  ℕ, zero, suc, ◌+◌, ◌*◌, ◌/◌, ◌%◌, ◌<◌, Bool, true, false, ◌≡◌, ◌⊎◌, refl, ap, ◌∙◌, arith, IsU8,
}
use lrmux.Base.{
  List, [], ◌∷◌, length, replicate, get_elem?, none, some, contains, ◌==◌, if◌then◌else◌,
}
use lrmux.Grid.Screen.{Grid}

-- `self.dirty.fill(true)`
unfoldable pub mark_all_dirty : Grid → Grid
mark_all_dirty g = record g { dirty = replicate (length g.dirty) true }

-- The loop of `take_dirty` from index `i` on: the flags it leaves, and the indices it takes.
unfoldable pub take_from : ℕ → List Bool → List Bool × List ℕ
take_from i [] = ([], [])
take_from i (true ∷ dirty) = let (left, rows) = take_from (i + 1) dirty in (false ∷ left, i ∷ rows)
take_from i (false ∷ dirty) = let (left, rows) = take_from (i + 1) dirty in (false ∷ left, rows)

unfoldable pub take_dirty : Grid → Grid × List ℕ
unfolding take_from
take_dirty g = let (left, rows) = take_from 0 g.dirty in (record g { dirty = left }, rows)

abbrev pub flag_bit : Bool → ℕ
flag_bit b = if b then 1 else 0

-- The parts do not overlap while `mouse_tracking` has its three bits only, so `|` is a sum.
unfoldable pub mouse_flags : Grid → ℕ
mouse_flags g =
    let fmt = if g.mouse_fmt == 5 then 1 else if g.mouse_fmt == 6 then 2 else 0 in
    g.mouse_tracking + 8 * fmt + 32 * flag_bit g.mouse_altscroll + 64 * flag_bit g.app_cursor_keys

unfoldable pub set_mouse_flags : ℕ → Grid → Grid
set_mouse_flags f g =
    let fmt = f / 8 % 4 in
    record g {
      mouse_tracking = f % 8;
      mouse_fmt = if fmt == 1 then 5 else if fmt == 2 then 6 else 0;
      mouse_altscroll = f / 32 % 2 == 1;
      app_cursor_keys = f / 64 % 2 == 1;
    }

-- With three bits of `mouse_tracking` and a `mouse_fmt` of 0, 5 or 6, the packed flags fit into a
-- byte, and a grid that unpacks them takes over the tracking, the format, the scroll mode and the
-- cursor-key mode, and changes nothing else.
pub set_mouse_flags-mouse_flags :
    (g h : Grid)
    → g.mouse_tracking < 8
    → (g.mouse_fmt ≡ 0) ⊎ (g.mouse_fmt ≡ 5) ⊎ (g.mouse_fmt ≡ 6)
    → IsU8 (mouse_flags g)
      × (set_mouse_flags (mouse_flags g) h ≡ record h {
        mouse_tracking = g.mouse_tracking;
        mouse_fmt = g.mouse_fmt;
        mouse_altscroll = g.mouse_altscroll;
        app_cursor_keys = g.app_cursor_keys;
      })
unfolding mouse_flags set_mouse_flags
set_mouse_flags-mouse_flags g h low fmt = (ground arith, ground arith)

-- A flag that is set.
abbrev pub is_dirty : List Bool → ℕ → Bool
is_dirty dirty row = elim (get_elem? dirty row) [ none ↦ false | some b ↦ b ]

take_from_below :
    (i : ℕ) (dirty : List Bool) (k : ℕ) → k < i → contains (take_from i dirty).1 k ≡ false
unfolding take_from
take_from_below i [] k h = refl
take_from_below i (true ∷ dirty) k h = ground (arith, take_from_below (i + 1) dirty k)
take_from_below i (false ∷ dirty) k h = take_from_below (i + 1) dirty k (omega arith)

take_from_lem :
    (i : ℕ) (dirty : List Bool) (row : ℕ)
    → (contains (take_from i dirty).1 (i + row) ≡ is_dirty dirty row)
      × (is_dirty (take_from i dirty).0 row ≡ false)
      × (length (take_from i dirty).0 ≡ length dirty)
unfolding take_from
take_from_lem i [] row = (refl, refl, refl)
take_from_lem i (true ∷ dirty) zero = (ground arith, refl, ap suc (take_from_lem (i + 1) dirty 0).2)
take_from_lem i (false ∷ dirty) zero = (
  take_from_below (i + 1) dirty (i + 0) (omega arith),
  refl,
  ap suc (take_from_lem (i + 1) dirty 0).2,
)
take_from_lem i (true ∷ dirty) (suc row) =
    let ih = take_from_lem (i + 1) dirty row in
    let place : i + suc row ≡ (i + 1) + row = omega arith in
    (ground (arith, ih.0), ih.1, ap suc ih.2)
take_from_lem i (false ∷ dirty) (suc row) =
    let ih = take_from_lem (i + 1) dirty row in
    let place : i + suc row ≡ (i + 1) + row = omega arith in
    (ap (contains (take_from (i + 1) dirty).1) place ∙ ih.0, ih.1, ap suc ih.2)

-- `take_dirty` gives the index of a row exactly if its dirty flag was set, leaves no flag set, and
-- keeps the number of flags.
pub take_dirty_lem :
    (g : Grid) (row : ℕ)
    → let (g', rows) = take_dirty g in
      (contains rows row ≡ is_dirty g.dirty row)
      × (is_dirty g'.dirty row ≡ false)
      × (length g'.dirty ≡ length g.dirty)
unfolding take_dirty
take_dirty_lem g row =
    let start : row ≡ 0 + row = omega arith in
    let taken = take_from_lem 0 g.dirty row in
    (ap (contains (take_from 0 g.dirty).1) start ∙ taken.0, taken.1, taken.2)
