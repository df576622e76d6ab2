-- ===== src/Window/Operations.antt =====
-- The operations of src/server/window.rs that change the layout or the list of panes.
use lrmux.Base.{ℕ, zero, suc, ◌-◌, ◌∷◌, Bool, true, false, ltb, leb, ◌==◌, ◌||◌, not, if◌then◌else◌}
use lrmux.Base.{Option, none, some, ◌>>=◌, List, [], ◌++◌, length, get_elem?}
use lrmux.Float.{Float}
use lrmux.Layout.Tree.{SplitDir, FocusDir, Layout, contains, pane_ids, remove, split_pane}
use lrmux.Layout.Presets.{Preset, even_horizontal, even_vertical, cycle_preset, named_preset}
use lrmux.Layout.Border.{resize_border}
use lrmux.Window.State.{Pane, Window, pane, pane_index_by_id, focus_pane, reflow_panes, unzoom}

pub data Removed : Type 0 where
  pane_removed window_empty : Removed

-- `Vec::remove` at an index in range.
abbrev pub remove_at {ℓ} : {A : Type ℓ} → ℕ → List A → List A
remove_at i [] = []
remove_at zero (x ∷ xs) = xs
remove_at (suc i) (x ∷ xs) = x ∷ remove_at i xs

-- `layout_kind` of a named layout.
abbrev pub kind_of : Preset → ℕ
kind_of even_horizontal = 0
kind_of even_vertical = 1
kind_of _ = 2

-- `active_pane` after the pane at `idx` was removed and `len` panes are left.
abbrev pub active_after : ℕ → ℕ → ℕ → ℕ
active_after idx len active =
    if leb len active then len - 1 else if ltb idx active then active - 1 else active

module _ {R : Type 0} where
  abbrev pub hint_at : Window R → Option ℕ → Option (ℕ × ℕ)
  hint_at w none = some (w.rows, w.cols)
  hint_at w (some i) = get_elem? w.panes i >>= (λ p. some (p.rows, p.cols))

  -- The size that the new pane starts with: the target's, or the window's.
  abbrev pub size_hint : Window R → ℕ → Option (ℕ × ℕ)
  size_hint w target = hint_at w (pane_index_by_id w target)

  -- `target_pane.unwrap_or_else(|| self.pane().id)`
  abbrev pub target_of : Window R → Option ℕ → Option ℕ
  target_of w none = pane w >>= (λ p. some p.id)
  target_of w (some target) = some target

module _ {R : Type 0} (f : Float R) where
  unfoldable pub next_layout : Window R → Option (Window R × Bool)
  next_layout w = if leb (length w.panes) 1 then some (w, false) else (do
    w' ← unzoom f w
    let ids = pane_ids w'.layout
    l ← (cycle_preset f ids w'.layout_kind).0
    w'' ←
        reflow_panes f
          (record w' { layout = l; layout_kind = (cycle_preset f ids w'.layout_kind).1 })
    some (w'', true))

  -- The end of `select_layout_named`, with what `named_preset` gives.
  abbrev pub apply_named : Window R → Preset → Option (Option (Layout R)) → Option (Window R × Bool)
  apply_named w name none = some (w, false)
  apply_named w name (some layout) = do
    l ← layout
    w' ← reflow_panes f (record w { layout = l; layout_kind = kind_of name })
    some (w', true)

  unfoldable pub select_layout_named : Window R → Preset → Option (Window R × Bool)
  select_layout_named w name =
      if leb (length w.panes) 1
      then some (w, false)
      else unzoom f w >>= (λ w'. apply_named w' name (named_preset f (pane_ids w'.layout) name))

  unfoldable pub resize_pane_border : Window R → ℕ → FocusDir → ℕ → Option (Window R × Bool)
  resize_pane_border w pane_id dir amount =
      if w.zoomed || amount == 0 || leb (length w.panes) 1
      then some (w, false)
      else let (l, done) = resize_border f w.layout pane_id dir amount w.cols w.rows in
        if not done
        then some (record w { layout = l }, false)
        else reflow_panes f (record w { layout = l }) >>= (λ w'. some (w', true))

  -- The end of `split`, with the target found.
  unfoldable pub split_at : Window R → SplitDir → ℕ → ℕ → Option (Window R × Option ℕ)
  split_at w dir target new_id = do
    hint ← size_hint w target
    let (l, found) = split_pane f w.layout target dir new_id (f.div (f.of_int 1) (f.of_int 2))
    let new_pane : Pane = record { id = new_id; rows = hint.0; cols = hint.1 }
    let done = (do
      w' ← reflow_panes f (record w { layout = l; panes = w.panes ++ new_pane ∷ [] })
      focused ← focus_pane w' new_id
      some (focused.0, some new_id))
    if found then done else some (record w { layout = l }, none)

  -- `split`, with the id of the pane that is started, and the ratio 0.5.
  unfoldable pub split : Window R → SplitDir → Option ℕ → ℕ → Option (Window R × Option ℕ)
  unfolding split_at
  split w dir target_pane new_id = do
    w' ← unzoom f w
    target ← target_of w' target_pane
    if contains w'.layout target then split_at w' dir target new_id else some (w', none)

  -- `remove_pane`, with what `pane_index_by_id` gives.
  unfoldable pub remove_found : Window R → ℕ → Option ℕ → Option (Window R × Option Removed)
  remove_found w pane_id none = some (w, none)
  remove_found w pane_id (some idx) =
      let (l, found) = remove w.layout pane_id in
      let left = remove_at idx w.panes in
      let done =
        reflow_panes f (record w {
          layout = l;
          panes = left;
          active_pane = active_after idx (length left) w.active_pane;
          zoomed = if leb (length left) 1 then false else w.zoomed;
        })
        >>= (λ w'. some (w', some pane_removed)) in
      if length w.panes == 1
      then some (w, some window_empty)
      else if not found
      then some (record w { layout = l }, none)
      else done

  unfoldable pub remove_pane : Window R → ℕ → Option (Window R × Option Removed)
  unfolding remove_found
  remove_pane w pane_id = remove_found w pane_id (pane_index_by_id w pane_id)

  -- `kill_active_pane`; the signal to the child changes no state here.
  unfoldable pub kill_active_pane : Window R → Option (Window R × Option Removed)
  unfolding remove_pane
  kill_active_pane w = pane w >>= (λ p. remove_pane w p.id)
