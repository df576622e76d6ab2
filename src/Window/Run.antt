-- ===== src/Window/Run.antt =====
-- The operations of a window (src/server/window.rs) as data, and the step that each makes.
use lrmux.Base.{ℕ, false, ◌≡◌, Option, some, ◌>>=◌, contains}
use lrmux.Float.{Float}
use lrmux.Layout.Tree.{SplitDir, FocusDir, pane_ids}
use lrmux.Layout.Presets.{Preset}
use lrmux.Window.State.{Window, focus_pane, focus_next, focus_prev, focus_dir, resize, toggle_zoom}
use lrmux.Window.State.{unzoom as unzoom_window}
use lrmux.Window.Operations.{
  next_layout, select_layout_named, resize_pane_border, split, remove_pane,
}

-- One constructor for each public operation that changes a window.
pub data Operation : Type 0 where
  focus : ℕ → Operation
  next prev : Operation
  towards : FocusDir → Operation
  zoom unzoom relayout : Operation
  select : Preset → Operation
  border : ℕ → FocusDir → ℕ → Operation
  size : ℕ → ℕ → Operation
  split_off : SplitDir → Option ℕ → ℕ → Operation
  drop_pane : ℕ → Operation

abbrev pub window_of : {R B : Type 0} → Option (Window R × B) → Option (Window R)
window_of result = result >>= (λ r. some r.0)

module _ {R : Type 0} (f : Float R) where
  unfoldable pub run : Operation → Window R → Option (Window R)
  run (focus id) w = window_of (focus_pane w id)
  run next w = window_of (focus_next w)
  run prev w = window_of (focus_prev w)
  run (towards dir) w = window_of (focus_dir f w dir)
  run zoom w = window_of (toggle_zoom f w)
  run unzoom w = unzoom_window f w
  run relayout w = window_of (next_layout f w)
  run (select name) w = window_of (select_layout_named f w name)
  run (border id dir amount) w = window_of (resize_pane_border f w id dir amount)
  run (size rows cols) w = resize f w rows cols
  run (split_off dir target new_id) w = window_of (split f w dir target new_id)
  run (drop_pane id) w = window_of (remove_pane f w id)

  -- The id of a new pane is not in use in the window.
  abbrev pub IsFresh : Operation → Window R → Type 0
  IsFresh (split_off dir target new_id) w = contains (pane_ids w.layout) new_id ≡ false
  IsFresh op w = Unit
