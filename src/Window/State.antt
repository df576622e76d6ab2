-- ===== src/Window/State.antt =====
-- The state of a window (src/server/window.rs) and the operations that look up, focus and resize its panes.
-- Of a pane only its id and its size are kept. `none` is a panic: an index out of range.
use lrmux.Base.{
  ℕ, suc, ◌+◌, ◌-◌, ◌%◌, min, max, Bool, true, false, not, ◌||◌, leb, ◌==◌, if◌then◌else◌,
}
use lrmux.Base.{Option, none, some, ◌>>=◌, List, [], ◌∷◌, length, get_elem?, set}
use lrmux.Float.{Float}
use lrmux.Layout.Tree.{FocusDir, Layout, single, pane_ids}
use lrmux.Layout.Geometry.{Rect, reflow}
use lrmux.Layout.Neighbor.{neighbor}

pub record Pane : Type 0 where
  pub id : ℕ
  pub rows : ℕ
  pub cols : ℕ

pub record Window (R : Type 0) : Type 0 where
  pub id : ℕ
  pub panes : List Pane
  pub active_pane : ℕ
  pub layout : Layout R
  pub rows : ℕ
  pub cols : ℕ
  pub name : List ℕ
  pub activity : Bool
  pub remain_on_exit : Bool
  pub name_locked : Bool
  pub zoomed : Bool
  pub layout_kind : ℕ

-- `iter().position(|&id| id == a)`
unfoldable pub position : List ℕ → ℕ → Option ℕ
position [] a = none
position (x ∷ xs) a =
    let later = position xs a in if x == a then some 0 else later >>= (λ i. some (suc i))

-- `position(…).unwrap_or(0)`
abbrev pub position_or_zero : List ℕ → ℕ → ℕ
position_or_zero ids cur = elim (position ids cur) [ none ↦ 0 | some i ↦ i ]

-- The ids of the panes, in the order of `panes`.
abbrev pub ids_of_panes : List Pane → List ℕ
ids_of_panes [] = []
ids_of_panes (p ∷ panes) = p.id ∷ ids_of_panes panes

-- `Pane::resize`, guarded by the test that the size is another.
abbrev pub resize_pane : ℕ → ℕ → Pane → Pane
resize_pane rows cols p =
    if not (p.rows == rows) || not (p.cols == cols)
    then record p { rows = rows; cols = cols }
    else p

-- The body of the loop of `reflow_panes`: the first pane with the id.
unfoldable pub resize_placed : ℕ × Rect → List Pane → List Pane
resize_placed (id, rect) [] = []
resize_placed (id, rect) (p ∷ panes) =
    let later = resize_placed (id, rect) panes in
    if p.id == id then resize_pane rect.rows rect.cols p ∷ panes else p ∷ later

unfoldable pub resize_all : List (ℕ × Rect) → List Pane → List Pane
resize_all [] panes = panes
resize_all (entry ∷ geom) panes = resize_all geom (resize_placed entry panes)

module _ {R : Type 0} where
  -- `from_pane`, with the id that the counter gives.
  unfoldable pub from_pane : ℕ → Pane → ℕ → ℕ → List ℕ → Window R
  from_pane id pane rows cols name = record {
    id = id;
    panes = pane ∷ [];
    active_pane = 0;
    layout = single pane.id;
    rows = rows;
    cols = cols;
    name = name;
    activity = false;
    remain_on_exit = false;
    name_locked = false;
    zoomed = false;
    layout_kind = 0;
  }

  abbrev pub clamp_active : Window R → ℕ
  clamp_active w = min w.active_pane (length w.panes - 1)

  abbrev pub pane : Window R → Option Pane
  pane w = get_elem? w.panes (clamp_active w)

  unfoldable pub pane_index_by_id : Window R → ℕ → Option ℕ
  unfolding position
  pane_index_by_id w pane_id = position (ids_of_panes w.panes) pane_id

  unfoldable pub apply_zoom_size : Window R → Option (Window R)
  apply_zoom_size w = pane w >>= (λ p. some (record w {
    panes = set w.panes (clamp_active w) (resize_pane (max w.rows 1) (max w.cols 1) p);
  }))

  -- `focus_pane`, with what `pane_index_by_id` gives.
  unfoldable pub focus_at : Window R → Option ℕ → Option (Window R × Bool)
  focus_at w none = some (w, false)
  focus_at w (some i) =
      let focused : Window R = record w { active_pane = i } in
      if w.zoomed then apply_zoom_size focused >>= (λ w'. some (w', true)) else some (focused, true)

  unfoldable pub focus_pane : Window R → ℕ → Option (Window R × Bool)
  unfolding focus_at
  focus_pane w pane_id = focus_at w (pane_index_by_id w pane_id)

  -- `focus_next` and `focus_prev`, from the ids of the layout; `move` is what they do to the position.
  unfoldable pub focus_among : (ℕ → ℕ) → Window R → List ℕ → Option (Window R × ℕ)
  focus_among move w [] = some (w, 0)
  focus_among move w (first ∷ rest) = do
    let ids = first ∷ rest
    p ← pane w
    next ← get_elem? ids (move (position_or_zero ids p.id) % length ids)
    focused ← focus_pane w next
    some (focused.0, next)

  unfoldable pub focus_next : Window R → Option (Window R × ℕ)
  unfolding focus_among
  focus_next w = focus_among (λ pos. pos + 1) w (pane_ids w.layout)

  unfoldable pub focus_prev : Window R → Option (Window R × ℕ)
  unfolding focus_among
  focus_prev w = focus_among (λ pos. pos + length (pane_ids w.layout) - 1) w (pane_ids w.layout)

  -- `focus_dir`, with what `neighbor` gives.
  abbrev pub focus_toward : Window R → Option ℕ → Option (Window R × Option ℕ)
  focus_toward w none = some (w, none)
  focus_toward w (some next) = focus_pane w next >>= (λ focused. some (focused.0, some next))

module _ {R : Type 0} (f : Float R) where
  unfoldable pub focus_dir : Window R → FocusDir → Option (Window R × Option ℕ)
  focus_dir w dir =
      pane w >>= (λ from. focus_toward w (neighbor f w.layout from.id dir w.cols w.rows))

  unfoldable pub reflow_panes : Window R → Option (Window R)
  reflow_panes w =
      if w.zoomed
      then apply_zoom_size w
      else some (record w { panes = resize_all (reflow f w.layout w.cols w.rows) w.panes })

  unfoldable pub resize : Window R → ℕ → ℕ → Option (Window R)
  unfolding reflow_panes
  resize w rows cols = reflow_panes (record w { rows = max rows 1; cols = max cols 1 })

  unfoldable pub toggle_zoom : Window R → Option (Window R × Bool)
  unfolding reflow_panes
  toggle_zoom w =
      if leb (length w.panes) 1
      then some (record w { zoomed = false }, false)
      else reflow_panes (record w { zoomed = not w.zoomed }) >>= (λ w'. some (w', true))

  unfoldable pub unzoom : Window R → Option (Window R)
  unfolding reflow_panes
  unzoom w = if w.zoomed then reflow_panes (record w { zoomed = false }) else some w
