-- ===== src/Sessions/Windows.antt =====
-- The messages that change a window of the client that sends them, and the end of a child
-- (src/server/event_loop.rs). `none` is a panic.
use lrmux.Base.{ℕ, ◌-◌, Bool, true, false, ◌||◌, not, ◌&&◌}
use lrmux.Base.{Option, none, some, ◌>>=◌, List, [], ◌∷◌, length, get_elem?, set}
use lrmux.Base.{ltb, ◌==◌, if◌then◌else◌}
use lrmux.Float.{Float}
use lrmux.Layout.Tree.{SplitDir, horizontal, vertical, FocusDir, up, down, left, right}
use lrmux.Window.State.{
  Pane, Window, focus_pane, focus_next, focus_prev, focus_dir, toggle_zoom, resize,
}
use lrmux.Window.Operations.{Removed, pane_removed, window_empty, next_layout, split}
use lrmux.Window.Operations.{kill_active_pane, remove_pane}
use lrmux.Sessions.State.{
  Session, Server, Step, served, dropped, closed, snapshot_where, snapshot_all,
  resync_window_viewers, remove_session, remove_window,
}

-- `iter().any(…)`
abbrev pub any : {A : Type 0} → (A → Bool) → List A → Bool
any test [] = false
any test (x ∷ xs) = test x || any test xs

-- `dir == 1`
abbrev pub split_dir : ℕ → SplitDir
split_dir dir = if dir == 1 then horizontal else vertical

abbrev pub focus_dir_of : ℕ → FocusDir
focus_dir_of dir =
    if dir == 0 then up else if dir == 1 then down else if dir == 2 then left else right

module _ {R : Type 0} where
  -- The window that a client looks at, with the session that it stands in.
  abbrev pub window_at : Server R → ℕ → ℕ → Option (Session R × Window R)
  window_at s si wi =
      get_elem? s.sessions si >>= (λ x. get_elem? x.windows wi >>= (λ w. some (x, w)))

  abbrev pub put_window : ℕ → ℕ → Session R → Window R → Server R → Server R
  put_window si wi x w s = record s {
    sessions = set s.sessions si (record x { windows = set x.windows wi w });
  }

  -- An operation on the window, the viewers brought up to date if it says so, and the status bar if
  -- `status` does.
  abbrev pub change_found :
      (Window R → Option (Window R × Bool))
      → Bool
      → ℕ
      → ℕ
      → Server R
      → Option (Session R × Window R)
      → Option (Step R)
  change_found op status si wi s none = some (served s)
  change_found op status si wi s (some (x, w)) = op w >>= (λ (w', changed).
      let s' = put_window si wi x w' s in
      some (
        served (
          if changed
          then resync_window_viewers si wi
              (record s' { need_status_bar_all = s.need_status_bar_all || status })
          else s')))

  unfoldable pub change_window :
      (Window R → Option (Window R × Bool)) → Bool → ℕ → Server R → Option (Step R)
  change_window op status ci s = do
    c ← get_elem? s.clients ci
    change_found op status c.session_idx c.active_window s
        (window_at s c.session_idx c.active_window)

  -- The guard `panes.len() > 1`, and a focus that moved.
  abbrev pub if_several :
      (Window R → Option (Window R × Bool)) → Window R → Option (Window R × Bool)
  if_several op w = if ltb 1 (length w.panes) then op w else some (w, false)

  abbrev pub always : {B : Type 0} → Option (Window R × B) → Option (Window R × Bool)
  always result = result >>= (λ (w, b). some (w, true))

  abbrev pub if_some : {B : Type 0} → Option (Window R × Option B) → Option (Window R × Bool)
  if_some result = result >>= (λ (w, b). some (w, elim b [ none ↦ false | some a ↦ true ]))

  abbrev pub close_window : ℕ → ℕ → Session R → Server R → Step R
  close_window si wi x s =
      if ltb 1 (length x.windows) then served (remove_window si wi x s) else remove_session si s

  -- What is left to do when a pane was taken off its window.
  abbrev pub after_removal : ℕ → ℕ → Session R → Server R → Window R × Option Removed → Step R
  after_removal si wi x s (w, some pane_removed) = served (snapshot_all (put_window si wi x w s))
  after_removal si wi x s (w, some window_empty) = close_window si wi x s
  after_removal si wi x s (w, none) = close_window si wi x s

  -- The end of a child: what is left is sent at once, and nothing is noted for later.
  abbrev pub sent_at_once : Server R → Step R → Step R
  sent_at_once s (served s') =
      served
        (record s' { need_snapshot = s.need_snapshot; need_status_bar_all = s.need_status_bar_all })
  sent_at_once s (dropped s') = dropped s'
  sent_at_once s closed = closed

  -- The pane goes if the exit code is one of success, or a control client is attached to the session.
  abbrev pub closes : Bool → ℕ → Server R → Window R → Bool
  closes success si s w =
      not w.remain_on_exit && (success || any (λ c. c.is_control && c.session_idx == si) s.clients)

module _ {R : Type 0} (f : Float R) where
  unfoldable pub split_window : ℕ → ℕ → ℕ → Server R → Option (Step R)
  split_window ci dir new_id =
      change_window (λ w. if_some (split f w (split_dir dir) none new_id)) true ci

  unfoldable pub focus_next_pane : ℕ → Server R → Option (Step R)
  focus_next_pane = change_window (if_several (λ w. always (focus_next w))) false

  unfoldable pub focus_prev_pane : ℕ → Server R → Option (Step R)
  focus_prev_pane = change_window (if_several (λ w. always (focus_prev w))) false

  unfoldable pub focus_dir_pane : ℕ → ℕ → Server R → Option (Step R)
  focus_dir_pane ci dir =
      change_window (if_several (λ w. if_some (focus_dir f w (focus_dir_of dir)))) false ci

  unfoldable pub zoom_window : ℕ → Server R → Option (Step R)
  zoom_window = change_window (toggle_zoom f) true

  unfoldable pub cycle_layout : ℕ → Server R → Option (Step R)
  cycle_layout = change_window (next_layout f) false

  unfoldable pub focus_pane_of : ℕ → ℕ → Server R → Option (Step R)
  focus_pane_of ci pane_id = change_window (λ w. focus_pane w pane_id) false ci

  abbrev pub kill_found : ℕ → ℕ → Server R → Option (Session R × Window R) → Option (Step R)
  kill_found si wi s none = some (served s)
  kill_found si wi s (some (x, w)) =
      kill_active_pane f w >>= (λ removed. some (after_removal si wi x s removed))

  unfoldable pub kill_pane : ℕ → Server R → Option (Step R)
  kill_pane ci s = do
    c ← get_elem? s.clients ci
    kill_found c.session_idx c.active_window s (window_at s c.session_idx c.active_window)

  -- The windows of a session at a new size.
  unfoldable pub resize_windows : ℕ → ℕ → List (Window R) → Option (List (Window R))
  resize_windows rows cols [] = some []
  resize_windows rows cols (w ∷ windows) = do
    w' ← resize f w rows cols
    windows' ← resize_windows rows cols windows
    some (w' ∷ windows')

  abbrev pub resize_found : ℕ → ℕ → ℕ → Server R → Option (Session R) → Option (Server R)
  resize_found si rows cols s none = some s
  resize_found si rows cols s (some x) = resize_windows rows cols x.windows >>= (λ windows.
      some (record s { sessions = set s.sessions si (record x { windows = windows }) }))

  -- `Resize`: the row of the status bar is taken off.
  unfoldable pub resize_view : ℕ → ℕ → ℕ → Server R → Option (Step R)
  resize_view ci rows cols s = do
    c ← get_elem? s.clients ci
    let si = c.session_idx
    s' ← resize_found si (rows - 1) cols s (get_elem? s.sessions si)
    some (
        served (record s' {
          grid_rows = if si == 0 then rows - 1 else s.grid_rows;
          grid_cols = if si == 0 then cols else s.grid_cols;
          need_snapshot = snapshot_where (λ d. d.session_idx == si) 0 s.clients s.need_snapshot;
          need_status_bar_all = true;
        }))

  abbrev pub exit_pane :
      Bool → ℕ → ℕ → Server R → Session R → Window R → Option Pane → Option (Step R)
  exit_pane success si wi s x w none = some (served s)
  exit_pane success si wi s x w (some p) =
      if closes success si s w
      then remove_pane f w p.id
        >>= (λ removed. some (sent_at_once s (after_removal si wi x s removed)))
      else some (served s)

  abbrev pub exit_found :
      Bool → ℕ → ℕ → ℕ → Server R → Option (Session R × Window R) → Option (Step R)
  exit_found success si wi pi s none = some (served s)
  exit_found success si wi pi s (some (x, w)) = exit_pane success si wi s x w (get_elem? w.panes pi)

  unfoldable pub child_exit : Bool → ℕ → ℕ → ℕ → Server R → Option (Step R)
  child_exit success si wi pi s = exit_found success si wi pi s (window_at s si wi)
