-- ===== src/Sessions/Safe.antt =====
-- Every message of src/server/event_loop.rs that changes sessions, windows or clients, and the end of a
-- child.
use lrmux.Base.{
  ℕ, ◌<◌, ◌≡◌, refl, ap, ◌∙◌, Bool, true, false, Bool-cases, inl, inr, if_true, if_false,
}
use lrmux.Base.{
  Option, none, some, ◌>>=◌, some_step, All, length, contains, get_elem?, Option-cases,
}
use lrmux.Float.{Float}
use lrmux.Layout.Tree.{pane_ids}
use lrmux.Window.State
use lrmux.Window.State.{Pane, Window}
use lrmux.Window.Operations.{remove_pane}
use lrmux.Window.Invariant.{IsWindow}
use lrmux.Window.Preserve.{
  focus_pane-IsDone, focus_next-IsDone, focus_prev-IsDone, focus_dir-IsDone, toggle_zoom-IsDone,
  next_layout-IsDone,
}
use lrmux.Window.Edit.{split-IsDone, remove_pane-IsDone}
use lrmux.Sessions.State.{Session, Server, Step, served, dropped, closed}
use lrmux.Sessions.Run.{
  Request, resize, refresh, detach, new_window, next_window, prev_window, select_window, kill_pane,
  new_session, next_session, prev_session, select_session, kill_session, rename_session, split_pane,
  focus_next, focus_prev, focus_dir, toggle_zoom, next_layout, focus_pane, identify_control, handle,
  IsAdmissible,
}
use lrmux.Sessions.Windows.{
  split_window, focus_next_pane, focus_prev_pane, focus_dir_pane, zoom_window, cycle_layout,
  exit_pane, always, if_some, focus_pane_of, split_dir, focus_dir_of, child_exit, exit_found,
  closes, sent_at_once, window_at,
}
use lrmux.Sessions.Placed.{IsSession, ServerIsPlaced, StepIsPlaced, All-get, client_session}
use lrmux.Sessions.Placed.{get_elem?_lt}
use lrmux.Sessions.Preserve.{Serves}
use lrmux.Sessions.Served.{
  next_window-Serves, prev_window-Serves, select_window-Serves, next_session-Serves,
  prev_session-Serves, select_session-Serves, kill_session-Serves, rename_session-Serves,
  new_window-Serves, new_session-Serves, refresh-Serves, identify_control-Serves,
}
use lrmux.Sessions.Changes.{
  result_of, window_at-some, after_removal-StepIsPlaced, change_window-Serves, always-IsDone,
  if_some-IsDone, if_several-IsDone, kill_pane-Serves, resize_view-Serves,
}

module _ {R : Type 0} (f : Float R) where
  -- On a server each of whose sessions has a window, whose windows are well formed, and each of
  -- whose clients looks at a window that is there, every message of this kind from a client on the
  -- list is handled without a panic, and what it leaves is again such a server, or the end of the
  -- server. A window or a session that is started must be well formed, and the id of a new pane
  -- must not be in use in any window.
  pub handle-Serves :
      (ci : ℕ) (req : Request R) (s : Server R)
      → ServerIsPlaced s
      → ci < length s.clients
      → IsAdmissible req s
      → Serves (handle f ci req s)
  unfolding handle split_window focus_next_pane focus_prev_pane focus_dir_pane zoom_window
      cycle_layout focus_pane_of
  handle-Serves ci (resize rows cols) s h within fit = resize_view-Serves f ci rows cols s h within
  handle-Serves ci refresh s h within fit = refresh-Serves ci s h within
  handle-Serves ci detach s h within fit =
      let (c, x, ec, ex, lt, good) = client_session s ci h within in
      (dropped s, some_step (get_elem? s.clients ci) _ ec refl, h)
  handle-Serves ci (new_window started) s h within fit = new_window-Serves ci s h within started fit
  handle-Serves ci next_window s h within fit = next_window-Serves ci s h within
  handle-Serves ci prev_window s h within fit = prev_window-Serves ci s h within
  handle-Serves ci (select_window index) s h within fit = select_window-Serves ci s h within index
  handle-Serves ci kill_pane s h within fit = kill_pane-Serves f ci s h within
  handle-Serves ci (new_session made) s h within fit = new_session-Serves ci s h within made fit
  handle-Serves ci next_session s h within fit = next_session-Serves ci s h within
  handle-Serves ci prev_session s h within fit = prev_session-Serves ci s h within
  handle-Serves ci (select_session name) s h within fit = select_session-Serves ci s h within name
  handle-Serves ci kill_session s h within fit = kill_session-Serves ci s h within
  handle-Serves ci (rename_session name) s h within fit = rename_session-Serves ci s h within name
  handle-Serves ci (split_pane dir new_id) s h within fit =
      change_window-Serves _ true ci s
        (λ x w si wi ex ew sound. if_some-IsDone _ (
          split-IsDone f w (split_dir dir) none new_id sound (
            All-get (λ v. contains (pane_ids v.layout) new_id ≡ false) x.windows wi
              (All-get (λ y. All (λ v. contains (pane_ids v.layout) new_id ≡ false) y.windows)
                s.sessions si fit ex)
              ew)))
        h within
  handle-Serves ci focus_next s h within fit =
      change_window-Serves _ false ci s
        (λ x w si wi ex ew sound.
          if_several-IsDone (λ v. always (State.focus_next v)) w sound
            (always-IsDone _ (focus_next-IsDone w sound)))
        h within
  handle-Serves ci focus_prev s h within fit =
      change_window-Serves _ false ci s
        (λ x w si wi ex ew sound.
          if_several-IsDone (λ v. always (State.focus_prev v)) w sound
            (always-IsDone _ (focus_prev-IsDone w sound)))
        h within
  handle-Serves ci (focus_dir dir) s h within fit =
      change_window-Serves _ false ci s
        (λ x w si wi ex ew sound.
          if_several-IsDone (λ v. if_some (State.focus_dir f v (focus_dir_of dir))) w sound
            (if_some-IsDone _ (focus_dir-IsDone f w (focus_dir_of dir) sound)))
        h within
  handle-Serves ci toggle_zoom s h within fit =
      change_window-Serves _ true ci s (λ x w si wi ex ew sound. toggle_zoom-IsDone f w sound) h
        within
  handle-Serves ci next_layout s h within fit =
      change_window-Serves _ false ci s (λ x w si wi ex ew sound. next_layout-IsDone f w sound) h
        within
  handle-Serves ci (focus_pane pane_id) s h within fit =
      change_window-Serves _ false ci s (λ x w si wi ex ew sound. focus_pane-IsDone w pane_id sound)
        h within
  handle-Serves ci identify_control s h within fit = identify_control-Serves ci s h within

  sent_at_once-StepIsPlaced :
      (s : Server R) (r : Step R) → StepIsPlaced r → StepIsPlaced (sent_at_once s r)
  sent_at_once-StepIsPlaced s (served s') h = record { sound = h.sound; placed = h.placed }
  sent_at_once-StepIsPlaced s (dropped s') h = h
  sent_at_once-StepIsPlaced s closed h = tt

  exit_pane-Serves :
      (success : Bool) (si wi : ℕ) (s : Server R) (x : Session R) (w : Window R) (o : Option Pane)
      → ServerIsPlaced s
      → get_elem? s.sessions si ≡ some x
      → get_elem? x.windows wi ≡ some w
      → Serves (exit_pane f success si wi s x w o)
  exit_pane-Serves success si wi s x w none h ex ew = (served s, refl, h)
  exit_pane-Serves success si wi s x w (some p) h ex ew =
      elim (Bool-cases (closes success si s w)) [
        | inl gone ↦
            let good = All-get IsSession s.sessions si h.sound ex in
            let (w', done, sound) =
              remove_pane-IsDone f w p.id (All-get IsWindow x.windows wi good.1 ew) in
            let (removed, run) = result_of (remove_pane f w p.id) w' done in
            let within = get_elem?_lt x.windows wi ew in
            (
              _,
              if_true _ gone ∙ some_step (remove_pane f w p.id) _ run refl,
              sent_at_once-StepIsPlaced s _
                  (after_removal-StepIsPlaced s si wi x w' removed h ex good within sound),
            )
        | inr kept ↦ (served s, if_false _ kept, h)
      ]

  -- On such a server the end of a child, whatever its exit code and whichever session, window and
  -- pane the poll names, is handled without a panic, and what it leaves is again such a server, or
  -- the end of the server.
  pub child_exit-Serves :
      (success : Bool) (si wi pi : ℕ) (s : Server R)
      → ServerIsPlaced s
      → Serves (child_exit f success si wi pi s)
  unfolding child_exit
  child_exit-Serves success si wi pi s h = elim (Option-cases (get_elem? s.sessions si)) [
    | inl absent ↦ (served s, ap (exit_found f success si wi pi s) (no_session absent), h)
    | inr (x, ex) ↦ elim (Option-cases (get_elem? x.windows wi)) [
      | inl absent ↦ (served s, ap (exit_found f success si wi pi s) (no_window x ex absent), h)
      | inr (w, ew) ↦
          let (r, run, kept) = found_exit x w ex ew in
          (r, ap (exit_found f success si wi pi s) (window_at-some s si wi ex ew) ∙ run, kept)
    ]
  ]
    where
      no_session : get_elem? s.sessions si ≡ none → window_at s si wi ≡ none
      no_session e = ap (λ t. t >>= (λ x. get_elem? x.windows wi >>= (λ w. some (x, w)))) e

      no_window :
          (x : Session R)
          → get_elem? s.sessions si ≡ some x
          → get_elem? x.windows wi ≡ none
          → window_at s si wi ≡ none
      no_window x ex e =
          some_step (get_elem? s.sessions si) _ ex (ap (λ t. t >>= (λ w. some (x, w))) e)

      found_exit :
          (x : Session R) (w : Window R)
          → get_elem? s.sessions si ≡ some x
          → get_elem? x.windows wi ≡ some w
          → Serves (exit_found f success si wi pi s (some (x, w)))
      found_exit x w ex ew = exit_pane-Serves success si wi s x w (get_elem? w.panes pi) h ex ew
