-- ===== src/Sessions/Changes.antt =====
-- The messages that change a window (src/server/event_loop.rs), on a server whose clients look at windows
-- that are there.
use lrmux.Base.{ℕ, suc, ◌-◌, ◌<◌, Bool, true, false, ◌≡◌, refl, sym, ap, ◌∙◌}
use lrmux.Base.{Option, none, some, ◌>>=◌, some_step, List, [], ◌∷◌, map, length, get_elem?, set}
use lrmux.Base.{All, arith, subst, ltb, ltb→lt, if◌then◌else◌}
use lrmux.Base.{length-set}
use mathlib.Core.Option.{some-injective}
use lrmux.Float.{Float}
use lrmux.Window.State.{Window, resize}
use lrmux.Window.Run.{window_of}
use lrmux.Window.Operations.{Removed, pane_removed, window_empty, remove_at}
use lrmux.Window.Operations.{kill_active_pane, remove_pane}
use lrmux.Window.Invariant.{IsWindow, get_elem?_in, pane_lem}
use lrmux.Window.Preserve.{IsDone, resize-IsDone}
use lrmux.Window.Edit.{remove_pane-IsDone}
use lrmux.Window.Invariant.{length-ids_of_panes}
use lrmux.Sessions.State.{Session, Server, after_window, remove_window, resync_window_viewers}
use lrmux.Sessions.Windows.{
  window_at, put_window, change_found, change_window, if_several, always, if_some, after_removal,
  kill_found, kill_pane, resize_windows, resize_found, resize_view,
}
use lrmux.Sessions.Placed.{
  widths, IsPlacedIn, IsSession, ServerIsPlaced, StepIsPlaced, All-set, All-get, All-map,
  All-remove_at, length-remove_at, widths-get, widths-set, put_session-IsPlaced, client_session,
}
use lrmux.Sessions.Moves.{after_window-IsPlacedIn}
use lrmux.Sessions.Preserve.{Serves, if-StepIsPlaced, remove_session-StepIsPlaced}

-- What an operation on a window returns beside the window.
pub result_of :
    {R B : Type 0} (r : Option (Window R × B)) (w : Window R)
    → window_of r ≡ some w
    → (b : B) × (r ≡ some (w, b))
result_of none w e = absurd (cc)
result_of (some (v, b)) w e = (b, ap (λ t. some (t, b)) (some-injective v w e))

module _ {R : Type 0} where
  put_window-IsPlaced :
      (s : Server R) (si wi : ℕ) (x : Session R) (w : Window R)
      → ServerIsPlaced s
      → get_elem? s.sessions si ≡ some x
      → IsSession x
      → IsWindow w
      → ServerIsPlaced (put_window si wi x w s)
  put_window-IsPlaced s si wi x w h found good sound =
      let same = length-set x.windows wi w in
      put_session-IsPlaced s.sessions s.clients si x _ found
        (omega (arith, same, good.0), All-set IsWindow x.windows wi w good.1 sound) same h.sound
        h.placed

  remove_window-IsPlaced :
      (s : Server R) (si wi : ℕ) (x : Session R)
      → ServerIsPlaced s
      → get_elem? s.sessions si ≡ some x
      → IsSession x
      → wi < length x.windows
      → 1 < length x.windows
      → ServerIsPlaced (remove_window si wi x s)
  unfolding remove_window
  remove_window-IsPlaced s si wi x h found good within several =
      let left = remove_at wi x.windows in
      let one_less = length-remove_at wi x.windows within in
      let here : get_elem? (widths s.sessions) si ≡ some (suc (length left)) =
        widths-get s.sessions si found ∙ ap some (sym one_less) in
      let clients = map (after_window si wi (length left)) s.clients in
      let fewer = set (widths s.sessions) si (length left) in
      record {
        sound =
            All-set IsSession s.sessions si _ h.sound
              (omega (arith, one_less, several), All-remove_at IsWindow wi x.windows good.1);
        placed =
            subst (λ n. All (IsPlacedIn n) clients)
              (sym (widths-set s.sessions si (record x { windows = left })))
              (All-map (IsPlacedIn (widths s.sessions)) (IsPlacedIn fewer)
                (after_window si wi (length left)) s.clients
                (λ c.
                  after_window-IsPlacedIn si wi (length left) (widths s.sessions) c here
                    (omega (arith, one_less, several)) (omega (arith, one_less, within)))
                h.placed);
      }

  -- The window at which the client of a message looks.
  pub window_at-some :
      (s : Server R) (si wi : ℕ) {x : Session R} {w : Window R}
      → get_elem? s.sessions si ≡ some x
      → get_elem? x.windows wi ≡ some w
      → window_at s si wi ≡ some (x, w)
  window_at-some s si wi {x} ex ew =
      some_step (get_elem? s.sessions si) _ ex (some_step (get_elem? x.windows wi) _ ew refl)

  resynced-IsPlaced :
      (b status : Bool) (si wi : ℕ) (s s' : Server R)
      → ServerIsPlaced s'
      → ServerIsPlaced (
          if b
          then resync_window_viewers si wi (record s' { need_status_bar_all = status })
          else s')
  unfolding resync_window_viewers
  resynced-IsPlaced true status si wi s s' h = record { sound = h.sound; placed = h.placed }
  resynced-IsPlaced false status si wi s s' h = h

  pub change_window-Serves :
      (op : Window R → Option (Window R × Bool)) (status : Bool) (ci : ℕ) (s : Server R)
      → ((x : Session R) (w : Window R) (si wi : ℕ)
          → get_elem? s.sessions si ≡ some x
          → get_elem? x.windows wi ≡ some w
          → IsWindow w
          → IsDone (window_of (op w)))
      → ServerIsPlaced s
      → ci < length s.clients
      → Serves (change_window op status ci s)
  unfolding change_window
  change_window-Serves op status ci s safe h within =
      let (c, x, ec, ex, lt, good) = client_session s ci h within in
      let si = c.session_idx in
      let wi = c.active_window in
      let (w, ew) = get_elem?_in x.windows wi lt in
      let (w', done, sound) = safe x w si wi ex ew (All-get IsWindow x.windows wi good.1 ew) in
      let (changed, run) = result_of (op w) w' done in
      (
        _,
        some_step (get_elem? s.clients ci) _ ec (
            ap (change_found op status si wi s) (window_at-some s si wi ex ew)
            ∙ some_step (op w) _ run refl),
        resynced-IsPlaced changed _ si wi s _ (put_window-IsPlaced s si wi x w' h ex good sound),
      )

  pub always-IsDone :
      {B : Type 0} (r : Option (Window R × B))
      → IsDone (window_of r)
      → IsDone (window_of (always r))
  always-IsDone none (w, e, h) = absurd (cc)
  always-IsDone (some (v, b)) (w, e, h) = (w, e, h)

  pub if_some-IsDone :
      {B : Type 0} (r : Option (Window R × Option B))
      → IsDone (window_of r)
      → IsDone (window_of (if_some r))
  if_some-IsDone none (w, e, h) = absurd (cc)
  if_some-IsDone (some (v, b)) (w, e, h) = (w, e, h)

  pub if_several-IsDone :
      (op : Window R → Option (Window R × Bool)) (w : Window R)
      → IsWindow w
      → IsDone (window_of (op w))
      → IsDone (window_of (if_several op w))
  if_several-IsDone op w h done = by_test (ltb 1 (length w.panes))
    where
      by_test : (b : Bool) → IsDone (window_of (if b then op w else some (w, false)))
      by_test true = done
      by_test false = (w, refl, h)

  pub after_removal-StepIsPlaced :
      (s : Server R) (si wi : ℕ) (x : Session R) (w : Window R) (removed : Option Removed)
      → ServerIsPlaced s
      → get_elem? s.sessions si ≡ some x
      → IsSession x
      → wi < length x.windows
      → IsWindow w
      → StepIsPlaced (after_removal si wi x s (w, removed))
  after_removal-StepIsPlaced s si wi x w (some pane_removed) h found good within sound =
      let kept = put_window-IsPlaced s si wi x w h found good sound in
      record { sound = kept.sound; placed = kept.placed }
  after_removal-StepIsPlaced s si wi x w (some window_empty) h found good within sound =
      if-StepIsPlaced (ltb 1 (length x.windows)) _ _
        (λ several. remove_window-IsPlaced s si wi x h found good within (ltb→lt 1 _ several))
        (λ _. remove_session-StepIsPlaced s si h)
  after_removal-StepIsPlaced s si wi x w none h found good within sound =
      if-StepIsPlaced (ltb 1 (length x.windows)) _ _
        (λ several. remove_window-IsPlaced s si wi x h found good within (ltb→lt 1 _ several))
        (λ _. remove_session-StepIsPlaced s si h)

  module _ (f : Float R) where
    kill_active_pane-IsDone :
        (w : Window R) → IsWindow w → IsDone (window_of (kill_active_pane f w))
    unfolding kill_active_pane
    kill_active_pane-IsDone w h =
        let (p, found) = pane_lem w (omega (arith, length-ids_of_panes w.panes, h.3)) in
        let (w', run, kept) = remove_pane-IsDone f w p.id h in
        (w', ap (λ t. window_of (t >>= (λ q. remove_pane f w q.id))) found ∙ run, kept)

    pub kill_pane-Serves :
        (ci : ℕ) (s : Server R)
        → ServerIsPlaced s
        → ci < length s.clients
        → Serves (kill_pane f ci s)
    unfolding kill_pane
    kill_pane-Serves ci s h within =
        let (c, x, ec, ex, lt, good) = client_session s ci h within in
        let si = c.session_idx in
        let wi = c.active_window in
        let (w, ew) = get_elem?_in x.windows wi lt in
        let (w', done, sound) =
          kill_active_pane-IsDone w (All-get IsWindow x.windows wi good.1 ew) in
        let (removed, run) = result_of (kill_active_pane f w) w' done in
        (
          _,
          some_step (get_elem? s.clients ci) _ ec (
              ap (kill_found f si wi s) (window_at-some s si wi ex ew)
              ∙ some_step (kill_active_pane f w) _ run refl),
          after_removal-StepIsPlaced s si wi x w' removed h ex good lt sound,
        )

    resize_windows_sound :
        (rows cols : ℕ) (windows : List (Window R))
        → All IsWindow windows
        → (windows' : List (Window R)) × (resize_windows f rows cols windows ≡ some windows')
          × All IsWindow windows'
          × (length windows' ≡ length windows)
    unfolding resize_windows
    resize_windows_sound rows cols [] h = ([], refl, tt, refl)
    resize_windows_sound rows cols (w ∷ windows) h =
        let (w', done, sound) = resize-IsDone f w rows cols h.0 in
        let (rest, run, kept, same) = resize_windows_sound rows cols windows h.1 in
        (
          w' ∷ rest,
          some_step (resize f w rows cols) _ done
              (some_step (resize_windows f rows cols windows) _ run refl),
          (sound, kept),
          ap suc same,
        )

    pub resize_view-Serves :
        (ci rows cols : ℕ) (s : Server R)
        → ServerIsPlaced s
        → ci < length s.clients
        → Serves (resize_view f ci rows cols s)
    unfolding resize_view
    resize_view-Serves ci rows cols s h within =
        let (c, x, ec, ex, lt, good) = client_session s ci h within in
        let si = c.session_idx in
        let (windows, run, sound, same) = resize_windows_sound (rows - 1) cols x.windows good.1 in
        let kept =
          put_session-IsPlaced s.sessions s.clients si x (record x { windows = windows }) ex
            (omega (arith, same, good.0), sound) same h.sound h.placed in
        (
          _,
          some_step (get_elem? s.clients ci) _ ec (
              some_step (resize_found f si (rows - 1) cols s (get_elem? s.sessions si)) _
                (ap (resize_found f si (rows - 1) cols s) ex
                  ∙ some_step (resize_windows f (rows - 1) cols x.windows) _ run refl)
                refl),
          record { sound = kept.sound; placed = kept.placed },
        )
