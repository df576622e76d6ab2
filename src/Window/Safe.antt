-- ===== src/Window/Safe.antt =====
-- Every operation of a window (src/server/window.rs), and sequences of them.
use lrmux.Base.{ℕ, ◌≡◌, inl, refl, sym, subst, ◌∙◌, arith}
use lrmux.Base.{some, List}
use mathlib.Core.Option.{some-injective}
use lrmux.Float.{Float}
use lrmux.Layout.Tree.{pane_ids, single, collect_ids}
use lrmux.Window.State.{Pane, Window, from_pane}
use lrmux.Window.Invariant.{IsWindow}
use lrmux.Window.Run.{
  Operation, focus, next, prev, towards, zoom, unzoom, relayout, select, border, size, split_off,
  drop_pane, run, IsFresh,
}
use lrmux.Window.Preserve.{
  focus_pane-IsDone, focus_next-IsDone, focus_prev-IsDone, focus_dir-IsDone, toggle_zoom-IsDone,
  unzoom-IsDone, next_layout-IsDone, select_layout_named-IsDone, resize_pane_border-IsDone,
  resize-IsDone,
}
use lrmux.Window.Edit.{split-IsDone, remove_pane-IsDone}

module _ {R : Type 0} (f : Float R) where
  from_pane-IsWindow :
      (id : ℕ) (p : Pane) (rows cols : ℕ) (name : List ℕ)
      → IsWindow (from_pane {R = R} id p rows cols name)
  unfolding from_pane single pane_ids collect_ids
  from_pane-IsWindow id p rows cols name =
      ((refl, tt), (refl, tt), (λ a. refl), omega arith, inl refl)

  -- An operation on a window whose layout and list of panes name the same panes, each once, whose
  -- active pane is in range, and which has two panes or more if it is zoomed, runs without a panic
  -- and gives such a window again. The id of a new pane must not be in use in the window.
  pub run-IsWindow :
      (op : Operation) (w : Window R)
      → IsWindow w
      → IsFresh f op w
      → (w' : Window R) × (run f op w ≡ some w') × IsWindow w'
  unfolding run
  run-IsWindow (focus id) w h fresh = focus_pane-IsDone w id h
  run-IsWindow next w h fresh = focus_next-IsDone w h
  run-IsWindow prev w h fresh = focus_prev-IsDone w h
  run-IsWindow (towards dir) w h fresh = focus_dir-IsDone f w dir h
  run-IsWindow zoom w h fresh = toggle_zoom-IsDone f w h
  run-IsWindow unzoom w h fresh = unzoom-IsDone f w h
  run-IsWindow relayout w h fresh = next_layout-IsDone f w h
  run-IsWindow (select name) w h fresh = select_layout_named-IsDone f w name h
  run-IsWindow (border id dir amount) w h fresh = resize_pane_border-IsDone f w id dir amount h
  run-IsWindow (size rows cols) w h fresh = resize-IsDone f w rows cols h
  run-IsWindow (split_off dir target new_id) w h fresh = split-IsDone f w dir target new_id h fresh
  run-IsWindow (drop_pane id) w h fresh = remove_pane-IsDone f w id h

  -- The windows that a first pane and operations make.
  pub data IsReachable : Window R → Type 0 where
    start :
        (id : ℕ) (p : Pane) (rows cols : ℕ) (name : List ℕ)
        → IsReachable (from_pane id p rows cols name)
    step :
        {w w' : Window R} (op : Operation)
        → IsReachable w
        → IsFresh f op w
        → run f op w ≡ some w'
        → IsReachable w'

  IsReachable-IsWindow : (w : Window R) → IsReachable w → IsWindow w
  IsReachable-IsWindow w (start id p rows cols name) = from_pane-IsWindow id p rows cols name
  IsReachable-IsWindow w' (step {w} op r fresh e) =
      let (w'', done, kept) = run-IsWindow op w (IsReachable-IsWindow w r) fresh in
      let same : w'' ≡ w' = some-injective w'' w' (sym done ∙ e) in subst IsWindow same kept

  -- A window that a first pane and operations with fresh ids made takes every further operation of
  -- that kind without a panic; the result is again such a window, and its layout and list of panes
  -- name the same panes, each once, with the active one in range.
  pub IsReachable-run :
      (op : Operation) (w : Window R)
      → IsReachable w
      → IsFresh f op w
      → (w' : Window R) × (run f op w ≡ some w') × IsReachable w' × IsWindow w'
  IsReachable-run op w r fresh =
      let (w', done, kept) = run-IsWindow op w (IsReachable-IsWindow w r) fresh in
      (w', done, step op r fresh done, kept)
