-- ===== src/Window/Preserve.antt =====
-- The operations of a window (src/server/window.rs) that keep its list of panes, against the invariant.
use lrmux.Base.{
  ℕ, ◌-◌, ◌≤◌, min, true, false, not, ◌||◌, ◌≡◌, inl, inr, refl, sym, ap, ◌∙◌, arith, subst,
}
use lrmux.Base.{
  Option, none, some, some_step, List, [], ◌∷◌, length, contains, IsDistinct, leb, ◌==◌, if_true,
  if_false, Bool-cases,
}
use lrmux.Float.{Float}
use lrmux.Layout.Tree.{FocusDir, Layout, pane_ids}
use lrmux.Layout.Presets.{Preset, cycle_preset}
use lrmux.Layout.Rebuild.{cycle_preset-pane_ids, named_preset-pane_ids}
use lrmux.Layout.Border.{resize_border}
use lrmux.Layout.Divider.{resize_border-pane_ids}
use lrmux.Layout.Neighbor.{neighbor}
use lrmux.Window.State.{
  Window, ids_of_panes, pane, focus_pane, focus_next, focus_prev, focus_dir, focus_toward, resize,
  toggle_zoom, unzoom, reflow_panes,
}
use lrmux.Window.Operations.{
  next_layout, apply_named, select_layout_named, resize_pane_border, kind_of,
}
use lrmux.Window.Invariant.{
  IsWindow, IsResized-IsWindow, reflow_panes_lem, pane_lem, length-ids_of_panes,
}
use lrmux.Window.Focus.{
  contains-ids_of_panes, focus_pane_lem, focus_pane_absent, focus_next_lem, focus_prev_lem,
}
use lrmux.Window.Run.{window_of}

-- The result is a window with the invariant, and no panic.
abbrev pub IsDone : {R : Type 0} → Option (Window R) → Type 0
IsDone result = (w : Window _) × (result ≡ some w) × IsWindow w

length-contains : (xs : List ℕ) (a : ℕ) → contains xs a ≡ true → 1 ≤ length xs
length-contains [] a h = ground arith
length-contains (x ∷ xs) a h = omega arith

module _ {R : Type 0} where
  pub panes_left : (w : Window R) → IsWindow w → 1 ≤ length w.panes
  panes_left w h = omega (arith, length-ids_of_panes w.panes, h.3)

  -- A pair's first part.
  pub window_of-some :
      {B : Type 0} {m : Option (Window R × B)} {w : Window R} (b : B)
      → m ≡ some (w, b)
      → window_of m ≡ some w
  window_of-some b e = ap window_of e

  pub focus_pane-IsDone :
      (w : Window R) (id : ℕ) → IsWindow w → IsDone (window_of (focus_pane w id))
  focus_pane-IsDone w id h = elim (Bool-cases (contains (ids_of_panes w.panes) id)) [
    | inl e ↦ let (w', run, kept) = focus_pane_lem w id h e in (w', window_of-some true run, kept.0)
    | inr e ↦ (w, window_of-some false (focus_pane_absent w id e), h)
  ]

  pub focus_next-IsDone : (w : Window R) → IsWindow w → IsDone (window_of (focus_next w))
  focus_next-IsDone w h =
      let (p, pos, next, w', now, at, there, run, focused) = focus_next_lem w h in
      (w', window_of-some next run, focused.0)

  pub focus_prev-IsDone : (w : Window R) → IsWindow w → IsDone (window_of (focus_prev w))
  focus_prev-IsDone w h =
      let (p, pos, back, w', now, at, there, run, focused) = focus_prev_lem w h in
      (w', window_of-some back run, focused.0)

  focus_toward-IsDone :
      (w : Window R) (found : Option ℕ) → IsWindow w → IsDone (window_of (focus_toward w found))
  focus_toward-IsDone w none h = (w, refl, h)
  focus_toward-IsDone w (some next) h = elim (Bool-cases (contains (ids_of_panes w.panes) next)) [
    | inl e ↦
        let (w', run, kept) = focus_pane_lem w next h e in
        (w', ap window_of (some_step (focus_pane w next) _ run refl), kept.0)
    | inr e ↦
        (w, ap window_of (some_step (focus_pane w next) _ (focus_pane_absent w next e) refl), h)
  ]

module _ {R : Type 0} (f : Float R) where
  pub reflow_panes-IsDone : (w : Window R) → IsWindow w → IsDone (reflow_panes f w)
  reflow_panes-IsDone w h =
      let (w', run, kept) = reflow_panes_lem f w (panes_left w h) in
      (w', run, IsResized-IsWindow w w' kept h)

  pub resize-IsDone : (w : Window R) (rows cols : ℕ) → IsWindow w → IsDone (resize f w rows cols)
  unfolding resize
  resize-IsDone w rows cols h = reflow_panes-IsDone _ h

  pub unzoom_lem :
      (w : Window R)
      → IsWindow w
      → (w' : Window R) × (unzoom f w ≡ some w')
        × IsWindow w'
        × (w'.layout ≡ w.layout)
        × (ids_of_panes w'.panes ≡ ids_of_panes w.panes)
        × (w'.zoomed ≡ false)
  unfolding unzoom
  unzoom_lem w h = elim (Bool-cases w.zoomed) [
    | inr z ↦ (w, if_false _ z, h, refl, refl, z)
    | inl z ↦
        let flat : Window R = record w { zoomed = false } in
        let shape : IsWindow flat = (h.0, h.1, h.2, h.3, inl refl) in
        let (w', run, kept) = reflow_panes_lem f flat (panes_left w h) in
        (w', if_true _ z ∙ run, IsResized-IsWindow flat w' kept shape, kept.1, kept.0, kept.3)
  ]

  pub unzoom-IsDone : (w : Window R) → IsWindow w → IsDone (unzoom f w)
  unzoom-IsDone w h = let (w', run, kept, l, i, z) = unzoom_lem w h in (w', run, kept)

  pub focus_dir-IsDone :
      (w : Window R) (dir : FocusDir) → IsWindow w → IsDone (window_of (focus_dir f w dir))
  unfolding focus_dir
  focus_dir-IsDone w dir h =
      let (p, now) = pane_lem w (panes_left w h) in
      let found = neighbor f w.layout p.id dir w.cols w.rows in
      let (w', run, kept) = focus_toward-IsDone w found h in
      (w', ap window_of (some_step (pane w) _ now refl) ∙ run, kept)

  -- A window with another layout of the same panes.
  relaid :
      (w : Window R) (l : Layout R) (kind : ℕ)
      → pane_ids l ≡ pane_ids w.layout
      → IsWindow w
      → IsWindow (record w { layout = l; layout_kind = kind })
  relaid w l kind e h =
      (h.0, subst IsDistinct (sym e) h.1, λ id. h.2 id ∙ ap (λ t. contains t id) (sym e), h.3, h.4)

  ids_left : (w : Window R) → IsWindow w → 1 ≤ length (pane_ids w.layout)
  ids_left w h =
      let (p, now) = pane_lem w (panes_left w h) in
      length-contains (pane_ids w.layout) p.id (
        sym (h.2 p.id)
        ∙ contains-ids_of_panes w.panes (min w.active_pane (length w.panes - 1)) p now)

  pub toggle_zoom-IsDone : (w : Window R) → IsWindow w → IsDone (window_of (toggle_zoom f w))
  unfolding toggle_zoom
  toggle_zoom-IsDone w h = elim (Bool-cases (leb (length w.panes) 1)) [
    | inl e ↦
        (record w { zoomed = false }, ap window_of (if_true _ e), (h.0, h.1, h.2, h.3, inl refl))
    | inr e ↦
        let shape : IsWindow (record w { zoomed = not w.zoomed }) =
          (h.0, h.1, h.2, h.3, inr (ground (arith, length-ids_of_panes w.panes))) in
        let (w', run, kept) = reflow_panes-IsDone _ shape in
        (w', ap window_of (if_false _ e ∙ some_step _ _ run refl), kept)
  ]

  pub next_layout-IsDone : (w : Window R) → IsWindow w → IsDone (window_of (next_layout f w))
  unfolding next_layout
  next_layout-IsDone w h = elim (Bool-cases (leb (length w.panes) 1)) [
    | inl e ↦ (w, ap window_of (if_true _ e), h)
    | inr e ↦
        let (w', flat, kept, same_layout, same_ids, z) = unzoom_lem w h in
        let ids = pane_ids w'.layout in
        let (l, made, named) = cycle_preset-pane_ids f ids w'.layout_kind (ids_left w' kept) in
        let (w'', run, kept') =
          reflow_panes-IsDone _ (relaid w' l (cycle_preset f ids w'.layout_kind).1 named kept) in
        (
          w'',
          ap window_of (
              if_false _ e
              ∙ some_step (unzoom f w) _ flat (some_step _ _ made (some_step _ _ run refl))),
          kept',
        )
  ]

  pub resize_pane_border-IsDone :
      (w : Window R) (id : ℕ) (dir : FocusDir) (amount : ℕ)
      → IsWindow w
      → IsDone (window_of (resize_pane_border f w id dir amount))
  unfolding resize_pane_border
  resize_pane_border-IsDone w id dir amount h =
      let (l, done) = resize_border f w.layout id dir amount w.cols w.rows in
      let shape =
        relaid w l w.layout_kind (resize_border-pane_ids f w.layout id dir amount w.cols w.rows).0
          h in
      elim (Bool-cases (w.zoomed || amount == 0 || leb (length w.panes) 1)) [
        | inl e ↦ (w, ap window_of (if_true _ e), h)
        | inr e ↦ elim (Bool-cases (not done)) [
          | inl e' ↦ (record w { layout = l }, ap window_of (if_false _ e ∙ if_true _ e'), shape)
          | inr e' ↦
              let (w', run, kept) = reflow_panes-IsDone _ shape in
              (w', ap window_of (if_false _ e ∙ if_false _ e' ∙ some_step _ _ run refl), kept)
        ]
      ]

  pub select_layout_named-IsDone :
      (w : Window R) (name : Preset)
      → IsWindow w
      → IsDone (window_of (select_layout_named f w name))
  unfolding select_layout_named
  select_layout_named-IsDone w name h = elim (Bool-cases (leb (length w.panes) 1)) [
    | inl e ↦ (w, ap window_of (if_true _ e), h)
    | inr e ↦
        let (w', flat, kept, same_layout, same_ids, z) = unzoom_lem w h in
        let ids = pane_ids w'.layout in
        let go = ap window_of (if_false _ e ∙ some_step (unzoom f w) _ flat refl) in
        elim (named_preset-pane_ids f ids name (ids_left w' kept)) [
          | inl (is_unknown, none_made) ↦
              (w', go ∙ ap (λ o. window_of (apply_named f w' name o)) none_made, kept)
          | inr (l, made, named) ↦
              let (w'', run, kept') =
                reflow_panes-IsDone _ (relaid w' l (kind_of name) named kept) in
              (
                w'',
                go
                    ∙ ap (λ o. window_of (apply_named f w' name o)) made
                    ∙ ap window_of (some_step _ _ run refl),
                kept',
              )
        ]
  ]
