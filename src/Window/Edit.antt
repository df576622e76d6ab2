-- ===== src/Window/Edit.antt =====
-- Splitting and removing panes of a window (src/server/window.rs) against the invariant.
use lrmux.Base.{
  ℕ, ◌≤◌, ◌<◌, true, false, not, ◌&&◌, ◌≡◌, inl, inr, refl, sym, ap, ◌∙◌, arith, subst,
}
use lrmux.Base.{
  Option, none, some, some_step, [], ◌∷◌, ◌++◌, length, length-append, contains, contains-append,
  IsDistinct, leb, ◌==◌, if◌then◌else◌, if_true, if_false, Bool-cases,
}
use lrmux.Float.{Float}
use lrmux.Layout.Tree.{SplitDir, Layout, pane_ids, contains as layout_contains, split_pane, remove}
use lrmux.Layout.Edit.{
  insert_after, without, pane_ids_lem, contains_node_lem, split_pane-pane_ids, remove-pane_ids,
}
use lrmux.Window.State.{
  Pane, Window, ids_of_panes, position, pane, pane_index_by_id, focus_pane, reflow_panes, unzoom,
}
use lrmux.Window.Operations.{
  remove_at, active_after, hint_at, size_hint, target_of, split_at, split, remove_found,
  remove_pane,
}
use lrmux.Window.Invariant.{
  IsWindow, length-ids_of_panes, pane_lem, get_elem?_in, reflow_panes_lem, IsResized-IsWindow,
}
use lrmux.Window.Focus.{focus_pane_lem, position_lem, position-none}
use lrmux.Window.Ids.{
  contains-insert_after, IsDistinct-insert_after, IsDistinct-snoc, contains-without,
  IsDistinct-without, ids_of_panes-remove_at, ids_of_panes-append,
}
use lrmux.Window.Run.{window_of}
use lrmux.Window.Preserve.{IsDone, panes_left, unzoom_lem, reflow_panes-IsDone}

pub contains_lem :
    {R : Type 0} (l : Layout R) (id : ℕ) → layout_contains l id ≡ contains (pane_ids l) id
unfolding layout_contains
contains_lem l id = contains_node_lem l.root id ∙ ap (λ t. contains t id) (sym (pane_ids_lem l))

module _ {R : Type 0} (f : Float R) where
  -- The window with the pane taken out and before it is reflowed.
  pub remove_shape :
      (w : Window R) (id i : ℕ) (l : Layout R)
      → IsWindow w
      → position (ids_of_panes w.panes) id ≡ some i
      → (length w.panes == 1) ≡ false
      → pane_ids l ≡ without id (pane_ids w.layout)
      → let left = remove_at i w.panes in
        IsWindow (record w {
          layout = l;
          panes = left;
          active_pane = active_after i (length left) w.active_pane;
          zoomed = if leb (length left) 1 then false else w.zoomed;
        })
  remove_shape w id i l h found more named =
      let left = remove_at i w.panes in
      let (ids, len, low) = ids_of_panes-remove_at w.panes i id h.0 found in
      (
        subst IsDistinct (sym ids) (IsDistinct-without id (ids_of_panes w.panes) h.0),
        subst IsDistinct (sym named) (IsDistinct-without id (pane_ids w.layout) h.1),
        λ a.
            ap (λ t. contains t a) ids
            ∙ contains-without id (ids_of_panes w.panes) a
            ∙ ap (λ v. v && not (id == a)) (h.2 a)
            ∙ sym (contains-without id (pane_ids w.layout) a)
            ∙ ap (λ t. contains t a) (sym named),
        ground (arith, length-ids_of_panes left, length-ids_of_panes w.panes, h.3),
        elim (Bool-cases (leb (length left) 1)) [
          | inl e ↦ inl (if_true _ e)
          | inr e ↦ inr (ground (arith, length-ids_of_panes left))
        ],
      )

  remove_found-IsDone :
      (w : Window R) (id i : ℕ)
      → IsWindow w
      → contains (ids_of_panes w.panes) id ≡ true
      → position (ids_of_panes w.panes) id ≡ some i
      → IsDone (window_of (remove_found f w id (some i)))
  unfolding remove_found
  remove_found-IsDone w id i h within found = elim (Bool-cases (length w.panes == 1)) [
    | inl e ↦ (w, ap window_of (if_true _ e), h)
    | inr e ↦ elim (remove-pane_ids w.layout id h.1) [
      | inl (last, same, missed) ↦ (
        record w { layout = (remove w.layout id).0 },
        ap window_of (if_false _ e ∙ if_true _ (ap not missed)),
        rw same h,
      )
      | inr (more, named, hit) ↦
          let there : (remove w.layout id).1 ≡ true =
            hit ∙ contains_lem w.layout id ∙ sym (h.2 id) ∙ within in
          let (w', run, kept) =
            reflow_panes-IsDone f _ (remove_shape w id i (remove w.layout id).0 h found e named) in
          (
            w',
            ap window_of (if_false _ e ∙ if_false _ (ap not there) ∙ some_step _ _ run refl),
            kept,
          )
    ]
  ]

  pub remove_pane-IsDone :
      (w : Window R) (id : ℕ) → IsWindow w → IsDone (window_of (remove_pane f w id))
  unfolding remove_pane pane_index_by_id remove_found
  remove_pane-IsDone w id h = elim (Bool-cases (contains (ids_of_panes w.panes) id)) [
    | inr e ↦ (
      w,
      ap (λ o. window_of (remove_found f w id o)) (position-none (ids_of_panes w.panes) id e),
      h,
    )
    | inl e ↦
        let (i, found, low, at) = position_lem (ids_of_panes w.panes) id e in
        let (w', run, kept) = remove_found-IsDone w id i h e found in
        (w', ap (λ o. window_of (remove_found f w id o)) found ∙ run, kept)
  ]

  -- The window with the new pane, before it is reflowed.
  split_shape :
      (w : Window R) (target new_id : ℕ) (l : Layout R) (p : Pane)
      → IsWindow w
      → p.id ≡ new_id
      → contains (pane_ids w.layout) target ≡ true
      → contains (pane_ids w.layout) new_id ≡ false
      → pane_ids l ≡ insert_after target new_id (pane_ids w.layout)
      → IsWindow (record w { layout = l; panes = w.panes ++ p ∷ [] })
  split_shape w target new_id l p h is_new there fresh named =
      let old = ids_of_panes w.panes in
      let ids : ids_of_panes (w.panes ++ p ∷ []) ≡ old ++ new_id ∷ [] =
        ids_of_panes-append w.panes (p ∷ []) ∙ ap (λ k. old ++ k ∷ []) is_new in
      let longer = length-append old (new_id ∷ []) in
      (
        subst IsDistinct (sym ids) (IsDistinct-snoc old new_id h.0 (h.2 new_id ∙ fresh)),
        subst IsDistinct (sym named)
            (IsDistinct-insert_after target new_id (pane_ids w.layout) there fresh h.1),
        λ a.
            ap (λ t. contains t a) ids
            ∙ ground (
              arith,
              h.2 a,
              contains-append old (new_id ∷ []) a,
              contains-insert_after target new_id (pane_ids w.layout) a there,
            )
            ∙ ap (λ t. contains t a) (sym named),
        subst (λ t. w.active_pane < length t) (sym ids) (omega (arith, longer, h.3)),
        elim h.4 [
          | inl z ↦ inl z
          | inr two ↦ inr (subst (λ t. 2 ≤ length t) (sym ids) (omega (arith, longer, two)))
        ],
      )

  split_at-IsDone :
      (w : Window R) (dir : SplitDir) (target new_id : ℕ)
      → IsWindow w
      → contains (pane_ids w.layout) target ≡ true
      → contains (pane_ids w.layout) new_id ≡ false
      → IsDone (window_of (split_at f w dir target new_id))
  unfolding split_at pane_index_by_id
  split_at-IsDone w dir target new_id h there fresh =
      let (i, found, low, at) = position_lem (ids_of_panes w.panes) target (h.2 target ∙ there) in
      let (p, got) = get_elem?_in w.panes i (omega (arith, length-ids_of_panes w.panes)) in
      let half = f.div (f.of_int 1) (f.of_int 2) in
      let (l, hit) = split_pane f w.layout target dir new_id half in
      let (named, answer, same) = split_pane-pane_ids f w.layout target dir new_id half in
      let new_pane : Pane = record { id = new_id; rows = p.rows; cols = p.cols } in
      let shape = split_shape w target new_id l new_pane h refl there fresh named in
      let grown : Window R = record w { layout = l; panes = w.panes ++ new_pane ∷ [] } in
      let (w', run, kept) = reflow_panes_lem f grown (panes_left grown shape) in
      let shape' = IsResized-IsWindow grown w' kept shape in
      let inside : contains (ids_of_panes w'.panes) new_id ≡ true =
        ap (λ t. contains t new_id) kept.0
        ∙ shape.2 new_id
        ∙ ap (λ t. contains t new_id) named
        ∙ contains-insert_after target new_id (pane_ids w.layout) new_id there
        ∙ ground (arith, fresh) in
      let (w'', focus, focused) = focus_pane_lem w' new_id shape' inside in
      (
        w'',
        ap window_of (
            some_step (size_hint w target) _ (ap (hint_at w) found ∙ some_step _ _ got refl) (
              if_true _ (answer ∙ same ∙ there)
              ∙ some_step (reflow_panes f grown) _ run
                  (some_step (focus_pane w' new_id) _ focus refl))),
        focused.0,
      )

  target_of_lem :
      (w : Window R) (target_pane : Option ℕ)
      → IsWindow w
      → (target : ℕ) × (target_of w target_pane ≡ some target)
  target_of_lem w none h =
      let (p, now) = pane_lem w (panes_left w h) in (p.id, some_step (pane w) _ now refl)
  target_of_lem w (some target) h = (target, refl)

  pub split-IsDone :
      (w : Window R) (dir : SplitDir) (target_pane : Option ℕ) (new_id : ℕ)
      → IsWindow w
      → contains (pane_ids w.layout) new_id ≡ false
      → IsDone (window_of (split f w dir target_pane new_id))
  unfolding split
  split-IsDone w dir target_pane new_id h fresh =
      let (w', flat, kept, same_layout, same_ids, z) = unzoom_lem f w h in
      let (target, named) = target_of_lem w' target_pane kept in
      let fresh' : contains (pane_ids w'.layout) new_id ≡ false =
        ap (λ l. contains (pane_ids l) new_id) same_layout ∙ fresh in
      let go = some_step (unzoom f w) _ flat (some_step (target_of w' target_pane) _ named refl) in
      elim (Bool-cases (layout_contains w'.layout target)) [
        | inr e ↦ (w', ap window_of (go ∙ if_false _ e), kept)
        | inl e ↦
            let (w'', run, done) =
              split_at-IsDone w' dir target new_id kept (sym (contains_lem w'.layout target) ∙ e)
                fresh' in
            (w'', ap window_of (go ∙ if_true _ e) ∙ run, done)
      ]
