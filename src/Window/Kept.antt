-- ===== src/Window/Kept.antt =====
-- The active pane of a window (src/server/window.rs) when another pane is removed.
use lrmux.Base.{
  ℕ, zero, suc, ◌-◌, ◌≤◌, ◌<◌, min, true, false, not, ◌≡◌, ◌≢◌, ◌⊎◌, inl, inr, refl, sym, ap, ◌∙◌,
  arith, subst,
}
use lrmux.Base.{
  ≢→==, some, some_step, List, [], ◌∷◌, length, get_elem?, contains, ltb, leb, ◌==◌, if◌then◌else◌,
  if_false, Bool-cases,
}
use lrmux.Float.{Float}
use lrmux.Layout.Tree.{pane_ids, remove}
use mathlib.Core.Option.{some-injective}
use lrmux.Layout.Edit.{ids_of, pane_ids_lem, remove-pane_ids}
use lrmux.Window.State.{Pane, Window, ids_of_panes, pane, pane_index_by_id}
use lrmux.Window.Operations.{remove_at, active_after, remove_pane, remove_found, pane_removed}
use lrmux.Window.Invariant.{IsWindow, length-ids_of_panes, reflow_panes_lem}
use lrmux.Window.Ids.{ids_of_panes-remove_at, contains-without}
use lrmux.Window.Focus.{position_lem, contains-get_elem?, active_lem}
use lrmux.Window.Preserve.{panes_left}
use lrmux.Window.Edit.{contains_lem, remove_shape}

before_removed :
    (i j : ℕ) (panes : List Pane) → j < i → get_elem? (remove_at i panes) j ≡ get_elem? panes j
before_removed i j [] low = refl
before_removed zero j (p ∷ panes) low = absurd (omega arith)
before_removed (suc i) zero (p ∷ panes) low = refl
before_removed (suc i) (suc j) (p ∷ panes) low = before_removed i j panes (omega arith)

behind_removed :
    (i k : ℕ) (panes : List Pane)
    → i ≤ k
    → get_elem? (remove_at i panes) k ≡ get_elem? panes (suc k)
behind_removed i k [] low = refl
behind_removed zero k (p ∷ panes) low = refl
behind_removed (suc i) zero (p ∷ panes) low = absurd (omega arith)
behind_removed (suc i) (suc k) (p ∷ panes) low = behind_removed i k panes (omega arith)

-- The active pane at its new index, if it is not the one taken out.
active_kept :
    (panes : List Pane) (i j len : ℕ)
    → i < length panes
    → j < length panes
    → suc len ≡ length panes
    → (j < i) ⊎ (i < j)
    → get_elem? (remove_at i panes) (active_after i len j) ≡ get_elem? panes j
active_kept panes i j len low high size (inl less) =
    let place : active_after i len j ≡ j = ground arith in
    ap (get_elem? (remove_at i panes)) place ∙ before_removed i j panes less
active_kept panes i j len low high size (inr more) =
    let place : active_after i len j ≡ j - 1 = ground arith in
    let next : suc (j - 1) ≡ j = omega arith in
    ap (get_elem? (remove_at i panes)) place
    ∙ behind_removed i (j - 1) panes (omega arith)
    ∙ ap (get_elem? panes) next

get_elem?-ids :
    (panes : List Pane) (i : ℕ) (p : Pane)
    → get_elem? panes i ≡ some p
    → get_elem? (ids_of_panes panes) i ≡ some p.id
get_elem?-ids [] i p h = ground arith
get_elem?-ids (q ∷ panes) zero p h = ground arith
get_elem?-ids (q ∷ panes) (suc i) p h = get_elem?-ids panes i p h

apart : (i j : ℕ) → i ≢ j → (j < i) ⊎ (i < j)
apart i j ne = elim (Bool-cases (ltb i j)) [
  | inl e ↦ inr (ground arith)
  | inr e ↦ elim (Bool-cases (ltb j i)) [
    | inl e' ↦ inl (ground arith)
    | inr e' ↦ absurd (ne (ground arith))
  ]
]

-- In a window whose layout and list of panes agree, the removal of a pane of it other than the
-- active one runs without a panic, takes the pane out of the layout, and leaves the same pane
-- active.
pub remove_pane-active :
    {R : Type 0} (f : Float R) (w : Window R) (id : ℕ) (p : Pane)
    → IsWindow w
    → contains (ids_of_panes w.panes) id ≡ true
    → pane w ≡ some p
    → p.id ≢ id
    → (w' : Window R) × (q : Pane) × (remove_pane f w id ≡ some (w', some pane_removed))
      × (contains (pane_ids w'.layout) id ≡ false)
      × (pane w' ≡ some q)
      × (q.id ≡ p.id)
unfolding remove_pane remove_found pane_index_by_id
remove_pane-active f w id p h within now other =
    let (i, found, low, at) = position_lem (ids_of_panes w.panes) id within in
    let (ids, len, in_range) = ids_of_panes-remove_at w.panes i id h.0 found in
    let clamped : min w.active_pane (length w.panes - 1) ≡ w.active_pane =
      omega (arith, length-ids_of_panes w.panes, h.3) in
    let here : get_elem? w.panes w.active_pane ≡ some p =
      ap (get_elem? w.panes) (sym clamped) ∙ now in
    let here_id = get_elem?-ids w.panes w.active_pane p here in
    let ne : i ≢ w.active_pane = λ e.
      other (
        some-injective p.id id
          (sym here_id ∙ ap (get_elem? (ids_of_panes w.panes)) (sym e) ∙ at)) in
    let left = remove_at i w.panes in
    let there : contains (pane_ids w.layout) p.id ≡ true =
      sym (h.2 p.id) ∙ contains-get_elem? (ids_of_panes w.panes) w.active_pane p.id here_id in
    let more : (length w.panes == 1) ≡ false =
      ≢→== (length w.panes) 1 (λ e. ne (omega (arith, length-ids_of_panes w.panes, h.3))) in
    elim (remove-pane_ids w.layout id h.1) [
      | inl (last, same, missed) ↦ absurd (
          other (
            sym (
              only (
                ap (λ t. contains t p.id) (sym (pane_ids_lem w.layout ∙ ap ids_of last)) ∙ there))))
      | inr (unlike, named, hit) ↦
          let l = (remove w.layout id).0 in
          let done : (remove w.layout id).1 ≡ true =
            hit ∙ contains_lem w.layout id ∙ sym (h.2 id) ∙ within in
          let mid : Window _ = record w {
            layout = l;
            panes = left;
            active_pane = active_after i (length left) w.active_pane;
            zoomed = if leb (length left) 1 then false else w.zoomed;
          } in
          let shape : IsWindow mid = remove_shape f w id i l h found more named in
          let (w', run, kept) = reflow_panes_lem f mid (panes_left mid shape) in
          let moved =
            active_kept w.panes i w.active_pane (length left) in_range
              (omega (arith, length-ids_of_panes w.panes, h.3)) len (apart i w.active_pane ne) in
          let new_id = get_elem?-ids left mid.active_pane p (moved ∙ here) in
          let (q, now', is) =
            active_lem w' mid.active_pane p.id
              (subst (λ t. mid.active_pane < length t) (sym kept.0) shape.3) kept.2
              (ap (λ t. get_elem? t mid.active_pane) kept.0 ∙ new_id) in
          (
            w',
            q,
            ap (remove_found f w id) found
                ∙ if_false _ more
                ∙ if_false _ (ap not done)
                ∙ some_step _ _ run refl,
            ap (λ t. contains (pane_ids t) id) kept.1
                ∙ ap (λ t. contains t id) named
                ∙ contains-without id (pane_ids w.layout) id
                ∙ ground arith,
            now',
            is,
          )
    ]
  where
    only : contains (id ∷ []) p.id ≡ true → id ≡ p.id
    only e = ground arith
