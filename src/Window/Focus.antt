-- ===== src/Window/Focus.antt =====
-- Focusing panes of a window (src/server/window.rs).
use lrmux.Base.{
  ℕ, zero, suc, ◌+◌, ◌-◌, ◌%◌, ◌<◌, min, true, false, ◌≡◌, inl, inr, refl, sym, ap, ◌∙◌, arith,
}
use lrmux.Base.{
  Option, none, some, some_step, ◌>>=◌, List, [], ◌∷◌, length, get_elem?, contains, IsDistinct,
  ==→≡, if_true, if_false, Bool-cases, ◌==◌,
}
use mathlib.Core.Bool.{false≢true}
use native.Mathlib.Nat.{mod-lt, mod_self, mod-eq_of_lt, add-mod_right}
use lrmux.Layout.Tree.{pane_ids}
use lrmux.Window.State.{
  Pane, Window, ids_of_panes, position, position_or_zero, pane, pane_index_by_id, focus_at,
  focus_pane, focus_among, focus_next, focus_prev,
}
use lrmux.Window.Invariant.{
  IsWindow, IsResized-IsWindow, apply_zoom_size_lem, length-ids_of_panes, pane_lem, get_elem?_in,
}

-- The first place of an id.
pub position_lem :
    (xs : List ℕ) (a : ℕ)
    → contains xs a ≡ true
    → (i : ℕ) × (position xs a ≡ some i) × (i < length xs) × (get_elem? xs i ≡ some a)
unfolding position
position_lem [] a h = ground arith
position_lem (x ∷ xs) a h = elim (Bool-cases (x == a)) [
  | inl same ↦ (0, if_true _ same, omega arith, ap some (==→≡ x a same))
  | inr other ↦
      let (i, found, low, at) = position_lem xs a (ground arith) in
      (suc i, if_false _ other ∙ ap (λ o. o >>= (λ j. some (suc j))) found, omega arith, at)
]

pub position-none : (xs : List ℕ) (a : ℕ) → contains xs a ≡ false → position xs a ≡ none
unfolding position
position-none [] a h = refl
position-none (x ∷ xs) a h = ground (arith, position-none xs a)

pub contains-get_elem? : (xs : List ℕ) (i a : ℕ) → get_elem? xs i ≡ some a → contains xs a ≡ true
contains-get_elem? [] i a h = ground arith
contains-get_elem? (x ∷ xs) zero a h = ground arith
contains-get_elem? (x ∷ xs) (suc i) a h = ground (arith, contains-get_elem? xs i a h)

pub position-get_elem? :
    (xs : List ℕ) (i a : ℕ) → IsDistinct xs → get_elem? xs i ≡ some a → position xs a ≡ some i
unfolding position
position-get_elem? [] i a d h = ground arith
position-get_elem? (x ∷ xs) zero a d h = ground arith
position-get_elem? (x ∷ xs) (suc i) a d h =
    ground (arith, position-get_elem? xs i a d.1 h, contains-get_elem? xs i a h)

get_elem?-ids_of_panes :
    (panes : List Pane) (i a : ℕ)
    → get_elem? (ids_of_panes panes) i ≡ some a
    → (p : Pane) × (get_elem? panes i ≡ some p) × (p.id ≡ a)
get_elem?-ids_of_panes [] i a h = ground arith
get_elem?-ids_of_panes (p ∷ panes) zero a h = (p, refl, ground arith)
get_elem?-ids_of_panes (p ∷ panes) (suc i) a h = get_elem?-ids_of_panes panes i a h

-- The second window is the first with this pane active.
abbrev pub IsFocused : {R : Type 0} → Window R → Window R → ℕ → Type 0
IsFocused w w' id =
    IsWindow w'
    × (ids_of_panes w'.panes ≡ ids_of_panes w.panes)
    × (w'.layout ≡ w.layout)
    × (w'.zoomed ≡ w.zoomed)
    × ((p : Pane) × (pane w' ≡ some p) × (p.id ≡ id))

-- The pane at an index in range is the active one, whatever was resized.
pub active_lem :
    {R : Type 0} (w : Window R) (i id : ℕ)
    → i < length (ids_of_panes w.panes)
    → w.active_pane ≡ i
    → get_elem? (ids_of_panes w.panes) i ≡ some id
    → (p : Pane) × (pane w ≡ some p) × (p.id ≡ id)
active_lem w i id low at h =
    let clamped : min w.active_pane (length w.panes - 1) ≡ i =
      omega (arith, length-ids_of_panes w.panes) in
    rw clamped (get_elem?-ids_of_panes w.panes i id h)

pub focus_pane_lem :
    {R : Type 0} (w : Window R) (id : ℕ)
    → IsWindow w
    → contains (ids_of_panes w.panes) id ≡ true
    → (w' : Window R) × (focus_pane w id ≡ some (w', true)) × IsFocused w w' id
unfolding focus_pane focus_at pane_index_by_id
focus_pane_lem w id h within =
    let (i, found, low, at) = position_lem (ids_of_panes w.panes) id within in
    let focused : Window _ = record w { active_pane = i } in
    let shape : IsWindow focused = (h.0, h.1, h.2, low, h.4) in
    elim (Bool-cases w.zoomed) [
      | inr z ↦ (
        focused,
        ap (focus_at w) found ∙ if_false _ z,
        (shape, refl, refl, refl, active_lem focused i id low refl at),
      )
      | inl z ↦
          let (w', run, same) =
            apply_zoom_size_lem focused (omega (arith, length-ids_of_panes w.panes)) in
          (
            w',
            ap (focus_at w) found ∙ if_true _ z ∙ some_step _ _ run refl,
            (
              IsResized-IsWindow focused w' same shape,
              same.0,
              same.1,
              same.3,
              active_lem w' i id (rw (same.0) low) same.2 (rw (same.0) at),
            ),
          )
    ]

pub focus_pane_absent :
    {R : Type 0} (w : Window R) (id : ℕ)
    → contains (ids_of_panes w.panes) id ≡ false
    → focus_pane w id ≡ some (w, false)
unfolding focus_pane focus_at pane_index_by_id
focus_pane_absent w id h = ap (focus_at w) (position-none (ids_of_panes w.panes) id h)

pub contains-ids_of_panes :
    (panes : List Pane) (i : ℕ) (p : Pane)
    → get_elem? panes i ≡ some p
    → contains (ids_of_panes panes) p.id ≡ true
contains-ids_of_panes [] i p h = ground arith
contains-ids_of_panes (q ∷ panes) zero p h = ground arith
contains-ids_of_panes (q ∷ panes) (suc i) p h = ground (arith, contains-ids_of_panes panes i p h)

-- Where the position of the active pane leads to, and that the focus gets there.
abbrev pub IsMove : {R : Type 0} → (ℕ → ℕ) → Window R → Option (Window R × ℕ) → Type 0
IsMove move w result =
    (p : Pane) × (pos : ℕ) × (next : ℕ) × (w' : Window _) × (pane w ≡ some p)
    × (get_elem? (pane_ids w.layout) pos ≡ some p.id)
    × (get_elem? (pane_ids w.layout) (move pos % length (pane_ids w.layout)) ≡ some next)
    × (result ≡ some (w', next))
    × IsFocused w w' next

focus_among_lem :
    {R : Type 0} (move : ℕ → ℕ) (w : Window R) (ids : List ℕ)
    → IsWindow w
    → pane_ids w.layout ≡ ids
    → IsMove move w (focus_among move w ids)
unfolding focus_among
focus_among_lem move w [] h e =
    let (p, now) = pane_lem w (omega (arith, length-ids_of_panes w.panes)) in
    absurd (
      false≢true (
        ap (λ ids. contains ids p.id) (sym e)
        ∙ sym (h.2 p.id)
        ∙ contains-ids_of_panes w.panes (min w.active_pane (length w.panes - 1)) p now))
focus_among_lem move w (first ∷ rest) h e =
    let ids = first ∷ rest in
    let (p, now) = pane_lem w (omega (arith, length-ids_of_panes w.panes)) in
    let within : contains ids p.id ≡ true =
      ap (λ ids. contains ids p.id) (sym e)
      ∙ sym (h.2 p.id)
      ∙ contains-ids_of_panes w.panes (min w.active_pane (length w.panes - 1)) p now in
    let (pos, found, low, at) = position_lem ids p.id within in
    let (next, there) =
      get_elem?_in ids (move pos % length ids) (mod-lt (move pos) (omega arith)) in
    let reach : contains (ids_of_panes w.panes) next ≡ true =
      h.2 next
      ∙ ap (λ ids. contains ids next) e
      ∙ contains-get_elem? ids (move pos % length ids) next there in
    let (w', run, focused) = focus_pane_lem w next h reach in
    (
      p,
      pos,
      next,
      w',
      now,
      ap (λ ids. get_elem? ids pos) e ∙ at,
      ap (λ ids. get_elem? ids (move pos % length ids)) e ∙ there,
      some_step (pane w) _ now (
          some_step (get_elem? ids (move (position_or_zero ids p.id) % length ids)) _
            (ap (λ o. get_elem? ids (move (elim o [ none ↦ 0 | some i ↦ i ]) % length ids)) found
              ∙ there)
            (some_step (focus_pane w next) _ run refl)),
      focused,
    )

pub focus_next_lem :
    {R : Type 0} (w : Window R) → IsWindow w → IsMove (λ pos. pos + 1) w (focus_next w)
unfolding focus_next
focus_next_lem w h = focus_among_lem (λ pos. pos + 1) w (pane_ids w.layout) h refl

pub focus_prev_lem :
    {R : Type 0} (w : Window R)
    → IsWindow w
    → IsMove (λ pos. pos + length (pane_ids w.layout) - 1) w (focus_prev w)
unfolding focus_prev
focus_prev_lem w h =
    focus_among_lem (λ pos. pos + length (pane_ids w.layout) - 1) w (pane_ids w.layout) h refl

get_elem?_lt : (xs : List ℕ) (i a : ℕ) → get_elem? xs i ≡ some a → i < length xs
get_elem?_lt [] i a h = ground arith
get_elem?_lt (x ∷ xs) zero a h = omega arith
get_elem?_lt (x ∷ xs) (suc i) a h = omega (arith, get_elem?_lt xs i a h)

get_elem?_injective :
    (xs : List ℕ) (i j a : ℕ)
    → IsDistinct xs
    → get_elem? xs i ≡ some a
    → get_elem? xs j ≡ some a
    → i ≡ j
get_elem?_injective xs i j a d h k =
    let first = position-get_elem? xs i a d h in let second = position-get_elem? xs j a d k in cc

-- One step on and one step back around a circle of `n` places.
around : (pos n : ℕ) → pos < n → ((pos + 1) % n + n - 1) % n ≡ pos
around pos n low = elim (Bool-cases (pos + 1 == n)) [
  | inl last ↦
      let here : pos + 1 ≡ n = ==→≡ (pos + 1) n last in
      let turn : (pos + 1) % n ≡ 0 = ap (λ k. k % n) here ∙ mod_self n in
      let back : (pos + 1) % n + n - 1 ≡ pos = omega arith in
      ap (λ k. k % n) back ∙ mod-eq_of_lt low
  | inr more ↦
      let next : (pos + 1) % n ≡ pos + 1 = mod-eq_of_lt (ground arith) in
      let back : (pos + 1) % n + n - 1 ≡ pos + n = omega arith in
      ap (λ k. k % n) back ∙ add-mod_right pos n ∙ mod-eq_of_lt low
]

-- In a window whose layout and list of panes agree, `focus_next` and then `focus_prev` run without
-- a panic, and the pane that was active is active again, which is also the answer of `focus_prev`.
pub focus_prev-focus_next :
    {R : Type 0} (w : Window R)
    → IsWindow w
    → (p : Pane) × (w' : Window R) × (w'' : Window R) × (q : Pane) × (next : ℕ) × (pane w ≡ some p)
      × (focus_next w ≡ some (w', next))
      × (focus_prev w' ≡ some (w'', p.id))
      × (pane w'' ≡ some q)
      × (q.id ≡ p.id)
focus_prev-focus_next w h =
    let (p, pos, next, w', now, at, there, run, focused) = focus_next_lem w h in
    let (p', pos', back, w'', now', at', there', run', focused') = focus_prev_lem w' focused.0 in
    let (q, now_q, is_next) = focused.4 in
    let ids = pane_ids w.layout in
    let kept : pane_ids w'.layout ≡ ids = ap pane_ids focused.2 in
    let same : p'.id ≡ next =
      ap (λ o. elim o [ none ↦ next | some x ↦ x.id ]) (sym now' ∙ now_q) ∙ is_next in
    let at_next : get_elem? ids pos' ≡ some next =
      ap (λ t. get_elem? t pos') (sym kept) ∙ at' ∙ ap some same in
    let place : pos' ≡ (pos + 1) % length ids =
      get_elem?_injective ids pos' ((pos + 1) % length ids) next h.1 at_next there in
    let home : (pos' + length ids - 1) % length ids ≡ pos =
      ap (λ k. (k + length ids - 1) % length ids) place
      ∙ around pos (length ids) (get_elem?_lt ids pos p.id at) in
    let returned : some back ≡ some p.id =
      sym there'
      ∙ ap (λ t. get_elem? t ((pos' + length t - 1) % length t)) kept
      ∙ ap (get_elem? ids) home
      ∙ at in
    let is_back : back ≡ p.id = cc in
    let (r, now_r, is_r) = focused'.4 in
    (p, w', w'', r, next, now, run, run' ∙ ap (λ b. some (w'', b)) is_back, now_r, is_r ∙ is_back)
