-- ===== src/Window/Sized.antt =====
-- The sizes and the active pane that the operations of a window (src/server/window.rs) leave.
use lrmux.Base.{ℕ, true, false, ◌≡◌, ◌≢◌, inl, inr, refl, sym, ap, ◌∙◌, arith, subst}
use lrmux.Base.{
  some, List, [], ◌∷◌, contains, IsDistinct, ◌==◌, ==→≡, if_true, if_false, Bool-cases,
}
use mathlib.Core.List.{Memᴰ}
use mathlib.Core.List.Memᴰ.{head, tail}
use lrmux.Float.{Float}
use lrmux.Layout.Geometry.{Rect, reflow}
use lrmux.Layout.Cover.{placed_ids, placed_ids-reflow}
use lrmux.Window.Invariant.{IsWindow, ids_of_panes-resize_placed}
use lrmux.Window.State.{
  Pane, Window, ids_of_panes, resize_pane, resize_placed, resize_all, reflow_panes,
}

-- A pane of that id has that size.
abbrev pub HasSize : ℕ → Rect → List Pane → Type 0
HasSize id r panes = (p : Pane) × Memᴰ p panes × (p.id ≡ id) × (p.rows ≡ r.rows) × (p.cols ≡ r.cols)

resize_pane_size :
    (rows cols : ℕ) (p : Pane)
    → ((resize_pane rows cols p).rows ≡ rows)
      × ((resize_pane rows cols p).cols ≡ cols)
      × ((resize_pane rows cols p).id ≡ p.id)
resize_pane_size rows cols p = (ground arith, ground arith, ground arith)

-- The entry's own pane gets the size.
resize_placed_here :
    (id : ℕ) (r : Rect) (panes : List Pane)
    → contains (ids_of_panes panes) id ≡ true
    → HasSize id r (resize_placed (id, r) panes)
unfolding resize_placed
resize_placed_here id r [] h = ground arith
resize_placed_here id r (p ∷ panes) h = elim (Bool-cases (p.id == id)) [
  | inl e ↦
      let (y, x, i) = resize_pane_size r.rows r.cols p in
      subst (HasSize id r) (sym (if_true _ e))
        (resize_pane r.rows r.cols p, head refl, i ∙ ==→≡ p.id id e, y, x)
  | inr e ↦
      let (q, m, i, y, x) = resize_placed_here id r panes (ground arith) in
      subst (HasSize id r) (sym (if_false _ e)) (q, tail m, i, y, x)
]

-- Another entry leaves it.
resize_placed_other :
    (id id' : ℕ) (r r' : Rect) (panes : List Pane)
    → id ≢ id'
    → HasSize id r panes
    → HasSize id r (resize_placed (id', r') panes)
unfolding resize_placed
resize_placed_other id id' r r' [] ne (q, m, i, y, x) = elim m [ ]
resize_placed_other id id' r r' (p ∷ panes) ne (q, m, i, y, x) = elim (Bool-cases (p.id == id')) [
  | inl e ↦ subst (HasSize id r) (sym (if_true _ e)) (elim m [
    | head same ↦ absurd (ne (sym i ∙ ap (λ t. t.id) same ∙ ==→≡ p.id id' e))
    | tail m' ↦ (q, tail m', i, y, x)
  ])
  | inr e ↦ subst (HasSize id r) (sym (if_false _ e)) (elim m [
    | head same ↦ (q, head same, i, y, x)
    | tail m' ↦
        let (q', m'', i', y', x') = resize_placed_other id id' r r' panes ne (q, m', i, y, x) in
        (q', tail m'', i', y', x')
  ])
]

resize_all_other :
    (id : ℕ) (r : Rect) (geom : List (ℕ × Rect)) (panes : List Pane)
    → contains (placed_ids geom) id ≡ false
    → HasSize id r panes
    → HasSize id r (resize_all geom panes)
unfolding resize_all
resize_all_other id r [] panes absent h = h
resize_all_other id r ((id', r') ∷ geom) panes absent h =
    resize_all_other id r geom (resize_placed (id', r') panes) (ground arith)
      (resize_placed_other id id' r r' panes (λ e. ground arith) h)

contains-placed_ids :
    (geom : List (ℕ × Rect)) (id : ℕ) (r : Rect)
    → Memᴰ (id, r) geom
    → contains (placed_ids geom) id ≡ true
contains-placed_ids [] id r m = elim m [ ]
contains-placed_ids ((id', r') ∷ geom) id r (head e) =
    let same : id ≡ id' = ap (λ t. t.0) e in ground arith
contains-placed_ids ((id', r') ∷ geom) id r (tail m) =
    ground (arith, contains-placed_ids geom id r m)

resize_all_here :
    (id : ℕ) (r : Rect) (geom : List (ℕ × Rect)) (panes : List Pane)
    → IsDistinct (placed_ids geom)
    → Memᴰ (id, r) geom
    → contains (ids_of_panes panes) id ≡ true
    → HasSize id r (resize_all geom panes)
unfolding resize_all
resize_all_here id r [] panes d m h = elim m [ ]
resize_all_here id r ((id', r') ∷ geom) panes d (head e) h =
    let same : id ≡ id' = ap (λ t. t.0) e in
    resize_all_other id r geom (resize_placed (id', r') panes)
      (ap (contains (placed_ids geom)) same ∙ d.0)
      (subst (λ t. HasSize id r (resize_placed t panes)) e (resize_placed_here id r panes h))
resize_all_here id r ((id', r') ∷ geom) panes d (tail m) h =
    resize_all_here id r geom (resize_placed (id', r') panes) d.1 m
      (ap (λ t. contains t id) (ids_of_panes-resize_placed (id', r') panes) ∙ h)

-- In a window whose layout and list of panes agree and which is not zoomed, `reflow_panes` runs
-- without a panic, and each pane that the layout places has the rows and the columns of its
-- rectangle.
pub reflow_panes-HasSize :
    {R : Type 0} (f : Float R) (w : Window R) (id : ℕ) (r : Rect)
    → IsWindow w
    → w.zoomed ≡ false
    → Memᴰ (id, r) (reflow f w.layout w.cols w.rows)
    → (w' : Window R) × (reflow_panes f w ≡ some w') × HasSize id r w'.panes
unfolding reflow_panes
reflow_panes-HasSize f w id r h flat m =
    let geom = reflow f w.layout w.cols w.rows in
    let names = placed_ids-reflow f w.layout w.cols w.rows in
    (
      record w { panes = resize_all geom w.panes },
      if_false _ flat,
      resize_all_here id r geom w.panes (subst IsDistinct (sym names) h.1) m
          (h.2 id ∙ ap (λ t. contains t id) (sym names) ∙ contains-placed_ids geom id r m),
    )
