-- ===== src/Window/Invariant.antt =====
-- The invariant of a window (src/server/window.rs), and resizing against it.
use lrmux.Base.{ℕ, zero, suc, ◌≤◌, ◌<◌, max, Bool, false, ◌≡◌, ◌⊎◌, inl, inr, refl, ap, ◌∙◌, arith}
use lrmux.Base.{some, some_step, List, [], ◌∷◌, length, get_elem?, set, contains, IsDistinct}
use lrmux.Base.{if_true, if_false, Bool-cases}
use lrmux.Float.{Float}
use lrmux.Layout.Tree.{pane_ids}
use lrmux.Layout.Geometry.{Rect, reflow}
use lrmux.Window.State.{
  Pane, Window, ids_of_panes, resize_pane, resize_placed, resize_all, clamp_active, pane,
  apply_zoom_size, reflow_panes,
}

-- The layout and the list of panes name the same panes, each once; the active pane is in range; and a
-- zoomed window has more than one pane.
abbrev pub IsShape : List ℕ → List ℕ → ℕ → Bool → Type 0
IsShape ids placed active zoomed =
    IsDistinct ids
    × IsDistinct placed
    × ((id : ℕ) → contains ids id ≡ contains placed id)
    × (active < length ids)
    × ((zoomed ≡ false) ⊎ (2 ≤ length ids))

abbrev pub IsWindow : {R : Type 0} → Window R → Type 0
IsWindow w = IsShape (ids_of_panes w.panes) (pane_ids w.layout) w.active_pane w.zoomed

pub length-ids_of_panes : (panes : List Pane) → length (ids_of_panes panes) ≡ length panes
length-ids_of_panes [] = refl
length-ids_of_panes (p ∷ panes) = ap suc (length-ids_of_panes panes)

resize_pane_id : (rows cols : ℕ) (p : Pane) → (resize_pane rows cols p).id ≡ p.id
resize_pane_id rows cols p = ground arith

pub ids_of_panes-resize_placed :
    (e : ℕ × Rect) (panes : List Pane) → ids_of_panes (resize_placed e panes) ≡ ids_of_panes panes
unfolding resize_placed
ids_of_panes-resize_placed (id, r) [] = refl
ids_of_panes-resize_placed (id, r) (p ∷ panes) =
    ground (arith, resize_pane_id r.rows r.cols p, ids_of_panes-resize_placed (id, r) panes)

pub ids_of_panes-resize_all :
    (geom : List (ℕ × Rect)) (panes : List Pane)
    → ids_of_panes (resize_all geom panes) ≡ ids_of_panes panes
unfolding resize_all
ids_of_panes-resize_all [] panes = refl
ids_of_panes-resize_all (e ∷ geom) panes =
    ids_of_panes-resize_all geom (resize_placed e panes) ∙ ids_of_panes-resize_placed e panes

ids_of_panes-set :
    (panes : List Pane) (i : ℕ) (p q : Pane)
    → get_elem? panes i ≡ some p
    → q.id ≡ p.id
    → ids_of_panes (set panes i q) ≡ ids_of_panes panes
ids_of_panes-set [] i p q h e = refl
ids_of_panes-set (x ∷ panes) zero p q h e = ground arith
ids_of_panes-set (x ∷ panes) (suc i) p q h e = ap (λ t. x.id ∷ t) (ids_of_panes-set panes i p q h e)

pub get_elem?_in :
    {A : Type 0} (xs : List A) (i : ℕ) → i < length xs → (a : A) × (get_elem? xs i ≡ some a)
get_elem?_in [] i h = absurd (omega arith)
get_elem?_in (x ∷ xs) zero h = (x, refl)
get_elem?_in (x ∷ xs) (suc i) h = get_elem?_in xs i (omega arith)

-- What a resize leaves as it was.
abbrev pub IsResized : {R : Type 0} → Window R → Window R → Type 0
IsResized w w' =
    (ids_of_panes w'.panes ≡ ids_of_panes w.panes)
    × (w'.layout ≡ w.layout)
    × (w'.active_pane ≡ w.active_pane)
    × (w'.zoomed ≡ w.zoomed)
    × (w'.rows ≡ w.rows)
    × (w'.cols ≡ w.cols)
    × (w'.layout_kind ≡ w.layout_kind)

module _ {R : Type 0} where
  pub pane_lem : (w : Window R) → 1 ≤ length w.panes → (p : Pane) × (pane w ≡ some p)
  pane_lem w h = get_elem?_in w.panes (clamp_active w) (omega arith)

  pub apply_zoom_size_lem :
      (w : Window R)
      → 1 ≤ length w.panes
      → (w' : Window R) × (apply_zoom_size w ≡ some w') × IsResized w w'
  unfolding apply_zoom_size
  apply_zoom_size_lem w h =
      let (p, e) = pane_lem w h in
      let q = resize_pane (max w.rows 1) (max w.cols 1) p in
      (
        record w { panes = set w.panes (clamp_active w) q },
        some_step _ _ e refl,
        (
          ids_of_panes-set w.panes (clamp_active w) p q e
              (resize_pane_id (max w.rows 1) (max w.cols 1) p),
          refl,
          refl,
          refl,
          refl,
          refl,
          refl,
        ),
      )

  pub reflow_panes_lem :
      (f : Float R) (w : Window R)
      → 1 ≤ length w.panes
      → (w' : Window R) × (reflow_panes f w ≡ some w') × IsResized w w'
  unfolding reflow_panes
  reflow_panes_lem f w h = elim (Bool-cases w.zoomed) [
    | inl z ↦ let (w', run, kept) = apply_zoom_size_lem w h in (w', if_true _ z ∙ run, kept)
    | inr z ↦ (
      record w { panes = resize_all (reflow f w.layout w.cols w.rows) w.panes },
      if_false _ z,
      (
        ids_of_panes-resize_all (reflow f w.layout w.cols w.rows) w.panes,
        refl,
        refl,
        refl,
        refl,
        refl,
        refl,
      ),
    )
  ]

  -- A resized window has the invariant if the shape before had it.
  pub IsResized-IsWindow : (w w' : Window R) → IsResized w w' → IsWindow w → IsWindow w'
  IsResized-IsWindow w w' (i, l, a, z, y, x, k) h = rw (i, l, a, z) h
