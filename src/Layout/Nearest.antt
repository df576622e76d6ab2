-- ===== src/Layout/Nearest.antt =====
-- Which pane `Layout::neighbor` of src/layout/mod.rs chooses.
use lrmux.Base.{ℕ, ◌≤◌, ◌<◌, true, false, ◌≡◌, ◌≢◌, ◌⊎◌, inl, inr, refl, arith}
use lrmux.Base.{none, some, List, [], ◌∷◌, ◌==◌, ==→≢, ≢→==, subst, Bool-cases, Option-cases}
use mathlib.Core.Bool.{true≢false}
use mathlib.Core.List.{Memᴰ}
use mathlib.Core.List.Memᴰ.{head, tail}
use lrmux.Float.{Float}
use lrmux.Layout.Tree.{FocusDir, Layout}
use lrmux.Layout.Geometry.{Rect, leaf_rect, reflow}
use lrmux.Layout.Neighbor.{distances, Best, closer, improve, consider, best_of, is_placed, neighbor}

-- Lexicographic order of the distances.
abbrev pub NoFarther : ℕ × ℕ → ℕ × ℕ → Type 0
NoFarther (p, s) (p', s') = (p < p') ⊎ ((p ≡ p') × (s ≤ s'))

-- The best so far is no farther than a pair of distances.
abbrev pub Reaches : Best → ℕ × ℕ → Type 0
Reaches none d = true ≡ false
Reaches (some (id, p, s)) d = NoFarther (p, s) d

improve_new : (id : ℕ) (d : ℕ × ℕ) (best : Best) → Reaches (improve id d best) d
improve_new id (p, s) none = inr (refl, omega arith)
improve_new id (p, s) (some (b, bp, bs)) = ground arith

improve_old :
    (id : ℕ) (d d' : ℕ × ℕ) (best : Best) → Reaches best d' → Reaches (improve id d best) d'
improve_old id (p, s) (p', s') none h = absurd (true≢false h)
improve_old id (p, s) (p', s') (some (b, bp, bs)) h = ground arith

consider_old :
    (dir : FocusDir) (from : ℕ) (src : Rect) (e : ℕ × Rect) (best : Best) (d : ℕ × ℕ)
    → Reaches best d
    → Reaches (consider dir from src e best) d
unfolding consider
consider_old dir from src (id, r) best d h = elim (Option-cases (distances dir src r)) [
  | inl e ↦ ground arith
  | inr (found, e) ↦ ground (arith, improve_old id found d best h)
]

consider_new :
    (dir : FocusDir) (from id : ℕ) (src r : Rect) (best : Best) (d : ℕ × ℕ)
    → id ≢ from
    → distances dir src r ≡ some d
    → Reaches (consider dir from src (id, r) best) d
unfolding consider
consider_new dir from id src r best d other e = rw (≢→== id from other, e) (improve_new id d best)

best_of_old :
    (dir : FocusDir) (from : ℕ) (src : Rect) (rects : List (ℕ × Rect)) (best : Best) (d : ℕ × ℕ)
    → Reaches best d
    → Reaches (best_of dir from src rects best) d
unfolding best_of
best_of_old dir from src [] best d h = h
best_of_old dir from src (e ∷ rects) best d h =
    best_of_old dir from src rects (consider dir from src e best) d
      (consider_old dir from src e best d h)

best_of_new :
    (dir : FocusDir) (from id : ℕ) (src r : Rect) (rects : List (ℕ × Rect)) (best : Best)
    (d : ℕ × ℕ)
    → Memᴰ (id, r) rects
    → id ≢ from
    → distances dir src r ≡ some d
    → Reaches (best_of dir from src rects best) d
unfolding best_of
best_of_new dir from id src r [] best d m other h = elim m [ ]
best_of_new dir from id src r (x ∷ rects) best d (head e) other h =
    best_of_old dir from src rects (consider dir from src x best) d (
      subst (λ y. Reaches (consider dir from src y best) d) e
        (consider_new dir from id src r best d other h))
best_of_new dir from id src r (x ∷ rects) best d (tail m) other h =
    best_of_new dir from id src r rects (consider dir from src x best) d m other h

-- The best so far is one of the panes, and not the one to leave.
abbrev pub IsOneOf : FocusDir → ℕ → Rect → List (ℕ × Rect) → Best → Type 0
IsOneOf dir from src rects none = Unit
IsOneOf dir from src rects (some (id, p, s)) =
    (r : Rect) × Memᴰ (id, r) rects × (id ≢ from) × (distances dir src r ≡ some (p, s))

consider-IsOneOf :
    (dir : FocusDir) (from : ℕ) (src : Rect) (all : List (ℕ × Rect)) (e : ℕ × Rect) (best : Best)
    → Memᴰ e all
    → IsOneOf dir from src all best
    → IsOneOf dir from src all (consider dir from src e best)
unfolding consider
consider-IsOneOf dir from src all (id, r) best m h = elim (Bool-cases (id == from)) [
  | inl same ↦ rw same h
  | inr other ↦ rw other (elim (Option-cases (distances dir src r)) [
    | inl e ↦ rw e h
    | inr ((p, s), e) ↦ rw e (improved id p s best (r, m, ==→≢ id from other, e) h)
  ])
]
  where
    improved :
        (id p s : ℕ) (best : Best)
        → IsOneOf dir from src all (some (id, p, s))
        → IsOneOf dir from src all best
        → IsOneOf dir from src all (improve id (p, s) best)
    improved id p s none new old = new
    improved id p s (some (b, bp, bs)) new old = elim (Bool-cases (closer p s bp bs)) [
      | inl e ↦ rw e new
      | inr e ↦ rw e old
    ]

pub best_of-IsOneOf :
    (dir : FocusDir) (from : ℕ) (src : Rect) (all rects : List (ℕ × Rect)) (best : Best)
    → ((e : ℕ × Rect) → Memᴰ e rects → Memᴰ e all)
    → IsOneOf dir from src all best
    → IsOneOf dir from src all (best_of dir from src rects best)
unfolding best_of
best_of-IsOneOf dir from src all [] best sub h = h
best_of-IsOneOf dir from src all (e ∷ rects) best sub h =
    best_of-IsOneOf dir from src all rects (consider dir from src e best) (λ e' m. sub e' (tail m))
      (consider-IsOneOf dir from src all e best (sub e (head refl)) h)

-- If the pane to leave is placed and the distances in the direction name some other pane, then
-- `neighbor` answers with a pane, other than the one to leave, that the layout places, and whose
-- distances are no farther in the lexicographic order.
pub neighbor_nearest :
    {R : Type 0} (f : Float R) (l : Layout R) (from : ℕ) (dir : FocusDir) (cols rows id : ℕ)
    (r : Rect) (d : ℕ × ℕ)
    → is_placed (reflow f l cols rows) from ≡ true
    → Memᴰ (id, r) (reflow f l cols rows)
    → id ≢ from
    → distances dir (leaf_rect (reflow f l cols rows) from) r ≡ some d
    → (id' : ℕ) × (r' : Rect) × (d' : ℕ × ℕ) × (neighbor f l from dir cols rows ≡ some id')
      × Memᴰ (id', r') (reflow f l cols rows)
      × (id' ≢ from)
      × (distances dir (leaf_rect (reflow f l cols rows) from) r' ≡ some d')
      × NoFarther d' d
unfolding neighbor
neighbor_nearest f l from dir cols rows id r d placed m other h =
    let rects = reflow f l cols rows in
    let src = leaf_rect rects from in
    let best = best_of dir from src rects none in
    let near = best_of_new dir from id src r rects none d m other h in
    let one = best_of-IsOneOf dir from src rects rects none (λ e m'. m') tt in
    elim (Option-cases best) [
      | inl e ↦ absurd (true≢false (subst (λ b. Reaches b d) e near))
      | inr ((id', p', s'), e) ↦
          let (r', m', other', h') = subst (IsOneOf dir from src rects) e one in
          (id', r', (p', s'), rw (placed, e), m', other', h', subst (λ b. Reaches b d) e near)
    ]
