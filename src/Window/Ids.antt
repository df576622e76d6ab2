-- ===== src/Window/Ids.antt =====
-- Lists of distinct ids: adding one and leaving one out.
use lrmux.Base.{ℕ, zero, suc, ◌<◌, true, false, not, ◌&&◌, ◌||◌, ◌≡◌, refl, ap, ◌∙◌, arith, some}
use lrmux.Base.{
  List, [], ◌∷◌, ◌++◌, length, contains, contains-append, IsDistinct, ◌==◌, ==→≡, Bool-cases,
  Option-cases, inl, inr,
}
use lrmux.Layout.Edit.{insert_after, without}
use lrmux.Window.State.{Pane, ids_of_panes, position}
use lrmux.Window.Operations.{remove_at}

pub contains-insert_after :
    (t p : ℕ) (xs : List ℕ) (a : ℕ)
    → contains xs t ≡ true
    → contains (insert_after t p xs) a ≡ (contains xs a || p == a)
contains-insert_after t p [] a h = ground arith
contains-insert_after t p (x ∷ xs) a h = elim (Bool-cases (x == t)) [
  | inl e ↦ ground arith
  | inr e ↦ ground (arith, contains-insert_after t p xs a)
]

pub IsDistinct-insert_after :
    (t p : ℕ) (xs : List ℕ)
    → contains xs t ≡ true
    → contains xs p ≡ false
    → IsDistinct xs
    → IsDistinct (insert_after t p xs)
IsDistinct-insert_after t p [] h fresh d = tt
IsDistinct-insert_after t p (x ∷ xs) h fresh d = elim (Bool-cases (x == t)) [
  | inl e ↦ ground arith
  | inr e ↦ ground (arith, IsDistinct-insert_after t p xs, contains-insert_after t p xs x)
]

pub IsDistinct-snoc :
    (xs : List ℕ) (p : ℕ) → IsDistinct xs → contains xs p ≡ false → IsDistinct (xs ++ p ∷ [])
IsDistinct-snoc [] p d fresh = (refl, tt)
IsDistinct-snoc (x ∷ xs) p d fresh =
    (ground (arith, contains-append xs (p ∷ []) x), IsDistinct-snoc xs p d.1 (ground arith))

pub contains-without :
    (p : ℕ) (xs : List ℕ) (a : ℕ) → contains (without p xs) a ≡ (contains xs a && not (p == a))
contains-without p [] a = refl
contains-without p (x ∷ xs) a = ground (arith, contains-without p xs a)

pub IsDistinct-without : (p : ℕ) (xs : List ℕ) → IsDistinct xs → IsDistinct (without p xs)
IsDistinct-without p [] d = tt
IsDistinct-without p (x ∷ xs) d =
    ground (arith, contains-without p xs x, IsDistinct-without p xs d.1)

without_absent : (p : ℕ) (xs : List ℕ) → contains xs p ≡ false → without p xs ≡ xs
without_absent p [] h = refl
without_absent p (x ∷ xs) h = ground (arith, without_absent p xs)

pub ids_of_panes-remove_at :
    (panes : List Pane) (i id : ℕ)
    → IsDistinct (ids_of_panes panes)
    → position (ids_of_panes panes) id ≡ some i
    → (ids_of_panes (remove_at i panes) ≡ without id (ids_of_panes panes))
      × (suc (length (remove_at i panes)) ≡ length panes)
      × (i < length panes)
unfolding position
ids_of_panes-remove_at [] i id d h = ground arith
ids_of_panes-remove_at (p ∷ panes) zero id d h = elim (Bool-cases (p.id == id)) [
  | inl e ↦ ground (arith, ==→≡ p.id id e, without_absent id (ids_of_panes panes))
  | inr e ↦ elim (Option-cases (position (ids_of_panes panes) id)) [
    | inl e' ↦ ground arith
    | inr (j, e') ↦ ground arith
  ]
]
ids_of_panes-remove_at (p ∷ panes) (suc i) id d h = elim (Bool-cases (p.id == id)) [
  | inl e ↦ ground arith
  | inr e ↦ elim (Option-cases (position (ids_of_panes panes) id)) [
    | inl e' ↦ ground arith
    | inr (j, e') ↦
        let same : j ≡ i = ground arith in
        let ih = ids_of_panes-remove_at panes i id d.1 (e' ∙ ap some same) in
        ground (arith, ih.0, ih.1, ih.2)
  ]
]

pub ids_of_panes-append :
    (xs ys : List Pane) → ids_of_panes (xs ++ ys) ≡ ids_of_panes xs ++ ids_of_panes ys
ids_of_panes-append [] ys = refl
ids_of_panes-append (p ∷ xs) ys = ap (λ t. p.id ∷ t) (ids_of_panes-append xs ys)
