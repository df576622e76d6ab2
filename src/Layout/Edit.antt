-- ===== src/Layout/Edit.antt =====
-- What `Layout::split` and `Layout::remove` of src/layout/mod.rs do to the list of panes.
use lrmux.Base.{ℕ, ◌≢◌, true, false, ◌≡◌, refl, sym, ap, ◌∙◌, ◌⊎◌, inl, inr, arith}
use lrmux.Base.{List, [], ◌∷◌, ◌++◌, append-nil, append_assoc, ◌==◌, if◌then◌else◌, Bool-cases}
use lrmux.Base.{contains as id_in, contains-append, IsDistinct, ==→≡}
use lrmux.Float.{Float}
use lrmux.Layout.Tree.{Node, leaf, split, Layout, SplitDir, contains_node, contains, collect_ids}
use lrmux.Layout.Tree.{pane_ids, split_node, split_pane, is_leaf_of, remove_node, remove}

-- The panes of a tree from left to right.
abbrev pub ids_of : {R : Type 0} → Node R → List ℕ
ids_of (leaf id) = id ∷ []
ids_of (split d r a b) = ids_of a ++ ids_of b

collect_ids_lem : {R : Type 0} (n : Node R) (out : List ℕ) → collect_ids n out ≡ out ++ ids_of n
unfolding collect_ids
collect_ids_lem (leaf id) out = refl
collect_ids_lem (split d r a b) out =
    collect_ids_lem b (collect_ids a out)
    ∙ ap (λ t. t ++ ids_of b) (collect_ids_lem a out)
    ∙ append_assoc out (ids_of a) (ids_of b)

pub pane_ids_lem : {R : Type 0} (l : Layout R) → pane_ids l ≡ ids_of l.root
unfolding pane_ids
pane_ids_lem l = collect_ids_lem l.root []

pub contains_node_lem : {R : Type 0} (n : Node R) (p : ℕ) → contains_node n p ≡ id_in (ids_of n) p
unfolding contains_node
contains_node_lem (leaf id) p = ground arith
contains_node_lem (split d r a b) p =
    ground
      (arith, contains_node_lem a p, contains_node_lem b p, contains-append (ids_of a) (ids_of b) p)

-- What a split should do to the list of panes: `new_pane` stands right behind the first `target`.
abbrev pub insert_after : ℕ → ℕ → List ℕ → List ℕ
insert_after target new_pane [] = []
insert_after target new_pane (x ∷ xs) =
    if x == target then x ∷ new_pane ∷ xs else x ∷ insert_after target new_pane xs

insert_after-append :
    (t p : ℕ) (xs ys : List ℕ)
    → insert_after t p (xs ++ ys)
      ≡ (if id_in xs t then insert_after t p xs ++ ys else xs ++ insert_after t p ys)
insert_after-append t p [] ys = refl
insert_after-append t p (x ∷ xs) ys = ground (arith, insert_after-append t p xs ys)

insert_after-absent : (t p : ℕ) (xs : List ℕ) → id_in xs t ≡ false → insert_after t p xs ≡ xs
insert_after-absent t p [] h = refl
insert_after-absent t p (x ∷ xs) h = ground (arith, insert_after-absent t p xs)

split_node_lem :
    {R : Type 0} (n : Node R) (t : ℕ) (d : SplitDir) (p : ℕ) (r : R)
    → let (n', found) = split_node n t d p r in
      (ids_of n' ≡ insert_after t p (ids_of n)) × (found ≡ id_in (ids_of n) t)
unfolding split_node
split_node_lem (leaf id) t d p r = ground (arith, ==→≡ id t)
split_node_lem (split d' r' a b) t d p r = ground (
  arith,
  split_node_lem a t d p r,
  split_node_lem b t d p r,
  contains-append (ids_of a) (ids_of b) t,
  insert_after-append t p (ids_of a) (ids_of b),
  insert_after-absent t p (ids_of a),
)

-- `split` answers whether `target` is a pane of the layout. If so, the new pane stands right behind
-- the first such pane in tree order and the others stay as they are; if not, the panes stay the same.
pub split_pane-pane_ids :
    {R : Type 0} (f : Float R) (l : Layout R) (target : ℕ) (d : SplitDir) (new_pane : ℕ) (ratio : R)
    → let (l', found) = split_pane f l target d new_pane ratio in
      (pane_ids l' ≡ insert_after target new_pane (pane_ids l))
      × (found ≡ contains l target)
      × (contains l target ≡ id_in (pane_ids l) target)
unfolding split_pane contains
split_pane-pane_ids f l t d p r =
    let low = f.div (f.of_int 5) (f.of_int 100) in
    let high = f.div (f.of_int 95) (f.of_int 100) in
    let after = split_node_lem l.root t d p (f.clamp r low high) in
    let before = contains_node_lem l.root t in
    rw (pane_ids_lem, pane_ids_lem) (after.0, after.1 ∙ sym before, before)

-- The list with every `pane_id` left out.
abbrev pub without : ℕ → List ℕ → List ℕ
without pane_id [] = []
without pane_id (x ∷ xs) = if x == pane_id then without pane_id xs else x ∷ without pane_id xs

without-append : (p : ℕ) (xs ys : List ℕ) → without p (xs ++ ys) ≡ without p xs ++ without p ys
without-append p [] ys = refl
without-append p (x ∷ xs) ys = ground (arith, without-append p xs ys)

without-absent : (p : ℕ) (xs : List ℕ) → id_in xs p ≡ false → without p xs ≡ xs
without-absent p [] h = refl
without-absent p (x ∷ xs) h = ground (arith, without-absent p xs)

-- Two distinct lists in a row share no id.
pub IsDistinct-append :
    (xs ys : List ℕ)
    → IsDistinct (xs ++ ys)
    → IsDistinct xs × IsDistinct ys × ((a : ℕ) → id_in xs a ≡ true → id_in ys a ≡ false)
IsDistinct-append [] ys h = (tt, h, λ a e. cc)
IsDistinct-append (x ∷ xs) ys h =
    let ih = IsDistinct-append xs ys h.1 in
    let at = contains-append xs ys x in
    ((ground (arith, at), ih.0), ih.1, λ a e. ground (arith, at, ih.2 a, ==→≡ x a))

is_leaf_of-ids_of : {R : Type 0} (n : Node R) (p : ℕ) → is_leaf_of n p ≡ true → ids_of n ≡ p ∷ []
is_leaf_of-ids_of (leaf id) p h = ground (arith, ==→≡ id p)
is_leaf_of-ids_of (split d r a b) p h = cc

is_leaf_of-eq : {R : Type 0} (n : Node R) (p : ℕ) → is_leaf_of n p ≡ true → n ≡ leaf p
is_leaf_of-eq (leaf id) p h = ground (arith, ==→≡ id p)
is_leaf_of-eq (split d r a b) p h = cc

remove_node_lem :
    {R : Type 0} (n : Node R) (p : ℕ)
    → IsDistinct (ids_of n)
    → is_leaf_of n p ≡ false
    → let (n', found) = remove_node n p in
      (ids_of n' ≡ without p (ids_of n)) × (found ≡ id_in (ids_of n) p)
unfolding remove_node
remove_node_lem (leaf id) p h other = ground arith
remove_node_lem (split d r a b) p h other =
    let parts = IsDistinct-append (ids_of a) (ids_of b) h in
    ground (
      arith,
      parts.2 p,
      is_leaf_of-ids_of a p,
      is_leaf_of-ids_of b p,
      remove_node_lem a p parts.0,
      remove_node_lem b p parts.1,
      without-append p (ids_of a) (ids_of b),
      contains-append (ids_of a) (ids_of b) p,
      without-absent p (ids_of a),
      without-absent p (ids_of b),
      append-nil (ids_of a),
    )

-- In a layout whose panes have distinct ids, `remove` deletes exactly the pane asked for and keeps the
-- others in order, and answers whether it was there. The one exception is the last pane of a window:
-- the layout that is this single pane is left alone, and the answer is `false`.
pub remove-pane_ids :
    {R : Type 0} (l : Layout R) (pane_id : ℕ)
    → IsDistinct (pane_ids l)
    → let (l', found) = remove l pane_id in
      ((l.root ≡ leaf pane_id) × (l' ≡ l) × (found ≡ false))
      ⊎ ((l.root ≢ leaf pane_id)
          × (pane_ids l' ≡ without pane_id (pane_ids l))
          × (found ≡ contains l pane_id))
unfolding remove contains
remove-pane_ids l p h = elim (Bool-cases (is_leaf_of l.root p)) [
  | inl last ↦ inl (is_leaf_of-eq l.root p last, rw last, rw last)
  | inr more ↦
      let ids = pane_ids_lem l in
      let done = remove_node_lem l.root p (rw ids at h) more in
      inr (
        (λ e. ground arith),
        rw (more, pane_ids_lem, ids) done.0,
        rw more (done.1 ∙ sym (contains_node_lem l.root p)),
      )
]
