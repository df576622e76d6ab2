-- ===== src/Sessions/Remove.antt =====
-- How the loop of src/server/event_loop.rs takes clients off its list.
use lrmux.Base.{ℕ, zero, suc, ◌+◌, ◌≤◌, ◌<◌, false, ◌≡◌, refl, sym}
use lrmux.Base.{ap, ◌∙◌, List, [], ◌∷◌, ◌++◌, length, contains, All}
use lrmux.Base.{arith, ltb, if◌then◌else◌, Bool-cases, inl, inr}
use lrmux.Base.{if_true, if_false, ltb→le}
use native.Mathlib.Nat.{zero-add}
use lrmux.Window.Operations.{remove_at}
use lrmux.Sessions.State.{remove_clients}

-- The clients whose index, counted from `k`, is not on the list.
unfoldable pub others : {A : Type 0} → List ℕ → ℕ → List A → List A
others to_remove k [] = []
others to_remove k (c ∷ clients) =
    let rest = others to_remove (suc k) clients in if contains to_remove k then rest else c ∷ rest

-- Each index on the list is smaller than all behind it.
abbrev pub IsAscending : List ℕ → Type 0
IsAscending [] = Unit
IsAscending (i ∷ later) = All (λ j. i < j) later × IsAscending later

contains_above :
    (i k : ℕ) (later : List ℕ) → All (λ j. i < j) later → k ≤ i → contains later k ≡ false
contains_above i k [] h le = refl
contains_above i k (j ∷ later) h le = ground (arith, contains_above i k later)

-- An index behind smaller ones that ascend.
IsAscending-append :
    (xs : List ℕ) (a : ℕ) → IsAscending xs → All (λ i. i < a) xs → IsAscending (xs ++ a ∷ [])
IsAscending-append [] a h less = (tt, tt)
IsAscending-append (x ∷ xs) a h less = (above xs h.0, IsAscending-append xs a h.1 less.1)
  where
    above : (ys : List ℕ) → All (λ j. x < j) ys → All (λ j. x < j) (ys ++ a ∷ [])
    above [] q = (less.0, tt)
    above (y ∷ ys) q = (q.0, above ys q.1)

module _ {A : Type 0} where
  remove_at_past : (i : ℕ) (xs : List A) → length xs ≤ i → remove_at i xs ≡ xs
  remove_at_past i [] h = refl
  remove_at_past zero (x ∷ xs) h = absurd (omega arith)
  remove_at_past (suc i) (x ∷ xs) h = ap (λ t. x ∷ t) (remove_at_past i xs (omega arith))

  -- The test of the range changes nothing.
  remove_checked :
      (i : ℕ) (xs : List A) → (if ltb i (length xs) then remove_at i xs else xs) ≡ remove_at i xs
  remove_checked i xs = elim (Bool-cases (ltb i (length xs))) [
    | inl inside ↦ if_true _ inside
    | inr past ↦ if_false _ past ∙ sym (remove_at_past i xs (ltb→le i (length xs) past))
  ]

  others_passed :
      (i : ℕ) (later : List ℕ) (k : ℕ) (xs : List A)
      → i < k
      → others (i ∷ later) k xs ≡ others later k xs
  unfolding others
  others_passed i later k [] h = refl
  others_passed i later k (x ∷ xs) h = ground (arith, others_passed i later (suc k) xs)

  remove_at-others :
      (d : ℕ) (later : List ℕ) (k : ℕ) (xs : List A)
      → All (λ j. k + d < j) later
      → remove_at d (others later k xs) ≡ others ((k + d) ∷ later) k xs
  unfolding others
  remove_at-others d later k [] h = refl
  remove_at-others zero later k (x ∷ xs) h =
      ground (arith, contains_above (k + 0) k later h, others_passed (k + 0) later (suc k) xs)
  remove_at-others (suc d) later k (x ∷ xs) h =
      let far : k + suc d ≡ suc k + d = omega arith in
      ground (
        arith,
        contains_above (k + suc d) k later h,
        remove_at-others d later (suc k) xs (rw (← far) h),
        far,
      )

  others_none : (k : ℕ) (xs : List A) → others [] k xs ≡ xs
  unfolding others
  others_none k [] = refl
  others_none k (x ∷ xs) = ap (λ t. x ∷ t) (others_none (suc k) xs)

  -- If the indices on the list ascend, the loop takes off exactly the clients at these indices, in
  -- or out of range, and leaves the others in their order.
  pub remove_clients-others :
      (to_remove : List ℕ) (clients : List A)
      → IsAscending to_remove
      → remove_clients to_remove clients ≡ others to_remove 0 clients
  unfolding remove_clients
  remove_clients-others [] clients h = sym (others_none 0 clients)
  remove_clients-others (i ∷ later) clients h =
      remove_checked i (remove_clients later clients)
      ∙ ap (remove_at i) (remove_clients-others later clients h.1)
      ∙ remove_at-others i later 0 clients (rw (zero-add i) h.0)
      ∙ ap (λ k. others (k ∷ later) 0 clients) (zero-add i)

  remove_at-remove_at :
      (i j : ℕ) (xs : List A)
      → i < j
      → remove_at j (remove_at i xs) ≡ remove_at i (remove_at (suc j) xs)
  remove_at-remove_at i j [] h = refl
  remove_at-remove_at zero j (x ∷ xs) h = refl
  remove_at-remove_at (suc i) zero (x ∷ xs) h = absurd (omega arith)
  remove_at-remove_at (suc i) (suc j) (x ∷ xs) h =
      ap (λ t. x ∷ t) (remove_at-remove_at i j xs (omega arith))

  -- An index that stands first and is larger than the others counts what they took off.
  remove_clients_first :
      (j : ℕ) (later : List ℕ) (clients : List A)
      → All (λ i. i < j) later
      → remove_clients (j ∷ later) clients
        ≡ remove_clients (later ++ (j + length later) ∷ []) clients
  unfolding remove_clients
  remove_clients_first j [] clients h =
      let same : j ≡ j + 0 = omega arith in ap (λ k. remove_clients (k ∷ []) clients) same
  remove_clients_first j (i ∷ later) clients h =
      let rest = remove_clients later clients in
      let moved : suc j + length later ≡ j + suc (length later) = omega arith in
      remove_checked j _
      ∙ ap (remove_at j) (remove_checked i rest)
      ∙ remove_at-remove_at i j rest h.0
      ∙ sym (ap (remove_at i) (remove_checked (suc j) rest))
      ∙ ap (remove_at i) (remove_clients_first (suc j) later clients (below later h.1))
      ∙ ap (λ k. remove_at i (remove_clients (later ++ k ∷ []) clients)) moved
      ∙ sym (remove_checked i _)
    where
      below : (xs : List ℕ) → All (λ i. i < j) xs → All (λ i. i < suc j) xs
      below [] q = tt
      below (x ∷ xs) q = (omega (arith, q.0), below xs q.1)

  -- If the list begins with an index `j` and goes on with smaller indices that ascend, `n` of
  -- them, the loop takes off the clients at these and the client at `j + n`, if any, in place of
  -- the one at `j`.
  pub remove_clients-swapped :
      (j : ℕ) (later : List ℕ) (clients : List A)
      → IsAscending later
      → All (λ i. i < j) later
      → remove_clients (j ∷ later) clients ≡ others (later ++ (j + length later) ∷ []) 0 clients
  remove_clients-swapped j later clients h less =
      remove_clients_first j later clients less
      ∙ remove_clients-others (later ++ (j + length later) ∷ []) clients
          (IsAscending-append later (j + length later) h (below later less))
    where
      below : (xs : List ℕ) → All (λ i. i < j) xs → All (λ i. i < j + length later) xs
      below [] q = tt
      below (x ∷ xs) q = (omega (arith, q.0), below xs q.1)
