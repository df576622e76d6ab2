-- ===== src/Grid/Slice.antt =====
-- The operations of Rust's slices that src/grid uses, and their laws.
use lrmux.Base.{ℕ, zero, suc, ◌+◌, ◌-◌, ◌%◌, ◌<◌, ◌≤◌, ◌≡◌, refl, sym, ap, ◌∙◌, arith, none, some}
use lrmux.Base.{ltb, if◌then◌else◌, List, [], ◌∷◌, ◌++◌, length, get_elem?, set, take, drop}
use lrmux.Base.{
  ap₂, append_assoc, lt→ltb, le→ltb, length-append, length-take, length-drop, append-nil,
}
use native.Mathlib.Decide.{dec_lt}
use native.Mathlib.Nat.{mod-eq_of_lt, mod-eq-sub-mod}

add-suc_left : (n i : ℕ) → suc (n + i) ≡ suc n + i
add-suc_left n i = omega arith

module _ {ℓ} {A : Type ℓ} where
  -- `xs.rotate_left(n)` and `xs.rotate_right(n)`, for `n` at most the length.
  abbrev pub rotate_left : ℕ → List A → List A
  rotate_left n xs = drop n xs ++ take n xs

  abbrev pub rotate_right : ℕ → List A → List A
  rotate_right n xs = rotate_left (length xs - n) xs

  pub get_elem?-append :
      (xs ys : List A) (i : ℕ)
      → get_elem? (xs ++ ys) i
        ≡ (if ltb i (length xs) then get_elem? xs i else get_elem? ys (i - length xs))
  get_elem?-append [] ys i = ground arith
  get_elem?-append (x ∷ xs) ys zero = ground arith
  get_elem?-append (x ∷ xs) ys (suc i) = ground (arith, get_elem?-append xs ys i)

  pub get_elem?-drop :
      (n : ℕ) (xs : List A) (i : ℕ) → get_elem? (drop n xs) i ≡ get_elem? xs (n + i)
  get_elem?-drop zero xs i = ap (get_elem? xs) (omega arith)
  get_elem?-drop (suc n) [] i = refl
  get_elem?-drop (suc n) (x ∷ xs) i =
      get_elem?-drop n xs i ∙ ap (get_elem? (x ∷ xs)) (add-suc_left n i)

  pub get_elem?-take :
      (n : ℕ) (xs : List A) (i : ℕ) → i < n → get_elem? (take n xs) i ≡ get_elem? xs i
  get_elem?-take zero xs i h = absurd (omega arith)
  get_elem?-take (suc n) [] i h = refl
  get_elem?-take (suc n) (x ∷ xs) zero h = refl
  get_elem?-take (suc n) (x ∷ xs) (suc i) h = get_elem?-take n xs i (omega arith)

  -- Reading round the end of a buffer is reading the rotated buffer.
  pub get_elem?-rotate_left :
      (h : ℕ) (xs : List A) (i : ℕ)
      → h < length xs
      → i < length xs
      → get_elem? (rotate_left h xs) i ≡ get_elem? xs ((h + i) % length xs)
  get_elem?-rotate_left h xs i hh hi =
      let at = get_elem?-append (drop h xs) (take h xs) i in
      let front = length-drop h xs in
      elim (dec_lt i (length xs - h)) [
        | yes near ↦
            let index : (h + i) % length xs ≡ h + i = mod-eq_of_lt (omega arith) in
            rw (at, lt→ltb i (length (drop h xs)) (omega (arith, front)), index)
              (get_elem?-drop h xs i)
        | no far ↦
            let index : (h + i) % length xs ≡ h + i - length xs = omega (
              arith,
              mod-eq-sub-mod {n = h + i} {m = length xs} (omega arith),
              mod-eq_of_lt {n = h + i - length xs} {m = length xs} (omega arith),
            ) in
            let back : i - length (drop h xs) ≡ h + i - length xs = omega (arith, front) in
            rw (at, le→ltb i (length (drop h xs)) (omega (arith, front)), index, back)
              (get_elem?-take h xs (h + i - length xs) (omega arith))
      ]

  pub drop-set : (xs : List A) (n : ℕ) (v : A) → drop (suc n) (set xs n v) ≡ drop (suc n) xs
  drop-set [] n v = refl
  drop-set (x ∷ xs) zero v = refl
  drop-set (x ∷ xs) (suc n) v = drop-set xs n v

  pub take-set :
      (xs : List A) (n : ℕ) (v : A)
      → n < length xs
      → take (suc n) (set xs n v) ≡ take n xs ++ v ∷ []
  take-set [] n v h = absurd (omega arith)
  take-set (x ∷ xs) zero v h = refl
  take-set (x ∷ xs) (suc n) v h = ap (λ t. x ∷ t) (take-set xs n v (omega arith))

  pub drop-append_one :
      (n : ℕ) (xs ys : List A) → n < length xs → drop 1 (drop n xs ++ ys) ≡ drop (suc n) xs ++ ys
  drop-append_one n [] ys h = absurd (omega arith)
  drop-append_one zero (x ∷ xs) ys h = refl
  drop-append_one (suc n) (x ∷ xs) ys h = drop-append_one n xs ys (omega arith)

  pub take_all : (n : ℕ) (xs : List A) → length xs ≤ n → take n xs ≡ xs
  take_all zero [] h = refl
  take_all zero (x ∷ xs) h = absurd (omega arith)
  take_all (suc n) [] h = refl
  take_all (suc n) (x ∷ xs) h = ap (λ t. x ∷ t) (take_all n xs (omega arith))

  pub drop_all : (n : ℕ) (xs : List A) → length xs ≤ n → drop n xs ≡ []
  drop_all zero [] h = refl
  drop_all zero (x ∷ xs) h = absurd (omega arith)
  drop_all (suc n) [] h = refl
  drop_all (suc n) (x ∷ xs) h = drop_all n xs (omega arith)

  -- Overwriting the first element of a rotated buffer and moving on is: drop the oldest, append.
  pub rotate_left-set :
      (h : ℕ) (xs : List A) (v : A)
      → h < length xs
      → rotate_left (suc h) (set xs h v) ≡ drop 1 (rotate_left h xs) ++ v ∷ []
  rotate_left-set h xs v hh =
      ap₂ ◌++◌ (drop-set xs h v) (take-set xs h v hh)
      ∙ sym (append_assoc (drop (suc h) xs) (take h xs) (v ∷ []))
      ∙ ap (λ t. t ++ v ∷ []) (sym (drop-append_one h xs (take h xs) hh))

  pub length-rotate_left : (h : ℕ) (xs : List A) → length (rotate_left h xs) ≡ length xs
  length-rotate_left h xs =
      omega (arith, length-append (drop h xs) (take h xs), length-drop h xs, length-take h xs)

  pub rotate_left_all : (xs : List A) → rotate_left (length xs) xs ≡ rotate_left 0 xs
  rotate_left_all xs =
      rw (drop_all (length xs) xs (omega arith), take_all (length xs) xs (omega arith), append-nil)

  pub get_elem?-some : (xs : List A) (i : ℕ) → i < length xs → (a : A) × (get_elem? xs i ≡ some a)
  get_elem?-some [] i h = absurd (omega arith)
  get_elem?-some (x ∷ xs) zero h = (x, refl)
  get_elem?-some (x ∷ xs) (suc i) h = get_elem?-some xs i (omega arith)

  pub get_elem?-none : (xs : List A) (i : ℕ) → length xs ≤ i → get_elem? xs i ≡ none
  get_elem?-none [] i h = refl
  get_elem?-none (x ∷ xs) zero h = absurd (omega arith)
  get_elem?-none (x ∷ xs) (suc i) h = get_elem?-none xs i (omega arith)

  pub drop-get_elem? :
      (xs : List A) (i : ℕ) (a : A) → get_elem? xs i ≡ some a → drop i xs ≡ a ∷ drop (suc i) xs
  drop-get_elem? [] i a e = cc
  drop-get_elem? (x ∷ xs) zero a e = cc
  drop-get_elem? (x ∷ xs) (suc i) a e = drop-get_elem? xs i a e
