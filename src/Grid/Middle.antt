-- ===== src/Grid/Middle.antt =====
-- Operations on the middle of a list: an index, a slice, a run of stores (src/grid/mod.rs).
use lrmux.Base.{ℕ, ◌+◌, ◌-◌, ◌≡◌, ◌≢◌, refl, sym, ap, ap₂, ◌∙◌, arith}
use lrmux.Base.{some, List, [], ◌∷◌, ◌++◌, length, get_elem?, set, take, drop, replicate}
use lrmux.Base.{append_assoc, length-append, take-append, drop-append, false, ◌==◌}
use lrmux.Grid.Slice.{rotate_left, rotate_right}
use lrmux.Grid.Screen.{Row, on_slice, blank_rows}

module _ {ℓ} {A : Type ℓ} where
  pub get_elem?-middle :
      (pre rest : List A) (x : A) → get_elem? (pre ++ x ∷ rest) (length pre) ≡ some x
  get_elem?-middle [] rest x = refl
  get_elem?-middle (y ∷ pre) rest x = get_elem?-middle pre rest x

  pub set-middle :
      (pre rest : List A) (x v : A) → set (pre ++ x ∷ rest) (length pre) v ≡ pre ++ v ∷ rest
  set-middle [] rest x v = refl
  set-middle (y ∷ pre) rest x v = ap (λ t. y ∷ t) (set-middle pre rest x v)

module _ {A : Type 0} where
  -- An operation on the middle slice of a list.
  pub on_slice-middle :
      (pre mid post : List A) (a b : ℕ) (f : List A → List A)
      → length pre ≡ a
      → length pre + length mid ≡ b
      → on_slice a b f (pre ++ (mid ++ post)) ≡ some (pre ++ (f mid ++ post))
  unfolding on_slice
  on_slice-middle pre mid post a b f ea eb =
      let all = pre ++ (mid ++ post) in
      let head = ap (λ n. take n all) (sym ea) ∙ take-append pre (mid ++ post) in
      let size : b - a ≡ length mid = omega arith in
      let rest = ap (λ n. drop n all) (sym ea) ∙ drop-append pre (mid ++ post) in
      let middle = ap₂ take size rest ∙ take-append mid post in
      let tail =
        ap (λ n. drop n all) (sym eb ∙ sym (length-append pre mid))
        ∙ ap (drop (length (pre ++ mid))) (sym (append_assoc pre mid post))
        ∙ drop-append (pre ++ mid) post in
      ground (arith, length-append pre (mid ++ post), length-append mid post, head, middle, tail)

  pub rotate_left-append :
      (off keep : List A) → rotate_left (length off) (off ++ keep) ≡ keep ++ off
  rotate_left-append off keep = ap₂ ◌++◌ (drop-append off keep) (take-append off keep)

  pub rotate_right-append :
      (keep off : List A) → rotate_right (length off) (keep ++ off) ≡ off ++ keep
  rotate_right-append keep off =
      let size : length (keep ++ off) - length off ≡ length keep =
        omega (arith, length-append keep off) in
      ap (λ n. rotate_left n (keep ++ off)) size ∙ rotate_left-append keep off

pub blank_rows_lem :
    (off pre rest : List Row) (i : ℕ) (line : Row)
    → length pre ≡ i
    → blank_rows (length off) i line (pre ++ (off ++ rest))
      ≡ some (pre ++ (replicate (length off) line ++ rest))
unfolding blank_rows
blank_rows_lem [] pre rest i line ei = refl
blank_rows_lem (x ∷ off) pre rest i line ei =
    let all = pre ++ x ∷ (off ++ rest) in
    let put : set all i line ≡ pre ++ line ∷ (off ++ rest) =
      ap (λ n. set all n line) (sym ei) ∙ set-middle pre (off ++ rest) x line in
    let again =
      blank_rows_lem off (pre ++ line ∷ []) rest (i + 1) line
        (omega (arith, length-append pre (line ∷ []))) in
    ground (
      arith,
      put,
      length-append pre (x ∷ (off ++ rest)),
      again,
      append_assoc pre (line ∷ []) (off ++ rest),
      append_assoc pre (line ∷ []) (replicate (length off) line ++ rest),
    )

pub length_ne_zero : {A : Type 0} (xs : List A) → xs ≢ [] → (length xs == 0) ≡ false
length_ne_zero [] h = absurd (h refl)
length_ne_zero (x ∷ xs) h = ground arith
