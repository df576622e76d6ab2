-- ===== src/Grid/History.antt =====
-- The ring of src/grid/scrollback.rs against the list of the rows that it stands for.
use lrmux.Base.{ℕ, zero, suc, ◌+◌, ◌-◌, ◌⊎◌, ◌%◌, ◌<◌, ◌≤◌, ◌≡◌, refl, ap, ◌∙◌, arith, some}
use lrmux.Base.{ltb, if◌then◌else◌, List, [], ◌∷◌, ◌++◌, length, get_elem?, set, drop, append-nil}
use lrmux.Base.{length-append, length-set, Bool-cases, ltb→lt, lt→ltb, le→ltb, sym, inl, inr}
use native.Mathlib.Decide.{dec_lt}
use native.Mathlib.Nat.{mod-eq_of_lt, mod-eq-sub-mod, zero-add}
use lrmux.Grid.Slice.{
  get_elem?-some, get_elem?-none, drop-get_elem?, length-rotate_left, rotate_left_all, rotate_left,
  get_elem?-rotate_left, rotate_left-set, drop_all,
}
use lrmux.Grid.Scrollback.{Scrollback, new, push, get, row_at, rows_from, iter}

next_head :
    (h c : ℕ) → h < c → ((h + 1) % c ≡ h + 1) × (h + 1 < c) ⊎ ((h + 1) % c ≡ 0) × (h + 1 ≡ c)
next_head h c lt = elim (dec_lt (h + 1) c) [
  | yes p ↦ inl (mod-eq_of_lt p, p)
  | no p ↦ inr (
    omega (
      arith,
      mod-eq-sub-mod {n = h + 1} {m = c} (omega arith),
      mod-eq_of_lt {n = h + 1 - c} {m = c} (omega arith),
    ),
    omega arith,
  )
]

module _ {A : Type 0} where
  pub record IsValid (s : Scrollback A) : Type 0 where
    pub some_room : 0 < s.capacity
    pub counted : length s.rows ≡ s.len
    pub bounded : s.len ≤ s.capacity
    pub head_in : s.head < s.capacity
    pub growing : s.len < s.capacity → s.head ≡ s.len

  -- The rows that the ring holds, oldest first.
  abbrev pub contents : Scrollback A → List A
  contents s = if ltb s.len s.capacity then s.rows else rotate_left s.head s.rows

  -- What a history of at most `capacity` rows becomes when a row is pushed.
  abbrev pub remember : ℕ → List A → A → List A
  remember capacity rows row =
      if ltb (length rows) capacity then rows ++ row ∷ [] else drop 1 rows ++ row ∷ []

  pub new-IsValid :
      (capacity : ℕ) → 0 < capacity → IsValid (new capacity) × (contents (new capacity) ≡ [])
  unfolding new
  new-IsValid capacity h = (ground arith, ground arith)

  pub length-contents : (s : Scrollback A) → IsValid s → length (contents s) ≡ s.len
  length-contents s v = ground (arith, length-rotate_left s.head s.rows)

  -- The ring after a push into free room, and after one that overwrites the oldest row.
  abbrev grown : Scrollback A → A → Scrollback A
  grown s row = record s {
    rows = s.rows ++ row ∷ [];
    head = (s.head + 1) % s.capacity;
    len = s.len + 1;
  }

  abbrev overwritten : Scrollback A → A → Scrollback A
  overwritten s row = record s { rows = set s.rows s.head row; head = (s.head + 1) % s.capacity }

  grown-contents :
      (s : Scrollback A) (row : A)
      → IsValid s
      → s.len < s.capacity
      → contents (grown s row) ≡ remember s.capacity (contents s) row
  grown-contents s row v room = elim (next_head s.head s.capacity v.head_in) [
    | inl (e, p) ↦ ground (arith)
    | inr (e, p) ↦ rw e (ground (arith, append-nil (s.rows ++ row ∷ [])))
  ]

  overwritten-contents :
      (s : Scrollback A) (row : A)
      → IsValid s
      → s.len ≡ s.capacity
      → contents (overwritten s row) ≡ remember s.capacity (contents s) row
  overwritten-contents s row v full =
      let size : length s.rows ≡ s.capacity = omega (arith, v.counted) in
      let size' = length-set s.rows s.head row in
      let moved = rotate_left-set s.head s.rows row (omega arith) in
      let held = length-contents s v in
      elim (next_head s.head s.capacity v.head_in) [
        | inl (e, p) ↦ rw e (ground (arith, moved))
        | inr (e, p) ↦ ground (arith, moved, rotate_left_all (set s.rows s.head row))
      ]

  -- On a valid ring `push` does not panic, keeps the ring valid, and the rows that it holds are those of
  -- before with the new one behind them, less the oldest if the ring was full.
  pub push-remember :
      (s : Scrollback A) (row : A)
      → IsValid s
      → (s' : Scrollback A) × (push s row ≡ some s')
        × IsValid s'
        × (s'.capacity ≡ s.capacity)
        × (contents s' ≡ remember s.capacity (contents s) row)
  unfolding push
  push-remember s row v = elim (Bool-cases (ltb s.len s.capacity)) [
    | inl room ↦
        let longer = length-append s.rows (row ∷ []) in
        (
          grown s row,
          ground arith,
          record {
            some_room = v.some_room;
            counted = ground (arith, longer);
            bounded = ground arith;
            head_in = omega arith;
            growing = λ more. ground (arith, next_head s.head s.capacity v.head_in);
          },
          refl,
          grown-contents s row v (ltb→lt s.len s.capacity room),
        )
    | inr full ↦ (
      overwritten s row,
      ground arith,
      record {
        some_room = v.some_room;
        counted = ground (arith, length-set s.rows s.head row);
        bounded = v.bounded;
        head_in = omega arith;
        growing = λ more. ground arith;
      },
      refl,
      overwritten-contents s row v (ground arith),
    )
  ]

  row_at-contents :
      (s : Scrollback A) (i : ℕ) → IsValid s → i < s.len → row_at s i ≡ get_elem? (contents s) i
  row_at-contents s i v h = elim (dec_lt s.len s.capacity) [
    | yes room ↦
        let index : i % s.capacity ≡ i = mod-eq_of_lt (omega arith) in
        rw (lt→ltb s.len s.capacity room)
          (ap (get_elem? s.rows) (ap (λ (t : ℕ). t % s.capacity) (zero-add i) ∙ index))
    | no full ↦
        let size : length s.rows ≡ s.capacity = omega (arith, v.counted, v.bounded) in
        rw (le→ltb s.len s.capacity (omega arith), ← size)
          (sym (
            get_elem?-rotate_left s.head s.rows i (omega (arith, v.head_in))
              (omega (arith, v.counted))))
  ]

  rows_from-contents :
      (s : Scrollback A) (n i : ℕ)
      → IsValid s
      → i + n ≡ s.len
      → rows_from s i n ≡ some (drop i (contents s))
  unfolding rows_from
  rows_from-contents s zero i v e =
      let held = length-contents s v in ap some (sym (drop_all i (contents s) (omega arith)))
  rows_from-contents s (suc n) i v e =
      let held = length-contents s v in
      let (row, found) = get_elem?-some (contents s) i (omega arith) in
      ground (
        arith,
        row_at-contents s i v (omega arith),
        found,
        rows_from-contents s n (i + 1) v (omega arith),
        drop-get_elem? (contents s) i row found,
      )

  -- On a valid ring reading does not panic: `get` finds the rows held by their age, the oldest at index 0,
  -- and nothing from `len` on, and `iter` gives all the rows held, oldest first.
  pub get-contents :
      (s : Scrollback A) (i : ℕ)
      → IsValid s
      → (get s i ≡ some (get_elem? (contents s) i)) × (iter s ≡ some (contents s))
  unfolding get iter
  get-contents s i v = (
    elim (dec_lt i s.len) [
      | yes h ↦
          let (row, found) = get_elem?-some (contents s) i (omega (arith, length-contents s v)) in
          ground (arith, row_at-contents s i v h, found)
      | no h ↦ ground (arith, get_elem?-none (contents s) i (omega (arith, length-contents s v)))
    ],
    rows_from-contents s s.len 0 v (omega arith),
  )
