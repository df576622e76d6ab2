-- ===== src/Grid/Scrollback.antt =====
-- src/grid/scrollback.rs: the ring of history rows. `A` is the type of the rows.
use lrmux.Base.{ℕ, zero, suc, ◌+◌, ◌%◌, Option, none, some, ltb, leb, if◌then◌else◌, List, [], ◌∷◌}
use lrmux.Base.{◌++◌, length, get_elem?, set, Bool, ◌==◌}

pub record Scrollback (A : Type 0) : Type 0 where
  pub rows : List A
  pub capacity : ℕ
  pub head : ℕ
  pub len : ℕ

module _ {A : Type 0} where
  unfoldable pub new : ℕ → Scrollback A
  new capacity = record { rows = []; capacity = capacity; head = 0; len = 0 }

  -- `rows[i] = row`; `none` is the panic of an index out of range.
  abbrev pub store : List A → ℕ → A → Option (List A)
  store rows i row = if ltb i (length rows) then some (set rows i row) else none

  unfoldable pub push : Scrollback A → A → Option (Scrollback A)
  push s row =
      if ltb s.len s.capacity
      then (if ltb (length s.rows) s.capacity
          then some (record s {
            rows = s.rows ++ row ∷ [];
            head = (s.head + 1) % s.capacity;
            len = s.len + 1;
          })
          else elim (store s.rows s.head row) [
            | some rows ↦
                some (record s { rows = rows; head = (s.head + 1) % s.capacity; len = s.len + 1 })
            | none ↦ none
          ])
      else elim (store s.rows s.head row) [
        | some rows ↦ some (record s { rows = rows; head = (s.head + 1) % s.capacity })
        | none ↦ none
      ]

  unfoldable pub is_empty : Scrollback A → Bool
  is_empty s = s.len == 0

  -- The row `index`, oldest first, of `get` and of `iter`; `none` is an index out of range.
  abbrev pub row_at : Scrollback A → ℕ → Option A
  row_at s index =
      let start = if ltb s.len s.capacity then 0 else s.head in
      get_elem? s.rows ((start + index) % s.capacity)

  unfoldable pub get : Scrollback A → ℕ → Option (Option A)
  get s index =
      if leb s.len index
      then some none
      else elim (row_at s index) [ some row ↦ some (some row) | none ↦ none ]

  -- The rows `i`, …, `i + n - 1`; `none` is a panic.
  unfoldable pub rows_from : Scrollback A → ℕ → ℕ → Option (List A)
  rows_from s i zero = some []
  rows_from s i (suc n) = elim (row_at s i) [
    | some row ↦ elim (rows_from s (i + 1) n) [ some rows ↦ some (row ∷ rows) | none ↦ none ]
    | none ↦ none
  ]

  unfoldable pub iter : Scrollback A → Option (List A)
  iter s = rows_from s 0 s.len
