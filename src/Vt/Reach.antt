-- ===== src/Vt/Reach.antt =====
-- The life of a pane's grid (src/server/pane.rs and src/vt/mod.rs): it is made, and then the output of the
-- child and the changes of its size go through it in any order.
use lrmux.Base.{subst, ℕ, ◌<◌, ◌≡◌, sym, [], some, ◌∙◌}
use lrmux.Grid.Screen.{Grid, new}
use lrmux.Grid.Line.{resize}
use lrmux.Grid.Valid.{IsValid}
use lrmux.Grid.Cursor.{new-IsValid}
use lrmux.Grid.Resize.{resize-IsSafe}
use lrmux.Vt.Handler.{VtHandler}
use lrmux.Vt.Dispatch.{Callback, perform}
use lrmux.Vt.Safe.{IsAllowed, perform-IsSafe}

-- The grids that a pane can have, with the replies of the parser.
pub data IsReachable : VtHandler → Type 0 where
  made :
      (rows cols capacity : ℕ)
      → 0 < capacity
      → IsReachable (record { grid = new rows cols capacity; replies = [] })
  called :
      (h h' : VtHandler) (call : Callback)
      → IsReachable h
      → IsAllowed call h.grid
      → perform call h ≡ some h'
      → IsReachable h'
  resized :
      (h : VtHandler) (g : Grid) (rows cols : ℕ)
      → IsReachable h
      → 0 < rows
      → 0 < cols
      → resize rows cols h.grid ≡ some g
      → IsReachable (record h { grid = g })

some_injective : {A : Type 0} {a b : A} → some a ≡ some b → a ≡ b
some_injective e = cc

-- Whatever the output of the child and the changes of size were, the grid is well formed.
pub IsReachable-IsValid : (h : VtHandler) → IsReachable h → IsValid h.grid
IsReachable-IsValid _ (made rows cols capacity room) = new-IsValid rows cols capacity room
IsReachable-IsValid _ (called h h' call r ok e) =
    let (h1, run, v) = perform-IsSafe call h (IsReachable-IsValid h r) ok in
    subst (λ k. IsValid k.grid) (some_injective (sym run ∙ e)) v
IsReachable-IsValid _ (resized h g rows cols r hr hc e) =
    let (g1, run, v) = resize-IsSafe rows cols h.grid hr hc (IsReachable-IsValid h r) in
    subst IsValid (some_injective (sym run ∙ e)) v

-- A pane whose history has room for a row, whose margins were always reset or set with their first
-- row on the screen, and whose size was never zero, takes every further call of the parser of that
-- kind without a panic, and is such a pane again.
pub IsReachable-perform :
    (h : VtHandler) (call : Callback)
    → IsReachable h
    → IsAllowed call h.grid
    → (h' : VtHandler) × (perform call h ≡ some h') × IsReachable h'
IsReachable-perform h call r ok =
    let (h', run, v) = perform-IsSafe call h (IsReachable-IsValid h r) ok in
    (h', run, called h h' call r ok run)

-- A pane whose history has room for a row, whose margins were always reset or set with their first
-- row on the screen, and whose size was never zero, takes every change of its size to one that is
-- not zero without a panic, and is such a pane again.
pub IsReachable-resize :
    (h : VtHandler) (rows cols : ℕ)
    → IsReachable h
    → 0 < rows
    → 0 < cols
    → (g : Grid) × (resize rows cols h.grid ≡ some g) × IsReachable (record h { grid = g })
IsReachable-resize h rows cols r hr hc =
    let (g, run, v) = resize-IsSafe rows cols h.grid hr hc (IsReachable-IsValid h r) in
    (g, run, resized h g rows cols r hr hc run)
