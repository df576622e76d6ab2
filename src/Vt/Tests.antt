-- ===== src/Vt/Tests.antt =====
-- Calls of the parser on a small pane.
use lrmux.Base.{◌≡◌, refl, inr, true, arith, some, [], ◌∷◌}
use lrmux.Grid.Cell.{indexed}
use lrmux.Grid.Screen.{new}
use lrmux.Vt.Sgr.{
  reset_pen, sgr_groups, sgr_group, sgr_code, color_args, pull_args, parse_sgr_color,
}
use lrmux.Vt.Handler.{VtHandler}
use lrmux.Vt.Dispatch.{Callback, csi_call, flatten, perform}
use lrmux.Vt.Safe.{IsAllowed}
use lrmux.Vt.Reach.{IsReachable, made, IsReachable-perform}

abbrev pane : VtHandler
pane = record { grid = new 4 10 100; replies = [] }

pane-IsReachable : IsReachable pane
pane-IsReachable = made 4 10 100 (omega arith)

-- `CSI 2 ; 3 r`
abbrev margins : Callback
margins = csi_call ((2 ∷ []) ∷ (3 ∷ []) ∷ []) [] 0x72

margins-IsAllowed : IsAllowed margins pane.grid
unfolding new flatten
margins-IsAllowed = λ e. inr (omega arith)

IsReachable-perform_example : (h' : VtHandler) × (perform margins pane ≡ some h') × IsReachable h'
IsReachable-perform_example = IsReachable-perform pane margins pane-IsReachable margins-IsAllowed

-- `38;5;196;1`: the color takes two groups, and the bold behind them is kept.
bold_red :
    sgr_groups 0 ((38 ∷ []) ∷ (5 ∷ []) ∷ (196 ∷ []) ∷ (1 ∷ []) ∷ []) reset_pen
    ≡ record reset_pen { fg = indexed 196; attrs = record reset_pen.attrs { bold = true } }
unfolding sgr_groups sgr_group sgr_code color_args pull_args parse_sgr_color
bold_red = refl
