-- ===== src/Window/Tests.antt =====
-- Windows of src/server/window.rs, with the ratios in hundredths.
use lrmux.Base.{
  ℕ, ◌+◌, ◌*◌, ◌/◌, ◌≡◌, false, true, refl, inr, arith, some, none, [], ◌∷◌, ltb, if◌then◌else◌,
}
use lrmux.Float.{Float}
use lrmux.Layout.Tree.{horizontal, vertical, leaf, split, pane_ids, collect_ids, single}
use lrmux.Window.State.{Pane, Window, from_pane, pane, focus_next, focus_prev}
use lrmux.Window.Invariant.{IsWindow}
use lrmux.Window.Focus.{focus_prev-focus_next}
use lrmux.Window.Run.{split_off, run}
use lrmux.Window.Safe.{IsReachable, start, IsReachable-run}
use mathlib.Core.List.Memᴰ.{head, tail}
use lrmux.Base.{inl}
use lrmux.Layout.Geometry.{reflow, reflow_node, split_rect}
use lrmux.Window.State.{reflow_panes}
use lrmux.Window.Sized.{HasSize, reflow_panes-HasSize}
use lrmux.Base.{contains}
use lrmux.Window.Operations.{remove_pane, pane_removed}
use lrmux.Window.Kept.{remove_pane-active}

abbrev hundredths : Float ℕ
hundredths = record {
  of_int = λ n. n * 100;
  mul = λ a b. a * b / 100;
  div = λ a b. a * 100 / b;
  sqrt = λ a. a;
  clamp = λ a low high. if ltb a low then low else if ltb high a then high else a;
  round_u16 = λ a. (a + 50) / 100;
  ceil_usize = λ a. (a + 99) / 100;
}

abbrev pane_of : ℕ → Pane
pane_of id = record { id = id; rows = 24; cols = 80 }

abbrev one_pane : Window ℕ
one_pane = from_pane 1 (pane_of 1) 24 80 []

-- Panes 1 and 2, which were listed the other way round, the second zoomed.
abbrev two_panes : Window ℕ
two_panes = record {
  id = 1;
  panes = pane_of 2 ∷ pane_of 1 ∷ [];
  active_pane = 0;
  layout = record { root = split horizontal 50 (leaf 1) (leaf 2) };
  rows = 24;
  cols = 80;
  name = [];
  activity = false;
  remain_on_exit = false;
  name_locked = false;
  zoomed = true;
  layout_kind = 0;
}

two_panes-IsWindow : IsWindow two_panes
unfolding pane_ids collect_ids
two_panes-IsWindow =
    ((refl, (refl, tt)), (refl, (refl, tt)), (λ a. ground arith), omega arith, inr (omega arith))

IsReachable-run_example :
    (w' : Window ℕ) × (run hundredths (split_off vertical none 2) one_pane ≡ some w')
    × IsReachable hundredths w'
    × IsWindow w'
unfolding from_pane single pane_ids collect_ids
IsReachable-run_example =
    IsReachable-run hundredths (split_off vertical none 2) one_pane (start 1 (pane_of 1) 24 80 [])
      refl

focus_prev-focus_next_example :
    (p : Pane) × (w' : Window ℕ) × (w'' : Window ℕ) × (q : Pane) × (next : ℕ) × (pane two_panes
      ≡ some p)
    × (focus_next two_panes ≡ some (w', next))
    × (focus_prev w' ≡ some (w'', p.id))
    × (pane w'' ≡ some q)
    × (q.id ≡ p.id)
focus_prev-focus_next_example = focus_prev-focus_next two_panes two_panes-IsWindow

abbrev side_by_side : Window ℕ
side_by_side = record two_panes { zoomed = false }

reflow_panes-HasSize_example :
    (w' : Window ℕ) × (reflow_panes hundredths side_by_side ≡ some w')
    × HasSize 2 (record { x = 41; y = 0; cols = 39; rows = 24 }) w'.panes
unfolding reflow reflow_node split_rect pane_ids collect_ids
reflow_panes-HasSize_example =
    reflow_panes-HasSize hundredths side_by_side 2 (record { x = 41; y = 0; cols = 39; rows = 24 })
      ((refl, (refl, tt)), (refl, (refl, tt)), (λ a. ground arith), omega arith, inl refl) refl
      (tail (head refl))

remove_pane-active_example :
    (w' : Window ℕ) × (q : Pane) × (remove_pane hundredths two_panes 1
      ≡ some (w', some pane_removed))
    × (contains (pane_ids w'.layout) 1 ≡ false)
    × (pane w' ≡ some q)
    × (q.id ≡ 2)
remove_pane-active_example =
    remove_pane-active hundredths two_panes 1 (pane_of 2) two_panes-IsWindow refl refl (omega arith)
