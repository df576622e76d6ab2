-- ===== src/Grid/Tests.antt =====
-- The history and the scrolling of src/grid on small grids.
use lrmux.Base.{ℕ, false, true, ◌≡◌, refl, arith, none, some, [], ◌∷◌, ◌++◌, replicate, get_elem?}
use lrmux.Grid.Cell.{blank}
use lrmux.Grid.Scrollback
use lrmux.Grid.Scrollback.{Scrollback}
use lrmux.Grid.History
use lrmux.Grid.History.{contents, remember}
use lrmux.Grid.Lines.{insert_lines_lem, delete_lines_lem}
use lrmux.Grid.Screen.{insert_lines, delete_lines}
use lrmux.Grid.Screen.{Row, Grid, blank_row, mark_range, scroll_up, scroll_down, set_scroll_region}
use lrmux.Grid.Valid.{IsValid}
use lrmux.Grid.Margins.{set_scroll_region_past}
use lrmux.Grid.Scroll.{Kept, scroll_up_lem, scroll_down_lem}
use lrmux.Base.{IsU8, inr}
use lrmux.Grid.Dirty.{mouse_flags, set_mouse_flags, set_mouse_flags-mouse_flags}

-- A history of two rows that has forgotten row 7.
abbrev two : Scrollback ℕ
two = record { rows = 9 ∷ 8 ∷ []; head = 1; len = 2; capacity = 2 }

two-IsValid : History.IsValid two
two-IsValid = record {
  some_room = omega arith;
  counted = refl;
  bounded = omega arith;
  head_in = omega arith;
  growing = λ h. absurd (omega arith);
}

push-remember_example :
    (s' : Scrollback ℕ) × (Scrollback.push two 10 ≡ some s')
    × History.IsValid s'
    × (s'.capacity ≡ 2)
    × (contents s' ≡ remember 2 (contents two) 10)
push-remember_example = History.push-remember two 10 two-IsValid

get-contents_example :
    (Scrollback.get two 1 ≡ some (get_elem? (contents two) 1))
    × (Scrollback.iter two ≡ some (contents two))
get-contents_example = History.get-contents two 1 two-IsValid

abbrev letter : ℕ → Row
letter c = record blank { ch = c } ∷ []

-- Rows a, b, c and d of one column, with the region from row 1 to row 3.
abbrev screen : Grid
screen = record {
  rows = letter 97 ∷ letter 98 ∷ letter 99 ∷ letter 100 ∷ [];
  cols = 1;
  row_count = 4;
  cursor_row = 2;
  cursor_col = 0;
  cursor_visible = true;
  fg = blank.fg;
  bg = blank.bg;
  attrs = blank.attrs;
  scrollback = record { rows = []; head = 0; len = 0; capacity = 2 };
  pending_scrollback = [];
  scroll_top = 1;
  scroll_bottom = 4;
  wrap_pending = false;
  auto_wrap = true;
  saved_cursor = none;
  app_cursor_keys = false;
  mouse_tracking = 0;
  mouse_fmt = 0;
  mouse_altscroll = false;
  dirty = false ∷ false ∷ false ∷ false ∷ [];
}

screen-history : History.IsValid screen.scrollback
unfolding Scrollback.new
screen-history = (History.new-IsValid 2 (omega arith)).0

scroll_up_lem_example :
    let rows' =
      letter 97 ∷ []
      ++ ((letter 99 ∷ letter 100 ∷ [] ++ replicate 1 (blank_row screen.cols)) ++ []) in
    (h : Scrollback Row) × (scroll_up 1 screen
      ≡ some (
          mark_range screen.scroll_top screen.scroll_bottom (record screen {
            rows = rows';
            scrollback = h;
            pending_scrollback = screen.pending_scrollback ++ letter 98 ∷ [];
          })))
    × Kept screen h (letter 98 ∷ [])
scroll_up_lem_example =
    scroll_up_lem 1 screen (letter 97 ∷ []) (letter 98 ∷ []) (letter 99 ∷ letter 100 ∷ []) []
      screen-history (refl, refl, refl) refl (ground arith)

scroll_down_lem_example :
    scroll_down 2 screen
    ≡ some (
        mark_range screen.scroll_top screen.scroll_bottom (record screen {
          rows = letter 97 ∷ [] ++ ((replicate 2 (blank_row screen.cols) ++ letter 98 ∷ []) ++ []);
        }))
scroll_down_lem_example =
    scroll_down_lem 2 screen (letter 97 ∷ []) (letter 98 ∷ []) (letter 99 ∷ letter 100 ∷ []) []
      (refl, refl, refl) refl (ground arith)

screen-IsValid : IsValid screen
screen-IsValid = (
  record {
    screen = (refl, (refl, (refl, (refl, (refl, tt)))));
    size = (omega arith, omega arith);
    region = (omega arith, omega arith);
    history = screen-history;
    marks = refl;
  },
  omega arith,
  omega arith,
)

-- Margins from row 100 on, on a screen of four rows.
set_scroll_region_past_example :
    (scroll_up 1 (set_scroll_region 99 200 screen) ≡ none)
    × (scroll_down 1 (set_scroll_region 99 200 screen) ≡ none)
set_scroll_region_past_example =
    set_scroll_region_past 99 200 1 screen refl (omega arith) (omega arith)

insert_lines_lem_example :
    insert_lines 1 screen
    ≡ some (
        mark_range screen.cursor_row screen.scroll_bottom (record screen {
          rows =
              (letter 97 ∷ letter 98 ∷ [])
              ++ ((replicate 1 (blank_row screen.cols) ++ letter 99 ∷ []) ++ []);
        }))
insert_lines_lem_example =
    insert_lines_lem 1 screen (letter 97 ∷ letter 98 ∷ []) (letter 99 ∷ []) (letter 100 ∷ []) []
      (refl, refl, refl, omega arith) refl (ground arith)

delete_lines_lem_example :
    delete_lines 1 screen
    ≡ some (
        mark_range screen.cursor_row screen.scroll_bottom (record screen {
          rows =
              (letter 97 ∷ letter 98 ∷ [])
              ++ ((letter 100 ∷ [] ++ replicate 1 (blank_row screen.cols)) ++ []);
        }))
delete_lines_lem_example =
    delete_lines_lem 1 screen (letter 97 ∷ letter 98 ∷ []) (letter 99 ∷ []) (letter 100 ∷ []) []
      (refl, refl, refl, omega arith) refl (ground arith)

-- The screen with two rows drawn, and a child that asks for the mouse.
abbrev touched : Grid
touched = record screen {
  dirty = false ∷ true ∷ false ∷ true ∷ [];
  mouse_tracking = 5;
  mouse_fmt = 6;
  app_cursor_keys = true;
}

set_mouse_flags-mouse_flags_example :
    IsU8 (mouse_flags touched)
    × (set_mouse_flags (mouse_flags touched) screen ≡ record screen {
      mouse_tracking = 5;
      mouse_fmt = 6;
      mouse_altscroll = false;
      app_cursor_keys = true;
    })
set_mouse_flags-mouse_flags_example =
    set_mouse_flags-mouse_flags touched screen (omega arith) (inr (inr refl))
