-- ===== src/Sessions/Run.antt =====
-- The messages that change what the server keeps of its sessions and clients (src/server/event_loop.rs),
-- as data, and the handler of each. What is started outside, a window or a pane, is an argument.
use lrmux.Base.{ℕ, false, ◌≡◌, Option, some, ◌>>=◌, List, All, contains, get_elem?}
use lrmux.Float.{Float}
use lrmux.Layout.Tree.{pane_ids}
use lrmux.Window.State.{Window}
use lrmux.Window.Invariant.{IsWindow}
use lrmux.Sessions.State.{Session, Server, Step, dropped}
use lrmux.Sessions.Requests
use lrmux.Sessions.Windows
use lrmux.Sessions.Placed.{IsSession}

pub data Request (R : Type 0) : Type 0 where
  resize : ℕ → ℕ → Request R
  refresh detach : Request R
  new_window : Window R → Request R
  next_window prev_window : Request R
  select_window : ℕ → Request R
  kill_pane : Request R
  new_session : Session R → Request R
  next_session prev_session : Request R
  select_session : List ℕ → Request R
  kill_session : Request R
  rename_session : List ℕ → Request R
  split_pane : ℕ → ℕ → Request R
  focus_next focus_prev : Request R
  focus_dir : ℕ → Request R
  toggle_zoom next_layout : Request R
  focus_pane : ℕ → Request R
  identify_control : Request R

module _ {R : Type 0} (f : Float R) where
  unfoldable pub handle : ℕ → Request R → Server R → Option (Step R)
  handle ci (resize rows cols) s = Windows.resize_view f ci rows cols s
  handle ci refresh s = Requests.refresh ci s
  handle ci detach s = get_elem? s.clients ci >>= (λ c. some (dropped s))
  handle ci (new_window started) s = Requests.new_window ci started s
  handle ci next_window s = Requests.next_window ci s
  handle ci prev_window s = Requests.prev_window ci s
  handle ci (select_window index) s = Requests.select_window ci index s
  handle ci kill_pane s = Windows.kill_pane f ci s
  handle ci (new_session made) s = Requests.new_session ci made s
  handle ci next_session s = Requests.next_session ci s
  handle ci prev_session s = Requests.prev_session ci s
  handle ci (select_session name) s = Requests.select_session ci name s
  handle ci kill_session s = Requests.kill_session ci s
  handle ci (rename_session name) s = Requests.rename_session ci name s
  handle ci (split_pane dir new_id) s = Windows.split_window f ci dir new_id s
  handle ci focus_next s = Windows.focus_next_pane f ci s
  handle ci focus_prev s = Windows.focus_prev_pane f ci s
  handle ci (focus_dir dir) s = Windows.focus_dir_pane f ci dir s
  handle ci toggle_zoom s = Windows.zoom_window f ci s
  handle ci next_layout s = Windows.cycle_layout f ci s
  handle ci (focus_pane pane_id) s = Windows.focus_pane_of f ci pane_id s
  handle ci identify_control s = Requests.identify_control ci s

-- What is started outside is well formed, and the id of a new pane is not in use.
abbrev pub IsAdmissible : {R : Type 0} → Request R → Server R → Type 0
IsAdmissible (new_window started) s = IsWindow started
IsAdmissible (new_session made) s = IsSession made
IsAdmissible (split_pane dir new_id) s =
    All (λ x. All (λ w. contains (pane_ids w.layout) new_id ≡ false) x.windows) s.sessions
IsAdmissible req s = Unit
