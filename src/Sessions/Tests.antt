-- ===== src/Sessions/Tests.antt =====
-- A small server of src/server/event_loop.rs: two sessions with a window each, and three clients.
use lrmux.Base.{
  ℕ, ◌*◌, ◌/◌, ◌+◌, ◌≡◌, false, true, refl, inl, arith, some, [], ◌∷◌, ◌++◌, ltb, if◌then◌else◌,
  get_elem?, ◌&&◌, ◌||◌, ◌==◌, not, contains,
}
use lrmux.Float.{Float}
use lrmux.Layout.Tree.{leaf, pane_ids, collect_ids}
use lrmux.Window.State.{Window}
use lrmux.Window.Invariant.{IsWindow}
use lrmux.Sessions.State.{Session, Client, Server, served, remove_clients}
use lrmux.Sessions.Requests.{new_session}
use lrmux.Sessions.Switch.{switched, new_session-clients}
use lrmux.Sessions.Placed.{ServerIsPlaced}
use lrmux.Sessions.Run.{kill_pane, handle}
use lrmux.Sessions.Windows.{child_exit}
use lrmux.Sessions.Preserve.{Serves}
use lrmux.Sessions.Safe.{handle-Serves, child_exit-Serves}
use lrmux.Sessions.Remove.{others, remove_clients-others, remove_clients-swapped}

abbrev hundredths : Float ℕ
hundredths = record {
  of_int = λ n. n * 100;
  mul = λ a b. a * b / 100;
  div = λ a b. a * 100 / b;
  sqrt = λ a. a;
  clamp = λ a low high. if ltb a low then low else if ltb high a then high else a;
  round_u16 = λ a. (a + 50) / 100;
  ceil_usize = λ a. (a + 99) / 100;
}

abbrev window : ℕ → Window ℕ
window id = record {
  id = id;
  panes = record { id = id; rows = 24; cols = 80 } ∷ [];
  active_pane = 0;
  layout = record { root = leaf id };
  rows = 24;
  cols = 80;
  name = [];
  activity = false;
  remain_on_exit = false;
  name_locked = false;
  zoomed = false;
  layout_kind = 0;
}

window-IsWindow : (id : ℕ) → IsWindow (window id)
unfolding pane_ids collect_ids
window-IsWindow id = ((refl, tt), (refl, tt), (λ a. refl), omega arith, inl refl)

abbrev client : ℕ → Client
client si = record { attach = true; is_control = false; session_idx = si; active_window = 0 }

abbrev server : Server ℕ
server = record {
  sessions =
      record { id = 1; name = 97 ∷ []; windows = window 1 ∷ [] }
      ∷ record { id = 2; name = 98 ∷ []; windows = window 2 ∷ [] }
      ∷ [];
  clients = client 1 ∷ client 0 ∷ client 1 ∷ [];
  grid_rows = 24;
  grid_cols = 80;
  need_snapshot = [];
  need_status_bar_all = false;
}

abbrev third : Session ℕ
third = record { id = 3; name = 99 ∷ []; windows = window 3 ∷ [] }

server-IsPlaced : ServerIsPlaced server
server-IsPlaced = record {
  sound = ((omega arith, (window-IsWindow 1, tt)), ((omega arith, (window-IsWindow 2, tt)), tt));
  placed = ((1, refl, omega arith), ((1, refl, omega arith), ((1, refl, omega arith), tt)));
}

-- The last pane of the second session is killed.
handle-Serves_example : Serves (handle hundredths 0 kill_pane server)
handle-Serves_example = handle-Serves hundredths 0 kill_pane server server-IsPlaced (omega arith) tt

child_exit-Serves_example : Serves (child_exit hundredths true 1 0 0 server)
child_exit-Serves_example = child_exit-Serves hundredths true 1 0 0 server server-IsPlaced

remove_clients-others_example :
    remove_clients (0 ∷ 2 ∷ []) server.clients ≡ others (0 ∷ 2 ∷ []) 0 server.clients
remove_clients-others_example =
    remove_clients-others (0 ∷ 2 ∷ []) server.clients ((omega arith, tt), (tt, tt))

-- The third client is to leave with the first two, is noted before them, and stays.
remove_clients-swapped_example :
    remove_clients (2 ∷ 0 ∷ 1 ∷ []) server.clients ≡ others (0 ∷ 1 ∷ 4 ∷ []) 0 server.clients
remove_clients-swapped_example =
    remove_clients-swapped 2 (0 ∷ 1 ∷ []) server.clients ((omega arith, tt), (tt, tt))
      (omega arith, (omega arith, tt))

-- The third client waits for a snapshot when the first makes a session.
abbrev busy : Server ℕ
busy = record server { need_snapshot = 2 ∷ [] }

new_session-clients_example :
    (s' : Server ℕ) × (new_session 0 third busy ≡ some (served s'))
    × (s'.sessions ≡ busy.sessions ++ third ∷ [])
    × (get_elem? s'.clients 2
        ≡ some (
            if true && (2 == 0 || not (contains busy.need_snapshot 2))
            then switched 2 (client 1)
            else client 1))
new_session-clients_example = new_session-clients 0 2 third busy (client 1) (client 1) refl refl
