-- ===== src/Sessions/State.antt =====
-- The sessions with their windows (src/server/session.rs), and what the event loop
-- (src/server/event_loop.rs) keeps of its clients: what each of them looks at.
use lrmux.Base.{ℕ, suc, ◌-◌, min, Bool, true, false, not, ◌&&◌}
use lrmux.Base.{Option, none, some, List, [], ◌∷◌, ◌++◌, map, length, get_elem?, set, contains}
use lrmux.Base.{ltb, ◌==◌, if◌then◌else◌}
use lrmux.Window.State.{Window}
use lrmux.Window.Operations.{remove_at}

pub record Session (R : Type 0) : Type 0 where
  pub id : ℕ
  pub name : List ℕ
  pub windows : List (Window R)

-- Of a `ClientConn`, what it is and where it looks.
pub record Client : Type 0 where
  pub attach : Bool
  pub is_control : Bool
  pub session_idx : ℕ
  pub active_window : ℕ

-- The variables of the loop that a message changes.
pub record Server (R : Type 0) : Type 0 where
  pub sessions : List (Session R)
  pub clients : List Client
  pub grid_rows : ℕ
  pub grid_cols : ℕ
  pub need_snapshot : List ℕ
  pub need_status_bar_all : Bool

-- The loop goes on, takes the client off its list, or returns.
pub data Step (R : Type 0) : Type 0 where
  served : Server R → Step R
  dropped : Server R → Step R
  closed : Step R

-- `if !need_snapshot.contains(&ci) { need_snapshot.push(ci) }`
abbrev pub add_snapshot : ℕ → List ℕ → List ℕ
add_snapshot ci waiting = if contains waiting ci then waiting else waiting ++ ci ∷ []

-- The loop over the clients that pass a test, from the index `ci` on.
unfoldable pub snapshot_where : (Client → Bool) → ℕ → List Client → List ℕ → List ℕ
snapshot_where test ci [] waiting = waiting
snapshot_where test ci (c ∷ clients) waiting =
    snapshot_where test (suc ci) clients (if test c then add_snapshot ci waiting else waiting)

-- A client whose session, the one at `si`, is removed goes to the first.
abbrev pub after_session : ℕ → Client → Client
after_session si c =
    if c.session_idx == si
    then record c { session_idx = 0; active_window = 0 }
    else if ltb si c.session_idx
    then record c { session_idx = c.session_idx - 1 }
    else c

-- A client whose session loses the window at `wi` and keeps `windows_left`.
abbrev pub after_window : ℕ → ℕ → ℕ → Client → Client
after_window si wi windows_left c =
    if c.session_idx == si
    then (if c.active_window == wi
        then record c { active_window = min wi (windows_left - 1) }
        else if ltb wi c.active_window
        then record c { active_window = c.active_window - 1 }
        else c)
    else c

-- The attached clients are sent to the session at `si`.
abbrev pub sent_to : ℕ → Client → Client
sent_to si c = if c.attach then record c { session_idx = si; active_window = 0 } else c

-- The other attached clients, save those that already wait for a snapshot.
unfoldable pub switch_others : ℕ → ℕ → ℕ → List Client → List ℕ → List Client × List ℕ
switch_others me si ci [] waiting = ([], waiting)
switch_others me si ci (c ∷ clients) waiting =
    let switched = not (ci == me) && c.attach && not (contains waiting ci) in
    let (later, waiting') =
      switch_others me si (suc ci) clients (if switched then waiting ++ ci ∷ [] else waiting) in
    ((if switched then record c { session_idx = si; active_window = 0 } else c) ∷ later, waiting')

module _ {R : Type 0} where
  abbrev pub snapshot_all : Server R → Server R
  snapshot_all s = record s {
    need_snapshot = snapshot_where (λ _. true) 0 s.clients s.need_snapshot;
    need_status_bar_all = true;
  }

  abbrev pub clear_found : Session R → ℕ → Option (Window R) → Session R × Bool
  clear_found x wi none = (x, false)
  clear_found x wi (some w) =
      if w.activity
      then (record x { windows = set x.windows wi (record w { activity = false }) }, true)
      else (x, false)

  unfoldable pub clear_window_activity : Session R → ℕ → Session R × Bool
  clear_window_activity x wi = clear_found x wi (get_elem? x.windows wi)

  unfoldable pub resync_window_viewers : ℕ → ℕ → Server R → Server R
  resync_window_viewers si wi s = record s {
    need_snapshot =
        snapshot_where
          (λ c. c.attach && not c.is_control && c.session_idx == si && c.active_window == wi) 0
          s.clients s.need_snapshot;
  }

  -- `sessions.remove(si)`, with the end of the server if no session is left.
  unfoldable pub remove_session : ℕ → Server R → Step R
  remove_session si s =
      let left = remove_at si s.sessions in
      if length left == 0
      then closed
      else served
          (snapshot_all (record s { sessions = left; clients = map (after_session si) s.clients }))

  -- `windows.remove(wi)` of a session that has another window.
  unfoldable pub remove_window : ℕ → ℕ → Session R → Server R → Server R
  remove_window si wi x s =
      let left = remove_at wi x.windows in
      snapshot_all (record s {
        sessions = set s.sessions si (record x { windows = left });
        clients = map (after_window si wi (length left)) s.clients;
      })

-- The clients on the list are taken off, the last on the list first.
unfoldable pub remove_clients : {A : Type 0} → List ℕ → List A → List A
remove_clients [] clients = clients
remove_clients (idx ∷ to_remove) clients =
    let left = remove_clients to_remove clients in
    if ltb idx (length left) then remove_at idx left else left
