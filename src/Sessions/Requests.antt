-- ===== src/Sessions/Requests.antt =====
-- The messages that move a client between windows and sessions (src/server/event_loop.rs). `none` is
-- a panic: an index out of range.
use lrmux.Base.{ℕ, suc, ◌+◌, ◌-◌, ◌%◌, Bool, true, false, ◌||◌}
use lrmux.Base.{Option, none, some, ◌>>=◌, List, [], ◌∷◌, ◌++◌, map, length, get_elem?, set}
use lrmux.Base.{ltb, ◌==◌, if◌then◌else◌, ◌&&◌}
use lrmux.Window.State.{Window}
use lrmux.Sessions.State.{
  Session, Client, Server, Step, served, add_snapshot, snapshot_where, sent_to, switch_others,
  clear_window_activity, remove_session,
}

-- `s.name == name`
unfoldable pub same_name : List ℕ → List ℕ → Bool
same_name [] [] = true
same_name (a ∷ s) (b ∷ t) = a == b && same_name s t
same_name _ _ = false

module _ {R : Type 0} where
  unfoldable pub find_name : List ℕ → List (Session R) → Option ℕ
  find_name name [] = none
  find_name name (x ∷ sessions) =
      let later = find_name name sessions in
      if same_name x.name name then some 0 else later >>= (λ i. some (suc i))

  -- With the client's session, or nothing happens if there is none.
  abbrev pub with_session : Server R → (Session R → Step R) → Option (Session R) → Step R
  with_session s handle none = served s
  with_session s handle (some x) = handle x

  -- The end of `NextWindow`, `PrevWindow` and `SelectWindow`.
  unfoldable pub view_window : ℕ → Client → Session R → ℕ → Server R → Server R
  view_window ci c x wi s =
      let (x', cleared) = clear_window_activity x wi in
      record s {
        sessions = set s.sessions c.session_idx x';
        clients = set s.clients ci (record c { active_window = wi });
        need_snapshot = add_snapshot ci s.need_snapshot;
        need_status_bar_all = s.need_status_bar_all || cleared;
      }

  -- `clients[client_idx]`
  abbrev pub as_client : ℕ → Server R → (Client → Step R) → Option (Step R)
  as_client ci s handle = get_elem? s.clients ci >>= (λ c. some (handle c))

  unfoldable pub next_window : ℕ → Server R → Option (Step R)
  next_window ci s = as_client ci s λ c.
      with_session s
        (λ x.
          if length x.windows == 0
          then served s
          else served (view_window ci c x ((c.active_window + 1) % length x.windows) s))
        (get_elem? s.sessions c.session_idx)

  unfoldable pub prev_window : ℕ → Server R → Option (Step R)
  prev_window ci s = as_client ci s λ c.
      with_session s
        (λ x.
          if length x.windows == 0
          then served s
          else served (
              view_window ci c x
                (if c.active_window == 0 then length x.windows - 1 else c.active_window - 1) s))
        (get_elem? s.sessions c.session_idx)

  unfoldable pub select_window : ℕ → ℕ → Server R → Option (Step R)
  select_window ci index s = as_client ci s λ c.
      with_session s
        (λ x.
          if ltb index (length x.windows) then served (view_window ci c x index s) else served s)
        (get_elem? s.sessions c.session_idx)

  -- The client goes to the first window of the session at `si`.
  unfoldable pub visit : ℕ → Client → ℕ → Server R → Option (Step R)
  visit ci c si s = get_elem? s.sessions si >>= (λ x. some (
      served (record s {
        sessions = set s.sessions si (clear_window_activity x 0).0;
        clients = set s.clients ci (record c { session_idx = si; active_window = 0 });
        need_snapshot = add_snapshot ci s.need_snapshot;
        need_status_bar_all = true;
      })))

  unfoldable pub next_session : ℕ → Server R → Option (Step R)
  next_session ci s = do
    c ← get_elem? s.clients ci
    let len = length s.sessions
    if ltb 1 len then visit ci c ((c.session_idx + 1) % len) s else some (served s)

  unfoldable pub prev_session : ℕ → Server R → Option (Step R)
  prev_session ci s = do
    c ← get_elem? s.clients ci
    let len = length s.sessions
    let si = if c.session_idx == 0 then len - 1 else c.session_idx - 1
    if ltb 1 len then visit ci c si s else some (served s)

  -- `SelectSession`, with the session of that name: a client that is not attached sends all that are.
  abbrev pub select_found : ℕ → Client → Server R → Option ℕ → Option (Step R)
  select_found ci c s none = some (served s)
  select_found ci c s (some si) =
      if c.attach
      then visit ci c si s
      else get_elem? s.sessions si >>= (λ x. some (
          served (record s {
            sessions = set s.sessions si (clear_window_activity x 0).0;
            clients = map (sent_to si) s.clients;
            need_snapshot = snapshot_where (λ d. d.attach) 0 s.clients s.need_snapshot;
            need_status_bar_all = true;
          })))

  unfoldable pub select_session : ℕ → List ℕ → Server R → Option (Step R)
  select_session ci name s =
      get_elem? s.clients ci >>= (λ c. select_found ci c s (find_name name s.sessions))

  unfoldable pub kill_session : ℕ → Server R → Option (Step R)
  kill_session ci s =
      as_client ci s λ c.
        with_session s (λ x. remove_session c.session_idx s) (get_elem? s.sessions c.session_idx)

  unfoldable pub rename_session : ℕ → List ℕ → Server R → Option (Step R)
  rename_session ci name s = as_client ci s λ c.
      with_session s
        (λ x. served (record s {
          sessions = set s.sessions c.session_idx (record x { name = name });
          need_status_bar_all = true;
        }))
        (get_elem? s.sessions c.session_idx)

  -- `NewWindow`, with the window that is started.
  unfoldable pub new_window : ℕ → Window R → Server R → Option (Step R)
  new_window ci started s = as_client ci s λ c.
      with_session s
        (λ x. served (record s {
          sessions =
              set s.sessions c.session_idx (record x { windows = x.windows ++ started ∷ [] });
          clients = set s.clients ci (record c { active_window = length x.windows });
          need_snapshot = add_snapshot ci s.need_snapshot;
          need_status_bar_all = true;
        }))
        (get_elem? s.sessions c.session_idx)

  -- `NewSession`, with the session that is made.
  unfoldable pub new_session : ℕ → Session R → Server R → Option (Step R)
  new_session ci made s = as_client ci s λ c.
      let si = length s.sessions in
      let clients =
        if c.attach
        then set s.clients ci (record c { session_idx = si; active_window = 0 })
        else s.clients in
      let waiting = if c.attach then add_snapshot ci s.need_snapshot else s.need_snapshot in
      let (clients', waiting') = switch_others ci si 0 clients waiting in
      served (record s {
        sessions = s.sessions ++ made ∷ [];
        clients = clients';
        need_snapshot = waiting';
        need_status_bar_all = true;
      })

  unfoldable pub refresh : ℕ → Server R → Option (Step R)
  refresh ci s = as_client ci s λ c.
      served
        (record s { need_snapshot = add_snapshot ci s.need_snapshot; need_status_bar_all = true })

  -- `IdentifyControl`, once the client has shown that it may.
  unfoldable pub identify_control : ℕ → Server R → Option (Step R)
  identify_control ci s = as_client ci s λ c.
      served
        (record s { clients = set s.clients ci (record c { attach = false; is_control = true }) })
