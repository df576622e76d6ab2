-- ===== src/Sessions/Preserve.antt =====
-- The messages that move a client between windows and sessions (src/server/event_loop.rs), each of
-- them on a server whose clients look at windows that are there.
use lrmux.Base.{ℕ, ◌<◌, Bool, true, false, ◌≡◌, refl, sym, ap, ◌∙◌}
use lrmux.Base.{Option, none, some, ◌>>=◌, map, length, get_elem?, set}
use lrmux.Base.{All, arith, subst, ◌==◌, if◌then◌else◌, Bool-cases, inl, inr}
use lrmux.Base.{if_true, if_false, length-set}
use lrmux.Window.State.{Window}
use lrmux.Window.Invariant.{IsWindow}
use lrmux.Window.Operations.{remove_at}
use lrmux.Sessions.State.{
  Session, Client, Server, Step, closed, after_session, clear_found, clear_window_activity,
  remove_session,
}
use lrmux.Sessions.Requests.{with_session, as_client, view_window}
use lrmux.Sessions.Placed.{
  widths, IsPlacedIn, IsSession, ServerIsPlaced, StepIsPlaced, All-set, All-get, All-map,
  All-remove_at, widths-get, widths-remove_at, widths_pos, length-widths, put_session-IsPlaced,
  client_session,
}
use lrmux.Sessions.Moves.{after_session-IsPlacedIn}

-- The handler runs, and what it leaves is well placed.
abbrev pub Serves : {R : Type 0} → Option (Step R) → Type 0
Serves {R} m = (r : Step R) × (m ≡ some r) × StepIsPlaced r

module _ {R : Type 0} where
  pub if-StepIsPlaced :
      (b : Bool) (p q : Step R)
      → (b ≡ true → StepIsPlaced p)
      → (b ≡ false → StepIsPlaced q)
      → StepIsPlaced (if b then p else q)
  if-StepIsPlaced true p q hp hq = hp refl
  if-StepIsPlaced false p q hp hq = hq refl

  clear_found-IsSession :
      (x : Session R) (wi : ℕ) (o : Option (Window R))
      → get_elem? x.windows wi ≡ o
      → IsSession x
      → IsSession (clear_found x wi o).0
        × (length (clear_found x wi o).0.windows ≡ length x.windows)
  clear_found-IsSession x wi none e h = (h, refl)
  clear_found-IsSession x wi (some w) e h = elim (Bool-cases w.activity) [
    | inl seen ↦
        let w' : Window R = record w { activity = false } in
        let x' : Session R = record x { windows = set x.windows wi w' } in
        let cleared : Session R × Bool = (x', true) in
        let same = length-set x.windows wi w' in
        subst (λ (t : Session R × Bool). IsSession t.0 × (length t.0.windows ≡ length x.windows))
          (sym (if_true _ seen))
          (
            (
              omega (arith, same, h.0),
              All-set IsWindow x.windows wi w' h.1 (All-get IsWindow x.windows wi h.1 e),
            ),
            same,
          )
    | inr clear ↦
        subst (λ (t : Session R × Bool). IsSession t.0 × (length t.0.windows ≡ length x.windows))
          (sym (if_false _ clear)) (h, refl)
  ]

  pub clear_window_activity-IsSession :
      (x : Session R) (wi : ℕ)
      → IsSession x
      → IsSession (clear_window_activity x wi).0
        × (length (clear_window_activity x wi).0.windows ≡ length x.windows)
  unfolding clear_window_activity
  clear_window_activity-IsSession x wi h =
      clear_found-IsSession x wi (get_elem? x.windows wi) refl h

  pub view_window-IsPlaced :
      (ci : ℕ) (c : Client) (x : Session R) (wi : ℕ) (s : Server R)
      → ServerIsPlaced s
      → get_elem? s.sessions c.session_idx ≡ some x
      → IsSession x
      → wi < length x.windows
      → ServerIsPlaced (view_window ci c x wi s)
  unfolding view_window
  view_window-IsPlaced ci c x wi s h found good within =
      let (good', same) = clear_window_activity-IsSession x wi good in
      put_session-IsPlaced s.sessions _ c.session_idx x _ found good' same h.sound (
        All-set (IsPlacedIn (widths s.sessions)) s.clients ci _ h.placed
          (length x.windows, widths-get s.sessions c.session_idx found, within))

  -- A message that acts in the session of its client.
  pub with_session-Serves :
      (ci : ℕ) (s : Server R) (handle : Client → Session R → Step R)
      → ServerIsPlaced s
      → ci < length s.clients
      → ((c : Client) (x : Session R)
          → get_elem? s.sessions c.session_idx ≡ some x
          → c.active_window < length x.windows
          → IsSession x
          → StepIsPlaced (handle c x))
      → Serves (as_client ci s λ c. with_session s (handle c) (get_elem? s.sessions c.session_idx))
  with_session-Serves ci s handle h within step =
      let (c, x, ec, ex, lt, good) = client_session s ci h within in
      (
        handle c x,
        ap (λ t. t >>= (λ d. some (with_session s (handle d) (get_elem? s.sessions d.session_idx))))
              ec
            ∙ ap (λ o. some (with_session s (handle c) o)) ex,
        step c x ex lt good,
      )

  pub remove_session-StepIsPlaced :
      (s : Server R) (si : ℕ) → ServerIsPlaced s → StepIsPlaced (remove_session si s)
  unfolding remove_session
  remove_session-StepIsPlaced s si h =
      let left = remove_at si s.sessions in
      if-StepIsPlaced (length left == 0) closed _ (λ _. tt)
        λ some_left.
          let sound = All-remove_at IsSession si s.sessions h.sound in
          let counts = widths-remove_at si s.sessions in
          record {
            sound = sound;
            placed =
                subst (λ n. All (IsPlacedIn n) (map (after_session si) s.clients)) (sym counts)
                  (All-map (IsPlacedIn (widths s.sessions))
                    (IsPlacedIn (remove_at si (widths s.sessions))) (after_session si) s.clients
                    (λ c.
                      after_session-IsPlacedIn si (widths s.sessions) c
                        (subst (All (λ n. 0 < n)) counts (widths_pos left sound))
                        (ground (arith, ap length counts, length-widths left)))
                    h.placed);
          }
