-- ===== src/Sessions/Served.antt =====
-- The messages that choose a window or a session, make one or remove one
-- (src/server/event_loop.rs), on a server whose clients look at windows that are there.
use lrmux.Base.{ℕ, suc, ◌+◌, ◌<◌, Bool, true, false, ◌≡◌, refl, sym, ap, ◌∙◌}
use lrmux.Base.{Option, none, some, ◌>>=◌, some_step, List, [], ◌∷◌, ◌++◌, length, get_elem?, set}
use lrmux.Base.{
  All, All-append, arith, subst, ltb, ltb→lt, ◌==◌, if◌then◌else◌, Bool-cases, inl, inr,
}
use lrmux.Base.{if_true, if_false, Option-cases}
use lrmux.Base.{not, ◌&&◌, contains, length-append}
use lrmux.Sessions.Placed.{get_elem?-set}
use native.Mathlib.Nat.{mod-lt}
use lrmux.Sessions.Placed.{get_elem?_lt}
use lrmux.Window.State.{Window}
use lrmux.Window.Invariant.{IsWindow, get_elem?_in}
use lrmux.Sessions.State.{
  Session, Client, Server, Step, served, sent_to, switch_others, add_snapshot,
}
use lrmux.Sessions.Requests.{
  find_name, next_window, prev_window, select_window, visit, next_session, prev_session,
  select_session, select_found, kill_session, rename_session, new_window, new_session, refresh,
  identify_control,
}
use lrmux.Sessions.Placed.{
  widths, IsPlacedIn, IsSession, ServerIsPlaced, All-set, All-get, All-map, get_elem?-length,
  widths-get, widths-set, widths-append, length-widths, put_session-IsPlaced, client_session,
}
use lrmux.Sessions.Moves.{grow-IsPlacedIn, widen-IsPlacedIn}
use lrmux.Sessions.Preserve.{
  Serves, remove_session-StepIsPlaced, if-StepIsPlaced, clear_window_activity-IsSession,
  view_window-IsPlaced, with_session-Serves,
}

find_name-lt :
    {R : Type 0} (name : List ℕ) (sessions : List (Session R)) (si : ℕ)
    → find_name name sessions ≡ some si
    → si < length sessions
unfolding find_name
find_name-lt name [] si e = absurd (cc)
find_name-lt name (x ∷ sessions) si e = elim (Option-cases (find_name name sessions)) [
  | inl absent ↦ ground arith
  | inr (i, found) ↦ ground (arith, find_name-lt name sessions i found)
]

All-imp :
    {A : Type 0} (P Q : A → Type 0) (xs : List A) → ((a : A) → P a → Q a) → All P xs → All Q xs
All-imp P Q [] step h = tt
All-imp P Q (x ∷ xs) step h = (step x h.0, All-imp P Q xs step h.1)

if-All :
    {A : Type 0} (P : A → Type 0) (b : Bool) (xs ys : List A)
    → All P xs
    → All P ys
    → All P (if b then xs else ys)
if-All P true xs ys hx hy = hx
if-All P false xs ys hx hy = hy

switch_others-All :
    (P : Client → Type 0) (me si ci : ℕ) (clients : List Client) (waiting : List ℕ)
    → ((c : Client) → P (record c { session_idx = si; active_window = 0 }))
    → All P clients
    → All P (switch_others me si ci clients waiting).0
unfolding switch_others
switch_others-All P me si ci [] waiting moved h = tt
switch_others-All P me si ci (c ∷ clients) waiting moved h = (
  if-holds P (not (ci == me) && c.attach && not (contains waiting ci)) _ c (moved c) h.0,
  switch_others-All P me si (suc ci) clients _ moved h.1,
)
  where
    if-holds : (Q : Client → Type 0) (b : Bool) (x y : Client) → Q x → Q y → Q (if b then x else y)
    if-holds Q true x y hx hy = hx
    if-holds Q false x y hx hy = hy

module _ {R : Type 0} (ci : ℕ) (s : Server R) (h : ServerIsPlaced s)
    (within : ci < length s.clients) where
  pub next_window-Serves : Serves (next_window ci s)
  unfolding next_window
  next_window-Serves = with_session-Serves ci s _ h within λ c x found lt good.
      if-StepIsPlaced (length x.windows == 0) (served s) _ (λ _. h)
        λ some_window.
          view_window-IsPlaced ci c x _ s h found good (mod-lt (c.active_window + 1) good.0)

  pub prev_window-Serves : Serves (prev_window ci s)
  unfolding prev_window
  prev_window-Serves = with_session-Serves ci s _ h within λ c x found lt good.
      if-StepIsPlaced (length x.windows == 0) (served s) _ (λ _. h)
        λ some_window. view_window-IsPlaced ci c x _ s h found good (ground (arith, good.0))

  pub select_window-Serves : (index : ℕ) → Serves (select_window ci index s)
  unfolding select_window
  select_window-Serves index = with_session-Serves ci s _ h within λ c x found lt good.
      if-StepIsPlaced (ltb index (length x.windows)) _ (served s)
        (λ there.
          view_window-IsPlaced ci c x index s h found good (ltb→lt index (length x.windows) there))
        (λ _. h)

  visit-Serves : (c : Client) (si : ℕ) → si < length s.sessions → Serves (visit ci c si s)
  unfolding visit
  visit-Serves c si there =
      let (x, found) = get_elem?_in s.sessions si there in
      let good = All-get IsSession s.sessions si h.sound found in
      let (good', same) = clear_window_activity-IsSession x 0 good in
      (
        _,
        some_step (get_elem? s.sessions si) _ found refl,
        put_session-IsPlaced s.sessions _ si x _ found good' same h.sound (
            All-set (IsPlacedIn (widths s.sessions)) s.clients ci _ h.placed
              (length x.windows, widths-get s.sessions si found, good.0)),
      )

  if-Serves :
      (b : Bool) (m k : Option (Step R))
      → (b ≡ true → Serves m)
      → (b ≡ false → Serves k)
      → Serves (if b then m else k)
  if-Serves true m k hm hk = hm refl
  if-Serves false m k hm hk = hk refl

  -- The client of a message is on the list.
  sent-Serves :
      (handle : Client → Option (Step R))
      → ((c : Client) (x : Session R)
          → get_elem? s.clients ci ≡ some c
          → get_elem? s.sessions c.session_idx ≡ some x
          → Serves (handle c))
      → Serves (get_elem? s.clients ci >>= handle)
  sent-Serves handle step =
      let (c, x, ec, ex, lt, good) = client_session s ci h within in
      let (r, run, kept) = step c x ec ex in
      (r, some_step (get_elem? s.clients ci) handle ec run, kept)

  pub next_session-Serves : Serves (next_session ci s)
  unfolding next_session
  next_session-Serves = sent-Serves _ λ c x ec ex.
      if-Serves (ltb 1 (length s.sessions)) _ (some (served s))
        (λ several. visit-Serves c _ (mod-lt (c.session_idx + 1) (ground arith)))
        (λ _. (served s, refl, h))

  pub prev_session-Serves : Serves (prev_session ci s)
  unfolding prev_session
  prev_session-Serves = sent-Serves _ λ c x ec ex.
      if-Serves (ltb 1 (length s.sessions)) _ (some (served s))
        (λ several. visit-Serves c _ (ground (arith, get_elem?_lt s.sessions c.session_idx ex)))
        (λ _. (served s, refl, h))

  pub kill_session-Serves : Serves (kill_session ci s)
  unfolding kill_session
  kill_session-Serves =
      with_session-Serves ci s _ h within
        λ c x found lt good. remove_session-StepIsPlaced s c.session_idx h

  pub rename_session-Serves : (name : List ℕ) → Serves (rename_session ci name s)
  unfolding rename_session
  rename_session-Serves name = with_session-Serves ci s _ h within λ c x found lt good.
      put_session-IsPlaced s.sessions _ c.session_idx x (record x { name = name }) found good refl
        h.sound h.placed

  pub refresh-Serves : Serves (refresh ci s)
  unfolding refresh
  refresh-Serves = sent-Serves _ λ c x ec ex. (_, refl, h)

  pub identify_control-Serves : Serves (identify_control ci s)
  unfolding identify_control
  identify_control-Serves = sent-Serves _ λ c x ec ex. (
    _,
    refl,
    record {
      sound = h.sound;
      placed =
          All-set (IsPlacedIn (widths s.sessions)) s.clients ci _ h.placed
            (All-get (IsPlacedIn (widths s.sessions)) s.clients ci h.placed ec);
    },
  )

  sent_to-IsPlacedIn :
      (si : ℕ) (x : Session R) (c : Client)
      → get_elem? s.sessions si ≡ some x
      → IsSession x
      → IsPlacedIn (widths s.sessions) c
      → IsPlacedIn (widths s.sessions) (sent_to si c)
  sent_to-IsPlacedIn si x c found good there = elim (Bool-cases c.attach) [
    | inl attached ↦
        subst (IsPlacedIn (widths s.sessions)) (sym (if_true _ attached))
          (length x.windows, widths-get s.sessions si found, good.0)
    | inr detached ↦ subst (IsPlacedIn (widths s.sessions)) (sym (if_false _ detached)) there
  ]

  select_found-Serves :
      (c : Client) (o : Option ℕ)
      → ((si : ℕ) → o ≡ some si → si < length s.sessions)
      → Serves (select_found ci c s o)
  select_found-Serves c none known = (served s, refl, h)
  select_found-Serves c (some si) known =
      let (x, found) = get_elem?_in s.sessions si (known si refl) in
      let good = All-get IsSession s.sessions si h.sound found in
      let (good', same) = clear_window_activity-IsSession x 0 good in
      if-Serves c.attach _ _ (λ _. visit-Serves c si (known si refl))
        λ _. (
          _,
          some_step (get_elem? s.sessions si) _ found refl,
          put_session-IsPlaced s.sessions _ si x _ found good' same h.sound (
              All-map (IsPlacedIn (widths s.sessions)) (IsPlacedIn (widths s.sessions)) (sent_to si)
                s.clients (λ d. sent_to-IsPlacedIn si x d found good) h.placed),
        )

  pub select_session-Serves : (name : List ℕ) → Serves (select_session ci name s)
  unfolding select_session
  select_session-Serves name = sent-Serves _ λ c x ec ex.
      select_found-Serves c (find_name name s.sessions) (λ si. find_name-lt name s.sessions si)

  pub new_window-Serves : (started : Window R) → IsWindow started → Serves (new_window ci started s)
  unfolding new_window
  new_window-Serves started sound = with_session-Serves ci s _ h within λ c x found lt good.
      let si = c.session_idx in
      let windows = x.windows ++ started ∷ [] in
      let longer : length windows ≡ suc (length x.windows) =
        omega (arith, length-append {0} x.windows (started ∷ [])) in
      let counts : widths (set s.sessions si (record x { windows = windows }))
          ≡ set (widths s.sessions) si (suc (length x.windows)) =
        widths-set s.sessions si (record x { windows = windows })
        ∙ ap (set (widths s.sessions) si) longer in
      let here = widths-get s.sessions si found in
      let c' : Client = record c { active_window = length x.windows } in
      record {
        sound = All-set IsSession s.sessions si _ h.sound (
          omega (arith, longer),
          All-append IsWindow x.windows (started ∷ []) good.1 (sound, tt),
        );
        placed =
            subst (λ n. All (IsPlacedIn n) (set s.clients ci c')) (sym counts)
              (All-set (IsPlacedIn (set (widths s.sessions) si (suc (length x.windows)))) s.clients
                ci c'
                (All-imp (IsPlacedIn (widths s.sessions))
                  (IsPlacedIn (set (widths s.sessions) si (suc (length x.windows)))) s.clients
                  (λ d. widen-IsPlacedIn (widths s.sessions) si (length x.windows) d here) h.placed)
                (
                  suc (length x.windows),
                  ground (
                    arith,
                    get_elem?-set si si (widths s.sessions) (suc (length x.windows)),
                    here,
                  ),
                  omega arith,
                ));
      }

  pub new_session-Serves : (made : Session R) → IsSession made → Serves (new_session ci made s)
  unfolding new_session
  new_session-Serves made good = sent-Serves _ λ c x ec ex.
      let si = length s.sessions in
      let grown = widths s.sessions ++ length made.windows ∷ [] in
      let first : get_elem? grown si ≡ some (length made.windows) =
        ap (get_elem? grown) (sym (length-widths s.sessions))
        ∙ get_elem?-length (widths s.sessions) (length made.windows) in
      let old =
        All-imp (IsPlacedIn (widths s.sessions)) (IsPlacedIn grown) s.clients
          (λ d. grow-IsPlacedIn (widths s.sessions) (length made.windows) d) h.placed in
      let moved : (d : Client)
          → IsPlacedIn grown (record d { session_idx = si; active_window = 0 }) =
        λ d. (length made.windows, first, good.0) in
      let c' : Client = record c { session_idx = si; active_window = 0 } in
      let clients = if c.attach then set s.clients ci c' else s.clients in
      let waiting = if c.attach then add_snapshot ci s.need_snapshot else s.need_snapshot in
      (
        _,
        refl,
        record {
          sound = All-append IsSession s.sessions (made ∷ []) h.sound (good, tt);
          placed =
              subst (λ n. All (IsPlacedIn n) (switch_others ci si 0 clients waiting).0)
                (sym (widths-append s.sessions (made ∷ [])))
                (switch_others-All (IsPlacedIn grown) ci si 0 clients waiting moved (
                  if-All (IsPlacedIn grown) c.attach (set s.clients ci c') s.clients
                    (All-set (IsPlacedIn grown) s.clients ci c' old (moved c)) old));
        },
      )
