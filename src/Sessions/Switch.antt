-- ===== src/Sessions/Switch.antt =====
-- Which clients a new session takes along (src/server/event_loop.rs, `NewSession`).
use lrmux.Base.{ℕ, zero, suc, ◌+◌, Bool, true, false, not, ◌&&◌, ◌||◌, ◌≡◌, refl, sym, ap, ◌∙◌}
use lrmux.Base.{some, List, [], ◌∷◌, ◌++◌, length, get_elem?, set, contains}
use lrmux.Base.{contains-append, arith, ◌==◌, if◌then◌else◌, Bool-cases, inl, inr, if_false}
use native.Mathlib.Nat.{zero-add}
use mathlib.Core.Option.{some-injective}
use lrmux.Sessions.State.{Session, Client, Server, served, add_snapshot, switch_others}
use lrmux.Sessions.Requests.{new_session}
use lrmux.Sessions.Placed.{get_elem?-set}

-- The client looks at the first window of the session at `si`.
abbrev pub switched : ℕ → Client → Client
switched si c = record c { session_idx = si; active_window = 0 }

-- A note on another client makes no difference.
contains-note :
    (b : Bool) (waiting : List ℕ) (i j : ℕ)
    → (i == j) ≡ false
    → contains (if b then waiting ++ i ∷ [] else waiting) j ≡ contains waiting j
contains-note true waiting i j h = ground (arith, contains-append waiting (i ∷ []) j)
contains-note false waiting i j h = refl

contains-add_snapshot :
    (waiting : List ℕ) (i j : ℕ)
    → (i == j) ≡ false
    → contains (add_snapshot i waiting) j ≡ contains waiting j
contains-add_snapshot waiting i j h = ground (arith, contains-append waiting (i ∷ []) j)

-- The loop over the clients from the index `base` on.
switch_others_lem :
    (me si base k : ℕ) (clients : List Client) (waiting : List ℕ) (c : Client)
    → get_elem? clients k ≡ some c
    → get_elem? (switch_others me si base clients waiting).0 k
      ≡ some (
          if not (base + k == me) && c.attach && not (contains waiting (base + k))
          then switched si c
          else c)
unfolding switch_others
switch_others_lem me si base k [] waiting c e = ground arith
switch_others_lem me si base zero (x ∷ clients) waiting c e =
    let at : base + 0 ≡ base = omega arith in rw (some-injective x c e, at) refl
switch_others_lem me si base (suc k) (x ∷ clients) waiting c e =
    let next : suc base + k ≡ base + suc k = omega arith in
    let b = not (base == me) && x.attach && not (contains waiting base) in
    switch_others_lem me si (suc base) k clients (if b then waiting ++ base ∷ [] else waiting) c e
    ∙ ap (λ t. some (if not (suc base + k == me) && c.attach && not t then switched si c else c))
        (contains-note b waiting base (suc base + k) (ground arith))
    ∙ ap
        (λ i.
          some (if not (i == me) && c.attach && not (contains waiting i) then switched si c else c))
        next

-- What the sender's move leaves of each client, and of the note on it.
sender_at :
    (b : Bool) (ci k : ℕ) (clients : List Client) (v c : Client)
    → get_elem? clients k ≡ some c
    → get_elem? (if b then set clients ci v else clients) k ≡ some (if b && ci == k then v else c)
sender_at true ci k clients v c e = ground (arith, get_elem?-set ci k clients v)
sender_at false ci k clients v c e = e

sender_noted :
    (b : Bool) (ci k : ℕ) (waiting : List ℕ)
    → (ci == k) ≡ false
    → contains (if b then add_snapshot ci waiting else waiting) k ≡ contains waiting k
sender_noted true ci k waiting h = contains-add_snapshot waiting ci k h
sender_noted false ci k waiting h = refl

-- The sender first, then the others.
new_session_client :
    (ci si k : ℕ) (clients : List Client) (waiting : List ℕ) (me c : Client)
    → get_elem? clients ci ≡ some me
    → get_elem? clients k ≡ some c
    → get_elem?
        (switch_others ci si 0
          (if me.attach then set clients ci (switched si me) else clients)
          (if me.attach then add_snapshot ci waiting else waiting)).0
        k
      ≡ some (if c.attach && (k == ci || not (contains waiting k)) then switched si c else c)
new_session_client ci si k clients waiting me c at_ci at_k =
    let v = switched si me in
    let clients' = if me.attach then set clients ci v else clients in
    let waiting' = if me.attach then add_snapshot ci waiting else waiting in
    let moved = if me.attach && ci == k then v else c in
    switch_others_lem ci si 0 k clients' waiting' moved (sender_at me.attach ci k clients v c at_k)
    ∙ elim (Bool-cases (ci == k)) [
      | inl same ↦
          let back : (k == ci) ≡ true = ground arith in
          let here : ci ≡ k = ground arith in
          let mine : c ≡ me =
            some-injective c me (sym at_k ∙ ap (get_elem? clients) (sym here) ∙ at_ci) in
          let found : (0 + k == ci) ≡ true = ground arith in
          let kept : (not (0 + k == ci) && moved.attach && not (contains waiting' (0 + k)))
              ≡ false =
            ap (λ t. not t && moved.attach && not (contains waiting' (0 + k))) found in
          ap some (if_false _ kept ∙ (rw (same, back, mine) refl))
      | inr other ↦
          let late = sender_noted me.attach ci k waiting other in
          let unmoved : moved ≡ c = ground (arith, other) in
          let away : (k == ci) ≡ false = ground arith in rw (zero-add k, unmoved, away, late) refl
    ]

module _ {R : Type 0} where
  -- `NewSession` of a client on the list puts the new session behind the others, and each client
  -- on the list that is attached then looks at the first window of it, if it sent the message or
  -- did not wait for a snapshot before; any other client looks where it looked.
  pub new_session-clients :
      (ci k : ℕ) (made : Session R) (s : Server R) (me c : Client)
      → get_elem? s.clients ci ≡ some me
      → get_elem? s.clients k ≡ some c
      → (s' : Server R) × (new_session ci made s ≡ some (served s'))
        × (s'.sessions ≡ s.sessions ++ made ∷ [])
        × (get_elem? s'.clients k
            ≡ some (
                if c.attach && (k == ci || not (contains s.need_snapshot k))
                then switched (length s.sessions) c
                else c))
  unfolding new_session
  new_session-clients ci k made s me c at_ci at_k =
      let si = length s.sessions in
      let clients = if me.attach then set s.clients ci (switched si me) else s.clients in
      let waiting = if me.attach then add_snapshot ci s.need_snapshot else s.need_snapshot in
      let others = switch_others ci si 0 clients waiting in
      let s' : Server R = record s {
        sessions = s.sessions ++ made ∷ [];
        clients = others.0;
        need_snapshot = others.1;
        need_status_bar_all = true;
      } in
      (
        s',
        ground (arith, at_ci),
        refl,
        new_session_client ci si k s.clients s.need_snapshot me c at_ci at_k,
      )
