-- ===== src/Sessions/Placed.antt =====
-- Where the clients of a server look (src/server/event_loop.rs): at a window that is there.
use lrmux.Base.{ℕ, zero, suc, ◌<◌, ◌≡◌, refl, sym, ap, ◌∙◌}
use lrmux.Base.{Option, none, some, List, [], ◌∷◌, ◌++◌, map, length, get_elem?, set, All, arith}
use mathlib.Core.Option.{some-injective}
use lrmux.Window.Invariant.{IsWindow, get_elem?_in}
use lrmux.Base.{subst, ltb, ◌==◌, if◌then◌else◌}
use lrmux.Window.Operations.{remove_at}
use lrmux.Sessions.State.{Session, Client, Server, Step, served, dropped, closed}

-- The number of windows of each session.
abbrev pub widths : {R : Type 0} → List (Session R) → List ℕ
widths [] = []
widths (x ∷ sessions) = length x.windows ∷ widths sessions

-- The client looks at a window of these.
abbrev pub IsPlacedIn : List ℕ → Client → Type 0
IsPlacedIn counts c = (n : ℕ) × (get_elem? counts c.session_idx ≡ some n) × (c.active_window < n)

-- A session has a window, and its windows are well formed.
abbrev pub IsSession : {R : Type 0} → Session R → Type 0
IsSession x = (0 < length x.windows) × All IsWindow x.windows

-- Each session is one of these, and each client looks at a window.
pub record IsPlaced {R : Type 0} (sessions : List (Session R)) (clients : List Client)
    : Type 0 where
  pub sound : All IsSession sessions
  pub placed : All (IsPlacedIn (widths sessions)) clients

abbrev pub ServerIsPlaced : {R : Type 0} → Server R → Type 0
ServerIsPlaced s = IsPlaced s.sessions s.clients

-- What a step leaves: a server of that kind, unless it closes.
abbrev pub StepIsPlaced : {R : Type 0} → Step R → Type 0
StepIsPlaced (served s) = ServerIsPlaced s
StepIsPlaced (dropped s) = ServerIsPlaced s
StepIsPlaced closed = Unit

module _ {A : Type 0} where
  pub All-set : (P : A → Type 0) (xs : List A) (i : ℕ) (a : A) → All P xs → P a → All P (set xs i a)
  All-set P [] i a h ha = tt
  All-set P (x ∷ xs) zero a h ha = (ha, h.1)
  All-set P (x ∷ xs) (suc i) a h ha = (h.0, All-set P xs i a h.1 ha)

  pub All-get :
      (P : A → Type 0) (xs : List A) (i : ℕ) {a : A} → All P xs → get_elem? xs i ≡ some a → P a
  All-get P [] i h e = absurd (cc)
  All-get P (x ∷ xs) zero h e = subst P (some-injective x _ e) h.0
  All-get P (x ∷ xs) (suc i) h e = All-get P xs i h.1 e

  pub All-map :
      (P Q : A → Type 0) (f : A → A) (xs : List A)
      → ((a : A) → P a → Q (f a))
      → All P xs
      → All Q (map f xs)
  All-map P Q f [] step h = tt
  All-map P Q f (x ∷ xs) step h = (step x h.0, All-map P Q f xs step h.1)

  pub get_elem?_lt : (xs : List A) (i : ℕ) {a : A} → get_elem? xs i ≡ some a → i < length xs
  get_elem?_lt [] i e = absurd (cc)
  get_elem?_lt (x ∷ xs) zero e = omega arith
  get_elem?_lt (x ∷ xs) (suc i) e = omega (arith, get_elem?_lt xs i e)

  pub All-remove_at : (P : A → Type 0) (i : ℕ) (xs : List A) → All P xs → All P (remove_at i xs)
  All-remove_at P i [] h = tt
  All-remove_at P zero (x ∷ xs) h = h.1
  All-remove_at P (suc i) (x ∷ xs) h = (h.0, All-remove_at P i xs h.1)

  pub length-remove_at :
      (i : ℕ) (xs : List A) → i < length xs → suc (length (remove_at i xs)) ≡ length xs
  length-remove_at i [] h = absurd (omega arith)
  length-remove_at zero (x ∷ xs) h = refl
  length-remove_at (suc i) (x ∷ xs) h = ap suc (length-remove_at i xs (omega arith))

  pub get_elem?-remove_at :
      (i j : ℕ) (xs : List A)
      → get_elem? (remove_at i xs) j ≡ (if ltb j i then get_elem? xs j else get_elem? xs (suc j))
  get_elem?-remove_at i j [] = ground arith
  get_elem?-remove_at zero j (x ∷ xs) = ground arith
  get_elem?-remove_at (suc i) zero (x ∷ xs) = ground arith
  get_elem?-remove_at (suc i) (suc j) (x ∷ xs) = ground (arith, get_elem?-remove_at i j xs)

  pub get_elem?-set :
      (i j : ℕ) (xs : List A) (v : A)
      → get_elem? (set xs i v) j ≡ (
          if i == j
          then elim (get_elem? xs j) [ none ↦ none | some a ↦ some v ]
          else get_elem? xs j)
  get_elem?-set i j [] v = ground arith
  get_elem?-set zero zero (x ∷ xs) v = refl
  get_elem?-set zero (suc j) (x ∷ xs) v = ground arith
  get_elem?-set (suc i) zero (x ∷ xs) v = ground arith
  get_elem?-set (suc i) (suc j) (x ∷ xs) v = ground (arith, get_elem?-set i j xs v)

  pub set_same : (xs : List A) (i : ℕ) {a : A} → get_elem? xs i ≡ some a → set xs i a ≡ xs
  set_same [] i e = refl
  set_same (x ∷ xs) zero e = ap (λ t. t ∷ xs) (sym (some-injective x _ e))
  set_same (x ∷ xs) (suc i) e = ap (λ t. x ∷ t) (set_same xs i e)

  pub get_elem?-append :
      (xs ys : List A) (i : ℕ) {a : A} → get_elem? xs i ≡ some a → get_elem? (xs ++ ys) i ≡ some a
  get_elem?-append [] ys i e = absurd (cc)
  get_elem?-append (x ∷ xs) ys zero e = e
  get_elem?-append (x ∷ xs) ys (suc i) e = get_elem?-append xs ys i e

  pub get_elem?-length : (xs : List A) (a : A) → get_elem? (xs ++ a ∷ []) (length xs) ≡ some a
  get_elem?-length [] a = refl
  get_elem?-length (x ∷ xs) a = get_elem?-length xs a

module _ {R : Type 0} where
  pub widths-get :
      (sessions : List (Session R)) (i : ℕ) {x : Session R}
      → get_elem? sessions i ≡ some x
      → get_elem? (widths sessions) i ≡ some (length x.windows)
  widths-get [] i e = absurd (cc)
  widths-get (y ∷ sessions) zero e =
      ap (λ (t : Option (Session R)). elim t [ none ↦ none | some z ↦ some (length z.windows) ]) e
  widths-get (y ∷ sessions) (suc i) e = widths-get sessions i e

  pub widths-set :
      (sessions : List (Session R)) (i : ℕ) (x : Session R)
      → widths (set sessions i x) ≡ set (widths sessions) i (length x.windows)
  widths-set [] i x = refl
  widths-set (y ∷ sessions) zero x = refl
  widths-set (y ∷ sessions) (suc i) x = ap (λ t. length y.windows ∷ t) (widths-set sessions i x)

  pub widths-remove_at :
      (i : ℕ) (sessions : List (Session R))
      → widths (remove_at i sessions) ≡ remove_at i (widths sessions)
  widths-remove_at i [] = refl
  widths-remove_at zero (x ∷ sessions) = refl
  widths-remove_at (suc i) (x ∷ sessions) =
      ap (λ t. length x.windows ∷ t) (widths-remove_at i sessions)

  pub widths-append : (xs ys : List (Session R)) → widths (xs ++ ys) ≡ widths xs ++ widths ys
  widths-append [] ys = refl
  widths-append (x ∷ xs) ys = ap (λ t. length x.windows ∷ t) (widths-append xs ys)

  pub widths-found :
      (sessions : List (Session R)) (i : ℕ) {n : ℕ}
      → get_elem? (widths sessions) i ≡ some n
      → (x : Session R) × (get_elem? sessions i ≡ some x) × (length x.windows ≡ n)
  widths-found [] i e = absurd (cc)
  widths-found (y ∷ sessions) zero e = (y, refl, some-injective _ _ e)
  widths-found (y ∷ sessions) (suc i) e = widths-found sessions i e

  pub widths_pos :
      (sessions : List (Session R)) → All IsSession sessions → All (λ n. 0 < n) (widths sessions)
  widths_pos [] h = tt
  widths_pos (x ∷ sessions) h = (h.0.0, widths_pos sessions h.1)

  pub length-widths : (sessions : List (Session R)) → length (widths sessions) ≡ length sessions
  length-widths [] = refl
  length-widths (x ∷ sessions) = ap suc (length-widths sessions)

  -- A session changed in place, with as many windows.
  pub put_session-IsPlaced :
      (sessions : List (Session R)) (clients : List Client) (si : ℕ) (x x' : Session R)
      → get_elem? sessions si ≡ some x
      → IsSession x'
      → length x'.windows ≡ length x.windows
      → All IsSession sessions
      → All (IsPlacedIn (widths sessions)) clients
      → IsPlaced (set sessions si x') clients
  put_session-IsPlaced sessions clients si x x' found good same sound placed =
      let counts : widths (set sessions si x') ≡ widths sessions =
        widths-set sessions si x'
        ∙ set_same (widths sessions) si (widths-get sessions si found ∙ ap some (sym same)) in
      record {
        sound = All-set IsSession sessions si x' sound good;
        placed = subst (λ n. All (IsPlacedIn n) clients) (sym counts) placed;
      }

  -- The client that sends a message, and its session.
  pub client_session :
      (s : Server R) (ci : ℕ)
      → ServerIsPlaced s
      → ci < length s.clients
      → (c : Client) × (x : Session R) × (get_elem? s.clients ci ≡ some c)
        × (get_elem? s.sessions c.session_idx ≡ some x)
        × (c.active_window < length x.windows)
        × IsSession x
  client_session s ci h within =
      let (c, ec) = get_elem?_in s.clients ci within in
      let (n, en, lt) = All-get (IsPlacedIn (widths s.sessions)) s.clients ci h.placed ec in
      let (x, ex, same) = widths-found s.sessions c.session_idx en in
      (c, x, ec, ex, omega (arith, same, lt), All-get IsSession s.sessions c.session_idx h.sound ex)
