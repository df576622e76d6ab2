-- ===== src/Sessions/Moves.antt =====
-- Clients that stay in place while sessions and windows come and go (src/server/event_loop.rs).
use lrmux.Base.{ℕ, suc, ◌-◌, ◌≤◌, ◌<◌, ◌≡◌, refl, sym, ◌∙◌}
use lrmux.Base.{some, List, [], ◌∷◌, ◌++◌, length, get_elem?, set, All, arith}
use lrmux.Base.{subst, ltb, ◌==◌, Bool-cases, inl, inr, if_true, if_false}
use lrmux.Window.Operations.{remove_at}
use lrmux.Sessions.State.{Client, after_session, after_window}
use lrmux.Sessions.Placed.{IsPlacedIn, get_elem?-remove_at, get_elem?-set, get_elem?-append}

-- The first of some sessions that have windows.
first_count :
    (counts : List ℕ)
    → All (λ n. 0 < n) counts
    → 0 < length counts
    → (n : ℕ) × (get_elem? counts 0 ≡ some n) × (0 < n)
first_count [] h pos = absurd (omega arith)
first_count (n ∷ counts) h pos = (n, refl, h.0)

pub after_session-IsPlacedIn :
    (si : ℕ) (counts : List ℕ) (c : Client)
    → All (λ n. 0 < n) (remove_at si counts)
    → 0 < length (remove_at si counts)
    → IsPlacedIn counts c
    → IsPlacedIn (remove_at si counts) (after_session si c)
after_session-IsPlacedIn si counts c filled pos (n, e, lt) =
    let left = remove_at si counts in
    elim (Bool-cases (c.session_idx == si)) [
      | inl same ↦ subst (IsPlacedIn left) (sym (if_true _ same)) (first_count left filled pos)
      | inr other ↦ elim (Bool-cases (ltb si c.session_idx)) [
        | inl behind ↦
            subst (IsPlacedIn left) (sym (if_false _ other ∙ if_true _ behind))
              (n, ground (arith, get_elem?-remove_at si (c.session_idx - 1) counts), lt)
        | inr before ↦
            subst (IsPlacedIn left) (sym (if_false _ other ∙ if_false _ before))
              (n, ground (arith, get_elem?-remove_at si c.session_idx counts), lt)
      ]
    ]

pub after_window-IsPlacedIn :
    (si wi k : ℕ) (counts : List ℕ) (c : Client)
    → get_elem? counts si ≡ some (suc k)
    → 0 < k
    → wi ≤ k
    → IsPlacedIn counts c
    → IsPlacedIn (set counts si k) (after_window si wi k c)
after_window-IsPlacedIn si wi k counts c found pos within (n, e, lt) =
    let fewer = set counts si k in
    elim (Bool-cases (c.session_idx == si)) [
      | inr other ↦
          subst (IsPlacedIn fewer) (sym (if_false _ other))
            (n, ground (arith, get_elem?-set si c.session_idx counts k), lt)
      | inl same ↦
          let here : get_elem? fewer c.session_idx ≡ some k =
            ground (arith, get_elem?-set si c.session_idx counts k) in
          let all : n ≡ suc k = ground arith in
          elim (Bool-cases (c.active_window == wi)) [
            | inl gone ↦
                subst (IsPlacedIn fewer) (sym (if_true _ same ∙ if_true _ gone))
                  (k, here, omega arith)
            | inr kept ↦ elim (Bool-cases (ltb wi c.active_window)) [
              | inl behind ↦
                  subst (IsPlacedIn fewer)
                    (sym (if_true _ same ∙ if_false _ kept ∙ if_true _ behind))
                    (k, here, ground arith)
              | inr before ↦
                  subst (IsPlacedIn fewer)
                    (sym (if_true _ same ∙ if_false _ kept ∙ if_false _ before))
                    (k, here, ground arith)
            ]
          ]
    ]

pub grow-IsPlacedIn :
    (counts : List ℕ) (n : ℕ) (c : Client) → IsPlacedIn counts c → IsPlacedIn (counts ++ n ∷ []) c
grow-IsPlacedIn counts n c (m, e, lt) = (m, get_elem?-append counts (n ∷ []) c.session_idx e, lt)

pub widen-IsPlacedIn :
    (counts : List ℕ) (si n : ℕ) (c : Client)
    → get_elem? counts si ≡ some n
    → IsPlacedIn counts c
    → IsPlacedIn (set counts si (suc n)) c
widen-IsPlacedIn counts si n c found (m, e, lt) = elim (Bool-cases (si == c.session_idx)) [
  | inl same ↦ (suc n, ground (arith, get_elem?-set si c.session_idx counts (suc n)), ground arith)
  | inr other ↦ (m, ground (arith, get_elem?-set si c.session_idx counts (suc n)), lt)
]
