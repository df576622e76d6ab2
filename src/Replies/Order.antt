-- ===== src/Replies/Order.antt =====
-- When the replies of a pane (src/server/pane.rs) are written, and in which order.
use lrmux.Base.{ℕ, ◌+◌, ◌≤◌, ◌<◌, Bool, true, false, ◌≡◌, ◌⊎◌, inl, inr, refl, sym, ap, ◌∙◌}
use lrmux.Base.{subst, leb, Bool-cases, if_true, if_false, arith}
use lrmux.Base.{List, [], ◌∷◌, ◌++◌, All}
use lrmux.Replies.Queue.{
  ReplySlot, ready, waiting, deadline, reply_defer_max, drop_expired, take_batch,
  flush_deferred_replies,
}

-- The deadlines do not fall from the front to the back.
abbrev pub IsAscending : List ℕ → Type 0
IsAscending [] = Unit
IsAscending (a ∷ later) = All (λ b. a ≤ b) later × IsAscending later

abbrev pub deadlines : List ReplySlot → List ℕ
deadlines [] = []
deadlines (slot ∷ slots) = deadline slot ∷ deadlines slots

-- No deadline lies further ahead than a slot that is queued now would have.
abbrev pub IsQueue : ℕ → List ReplySlot → Type 0
IsQueue now slots =
    IsAscending (deadlines slots) × All (λ d. d ≤ now + reply_defer_max) (deadlines slots)

-- The slot holds a reply that may be written now.
abbrev pub IsDue : ℕ → ReplySlot → Type 0
IsDue now (ready earliest late bytes) = (earliest ≤ now) × (now < late)
IsDue now (waiting earliest late code bell) = ⊥

abbrev pub bytes_of : List ReplySlot → List ℕ
bytes_of [] = []
bytes_of (ready earliest late bytes ∷ slots) = bytes ++ bytes_of slots
bytes_of (waiting earliest late code bell ∷ slots) = bytes_of slots

-- What may stand at the front when nothing more is written.
abbrev pub HoldsBack : ℕ → List ReplySlot → Type 0
HoldsBack now [] = Unit
HoldsBack now (ready earliest late bytes ∷ slots) = now < earliest
HoldsBack now (waiting earliest late code bell ∷ slots) = Unit

All-behind : (P : ReplySlot → Type 0) (xs ys : List ReplySlot) → All P (xs ++ ys) → All P ys
All-behind P [] ys h = h
All-behind P (x ∷ xs) ys h = All-behind P xs ys h.1

All-later :
    (now d : ℕ) (slots : List ReplySlot)
    → now < d
    → All (λ e. d ≤ e) (deadlines slots)
    → All (λ s. now < deadline s) slots
All-later now d [] lt h = tt
All-later now d (s ∷ slots) lt h = (omega (arith, h.0), All-later now d slots lt h.1)

drop_expired_split :
    (now : ℕ) (slots : List ReplySlot)
    → IsAscending (deadlines slots)
    → (dropped : List ReplySlot) × (slots ≡ dropped ++ drop_expired now slots)
      × All (λ s. deadline s ≤ now) dropped
      × All (λ s. now < deadline s) (drop_expired now slots)
unfolding drop_expired
drop_expired_split now [] h = ([], refl, tt, tt)
drop_expired_split now (slot ∷ slots) h = elim (Bool-cases (leb (deadline slot) now)) [
  | inl late ↦
      let (dropped, whole, expired, live) = drop_expired_split now slots h.1 in
      (
        slot ∷ dropped,
        ap (λ t. slot ∷ t) whole ∙ ap (λ t. slot ∷ (dropped ++ t)) (sym (if_true _ late)),
        (ground arith, expired),
        subst (All (λ s. now < deadline s)) (sym (if_true _ late)) live,
      )
  | inr still ↦
      let lt : now < deadline slot = ground arith in
      (
        [],
        sym (if_false _ still),
        tt,
        subst (All (λ s. now < deadline s)) (sym (if_false _ still))
            (lt, All-later now (deadline slot) slots lt h.0),
      )
]

take_batch_split :
    (now : ℕ) (slots : List ReplySlot)
    → All (λ s. now < deadline s) slots
    → (sent : List ReplySlot) × (left : List ReplySlot) × (slots ≡ sent ++ left)
      × (take_batch now slots ≡ (left, bytes_of sent))
      × All (IsDue now) sent
      × HoldsBack now left
unfolding take_batch
take_batch_split now [] h = ([], [], refl, refl, tt, tt)
take_batch_split now (waiting earliest late code bell ∷ slots) h =
    ([], waiting earliest late code bell ∷ slots, refl, refl, tt, tt)
take_batch_split now (ready earliest late bytes ∷ slots) h = elim (Bool-cases (leb earliest now)) [
  | inl aged ↦
      let (sent, left, whole, run, due, back) = take_batch_split now slots h.1 in
      (
        ready earliest late bytes ∷ sent,
        left,
        ap (λ t. ready earliest late bytes ∷ t) whole,
        if_true _ aged ∙ ap (λ t. (t.0, bytes ++ t.1)) run,
        ((ground arith, h.0), due),
        back,
      )
  | inr young ↦ ([], ready earliest late bytes ∷ slots, refl, if_false _ young, tt, ground arith)
]

-- If the deadlines do not fall from the front to the back, a flush drops slots at the front whose
-- deadline has passed, writes the replies of the slots behind them, which are ready, aged and
-- before their deadline, as one batch in their order, and leaves the rest, none of it past its
-- deadline. On a cooked terminal it writes nothing; on another the slot left at the front, if any,
-- waits for a client or is not aged.
pub flush_deferred_replies_lem :
    (now : ℕ) (cooked : Bool) (slots : List ReplySlot)
    → IsAscending (deadlines slots)
    → (dropped : List ReplySlot) × (sent : List ReplySlot) × (left : List ReplySlot) × (slots
        ≡ dropped ++ (sent ++ left))
      × (flush_deferred_replies now cooked slots ≡ (left, bytes_of sent))
      × All (λ s. deadline s ≤ now) dropped
      × All (IsDue now) sent
      × All (λ s. now < deadline s) left
      × (((cooked ≡ true) × (sent ≡ [])) ⊎ ((cooked ≡ false) × HoldsBack now left))
unfolding flush_deferred_replies
flush_deferred_replies_lem now true slots h =
    let (dropped, whole, expired, live) = drop_expired_split now slots h in
    (dropped, [], drop_expired now slots, whole, refl, expired, tt, live, inl (refl, refl))
flush_deferred_replies_lem now false slots h =
    let (dropped, whole, expired, live) = drop_expired_split now slots h in
    let (sent, left, parts, run, due, back) = take_batch_split now (drop_expired now slots) live in
    (
      dropped,
      sent,
      left,
      whole ∙ ap (λ t. dropped ++ t) parts,
      run,
      expired,
      due,
      All-behind (λ s. now < deadline s) sent left (subst (All (λ s. now < deadline s)) parts live),
      inr (refl, back),
    )
