-- ===== src/Replies/Calls.antt =====
-- Every call on the replies of a pane (src/server/pane.rs), at the time at which it is made.
use lrmux.Base.{◌⊎◌, inl, inr}
use lrmux.Base.{ℕ, ◌+◌, ◌≤◌, Bool, true, false, ◌≡◌, refl, sym, ap, ◌∙◌}
use lrmux.Base.{subst, if◌then◌else◌, arith}
use lrmux.Base.{Option, none, some, List, [], ◌∷◌, ◌++◌, All}
use lrmux.Proto.Message.{Rgb}
use lrmux.Replies.Queue.{
  ReplySlot, ready, waiting, deadline, reply_defer_max, queue_ready_reply, queue_waiting_reply,
  flush_deferred_replies, write_reply, fill_first, fill_coded, fill_osc_reply, code_of_reply,
  color_for, filled_with, resolve_slot, resolve_slots, resolve_waiting_from_palette,
  drop_first_waiting, drop_waiting_reply, Call, flush, reply, query, answer, palette, give_up, call,
}
use lrmux.Replies.Order.{IsAscending, deadlines, IsQueue, IsDue, bytes_of, HoldsBack}
use lrmux.Replies.Order.{flush_deferred_replies_lem}

-- What is left of a queue is a queue, also later.
later_IsQueue : (t now : ℕ) (slots : List ReplySlot) → t ≤ now → IsQueue t slots → IsQueue now slots
later_IsQueue t now slots h (order, near) = (order, further slots near)
  where
    further :
        (xs : List ReplySlot)
        → All (λ d. d ≤ t + reply_defer_max) (deadlines xs)
        → All (λ d. d ≤ now + reply_defer_max) (deadlines xs)
    further [] q = tt
    further (x ∷ xs) q = (omega (arith, q.0), further xs q.1)

behind_IsQueue : (now : ℕ) (xs ys : List ReplySlot) → IsQueue now (xs ++ ys) → IsQueue now ys
behind_IsQueue now [] ys h = h
behind_IsQueue now (x ∷ xs) ys (order, near) = behind_IsQueue now xs ys (order.1, near.1)

flush_deferred_replies-IsQueue :
    (now : ℕ) (cooked : Bool) (slots : List ReplySlot)
    → IsQueue now slots
    → IsQueue now (flush_deferred_replies now cooked slots).0
flush_deferred_replies-IsQueue now cooked slots h =
    let (dropped, sent, left, whole, run, expired, due, live, back) =
      flush_deferred_replies_lem now cooked slots h.0 in
    subst (IsQueue now) (sym (ap (λ t. t.0) run)) (
      behind_IsQueue now sent left
        (behind_IsQueue now dropped (sent ++ left) (subst (IsQueue now) whole h)))

push_IsQueue :
    (now : ℕ) (slots : List ReplySlot) (slot : ReplySlot)
    → deadline slot ≡ now + reply_defer_max
    → IsQueue now slots
    → IsQueue now (slots ++ slot ∷ [])
push_IsQueue now [] slot e h = ((tt, tt), (omega (arith, e), tt))
push_IsQueue now (x ∷ xs) slot e (order, near) =
    let (order', near') = push_IsQueue now xs slot e (order.1, near.1) in
    ((below xs order.0, order'), (near.0, near'))
  where
    below :
        (ys : List ReplySlot)
        → All (λ d. deadline x ≤ d) (deadlines ys)
        → All (λ d. deadline x ≤ d) (deadlines (ys ++ slot ∷ []))
    below [] q = (omega (arith, e, near.0), tt)
    below (y ∷ ys) q = (q.0, below ys q.1)

deadlines-fill_first :
    (now code : ℕ) (bytes : List ℕ) (slots : List ReplySlot)
    → deadlines (fill_first now code bytes slots) ≡ deadlines slots
unfolding fill_first
deadlines-fill_first now code bytes [] = refl
deadlines-fill_first now code bytes (ready earliest late old ∷ slots) =
    ap (λ t. late ∷ t) (deadlines-fill_first now code bytes slots)
deadlines-fill_first now code bytes (waiting earliest late c bell ∷ slots) =
    ground (arith, deadlines-fill_first now code bytes slots)

deadline-filled_with :
    (earliest late code : ℕ) (bell : Bool) (o : Option Rgb)
    → deadline (filled_with earliest late code bell o).0 ≡ late
deadline-filled_with earliest late code bell none = refl
deadline-filled_with earliest late code bell (some rgb) = refl

deadline-resolve_slot :
    (fg bg : Option Rgb) (slot : ReplySlot) → deadline (resolve_slot fg bg slot).0 ≡ deadline slot
deadline-resolve_slot fg bg (ready earliest late bytes) = refl
deadline-resolve_slot fg bg (waiting earliest late code bell) =
    deadline-filled_with earliest late code bell (color_for code fg bg)

deadlines-resolve_slots :
    (fg bg : Option Rgb) (slots : List ReplySlot)
    → deadlines (resolve_slots fg bg slots).0 ≡ deadlines slots
unfolding resolve_slots
deadlines-resolve_slots fg bg [] = refl
deadlines-resolve_slots fg bg (slot ∷ slots) =
    ap (λ d. d ∷ deadlines (resolve_slots fg bg slots).0) (deadline-resolve_slot fg bg slot)
    ∙ ap (λ t. deadline slot ∷ t) (deadlines-resolve_slots fg bg slots)

-- One slot less.
drop_first_waiting_below :
    (P : ℕ → Type 0) (slots : List ReplySlot)
    → All P (deadlines slots)
    → All P (deadlines (drop_first_waiting slots))
unfolding drop_first_waiting
drop_first_waiting_below P [] h = tt
drop_first_waiting_below P (ready earliest late bytes ∷ slots) h =
    (h.0, drop_first_waiting_below P slots h.1)
drop_first_waiting_below P (waiting earliest late code bell ∷ slots) h = h.1

drop_first_waiting-IsAscending :
    (slots : List ReplySlot)
    → IsAscending (deadlines slots)
    → IsAscending (deadlines (drop_first_waiting slots))
unfolding drop_first_waiting
drop_first_waiting-IsAscending [] h = tt
drop_first_waiting-IsAscending (ready earliest late bytes ∷ slots) h =
    (drop_first_waiting_below (λ d. late ≤ d) slots h.0, drop_first_waiting-IsAscending slots h.1)
drop_first_waiting-IsAscending (waiting earliest late code bell ∷ slots) h = h.1

-- What a call makes of the queue before it flushes.
abbrev pub edited : ℕ → Call → List ReplySlot → List ReplySlot
edited now flush slots = slots
edited now (reply bytes) slots = queue_ready_reply now bytes slots
edited now (query code bell) slots = queue_waiting_reply now code bell slots
edited now (answer bytes) slots = fill_coded now (code_of_reply bytes) bytes slots
edited now (palette fg bg) slots = (resolve_slots fg bg slots).0
edited now give_up slots = drop_first_waiting slots

-- The queue falls into slots that are dropped, slots that are written, and the slots left, which are a
-- queue again.
abbrev pub IsWritten : ℕ → Bool → List ReplySlot → List ReplySlot × List ℕ → Type 0
IsWritten now cooked queue result =
    (dropped : List ReplySlot) × (sent : List ReplySlot) × (queue ≡ dropped ++ (sent ++ result.0))
    × (result.1 ≡ bytes_of sent)
    × All (λ s. deadline s ≤ now) dropped
    × All (IsDue now) sent
    × ((cooked ≡ false) ⊎ (sent ≡ []))
    × IsQueue now result.0

flush_deferred_replies-IsWritten :
    (now : ℕ) (cooked : Bool) (slots : List ReplySlot)
    → IsQueue now slots
    → IsWritten now cooked slots (flush_deferred_replies now cooked slots)
flush_deferred_replies-IsWritten now cooked slots h =
    let (dropped, sent, left, whole, run, expired, due, live, back) =
      flush_deferred_replies_lem now cooked slots h.0 in
    let same : left ≡ (flush_deferred_replies now cooked slots).0 = sym (ap (λ t. t.0) run) in
    (
      dropped,
      sent,
      whole ∙ ap (λ t. dropped ++ (sent ++ t)) same,
      ap (λ t. t.1) run,
      expired,
      due,
      held left sent back,
      flush_deferred_replies-IsQueue now cooked slots h,
    )
  where
    held :
        (left sent : List ReplySlot)
        → ((cooked ≡ true) × (sent ≡ [])) ⊎ ((cooked ≡ false) × HoldsBack now left)
        → (cooked ≡ false) ⊎ (sent ≡ [])
    held left sent (inl (e, none_sent)) = inr none_sent
    held left sent (inr (e, b)) = inl e

unflushed_IsWritten :
    (now : ℕ) (cooked : Bool) (slots : List ReplySlot)
    → IsQueue now slots
    → IsWritten now cooked slots (slots, [])
unflushed_IsWritten now cooked slots h = ([], [], refl, refl, tt, tt, inr refl, h)

same_deadlines :
    (now : ℕ) (xs ys : List ReplySlot)
    → deadlines ys ≡ deadlines xs
    → IsQueue now xs
    → IsQueue now ys
same_deadlines now xs ys e h =
    subst (λ d. IsAscending d × All (λ a. a ≤ now + reply_defer_max) d) (sym e) h

fill_coded-IsQueue :
    (now : ℕ) (o : Option ℕ) (bytes : List ℕ) (slots : List ReplySlot)
    → IsQueue now slots
    → IsQueue now (fill_coded now o bytes slots)
fill_coded-IsQueue now none bytes slots h = h
fill_coded-IsQueue now (some code) bytes slots h =
    same_deadlines now slots _ (deadlines-fill_first now code bytes slots) h

resolved-IsWritten :
    (now : ℕ) (cooked filled : Bool) (slots : List ReplySlot)
    → IsQueue now slots
    → IsWritten now cooked slots
        (if filled then flush_deferred_replies now cooked slots else (slots, []))
resolved-IsWritten now cooked true slots h = flush_deferred_replies-IsWritten now cooked slots h
resolved-IsWritten now cooked false slots h = unflushed_IsWritten now cooked slots h

call_now :
    (now : ℕ) (cooked : Bool) (c : Call) (slots : List ReplySlot)
    → IsQueue now slots
    → IsWritten now cooked (edited now c slots) (call now cooked c slots)
unfolding call
call_now now cooked flush slots h = flush_deferred_replies-IsWritten now cooked slots h
call_now now cooked (reply bytes) slots h =
    unfold write_reply queue_ready_reply in
    flush_deferred_replies-IsWritten now cooked _ (push_IsQueue now slots _ refl h)
call_now now cooked (query code bell) slots h =
    unfold queue_waiting_reply in unflushed_IsWritten now cooked _ (push_IsQueue now slots _ refl h)
call_now now cooked (answer bytes) slots h =
    unfold fill_osc_reply in
    flush_deferred_replies-IsWritten now cooked _
      (fill_coded-IsQueue now (code_of_reply bytes) bytes slots h)
call_now now cooked (palette fg bg) slots h =
    unfold resolve_waiting_from_palette in
    resolved-IsWritten now cooked (resolve_slots fg bg slots).1 (resolve_slots fg bg slots).0
      (same_deadlines now slots _ (deadlines-resolve_slots fg bg slots) h)
call_now now cooked give_up slots h =
    unfold drop_waiting_reply in
    flush_deferred_replies-IsWritten now cooked (drop_first_waiting slots) (
      drop_first_waiting-IsAscending slots h.0,
      drop_first_waiting_below (λ d. d ≤ now + reply_defer_max) slots h.1,
    )

-- A call, on a queue whose deadlines do not fall and lie at most 100 ms ahead, at the same time or
-- later, adds, fills or takes out its slots and then splits the queue into three parts in order:
-- slots past their deadline, which are dropped, ready slots that have aged and are before their
-- deadline, whose replies are what is written, one behind the other, and the slots left, which are
-- such a queue again. On a cooked terminal nothing is written.
pub call-IsWritten :
    (t now : ℕ) (cooked : Bool) (c : Call) (slots : List ReplySlot)
    → t ≤ now
    → IsQueue t slots
    → IsWritten now cooked (edited now c slots) (call now cooked c slots)
call-IsWritten t now cooked c slots le h =
    call_now now cooked c slots (later_IsQueue t now slots le h)
