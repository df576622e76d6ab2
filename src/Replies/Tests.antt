-- ===== src/Replies/Tests.antt =====
-- A pane of src/server/pane.rs that was asked three times: the first answer is there, the second query waits.
use lrmux.Base.{◌≡◌, ◌⊎◌, refl, false, true, arith, List, [], ◌∷◌, ◌++◌, ◌≤◌, ◌<◌, All}
use lrmux.Replies.Queue.{ReplySlot, ready, waiting, deadline, flush_deferred_replies, reply, call}
use lrmux.Replies.Queue.{drop_expired, take_batch}
use lrmux.Replies.Order.{IsDue, bytes_of, HoldsBack, flush_deferred_replies_lem}
use lrmux.Replies.Calls.{IsWritten, edited, call-IsWritten}

abbrev slots : List ReplySlot
slots = ready 8 100 (27 ∷ []) ∷ waiting 9 101 11 true ∷ ready 10 102 (28 ∷ []) ∷ []

flush_deferred_replies_lem_example :
    (dropped : List ReplySlot) × (sent : List ReplySlot) × (left : List ReplySlot) × (slots
      ≡ dropped ++ (sent ++ left))
    × (flush_deferred_replies 50 false slots ≡ (left, bytes_of sent))
    × All (λ s. deadline s ≤ 50) dropped
    × All (IsDue 50) sent
    × All (λ s. 50 < deadline s) left
    × (((false ≡ true) × (sent ≡ [])) ⊎ ((false ≡ false) × HoldsBack 50 left))
flush_deferred_replies_lem_example = flush_deferred_replies_lem 50 false slots (omega arith)

call-IsWritten_example :
    IsWritten 50 false (edited 50 (reply (29 ∷ [])) slots) (call 50 false (reply (29 ∷ [])) slots)
call-IsWritten_example =
    call-IsWritten 20 50 false (reply (29 ∷ [])) slots (omega arith) (omega arith, omega arith)

-- The second reply does not overtake the query in front of it.
held_back :
    flush_deferred_replies 50 false slots
    ≡ (waiting 9 101 11 true ∷ ready 10 102 (28 ∷ []) ∷ [], 27 ∷ [])
unfolding flush_deferred_replies drop_expired take_batch
held_back = refl
