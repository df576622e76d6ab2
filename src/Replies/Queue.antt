-- ===== src/Replies/Queue.antt =====
-- The queue of replies to the terminal queries of a child (src/server/pane.rs). Times are milliseconds,
-- and the time of a call is an argument. A call returns the queue and the bytes that it writes.
use lrmux.Base.{ℕ, ◌+◌, ◌*◌, ◌-◌, Bool, true, false, ◌&&◌, ◌||◌, ltb, leb, ◌==◌}
use lrmux.Base.{if◌then◌else◌, Option, none, some, List, [], ◌∷◌, ◌++◌, to_decimal, to_hex4}
use lrmux.Proto.Message.{Rgb}

-- The time before which a slot stays, the time from which on it is dropped, and the reply, or the
-- code and the terminator of the query that a client has to answer.
pub data ReplySlot : Type 0 where
  ready : ℕ → ℕ → List ℕ → ReplySlot
  waiting : ℕ → ℕ → ℕ → Bool → ReplySlot

abbrev pub deadline : ReplySlot → ℕ
deadline (ready earliest late bytes) = late
deadline (waiting earliest late code bell) = late

abbrev pub reply_min_delay : ℕ
reply_min_delay = 8

abbrev pub reply_defer_max : ℕ
reply_defer_max = 100

unfoldable pub queue_ready_reply : ℕ → List ℕ → List ReplySlot → List ReplySlot
queue_ready_reply now bytes slots =
    slots ++ ready (now + reply_min_delay) (now + reply_defer_max) bytes ∷ []

unfoldable pub queue_waiting_reply : ℕ → ℕ → Bool → List ReplySlot → List ReplySlot
queue_waiting_reply now code bell slots =
    slots ++ waiting (now + reply_min_delay) (now + reply_defer_max) code bell ∷ []

-- The slots at the front whose time has passed are dropped.
unfoldable pub drop_expired : ℕ → List ReplySlot → List ReplySlot
drop_expired now [] = []
drop_expired now (slot ∷ slots) =
    let later = drop_expired now slots in if leb (deadline slot) now then later else slot ∷ slots

-- The ready and aged slots at the front, as one batch, and the slots behind them.
unfoldable pub take_batch : ℕ → List ReplySlot → List ReplySlot × List ℕ
take_batch now [] = ([], [])
take_batch now (waiting earliest late code bell ∷ slots) =
    (waiting earliest late code bell ∷ slots, [])
take_batch now (ready earliest late bytes ∷ slots) =
    let (left, batch) = take_batch now slots in
    if leb earliest now then (left, bytes ++ batch) else (ready earliest late bytes ∷ slots, [])

unfoldable pub flush_deferred_replies : ℕ → Bool → List ReplySlot → List ReplySlot × List ℕ
flush_deferred_replies now cooked slots =
    let live = drop_expired now slots in if cooked then (live, []) else take_batch now live

unfoldable pub write_reply : ℕ → Bool → List ℕ → List ReplySlot → List ReplySlot × List ℕ
write_reply now cooked bytes slots =
    flush_deferred_replies now cooked (queue_ready_reply now bytes slots)

-- `data.get(2..4)` as a number: two digits, or a plus sign and a digit.
abbrev pub is_digit : ℕ → Bool
is_digit b = leb 48 b && leb b 57

unfoldable pub code_of_reply : List ℕ → Option ℕ
code_of_reply (x ∷ y ∷ a ∷ b ∷ rest) =
    if is_digit a && is_digit b
    then some (10 * (a - 48) + (b - 48))
    else if a == 43 && is_digit b
    then some (b - 48)
    else none
code_of_reply bytes = none

-- The first slot that waits for the code takes the reply, unless its time has passed.
unfoldable pub fill_first : ℕ → ℕ → List ℕ → List ReplySlot → List ReplySlot
fill_first now code bytes [] = []
fill_first now code bytes (ready earliest late old ∷ slots) =
    ready earliest late old ∷ fill_first now code bytes slots
fill_first now code bytes (waiting earliest late c bell ∷ slots) =
    let later = fill_first now code bytes slots in
    if c == code
    then (if ltb now late then ready earliest late bytes else waiting earliest late c bell) ∷ slots
    else waiting earliest late c bell ∷ later

-- A reply with no code fits no slot.
abbrev pub fill_coded : ℕ → Option ℕ → List ℕ → List ReplySlot → List ReplySlot
fill_coded now none bytes slots = slots
fill_coded now (some code) bytes slots = fill_first now code bytes slots

unfoldable pub fill_osc_reply : ℕ → Bool → List ℕ → List ReplySlot → List ReplySlot × List ℕ
fill_osc_reply now cooked bytes slots =
    flush_deferred_replies now cooked (fill_coded now (code_of_reply bytes) bytes slots)

-- `format_osc_color_reply` of src/term/mod.rs.
unfoldable pub format_osc_color_reply : ℕ → Rgb → Bool → List ℕ
format_osc_color_reply code (r, g, b) bell =
    0x1b
    ∷ 0x5d
    ∷ (to_decimal 3 code
        ++ (0x3b
            ∷ 0x72
            ∷ 0x67
            ∷ 0x62
            ∷ 0x3a
            ∷ (to_hex4 (r * 257)
                ++ (0x2f
                    ∷ (to_hex4 (g * 257)
                        ++ (0x2f
                            ∷ (to_hex4 (b * 257)
                                ++ (if bell then 0x07 ∷ [] else 0x1b ∷ 0x5c ∷ []))))))))

abbrev pub color_for : ℕ → Option Rgb → Option Rgb → Option Rgb
color_for code fg bg = if code == 10 then fg else if code == 11 then bg else none

-- A slot that waits for a color that is known now, with whether it was filled.
abbrev pub filled_with : ℕ → ℕ → ℕ → Bool → Option Rgb → ReplySlot × Bool
filled_with earliest late code bell none = (waiting earliest late code bell, false)
filled_with earliest late code bell (some rgb) =
    (ready earliest late (format_osc_color_reply code rgb bell), true)

abbrev pub resolve_slot : Option Rgb → Option Rgb → ReplySlot → ReplySlot × Bool
resolve_slot fg bg (ready earliest late bytes) = (ready earliest late bytes, false)
resolve_slot fg bg (waiting earliest late code bell) =
    filled_with earliest late code bell (color_for code fg bg)

unfoldable pub resolve_slots : Option Rgb → Option Rgb → List ReplySlot → List ReplySlot × Bool
resolve_slots fg bg [] = ([], false)
resolve_slots fg bg (slot ∷ slots) =
    let (slot', filled) = resolve_slot fg bg slot in
    let (slots', more) = resolve_slots fg bg slots in (slot' ∷ slots', filled || more)

-- `fg` and `bg` are the pane's colors, or else those of the fallback.
unfoldable pub resolve_waiting_from_palette :
    ℕ → Bool → Option Rgb → Option Rgb → List ReplySlot → List ReplySlot × List ℕ
resolve_waiting_from_palette now cooked fg bg slots =
    let (slots', filled) = resolve_slots fg bg slots in
    if filled then flush_deferred_replies now cooked slots' else (slots', [])

unfoldable pub drop_first_waiting : List ReplySlot → List ReplySlot
drop_first_waiting [] = []
drop_first_waiting (ready earliest late bytes ∷ slots) =
    ready earliest late bytes ∷ drop_first_waiting slots
drop_first_waiting (waiting earliest late code bell ∷ slots) = slots

unfoldable pub drop_waiting_reply : ℕ → Bool → List ReplySlot → List ReplySlot × List ℕ
drop_waiting_reply now cooked slots = flush_deferred_replies now cooked (drop_first_waiting slots)

-- The calls that act on the queue.
pub data Call : Type 0 where
  flush : Call
  reply : List ℕ → Call
  query : ℕ → Bool → Call
  answer : List ℕ → Call
  palette : Option Rgb → Option Rgb → Call
  give_up : Call

unfoldable pub call : ℕ → Bool → Call → List ReplySlot → List ReplySlot × List ℕ
call now cooked flush slots = flush_deferred_replies now cooked slots
call now cooked (reply bytes) slots = write_reply now cooked bytes slots
call now cooked (query code bell) slots = (queue_waiting_reply now code bell slots, [])
call now cooked (answer bytes) slots = fill_osc_reply now cooked bytes slots
call now cooked (palette fg bg) slots = resolve_waiting_from_palette now cooked fg bg slots
call now cooked give_up slots = drop_waiting_reply now cooked slots
