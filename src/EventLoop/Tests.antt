-- ===== src/EventLoop/Tests.antt =====
-- Buffers of src/server/event_loop.rs, whole, cut and made up.
use lrmux.Base.{
  ◌≡◌, ◌≢◌, refl, arith, none, some, List, [], ◌∷◌, ◌++◌, take, drop, length, ℕ, ◌+◌, ltb, leb,
  false, true,
}
use lrmux.Proto.Utf8.{Bytes, is_utf8, first_char}
use lrmux.Proto.Reader.{ok, panic, frame, le32}
use lrmux.Proto.Message.{ClientMsg, new_session, focus_next, detach}
use lrmux.Proto.Encode.{encode_body, encode_client, encode_new_session}
use lrmux.Proto.Readers.{IsText}
use lrmux.EventLoop.Frame.{try_parse_frame}
use lrmux.EventLoop.Loop.{
  Dispatch, Conn, wrote, ended, waiting, removed, feed, outcome, opens, relay, flush_relay_in,
}
use lrmux.EventLoop.Total.{try_parse_frame-ne_panic}
use lrmux.EventLoop.Delivery.{try_parse_frame-encode_client, deliver, encode_all}

-- A `SetPsk` whose text claims a hundred bytes and has two.
abbrev lie : Bytes
lie = frame (0x1b ∷ (le32 100 ++ 104 ∷ 105 ∷ []))

try_parse_frame-ne_panic_example : (try_parse_frame lie).0 ≢ panic
try_parse_frame-ne_panic_example = try_parse_frame-ne_panic lie

hi-IsText : IsText (104 ∷ 105 ∷ [])
unfolding is_utf8 first_char
hi-IsText = (refl, omega arith)

-- A session `hi` in the default directory.
abbrev hi : ClientMsg
hi = new_session (some (104 ∷ 105 ∷ [])) none none

hi_small : length (encode_body hi) ≡ 9
unfolding encode_body encode_new_session
hi_small = refl

try_parse_frame-encode_client_example :
    try_parse_frame (encode_client hi ++ 7 ∷ []) ≡ (ok (some hi), 7 ∷ [])
try_parse_frame-encode_client_example =
    try_parse_frame-encode_client hi (7 ∷ []) (hi-IsText, tt, tt) (omega (arith, hi_small))

-- A server with as many sessions as the number says, whose peers take what they are sent.
abbrev toy : Dispatch ℕ
toy = record {
  act = λ s m. s;
  refuses = λ s token. ltb 0 (length token);
  closes = λ s m. leb s 1;
  connects = λ s addr. ltb 0 (length addr);
  write = λ s bytes. (wrote (length bytes), s);
}

abbrev conn : Conn ℕ
conn = record { state = 2; relay_peer = false; relay_in = []; close_when_idle = false }

-- Three messages, the second in two reads; the last one comes when the client has left.
abbrev messages : List ClientMsg
messages = hi ∷ detach ∷ focus_next ∷ []

abbrev cut : ℕ
cut = length (encode_client hi) + 2

abbrev reads : List Bytes
reads = take cut (encode_all messages) ∷ drop cut (encode_all messages) ∷ []

-- What follows a `Detach` is not handled.
left_behind :
    deliver toy conn messages []
    ≡ record { messages = hi ∷ detach ∷ []; conn = conn; ending = removed; left = [] }
unfolding outcome opens
left_behind = refl

-- A relay that is open passes on what follows, and reads no frame in it.
relayed :
    feed toy (ended waiting (record conn { relay_peer = true }) (1 ∷ [])) (2 ∷ [])
    ≡ ended waiting (record conn { relay_peer = true }) []
unfolding feed relay flush_relay_in
relayed = refl
