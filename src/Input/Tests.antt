-- ===== src/Input/Tests.antt =====
-- The filter of src/client/input_filter.rs on a few bytes.
use lrmux.Base.{ℕ, ◌+◌, ◌≤◌, ◌≡◌, refl, arith, some, List, [], ◌∷◌, ◌++◌, All}
use lrmux.Input.Filter.{
  Bytes, InputFilter, hold_ms, new, feed, flush_expired, hold_remaining_ms, opener_of,
}
use lrmux.Input.Split.{feed-append}
use lrmux.Input.Tokens.{
  Token, byte, alt, control, text, st, osc, IsToken, all_bytes, all_keys, feed-all_bytes,
}
use lrmux.Input.Hold.{flush_expired-feed}
use lrmux.Input.Cut.{feed_cut}

-- `ESC ] 1`, which may be the start of a reply, held since millisecond 7.
abbrev holding : InputFilter
holding = record {
  pending = 0x1b ∷ 0x5d ∷ 0x31 ∷ [];
  pending_since = some 7;
  injected = [];
  ready = [];
}

feed-append_example :
    (f1 : InputFilter) × (f2 : InputFilter) × (out1 : Bytes) × (out2 : Bytes) × (feed 8
        (0x31 ∷ [])
        holding
      ≡ some (f1, out1))
    × (feed 9 (0x07 ∷ 0x61 ∷ []) f1 ≡ some (f2, out2))
    × (feed 9 (0x31 ∷ 0x07 ∷ 0x61 ∷ []) holding ≡ some (f2, out1 ++ out2))
feed-append_example = feed-append 8 9 (0x31 ∷ []) (0x07 ∷ 0x61 ∷ []) holding refl

-- `a`, Alt-b, the up arrow, a cursor report and a color report.
abbrev input : List Token
input =
    byte 0x61
    ∷ alt 0x62
    ∷ control [] 0x41
    ∷ control (0x31 ∷ 0x3b ∷ 0x31 ∷ []) 0x52
    ∷ text 0x5d (0x31 ∷ 0x31 ∷ []) st
    ∷ []

input-IsToken : All IsToken input
input-IsToken = (
  ground arith,
  (
    ground arith,
    (
      (tt, refl),
      (
        ((refl, (refl, (refl, tt))), refl),
        ((osc, ((ground arith, ground arith), ((ground arith, ground arith), tt))), tt),
      ),
    ),
  ),
)

feed-all_bytes_example : feed 0 (all_bytes input) new ≡ some (new, all_keys input)
feed-all_bytes_example = feed-all_bytes 0 input input-IsToken

-- The letter, the key with Alt and the arrow are left.
input_keys : all_keys input ≡ 0x61 ∷ 0x1b ∷ 0x62 ∷ 0x1b ∷ 0x5b ∷ 0x41 ∷ []
input_keys = refl

flush_expired-feed_example :
    (wait : ℕ) × (hold_remaining_ms 50 holding ≡ some wait)
    × (1 ≤ wait)
    × (wait ≤ hold_ms)
    × (feed (50 + wait) [] (flush_expired (50 + wait) holding)
        ≡ some (new, holding.ready ++ holding.pending))
flush_expired-feed_example = flush_expired-feed 50 7 holding refl (omega arith) refl

feed_cut_example :
    let reply : Bytes = 0x5d ∷ (0x31 ∷ 0x31 ∷ [] ++ 0x07 ∷ []) in
    (feed 1 (0x1b ∷ reply) new ≡ some (new, []))
    × (feed 1 (0x1b ∷ []) new ≡ some (new, 0x1b ∷ []))
    × (feed 2 reply new ≡ some (new, reply))
unfolding opener_of
feed_cut_example =
    feed_cut 1 2 0x5d (0x31 ∷ 0x31 ∷ []) refl
      ((ground arith, ground arith), ((ground arith, ground arith), tt))
