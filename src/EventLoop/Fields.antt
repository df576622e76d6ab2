-- ===== src/EventLoop/Fields.antt =====
-- The fields of a payload as `try_parse_frame` (src/server/event_loop.rs) takes them. Where the source
-- moves an offset through `data`, a reader returns the bytes that are left; an offset past the end
-- is the empty rest.
use lrmux.Base.{ℕ, zero, suc, ◌+◌, min, Option, none, some, List, [], ◌∷◌, length, drop}
use lrmux.Base.{if◌then◌else◌}
use lrmux.Proto.Utf8.{Bytes}
use lrmux.Proto.Reader.{Result, ok, err, panic, Reader, ◌>>=◌, pure}
use lrmux.Proto.Reader.{read_u8, read_u16, read_u32, read_len_string}
use lrmux.Proto.Message.{Rgb, ClientMsg, identify, identify_control}
use lrmux.Proto.Decode.{nonzero, first_is_one, read_rgb, read_attach}

-- A flag byte and, if it is not zero, a text. With no byte left there is no text.
unfoldable pub read_opt_text : Reader (Option Bytes)
read_opt_text [] = ok (none, [])
read_opt_text (flag ∷ r) =
    if nonzero flag then (do s ← read_len_string; pure (some s)) r else ok (none, r)

-- The window of `CaptureWindow`, `SendKeys` and `SendEvent`.
unfoldable pub read_opt_u8 : Reader (Option ℕ)
read_opt_u8 [] = ok (none, [])
read_opt_u8 (flag ∷ r) = if nonzero flag then (do w ← read_u8; pure (some w)) r else ok (none, r)

-- A colour of `CaptureWindow` and `TermPalette`: the flag is exactly 1.
unfoldable pub read_color : Reader (Option Rgb)
read_color r = if first_is_one r then (do c ← read_rgb; pure (some c)) r else ok (none, drop 1 r)

unfoldable pub read_colors : Reader (Option Rgb × Option Rgb)
read_colors r =
    if first_is_one r
    then (do fg ← read_color; bg ← read_color; pure (fg, bg)) (drop 1 r)
    else ok ((none, none), r)

-- The token, empty if its length or its bytes are cut off.
abbrev token_or_empty : Result (Bytes × Bytes) → Bytes
token_or_empty (ok (s, r)) = s
token_or_empty (err e) = []
token_or_empty panic = []

unfoldable pub read_token : Bytes → Bytes
read_token r = token_or_empty (read_len_string r)

unfoldable pub read_pair : Reader (Bytes × Bytes)
read_pair = do k ← read_len_string; v ← read_len_string; pure (k, v)

-- The pairs in front of the first one that is cut off.
unfoldable pub take_pairs : ℕ → Bytes → List (Bytes × Bytes)
take_pairs zero r = []
take_pairs (suc n) r = elim (read_pair r) [
  | ok (pair, r') ↦ pair ∷ take_pairs n r'
  | err e ↦ []
  | panic ↦ []
]

-- The count and the pairs, absent on older clients; `count.min(64)`.
abbrev counted_pairs : Result (ℕ × Bytes) → List (Bytes × Bytes)
counted_pairs (ok (count, r)) = take_pairs (min count 64) r
counted_pairs (err e) = []
counted_pairs panic = []

unfoldable pub take_env : Bytes → List (Bytes × Bytes)
take_env r = counted_pairs (read_u32 r)

-- `tok_end` is counted from the decoded token.
unfoldable pub parse_identify : Reader ClientMsg
parse_identify = do
  rows ← read_u16
  cols ← read_u16
  attach ← read_attach
  (λ r.
      let auth_token = read_token r in
      ok (identify rows cols attach auth_token (take_env (drop (4 + length auth_token) r)), []))

unfoldable pub parse_identify_control : Reader ClientMsg
parse_identify_control = do
  rows ← read_u16
  cols ← read_u16
  (λ r. ok (identify_control rows cols (read_token r), []))
