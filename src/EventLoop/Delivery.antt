-- ===== src/EventLoop/Delivery.antt =====
-- Messages from `encode_client` (src/proto/mod.rs) to the loop of src/server/event_loop.rs, whole and in
-- pieces.
use lrmux.Base.{ap₂, take, drop, if◌then◌else◌, ◌/◌}
use lrmux.Base.{ℕ, suc, ◌+◌, ◌*◌, ◌%◌, ◌≡◌, refl, sym, ap, ◌∙◌}
use lrmux.Base.{arith, Option, none, some, List, [], ◌∷◌, ◌++◌, length, append-nil}
use lrmux.Base.{IsU16, IsU32, length-append, take-append, drop-append, ltb, le→ltb, if_false}
use lrmux.Proto.Utf8.{Bytes}
use lrmux.Proto.Reader.{ok, len32, frame, read_u8, read_u16}
use lrmux.Proto.Message.{
  Rgb, ClientMsg, tag, identify, resize, select_window, new_session, select_session, rename_session,
  new_window_in, capture_window, send_keys, send_event, identify_control, control_command,
  term_osc_reply, term_palette, set_psk, register, relay_open, split_pane, focus_dir, focus_pane,
  list_peers, focus_next, focus_prev, toggle_zoom, next_layout,
}
use lrmux.Proto.Encode.{encode_body, encode_client, put_opt_rgb, put_string}
use lrmux.Proto.Decode.{decode_client}
use lrmux.Proto.Readers.{IsText, step, read_u16-le16}
use lrmux.Proto.RoundTrip.{IsSendable}
use lrmux.Proto.Stream.{decode_client-encode_client}
use lrmux.EventLoop.Fields.{parse_identify_control, read_color, read_token}
use lrmux.EventLoop.Frame.{parse_body, parse_payload, parse_term_palette, try_parse_frame}
use lrmux.EventLoop.Puts.{read_token-put, read_color-put}
use lrmux.EventLoop.Arrives.{
  IsArriving, Arrives, parse_identify_lem, parse_new_session_lem, parse_new_window_in_lem,
  parse_capture_window_lem, parse_send_keys_lem, parse_send_event_lem, parse_term_osc_reply_lem,
  parse_text_lem,
}
use lrmux.EventLoop.Loop.{Dispatch, Conn, waiting, Batch, ended, in_front, outcome, handled, turn}

-- The number that four bytes of a length stand for.
le32_value :
    (n : ℕ)
    → IsU32 n
    → let k = n % 4294967296 in
      k % 256 + 256 * (k / 256 % 256) + 65536 * (k / 65536 % 256) + 16777216 * (k / 16777216 % 256)
      ≡ n
le32_value n h = omega arith

read_token_end : (s : Bytes) → IsText s → read_token (put_string s) ≡ s
read_token_end s h = ap read_token (sym (append-nil (put_string s))) ∙ read_token-put s [] h

-- The types that the loop leaves to the decoder of the protocol.
framed-Arrives :
    (m : ClientMsg)
    → IsSendable m
    → IsU32 (suc (length (encode_body m)))
    → decode_client (frame (tag m ∷ encode_body m)) ≡ ok (m, [])
framed-Arrives m h small =
    ap decode_client (sym (append-nil (frame (tag m ∷ encode_body m))))
    ∙ (unfold encode_client in decode_client-encode_client m [] h small)

parse_identify_control_lem :
    (rows cols : ℕ) (auth_token : Bytes)
    → IsU16 rows × IsU16 cols × IsText auth_token
    → Arrives (identify_control rows cols auth_token)
unfolding parse_body encode_body parse_identify_control
parse_identify_control_lem rows cols auth_token h = (
  [],
  step read_u16 _ (read_u16-le16 rows _ h.0) (
      step read_u16 _ (read_u16-le16 cols _ h.1)
        (ap (λ s. ok (identify_control rows cols s, [])) (read_token_end auth_token h.2))),
)

parse_term_palette_lem : (fg bg : Option Rgb) → Arrives (term_palette fg bg)
unfolding parse_body encode_body parse_term_palette
parse_term_palette_lem fg bg = (
  [],
  step read_color _ (read_color-put fg _) (
      step read_color _ (ap read_color (sym (append-nil (put_opt_rgb bg))) ∙ read_color-put bg [])
        refl),
)

parse_body-encode_body :
    (m : ClientMsg) → IsArriving m → IsU32 (suc (length (encode_body m))) → Arrives m
unfolding parse_body encode_body
parse_body-encode_body (identify rows cols attach auth_token env) h small =
    ([], parse_identify_lem rows cols attach auth_token env h)
parse_body-encode_body (resize rows cols) h small = (
  [],
  step read_u16 _ (read_u16-le16 rows _ h.0) (step read_u16 _ (read_u16-le16 cols [] h.1) refl),
)
parse_body-encode_body (select_window index) h small = ([], unfold read_u8 in refl)
parse_body-encode_body (new_session name cwd command) h small =
    ([], parse_new_session_lem name cwd command h)
parse_body-encode_body (select_session name) h small = ([], parse_text_lem select_session name h)
parse_body-encode_body (rename_session name) h small = ([], parse_text_lem rename_session name h)
parse_body-encode_body (new_window_in session command) h small =
    ([], parse_new_window_in_lem session command h)
parse_body-encode_body (capture_window session window format colors fg bg) h small =
    parse_capture_window_lem session window format colors fg bg h
parse_body-encode_body (send_keys session window keys) h small =
    parse_send_keys_lem session window keys h
parse_body-encode_body (send_event session window events) h small =
    parse_send_event_lem session window events h
parse_body-encode_body (identify_control rows cols auth_token) h small =
    parse_identify_control_lem rows cols auth_token h
parse_body-encode_body (control_command line) h small = ([], parse_text_lem control_command line h)
parse_body-encode_body (term_osc_reply pane_id bytes) h small =
    parse_term_osc_reply_lem pane_id bytes h
parse_body-encode_body (term_palette fg bg) h small = parse_term_palette_lem fg bg
parse_body-encode_body (set_psk psk) h small = ([], parse_text_lem set_psk psk h)
parse_body-encode_body list_peers h small = ([], framed-Arrives list_peers h small)
parse_body-encode_body (register server_id name tcp_port tls fingerprint) h small =
    ([], framed-Arrives (register server_id name tcp_port tls fingerprint) h small)
parse_body-encode_body (relay_open addr) h small = ([], framed-Arrives (relay_open addr) h small)
parse_body-encode_body (split_pane dir) h small = ([], framed-Arrives (split_pane dir) h small)
parse_body-encode_body focus_next h small = ([], framed-Arrives focus_next h small)
parse_body-encode_body focus_prev h small = ([], framed-Arrives focus_prev h small)
parse_body-encode_body (focus_dir dir) h small = ([], framed-Arrives (focus_dir dir) h small)
parse_body-encode_body toggle_zoom h small = ([], framed-Arrives toggle_zoom h small)
parse_body-encode_body next_layout h small = ([], framed-Arrives next_layout h small)
parse_body-encode_body (focus_pane pane_id) h small =
    ([], framed-Arrives (focus_pane pane_id) h small)
parse_body-encode_body _ h small = ([], refl)

parse_payload-encode_body :
    (m : ClientMsg)
    → IsArriving m
    → IsU32 (suc (length (encode_body m)))
    → parse_payload (tag m ∷ encode_body m) ≡ ok (some m)
unfolding parse_payload
parse_payload-encode_body m h small =
    let found = parse_body-encode_body m h small in ground (arith, found.1)

-- A message with numbers in the range of their types, texts in UTF-8, at most 64 pairs of an
-- environment and 255 events, `NewSession` with any name, directory and command, its payload with
-- the tag shorter than 4 GiB, encoded and put in front of any bytes, is what `try_parse_frame`
-- takes off the buffer, and those bytes are left.
pub try_parse_frame-encode_client :
    (m : ClientMsg) (rest : Bytes)
    → IsArriving m
    → IsU32 (suc (length (encode_body m)))
    → try_parse_frame (encode_client m ++ rest) ≡ (ok (some m), rest)
unfolding try_parse_frame encode_client frame
try_parse_frame-encode_client m rest h small =
    let p = tag m ∷ encode_body m in
    ap
      (λ len.
        if ltb (length (p ++ rest)) len
        then (ok none, len32 p ++ (p ++ rest))
        else (parse_payload (take len (p ++ rest)), drop len (p ++ rest)))
      (le32_value (length p) small)
    ∙ if_false _ (le→ltb (length (p ++ rest)) (length p) (omega (arith, length-append p rest)))
    ∙ ap₂ (λ s r. (parse_payload s, r)) (take-append p rest) (drop-append p rest)
    ∙ ap (λ r. (r, rest)) (parse_payload-encode_body m h small)

abbrev pub encode_all : List ClientMsg → Bytes
encode_all [] = []
encode_all (m ∷ ms) = encode_client m ++ encode_all ms

-- A message that can be sent, with its payload and the tag shorter than 4 GiB.
abbrev pub IsDeliverable : ClientMsg → Type 0
IsDeliverable m = IsArriving m × IsU32 (suc (length (encode_body m)))

module _ {S : Type 0} (d : Dispatch S) where
  -- The messages one after the other, till one leaves the loop.
  abbrev pub deliver : Conn S → List ClientMsg → Bytes → Batch S
  deliver c [] tail = ended waiting c tail
  deliver c (m ∷ ms) tail =
      in_front m (turn (outcome d c.state m) (λ c'. deliver c' ms tail) (handled d c m))
