-- ===== src/EventLoop/Frame.antt =====
-- `try_parse_frame` (src/server/event_loop.rs): one frame of a client's buffer.
use lrmux.Base.{ℕ, ◌+◌, ◌*◌, Option, none, some, [], ◌∷◌, length, take, drop}
use lrmux.Base.{ltb, ◌==◌, if◌then◌else◌}
use lrmux.Proto.Utf8.{Bytes}
use lrmux.Proto.Reader.{Result, ok, err, panic, invalid_data, Reader, ◌>>=◌, ◌>>◌, pure}
use lrmux.Proto.Reader.{read_u8, read_u16, read_u32, slice, need, read_len_string, frame}
use lrmux.Proto.Message.{
  ClientMsg, pane_input, resize, detach, new_window, next_window, prev_window, select_window,
  kill_pane, new_session, next_session, prev_session, select_session, kill_session, rename_session,
  list_sessions, kill_server, new_window_in, capture_window, send_keys, send_event, get_log,
  control_command, refresh, term_osc_reply, term_palette, set_psk,
}
use lrmux.Proto.Decode.{read_format, read_events, decode_client}
use lrmux.EventLoop.Fields.{read_opt_text, read_opt_u8, read_color, read_colors}
use lrmux.EventLoop.Fields.{parse_identify, parse_identify_control}

unfoldable pub parse_new_session : Reader ClientMsg
parse_new_session = do
  need 1
  name ← read_opt_text
  cwd ← read_opt_text
  command ← read_opt_text
  pure (new_session name cwd command)

unfoldable pub parse_new_window_in : Reader ClientMsg
parse_new_window_in = do
  need 2
  session ← read_opt_text
  command ← read_opt_text
  pure (new_window_in session command)

unfoldable pub parse_capture_window : Reader ClientMsg
parse_capture_window = do
  need 2
  session ← read_opt_text
  window ← read_opt_u8
  shape ← read_format
  colors ← read_colors
  pure (capture_window session window shape.0 shape.1 colors.0 colors.1)

unfoldable pub parse_send_keys : Reader ClientMsg
parse_send_keys = do
  need 2
  session ← read_opt_text
  window ← read_opt_u8
  klen ← read_u32
  need klen
  keys ← slice klen
  pure (send_keys session window keys)

unfoldable pub parse_send_event : Reader ClientMsg
parse_send_event = do
  need 2
  session ← read_opt_text
  window ← read_opt_u8
  count ← read_u8
  need (count * 7)
  events ← read_events count
  pure (send_event session window events)

unfoldable pub parse_term_osc_reply : Reader ClientMsg
parse_term_osc_reply = do
  pane_id ← read_u32
  dlen ← read_u32
  need dlen
  bytes ← slice dlen
  pure (term_osc_reply pane_id bytes)

unfoldable pub parse_term_palette : Reader ClientMsg
parse_term_palette = do fg ← read_color; bg ← read_color; pure (term_palette fg bg)

-- A message of one text.
unfoldable pub parse_text : (Bytes → ClientMsg) → Reader ClientMsg
parse_text make = do s ← read_len_string; pure (make s)

-- `match msg_type`, with `data` as the input; a type that is not spelled out goes to the decoder of
-- the protocol in a frame of its own.
unfoldable pub parse_body : ℕ → Reader ClientMsg
parse_body t =
    if t == 0x01
    then parse_identify
    else if t == 0x02
    then (λ r. ok (pane_input r, []))
    else if t == 0x03
    then (do rows ← read_u16; cols ← read_u16; pure (resize rows cols))
    else if t == 0x04
    then pure detach
    else if t == 0x05
    then pure new_window
    else if t == 0x06
    then pure next_window
    else if t == 0x07
    then pure prev_window
    else if t == 0x08
    then (do index ← read_u8; pure (select_window index))
    else if t == 0x09
    then pure kill_pane
    else if t == 0x0a
    then parse_new_session
    else if t == 0x0b
    then pure next_session
    else if t == 0x0c
    then pure prev_session
    else if t == 0x0f
    then parse_text select_session
    else if t == 0x0e
    then pure kill_session
    else if t == 0x0d
    then pure list_sessions
    else if t == 0x10
    then pure kill_server
    else if t == 0x11
    then parse_text rename_session
    else if t == 0x12
    then parse_new_window_in
    else if t == 0x13
    then parse_capture_window
    else if t == 0x14
    then parse_send_keys
    else if t == 0x1f
    then parse_send_event
    else if t == 0x15
    then pure get_log
    else if t == 0x16
    then parse_identify_control
    else if t == 0x17
    then parse_text control_command
    else if t == 0x18
    then pure refresh
    else if t == 0x19
    then parse_term_osc_reply
    else if t == 0x1a
    then parse_term_palette
    else if t == 0x1b
    then parse_text set_psk
    else (λ r. decode_client (frame (t ∷ r)))

abbrev message : Result (ClientMsg × Bytes) → Result (Option ClientMsg)
message (ok (m, r)) = ok (some m)
message (err e) = err e
message panic = panic

unfoldable pub parse_payload : Bytes → Result (Option ClientMsg)
parse_payload [] = err invalid_data
parse_payload (t ∷ r) = message (parse_body t r)

-- The result and the buffer afterwards.
unfoldable pub try_parse_frame : Bytes → Result (Option ClientMsg) × Bytes
try_parse_frame (a ∷ b ∷ c ∷ d ∷ rest) =
    let len = a + 256 * b + 65536 * c + 16777216 * d in
    if ltb (length rest) len
    then (ok none, a ∷ b ∷ c ∷ d ∷ rest)
    else (parse_payload (take len rest), drop len rest)
try_parse_frame buf = (ok none, buf)
