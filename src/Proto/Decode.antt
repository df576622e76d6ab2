-- ===== src/Proto/Decode.antt =====
-- `decode_client` (src/proto/mod.rs), one reader for each type tag with a payload.
use lrmux.Base.{
  ℕ, zero, suc, min, Bool, true, false, not, Option, none, some, List, [], ◌∷◌, length,
}
use lrmux.Base.{leb, ◌==◌, if◌then◌else◌}
use lrmux.Proto.Utf8.{Bytes, from_utf8_lossy}
use lrmux.Proto.Reader.{
  Result, ok, err, panic, unexpected_eof, invalid_data, Reader, ◌>>=◌, ◌>>◌, pure, branch,
}
use lrmux.Proto.Reader.{read_u8, read_u16, read_u32, slice, need, read_frame}
use lrmux.Proto.Reader.{read_unchecked_string, read_len_string, read_optional_string}
use lrmux.Proto.Message.{
  InputEvent, Rgb, ClientMsg, identify, pane_input, resize, detach, new_window, next_window,
  prev_window, select_window, kill_pane, new_session, next_session, prev_session, select_session,
  kill_session, rename_session, list_sessions, kill_server, new_window_in, capture_window,
  send_keys, send_event, get_log, identify_control, control_command, refresh, term_osc_reply,
  term_palette, set_psk, list_peers, register, relay_open, split_pane, focus_next, focus_prev,
  focus_dir, toggle_zoom, next_layout, focus_pane,
}

-- `n != 0`
abbrev pub nonzero : ℕ → Bool
nonzero n = not (n == 0)

-- `r = &r[1..]`
unfoldable pub skip_byte : Reader (Unit {0})
skip_byte [] = panic
skip_byte (b ∷ r) = ok (tt, r)

-- `r.first() == Some(&1)`
abbrev pub first_is_one : Bytes → Bool
first_is_one [] = false
first_is_one (b ∷ r) = b == 1

-- `r[1..4]` once four bytes are there, and `r = &r[4..]`.
unfoldable pub read_rgb : Reader Rgb
read_rgb (flag ∷ a ∷ b ∷ c ∷ r) = ok ((a, b, c), r)
read_rgb _ = err unexpected_eof

-- `attach`: the first byte if there is one, else `true`.
unfoldable pub read_attach : Reader Bool
read_attach [] = ok (true, [])
read_attach (b ∷ r) = ok (nonzero b, r)

unfoldable pub read_pairs : ℕ → Reader (List (Bytes × Bytes))
read_pairs zero = pure []
read_pairs (suc n) = do
  k ← read_optional_string
  v ← read_optional_string
  env ← read_pairs n
  pure ((k, v) ∷ env)

-- The environment, absent on older clients; at most 64 pairs are read.
unfoldable pub read_env : Reader (List (Bytes × Bytes))
read_env r =
    if leb 4 (length r) then (do count ← read_u32; read_pairs (min count 64)) r else ok ([], r)

unfoldable pub decode_identify : Reader ClientMsg
decode_identify = do
  rows ← read_u16
  cols ← read_u16
  attach ← read_attach
  auth_token ← read_optional_string
  env ← read_env
  pure (identify rows cols attach auth_token env)

-- One optional text of `NewSession`: the bytes of the text itself are not skipped.
unfoldable pub peek_opt_string : Reader (Option Bytes)
peek_opt_string = do
  flag ← read_u8
  branch (nonzero flag)
      (do len ← read_u32; (λ r. (slice len >>= λ s _. ok (some (from_utf8_lossy s), r)) r))
      (pure none)

unfoldable pub decode_new_session : Reader ClientMsg
decode_new_session = do
  name ← peek_opt_string
  cwd ← peek_opt_string
  command ← peek_opt_string
  pure (new_session name cwd command)

-- `session` of `NewWindowIn`, `SendKeys` and `SendEvent`.
unfoldable pub read_session : Reader (Option Bytes)
read_session r =
    if first_is_one r
    then (do skip_byte; s ← read_unchecked_string; pure (some s)) r
    else (do skip_byte; pure none) r

-- `session` of `CaptureWindow`.
unfoldable pub read_session_checked : Reader (Option Bytes)
read_session_checked r =
    if first_is_one r
    then (do skip_byte; s ← read_len_string; pure (some s)) r
    else (do skip_byte; pure none) r

unfoldable pub read_command : Reader (Option Bytes)
read_command r =
    if first_is_one r
    then (do skip_byte; s ← read_unchecked_string; pure (some s)) r
    else ok (none, r)

unfoldable pub decode_new_window_in : Reader ClientMsg
decode_new_window_in = do
  session ← read_session
  command ← read_command
  pure (new_window_in session command)

-- `let w = r[1]; r = &r[2..];`, a fault if there are fewer bytes.
unfoldable pub read_second : Result (ℕ × Bytes) → Reader ℕ
read_second short (flag ∷ w ∷ r) = ok (w, r)
read_second short _ = short

-- `window`; `short` is what happens if the index is cut off.
unfoldable pub read_window : Result (ℕ × Bytes) → Reader (Option ℕ)
read_window short r =
    if first_is_one r
    then (do w ← read_second short; pure (some w)) r
    else (do skip_byte; pure none) r

unfoldable pub read_format : Reader (ℕ × Bool)
read_format (f ∷ c ∷ r) = ok ((f, nonzero c), r)
read_format r = ok ((0, false), r)

unfoldable pub read_fg : Reader (Option Rgb)
read_fg r =
    if first_is_one r then (do c ← read_rgb; pure (some c)) r else (do skip_byte; pure none) r

unfoldable pub read_bg : Reader (Option Rgb)
read_bg r = if first_is_one r then (do c ← read_rgb; pure (some c)) r else ok (none, r)

unfoldable pub read_palette : Reader (Option Rgb × Option Rgb)
read_palette r =
    if first_is_one r
    then (do skip_byte; fg ← read_fg; bg ← read_bg; pure (fg, bg)) r
    else ok ((none, none), r)

unfoldable pub decode_capture_window : Reader ClientMsg
decode_capture_window = do
  session ← read_session_checked
  window ← read_window (err unexpected_eof)
  shape ← read_format
  palette ← read_palette
  pure (capture_window session window shape.0 shape.1 palette.0 palette.1)

unfoldable pub decode_send_keys : Reader ClientMsg
decode_send_keys = do
  session ← read_session
  window ← read_window panic
  klen ← read_u32
  keys ← slice klen
  pure (send_keys session window keys)

unfoldable pub read_event : Reader InputEvent
read_event = do
  kind ← read_u8
  cb ← read_u8
  x ← read_u16
  y ← read_u16
  release ← read_u8
  pure (record { kind = kind; cb = cb; x = x; y = y; release = nonzero release })

unfoldable pub read_events : ℕ → Reader (List InputEvent)
read_events zero = pure []
read_events (suc n) = do ev ← read_event; events ← read_events n; pure (ev ∷ events)

unfoldable pub decode_send_event : Reader ClientMsg
decode_send_event = do
  session ← read_session
  window ← read_window panic
  count ← read_u8
  events ← read_events count
  pure (send_event session window events)

unfoldable pub decode_term_osc_reply : Reader ClientMsg
decode_term_osc_reply = do
  pane_id ← read_u32
  len ← read_u32
  need len
  bytes ← slice len
  pure (term_osc_reply pane_id bytes)

unfoldable pub decode_register : Reader ClientMsg
decode_register = do
  server_id ← read_len_string
  name ← read_len_string
  tcp_port ← read_u16
  tls ← read_u8
  fingerprint ← read_len_string
  pure (register server_id name tcp_port (nonzero tls) fingerprint)

-- The payload behind a type tag.
unfoldable pub decode_body : ℕ → Reader ClientMsg
decode_body t =
    if t == 0x01
    then decode_identify
    else if t == 0x02
    then (λ r. ok (pane_input r, []))
    else if t == 0x03
    then (do rows ← read_u16; cols ← read_u16; pure (resize rows cols))
    else if t == 0x04
    then pure detach
    else if t == 0x05
    then pure new_window
    else if t == 0x06
    then pure next_window
    else if t == 0x07
    then pure prev_window
    else if t == 0x08
    then (do index ← read_u8; pure (select_window index))
    else if t == 0x09
    then pure kill_pane
    else if t == 0x0a
    then decode_new_session
    else if t == 0x0b
    then pure next_session
    else if t == 0x0c
    then pure prev_session
    else if t == 0x0f
    then (do name ← read_unchecked_string; pure (select_session name))
    else if t == 0x0e
    then pure kill_session
    else if t == 0x11
    then (do name ← read_unchecked_string; pure (rename_session name))
    else if t == 0x0d
    then pure list_sessions
    else if t == 0x10
    then pure kill_server
    else if t == 0x12
    then decode_new_window_in
    else if t == 0x13
    then decode_capture_window
    else if t == 0x14
    then decode_send_keys
    else if t == 0x1f
    then decode_send_event
    else if t == 0x15
    then pure get_log
    else if t == 0x16
    then (do
      rows ← read_u16
      cols ← read_u16
      auth_token ← read_optional_string
      pure (identify_control rows cols auth_token))
    else if t == 0x17
    then (do line ← read_unchecked_string; pure (control_command line))
    else if t == 0x18
    then pure refresh
    else if t == 0x19
    then decode_term_osc_reply
    else if t == 0x1a
    then (do fg ← read_fg; bg ← read_bg; pure (term_palette fg bg))
    else if t == 0x1b
    then (do psk ← read_unchecked_string; pure (set_psk psk))
    else if t == 0x1c
    then pure list_peers
    else if t == 0x1d
    then decode_register
    else if t == 0x1e
    then (do addr ← read_len_string; pure (relay_open addr))
    else if t == 0x20
    then (do dir ← read_u8; pure (split_pane dir))
    else if t == 0x21
    then pure focus_next
    else if t == 0x22
    then pure focus_prev
    else if t == 0x23
    then (do dir ← read_u8; pure (focus_dir dir))
    else if t == 0x24
    then pure toggle_zoom
    else if t == 0x25
    then pure next_layout
    else if t == 0x26
    then (do pane_id ← read_u32; pure (focus_pane pane_id))
    else (λ r. err invalid_data)

-- One message of the stream, and what is left of the stream.
unfoldable pub decode_client : Reader ClientMsg
decode_client = do
  (t, r) ← read_frame
  (λ stream. elim (decode_body t r) [
    | ok (msg, left) ↦ ok (msg, stream)
    | err e ↦ err e
    | panic ↦ panic
  ])
