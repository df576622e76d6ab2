-- ===== src/Proto/Server/Decode.antt =====
-- `decode_server` (src/proto/mod.rs), one reader for each type tag with a payload.
use lrmux.Base.{
  ℕ, zero, suc, ◌+◌, ◌-◌, ◌*◌, Bool, true, false, Option, none, some, List, [], ◌∷◌, ◌++◌,
}
use lrmux.Base.{length, replicate, leb, ◌==◌, if◌then◌else◌}
use lrmux.Grid.Cell.{Cell}
use lrmux.Proto.Utf8.{Bytes}
use lrmux.Proto.Reader.{ok, err, panic, unexpected_eof, invalid_data, Reader, ◌>>=◌, pure}
use lrmux.Proto.Reader.{read_u8, read_u16, read_u32, read_frame}
use lrmux.Proto.Reader.{read_unchecked_string, read_len_string, read_optional_string}
use lrmux.Proto.Decode.{nonzero}
use lrmux.Proto.Server.Cells.{read_list, decode_cell}
use lrmux.Proto.Server.Message.{
  SessionInfo, PeerInfo, PaneRect, ServerMsg, identify_ack, grid_snapshot, grid_update,
  scrollback_update, window_layout, pane_exit, error, status_bar_update, session_list,
  window_capture, log_content, control_notify, term_osc_query, psk_updated, peer_list, register_ack,
  relay_ack, send_keys_ack, send_event_ack,
}

unfoldable pub read_u64 : Reader ℕ
read_u64 (a ∷ b ∷ c ∷ d ∷ e ∷ f ∷ g ∷ h ∷ r) = ok (
  a
      + 256 * b
      + 65536 * c
      + 16777216 * d
      + 4294967296 * e
      + 1099511627776 * f
      + 281474976710656 * g
      + 72057594037927936 * h,
  r,
)
read_u64 _ = err unexpected_eof

-- `"unknown".to_string()`
abbrev pub unknown : Bytes
unknown = 117 ∷ 110 ∷ 107 ∷ 110 ∷ 111 ∷ 119 ∷ 110 ∷ []

-- `if r.is_empty() { … } else { … }`
unfoldable pub unless_empty : {A : Type 0} → A → Reader A → Reader A
unless_empty absent read [] = ok (absent, [])
unless_empty absent read (b ∷ r) = read (b ∷ r)

-- `read_u8(&mut r)? != 0`
unfoldable pub read_bool : Reader Bool
read_bool = do b ← read_u8; pure (nonzero b)

unfoldable pub decode_identify_ack : Reader ServerMsg
decode_identify_ack = do
  rows ← read_u16
  cols ← read_u16
  version ← unless_empty unknown read_unchecked_string
  address ← unless_empty unknown read_unchecked_string
  pure (identify_ack rows cols version address)

-- The pane, absent on older servers.
unfoldable pub read_pane_id : Reader (Option ℕ)
read_pane_id r = if leb 4 (length r) then (do pid ← read_u32; pure (some pid)) r else ok (none, r)

abbrev pub read_row : Reader (List Cell)
read_row = read_list decode_cell

unfoldable pub decode_grid_snapshot : Reader ServerMsg
decode_grid_snapshot = do
  rows ← read_u16
  cols ← read_u16
  cells ← read_row
  row ← read_u16
  col ← read_u16
  visible ← read_bool
  mouse_flags ← unless_empty 0 read_u8
  pane_id ← read_pane_id
  pure (grid_snapshot rows cols cells row col visible mouse_flags pane_id)

unfoldable pub read_dirty : Reader (ℕ × List Cell)
read_dirty = do row ← read_u16; cells ← read_row; pure (row, cells)

unfoldable pub decode_grid_update : Reader ServerMsg
decode_grid_update = do
  dirty ← read_list read_dirty
  row ← read_u16
  col ← read_u16
  visible ← read_bool
  mouse_flags ← unless_empty 0 read_u8
  pane_id ← read_pane_id
  pure (grid_update dirty row col visible mouse_flags pane_id)

unfoldable pub decode_scrollback_update : Reader ServerMsg
decode_scrollback_update = do
  replay ← read_bool
  rows ← read_list read_row
  pane_id ← read_pane_id
  pure (scrollback_update rows replay pane_id)

unfoldable pub read_pane : Reader PaneRect
read_pane = do
  pane_id ← read_u32
  x ← read_u16
  y ← read_u16
  cols ← read_u16
  rows ← read_u16
  pure (record { pane_id = pane_id; x = x; y = y; cols = cols; rows = rows })

unfoldable pub decode_window_layout : Reader ServerMsg
decode_window_layout = do
  rows ← read_u16
  cols ← read_u16
  active_pane ← read_u32
  panes ← read_list read_pane
  zoomed ← unless_empty false read_bool
  pure (window_layout rows cols active_pane panes zoomed)

-- `!r.is_empty() && r[0] != 0`, and that byte is skipped.
unfoldable pub read_high : Reader Bool
read_high [] = ok (false, [])
read_high (b ∷ r) = ok (nonzero b, r)

-- At most one flag for each window, as far as the bytes go.
unfoldable pub take_flags : ℕ → Reader (List Bool)
take_flags zero r = ok ([], r)
take_flags (suc n) [] = ok ([], [])
take_flags (suc n) (b ∷ r) = (do flags ← take_flags n; pure (nonzero b ∷ flags)) r

-- `while flags.len() < n { flags.push(false) }`
abbrev pub pad_flags : ℕ → List Bool → List Bool
pad_flags n flags = flags ++ replicate (n - length flags) false

unfoldable pub read_flags : ℕ → Reader (List Bool)
read_flags n = do flags ← take_flags n; pure (pad_flags n flags)

unfoldable pub decode_status_bar : Reader ServerMsg
decode_status_bar = do
  session ← read_unchecked_string
  windows ← read_list read_unchecked_string
  active ← read_u16
  count ← read_u16
  high ← read_high
  server ← read_optional_string
  activity ← read_flags (length windows)
  mouse ← read_flags (length windows)
  pure (status_bar_update session windows active count high server activity mouse)

unfoldable pub read_session_info : Reader SessionInfo
read_session_info = do
  name ← read_len_string
  attached ← read_u16
  created ← read_u64
  last_activity ← read_u64
  has_activity ← read_bool
  pure (record {
    name = name;
    attached = attached;
    created = created;
    last_activity = last_activity;
    has_activity = has_activity;
  })

unfoldable pub decode_session_list : Reader ServerMsg
decode_session_list = do
  sessions ← read_list read_session_info
  address ← unless_empty unknown read_len_string
  pure (session_list sessions address)

-- `r[0]`, then `r.get(1).copied().unwrap_or(1) != 0`.
unfoldable pub read_osc_tail : ℕ → Reader ServerMsg
read_osc_tail pane_id [] = err unexpected_eof
read_osc_tail pane_id (code ∷ []) = ok (term_osc_query pane_id code true, code ∷ [])
read_osc_tail pane_id (code ∷ bell ∷ r) =
    ok (term_osc_query pane_id code (nonzero bell), code ∷ bell ∷ r)

unfoldable pub read_peer : Reader PeerInfo
read_peer = do
  server_id ← read_len_string
  name ← read_len_string
  addr ← read_len_string
  tls ← read_bool
  fingerprint ← read_len_string
  state ← read_len_string
  psk_ok ← read_bool
  sessions ← read_list read_len_string
  pure (record {
    server_id = server_id;
    name = name;
    addr = addr;
    tls = tls;
    fingerprint = fingerprint;
    state = state;
    psk_ok = psk_ok;
    sessions = sessions;
  })

-- The four acknowledgements.
unfoldable pub read_ack : (Bool → Bytes → ServerMsg) → Reader ServerMsg
read_ack ack = do accepted ← read_bool; reason ← read_len_string; pure (ack accepted reason)

-- The payload behind a type tag.
unfoldable pub decode_server_body : ℕ → Reader ServerMsg
decode_server_body t =
    if t == 0x10
    then decode_identify_ack
    else if t == 0x11
    then decode_grid_snapshot
    else if t == 0x12
    then decode_grid_update
    else if t == 0x13
    then (do code ← read_u8; pure (pane_exit code))
    else if t == 0x14
    then (do msg ← read_unchecked_string; pure (error msg))
    else if t == 0x15
    then decode_status_bar
    else if t == 0x16
    then decode_session_list
    else if t == 0x17
    then decode_scrollback_update
    else if t == 0x18
    then (do content ← read_unchecked_string; pure (window_capture content))
    else if t == 0x19
    then (do lines ← read_list read_unchecked_string; pure (log_content lines))
    else if t == 0x1a
    then (do line ← read_unchecked_string; pure (control_notify line))
    else if t == 0x1b
    then (do pane_id ← read_u32; read_osc_tail pane_id)
    else if t == 0x1c
    then pure psk_updated
    else if t == 0x1d
    then (do peers ← read_list read_peer; pure (peer_list peers))
    else if t == 0x1e
    then read_ack register_ack
    else if t == 0x1f
    then read_ack relay_ack
    else if t == 0x20
    then read_ack send_keys_ack
    else if t == 0x21
    then read_ack send_event_ack
    else if t == 0x22
    then decode_window_layout
    else (λ r. err invalid_data)

-- One message of the stream, and what is left of the stream.
unfoldable pub decode_server : Reader ServerMsg
decode_server = do
  (t, r) ← read_frame
  (λ stream. elim (decode_server_body t r) [
    | ok (msg, left) ↦ ok (msg, stream)
    | err e ↦ err e
    | panic ↦ panic
  ])
