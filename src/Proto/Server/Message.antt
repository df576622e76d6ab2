-- ===== src/Proto/Server/Message.antt =====
-- `ServerMsg` and the records in it (src/proto/mod.rs), with the fields in the order of the source.
use lrmux.Base.{ℕ, Bool, Option, List}
use lrmux.Grid.Cell.{Cell}
use lrmux.Proto.Utf8.{Bytes}

pub record SessionInfo : Type 0 where
  pub name : Bytes
  pub attached : ℕ
  pub created : ℕ
  pub last_activity : ℕ
  pub has_activity : Bool

pub record PeerInfo : Type 0 where
  pub server_id : Bytes
  pub name : Bytes
  pub addr : Bytes
  pub tls : Bool
  pub fingerprint : Bytes
  pub state : Bytes
  pub psk_ok : Bool
  pub sessions : List Bytes

pub record PaneRect : Type 0 where
  pub pane_id : ℕ
  pub x : ℕ
  pub y : ℕ
  pub cols : ℕ
  pub rows : ℕ

pub data ServerMsg : Type 0 where
  identify_ack : ℕ → ℕ → Bytes → Bytes → ServerMsg
  grid_snapshot : ℕ → ℕ → List Cell → ℕ → ℕ → Bool → ℕ → Option ℕ → ServerMsg
  grid_update : List (ℕ × List Cell) → ℕ → ℕ → Bool → ℕ → Option ℕ → ServerMsg
  scrollback_update : List (List Cell) → Bool → Option ℕ → ServerMsg
  window_layout : ℕ → ℕ → ℕ → List PaneRect → Bool → ServerMsg
  pane_exit : ℕ → ServerMsg
  error : Bytes → ServerMsg
  status_bar_update : Bytes → List Bytes → ℕ → ℕ → Bool → Bytes → List Bool → List Bool → ServerMsg
  session_list : List SessionInfo → Bytes → ServerMsg
  window_capture : Bytes → ServerMsg
  log_content : List Bytes → ServerMsg
  control_notify : Bytes → ServerMsg
  term_osc_query : ℕ → ℕ → Bool → ServerMsg
  psk_updated : ServerMsg
  peer_list : List PeerInfo → ServerMsg
  register_ack : Bool → Bytes → ServerMsg
  relay_ack : Bool → Bytes → ServerMsg
  send_keys_ack : Bool → Bytes → ServerMsg
  send_event_ack : Bool → Bytes → ServerMsg

-- `const S_…: u8`
abbrev pub server_tag : ServerMsg → ℕ
server_tag (identify_ack rows cols version address) = 0x10
server_tag (grid_snapshot rows cols cells row col visible mouse_flags pane_id) = 0x11
server_tag (grid_update dirty row col visible mouse_flags pane_id) = 0x12
server_tag (pane_exit code) = 0x13
server_tag (error msg) = 0x14
server_tag (status_bar_update session windows active count high server activity mouse) = 0x15
server_tag (session_list sessions address) = 0x16
server_tag (scrollback_update rows replay pane_id) = 0x17
server_tag (window_capture content) = 0x18
server_tag (log_content lines) = 0x19
server_tag (control_notify line) = 0x1a
server_tag (term_osc_query pane_id code bell) = 0x1b
server_tag psk_updated = 0x1c
server_tag (peer_list peers) = 0x1d
server_tag (register_ack ok reason) = 0x1e
server_tag (relay_ack ok reason) = 0x1f
server_tag (send_keys_ack ok reason) = 0x20
server_tag (send_event_ack ok reason) = 0x21
server_tag (window_layout rows cols active_pane panes zoomed) = 0x22
