-- ===== src/Proto/Message.antt =====
-- The messages of a client (src/proto/mod.rs): `ClientMsg`, `InputEvent`, and the type tags. The fields
-- of a constructor stand in the order of the source. A `String` is its bytes.
use lrmux.Base.{ℕ, Bool, Option, List}
use lrmux.Proto.Utf8.{Bytes}

pub record InputEvent : Type 0 where
  pub kind : ℕ
  pub cb : ℕ
  pub x : ℕ
  pub y : ℕ
  pub release : Bool

-- Red, green and blue.
abbrev pub Rgb : Type 0
Rgb = ℕ × ℕ × ℕ

pub data ClientMsg : Type 0 where
  identify : ℕ → ℕ → Bool → Bytes → List (Bytes × Bytes) → ClientMsg
  pane_input : Bytes → ClientMsg
  resize : ℕ → ℕ → ClientMsg
  detach : ClientMsg
  new_window : ClientMsg
  next_window : ClientMsg
  prev_window : ClientMsg
  select_window : ℕ → ClientMsg
  kill_pane : ClientMsg
  new_session : Option Bytes → Option Bytes → Option Bytes → ClientMsg
  next_session : ClientMsg
  prev_session : ClientMsg
  select_session : Bytes → ClientMsg
  kill_session : ClientMsg
  rename_session : Bytes → ClientMsg
  list_sessions : ClientMsg
  kill_server : ClientMsg
  new_window_in : Option Bytes → Option Bytes → ClientMsg
  capture_window : Option Bytes → Option ℕ → ℕ → Bool → Option Rgb → Option Rgb → ClientMsg
  send_keys : Option Bytes → Option ℕ → Bytes → ClientMsg
  send_event : Option Bytes → Option ℕ → List InputEvent → ClientMsg
  get_log : ClientMsg
  identify_control : ℕ → ℕ → Bytes → ClientMsg
  control_command : Bytes → ClientMsg
  refresh : ClientMsg
  term_osc_reply : ℕ → Bytes → ClientMsg
  term_palette : Option Rgb → Option Rgb → ClientMsg
  set_psk : Bytes → ClientMsg
  list_peers : ClientMsg
  register : Bytes → Bytes → ℕ → Bool → Bytes → ClientMsg
  relay_open : Bytes → ClientMsg
  split_pane : ℕ → ClientMsg
  focus_next : ClientMsg
  focus_prev : ClientMsg
  focus_dir : ℕ → ClientMsg
  toggle_zoom : ClientMsg
  next_layout : ClientMsg
  focus_pane : ℕ → ClientMsg

-- `const C_…: u8`
abbrev pub tag : ClientMsg → ℕ
tag (identify rows cols attach auth_token env) = 0x01
tag (pane_input bytes) = 0x02
tag (resize rows cols) = 0x03
tag detach = 0x04
tag new_window = 0x05
tag next_window = 0x06
tag prev_window = 0x07
tag (select_window index) = 0x08
tag kill_pane = 0x09
tag (new_session name cwd command) = 0x0a
tag next_session = 0x0b
tag prev_session = 0x0c
tag (select_session name) = 0x0f
tag kill_session = 0x0e
tag (rename_session name) = 0x11
tag list_sessions = 0x0d
tag kill_server = 0x10
tag (new_window_in session command) = 0x12
tag (capture_window session window format colors term_fg term_bg) = 0x13
tag (send_keys session window keys) = 0x14
tag (send_event session window events) = 0x1f
tag get_log = 0x15
tag (identify_control rows cols auth_token) = 0x16
tag (control_command line) = 0x17
tag refresh = 0x18
tag (term_osc_reply pane_id bytes) = 0x19
tag (term_palette fg bg) = 0x1a
tag (set_psk psk) = 0x1b
tag list_peers = 0x1c
tag (register server_id name tcp_port tls fingerprint) = 0x1d
tag (relay_open addr) = 0x1e
tag (split_pane dir) = 0x20
tag focus_next = 0x21
tag focus_prev = 0x22
tag (focus_dir dir) = 0x23
tag toggle_zoom = 0x24
tag next_layout = 0x25
tag (focus_pane pane_id) = 0x26
