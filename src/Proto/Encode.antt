-- ===== src/Proto/Encode.antt =====
-- `encode_client` (src/proto/mod.rs). The bytes are pushed in the order of the source.
use lrmux.Base.{ℕ, ◌%◌, min, Bool, Option, none, some, List, [], ◌∷◌, ◌++◌, length, take}
use lrmux.Base.{if◌then◌else◌}
use lrmux.Proto.Utf8.{Bytes}
use lrmux.Proto.Reader.{le16, le32, len32, frame}
use lrmux.Proto.Message.{
  InputEvent, Rgb, ClientMsg, tag, identify, pane_input, resize, select_window, new_session,
  select_session, rename_session, new_window_in, capture_window, send_keys, send_event,
  identify_control, control_command, term_osc_reply, term_palette, set_psk, register, relay_open,
  split_pane, focus_dir, focus_pane,
}

abbrev pub bool_byte : Bool → ℕ
bool_byte b = if b then 1 else 0

-- The length and the bytes of a text.
abbrev pub put_string : Bytes → Bytes
put_string s = len32 s ++ s

abbrev pub put_opt_string : Option Bytes → Bytes
put_opt_string none = 0 ∷ []
put_opt_string (some s) = 1 ∷ put_string s

abbrev pub put_opt_u8 : Option ℕ → Bytes
put_opt_u8 none = 0 ∷ []
put_opt_u8 (some w) = 1 ∷ w ∷ []

abbrev pub put_opt_rgb : Option Rgb → Bytes
put_opt_rgb none = 0 ∷ []
put_opt_rgb (some (r, g, b)) = 1 ∷ r ∷ g ∷ b ∷ []

abbrev pub put_env : List (Bytes × Bytes) → Bytes
put_env [] = []
put_env ((k, v) ∷ env) = put_string k ++ (put_string v ++ put_env env)

unfoldable pub encode_identify : ℕ → ℕ → Bool → Bytes → List (Bytes × Bytes) → Bytes
encode_identify rows cols attach auth_token env =
    le16 rows
    ++ (le16 cols
        ++ (bool_byte attach
            ∷ (put_string auth_token ++ (le32 (length env % 4294967296) ++ put_env env))))

unfoldable pub encode_new_session : Option Bytes → Option Bytes → Option Bytes → Bytes
encode_new_session name cwd command =
    put_opt_string name ++ (put_opt_string cwd ++ put_opt_string command)

unfoldable pub encode_new_window_in : Option Bytes → Option Bytes → Bytes
encode_new_window_in session command = put_opt_string session ++ put_opt_string command

-- The palette is one zero byte if neither colour is given.
abbrev pub put_palette : Option Rgb → Option Rgb → Bytes
put_palette none none = 0 ∷ []
put_palette none (some bg) = 1 ∷ (put_opt_rgb none ++ put_opt_rgb (some bg))
put_palette (some fg) term_bg = 1 ∷ (put_opt_rgb (some fg) ++ put_opt_rgb term_bg)

unfoldable pub encode_capture_window :
    Option Bytes → Option ℕ → ℕ → Bool → Option Rgb → Option Rgb → Bytes
encode_capture_window session window format colors term_fg term_bg =
    put_opt_string session
    ++ (put_opt_u8 window ++ (format ∷ bool_byte colors ∷ put_palette term_fg term_bg))

unfoldable pub encode_send_keys : Option Bytes → Option ℕ → Bytes → Bytes
encode_send_keys session window keys =
    put_opt_string session ++ (put_opt_u8 window ++ put_string keys)

abbrev pub put_event : InputEvent → Bytes
put_event ev = ev.kind ∷ ev.cb ∷ (le16 ev.x ++ (le16 ev.y ++ bool_byte ev.release ∷ []))

abbrev pub put_events : List InputEvent → Bytes
put_events [] = []
put_events (ev ∷ events) = put_event ev ++ put_events events

unfoldable pub encode_send_event : Option Bytes → Option ℕ → List InputEvent → Bytes
encode_send_event session window events =
    put_opt_string session
    ++ (put_opt_u8 window ++ (min (length events) 255 ∷ put_events (take 255 events)))

unfoldable pub encode_register : Bytes → Bytes → ℕ → Bool → Bytes → Bytes
encode_register server_id name tcp_port tls fingerprint =
    put_string server_id
    ++ (put_string name ++ (le16 tcp_port ++ (bool_byte tls ∷ put_string fingerprint)))

-- What stands behind the type tag.
unfoldable pub encode_body : ClientMsg → Bytes
encode_body (identify rows cols attach auth_token env) =
    encode_identify rows cols attach auth_token env
encode_body (pane_input bytes) = bytes
encode_body (resize rows cols) = le16 rows ++ le16 cols
encode_body (select_window index) = index ∷ []
encode_body (new_session name cwd command) = encode_new_session name cwd command
encode_body (select_session name) = put_string name
encode_body (rename_session name) = put_string name
encode_body (new_window_in session command) = encode_new_window_in session command
encode_body (capture_window session window format colors term_fg term_bg) =
    encode_capture_window session window format colors term_fg term_bg
encode_body (send_keys session window keys) = encode_send_keys session window keys
encode_body (send_event session window events) = encode_send_event session window events
encode_body (identify_control rows cols auth_token) =
    le16 rows ++ (le16 cols ++ put_string auth_token)
encode_body (control_command line) = put_string line
encode_body (term_osc_reply pane_id bytes) = le32 pane_id ++ put_string bytes
encode_body (term_palette fg bg) = put_opt_rgb fg ++ put_opt_rgb bg
encode_body (set_psk psk) = put_string psk
encode_body (register server_id name tcp_port tls fingerprint) =
    encode_register server_id name tcp_port tls fingerprint
encode_body (relay_open addr) = put_string addr
encode_body (split_pane dir) = dir ∷ []
encode_body (focus_dir dir) = dir ∷ []
encode_body (focus_pane pane_id) = le32 pane_id
encode_body _ = []

unfoldable pub encode_client : ClientMsg → Bytes
encode_client msg = frame (tag msg ∷ encode_body msg)
