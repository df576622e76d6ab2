-- ===== src/Proto/Server/Encode.antt =====
-- `encode_server` (src/proto/mod.rs). The bytes are pushed in the order of the source.
use lrmux.Base.{ℕ, ◌/◌, ◌%◌, Bool, Option, none, some, List, [], ◌∷◌, ◌++◌}
use lrmux.Grid.Cell.{Cell}
use lrmux.Proto.Utf8.{Bytes}
use lrmux.Proto.Reader.{le16, le32, frame}
use lrmux.Proto.Encode.{bool_byte, put_string}
use lrmux.Proto.Server.Cells.{put_all, put_list, encode_cell}
use lrmux.Proto.Server.Message.{
  SessionInfo, PeerInfo, PaneRect, ServerMsg, server_tag, identify_ack, grid_snapshot, grid_update,
  scrollback_update, window_layout, pane_exit, error, status_bar_update, session_list,
  window_capture, log_content, control_notify, term_osc_query, psk_updated, peer_list, register_ack,
  relay_ack, send_keys_ack, send_event_ack,
}

-- `n.to_le_bytes()` of a `u64`.
abbrev pub le64 : ℕ → Bytes
le64 n =
    n % 256
    ∷ n / 256 % 256
    ∷ n / 65536 % 256
    ∷ n / 16777216 % 256
    ∷ n / 4294967296 % 256
    ∷ n / 1099511627776 % 256
    ∷ n / 281474976710656 % 256
    ∷ n / 72057594037927936 % 256
    ∷ []

-- `if let Some(pid) = pane_id`
abbrev pub put_pane_id : Option ℕ → Bytes
put_pane_id none = []
put_pane_id (some pid) = le32 pid

-- The fields behind the cells of a snapshot and of an update.
abbrev pub put_cursor : ℕ → ℕ → Bool → ℕ → Option ℕ → Bytes
put_cursor row col visible mouse_flags pane_id =
    le16 row ++ (le16 col ++ (bool_byte visible ∷ mouse_flags ∷ put_pane_id pane_id))

abbrev pub put_row : List Cell → Bytes
put_row cells = put_list encode_cell cells

abbrev pub put_dirty : ℕ × List Cell → Bytes
put_dirty (row, cells) = le16 row ++ put_row cells

abbrev pub put_pane : PaneRect → Bytes
put_pane p = le32 p.pane_id ++ (le16 p.x ++ (le16 p.y ++ (le16 p.cols ++ le16 p.rows)))

abbrev pub put_flag : Bool → Bytes
put_flag flag = bool_byte flag ∷ []

abbrev pub put_session : SessionInfo → Bytes
put_session info =
    put_string info.name
    ++ (le16 info.attached
        ++ (le64 info.created ++ (le64 info.last_activity ++ put_flag info.has_activity)))

abbrev pub put_peer : PeerInfo → Bytes
put_peer p =
    put_string p.server_id
    ++ (put_string p.name
        ++ (put_string p.addr
            ++ (bool_byte p.tls
                ∷ (put_string p.fingerprint
                    ++ (put_string p.state
                        ++ (bool_byte p.psk_ok ∷ put_list put_string p.sessions))))))

unfoldable pub encode_status_bar :
    Bytes → List Bytes → ℕ → ℕ → Bool → Bytes → List Bool → List Bool → Bytes
encode_status_bar session windows active count high server activity mouse =
    put_string session
    ++ (put_list put_string windows
        ++ (le16 active
            ++ (le16 count
                ++ (bool_byte high
                    ∷ (put_string server
                        ++ (put_all put_flag activity ++ put_all put_flag mouse))))))

-- What stands behind the type tag.
unfoldable pub encode_server_body : ServerMsg → Bytes
encode_server_body (identify_ack rows cols version address) =
    le16 rows ++ (le16 cols ++ (put_string version ++ put_string address))
encode_server_body (grid_snapshot rows cols cells row col visible mouse_flags pane_id) =
    le16 rows ++ (le16 cols ++ (put_row cells ++ put_cursor row col visible mouse_flags pane_id))
encode_server_body (grid_update dirty row col visible mouse_flags pane_id) =
    put_list put_dirty dirty ++ put_cursor row col visible mouse_flags pane_id
encode_server_body (scrollback_update rows replay pane_id) =
    bool_byte replay ∷ (put_list put_row rows ++ put_pane_id pane_id)
encode_server_body (window_layout rows cols active_pane panes zoomed) =
    le16 rows ++ (le16 cols ++ (le32 active_pane ++ (put_list put_pane panes ++ put_flag zoomed)))
encode_server_body (pane_exit code) = code ∷ []
encode_server_body (error msg) = put_string msg
encode_server_body (status_bar_update session windows active count high server activity mouse) =
    encode_status_bar session windows active count high server activity mouse
encode_server_body (session_list sessions address) =
    put_list put_session sessions ++ put_string address
encode_server_body (window_capture content) = put_string content
encode_server_body (log_content lines) = put_list put_string lines
encode_server_body (control_notify line) = put_string line
encode_server_body (term_osc_query pane_id code bell) = le32 pane_id ++ (code ∷ put_flag bell)
encode_server_body psk_updated = []
encode_server_body (peer_list peers) = put_list put_peer peers
encode_server_body (register_ack ok reason) = bool_byte ok ∷ put_string reason
encode_server_body (relay_ack ok reason) = bool_byte ok ∷ put_string reason
encode_server_body (send_keys_ack ok reason) = bool_byte ok ∷ put_string reason
encode_server_body (send_event_ack ok reason) = bool_byte ok ∷ put_string reason

unfoldable pub encode_server : ServerMsg → Bytes
encode_server msg = frame (server_tag msg ∷ encode_server_body msg)
