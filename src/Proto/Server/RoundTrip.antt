-- ===== src/Proto/Server/RoundTrip.antt =====
-- The payload of a message through `encode_server` and `decode_server` (src/proto/mod.rs).
use lrmux.Base.{Bool, ◌≡◌, refl, ap, List, [], ◌∷◌}
use lrmux.Base.{length, IsU32, All}
use lrmux.Proto.Utf8.{Bytes}
use lrmux.Proto.Reader.{ok, Reader, read_u8, read_u32}
use lrmux.Proto.Reader.{read_unchecked_string, read_len_string}
use lrmux.Proto.Encode.{put_string, bool_byte}
use lrmux.Proto.Readers.{IsText, step, read_u32-le32, nonzero-bool_byte}
use lrmux.Proto.Server.Cells.{put_list, read_list}
use lrmux.Proto.Server.Message.{
  ServerMsg, identify_ack, grid_snapshot, grid_update, scrollback_update, window_layout, pane_exit,
  error, status_bar_update, session_list, window_capture, log_content, control_notify,
  term_osc_query, psk_updated, peer_list, register_ack, relay_ack, send_keys_ack, send_event_ack,
}
use lrmux.Proto.Server.Encode.{put_peer, encode_server_body}
use lrmux.Proto.Server.Decode.{read_bool, read_osc_tail, read_peer, read_ack}
use lrmux.Proto.Server.Decode.{decode_server_body}
use lrmux.Proto.Server.Puts.{
  Takes, read_list-put_list, All-map, read_bool-put, read_len_string-Takes,
  read_unchecked_string-Takes, IsPeer, read_peer-put_peer,
}
use lrmux.Proto.Server.Arms.{
  IsSendable, Decodes, take_last, decode_identify_ack_lem, decode_grid_snapshot_lem,
  decode_grid_update_lem, decode_scrollback_update_lem, decode_window_layout_lem,
  decode_status_bar_lem, decode_session_list_lem,
}

last_unchecked : (s : Bytes) → IsText s → read_unchecked_string (put_string s) ≡ ok (s, [])
last_unchecked s h = take_last read_unchecked_string put_string s (read_unchecked_string-Takes s h)

last_list :
    {A : Type 0} (read : Reader A) (put : A → Bytes) (P : A → Type 0) (xs : List A)
    → ((x : A) → P x → Takes read put x)
    → IsU32 (length xs) × All P xs
    → read_list read (put_list put xs) ≡ ok (xs, [])
last_list read put P xs takes (small, h) =
    take_last (read_list read) (put_list put) xs
      (read_list-put_list read put xs small (All-map takes xs h))

read_ack_lem :
    (ack : Bool → Bytes → ServerMsg) (accepted : Bool) (reason : Bytes)
    → IsText reason
    → read_ack ack (bool_byte accepted ∷ put_string reason) ≡ ok (ack accepted reason, [])
unfolding read_ack
read_ack_lem ack accepted reason h = step read_bool _ (read_bool-put accepted _) (
    step read_len_string _
      (take_last read_len_string put_string reason (read_len_string-Takes reason h)) refl)

pub decode-encode_server_body : (m : ServerMsg) → IsSendable m → Decodes m
unfolding decode_server_body encode_server_body read_u8 read_osc_tail
decode-encode_server_body (identify_ack rows cols version address) h =
    ([], decode_identify_ack_lem rows cols version address h)
decode-encode_server_body (grid_snapshot rows cols cells row col visible flags pane_id) h =
    ([], decode_grid_snapshot_lem rows cols cells row col visible flags pane_id h)
decode-encode_server_body (grid_update dirty row col visible flags pane_id) h =
    ([], decode_grid_update_lem dirty row col visible flags pane_id h)
decode-encode_server_body (scrollback_update rows replay pane_id) h =
    ([], decode_scrollback_update_lem rows replay pane_id h)
decode-encode_server_body (window_layout rows cols active panes zoomed) h =
    ([], decode_window_layout_lem rows cols active panes zoomed h)
decode-encode_server_body (pane_exit code) h = ([], refl)
decode-encode_server_body (error msg) h =
    ([], step read_unchecked_string _ (last_unchecked msg h) refl)
decode-encode_server_body
      (status_bar_update session windows active count high server activity mouse) h =
    ([], decode_status_bar_lem session windows active count high server activity mouse h)
decode-encode_server_body (session_list sessions address) h =
    ([], decode_session_list_lem sessions address h)
decode-encode_server_body (window_capture content) h =
    ([], step read_unchecked_string _ (last_unchecked content h) refl)
decode-encode_server_body (log_content lines) h = (
  [],
  step (read_list read_unchecked_string) _
      (last_list read_unchecked_string put_string IsText lines read_unchecked_string-Takes h) refl,
)
decode-encode_server_body (control_notify line) h =
    ([], step read_unchecked_string _ (last_unchecked line h) refl)
decode-encode_server_body (term_osc_query pane_id code bell) h = (
  code ∷ bool_byte bell ∷ [],
  step read_u32 _ (read_u32-le32 pane_id _ h) (
      ap (λ v. ok (term_osc_query pane_id code v, code ∷ bool_byte bell ∷ []))
        (nonzero-bool_byte bell)),
)
decode-encode_server_body psk_updated h = ([], refl)
decode-encode_server_body (peer_list peers) h = (
  [],
  step (read_list read_peer) _ (last_list read_peer put_peer IsPeer peers read_peer-put_peer h)
      refl,
)
decode-encode_server_body (register_ack accepted reason) h =
    ([], read_ack_lem register_ack accepted reason h)
decode-encode_server_body (relay_ack accepted reason) h =
    ([], read_ack_lem relay_ack accepted reason h)
decode-encode_server_body (send_keys_ack accepted reason) h =
    ([], read_ack_lem send_keys_ack accepted reason h)
decode-encode_server_body (send_event_ack accepted reason) h =
    ([], read_ack_lem send_event_ack accepted reason h)
