-- ===== src/Proto/Server/Arms.antt =====
-- The messages with several fields through `encode_server` and `decode_server` (src/proto/mod.rs).
use lrmux.Base.{
  ℕ, ◌-◌, Bool, false, ◌≡◌, refl, sym, ap, ◌∙◌, arith, Option, none, some, List, [], ◌∷◌,
}
use lrmux.Base.{◌++◌, length, replicate, append-nil, IsU16, IsU32, All}
use lrmux.Grid.Cell.{Cell}
use lrmux.Proto.Utf8.{Bytes}
use lrmux.Proto.Reader.{Result, ok, Reader, read_u8, read_u16, read_u32, le16}
use lrmux.Proto.Reader.{read_unchecked_string, read_len_string, read_optional_string}
use lrmux.Proto.Encode.{put_string, bool_byte}
use lrmux.Proto.RoundTrip.{read_u8-cons}
use lrmux.Proto.Readers.{
  IsText, step, read_u16-le16, read_u32-le32, read_optional_string-put, nonzero-bool_byte,
}
use lrmux.Proto.Server.Cells.{put_all, read_list}
use lrmux.Proto.Server.Message.{
  SessionInfo, PaneRect, ServerMsg, server_tag, identify_ack, grid_snapshot, grid_update,
  scrollback_update, window_layout, error, status_bar_update, session_list, window_capture,
  log_content, control_notify, term_osc_query, peer_list, register_ack, relay_ack, send_keys_ack,
  send_event_ack,
}
use lrmux.Proto.Server.Encode.{
  put_pane_id, put_row, put_dirty, put_pane, put_flag, put_session, encode_status_bar,
  encode_server_body,
}
use lrmux.Proto.Server.Decode.{
  read_bool, read_pane_id, read_row, read_dirty, read_pane, read_high, take_flags, read_flags,
  read_session_info, unless_empty, unknown,
}
use lrmux.Proto.Server.Decode.{
  decode_identify_ack, decode_grid_snapshot, decode_grid_update, decode_scrollback_update,
  decode_window_layout, decode_status_bar, decode_session_list, decode_server_body,
}
use lrmux.Proto.Server.Puts.{
  Takes, read_list-put_list, All-map, read_bool-put, IsRow, read_row-put_row, IsDirty,
  read_dirty-put_dirty, IsPane, read_pane-put_pane, read_len_string-Takes,
  read_unchecked_string-Takes, IsSession, read_session_info-put_session, IsPeer,
}

abbrev pub IsOptU32 : Option ℕ → Type 0
IsOptU32 none = Unit
IsOptU32 (some n) = IsU32 n

-- The messages whose fields lie in the range of their types, with as many flags as windows.
abbrev pub IsSendable : ServerMsg → Type 0
IsSendable (identify_ack rows cols version address) =
    IsU16 rows × IsU16 cols × IsText version × IsText address
IsSendable (grid_snapshot rows cols cells row col visible mouse_flags pane_id) =
    IsU16 rows × IsU16 cols × IsRow cells × IsU16 row × IsU16 col × IsOptU32 pane_id
IsSendable (grid_update dirty row col visible mouse_flags pane_id) =
    IsU32 (length dirty) × All IsDirty dirty × IsU16 row × IsU16 col × IsOptU32 pane_id
IsSendable (scrollback_update rows replay pane_id) =
    IsU32 (length rows) × All IsRow rows × IsOptU32 pane_id
IsSendable (window_layout rows cols active_pane panes zoomed) =
    IsU16 rows × IsU16 cols × IsU32 active_pane × IsU32 (length panes) × All IsPane panes
IsSendable (error msg) = IsText msg
IsSendable (status_bar_update session windows active count high server activity mouse) =
    IsText session
    × IsU32 (length windows)
    × All IsText windows
    × IsU16 active
    × IsU16 count
    × IsText server
    × (length activity ≡ length windows)
    × (length mouse ≡ length windows)
IsSendable (session_list sessions address) =
    IsU32 (length sessions) × All IsSession sessions × IsText address
IsSendable (window_capture content) = IsText content
IsSendable (log_content lines) = IsU32 (length lines) × All IsText lines
IsSendable (control_notify line) = IsText line
IsSendable (term_osc_query pane_id code bell) = IsU32 pane_id
IsSendable (peer_list peers) = IsU32 (length peers) × All IsPeer peers
IsSendable (register_ack accepted reason) = IsText reason
IsSendable (relay_ack accepted reason) = IsText reason
IsSendable (send_keys_ack accepted reason) = IsText reason
IsSendable (send_event_ack accepted reason) = IsText reason
IsSendable _ = Unit

-- The decoder gives the message back, and leaves some bytes unread.
abbrev pub Decodes : ServerMsg → Type 0
Decodes m =
    (rest : Bytes) × (decode_server_body (server_tag m) (encode_server_body m) ≡ ok (m, rest))

-- An element at the end of the payload.
pub take_last :
    {A : Type 0} (m : Reader A) (put : A → Bytes) (x : A) → Takes m put x → m (put x) ≡ ok (x, [])
take_last m put x h = ap m (sym (append-nil (put x))) ∙ h []

read_pane_id-put : (o : Option ℕ) → IsOptU32 o → read_pane_id (put_pane_id o) ≡ ok (o, [])
unfolding read_pane_id
read_pane_id-put none h = refl
read_pane_id-put (some n) h = step read_u32 _ (read_u32-le32 n [] h) refl

-- A trailing field that is there.
present :
    {A : Type 0} (absent : A) (read : Reader A) (b : ℕ) (r : Bytes) {z : Result (A × Bytes)}
    → read (b ∷ r) ≡ z
    → unless_empty absent read (b ∷ r) ≡ z
unfolding unless_empty
present absent read b r e = e

read_high-put : (b : Bool) (r : Bytes) → read_high (bool_byte b ∷ r) ≡ ok (b, r)
unfolding read_high
read_high-put b r = ap (λ v. ok (v, r)) (nonzero-bool_byte b)

pub decode_identify_ack_lem :
    (rows cols : ℕ) (version address : Bytes)
    → IsSendable (identify_ack rows cols version address)
    → decode_identify_ack (le16 rows ++ (le16 cols ++ (put_string version ++ put_string address)))
      ≡ ok (identify_ack rows cols version address, [])
unfolding decode_identify_ack
decode_identify_ack_lem rows cols version address (hr, hc, hv, ha) =
    step read_u16 _ (read_u16-le16 rows _ hr) (
      step read_u16 _ (read_u16-le16 cols _ hc) (
        step (unless_empty unknown read_unchecked_string) _
          (present unknown read_unchecked_string _ _
            (read_unchecked_string-Takes version hv (put_string address)))
          (step (unless_empty unknown read_unchecked_string) _
            (present unknown read_unchecked_string _ _ (
              take_last read_unchecked_string put_string address
                (read_unchecked_string-Takes address ha)))
            refl)))

pub decode_grid_snapshot_lem :
    (rows cols : ℕ) (cells : List Cell) (row col : ℕ) (visible : Bool) (mouse_flags : ℕ)
    (pane_id : Option ℕ)
    → IsSendable (grid_snapshot rows cols cells row col visible mouse_flags pane_id)
    → decode_grid_snapshot
        (encode_server_body (grid_snapshot rows cols cells row col visible mouse_flags pane_id))
      ≡ ok (grid_snapshot rows cols cells row col visible mouse_flags pane_id, [])
unfolding decode_grid_snapshot encode_server_body
decode_grid_snapshot_lem rows cols cells row col visible flags pane_id (hr, hc, h, hy, hx, hp) =
    step read_u16 _ (read_u16-le16 rows _ hr) (
      step read_u16 _ (read_u16-le16 cols _ hc) (
        step read_row _ (read_row-put_row cells h _) (
          step read_u16 _ (read_u16-le16 row _ hy) (
            step read_u16 _ (read_u16-le16 col _ hx) (
              step read_bool _ (read_bool-put visible _) (
                step (unless_empty 0 read_u8) _ (present 0 read_u8 _ _ (read_u8-cons flags _))
                  (step read_pane_id _ (read_pane_id-put pane_id hp) refl)))))))

pub decode_grid_update_lem :
    (dirty : List (ℕ × List Cell)) (row col : ℕ) (visible : Bool) (mouse_flags : ℕ)
    (pane_id : Option ℕ)
    → IsSendable (grid_update dirty row col visible mouse_flags pane_id)
    → decode_grid_update
        (encode_server_body (grid_update dirty row col visible mouse_flags pane_id))
      ≡ ok (grid_update dirty row col visible mouse_flags pane_id, [])
unfolding decode_grid_update encode_server_body
decode_grid_update_lem dirty row col visible flags pane_id (small, h, hy, hx, hp) =
    step (read_list read_dirty) _
      (read_list-put_list read_dirty put_dirty dirty small (All-map read_dirty-put_dirty dirty h) _)
      (step read_u16 _ (read_u16-le16 row _ hy) (
        step read_u16 _ (read_u16-le16 col _ hx) (
          step read_bool _ (read_bool-put visible _) (
            step (unless_empty 0 read_u8) _ (present 0 read_u8 _ _ (read_u8-cons flags _))
              (step read_pane_id _ (read_pane_id-put pane_id hp) refl)))))

pub decode_scrollback_update_lem :
    (rows : List (List Cell)) (replay : Bool) (pane_id : Option ℕ)
    → IsSendable (scrollback_update rows replay pane_id)
    → decode_scrollback_update (encode_server_body (scrollback_update rows replay pane_id))
      ≡ ok (scrollback_update rows replay pane_id, [])
unfolding decode_scrollback_update encode_server_body
decode_scrollback_update_lem rows replay pane_id (small, h, hp) =
    step read_bool _ (read_bool-put replay _) (
      step (read_list read_row) _
        (read_list-put_list read_row put_row rows small (All-map read_row-put_row rows h) _)
        (step read_pane_id _ (read_pane_id-put pane_id hp) refl))

pub decode_window_layout_lem :
    (rows cols active_pane : ℕ) (panes : List PaneRect) (zoomed : Bool)
    → IsSendable (window_layout rows cols active_pane panes zoomed)
    → decode_window_layout (encode_server_body (window_layout rows cols active_pane panes zoomed))
      ≡ ok (window_layout rows cols active_pane panes zoomed, [])
unfolding decode_window_layout encode_server_body
decode_window_layout_lem rows cols active_pane panes zoomed (hr, hc, ha, small, h) =
    step read_u16 _ (read_u16-le16 rows _ hr) (
      step read_u16 _ (read_u16-le16 cols _ hc) (
        step read_u32 _ (read_u32-le32 active_pane _ ha) (
          step (read_list read_pane) _
            (read_list-put_list read_pane put_pane panes small (All-map read_pane-put_pane panes h)
              _)
            (step (unless_empty false read_bool) _
              (present false read_bool _ _ (read_bool-put zoomed [])) refl))))

take_flags-put_all :
    (flags : List Bool) → Takes (take_flags (length flags)) (put_all put_flag) flags
unfolding take_flags
take_flags-put_all [] r = refl
take_flags-put_all (b ∷ flags) r =
    step (take_flags (length flags)) _ (take_flags-put_all flags r)
      (ap (λ v. ok (v ∷ flags, r)) (nonzero-bool_byte b))

read_flags-put_all :
    (n : ℕ) (flags : List Bool) → length flags ≡ n → Takes (read_flags n) (put_all put_flag) flags
unfolding read_flags
read_flags-put_all n flags e r =
    let none_left : n - length flags ≡ 0 = omega arith in
    let whole = ap (λ k. flags ++ replicate k false) none_left ∙ append-nil flags in
    step (take_flags n) _
      (ap (λ k. take_flags k (put_all put_flag flags ++ r)) (sym e) ∙ take_flags-put_all flags r)
      (ap (λ fs. ok (fs, r)) whole)

pub decode_status_bar_lem :
    (session : Bytes) (windows : List Bytes) (active count : ℕ) (high : Bool) (server : Bytes)
    (activity mouse : List Bool)
    → IsSendable (status_bar_update session windows active count high server activity mouse)
    → decode_status_bar (encode_status_bar session windows active count high server activity mouse)
      ≡ ok (status_bar_update session windows active count high server activity mouse, [])
unfolding decode_status_bar encode_status_bar
decode_status_bar_lem session windows active count high server activity mouse
      (hs, small, hw, ha, hc, hv, la, lm) =
    step read_unchecked_string _ (read_unchecked_string-Takes session hs _) (
      step (read_list read_unchecked_string) _
        (read_list-put_list read_unchecked_string put_string windows small
          (All-map read_unchecked_string-Takes windows hw) _)
        (step read_u16 _ (read_u16-le16 active _ ha) (
          step read_u16 _ (read_u16-le16 count _ hc) (
            step read_high _ (read_high-put high _) (
              step read_optional_string _ (read_optional_string-put server _ _ hv refl) (
                step (read_flags (length windows)) _
                  (read_flags-put_all (length windows) activity la _)
                  (step (read_flags (length windows)) _
                    (take_last (read_flags (length windows)) (put_all put_flag) mouse
                      (read_flags-put_all (length windows) mouse lm))
                    refl)))))))

pub decode_session_list_lem :
    (sessions : List SessionInfo) (address : Bytes)
    → IsSendable (session_list sessions address)
    → decode_session_list (encode_server_body (session_list sessions address))
      ≡ ok (session_list sessions address, [])
unfolding decode_session_list encode_server_body
decode_session_list_lem sessions address (small, h, ha) =
    step (read_list read_session_info) _
      (read_list-put_list read_session_info put_session sessions small
        (All-map read_session_info-put_session sessions h) _)
      (step (unless_empty unknown read_len_string) _
        (present unknown read_len_string _ _
          (take_last read_len_string put_string address (read_len_string-Takes address ha)))
        refl)
