-- ===== src/Proto/RoundTrip.antt =====
-- The payload of a message through `encode_client` and `decode_client` (src/proto/mod.rs).
use lrmux.Base.{ℕ, zero, suc, ◌%◌, ◌≤◌, min, Bool, true, false, ◌≡◌, refl, sym, ap, ◌∙◌}
use lrmux.Base.{arith, Option, none, some, List, [], ◌∷◌, ◌++◌, length, take, append-nil}
use lrmux.Base.{IsU16, IsU32, All}
use lrmux.Proto.Utf8.{Bytes, from_utf8_lossy-valid}
use lrmux.Proto.Reader.{ok, err, panic, unexpected_eof, le32}
use lrmux.Proto.Reader.{read_u8, read_u16, read_u32, slice, need}
use lrmux.Proto.Reader.{read_unchecked_string, read_len_string, read_optional_string}
use lrmux.Proto.Message.{
  InputEvent, Rgb, ClientMsg, tag, identify, resize, select_window, new_session, select_session,
  rename_session, new_window_in, capture_window, send_keys, send_event, identify_control,
  control_command, term_osc_reply, term_palette, set_psk, register, relay_open, split_pane,
  focus_dir, focus_pane,
}
use lrmux.Proto.Encode.{encode_identify, encode_new_session, encode_new_window_in}
use lrmux.Proto.Encode.{encode_capture_window, encode_send_keys, encode_send_event, encode_register}
use lrmux.Proto.Encode.{encode_body, put_string, put_opt_string, put_env}
use lrmux.Proto.Encode.{put_events, put_palette, bool_byte}
use lrmux.Proto.Decode.{decode_body, decode_identify, decode_new_session, decode_new_window_in}
use lrmux.Proto.Decode.{decode_capture_window, decode_send_keys, decode_send_event}
use lrmux.Proto.Decode.{decode_term_osc_reply, decode_register, read_attach, read_env}
use lrmux.Proto.Decode.{peek_opt_string, read_session, read_session_checked, read_command}
use lrmux.Proto.Decode.{
  read_window, read_pairs, read_format, read_palette, read_fg, read_bg, read_events,
}
use lrmux.Proto.Readers.{IsText, IsOptText, IsEvent, IsPair, step, read_u16-le16, read_u32-le32}
use lrmux.Proto.Readers.{read_unchecked_string-put, read_len_string-put, read_optional_string-put}
use lrmux.Proto.Readers.{
  read_session-put, read_session_checked-put, read_command-put, read_window-put,
}
use lrmux.Proto.Readers.{read_fg-put, read_bg-put, bg_rest, read_palette-put, read_events-put}
use lrmux.Proto.Readers.{read_pairs-put, read_u32-len32, slice_end, need_end, nonzero-bool_byte}

-- The messages whose fields lie in the range of their types, with texts and lists that the protocol
-- carries whole: at most 64 environment pairs and 255 events. Of `NewSession` only the messages
-- with neither a name nor a directory.
abbrev pub IsSendable : ClientMsg → Type 0
IsSendable (identify rows cols attach auth_token env) =
    IsU16 rows × IsU16 cols × IsText auth_token × (length env ≤ 64) × All IsPair env
IsSendable (resize rows cols) = IsU16 rows × IsU16 cols
IsSendable (new_session name cwd command) = (name ≡ none) × (cwd ≡ none) × IsOptText command
IsSendable (select_session name) = IsText name
IsSendable (rename_session name) = IsText name
IsSendable (new_window_in session command) = IsOptText session × IsOptText command
IsSendable (capture_window session window format colors term_fg term_bg) = IsOptText session
IsSendable (send_keys session window keys) = IsOptText session × IsU32 (length keys)
IsSendable (send_event session window events) =
    IsOptText session × (length events ≤ 255) × All IsEvent events
IsSendable (identify_control rows cols auth_token) = IsU16 rows × IsU16 cols × IsText auth_token
IsSendable (control_command line) = IsText line
IsSendable (term_osc_reply pane_id bytes) = IsU32 pane_id × IsU32 (length bytes)
IsSendable (set_psk psk) = IsText psk
IsSendable (register server_id name tcp_port tls fingerprint) =
    IsText server_id × IsText name × IsU16 tcp_port × IsText fingerprint
IsSendable (relay_open addr) = IsText addr
IsSendable (focus_pane pane_id) = IsU32 pane_id
IsSendable _ = Unit

-- The decoder gives the message back, and leaves some bytes unread.
abbrev pub Decodes : ClientMsg → Type 0
Decodes m = (rest : Bytes) × (decode_body (tag m) (encode_body m) ≡ ok (m, rest))

read_attach-put : (b : Bool) (r : Bytes) → read_attach (bool_byte b ∷ r) ≡ ok (b, r)
unfolding read_attach
read_attach-put true r = refl
read_attach-put false r = refl

read_format-put :
    (format : ℕ) (colors : Bool) (r : Bytes)
    → read_format (format ∷ bool_byte colors ∷ r) ≡ ok ((format, colors), r)
unfolding read_format
read_format-put format true r = refl
read_format-put format false r = refl

pub take-all : {A : Type 0} (n : ℕ) (xs : List A) → length xs ≤ n → take n xs ≡ xs
take-all zero [] h = refl
take-all zero (x ∷ xs) h = absurd (omega arith)
take-all (suc n) [] h = refl
take-all (suc n) (x ∷ xs) h = ap (λ t. x ∷ t) (take-all n xs (omega arith))

pub read_u8-cons : (a : ℕ) (r : Bytes) → read_u8 (a ∷ r) ≡ ok (a, r)
unfolding read_u8
read_u8-cons a r = refl

read_env-put :
    (env : List (Bytes × Bytes))
    → length env ≤ 64
    → All IsPair env
    → read_env (le32 (length env) ++ put_env env) ≡ ok (env, [])
unfolding read_env
read_env-put env few h =
    let all : min (length env) 64 ≡ length env = omega arith in
    let pairs =
      ap (read_pairs (length env)) (sym (append-nil (put_env env))) ∙ read_pairs-put env [] h in
    ground (arith, read_u32-le32 (length env) (put_env env), all, pairs)

decode_identify_lem :
    (rows cols : ℕ) (attach : Bool) (auth_token : Bytes) (env : List (Bytes × Bytes))
    → IsSendable (identify rows cols attach auth_token env)
    → decode_identify (encode_identify rows cols attach auth_token env)
      ≡ ok (identify rows cols attach auth_token env, [])
unfolding decode_identify encode_identify
decode_identify_lem rows cols attach auth_token env (hr, hc, ht, few, he) =
    let small : length env % 4294967296 ≡ length env = omega arith in
    let last = le32 (length env) ++ put_env env in
    rw small (
      step read_u16 _ (read_u16-le16 rows _ hr) (
        step read_u16 _ (read_u16-le16 cols _ hc) (
          step read_attach _ (read_attach-put attach _) (
            step read_optional_string _ (read_optional_string-put auth_token _ last ht refl)
              (step read_env _ (read_env-put env few he) refl)))))

decode_capture_window_lem :
    (session : Option Bytes) (window : Option ℕ) (format : ℕ) (colors : Bool) (fg bg : Option Rgb)
    → IsOptText session
    → Decodes (capture_window session window format colors fg bg)
unfolding decode_body encode_body encode_capture_window decode_capture_window
decode_capture_window_lem session window format colors fg bg h =
    let palette = read_palette-put fg bg in
    let shape = read_format-put format colors (put_palette fg bg) in
    (
      palette.0,
      step read_session_checked _ (read_session_checked-put session _ h) (
          step (read_window (err unexpected_eof)) _ (read_window-put (err unexpected_eof) window _)
            (step read_format _ shape (step read_palette _ palette.1 refl))),
    )

decode_send_keys_lem :
    (session : Option Bytes) (window : Option ℕ) (keys : Bytes)
    → IsOptText session × IsU32 (length keys)
    → Decodes (send_keys session window keys)
unfolding decode_body encode_body encode_send_keys decode_send_keys
decode_send_keys_lem session window keys h = (
  [],
  step read_session _ (read_session-put session _ h.0) (
      step (read_window panic) _ (read_window-put panic window _) (
        step read_u32 _ (read_u32-len32 keys keys h.1)
          (step (slice (length keys)) _ (slice_end keys) refl))),
)

decode_send_event_lem :
    (session : Option Bytes) (window : Option ℕ) (events : List InputEvent)
    → IsOptText session × (length events ≤ 255) × All IsEvent events
    → Decodes (send_event session window events)
unfolding decode_body encode_body encode_send_event decode_send_event
decode_send_event_lem session window events h =
    let all : min (length events) 255 ≡ length events = omega arith in
    (
      [],
      rw (take-all 255 events h.1, all)
          (step read_session _ (read_session-put session _ h.0) (
            step (read_window panic) _ (read_window-put panic window _) (
              step read_u8 _ (read_u8-cons (length events) (put_events events)) (
                step (read_events (length events)) _
                  (ap (read_events (length events)) (sym (append-nil (put_events events)))
                    ∙ read_events-put events [] h.2)
                  refl)))),
    )

decode_register_lem :
    (server_id name : Bytes) (tcp_port : ℕ) (tls : Bool) (fingerprint : Bytes)
    → IsText server_id × IsText name × IsU16 tcp_port × IsText fingerprint
    → Decodes (register server_id name tcp_port tls fingerprint)
unfolding decode_body encode_body encode_register decode_register read_u8
decode_register_lem server_id name tcp_port tls fingerprint h = (
  [],
  step read_len_string _ (read_len_string-put server_id _ _ h.0 refl) (
      step read_len_string _ (read_len_string-put name _ _ h.1 refl) (
        step read_u16 _ (read_u16-le16 tcp_port _ h.2) (
          step read_len_string _
            (read_len_string-put fingerprint fingerprint [] h.3 (sym (append-nil fingerprint)))
            (ap (λ t. ok (register server_id name tcp_port t fingerprint, []))
              (nonzero-bool_byte tls))))),
)

-- A text at the very end of a message.
module _ (s : Bytes) (h : IsText s) where
  last_unchecked_string : read_unchecked_string (put_string s) ≡ ok (s, [])
  last_unchecked_string = read_unchecked_string-put s s [] h (sym (append-nil s))

  last_len_string : read_len_string (put_string s) ≡ ok (s, [])
  last_len_string = read_len_string-put s s [] h (sym (append-nil s))

  last_optional_string : read_optional_string (put_string s) ≡ ok (s, [])
  last_optional_string = read_optional_string-put s s [] h (sym (append-nil s))

last_peek :
    (command : Option Bytes)
    → IsOptText command
    → (rest : Bytes) × (peek_opt_string (put_opt_string command) ≡ ok (command, rest))
unfolding peek_opt_string read_u8
last_peek none h = ([], refl)
last_peek (some s) h = (
  s,
  step read_u32 _ (read_u32-len32 s s h.1) (
      step (slice (length s)) _ (slice_end s)
        (ap (λ t. ok (some t, s)) (from_utf8_lossy-valid s h.0))),
)

decode_new_session_lem :
    (name cwd command : Option Bytes)
    → (name ≡ none) × (cwd ≡ none) × IsOptText command
    → Decodes (new_session name cwd command)
unfolding decode_body encode_body encode_new_session decode_new_session
decode_new_session_lem none none command h =
    let last = last_peek command h.2 in
    (
      last.0,
      step peek_opt_string _ peek_none
          (step peek_opt_string _ peek_none (step peek_opt_string _ last.1 refl)),
    )
  where
    peek_none : {r : Bytes} → peek_opt_string (0 ∷ r) ≡ ok (none, r)
    peek_none = unfold peek_opt_string read_u8 in refl
decode_new_session_lem (some s) cwd command h = absurd (cc (h.0))
decode_new_session_lem none (some s) command h = absurd (cc (h.1))

decode_new_window_in_lem :
    (session command : Option Bytes)
    → IsOptText session × IsOptText command
    → Decodes (new_window_in session command)
unfolding decode_body encode_body encode_new_window_in decode_new_window_in
decode_new_window_in_lem session command h =
    let last = read_command-put command h.1 in
    (last.0, step read_session _ (read_session-put session _ h.0) (step read_command _ last.1 refl))

decode_term_osc_reply_lem :
    (pane_id : ℕ) (bytes : Bytes)
    → IsU32 pane_id × IsU32 (length bytes)
    → Decodes (term_osc_reply pane_id bytes)
unfolding decode_body encode_body decode_term_osc_reply
decode_term_osc_reply_lem pane_id bytes h = (
  [],
  step read_u32 _ (read_u32-le32 pane_id _ h.0) (
      step read_u32 _ (read_u32-len32 bytes bytes h.1) (
        step (need (length bytes)) _ (need_end bytes)
          (step (slice (length bytes)) _ (slice_end bytes) refl))),
)

pub decode-encode_body : (m : ClientMsg) → IsSendable m → Decodes m
unfolding decode_body encode_body read_u8
decode-encode_body (identify rows cols attach auth_token env) h =
    ([], decode_identify_lem rows cols attach auth_token env h)
decode-encode_body (resize rows cols) h = (
  [],
  step read_u16 _ (read_u16-le16 rows _ h.0) (step read_u16 _ (read_u16-le16 cols [] h.1) refl),
)
decode-encode_body (select_window index) h = ([], refl)
decode-encode_body (new_session name cwd command) h = decode_new_session_lem name cwd command h
decode-encode_body (select_session name) h =
    ([], step read_unchecked_string _ (last_unchecked_string name h) refl)
decode-encode_body (rename_session name) h =
    ([], step read_unchecked_string _ (last_unchecked_string name h) refl)
decode-encode_body (new_window_in session command) h = decode_new_window_in_lem session command h
decode-encode_body (capture_window session window format colors fg bg) h =
    decode_capture_window_lem session window format colors fg bg h
decode-encode_body (send_keys session window keys) h = decode_send_keys_lem session window keys h
decode-encode_body (send_event session window events) h =
    decode_send_event_lem session window events h
decode-encode_body (identify_control rows cols auth_token) h = (
  [],
  step read_u16 _ (read_u16-le16 rows _ h.0) (
      step read_u16 _ (read_u16-le16 cols _ h.1)
        (step read_optional_string _ (last_optional_string auth_token h.2) refl)),
)
decode-encode_body (control_command line) h =
    ([], step read_unchecked_string _ (last_unchecked_string line h) refl)
decode-encode_body (term_osc_reply pane_id bytes) h = decode_term_osc_reply_lem pane_id bytes h
decode-encode_body (term_palette fg bg) h =
    (bg_rest bg, step read_fg _ (read_fg-put fg _) (step read_bg _ (read_bg-put bg) refl))
decode-encode_body (set_psk psk) h =
    ([], step read_unchecked_string _ (last_unchecked_string psk h) refl)
decode-encode_body (register server_id name tcp_port tls fingerprint) h =
    decode_register_lem server_id name tcp_port tls fingerprint h
decode-encode_body (relay_open addr) h = ([], step read_len_string _ (last_len_string addr h) refl)
decode-encode_body (split_pane dir) h = ([], refl)
decode-encode_body (focus_dir dir) h = ([], refl)
decode-encode_body (focus_pane pane_id) h = ([], step read_u32 _ (read_u32-le32 pane_id [] h) refl)
decode-encode_body _ h = ([], refl)
