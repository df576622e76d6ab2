-- ===== src/EventLoop/Arrives.antt =====
-- What `encode_client` (src/proto/mod.rs) writes, through `try_parse_frame`
-- (src/server/event_loop.rs): the payload of each message.
use lrmux.Base.{ℕ, ◌*◌, ◌%◌, ◌≤◌, min, Bool, ◌≡◌, refl, sym, ap, ◌∙◌}
use lrmux.Base.{arith, Option, List, [], ◌∷◌, ◌++◌, length, append-nil}
use lrmux.Base.{IsU32, All}
use lrmux.Proto.Utf8.{Bytes}
use lrmux.Proto.Reader.{ok, le32}
use lrmux.Proto.Reader.{read_u8, read_u16, read_u32, slice, need, read_len_string}
use lrmux.Proto.Message.{
  InputEvent, Rgb, ClientMsg, tag, identify, new_session, new_window_in, capture_window, send_keys,
  send_event, term_osc_reply,
}
use lrmux.Proto.Encode.{encode_identify, encode_new_session, encode_new_window_in}
use lrmux.Proto.Encode.{encode_capture_window, encode_send_keys, encode_send_event}
use lrmux.Proto.Encode.{encode_body, put_string, put_opt_string, put_opt_u8, put_env}
use lrmux.Proto.Encode.{put_events, put_palette, bool_byte}
use lrmux.Proto.Decode.{read_attach, read_format, read_events}
use lrmux.Proto.Readers.{IsText, IsOptText, IsEvent, step, read_u16-le16, read_u32-le32}
use lrmux.Proto.Readers.{read_len_string-put, read_events-put, read_u32-len32, slice_end, need_end}
use lrmux.Proto.RoundTrip.{IsSendable, read_u8-cons}
use lrmux.EventLoop.Fields.{read_opt_text, read_opt_u8, read_colors}
use lrmux.EventLoop.Fields.{parse_identify}
use lrmux.EventLoop.Frame.{
  parse_new_session, parse_new_window_in, parse_capture_window, parse_send_keys, parse_send_event,
  parse_term_osc_reply, parse_text, parse_body,
}
use lrmux.Proto.RoundTrip.{take-all}
use lrmux.EventLoop.Puts.{
  read_opt_text-put, read_opt_text_end, read_opt_u8-put, read_colors-put, read_token-put,
  take_env-put, drop_token, read_attach-put, read_format-put, need_enough, put_opt_string_pos,
  put_opt_u8_pos, length-put_events,
}

-- The messages that can be sent, `NewSession` with any name, directory and command.
abbrev pub IsArriving : ClientMsg → Type 0
IsArriving (new_session name cwd command) = IsOptText name × IsOptText cwd × IsOptText command
IsArriving m = IsSendable m

-- The loop finds the message in its payload.
abbrev pub Arrives : ClientMsg → Type 0
Arrives m = (rest : Bytes) × (parse_body (tag m) (encode_body m) ≡ ok (m, rest))

pub parse_identify_lem :
    (rows cols : ℕ) (attach : Bool) (auth_token : Bytes) (env : List (Bytes × Bytes))
    → IsSendable (identify rows cols attach auth_token env)
    → parse_identify (encode_identify rows cols attach auth_token env)
      ≡ ok (identify rows cols attach auth_token env, [])
unfolding parse_identify encode_identify
parse_identify_lem rows cols attach auth_token env (hr, hc, ht, few, he) =
    let last = le32 (length env % 4294967296) ++ put_env env in
    step read_u16 _ (read_u16-le16 rows _ hr) (
      step read_u16 _ (read_u16-le16 cols _ hc) (
        step read_attach _ (read_attach-put attach _) (
          ground (
            arith,
            read_token-put auth_token last ht,
            drop_token auth_token last,
            take_env-put env few he,
          ))))

pub parse_new_session_lem :
    (name cwd command : Option Bytes)
    → IsOptText name × IsOptText cwd × IsOptText command
    → parse_new_session (encode_new_session name cwd command)
      ≡ ok (new_session name cwd command, [])
unfolding parse_new_session encode_new_session
parse_new_session_lem name cwd command h =
    let rest = put_opt_string cwd ++ put_opt_string command in
    let long = put_opt_string_pos name rest in
    step (need 1) _ (need_enough 1 _ (omega (arith, long))) (
      step read_opt_text _ (read_opt_text-put name rest h.0) (
        step read_opt_text _ (read_opt_text-put cwd _ h.1)
          (step read_opt_text _ (read_opt_text_end command h.2) refl)))

pub parse_new_window_in_lem :
    (session command : Option Bytes)
    → IsOptText session × IsOptText command
    → parse_new_window_in (encode_new_window_in session command)
      ≡ ok (new_window_in session command, [])
unfolding parse_new_window_in encode_new_window_in
parse_new_window_in_lem session command h =
    let long = put_opt_string_pos session (put_opt_string command) in
    let last = put_opt_string_pos command [] in
    step (need 2) _
      (need_enough 2 _ (omega (arith, long, last, ap length (append-nil (put_opt_string command)))))
      (step read_opt_text _ (read_opt_text-put session _ h.0)
        (step read_opt_text _ (read_opt_text_end command h.1) refl))

pub parse_capture_window_lem :
    (session : Option Bytes) (window : Option ℕ) (format : ℕ) (colors : Bool) (fg bg : Option Rgb)
    → IsOptText session
    → Arrives (capture_window session window format colors fg bg)
unfolding parse_body encode_body encode_capture_window parse_capture_window
parse_capture_window_lem session window format colors fg bg h =
    let palette = read_colors-put fg bg in
    let shape = format ∷ bool_byte colors ∷ put_palette fg bg in
    let long = put_opt_string_pos session (put_opt_u8 window ++ shape) in
    (
      palette.0,
      step (need 2) _ (need_enough 2 _ (omega (arith, long, put_opt_u8_pos window shape))) (
          step read_opt_text _ (read_opt_text-put session _ h) (
            step read_opt_u8 _ (read_opt_u8-put window _) (
              step read_format _ (read_format-put format colors _)
                (step read_colors _ palette.1 refl)))),
    )

pub parse_send_keys_lem :
    (session : Option Bytes) (window : Option ℕ) (keys : Bytes)
    → IsOptText session × IsU32 (length keys)
    → Arrives (send_keys session window keys)
unfolding parse_body encode_body encode_send_keys parse_send_keys
parse_send_keys_lem session window keys h =
    let long = put_opt_string_pos session (put_opt_u8 window ++ put_string keys) in
    (
      [],
      step (need 2) _
          (need_enough 2 _ (omega (arith, long, put_opt_u8_pos window (put_string keys))))
          (step read_opt_text _ (read_opt_text-put session _ h.0) (
            step read_opt_u8 _ (read_opt_u8-put window _) (
              step read_u32 _ (read_u32-len32 keys keys h.1) (
                step (need (length keys)) _ (need_end keys)
                  (step (slice (length keys)) _ (slice_end keys) refl))))),
    )

pub parse_send_event_lem :
    (session : Option Bytes) (window : Option ℕ) (events : List InputEvent)
    → IsOptText session × (length events ≤ 255) × All IsEvent events
    → Arrives (send_event session window events)
unfolding parse_body encode_body encode_send_event parse_send_event
parse_send_event_lem session window events h =
    let all : min (length events) 255 ≡ length events = omega arith in
    let last = length events ∷ put_events events in
    let long = put_opt_string_pos session (put_opt_u8 window ++ last) in
    (
      [],
      rw (take-all 255 events h.1, all)
          (step (need 2) _ (need_enough 2 _ (omega (arith, long, put_opt_u8_pos window last))) (
            step read_opt_text _ (read_opt_text-put session _ h.0) (
              step read_opt_u8 _ (read_opt_u8-put window _) (
                step read_u8 _ (read_u8-cons (length events) (put_events events)) (
                  step (need (length events * 7)) _
                    (need_enough _ _ (omega (arith, length-put_events events)))
                    (step (read_events (length events)) _
                      (ap (read_events (length events)) (sym (append-nil (put_events events)))
                        ∙ read_events-put events [] h.2)
                      refl)))))),
    )

pub parse_term_osc_reply_lem :
    (pane_id : ℕ) (bytes : Bytes)
    → IsU32 pane_id × IsU32 (length bytes)
    → Arrives (term_osc_reply pane_id bytes)
unfolding parse_body encode_body parse_term_osc_reply
parse_term_osc_reply_lem pane_id bytes h = (
  [],
  step read_u32 _ (read_u32-le32 pane_id _ h.0) (
      step read_u32 _ (read_u32-len32 bytes bytes h.1) (
        step (need (length bytes)) _ (need_end bytes)
          (step (slice (length bytes)) _ (slice_end bytes) refl))),
)

pub parse_text_lem :
    (make : Bytes → ClientMsg) (s : Bytes)
    → IsText s
    → parse_text make (put_string s) ≡ ok (make s, [])
unfolding parse_text
parse_text_lem make s h =
    step read_len_string _ (read_len_string-put s s [] h (sym (append-nil s))) refl
