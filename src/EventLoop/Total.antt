-- ===== src/EventLoop/Total.antt =====
-- `try_parse_frame` (src/server/event_loop.rs) on buffers that a client fills as it likes.
use lrmux.Base.{ℕ, ◌+◌, ◌*◌, ◌≢◌, inl, inr}
use lrmux.Base.{[], ◌∷◌, take, arith}
use lrmux.Base.{◌==◌}
use lrmux.Proto.Utf8.{Bytes}
use lrmux.Proto.Reader.{panic, Result-cases}
use lrmux.Proto.Reader.{read_u8, read_u16, read_u32, need, read_len_string}
use lrmux.Proto.Decode.{read_attach, read_format, read_events}
use lrmux.Proto.Message.{ClientMsg}
use lrmux.EventLoop.Fields.{read_opt_text, read_opt_u8, read_color, read_colors}
use lrmux.EventLoop.Fields.{parse_identify, parse_identify_control}
use lrmux.EventLoop.Frame.{
  parse_new_session, parse_new_window_in, parse_capture_window, parse_send_keys, parse_send_event,
  parse_term_osc_reply, parse_term_palette, parse_text, parse_body, parse_payload, try_parse_frame,
}
use lrmux.EventLoop.Safe.{
  IsSafe, pure-IsSafe, >>=-IsSafe, if-IsSafe, read_u8-IsSafe, read_u16-IsSafe, read_u32-IsSafe,
  read_attach-IsSafe, read_format-IsSafe, need-IsSafe, checked-IsSafe, read_len_string-IsSafe,
  read_opt_text-IsSafe, read_opt_u8-IsSafe, read_color-IsSafe, read_colors-IsSafe,
  read_events-IsSafe,
}
use lrmux.EventLoop.Framed.{
  read_byte-IsSafe, read_size-IsSafe, decode_body-IsSafe, decode_client_framed,
}

parse_identify-IsSafe : IsSafe parse_identify
unfolding parse_identify
parse_identify-IsSafe = >>=-IsSafe read_u16 _ read_u16-IsSafe λ rows.
    >>=-IsSafe read_u16 _ read_u16-IsSafe
      λ cols. >>=-IsSafe read_attach _ read_attach-IsSafe λ attach r e. cc

parse_identify_control-IsSafe : IsSafe parse_identify_control
unfolding parse_identify_control
parse_identify_control-IsSafe =
    >>=-IsSafe read_u16 _ read_u16-IsSafe
      λ rows. >>=-IsSafe read_u16 _ read_u16-IsSafe λ cols r e. cc

parse_new_session-IsSafe : IsSafe parse_new_session
unfolding parse_new_session
parse_new_session-IsSafe = >>=-IsSafe (need 1) _ (need-IsSafe 1) λ _.
    >>=-IsSafe read_opt_text _ read_opt_text-IsSafe λ name.
      >>=-IsSafe read_opt_text _ read_opt_text-IsSafe
        λ cwd. >>=-IsSafe read_opt_text _ read_opt_text-IsSafe λ command. pure-IsSafe _

parse_new_window_in-IsSafe : IsSafe parse_new_window_in
unfolding parse_new_window_in
parse_new_window_in-IsSafe = >>=-IsSafe (need 2) _ (need-IsSafe 2) λ _.
    >>=-IsSafe read_opt_text _ read_opt_text-IsSafe
      λ session. >>=-IsSafe read_opt_text _ read_opt_text-IsSafe λ command. pure-IsSafe _

parse_capture_window-IsSafe : IsSafe parse_capture_window
unfolding parse_capture_window
parse_capture_window-IsSafe = >>=-IsSafe (need 2) _ (need-IsSafe 2) λ _.
    >>=-IsSafe read_opt_text _ read_opt_text-IsSafe λ session.
      >>=-IsSafe read_opt_u8 _ read_opt_u8-IsSafe λ window.
        >>=-IsSafe read_format _ read_format-IsSafe
          λ shape. >>=-IsSafe read_colors _ read_colors-IsSafe λ colors. pure-IsSafe _

parse_send_keys-IsSafe : IsSafe parse_send_keys
unfolding parse_send_keys
parse_send_keys-IsSafe = >>=-IsSafe (need 2) _ (need-IsSafe 2) λ _.
    >>=-IsSafe read_opt_text _ read_opt_text-IsSafe λ session.
      >>=-IsSafe read_opt_u8 _ read_opt_u8-IsSafe λ window.
        >>=-IsSafe read_u32 _ read_u32-IsSafe λ klen. checked-IsSafe klen _ λ keys. pure-IsSafe _

parse_send_event-IsSafe : IsSafe parse_send_event
unfolding parse_send_event
parse_send_event-IsSafe = >>=-IsSafe (need 2) _ (need-IsSafe 2) λ _.
    >>=-IsSafe read_opt_text _ read_opt_text-IsSafe λ session.
      >>=-IsSafe read_opt_u8 _ read_opt_u8-IsSafe λ window.
        >>=-IsSafe read_u8 _ read_u8-IsSafe λ count.
          >>=-IsSafe (need (count * 7)) _ (need-IsSafe (count * 7))
            λ _. >>=-IsSafe (read_events count) _ (read_events-IsSafe count) λ events. pure-IsSafe _

parse_term_osc_reply-IsSafe : IsSafe parse_term_osc_reply
unfolding parse_term_osc_reply
parse_term_osc_reply-IsSafe = >>=-IsSafe read_u32 _ read_u32-IsSafe λ pane_id.
    >>=-IsSafe read_u32 _ read_u32-IsSafe λ dlen. checked-IsSafe dlen _ λ bytes. pure-IsSafe _

parse_term_palette-IsSafe : IsSafe parse_term_palette
unfolding parse_term_palette
parse_term_palette-IsSafe =
    >>=-IsSafe read_color _ read_color-IsSafe
      λ fg. >>=-IsSafe read_color _ read_color-IsSafe λ bg. pure-IsSafe _

parse_text-IsSafe : (make : Bytes → ClientMsg) → IsSafe (parse_text make)
unfolding parse_text
parse_text-IsSafe make =
    >>=-IsSafe read_len_string _ read_len_string-IsSafe λ s. pure-IsSafe (make s)

-- The match on the type, each arm and the decoder behind it.
parse_body-IsSafe : (t : ℕ) → IsSafe (parse_body t)
unfolding parse_body
parse_body-IsSafe t =
    if-IsSafe (t == 0x01) _ _ (λ _. parse_identify-IsSafe)
      λ n01.
        if-IsSafe (t == 0x02) _ _ (λ _ r p. cc)
          λ _.
            if-IsSafe (t == 0x03) _ _ (λ _. read_size-IsSafe _)
              λ _.
                if-IsSafe (t == 0x04) _ _ (λ _. pure-IsSafe _)
                  λ _.
                    if-IsSafe (t == 0x05) _ _ (λ _. pure-IsSafe _)
                      λ _.
                        if-IsSafe (t == 0x06) _ _ (λ _. pure-IsSafe _)
                          λ _.
                            if-IsSafe (t == 0x07) _ _ (λ _. pure-IsSafe _)
                              λ _.
                                if-IsSafe (t == 0x08) _ _ (λ _. read_byte-IsSafe _)
                                  λ _.
                                    if-IsSafe (t == 0x09) _ _ (λ _. pure-IsSafe _)
                                      λ _.
                                        if-IsSafe (t == 0x0a) _ _ (λ _. parse_new_session-IsSafe)
                                          λ n0a.
                                            if-IsSafe (t == 0x0b) _ _ (λ _. pure-IsSafe _)
                                              λ _.
                                                if-IsSafe (t == 0x0c) _ _ (λ _. pure-IsSafe _)
                                                  λ _.
                                                    if-IsSafe (t == 0x0f) _ _
                                                      (λ _. parse_text-IsSafe _)
                                                      λ n0f.
                                                        if-IsSafe (t == 0x0e) _ _
                                                          (λ _. pure-IsSafe _)
                                                          λ _.
                                                            if-IsSafe (t == 0x0d) _ _
                                                            (λ _. pure-IsSafe _)
                                                            λ _.
                                                            if-IsSafe (t == 0x10) _ _
                                                            (λ _. pure-IsSafe _)
                                                            λ _.
                                                            if-IsSafe (t == 0x11) _ _
                                                            (λ _. parse_text-IsSafe _)
                                                            λ n11.
                                                            if-IsSafe (t == 0x12) _ _
                                                            (λ _. parse_new_window_in-IsSafe)
                                                            λ n12.
                                                            if-IsSafe (t == 0x13) _ _
                                                            (λ _. parse_capture_window-IsSafe)
                                                            λ n13.
                                                            if-IsSafe (t == 0x14) _ _
                                                            (λ _. parse_send_keys-IsSafe)
                                                            λ n14.
                                                            if-IsSafe (t == 0x1f) _ _
                                                            (λ _. parse_send_event-IsSafe)
                                                            λ n1f.
                                                            if-IsSafe (t == 0x15) _ _
                                                            (λ _. pure-IsSafe _)
                                                            λ _.
                                                            if-IsSafe (t == 0x16) _ _
                                                            (λ _. parse_identify_control-IsSafe)
                                                            λ n16.
                                                            if-IsSafe (t == 0x17) _ _
                                                            (λ _. parse_text-IsSafe _)
                                                            λ n17.
                                                            if-IsSafe (t == 0x18) _ _
                                                            (λ _. pure-IsSafe _)
                                                            λ _.
                                                            if-IsSafe (t == 0x19) _ _
                                                            (λ _. parse_term_osc_reply-IsSafe)
                                                            λ n19.
                                                            if-IsSafe (t == 0x1a) _ _
                                                            (λ _. parse_term_palette-IsSafe)
                                                            λ n1a.
                                                            if-IsSafe (t == 0x1b) _ _
                                                            (λ _. parse_text-IsSafe _)
                                                            λ n1b. λ r. decode_client_framed t r (
                                                            decode_body-IsSafe t n01 n0a n0f n11 n12
                                                            n13 n14 n1f n16 n17 n19 n1a n1b)

parse_payload-ne_panic : (p : Bytes) → parse_payload p ≢ panic
unfolding parse_payload
parse_payload-ne_panic [] e = cc
parse_payload-ne_panic (t ∷ r) e = elim (Result-cases (parse_body t r)) [
  | inl (m, q) ↦ ground arith
  | inr (inl (x, q)) ↦ ground arith
  | inr (inr q) ↦ parse_body-IsSafe t r q
]

-- Whatever stands in a client's buffer, `try_parse_frame` never panics: it returns a message,
-- waits or returns an error.
pub try_parse_frame-ne_panic : (buf : Bytes) → (try_parse_frame buf).0 ≢ panic
unfolding try_parse_frame
try_parse_frame-ne_panic [] e = cc
try_parse_frame-ne_panic (a ∷ []) e = cc
try_parse_frame-ne_panic (a ∷ b ∷ []) e = cc
try_parse_frame-ne_panic (a ∷ b ∷ c ∷ []) e = cc
try_parse_frame-ne_panic (a ∷ b ∷ c ∷ d ∷ rest) e =
    let len = a + 256 * b + 65536 * c + 16777216 * d in
    ground (arith, parse_payload-ne_panic (take len rest))
