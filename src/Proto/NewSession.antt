-- ===== src/Proto/NewSession.antt =====
-- The message `NewSession` (src/proto/mod.rs) through the encoder and the decoder.
use lrmux.Base.{
  ℕ, suc, inl, inr, ◌≡◌, ◌≢◌, refl, sym, ◌∙◌, arith, Option, none, some, ◌∷◌, ◌++◌, length,
}
use lrmux.Base.{IsU32, ≢→==, ap}
use lrmux.Proto.Utf8.{Bytes, from_utf8_lossy-valid}
use lrmux.Proto.Reader.{ok, ◌>>=◌, pure, Result-cases, slice, read_u8, read_u32}
use lrmux.Proto.Message.{new_session}
use lrmux.Proto.Encode.{encode_body, encode_client, encode_new_session, put_opt_string}
use lrmux.Proto.Decode.{decode_body, decode_client, decode_new_session, peek_opt_string}
use lrmux.Proto.Readers.{step, read_u32-len32, slice-append, IsText}
use lrmux.Proto.Stream.{read_frame-frame}

-- A directory flag that is not zero is followed by a directory or a fault.
peek_opt_string_flag : (b : ℕ) (r r' : Bytes) → b ≢ 0 → peek_opt_string (b ∷ r) ≢ ok (none, r')
unfolding peek_opt_string read_u8
peek_opt_string_flag b r r' ne e = ground (arith, ≢→== b 0)

-- The name is read, and left in front.
peek_opt_string-put :
    (s r : Bytes) → IsText s → peek_opt_string (put_opt_string (some s) ++ r) ≡ ok (some s, s ++ r)
unfolding peek_opt_string read_u8
peek_opt_string-put s r h = step read_u32 _ (read_u32-len32 s (s ++ r) h.1) (
    step (slice (length s)) _ (slice-append s r)
      (ap (λ t. ok (some t, s ++ r)) (from_utf8_lossy-valid s h.0)))

-- A decoder that goes on from the reading of the directory cannot find that there is none.
directory_found :
    (name r : Bytes) (command : Option Bytes) (r' : Bytes)
    → ((r2 : Bytes) → peek_opt_string r ≢ ok (none, r2))
    → (do cwd ← peek_opt_string; given ← peek_opt_string; pure (new_session (some name) cwd given))
        r
      ≢ ok (new_session (some name) none command, r')
directory_found name r command r' never e = elim (Result-cases (peek_opt_string r)) [
  | inl ((none, r2), q) ↦ never r2 q
  | inl ((some d, r2), q) ↦ elim (Result-cases (peek_opt_string r2)) [
    | inl (c, q') ↦ ground arith
    | inr (inl (x, q')) ↦ ground arith
    | inr (inr q') ↦ ground arith
  ]
  | inr (inl (x, q)) ↦ ground arith
  | inr (inr q) ↦ ground arith
]

decode_body-new_session-ne :
    (b : ℕ) (s : Bytes) (command : Option Bytes) (r' : Bytes)
    → b ≢ 0
    → IsText (b ∷ s)
    → let m = new_session (some (b ∷ s)) none command in
      decode_body 0x0a (encode_body m) ≢ ok (m, r')
unfolding decode_body encode_body encode_new_session decode_new_session
decode_body-new_session-ne b s command r' ne h e =
    let rest : Bytes = 0 ∷ put_opt_string command in
    directory_found (b ∷ s) (b ∷ (s ++ rest)) command r'
      (λ r2. peek_opt_string_flag b (s ++ rest) r2 ne)
      (sym (step peek_opt_string _ (peek_opt_string-put (b ∷ s) rest h) refl) ∙ e)

-- A `NewSession` with a name that is UTF-8 and whose first byte is not zero, and with no
-- directory, its payload with the tag shorter than 4 GiB, does not come back: whatever the command
-- and whatever follows in the stream, `decode_client` does not return the message that
-- `encode_client` was given.
pub decode_client-new_session-ne :
    (b : ℕ) (s : Bytes) (command : Option Bytes) (stream : Bytes)
    → b ≢ 0
    → IsText (b ∷ s)
    → IsU32 (suc (length (encode_body (new_session (some (b ∷ s)) none command))))
    → let m = new_session (some (b ∷ s)) none command in
      decode_client (encode_client m ++ stream) ≢ ok (m, stream)
unfolding decode_client encode_client
decode_client-new_session-ne b s command stream ne h small e =
    let m = new_session (some (b ∷ s)) none command in
    let front = read_frame-frame 0x0a (encode_body m) stream small in
    elim (Result-cases (decode_body 0x0a (encode_body m))) [
      | inl ((m', r'), q) ↦ decode_body-new_session-ne b s command r' ne h (ground (arith, front))
      | inr (inl (x, q)) ↦ ground (arith, front)
      | inr (inr q) ↦ ground (arith, front)
    ]
