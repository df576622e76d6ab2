-- ===== src/Proto/Tests.antt =====
-- Messages of src/proto/mod.rs on their way through the encoder and the decoder.
use lrmux.Base.{◌≡◌, ◌≢◌, inl, refl, arith, none, some, [], ◌∷◌, ◌++◌, take, length}
use lrmux.Proto.Utf8.{Bytes, is_utf8, first_char}
use lrmux.Proto.Reader.{ok, err, panic, unexpected_eof, frame, le32}
use lrmux.Proto.Message.{ClientMsg, new_session, send_keys}
use lrmux.Proto.Encode.{encode_client, encode_body, encode_new_session, encode_send_keys}
use lrmux.Proto.Decode.{decode_client}
use lrmux.Proto.Readers.{IsText}
use lrmux.Proto.Stream.{decode_client-encode_client, decode_client_cut, decode_client_long}
use lrmux.Proto.NewSession.{decode_client-new_session-ne}

-- `ls` and a line feed, to window 3 of session `hi`.
abbrev keys : ClientMsg
keys = send_keys (some (104 ∷ 105 ∷ [])) (some 3) (108 ∷ 115 ∷ 10 ∷ [])

hi-IsText : IsText (104 ∷ 105 ∷ [])
unfolding is_utf8 first_char
hi-IsText = (refl, omega arith)

keys_small : length (encode_body keys) ≡ 16
unfolding encode_body encode_send_keys
keys_small = refl

abbrev stream : Bytes
stream = 1 ∷ 0 ∷ 0 ∷ 0 ∷ 4 ∷ []

decode_client-encode_client_example :
    decode_client (encode_client keys ++ stream) ≡ ok (keys, stream)
decode_client-encode_client_example =
    decode_client-encode_client keys stream (hi-IsText, omega arith) (omega (arith, keys_small))

length-encode_client : length (encode_client keys) ≡ 21
unfolding encode_client frame encode_body encode_send_keys
length-encode_client = refl

decode_client_cut_example : decode_client (take 10 (encode_client keys)) ≡ err unexpected_eof
decode_client_cut_example =
    decode_client_cut keys 10 (omega (arith, keys_small)) (omega (arith, length-encode_client))

decode_client_long_example :
    (decode_client (frame (0x0f ∷ (le32 100 ++ 104 ∷ 105 ∷ [])) ++ stream) ≡ panic)
    × (decode_client (frame (0x1e ∷ (le32 100 ++ 104 ∷ 105 ∷ [])) ++ stream) ≡ err unexpected_eof)
decode_client_long_example =
    decode_client_long 0x0f 100 (104 ∷ 105 ∷ []) stream (inl refl) (omega arith) (omega arith)
      (omega arith)

-- A session `hi` in the default directory.
abbrev hi : ClientMsg
hi = new_session (some (104 ∷ 105 ∷ [])) none none

hi_small : length (encode_body hi) ≡ 9
unfolding encode_body encode_new_session
hi_small = refl

decode_client-new_session-ne_example : decode_client (encode_client hi ++ stream) ≢ ok (hi, stream)
decode_client-new_session-ne_example =
    decode_client-new_session-ne 104 (105 ∷ []) none stream (ground arith) hi-IsText
      (omega (arith, hi_small))
