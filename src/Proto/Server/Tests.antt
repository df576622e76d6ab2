-- ===== src/Proto/Server/Tests.antt =====
-- Messages of the server (src/proto/mod.rs) on their way through the encoder and the decoder.
use lrmux.Base.{◌≡◌, inl, inr, refl, arith, some, [], ◌∷◌, ◌++◌, length, true, false}
use lrmux.Grid.Cell.{Cell, default, indexed, rgb, plain}
use lrmux.Proto.Utf8.{Bytes, is_utf8, first_char}
use lrmux.Proto.Reader.{ok, frame}
use lrmux.Proto.Readers.{IsText}
use lrmux.Proto.Server.Message.{ServerMsg, grid_snapshot, status_bar_update}
use lrmux.Proto.Server.Encode.{encode_server, encode_server_body, encode_status_bar}
use lrmux.Proto.Server.Decode.{decode_server}
use lrmux.Proto.Server.Stream.{decode_server-encode_server}

abbrev stream : Bytes
stream = 1 ∷ 0 ∷ 0 ∷ 0 ∷ 0x1c ∷ []

-- One row of two cells, the second in colours.
abbrev letter_a : Cell
letter_a = record { ch = 97; fg = default; bg = default; attrs = plain }

abbrev letter_b : Cell
letter_b = record {
  ch = 0x1f600;
  fg = indexed 12;
  bg = rgb 1 2 3;
  attrs = record { bold = true; italic = false; underline = true; reverse = false };
}

abbrev snapshot : ServerMsg
snapshot = grid_snapshot 1 2 (letter_a ∷ letter_b ∷ []) 0 1 true 3 (some 70000)

length-snapshot : length (encode_server_body snapshot) ≡ 36
unfolding encode_server_body
length-snapshot = refl

decode_server-encode_server_example :
    decode_server (encode_server snapshot ++ stream) ≡ ok (snapshot, stream)
decode_server-encode_server_example =
    decode_server-encode_server snapshot stream
      (
        omega arith,
        omega arith,
        (omega arith, (inl (omega arith), (inr (omega arith, omega arith), tt))),
        omega arith,
        omega arith,
        omega arith,
      )
      (omega (arith, length-snapshot))

-- Session `hi` with two windows.
abbrev hi : Bytes
hi = 104 ∷ 105 ∷ []

abbrev status : ServerMsg
status = status_bar_update hi (hi ∷ hi ∷ []) 1 4 false hi (true ∷ false ∷ []) (false ∷ true ∷ [])

length-status : length (encode_server_body status) ≡ 37
unfolding encode_server_body encode_status_bar
length-status = refl

length-encode_server : length (encode_server status) ≡ 42
unfolding encode_server frame encode_server_body encode_status_bar
length-encode_server = refl

-- The same message comes back whole.
hi-IsText : IsText hi
unfolding is_utf8 first_char
hi-IsText = (refl, omega arith)

status_back : decode_server (encode_server status ++ stream) ≡ ok (status, stream)
status_back =
    decode_server-encode_server status stream
      (
        hi-IsText,
        omega arith,
        (hi-IsText, (hi-IsText, tt)),
        omega arith,
        omega arith,
        hi-IsText,
        refl,
        refl,
      )
      (omega (arith, length-status))
