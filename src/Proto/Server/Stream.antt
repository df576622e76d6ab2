-- ===== src/Proto/Server/Stream.antt =====
-- `decode_server` on a stream of frames (src/proto/mod.rs).
use lrmux.Base.{ℕ, suc, ◌<◌, ◌≡◌, arith, ◌∷◌, ◌++◌, length, take, IsU32}
use lrmux.Proto.Utf8.{Bytes}
use lrmux.Proto.Reader.{ok, err, unexpected_eof, read_frame}
use lrmux.Proto.Readers.{step, step_err}
use lrmux.Proto.Stream.{read_frame-frame, read_frame_cut}
use lrmux.Proto.Server.Message.{ServerMsg, server_tag}
use lrmux.Proto.Server.Encode.{encode_server_body, encode_server}
use lrmux.Proto.Server.Decode.{decode_server}
use lrmux.Proto.Server.Arms.{IsSendable}
use lrmux.Proto.Server.RoundTrip.{decode-encode_server_body}

-- A message of the server that can be sent, encoded and put in front of any stream, is decoded to
-- itself, and the stream is left, if its payload with the tag is shorter than 4 GiB.
pub decode_server-encode_server :
    (m : ServerMsg) (stream : Bytes)
    → IsSendable m
    → IsU32 (suc (length (encode_server_body m)))
    → decode_server (encode_server m ++ stream) ≡ ok (m, stream)
unfolding decode_server encode_server
decode_server-encode_server m stream h small =
    let body = decode-encode_server_body m h in
    step read_frame _ (read_frame-frame (server_tag m) (encode_server_body m) stream small)
      (ground (arith, body.1))

-- A connection that ends inside a message of the server, wherever it ends, gives the end-of-file
-- error, and never another message. The message is any whose payload with the tag is shorter than
-- 4 GiB.
pub decode_server_cut :
    (m : ServerMsg) (k : ℕ)
    → IsU32 (suc (length (encode_server_body m)))
    → k < length (encode_server m)
    → decode_server (take k (encode_server m)) ≡ err unexpected_eof
unfolding decode_server encode_server
decode_server_cut m k small h =
    step_err read_frame _ (read_frame_cut (server_tag m ∷ encode_server_body m) k small h)
