-- ===== src/Proto/Stream.antt =====
-- `decode_client` on a stream of frames (src/proto/mod.rs): whole messages, messages that are cut off,
-- and messages that lie about their lengths.
use lrmux.Base.{ℕ, zero, suc, ◌+◌, ◌<◌, ◌≡◌, ◌⊎◌, inl, inr, refl}
use lrmux.Base.{arith, ◌∷◌, ◌++◌, length, take}
use lrmux.Base.{IsU32, length-append, length-take, take-append, drop-append, le→ltb, lt→ltb}
use lrmux.Proto.Utf8.{Bytes}
use lrmux.Proto.Reader.{ok, err, panic, unexpected_eof, le32, len32, frame, slice}
use lrmux.Proto.Reader.{read_u32, read_exact, read_frame, need, read_unchecked_string}
use lrmux.Proto.Reader.{read_len_string}
use lrmux.Proto.Message.{ClientMsg, tag}
use lrmux.Proto.Encode.{encode_body, encode_client}
use lrmux.Proto.Decode.{decode_body, decode_client}
use lrmux.Proto.Readers.{step, step_err, step_panic, read_u32-le32, read_u32-len32}
use lrmux.Proto.RoundTrip.{IsSendable, decode-encode_body}

read_exact-append : (s r : Bytes) → read_exact (length s) (s ++ r) ≡ ok (s, r)
unfolding read_exact
read_exact-append s r = rw (
  le→ltb (length (s ++ r)) (length s) (omega (arith, length-append s r)),
  take-append,
  drop-append,
)

read_exact_short : (n : ℕ) (r : Bytes) → length r < n → read_exact n r ≡ err unexpected_eof
unfolding read_exact
read_exact_short n r h = rw (lt→ltb (length r) n h)

-- A frame is read whole, and nothing behind it.
pub read_frame-frame :
    (t : ℕ) (b stream : Bytes)
    → IsU32 (suc (length b))
    → read_frame (frame (t ∷ b) ++ stream) ≡ ok ((t, b), stream)
unfolding read_frame frame
read_frame-frame t b stream h =
    step read_u32 _ (read_u32-len32 (t ∷ b) ((t ∷ b) ++ stream) h)
      (ground (arith, read_exact-append (t ∷ b) stream))

-- A message with numbers in the range of their types, texts in UTF-8, at most 64 pairs of an
-- environment and 255 events, and a `NewSession` only if it has neither a name nor a directory,
-- encoded and put in front of any stream, is decoded to itself, and the stream is left, if its
-- payload with the tag is shorter than 4 GiB.
pub decode_client-encode_client :
    (m : ClientMsg) (stream : Bytes)
    → IsSendable m
    → IsU32 (suc (length (encode_body m)))
    → decode_client (encode_client m ++ stream) ≡ ok (m, stream)
unfolding decode_client encode_client
decode_client-encode_client m stream h small =
    let body = decode-encode_body m h in
    step read_frame _ (read_frame-frame (tag m) (encode_body m) stream small)
      (ground (arith, body.1))

-- The end of the stream inside the length, and inside the payload.
read_u32_cut : (p : Bytes) (k : ℕ) → k < 4 → read_u32 (take k (frame p)) ≡ err unexpected_eof
unfolding frame read_u32
read_u32_cut p zero h = refl
read_u32_cut p (suc zero) h = refl
read_u32_cut p (suc (suc zero)) h = refl
read_u32_cut p (suc (suc (suc zero))) h = refl
read_u32_cut p (suc (suc (suc (suc k)))) h = absurd (omega arith)

read_frame_head : (p : Bytes) (k : ℕ) → k < 4 → read_frame (take k (frame p)) ≡ err unexpected_eof
unfolding read_frame
read_frame_head p k h = step_err read_u32 _ (read_u32_cut p k h)

read_payload_cut :
    (p : Bytes) (k : ℕ)
    → IsU32 (length p)
    → k < length p
    → read_frame (len32 p ++ take k p) ≡ err unexpected_eof
unfolding read_frame
read_payload_cut p k small h =
    step read_u32 _ (read_u32-len32 p (take k p) small)
      (ground (arith, read_exact_short (length p) (take k p), length-take k p))

pub read_frame_cut :
    (p : Bytes) (k : ℕ)
    → IsU32 (length p)
    → k < length (frame p)
    → read_frame (take k (frame p)) ≡ err unexpected_eof
unfolding frame
read_frame_cut p zero small h = read_frame_head p 0 (omega arith)
read_frame_cut p (suc zero) small h = read_frame_head p 1 (omega arith)
read_frame_cut p (suc (suc zero)) small h = read_frame_head p 2 (omega arith)
read_frame_cut p (suc (suc (suc zero))) small h = read_frame_head p 3 (omega arith)
read_frame_cut p (suc (suc (suc (suc k)))) small h = read_payload_cut p k small (omega arith)

-- A connection that ends inside a message, wherever it ends, gives the end-of-file error, and
-- never another message. The message is any whose payload with the tag is shorter than 4 GiB.
pub decode_client_cut :
    (m : ClientMsg) (k : ℕ)
    → IsU32 (suc (length (encode_body m)))
    → k < length (encode_client m)
    → decode_client (take k (encode_client m)) ≡ err unexpected_eof
unfolding decode_client encode_client
decode_client_cut m k small h =
    step_err read_frame _ (read_frame_cut (tag m ∷ encode_body m) k small h)

-- The tags whose text is sliced with no check of its length: `SelectSession`, `RenameSession`,
-- `ControlCommand` and `SetPsk`.
abbrev pub IsUnchecked : ℕ → Type 0
IsUnchecked t = (t ≡ 0x0f) ⊎ (t ≡ 0x11) ⊎ (t ≡ 0x17) ⊎ (t ≡ 0x1b)

slice_long : (n : ℕ) (s : Bytes) → length s < n → slice n s ≡ panic
unfolding slice
slice_long n s h = rw (lt→ltb (length s) n h)

need_long : (n : ℕ) (s : Bytes) → length s < n → need n s ≡ err unexpected_eof
unfolding need
need_long n s h = rw (lt→ltb (length s) n h)

read_unchecked_string_long :
    (n : ℕ) (s : Bytes) → IsU32 n → length s < n → read_unchecked_string (le32 n ++ s) ≡ panic
unfolding read_unchecked_string
read_unchecked_string_long n s hn h =
    step read_u32 _ (read_u32-le32 n s hn) (step_panic (slice n) _ (slice_long n s h))

read_len_string_long :
    (n : ℕ) (s : Bytes)
    → IsU32 n
    → length s < n
    → read_len_string (le32 n ++ s) ≡ err unexpected_eof
unfolding read_len_string
read_len_string_long n s hn h =
    step read_u32 _ (read_u32-le32 n s hn) (step_err (need n) _ (need_long n s h))

decode_body_long :
    (t n : ℕ) (s : Bytes)
    → IsUnchecked t
    → IsU32 n
    → length s < n
    → decode_body t (le32 n ++ s) ≡ panic
decode_body_long t n s which hn h =
    let bad = read_unchecked_string_long n s hn h in
    elim which [
      | inl e ↦ rw e (unfold decode_body in (step_panic read_unchecked_string _ bad))
      | inr (inl e) ↦ rw e (unfold decode_body in (step_panic read_unchecked_string _ bad))
      | inr (inr (inl e)) ↦ rw e (unfold decode_body in (step_panic read_unchecked_string _ bad))
      | inr (inr (inr e)) ↦ rw e (unfold decode_body in (step_panic read_unchecked_string _ bad))
    ]

-- A complete frame of `SelectSession`, `RenameSession`, `ControlCommand` or `SetPsk` whose text
-- claims more bytes than the frame has, each number in the range of `u32`, makes the decoder
-- panic, whatever stands behind it in the stream; the same lie in a `RelayOpen` gives the end-of-
-- file error.
pub decode_client_long :
    (t n : ℕ) (s stream : Bytes)
    → IsUnchecked t
    → IsU32 n
    → length s < n
    → IsU32 (5 + length s)
    → (decode_client (frame (t ∷ (le32 n ++ s)) ++ stream) ≡ panic)
      × (decode_client (frame (0x1e ∷ (le32 n ++ s)) ++ stream) ≡ err unexpected_eof)
unfolding decode_client
decode_client_long t n s stream which hn h small = (
  step read_frame _ (read_frame-frame t (le32 n ++ s) stream (omega arith))
      (ground (arith, decode_body_long t n s which hn h)),
  step read_frame _ (read_frame-frame 0x1e (le32 n ++ s) stream (omega arith))
      (ground (arith, relay)),
)
  where
    relay : decode_body 0x1e (le32 n ++ s) ≡ err unexpected_eof
    relay = unfold decode_body in (step_err read_len_string _ (read_len_string_long n s hn h))
