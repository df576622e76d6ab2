-- ===== src/EventLoop/Framed.antt =====
-- The decoder of src/proto/mod.rs behind `try_parse_frame` (src/server/event_loop.rs): the types that the
-- loop leaves to it, on any payload.
use lrmux.Base.{◌≤◌, ◌⊎◌, ◌++◌, le→ltb, IsU32}
use lrmux.Proto.Reader.{le32, invalid_data}
use lrmux.Proto.Readers.{step, step_err, read_u32-le32}
use lrmux.Base.{ℕ, zero, suc, ◌%◌, false, ◌≡◌, ◌≢◌, refl, inl, inr}
use lrmux.Base.{◌∷◌, length, take, drop, arith}
use lrmux.Base.{◌==◌, if_false}
use lrmux.Proto.Utf8.{Bytes}
use lrmux.Proto.Reader.{ok, err, panic, ◌>>=◌, pure}
use lrmux.Proto.Reader.{read_u8, read_u16, read_u32, read_len_string, frame}
use lrmux.Proto.Reader.{read_frame, read_exact}
use lrmux.Proto.Decode.{decode_body, decode_client, decode_register}
use lrmux.Proto.Message.{ClientMsg}
use lrmux.EventLoop.Safe.{
  IsSafe, pure-IsSafe, >>=-IsSafe, if-IsSafe, read_u8-IsSafe, read_u16-IsSafe, read_u32-IsSafe,
  read_len_string-IsSafe,
}

decode_register-IsSafe : IsSafe decode_register
unfolding decode_register
decode_register-IsSafe = >>=-IsSafe read_len_string _ read_len_string-IsSafe λ server_id.
    >>=-IsSafe read_len_string _ read_len_string-IsSafe λ name.
      >>=-IsSafe read_u16 _ read_u16-IsSafe λ tcp_port.
        >>=-IsSafe read_u8 _ read_u8-IsSafe
          λ tls. >>=-IsSafe read_len_string _ read_len_string-IsSafe λ fingerprint. pure-IsSafe _

pub read_byte-IsSafe : (make : ℕ → ClientMsg) → IsSafe (do a ← read_u8; pure (make a))
read_byte-IsSafe make = >>=-IsSafe read_u8 _ read_u8-IsSafe λ a. pure-IsSafe (make a)

pub read_size-IsSafe :
    (make : ℕ → ℕ → ClientMsg) → IsSafe (do rows ← read_u16; cols ← read_u16; pure (make rows cols))
read_size-IsSafe make =
    >>=-IsSafe read_u16 _ read_u16-IsSafe
      λ rows. >>=-IsSafe read_u16 _ read_u16-IsSafe λ cols. pure-IsSafe (make rows cols)

-- The arms of the protocol's decoder that check their lengths; the others are excluded.
pub decode_body-IsSafe :
    (t : ℕ)
    → (t == 0x01) ≡ false
    → (t == 0x0a) ≡ false
    → (t == 0x0f) ≡ false
    → (t == 0x11) ≡ false
    → (t == 0x12) ≡ false
    → (t == 0x13) ≡ false
    → (t == 0x14) ≡ false
    → (t == 0x1f) ≡ false
    → (t == 0x16) ≡ false
    → (t == 0x17) ≡ false
    → (t == 0x19) ≡ false
    → (t == 0x1a) ≡ false
    → (t == 0x1b) ≡ false
    → IsSafe (decode_body t)
unfolding decode_body
decode_body-IsSafe t n01 n0a n0f n11 n12 n13 n14 n1f n16 n17 n19 n1a n1b =
    if-IsSafe (t == 0x01) _ _ (λ e r p. cc)
      λ _.
        if-IsSafe (t == 0x02) _ _ (λ _ r p. cc)
          λ _.
            if-IsSafe (t == 0x03) _ _ (λ _. read_size-IsSafe _)
              λ _.
                if-IsSafe (t == 0x04) _ _ (λ _. pure-IsSafe _)
                  λ _.
                    if-IsSafe (t == 0x05) _ _ (λ _. pure-IsSafe _)
                      λ _.
                        if-IsSafe (t == 0x06) _ _ (λ _. pure-IsSafe _)
                          λ _.
                            if-IsSafe (t == 0x07) _ _ (λ _. pure-IsSafe _)
                              λ _.
                                if-IsSafe (t == 0x08) _ _ (λ _. read_byte-IsSafe _)
                                  λ _.
                                    if-IsSafe (t == 0x09) _ _ (λ _. pure-IsSafe _)
                                      λ _.
                                        if-IsSafe (t == 0x0a) _ _ (λ e r p. cc)
                                          λ _.
                                            if-IsSafe (t == 0x0b) _ _ (λ _. pure-IsSafe _)
                                              λ _.
                                                if-IsSafe (t == 0x0c) _ _ (λ _. pure-IsSafe _)
                                                  λ _.
                                                    if-IsSafe (t == 0x0f) _ _ (λ e r p. cc)
                                                      λ _.
                                                        if-IsSafe (t == 0x0e) _ _
                                                          (λ _. pure-IsSafe _)
                                                          λ _.
                                                            if-IsSafe (t == 0x11) _ _ (λ e r p. cc)
                                                            λ _.
                                                            if-IsSafe (t == 0x0d) _ _
                                                            (λ _. pure-IsSafe _)
                                                            λ _.
                                                            if-IsSafe (t == 0x10) _ _
                                                            (λ _. pure-IsSafe _)
                                                            λ _.
                                                            if-IsSafe (t == 0x12) _ _ (λ e r p. cc)
                                                            λ _.
                                                            if-IsSafe (t == 0x13) _ _ (λ e r p. cc)
                                                            λ _.
                                                            if-IsSafe (t == 0x14) _ _ (λ e r p. cc)
                                                            λ _.
                                                            if-IsSafe (t == 0x1f) _ _ (λ e r p. cc)
                                                            λ _.
                                                            if-IsSafe (t == 0x15) _ _
                                                            (λ _. pure-IsSafe _)
                                                            λ _.
                                                            if-IsSafe (t == 0x16) _ _ (λ e r p. cc)
                                                            λ _.
                                                            if-IsSafe (t == 0x17) _ _ (λ e r p. cc)
                                                            λ _.
                                                            if-IsSafe (t == 0x18) _ _
                                                            (λ _. pure-IsSafe _)
                                                            λ _.
                                                            if-IsSafe (t == 0x19) _ _ (λ e r p. cc)
                                                            λ _.
                                                            if-IsSafe (t == 0x1a) _ _ (λ e r p. cc)
                                                            λ _.
                                                            if-IsSafe (t == 0x1b) _ _ (λ e r p. cc)
                                                            λ _.
                                                            if-IsSafe (t == 0x1c) _ _
                                                            (λ _. pure-IsSafe _)
                                                            λ _.
                                                            if-IsSafe (t == 0x1d) _ _
                                                            (λ _. decode_register-IsSafe)
                                                            λ _.
                                                            if-IsSafe (t == 0x1e) _ _
                                                            (λ _.
                                                            >>=-IsSafe read_len_string _
                                                            read_len_string-IsSafe
                                                            λ s. pure-IsSafe _)
                                                            λ _.
                                                            if-IsSafe (t == 0x20) _ _
                                                            (λ _. read_byte-IsSafe _)
                                                            λ _.
                                                            if-IsSafe (t == 0x21) _ _
                                                            (λ _. pure-IsSafe _)
                                                            λ _.
                                                            if-IsSafe (t == 0x22) _ _
                                                            (λ _. pure-IsSafe _)
                                                            λ _.
                                                            if-IsSafe (t == 0x23) _ _
                                                            (λ _. read_byte-IsSafe _)
                                                            λ _.
                                                            if-IsSafe (t == 0x24) _ _
                                                            (λ _. pure-IsSafe _)
                                                            λ _.
                                                            if-IsSafe (t == 0x25) _ _
                                                            (λ _. pure-IsSafe _)
                                                            λ _.
                                                            if-IsSafe (t == 0x26) _ _
                                                            (λ _.
                                                            >>=-IsSafe read_u32 _ read_u32-IsSafe
                                                            λ a. pure-IsSafe _)
                                                            λ _. (λ r p. cc)

-- A payload that is framed again is read back with its tag, if not whole, or is an error.
read_exact_tag :
    (n t : ℕ) (r : Bytes)
    → suc n ≤ suc (length r)
    → read_exact (suc n) (t ∷ r) ≡ ok (t ∷ take n r, drop n r)
unfolding read_exact
read_exact_tag n t r h = if_false _ (le→ltb (suc (length r)) (suc n) h)

framed_tag :
    (n t : ℕ) (r : Bytes)
    → n ≤ suc (length r)
    → IsU32 n
    → (read_frame (le32 n ++ t ∷ r) ≡ err invalid_data)
      ⊎ ((b : Bytes) × (s : Bytes) × (read_frame (le32 n ++ t ∷ r) ≡ ok ((t, b), s)))
unfolding read_frame
framed_tag zero t r h small = inl (step read_u32 _ (read_u32-le32 0 (t ∷ r) small) refl)
framed_tag (suc n) t r h small = inr (
  take n r,
  drop n r,
  step read_u32 _ (read_u32-le32 (suc n) (t ∷ r) small) (ground (arith, read_exact_tag n t r h)),
)

pub decode_client_framed :
    (t : ℕ) (r : Bytes) → IsSafe (decode_body t) → decode_client (frame (t ∷ r)) ≢ panic
unfolding decode_client frame
decode_client_framed t r h e =
    let n = suc (length r) % 4294967296 in
    elim (framed_tag n t r (omega arith) (omega arith)) [
      | inl q ↦ cc (step_err read_frame _ q)
      | inr (b, s, q) ↦ h b (ground (arith, step read_frame _ q))
    ]
