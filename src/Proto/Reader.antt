-- ===== src/Proto/Reader.antt =====
-- The readers and writers of src/proto/mod.rs: little-endian numbers, strings behind their length, and
-- frames. A reader takes the bytes that are left and returns the rest beside its value.
use lrmux.Base.{ℕ, ◌+◌, ◌*◌, ◌/◌, ◌%◌, Bool, ltb, ◌==◌, if◌then◌else◌}
use lrmux.Base.{◌≡◌, ◌⊎◌, inl, inr, refl, [], ◌∷◌, ◌++◌, length, take, drop}
use lrmux.Proto.Utf8.{Bytes, from_utf8_lossy}

-- `io::ErrorKind`, as far as the decoder makes one.
pub data ErrorKind : Type 0 where
  unexpected_eof invalid_data : ErrorKind

-- `panic` is a slice or an index out of range.
pub data Result {ℓ} (A : Type ℓ) : Type ℓ where
  ok : A → Result A
  err : ErrorKind → Result A
  panic : Result A

pub Result-cases {ℓ} :
    {A : Type ℓ} (r : Result A)
    → ((a : A) × (r ≡ ok a)) ⊎ ((e : ErrorKind) × (r ≡ err e)) ⊎ (r ≡ panic)
Result-cases (ok a) = inl (a, refl)
Result-cases (err e) = inr (inl (e, refl))
Result-cases panic = inr (inr refl)

abbrev pub Reader : Type 0 → Type 0
Reader A = Bytes → Result (A × Bytes)

infixl 5 ◌>>=◌ ◌>>◌
abbrev pub ◌>>=◌ : {A B : Type 0} → Reader A → (A → Reader B) → Reader B
◌>>=◌ m f r = elim (m r) [ ok (a, r') ↦ f a r' | err e ↦ err e | panic ↦ panic ]

abbrev pub ◌>>◌ : {A B : Type 0} → Reader A → Reader B → Reader B
m >> k = m >>= λ _. k

abbrev pub pure : {A : Type 0} → A → Reader A
pure a r = ok (a, r)

-- One of two readers.
abbrev pub branch : {A : Type 0} → Bool → Reader A → Reader A → Reader A
branch b m k r = if b then m r else k r

-- `n.to_le_bytes()` of a `u16` and of a `u32`.
abbrev pub le16 : ℕ → Bytes
le16 n = n % 256 ∷ n / 256 % 256 ∷ []

abbrev pub le32 : ℕ → Bytes
le32 n = n % 256 ∷ n / 256 % 256 ∷ n / 65536 % 256 ∷ n / 16777216 % 256 ∷ []

-- `x as u32` of a length, and the length in front of the bytes.
abbrev pub len32 : Bytes → Bytes
len32 s = le32 (length s % 4294967296)

unfoldable pub read_u8 : Reader ℕ
read_u8 [] = err unexpected_eof
read_u8 (a ∷ r) = ok (a, r)

unfoldable pub read_u16 : Reader ℕ
read_u16 (a ∷ b ∷ r) = ok (a + 256 * b, r)
read_u16 _ = err unexpected_eof

unfoldable pub read_u32 : Reader ℕ
read_u32 (a ∷ b ∷ c ∷ d ∷ r) = ok (a + 256 * b + 65536 * c + 16777216 * d, r)
read_u32 _ = err unexpected_eof

-- `&r[..len]` and then `r = &r[len..]`, which panics if there are fewer bytes.
unfoldable pub slice : ℕ → Reader Bytes
slice len r = if ltb (length r) len then panic else ok (take len r, drop len r)

-- A length and so many bytes of text, with no check of the length.
unfoldable pub read_unchecked_string : Reader Bytes
read_unchecked_string = do len ← read_u32; s ← slice len; pure (from_utf8_lossy s)

-- `if r.len() < len { return Err(UnexpectedEof) }`
unfoldable pub need : ℕ → Reader (Unit {0})
need len r = if ltb (length r) len then err unexpected_eof else ok (tt, r)

unfoldable pub read_len_string : Reader Bytes
read_len_string = do len ← read_u32; need len; s ← slice len; pure (from_utf8_lossy s)

unfoldable pub read_optional_string : Reader Bytes
read_optional_string r =
    if ltb (length r) 4
    then ok ([], r)
    else (do
      len ← read_u32
      branch (len == 0) (pure []) (do need len; s ← slice len; pure (from_utf8_lossy s)))
        r

-- `Wrap payload with a 4-byte length header`.
unfoldable pub frame : Bytes → Bytes
frame payload = len32 payload ++ payload

-- `read_exact` of `len` bytes of the stream.
unfoldable pub read_exact : ℕ → Reader Bytes
read_exact len r = if ltb (length r) len then err unexpected_eof else ok (take len r, drop len r)

-- The type tag and the rest of the payload.
abbrev tag_of : Bytes → Reader (ℕ × Bytes)
tag_of [] r = panic
tag_of (tag ∷ body) r = ok ((tag, body), r)

unfoldable pub read_frame : Reader (ℕ × Bytes)
read_frame = do
  len ← read_u32
  branch (len == 0) (λ r. err invalid_data) (do payload ← read_exact len; tag_of payload)
