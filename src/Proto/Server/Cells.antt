-- ===== src/Proto/Server/Cells.antt =====
-- Cells on the wire (src/proto/mod.rs): `encode_cell`, `decode_cell` and what they use, and the loops that
-- write and read a list behind its length.
use lrmux.Base.{
  ℕ, zero, suc, ◌+◌, ◌*◌, ◌/◌, ◌%◌, Bool, ◌&&◌, ◌||◌, ltb, leb, ◌==◌, if◌then◌else◌, List, [], ◌∷◌,
  ◌++◌, length,
}
use lrmux.Grid.Cell.{Color, default, indexed, rgb, Attr, Cell}
use lrmux.Proto.Utf8.{Bytes}
use lrmux.Proto.Reader.{Reader, ok, err, invalid_data, ◌>>=◌, pure, le32, read_u8, read_u32}
use lrmux.Proto.Encode.{bool_byte}

-- The bytes of the elements in turn.
abbrev pub put_all {ℓ} : {A : Type ℓ} → (A → Bytes) → List A → Bytes
put_all put [] = []
put_all put (x ∷ xs) = put x ++ put_all put xs

-- `(xs.len() as u32).to_le_bytes()`, then the elements.
abbrev pub put_list : {A : Type 0} → (A → Bytes) → List A → Bytes
put_list put xs = le32 (length xs % 4294967296) ++ put_all put xs

-- `for _ in 0..n`
unfoldable pub read_many : {A : Type 0} → Reader A → ℕ → Reader (List A)
read_many read zero = pure []
read_many read (suc n) = do x ← read; xs ← read_many read n; pure (x ∷ xs)

unfoldable pub read_list : {A : Type 0} → Reader A → Reader (List A)
read_list read = do n ← read_u32; read_many read n

abbrev pub encode_color : Color → Bytes
encode_color default = 0 ∷ []
encode_color (indexed n) = 1 ∷ n ∷ []
encode_color (rgb r g b) = 2 ∷ r ∷ g ∷ b ∷ []

-- The bits are distinct, so `|=` is a sum.
abbrev pub encode_attr : Attr → Bytes
encode_attr attrs =
    (bool_byte attrs.bold
      + 2 * bool_byte attrs.italic
      + 4 * bool_byte attrs.underline
      + 8 * bool_byte attrs.reverse)
    ∷ []

abbrev pub encode_cell : Cell → Bytes
encode_cell cell =
    le32 cell.ch ++ (encode_color cell.fg ++ (encode_color cell.bg ++ encode_attr cell.attrs))

-- `char::from_u32(n).unwrap_or('\0')`
abbrev pub char_of : ℕ → ℕ
char_of n = if ltb n 0xd800 || (leb 0xe000 n && ltb n 0x110000) then n else 0

unfoldable pub decode_rgb : Reader Color
decode_rgb = do red ← read_u8; green ← read_u8; blue ← read_u8; pure (rgb red green blue)

-- The arms of `decode_color`.
unfoldable pub color_tagged : ℕ → Reader Color
color_tagged tag r =
    if tag == 0
    then ok (default, r)
    else if tag == 1
    then (do n ← read_u8; pure (indexed n)) r
    else if tag == 2
    then decode_rgb r
    else err invalid_data

unfoldable pub decode_color : Reader Color
decode_color = do tag ← read_u8; color_tagged tag

-- `bits & bit != 0`
abbrev pub has_bit : ℕ → ℕ → Bool
has_bit bits bit = (bits / bit) % 2 == 1

unfoldable pub decode_attr : Reader Attr
decode_attr = do
  bits ← read_u8
  pure (record {
    bold = has_bit bits 1;
    italic = has_bit bits 2;
    underline = has_bit bits 4;
    reverse = has_bit bits 8;
  })

unfoldable pub decode_cell : Reader Cell
decode_cell = do
  ch ← read_u32
  fg ← decode_color
  bg ← decode_color
  attrs ← decode_attr
  pure (record { ch = char_of ch; fg = fg; bg = bg; attrs = attrs })
