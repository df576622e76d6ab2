-- ===== src/Proto/Server/Puts.antt =====
-- The readers of the server's messages (src/proto/mod.rs) on what the encoder writes.
use lrmux.Base.{ℕ, ◌+◌, ◌*◌, ◌%◌, ◌<◌, ◌⊎◌, Bool, ◌≡◌, refl, ap, ◌∙◌}
use lrmux.Base.{arith, List, [], ◌∷◌, ◌++◌, length, append_assoc}
use lrmux.Base.{IsU16, IsU32, All}
use lrmux.Grid.Cell.{Color, default, indexed, rgb, Attr, Cell}
use lrmux.Proto.Utf8.{Bytes}
use lrmux.Proto.Reader.{Result, ok, Reader, ◌>>=◌, le16, read_u8, read_u16, read_u32}
use lrmux.Proto.Reader.{read_unchecked_string, read_len_string}
use lrmux.Proto.Encode.{bool_byte, put_string}
use lrmux.Proto.Readers.{
  IsText, step, read_u16-le16, read_u32-le32, read_len_string-put, read_unchecked_string-put,
}
use lrmux.Proto.Readers.{nonzero-bool_byte}
use lrmux.Proto.Server.Cells.{
  put_all, put_list, read_many, read_list, encode_color, encode_attr, encode_cell, char_of,
  decode_rgb, color_tagged, decode_color, decode_attr, decode_cell,
}
use lrmux.Proto.Server.Message.{SessionInfo, PeerInfo, PaneRect}
use lrmux.Proto.Server.Encode.{le64, put_row, put_dirty, put_pane, put_flag, put_session, put_peer}
use lrmux.Proto.Server.Decode.{
  read_u64, read_bool, read_row, read_dirty, read_pane, read_session_info, read_peer,
}

-- A reader that takes back an element, whatever stands behind it.
abbrev pub Takes : {A : Type 0} → Reader A → (A → Bytes) → A → Type 0
Takes read put x = (r : Bytes) → read (put x ++ r) ≡ ok (x, r)

-- The next element of a record, whose bytes are followed by those of the other fields.
pub take_then :
    {A B : Type 0} (m : Reader A) (put : A → Bytes) (x : A) (f : A → Reader B) (rest r : Bytes)
    {z : Result (B × Bytes)}
    → Takes m put x
    → f x (rest ++ r) ≡ z
    → (m >>= f) ((put x ++ rest) ++ r) ≡ z
take_then m put x f rest r h k = step m f (ap m (append_assoc (put x) rest r) ∙ h (rest ++ r)) k

read_many-put_all :
    {A : Type 0} (read : Reader A) (put : A → Bytes) (xs : List A) (r : Bytes)
    → All (Takes read put) xs
    → read_many read (length xs) (put_all put xs ++ r) ≡ ok (xs, r)
unfolding read_many
read_many-put_all read put [] r h = refl
read_many-put_all read put (x ∷ xs) r h =
    take_then read put x _ (put_all put xs) r h.0
      (step (read_many read (length xs)) _ (read_many-put_all read put xs r h.1) refl)

-- A list behind its length, which must be a `u32`.
pub read_list-put_list :
    {A : Type 0} (read : Reader A) (put : A → Bytes) (xs : List A)
    → IsU32 (length xs)
    → All (Takes read put) xs
    → Takes (read_list read) (put_list put) xs
unfolding read_list
read_list-put_list read put xs small h r =
    let whole : length xs % 4294967296 ≡ length xs = omega arith in
    rw whole (
      step read_u32 _ (read_u32-le32 (length xs) (put_all put xs ++ r) small)
        (read_many-put_all read put xs r h))

pub All-map :
    {A : Type 0} {P Q : A → Type 0} (f : (x : A) → P x → Q x) (xs : List A) → All P xs → All Q xs
All-map f [] h = tt
All-map f (x ∷ xs) (p, h) = (f x p, All-map f xs h)

abbrev pub IsU64 : ℕ → Type 0
IsU64 n = n < 18446744073709551616

pub read_u64-le64 : (n : ℕ) → IsU64 n → Takes read_u64 le64 n
unfolding read_u64
read_u64-le64 n h r = ground arith

pub read_bool-put : (b : Bool) → Takes read_bool put_flag b
unfolding read_bool read_u8
read_bool-put b r = ap (λ v. ok (v, r)) (nonzero-bool_byte b)

decode_color-encode_color : (c : Color) → Takes decode_color encode_color c
unfolding decode_color color_tagged decode_rgb read_u8
decode_color-encode_color default r = refl
decode_color-encode_color (indexed n) r = refl
decode_color-encode_color (rgb a b c) r = refl

-- The bits of the four attributes.
decode_attr_bits :
    (a b c d : Bool) (r : Bytes)
    → decode_attr ((bool_byte a + 2 * bool_byte b + 4 * bool_byte c + 8 * bool_byte d) ∷ r)
      ≡ ok (record { bold = a; italic = b; underline = c; reverse = d }, r)
unfolding decode_attr read_u8
decode_attr_bits a b c d r = ground arith

decode_attr-encode_attr : (a : Attr) → Takes decode_attr encode_attr a
decode_attr-encode_attr a r = decode_attr_bits a.bold a.italic a.underline a.reverse r

-- A Unicode scalar value.
abbrev pub IsChar : ℕ → Type 0
IsChar n = (n < 0xd800) ⊎ ((0xdfff < n) × (n < 0x110000))

char_of_lem : (n : ℕ) → IsChar n → char_of n ≡ n
char_of_lem n h = ground arith

-- A cell whose character is one that the protocol can carry.
abbrev pub IsCell : Cell → Type 0
IsCell cell = IsChar cell.ch

pub decode_cell-encode_cell : (c : Cell) → IsCell c → Takes decode_cell encode_cell c
unfolding decode_cell
decode_cell-encode_cell c h r = step read_u32 _ (read_u32-le32 c.ch _ (omega arith)) (
    take_then decode_color encode_color c.fg _ (encode_color c.bg ++ encode_attr c.attrs) r
      (decode_color-encode_color c.fg)
      (take_then decode_color encode_color c.bg _ (encode_attr c.attrs) r
        (decode_color-encode_color c.bg)
        (step decode_attr _ (decode_attr-encode_attr c.attrs r) (
          ap (λ n. ok (record { ch = n; fg = c.fg; bg = c.bg; attrs = c.attrs }, r))
            (char_of_lem c.ch h)))))

abbrev pub IsRow : List Cell → Type 0
IsRow row = IsU32 (length row) × All IsCell row

pub read_row-put_row : (row : List Cell) → IsRow row → Takes read_row put_row row
read_row-put_row row (small, h) =
    read_list-put_list decode_cell encode_cell row small (All-map decode_cell-encode_cell row h)

abbrev pub IsDirty : ℕ × List Cell → Type 0
IsDirty (row, cells) = IsU16 row × IsRow cells

pub read_dirty-put_dirty : (d : ℕ × List Cell) → IsDirty d → Takes read_dirty put_dirty d
unfolding read_dirty
read_dirty-put_dirty (row, cells) (hr, h) r =
    step read_u16 _ (read_u16-le16 row _ hr) (step read_row _ (read_row-put_row cells h r) refl)

abbrev pub IsPane : PaneRect → Type 0
IsPane p = IsU32 p.pane_id × IsU16 p.x × IsU16 p.y × IsU16 p.cols × IsU16 p.rows

pub read_pane-put_pane : (p : PaneRect) → IsPane p → Takes read_pane put_pane p
unfolding read_pane
read_pane-put_pane p (hi, hx, hy, hc, hr) r = step read_u32 _ (read_u32-le32 p.pane_id _ hi) (
    step read_u16 _ (read_u16-le16 p.x _ hx) (
      step read_u16 _ (read_u16-le16 p.y _ hy) (
        step read_u16 _ (read_u16-le16 p.cols _ hc)
          (step read_u16 _ (read_u16-le16 p.rows r hr) refl))))

pub read_len_string-Takes : (s : Bytes) → IsText s → Takes read_len_string put_string s
read_len_string-Takes s h r = read_len_string-put s (s ++ r) r h refl

pub read_unchecked_string-Takes : (s : Bytes) → IsText s → Takes read_unchecked_string put_string s
read_unchecked_string-Takes s h r = read_unchecked_string-put s (s ++ r) r h refl

abbrev pub IsSession : SessionInfo → Type 0
IsSession i = IsText i.name × IsU16 i.attached × IsU64 i.created × IsU64 i.last_activity

pub read_session_info-put_session :
    (i : SessionInfo) → IsSession i → Takes read_session_info put_session i
unfolding read_session_info
read_session_info-put_session i (hn, ha, hc, hl) r =
    let flag = put_flag i.has_activity in
    take_then read_len_string put_string i.name _
      (le16 i.attached ++ (le64 i.created ++ (le64 i.last_activity ++ flag))) r
      (read_len_string-Takes i.name hn)
      (step read_u16 _ (read_u16-le16 i.attached _ ha) (
        step read_u64 _ (read_u64-le64 i.created hc _) (
          step read_u64 _ (read_u64-le64 i.last_activity hl _)
            (step read_bool _ (read_bool-put i.has_activity r) refl))))

abbrev pub IsPeer : PeerInfo → Type 0
IsPeer p =
    IsText p.server_id
    × IsText p.name
    × IsText p.addr
    × IsText p.fingerprint
    × IsText p.state
    × IsU32 (length p.sessions)
    × All IsText p.sessions

pub read_peer-put_peer : (p : PeerInfo) → IsPeer p → Takes read_peer put_peer p
unfolding read_peer
read_peer-put_peer p (hi, hn, ha, hf, hs, small, hl) r =
    take_then read_len_string put_string p.server_id _ _ r (read_len_string-Takes p.server_id hi) (
      take_then read_len_string put_string p.name _ _ r (read_len_string-Takes p.name hn) (
        take_then read_len_string put_string p.addr _ _ r (read_len_string-Takes p.addr ha) (
          step read_bool _ (read_bool-put p.tls _) (
            take_then read_len_string put_string p.fingerprint _ _ r
              (read_len_string-Takes p.fingerprint hf)
              (take_then read_len_string put_string p.state _ _ r (read_len_string-Takes p.state hs)
                (step read_bool _ (read_bool-put p.psk_ok _) (
                  step (read_list read_len_string) _
                    (read_list-put_list read_len_string put_string p.sessions small
                      (All-map read_len_string-Takes p.sessions hl) r)
                    refl)))))))
