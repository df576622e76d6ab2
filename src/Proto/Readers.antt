-- ===== src/Proto/Readers.antt =====
-- The readers of src/proto/mod.rs on what the encoder writes.
use lrmux.Base.{ℕ, ◌%◌, Bool, true, false, ◌≡◌, refl, sym, ap, ◌∙◌}
use lrmux.Base.{arith, Option, none, some, List, [], ◌∷◌, ◌++◌, length, append-nil}
use lrmux.Base.{append_assoc, take-append, drop-append, length-append, IsU16, IsU32, le→ltb}
use lrmux.Base.{All}
use lrmux.Proto.Utf8.{Bytes, is_utf8, from_utf8_lossy-valid}
use lrmux.Proto.Reader.{
  Result, ErrorKind, ok, err, panic, Reader, ◌>>=◌, le16, le32, len32, slice, need,
}
use lrmux.Proto.Reader.{read_u8, read_u16, read_u32}
use lrmux.Proto.Reader.{read_unchecked_string, read_len_string, read_optional_string}
use lrmux.Proto.Message.{InputEvent, Rgb}
use lrmux.Proto.Encode.{put_string, put_opt_string, put_opt_u8, put_opt_rgb, put_env, put_event}
use lrmux.Proto.Encode.{put_events, put_palette, bool_byte}
use lrmux.Proto.Decode.{nonzero, read_rgb, read_pairs, read_session}
use lrmux.Proto.Decode.{read_session_checked, read_command, read_window, read_fg, read_bg}
use lrmux.Proto.Decode.{read_palette, read_event, read_events, skip_byte, read_second}

-- A text that the protocol can carry: well-formed, and its length is a `u32`.
abbrev pub IsText : Bytes → Type 0
IsText s = (is_utf8 s ≡ true) × IsU32 (length s)

-- A reader that succeeds hands its value and the rest on.
pub step :
    {A B : Type 0} (m : Reader A) (f : A → Reader B) {r r' : Bytes} {a : A} {z : Result (B × Bytes)}
    → m r ≡ ok (a, r')
    → f a r' ≡ z
    → (m >>= f) r ≡ z
step m f e k = rw (e, ◌>>=◌) k

pub step_err :
    {A B : Type 0} (m : Reader A) (f : A → Reader B) {r : Bytes} {e : ErrorKind}
    → m r ≡ err e
    → (m >>= f) r ≡ err e
step_err m f e = rw (e, ◌>>=◌)

pub step_panic :
    {A B : Type 0} (m : Reader A) (f : A → Reader B) {r : Bytes} → m r ≡ panic → (m >>= f) r ≡ panic
step_panic m f e = rw (e, ◌>>=◌)

pub read_u16-le16 : (n : ℕ) (r : Bytes) → IsU16 n → read_u16 (le16 n ++ r) ≡ ok (n, r)
unfolding read_u16
read_u16-le16 n r h = ground arith

pub read_u32-le32 : (n : ℕ) (r : Bytes) → IsU32 n → read_u32 (le32 n ++ r) ≡ ok (n, r)
unfolding read_u32
read_u32-le32 n r h = ground arith

pub read_u32-len32 : (s r : Bytes) → IsU32 (length s) → read_u32 (len32 s ++ r) ≡ ok (length s, r)
read_u32-len32 s r h =
    let small : length s % 4294967296 ≡ length s = omega arith in
    rw small (read_u32-le32 (length s) r h)

pub slice-append : (s r : Bytes) → slice (length s) (s ++ r) ≡ ok (s, r)
unfolding slice
slice-append s r = rw (
  le→ltb (length (s ++ r)) (length s) (omega (arith, length-append s r)),
  take-append,
  drop-append,
)

need-append : (s r : Bytes) → need (length s) (s ++ r) ≡ ok (tt, s ++ r)
unfolding need
need-append s r = rw (le→ltb (length (s ++ r)) (length s) (omega (arith, length-append s r)))

pub slice_end : (s : Bytes) → slice (length s) s ≡ ok (s, [])
slice_end s = ap (slice (length s)) (sym (append-nil s)) ∙ slice-append s []

pub need_end : (s : Bytes) → need (length s) s ≡ ok (tt, s)
unfolding need
need_end s = rw (le→ltb (length s) (length s) (omega arith))

-- In each lemma the text may stand at the very end, with `r` empty.
pub read_unchecked_string-put :
    (s t r : Bytes) → IsText s → t ≡ s ++ r → read_unchecked_string (len32 s ++ t) ≡ ok (s, r)
unfolding read_unchecked_string
read_unchecked_string-put s t r h e = rw e (
    step read_u32 _ (read_u32-len32 s (s ++ r) h.1) (
      step (slice (length s)) _ (slice-append s r)
        (ap (λ u. ok (u, r)) (from_utf8_lossy-valid s h.0))))

pub read_len_string-put :
    (s t r : Bytes) → IsText s → t ≡ s ++ r → read_len_string (len32 s ++ t) ≡ ok (s, r)
unfolding read_len_string
read_len_string-put s t r h e = rw e (
    ground (
      arith,
      read_u32-len32 s (s ++ r) h.1,
      need-append s r,
      slice-append s r,
      from_utf8_lossy-valid s h.0,
    ))

pub read_optional_string-put :
    (s t r : Bytes) → IsText s → t ≡ s ++ r → read_optional_string (len32 s ++ t) ≡ ok (s, r)
unfolding read_optional_string
read_optional_string-put [] t r h e = rw e (ground (arith, read_u32-len32 [] r h.1))
read_optional_string-put (b ∷ s) t r h e = rw e (
    ground (
      arith,
      read_u32-len32 (b ∷ s) ((b ∷ s) ++ r) h.1,
      need-append (b ∷ s) r,
      slice-append (b ∷ s) r,
      from_utf8_lossy-valid (b ∷ s) h.0,
    ))

-- The optional fields, whose readers test the flag byte.
abbrev pub IsOptText : Option Bytes → Type 0
IsOptText none = Unit
IsOptText (some s) = IsText s

pub read_session-put :
    (o : Option Bytes) (r : Bytes) → IsOptText o → read_session (put_opt_string o ++ r) ≡ ok (o, r)
unfolding read_session skip_byte
read_session-put none r h = refl
read_session-put (some s) r h = ground (arith, read_unchecked_string-put s (s ++ r) r h refl)

pub read_session_checked-put :
    (o : Option Bytes) (r : Bytes)
    → IsOptText o
    → read_session_checked (put_opt_string o ++ r) ≡ ok (o, r)
unfolding read_session_checked skip_byte
read_session_checked-put none r h = refl
read_session_checked-put (some s) r h = ground (arith, read_len_string-put s (s ++ r) r h refl)

pub read_command-put :
    (o : Option Bytes)
    → IsOptText o
    → (rest : Bytes) × (read_command (put_opt_string o) ≡ ok (o, rest))
unfolding read_command skip_byte
read_command-put none h = (0 ∷ [], refl)
read_command-put (some s) h =
    ([], ground (arith, read_unchecked_string-put s s [] h (sym (append-nil s))))

pub read_window-put :
    (short : Result (ℕ × Bytes)) (o : Option ℕ) (r : Bytes)
    → read_window short (put_opt_u8 o ++ r) ≡ ok (o, r)
unfolding read_window skip_byte read_second
read_window-put short none r = refl
read_window-put short (some w) r = refl

pub read_fg-put : (o : Option Rgb) (r : Bytes) → read_fg (put_opt_rgb o ++ r) ≡ ok (o, r)
unfolding read_fg skip_byte read_rgb
read_fg-put none r = refl
read_fg-put (some (a, b, c)) r = refl

-- What the last colour leaves unread: its zero flag.
abbrev pub bg_rest : Option Rgb → Bytes
bg_rest none = 0 ∷ []
bg_rest (some c) = []

pub read_bg-put : (o : Option Rgb) → read_bg (put_opt_rgb o) ≡ ok (o, bg_rest o)
unfolding read_bg read_rgb
read_bg-put none = refl
read_bg-put (some (a, b, c)) = refl

pub read_palette-put :
    (fg bg : Option Rgb) → (rest : Bytes) × (read_palette (put_palette fg bg) ≡ ok ((fg, bg), rest))
unfolding read_palette read_fg read_bg skip_byte read_rgb
read_palette-put none none = (0 ∷ [], refl)
read_palette-put none (some (a, b, c)) = ([], refl)
read_palette-put (some (a, b, c)) none = (0 ∷ [], refl)
read_palette-put (some (a, b, c)) (some (d, e, f)) = ([], refl)

abbrev pub IsEvent : InputEvent → Type 0
IsEvent ev = IsU16 ev.x × IsU16 ev.y

pub nonzero-bool_byte : (b : Bool) → nonzero (bool_byte b) ≡ b
nonzero-bool_byte true = refl
nonzero-bool_byte false = refl

pub read_event-put :
    (ev : InputEvent) (r : Bytes) → IsEvent ev → read_event (put_event ev ++ r) ≡ ok (ev, r)
unfolding read_event read_u8
read_event-put ev r h = ground (
  arith,
  read_u16-le16 ev.x (le16 ev.y ++ (bool_byte ev.release ∷ r)) h.0,
  read_u16-le16 ev.y (bool_byte ev.release ∷ r) h.1,
  nonzero-bool_byte ev.release,
)

pub read_events-put :
    (events : List InputEvent) (r : Bytes)
    → All IsEvent events
    → read_events (length events) (put_events events ++ r) ≡ ok (events, r)
unfolding read_events
read_events-put [] r h = refl
read_events-put (ev ∷ events) r h =
    step read_event _ (read_event-put ev (put_events events ++ r) h.0)
      (step (read_events (length events)) _ (read_events-put events r h.1) refl)

abbrev pub IsPair : Bytes × Bytes → Type 0
IsPair (k, v) = IsText k × IsText v

pub read_pairs-put :
    (env : List (Bytes × Bytes)) (r : Bytes)
    → All IsPair env
    → read_pairs (length env) (put_env env ++ r) ≡ ok (env, r)
unfolding read_pairs
read_pairs-put [] r h = refl
read_pairs-put ((k, v) ∷ env) r h =
    let rest = put_env env ++ r in
    let tail = put_string v ++ rest in
    step read_optional_string _
      (read_optional_string-put k _ tail h.0.0 (
        append_assoc k (put_string v ++ put_env env) r
        ∙ ap (λ t. k ++ (len32 v ++ t)) (append_assoc v (put_env env) r)))
      (step read_optional_string _ (read_optional_string-put v (v ++ rest) rest h.0.1 refl)
        (step (read_pairs (length env)) _ (read_pairs-put env r h.1) refl))
