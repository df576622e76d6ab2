-- ===== src/EventLoop/Safe.antt =====
-- The readers that `try_parse_frame` (src/server/event_loop.rs) uses, on any input.
use lrmux.Base.{ℕ, zero, suc, Bool, true, false, ◌≡◌, ◌≢◌, refl, inl, inr, ◌∙◌}
use lrmux.Base.{Option, none, some, [], ◌∷◌, length, take, drop, arith}
use lrmux.Base.{sym, ltb, if◌then◌else◌, Bool-cases, if_true, if_false}
use lrmux.Proto.Utf8.{Bytes, from_utf8_lossy}
use lrmux.Proto.Message.{Rgb}
use lrmux.Proto.Reader.{
  unexpected_eof, Result, ok, err, panic, Reader, ◌>>=◌, ◌>>◌, pure, Result-cases,
}
use lrmux.Proto.Reader.{read_u8, read_u16, read_u32, slice, need, read_len_string}
use lrmux.Proto.Readers.{step, step_err}
use lrmux.Proto.Decode.{
  nonzero, first_is_one, read_rgb, read_attach, read_format, read_event, read_events,
}
use lrmux.EventLoop.Fields.{read_opt_text, read_opt_u8, read_color, read_colors}

-- The reader returns or fails, whatever the input is.
abbrev pub IsSafe : {A : Type 0} → Reader A → Type 0
IsSafe m = (r : Bytes) → m r ≢ panic

pub pure-IsSafe : {A : Type 0} (a : A) → IsSafe (pure a)
pure-IsSafe a r e = cc

pub >>=-IsSafe :
    {A B : Type 0} (m : Reader A) (f : A → Reader B)
    → IsSafe m
    → ((a : A) → IsSafe (f a))
    → IsSafe (m >>= f)
>>=-IsSafe m f hm hf r e = elim (Result-cases (m r)) [
  | inl ((a, r'), q) ↦ hf a r' (ground (arith))
  | inr (inl (x, q)) ↦ ground arith
  | inr (inr q) ↦ hm r q
]

-- A reader chosen by a test.
pub if-IsSafe :
    {A : Type 0} (b : Bool) (m k : Reader A)
    → (b ≡ true → IsSafe m)
    → (b ≡ false → IsSafe k)
    → IsSafe (if b then m else k)
if-IsSafe true m k hm hk = hm refl
if-IsSafe false m k hm hk = hk refl

pub read_u8-IsSafe : IsSafe read_u8
unfolding read_u8
read_u8-IsSafe [] e = cc
read_u8-IsSafe (a ∷ r) e = cc

pub read_u16-IsSafe : IsSafe read_u16
unfolding read_u16
read_u16-IsSafe [] e = cc
read_u16-IsSafe (a ∷ []) e = cc
read_u16-IsSafe (a ∷ b ∷ r) e = cc

pub read_u32-IsSafe : IsSafe read_u32
unfolding read_u32
read_u32-IsSafe [] e = cc
read_u32-IsSafe (a ∷ []) e = cc
read_u32-IsSafe (a ∷ b ∷ []) e = cc
read_u32-IsSafe (a ∷ b ∷ c ∷ []) e = cc
read_u32-IsSafe (a ∷ b ∷ c ∷ d ∷ r) e = cc

read_rgb-IsSafe : IsSafe read_rgb
unfolding read_rgb
read_rgb-IsSafe [] e = cc
read_rgb-IsSafe (f ∷ []) e = cc
read_rgb-IsSafe (f ∷ a ∷ []) e = cc
read_rgb-IsSafe (f ∷ a ∷ b ∷ []) e = cc
read_rgb-IsSafe (f ∷ a ∷ b ∷ c ∷ r) e = cc

pub read_attach-IsSafe : IsSafe read_attach
unfolding read_attach
read_attach-IsSafe [] e = cc
read_attach-IsSafe (b ∷ r) e = cc

pub read_format-IsSafe : IsSafe read_format
unfolding read_format
read_format-IsSafe [] e = cc
read_format-IsSafe (f ∷ []) e = cc
read_format-IsSafe (f ∷ c ∷ r) e = cc

pub need-IsSafe : (n : ℕ) → IsSafe (need n)
unfolding need
need-IsSafe n r e = ground arith

need_short : (n : ℕ) (r : Bytes) → ltb (length r) n ≡ true → need n r ≡ err unexpected_eof
unfolding need
need_short n r h = if_true _ h

need_enough : (n : ℕ) (r : Bytes) → ltb (length r) n ≡ false → need n r ≡ ok (tt, r)
unfolding need
need_enough n r h = if_false _ h

slice_enough : (n : ℕ) (r : Bytes) → ltb (length r) n ≡ false → slice n r ≡ ok (take n r, drop n r)
unfolding slice
slice_enough n r h = if_false _ h

-- A slice whose length was checked.
pub checked-IsSafe :
    {B : Type 0} (n : ℕ) (f : Bytes → Reader B)
    → ((s : Bytes) → IsSafe (f s))
    → IsSafe (do need n; s ← slice n; f s)
checked-IsSafe n f h r e = elim (Bool-cases (ltb (length r) n)) [
  | inl short ↦ cc (step_err (need n) (λ _. slice n >>= f) (need_short n r short))
  | inr enough ↦ h (take n r) (drop n r) (
      sym (
        step (need n) (λ _. slice n >>= f) (need_enough n r enough)
          (step (slice n) f (slice_enough n r enough) refl))
      ∙ e)
]

pub read_len_string-IsSafe : IsSafe read_len_string
unfolding read_len_string
read_len_string-IsSafe =
    >>=-IsSafe read_u32 _ read_u32-IsSafe
      λ len. checked-IsSafe len _ λ s. pure-IsSafe (from_utf8_lossy s)

-- A field behind a flag.
optional-IsSafe :
    {A : Type 0} (b : Bool) (m : Reader A) (r r' : Bytes)
    → IsSafe m
    → (if b then (m >>= λ a. pure (some a)) r else ok (none, r')) ≢ panic
optional-IsSafe true m r r' h e = >>=-IsSafe m _ h (λ a. pure-IsSafe (some a)) r e
optional-IsSafe false m r r' h e = cc

pub read_opt_text-IsSafe : IsSafe read_opt_text
unfolding read_opt_text
read_opt_text-IsSafe [] e = cc
read_opt_text-IsSafe (flag ∷ r) e =
    optional-IsSafe (nonzero flag) read_len_string r r read_len_string-IsSafe e

pub read_opt_u8-IsSafe : IsSafe read_opt_u8
unfolding read_opt_u8
read_opt_u8-IsSafe [] e = cc
read_opt_u8-IsSafe (flag ∷ r) e = optional-IsSafe (nonzero flag) read_u8 r r read_u8-IsSafe e

pub read_color-IsSafe : IsSafe read_color
unfolding read_color
read_color-IsSafe r = optional-IsSafe (first_is_one r) read_rgb r (drop 1 r) read_rgb-IsSafe

pub read_colors-IsSafe : IsSafe read_colors
unfolding read_colors
read_colors-IsSafe r e = elim (Bool-cases (first_is_one r)) [
  | inl given ↦ pair-IsSafe (drop 1 r) (sym (if_true _ given) ∙ e)
  | inr absent ↦
      cc (if_false {A = Result ((Option Rgb × Option Rgb) × Bytes)} (pair (drop 1 r)) absent)
]
  where
    pair : Reader (Option Rgb × Option Rgb)
    pair = do fg ← read_color; bg ← read_color; pure (fg, bg)

    pair-IsSafe : IsSafe pair
    pair-IsSafe =
        >>=-IsSafe read_color _ read_color-IsSafe
          λ fg. >>=-IsSafe read_color _ read_color-IsSafe λ bg. pure-IsSafe (fg, bg)

read_event-IsSafe : IsSafe read_event
unfolding read_event
read_event-IsSafe = >>=-IsSafe read_u8 _ read_u8-IsSafe λ kind.
    >>=-IsSafe read_u8 _ read_u8-IsSafe λ cb. >>=-IsSafe read_u16 _ read_u16-IsSafe λ x.
      >>=-IsSafe read_u16 _ read_u16-IsSafe
        λ y. >>=-IsSafe read_u8 _ read_u8-IsSafe λ release. pure-IsSafe _

pub read_events-IsSafe : (n : ℕ) → IsSafe (read_events n)
unfolding read_events
read_events-IsSafe zero = pure-IsSafe []
read_events-IsSafe (suc n) =
    >>=-IsSafe read_event _ read_event-IsSafe
      λ ev. >>=-IsSafe (read_events n) _ (read_events-IsSafe n) λ events. pure-IsSafe (ev ∷ events)
