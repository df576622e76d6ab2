-- ===== src/EventLoop/Puts.antt =====
-- What `encode_client` (src/proto/mod.rs) writes, through the readers of
-- `try_parse_frame` (src/server/event_loop.rs).
use lrmux.Base.{ℕ, suc, ◌+◌, ◌*◌, ◌%◌, ◌≤◌, min, Bool, true, false, ◌≡◌, refl, sym, ap, ◌∙◌}
use lrmux.Base.{arith, Option, none, some, List, [], ◌∷◌, ◌++◌, length, drop, append-nil}
use lrmux.Base.{All, length-append, drop-append, le→ltb, if_false}
use lrmux.Proto.Utf8.{Bytes}
use lrmux.Proto.Reader.{ok, le32}
use lrmux.Proto.Reader.{read_u8, need, read_len_string}
use lrmux.Proto.Message.{InputEvent, Rgb}
use lrmux.Proto.Encode.{put_string, put_opt_string, put_opt_u8, put_opt_rgb, put_env}
use lrmux.Proto.Encode.{put_events, put_palette, bool_byte}
use lrmux.Proto.Decode.{read_attach, read_format, read_rgb}
use lrmux.Proto.Readers.{IsText, IsOptText, IsPair, step, read_u32-le32}
use lrmux.Proto.Readers.{read_len_string-put}
use lrmux.EventLoop.Fields.{read_opt_text, read_opt_u8, read_color, read_colors, read_token}
use lrmux.EventLoop.Fields.{take_env, take_pairs, read_pair}

pub read_opt_text-put :
    (o : Option Bytes) (r : Bytes) → IsOptText o → read_opt_text (put_opt_string o ++ r) ≡ ok (o, r)
unfolding read_opt_text
read_opt_text-put none r h = refl
read_opt_text-put (some s) r h = ground (arith, read_len_string-put s (s ++ r) r h refl)

pub read_opt_text_end :
    (o : Option Bytes) → IsOptText o → read_opt_text (put_opt_string o) ≡ ok (o, [])
read_opt_text_end o h =
    ap read_opt_text (sym (append-nil (put_opt_string o))) ∙ read_opt_text-put o [] h

pub read_opt_u8-put : (o : Option ℕ) (r : Bytes) → read_opt_u8 (put_opt_u8 o ++ r) ≡ ok (o, r)
unfolding read_opt_u8 read_u8
read_opt_u8-put none r = refl
read_opt_u8-put (some w) r = refl

pub read_color-put : (o : Option Rgb) (r : Bytes) → read_color (put_opt_rgb o ++ r) ≡ ok (o, r)
unfolding read_color read_rgb
read_color-put none r = refl
read_color-put (some (a, b, c)) r = refl

pub read_colors-put :
    (fg bg : Option Rgb) → (rest : Bytes) × (read_colors (put_palette fg bg) ≡ ok ((fg, bg), rest))
unfolding read_colors read_color read_rgb
read_colors-put none none = (0 ∷ [], refl)
read_colors-put none (some (a, b, c)) = ([], refl)
read_colors-put (some (a, b, c)) none = ([], refl)
read_colors-put (some (a, b, c)) (some (d, e, f)) = ([], refl)

pub read_token-put : (s r : Bytes) → IsText s → read_token (put_string s ++ r) ≡ s
unfolding read_token
read_token-put s r h = ground (arith, read_len_string-put s (s ++ r) r h refl)

read_pair-put :
    (k v r : Bytes)
    → IsPair (k, v)
    → read_pair (put_string k ++ (put_string v ++ r)) ≡ ok ((k, v), r)
unfolding read_pair
read_pair-put k v r h =
    step read_len_string _ (read_len_string-put k (k ++ (put_string v ++ r)) _ h.0 refl)
      (step read_len_string _ (read_len_string-put v (v ++ r) r h.1 refl) refl)

take_pairs-put :
    (env : List (Bytes × Bytes)) → All IsPair env → take_pairs (length env) (put_env env) ≡ env
unfolding take_pairs
take_pairs-put [] h = refl
take_pairs-put ((k, v) ∷ env) h =
    ground (arith, read_pair-put k v (put_env env) h.0, take_pairs-put env h.1)

pub take_env-put :
    (env : List (Bytes × Bytes))
    → length env ≤ 64
    → All IsPair env
    → take_env (le32 (length env % 4294967296) ++ put_env env) ≡ env
unfolding take_env
take_env-put env few h =
    let small : length env % 4294967296 ≡ length env = omega arith in
    let all : min (length env) 64 ≡ length env = omega arith in
    rw small (ground (arith, read_u32-le32 (length env) (put_env env), all, take_pairs-put env h))

pub drop_token : (s r : Bytes) → drop (4 + length s) (put_string s ++ r) ≡ r
drop_token s r =
    let four : 4 + length s ≡ suc (suc (suc (suc (length s)))) = omega arith in
    ap (λ n. drop n (put_string s ++ r)) four ∙ drop-append s r

pub read_attach-put : (b : Bool) (r : Bytes) → read_attach (bool_byte b ∷ r) ≡ ok (b, r)
unfolding read_attach
read_attach-put true r = refl
read_attach-put false r = refl

pub read_format-put :
    (format : ℕ) (colors : Bool) (r : Bytes)
    → read_format (format ∷ bool_byte colors ∷ r) ≡ ok ((format, colors), r)
unfolding read_format
read_format-put format true r = refl
read_format-put format false r = refl

pub need_enough : (n : ℕ) (r : Bytes) → n ≤ length r → need n r ≡ ok (tt, r)
unfolding need
need_enough n r h = if_false _ (le→ltb (length r) n h)

pub put_opt_string_pos :
    (o : Option Bytes) (r : Bytes) → 1 + length r ≤ length (put_opt_string o ++ r)
put_opt_string_pos none r = omega arith
put_opt_string_pos (some s) r = omega (arith, length-append s r)

pub put_opt_u8_pos : (o : Option ℕ) (r : Bytes) → 1 + length r ≤ length (put_opt_u8 o ++ r)
put_opt_u8_pos none r = omega arith
put_opt_u8_pos (some w) r = omega arith

pub length-put_events : (events : List InputEvent) → length (put_events events) ≡ length events * 7
length-put_events [] = omega arith
length-put_events (ev ∷ events) = omega (arith, length-put_events events)
