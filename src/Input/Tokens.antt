-- ===== src/Input/Tokens.antt =====
-- What the filter of src/client/input_filter.rs is for: keys pass, replies of the terminal do not.
use lrmux.Base.{
  ℕ, suc, ◌+◌, ◌≡◌, ◌≢◌, refl, sym, ap, ap₂, ◌∙◌, arith, Bool, true, false, ◌&&◌, ◌||◌, ◌==◌, leb,
  if◌then◌else◌, some, List, [], ◌∷◌, ◌++◌, length, take, contains, All, subst, drop-append,
  take-append,
}
use lrmux.Input.Filter.{
  Bytes, csi_reply_finals, str_end, csi_from, string, csi, key, opener_of, feed, new,
}
use lrmux.Input.Scan.{plain, alone, dropped, reply, passed, Scans, Scans-nil, Scans-turn}
use lrmux.Input.Split.{feed_lem}

pub data Ending : Type 0 where
  bel st : Ending

-- What a terminal sends: a byte, a key with Alt, a control sequence with its parameters and its final
-- byte, or a string sequence with the byte behind the ESC, its text and its end.
pub data Token : Type 0 where
  byte : ℕ → Token
  alt : ℕ → Token
  control : Bytes → ℕ → Token
  text : ℕ → Bytes → Ending → Token

abbrev pub ending_bytes : Ending → Bytes
ending_bytes bel = 0x07 ∷ []
ending_bytes st = 0x1b ∷ 0x5c ∷ []

abbrev pub token_bytes : Token → Bytes
token_bytes (byte b) = b ∷ []
token_bytes (alt c) = 0x1b ∷ c ∷ []
token_bytes (control params final) = 0x1b ∷ 0x5b ∷ (params ++ final ∷ [])
token_bytes (text c body e) = 0x1b ∷ c ∷ (body ++ ending_bytes e)

abbrev pub IsParam : ℕ → Type 0
IsParam b = (leb 0x20 b && leb b 0x3f) ≡ true

abbrev pub IsTextByte : ℕ → Type 0
IsTextByte b = (b ≢ 0x07) × (b ≢ 0x1b)

-- The bytes behind an ESC that start a string: OSC, DCS, APC, PM and SOS.
pub data StartsString : ℕ → Type 0 where
  osc : StartsString 0x5d
  dcs : StartsString 0x50
  apc : StartsString 0x5f
  pm : StartsString 0x5e
  sos : StartsString 0x58

-- The final bytes of the reports of a terminal: `c`, `n`, `t`, `x`, `y` and `R`.
abbrev pub is_report : ℕ → Bool
is_report final =
    final == 0x63
    || final == 0x6e
    || final == 0x74
    || final == 0x78
    || final == 0x79
    || final == 0x52

-- With Alt, these bytes do not start a sequence: not ESC, and not one of `[ ] P _ ^ X`.
abbrev pub IsAltKey : ℕ → Type 0
IsAltKey c =
    (c ≢ 0x1b) × (c ≢ 0x5b) × (c ≢ 0x5d) × (c ≢ 0x50) × (c ≢ 0x5f) × (c ≢ 0x5e) × (c ≢ 0x58)

-- The bytes of a token are such that it ends where it should.
abbrev pub IsToken : Token → Type 0
IsToken (byte b) = b ≢ 0x1b
IsToken (alt c) = IsAltKey c
IsToken (control params final) = All IsParam params × ((leb 0x40 final && leb final 0x7e) ≡ true)
IsToken (text c body e) = StartsString c × All IsTextByte body

-- What should reach the pane of a token.
abbrev pub token_keys : Token → Bytes
token_keys (byte b) = b ∷ []
token_keys (alt c) = 0x1b ∷ c ∷ []
token_keys (control params final) =
    if is_report final then [] else token_bytes (control params final)
token_keys (text c body e) = []

abbrev pub all_bytes : List Token → Bytes
all_bytes [] = []
all_bytes (t ∷ ts) = token_bytes t ++ all_bytes ts

abbrev pub all_keys : List Token → Bytes
all_keys [] = []
all_keys (t ∷ ts) = token_keys t ++ all_keys ts

str_end-text :
    (i : ℕ) (body : Bytes) (e : Ending) (rest : Bytes)
    → All IsTextByte body
    → str_end i ((body ++ ending_bytes e) ++ rest) ≡ some (i + length (body ++ ending_bytes e))
unfolding str_end
str_end-text i [] bel rest h = ground arith
str_end-text i [] st rest h = ground arith
str_end-text i (b ∷ body) bel rest h = ground (arith, str_end-text (i + 1) body bel rest h.1)
str_end-text i (b ∷ body) st rest h = ground (arith, str_end-text (i + 1) body st rest h.1)

csi_from-control :
    (i : ℕ) (params : Bytes) (final : ℕ) (rest : Bytes)
    → All IsParam params
    → (leb 0x40 final && leb final 0x7e) ≡ true
    → csi_from i ((params ++ final ∷ []) ++ rest)
      ≡ some (i + length (params ++ final ∷ []), contains csi_reply_finals final)
unfolding csi_from
csi_from-control i [] final rest h hf = ground arith
csi_from-control i (b ∷ params) final rest h hf =
    ground (arith, csi_from-control (i + 1) params final rest h.1 hf)

csi_opener : opener_of 0x5b ≡ csi
unfolding opener_of
csi_opener = refl

opener_of-StartsString : (c : ℕ) → StartsString c → opener_of c ≡ string
unfolding opener_of
opener_of-StartsString _ osc = refl
opener_of-StartsString _ dcs = refl
opener_of-StartsString _ apc = refl
opener_of-StartsString _ pm = refl
opener_of-StartsString _ sos = refl

opener_of-IsAltKey : (c : ℕ) → IsAltKey c → opener_of c ≡ key
unfolding opener_of
opener_of-IsAltKey c (a, b, d, e, f, g, h) = ground arith

reports : (final : ℕ) → contains csi_reply_finals final ≡ is_report final
reports final = ground arith

two_more : (n : ℕ) → 2 + n ≡ suc (suc n)
two_more n = omega arith

Scans-control :
    (params : Bytes) (final : ℕ) (reported : Bool) (rest out held : Bytes)
    → contains csi_reply_finals final ≡ reported
    → is_report final ≡ reported
    → IsToken (control params final)
    → Scans rest out held
    → Scans
        (token_bytes (control params final) ++ rest)
        (token_keys (control params final) ++ out)
        held
Scans-control params final true rest out held q k h go =
    let tail = params ++ final ∷ [] in
    let found =
      csi_from-control 2 params final rest h.0 h.1
      ∙ ap₂ (λ n r. some (n, r)) (two_more (length tail)) q in
    rw k (
      Scans-turn 0x1b (0x5b ∷ (tail ++ rest)) [] out held (suc (suc (length tail)))
        (reply 0x5b (tail ++ rest) (suc (suc (length tail))) csi_opener found)
        (subst (λ t. Scans t out held) (sym (drop-append tail rest)) go))
Scans-control params final false rest out held q k h go =
    let tail = params ++ final ∷ [] in
    let whole = 0x1b ∷ 0x5b ∷ tail in
    let found =
      csi_from-control 2 params final rest h.0 h.1
      ∙ ap₂ (λ n r. some (n, r)) (two_more (length tail)) q in
    rw k (
      subst (λ t. Scans (whole ++ rest) (t ++ out) held) (take-append whole rest)
        (Scans-turn 0x1b (0x5b ∷ (tail ++ rest)) (take (suc (suc (length tail))) (whole ++ rest))
          out held (suc (suc (length tail)))
          (passed 0x5b (tail ++ rest) (suc (suc (length tail))) csi_opener found)
          (subst (λ t. Scans t out held) (sym (drop-append tail rest)) go)))

pub Scans-string :
    (c : ℕ) (body : Bytes) (e : Ending) (rest out held : Bytes)
    → opener_of c ≡ string
    → All IsTextByte body
    → Scans rest out held
    → Scans (token_bytes (text c body e) ++ rest) out held
Scans-string c body e rest out held opens clean go =
    let tail = body ++ ending_bytes e in
    Scans-turn 0x1b (c ∷ (tail ++ rest)) [] out held (suc (suc (length tail)))
      (dropped c (tail ++ rest) (suc (suc (length tail))) opens
        (str_end-text 2 body e rest clean ∙ ap some (two_more (length tail))))
      (subst (λ t. Scans t out held) (sym (drop-append tail rest)) go)

pub Scans-token :
    (t : Token) (rest out held : Bytes)
    → IsToken t
    → Scans rest out held
    → Scans (token_bytes t ++ rest) (token_keys t ++ out) held
Scans-token (byte b) rest out held h go =
    Scans-turn b rest (b ∷ []) out held 1 (plain b rest (ground arith)) go
Scans-token (alt c) rest out held h go =
    Scans-turn 0x1b (c ∷ rest) (0x1b ∷ []) (c ∷ out) held 1 (alone c rest (opener_of-IsAltKey c h))
      (Scans-turn c rest (c ∷ []) out held 1 (plain c rest (ground (arith, h.0))) go)
Scans-token (control params final) rest out held h go =
    Scans-control params final (is_report final) rest out held (reports final) refl h go
Scans-token (text c body e) rest out held h go =
    Scans-string c body e rest out held (opener_of-StartsString c h.0) h.1 go

Scans-tokens : (ts : List Token) → All IsToken ts → Scans (all_bytes ts) (all_keys ts) []
Scans-tokens [] h = Scans-nil
Scans-tokens (t ∷ ts) h = Scans-token t (all_bytes ts) (all_keys ts) [] h.0 (Scans-tokens ts h.1)

-- What a terminal sends as whole tokens, fed to a new filter, comes out as the keys alone: plain
-- bytes, keys with Alt save those on which a sequence would start (ESC and `[ ] P _ ^ X`), and
-- control sequences that do not end as a report (`c n t x y R`) pass whole and in order, reports
-- and the string sequences OSC, DCS, APC, PM and SOS vanish, and nothing is held.
pub feed-all_bytes :
    (now : ℕ) (ts : List Token)
    → All IsToken ts
    → feed now (all_bytes ts) new ≡ some (new, all_keys ts)
unfolding new
feed-all_bytes now ts h = feed_lem now (all_bytes ts) (all_keys ts) [] new (Scans-tokens ts h)
