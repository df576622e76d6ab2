-- ===== src/Input/Cut.antt =====
-- A reply whose ESC is the last byte of a read (src/client/input_filter.rs).
use lrmux.Base.{ℕ, ◌≡◌, refl, arith, ◌==◌, false, some, [], ◌∷◌, ◌++◌, All, ≢→==, subst, append-nil}
use lrmux.Input.Filter.{Bytes, string, opener_of, feed, new}
use lrmux.Input.Scan.{plain, last, Scans, Scans-nil, Scans-turn}
use lrmux.Input.Split.{feed_lem}
use lrmux.Input.Tokens.{IsTextByte, text, bel, token_bytes, Scans-string}

Scans-text :
    (body rest out held : Bytes)
    → All IsTextByte body
    → Scans rest out held
    → Scans (body ++ rest) (body ++ out) held
Scans-text [] rest out held h go = go
Scans-text (b ∷ body) rest out held h go =
    Scans-turn b (body ++ rest) (b ∷ []) (body ++ out) held 1
      (plain b (body ++ rest) (≢→== b 0x1b h.0.1)) (Scans-text body rest out held h.1 go)

string-ne : (c : ℕ) → opener_of c ≡ string → (c == 0x1b) ≡ false
unfolding opener_of
string-ne c h = ground arith

-- A string sequence that ends in BEL is consumed if it is read at once, but if the read is cut
-- right behind its ESC, a new filter emits that ESC, and later all the rest of the sequence, as
-- keys. Its text is without BEL and ESC.
pub feed_cut :
    (now later c : ℕ) (body : Bytes)
    → opener_of c ≡ string
    → All IsTextByte body
    → let reply = c ∷ (body ++ 0x07 ∷ []) in
      (feed now (0x1b ∷ reply) new ≡ some (new, []))
      × (feed now (0x1b ∷ []) new ≡ some (new, 0x1b ∷ []))
      × (feed later reply new ≡ some (new, reply))
unfolding new
feed_cut now later c body h hb =
    let reply = c ∷ (body ++ 0x07 ∷ []) in
    let end = Scans-turn 0x07 [] (0x07 ∷ []) [] [] 1 (plain 0x07 [] refl) Scans-nil in
    let rest = Scans-text body (0x07 ∷ []) (0x07 ∷ []) [] hb end in
    (
      feed_lem now (0x1b ∷ reply) [] [] new (whole h hb),
      feed_lem now (0x1b ∷ []) (0x1b ∷ []) [] new
          (Scans-turn 0x1b [] (0x1b ∷ []) [] [] 1 last Scans-nil),
      feed_lem later reply reply [] new (
          Scans-turn c (body ++ 0x07 ∷ []) (c ∷ []) (body ++ 0x07 ∷ []) [] 1
            (plain c (body ++ 0x07 ∷ []) (string-ne c h)) rest),
    )
  where
    whole :
        opener_of c ≡ string → All IsTextByte body → Scans (0x1b ∷ c ∷ (body ++ 0x07 ∷ [])) [] []
    whole h hb =
        subst (λ t. Scans t [] []) (append-nil (token_bytes (text c body bel)))
          (Scans-string c body bel [] [] [] h hb Scans-nil)
