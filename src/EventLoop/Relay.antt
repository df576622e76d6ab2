-- ===== src/EventLoop/Relay.antt =====
-- The bytes that a relay of src/server/event_loop.rs passes on to its peer.
use lrmux.Base.{ℕ, zero, suc, ◌≤◌, false, ◌≡◌, refl, sym, ◌∙◌, arith, [], ◌∷◌}
use lrmux.Base.{length, drop, length-drop, ◌==◌, Bool-cases, inl, inr, if_true, if_false}
use lrmux.Proto.Utf8.{Bytes}
use lrmux.EventLoop.Loop.{Dispatch, Written, wrote, would_block, broke, flush_after, flush_relay_in}

module _ {S : Type 0} (d : Dispatch S) where
  -- Fuel beyond the number of the bytes makes no difference: no write is left out.
  pub flush_relay_in-fuel :
      (f g : ℕ) (s : S) (bytes : Bytes)
      → length bytes ≤ f
      → length bytes ≤ g
      → flush_relay_in d f s bytes ≡ flush_relay_in d g s bytes
  unfolding flush_relay_in
  flush_relay_in-fuel f g s [] hf hg = refl
  flush_relay_in-fuel zero g s (b ∷ bytes) hf hg = absurd (omega arith)
  flush_relay_in-fuel (suc f) zero s (b ∷ bytes) hf hg = absurd (omega arith)
  flush_relay_in-fuel (suc f) (suc g) s (b ∷ bytes) hf hg =
      by_write (d.write s (b ∷ bytes)) (λ n s' more.
        let some_taken : (n == 0) ≡ false = more in
        let fewer = length-drop n (b ∷ bytes) in
        flush_relay_in-fuel f g s' (drop n (b ∷ bytes)) (ground (arith, fewer))
          (ground (arith, fewer)))
    where
      by_write :
          (w : Written × S)
          → ((n : ℕ) (s' : S)
              → (n == 0) ≡ false
              → flush_relay_in d f s' (drop n (b ∷ bytes))
                ≡ flush_relay_in d g s' (drop n (b ∷ bytes)))
          → flush_after (flush_relay_in d f) (b ∷ bytes) w
            ≡ flush_after (flush_relay_in d g) (b ∷ bytes) w
      by_write (wrote n, s') ih = elim (Bool-cases (n == 0)) [
        | inl nothing ↦ if_true _ nothing ∙ sym (if_true _ nothing)
        | inr more ↦ if_false _ more ∙ ih n s' more ∙ sym (if_false _ more)
      ]
      by_write (would_block, s') ih = refl
      by_write (broke, s') ih = refl
