-- ===== src/Input/Hold.antt =====
-- Held bytes and the clock (src/client/input_filter.rs).
use lrmux.Base.{ℕ, ◌+◌, ◌-◌, ◌≤◌, ◌≡◌, ap, ◌∙◌, arith, none, some, [], ◌++◌, append-nil, max}
use lrmux.Input.Filter.{InputFilter, hold_ms, new, feed, flush_expired, hold_remaining_ms}
use lrmux.Input.Scan.{Scans-nil}
use lrmux.Input.Split.{feed_lem, kept}

-- Held bytes are let go: at a time not before the hold began, with nothing injected, the filter
-- names a wait between 1 and 100 milliseconds, and after it `flush_expired` and a `feed` of
-- nothing emit what was ready and then the held bytes, and leave a new filter.
pub flush_expired-feed :
    (now since : ℕ) (f : InputFilter)
    → f.pending_since ≡ some since
    → since ≤ now
    → f.injected ≡ []
    → (wait : ℕ) × (hold_remaining_ms now f ≡ some wait)
      × (1 ≤ wait)
      × (wait ≤ hold_ms)
      × (feed (now + wait) [] (flush_expired (now + wait) f) ≡ some (new, f.ready ++ f.pending))
unfolding flush_expired hold_remaining_ms new
flush_expired-feed now since f marked past clean =
    let wait = max (hold_ms - (now - since)) 1 in
    let h : InputFilter = record f {
      pending_since = none;
      ready = f.ready ++ f.pending;
      pending = [];
    } in
    let flushed : flush_expired (now + wait) f ≡ h = ground arith in
    let run = feed_lem (now + wait) [] [] [] h (rw clean Scans-nil) in
    (
      wait,
      ground arith,
      omega arith,
      omega arith,
      rw flushed
          (run ∙ ap (λ t. some (kept (now + wait) [], t)) (append-nil (f.ready ++ f.pending))),
    )
