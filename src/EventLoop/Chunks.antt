-- ===== src/EventLoop/Chunks.antt =====
-- The frames of a client's buffer (src/server/event_loop.rs) as its bytes arrive in pieces.
use lrmux.Base.{false}
use lrmux.Base.{ℕ, zero, suc, ◌<◌, ◌≡◌, ◌≢◌, inl, inr, refl, sym, ap, ◌∙◌}
use lrmux.Base.{arith, Option, none, some, List, [], ◌∷◌, ◌++◌, length}
use lrmux.Base.{length-append, if_false}
use lrmux.Proto.Utf8.{Bytes}
use lrmux.Proto.Reader.{Result, ok, err, panic}
use lrmux.Proto.Message.{ClientMsg}
use lrmux.EventLoop.Loop.{
  Dispatch, Outcome, stays, leaves, stops, Conn, Ending, waiting, removed, stopped, crashed,
  out_of_fuel, Batch, ended, in_front, all_in_front, outcome, handled, turn, go_on, take_frames,
  frames_of, resume, feed,
}
use lrmux.EventLoop.Turns.{taken_or_left, frames_of_fuel}

abbrev pub concat : List Bytes → Bytes
concat [] = []
concat (c ∷ cs) = c ++ concat cs

module _ {S : Type 0} (d : Dispatch S) where
  feed-in_front :
      (m : ClientMsg) (batch : Batch S) (b : Bytes)
      → feed d (in_front m batch) b ≡ in_front m (feed d batch b)
  unfolding feed
  feed-in_front m batch b = by_ending batch.ending
    where
      by_ending : (e : Ending) → resume d e (in_front m batch) b ≡ in_front m (resume d e batch b)
      by_ending waiting = refl
      by_ending removed = refl
      by_ending stopped = refl
      by_ending crashed = refl
      by_ending out_of_fuel = refl

  feed_waiting :
      (c : Conn S) (a b : Bytes)
      → c.relay_peer ≡ false
      → feed d (ended waiting c a) b ≡ frames_of d c (a ++ b)
  unfolding feed
  feed_waiting c a b shut = ap (λ t. all_in_front [] t) (if_false _ shut)

  -- What was read so far has opened no relay.
  feed-take_frames :
      (f : ℕ) (c : Conn S) (a b : Bytes)
      → length a < f
      → (take_frames d f c a).conn.relay_peer ≡ false
      → feed d (take_frames d f c a) b ≡ frames_of d c (a ++ b)
  unfolding take_frames
  feed-take_frames zero c a b h shut = absurd (omega arith)
  feed-take_frames (suc f) c a b h shut = elim (taken_or_left a) [
    | inl e ↦
        ap (λ t. feed d (go_on d (take_frames d f) c t) b) e
        ∙ feed_waiting c a b
            (sym (ap (λ u. (go_on d (take_frames d f) c u).conn.relay_peer) e) ∙ shut)
    | inr t ↦
        let n = length (a ++ b) in
        let shorter : length (t.rest ++ b) < n =
          omega (arith, t.shorter, length-append a b, length-append t.rest b) in
        ap (λ u. feed d (go_on d (take_frames d f) c u) b) t.taken
        ∙ after_turn n t.result t.rest t.settled
            (λ c' e.
              feed-take_frames f c' t.rest b (omega (arith, t.shorter)) e
              ∙ sym (frames_of_fuel d n c' (t.rest ++ b) shorter))
            (sym (ap (λ u. (go_on d (take_frames d f) c u).conn.relay_peer) t.taken) ∙ shut)
        ∙ sym (ap (go_on d (take_frames d n) c) (t.more b))
        ∙ (unfold frames_of in refl)
  ]
    where
      by_outcome :
          (n : ℕ) (rest : Bytes) (o : Outcome) (c' : Conn S)
          → ((take_frames d f c' rest).conn.relay_peer ≡ false
              → feed d (take_frames d f c' rest) b ≡ take_frames d n c' (rest ++ b))
          → (turn o (λ e. take_frames d f e rest) c').conn.relay_peer ≡ false
          → feed d (turn o (λ e. take_frames d f e rest) c') b
            ≡ turn o (λ e. take_frames d n e (rest ++ b)) c'
      by_outcome n rest stays c' ih e = ih e
      by_outcome n rest leaves c' ih e = unfold feed in refl
      by_outcome n rest stops c' ih e = unfold feed in refl

      after_turn :
          (n : ℕ) (r : Result (Option ClientMsg)) (rest : Bytes)
          → r ≢ ok none
          → ((c' : Conn S)
              → (take_frames d f c' rest).conn.relay_peer ≡ false
              → feed d (take_frames d f c' rest) b ≡ take_frames d n c' (rest ++ b))
          → (go_on d (take_frames d f) c (r, rest)).conn.relay_peer ≡ false
          → feed d (go_on d (take_frames d f) c (r, rest)) b
            ≡ go_on d (take_frames d n) c (r, rest ++ b)
      after_turn n (ok none) rest ne ih e = absurd (ne refl)
      after_turn n (ok (some m)) rest ne ih e =
          let o = outcome d c.state m in
          feed-in_front m (turn o (λ e. take_frames d f e rest) (handled d c m)) b
          ∙ ap (in_front m) (by_outcome n rest o (handled d c m) (ih (handled d c m)) e)
      after_turn n (err x) rest ne ih e = unfold feed in refl
      after_turn n panic rest ne ih e = unfold feed in refl

  pub feed-frames_of :
      (c : Conn S) (a b : Bytes)
      → (frames_of d c a).conn.relay_peer ≡ false
      → feed d (frames_of d c a) b ≡ frames_of d c (a ++ b)
  unfolding frames_of
  feed-frames_of c a b shut = feed-take_frames (suc (length a)) c a b (omega arith) shut
