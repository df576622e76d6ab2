-- ===== src/EventLoop/Loop.antt =====
-- What the loop of src/server/event_loop.rs does with a read of a client: it takes frames off the buffer
-- till one leaves the loop, or, once a relay is open, passes the bytes on to the peer.
use lrmux.Base.{ℕ, suc, zero, Bool, true, false, ◌||◌, List, [], ◌∷◌, ◌++◌, length, drop}
use lrmux.Base.{Option, none, some, ltb, ◌==◌, if◌then◌else◌}
use lrmux.Proto.Utf8.{Bytes}
use lrmux.Proto.Reader.{Result, ok, err, panic}
use lrmux.Proto.Message.{
  ClientMsg, detach, kill_pane, kill_session, kill_server, identify_control, relay_open,
}
use lrmux.EventLoop.Frame.{try_parse_frame}

-- What a write to the peer gives, after those that were interrupted.
pub data Written : Type 0 where
  wrote : ℕ → Written
  would_block broke : Written

-- What the messages do to the state `S` of the server and of its sockets. The loop asks whether the
-- token of a control client is refused, whether no session is left after `KillPane` or
-- `KillSession`, whether the peer of a relay could be reached, and what a write to it gives.
pub record Dispatch (S : Type 0) : Type 0 where
  pub act : S → ClientMsg → S
  pub refuses : S → Bytes → Bool
  pub closes : S → ClientMsg → Bool
  pub connects : S → Bytes → Bool
  pub write : S → Bytes → Written × S

-- The match on a message goes on with the loop, breaks out of it, or returns from `run`.
pub data Outcome : Type 0 where
  stays leaves stops : Outcome

-- The state, and of the client its relay.
pub record Conn (S : Type 0) : Type 0 where
  pub state : S
  pub relay_peer : Bool
  pub relay_in : Bytes
  pub close_when_idle : Bool

pub data Ending : Type 0 where
  waiting removed stopped crashed out_of_fuel : Ending

-- The messages that were handled, and the buffer of a client that is kept.
pub record Batch (S : Type 0) : Type 0 where
  pub messages : List ClientMsg
  pub conn : Conn S
  pub ending : Ending
  pub left : Bytes

abbrev pub relay_in_cap : ℕ
relay_in_cap = 1048576

abbrev pub or_stays : Bool → Outcome → Outcome
or_stays b o = if b then o else stays

module _ {S : Type 0} where
  abbrev pub ended : Ending → Conn S → Bytes → Batch S
  ended e c buf = record { messages = []; conn = c; ending = e; left = buf }

  abbrev pub in_front : ClientMsg → Batch S → Batch S
  in_front m later = record later { messages = m ∷ later.messages }

  abbrev pub all_in_front : List ClientMsg → Batch S → Batch S
  all_in_front ms later = record later { messages = ms ++ later.messages }

  unfoldable pub outcome : Dispatch S → S → ClientMsg → Outcome
  outcome d s detach = leaves
  outcome d s kill_pane = or_stays (d.closes s kill_pane) stops
  outcome d s kill_session = or_stays (d.closes s kill_session) stops
  outcome d s kill_server = stops
  outcome d s (identify_control rows cols token) = or_stays (d.refuses s token) leaves
  outcome d s _ = stays

  unfoldable pub opens : Dispatch S → S → ClientMsg → Bool
  opens d s (relay_open addr) = d.connects s addr
  opens d s _ = false

  abbrev pub handled : Dispatch S → Conn S → ClientMsg → Conn S
  handled d c m = record c {
    state = d.act c.state m;
    relay_peer = c.relay_peer || opens d c.state m;
  }

  -- A client that leaves the loop is taken off the list, and its buffer with it.
  abbrev pub turn : Outcome → (Conn S → Batch S) → Conn S → Batch S
  turn stays next c = next c
  turn leaves next c = ended removed c []
  turn stops next c = ended stopped c []

  abbrev pub go_on :
      Dispatch S → (Conn S → Bytes → Batch S) → Conn S → Result (Option ClientMsg) × Bytes → Batch S
  go_on d next c (ok (some m), buf) =
      in_front m (turn (outcome d c.state m) (λ c'. next c' buf) (handled d c m))
  go_on d next c (ok none, buf) = ended waiting c buf
  go_on d next c (err e, buf) = ended removed c []
  go_on d next c (panic, buf) = ended crashed c []

  -- `loop { match try_parse_frame(&mut client.buf) { … } }`, each turn a unit of fuel.
  unfoldable pub take_frames : Dispatch S → ℕ → Conn S → Bytes → Batch S
  take_frames d zero c buf = ended out_of_fuel c buf
  take_frames d (suc f) c buf = go_on d (take_frames d f) c (try_parse_frame buf)

  -- A frame has at least four bytes, so the length of the buffer is fuel enough.
  unfoldable pub frames_of : Dispatch S → Conn S → Bytes → Batch S
  frames_of d c buf = take_frames d (suc (length buf)) c buf

  -- The bytes that the peer took are drained; false if its socket broke.
  abbrev pub flush_after :
      (S → Bytes → (S × Bytes) × Bool) → Bytes → Written × S → (S × Bytes) × Bool
  flush_after next bytes (wrote n, s) =
      if n == 0 then ((s, bytes), false) else next s (drop n bytes)
  flush_after next bytes (would_block, s) = ((s, bytes), true)
  flush_after next bytes (broke, s) = ((s, bytes), false)

  -- Each write that goes on takes a byte at least, so the length of the bytes is fuel enough (Relay).
  unfoldable pub flush_relay_in : Dispatch S → ℕ → S → Bytes → (S × Bytes) × Bool
  flush_relay_in d f s [] = ((s, []), true)
  flush_relay_in d zero s (b ∷ bytes) = ((s, b ∷ bytes), false)
  flush_relay_in d (suc f) s (b ∷ bytes) =
      flush_after (flush_relay_in d f) (b ∷ bytes) (d.write s (b ∷ bytes))

  abbrev pub relay_teardown : Conn S → Conn S
  relay_teardown c = record c { relay_peer = false; relay_in = []; close_when_idle = true }

  abbrev pub after_flush : Conn S → (S × Bytes) × Bool → Conn S
  after_flush c ((s, bytes), fine) =
      let c' = record c { state = s; relay_in = bytes } in if fine then c' else relay_teardown c'

  -- Relay mode: the bytes are not parsed.
  unfoldable pub relay : Dispatch S → Conn S → Bytes → Batch S
  relay d c bytes =
      let pending = c.relay_in ++ bytes in
      if ltb relay_in_cap (length pending)
      then ended removed (record c { relay_in = pending }) []
      else ended waiting (after_flush c (flush_relay_in d (length pending) c.state pending)) []

  abbrev pub resume : Dispatch S → Ending → Batch S → Bytes → Batch S
  resume d waiting batch chunk = all_in_front batch.messages (
      if batch.conn.relay_peer
      then relay d batch.conn (batch.left ++ chunk)
      else frames_of d batch.conn (batch.left ++ chunk))
  resume d removed batch chunk = batch
  resume d stopped batch chunk = batch
  resume d crashed batch chunk = batch
  resume d out_of_fuel batch chunk = batch

  -- A read that gave some bytes, with what was done before.
  unfoldable pub feed : Dispatch S → Batch S → Bytes → Batch S
  feed d batch chunk = resume d batch.ending batch chunk

  -- The reads of a connection, one after the other.
  unfoldable pub feed_all : Dispatch S → Batch S → List Bytes → Batch S
  feed_all d batch [] = batch
  feed_all d batch (chunk ∷ chunks) = feed_all d (feed d batch chunk) chunks
