-- ===== src/Logship/Loop.antt =====
-- internal/logship/logship.go: loop, drain and Close, as steps between which any call of Write may come.
use quarry.Base.{
  ℕ, ◌*◌, min, String, List, [], ◌∷◌, ◌++◌, Option, none, some, Bool, true, false, ◌||◌, ltb,
  if◌then◌else◌, length,
}
use quarry.Logship.Buffer.{
  Chunk, Config, Shipper, fresh, write, take_batch, ack, mark_stale, set_err, max_backoff,
}

-- What a call of the sink returns.
pub data Reply : Type 0 where
  stored stale transient : Reply
  rejected : String → Reply

-- Where the goroutine of the loop stands: in its select, in a call of the sink, in the wait after a
-- transient failure, or past its end. The number is the variable backoff.
pub data Phase : Type 0 where
  idle finished : Phase
  sending : List Chunk → ℕ → Phase
  waiting : ℕ → Phase

pub record Sent : Type 0 where
  pub batch : List Chunk
  pub reply : Reply

-- `final` is the argument of drain, and `sent` the calls of the sink that have returned.
pub record Loop : Type 0 where
  pub shipper : Shipper
  pub phase : Phase
  pub final : Bool
  pub sent : List Sent

abbrev pub start : Loop
start = record { shipper = fresh; phase = idle; final = false; sent = [] }

-- The return of drain: the loop goes on, or ends after the final flush.
abbrev pub leave : Loop → Loop
leave l = record l { phase = if l.final then finished else idle }

abbrev pub offer : ℕ → List Chunk × Shipper → Loop → Loop
offer backoff ([], t) l = leave (record l { shipper = t })
offer backoff (c ∷ cs, t) l = record l { shipper = t; phase = sending (c ∷ cs) backoff }

module _ (cfg : Config) where
  -- The head of the loop in drain. The flag is the context's end.
  unfoldable pub begin : ℕ → Bool → Loop → Loop
  begin backoff ended l = if ended then leave l else offer backoff (take_batch cfg l.shipper) l

  abbrev pub record_sent : List Chunk → Reply → Loop → Loop
  record_sent batch r l = record l { sent = l.sent ++ record { batch = batch; reply = r } ∷ [] }

  -- The switch in drain; where it goes round the loop, `begin` follows.
  unfoldable pub on_reply : List Chunk → ℕ → Reply → Bool → Loop → Loop
  on_reply batch backoff stored ended l =
      begin cfg.backoff ended (record l { shipper = ack (length batch) l.shipper })
  on_reply batch backoff stale ended l = leave (record l { shipper = mark_stale l.shipper })
  on_reply batch backoff (rejected e) ended l =
      begin backoff ended (record l { shipper = set_err e (ack (length batch) l.shipper) })
  on_reply batch backoff transient ended l =
      if ended then leave l else record l { phase = waiting backoff }

  abbrev pub next_backoff : ℕ → ℕ
  next_backoff backoff = min (backoff * 2) max_backoff

-- `wakes` is the ticker or a kick, `stops` the channel stop; `replies` the return of the sink;
-- `expires` and `interrupted` the ends of the wait; `closes` the first part of Close. A flag tells
-- whether the context of drain has ended by then.
pub data Event : Type 0 where
  writes : List ℕ → Event
  wakes stops expires : Bool → Event
  replies : Reply → Bool → Event
  interrupted closes : Event

module _ (cfg : Config) where
  -- markStale ends the context of the loop.
  abbrev pub on_wake : Bool → Phase → Loop → Loop
  on_wake ended idle l = begin cfg cfg.backoff (ended || l.shipper.stale) l
  on_wake ended p l = l

  -- The loop leaves its select for good only when Close has been called.
  abbrev pub on_stop : Bool → Phase → Loop → Loop
  on_stop ended idle l =
      if l.shipper.closed then begin cfg cfg.backoff ended (record l { final = true }) else l
  on_stop ended p l = l

  abbrev pub on_return : Reply → Bool → Phase → Loop → Loop
  on_return r ended (sending batch backoff) l =
      on_reply cfg batch backoff r ended (record_sent cfg batch r l)
  on_return r ended p l = l

  abbrev pub on_timer : Bool → Phase → Loop → Loop
  on_timer ended (waiting backoff) l = begin cfg (next_backoff cfg backoff) ended l
  on_timer ended p l = l

  abbrev pub on_interrupt : Phase → Loop → Loop
  on_interrupt (waiting backoff) l = leave l
  on_interrupt p l = l

  abbrev pub on_close : Shipper → Shipper
  on_close s = record s { closed = true }

  unfoldable pub handle : Event → Loop → Loop
  handle (writes p) l = record l { shipper = write cfg p l.shipper }
  handle (wakes ended) l = on_wake ended l.phase l
  handle (stops ended) l = on_stop ended l.phase l
  handle (replies r ended) l = on_return r ended l.phase l
  handle (expires ended) l = on_timer ended l.phase l
  handle interrupted l = on_interrupt l.phase l
  handle closes l = record l { shipper = on_close l.shipper }

  unfoldable pub run : List Event → Loop → Loop
  run [] l = l
  run (e ∷ es) l = run es (handle e l)

-- What Close returns once the loop has ended.
pub data Verdict : Type 0 where
  all_sent superseded : Verdict
  refused : String → Verdict
  unsent : ℕ → ℕ → Verdict
  lost : ℕ → Verdict

abbrev pub by_size : ℕ → ℕ → Verdict
by_size buffered dropped =
    if ltb 0 buffered
    then unsent buffered dropped
    else if ltb 0 dropped
    then lost dropped
    else all_sent

abbrev pub by_failure : Option String → Verdict → Verdict
by_failure none v = v
by_failure (some e) v = refused e

unfoldable pub close_result : Shipper → Verdict
close_result s = if s.stale then superseded else by_failure s.failure (by_size s.buffered s.dropped)
