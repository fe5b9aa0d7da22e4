-- ===== src/Agent/Client.antt =====
-- internal/agent/client.go: one request, and the loops that send it again.
use quarry.Base.{
  ℕ, suc, ◌*◌, min, List, [], ◌∷◌, ◌++◌, Option, none, some, Bool, true, false, ◌||◌, not, ◌==◌,
  ℕ-eq, ltb, leb, if◌then◌else◌,
}

abbrev pub millisecond : ℕ
millisecond = 1000000

abbrev pub default_complete_backoff : ℕ
default_complete_backoff = 500 * millisecond

abbrev pub max_complete_backoff : ℕ
max_complete_backoff = 10000 * millisecond

-- The errors that the callers tell apart. `stopped` is the error of the context.
pub data Failure : Type 0 where
  connection stopped fenced stale rejected gave_up other : Failure
  status : ℕ → Failure

-- A statusError that may be sent again: a server error.
abbrev pub is_retryable : ℕ → Bool
is_retryable code = leb 500 code

-- What the network does with one request: no reply, or a status with whether its body could be read and
-- decoded. Where the caller wants no body, it counts as decoded.
pub data Answer : Type 0 where
  unreachable : Answer
  answered : ℕ → Bool → Bool → Answer

-- `posted` tells whether there was a body.
pub data Posted : Type 0 where
  posted : Bool → Posted
  failed : Failure → Posted

abbrev pub by_status : ℕ → Bool → Posted
by_status code decodes =
    if code == 204
    then posted false
    else if ltb code 200 || leb 300 code
    then failed (status code)
    else if decodes
    then posted true
    else failed other

unfoldable pub post_once : Answer → Posted
post_once unreachable = failed connection
post_once (answered code readable decodes) =
    if readable then by_status code decodes else failed connection

-- One pass of a loop: whether the context has ended at its head, the answer, and whether the context
-- has ended after it.
pub record Turn : Type 0 where
  pub ended : Bool
  pub answer : Answer
  pub interrupted : Bool

-- What a call returns, none while it still waits; whether the context has ended by then; the waits;
-- and the turns that are left.
pub record Passage : Type 0 where
  pub outcome : Option Posted
  pub over : Bool
  pub waits : List ℕ
  pub rest : List Turn

abbrev pub next_delay : ℕ → ℕ
next_delay d = min (d * 2) max_complete_backoff

abbrev pub is_connection : Posted → Bool
is_connection (failed connection) = true
is_connection p = false

abbrev pub halted : List Turn → Passage
halted ts = record { outcome = some (failed stopped); over = true; waits = []; rest = ts }

module _ (once : Answer → Posted) where
  -- The loop of reconnect around one request, which ends when the turns do: then it waits for another.
  unfoldable pub reconnect : ℕ → List Turn → Passage
  reconnect delay [] = record { outcome = none; over = false; waits = []; rest = [] }
  reconnect delay (t ∷ ts) =
      let again = reconnect (next_delay delay) ts in
      if t.ended
      then halted ts
      else if is_connection (once t.answer)
      then (if t.interrupted
          then record (halted ts) { waits = delay ∷ [] }
          else record again { waits = delay ∷ again.waits })
      else record { outcome = some (once t.answer); over = t.interrupted; waits = []; rest = ts }

abbrev pub first_delay : ℕ → ℕ
first_delay backoff =
    min (if backoff == 0 then default_complete_backoff else backoff) max_complete_backoff

unfoldable pub post : ℕ → List Turn → Passage
post backoff ts = reconnect post_once (first_delay backoff) ts

-- complete: a 409 is the fence.
abbrev pub fence_of : Posted → Posted
fence_of (failed (status code)) = if code == 409 then failed fenced else failed (status code)
fence_of p = p

-- logs: what the shipper is told. It makes one request, and owns the waits.
abbrev pub sink_of : Posted → Option Failure
sink_of (posted b) = none
sink_of (failed (status code)) =
    if code == 409
    then some stale
    else if is_retryable code
    then some (status code)
    else some rejected
sink_of (failed e) = some e

-- What ends the loop of completeWithRetry at once.
abbrev pub is_final : Posted → Bool
is_final (posted b) = true
is_final (failed fenced) = true
is_final (failed (status code)) = not (is_retryable code)
is_final p = false

-- The end of a pass of completeWithRetry: it returns, or goes on as `again`.
abbrev pub decided : List ℕ → Passage → Passage → Option Posted → Bool → Passage
decided before p again none over = record p { outcome = none; waits = before }
decided before p again (some r) over =
    if is_final (fence_of r) || over
    then record p { outcome = some (fence_of r); waits = before }
    else record again { waits = before ++ again.waits }

-- The loop of completeWithRetry, with the number of tries left. `first` tells that none was made. A
-- context that ends in the wait has ended at the head of the next turn.
unfoldable pub tries : ℕ → ℕ → Bool → ℕ → List Turn → Passage
tries backoff ℕ.zero first wait ts = record {
  outcome = some (failed gave_up);
  over = false;
  waits = [];
  rest = ts;
}
tries backoff (suc n) first wait ts =
    let p = post backoff ts in
    let again = tries backoff n false (if first then wait else next_delay wait) p.rest in
    decided (if first then [] else wait ∷ []) p again p.outcome p.over

-- `waits` are here the waits between the tries; those of reconnect are its own.
unfoldable pub complete_with_retry : ℕ → ℕ → List Turn → Passage
complete_with_retry backoff attempts ts =
    tries backoff attempts true (min backoff max_complete_backoff) ts
