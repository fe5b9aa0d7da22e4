-- ===== src/Tests/Shipper.antt =====
-- Runs of the log shipper, and the results at them.
use native.Mathlib.Decide.{ℕ_discrete}
use quarry.Base.{List, [], ◌∷◌, ◌<◌, arith, true, false, ◌≡◌, refl, codes, length}
use quarry.Logship.Buffer.{
  Config, fresh, append, append_cut, write, take_batch, seal, seal_full, announce, ack, batch_from,
  mark_stale,
}
use quarry.Logship.Loop.{
  Event, writes, wakes, stops, replies, expires, closes, stored, transient, stale, run, handle,
  start, begin, on_reply, close_result, all_sent, lost, superseded,
}
use quarry.Logship.Delivery.{Kept, gone, taken}
use quarry.Logship.Chunks.{data_of}
use quarry.Logship.Stream.{Carried}
use quarry.Logship.Runs.{heard, run-Kept, close_result-Carried}

abbrev small : Config
small = record {
  flush_interval = 1;
  flush_bytes = 2;
  max_post_bytes = 4;
  max_buffered = 5;
  backoff = 1;
}

-- Four bytes, of which the first send fails; three more, with room for one; then Close.
abbrev cramped : List Event
cramped =
    writes (codes "abcd")
    ∷ wakes false
    ∷ replies transient false
    ∷ writes (codes "efg")
    ∷ expires false
    ∷ replies stored false
    ∷ replies stored false
    ∷ closes
    ∷ writes (codes "late")
    ∷ stops false
    ∷ []

abbrev calm : List Event
calm =
    writes (codes "abc")
    ∷ wakes false
    ∷ replies transient false
    ∷ expires false
    ∷ replies stored false
    ∷ closes
    ∷ stops false
    ∷ []

cramped_result : close_result (run small cramped start).shipper ≡ lost 2
unfolding run handle begin write announce append seal_full seal take_batch batch_from on_reply ack
    close_result ℕ_discrete
cramped_result = refl

cramped_sent : data_of (taken (run small cramped start).sent) ≡ codes "abcde"
unfolding run handle begin write announce append seal_full seal take_batch batch_from on_reply ack
    ℕ_discrete
cramped_sent = refl

calm_result : close_result (run small calm start).shipper ≡ all_sent
unfolding run handle begin write announce append seal_full seal take_batch batch_from on_reply ack
    close_result ℕ_discrete
calm_result = refl

superseded_result :
    close_result
      (run small
        (writes (codes "abc") ∷ wakes false ∷ replies stale true ∷ closes ∷ [])
        start).shipper
    ≡ superseded
unfolding run handle begin write announce append seal_full seal take_batch batch_from on_reply
    mark_stale close_result ℕ_discrete
superseded_result = refl

run-Kept_example :
    Kept
      (heard small cramped start)
      (gone (run small cramped start).sent)
      (run small cramped start).shipper
unfolding run handle begin write announce append seal_full seal take_batch batch_from on_reply ack
    ℕ_discrete
run-Kept_example = run-Kept small cramped refl

close_result-Carried_example :
    Carried (heard small calm start) (data_of (taken (run small calm start).sent)) 0
close_result-Carried_example = close_result-Carried small calm calm_result

append_cut_example : length (append small (codes "abcde") fresh).cur < 2
append_cut_example = append_cut small (codes "abcde") fresh (omega arith)
