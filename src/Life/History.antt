-- ===== src/Life/History.antt =====
-- The control plane as a whole: any sequence of requests, under any configuration and clock.
use quarry.Base.{ℕ, String, List, [], ◌∷◌, Option, String-eq}
use quarry.Store.Types.{LogChunk}
use quarry.Store.Monad.{Store, final, return}
use quarry.Store.Rules.{
  Keeps-bind, Keeps-return, Always, Always-bind, Always-guard, Always-tx, Keeps,
}
use quarry.Scheduler.Types.{Scheduler, Spec}
use quarry.Scheduler.Claim.{RunnerInfo, claim}
use quarry.Scheduler.Heartbeat.{JobRef, heartbeat}
use quarry.Scheduler.Complete.{Result, complete}
use quarry.Scheduler.Cancel.{cancel_run}
use quarry.Scheduler.Monitor.{tick}
use quarry.Scheduler.Logs.{append_logs}
use quarry.Pipeline.Types.{Pipeline, PipelineJob}
use quarry.Api.Submit.{submit_run}
use quarry.Api.Register.{RegisterRequest, register, find_runner}
use quarry.Life.Move.{Move}
use quarry.Life.Stable.{IsStable, IsStable-IsTimeless}
use quarry.Life.Quiet.{upsert_runner-Keeps}
use quarry.Life.Unique.{IsUnique}
use quarry.Life.Requests.{claim-Keeps, heartbeat-Keeps}
use quarry.Life.Verdicts.{complete-Keeps, cancel_run-Keeps}
use quarry.Life.Ticks.{tick-Keeps, append_logs-Keeps}
use quarry.Life.Submitting.{IsExtendable, submit_run-Keeps}

-- Each request carries the scheduler that serves it: after a restart it is another one.
pub data Request : Type 0 where
  submits :
      (encode : PipelineJob → String) (new_id : ℕ → String) (sched : Scheduler) (run_id : String)
      (p : Pipeline) (src : String)
      → Request
  registers : RegisterRequest → String → Request
  claims : (decode : String → Option Spec) → Scheduler → RunnerInfo → Request
  heartbeats : Scheduler → String → List JobRef → Request
  completes : String → ℕ → Result → Request
  cancels : String → Request
  ticks : (decode : String → Option Spec) → Scheduler → Request
  logs : Scheduler → String → ℕ → List LogChunk → Request

unfoldable pub serve : Request → Store → Store
serve (submits encode new_id sched run_id p src) s =
    final (submit_run encode new_id sched.max_attempts run_id p src s)
serve (registers q fresh) s = final (register q fresh s)
serve (claims decode sched r) s = final (claim decode sched r s)
serve (heartbeats sched runner refs) s = final (heartbeat sched runner refs s)
serve (completes id attempt res) s = final (complete id attempt res s)
serve (cancels run_id) s = final (cancel_run run_id s)
serve (ticks decode sched) s = final (tick decode sched s)
serve (logs sched id attempt chunks) s = final (append_logs sched.log_cap id attempt chunks s)

unfoldable pub run : List Request → Store → Store
run [] s = s
run (q ∷ qs) s = run qs (serve q s)

find_runner-Keeps : (P : Store → Type 0) (name : String) → Keeps P (find_runner name)
unfolding find_runner return
find_runner-Keeps P name = record { at = λ s p. p }

register-Keeps :
    {P : Store → Type 0}
    → IsStable Move P
    → (q : RegisterRequest) (fresh : String) → Always P (register q fresh)
unfolding register
register-Keeps {P} c q fresh = Always-bind _ _ (Always-guard _ _) λ _.
    Always-tx _ (IsStable-IsTimeless c) (
      Keeps-bind _ _ (find_runner-Keeps P q.name)
        λ existing. Keeps-bind _ _ (upsert_runner-Keeps c _) λ _. Keeps-return _)

-- A property that the state machine and new rows keep holds after any history.
module _ {P : Store → Type 0} (c : IsStable Move P) (x : IsExtendable P)
    (unique : (s : Store) → P s → IsUnique s) where
  serve-Keeps : (q : Request) (s : Store) → P s → P (serve q s)
  unfolding serve
  serve-Keeps (submits encode new_id sched run_id p src) s h =
      (submit_run-Keeps c x encode new_id sched.max_attempts run_id p src).at s h
  serve-Keeps (registers q fresh) s h = (register-Keeps c q fresh).at s h
  serve-Keeps (claims decode sched r) s h = (claim-Keeps c decode sched r).at s h
  serve-Keeps (heartbeats sched runner refs) s h = (heartbeat-Keeps c sched runner refs).at s h
  serve-Keeps (completes id attempt res) s h = (complete-Keeps c unique id attempt res).at s h
  serve-Keeps (cancels run_id) s h = (cancel_run-Keeps c unique run_id).at s h
  serve-Keeps (ticks decode sched) s h = (tick-Keeps c unique decode sched).at s h
  serve-Keeps (logs sched id attempt chunks) s h =
      (append_logs-Keeps c sched.log_cap id attempt chunks).at s h

  pub run-Keeps : (qs : List Request) (s : Store) → P s → P (run qs s)
  unfolding run
  run-Keeps [] s h = h
  run-Keeps (q ∷ qs) s h = run-Keeps qs (serve q s) (serve-Keeps q s h)
