-- ===== src/Tests/Logs.antt =====
-- A log that is read in two pages.
use quarry.Base.{All, List, [], ◌∷◌, ◌++◌, some, ◌≡◌, refl, arith, String-discrete, codes}
use quarry.Store.Types.{LogRow}
use quarry.Store.Monad.{Store}
use quarry.Store.Logs.{log_row}
use quarry.Api.Runner.{LogsPage}
use quarry.Api.Paging.{asked, grown, IsAppended, handle_get_logs-joins}
use quarry.Tests.{table, differ, build, table-finds_build}

-- The rows of two attempts, not in order.
abbrev logged : Store
logged = record table {
  log_chunks =
      log_row "b" 1 2 (codes "two")
      ∷ log_row "l" 1 7 (codes "other")
      ∷ log_row "b" 1 1 (codes "one")
      ∷ [];
}

abbrev added : List LogRow
added = log_row "b" 1 4 (codes "four") ∷ log_row "b" 1 3 (codes "three") ∷ []

-- The numbers 4 and 3 are above 0, 2 and 1; the row of the other job does not count.
added-IsAppended : All (IsAppended "b" 1 0 logged.log_chunks) added
unfolding String-discrete
added-IsAppended = (
  (λ a. (
    omega arith,
    ((λ b. omega arith), ((λ b. absurd (differ "l" "b" refl b.0)), ((λ b. omega arith), tt))),
  )),
  (
    (λ a. (
      omega arith,
      ((λ b. omega arith), ((λ b. absurd (differ "l" "b" refl b.0)), ((λ b. omega arith), tt))),
    )),
    tt,
  ),
)

handle_get_logs-joins_example :
    (p q : LogsPage) × ((asked "b" 1 0 logged).body ≡ some p)
    × ((asked "b" 1 p.next (grown added logged)).body ≡ some q)
    × ((asked "b" 1 0 (grown added logged)).body
        ≡ some (record { attempt = 1; chunks = p.chunks ++ q.chunks; next = q.next }))
handle_get_logs-joins_example =
    handle_get_logs-joins "b" 1 build 0 logged added table-finds_build (λ e. ground (arith, e))
      added-IsAppended
