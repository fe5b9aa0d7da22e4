-- ===== src/Api/Paging.antt =====
-- Reading a log in pages, while chunks are added.
use quarry.Base.{
  All-find, none, if◌then◌else◌, pos, ℕ, ◌≤◌, ◌<◌, String, List, [], ◌∷◌, ◌++◌, map, some, Bool,
  true, false, ◌&&◌, ◌==◌, ℕ-eq, ◌≡◌, ◌≢◌, refl, sym, ap, ◌∙◌, subst, arith, Bool-cases, inl, inr,
  ltb, select, sort_on, All, All-map, All-of, All-select, All-sort_on, last_key_below,
  select-append, select_same, select_none, sort_on-append, last_key, sort_on-IsSortedFrom, least,
  under_last, All-sort_on_back,
}
use quarry.Store.Types.{Job, LogRow, LogChunk}
use quarry.Store.Monad.{Store}
use quarry.Store.Logs.{is_chunk_of, chunk_of, list_log_chunks}
use quarry.Scheduler.Fence.{get_job-eq}
use quarry.Life.Quiet.{Found}
use quarry.Api.Runner.{
  Response, LogsPage, next_cursor, page_of, page_reply, logs_of_job, handle_get_logs,
}

abbrev pub grown : List LogRow → Store → Store
grown new s = record s { log_chunks = s.log_chunks ++ new }

module _ (id : String) (n : ℕ) where
  abbrev is_later : ℕ → LogRow → Bool
  is_later after r = is_chunk_of id n r && ltb after r.seq

  abbrev sorted_after : ℕ → List LogRow → List LogRow
  sorted_after after rows = sort_on (λ r. r.seq) (select (is_later after) rows)

  abbrev next_of : ℕ → List LogRow → ℕ
  next_of after rows = last_key (λ (r : LogRow). r.seq) after (sorted_after after rows)

  abbrev pub OfAttempt : LogRow → Type 0
  OfAttempt r = (r.job_id ≡ id) × (r.attempt ≡ n)

  -- A row of the attempt has a higher number than each that is stored, and than the cursor that was asked
  -- for.
  abbrev pub IsAppended : ℕ → List LogRow → LogRow → Type 0
  IsAppended after old r =
      OfAttempt r → (after < r.seq) × All (λ q. OfAttempt q → q.seq < r.seq) old

  -- The chunks of the attempt among these rows come after the cursor.
  abbrev ComeAfter : ℕ → List LogRow → Type 0
  ComeAfter next rows = All (λ r. is_chunk_of id n r ≡ true → next < r.seq) rows

  later_seq :
      (after : ℕ) (rows : List LogRow) → All (λ r. after ≤ r.seq) (select (is_later after) rows)
  later_seq after rows =
      All-map _ _ (select (is_later after) rows) (λ r (t, e). ground (arith, e))
        (All-select (λ _. Unit {0}) (is_later after) rows (All-of rows λ r. tt))

  not_less : (after : ℕ) (rows : List LogRow) → after ≤ next_of after rows
  not_less after rows = least _ after _ (sort_on-IsSortedFrom _ after _ (later_seq after rows))

  seen_below :
      (after : ℕ) (rows : List LogRow)
      → All (λ r. r.seq ≤ next_of after rows) (select (is_later after) rows)
  seen_below after rows =
      All-sort_on_back _ _ (select (is_later after) rows)
        (under_last _ after _ (sort_on-IsSortedFrom _ after _ (later_seq after rows)))

  past :
      (after next : ℕ) (rows : List LogRow)
      → after ≤ next
      → All (λ r. r.seq ≤ next) (select (is_later after) rows)
      → All (λ r. is_later next r ≡ false) rows
  unfolding select
  past after next [] l h = tt
  past after next (r ∷ rows) l h = elim (Bool-cases (is_later after r)) [
    | inl e ↦ let (p, q) = (rw (e, select) at h) in (ground (arith, p), past after next rows l q)
    | inr e ↦ (ground (arith, e, l), past after next rows l (rw (e, select) at h))
  ]

  -- Nothing was missed: what comes after the cursor is what was added.
  rest_new :
      (after : ℕ) (rows new : List LogRow)
      → sorted_after (next_of after rows) (rows ++ new) ≡ sorted_after (next_of after rows) new
  rest_new after rows new =
      let next = next_of after rows in
      ap (sort_on (λ r. r.seq)) (
        select-append (is_later next) rows new
        ∙ ap (λ xs. xs ++ select (is_later next) new)
            (select_none (is_later next) rows
              (past after next rows (not_less after rows) (seen_below after rows))))

  joined :
      (after : ℕ) (rows new : List LogRow)
      → ComeAfter (next_of after rows) new
      → sorted_after after (rows ++ new)
        ≡ sorted_after after rows ++ sorted_after (next_of after rows) (rows ++ new)
  joined after rows new h =
      let next = next_of after rows in
      let same : select (is_later after) new ≡ select (is_later next) new =
        select_same (is_later after) (is_later next) new
          (All-map _ _ new (λ r k. ground (arith, k, not_less after rows)) h) in
      let above : All (λ r. next ≤ r.seq) (sorted_after next new) =
        All-sort_on _ _ _ (later_seq next new) in
      ap (sort_on (λ r. r.seq)) (
        select-append (is_later after) rows new
        ∙ ap (λ xs. select (is_later after) rows ++ xs) same)
      ∙ (sort_on-append _ (select (is_later after) rows) (select (is_later next) new) (
            All-map _ _ _
              (λ r k. All-map _ _ (sorted_after next new) (λ q m. omega (arith, k, m)) above)
              (seen_below after rows))
          ∙ ap (λ xs. sorted_after after rows ++ xs) (sym (rest_new after rows new)))

  next_of_chunks :
      (k : ℕ) (rows : List LogRow)
      → next_cursor k (map chunk_of rows) ≡ last_key (λ (r : LogRow). r.seq) k rows
  next_of_chunks k [] = refl
  next_of_chunks k (r ∷ rows) = next_of_chunks r.seq rows

  map-append : (xs ys : List LogRow) → map chunk_of (xs ++ ys) ≡ map chunk_of xs ++ map chunk_of ys
  map-append [] ys = refl
  map-append (x ∷ xs) ys = ap (λ zs. chunk_of x ∷ zs) (map-append xs ys)

  -- What is appended comes after the cursor of the page.
  appended-ComeAfter :
      (after : ℕ) (old new : List LogRow)
      → All (IsAppended after old) new
      → ComeAfter (next_of after old) new
  appended-ComeAfter after old new h =
      All-map _ _ new
        (λ r k t.
          let (above, below) = k (ground (arith, t)) in
          let read : All (λ q. q.seq < r.seq) (select (is_later after) old) =
            All-map _ _ (select (is_later after) old) (λ q (m, e). m (ground (arith, e)))
              (All-select (λ q. OfAttempt q → q.seq < r.seq) (is_later after) old below) in
          last_key_below _ after r.seq (sorted_after after old) above (All-sort_on _ _ _ read))
        h

  -- The page for a cursor.
  abbrev pub page : ℕ → Store → LogsPage
  page after s =
      let cs = map chunk_of (sorted_after after s.log_chunks) in
      record { attempt = n; chunks = cs; next = next_cursor after cs }

  abbrev pub asked : ℕ → Store → Response LogsPage
  asked after s = handle_get_logs id (some (some (pos n))) (some (some (pos after))) s

  module _ (j : Job) (after : ℕ) (s : Store) (found : Found id j s) (positive_attempt : n ≢ 0) where
    asked-page : asked after s ≡ record { code = 200; body = some (page after s); store = s }
    unfolding handle_get_logs list_log_chunks
    asked-page =
        ap (logs_of_job (some (some (pos n))) (some (some (pos after)))) (get_job-eq id j s found)
        ∙ (ap (λ b. page_of j (if b then none else some n) (some after) s)
              (zero_test n positive_attempt)
            ∙ ap (λ i. page_reply n after (list_log_chunks i n after s))
                (ground
                  (arith, (All-find (λ _. Unit {0}) _ s.jobs j found (All-of s.jobs λ k. tt)).1)))
      where
        zero_test : (m : ℕ) → m ≢ 0 → (m == 0) ≡ false
        zero_test m h = ground (arith, h)

  cursor-append :
      (k : ℕ) (xs ys : List LogChunk) → next_cursor k (xs ++ ys) ≡ next_cursor (next_cursor k xs) ys
  cursor-append k [] ys = refl
  cursor-append k (x ∷ xs) ys = cursor-append x.seq xs ys

  pages_join :
      (after : ℕ) (s : Store) (new : List LogRow)
      → ComeAfter (page after s).next new
      → let p = page after s in
        let q = page p.next (grown new s) in
        page after (grown new s)
        ≡ record { attempt = n; chunks = p.chunks ++ q.chunks; next = q.next }
  pages_join after s new h =
      let p = page after s in
      let q = page p.next (grown new s) in
      let rows = s.log_chunks in
      let same : p.next ≡ next_of after rows = next_of_chunks after (sorted_after after rows) in
      let chunks : (page after (grown new s)).chunks ≡ p.chunks ++ q.chunks =
        ap (map chunk_of) (joined after rows new (subst (λ k. ComeAfter k new) same h))
        ∙ (map-append (sorted_after after rows) _
            ∙ ap (λ k. p.chunks ++ map chunk_of (sorted_after k (rows ++ new))) (sym same)) in
      ap {B = LogsPage} (λ cs. record { attempt = n; chunks = cs; next = next_cursor after cs })
        chunks
      ∙ ap {B = LogsPage} (λ m. record { attempt = n; chunks = p.chunks ++ q.chunks; next = m })
          (cursor-append after p.chunks q.chunks)

  -- A log of a known job is read in two pages, the second from the cursor of the first. When each chunk of
  -- the attempt that was added in between has a higher number than all that were stored, and than the
  -- cursor of the first page's request, the two pages give what one page gives at the end: no chunk is lost
  -- or repeated, and the cursors at the end are the same.
  pub handle_get_logs-joins :
      (j : Job) (after : ℕ) (s : Store) (new : List LogRow)
      → Found id j s
      → n ≢ 0
      → All (IsAppended after s.log_chunks) new
      → (p q : LogsPage) × ((asked after s).body ≡ some p)
        × ((asked p.next (grown new s)).body ≡ some q)
        × ((asked after (grown new s)).body
            ≡ some (record { attempt = n; chunks = p.chunks ++ q.chunks; next = q.next }))
  handle_get_logs-joins j after s new found pos_n h =
      let p = page after s in
      let same : p.next ≡ next_of after s.log_chunks =
        next_of_chunks after (sorted_after after s.log_chunks) in
      let come : ComeAfter p.next new =
        subst (λ k. ComeAfter k new) (sym same) (appended-ComeAfter after s.log_chunks new h) in
      let q = page p.next (grown new s) in
      (
        p,
        q,
        ap (λ r. r.body) (asked-page j after s found pos_n),
        ap (λ r. r.body) (asked-page j p.next (grown new s) found pos_n),
        ap (λ r. r.body) (asked-page j after (grown new s) found pos_n)
            ∙ ap some (pages_join after s new come),
      )
