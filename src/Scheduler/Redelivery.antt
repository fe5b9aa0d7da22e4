-- ===== src/Scheduler/Redelivery.antt =====
-- AppendLogs of internal/scheduler/logs.go: the redelivery of a batch.
use quarry.Base.{
  ℕ, String, List, [], ◌∷◌, ◌++◌, ◌≡◌, refl, Bool, true, false, arith, any, All, ap, ltb, length,
  ◌+◌, ◌||◌, ◌∙◌, if◌then◌else◌, ℕ-eq, String-eq, subst,
}
use quarry.Store.Types.{LogRow, LogChunk}
use quarry.Store.Monad.{Store, Outcome, ok, err, ◌>>=◌, return}
use quarry.Store.Rules.{bind-ok, Ensures, Holds, Keeps, Keeps-bind, Keeps-return, Ensures-bind}
use quarry.Store.Logs.{is_row, log_row, insert_log_chunk}
use quarry.Scheduler.Logs.{Progress, cut, append_chunk, append_chunks}

any-snoc :
    (p : LogRow → Bool) (rows : List LogRow) (r : LogRow)
    → any p (rows ++ r ∷ []) ≡ (if any p rows then true else p r)
unfolding any
any-snoc p [] r = ground arith
any-snoc p (x ∷ rows) r = ground (arith, any-snoc p rows r)

Holds-zip :
    {A : Type 0} (Q R T : A → Store → Type 0) (o : Outcome A)
    → ((a : A) (s : Store) → Q a s → R a s → T a s)
    → Holds Q o
    → Holds R o
    → Holds T o
Holds-zip Q R T (ok a s) g q r = g a s q r
Holds-zip Q R T (err e s) g q r = tt

module _ (log_cap : ℕ) (job_id : String) (attempt : ℕ) where
  abbrev HasSeq : ℕ → Store → Type 0
  HasSeq n s = any (is_row job_id attempt n) s.log_chunks ≡ true

  -- The chunks' numbers are stored.
  record Stored (cs : List LogChunk) (s : Store) : Type 0 where
    pub at : All (λ c. HasSeq c.seq s) cs

  append_chunk-Keeps :
      (n : ℕ) (c : LogChunk) (p : Progress)
      → Keeps (HasSeq n) (append_chunk log_cap job_id attempt c p)
  unfolding append_chunk insert_log_chunk ◌>>=◌ return
  append_chunk-Keeps n c p = record {
    at = λ s w. ground (
      arith,
      w,
      any-snoc (is_row job_id attempt n) s.log_chunks
          (log_row job_id attempt c.seq (cut log_cap p.total c.chunk)),
    );
  }

  append_chunk-stores :
      (c : LogChunk) (p : Progress)
      → Ensures (λ _. Unit {0}) (append_chunk log_cap job_id attempt c p) (λ _. HasSeq c.seq)
  unfolding append_chunk insert_log_chunk ◌>>=◌ return
  append_chunk-stores c p = record {
    at = λ s w. ground (
      arith,
      any-snoc (is_row job_id attempt c.seq) s.log_chunks
          (log_row job_id attempt c.seq (cut log_cap p.total c.chunk)),
    );
  }

  append_chunks-Keeps :
      (n : ℕ) (cs : List LogChunk) (p : Progress)
      → Keeps (HasSeq n) (append_chunks log_cap job_id attempt cs p)
  unfolding append_chunks
  append_chunks-Keeps n [] p = Keeps-return p
  append_chunks-Keeps n (c ∷ cs) p =
      Keeps-bind _ _ (append_chunk-Keeps n c p) (append_chunks-Keeps n cs)

  append_chunks-stores :
      (cs : List LogChunk) (p : Progress)
      → Ensures (λ _. Unit {0}) (append_chunks log_cap job_id attempt cs p) (λ _. Stored cs)
  unfolding append_chunks return
  append_chunks-stores [] p = record { at = λ s w. record { at = tt } }
  append_chunks-stores (c ∷ cs) p =
      Ensures-bind (λ _. HasSeq c.seq) _ _ (append_chunk-stores c p)
        λ q. record {
          at = λ s w.
              Holds-zip (λ _. HasSeq c.seq) (λ _. Stored cs) (λ _. Stored (c ∷ cs)) _
                (λ a t h k. record { at = (h, k.at) }) ((append_chunks-Keeps c.seq cs q).at s w)
                ((append_chunks-stores cs q).at s tt);
        }

  insert_log_chunk-idle :
      (seq : ℕ) (bytes : List ℕ) (t : Store)
      → HasSeq seq t
      → insert_log_chunk job_id attempt seq bytes t ≡ ok false t
  unfolding insert_log_chunk
  insert_log_chunk-idle seq bytes t h =
      ap
        (λ b.
          if b
          then ok false t
          else ok true
              (record t { log_chunks = t.log_chunks ++ log_row job_id attempt seq bytes ∷ [] }))
        h

  append_chunk-idle :
      (c : LogChunk) (q : Progress) (t : Store)
      → HasSeq c.seq t
      → append_chunk log_cap job_id attempt c q t ≡ ok q t
  unfolding append_chunk ◌>>=◌ return
  append_chunk-idle c q t h =
      let bytes = cut log_cap q.total c.chunk in
      bind-ok (insert_log_chunk job_id attempt c.seq bytes)
        (λ inserted.
          if inserted
          then return (record {
            total = q.total + length bytes;
            stored = q.stored + length bytes;
            lost = q.lost || ltb (length bytes) (length c.chunk);
          })
          else return q)
        t (insert_log_chunk-idle c.seq bytes t h)

  append_chunks-idle :
      (cs : List LogChunk) (q : Progress) (t : Store)
      → All (λ c. HasSeq c.seq t) cs
      → append_chunks log_cap job_id attempt cs q t ≡ ok q t
  unfolding append_chunks ◌>>=◌ return
  append_chunks-idle [] q t h = refl
  append_chunks-idle (c ∷ cs) q t h =
      bind-ok (append_chunk log_cap job_id attempt c q) (append_chunks log_cap job_id attempt cs) t
        (append_chunk-idle c q t h.0)
      ∙ append_chunks-idle cs q t h.1

  -- A batch that was stored is stored once: its redelivery, under whatever totals, counts nothing, cuts
  -- nothing and leaves the store as it is.
  pub append_chunks_again :
      (cs : List LogChunk) (p p' q : Progress) (s t : Store)
      → append_chunks log_cap job_id attempt cs p s ≡ ok p' t
      → append_chunks log_cap job_id attempt cs q t ≡ ok q t
  append_chunks_again cs p p' q s t e =
      append_chunks-idle cs q t
        (subst (Holds (λ _. Stored cs)) e ((append_chunks-stores cs p).at s tt)).at
