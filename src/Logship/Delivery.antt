-- ===== src/Logship/Delivery.antt =====
-- What is delivered of the stream, whatever the order of writes, sends and failures.
use quarry.Base.{
  Option, none, some, String, ℕ, String, List, [], ◌∷◌, ◌++◌, Bool, true, false, ◌≡◌, refl, sym, ap,
  ◌∙◌, subst, arith, ◌⊎◌, inl, inr, if◌then◌else◌, ℕ-eq, length, take, drop, append_assoc,
  append-nil, length-append,
}
use quarry.Logship.Buffer.{
  Chunk, Config, Shipper, flushed, take_batch, batch_from, ack, mark_stale, set_err,
}
use quarry.Logship.Loop.{
  Reply, stored, stale, transient, rejected, Phase, idle, finished, sending, Sent, Loop, leave,
  offer, begin, record_sent, on_reply,
}
use quarry.Logship.Chunks.{
  data_of, contents, Numbered, data_of-append, size-data_of, Sealed, flushed-Sealed,
  batch_from-prefix,
}
use quarry.Logship.Stream.{Carried, Written}

abbrev gone_by : Reply → List Chunk → List Chunk
gone_by stored cs = cs
gone_by (rejected e) cs = cs
gone_by r cs = []

-- The chunks of the batches that the sink took, or refused for good.
abbrev pub gone : List Sent → List Chunk
gone [] = []
gone (x ∷ xs) = gone_by x.reply x.batch ++ gone xs

gone-snoc : (xs : List Sent) (x : Sent) → gone (xs ++ x ∷ []) ≡ gone xs ++ gone_by x.reply x.batch
gone-snoc [] x = append-nil (gone_by x.reply x.batch)
gone-snoc (y ∷ xs) x =
    ap (λ g. gone_by y.reply y.batch ++ g) (gone-snoc xs x)
    ∙ sym (append_assoc (gone_by y.reply y.batch) (gone xs) (gone_by x.reply x.batch))

-- The loop invariant, for the chunks that are gone and the shipper: the stream is what is gone and
-- what is held, and the chunks are numbered from 1.
pub record Kept (ps : List (List ℕ)) (cs : List Chunk) (s : Shipper) : Type 0 where
  pub stream : List ℕ
  pub carried : Carried ps stream s.dropped
  pub whole : data_of cs ++ contents s ≡ stream
  pub numbered : Numbered 1 (cs ++ s.pending) s.next_seq
  pub sized : s.buffered ≡ length (contents s)

-- The batch that is being sent is the first part of the chunks that are held.
abbrev pub InFlight : Phase → List Chunk → Type 0
InFlight (sending batch b) held = (rest : List Chunk) × (held ≡ batch ++ rest)
InFlight p held = Unit {0}

pub Kept-Sealed :
    {ps : List (List ℕ)} {cs : List Chunk} {s t : Shipper}
    → Sealed s t
    → Kept ps cs s
    → Kept ps cs t
Kept-Sealed {ps} {cs} h k = record {
  stream = k.stream;
  carried = subst (Carried ps k.stream) (sym h.same_dropped) k.carried;
  whole = ap (λ x. data_of cs ++ x) h.same_contents ∙ k.whole;
  numbered = h.numbers 1 cs k.numbered;
  sized = h.same_buffered ∙ (k.sized ∙ ap length (sym h.same_contents));
}

pub Kept-Written :
    {ps qs : List (List ℕ)} {cs : List Chunk} {s t : Shipper}
    → Written qs s t
    → Kept ps cs s
    → Kept (ps ++ qs) cs t
Kept-Written {ps} {qs} {cs} {s} {t} h k = record {
  stream = k.stream ++ h.piece;
  carried = h.carries ps k.stream k.carried;
  whole =
      ap (λ x. data_of cs ++ x) h.contents_more
      ∙ (sym (append_assoc (data_of cs) (contents s) h.piece) ∙ ap (λ x. x ++ h.piece) k.whole);
  numbered = h.numbers 1 cs k.numbered;
  sized = omega (
    arith,
    h.buffered_more,
    k.sized,
    length-append (contents s) h.piece,
    ap length h.contents_more,
  );
}

drop-append : (xs ys : List Chunk) → drop (length xs) (xs ++ ys) ≡ ys
drop-append [] ys = refl
drop-append (x ∷ xs) ys = drop-append xs ys

take-append : (xs ys : List Chunk) → take (length xs) (xs ++ ys) ≡ xs
take-append [] ys = refl
take-append (x ∷ xs) ys = ap (λ zs. x ∷ zs) (take-append xs ys)

-- The first part of the chunks that are held goes.
ack-Kept :
    (ps : List (List ℕ)) (cs batch rest : List Chunk) (s : Shipper)
    → s.pending ≡ batch ++ rest
    → Kept ps cs s
    → Kept ps (cs ++ batch) (ack (length batch) s)
unfolding ack
ack-Kept ps cs batch rest s e k =
    let d : drop (length batch) s.pending ≡ rest =
      ap (drop (length batch)) e ∙ drop-append batch rest in
    let t : take (length batch) s.pending ≡ batch =
      ap (take (length batch)) e ∙ take-append batch rest in
    let split : contents s ≡ data_of batch ++ (data_of rest ++ s.cur) =
      ap (λ x. data_of x ++ s.cur) e
      ∙ (ap (λ x. x ++ s.cur) (data_of-append batch rest)
          ∙ append_assoc (data_of batch) (data_of rest) s.cur) in
    rw (d, t)
      (record {
        stream = k.stream;
        carried = k.carried;
        whole =
            ap (λ x. x ++ (data_of rest ++ s.cur)) (data_of-append cs batch)
            ∙ (append_assoc (data_of cs) (data_of batch) (data_of rest ++ s.cur)
                ∙ (ap (λ x. data_of cs ++ x) (sym split) ∙ k.whole));
        numbered =
            rw (append_assoc cs batch rest)
              (subst (λ x. Numbered 1 (cs ++ x) s.next_seq) e k.numbered);
        sized = omega (
          arith,
          k.sized,
          ap length split,
          size-data_of batch,
          length-append (data_of batch) (data_of rest ++ s.cur),
        );
      })

abbrev taken_by : Reply → List Chunk → List Chunk
taken_by stored cs = cs
taken_by r cs = []

-- The chunks of the batches that the sink took.
abbrev pub taken : List Sent → List Chunk
taken [] = []
taken (x ∷ xs) = taken_by x.reply x.batch ++ taken xs

taken-snoc :
    (xs : List Sent) (x : Sent) → taken (xs ++ x ∷ []) ≡ taken xs ++ taken_by x.reply x.batch
taken-snoc [] x = append-nil (taken_by x.reply x.batch)
taken-snoc (y ∷ xs) x =
    ap (λ g. taken_by y.reply y.batch ++ g) (taken-snoc xs x)
    ∙ sym (append_assoc (taken_by y.reply y.batch) (taken xs) (taken_by x.reply x.batch))

-- Without an error every batch that is gone was taken.
abbrev pub Held : List (List ℕ) → List Sent → Shipper → Type 0
Held ps xs s = Kept ps (gone xs) s × (s.failure ≡ none → gone xs ≡ taken xs)

Held-Sealed :
    {ps : List (List ℕ)} {s t : Shipper} (xs : List Sent) → Sealed s t → Held ps xs s → Held ps xs t
Held-Sealed xs h (k, u) = (Kept-Sealed h k, λ e. u (sym h.same_failure ∙ e))

-- The invariant of the loop; a stale shipper promises nothing.
pub record Good (ps : List (List ℕ)) (l : Loop) : Type 0 where
  pub kept : Held ps l.sent l.shipper
  pub flight : InFlight l.phase l.shipper.pending

abbrev pub Inv : List (List ℕ) → Loop → Type 0
Inv ps l = (l.shipper.stale ≡ true) ⊎ Good ps l

flight_at_rest : (b : Bool) (held : List Chunk) → InFlight (if b then finished else idle) held
flight_at_rest true held = tt
flight_at_rest false held = tt

pub leave-Good : (ps : List (List ℕ)) (l : Loop) → Held ps l.sent l.shipper → Good ps (leave l)
leave-Good ps l k = record { kept = k; flight = flight_at_rest l.final l.shipper.pending }

offer-Good :
    (ps : List (List ℕ)) (b : ℕ) (batch : List Chunk) (t : Shipper) (l : Loop)
    → (rest : List Chunk) × (t.pending ≡ batch ++ rest)
    → Held ps l.sent t
    → Good ps (offer b (batch, t) l)
offer-Good ps b [] t l f k = leave-Good ps (record l { shipper = t }) k
offer-Good ps b (c ∷ cs) t l f k = record { kept = k; flight = f }

pub begin-Good :
    (cfg : Config) (ps : List (List ℕ)) (b : ℕ) (ended : Bool) (l : Loop)
    → Held ps l.sent l.shipper
    → Good ps (begin cfg b ended l)
unfolding begin take_batch
begin-Good cfg ps b true l k = leave-Good ps l k
begin-Good cfg ps b false l k =
    let t = flushed l.shipper in
    offer-Good ps b (batch_from cfg.max_post_bytes true 0 t.pending) t l
      (batch_from-prefix cfg.max_post_bytes true 0 t.pending)
      (Held-Sealed l.sent (flushed-Sealed l.shipper) k)

-- The parts of the shipper that the invariant does not mention may change.
set_err-Kept :
    {ps : List (List ℕ)} {cs : List Chunk} (e : String) (s : Shipper)
    → Kept ps cs s
    → Kept ps cs (set_err e s)
unfolding set_err
set_err-Kept e s k = record {
  stream = k.stream;
  carried = k.carried;
  whole = k.whole;
  numbered = k.numbered;
  sized = k.sized;
}

set_err-failure : (e : String) (s : Shipper) → (set_err e s).failure ≡ none → ⊥
unfolding set_err
set_err-failure e s h = go s.failure h
  where
    go : (o : Option String) → (elim o [ none ↦ some e | some f ↦ some f ]) ≡ none → ⊥
    go none h = cc h
    go (some f) h = cc h

same_snoc :
    (xs : List Sent) (x : Sent)
    → gone_by x.reply x.batch ≡ taken_by x.reply x.batch
    → gone xs ≡ taken xs
    → gone (xs ++ x ∷ []) ≡ taken (xs ++ x ∷ [])
same_snoc xs x e h = gone-snoc xs x ∙ (cc (e, h) ∙ sym (taken-snoc xs x))

transient-Held :
    (ps : List (List ℕ)) (xs : List Sent) (batch : List Chunk) (s : Shipper)
    → Held ps xs s
    → Held ps (xs ++ record { batch = batch; reply = transient } ∷ []) s
transient-Held ps xs batch s (k, u) =
    let x : Sent = record { batch = batch; reply = transient } in
    (rw (gone-snoc xs x, append-nil (gone xs)) k, λ e. same_snoc xs x refl (u e))

module _ (cfg : Config) (ps : List (List ℕ)) where
  pub on_reply-Inv :
      (batch : List Chunk) (b : ℕ) (r : Reply) (ended : Bool) (l : Loop)
      → (rest : List Chunk) × (l.shipper.pending ≡ batch ++ rest)
      → Held ps l.sent l.shipper
      → Inv ps (on_reply cfg batch b r ended (record_sent cfg batch r l))
  unfolding on_reply mark_stale ack
  on_reply-Inv batch b stored ended l (rest, e) (k, u) =
      let x : Sent = record { batch = batch; reply = stored } in
      inr (
        begin-Good cfg ps cfg.backoff ended _ (
          rw (gone-snoc l.sent x) (ack-Kept ps (gone l.sent) batch rest l.shipper e k),
          λ e. same_snoc l.sent x refl (u e),
        ))
  on_reply-Inv batch b stale ended l f h = inl refl
  on_reply-Inv batch b (rejected m) ended l (rest, e) (k, u) = inr (
      begin-Good cfg ps b ended _ (
        rw (gone-snoc l.sent (record { batch = batch; reply = rejected m }))
            (set_err-Kept m _ (ack-Kept ps (gone l.sent) batch rest l.shipper e k)),
        λ e. absurd (set_err-failure m _ e),
      ))
  on_reply-Inv batch b transient true l f h = inr (
      leave-Good ps (record_sent cfg batch transient l)
        (transient-Held ps l.sent batch l.shipper h))
  on_reply-Inv batch b transient false l f h =
      inr (record { kept = transient-Held ps l.sent batch l.shipper h; flight = tt })
