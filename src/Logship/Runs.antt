-- ===== src/Logship/Runs.antt =====
-- The runs of the shipper: what it delivers for any order of writes, sends, failures and Close.
use quarry.Base.{
  String, Option, none, length, ℕ, List, [], ◌∷◌, ◌++◌, Bool, true, false, ◌≡◌, refl, sym, ap, ◌∙◌,
  subst, arith, Bool-cases, inl, inr, if◌then◌else◌, ◌||◌, ℕ-eq, append_assoc, append-nil,
}
use quarry.Logship.Buffer.{Chunk, Config, Shipper, announce, accept, room, write}
use quarry.Logship.Loop.{
  close_result, all_sent, superseded, by_failure, by_size, Reply, Phase, idle, finished, sending,
  waiting, Loop, start, begin, on_wake, on_stop, on_return, on_timer, on_interrupt, Event, writes,
  wakes, stops, expires, replies, interrupted, closes, handle, run,
}
use quarry.Logship.Chunks.{contents, data_of}
use quarry.Logship.Stream.{Carried, nothing, write-Written}
use quarry.Logship.Delivery.{
  gone, Kept, Good, taken, Held, Inv, InFlight, Kept-Written, leave-Good, begin-Good, on_reply-Inv,
}
use quarry.Logship.Stale.{handle-stale}

flight_grown : (p : Phase) (held more : List Chunk) → InFlight p held → InFlight p (held ++ more)
flight_grown (sending batch b) held more (rest, e) =
    (rest ++ more, ap (λ x. x ++ more) e ∙ append_assoc batch rest more)
flight_grown idle held more f = tt
flight_grown finished held more f = tt
flight_grown (waiting b) held more f = tt

-- What a call of Write offers: nothing after Close.
abbrev pub hears : Event → Bool → List (List ℕ)
hears (writes p) false = p ∷ []
hears e closed = []

module _ (cfg : Config) where
  -- The writes of a run that come before Close.
  unfoldable pub heard : List Event → Loop → List (List ℕ)
  heard [] l = []
  heard (e ∷ es) l = hears e l.shipper.closed ++ heard es (handle cfg e l)

  write-Inv :
      (ps : List (List ℕ)) (p : List ℕ) (l : Loop) (c : Bool)
      → l.shipper.closed ≡ c
      → Good ps l
      → l.shipper.stale ≡ false
      → Good (ps ++ hears (writes p) c) (record l { shipper = write cfg p l.shipper })
  unfolding write
  write-Inv ps p l true c g f = rw (append-nil ps) (
      subst
        (λ b. Good ps (record l {
          shipper =
              if b || l.shipper.stale
              then l.shipper
              else accept cfg (room cfg l.shipper) p (announce cfg l.shipper);
        }))
        (sym c) g)
  write-Inv ps p l false c g f =
      let h = write-Written cfg p l.shipper c f in
      let (more, e) = h.grown in
      record {
        kept = (Kept-Written h g.kept.0, λ e. g.kept.1 (sym h.same_failure ∙ e));
        flight =
            subst (InFlight l.phase) (sym e) (flight_grown l.phase l.shipper.pending more g.flight);
      }

  wake-Inv :
      (ps : List (List ℕ)) (ended : Bool) (p : Phase) (l : Loop)
      → Good ps l
      → Inv ps (on_wake cfg ended p l)
  wake-Inv ps ended idle l g =
      inr (begin-Good cfg ps cfg.backoff (ended || l.shipper.stale) l g.kept)
  wake-Inv ps ended finished l g = inr g
  wake-Inv ps ended (sending batch b) l g = inr g
  wake-Inv ps ended (waiting b) l g = inr g

  stop-Inv :
      (ps : List (List ℕ)) (ended : Bool) (p : Phase) (l : Loop)
      → Good ps l
      → Inv ps (on_stop cfg ended p l)
  stop-Inv ps ended idle l g = stopping l.shipper.closed
    where
      stopping :
          (b : Bool)
          → Inv ps (if b then begin cfg cfg.backoff ended (record l { final = true }) else l)
      stopping true = inr (begin-Good cfg ps cfg.backoff ended (record l { final = true }) g.kept)
      stopping false = inr g
  stop-Inv ps ended finished l g = inr g
  stop-Inv ps ended (sending batch b) l g = inr g
  stop-Inv ps ended (waiting b) l g = inr g

  return-Inv :
      (ps : List (List ℕ)) (r : Reply) (ended : Bool) (p : Phase) (l : Loop)
      → l.phase ≡ p
      → Good ps l
      → Inv ps (on_return cfg r ended p l)
  return-Inv ps r ended (sending batch b) l e g =
      on_reply-Inv cfg ps batch b r ended l (subst (λ p. InFlight p l.shipper.pending) e g.flight)
        g.kept
  return-Inv ps r ended idle l e g = inr g
  return-Inv ps r ended finished l e g = inr g
  return-Inv ps r ended (waiting b) l e g = inr g

  timer-Inv :
      (ps : List (List ℕ)) (ended : Bool) (p : Phase) (l : Loop)
      → Good ps l
      → Inv ps (on_timer cfg ended p l)
  timer-Inv ps ended (waiting b) l g = inr (begin-Good cfg ps _ ended l g.kept)
  timer-Inv ps ended idle l g = inr g
  timer-Inv ps ended finished l g = inr g
  timer-Inv ps ended (sending batch b) l g = inr g

  interrupt-Inv :
      (ps : List (List ℕ)) (p : Phase) (l : Loop) → Good ps l → Inv ps (on_interrupt cfg p l)
  interrupt-Inv ps (waiting b) l g = inr (leave-Good ps l g.kept)
  interrupt-Inv ps idle l g = inr g
  interrupt-Inv ps finished l g = inr g
  interrupt-Inv ps (sending batch b) l g = inr g

  Good-Inv :
      (ps : List (List ℕ)) (e : Event) (l : Loop)
      → Good ps l
      → l.shipper.stale ≡ false
      → Inv (ps ++ hears e l.shipper.closed) (handle cfg e l)
  unfolding handle
  Good-Inv ps (writes p) l g f = inr (write-Inv ps p l l.shipper.closed refl g f)
  Good-Inv ps (wakes ended) l g f = rw (append-nil ps) (wake-Inv ps ended l.phase l g)
  Good-Inv ps (stops ended) l g f = rw (append-nil ps) (stop-Inv ps ended l.phase l g)
  Good-Inv ps (replies r ended) l g f = rw (append-nil ps) (return-Inv ps r ended l.phase l refl g)
  Good-Inv ps (expires ended) l g f = rw (append-nil ps) (timer-Inv ps ended l.phase l g)
  Good-Inv ps interrupted l g f = rw (append-nil ps) (interrupt-Inv ps l.phase l g)
  Good-Inv ps closes l g f = rw (append-nil ps) (
      inr (record {
        kept = (
          record {
            stream = g.kept.0.stream;
            carried = g.kept.0.carried;
            whole = g.kept.0.whole;
            numbered = g.kept.0.numbered;
            sized = g.kept.0.sized;
          },
          g.kept.1,
        );
        flight = g.flight;
      }))

  handle-Inv :
      (ps : List (List ℕ)) (e : Event) (l : Loop)
      → Inv ps l
      → Inv (ps ++ hears e l.shipper.closed) (handle cfg e l)
  handle-Inv ps e l (inl h) = inl (handle-stale cfg e l h)
  handle-Inv ps e l (inr g) = elim (Bool-cases l.shipper.stale) [
    | inl h ↦ inl (handle-stale cfg e l h)
    | inr f ↦ Good-Inv ps e l g f
  ]

  run-Inv :
      (ps : List (List ℕ)) (es : List Event) (l : Loop)
      → Inv ps l
      → Inv (ps ++ heard es l) (run cfg es l)
  unfolding run heard
  run-Inv ps [] l i = rw (append-nil ps) i
  run-Inv ps (e ∷ es) l i =
      rw (← append_assoc ps (hears e l.shipper.closed) (heard es (handle cfg e l)))
        (run-Inv (ps ++ hears e l.shipper.closed) es (handle cfg e l) (handle-Inv ps e l i))

  start-Good : Good [] start
  start-Good = record {
    kept = (
      record { stream = []; carried = nothing; whole = refl; numbered = refl; sized = refl },
      λ e. refl,
    );
    flight = tt;
  }

  run-Held :
      (es : List Event)
      → (run cfg es start).shipper.stale ≡ false
      → Held (heard es start) (run cfg es start).sent (run cfg es start).shipper
  run-Held es f = elim (run-Inv [] es start (inr start-Good)) [
    | inl h ↦ absurd (ground (arith, f, h))
    | inr g ↦ g.kept
  ]

  -- For any order of writes, sends, failures and Close, unless the attempt is superseded: the bytes of
  -- the chunks that were taken or refused, then those that are held, are the stream of the writes before
  -- Close, each write cut at its end at most and every cut counted or marked; the chunks are numbered
  -- from 1 without a gap; and the count of held bytes is right.
  pub run-Kept :
      (es : List Event)
      → (run cfg es start).shipper.stale ≡ false
      → Kept (heard es start) (gone (run cfg es start).sent) (run cfg es start).shipper
  run-Kept es f = (run-Held es f).0

  nothing_held : (s : Shipper) → s.buffered ≡ 0 → s.buffered ≡ length (contents s) → contents s ≡ []
  nothing_held s z e = empty (contents s) (sym e ∙ z)
    where
      empty : (xs : List ℕ) → length xs ≡ 0 → xs ≡ []
      empty [] h = refl
      empty (x ∷ xs) h = absurd (omega (arith, h))

  -- What a success of Close says of the shipper.
  all_sent_means :
      (l : Bool) (o : Option String) (b d : ℕ)
      → (if l then superseded else by_failure o (by_size b d)) ≡ all_sent
      → (l ≡ false) × (o ≡ none) × (b ≡ 0) × (d ≡ 0)
  all_sent_means l o b d e =
      (ground (arith, e), ground (arith, e), ground (arith, e), ground (arith, e))

  -- When Close reports success, whatever happened before it, the chunks that the sink took carry all that
  -- was written before Close: the writes in order, with a marker for each gap and none left to count.
  pub close_result-Carried :
      (es : List Event)
      → close_result (run cfg es start).shipper ≡ all_sent
      → Carried (heard es start) (data_of (taken (run cfg es start).sent)) 0
  unfolding close_result
  close_result-Carried es c =
      let l = run cfg es start in
      let s = l.shipper in
      let (f, o, b, d) = all_sent_means s.stale s.failure s.buffered s.dropped c in
      let (k, u) = run-Held es f in
      let held = nothing_held s b k.sized in
      let whole : data_of (taken l.sent) ≡ k.stream =
        sym (append-nil (data_of (taken l.sent))) ∙ (cc (u o, held) ∙ k.whole) in
      rw whole (subst (Carried (heard es start) k.stream) d k.carried)
