-- ===== src/Logship/Stale.antt =====
-- A shipper that is stale stays so.
use quarry.Base.{
  ℕ, List, [], ◌∷◌, Bool, true, false, ◌≡◌, refl, sym, ◌∙◌, subst, arith, if◌then◌else◌, ◌||◌, ℕ-eq,
}
use quarry.Logship.Buffer.{
  Chunk, Config, Shipper, announce, accept, room, write, flushed, take_batch, batch_from, ack,
  mark_stale, set_err,
}
use quarry.Logship.Loop.{
  next_backoff, Reply, stored, stale, transient, rejected, Phase, idle, finished, sending, waiting,
  Loop, offer, begin, record_sent, on_wake, on_stop, on_return, on_timer, on_interrupt, on_reply,
  Event, writes, wakes, stops, expires, replies, interrupted, closes, handle,
}
use quarry.Logship.Chunks.{flushed-Sealed}

offer-stale :
    (b : ℕ) (batch : List Chunk) (t : Shipper) (l : Loop)
    → (offer b (batch, t) l).shipper.stale ≡ t.stale
offer-stale b [] t l = refl
offer-stale b (c ∷ cs) t l = refl

begin-stale :
    (cfg : Config) (b : ℕ) (ended : Bool) (l : Loop)
    → (begin cfg b ended l).shipper.stale ≡ l.shipper.stale
unfolding begin take_batch
begin-stale cfg b true l = refl
begin-stale cfg b false l =
    let t = flushed l.shipper in
    offer-stale b (batch_from cfg.max_post_bytes true 0 t.pending) t l
    ∙ (flushed-Sealed l.shipper).same_stale

on_reply-stale :
    (cfg : Config) (batch : List Chunk) (b : ℕ) (r : Reply) (ended : Bool) (l : Loop)
    → l.shipper.stale ≡ true
    → (on_reply cfg batch b r ended l).shipper.stale ≡ true
unfolding on_reply mark_stale ack set_err
on_reply-stale cfg batch b stored ended l h = begin-stale cfg cfg.backoff ended _ ∙ h
on_reply-stale cfg batch b stale ended l h = refl
on_reply-stale cfg batch b (rejected m) ended l h = begin-stale cfg b ended _ ∙ h
on_reply-stale cfg batch b transient true l h = h
on_reply-stale cfg batch b transient false l h = h

module _ (cfg : Config) where
  write-stale : (p : List ℕ) (s : Shipper) → s.stale ≡ true → (write cfg p s).stale ≡ true
  unfolding write
  write-stale p s h =
      subst (λ b. (if b then s else accept cfg (room cfg s) p (announce cfg s)).stale ≡ true)
        (sym (either s.closed s.stale h)) h
    where
      either : (a b : Bool) → b ≡ true → (a || b) ≡ true
      either a b e = ground (arith, e)

  pub handle-stale :
      (e : Event) (l : Loop) → l.shipper.stale ≡ true → (handle cfg e l).shipper.stale ≡ true
  unfolding handle
  handle-stale (writes p) l h = write-stale p l.shipper h
  handle-stale (wakes ended) l h = wake l.phase
    where
      wake : (p : Phase) → (on_wake cfg ended p l).shipper.stale ≡ true
      wake idle = begin-stale cfg cfg.backoff (ended || l.shipper.stale) l ∙ h
      wake finished = h
      wake (sending batch b) = h
      wake (waiting b) = h
  handle-stale (stops ended) l h = stop l.phase
    where
      stopping :
          (b : Bool)
          → (if b then begin cfg cfg.backoff ended (record l { final = true }) else l).shipper.stale
            ≡ true
      stopping true = begin-stale cfg cfg.backoff ended (record l { final = true }) ∙ h
      stopping false = h

      stop : (p : Phase) → (on_stop cfg ended p l).shipper.stale ≡ true
      stop idle = stopping l.shipper.closed
      stop finished = h
      stop (sending batch c) = h
      stop (waiting c) = h
  handle-stale (replies r ended) l h = returned l.phase
    where
      returned : (p : Phase) → (on_return cfg r ended p l).shipper.stale ≡ true
      returned (sending batch b) = on_reply-stale cfg batch b r ended (record_sent cfg batch r l) h
      returned idle = h
      returned finished = h
      returned (waiting b) = h
  handle-stale (expires ended) l h = timer l.phase
    where
      timer : (p : Phase) → (on_timer cfg ended p l).shipper.stale ≡ true
      timer (waiting b) = begin-stale cfg (next_backoff cfg b) ended l ∙ h
      timer idle = h
      timer finished = h
      timer (sending batch b) = h
  handle-stale interrupted l h = interrupt l.phase
    where
      interrupt : (p : Phase) → (on_interrupt cfg p l).shipper.stale ≡ true
      interrupt (waiting b) = h
      interrupt idle = h
      interrupt finished = h
      interrupt (sending batch b) = h
  handle-stale closes l h = h
