-- ===== src/Artifact/Tries.antt =====
-- The loop of retry: what its end tells of the last request.
use quarry.Base.{
  ℕ, zero, suc, ◌*◌, min, List, Option, none, some, Bool, true, false, ◌≡◌, ◌⊎◌, refl, ap, ◌∙◌,
  subst, arith, inl, inr, ℕ-eq, ltb, if◌then◌else◌,
}
use quarry.Artifact.Remote.{
  Request, Reply, Net, Config, Failure, refused, Retried, got, lost, is_success, tried, Passed,
  or_again, loses, retry, stopped, gave_up,
}

module _ {W : Type 0} (net : Net W) where
  -- What the end of the loop tells of the last request, where the request and the waits keep Q.
  pub record Last (Q : W → Type 0) (q : Request) (p : Passed W Retried) : Type 0 where
    pub kept : Q p.world
    pub on_got :
        (r : Reply)
        → p.result ≡ got r
        → (v : W) × Q v
          × ((net.send q v).0 ≡ some r)
          × (is_success r.status ≡ true)
          × (p.world ≡ (net.send q v).1)
    pub on_refused :
        (c : ℕ)
        → p.result ≡ lost (refused c)
        → (v : W) × Q v × ((r : Reply) × ((net.send q v).0 ≡ some r) × (r.status ≡ c))

  module _ (Q : W → Type 0) (q : Request) (sends : (w : W) → Q w → Q (net.send q w).1)
      (pauses : (d : ℕ) (w : W) → Q w → Q (net.pause d w)) where
    got_same : {r x : Reply} → got r ≡ got x → r ≡ x
    got_same e = ground (arith, e)

    either :
        (b : Bool)
        → ((if b then stopped else gave_up) ≡ stopped)
          ⊎ ((if b then stopped else gave_up) ≡ gave_up)
    either true = inl refl
    either false = inr refl

    ended_by :
        (w : W) (o : Option Reply) (rest : Passed W Retried)
        → Q w
        → (net.send q w).0 ≡ o
        → Last Q q rest
        → Last Q q (or_again (tried o) (net.send q w).1 rest)
    ended_by w none rest k e h = h
    ended_by w (some r) rest k e h = by_success (is_success r.status) (ltb r.status 500) refl
      where
        by_success :
            (b c : Bool)
            → is_success r.status ≡ b
            → Last Q q (
                or_again
                  (if b then some (got r) else if c then some (lost (refused r.status)) else none)
                  (net.send q w).1
                  rest)
        by_success true c s = record {
          kept = sends w k;
          on_got = λ x y. (
            w,
            k,
            e ∙ ap some (got_same y),
            subst (λ z. is_success z.status ≡ true) (got_same y) s,
            refl,
          );
          on_refused = λ c y. absurd (ground (arith, y));
        }
        by_success false true s = record {
          kept = sends w k;
          on_got = λ x y. absurd (ground (arith, y));
          on_refused = λ c y. (w, k, (r, e, ground (arith, y)));
        }
        by_success false false s = h

    loses_last : (f : Failure) (w : W) → (f ≡ stopped) ⊎ (f ≡ gave_up) → Q w → Last Q q (loses f w)
    loses_last f w o k = record {
      kept = k;
      on_got = λ x y. absurd (ground (arith, y));
      on_refused = λ c y. absurd (ground (arith, y, o));
    }

    waits :
        (b c : Bool) (v x : W) {rest : Passed W Retried}
        → Q v
        → Q x
        → Last Q q rest
        → Last Q q (if b then loses stopped v else if c then loses stopped x else rest)
    waits true c v x k m h = loses_last stopped v (inl refl) k
    waits false true v x k m h = loses_last stopped x (inl refl) m
    waits false false v x k m h = h

    pub retry-Last :
        (config : Config) (escape : List ℕ → List ℕ) (bucket : List ℕ) (n delay : ℕ) (w : W)
        → Q w
        → Last Q q (retry net config escape bucket n delay q w)
    unfolding retry
    retry-Last config escape bucket zero delay w k =
        let v = (net.send q w).1 in
        ended_by w (net.send q w).0 _ k refl (
          loses_last (if net.ended v then stopped else gave_up) v (either (net.ended v))
            (sends w k))
    retry-Last config escape bucket (suc n) delay w k =
        let v = (net.send q w).1 in
        let x = net.pause delay v in
        let again =
          retry-Last config escape bucket n (min (delay * 2) config.max_backoff) x
            (pauses delay v (sends w k)) in
        ended_by w (net.send q w).0 _ k refl
          (waits (net.ended v) (net.ended x) v x (sends w k) (pauses delay v (sends w k)) again)
