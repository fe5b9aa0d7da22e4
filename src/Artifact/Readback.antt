-- ===== src/Artifact/Readback.antt =====
-- What Put stored is what Get returns, through lost requests and replies.
use quarry.Base.{
  ℤ, pos, negsuc, ℕ, zero, suc, ◌-◌, List, [], ◌∷◌, length, take, Option, none, some, Bool, true,
  false, ◌≡◌, ◌≢◌, refl, sym, ap, ◌∙◌, subst, arith, Bool-cases, inl, inr, ◌==◌, ℕ-eq,
  if◌then◌else◌,
}
use quarry.Artifact.Tries.{retry-Last}
use quarry.Artifact.Remote.{
  get, put, Request, Reply, Net, Config, refused, Retried, got, lost, is_success, Reader, copied,
  copy_fails, is_size, Passed, Fetched, fetched, missing, fetched_of, unfetched, object_url, loses,
  request, is_key, put_object, get_object, stopped, gave_up, invalid_key, wrong_size, broken,
}

-- What Get makes of an object that is there: its bytes, or an error that is not "not found".
abbrev pub Reads : List ℕ → Fetched → Type 0
Reads bs (fetched cs) = cs ≡ bs
Reads bs missing = ⊥
Reads bs (unfetched e) = Unit {0}

fetched_of-Reads :
    (key bs : List ℕ) (x : Retried)
    → ((r : Reply) → x ≡ got r → r.body ≡ bs)
    → (x ≢ lost (refused 404))
    → Reads bs (fetched_of x)
fetched_of-Reads key bs (got r) f g = f r refl
fetched_of-Reads key bs (lost (refused c)) f g = elim (Bool-cases (c == 404)) [
  | inl b ↦ absurd (g (ground (arith, b)))
  | inr b ↦ rw b tt
]
fetched_of-Reads key bs (lost stopped) f g = tt
fetched_of-Reads key bs (lost gave_up) f g = tt
fetched_of-Reads key bs (lost invalid_key) f g = tt
fetched_of-Reads key bs (lost wrong_size) f g = tt
fetched_of-Reads key bs (lost broken) f g = tt

some_same : {a b : List ℕ} → some a ≡ some b → a ≡ b
some_same e = ground (arith, e)

module _ {W : Type 0} (net : Net W) (config : Config) (escape : List ℕ → List ℕ)
    (bucket : List ℕ) where
  -- The coordinator's documented behaviour, for what is stored under each URL: a PUT that succeeds has
  -- stored its body; a GET that succeeds replies with what is stored and one that finds nothing stored
  -- replies 404; a GET stores nothing, and neither does time.
  pub record IsStore (stored : W → List ℕ → Option (List ℕ)) : Type 0 where
    pub put_stores :
        (u b : List ℕ) (w : W) (r : Reply)
        → (net.send (record { method = put; url = u; body = b }) w).0 ≡ some r
        → is_success r.status ≡ true
        → stored (net.send (record { method = put; url = u; body = b }) w).1 u ≡ some b
    pub get_reads :
        (u : List ℕ) (w : W) (r : Reply)
        → (net.send (record { method = get; url = u; body = [] }) w).0 ≡ some r
        → is_success r.status ≡ true
        → stored w u ≡ some r.body
    pub get_misses :
        (u : List ℕ) (w : W) (r : Reply)
        → (net.send (record { method = get; url = u; body = [] }) w).0 ≡ some r
        → r.status ≡ 404
        → stored w u ≡ none
    pub get_keeps :
        (u v : List ℕ) (w : W)
        → stored (net.send (record { method = get; url = u; body = [] }) w).1 v ≡ stored w v
    pub pause_keeps : (d : ℕ) (v : List ℕ) (w : W) → stored (net.pause d w) v ≡ stored w v

  take_all : (n : ℕ) (bs : List ℕ) → length (take (suc n) bs) ≡ n → take (suc n) bs ≡ bs
  take_all n [] e = refl
  take_all zero (b ∷ bs) e = absurd (omega (arith, e))
  take_all (suc n) (b ∷ bs) e = ap (λ x. b ∷ x) (take_all n bs (omega (arith, e)))

  -- A copy of the right size is the whole of the reader.
  copied_all :
      (size : ℤ) (bs : List ℕ) → is_size size (length (copied size bs)) ≡ true → copied size bs ≡ bs
  copied_all (pos n) bs e = take_all n bs (sym (ground (arith, e)))
  copied_all (negsuc n) bs e = refl

  module _ (stored : W → List ℕ → Option (List ℕ)) (laws : IsStore stored) where
    abbrev Holding : List ℕ → List ℕ → W → Type 0
    Holding key bs w = stored w (object_url net config escape bucket key) ≡ some bs

    request_stores :
        (key bs : List ℕ) (w : W) (reply : Reply)
        → (request net config escape bucket put key bs w).result ≡ got reply
        → Holding key bs (request net config escape bucket put key bs w).world
    request_stores key bs w reply e =
        let u = object_url net config escape bucket key in
        let q : Request = record { method = put; url = u; body = bs } in
        let last =
          retry-Last net (λ _. Unit {0}) q (λ v k. tt) (λ d v k. tt) config escape bucket
            (config.attempts - 1) config.backoff w tt in
        let (v, k, sent, fine, same) = last.on_got reply e in
        subst (λ x. stored x u ≡ some bs) (sym same) (laws.put_stores u bs v reply sent fine)

    -- Put succeeds only through its checks.
    checked :
        (b c d : Bool) (w : W) (p : Passed W Retried) (reply : Reply) (P : W → Type 0)
        → (d ≡ true → p.result ≡ got reply → P p.world)
        → let q =
            if b
            then (if c then loses broken w else if d then p else loses wrong_size w)
            else loses invalid_key w in
          q.result ≡ got reply → P q.world
    checked true true d w p reply P f e = absurd (ground (arith, e))
    checked true false true w p reply P f e = f refl e
    checked true false false w p reply P f e = absurd (ground (arith, e))
    checked false c d w p reply P f e = absurd (ground (arith, e))

    put_stores_all :
        (key : List ℕ) (r : Reader) (size : ℤ) (w : W) (reply : Reply)
        → (put_object net config escape bucket key r size w).result ≡ got reply
        → Holding key r.bytes (put_object net config escape bucket key r size w).world
    unfolding put_object
    put_stores_all key r size w reply =
        checked (is_key key) (copy_fails size r) (is_size size (length (copied size r.bytes))) w _
          reply (Holding key r.bytes)
          (λ whole e.
            subst
              (λ bs.
                Holding key bs
                  (request net config escape bucket put key (copied size r.bytes) w).world)
              (copied_all size r.bytes whole) (request_stores key (copied size r.bytes) w reply e))

    request-Reads :
        (key bs : List ℕ) (w : W)
        → Holding key bs w
        → Reads bs (fetched_of (request net config escape bucket get key [] w).result)
    request-Reads key bs w h =
        let u = object_url net config escape bucket key in
        let q : Request = record { method = get; url = u; body = [] } in
        let last =
          retry-Last net (Holding key bs) q (λ v k. laws.get_keeps u u v ∙ k)
            (λ d v k. laws.pause_keeps d u v ∙ k) config escape bucket (config.attempts - 1)
            config.backoff w h in
        fetched_of-Reads key bs _
          (λ r e.
            let (v, k, sent, fine, same) = last.on_got r e in
            some_same (sym (laws.get_reads u v r sent fine) ∙ k))
          (λ e.
            let (v, k, (r, sent, code)) = last.on_refused 404 e in
            absurd (ground (arith, laws.get_misses u v r sent code, k)))

    -- When a Put has succeeded, then a Get of the same key, with nothing in between, returns the bytes of
    -- the whole reader, or an error of the network; it never returns other bytes, and never "not found".
    pub get_object-put_object :
        (key : List ℕ) (r : Reader) (size : ℤ) (w : W) (reply : Reply)
        → (put_object net config escape bucket key r size w).result ≡ got reply
        → Reads r.bytes
            (get_object net config escape bucket key
              (put_object net config escape bucket key r size w).world).result
    unfolding get_object
    get_object-put_object key r size w reply e = elim (Bool-cases (is_key key)) [
      | inl b ↦ rw b (request-Reads key r.bytes _ (put_stores_all key r size w reply e))
      | inr b ↦ rw b tt
    ]
