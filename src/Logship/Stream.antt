-- ===== src/Logship/Stream.antt =====
-- What the shipper delivers: the bytes that were written, in order, with a marker for each gap.
use quarry.Base.{
  ℕ, ◌+◌, ◌-◌, ◌<◌, List, [], ◌∷◌, ◌++◌, Bool, false, ◌≡◌, refl, sym, ap, ◌∙◌, subst, arith,
  Bool-cases, inl, inr, ltb, if◌then◌else◌, ◌&&◌, ◌||◌, ◌==◌, ℕ-eq, length, take, append_assoc,
  append-nil, length-append,
}
use quarry.Logship.Buffer.{
  Chunk, Config, Shipper, append, announce, accept, room, marker, write, buffer,
}
use quarry.Logship.Chunks.{data_of, contents, Numbered, seal_full-Sealed}

-- The stream that the writes ps give when each keeps a first part of its bytes: what is cut off is counted,
-- and the count is either still to come or stands as a marker where the bytes are missing.
pub data Carried : List (List ℕ) → List ℕ → ℕ → Type 0 where
  nothing : Carried [] [] 0
  keep :
      (ps : List (List ℕ)) (st p : List ℕ) (d k : ℕ)
      → Carried ps st d
      → Carried (ps ++ p ∷ []) (st ++ take k p) (d + (length p - k))
  mark :
      (ps : List (List ℕ)) (st : List ℕ) (d : ℕ)
      → 0 < d
      → Carried ps st d
      → Carried ps (st ++ marker d) 0

-- The bytes p were added at the end.
record Appended (p : List ℕ) (s t : Shipper) : Type 0 where
  pub contents_more : contents t ≡ contents s ++ p
  pub buffered_more : t.buffered ≡ s.buffered + length p
  pub same_dropped : t.dropped ≡ s.dropped
  pub same_stale : t.stale ≡ s.stale
  pub same_failure : t.failure ≡ s.failure
  pub grown : (more : List Chunk) × (t.pending ≡ s.pending ++ more)
  pub numbers :
      (a : ℕ) (cs : List Chunk)
      → Numbered a (cs ++ s.pending) s.next_seq
      → Numbered a (cs ++ t.pending) t.next_seq

append-Appended : (cfg : Config) (p : List ℕ) (s : Shipper) → Appended p s (append cfg p s)
unfolding append
append-Appended cfg p s =
    let h = seal_full-Sealed cfg.flush_bytes (length (s.cur ++ p)) (buffer p s) in
    record {
      contents_more = h.same_contents ∙ sym (append_assoc (data_of s.pending) s.cur p);
      buffered_more = h.same_buffered;
      same_dropped = h.same_dropped;
      same_stale = h.same_stale;
      same_failure = h.same_failure;
      grown = h.grown;
      numbers = h.numbers;
    }

-- What a write does to a shipper that is neither closed nor stale.
pub record Written (ps : List (List ℕ)) (s t : Shipper) : Type 0 where
  pub piece : List ℕ
  pub contents_more : contents t ≡ contents s ++ piece
  pub buffered_more : t.buffered ≡ s.buffered + length piece
  pub same_stale : t.stale ≡ s.stale
  pub same_failure : t.failure ≡ s.failure
  pub grown : (more : List Chunk) × (t.pending ≡ s.pending ++ more)
  pub numbers :
      (a : ℕ) (cs : List Chunk)
      → Numbered a (cs ++ s.pending) s.next_seq
      → Numbered a (cs ++ t.pending) t.next_seq
  pub carries :
      (qs : List (List ℕ)) (st : List ℕ)
      → Carried qs st s.dropped
      → Carried (qs ++ ps) (st ++ piece) t.dropped

Written-trans :
    {ps qs : List (List ℕ)} {s t u : Shipper}
    → Written ps s t
    → Written qs t u
    → Written (ps ++ qs) s u
Written-trans {ps} {qs} {s} {t} {u} h k = record {
  piece = h.piece ++ k.piece;
  contents_more =
      k.contents_more
      ∙ (ap (λ x. x ++ k.piece) h.contents_more ∙ append_assoc (contents s) h.piece k.piece);
  buffered_more = omega (arith, h.buffered_more, k.buffered_more, length-append h.piece k.piece);
  same_stale = k.same_stale ∙ h.same_stale;
  same_failure = k.same_failure ∙ h.same_failure;
  grown =
      let (more, e) = h.grown in
      let (rest, f) = k.grown in
      (more ++ rest, f ∙ (ap (λ x. x ++ rest) e ∙ append_assoc s.pending more rest));
  numbers = λ a cs i. k.numbers a cs (h.numbers a cs i);
  carries = λ rs st c.
      rw (← append_assoc rs ps qs, ← append_assoc st h.piece k.piece)
        (k.carries (rs ++ ps) (st ++ h.piece) (h.carries rs st c));
}

announce-Written : (cfg : Config) (s : Shipper) → Written [] s (announce cfg s)
unfolding announce
announce-Written cfg s = elim (Bool-cases (ltb 0 s.dropped && ltb 0 (room cfg s))) [
  | inl e ↦ rw e (
      let h = append-Appended cfg (marker s.dropped) s in
      record {
        piece = marker s.dropped;
        contents_more = h.contents_more;
        buffered_more = h.buffered_more;
        same_stale = h.same_stale;
        same_failure = h.same_failure;
        grown = h.grown;
        numbers = h.numbers;
        carries = λ qs st c. rw (append-nil qs) (mark qs st s.dropped (ground (arith, e)) c);
      })
  | inr e ↦ rw e (record {
    piece = [];
    contents_more = sym (append-nil (contents s));
    buffered_more = omega arith;
    same_stale = refl;
    same_failure = refl;
    grown = ([], sym (append-nil s.pending));
    numbers = λ a cs i. i;
    carries = λ qs st c. rw (append-nil qs, append-nil st) c;
  })
]

take_all : (xs : List ℕ) → take (length xs) xs ≡ xs
take_all [] = refl
take_all (x ∷ xs) = ap (λ ys. x ∷ ys) (take_all xs)

-- A first part of p is added, and the rest is counted.
keeps :
    (p : List ℕ) (k d : ℕ) (s t : Shipper)
    → Appended (take k p) (record s { dropped = d }) t
    → d ≡ s.dropped + (length p - k)
    → Written (p ∷ []) s t
keeps p k d s t h e = record {
  piece = take k p;
  contents_more = h.contents_more;
  buffered_more = h.buffered_more;
  same_stale = h.same_stale;
  same_failure = h.same_failure;
  grown = h.grown;
  numbers = h.numbers;
  carries = λ qs st c.
      subst (Carried (qs ++ p ∷ []) (st ++ take k p)) (sym (h.same_dropped ∙ e))
        (keep qs st p s.dropped k c);
}

Appended-nil : (s : Shipper) → Appended [] s s
Appended-nil s = record {
  contents_more = sym (append-nil (contents s));
  buffered_more = omega arith;
  same_dropped = refl;
  same_stale = refl;
  same_failure = refl;
  grown = ([], sym (append-nil s.pending));
  numbers = λ a cs i. i;
}

accept-Written :
    (cfg : Config) (space : ℕ) (p : List ℕ) (s : Shipper)
    → Written (p ∷ []) s (accept cfg space p s)
accept-Written cfg space p s = elim (Bool-cases (space == 0)) [
  | inl e ↦ rw e (
      keeps p 0 (s.dropped + length p) s _
        (Appended-nil (record s { dropped = s.dropped + length p })) (omega arith))
  | inr e ↦ elim (Bool-cases (ltb space (length p))) [
    | inl l ↦
        rw (e, l)
          (keeps p space _ s _
            (append-Appended cfg (take space p)
              (record s { dropped = s.dropped + (length p - space) }))
            refl)
    | inr l ↦
        rw (e, l)
          (keeps p (length p) s.dropped s _
            (subst (λ q. Appended q s (append cfg p s)) (sym (take_all p))
              (append-Appended cfg p s))
            (omega arith))
  ]
]

neither : (a b : Bool) → a ≡ false → b ≡ false → (a || b) ≡ false
neither a b e f = ground (arith, e, f)

pub write-Written :
    (cfg : Config) (p : List ℕ) (s : Shipper)
    → s.closed ≡ false
    → s.stale ≡ false
    → Written (p ∷ []) s (write cfg p s)
unfolding write
write-Written cfg p s c l =
    subst (λ b. Written (p ∷ []) s (if b then s else accept cfg (room cfg s) p (announce cfg s)))
      (sym (neither s.closed s.stale c l))
      (Written-trans (announce-Written cfg s) (accept-Written cfg (room cfg s) p (announce cfg s)))
