-- ===== src/Logship/Chunks.antt =====
-- What append, seal and take keep: the bytes, their order, and the numbers of the chunks.
use quarry.Base.{
  ℕ, zero, suc, ◌+◌, List, [], ◌∷◌, ◌++◌, Bool, false, ◌≡◌, refl, sym, ap, ◌∙◌, arith, ◌||◌,
  Bool-cases, inl, inr, ltb, leb, length, take, drop, take-drop, append_assoc, append-nil,
  length-append,
}
use quarry.Logship.Buffer.{Chunk, Shipper, seal, seal_full, flushed, batch_from, size}

abbrev pub data_of : List Chunk → List ℕ
data_of [] = []
data_of (c ∷ cs) = c.bytes ++ data_of cs

-- The bytes that are held, in order.
abbrev pub contents : Shipper → List ℕ
contents s = data_of s.pending ++ s.cur

-- The chunks are numbered without a gap from the first number up to the one before the second.
abbrev pub Numbered : ℕ → List Chunk → ℕ → Type 0
Numbered a [] b = a ≡ b
Numbered a (c ∷ cs) b = (c.seq ≡ a) × Numbered (suc a) cs b

pub Numbered-snoc :
    (a : ℕ) (cs : List Chunk) (b : ℕ) (p : List ℕ)
    → Numbered a cs b
    → Numbered a (cs ++ record { seq = b; bytes = p } ∷ []) (suc b)
Numbered-snoc a [] b p h = (sym h, ap suc h)
Numbered-snoc a (c ∷ cs) b p h = (h.0, Numbered-snoc (suc a) cs b p h.1)

pub data_of-append : (cs ds : List Chunk) → data_of (cs ++ ds) ≡ data_of cs ++ data_of ds
data_of-append [] ds = refl
data_of-append (c ∷ cs) ds =
    rw (data_of-append cs ds) (sym (append_assoc c.bytes (data_of cs) (data_of ds)))

pub size-data_of : (cs : List Chunk) → size cs ≡ length (data_of cs)
size-data_of [] = refl
size-data_of (c ∷ cs) = omega (arith, size-data_of cs, length-append c.bytes (data_of cs))

-- Chunks are cut off the bytes that are held, and nothing else changes.
pub record Sealed (s t : Shipper) : Type 0 where
  pub same_contents : contents t ≡ contents s
  pub same_buffered : t.buffered ≡ s.buffered
  pub same_dropped : t.dropped ≡ s.dropped
  pub same_closed : t.closed ≡ s.closed
  pub same_stale : t.stale ≡ s.stale
  pub same_failure : t.failure ≡ s.failure
  pub grown : (more : List Chunk) × (t.pending ≡ s.pending ++ more)
  pub numbers :
      (a : ℕ) (cs : List Chunk)
      → Numbered a (cs ++ s.pending) s.next_seq
      → Numbered a (cs ++ t.pending) t.next_seq

pub Sealed-refl : (s : Shipper) → Sealed s s
Sealed-refl s = record {
  same_contents = refl;
  same_buffered = refl;
  same_dropped = refl;
  same_closed = refl;
  same_stale = refl;
  same_failure = refl;
  grown = ([], sym (append-nil s.pending));
  numbers = λ a cs h. h;
}

pub Sealed-trans : {s t u : Shipper} → Sealed s t → Sealed t u → Sealed s u
Sealed-trans {s} {t} {u} h k = record {
  same_contents = k.same_contents ∙ h.same_contents;
  same_buffered = k.same_buffered ∙ h.same_buffered;
  same_dropped = k.same_dropped ∙ h.same_dropped;
  same_closed = k.same_closed ∙ h.same_closed;
  same_stale = k.same_stale ∙ h.same_stale;
  same_failure = k.same_failure ∙ h.same_failure;
  grown =
      let (more, e) = h.grown in
      let (rest, f) = k.grown in
      (more ++ rest, f ∙ (ap (λ x. x ++ rest) e ∙ append_assoc s.pending more rest));
  numbers = λ a cs i. k.numbers a cs (h.numbers a cs i);
}

pub seal-Sealed : (n : ℕ) (s : Shipper) → Sealed s (seal n s)
unfolding seal
seal-Sealed n s =
    let c : Chunk = record { seq = s.next_seq; bytes = take n s.cur } in
    record {
      same_contents =
          ap (λ x. x ++ drop n s.cur) (data_of-append s.pending (c ∷ []))
          ∙ (ap (λ x. (data_of s.pending ++ x) ++ drop n s.cur) (append-nil (take n s.cur))
              ∙ (append_assoc (data_of s.pending) (take n s.cur) (drop n s.cur)
                  ∙ ap (λ x. data_of s.pending ++ x) (take-drop n s.cur)));
      same_buffered = refl;
      same_dropped = refl;
      same_closed = refl;
      same_stale = refl;
      same_failure = refl;
      grown = (c ∷ [], refl);
      numbers = λ a cs h.
          rw (← append_assoc cs s.pending (c ∷ []))
            (Numbered-snoc a (cs ++ s.pending) s.next_seq _ h);
    }

pub seal_full-Sealed : (flush fuel : ℕ) (s : Shipper) → Sealed s (seal_full flush fuel s)
unfolding seal_full
seal_full-Sealed flush zero s = Sealed-refl s
seal_full-Sealed flush (suc fuel) s = elim (Bool-cases (leb flush (length s.cur))) [
  | inl e ↦ rw e (Sealed-trans (seal-Sealed flush s) (seal_full-Sealed flush fuel (seal flush s)))
  | inr e ↦ rw e (Sealed-refl s)
]

pub flushed-Sealed : (s : Shipper) → Sealed s (flushed s)
flushed-Sealed s = elim (Bool-cases (ltb 0 (length s.cur))) [
  | inl e ↦ rw e (seal-Sealed (length s.cur) s)
  | inr e ↦ rw e (Sealed-refl s)
]

-- A batch is a first part of the list it is taken from.
pub batch_from-prefix :
    (limit : ℕ) (first : Bool) (n : ℕ) (cs : List Chunk)
    → (rest : List Chunk) × (cs ≡ batch_from limit first n cs ++ rest)
unfolding batch_from
batch_from-prefix limit first n [] = ([], refl)
batch_from-prefix limit first n (c ∷ cs) =
    let (rest, e) = batch_from-prefix limit false (n + length c.bytes) cs in
    elim (Bool-cases (first || leb (n + length c.bytes) limit)) [
      | inl t ↦ (rest, rw t (ap (λ x. c ∷ x) e))
      | inr t ↦ (c ∷ cs, rw t refl)
    ]
