-- ===== src/Pipeline/Kahn.antt =====
-- The invariant of Kahn's algorithm.
use quarry.Base.{
  ℕ, zero, suc, ◌+◌, ◌≤◌, String, List, [], ◌∷◌, ◌++◌, Bool, true, false, ◌≡◌, refl, sym, ap, ◌∙◌,
  inl, inr, arith, Bool-cases, ◌==◌, String-eq, if◌then◌else◌, length, put, get, get-put, ℤ, pos,
  is_zero,
}
use quarry.Pipeline.Types.{PipelineJob}
use quarry.Pipeline.Topo.{
  Deps, Degrees, dependents_of, degree, degrees_from, initial, release, Kahn, round,
}
use quarry.Pipeline.Counts.{
  count, count-nil, count-cons_same, count-cons_other, same_name, same, same_self, count-cons_sum,
}
use quarry.Pipeline.Degrees.{degree-release, count-release, arrivals}
use quarry.Pipeline.Needs.{
  needs_in-count, names, needs_in, missing, missing-nil, missing-snoc, count-snoc, Follows,
  Follows-snoc, IsGraph,
}

-- How often a name is out or ready, when so many needs are missing.
abbrev pub due : ℕ → ℕ → ℕ
due zero c = c
due (suc m) c = 0

put_same :
    (m : Degrees) (k : String) (v : ℤ) (x : String) → (k == x) ≡ true → degree (put m k v) x ≡ v
put_same m k v x t = get-put (pos 0) m k v x ∙ ap (λ b. if b then v else degree m x) t

put_other :
    (m : Degrees) (k : String) (v : ℤ) (x : String)
    → (k == x) ≡ false
    → degree (put m k v) x ≡ degree m x
put_other m k v x t = get-put (pos 0) m k v x ∙ ap (λ b. if b then v else degree m x) t

degrees_from-absent :
    (js : List PipelineJob) (m : Degrees) (x : String)
    → count (names js) x ≡ 0
    → degree (degrees_from m js) x ≡ degree m x
unfolding degrees_from
degrees_from-absent [] m x h = refl
degrees_from-absent (j ∷ js) m x h = elim (Bool-cases (j.name == x)) [
  | inl t ↦ absurd (omega (arith, h, count-cons_same j.name (names js) x t))
  | inr t ↦
      degrees_from-absent js (put m j.name (pos (length j.needs))) x
        (omega (arith, h, count-cons_other j.name (names js) x t))
      ∙ put_other m j.name (pos (length j.needs)) x t
]

degrees_from-needs :
    (js : List PipelineJob) (m : Degrees) (x : String)
    → count (names js) x ≤ 1
    → degree m x ≡ pos 0
    → degree (degrees_from m js) x ≡ pos (length (needs_in js x))
unfolding degrees_from needs_in
degrees_from-needs [] m x h e = e
degrees_from-needs (j ∷ js) m x h e = elim (Bool-cases (j.name == x)) [
  | inl t ↦ rw t (
      degrees_from-absent js (put m j.name (pos (length j.needs))) x
        (omega (arith, h, count-cons_same j.name (names js) x t))
      ∙ put_same m j.name (pos (length j.needs)) x t)
  | inr t ↦ rw t (
      degrees_from-needs js (put m j.name (pos (length j.needs))) x
        (omega (arith, h, count-cons_other j.name (names js) x t))
        (put_other m j.name (pos (length j.needs)) x t ∙ e))
]

due-zero : (d c : ℕ) → c ≡ 0 → due d c ≡ 0
due-zero zero c h = h
due-zero (suc d) c h = refl

due-sum : (d k c : ℕ) → due d (k + c) ≡ due d k + due d c
due-sum zero k c = refl
due-sum (suc d) k c = omega arith

due-one : (d : ℕ) → due d 1 ≡ (if is_zero (pos d) then 1 else 0)
due-one zero = refl
due-one (suc d) = refl

kept_same :
    (b : Bool) (y x : String) (xs : List String)
    → (y == x) ≡ true
    → count (if b then y ∷ xs else xs) x ≡ (if b then 1 else 0) + count xs x
kept_same true y x xs t = omega (arith, count-cons_same y xs x t)
kept_same false y x xs t = omega arith

kept_other :
    (b : Bool) (y x : String) (xs : List String)
    → (y == x) ≡ false
    → count (if b then y ∷ xs else xs) x ≡ count xs x
kept_other true y x xs t = count-cons_other y xs x t
kept_other false y x xs t = refl

due-same :
    (m : Degrees) (y x : String) (xs : List String) (d : ℕ)
    → degree m x ≡ pos d
    → count (if is_zero (degree m y) then y ∷ xs else xs) x ≡ due d (same y x) + count xs x
due-same m y x xs d e = elim (Bool-cases (y == x)) [
  | inl t ↦
      let both : is_zero (degree m y) ≡ is_zero (pos d) =
        ap (λ z. is_zero (degree m z)) (same_name y x t) ∙ ap is_zero e in
      let now : due d 1 ≡ (if is_zero (degree m y) then 1 else 0) =
        due-one d ∙ ap {B = ℕ} (λ b. if b then 1 else 0) (sym both) in
      let one : same y x ≡ 1 = ap {B = ℕ} (λ b. if b then 1 else 0) t in
      omega (arith, kept_same (is_zero (degree m y)) y x xs t, now, ap (due d) one)
  | inr t ↦
      let none_here : same y x ≡ 0 = ap {B = ℕ} (λ b. if b then 1 else 0) t in
      omega
        (arith, kept_other (is_zero (degree m y)) y x xs t, ap (due d) none_here, due-zero d 0 refl)
]

count-initial :
    (js : List PipelineJob) (m : Degrees) (x : String) (d : ℕ)
    → degree m x ≡ pos d
    → count (initial m js) x ≡ due d (count (names js) x)
unfolding initial
count-initial [] m x d e = count-nil x ∙ sym (due-zero d (count [] x) (count-nil x))
count-initial (j ∷ js) m x d e = omega (
  arith,
  due-same m j.name x (initial m js) d e,
  count-initial js m x d e,
  ap (due d) (count-cons_sum j.name (names js) x),
  due-sum d (same j.name x) (count (names js) x),
)

due-arrivals :
    (t a c N : ℕ) → t ≡ a + c → N ≤ 1 → (1 ≤ c → 1 ≤ N) → due t N + arrivals a c ≡ due a N
due-arrivals zero (suc a) c N e h k = absurd (omega (arith, e))
due-arrivals (suc t) (suc a) c N e h k = omega arith
due-arrivals zero zero zero N e h k = omega arith
due-arrivals (suc t) zero zero N e h k = absurd (omega (arith, e))
due-arrivals zero zero (suc c) N e h k = absurd (omega (arith, e))
due-arrivals (suc t) zero (suc c) N e h k = omega (arith, h, k (omega arith))

pub due_le : (d c : ℕ) → due d c ≤ c
due_le zero c = omega arith
due_le (suc d) c = omega arith

due_positive : (d c : ℕ) → 1 ≤ due d c → d ≡ 0
due_positive zero c h = refl
due_positive (suc d) c h = absurd (omega (arith, h))

nothing_known : (x : String) → degree [] x ≡ pos 0
unfolding get
nothing_known x = refl

module _ (jobs : List PipelineJob) (deps : Deps) (order : List (String × ℕ)) where
  pub record Sound (k : Kahn) : Type 0 where
    pub deg : (x : String) → degree k.degrees x ≡ pos (missing k.out (needs_in jobs x))
    pub flow :
        (x : String)
        → count k.out x + count k.ready x
          ≡ due (missing k.out (needs_in jobs x)) (count (names jobs) x)
    pub follows : Follows jobs [] k.out

  pub start-Sound :
      IsGraph jobs deps
      → Sound (record {
        degrees = degrees_from [] jobs;
        ready = initial (degrees_from [] jobs) jobs;
        out = [];
      })
  start-Sound g =
      let known : (x : String)
          → degree (degrees_from [] jobs) x ≡ pos (missing [] (needs_in jobs x)) =
        λ x.
          degrees_from-needs jobs [] x (g.distinct x) (nothing_known x)
          ∙ ap pos (sym (missing-nil (needs_in jobs x))) in
      record {
        deg = known;
        flow = λ x.
            omega (arith, count-nil x, count-initial jobs (degrees_from [] jobs) x _ (known x));
        follows = tt;
      }

  module _ (g : IsGraph jobs deps) (n : String) (rest : List String) (k : Kahn) where
    abbrev pub ReadyAs : Type 0
    ReadyAs = (x : String) → count k.ready x ≡ count (n ∷ rest) x

    -- The job that is put out was not out, and no need of it is missing.
    first_ready : ReadyAs → Sound k → (count k.out n ≡ 0) × (missing k.out (needs_in jobs n) ≡ 0)
    first_ready r s =
        let here : 1 + count rest n ≡ count k.ready n =
          omega (arith, r n, count-cons_sum n rest n, same_self n) in
        let flow = s.flow n in
        let most = due_le (missing k.out (needs_in jobs n)) (count (names jobs) n) in
        (
          omega (arith, here, flow, most, g.distinct n),
          due_positive (missing k.out (needs_in jobs n)) (count (names jobs) n)
              (omega (arith, here, flow)),
        )

    lacking :
        (x : String)
        → count k.out n ≡ 0
        → missing k.out (needs_in jobs x)
          ≡ missing (k.out ++ n ∷ []) (needs_in jobs x) + count (dependents_of deps n) x
    lacking x z = omega (arith, missing-snoc k.out n (needs_in jobs x) z, g.mirrored n x)

    flow_on :
        (x : String)
        → count k.out n ≡ 0
        → ReadyAs
        → Sound k
        → count (k.out ++ n ∷ []) x + count (release (dependents_of deps n) k.degrees rest).1 x
          ≡ due (missing (k.out ++ n ∷ []) (needs_in jobs x)) (count (names jobs) x)
    flow_on x z r s =
        let a = missing (k.out ++ n ∷ []) (needs_in jobs x) in
        let c = count (dependents_of deps n) x in
        let l = lacking x z in
        omega (
          arith,
          count-snoc k.out n x,
          s.flow x,
          r x,
          count-cons_sum n rest x,
          count-release (dependents_of deps n) k.degrees rest x a (s.deg x ∙ ap pos l),
          due-arrivals (missing k.out (needs_in jobs x)) a c (count (names jobs) x) l (g.distinct x)
              (λ h. needs_in-count jobs x n (omega (arith, h, g.mirrored n x))),
        )

    pub round-Sound : ReadyAs → Sound k → Sound (round deps order n rest k) × (count k.out n ≡ 0)
    unfolding round
    round-Sound r s =
        let (z, e) = first_ready r s in
        (
          record {
            deg = λ x.
                degree-release (dependents_of deps n) k.degrees rest x
                  (missing (k.out ++ n ∷ []) (needs_in jobs x)) (s.deg x ∙ ap pos (lacking x z));
            flow = λ x. flow_on x z r s;
            follows = Follows-snoc jobs [] k.out n s.follows e;
          },
          z,
        )
