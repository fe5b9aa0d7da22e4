-- ===== src/Pipeline/Order.antt =====
-- What topo gives: an order of the jobs in which each follows its needs, or a cycle when there is none.
use quarry.Base.{
  ℕ, zero, suc, ◌+◌, ◌≤◌, String, List, [], ◌∷◌, ◌++◌, ◌≡◌, refl, sym, ap, ◌∙◌, subst, inl, inr,
  arith, Bool-cases, ◌==◌, ℕ-eq, String-eq, if◌then◌else◌, length, length-append, append_assoc,
  append-nil, leb, get, Option, none, some, sort_on,
}
use quarry.Pipeline.Types.{PipelineJob}
use quarry.Pipeline.Topo.{
  Deps, degrees_from, order_from, initial, Kahn, round, rounds, Sorted, sorted, cycle, out_of_fuel,
  finish, topo,
}
use quarry.Pipeline.Counts.{
  count, count-nil, count-cons_sum, same_self, same_name, count-sort_on, length_le, count_same,
}
use quarry.Pipeline.Needs.{names, needs_in, missing, count-snoc, Follows, IsGraph, missing_more}
use quarry.Pipeline.Kahn.{due, due_le, Sound, start-Sound, round-Sound}

-- Each job once, after its needs.
pub record IsTopological (jobs : List PipelineJob) (out : List String) : Type 0 where
  pub each_once : (x : String) → count out x ≡ count (names jobs) x
  pub follows : Follows jobs [] out

module _ (jobs : List PipelineJob) (deps : Deps) (order : List (String × ℕ))
    (g : IsGraph jobs deps) where
  abbrev Within : Kahn → Type 0
  Within k = (x : String) → count k.out x ≤ count (names jobs) x

  -- The end of the loop: nothing is ready.
  record Ended (k : Kahn) : Type 0 where
    pub sound : Sound jobs deps order k
    pub idle : (x : String) → count k.ready x ≡ 0
    pub small : Within k

  Sound-Within : (k : Kahn) → Sound jobs deps order k → Within k
  Sound-Within k s x =
      omega (arith, s.flow x, due_le (missing k.out (needs_in jobs x)) (count (names jobs) x))

  Sound-Ended :
      (k : Kahn) → Sound jobs deps order k → ((x : String) → count k.ready x ≡ count [] x) → Ended k
  Sound-Ended k s r = record { sound = s; idle = λ x. r x ∙ count-nil x; small = Sound-Within k s }

  module _ (n : String) (rest : List String) (k : Kahn) where
    -- There is room for one more, while a job is ready.
    room :
        Sound jobs deps order k
        → ((x : String) → count k.ready x ≡ count (n ∷ rest) x)
        → suc (length k.out) ≤ length (names jobs)
    room s r = omega (
      arith,
      length-append k.out (n ∷ []),
      length_le (k.out ++ n ∷ []) (names jobs) (λ x. omega (
        arith,
        count-snoc k.out n x,
        Sound-Within k s x,
        r x,
        count-cons_sum n rest x,
        s.flow x,
        due_le (missing k.out (needs_in jobs x)) (count (names jobs) x),
      )),
    )

  length-round :
      (n : String) (rest : List String) (k : Kahn)
      → length (round deps order n rest k).out ≡ suc (length k.out)
  unfolding round
  length-round n rest k = omega (arith, length-append k.out (n ∷ []))

  by_sorting :
      (k : Kahn) (xs : List String)
      → sort_on (get 0 order) k.ready ≡ xs
      → (x : String) → count k.ready x ≡ count xs x
  by_sorting k xs f x = sym (count-sort_on (get 0 order) k.ready x) ∙ ap (λ l. count l x) f

  abbrev Ends : Option Kahn → Type 0
  Ends o = (t : Kahn) × (o ≡ some t) × Ended t

  rounds-Ends :
      (fuel : ℕ) (k : Kahn)
      → length k.out + fuel ≡ length (names jobs)
      → Sound jobs deps order k
      → Ends (rounds deps order fuel k)
  unfolding rounds
  rounds-Ends zero k e s = go (sort_on (get 0 order) k.ready) refl
    where
      go :
          (xs : List String)
          → sort_on (get 0 order) k.ready ≡ xs
          → Ends (elim xs [ [] ↦ some k | n ∷ rest ↦ none ])
      go [] f = (k, refl, Sound-Ended k s (by_sorting k [] f))
      go (n ∷ rest) f = absurd (omega (arith, e, room n rest k s (by_sorting k (n ∷ rest) f)))
  rounds-Ends (suc fuel) k e s = go (rounds-Ends fuel) (sort_on (get 0 order) k.ready) refl
    where
      go :
          ((k : Kahn)
            → length k.out + fuel ≡ length (names jobs)
            → Sound jobs deps order k
            → Ends (rounds deps order fuel k))
          → (xs : List String) → sort_on (get 0 order) k.ready ≡ xs
          → Ends (elim xs [
            | [] ↦ some k
            | n ∷ rest ↦ rounds deps order fuel (round deps order n rest k)
          ])
      go next [] f = (k, refl, Sound-Ended k s (by_sorting k [] f))
      go next (n ∷ rest) f =
          next (round deps order n rest k) (omega (arith, e, length-round n rest k))
            (round-Sound jobs deps order g n rest k (by_sorting k (n ∷ rest) f) s).0

  -- An order has only jobs that the loop has put out.
  module _ (k : Kahn) (e : Ended k) where
    out_next :
        (before : List String) (y : String)
        → ((x : String) → 1 ≤ count before x → 1 ≤ count k.out x)
        → missing before (needs_in jobs y) ≡ 0
        → 1 ≤ count (names jobs) y
        → (x : String) → 1 ≤ count (before ++ y ∷ []) x
        → 1 ≤ count k.out x
    out_next before y b m h x c = elim (Bool-cases (y == x)) [
      | inl t ↦
          let zero_missing : missing k.out (needs_in jobs y) ≡ 0 =
            missing_more before k.out (needs_in jobs y) b m in
          subst (λ z. 1 ≤ count k.out z) (same_name y x t)
            (omega (
              arith,
              h,
              e.sound.flow y,
              e.idle y,
              ap (λ d. due d (count (names jobs) y)) zero_missing,
            ))
      | inr t ↦
          b x (omega (arith, c, count-snoc before y x, ap {B = ℕ} (λ b. if b then 1 else 0) t))
    ]

    all_out :
        (before xs : List String)
        → ((x : String) → 1 ≤ count before x → 1 ≤ count k.out x)
        → Follows jobs before xs
        → ((x : String) → count xs x ≤ count (names jobs) x)
        → (x : String) → 1 ≤ count (before ++ xs) x
        → 1 ≤ count k.out x
    all_out before [] b f h x c = b x (rw (append-nil before) at c)
    all_out before (y ∷ ys) b f h x c =
        all_out (before ++ y ∷ []) ys
          (out_next before y b f.0 (omega (arith, h y, count-cons_sum y ys y, same_self y))) f.1
          (λ z. omega (arith, h z, count-cons_sum y ys z)) x
          (rw (append_assoc before (y ∷ []) ys) c)

    each_out :
        (ord : List String)
        → IsTopological jobs ord
        → (x : String) → count (names jobs) x ≤ count k.out x
    each_out ord t x = elim (Bool-cases (leb 1 (count (names jobs) x))) [
      | inl l ↦ omega (
        arith,
        g.distinct x,
        all_out [] ord (λ z c. absurd (omega (arith, c, count-nil z))) t.follows
            (λ z. omega (arith, t.each_once z)) x (ground (arith, l, t.each_once x)),
      )
      | inr l ↦ ground (arith, l)
    ]

    -- Where there is an order, the loop puts all jobs out.
    nothing_left : (ord : List String) → IsTopological jobs ord → length k.out ≡ length (names jobs)
    nothing_left ord t =
        omega (
          arith,
          length_le k.out (names jobs) e.small,
          length_le (names jobs) k.out (each_out ord t),
        )

abbrev pub IsRight : List PipelineJob → Sorted → Type 0
IsRight jobs (sorted out) = IsTopological jobs out
IsRight jobs (cycle names) = ¬ ((out : List String) × IsTopological jobs out)
IsRight jobs out_of_fuel = ⊥

names-length : (jobs : List PipelineJob) → length (names jobs) ≡ length jobs
names-length [] = refl
names-length (j ∷ js) = omega (arith, names-length js)

finish-IsRight :
    (jobs : List PipelineJob) (deps : Deps) (order : List (String × ℕ)) (g : IsGraph jobs deps)
    (k : Kahn)
    → Ended jobs deps order g k
    → IsRight jobs (finish jobs (some k))
finish-IsRight jobs deps order g k e = elim (Bool-cases (length k.out == length jobs)) [
  | inl t ↦ rw t (record {
    each_once = λ x. count_same k.out (names jobs) x e.small (ground (arith, t, names-length jobs));
    follows = e.sound.follows;
  })
  | inr t ↦
      rw t
        (λ (ord, o). ground (arith, t, names-length jobs, nothing_left jobs deps order g k e ord o))
]

-- When the names of the jobs differ and deps lists the dependents of each, topo either gives every job
-- once, each after its needs, or reports a cycle and there is no such order; it never runs out of fuel.
pub topo-IsRight :
    (jobs : List PipelineJob) (deps : Deps) → IsGraph jobs deps → IsRight jobs (topo jobs deps)
unfolding topo
topo-IsRight jobs deps g =
    let order = order_from [] 0 jobs in
    let (k, e, ended) =
      rounds-Ends jobs deps order g (length jobs)
        (record {
          degrees = degrees_from [] jobs;
          ready = initial (degrees_from [] jobs) jobs;
          out = [];
        })
        (omega (arith, names-length jobs)) (start-Sound jobs deps order g) in
    subst (λ o. IsRight jobs (finish jobs o)) (sym e) (finish-IsRight jobs deps order g k ended)
