-- ===== src/Agent/Waits.antt =====
-- How often and how long a call of the client waits.
use Prim.Native.Nat.{◌^◌}
use quarry.Base.{
  ℕ, zero, suc, ◌*◌, min, List, [], ◌∷◌, Bool, true, false, not, ◌==◌, ℕ-eq, if◌then◌else◌, ◌≡◌,
  refl, ap, ◌∙◌, arith, Bool-cases, inl, inr,
}
use quarry.Agent.Client.{
  Answer, unreachable, answered, post_once, Turn, next_delay, is_connection, reconnect, first_delay,
  post,
}

-- In nanoseconds: half a second where the configuration gives no delay.
abbrev pub base_delay : ℕ → ℕ
base_delay backoff = if backoff == 0 then 500000000 else backoff

-- The wait after failure n, counted from 0: it doubles up to ten seconds.
abbrev pub wait_at : ℕ → ℕ → ℕ
wait_at d n = min (d * 2 ^ n) 10000000000

-- The first n waits from the i-th on.
abbrev pub waits_from : ℕ → ℕ → ℕ → List ℕ
waits_from d i zero = []
waits_from d i (suc n) = wait_at d i ∷ waits_from d (suc i) n

-- No reply, or one that breaks off.
abbrev pub is_lost : Answer → Bool
is_lost unreachable = true
is_lost (answered code readable decodes) = not readable

-- The turns that fail before the first that is answered or finds the context ended. A wait that the end of
-- the context interrupts is the last.
abbrev pub failures : List Turn → ℕ
failures [] = 0
failures (t ∷ ts) =
    let more = failures ts in
    if t.ended then 0 else if is_lost t.answer then (if t.interrupted then 1 else suc more) else 0

post_once-is_lost : (a : Answer) → is_connection (post_once a) ≡ is_lost a
unfolding post_once
post_once-is_lost unreachable = refl
post_once-is_lost (answered code true decodes) = ground arith
post_once-is_lost (answered code false decodes) = refl

next_wait : (d i : ℕ) → next_delay (wait_at d i) ≡ wait_at d (suc i)
next_wait d i = grind arith

reconnect-waits_from :
    (d i delay : ℕ) (ts : List Turn)
    → delay ≡ wait_at d i
    → (reconnect post_once delay ts).waits ≡ waits_from d i (failures ts)
unfolding reconnect
reconnect-waits_from d i delay [] e = refl
reconnect-waits_from d i delay (t ∷ ts) e =
    let again =
      reconnect-waits_from d (suc i) (next_delay delay) ts (ap next_delay e ∙ next_wait d i) in
    let lost = post_once-is_lost t.answer in
    elim (Bool-cases t.ended) [
      | inl a ↦ rw a refl
      | inr a ↦ elim (Bool-cases (is_lost t.answer)) [
        | inl b ↦ elim (Bool-cases t.interrupted) [
          | inl c ↦ rw (a, lost, b, c) (ap (λ x. x ∷ []) e)
          | inr c ↦ rw (a, lost, b, c) (cc (e, again))
        ]
        | inr b ↦ rw (a, lost, b) refl
      ]
    ]

first_wait : (backoff : ℕ) → first_delay backoff ≡ wait_at (base_delay backoff) 0
first_wait backoff = ground arith

-- A call waits once after each failure, until a turn is answered or finds the context ended. The n-th wait
-- is 2ⁿ⁻¹ times the configured delay (half a second where that is 0), and never longer than ten seconds.
pub post-waits_from :
    (backoff : ℕ) (ts : List Turn)
    → (post backoff ts).waits ≡ waits_from (base_delay backoff) 0 (failures ts)
unfolding post
post-waits_from backoff ts =
    reconnect-waits_from (base_delay backoff) 0 (first_delay backoff) ts (first_wait backoff)
