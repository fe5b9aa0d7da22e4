-- ===== src/Agent/Delivery.antt =====
-- A report from the runner to the table: the client's loop, the network, the handler and the scheduler.
use native.Mathlib.Decide.{ℕ_discrete}
use quarry.Base.{
  ◌||◌, if◌then◌else◌, pos, ℕ, suc, String, List, [], ◌∷◌, ◌++◌, some, Bool, true, false, ◌≢◌, ◌⊎◌,
  inl, inr, ◌≡◌, refl, sym, ap, ◌∙◌, subst, arith, All,
}
use quarry.Store.Types.{Job}
use quarry.Store.Monad.{Store, ok}
use quarry.Scheduler.Complete.{Result, complete}
use quarry.Life.Unique.{IsUnique}
use quarry.Life.Again.{complete-again}
use quarry.Api.Runner.{CompleteRequest, decoded, handle_complete, complete_reply}
use quarry.Agent.Client.{
  Failure, Answer, by_status, unreachable, answered, Posted, posted, failed, post_once, Turn,
  Passage, next_delay, is_connection, reconnect, first_delay, post, is_final, fence_of, decided,
  tries, complete_with_retry,
}
use quarry.Agent.Retry.{reconnect-lost, reconnect-got}

-- What the network does with one request: it is lost, it is served and the reply is lost, or both pass.
pub data Fate : Type 0 where
  dropped mute replied : Fate

abbrev pub IsMute : Fate → Type 0
IsMute replied = ⊥
IsMute f = Unit {0}

abbrev turn : Answer → Turn
turn a = record { ended = false; answer = a; interrupted = false }

-- The same report each time, with the runner's id and the attempt.
module _ (id runner : String) (n : ℕ) (res : Result) where
  abbrev pub request : CompleteRequest
  request = record { runner_id = runner; attempt = pos n; result = res }

  abbrev pub code_at : Store → ℕ
  code_at s = (handle_complete id (decoded request) s).code

  abbrev pub served : Store → Store
  served s = (handle_complete id (decoded request) s).store

  -- What the client sees of the fates, and what they leave of the store.
  abbrev pub turns_of : List Fate → Store → List Turn
  turns_of [] s = []
  turns_of (dropped ∷ fs) s = turn unreachable ∷ turns_of fs s
  turns_of (mute ∷ fs) s = turn unreachable ∷ turns_of fs (served s)
  turns_of (replied ∷ fs) s = turn (answered (code_at s) true true) ∷ turns_of fs (served s)

  abbrev pub store_after : List Fate → Store → Store
  store_after [] s = s
  store_after (dropped ∷ fs) s = store_after fs s
  store_after (mute ∷ fs) s = store_after fs (served s)
  store_after (replied ∷ fs) s = store_after fs (served s)

  handle-reply :
      (s : Store)
      → n ≢ 0
      → runner ≢ ""
      → handle_complete id (decoded request) s ≡ complete_reply (complete id n res s)
  unfolding handle_complete
  handle-reply s p r = ground arith

  -- Served for the first time, or again: a reply that is final, and the store as the first one left it.
  record IsSettled (t u : Store) : Type 0 where
    left : served u ≡ t
    told : (code_at u ≡ 200) ⊎ (code_at u ≡ 409)

  module _ (j : Job) (s t : Store) (unique : IsUnique s) (positive : n ≢ 0) (named : runner ≢ "")
      (taken : complete id n res s ≡ ok j t) where
    served-IsSettled : IsSettled t s
    served-IsSettled =
        let e = handle-reply s positive named ∙ ap complete_reply taken in
        record { left = ap (λ r. r.store) e; told = inl (ap {B = ℕ} (λ r. r.code) e) }

    served-IsSettled_again : IsSettled t t
    served-IsSettled_again = elim (complete-again id n res j s t unique taken) [
      | inl e ↦
          let h = handle-reply t positive named ∙ ap complete_reply e in
          record { left = ap (λ r. r.store) h; told = inl (ap {B = ℕ} (λ r. r.code) h) }
      | inr e ↦
          let h = handle-reply t positive named ∙ ap complete_reply e in
          record { left = ap (λ r. r.store) h; told = inr (ap {B = ℕ} (λ r. r.code) h) }
    ]

    store_after-IsSettled :
        (fs : List Fate) (u : Store)
        → All IsMute fs
        → (u ≡ s) ⊎ (u ≡ t)
        → IsSettled t (store_after fs u)
    store_after-IsSettled [] u h (inl e) = subst (IsSettled t) (sym e) served-IsSettled
    store_after-IsSettled [] u h (inr e) = subst (IsSettled t) (sym e) served-IsSettled_again
    store_after-IsSettled (dropped ∷ fs) u (m, h) e = store_after-IsSettled fs u h e
    store_after-IsSettled (mute ∷ fs) u (m, h) (inl e) =
        store_after-IsSettled fs (served u) h (inr (ap served e ∙ served-IsSettled.left))
    store_after-IsSettled (mute ∷ fs) u (m, h) (inr e) =
        store_after-IsSettled fs (served u) h (inr (ap served e ∙ served-IsSettled_again.left))
    store_after-IsSettled (replied ∷ fs) u (m, h) e = absurd m

  lost_connection : is_connection (post_once unreachable) ≡ true
  unfolding post_once
  lost_connection = refl

  abbrev reply_at : Store → Posted
  reply_at u = post_once (answered (code_at u) true true)

  -- A call goes on to the first reply, and stops there.
  record Stops (p : Passage) (u : Store) (after : List Fate) : Type 0 where
    returned : p.outcome ≡ some (reply_at u)
    not_over : p.over ≡ false
    left_over : p.rest ≡ turns_of after (served u)

  reached : (u : Store) → is_connection (reply_at u) ≡ false
  unfolding post_once
  reached u = ground arith

  waited :
      {p : Passage} {u : Store} {after : List Fate} {delay : ℕ}
      → Stops p u after
      → Stops (record p { waits = delay ∷ p.waits }) u after
  waited k = record { returned = k.returned; not_over = k.not_over; left_over = k.left_over }

  reconnect-Stops :
      (delay : ℕ) (before after : List Fate) (s : Store)
      → All IsMute before
      → Stops
          (reconnect post_once delay (turns_of (before ++ replied ∷ after) s))
          (store_after before s)
          after
  reconnect-Stops delay [] after s h =
      subst (λ p. Stops p s after)
        (sym (reconnect-got post_once delay _ _ (refl, refl) (reached s)))
        (record { returned = refl; not_over = refl; left_over = refl })
  reconnect-Stops delay (dropped ∷ fs) after s (m, h) =
      subst (λ p. Stops p (store_after fs s) after)
        (sym (reconnect-lost post_once delay (turn unreachable) _ (refl, refl) lost_connection))
        (waited (reconnect-Stops (next_delay delay) fs after s h))
  reconnect-Stops delay (mute ∷ fs) after s (m, h) =
      subst (λ p. Stops p (store_after fs (served s)) after)
        (sym (reconnect-lost post_once delay (turn unreachable) _ (refl, refl) lost_connection))
        (waited (reconnect-Stops (next_delay delay) fs after (served s) h))
  reconnect-Stops delay (replied ∷ fs) after s (m, h) = absurd m

  store_append :
      (xs ys : List Fate) (s : Store) → store_after (xs ++ ys) s ≡ store_after ys (store_after xs s)
  store_append [] ys s = refl
  store_append (dropped ∷ xs) ys s = store_append xs ys s
  store_append (mute ∷ xs) ys s = store_append xs ys (served s)
  store_append (replied ∷ xs) ys s = store_append xs ys (served s)

  -- The two replies that a report which was taken can get.
  abbrev pub IsHeard : Posted → Type 0
  IsHeard r = (r ≡ posted true) ⊎ (r ≡ failed Failure.fenced)

  heard : (t u : Store) → IsSettled t u → IsHeard (fence_of (reply_at u))
  unfolding post_once ℕ_discrete
  heard t u k = elim k.told [
    | inl e ↦ inl (ap (λ c. fence_of (by_status c true)) e)
    | inr e ↦ inr (ap (λ c. fence_of (by_status c true)) e)
  ]

  heard_final : (r : Posted) → IsHeard r → is_final r ≡ true
  heard_final r (inl e) = ap is_final e
  heard_final r (inr e) = ap is_final e

  -- What the client comes to: a reply that is heard, no request sent after it, and the store as the first
  -- served request left it.
  pub record Delivered (before after : List Fate) (s t : Store) (p : Passage) : Type 0 where
    pub reply : Posted
    pub heard_reply : IsHeard reply
    pub returned : p.outcome ≡ some reply
    pub unsent : p.rest ≡ turns_of after t
    pub once : store_after (before ++ replied ∷ []) s ≡ t

  decided-Delivered :
      (before after : List Fate) (s t : Store) (waits : List ℕ) (p again : Passage)
      → Stops p (store_after before s) after
      → IsSettled t (store_after before s)
      → Delivered before after s t (decided waits p again p.outcome p.over)
  decided-Delivered before after s t waits p again k settled =
      let u = store_after before s in
      let h = heard t u settled in
      let e : decided waits p again p.outcome p.over
          ≡ record p { outcome = some (fence_of (reply_at u)); waits = waits } =
        ap (λ o. decided waits p again o p.over) k.returned
        ∙ chosen (is_final (fence_of (reply_at u))) p.over (heard_final _ h) in
      subst (Delivered before after s t) (sym e) (record {
        reply = fence_of (reply_at u);
        heard_reply = h;
        returned = refl;
        unsent = k.left_over ∙ ap (turns_of after) settled.left;
        once = store_append before (replied ∷ []) s ∙ settled.left;
      })
    where
      chosen :
          (f over : Bool)
          → f ≡ true
          → (if f || over
              then record p {
                outcome = some (fence_of (reply_at (store_after before s)));
                waits = waits;
              }
              else record again { waits = waits ++ again.waits })
            ≡ record p {
              outcome = some (fence_of (reply_at (store_after before s)));
              waits = waits;
            }
      chosen true over e = refl
      chosen false over e = absurd (ground (arith, e))

  module _ (j : Job) (before after : List Fate) (s t : Store) where
    -- A report that the table takes is taken once, however often the request is served: job ids are
    -- distinct, the runner has an id and the attempt is positive, at least one try is allowed, and, of the
    -- requests up to the first whose reply arrives, each is lost or served without a reply. Then the client
    -- returns at that reply, which accepts the report or fences it, sends nothing after it, and the store
    -- is as one report left it.
    pub complete_with_retry-Delivered :
        (backoff more : ℕ)
        → IsUnique s
        → n ≢ 0
        → runner ≢ ""
        → complete id n res s ≡ ok j t
        → All IsMute before
        → Delivered before after s t
            (complete_with_retry backoff (suc more) (turns_of (before ++ replied ∷ after) s))
    unfolding complete_with_retry tries post
    complete_with_retry-Delivered backoff more unique positive named taken quiet =
        decided-Delivered before after s t [] _ _
          (reconnect-Stops (first_delay backoff) before after s quiet)
          (store_after-IsSettled j s t unique positive named taken before s quiet (inl refl))
