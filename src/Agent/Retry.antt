-- ===== src/Agent/Retry.antt =====
-- The loops of the client: how long they wait, when they end, and what they return.
use quarry.Base.{
  ℕ, List, [], ◌∷◌, Option, none, some, Bool, true, false, ◌||◌, not, ℕ-eq, ◌≡◌, refl, arith,
  Bool-cases, inl, inr, All, any, select, map,
}
use quarry.Agent.Client.{
  stopped, gave_up, Answer, Posted, failed, Turn, Passage, next_delay, is_connection, reconnect,
  fence_of,
}

-- Turns in which the context does not end.
abbrev pub IsCalm : Turn → Type 0
IsCalm t = (t.ended ≡ false) × (t.interrupted ≡ false)

-- Of the replies to at most so many tries, the first that is final; else it gives up.
abbrev pub by_first : Option Posted → Posted
by_first none = failed gave_up
by_first (some r) = r

module _ (once : Answer → Posted) where
  -- A call never returns a network error: it returns as soon as a turn is answered, or the context has ended.
  pub reconnect_returns :
      (delay : ℕ) (ts : List Turn)
      → any (λ (t : Turn). t.ended || not (is_connection (once t.answer))) ts ≡ true
      → (r : Posted) × ((reconnect once delay ts).outcome ≡ some r) × (is_connection r ≡ false)
  unfolding reconnect any
  reconnect_returns delay [] h = absurd (ground (arith, h))
  reconnect_returns delay (t ∷ ts) h = elim (Bool-cases t.ended) [
    | inl a ↦ rw a (failed stopped, refl, refl)
    | inr a ↦ elim (Bool-cases (is_connection (once t.answer))) [
      | inl b ↦ elim (Bool-cases t.interrupted) [
        | inl c ↦ rw (a, b, c) (failed stopped, refl, refl)
        | inr c ↦ rw (a, b, c) (reconnect_returns (next_delay delay) ts (rw (a, b, any) at h))
      ]
      | inr b ↦ rw (a, b) (once t.answer, refl, b)
    ]
  ]

  abbrev pub is_reached : Turn → Bool
  is_reached t = not (is_connection (once t.answer))

  -- What complete makes of each turn that reaches the server.
  abbrev pub replies : List Turn → List Posted
  replies ts = map (λ (t : Turn). fence_of (once t.answer)) (select is_reached ts)

  -- What a calm call does: it takes the turns up to the first reply.
  record Replied (p : Passage) (ts : List Turn) : Type 0 where
    reply : Posted
    returned : p.outcome ≡ some reply
    not_over : p.over ≡ false
    still_calm : All IsCalm p.rest
    consumed : replies ts ≡ fence_of reply ∷ replies p.rest

  pub reconnect-lost :
      (delay : ℕ) (t : Turn) (ts : List Turn)
      → IsCalm t
      → is_connection (once t.answer) ≡ true
      → let again = reconnect once (next_delay delay) ts in
        reconnect once delay (t ∷ ts) ≡ record again { waits = delay ∷ again.waits }
  unfolding reconnect
  reconnect-lost delay t ts (a, i) b = rw (a, b, i) refl

  pub reconnect-got :
      (delay : ℕ) (t : Turn) (ts : List Turn)
      → IsCalm t
      → is_connection (once t.answer) ≡ false
      → reconnect once delay (t ∷ ts)
        ≡ record { outcome = some (once t.answer); over = false; waits = []; rest = ts }
  unfolding reconnect
  reconnect-got delay t ts (a, i) b = rw (a, b, i) refl
