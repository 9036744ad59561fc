-- ===== src/Language/Attempts.antt =====
-- The loop of `_call_model` of src/unhalted/core/reply.py, against the answers of the endpoint.
use unhalted.Prelude.{
  ℕ, zero, suc, ◌+◌, ◌≤◌, ◌<◌, ◌≡◌, Bool, true, false, String, Option, none, if◌then◌else◌, arith,
  Bool-cases, ==_iff, ◌==◌, subst, inl, inr, refl,
}
use unhalted.Language.Calls.{
  Answer, transport_error, status_other, answered, FailureReason, unknown, ModelCall, is_usable,
  transport, http_status, empty_content, on_answer, call_from, call_model,
}

-- an answer that ends the loop: it was cut off, or it says something
abbrev pub settles : Answer → Bool
settles (answered cost cut_off content) = if cut_off then true else is_usable content
settles _ = false

-- what the loop gives for it
abbrev pub content_of : Answer → Option String
content_of (answered cost cut_off content) = if cut_off then none else content
content_of _ = none

abbrev pub cost_of : Answer → ℕ
cost_of (answered cost cut_off content) = cost
cost_of _ = 0

-- the cost of the answers before the `n`th
abbrev pub bill : (ℕ → Answer) → ℕ → ℕ
bill answers zero = 0
bill answers (suc n) = bill answers n + cost_of (answers n)

module _ (answers : ℕ → Answer) where
  -- the result of a loop that the answer numbered `k` ends
  abbrev pub EndsAt : ℕ → ModelCall → Type 0
  EndsAt k c =
      (c.attempts ≡ k + 1) × (c.content ≡ content_of (answers k)) × (c.cost ≡ bill answers (k + 1))

  differ : (n k : ℕ) → n ≤ k → settles (answers k) ≡ true → settles (answers n) ≡ false → n + 1 ≤ k
  differ n k h ends on = elim (Bool-cases (n == k)) [
    | inl same ↦ let e : n ≡ k = (==_iff n k).0 same in absurd (cc)
    | inr other ↦ ground (arith, other)
  ]

  bill_next : (n : ℕ) → bill answers (n + 1) ≡ bill answers n + cost_of (answers n)
  bill_next n = ground arith

  -- one turn, on the answer that came
  turn_ends :
      (a : Answer) (left attempt : ℕ) (last : FailureReason)
      → answers attempt ≡ a
      → settles a ≡ true
      → EndsAt attempt (call_from answers (suc left) attempt last (bill answers attempt))
  unfolding call_from on_answer
  turn_ends transport_error left attempt last e s = absurd (cc)
  turn_ends (status_other status) left attempt last e s = absurd (cc)
  turn_ends (answered cost cut_off content) left attempt last e s =
      rw e (ground (arith, s, bill_next attempt, e))

  turn_goes_on :
      (a : Answer) (left attempt : ℕ) (last : FailureReason)
      → answers attempt ≡ a
      → settles a ≡ false
      → (why : FailureReason) × (call_from answers (suc left) attempt last (bill answers attempt)
          ≡ call_from answers left (attempt + 1) why (bill answers (attempt + 1)))
  unfolding call_from on_answer
  turn_goes_on transport_error left attempt last e s =
      (transport, rw (call_from, e, bill_next attempt) (ground (arith, e)))
  turn_goes_on (status_other status) left attempt last e s =
      (http_status status, rw (call_from, e, bill_next attempt) (ground (arith, e)))
  turn_goes_on (answered cost cut_off content) left attempt last e s =
      (empty_content, rw (call_from, e, bill_next attempt) (ground (arith, e, s)))

  call_from-first :
      (left attempt k : ℕ) (last : FailureReason)
      → attempt ≤ k
      → k < attempt + left
      → ((i : ℕ) → attempt ≤ i → i < k → settles (answers i) ≡ false)
      → settles (answers k) ≡ true
      → EndsAt k (call_from answers left attempt last (bill answers attempt))
  unfolding call_from on_answer
  call_from-first zero attempt k last h below waste ends = absurd (omega arith)
  call_from-first (suc left) attempt k last h below waste ends =
      elim (Bool-cases (settles (answers attempt))) [
        | inl stop ↦
            let same : attempt ≡ k = ground (arith, waste attempt) in
            subst
              (λ (n : ℕ).
                EndsAt n (call_from answers (suc left) attempt last (bill answers attempt)))
              same (turn_ends (answers attempt) left attempt last refl stop)
        | inr on ↦
            let (why, e) = turn_goes_on (answers attempt) left attempt last refl on in
            let later : attempt + 1 ≤ k = differ attempt k h ends on in
            rw e (
              call_from-first left (attempt + 1) k why later (omega arith)
                (λ i after before. waste i (omega arith) before) ends)
      ]

  call_from-none :
      (left attempt : ℕ) (last : FailureReason)
      → ((i : ℕ) → attempt ≤ i → i < attempt + left → settles (answers i) ≡ false)
      → ((call_from answers left attempt last (bill answers attempt)).attempts ≡ attempt + left)
        × ((call_from answers left attempt last (bill answers attempt)).content ≡ none)
        × ((call_from answers left attempt last (bill answers attempt)).cost
            ≡ bill answers (attempt + left))
  unfolding call_from on_answer
  call_from-none zero attempt last waste = ground arith
  call_from-none (suc left) attempt last waste =
      let (why, e) =
        turn_goes_on (answers attempt) left attempt last refl
          (waste attempt (omega arith) (omega arith)) in
      let ih =
        call_from-none left (attempt + 1) why
          (λ i after before. waste i (omega arith) (omega arith)) in
      let same : attempt + suc left ≡ attempt + 1 + left = omega arith in rw (e, same) ih

  -- A call that has a key asks at most three times. The first of the three answers that was cut off
  -- or says something ends it: the call gives what that answer says, and nothing if it was cut off.
  -- If no answer does, it fails after the third. Either way its cost is that of every answer asked
  -- for, the useless ones included.
  pub call_model-first :
      ((k : ℕ)
        → k < 3
        → ((i : ℕ) → i < k → settles (answers i) ≡ false)
        → settles (answers k) ≡ true
        → EndsAt k (call_model true answers))
      × (((i : ℕ) → i < 3 → settles (answers i) ≡ false)
          → ((call_model true answers).attempts ≡ 3)
            × ((call_model true answers).content ≡ none)
            × ((call_model true answers).cost ≡ bill answers 3))
  unfolding call_model
  call_model-first = (
    λ k below waste ends.
        call_from-first 3 0 k unknown (omega arith) below (λ i _ before. waste i before) ends,
    λ waste. call_from-none 3 0 unknown (λ i _ before. waste i before),
  )
