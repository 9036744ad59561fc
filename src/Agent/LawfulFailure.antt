-- ===== src/Agent/LawfulFailure.antt =====
-- The rungs that `handle_failure` (src/unhalted/agent.py) enters, against the ceilings and the
-- execution bands.
use unhalted.Prelude.{
  ◌≡◌, ◌≢◌, refl, sym, subst, ◌+◌, Bool, true, false, Option, none, some, [], ◌∷◌, Yields,
  Option-cases, Bool-cases, inl, inr,
}
use unhalted.Clock.{Instant, Duration}
use unhalted.Policy.{Policy, IsCoherent}
use unhalted.Models.{
  Text, is_given, FailureSignal, Case, Diagnosis, DiagnosisClass, Rung, ask_date, RetryOccasion,
  on_failure, as_fallback, awaiting_reply, unrecovered,
}
use unhalted.Scheduler.{backoff_for, schedule_retry}
use unhalted.Scheduler.Earliest.{backoff_for-total}
use unhalted.Ladder.{evaluate}
use unhalted.Store.Tables.{Store}
use unhalted.Store.Cases.{set_state, update_case}
use unhalted.Store.Queue.{cancel_pending}
use unhalted.Agent.Entry.{log}
use unhalted.Agent.Retry.{
  amount_permitted, enact, fallback_decision, fallback_after, schedule_balance_fallback,
}
use unhalted.Agent.Placed.{
  is_payable, AreLawful, enact-AreLawful, escalate_after_cap-AreLawful, slug-AreLawful,
  cancel_pending-AreLawful,
}
use unhalted.Agent.Lawful.{permitted-is_payable, permitted-queue}
use unhalted.Agent.LawfulReply.{cancel_pending-runs}
use unhalted.Agent.Failure.{
  is_balance, is_silent, enact_retry, retry_if, first_retry, first_contact, enter_rung, terminate,
  take_up,
}
use unhalted.Taxonomy.{Reasons}

module _ (p : Policy) (k : IsCoherent p) where
  -- what the check on the amount passes on
  IsChecked : Text → FailureSignal → Bool × Store → Type 0
  IsChecked id x (allowed, s) =
      (allowed ≡ is_payable p (some x)) × AreLawful p id (some x) s.pending_actions

  amount_permitted-IsChecked :
      (c : Case) (x : FailureSignal) (occasion : RetryOccasion) (now : Instant) (s : Store)
      → AreLawful p c.id (some x) s.pending_actions
      → IsChecked c.id x (amount_permitted p c (some x) occasion now s)
  unfolding IsChecked
  amount_permitted-IsChecked c x occasion now s l = (
    permitted-is_payable p c (some x) occasion now s,
    subst (AreLawful p c.id (some x)) (sym (permitted-queue p c (some x) occasion now s)) l,
  )

  fallback_after-AreLawful :
      (c : Case) (x : FailureSignal) (now : Instant) (asked : Bool × Store) (wait : Option Duration)
      → IsChecked c.id x asked
      → wait ≢ none
      → Yields
          (λ s'. AreLawful p c.id (some x) s'.pending_actions)
          (fallback_after p c x now asked wait)
  unfolding fallback_after fallback_decision IsChecked
  fallback_after-AreLawful c x now (false, s) wait (says, l) w = l
  fallback_after-AreLawful c x now (true, s) none (says, l) w = absurd (w refl)
  fallback_after-AreLawful c x now (true, s) (some wait) (says, l) w =
      enact-AreLawful p k c (some x) (now + p.reply_grace + wait) c.retry_count now as_fallback
        (awaiting_reply ∷ []) s l (sym says)

  fallback-AreLawful :
      (c : Case) (d : Diagnosis) (x : FailureSignal) (now : Instant) (s : Store)
      → AreLawful p c.id (some x) s.pending_actions
      → Yields
          (λ s'. AreLawful p c.id (some x) s'.pending_actions)
          (schedule_balance_fallback p c d x now s)
  unfolding schedule_balance_fallback
  fallback-AreLawful c d x now s l =
      fallback_after-AreLawful c x now (amount_permitted p c (some x) as_fallback now s)
        (backoff_for p (some d.klass) c.retry_count)
        (amount_permitted-IsChecked c x as_fallback now s l)
        (backoff_for-total p (some d.klass) c.retry_count)

  first_contact-AreLawful :
      (table : Reasons) (link : Case → Option Text) (c : Case) (d : Diagnosis) (rung : Rung)
      (x : FailureSignal) (now : Instant) (s : Store)
      → AreLawful p c.id (some x) s.pending_actions
      → Yields
          (λ s'. AreLawful p c.id (some x) s'.pending_actions)
          (first_contact p table link c d rung x now s)
  unfolding first_contact
  first_contact-AreLawful table link c d rung x now s l = elim (Bool-cases (is_balance d.klass)) [
    | inl balance ↦ rw balance (
        fallback-AreLawful c d x now _
          (slug-AreLawful p c.id (some x) c.id c.customer_ref rung (some now) (some ask_date) s l))
    | inr other ↦
        rw (other, Yields)
          (slug-AreLawful p c.id (some x) c.id c.customer_ref rung (some now) none s l)
  ]

  module _ (table : Reasons) (link : Case → Option Text) where
    enact_retry-AreLawful :
        (c : Case) (klass : DiagnosisClass) (x : FailureSignal) (now : Instant) (s : Store)
        (wait : Duration)
        → is_payable p (some x) ≡ true
        → AreLawful p c.id (some x) s.pending_actions
        → Yields
            (λ s'. AreLawful p c.id (some x) s'.pending_actions)
            (enact_retry p table link c klass x now s (some wait))
    unfolding enact_retry
    enact_retry-AreLawful c klass x now s wait ok l =
        let d = schedule_retry p (now + wait) c.retry_count (some now) x.method in
        let s1 = enact p c d on_failure [] now s in
        let l1 =
          enact-AreLawful p k c (some x) (now + wait) c.retry_count now on_failure [] s l ok in
        elim (Bool-cases d.accepted) [
          | inl accepted ↦ rw (accepted, Yields) l1
          | inr refused ↦
              rw (refused, Yields)
                (escalate_after_cap-AreLawful p link c.id (some x) c (some klass) now s1 l1)
        ]

    retry_if-AreLawful :
        (c : Case) (d : Diagnosis) (x : FailureSignal) (now : Instant) (asked : Bool × Store)
        → IsChecked c.id x asked
        → Yields
            (λ s'. AreLawful p c.id (some x) s'.pending_actions)
            (retry_if p table link c d x now asked)
    unfolding retry_if IsChecked
    retry_if-AreLawful c d x now (false, s) (says, l) = l
    retry_if-AreLawful c d x now (true, s) (says, l) =
        elim (Option-cases (backoff_for p (some d.klass) c.retry_count)) [
          | inl missing ↦ absurd (backoff_for-total p (some d.klass) c.retry_count missing)
          | inr (wait, at) ↦ rw at (enact_retry-AreLawful c d.klass x now s wait (sym says) l)
        ]

    first_retry-AreLawful :
        (c : Case) (d : Diagnosis) (x : FailureSignal) (now : Instant) (s : Store)
        → AreLawful p c.id (some x) s.pending_actions
        → Yields
            (λ s'. AreLawful p c.id (some x) s'.pending_actions)
            (first_retry p table link c d x now s)
    unfolding first_retry
    first_retry-AreLawful c d x now s l =
        retry_if-AreLawful c d x now (amount_permitted p c (some x) on_failure now s)
          (amount_permitted-IsChecked c x on_failure now s l)

    pub take_up-AreLawful :
        (c : Case) (d : Diagnosis) (rung : Option Rung) (x : FailureSignal) (now : Instant)
        (s : Store)
        → is_given c.id ≡ true
        → AreLawful p c.id (some x) s.pending_actions
        → Yields
            (λ s'. AreLawful p c.id (some x) s'.pending_actions)
            (take_up p table link c d rung x now s)
    unfolding take_up enter_rung terminate set_state update_case log
    take_up-AreLawful c d none x now s g l = l
    take_up-AreLawful c d (some rung) x now s g l =
        let closed = set_state c.id unrecovered s in
        elim (Bool-cases (evaluate p rung c.amount_paise none [] none).approved) [
          | inl worth ↦ elim (Bool-cases (is_silent rung)) [
            | inl silent ↦ rw (worth, silent) (first_retry-AreLawful c d x now _ l)
            | inr contact ↦
                rw (worth, contact) (first_contact-AreLawful table link c d rung x now _ l)
          ]
          | inr not_worth ↦ elim (Option-cases (cancel_pending 0 c.id (some now) closed)) [
            | inl raised ↦ absurd (cancel_pending-runs c.id now closed g raised)
            | inr ((n, s1), e) ↦
                let l1 = cancel_pending-AreLawful p c.id (some x) 0 c.id now n closed s1 l e in
                rw (not_worth, Yields, e) l1
          ]
        ]
