-- ===== src/Agent/Lawful.antt =====
-- The branches of `handle_reply` (src/unhalted/agent.py), against the ceilings and the execution
-- bands.
use unhalted.Prelude.{
  ℕ, ◌≡◌, refl, sym, subst, ◌∙◌, true, false, Option, none, some, [], arith, Option-cases,
  Bool-cases, inl, inr,
}
use unhalted.Clock.{Instant, Day, combine}
use unhalted.Policy.{Policy, IsCoherent}
use unhalted.Models.{Text, FailureSignal, Case, StopCode, RetryOccasion, on_promise}
use unhalted.Limits.{may_attempt, check}
use unhalted.Stops.{StopScope, of_case, of_customer, of_merchant, rule}
use unhalted.Scheduler.{schedule_retry}
use unhalted.Replies.{ReplyOutcome}
use unhalted.Store.Tables.{Store}
use unhalted.Store.Cases.{first_signal, set_state, update_case, suspend_nudges_until}
use unhalted.Store.Trail.{latest_diagnosis}
use unhalted.Store.Queue.{cancel_pending}
use unhalted.Agent.Entry.{log, current}
use unhalted.Agent.Retry.{method_of, amount_permitted, enact}
use unhalted.Agent.Stop.{cancel_in_scope, complete_stop, stop_on_file}
use unhalted.Agent.Quiet.{queue-complete_stop}
use unhalted.Agent.Person.{queue-hold_as_well}
use unhalted.Agent.Placed.{
  is_payable, AreLawful, enact-AreLawful, cancel_pending-AreLawful, escalate_after_cap-AreLawful,
}
use unhalted.Agent.Reply.{
  class_of, hold_as_well, enact_stop, hold_case, suspend, place_promise, realign_in, realign,
  enact_reply,
}

module _ (p : Policy) where
  pub permitted-is_payable :
      (c : Case) (signal : Option FailureSignal) (occasion : RetryOccasion) (now : Instant)
      (s : Store)
      → (amount_permitted p c signal occasion now s).0 ≡ is_payable p signal
  unfolding amount_permitted
  permitted-is_payable c none occasion now s = refl
  permitted-is_payable c (some x) occasion now s = ground arith

  pub permitted-queue :
      (c : Case) (signal : Option FailureSignal) (occasion : RetryOccasion) (now : Instant)
      (s : Store)
      → (amount_permitted p c signal occasion now s).1.pending_actions ≡ s.pending_actions
  unfolding amount_permitted log
  permitted-queue c none occasion now s = refl
  permitted-queue c (some x) occasion now s =
      elim (Bool-cases (may_attempt (check p x.amount_paise x.method x.mandate_max_paise false))) [
        | inl ok ↦ rw ok refl
        | inr over ↦ rw over refl
      ]

  cancel_in_scope-AreLawful :
      (id : Text) (signal : Option FailureSignal) (scope : StopScope) (case_id ref : Text)
      (now : Instant) (n : ℕ) (s s' : Store)
      → AreLawful p id signal s.pending_actions
      → cancel_in_scope scope case_id ref now s ≡ some (n, s')
      → AreLawful p id signal s'.pending_actions
  unfolding cancel_in_scope
  cancel_in_scope-AreLawful id signal of_case case_id ref now n s s' l e =
      cancel_pending-AreLawful p id signal 0 case_id now n s s' l e
  cancel_in_scope-AreLawful id signal of_customer case_id ref now n s s' l e =
      cancel_pending-AreLawful p id signal ref 0 now n s s' l e
  cancel_in_scope-AreLawful id signal of_merchant case_id ref now n s s' l e =
      cancel_pending-AreLawful p id signal ref 0 now n s s' l e

  -- a stop moves no retry
  stop_on_file-AreLawful :
      (id : Text) (signal : Option FailureSignal) (code : StopCode) (case_id ref : Text)
      (now : Instant) (n : ℕ) (s s' : Store)
      → AreLawful p id signal s.pending_actions
      → stop_on_file code case_id ref now s ≡ some (n, s')
      → AreLawful p id signal s'.pending_actions
  unfolding stop_on_file
  stop_on_file-AreLawful id signal code case_id ref now n s s' l e =
      let r = rule code in
      elim (Option-cases (cancel_in_scope r.scope case_id ref now s)) [
        | inl raised ↦ absurd (cc)
        | inr ((m, s1), at) ↦
            let l1 = cancel_in_scope-AreLawful id signal r.scope case_id ref now m s s1 l at in
            let done : complete_stop r case_id ref now s1 ≡ s' = ground (arith, at, e) in
            subst (λ (x : Store). AreLawful p id signal x.pending_actions) done
              (subst (AreLawful p id signal) (sym (queue-complete_stop r case_id ref now s1)) l1)
      ]

queue-suspend :
    (c : Case) (until : Option Day) (s : Store)
    → (suspend c until s).pending_actions ≡ s.pending_actions
unfolding suspend suspend_nudges_until update_case
queue-suspend c none s = refl
queue-suspend c (some day) s = refl

module _ (p : Policy) (link : Case → Option Text) (k : IsCoherent p) where
  place_promise-AreLawful :
      (c : Case) (promised : Day) (until : Option Day) (signal : Option FailureSignal)
      (now : Instant) (s : Store)
      → is_payable p signal ≡ true
      → AreLawful p c.id signal s.pending_actions
      → AreLawful p c.id signal (place_promise p link c promised until signal now s).pending_actions
  unfolding place_promise
  place_promise-AreLawful c promised until signal now s ok l =
      let d =
        schedule_retry p (combine promised p.contact_open) c.retry_count (some now)
          (method_of signal) in
      let s1 = enact p c d on_promise [] now s in
      let s2 = suspend c until s1 in
      let l1 =
        enact-AreLawful p k c signal (combine promised p.contact_open) c.retry_count now on_promise
          [] s l ok in
      let l2 : AreLawful p c.id signal s2.pending_actions =
        subst (AreLawful p c.id signal) (sym (queue-suspend c until s1)) l1 in
      elim (Bool-cases d.accepted) [
        | inl accepted ↦ rw accepted l2
        | inr refused ↦ rw refused (
            escalate_after_cap-AreLawful p link c.id signal (current c s2)
              (class_of (latest_diagnosis c.id s2)) now s2 l2)
      ]

  realign_in-AreLawful :
      (c : Case) (promised : Day) (until : Option Day) (now : Instant) (s : Store)
      → AreLawful p c.id (first_signal c.id s) s.pending_actions
      → AreLawful p c.id
          (first_signal c.id s)
          (realign_in p link c promised until now s).pending_actions
  unfolding realign_in
  realign_in-AreLawful c promised until now s l =
      let signal = first_signal c.id s in
      let asked = amount_permitted p c signal on_promise now s in
      let same = permitted-queue p c signal on_promise now s in
      let says = permitted-is_payable p c signal on_promise now s in
      let l1 : AreLawful p c.id signal asked.1.pending_actions =
        subst (AreLawful p c.id signal) (sym same) l in
      elim (Bool-cases asked.0) [
        | inl ok ↦
            rw ok (place_promise-AreLawful c promised until signal now asked.1 (sym says ∙ ok) l1)
        | inr over ↦
            rw over (subst (AreLawful p c.id signal) (sym (queue-suspend c until (asked.1))) l1)
      ]

  realign-AreLawful :
      (c : Case) (promised : Day) (until : Option Day) (now : Instant) (s : Store)
      → AreLawful p c.id (first_signal c.id s) s.pending_actions
      → (s' : Store) → realign p link c promised until now s ≡ some s'
      → AreLawful p c.id (first_signal c.id s) s'.pending_actions
  unfolding realign cancel_pending first_signal
  realign-AreLawful c promised until now s l s' e =
      let signal = first_signal c.id s in
      elim (Option-cases (cancel_pending 0 c.id (some now) s)) [
        | inl raised ↦ absurd (cc)
        | inr ((n, s1), at) ↦
            let same : s1.signals ≡ s.signals = ground (arith, at) in
            let signal_same : first_signal c.id s1 ≡ signal = rw same refl in
            let l1 = cancel_pending-AreLawful p c.id signal 0 c.id now n s s1 l at in
            let placed = realign_in-AreLawful c promised until now s1 (
              subst (λ (x : Option FailureSignal). AreLawful p c.id x s1.pending_actions)
                (sym signal_same) l1) in
            let done : realign_in p link c promised until now s1 ≡ s' = ground (arith, at, e) in
            subst (λ (x : Store). AreLawful p c.id signal x.pending_actions) done
              (subst
                (λ (x : Option FailureSignal).
                  AreLawful p c.id x (realign_in p link c promised until now s1).pending_actions)
                signal_same placed)
      ]

  enact_stop-AreLawful :
      (id : Text) (signal : Option FailureSignal) (c : Case) (code : StopCode) (out : ReplyOutcome)
      (now : Instant) (s s' : Store)
      → AreLawful p id signal s.pending_actions
      → enact_stop c code out now s ≡ some s'
      → AreLawful p id signal s'.pending_actions
  unfolding enact_stop
  enact_stop-AreLawful id signal c code out now s s' l e =
      elim (Option-cases (stop_on_file code c.id c.customer_ref now s)) [
        | inl raised ↦ absurd (cc)
        | inr ((n, s1), at) ↦
            let l1 = stop_on_file-AreLawful p id signal code c.id c.customer_ref now n s s1 l at in
            let done : hold_as_well c code out now s1 ≡ s' = ground (arith, at, e) in
            subst (λ (x : Store). AreLawful p id signal x.pending_actions) done
              (subst (AreLawful p id signal) (sym (queue-hold_as_well c code out now s1)) l1)
      ]

  hold_case-AreLawful :
      (id : Text) (signal : Option FailureSignal) (c : Case) (now : Instant) (s s' : Store)
      → AreLawful p id signal s.pending_actions
      → hold_case c now s ≡ some s'
      → AreLawful p id signal s'.pending_actions
  unfolding hold_case log set_state update_case
  hold_case-AreLawful id signal c now s s' l e =
      elim (Option-cases (cancel_pending 0 c.id (some now) s)) [
        | inl raised ↦ absurd (cc)
        | inr ((n, s1), at) ↦
            let l1 = cancel_pending-AreLawful p id signal 0 c.id now n s s1 l at in
            let done : s1.pending_actions ≡ s'.pending_actions = ground (arith, at, e) in
            subst (AreLawful p id signal) done l1
      ]

  pub enact_reply-AreLawful :
      (c : Case) (out : ReplyOutcome) (now : Instant) (s s' : Store)
      → AreLawful p c.id (first_signal c.id s) s.pending_actions
      → enact_reply p link c out now s ≡ some s'
      → AreLawful p c.id (first_signal c.id s) s'.pending_actions
  unfolding enact_reply
  enact_reply-AreLawful c out now s s' l e =
      let signal = first_signal c.id s in
      elim (Option-cases out.stop_code) [
        | inr (code, at) ↦ enact_stop-AreLawful c.id signal c code out now s s' l (rw at at e)
        | inl no_stop ↦ elim (Bool-cases out.needs_human) [
          | inl human ↦ hold_case-AreLawful c.id signal c now s s' l (rw (no_stop, human) at e)
          | inr automatic ↦ elim (Option-cases out.realign_to) [
            | inl stays ↦
                let same : s ≡ s' = ground (arith, no_stop, automatic, stays, e) in
                subst (λ (x : Store). AreLawful p c.id signal x.pending_actions) same l
            | inr (promised, at) ↦
                realign-AreLawful c promised out.suspend_nudges_until now s l s'
                  (rw (no_stop, automatic, at) at e)
          ]
        ]
      ]
