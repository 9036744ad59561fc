-- ===== src/Agent/Idle.antt =====
-- The cases in which a handler of src/unhalted/agent.py waits: a standing stop, a signal that was
-- worked before, and an order of which it is unknown whether it is paid.
use unhalted.Prelude.{
  ◌≡◌, refl, ◌∙◌, Bool, true, Option, none, some, Yields, Option-cases, inl, inr, ◌∷◌, [],
}
use unhalted.Clock.{Instant}
use unhalted.Policy.{Policy}
use unhalted.Models.{
  Text, FailureSignal, Diagnosis, Case, ParsedReply, DecisionType, ingest, case_opened,
  check_before_deciding, verify_before_retry,
}
use unhalted.Verify.{Verifier, Verification}
use unhalted.Taxonomy.{Reasons, needs_verification}
use unhalted.Store.Tables.{Store, Suppression}
use unhalted.Store.Cases.{set_state, update_case, case_for_payment, open_case_or_get}
use unhalted.Store.Trail.{latest_diagnosis}
use unhalted.Store.Suppressions.{contact_suppression}
use unhalted.Agent.Entry.{log}
use unhalted.Agent.Opening.{open_case_or_get-SameWork}
use unhalted.Agent.Failure.{
  order_or_empty, hold_unverified, verify, verify_first, settle_verification, after_verification,
  work, process, handle_failure,
}
use unhalted.Agent.Reply.{answer, handle_reply}

abbrev pub SameQueue : Store → Store → Type 0
SameQueue s s' = s'.pending_actions ≡ s.pending_actions

-- what the verifier that is configured says of an order
abbrev pub verified : Option Verifier → Text → Option Verification
verified none order = none
verified (some verifier) order = verifier order

-- a queue that was kept since is as it was before
same_queue :
    {A : Type 0} (s s1 : Store)
    → SameQueue s s1
    → (o : Option (A × Store)) → Yields (λ r. SameQueue s1 (r.1)) o
    → Yields (λ r. SameQueue s (r.1)) o
same_queue s s1 same none h = h
same_queue s s1 same (some r) h = h ∙ same

contact_suppression-same :
    (id ref : Text) (s s' : Store)
    → s'.contact_suppressions ≡ s.contact_suppressions
    → contact_suppression id ref s' ≡ contact_suppression id ref s
unfolding contact_suppression
contact_suppression-same id ref s s' e = rw e refl

verify-unknown :
    (c : Case) (signal : FailureSignal) (verifier : Option Verifier) (now : Instant) (s : Store)
    → verified verifier (order_or_empty signal) ≡ none
    → verify c signal verifier now s ≡ some (true, hold_unverified c now s)
unfolding verify settle_verification
verify-unknown c signal none now s e = refl
verify-unknown c signal (some verifier) now s e = rw e refl

module _ (p : Policy) (table : Reasons) (link : Case → Option Text) where
  -- whatever was decided before the stop is asked about, a standing stop schedules nothing
  process-suppressed :
      (worked : Option Diagnosis) (bar : Suppression) (c : Case) (signal : FailureSignal)
      (verifier : Option Verifier) (now : Instant) (s : Store)
      → contact_suppression c.id c.customer_ref s ≡ some bar
      → Yields (λ r. SameQueue s (r.1)) (process p table link worked c signal verifier now s)
  unfolding process work log set_state update_case contact_suppression
  process-suppressed (some d) bar c signal verifier now s e = refl
  process-suppressed none bar c signal verifier now s e = rw (e, Yields) refl

  -- A failure whose case opens, or is known, while a suppression of the case or its customer stands
  -- is taken in without a raise, and the queue stays as it was.
  handle_failure_suppressed :
      (fresh : Text) (signal : FailureSignal) (verifier : Option Verifier) (now : Instant)
      (c : Case) (created : Bool) (s s1 : Store) (bar : Suppression)
      → open_case_or_get fresh signal s ≡ some (c, created, s1)
      → contact_suppression c.id c.customer_ref s ≡ some bar
      → Yields (λ r. SameQueue s (r.1)) (handle_failure p table link fresh signal verifier now s)
  unfolding handle_failure
  handle_failure_suppressed fresh signal verifier now c created s s1 bar opened standing =
      let same = open_case_or_get-SameWork fresh signal c created s s1 opened in
      let stands : contact_suppression c.id c.customer_ref s1 ≡ some bar =
        contact_suppression-same c.id c.customer_ref s s1 same.1 ∙ standing in
      rw (opened, Yields)
        (same_queue s s1 same.0
          (process p table link (latest_diagnosis c.id s1) c signal verifier now s1)
          (process-suppressed (latest_diagnosis c.id s1) bar c signal verifier now s1 stands))

  -- A failure whose payment has a case that was diagnosed is handled without a raise: that case is
  -- returned, whatever else the signal says, and no table changes but the audit trail.
  pub handle_failure_again :
      (fresh : Text) (signal : FailureSignal) (verifier : Option Verifier) (now : Instant)
      (c : Case) (d : Diagnosis) (s : Store)
      → case_for_payment signal.payment_id s ≡ some c
      → latest_diagnosis c.id s ≡ some d
      → Yields
          (λ r.
            (r.0 ≡ c)
            × SameQueue s (r.1)
            × (r.1.cases ≡ s.cases)
            × (r.1.signals ≡ s.signals)
            × (r.1.diagnoses ≡ s.diagnoses)
            × (r.1.contact_suppressions ≡ s.contact_suppressions)
            × (r.1.processed_events ≡ s.processed_events))
          (handle_failure p table link fresh signal verifier now s)
  unfolding handle_failure open_case_or_get process log
  handle_failure_again fresh signal verifier now c d s known worked =
      rw (known, worked, Yields) (refl, refl, refl, refl, refl, refl, refl)

  process-unverified :
      (worked : Option Diagnosis) (c : Case) (signal : FailureSignal) (verifier : Option Verifier)
      (now : Instant) (s : Store)
      → needs_verification signal ≡ true
      → verified verifier (order_or_empty signal) ≡ none
      → Yields (λ r. SameQueue s (r.1)) (process p table link worked c signal verifier now s)
  unfolding process work log set_state update_case verify_first hold_unverified after_verification
  process-unverified (some d) c signal verifier now s needed unknown = refl
  process-unverified none c signal verifier now s needed unknown =
      let s1 = log c.id now ingest case_opened [] none s in
      elim (Option-cases (contact_suppression c.id c.customer_ref s1)) [
        | inr (bar, stands) ↦ rw (stands, Yields) refl
        | inl free ↦
            rw
              (
                free,
                Yields,
                needed,
                verify-unknown c signal verifier now
                    (log c.id now DecisionType.verification check_before_deciding
                      (verify_before_retry ∷ []) none s1)
                    unknown,
              )
              refl
      ]

  -- A failure whose case opens and which needs a check before it is decided (it has an order and an
  -- unsettled reason) is taken in without a raise and changes nothing in the queue while the check
  -- cannot be performed: with no verifier, or with one that is unavailable.
  pub handle_failure_unverified :
      (fresh : Text) (signal : FailureSignal) (verifier : Option Verifier) (now : Instant)
      (c : Case) (created : Bool) (s s1 : Store)
      → open_case_or_get fresh signal s ≡ some (c, created, s1)
      → needs_verification signal ≡ true
      → verified verifier (order_or_empty signal) ≡ none
      → Yields (λ r. SameQueue s (r.1)) (handle_failure p table link fresh signal verifier now s)
  unfolding handle_failure
  handle_failure_unverified fresh signal verifier now c created s s1 opened needed unknown =
      let same = open_case_or_get-SameWork fresh signal c created s s1 opened in
      rw (opened, Yields)
        (same_queue s s1 same.0
          (process p table link (latest_diagnosis c.id s1) c signal verifier now s1)
          (process-unverified (latest_diagnosis c.id s1) c signal verifier now s1 needed unknown))

module _ (p : Policy) (link : Case → Option Text) where
  -- A reply on a case under a standing suppression is handled without a raise and goes to a person,
  -- whatever it says; the queue, the cases and the suppressions stay as they were.
  pub handle_reply_suppressed :
      (c : Case) (r : ParsedReply) (now : Instant) (s : Store) (bar : Suppression)
      → contact_suppression c.id c.customer_ref s ≡ some bar
      → Yields
          (λ x.
            (x.0.needs_human ≡ true)
            × SameQueue s (x.1)
            × (x.1.cases ≡ s.cases)
            × (x.1.contact_suppressions ≡ s.contact_suppressions))
          (handle_reply p link c r now s)
  unfolding handle_reply answer log
  handle_reply_suppressed c r now s bar standing = rw standing (refl, refl, refl, refl)
