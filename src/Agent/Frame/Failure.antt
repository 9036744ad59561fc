-- ===== src/Agent/Frame/Failure.antt =====
-- A frame across `handle_failure` of src/unhalted/agent.py.
use unhalted.Prelude.{
  ◌+◌, refl, Bool, true, false, Option, none, some, [], ◌∷◌, Option-cases, Bool-cases, inl, inr,
}
use unhalted.Clock.{Instant, Duration}
use unhalted.Policy.{Policy}
use unhalted.Models.{
  Text, FailureSignal, Case, Diagnosis, DiagnosisClass, Rung, on_failure, as_fallback,
  awaiting_reply, unrecovered, authority, ingest, case_opened,
}
use unhalted.Taxonomy.{Reasons, diagnose}
use unhalted.Verify.{Verifier}
use unhalted.Ladder.{LadderDecision, evaluate, entry_rung}
use unhalted.Scheduler.{backoff_for, schedule_retry}
use unhalted.Store.Tables.{Store, Suppression}
use unhalted.Store.Cases.{set_state, open_case_or_get}
use unhalted.Store.Trail.{latest_diagnosis}
use unhalted.Store.Queue.{cancel_pending}
use unhalted.Store.Suppressions.{contact_suppression}
use unhalted.Agent.Entry.{log}
use unhalted.Agent.Retry.{
  amount_permitted, fallback_decision, fallback_after, schedule_balance_fallback,
}
use unhalted.Agent.Failure.{
  is_balance, is_silent, is_held, enact_retry, retry_if, first_retry, first_contact, enter_rung,
  terminate, take_up, act_on, after_verification, verify_first, work, process, handle_failure,
}
use unhalted.Agent.Frame.{
  Frame, Kept, KeptWith, framed-write, framed-set_state, framed-schedule, framed-record_diagnosis,
  framed-cancel, framed-open,
}
use unhalted.Agent.Frame.Verification.{framed-verify_first}
use unhalted.Agent.Frame.Escalation.{framed-enact, framed-amount_permitted, framed-escalate}

module _ (F : Frame) where
  module _ (p : Policy) where
    framed-fallback_after :
        {s : Store} (c : Case) (x : FailureSignal) (now : Instant) (asked : Bool × Store)
        (wait : Option Duration)
        → F.rel s (asked.1)
        → Kept F s (fallback_after p c x now asked wait)
    unfolding fallback_after
    framed-fallback_after c x now (false, s1) wait h = h
    framed-fallback_after c x now (true, s1) none h = tt
    framed-fallback_after c x now (true, s1) (some wait) h =
        framed-enact F p c (fallback_decision p c x wait now) as_fallback (awaiting_reply ∷ []) now
          h

    framed-fallback :
        {s s1 : Store} (c : Case) (d : Diagnosis) (x : FailureSignal) (now : Instant)
        → F.rel s s1
        → Kept F s (schedule_balance_fallback p c d x now s1)
    unfolding schedule_balance_fallback
    framed-fallback {s1} c d x now h =
        framed-fallback_after c x now (amount_permitted p c (some x) as_fallback now s1)
          (backoff_for p (some d.klass) c.retry_count)
          (framed-amount_permitted F p c (some x) as_fallback now h)

    module _ (table : Reasons) (link : Case → Option Text) where
      framed-enact_retry :
          {s s1 : Store} (c : Case) (klass : DiagnosisClass) (x : FailureSignal) (now : Instant)
          (wait : Option Duration)
          → F.rel s s1
          → Kept F s (enact_retry p table link c klass x now s1 wait)
      unfolding enact_retry
      framed-enact_retry c klass x now none h = tt
      framed-enact_retry c klass x now (some wait) h =
          let d = schedule_retry p (now + wait) c.retry_count (some now) x.method in
          let kept = framed-enact F p c d on_failure [] now h in
          elim (Bool-cases d.accepted) [
            | inl accepted ↦ rw accepted kept
            | inr refused ↦ rw refused (framed-escalate F p link c (some klass) now kept)
          ]

      framed-retry_if :
          {s : Store} (c : Case) (d : Diagnosis) (x : FailureSignal) (now : Instant)
          (asked : Bool × Store)
          → F.rel s (asked.1)
          → Kept F s (retry_if p table link c d x now asked)
      unfolding retry_if
      framed-retry_if c d x now (false, s1) h = h
      framed-retry_if c d x now (true, s1) h =
          framed-enact_retry c d.klass x now (backoff_for p (some d.klass) c.retry_count) h

      framed-enter_rung :
          {s s1 : Store} (c : Case) (d : Diagnosis) (rung : Rung) (x : FailureSignal)
          (now : Instant)
          → F.rel s s1
          → Kept F s (enter_rung p table link c d rung x now s1)
      unfolding enter_rung first_retry first_contact
      framed-enter_rung {s1} c d rung x now h = elim (Bool-cases (is_silent rung)) [
        | inl silent ↦ rw silent (
            framed-retry_if c d x now (amount_permitted p c (some x) on_failure now s1)
              (framed-amount_permitted F p c (some x) on_failure now h))
        | inr contact ↦ elim (Bool-cases (is_balance d.klass)) [
          | inl balance ↦
              rw (contact, balance) (framed-fallback c d x now (framed-schedule F _ _ _ _ _ h))
          | inr other ↦ rw (contact, other, Kept) (framed-schedule F _ _ _ _ _ h)
        ]
      ]

      framed-terminate :
          {s s1 : Store} (c : Case) (rung : Rung) (economics : LadderDecision) (now : Instant)
          → F.rel s s1
          → Kept F s (terminate p table link c rung economics now s1)
      unfolding terminate log
      framed-terminate {s1} c rung economics now h =
          elim (Option-cases (cancel_pending 0 c.id (some now) (set_state c.id unrecovered s1))) [
            | inl raised ↦ rw (Kept, raised) tt
            | inr ((n, s2), e) ↦
                rw (Kept, e)
                  (framed-write F _
                    (framed-cancel F 0 c.id (some now) n (framed-set_state F c.id unrecovered h) e)
                    refl)
          ]

      framed-take_up :
          {s s1 : Store} (c : Case) (d : Diagnosis) (rung : Option Rung) (x : FailureSignal)
          (now : Instant)
          → F.rel s s1
          → Kept F s (take_up p table link c d rung x now s1)
      unfolding take_up log
      framed-take_up c d none x now h = framed-write F _ h refl
      framed-take_up c d (some rung) x now h =
          let economics = evaluate p rung c.amount_paise none [] none in
          elim (Bool-cases economics.approved) [
            | inl worth ↦ rw worth (framed-enter_rung c d rung x now (framed-write F _ h refl))
            | inr not_worth ↦
                rw not_worth (framed-terminate c rung (record economics { approved = false }) now h)
          ]

      framed-act_on :
          {s s1 : Store} (c : Case) (d : Diagnosis) (x : FailureSignal) (now : Instant)
          → F.rel s s1
          → Kept F s (act_on p table link c d x now s1)
      unfolding act_on log
      framed-act_on c d x now h =
          let noted = framed-write F _ (framed-record_diagnosis F c.id d h) refl in
          elim (Bool-cases (is_held (authority p d))) [
            | inl held ↦ rw (held, Kept) (framed-write F _ (framed-set_state F _ _ noted) refl)
            | inr acts ↦ rw acts (framed-take_up c d (entry_rung d.klass) x now noted)
          ]

      framed-after :
          (s : Store) (c : Case) (x : FailureSignal) (now : Instant) (o : Option (Bool × Store))
          → KeptWith F s o
          → Kept F s (after_verification p table link c x now o)
      unfolding after_verification
      framed-after s c x now none h = tt
      framed-after s c x now (some (true, s1)) h = h
      framed-after s c x now (some (false, s1)) h = framed-act_on c (diagnose table x) x now h

      framed-work :
          {s s1 : Store} (bar : Option Suppression) (c : Case) (x : FailureSignal)
          (verifier : Option Verifier) (now : Instant)
          → F.rel s s1
          → Kept F s (work p table link bar c x verifier now s1)
      unfolding work log
      framed-work (some bar) c x verifier now h = framed-write F _ (framed-set_state F _ _ h) refl
      framed-work {s1} none c x verifier now h =
          framed-after _ c x now (verify_first p table link c x verifier now s1)
            (framed-verify_first F p table link c x verifier now h)

      pub framed-process :
          {s s1 : Store} (worked : Option Diagnosis) (c : Case) (x : FailureSignal)
          (verifier : Option Verifier) (now : Instant)
          → F.rel s s1
          → KeptWith F s (process p table link worked c x verifier now s1)
      unfolding process log
      framed-process (some d) c x verifier now h = framed-write F _ h refl
      framed-process {s} {s1} none c x verifier now h =
          let s2 = log c.id now ingest case_opened [] none s1 in
          let bar = contact_suppression c.id c.customer_ref s2 in
          let opened : F.rel s s2 = framed-write F _ h refl in
          let kept = framed-work bar c x verifier now opened in
          elim (Option-cases (work p table link bar c x verifier now s2)) [
            | inl raised ↦ rw (KeptWith, raised) tt
            | inr (s3, e) ↦ rw (KeptWith, e) (rw (e, Kept) at kept)
          ]

      pub framed-handle_failure :
          (fresh : Text) (x : FailureSignal) (verifier : Option Verifier) (now : Instant)
          (s : Store)
          → KeptWith F s (handle_failure p table link fresh x verifier now s)
      unfolding handle_failure
      framed-handle_failure fresh x verifier now s =
          elim (Option-cases (open_case_or_get fresh x s)) [
            | inl raised ↦ rw (raised, KeptWith) tt
            | inr ((c, created, s1), e) ↦
                rw (KeptWith, e)
                  (framed-process (latest_diagnosis c.id s1) c x verifier now
                    (framed-open F fresh x s c created s1 e))
          ]
