-- ===== src/Agent/LawfulCase.antt =====
-- `handle_failure` of src/unhalted/agent.py, against the ceilings and the execution bands.
use unhalted.Prelude.{
  ◌≡◌, sym, subst, Bool, true, false, Option, none, some, [], Yields, Option-cases, Bool-cases, inl,
  inr,
}
use unhalted.Clock.{Instant}
use unhalted.Policy.{Policy, IsCoherent}
use unhalted.Models.{
  Text, is_given, FailureSignal, Case, Diagnosis, ingest, case_opened, authority,
  closed_false_failure,
}
use unhalted.Ladder.{entry_rung}
use unhalted.Taxonomy.{Reasons, diagnose, needs_verification}
use unhalted.Verify.{Verifier, Verification}
use unhalted.Store.Tables.{Store, Suppression}
use unhalted.Store.Cases.{set_state, update_case, open_case_or_get}
use unhalted.Store.Trail.{latest_diagnosis, record_diagnosis}
use unhalted.Store.Queue.{cancel_pending}
use unhalted.Store.Suppressions.{contact_suppression}
use unhalted.Agent.Entry.{log}
use unhalted.Agent.Opening.{open_case_or_get-SameWork}
use unhalted.Agent.Placed.{AreLawful, cancel_pending-AreLawful}
use unhalted.Agent.LawfulReply.{cancel_pending-runs}
use unhalted.Agent.LawfulFailure.{take_up-AreLawful}
use unhalted.Agent.Failure.{
  is_held, order_or_empty, hold_unverified, close_false_failure, settle_verification, verify,
  verify_first, act_on, after_verification, work, process, handle_failure,
}

module _ (p : Policy) (k : IsCoherent p) (table : Reasons) (link : Case → Option Text) where
  abbrev Kept : Case → FailureSignal → Option Store → Type 0
  Kept c x o = Yields (λ s'. AreLawful p c.id (some x) s'.pending_actions) o

  abbrev Checked : Case → FailureSignal → Option (Bool × Store) → Type 0
  Checked c x o = Yields (λ r. AreLawful p c.id (some x) (r.1.pending_actions)) o

  act_on-AreLawful :
      (c : Case) (d : Diagnosis) (x : FailureSignal) (now : Instant) (s : Store)
      → is_given c.id ≡ true
      → AreLawful p c.id (some x) s.pending_actions
      → Kept c x (act_on p table link c d x now s)
  unfolding act_on log record_diagnosis set_state update_case
  act_on-AreLawful c d x now s g l = elim (Bool-cases (is_held (authority p d))) [
    | inl held ↦ rw (held, Yields) l
    | inr acts ↦ rw acts (take_up-AreLawful p k table link c d (entry_rung d.klass) x now _ g l)
  ]

  settle-AreLawful :
      (c : Case) (x : FailureSignal) (now : Instant) (v : Option Verification) (s : Store)
      → is_given c.id ≡ true
      → AreLawful p c.id (some x) s.pending_actions
      → Checked c x (settle_verification c now v s)
  unfolding settle_verification hold_unverified close_false_failure log set_state update_case
  settle-AreLawful c x now none s g l = l
  settle-AreLawful c x now (some v) s g l =
      let closed = set_state c.id closed_false_failure s in
      elim (Bool-cases v.already_paid) [
        | inr unpaid ↦ rw (unpaid, Yields) l
        | inl paid ↦ elim (Option-cases (cancel_pending 0 c.id (some now) closed)) [
          | inl raised ↦ absurd (cancel_pending-runs c.id now closed g raised)
          | inr ((n, s1), e) ↦
              rw (paid, Yields, e)
                (cancel_pending-AreLawful p c.id (some x) 0 c.id now n closed s1 l e)
        ]
      ]

  verify-AreLawful :
      (c : Case) (x : FailureSignal) (verifier : Option Verifier) (now : Instant) (s : Store)
      → is_given c.id ≡ true
      → AreLawful p c.id (some x) s.pending_actions
      → Checked c x (verify c x verifier now s)
  unfolding verify hold_unverified log set_state update_case
  verify-AreLawful c x none now s g l = l
  verify-AreLawful c x (some verifier) now s g l =
      settle-AreLawful c x now (verifier (order_or_empty x)) s g l

  verify_first-AreLawful :
      (c : Case) (x : FailureSignal) (verifier : Option Verifier) (now : Instant) (s : Store)
      → is_given c.id ≡ true
      → AreLawful p c.id (some x) s.pending_actions
      → Checked c x (verify_first p table link c x verifier now s)
  unfolding verify_first log
  verify_first-AreLawful c x verifier now s g l = elim (Bool-cases (needs_verification x)) [
    | inr settled ↦ rw (settled, Yields) l
    | inl needed ↦ rw needed (verify-AreLawful c x verifier now _ g l)
  ]

  after_verification-AreLawful :
      (c : Case) (x : FailureSignal) (now : Instant) (o : Option (Bool × Store))
      → is_given c.id ≡ true
      → Checked c x o
      → Kept c x (after_verification p table link c x now o)
  unfolding after_verification
  after_verification-AreLawful c x now none g l = l
  after_verification-AreLawful c x now (some (true, s)) g l = l
  after_verification-AreLawful c x now (some (false, s)) g l =
      act_on-AreLawful c (diagnose table x) x now s g l

  work-AreLawful :
      (bar : Option Suppression) (c : Case) (x : FailureSignal) (verifier : Option Verifier)
      (now : Instant) (s : Store)
      → is_given c.id ≡ true
      → AreLawful p c.id (some x) s.pending_actions
      → Kept c x (work p table link bar c x verifier now s)
  unfolding work log set_state update_case
  work-AreLawful (some bar) c x verifier now s g l = l
  work-AreLawful none c x verifier now s g l =
      after_verification-AreLawful c x now (verify_first p table link c x verifier now s) g
        (verify_first-AreLawful c x verifier now s g l)

  process-AreLawful :
      (worked : Option Diagnosis) (c : Case) (x : FailureSignal) (verifier : Option Verifier)
      (now : Instant) (s : Store)
      → is_given c.id ≡ true
      → AreLawful p c.id (some x) s.pending_actions
      → Yields
          (λ r. AreLawful p c.id (some x) (r.1.pending_actions))
          (process p table link worked c x verifier now s)
  unfolding process log
  process-AreLawful (some d) c x verifier now s g l = l
  process-AreLawful none c x verifier now s g l =
      let s1 = log c.id now ingest case_opened [] none s in
      let bar = contact_suppression c.id c.customer_ref s1 in
      let kept = work-AreLawful bar c x verifier now s1 g l in
      elim (Option-cases (work p table link bar c x verifier now s1)) [
        | inl raised ↦ absurd (rw (raised, Yields) at kept)
        | inr (s2, e) ↦ rw (Yields, e) (rw (e, Yields) at kept)
      ]

  -- In a coherent policy, a failure whose case opens, or is known, under an id that is not empty is
  -- worked without a raise, whatever the verifier, the taxonomy's data and the diagnosis say; and
  -- every retry of that case in the queue afterwards has an amount within the ceilings and an
  -- instant outside the bands of the signal's rail, if that held before.
  pub handle_failure-AreLawful :
      (fresh : Text) (x : FailureSignal) (verifier : Option Verifier) (now : Instant) (c : Case)
      (created : Bool) (s s1 : Store)
      → open_case_or_get fresh x s ≡ some (c, created, s1)
      → is_given c.id ≡ true
      → AreLawful p c.id (some x) s.pending_actions
      → Yields
          (λ r. AreLawful p c.id (some x) (r.1.pending_actions))
          (handle_failure p table link fresh x verifier now s)
  unfolding handle_failure
  handle_failure-AreLawful fresh x verifier now c created s s1 opened g l =
      let same = open_case_or_get-SameWork fresh x c created s s1 opened in
      rw (opened, Yields)
        (process-AreLawful (latest_diagnosis c.id s1) c x verifier now s1 g
          (subst (AreLawful p c.id (some x)) (sym same.0) l))
