-- ===== src/Agent/Frame/Verification.antt =====
-- A frame across `_verify` of src/unhalted/agent.py.
use unhalted.Prelude.{refl, Option, none, some, Option-cases, Bool-cases, inl, inr}
use unhalted.Clock.{Instant}
use unhalted.Policy.{Policy}
use unhalted.Models.{Text, FailureSignal, Case, closed_false_failure}
use unhalted.Taxonomy.{Reasons, needs_verification}
use unhalted.Verify.{Verifier, Verification}
use unhalted.Store.Tables.{Store}
use unhalted.Store.Cases.{set_state}
use unhalted.Store.Queue.{cancel_pending}
use unhalted.Agent.Entry.{log}
use unhalted.Agent.Failure.{
  order_or_empty, hold_unverified, close_false_failure, settle_verification, verify, verify_first,
}
use unhalted.Agent.Frame.{Frame, KeptWith, framed-write, framed-set_state, framed-cancel}

module _ (F : Frame) where
  framed-hold_unverified :
      {s s1 : Store} (c : Case) (now : Instant) → F.rel s s1 → F.rel s (hold_unverified c now s1)
  unfolding hold_unverified log
  framed-hold_unverified c now h = framed-write F _ (framed-set_state F _ _ h) refl

  framed-settle :
      {s s1 : Store} (c : Case) (now : Instant) (v : Option Verification)
      → F.rel s s1
      → KeptWith F s (settle_verification c now v s1)
  unfolding settle_verification close_false_failure log
  framed-settle c now none h = framed-hold_unverified c now h
  framed-settle {s1} c now (some v) h =
      let closed = set_state c.id closed_false_failure s1 in
      elim (Bool-cases v.already_paid) [
        | inr unpaid ↦ rw (unpaid, KeptWith) (framed-write F _ h refl)
        | inl paid ↦ elim (Option-cases (cancel_pending 0 c.id (some now) closed)) [
          | inl raised ↦ rw (paid, KeptWith, raised) tt
          | inr ((n, s2), e) ↦
              rw (paid, KeptWith, e)
                (framed-write F _
                  (framed-cancel F 0 c.id (some now) n
                    (framed-set_state F c.id closed_false_failure h) e)
                  refl)
        ]
      ]

  module _ (p : Policy) (table : Reasons) (link : Case → Option Text) where
    pub framed-verify_first :
        {s s1 : Store} (c : Case) (x : FailureSignal) (verifier : Option Verifier) (now : Instant)
        → F.rel s s1
        → KeptWith F s (verify_first p table link c x verifier now s1)
    unfolding verify_first verify log
    framed-verify_first c x none now h = elim (Bool-cases (needs_verification x)) [
      | inr settled ↦ rw (settled, KeptWith) h
      | inl needed ↦ rw (needed, KeptWith) (framed-hold_unverified c now (framed-write F _ h refl))
    ]
    framed-verify_first c x (some verifier) now h = elim (Bool-cases (needs_verification x)) [
      | inr settled ↦ rw (settled, KeptWith) h
      | inl needed ↦
          rw needed (framed-settle c now (verifier (order_or_empty x)) (framed-write F _ h refl))
    ]
