-- ===== src/Agent/LawfulReply.antt =====
-- `handle_reply` and `resume_after_review` of src/unhalted/agent.py, against the ceilings and the
-- execution bands.
use unhalted.Prelude.{
  ◌≡◌, ◌≢◌, sym, subst, ◌∙◌, true, Option, none, some, [], arith, Yields, Yields-runs, Option-cases,
  Bool-cases, inl, inr, if◌then◌else◌,
}
use unhalted.Clock.{Instant, date_of}
use unhalted.Policy.{Policy, IsCoherent}
use unhalted.Models.{
  Text, is_given, Case, ParsedReply, StopCode, AuditAction, parsed, reply, after_review,
}
use unhalted.Scheduler.{schedule_retry}
use unhalted.Replies.{ReplyOutcome, decide}
use unhalted.Store.Tables.{Store}
use unhalted.Store.Cases.{first_signal}
use unhalted.Store.Trail.{latest_diagnosis}
use unhalted.Store.Queue.{cancel_pending}
use unhalted.Store.Suppressions.{contact_suppression}
use unhalted.Agent.Entry.{log}
use unhalted.Agent.Retry.{method_of, amount_permitted, enact}
use unhalted.Agent.Stop.{stop_on_file}
use unhalted.Agent.Quiet.{cancel_pending-by_case, stop_on_file-IsQuiet}
use unhalted.Agent.Placed.{AreLawful, enact-AreLawful, escalate_after_cap-AreLawful}
use unhalted.Agent.Lawful.{permitted-is_payable, permitted-queue, enact_reply-AreLawful}
use unhalted.Agent.Reply.{
  class_of, top_confidence, enact_stop, hold_case, realign, enact_reply, read_reply, answer,
  handle_reply,
}
use unhalted.Agent.Review.{rearm, resume_after_review}

pub cancel_pending-runs :
    (id : Text) (now : Instant) (s : Store)
    → is_given id ≡ true
    → cancel_pending 0 id (some now) s ≢ none
cancel_pending-runs id now s g =
    Yields-runs _ (cancel_pending 0 id (some now) s) (cancel_pending-by_case id 0 now s g)

pub stop_on_file-runs :
    (code : StopCode) (id ref : Text) (now : Instant) (s : Store)
    → is_given id ≡ true
    → is_given ref ≡ true
    → stop_on_file code id ref now s ≢ none
stop_on_file-runs code id ref now s g h =
    Yields-runs _ (stop_on_file code id ref now s) (stop_on_file-IsQuiet code id ref now s g h)

module _ (p : Policy) (link : Case → Option Text) where
  enact_reply-runs :
      (c : Case) (out : ReplyOutcome) (now : Instant) (s : Store)
      → is_given c.id ≡ true
      → is_given c.customer_ref ≡ true
      → enact_reply p link c out now s ≢ none
  unfolding enact_reply enact_stop hold_case realign
  enact_reply-runs c out now s g h e =
      let cancel = cancel_pending-runs c.id now s g in
      elim (Option-cases out.stop_code) [
        | inr (code, at) ↦
            stop_on_file-runs code c.id c.customer_ref now s g h (ground (arith, at, e))
        | inl no_stop ↦ elim (Bool-cases out.needs_human) [
          | inl human ↦ cancel (ground (arith, no_stop, human, e))
          | inr automatic ↦ elim (Option-cases out.realign_to) [
            | inl stays ↦ ground (arith, no_stop, automatic, stays, e)
            | inr (promised, at) ↦ cancel (ground (arith, no_stop, automatic, at, e))
          ]
        ]
      ]

  -- In a coherent policy, a reply on a case that has an id and a customer is handled without a
  -- raise, and every retry of the case in the queue afterwards has, by the first signal on file, an
  -- amount within the ceilings and an instant outside the bands, if that held before.
  pub handle_reply-AreLawful :
      IsCoherent p
      → (c : Case) (r : ParsedReply) (now : Instant) (s : Store) → is_given c.id ≡ true
      → is_given c.customer_ref ≡ true
      → AreLawful p c.id (first_signal c.id s) s.pending_actions
      → Yields
          (λ x. AreLawful p c.id (first_signal c.id s) (x.1.pending_actions))
          (handle_reply p link c r now s)
  unfolding handle_reply answer read_reply log first_signal
  handle_reply-AreLawful k c r now s g h l =
      let out = decide p r (date_of now) none in
      let s1 =
        log c.id now reply (if r.failed then AuditAction.parse_failed else parsed) out.rules_fired
          (top_confidence r.intents) s in
      elim (Option-cases (contact_suppression c.id c.customer_ref s)) [
        | inr (bar, stands) ↦ rw (stands, Yields) l
        | inl free ↦ elim (Option-cases (enact_reply p link c out now s1)) [
          | inl raised ↦ absurd (enact_reply-runs c out now s1 g h raised)
          | inr (s2, e) ↦
              let l2 = enact_reply-AreLawful p link k c out now s1 s2 l e in rw (free, Yields, e) l2
        ]
      ]

  -- In a coherent policy, after a review that clears a case every retry of the case in the queue
  -- has, by the first signal on file, an amount within the ceilings and an instant outside the
  -- bands, if that held before.
  pub resume_after_review-AreLawful :
      IsCoherent p
      → (c : Case) (now : Instant) (s : Store)
      → AreLawful p c.id (first_signal c.id s) s.pending_actions
      → AreLawful p c.id
          (first_signal c.id s)
          (resume_after_review p link c now s).1.pending_actions
  unfolding resume_after_review rearm
  resume_after_review-AreLawful k c now s l =
      let signal = first_signal c.id s in
      let asked = amount_permitted p c signal after_review now s in
      let says = permitted-is_payable p c signal after_review now s in
      let l1 : AreLawful p c.id signal asked.1.pending_actions =
        subst (AreLawful p c.id signal) (sym (permitted-queue p c signal after_review now s)) l in
      let d = schedule_retry p now c.retry_count (some now) (method_of signal) in
      elim (Bool-cases asked.0) [
        | inr over ↦ rw over l1
        | inl ok ↦
            let s2 = enact p c d after_review [] now asked.1 in
            let l2 =
              enact-AreLawful p k c signal now c.retry_count now after_review [] asked.1 l1
                (sym says ∙ ok) in
            elim (Bool-cases d.accepted) [
              | inl accepted ↦ rw (ok, accepted) l2
              | inr refused ↦
                  rw (ok, refused)
                    (escalate_after_cap-AreLawful p link c.id signal c
                      (class_of (latest_diagnosis c.id s2)) now s2 l2)
            ]
      ]
