-- ===== src/Agent/Frame/Reply.antt =====
-- A frame across the other handlers of src/unhalted/agent.py: a reply, a review and a payment.
use unhalted.Prelude.{
  ℕ, refl, ◌≡◌, Bool, true, false, Option, none, some, [], List, if◌then◌else◌, subst, arith,
  Option-cases, Bool-cases, inl, inr,
}
use unhalted.Clock.{Instant, Day, date_of, combine}
use unhalted.Policy.{Policy}
use unhalted.Models.{
  Text, FailureSignal, Case, CaseState, ParsedReply, StopCode, on_promise, after_review, reply,
  parsed, AuditAction, recovered, recovery, paid_via_recovery_link,
}
use unhalted.Stops.{rule}
use unhalted.Replies.{ReplyOutcome, decide}
use unhalted.Scheduler.{schedule_retry}
use unhalted.Notify.{Message}
use unhalted.Store.Tables.{Store}
use unhalted.Store.Cases.{get_case, set_state, first_signal}
use unhalted.Store.Trail.{is_nudge_done, latest_diagnosis}
use unhalted.Store.Queue.{cancel_pending}
use unhalted.Store.Suppressions.{contact_suppression}
use unhalted.Agent.Entry.{log, current}
use unhalted.Agent.Retry.{method_of, enact, amount_permitted}
use unhalted.Agent.Stop.{stop_on_file}
use unhalted.Agent.Reply.{
  class_of, hold_as_well, enact_stop, hold_case, suspend, place_promise, realign_in, realign,
  enact_reply, read_reply, answer, handle_reply, top_confidence,
}
use unhalted.Agent.Review.{rearm, resume_after_review, mark_recovered}
use unhalted.Agent.Frame.{
  Frame, Kept, KeptWith, framed-write, framed-set_state, framed-suspend, framed-cancel,
}
use unhalted.Agent.Frame.Stop.{framed-stop_on_file}
use unhalted.Agent.Frame.Escalation.{framed-enact, framed-amount_permitted, framed-escalate}

module _ (F : Frame) where
  framed-hold_as_well :
      {s s1 : Store} (c : Case) (code : StopCode) (out : ReplyOutcome) (now : Instant)
      → F.rel s s1
      → F.rel s (hold_as_well c code out now s1)
  unfolding hold_as_well log
  framed-hold_as_well c code out now h = elim (Bool-cases out.needs_human) [
    | inr alone ↦ rw alone h
    | inl needed ↦ elim (Option-cases (rule code).terminal_state) [
      | inl open_ended ↦
          rw (needed, open_ended)
            (framed-write F _ (framed-set_state F c.id CaseState.held_for_human h) refl)
      | inr (state, e) ↦ rw (needed, e) h
    ]
  ]

  framed-enact_stop :
      {s s1 : Store} (c : Case) (code : StopCode) (out : ReplyOutcome) (now : Instant)
      → F.rel s s1
      → Kept F s (enact_stop c code out now s1)
  unfolding enact_stop
  framed-enact_stop {s1} c code out now h =
      let kept = framed-stop_on_file F code c.id c.customer_ref now h in
      elim (Option-cases (stop_on_file code c.id c.customer_ref now s1)) [
        | inl raised ↦ rw (Kept, raised) tt
        | inr ((n, s2), e) ↦
            rw (Kept, e) (framed-hold_as_well c code out now (rw (e, KeptWith) at kept))
      ]

  framed-hold_case :
      {s s1 : Store} (c : Case) (now : Instant) → F.rel s s1 → Kept F s (hold_case c now s1)
  unfolding hold_case log
  framed-hold_case {s1} c now h = elim (Option-cases (cancel_pending 0 c.id (some now) s1)) [
    | inl raised ↦ rw (Kept, raised) tt
    | inr ((n, s2), e) ↦
        rw (Kept, e)
          (framed-write F _
            (framed-set_state F c.id CaseState.held_for_human
              (framed-cancel F 0 c.id (some now) n h e))
            refl)
  ]

  framed-suspended :
      {s s1 : Store} (c : Case) (until : Option Day) → F.rel s s1 → F.rel s (suspend c until s1)
  unfolding suspend
  framed-suspended c none h = h
  framed-suspended c (some until) h = framed-suspend F c.id (some until) h

  module _ (p : Policy) (link : Case → Option Text) where
    framed-place_promise :
        {s s1 : Store} (c : Case) (promised : Day) (until : Option Day) (x : Option FailureSignal)
        (now : Instant)
        → F.rel s s1
        → F.rel s (place_promise p link c promised until x now s1)
    unfolding place_promise
    framed-place_promise {s1} c promised until x now h =
        let d =
          schedule_retry p (combine promised p.contact_open) c.retry_count (some now)
            (method_of x) in
        let s2 = suspend c until (enact p c d on_promise [] now s1) in
        let kept = framed-suspended c until (framed-enact F p c d on_promise [] now h) in
        elim (Bool-cases d.accepted) [
          | inl accepted ↦ rw accepted kept
          | inr refused ↦ rw refused (
              framed-escalate F p link (current c s2) (class_of (latest_diagnosis c.id s2)) now
                kept)
        ]

    framed-realign_in :
        {s s1 : Store} (c : Case) (promised : Day) (until : Option Day) (now : Instant)
        → F.rel s s1
        → F.rel s (realign_in p link c promised until now s1)
    unfolding realign_in
    framed-realign_in {s1} c promised until now h =
        let x = first_signal c.id s1 in
        let kept = framed-amount_permitted F p c x on_promise now h in
        elim (Bool-cases (amount_permitted p c x on_promise now s1).0) [
          | inl allowed ↦ rw allowed (framed-place_promise c promised until x now kept)
          | inr over ↦ rw over (framed-suspended c until kept)
        ]

    framed-enact_reply :
        {s s1 : Store} (c : Case) (out : ReplyOutcome) (now : Instant)
        → F.rel s s1
        → Kept F s (enact_reply p link c out now s1)
    unfolding enact_reply realign
    framed-enact_reply {s1} c out now h = elim (Option-cases out.stop_code) [
      | inr (code, stops) ↦ rw stops (framed-enact_stop c code out now h)
      | inl goes_on ↦ elim (Bool-cases out.needs_human) [
        | inl needed ↦ rw (goes_on, needed) (framed-hold_case c now h)
        | inr alone ↦ elim (Option-cases out.realign_to) [
          | inl stays ↦ rw (goes_on, alone, stays, Kept) h
          | inr (promised, moves) ↦ elim (Option-cases (cancel_pending 0 c.id (some now) s1)) [
            | inl raised ↦ rw (goes_on, alone, moves, Kept, raised) tt
            | inr ((n, s2), e) ↦
                rw (goes_on, alone, moves, Kept, e)
                  (framed-realign_in c promised out.suspend_nudges_until now
                    (framed-cancel F 0 c.id (some now) n h e))
          ]
        ]
      ]
    ]

    quiet-parsed :
        (b : Bool) → is_nudge_done (if b then AuditAction.parse_failed else parsed) ≡ false
    quiet-parsed true = refl
    quiet-parsed false = refl

    framed-read_reply :
        (s : Store) (c : Case) (r : ParsedReply) (now : Instant)
        → KeptWith F s (read_reply p link c r now s)
    unfolding read_reply log
    framed-read_reply s c r now =
        let out = decide p r (date_of now) none in
        let s1 =
          log c.id now reply (if r.failed then AuditAction.parse_failed else parsed) out.rules_fired
            (top_confidence r.intents) s in
        let noted : F.rel s s1 = framed-write F _ (F.stay s) (quiet-parsed r.failed) in
        let kept = framed-enact_reply c out now noted in
        elim (Option-cases (enact_reply p link c out now s1)) [
          | inl raised ↦ rw (KeptWith, raised) tt
          | inr (s2, e) ↦ rw (KeptWith, e) (rw (e, Kept) at kept)
        ]

    pub framed-handle_reply :
        (c : Case) (r : ParsedReply) (now : Instant) (s : Store)
        → KeptWith F s (handle_reply p link c r now s)
    unfolding handle_reply answer log
    framed-handle_reply c r now s =
        elim (Option-cases (contact_suppression c.id c.customer_ref s)) [
          | inl free ↦ rw (KeptWith, free) (framed-read_reply s c r now)
          | inr (bar, e) ↦ rw (KeptWith, e) (framed-write F _ (F.stay s) refl)
        ]

    pub framed-resume_after_review :
        (c : Case) (now : Instant) (s : Store) → F.rel s (resume_after_review p link c now s).1
    unfolding resume_after_review rearm
    framed-resume_after_review c now s =
        let x = first_signal c.id s in
        let (ok, s1) = amount_permitted p c x after_review now s in
        let d = schedule_retry p now c.retry_count (some now) (method_of x) in
        let kept = framed-amount_permitted F p c x after_review now (F.stay s) in
        let armed = framed-enact F p c d after_review [] now kept in
        let s2 = enact p c d after_review [] now s1 in
        elim (Bool-cases ok) [
          | inr over ↦ rw over kept
          | inl allowed ↦ elim (Bool-cases d.accepted) [
            | inl accepted ↦ rw (allowed, accepted) armed
            | inr refused ↦
                rw (allowed, refused)
                  (framed-escalate F p link c (class_of (latest_diagnosis c.id s2)) now armed)
          ]
        ]

    -- The messages are a third part of the answer, so the store is named.
    pub framed-mark_recovered :
        (id : Text) (amount n : ℕ) (now : Instant) (sent : List Message) (s s1 s' : Store)
        → F.rel s s1
        → mark_recovered p link id amount now s1 ≡ some (n, s', sent)
        → F.rel s s'
    unfolding mark_recovered log
    framed-mark_recovered id amount n now sent s s1 s' h e = elim (Option-cases (get_case id s1)) [
      | inl missing ↦ absurd (ground (arith, missing, e))
      | inr (c, on_file) ↦ elim (Option-cases (cancel_pending 0 id (some now) s1)) [
        | inl raised ↦ absurd (ground (arith, on_file, raised, e))
        | inr ((m, s2), at) ↦
            let kept : F.rel s
                (log id now recovery paid_via_recovery_link [] none (set_state id recovered s2)) =
              framed-write F _
                (framed-set_state F id recovered (framed-cancel F 0 id (some now) m h at)) refl in
            subst (λ (t : Store). F.rel s t) (ground (arith, on_file, at, e)) kept
      ]
    ]
