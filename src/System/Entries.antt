-- ===== src/System/Entries.antt =====
-- The entry points of src/unhalted/agent.py and ingest/webhooks.py within a frame.
use unhalted.Prelude.{
  ℕ, ◌≡◌, refl, subst, ◌⊎◌, some, none, Option, Option-cases, Bool-cases, inl, inr,
}
use unhalted.Clock.{Instant}
use unhalted.Policy.{Policy}
use unhalted.Models.{Text, is_given, FailureSignal, Case}
use unhalted.Taxonomy.{Reasons}
use unhalted.Store.Tables.{Store}
use unhalted.Store.Cases.{get_case, open_case_or_get}
use unhalted.Store.Trail.{mark_event}
use unhalted.Store.Suppressions.{lift_suppression}
use unhalted.Agent.Failure.{handle_failure}
use unhalted.Agent.Review.{mark_recovered}
use unhalted.Agent.Frame.{Frame, KeptWith, framed-open}
use unhalted.Agent.Frame.Failure.{framed-handle_failure}
use unhalted.Agent.Frame.Stop.{framed-apply_stop}
use unhalted.Agent.Frame.Reply.{
  framed-handle_reply, framed-resume_after_review, framed-mark_recovered,
}
use unhalted.Runner.{executors, run_due}
use unhalted.Webhooks.{
  Body, malformed, unhandled, payment_failed, link_paid, Request, verify_signature, mark_if_given,
  already_seen, is_handled, handle_link_paid, handle_payment_failed, handle_event, unless_seen,
  razorpay_webhook,
}
use unhalted.System.{Step, webhook, failure, reply, stop, review, recovery, lift, pass}

-- A frame that recording an event keeps too.
module _ (F : Frame) (marks : (event id : Text) (s : Store) → F.rel s (mark_event event id s)) where
  framed-mark_if_given : (event id : Text) (s : Store) → F.rel s (mark_if_given event id s)
  unfolding mark_if_given
  framed-mark_if_given event id s = elim (Bool-cases (is_given event)) [
    | inr unnamed ↦ rw unnamed (F.stay s)
    | inl named ↦ rw named (marks event id s)
  ]

  -- what a call that returned was kept to
  returned :
      {A : Type 0} (s s' : Store) (x : A) (o : Option (A × Store))
      → KeptWith F s o
      → o ≡ some (x, s')
      → F.rel s s'
  returned s s' x none h e = absurd (cc)
  returned s s' x (some (y, s1)) h e =
      let same : s1 ≡ s' = cc in subst (λ (t : Store). F.rel s t) same h

  module _ (p : Policy) (table : Reasons) (link : Case → Option Text)
      (digest : Text → Text → Text) where
    framed-link_paid :
        (reference event : Text) (amount : ℕ) (now : Instant) (s : Store)
        → KeptWith F s (handle_link_paid p table link digest reference amount event now s)
    unfolding handle_link_paid
    framed-link_paid reference event amount now s = elim (Bool-cases (is_given reference)) [
      | inr unnamed ↦ rw (unnamed, KeptWith) (F.stay s)
      | inl named ↦ elim (Option-cases (get_case reference s)) [
        | inl unknown ↦ rw (named, unknown, KeptWith) (F.stay s)
        | inr (c, at) ↦
            let s1 = mark_if_given event c.id s in
            elim (Option-cases (mark_recovered p link c.id amount now s1)) [
              | inl raised ↦ rw (named, at, raised, KeptWith) tt
              | inr ((n, s2, out), e) ↦
                  rw (named, at, e, KeptWith)
                    (framed-mark_recovered F p link c.id amount n now out s s1 s2
                      (framed-mark_if_given event c.id s) e)
            ]
      ]
    ]

    framed-payment_failed :
        (fresh other event : Text) (x : FailureSignal) (now : Instant) (s : Store)
        → KeptWith F s (handle_payment_failed p table link digest fresh other x event now s)
    unfolding handle_payment_failed
    framed-payment_failed fresh other event x now s =
        elim (Option-cases (open_case_or_get fresh x s)) [
          | inl raised ↦ rw (raised, KeptWith) tt
          | inr ((c, created, s1), opened) ↦
              let s2 = mark_if_given event c.id s1 in
              let g =
                F.after s s1 s2 (framed-open F fresh x s c created s1 opened)
                  (framed-mark_if_given event c.id s1) in
              let worked = framed-handle_failure F p table link other x none now s2 in
              elim (Option-cases (handle_failure p table link other x none now s2)) [
                | inl raised ↦ rw (opened, raised, KeptWith) tt
                | inr ((w, s3), e) ↦
                    rw (opened, e, KeptWith) (F.after s s2 s3 g (returned s2 s3 w _ worked e))
              ]
        ]

    framed-event :
        (fresh other : Text) (r : Request) (now : Instant) (s : Store) (b : Body)
        → r.body ≡ b
        → KeptWith F s (handle_event p table link digest fresh other r now s)
    unfolding handle_event
    framed-event fresh other r now s malformed e = rw (e, KeptWith) (F.stay s)
    framed-event fresh other r now s unhandled e = rw (e, KeptWith) (F.stay s)
    framed-event fresh other r now s (payment_failed none) e = rw (e, KeptWith) (F.stay s)
    framed-event fresh other r now s (payment_failed (some x)) e =
        rw e (framed-payment_failed fresh other r.event_id x now s)
    framed-event fresh other r now s (link_paid reference amount) e =
        rw e (framed-link_paid reference r.event_id amount now s)

    framed-unless_seen :
        (seen : Option Text) (fresh other : Text) (r : Request) (now : Instant) (s : Store)
        → KeptWith F s (unless_seen p table link digest seen fresh other r now s)
    unfolding unless_seen
    framed-unless_seen none fresh other r now s = framed-event fresh other r now s r.body refl
    framed-unless_seen (some id) fresh other r now s = elim (Bool-cases (is_given id)) [
      | inl named ↦ rw (named, KeptWith) (F.stay s)
      | inr unnamed ↦ rw unnamed (framed-event fresh other r now s r.body refl)
    ]

    framed-razorpay_webhook :
        (secret fresh other : Text) (r : Request) (now : Instant) (s : Store)
        → KeptWith F s (razorpay_webhook p table link digest secret fresh other r now s)
    unfolding razorpay_webhook
    framed-razorpay_webhook secret fresh other r now s = elim (Bool-cases (is_given secret)) [
      | inr unset ↦ rw (unset, KeptWith) (F.stay s)
      | inl set ↦ elim (Bool-cases (verify_signature digest r.raw r.signature secret)) [
        | inr forged ↦ rw (set, forged, KeptWith) (F.stay s)
        | inl signed ↦ elim (Bool-cases (is_handled r.body)) [
          | inl handled ↦
              rw (set, signed, handled)
                (framed-unless_seen (already_seen r.event_id s) fresh other r now s)
          | inr other_kind ↦
              rw (set, signed, other_kind) (framed-event fresh other r now s r.body refl)
        ]
      ]
    ]

    -- a step is within the frame, or is a pass
    pub Step-cases :
        (s s' : Store)
        → Step p table link digest s s'
        → F.rel s s'
          ⊎ ((now : Instant) × (worker : Text) × (limit : ℕ) × ((run_due
                  (executors p link)
                  now
                  worker
                  limit
                  s).store
                ≡ s'))
    unfolding lift_suppression
    Step-cases s _ (webhook secret fresh other r now answer s' e) =
        inl (returned s s' answer _ (framed-razorpay_webhook secret fresh other r now s) e)
    Step-cases s _ (failure fresh x verifier now c s' e) =
        inl (returned s s' c _ (framed-handle_failure F p table link fresh x verifier now s) e)
    Step-cases s _ (reply c r now out s' e) =
        inl (returned s s' out _ (framed-handle_reply F p link c r now s) e)
    Step-cases s _ (stop code id ref now n s' e) =
        inl (returned s s' n _ (framed-apply_stop F {s = s} code id ref now (F.stay s)) e)
    Step-cases s _ (review c now) = inl (framed-resume_after_review F p link c now s)
    Step-cases s _ (recovery id amount now n sent s' e) =
        inl (framed-mark_recovered F p link id amount n now sent s s s' (F.stay s) e)
    Step-cases s _ (lift id by now) = inl (F.elsewhere s _ refl refl refl)
    Step-cases s _ (pass now worker limit) = inr (now, worker, limit, refl)
