-- ===== src/Webhooks/Delivery.antt =====
-- `razorpay_webhook` of src/unhalted/ingest/webhooks.py: an event that is delivered again.
use unhalted.Prelude.{
  ◌≡◌, refl, sym, ap, subst, ◌∙◌, true, false, Option, none, some, List, [], ◌∷◌, any, first,
  first-append, first-holds, arith, Option-cases, Bool-cases, inl, inr,
}
use unhalted.Clock.{Instant}
use unhalted.Policy.{Policy}
use unhalted.Models.{Text, is_given, FailureSignal, Case, CaseState, Diagnosis, ingest, case_opened}
use unhalted.Taxonomy.{Reasons}
use unhalted.Verify.{Verifier}
use unhalted.Store.Tables.{Store, ProcessedEvent}
use unhalted.Store.Cases.{has_id, get_case, case_for_payment, open_case_or_get}
use unhalted.Store.Trail.{is_event, event_seen, mark_event, latest_diagnosis}
use unhalted.Store.Suppressions.{contact_suppression}
use unhalted.Store.Payments.{==_refl, open_case_or_get-found}
use unhalted.Agent.Entry.{log, current}
use unhalted.Agent.Failure.{work, process, handle_failure}
use unhalted.Agent.Frame.{KeptWith, framed-open}
use unhalted.Agent.Frame.Failure.{framed-process}
use unhalted.Webhooks.Events.{SameEvents, events_frame}
use unhalted.Webhooks.{
  payment_failed, Request, accepted, duplicate, verify_signature, mark_if_given, already_seen,
  handle_payment_failed, handle_event, unless_seen, is_handled, razorpay_webhook,
}

-- the row found under an id has that id
id-current : (c : Case) (s : Store) → (current c s).id ≡ c.id
unfolding current get_case
id-current c s = elim (Option-cases (first (has_id c.id) s.cases)) [
  | inl missing ↦ rw (current, missing) refl
  | inr (row, at) ↦
      let holds = first-holds (has_id c.id) s.cases row at in
      rw (current, at) (ground (arith, holds))
]

any-first-none :
    (id : Text) (es : List ProcessedEvent)
    → first (is_event id) es ≡ none
    → any (is_event id) es ≡ false
any-first-none id [] h = refl
any-first-none id (e ∷ es) h = ground (arith, h, any-first-none id es)

-- an event that is marked for the first time is seen
event_seen-mark_event :
    (id case_id : Text) (s : Store)
    → event_seen id s ≡ none
    → event_seen id (mark_event id case_id s) ≡ some case_id
unfolding event_seen mark_event
event_seen-mark_event id case_id s unseen =
    elim (Option-cases (first (is_event id) s.processed_events)) [
      | inr (e, at) ↦ absurd (ground (arith, at, unseen))
      | inl missing ↦
          let fresh = any-first-none id s.processed_events missing in
          let e : ProcessedEvent = record { event_id = id; case_id = case_id } in
          let found = first-append (is_event id) s.processed_events e fresh (==_refl id) in
          rw (fresh, event_seen, found) refl
    ]

event_seen-same : (id : Text) (s s' : Store) → SameEvents s s' → event_seen id s' ≡ event_seen id s
unfolding event_seen
event_seen-same id s s' same = rw same refl

payment-mark_event :
    (payment event case_id : Text) (s : Store)
    → case_for_payment payment (mark_event event case_id s) ≡ case_for_payment payment s
unfolding mark_event case_for_payment get_case
payment-mark_event payment event case_id s =
    elim (Bool-cases (any (is_event event) s.processed_events)) [
      | inl seen ↦ rw seen refl
      | inr fresh ↦ rw fresh refl
    ]

module _ (p : Policy) (table : Reasons) (link : Case → Option Text) where
  id-process :
      (worked : Option Diagnosis) (c w : Case) (x : FailureSignal) (verifier : Option Verifier)
      (now : Instant) (s s' : Store)
      → process p table link worked c x verifier now s ≡ some (w, s')
      → w.id ≡ c.id
  unfolding process
  id-process (some d) c w x verifier now s s' e = ground (arith, e)
  id-process none c w x verifier now s s' e =
      let s1 = log c.id now ingest case_opened [] none s in
      let bar = contact_suppression c.id c.customer_ref s1 in
      elim (Option-cases (work p table link bar c x verifier now s1)) [
        | inl raised ↦ absurd (ground (arith, raised, e))
        | inr (s2, at) ↦
            let same : current c s2 ≡ w = ground (arith, at, e) in
            ap (λ (k : Case). k.id) (sym same) ∙ id-current c s2
      ]

  -- a failure whose payment has a case is worked on that case, and the events stay
  known-handle_failure :
      (fresh : Text) (x : FailureSignal) (verifier : Option Verifier) (now : Instant) (c w : Case)
      (s s' : Store)
      → case_for_payment x.payment_id s ≡ some c
      → handle_failure p table link fresh x verifier now s ≡ some (w, s')
      → (w.id ≡ c.id) × SameEvents s s'
  unfolding handle_failure open_case_or_get
  known-handle_failure fresh x verifier now c w s s' known e =
      let worked : process p table link (latest_diagnosis c.id s) c x verifier now s
          ≡ some (w, s') =
        rw (handle_failure, open_case_or_get, known) at e in
      let kept =
        framed-process events_frame p table link {s = s} {s1 = s} (latest_diagnosis c.id s) c x
          verifier now refl in
      (
        id-process (latest_diagnosis c.id s) c w x verifier now s s' worked,
        rw (worked, KeptWith) at kept,
      )

  -- a first delivery that is accepted leaves its event seen, under the case that it answered
  payment-marked :
      (digest : Text → Text → Text) (fresh other event id : Text) (x : FailureSignal)
      (state : CaseState) (now : Instant) (s s' : Store)
      → handle_payment_failed p table link digest fresh other x event now s
        ≡ some (accepted id state, s')
      → is_given event ≡ true
      → event_seen event s ≡ none
      → event_seen event s' ≡ some id
  unfolding handle_payment_failed mark_if_given
  payment-marked digest fresh other event id x state now s s' e given unseen =
      elim (Option-cases (open_case_or_get fresh x s)) [
        | inl raised ↦ absurd (ground (arith, raised, e))
        | inr ((c, created, s1), opened) ↦
            let s2 = mark_event event c.id s1 in
            let unseen1 =
              event_seen-same event s s1 (framed-open events_frame fresh x s c created s1 opened)
              ∙ unseen in
            let known =
              payment-mark_event x.payment_id event c.id s1
              ∙ open_case_or_get-found fresh x c created s s1 opened in
            elim (Option-cases (handle_failure p table link other x none now s2)) [
              | inl raised ↦ absurd (ground (arith, opened, given, raised, e))
              | inr ((w, s3), at) ↦
                  let answer : (w.id ≡ id) × (s3 ≡ s') =
                    (ground (arith, opened, given, at, e), ground (arith, opened, given, at, e)) in
                  let (same_id, kept) = known-handle_failure other x none now c w s2 s3 known at in
                  subst (λ (st : Store). event_seen event st ≡ some id) answer.1
                    (event_seen-same event s2 s3 kept
                      ∙ event_seen-mark_event event c.id s1 unseen1
                      ∙ ap (λ n. some n) (sym same_id ∙ answer.0))
            ]
      ]

  module _ (digest : Text → Text → Text) where
    -- what an accepted delivery of a failed payment did
    accepted-payment :
        (secret fresh other id : Text) (r : Request) (x : FailureSignal) (state : CaseState)
        (now : Instant) (s s' : Store)
        → r.body ≡ payment_failed (some x)
        → event_seen r.event_id s ≡ none
        → is_given r.event_id ≡ true
        → razorpay_webhook p table link digest secret fresh other r now s
          ≡ some (accepted id state, s')
        → (is_given secret ≡ true)
          × (handle_payment_failed p table link digest fresh other x r.event_id now s
              ≡ some (accepted id state, s'))
    unfolding razorpay_webhook already_seen unless_seen handle_event
    accepted-payment secret fresh other id r x state now s s' body unseen given e =
        elim (Bool-cases (is_given secret)) [
          | inr unset ↦ absurd (ground (arith, unset, e))
          | inl set ↦ elim (Bool-cases (verify_signature digest r.raw r.signature secret)) [
            | inr forged ↦ absurd (ground (arith, set, forged, e))
            | inl signed ↦ (set, ground (arith, set, signed, body, unseen, given, e))
          ]
        ]

    -- A failed payment is worked once for an event: after a delivery that was accepted under an
    -- event id not seen before, every request under that event id that is signed and of a handled
    -- kind, whatever else its body holds and whenever it comes, is answered as a duplicate of the
    -- same case and leaves the store as it is. The event id and the case's id are not empty.
    pub razorpay_webhook_again :
        (secret fresh other fresh' other' id : Text) (r again : Request) (x : FailureSignal)
        (state : CaseState) (now later : Instant) (s s' : Store)
        → r.body ≡ payment_failed (some x)
        → event_seen r.event_id s ≡ none
        → is_given r.event_id ≡ true
        → razorpay_webhook p table link digest secret fresh other r now s
          ≡ some (accepted id state, s')
        → is_given id ≡ true
        → again.event_id ≡ r.event_id
        → verify_signature digest again.raw again.signature secret ≡ true
        → is_handled again.body ≡ true
        → razorpay_webhook p table link digest secret fresh' other' again later s'
          ≡ some (duplicate id, s')
    unfolding razorpay_webhook already_seen unless_seen
    razorpay_webhook_again secret fresh other fresh' other' id r again x state now later s s' body
          unseen given e known same signed handled =
        let (set, paid) =
          accepted-payment secret fresh other id r x state now s s' body unseen given e in
        let seen =
          payment-marked digest fresh other r.event_id id x state now s s' paid given unseen in
        let seen' : event_seen again.event_id s' ≡ some id =
          subst (λ (n : Text). event_seen n s' ≡ some id) (sym same) seen in
        let given' : is_given again.event_id ≡ true =
          subst (λ (n : Text). is_given n ≡ true) (sym same) given in
        ground (arith, set, signed, handled, given', seen', known)
