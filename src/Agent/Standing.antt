-- ===== src/Agent/Standing.antt =====
-- `handle_reply` of src/unhalted/agent.py: the suppression that the stop of a reply leaves.
use unhalted.Prelude.{
  ◌≡◌, ◌≢◌, refl, true, Option, none, some, arith, Yields, Yields-mono, Option-cases, Bool-cases,
  inl, inr, if◌then◌else◌,
}
use unhalted.Clock.{Instant, date_of}
use unhalted.Policy.{Policy}
use unhalted.Models.{Text, is_given, Case, ParsedReply, StopCode, AuditAction, parsed, reply}
use unhalted.Stops.{StopScope, of_case, of_customer, of_merchant, StopRule, rule}
use unhalted.Replies.{ReplyOutcome, decide}
use unhalted.Store.Tables.{Store, case_scope, customer_scope, Suppression}
use unhalted.Store.Cases.{set_state, update_case}
use unhalted.Store.Queue.{cancel_pending}
use unhalted.Store.Suppressions.{suppress_contact, bars, in_force, contact_suppression}
use unhalted.Store.Barred.{
  IsBarred, found-IsBarred, barred-select, barred_more, any-append, widen_case, widen_customer,
}
use unhalted.Agent.Entry.{log}
use unhalted.Agent.Stop.{
  cancel_in_scope, set_terminal, suppress_once, suppress_in_scope, complete_stop, stop_on_file,
}
use unhalted.Agent.Reply.{
  top_confidence, hold_as_well, enact_stop, enact_reply, read_reply, answer, handle_reply,
}
use unhalted.Agent.Idle.{SameQueue, handle_reply_suppressed}

suppress-case :
    (o : Option Suppression) (id ref : Text) (code : StopCode) (now : Instant) (s : Store)
    → is_given id ≡ true
    → contact_suppression id 0 s ≡ o
    → IsBarred id ref (suppress_once o case_scope id code now s)
unfolding suppress_once suppress_contact bars contact_suppression
suppress-case none id ref code now s g e =
    any-append (in_force id ref) s.contact_suppressions _ (ground (arith, g))
suppress-case (some x) id ref code now s g e =
    barred_more id 0 id ref s.contact_suppressions (widen_case id ref)
      (barred-select id 0 s.contact_suppressions (λ missing. cc))

suppress-customer :
    (o : Option Suppression) (id ref : Text) (code : StopCode) (now : Instant) (s : Store)
    → is_given ref ≡ true
    → contact_suppression 0 ref s ≡ o
    → IsBarred id ref (suppress_once o customer_scope ref code now s)
unfolding suppress_once suppress_contact bars contact_suppression
suppress-customer none id ref code now s g e =
    any-append (in_force id ref) s.contact_suppressions _ (ground (arith, g))
suppress-customer (some x) id ref code now s g e =
    barred_more 0 ref id ref s.contact_suppressions (widen_customer id ref)
      (barred-select 0 ref s.contact_suppressions (λ missing. cc))

suppress_in_scope-IsBarred :
    (scope : StopScope) (id ref : Text) (code : StopCode) (now : Instant) (s : Store)
    → is_given id ≡ true
    → is_given ref ≡ true
    → IsBarred id ref (suppress_in_scope scope id ref code now s)
unfolding suppress_in_scope
suppress_in_scope-IsBarred of_case id ref code now s g h =
    suppress-case (contact_suppression id 0 s) id ref code now s g refl
suppress_in_scope-IsBarred of_customer id ref code now s g h =
    suppress-customer (contact_suppression 0 ref s) id ref code now s h refl
suppress_in_scope-IsBarred of_merchant id ref code now s g h =
    suppress-customer (contact_suppression 0 ref s) id ref code now s h refl

stopped-IsBarred :
    (r : StopRule) (id ref : Text) (now : Instant) (s : Store)
    → is_given id ≡ true
    → is_given ref ≡ true
    → r.suppresses_contact ≡ true
    → IsBarred id ref (complete_stop r id ref now s)
unfolding complete_stop log
stopped-IsBarred r id ref now s g h lasting =
    rw lasting (
      suppress_in_scope-IsBarred r.scope id ref r.code now (set_terminal id r.terminal_state s) g h)

-- the cancellation of a case with an id and a customer does not raise
cancel_in_scope-runs :
    (scope : StopScope) (id ref : Text) (now : Instant) (s : Store)
    → is_given id ≡ true
    → is_given ref ≡ true
    → cancel_in_scope scope id ref now s ≢ none
unfolding cancel_in_scope cancel_pending
cancel_in_scope-runs of_case id ref now s g h e = ground (arith, g, e)
cancel_in_scope-runs of_customer id ref now s g h e = ground (arith, h, e)
cancel_in_scope-runs of_merchant id ref now s g h e = ground (arith, h, e)

stop_on_file-IsBarred :
    (code : StopCode) (id ref : Text) (now : Instant) (s : Store)
    → is_given id ≡ true
    → is_given ref ≡ true
    → (rule code).suppresses_contact ≡ true
    → Yields (λ r. IsBarred id ref (r.1)) (stop_on_file code id ref now s)
unfolding stop_on_file
stop_on_file-IsBarred code id ref now s g h lasting =
    elim (Option-cases (cancel_in_scope (rule code).scope id ref now s)) [
      | inl raised ↦ absurd (cancel_in_scope-runs (rule code).scope id ref now s g h raised)
      | inr ((count, s1), e) ↦
          rw (e, Yields) (stopped-IsBarred (rule code) id ref now s1 g h lasting)
    ]

hold_as_well-IsBarred :
    (id ref : Text) (c : Case) (code : StopCode) (out : ReplyOutcome) (now : Instant) (s : Store)
    → IsBarred id ref s
    → IsBarred id ref (hold_as_well c code out now s)
unfolding hold_as_well log set_state update_case
hold_as_well-IsBarred id ref c code out now s b = elim (Bool-cases out.needs_human) [
  | inr automatic ↦ rw automatic b
  | inl human ↦ elim (Option-cases (rule code).terminal_state) [
    | inl open_ended ↦ rw (human, open_ended) b
    | inr (state, e) ↦ rw (human, e) b
  ]
]

module _ (p : Policy) (link : Case → Option Text) where
  -- A reply that fires a stop which suppresses contact leaves a suppression in force.
  stop_reply-IsBarred :
      (c : Case) (r : ParsedReply) (code : StopCode) (now : Instant) (s : Store)
      → is_given c.id ≡ true
      → is_given c.customer_ref ≡ true
      → contact_suppression c.id c.customer_ref s ≡ none
      → (decide p r (date_of now) none).stop_code ≡ some code
      → (rule code).suppresses_contact ≡ true
      → Yields (λ x. IsBarred c.id c.customer_ref (x.1)) (handle_reply p link c r now s)
  unfolding handle_reply answer read_reply enact_reply enact_stop
  stop_reply-IsBarred c r code now s g h free stops lasting =
      let out = decide p r (date_of now) none in
      let s1 =
        log c.id now reply (if r.failed then AuditAction.parse_failed else parsed) out.rules_fired
          (top_confidence r.intents) s in
      let barred = stop_on_file-IsBarred code c.id c.customer_ref now s1 g h lasting in
      elim (Option-cases (stop_on_file code c.id c.customer_ref now s1)) [
        | inl raised ↦ absurd (rw (raised, Yields) at barred)
        | inr ((count, s2), e) ↦
            let b : IsBarred c.id c.customer_ref s2 = rw (e, Yields) at barred in
            rw (free, Yields, stops, e)
              (hold_as_well-IsBarred c.id c.customer_ref c code out now s2 b)
      ]

  barred_reply :
      (c : Case) (r : ParsedReply) (now : Instant) (s : Store)
      → IsBarred c.id c.customer_ref s
      → Yields (λ y. (y.0.needs_human ≡ true) × SameQueue s (y.1)) (handle_reply p link c r now s)
  unfolding contact_suppression
  barred_reply c r now s b = elim (Option-cases (contact_suppression c.id c.customer_ref s)) [
    | inl missing ↦ absurd (found-IsBarred c.id c.customer_ref s.contact_suppressions b missing)
    | inr (bar, stands) ↦
        Yields-mono _ (λ y. (y.0.needs_human ≡ true) × SameQueue s (y.1))
          (handle_reply p link c r now s) (λ y h. (h.0, h.1))
          (handle_reply_suppressed p link c r now s bar stands)
  ]

  -- A reply that fires a stop which suppresses contact, on a case that has an id and a customer and
  -- is under no stop, is handled without a raise; after it every further reply on the case,
  -- whatever it says, is handled without a raise, goes to a person and leaves the queue as it is.
  pub handle_reply_no_rearming :
      (c : Case) (r later : ParsedReply) (code : StopCode) (now after : Instant) (s : Store)
      → is_given c.id ≡ true
      → is_given c.customer_ref ≡ true
      → contact_suppression c.id c.customer_ref s ≡ none
      → (decide p r (date_of now) none).stop_code ≡ some code
      → (rule code).suppresses_contact ≡ true
      → Yields
          (λ x.
            Yields
              (λ y. (y.0.needs_human ≡ true) × SameQueue (x.1) (y.1))
              (handle_reply p link c later after (x.1)))
          (handle_reply p link c r now s)
  handle_reply_no_rearming c r later code now after s g h free stops lasting =
      let barred = stop_reply-IsBarred c r code now s g h free stops lasting in
      Yields-mono (λ x. IsBarred c.id c.customer_ref (x.1)) _ (handle_reply p link c r now s)
        (λ x b. barred_reply c later after (x.1) b) barred
