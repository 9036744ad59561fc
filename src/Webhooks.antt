-- ===== src/Webhooks.antt =====
-- src/unhalted/ingest/webhooks.py: Razorpay's events, from the request to the store.
--
-- `digest` is the HMAC of a body under a secret, a parameter. What ingest/normalize.py makes of the
-- body of a `payment.failed` event is part of the request: a signal, or nothing where it raises
-- `UnsupportedEvent`. An empty text stands for a header or a field that is missing.
pub mod Events
pub mod Delivery
use unhalted.Prelude.{
  ℕ, Bool, true, false, not, ◌&&◌, ◌==◌, Option, none, some, List, if◌then◌else◌,
}
use unhalted.Clock.{Instant}
use unhalted.Policy.{Policy}
use unhalted.Models.{Text, is_given, FailureSignal, Case, CaseState}
use unhalted.Taxonomy.{Reasons}
use unhalted.Notify.{Message}
use unhalted.Store.Tables.{Store}
use unhalted.Store.Cases.{get_case, open_case_or_get}
use unhalted.Store.Trail.{event_seen, mark_event}
use unhalted.Agent.Failure.{handle_failure}
use unhalted.Agent.Review.{mark_recovered}

-- What the body holds: no JSON, an event that is not handled, a failed payment, or a link that was
-- paid, with its `reference_id` and its amount.
pub data Body : Type 0 where
  malformed unhandled : Body
  payment_failed : Option FailureSignal → Body
  link_paid : Text → ℕ → Body

pub record Request : Type 0 where
  pub raw : Text
  pub signature : Text
  pub event_id : Text
  pub body : Body

-- an `HTTPException` with its status, or the answer
pub data Response : Type 0 where
  refused : ℕ → Response
  ignored : Response
  duplicate recovered : Text → Response
  accepted : Text → CaseState → Response

unfoldable pub verify_signature : (Text → Text → Text) → Text → Text → Text → Bool
verify_signature digest raw signature secret =
    is_given signature && (digest secret raw == signature)

-- `if event_id: store.mark_event(...)`
unfoldable pub mark_if_given : Text → Text → Store → Store
unfolding mark_event
mark_if_given event_id case_id s = if is_given event_id then mark_event event_id case_id s else s

-- `if seen:`
unfoldable pub already_seen : Text → Store → Option Text
unfolding event_seen
already_seen event_id s = if is_given event_id then event_seen event_id s else none

-- `name in HANDLED_EVENTS`
abbrev pub is_handled : Body → Bool
is_handled (payment_failed signal) = true
is_handled (link_paid reference amount) = true
is_handled _ = false

module _ (p : Policy) (table : Reasons) (link : Case → Option Text)
    (digest : Text → Text → Text) where
  -- `_handle_payment_link_paid`
  unfoldable pub handle_link_paid : Text → ℕ → Text → Instant → Store → Option (Response × Store)
  unfolding get_case mark_if_given mark_recovered
  handle_link_paid reference amount event_id now s =
      if is_given reference
      then elim (get_case reference s) [
        | none ↦ some (ignored, s)
        | some c ↦ elim (mark_recovered p link c.id amount now (mark_if_given event_id c.id s)) [
          | none ↦ none
          | some (count, s', sent) ↦ some (recovered c.id, s')
        ]
      ]
      else some (ignored, s)

  -- a failed payment: the case is opened and the event marked before the failure is worked
  unfoldable pub handle_payment_failed :
      Text → Text → FailureSignal → Text → Instant → Store → Option (Response × Store)
  unfolding open_case_or_get mark_if_given handle_failure
  handle_payment_failed fresh other signal event_id now s = elim (open_case_or_get fresh signal s) [
    | none ↦ none
    | some (c, created, s1) ↦
        elim (handle_failure p table link other signal none now (mark_if_given event_id c.id s1)) [
          | none ↦ none
          | some (worked, s2) ↦ some (accepted worked.id worked.state, s2)
        ]
  ]

  unfoldable pub handle_event : Text → Text → Request → Instant → Store → Option (Response × Store)
  unfolding handle_link_paid handle_payment_failed
  handle_event fresh other r now s = elim r.body [
    | malformed ↦ some (refused 400, s)
    | unhandled ↦ some (ignored, s)
    | link_paid reference amount ↦ handle_link_paid reference amount r.event_id now s
    | payment_failed none ↦ some (refused 400, s)
    | payment_failed (some signal) ↦ handle_payment_failed fresh other signal r.event_id now s
  ]

  -- an event that is handled and was seen before is answered by its case
  unfoldable pub unless_seen :
      Option Text → Text → Text → Request → Instant → Store → Option (Response × Store)
  unfolding handle_event
  unless_seen none fresh other r now s = handle_event fresh other r now s
  unless_seen (some seen) fresh other r now s =
      if is_given seen then some (duplicate seen, s) else handle_event fresh other r now s

  -- `razorpay_webhook`; `fresh` and `other` are the ids that a new case would be given
  unfoldable pub razorpay_webhook :
      Text → Text → Text → Request → Instant → Store → Option (Response × Store)
  unfolding verify_signature already_seen unless_seen handle_event
  razorpay_webhook secret fresh other r now s =
      if not (is_given secret)
      then some (refused 503, s)
      else if not (verify_signature digest r.raw r.signature secret)
      then some (refused 401, s)
      else if is_handled r.body
      then unless_seen (already_seen r.event_id s) fresh other r now s
      else handle_event fresh other r now s
