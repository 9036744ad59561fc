-- ===== src/Agent/Person.antt =====
-- `handle_reply` and `mark_recovered` of src/unhalted/agent.py: the case that leaves automation.
use unhalted.Prelude.{
  ℕ, ◌==◌, ◌&&◌, not, List, map, All, ◌≡◌, sym, subst, Bool, true, false, ◌||◌, Option, none, some,
  [], ◌∷◌, arith, Yields, Option-cases, inl, inr, if◌then◌else◌,
}
use unhalted.Clock.{Instant, date_of}
use unhalted.Policy.{Policy}
use unhalted.Models.{
  Text, is_given, Case, ParsedReply, StopCode, CaseState, recovered, AuditAction, parsed, reply,
}
use unhalted.Replies.{ReplyOutcome, decide}
use unhalted.Store.Tables.{Store}
use unhalted.Store.Cases.{get_case, set_state, update_case, on_case}
use unhalted.Store.Queue.{cancel_pending}
use unhalted.Store.Suppressions.{contact_suppression}
use unhalted.Agent.Entry.{log}
use unhalted.Agent.Stop.{stop_on_file}
use unhalted.Agent.Quiet.{IsQuiet, cancel_pending-by_case, stop_on_file-IsQuiet}
use unhalted.Agent.Reply.{
  top_confidence, hold_as_well, enact_stop, hold_case, enact_reply, read_reply, answer,
  handle_reply,
}
use unhalted.Agent.Review.{mark_recovered}

-- the outcome takes the case out of automation
abbrev pub ends_automation : ReplyOutcome → Bool
ends_automation out = out.needs_human || elim out.stop_code [ none ↦ false | some _ ↦ true ]

pub queue-hold_as_well :
    (c : Case) (code : StopCode) (out : ReplyOutcome) (now : Instant) (s : Store)
    → (hold_as_well c code out now s).pending_actions ≡ s.pending_actions
unfolding hold_as_well log set_state update_case
queue-hold_as_well c code out now s = ground arith

enact_stop-IsQuiet :
    (c : Case) (code : StopCode) (out : ReplyOutcome) (now : Instant) (s : Store)
    → is_given c.id ≡ true
    → is_given c.customer_ref ≡ true
    → Yields (λ x. IsQuiet c.id c.customer_ref x.pending_actions) (enact_stop c code out now s)
unfolding enact_stop
enact_stop-IsQuiet c code out now s g h =
    let quiet = stop_on_file-IsQuiet code c.id c.customer_ref now s g h in
    elim (Option-cases (stop_on_file code c.id c.customer_ref now s)) [
      | inl raised ↦ absurd (rw (raised, Yields) at quiet)
      | inr ((count, s1), e) ↦
          let q : IsQuiet c.id c.customer_ref s1.pending_actions = rw (e, Yields) at quiet in
          rw (e, Yields)
            (subst (IsQuiet c.id c.customer_ref) (sym (queue-hold_as_well c code out now s1)) q)
    ]

hold_case-IsQuiet :
    (c : Case) (now : Instant) (s : Store)
    → is_given c.id ≡ true
    → Yields (λ x. IsQuiet c.id c.customer_ref x.pending_actions) (hold_case c now s)
unfolding hold_case log set_state update_case
hold_case-IsQuiet c now s g =
    let quiet = cancel_pending-by_case c.id c.customer_ref now s g in
    elim (Option-cases (cancel_pending 0 c.id (some now) s)) [
      | inl raised ↦ absurd (rw (raised, Yields) at quiet)
      | inr ((count, s1), e) ↦ rw (e, Yields) (rw (e, Yields) at quiet)
    ]

module _ (p : Policy) (link : Case → Option Text) where
  enact_reply-IsQuiet :
      (c : Case) (out : ReplyOutcome) (now : Instant) (s : Store)
      → is_given c.id ≡ true
      → is_given c.customer_ref ≡ true
      → ends_automation out ≡ true
      → Yields (λ x. IsQuiet c.id c.customer_ref x.pending_actions) (enact_reply p link c out now s)
  unfolding enact_reply
  enact_reply-IsQuiet c out now s g h ends = elim (Option-cases out.stop_code) [
    | inr (code, e) ↦ rw e (enact_stop-IsQuiet c code out now s g h)
    | inl e ↦
        let human : out.needs_human ≡ true = ground (arith, e, ends) in
        rw (e, human) (hold_case-IsQuiet c now s g)
  ]

  -- A reply that fires a stop, or that a person must read, on a case that has an id and a customer
  -- and is under no stop, is handled without a raise, and no action of that case and customer stays
  -- pending or leased.
  pub handle_reply-IsQuiet :
      (c : Case) (r : ParsedReply) (now : Instant) (s : Store)
      → is_given c.id ≡ true
      → is_given c.customer_ref ≡ true
      → contact_suppression c.id c.customer_ref s ≡ none
      → ends_automation (decide p r (date_of now) none) ≡ true
      → Yields
          (λ x. IsQuiet c.id c.customer_ref (x.1.pending_actions))
          (handle_reply p link c r now s)
  unfolding handle_reply answer read_reply
  handle_reply-IsQuiet c r now s g h free ends =
      let out = decide p r (date_of now) none in
      let s1 =
        log c.id now reply (if r.failed then AuditAction.parse_failed else parsed) out.rules_fired
          (top_confidence r.intents) s in
      let quiet = enact_reply-IsQuiet c out now s1 g h ends in
      elim (Option-cases (enact_reply p link c out now s1)) [
        | inl raised ↦ absurd (rw (raised, Yields) at quiet)
        | inr (s2, e) ↦ rw (free, Yields, e) (rw (e, Yields) at quiet)
      ]

abbrev is_recovered : CaseState → Bool
is_recovered recovered = true
is_recovered _ = false

-- a row of the case that does not read recovered
abbrev pub is_unpaid : Text → Case → Bool
is_unpaid id c = c.id == id && not (is_recovered c.state)

recovered-on_case :
    (id : Text) (cs : List Case)
    → All (λ c. is_unpaid id c ≡ false) (map (on_case id (λ c. record c { state = recovered })) cs)
recovered-on_case id [] = tt
recovered-on_case id (c ∷ cs) = (ground arith, recovered-on_case id cs)

module _ (p : Policy) (link : Case → Option Text) where
  -- A payment through the recovery link, for a case that is on file with an id, is recorded without a
  -- raise: no action of the case stays pending or leased for any customer, and every row of the
  -- case reads recovered.
  pub mark_recovered-IsQuiet :
      (c : Case) (id ref : Text) (amount : ℕ) (now : Instant) (s : Store)
      → get_case id s ≡ some c
      → is_given id ≡ true
      → Yields
          (λ x.
            IsQuiet id ref (x.1.pending_actions) × All (λ c. is_unpaid id c ≡ false) (x.1.cases))
          (mark_recovered p link id amount now s)
  unfolding mark_recovered log set_state update_case
  mark_recovered-IsQuiet c id ref amount now s on_file g =
      let quiet = cancel_pending-by_case id ref now s g in
      elim (Option-cases (cancel_pending 0 id (some now) s)) [
        | inl raised ↦ absurd (rw (raised, Yields) at quiet)
        | inr ((count, s1), e) ↦
            rw (on_file, e, Yields) (rw (e, Yields) at quiet, recovered-on_case id s1.cases)
      ]
