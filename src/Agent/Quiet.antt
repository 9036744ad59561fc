-- ===== src/Agent/Quiet.antt =====
-- `apply_stop` of src/unhalted/agent.py: the live actions of the case that it fires on, where the
-- case is on file.
use unhalted.Prelude.{
  ◌≡◌, refl, sym, ◌∙◌, subst, Bool, true, false, ◌&&◌, ◌==◌, Option, none, some, List, [], ◌∷◌, map,
  All, arith, Yields, Option-cases, Bool-cases, inl, inr,
}
use unhalted.Clock.{Instant}
use unhalted.Models.{Text, is_given, StopCode, CaseState}
use unhalted.Stops.{StopScope, of_case, of_customer, of_merchant, StopRule, rule}
use unhalted.Store.Tables.{Store, Action, Scope, case_scope, customer_scope, Suppression}
use unhalted.Store.Cases.{set_state, update_case}
use unhalted.Store.Queue.{is_live, in_reach, cancel_row, cancel_pending}
use unhalted.Store.Suppressions.{contact_suppression}
use unhalted.Agent.Entry.{log}
use unhalted.Agent.Stop.{
  cancel_in_scope, set_terminal, suppress_once, suppress_in_scope, complete_stop, stop_on_file,
}

-- a live action of the case and its customer
abbrev pub is_armed : Text → Text → Action → Bool
is_armed case_id customer_ref a =
    is_live a.state && (a.case_id == case_id && a.customer_ref == customer_ref)

abbrev pub IsQuiet : Text → Text → List Action → Type 0
IsQuiet case_id customer_ref rows = All (λ a. is_armed case_id customer_ref a ≡ false) rows

cancel_row-by_case :
    (id ref : Text) (now : Option Instant) (a : Action)
    → is_given id ≡ true
    → is_armed id ref (cancel_row 0 id now a) ≡ false
unfolding cancel_row in_reach
cancel_row-by_case id ref now a g = ground (arith, g)

cancel_row-by_customer :
    (id ref : Text) (now : Option Instant) (a : Action)
    → is_given ref ≡ true
    → is_armed id ref (cancel_row ref 0 now a) ≡ false
unfolding cancel_row in_reach
cancel_row-by_customer id ref now a g = ground (arith, g)

cancelled-by_case :
    (id ref : Text) (now : Option Instant) (rows : List Action)
    → is_given id ≡ true
    → IsQuiet id ref (map (cancel_row 0 id now) rows)
cancelled-by_case id ref now [] g = tt
cancelled-by_case id ref now (a ∷ rows) g =
    (cancel_row-by_case id ref now a g, cancelled-by_case id ref now rows g)

cancelled-by_customer :
    (id ref : Text) (now : Option Instant) (rows : List Action)
    → is_given ref ≡ true
    → IsQuiet id ref (map (cancel_row ref 0 now) rows)
cancelled-by_customer id ref now [] g = tt
cancelled-by_customer id ref now (a ∷ rows) g =
    (cancel_row-by_customer id ref now a g, cancelled-by_customer id ref now rows g)

pub cancel_pending-by_case :
    (id ref : Text) (now : Instant) (s : Store)
    → is_given id ≡ true
    → Yields (λ r. IsQuiet id ref (r.1.pending_actions)) (cancel_pending 0 id (some now) s)
unfolding cancel_pending
cancel_pending-by_case id ref now s g =
    rw (g, Yields) (cancelled-by_case id ref (some now) s.pending_actions g)

cancel_pending-by_customer :
    (id ref : Text) (now : Instant) (s : Store)
    → is_given ref ≡ true
    → Yields (λ r. IsQuiet id ref (r.1.pending_actions)) (cancel_pending ref 0 (some now) s)
unfolding cancel_pending
cancel_pending-by_customer id ref now s g =
    rw (g, Yields) (cancelled-by_customer id ref (some now) s.pending_actions g)

-- either reach of a stop quiets the case that it fires on
cancel_in_scope-IsQuiet :
    (scope : StopScope) (id ref : Text) (now : Instant) (s : Store)
    → is_given id ≡ true
    → is_given ref ≡ true
    → Yields (λ r. IsQuiet id ref (r.1.pending_actions)) (cancel_in_scope scope id ref now s)
unfolding cancel_in_scope cancel_pending
cancel_in_scope-IsQuiet of_case id ref now s g h = cancel_pending-by_case id ref now s g
cancel_in_scope-IsQuiet of_customer id ref now s g h = cancel_pending-by_customer id ref now s h
cancel_in_scope-IsQuiet of_merchant id ref now s g h = cancel_pending-by_customer id ref now s h

queue-suppress_once :
    (o : Option Suppression) (scope : Scope) (key : Text) (code : StopCode) (now : Instant)
    (s : Store)
    → (suppress_once o scope key code now s).pending_actions ≡ s.pending_actions
unfolding suppress_once
queue-suppress_once none scope key code now s = refl
queue-suppress_once (some x) scope key code now s = refl

queue-suppress_in_scope :
    (scope : StopScope) (id ref : Text) (code : StopCode) (now : Instant) (s : Store)
    → (suppress_in_scope scope id ref code now s).pending_actions ≡ s.pending_actions
unfolding suppress_in_scope
queue-suppress_in_scope of_case id ref code now s =
    queue-suppress_once (contact_suppression id 0 s) case_scope id code now s
queue-suppress_in_scope of_customer id ref code now s =
    queue-suppress_once (contact_suppression 0 ref s) customer_scope ref code now s
queue-suppress_in_scope of_merchant id ref code now s =
    queue-suppress_once (contact_suppression 0 ref s) customer_scope ref code now s

queue-set_terminal :
    (id : Text) (state : Option CaseState) (s : Store)
    → (set_terminal id state s).pending_actions ≡ s.pending_actions
unfolding set_terminal set_state update_case
queue-set_terminal id none s = refl
queue-set_terminal id (some state) s = refl

pub queue-complete_stop :
    (r : StopRule) (id ref : Text) (now : Instant) (s : Store)
    → (complete_stop r id ref now s).pending_actions ≡ s.pending_actions
unfolding complete_stop log
queue-complete_stop r id ref now s = elim (Bool-cases r.suppresses_contact) [
  | inl bars ↦ rw bars (
      queue-suppress_in_scope r.scope id ref r.code now (set_terminal id r.terminal_state s)
      ∙ queue-set_terminal id r.terminal_state s)
  | inr allows ↦ rw allows (queue-set_terminal id r.terminal_state s)
]

pub stop_on_file-IsQuiet :
    (code : StopCode) (id ref : Text) (now : Instant) (s : Store)
    → is_given id ≡ true
    → is_given ref ≡ true
    → Yields (λ r. IsQuiet id ref (r.1.pending_actions)) (stop_on_file code id ref now s)
unfolding stop_on_file
stop_on_file-IsQuiet code id ref now s g h =
    let o = cancel_in_scope (rule code).scope id ref now s in
    let quiet = cancel_in_scope-IsQuiet (rule code).scope id ref now s g h in
    elim (Option-cases o) [
      | inl raised ↦ absurd (rw (raised, Yields) at quiet)
      | inr ((count, s1), e) ↦
          let q : IsQuiet id ref s1.pending_actions = rw (e, Yields) at quiet in
          rw (e, Yields)
            (subst (IsQuiet id ref) (sym (queue-complete_stop (rule code) id ref now s1)) q)
    ]
