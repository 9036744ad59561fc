-- ===== src/Agent/Stop.antt =====
-- `apply_stop` of src/unhalted/agent.py: a stop rule fires.
use unhalted.Prelude.{ℕ, Option, none, some, [], ◌∷◌, if◌then◌else◌}
use unhalted.Clock.{Instant}
use unhalted.Models.{Text, CaseState, StopCode, stop, stop_action, stop_rule}
use unhalted.Stops.{StopScope, of_case, of_customer, of_merchant, StopRule, rule}
use unhalted.Store.Tables.{Store, Scope, case_scope, customer_scope, Suppression}
use unhalted.Store.Cases.{get_case, set_state}
use unhalted.Store.Queue.{cancel_pending}
use unhalted.Store.Suppressions.{suppress_contact, contact_suppression}
use unhalted.Agent.Entry.{log}

-- Merchant scope reaches as far as customer scope.
unfoldable pub cancel_in_scope : StopScope → Text → Text → Instant → Store → Option (ℕ × Store)
unfolding cancel_pending
cancel_in_scope of_case case_id customer_ref now s = cancel_pending 0 case_id (some now) s
cancel_in_scope of_customer case_id customer_ref now s = cancel_pending customer_ref 0 (some now) s
cancel_in_scope of_merchant case_id customer_ref now s = cancel_pending customer_ref 0 (some now) s

unfoldable pub set_terminal : Text → Option CaseState → Store → Store
unfolding set_state
set_terminal case_id none s = s
set_terminal case_id (some state) s = set_state case_id state s

-- `if standing is None: store.suppress_contact(...)`
unfoldable pub suppress_once :
    Option Suppression → Scope → Text → StopCode → Instant → Store → Store
unfolding suppress_contact
suppress_once none scope key code now s = suppress_contact scope key code now s
suppress_once (some standing) scope key code now s = s

unfoldable pub suppress_in_scope : StopScope → Text → Text → StopCode → Instant → Store → Store
unfolding suppress_once contact_suppression
suppress_in_scope of_case case_id customer_ref code now s =
    suppress_once (contact_suppression case_id 0 s) case_scope case_id code now s
suppress_in_scope of_customer case_id customer_ref code now s =
    suppress_once (contact_suppression 0 customer_ref s) customer_scope customer_ref code now s
suppress_in_scope of_merchant case_id customer_ref code now s =
    suppress_once (contact_suppression 0 customer_ref s) customer_scope customer_ref code now s

-- what follows the cancellation
unfoldable pub complete_stop : StopRule → Text → Text → Instant → Store → Store
unfolding set_terminal suppress_in_scope log
complete_stop r case_id customer_ref now s =
    let s1 = set_terminal case_id r.terminal_state s in
    let s2 =
      if r.suppresses_contact
      then suppress_in_scope r.scope case_id customer_ref r.code now s1
      else s1 in
    log case_id now stop (stop_action r.code) (stop_rule r.code ∷ []) none s2

-- The body, on a case that is on file: how many actions were cancelled, and the store.
unfoldable pub stop_on_file : StopCode → Text → Text → Instant → Store → Option (ℕ × Store)
unfolding cancel_in_scope complete_stop rule
stop_on_file code case_id customer_ref now s =
    let r = rule code in
    elim (cancel_in_scope r.scope case_id customer_ref now s) [
      | none ↦ none
      | some (count, s1) ↦ some (count, complete_stop r case_id customer_ref now s1)
    ]

-- The trail's foreign key refuses the record of a case that has no row: `record` raises.
unfoldable pub apply_stop : StopCode → Text → Text → Instant → Store → Option (ℕ × Store)
unfolding stop_on_file get_case
apply_stop code case_id customer_ref now s = elim (get_case case_id s) [
  | none ↦ none
  | some c ↦ stop_on_file code case_id customer_ref now s
]
