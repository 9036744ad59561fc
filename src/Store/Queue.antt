-- ===== src/Store/Queue.antt =====
-- The `pending_actions` table: scheduling, leases, execution results and cancellation.
use unhalted.Prelude.{
  ℕ, suc, ◌+◌, Bool, true, false, not, ◌&&◌, ◌||◌, Option, none, some, List, [], ◌∷◌, ◌++◌, ◌==◌,
  leb, length, first, any, map, select, take, sort_by, if◌then◌else◌,
}
use unhalted.Clock.{Instant, Duration}
use unhalted.Models.{Text, is_given, Kind, NudgeVariant, ActionState, pending, leased, cancelled}
use unhalted.Store.Tables.{Store, Action}

-- `INSERT INTO pending_actions`, and the row's id
unfoldable pub schedule_action :
    Text → Text → Kind → Option Instant → Option NudgeVariant → Store → ℕ × Store
schedule_action case_id customer_ref kind scheduled_for variant s = (
  s.next_action,
  record s {
    pending_actions =
        s.pending_actions
        ++ record {
          id = s.next_action;
          case_id = case_id;
          customer_ref = customer_ref;
          kind = kind;
          variant = variant;
          scheduled_for = scheduled_for;
          state = pending;
          cancelled_at = none;
          leased_until = none;
          worker = none;
          attempts = 0;
        }
          ∷ [];
    next_action = suc s.next_action;
  },
)

abbrev pub is_pending : ActionState → Bool
is_pending pending = true
is_pending _ = false

abbrev pub is_leased : ActionState → Bool
is_leased leased = true
is_leased _ = false

abbrev pub is_cancelled : ActionState → Bool
is_cancelled cancelled = true
is_cancelled _ = false

-- `at <= now`, false where the column is NULL
abbrev pub by_then : Option Instant → Instant → Bool
by_then none now = false
by_then (some at) now = leb at now

-- `state = 'leased' AND leased_until <= ?`
abbrev pub lapsed : Instant → Action → Bool
lapsed now a = is_leased a.state && by_then a.leased_until now

unfoldable pub reclaim : Instant → Action → Action
reclaim now a =
    if lapsed now a then record a { state = pending; leased_until = none; worker = none } else a

unfoldable pub release_expired_leases : Instant → Store → ℕ × Store
unfolding reclaim
release_expired_leases now s = (
  length (select (lapsed now) s.pending_actions),
  record s { pending_actions = map (reclaim now) s.pending_actions },
)

-- `state = 'pending' AND scheduled_for IS NOT NULL AND scheduled_for <= ?`
abbrev pub is_due : Instant → Action → Bool
is_due now a = is_pending a.state && by_then a.scheduled_for now

abbrev pub due_at : Action → ℕ
due_at a = elim a.scheduled_for [ none ↦ 0 | some at ↦ at ]

-- the subquery of `lease_due_actions`: the rows that are due, soonest first, up to the limit
unfoldable pub due_actions : Instant → ℕ → Store → List Action
due_actions now limit s = take limit (sort_by due_at (select (is_due now) s.pending_actions))

abbrev pub is_row : ℕ → Action → Bool
is_row id a = a.id == id

-- `id IN (...)`
abbrev pub is_among : List Action → Action → Bool
is_among rows a = any (is_row a.id) rows

unfoldable pub lease : Instant → Text → Action → Action
lease until worker a = record a {
  state = leased;
  leased_until = some until;
  worker = some worker;
  attempts = suc a.attempts;
}

unfoldable pub lease_row : List Action → Instant → Text → Action → Action
unfolding lease
lease_row rows until worker a = if is_among rows a then lease until worker a else a

-- `UPDATE ... RETURNING`: the rows claimed, as they now stand, and the store
unfoldable pub lease_due_actions : Instant → Text → Duration → ℕ → Store → List Action × Store
unfolding due_actions lease_row
lease_due_actions now worker lease_for limit s =
    let rows = due_actions now limit s in
    let table = map (lease_row rows (now + lease_for) worker) s.pending_actions in
    (select (is_among rows) table, record s { pending_actions = table })

unfoldable pub action : ℕ → Store → Option Action
action id s = first (is_row id) s.pending_actions

unfoldable pub on_row : ℕ → (Action → Action) → Action → Action
on_row id f a = if a.id == id then f a else a

-- `UPDATE pending_actions SET ... WHERE id = ?`
unfoldable pub update_action : ℕ → (Action → Action) → Store → Store
unfolding on_row
update_action id f s = record s { pending_actions = map (on_row id f) s.pending_actions }

unfoldable pub finish_action : ℕ → ActionState → Store → Store
unfolding update_action
finish_action id state = update_action id (λ a. record a { state = state; leased_until = none })

unfoldable pub return_action : ℕ → Instant → Store → Store
unfolding update_action
return_action id scheduled_for = update_action id (λ a. record a {
  state = pending;
  leased_until = none;
  worker = none;
  scheduled_for = some scheduled_for;
})

-- the reach of a cancellation: by customer, by case, or both; an empty text sets no bound
unfoldable pub in_reach : Text → Text → Action → Bool
in_reach customer_ref case_id a =
    (not (is_given customer_ref) || a.customer_ref == customer_ref)
    && (not (is_given case_id) || a.case_id == case_id)

-- `state IN ('pending', 'leased')`
abbrev pub is_live : ActionState → Bool
is_live state = is_pending state || is_leased state

abbrev pub is_cancellable : Text → Text → Action → Bool
is_cancellable customer_ref case_id a = is_live a.state && in_reach customer_ref case_id a

unfoldable pub cancel_row : Text → Text → Option Instant → Action → Action
unfolding in_reach
cancel_row customer_ref case_id now a =
    if is_cancellable customer_ref case_id a
    then record a { state = cancelled; cancelled_at = now }
    else a

-- How many rows were cancelled, and the store. 0 stands for an argument that is not given; with
-- neither, the call raises: `none`.
unfoldable pub cancel_pending : Text → Text → Option Instant → Store → Option (ℕ × Store)
unfolding cancel_row
cancel_pending customer_ref case_id now s =
    if not (is_given customer_ref) && not (is_given case_id)
    then none
    else some (
      length (select (is_cancellable customer_ref case_id) s.pending_actions),
      record s { pending_actions = map (cancel_row customer_ref case_id now) s.pending_actions },
    )
