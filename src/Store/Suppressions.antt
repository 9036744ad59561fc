-- ===== src/Store/Suppressions.antt =====
-- The `contact_suppressions` table: a bar on contact, and its lifting by a named person.
use unhalted.Prelude.{
  ℕ, suc, Bool, true, false, ◌&&◌, ◌||◌, Option, none, some, List, [], ◌∷◌, ◌++◌, ◌==◌, leb, map,
  select, if◌then◌else◌,
}
use unhalted.Clock.{Instant}
use unhalted.Models.{Text, is_given, StopCode}
use unhalted.Store.Tables.{Store, Scope, case_scope, customer_scope, Suppression}

unfoldable pub suppress_contact : Scope → Text → StopCode → Instant → Store → Store
suppress_contact scope key code at s = record s {
  contact_suppressions =
      s.contact_suppressions
      ++ record {
        id = s.next_suppression;
        scope = scope;
        scope_key = key;
        code = code;
        at = at;
        lifted_at = none;
        lifted_by = none;
      }
        ∷ [];
  next_suppression = suc s.next_suppression;
}

-- `lifted_at IS NULL`
abbrev pub is_standing : Suppression → Bool
is_standing x = elim x.lifted_at [ none ↦ true | some _ ↦ false ]

abbrev pub is_case_scope : Scope → Bool
is_case_scope case_scope = true
is_case_scope customer_scope = false

abbrev pub is_customer_scope : Scope → Bool
is_customer_scope case_scope = false
is_customer_scope customer_scope = true

-- the clauses of `contact_suppression`: an argument that is not given, or empty, adds none
unfoldable pub bars : Text → Text → Suppression → Bool
bars case_id customer_ref x =
    (is_given case_id && (is_case_scope x.scope && x.scope_key == case_id))
    || (is_given customer_ref && (is_customer_scope x.scope && x.scope_key == customer_ref))

-- `ORDER BY at LIMIT 1`
unfoldable pub earliest : List Suppression → Option Suppression
earliest [] = none
earliest (x ∷ xs) = elim (earliest xs) [
  | none ↦ some x
  | some y ↦ if leb x.at y.at then some x else some y
]

abbrev pub in_force : Text → Text → Suppression → Bool
in_force case_id customer_ref x = is_standing x && bars case_id customer_ref x

-- With neither argument given `bars` holds of no row, as the source returns `None`.
unfoldable pub contact_suppression : Text → Text → Store → Option Suppression
unfolding earliest bars
contact_suppression case_id customer_ref s =
    earliest (select (in_force case_id customer_ref) s.contact_suppressions)

unfoldable pub lift : ℕ → Text → Instant → Suppression → Suppression
lift id by at x =
    if x.id == id && is_standing x then record x { lifted_at = some at; lifted_by = some by } else x

unfoldable pub lift_suppression : ℕ → Text → Instant → Store → Store
unfolding lift
lift_suppression id by at s = record s {
  contact_suppressions = map (lift id by at) s.contact_suppressions;
}
