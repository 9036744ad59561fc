-- ===== src/Store/Trail.antt =====
-- The `audit`, `diagnoses` and `processed_events` tables.
use unhalted.Prelude.{
  Bool, true, false, ◌&&◌, Option, none, some, List, [], ◌∷◌, ◌++◌, ◌==◌, leb, first, last, any,
  map, select, sort_by, if◌then◌else◌,
}
use unhalted.Clock.{Instant}
use unhalted.Models.{Text, Diagnosis, AuditRecord, AuditAction, executed, slug, nudge, done}
use unhalted.Store.Tables.{Store, ProcessedEvent}
use unhalted.Store.Cases.{get_case}

unfoldable pub record_diagnosis : Text → Diagnosis → Store → Store
record_diagnosis id d s = record s {
  diagnoses = s.diagnoses ++ record { case_id = id; diagnosis = d } ∷ [];
}

-- `ORDER BY id DESC LIMIT 1`
unfoldable pub latest_diagnosis : Text → Store → Option Diagnosis
latest_diagnosis id s = elim (last (λ row. row.case_id == id) s.diagnoses) [
  | none ↦ none
  | some row ↦ some row.diagnosis
]

-- `Store.record`. The handlers that are given a case read it before; `apply_stop` and
-- `mark_recovered`, which are given an id, raise where the foreign key would refuse the record.
unfoldable pub write : AuditRecord → Store → Store
write r s = record s { audit = s.audit ++ r ∷ [] }

unfoldable pub timeline : Text → Store → List AuditRecord
timeline id s = select (λ r. r.case_id == id) s.audit

abbrev pub is_event : Text → ProcessedEvent → Bool
is_event id e = e.event_id == id

unfoldable pub event_seen : Text → Store → Option Text
event_seen id s = elim (first (is_event id) s.processed_events) [
  | none ↦ none
  | some e ↦ some e.case_id
]

-- `INSERT OR IGNORE`
unfoldable pub mark_event : Text → Text → Store → Store
mark_event id case_id s = if any (is_event id) s.processed_events then s else record s {
  processed_events = s.processed_events ++ record { event_id = id; case_id = case_id } ∷ [];
}

-- `decision_type = 'execution' AND action LIKE 'nudge%' AND action LIKE '%done'`: only an execution
-- has an action of this form.
abbrev pub is_nudge_done : AuditAction → Bool
is_nudge_done (executed (slug nudge) done) = true
is_nudge_done _ = false

-- `c.id = a.case_id AND c.customer_ref = ?`
unfoldable pub belongs_to : Text → Store → Text → Bool
unfolding get_case
belongs_to customer_ref s case_id = elim (get_case case_id s) [
  | none ↦ false
  | some c ↦ c.customer_ref == customer_ref
]

-- a row that `contacts_since` counts
unfoldable pub is_contact : Text → Instant → Store → AuditRecord → Bool
unfolding belongs_to
is_contact customer_ref since s r =
    is_nudge_done r.action && (leb since r.at && belongs_to customer_ref s r.case_id)

unfoldable pub contacts_since : Text → Instant → Store → List Instant
unfolding is_contact
contacts_since customer_ref since s =
    sort_by (λ t. t) (map (λ r. r.at) (select (is_contact customer_ref since s) s.audit))
