-- ===== src/System/Growth.antt =====
-- What every step but a pass of the runner does to the deliveries on file: nothing. No handler of
-- src/unhalted/agent.py writes the record of a delivered nudge, or gives a case to another customer.
use unhalted.Prelude.{
  any, Bool-cases, All, All-mono, subst, sym, ◌≡◌, refl, ◌∙◌, Bool, true, false, some, List, [],
  ◌∷◌, ◌++◌, ◌==◌, select, select-append_none, first_kept, first, arith, Option-cases, inl, inr,
}
use unhalted.Models.{Text, FailureSignal, Case, AuditRecord}
use unhalted.Store.Tables.{Store}
use unhalted.Store.Cases.{has_id, get_case, insert_case, update_case}
use unhalted.Store.Trail.{is_event, mark_event, is_nudge_done, belongs_to, write}
use unhalted.Store.Ownership.{belongs_to-update_case}
use unhalted.Agent.Frame.{Frame}

-- a record of a delivered nudge
abbrev pub is_delivery : AuditRecord → Bool
is_delivery r = is_nudge_done r.action

-- the deliveries on file, oldest first
abbrev pub nudges : Store → List AuditRecord
nudges s = select is_delivery s.audit

-- the case is on file, under some customer
abbrev pub Known : Store → Text → Type 0
Known s id = (ref : Text) × (belongs_to ref s id ≡ true)

-- a case on file stays its customer's
abbrev pub KeepsOwners : Store → Store → Type 0
KeepsOwners s s' = (ref id : Text) → belongs_to ref s id ≡ true → belongs_to ref s' id ≡ true

abbrev pub Grows : Store → Store → Type 0
Grows s s' = (nudges s' ≡ nudges s) × KeepsOwners s s'

pub update_case-Grows :
    (id : Text) (f : Case → Case) (s : Store)
    → ((c : Case) → (f c).id ≡ c.id)
    → ((c : Case) → (f c).customer_ref ≡ c.customer_ref)
    → Grows s (update_case id f s)
unfolding update_case
update_case-Grows id f s keeps_id keeps_ref =
    (refl, λ ref j h. belongs_to-update_case f keeps_id keeps_ref ref j id s ∙ h)

pub write-Grows :
    (r : AuditRecord) (s : Store) → is_nudge_done r.action ≡ false → Grows s (write r s)
unfolding write belongs_to
write-Grows r s quiet = (select-append_none is_delivery s.audit r quiet, λ ref id h. h)

pub insert_case-Grows :
    (c : Case) (x : FailureSignal) (s s' : Store) → insert_case c x s ≡ some s' → Grows s s'
unfolding insert_case belongs_to get_case
insert_case-Grows c x s s' e =
    let cases : s'.cases ≡ s.cases ++ c ∷ [] = ground (arith, e) in
    let audit : s'.audit ≡ s.audit = ground (arith, e) in
    (
      rw audit refl,
      λ ref id h. elim (Option-cases (first (has_id id) s.cases)) [
        | inl gone ↦ absurd (ground (arith, gone, h))
        | inr (d, at) ↦
            let kept = first_kept (has_id id) s.cases (c ∷ []) d at in
            rw (belongs_to, cases, kept) (rw (belongs_to, at) at h)
      ],
    )

pub elsewhere-Grows :
    (s s' : Store)
    → s'.cases ≡ s.cases
    → s'.audit ≡ s.audit
    → s'.processed_events ≡ s.processed_events
    → Grows s s'
unfolding belongs_to get_case
elsewhere-Grows s s' cases audit events = (rw audit refl, λ ref id h. rw cases h)

abbrev pub grows_frame : Frame
grows_frame = record {
  rel = Grows;
  stay = λ s. (refl, λ ref id h. h);
  after = λ s s1 s2 h h'. (h'.0 ∙ h.0, λ ref id k. h'.1 ref id (h.1 ref id k));
  updates = update_case-Grows;
  writes = write-Grows;
  opens = insert_case-Grows;
  elsewhere = elsewhere-Grows;
}

-- a case has one customer
pub belongs_to-one :
    (s : Store) (owner ref id : Text)
    → belongs_to owner s id ≡ true
    → belongs_to ref s id ≡ (owner == ref)
unfolding belongs_to
belongs_to-one s owner ref id h = elim (Option-cases (get_case id s)) [
  | inl gone ↦ absurd (ground (arith, gone, h))
  | inr (c, at) ↦ ground (arith, at, h)
]

-- every delivery on file is of a case on file
abbrev pub AllKnown : Store → Type 0
AllKnown s = All (λ r. Known s r.case_id) (nudges s)

pub AllKnown-kept : (s s' : Store) → Grows s s' → AllKnown s → AllKnown s'
AllKnown-kept s s' (same, kept) a =
    subst (λ (rs : List AuditRecord). All (λ r. Known s' r.case_id) rs) (sym same)
      (All-mono (λ r. Known s r.case_id) (λ r. Known s' r.case_id) (nudges s)
        (λ r (ref, h). (ref, kept ref r.case_id h)) a)

pub mark_event-Grows : (event id : Text) (s : Store) → Grows s (mark_event event id s)
unfolding mark_event belongs_to get_case
mark_event-Grows event id s = elim (Bool-cases (any (is_event event) s.processed_events)) [
  | inl seen ↦ rw seen (refl, λ ref j h. h)
  | inr fresh ↦ rw fresh (refl, λ ref j h. h)
]
