-- ===== src/Runner/Ceiling.antt =====
-- The contact ceiling as a predicate on the audit trail, and the changes that keep it
-- (src/unhalted/runner.py, `execute_nudge`).
use unhalted.Prelude.{
  ℕ, ◌+◌, ◌-◌, ◌≤◌, ◌<◌, ◌≡◌, Bool, true, false, ◌&&◌, if◌then◌else◌, [], ◌∷◌, ◌++◌, ◌==◌, ltb, leb,
  length, select, map, length-select-append, length-select-sort, length-select_mono,
  length-select-select, length-select-map, arith, Bool-cases, inl, inr,
}
use mathlib.Core.Path.{fun_ext, ◌∙◌, subst}
use unhalted.Clock.{Instant}
use unhalted.Policy.{Policy}
use unhalted.Models.{Text, AuditRecord}
use unhalted.Windows.{inside_window}
use unhalted.Store.Tables.{Store}
use unhalted.Store.Trail.{is_nudge_done, belongs_to, is_contact, contacts_since}

module _ (p : Policy) where
  -- a delivered nudge to the customer, at most `now` old and later than one window before it
  abbrev pub in_window : Text → Instant → Store → AuditRecord → Bool
  in_window ref now s r =
      is_nudge_done r.action
      && ((ltb (now - p.contact_window) r.at && leb r.at now) && belongs_to ref s r.case_id)

  abbrev pub delivered : Text → Instant → Store → ℕ
  delivered ref now s = length (select (in_window ref now s) s.audit)

  -- no window that ends at any instant holds more than the ceiling
  abbrev pub CeilingHolds : Store → Type 0
  CeilingHolds s = (ref : Text) (now : Instant) → delivered ref now s ≤ p.contact_max_per_window

  -- what the budget counts at `now`, in the rows of the trail
  abbrev pub counted : Text → Instant → Store → AuditRecord → Bool
  counted ref now s r =
      is_contact ref (now - p.contact_window) s r && ltb (now - p.contact_window) r.at

  pub budget_counts :
      (ref : Text) (now : Instant) (s : Store)
      → length (inside_window p (contacts_since ref (now - p.contact_window) s) now)
        ≡ length (select (counted ref now s) s.audit)
  unfolding inside_window contacts_since
  budget_counts ref now s =
      length-select-sort (λ t. ltb (now - p.contact_window) t) (λ t. t)
        (map (λ r. r.at) (select (is_contact ref (now - p.contact_window) s) s.audit))
      ∙ length-select-map (λ t. ltb (now - p.contact_window) t) (λ r. r.at)
          (select (is_contact ref (now - p.contact_window) s) s.audit)
      ∙ length-select-select (is_contact ref (now - p.contact_window) s)
          (λ r. ltb (now - p.contact_window) r.at) s.audit

  window_counted_at :
      (ref : Text) (now later : Instant) (s : Store) (r : AuditRecord)
      → now ≤ later
      → in_window ref later s r ≡ true
      → counted ref now s r ≡ true
  unfolding is_contact
  window_counted_at ref now later s r h k = ground arith

  -- a window that ends at or after `now` holds none that the budget does not count
  window_counted :
      (ref : Text) (now later : Instant) (s : Store)
      → now ≤ later
      → delivered ref later s ≤ length (select (counted ref now s) s.audit)
  window_counted ref now later s h =
      length-select_mono (counted ref now s) (in_window ref later s)
        (λ r. window_counted_at ref now later s r h) s.audit

  -- no case changes hands
  abbrev pub SameOwners : Store → Store → Type 0
  SameOwners s s' = (ref id : Text) → belongs_to ref s' id ≡ belongs_to ref s id

  in_window-same :
      (ref : Text) (now : Instant) (s s' : Store)
      → SameOwners s s'
      → in_window ref now s' ≡ in_window ref now s
  in_window-same ref now s s' same = fun_ext (λ r. rw (same ref r.case_id))

  delivered-same :
      (ref : Text) (now : Instant) (s s' : Store)
      → SameOwners s s'
      → s'.audit ≡ s.audit
      → delivered ref now s' ≡ delivered ref now s
  delivered-same ref now s s' same e = rw (in_window-same ref now s s' same, e)

  delivered-append :
      (ref : Text) (now : Instant) (s s' : Store) (r : AuditRecord)
      → SameOwners s s'
      → s'.audit ≡ s.audit ++ r ∷ []
      → delivered ref now s' ≡ delivered ref now s + (if in_window ref now s r then 1 else 0)
  delivered-append ref now s s' r same e =
      rw (in_window-same ref now s s' same, e, length-select-append) (ground arith)

  -- What a turn may do to the trail: nothing, one entry that is no delivered nudge, or one delivered
  -- nudge that the budget of the case's customer had room for.
  pub data Turn (now : Instant) (s s' : Store) : Type 0 where
    quiet : SameOwners s s' → s'.audit ≡ s.audit → Turn now s s'
    noted :
        (r : AuditRecord)
        → SameOwners s s'
        → s'.audit ≡ s.audit ++ r ∷ []
        → is_nudge_done r.action ≡ false
        → Turn now s s'
    sent :
        (r : AuditRecord) (owner : Text)
        → SameOwners s s'
        → s'.audit ≡ s.audit ++ r ∷ []
        → r.at ≡ now
        → ((ref : Text) → belongs_to ref s r.case_id ≡ (owner == ref))
        → length (inside_window p (contacts_since owner (now - p.contact_window) s) now)
          < p.contact_max_per_window
        → Turn now s s'

  own_window :
      (now later : Instant) (ref owner : Text) (s : Store) (r : AuditRecord)
      → r.at ≡ now
      → belongs_to ref s r.case_id ≡ (owner == ref)
      → in_window ref later s r ≡ true
      → (now ≤ later) × (owner ≡ ref)
  own_window now later ref owner s r at own inside = ground arith

  sent_fits :
      (now later : Instant) (ref owner : Text) (s : Store) (r : AuditRecord)
      → r.at ≡ now
      → belongs_to ref s r.case_id ≡ (owner == ref)
      → length (inside_window p (contacts_since owner (now - p.contact_window) s) now)
        < p.contact_max_per_window
      → delivered ref later s ≤ p.contact_max_per_window
      → delivered ref later s + (if in_window ref later s r then 1 else 0)
        ≤ p.contact_max_per_window
  sent_fits now later ref owner s r at own room fits = elim (Bool-cases (in_window ref later s r)) [
    | inl inside ↦
        let (before, mine) = own_window now later ref owner s r at own inside in
        let room' =
          subst
            (λ o.
              length (inside_window p (contacts_since o (now - p.contact_window) s) now)
              < p.contact_max_per_window)
            mine room in
        rw inside
          (omega (arith, room', budget_counts ref now s, window_counted ref now later s before))
    | inr outside ↦ rw outside (omega arith)
  ]

  pub Turn-CeilingHolds :
      (now : Instant) (s s' : Store) → Turn now s s' → CeilingHolds s → CeilingHolds s'
  Turn-CeilingHolds now s s' (quiet same e) h ref later =
      rw (delivered-same ref later s s' same e) (h ref later)
  Turn-CeilingHolds now s s' (noted r same e no_nudge) h ref later =
      rw (delivered-append ref later s s' r same e) (ground (arith, h ref later))
  Turn-CeilingHolds now s s' (sent r owner same e at own room) h ref later =
      rw (delivered-append ref later s s' r same e)
        (sent_fits now later ref owner s r at (own ref) room (h ref later))
