-- ===== src/System/Trail.antt =====
-- The audit trail (src/unhalted/store.py) over the steps of the program: it is only appended to.
use unhalted.Prelude.{
  sym, ◌≡◌, refl, ap, ◌∙◌, subst, false, some, Option, List, [], ◌∷◌, ◌++◌, any, arith, Bool-cases,
  inl, inr,
}
use mathlib.Core.List.{append-nil, append_assoc}
use unhalted.Clock.{Instant}
use unhalted.Policy.{Policy}
use unhalted.Models.{Text, FailureSignal, Case, AuditRecord}
use unhalted.Taxonomy.{Reasons}
use unhalted.Store.Tables.{Store}
use unhalted.Store.Cases.{insert_case, update_case}
use unhalted.Store.Trail.{is_nudge_done, is_event, mark_event, write}
use unhalted.Agent.Frame.{Frame}
use unhalted.Runner.Ceiling.{Turn, quiet, noted, sent}
use unhalted.Runner.Passes.{run_due_kept}
use unhalted.System.{Step}
use unhalted.System.Entries.{Step-cases}

-- the later trail is the earlier one and what was added
abbrev pub Extends : Store → Store → Type 0
Extends s s' = (more : List AuditRecord) × (s'.audit ≡ s.audit ++ more)

pub Extends-same : (s s' : Store) → s'.audit ≡ s.audit → Extends s s'
Extends-same s s' e = ([], e ∙ sym (append-nil s.audit))

pub Extends-after : (s s1 s2 : Store) → Extends s s1 → Extends s1 s2 → Extends s s2
Extends-after s s1 s2 (more, e) (more', e') = (
  more ++ more',
  e' ∙ ap (λ (rs : List AuditRecord). rs ++ more') e ∙ append_assoc s.audit more more',
)

pub insert_case-Extends :
    (c : Case) (x : FailureSignal) (s s' : Store) → insert_case c x s ≡ some s' → Extends s s'
unfolding insert_case
insert_case-Extends c x s s' e = Extends-same s s' (ground (arith, e))

pub write-Extends :
    (r : AuditRecord) (s : Store) → is_nudge_done r.action ≡ false → Extends s (write r s)
unfolding write
write-Extends r s unsent = (r ∷ [], refl)

pub update_case-Extends :
    (id : Text) (f : Case → Case) (s : Store)
    → ((c : Case) → (f c).id ≡ c.id)
    → ((c : Case) → (f c).customer_ref ≡ c.customer_ref)
    → Extends s (update_case id f s)
unfolding update_case
update_case-Extends id f s kept_id kept_ref = ([], sym (append-nil s.audit))

abbrev trail_frame : Frame
trail_frame = record {
  rel = Extends;
  stay = λ s. Extends-same s s refl;
  after = Extends-after;
  updates = update_case-Extends;
  writes = write-Extends;
  opens = insert_case-Extends;
  elsewhere = λ s s' cases audit events. Extends-same s s' audit;
}

mark_event-Extends : (event id : Text) (s : Store) → Extends s (mark_event event id s)
unfolding mark_event
mark_event-Extends event id s = elim (Bool-cases (any (is_event event) s.processed_events)) [
  | inl seen ↦ rw seen ([], sym (append-nil s.audit))
  | inr fresh ↦ rw fresh ([], sym (append-nil s.audit))
]

module _ (p : Policy) where
  Turn-Extends : (now : Instant) (s s' : Store) → Turn p now s s' → Extends s s'
  Turn-Extends now s s' (quiet same e) = Extends-same s s' e
  Turn-Extends now s s' (noted r same e none_sent) = (r ∷ [], e)
  Turn-Extends now s s' (sent r to same e at own room) = (r ∷ [], e)

  -- The audit trail is append-only: whatever a webhook, failure, reply, stop, review, payment,
  -- lifting of a suppression or pass of the runner does to a store, every record that was on the
  -- trail is still there, unchanged and in its place, and new ones follow.
  pub Step-Extends :
      (table : Reasons) (link : Case → Option Text) (digest : Text → Text → Text) (s s' : Store)
      → Step p table link digest s s'
      → Extends s s'
  Step-Extends table link digest s s' st =
      elim (Step-cases trail_frame mark_event-Extends p table link digest s s' st) [
        | inl more ↦ more
        | inr (now, worker, limit, e) ↦ subst (Extends s) e (
            run_due_kept p link (Extends s)
              (λ now t t' turn so_far. Extends-after s t t' so_far (Turn-Extends now t t' turn)) now
              worker limit s (Extends-same s s refl))
      ]
