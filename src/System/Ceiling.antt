-- ===== src/System/Ceiling.antt =====
-- The contact ceiling in every store that the program reaches (src/unhalted/runner.py, agent.py and
-- ingest/webhooks.py).
use unhalted.Prelude.{
  ◌≡◌, refl, ◌∙◌, subst, sym, ap, Bool, ◌&&◌, List, ltb, leb, ◌-◌, length, select, All, All-mono,
  length-select-select, length-select_agree, arith, inl, inr, Option,
}
use unhalted.Clock.{Instant}
use unhalted.Policy.{Policy}
use unhalted.Models.{Text, Case, AuditRecord}
use unhalted.Taxonomy.{Reasons}
use unhalted.Store.Tables.{Store}
use unhalted.Store.Trail.{belongs_to}
use unhalted.Runner.Ceiling.{delivered, CeilingHolds, Turn, quiet, noted, sent, Turn-CeilingHolds}
use unhalted.Runner.Passes.{run_due_kept}
use unhalted.System.{Step, Reach, start, then}
use unhalted.System.Entries.{Step-cases}
use unhalted.System.Turns.{quiet-Grows, noted-Grows, sent-AllKnown}
use unhalted.System.Growth.{
  grows_frame, mark_event-Grows, AllKnown, AllKnown-kept, is_delivery, nudges, Known, KeepsOwners,
  Grows, belongs_to-one,
}

-- a case on file is the same customer's before and after
pub owner_kept :
    (s s' : Store) (ref id : Text)
    → KeepsOwners s s'
    → Known s id
    → belongs_to ref s' id ≡ belongs_to ref s id
owner_kept s s' ref id kept (owner, h) =
    belongs_to-one s' owner ref id (kept owner id h) ∙ sym (belongs_to-one s owner ref id h)

module _ (p : Policy) where
  -- the part of `in_window` that is about the time and the customer
  abbrev to_in_window : Text → Instant → Store → AuditRecord → Bool
  to_in_window ref now s r =
      (ltb (now - p.contact_window) r.at && leb r.at now) && belongs_to ref s r.case_id

  delivered-nudges :
      (ref : Text) (now : Instant) (s : Store)
      → delivered p ref now s ≡ length (select (to_in_window ref now s) (nudges s))
  delivered-nudges ref now s =
      sym (length-select-select is_delivery (to_in_window ref now s) s.audit)

  delivered-Grows :
      (ref : Text) (now : Instant) (s s' : Store)
      → Grows s s'
      → AllKnown s
      → delivered p ref now s' ≡ delivered p ref now s
  delivered-Grows ref now s s' (same, kept) a =
      let agree : All (λ r. to_in_window ref now s' r ≡ to_in_window ref now s r) (nudges s) =
        All-mono (λ r. Known s r.case_id) _ (nudges s)
          (λ r k. rw (owner_kept s s' ref r.case_id kept k) refl) a in
      delivered-nudges ref now s'
      ∙ ap (λ (rs : List AuditRecord). length (select (to_in_window ref now s') rs)) same
      ∙ length-select_agree (to_in_window ref now s') (to_in_window ref now s) (nudges s) agree
      ∙ sym (delivered-nudges ref now s)

  -- the invariant: the ceiling, and that each delivery counts for some customer
  abbrev pub Invariant : Store → Type 0
  Invariant s = CeilingHolds p s × AllKnown s

  pub Invariant-Grows : (s s' : Store) → Grows s s' → Invariant s → Invariant s'
  Invariant-Grows s s' g (h, a) =
      (λ ref now. rw (delivered-Grows ref now s s' g a) (h ref now), AllKnown-kept s s' g a)

  Turn-Invariant : (now : Instant) (s s' : Store) → Turn p now s s' → Invariant s → Invariant s'
  Turn-Invariant now s s' (quiet same e) = Invariant-Grows s s' (quiet-Grows p s s' same e)
  Turn-Invariant now s s' (noted r same e none_sent) =
      Invariant-Grows s s' (noted-Grows p s s' r same e none_sent)
  Turn-Invariant now s s' (sent r owner same e at own room) = λ (h, a). (
    Turn-CeilingHolds p now s s' (sent r owner same e at own room) h,
    sent-AllKnown p s s' r owner same e own a,
  )

  module _ (table : Reasons) (link : Case → Option Text) (digest : Text → Text → Text) where
    Step-Invariant : (s s' : Store) → Step p table link digest s s' → Invariant s → Invariant s'
    Step-Invariant s s' st h =
        elim (Step-cases grows_frame mark_event-Grows p table link digest s s' st) [
          | inl g ↦ Invariant-Grows s s' g h
          | inr (now, worker, limit, e) ↦
              subst Invariant e (run_due_kept p link Invariant Turn-Invariant now worker limit s h)
        ]

    Reach-Invariant : (s : Store) → Reach p table link digest s → Invariant s
    Reach-Invariant s start = (λ ref now. omega arith, tt)
    Reach-Invariant s' (then {s} r st) = Step-Invariant s s' st (Reach-Invariant s r)

    -- In every store that webhooks, failures, replies, stops, reviews, payments, liftings of
    -- suppressions and passes of the runner reach from a new database, in any order and at any
    -- times, no window of the policy's length that ends at any instant holds more delivered nudges to
    -- a customer than the policy allows, counted over all the customer's cases.
    pub Reach-CeilingHolds : (s : Store) → Reach p table link digest s → CeilingHolds p s
    Reach-CeilingHolds s r = (Reach-Invariant s r).0
