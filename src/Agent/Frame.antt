-- ===== src/Agent/Frame.antt =====
-- What every change that src/unhalted/agent.py makes to the store has in common.
--
-- A frame is a relation between a store and a later one which the agent's writes respect: it
-- composes, and it holds across an update of a case that leaves its id and its customer, an audit
-- record that is no delivered nudge, the opening of a case, and a write to a table that is neither
-- the cases, the trail nor the events. The children carry a frame through the handlers.
pub mod Escalation
pub mod Verification
pub mod Failure
pub mod Stop
pub mod Reply
use unhalted.Prelude.{
  ◌≡◌, refl, Option, none, some, ℕ, Bool, false, subst, Option-cases, inl, inr, arith,
}
use unhalted.Clock.{Instant, Day}
use unhalted.Models.{
  Text, FailureSignal, Case, CaseState, AuditRecord, Kind, NudgeVariant, Diagnosis,
}
use unhalted.Store.Tables.{Store}
use unhalted.Store.Cases.{
  update_case, set_state, suspend_nudges_until, insert_case, case_of, case_for_payment,
  insert_or_winner, open_case_or_get,
}
use unhalted.Store.Trail.{is_nudge_done, write, record_diagnosis}
use unhalted.Store.Queue.{schedule_action, cancel_pending}

pub record Frame : Type 1 where
  pub rel : Store → Store → Type 0
  pub stay : (s : Store) → rel s s
  pub after : (s s1 s2 : Store) → rel s s1 → rel s1 s2 → rel s s2
  pub updates :
      (id : Text) (f : Case → Case) (s : Store)
      → ((c : Case) → (f c).id ≡ c.id)
      → ((c : Case) → (f c).customer_ref ≡ c.customer_ref)
      → rel s (update_case id f s)
  pub writes : (r : AuditRecord) (s : Store) → is_nudge_done r.action ≡ false → rel s (write r s)
  pub opens : (c : Case) (x : FailureSignal) (s s' : Store) → insert_case c x s ≡ some s' → rel s s'
  pub elsewhere :
      (s s' : Store)
      → s'.cases ≡ s.cases
      → s'.audit ≡ s.audit
      → s'.processed_events ≡ s.processed_events
      → rel s s'

module _ (F : Frame) where
  -- if the step returns, its store is in the frame
  abbrev pub Kept : Store → Option Store → Type 0
  Kept s none = Unit
  Kept s (some s') = F.rel s s'

  abbrev pub KeptWith : {A : Type 0} → Store → Option (A × Store) → Type 0
  KeptWith s none = Unit
  KeptWith s (some r) = F.rel s (r.1)

  -- each of these adds one write to a stretch that is in the frame
  pub framed-write :
      {s s1 : Store} (r : AuditRecord)
      → F.rel s s1
      → is_nudge_done r.action ≡ false
      → F.rel s (write r s1)
  framed-write {s} {s1} r h quiet = F.after s s1 _ h (F.writes r s1 quiet)

  pub framed-set_state :
      {s s1 : Store} (id : Text) (state : CaseState) → F.rel s s1 → F.rel s (set_state id state s1)
  unfolding set_state
  framed-set_state {s} {s1} id state h = F.after s s1 _ h (F.updates _ _ s1 (λ c. refl) (λ c. refl))

  pub framed-suspend :
      {s s1 : Store} (id : Text) (until : Option Day)
      → F.rel s s1
      → F.rel s (suspend_nudges_until id until s1)
  unfolding suspend_nudges_until
  framed-suspend {s} {s1} id until h = F.after s s1 _ h (F.updates _ _ s1 (λ c. refl) (λ c. refl))

  pub framed-schedule :
      {s s1 : Store} (id ref : Text) (k : Kind) (at : Option Instant) (v : Option NudgeVariant)
      → F.rel s s1
      → F.rel s (schedule_action id ref k at v s1).1
  unfolding schedule_action
  framed-schedule {s} {s1} id ref k at v h = F.after s s1 _ h (F.elsewhere s1 _ refl refl refl)

  pub framed-record_diagnosis :
      {s s1 : Store} (id : Text) (d : Diagnosis) → F.rel s s1 → F.rel s (record_diagnosis id d s1)
  unfolding record_diagnosis
  framed-record_diagnosis {s} {s1} id d h = F.after s s1 _ h (F.elsewhere s1 _ refl refl refl)

  pub framed-cancel :
      {s s1 s2 : Store} (ref id : Text) (now : Option Instant) (n : ℕ)
      → F.rel s s1
      → cancel_pending ref id now s1 ≡ some (n, s2)
      → F.rel s s2
  unfolding cancel_pending
  framed-cancel {s} {s1} {s2} ref id now n h e =
      F.after s s1 s2 h
        (F.elsewhere s1 s2 (ground (arith, e)) (ground (arith, e)) (ground (arith, e)))

  pub framed-open :
      (fresh : Text) (x : FailureSignal) (s : Store) (c : Case) (created : Bool) (s' : Store)
      → open_case_or_get fresh x s ≡ some (c, created, s')
      → F.rel s s'
  unfolding open_case_or_get insert_or_winner
  framed-open fresh x s c created s' e = elim (Option-cases (case_for_payment x.payment_id s)) [
    | inr (known, at) ↦ subst (λ (t : Store). F.rel s t) (ground (arith, at, e)) (F.stay s)
    | inl unknown ↦ elim (Option-cases (insert_case (case_of fresh x) x s)) [
      | inl refused ↦ absurd (ground (arith, unknown, refused, e))
      | inr (s1, at) ↦
          subst (λ (t : Store). F.rel s t) (ground (arith, unknown, at, e))
            (F.opens (case_of fresh x) x s s1 at)
    ]
  ]
