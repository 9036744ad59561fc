-- ===== src/System/Turns.antt =====
-- The turns of a pass (src/unhalted/runner.py) and the deliveries on file.
use unhalted.Prelude.{
  ◌≡◌, refl, ◌∙◌, false, [], ◌∷◌, ◌++◌, ◌==◌, select, All-mono, All-append, All-select,
  select-append, select-append_none,
}
use unhalted.Policy.{Policy}
use unhalted.Models.{Text, AuditRecord}
use unhalted.Store.Tables.{Store}
use unhalted.Store.Payments.{==_refl}
use unhalted.Store.Trail.{is_nudge_done, belongs_to}
use unhalted.Runner.Ceiling.{SameOwners}
use unhalted.System.Growth.{is_delivery, nudges, Known, AllKnown, Grows}

module _ (p : Policy) where
  pub quiet-Grows : (s s' : Store) → SameOwners p s s' → s'.audit ≡ s.audit → Grows s s'
  quiet-Grows s s' same e = (rw e refl, λ ref id h. same ref id ∙ h)

  pub noted-Grows :
      (s s' : Store) (r : AuditRecord)
      → SameOwners p s s'
      → s'.audit ≡ s.audit ++ r ∷ []
      → is_nudge_done r.action ≡ false
      → Grows s s'
  noted-Grows s s' r same e none_sent =
      (rw e (select-append_none is_delivery s.audit r none_sent), λ ref id h. same ref id ∙ h)

  pub sent-AllKnown :
      (s s' : Store) (r : AuditRecord) (owner : Text)
      → SameOwners p s s'
      → s'.audit ≡ s.audit ++ r ∷ []
      → ((ref : Text) → belongs_to ref s r.case_id ≡ (owner == ref))
      → AllKnown s
      → AllKnown s'
  unfolding belongs_to
  sent-AllKnown s s' r owner same e own a =
      let old =
        All-mono (λ q. Known s q.case_id) (λ q. Known s' q.case_id) (nudges s)
          (λ q (ref, h). (ref, same ref q.case_id ∙ h)) a in
      let new : Known s' r.case_id = (owner, same owner r.case_id ∙ own owner ∙ ==_refl owner) in
      rw (e, select-append)
        (All-append (λ q. Known s' q.case_id) (nudges s) (select is_delivery (r ∷ [])) old
          (All-select (λ q. Known s' q.case_id) is_delivery (r ∷ []) (new, tt)))
