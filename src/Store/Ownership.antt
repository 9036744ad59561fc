-- ===== src/Store/Ownership.antt =====
-- The owner of a case under the updates of src/unhalted/store.py.
use unhalted.Prelude.{
  ◌≡◌, refl, Bool, false, none, some, List, [], ◌∷◌, ◌==◌, first, map, suc, arith,
}
use unhalted.Models.{Text, Case, CaseState}
use unhalted.Store.Tables.{Store}
use unhalted.Store.Cases.{has_id, on_case, update_case, set_state, increment_retry_count}
use unhalted.Store.Trail.{belongs_to}

module _ (f : Case → Case) (keeps_id : (c : Case) → (f c).id ≡ c.id)
    (keeps_ref : (c : Case) → (f c).customer_ref ≡ c.customer_ref) where
  -- the owner found in the list of cases
  abbrev owned : Text → Text → List Case → Bool
  owned ref id cs = elim (first (has_id id) cs) [ none ↦ false | some c ↦ c.customer_ref == ref ]

  owned-map :
      (ref id j : Text) (cs : List Case) → owned ref id (map (on_case j f) cs) ≡ owned ref id cs
  owned-map ref id j [] = refl
  owned-map ref id j (c ∷ cs) = ground (arith, owned-map ref id j cs, keeps_id c, keeps_ref c)

  pub belongs_to-update_case :
      (ref id j : Text) (s : Store) → belongs_to ref (update_case j f s) id ≡ belongs_to ref s id
  unfolding belongs_to update_case
  belongs_to-update_case ref id j s = owned-map ref id j s.cases

pub belongs_to-set_state :
    (ref id j : Text) (state : CaseState) (s : Store)
    → belongs_to ref (set_state j state s) id ≡ belongs_to ref s id
unfolding set_state
belongs_to-set_state ref id j state s =
    belongs_to-update_case (λ c. record c { state = state }) (λ c. refl) (λ c. refl) ref id j s

pub belongs_to-increment :
    (ref id j : Text) (s : Store)
    → belongs_to ref (increment_retry_count j s) id ≡ belongs_to ref s id
unfolding increment_retry_count
belongs_to-increment ref id j s =
    belongs_to-update_case (λ c. record c { retry_count = suc c.retry_count }) (λ c. refl)
      (λ c. refl) ref id j s
