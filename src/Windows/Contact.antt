-- ===== src/Windows/Contact.antt =====
-- `is_contact_allowed` and `next_allowed_contact` of src/unhalted/shell/windows.py.
use unhalted.Prelude.{◌≤◌, ◌≡◌, true, arith}
use unhalted.Clock.{Instant}
use unhalted.Policy.{Policy, IsCoherent}
use unhalted.Windows.{is_contact_allowed, next_allowed_contact}

module _ (p : Policy) where
  pub contact_allowed_after :
      IsCoherent p
      → (t : Instant)
      → (t ≤ next_allowed_contact p t)
        × ((is_contact_allowed p (next_allowed_contact p t)).allowed ≡ true)
  unfolding next_allowed_contact
  contact_allowed_after c t = ground arith

  contact_least :
      IsCoherent p
      → (t u : Instant) → t ≤ u
      → (is_contact_allowed p u).allowed ≡ true
      → next_allowed_contact p t ≤ u
  unfolding next_allowed_contact
  contact_least c t u h ok = ground arith

  -- In a coherent policy the instant given back is the earliest that is inside contact hours, at or
  -- after the one asked for.
  pub next_allowed_contact_earliest :
      IsCoherent p
      → (t : Instant)
      → (t ≤ next_allowed_contact p t)
        × ((is_contact_allowed p (next_allowed_contact p t)).allowed ≡ true)
        × ((u : Instant)
            → t ≤ u
            → (is_contact_allowed p u).allowed ≡ true
            → next_allowed_contact p t ≤ u)
  next_allowed_contact_earliest c t =
      let (after, allowed) = contact_allowed_after c t in
      (after, allowed, λ u h ok. contact_least c t u h ok)
