-- ===== src/Windows/Budget.antt =====
-- `contact_budget` of src/unhalted/shell/windows.py: the instant at which a spent budget frees.
use unhalted.Prelude.{
  ◌+◌, ◌-◌, ◌≤◌, ◌<◌, ◌≡◌, Bool, true, false, none, some, refl, List, [], ◌∷◌, select, length,
  length-select_mono, ltb, arith,
}
use unhalted.Clock.{Instant}
use unhalted.Policy.{Policy, IsCoherent}
use unhalted.Windows.{
  BudgetCheck, is_contact_allowed, next_allowed_contact, inside_window, contact_budget,
}
use unhalted.Windows.Contact.{contact_allowed_after}

module _ {A : Type 0} (p q : A → Bool) (q_p : (x : A) → q x ≡ true → p x ≡ true) where
  -- the head of what `p` selects is one that `q` leaves out
  length-select_without :
      (xs : List A) (o : A) (rest : List A)
      → select p xs ≡ o ∷ rest
      → q o ≡ false
      → length (select q xs) ≤ length rest
  length-select_without [] o rest e h = absurd (cc)
  length-select_without (x ∷ xs) o rest e h =
      ground (arith, length-select_mono p q q_p xs, length-select_without xs o rest, q_p x)

module _ (p : Policy) where
  -- the instants that the window still counts at `later` were counted at `now`
  still_inside :
      (now later t : Instant)
      → now ≤ later
      → ltb (later - p.contact_window) t ≡ true
      → ltb (now - p.contact_window) t ≡ true
  still_inside now later t h k = ground arith

  expired :
      (oldest later : Instant)
      → oldest + p.contact_window ≤ later
      → ltb (later - p.contact_window) oldest ≡ false
  expired oldest later h = ground arith

  head_inside :
      (recent : List Instant) (now oldest : Instant) (rest : List Instant)
      → inside_window p recent now ≡ oldest ∷ rest
      → now < oldest + p.contact_window
  unfolding inside_window
  head_inside [] now oldest rest e = absurd (cc)
  head_inside (t ∷ recent) now oldest rest e = ground (arith, head_inside recent now oldest rest)

  -- after the oldest message that is counted has aged out, one message fewer is counted
  used_later :
      (recent : List Instant) (now later oldest : Instant) (rest : List Instant)
      → inside_window p recent now ≡ oldest ∷ rest
      → now ≤ later
      → oldest + p.contact_window ≤ later
      → length (inside_window p recent later) ≤ length rest
  unfolding inside_window
  used_later recent now later oldest rest e h k =
      length-select_without (λ t. ltb (now - p.contact_window) t)
        (λ t. ltb (later - p.contact_window) t) (λ t. still_inside now later t h) recent oldest rest
        e (expired oldest later k)

  has_room :
      (recent : List Instant) (now : Instant)
      → length (inside_window p recent now) < p.contact_max_per_window
      → (check : BudgetCheck) × (contact_budget p recent now ≡ some check) × (check.allowed ≡ true)
  unfolding contact_budget
  has_room recent now h = (
    record {
      allowed = true;
      used = length (inside_window p recent now);
      limit = p.contact_max_per_window;
      free_at = none;
    },
    ground arith,
    refl,
  )

  spent :
      (recent : List Instant) (now : Instant) (check : BudgetCheck)
      → contact_budget p recent now ≡ some check
      → check.allowed ≡ false
      → (oldest : Instant) × (rest : List Instant) × (inside_window p recent now ≡ oldest ∷ rest)
        × (check.used ≡ length (oldest ∷ rest))
        × (check.limit ≡ p.contact_max_per_window)
        × (check.free_at ≡ some (next_allowed_contact p (oldest + p.contact_window)))
  unfolding contact_budget
  spent recent now check e refused = go (inside_window p recent now) refl
    where
      go :
          (inside : List Instant)
          → inside_window p recent now ≡ inside
          → (oldest : Instant) × (rest : List Instant) × (inside_window p recent now
              ≡ oldest ∷ rest)
            × (check.used ≡ length (oldest ∷ rest))
            × (check.limit ≡ p.contact_max_per_window)
            × (check.free_at ≡ some (next_allowed_contact p (oldest + p.contact_window)))
      go [] i = absurd (ground arith)
      go (oldest ∷ rest) i = (oldest, rest, i, ground arith, ground arith, ground arith)

  -- In a coherent policy, a message that the budget refuses, where no more than the limit was used,
  -- is deferred to a later instant inside contact hours at which the budget has room again for the
  -- same messages.
  contact_budget_frees :
      IsCoherent p
      → (recent : List Instant) (now : Instant) (check : BudgetCheck) (f : Instant)
      → contact_budget p recent now ≡ some check
      → check.allowed ≡ false
      → check.used ≤ check.limit
      → check.free_at ≡ some f
      → (now < f)
        × ((is_contact_allowed p f).allowed ≡ true)
        × ((later : BudgetCheck) × (contact_budget p recent f ≡ some later)
            × (later.allowed ≡ true))
  contact_budget_frees c recent now check f e refused full at =
      let (oldest, rest, inside, used, limit, free) = spent recent now check e refused in
      let at_f : f ≡ next_allowed_contact p (oldest + p.contact_window) = cc in
      let open_f = contact_allowed_after p c (oldest + p.contact_window) in
      let fits = used_later recent now f oldest rest inside in
      let later : now < f = omega (arith, head_inside recent now oldest rest inside, open_f.0) in
      (
        later,
        rw at_f open_f.1,
        has_room recent f (omega (arith, fits (omega arith) (omega (arith, open_f.0)))),
      )
