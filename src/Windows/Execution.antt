-- ===== src/Windows/Execution.antt =====
-- `is_execution_allowed` and `next_allowed_execution` of src/unhalted/shell/windows.py, against the
-- execution bands of a policy.
use unhalted.Prelude.{
  ◌*◌, ◌/◌, ◌%◌, ◌≤◌, ◌<◌, ◌≡◌, true, false, String, Option, none, some, inl, inr, first,
  first-holds, first-All, first-ne-none, arith, Bool-cases, Option-cases,
}
use unhalted.Clock.{Instant, day, minute, date_of, time_of, combine}
use unhalted.Policy.{Policy, Band, covers, IsCoherent, IsGap}
use unhalted.Windows.{subject_to_execution_bands, is_execution_allowed, next_allowed_execution}

not_lt : {a b : Instant} → ¬ (a < b) → b ≤ a
not_lt h = omega arith

module _ (p : Policy) where
  -- the band that holds an instant, for a rail that the bands govern
  abbrev band_at : Instant → Option Band
  band_at when = first (covers (time_of when)) p.npci_restricted_bands

  -- the two ways a question about the bands can go
  pub next_allowed-free :
      (t : Instant) (m : Option String)
      → (is_execution_allowed p t m).allowed ≡ true
      → next_allowed_execution p t m ≡ t
  unfolding next_allowed_execution
  next_allowed-free t m h = ground arith

  next_allowed-banded :
      (t : Instant) (m : Option String) (b : Band)
      → subject_to_execution_bands m ≡ true
      → band_at t ≡ some b
      → next_allowed_execution p t m ≡ combine (date_of t) (b.stop / minute * minute)
  unfolding next_allowed_execution
  next_allowed-banded t m b g h = ground arith

  refused_only_in_band :
      (t : Instant) (m : Option String)
      → (is_execution_allowed p t m).allowed ≡ false
      → (b : Band) × (band_at t ≡ some b) × (subject_to_execution_bands m ≡ true)
  unfolding is_execution_allowed
  refused_only_in_band t m h = elim (Option-cases (band_at t)) [
    | inl e ↦ absurd (ground arith)
    | inr (b, e) ↦ (b, e, ground arith)
  ]

  band_IsGap :
      IsCoherent p → (t : Instant) (b : Band) → band_at t ≡ some b → IsGap p.npci_restricted_bands b
  band_IsGap c t b e =
      first-All (IsGap p.npci_restricted_bands) (covers (time_of t)) p.npci_restricted_bands b
        c.separated e

  band_covers : (t : Instant) (b : Band) → band_at t ≡ some b → covers (time_of t) b ≡ true
  band_covers t b e = first-holds (covers (time_of t)) p.npci_restricted_bands b e

  moved_out :
      (t : Instant) (b : Band)
      → covers (time_of t) b ≡ true
      → b.stop < day
      → b.stop % minute ≡ 0
      → (t < combine (date_of t) (b.stop / minute * minute))
        × (time_of (combine (date_of t) (b.stop / minute * minute)) ≡ b.stop)
  moved_out t b c today whole = ground arith

  within_band :
      (t u : Instant) (b : Band)
      → covers (time_of t) b ≡ true
      → b.stop < day
      → b.stop % minute ≡ 0
      → t ≤ u
      → u < combine (date_of t) (b.stop / minute * minute)
      → covers (time_of u) b ≡ true
  within_band t u b c today whole from before = ground arith

  allowed_outside :
      (t : Instant) (m : Option String)
      → band_at t ≡ none
      → (is_execution_allowed p t m).allowed ≡ true
  unfolding is_execution_allowed
  allowed_outside t m e = ground arith

  allowed_governed :
      (t : Instant) (m : Option String)
      → subject_to_execution_bands m ≡ true
      → (is_execution_allowed p t m).allowed ≡ true
      → band_at t ≡ none
  unfolding is_execution_allowed
  allowed_governed t m g e = ground arith

  moved_IsAllowed :
      IsCoherent p
      → (t : Instant) (m : Option String) (b : Band) → band_at t ≡ some b
      → subject_to_execution_bands m ≡ true
      → (t ≤ next_allowed_execution p t m)
        × ((is_execution_allowed p (next_allowed_execution p t m) m).allowed ≡ true)
  moved_IsAllowed c t m b e g =
      let gap = band_IsGap c t b e in
      let out = moved_out t b (band_covers t b e) gap.1 gap.2 in
      rw (next_allowed-banded t m b g e) (omega arith, allowed_outside _ m (rw out.1 gap.3))

  -- the time given back is permitted and not before the time asked for
  pub next_allowed_execution-IsAllowed :
      IsCoherent p
      → (t : Instant) (m : Option String)
      → (t ≤ next_allowed_execution p t m)
        × ((is_execution_allowed p (next_allowed_execution p t m) m).allowed ≡ true)
  next_allowed_execution-IsAllowed c t m = elim (Bool-cases (is_execution_allowed p t m).allowed) [
    | inl free ↦ rw (next_allowed-free t m free) (omega arith, free)
    | inr held ↦
        let (b, at_t, governed) = refused_only_in_band t m held in
        moved_IsAllowed c t m b at_t governed
  ]

  -- no permitted time at or after the time asked for comes before it
  pub next_allowed_execution_least :
      IsCoherent p
      → (t u : Instant) (m : Option String) → t ≤ u
      → (is_execution_allowed p u m).allowed ≡ true
      → next_allowed_execution p t m ≤ u
  next_allowed_execution_least c t u m h ok =
      elim (Bool-cases (is_execution_allowed p t m).allowed) [
        | inl free ↦ rw (next_allowed-free t m free) h
        | inr held ↦
            let (b, at_t, governed) = refused_only_in_band t m held in
            let gap = band_IsGap c t b at_t in
            let within = within_band t u b (band_covers t b at_t) gap.1 gap.2 h in
            let hits =
              first-ne-none (covers (time_of t)) (covers (time_of u)) p.npci_restricted_bands b
                at_t in
            rw (next_allowed-banded t m b governed at_t)
              (not_lt (λ early. hits (within early) (allowed_governed u m governed ok)))
      ]

  -- In a coherent policy the time given back is the earliest that is permitted at or after the time
  -- asked for, on every rail.
  pub next_allowed_execution_earliest :
      IsCoherent p
      → (t : Instant) (m : Option String)
      → (t ≤ next_allowed_execution p t m)
        × ((is_execution_allowed p (next_allowed_execution p t m) m).allowed ≡ true)
        × ((u : Instant)
            → t ≤ u
            → (is_execution_allowed p u m).allowed ≡ true
            → next_allowed_execution p t m ≤ u)
  next_allowed_execution_earliest c t m =
      let (after, allowed) = next_allowed_execution-IsAllowed c t m in
      (after, allowed, λ u h ok. next_allowed_execution_least c t u m h ok)
