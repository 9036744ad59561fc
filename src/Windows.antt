-- ===== src/Windows.antt =====
-- src/unhalted/shell/windows.py: NPCI's execution bands, contact hours and the contact ceiling.
pub mod Execution
pub mod Contact
pub mod Budget
use unhalted.Prelude.{
  ℕ, ◌+◌, ◌-◌, ◌*◌, ◌/◌, Bool, true, false, not, ◌&&◌, ◌||◌, String, Option, none, some, List, [],
  ◌∷◌, ltb, leb, length, select, first, any, reads_as, if◌then◌else◌,
}
use unhalted.Clock.{Instant, TimeOfDay, minute, day, date_of, time_of, combine}
use unhalted.Policy.{Policy, Band, covers}

-- `UNBANDED_METHODS`
abbrev unbanded_methods : List String
unbanded_methods = "card" ∷ "emandate" ∷ "nach" ∷ "netbanking" ∷ "wallet" ∷ []

unfoldable pub subject_to_execution_bands : Option String → Bool
subject_to_execution_bands none = true
subject_to_execution_bands (some method) = not (any (λ m. reads_as method m) unbanded_methods)

-- `WindowCheck.reason`, with the band that it names
pub data WindowReason : Type 0 where
  no_band_applies outside_all_bands inside_contact_hours outside_contact_hours : WindowReason
  restricted : Band → WindowReason

pub record WindowCheck : Type 0 where
  pub allowed : Bool
  pub reason : WindowReason
  pub band : Option Band

-- `BudgetCheck`; its `reason` repeats the numbers
pub record BudgetCheck : Type 0 where
  pub allowed : Bool
  pub used : ℕ
  pub limit : ℕ
  pub free_at : Option Instant

module _ (p : Policy) where
  -- the loop over `RESTRICTED_BANDS`, which returns at the first band that holds the time
  band_check : Option Band → WindowCheck
  band_check none = record { allowed = true; reason = outside_all_bands; band = none }
  band_check (some b) = record { allowed = false; reason = restricted b; band = some b }

  unfoldable pub is_execution_allowed : Instant → Option String → WindowCheck
  unfolding band_check
  is_execution_allowed when method =
      if subject_to_execution_bands method
      then band_check (first (covers (time_of when)) p.npci_restricted_bands)
      else record { allowed = true; reason = no_band_applies; band = none }

  -- `when.replace(hour=end.hour, minute=end.minute, second=0, microsecond=0)`
  pub replace_time : Instant → TimeOfDay → Instant
  replace_time when t = combine (date_of when) (t / minute * minute)

  -- A refused check has a band: the source asserts it.
  move_out : WindowCheck → Instant → Instant
  unfolding replace_time
  move_out check when =
      if check.allowed
      then when
      else elim check.band [ none ↦ when | some b ↦ replace_time when b.stop ]

  unfoldable pub next_allowed_execution : Instant → Option String → Instant
  unfolding move_out is_execution_allowed
  next_allowed_execution when method = move_out (is_execution_allowed when method) when

  unfoldable pub is_contact_allowed : Instant → WindowCheck
  is_contact_allowed when =
      if leb p.contact_open (time_of when) && ltb (time_of when) p.contact_close
      then record { allowed = true; reason = inside_contact_hours; band = none }
      else record {
        allowed = false;
        reason = outside_contact_hours;
        band = some (record { start = p.contact_open; stop = p.contact_close });
      }

  unfoldable pub next_allowed_contact : Instant → Instant
  unfolding is_contact_allowed
  next_allowed_contact when =
      if (is_contact_allowed when).allowed
      then when
      else combine (if leb p.contact_close (time_of when) then date_of when + 1 else date_of when)
          p.contact_open

  -- the messages that the window still counts
  unfoldable pub inside_window : List Instant → Instant → List Instant
  inside_window recent now = select (λ t. ltb (now - p.contact_window) t) recent

  -- `inside[0]` is an `IndexError` where the ceiling is zero and nothing was sent: `none`.
  over_budget : List Instant → Option BudgetCheck
  unfolding next_allowed_contact
  over_budget [] = none
  over_budget (oldest ∷ rest) = some (record {
    allowed = false;
    used = length (oldest ∷ rest);
    limit = p.contact_max_per_window;
    free_at = some (next_allowed_contact (oldest + p.contact_window));
  })

  unfoldable pub contact_budget : List Instant → Instant → Option BudgetCheck
  unfolding inside_window over_budget
  contact_budget recent now =
      let inside = inside_window recent now in
      if ltb (length inside) p.contact_max_per_window
      then some (record {
        allowed = true;
        used = length inside;
        limit = p.contact_max_per_window;
        free_at = none;
      })
      else over_budget inside
