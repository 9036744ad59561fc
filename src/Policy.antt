-- ===== src/Policy.antt =====
-- The typed policy of src/unhalted/policy.py, which every rule reads, and the values that
-- config/policy.yaml gives it.
use unhalted.Prelude.{
  ℕ, ◌*◌, ◌%◌, ◌+◌, ◌<◌, ◌≡◌, List, [], ◌∷◌, Bool, ◌&&◌, leb, ltb, none, first, All, arith,
}
use unhalted.Clock.{TimeOfDay, Duration, minute, hour, day}

-- A restricted band, start inclusive and end exclusive.
pub record Band : Type 0 where
  pub start : TimeOfDay
  pub stop : TimeOfDay

-- `start <= t < end`
abbrev pub covers : TimeOfDay → Band → Bool
covers t b = leb b.start t && ltb t b.stop

-- `ladder_rung_costs_paise`, by slug
pub record RungCosts : Type 0 where
  pub silent_retry : ℕ
  pub nudge : ℕ
  pub reauthorisation : ℕ
  pub voice_call : ℕ
  pub human_callback : ℕ

-- `backoff_raw`, by the class's value; a class that the file does not name has the empty schedule
pub record Backoff : Type 0 where
  pub recoverable_technical : List Duration
  pub recoverable_balance : List Duration
  pub notification_gap : List Duration
  pub mandate_state_broken : List Duration
  pub customer_intent_revoked : List Duration
  pub unknown : List Duration

-- A confidence is a number of millionths.
pub record Policy : Type 0 where
  pub npci_restricted_bands : List Band
  pub contact_open : TimeOfDay
  pub contact_close : TimeOfDay
  pub contact_max_per_window : ℕ
  pub contact_window : Duration
  pub retry_cap : ℕ
  pub backoff : Backoff
  pub default_backoff : Duration
  pub reply_grace : Duration
  pub confidence_auto_execute : ℕ
  pub confidence_sampled_qa : ℕ
  pub reply_acts_on_money : ℕ
  pub reply_protective : ℕ
  pub reply_cancellation : ℕ
  pub ladder_rung_costs_paise : RungCosts
  pub frictionless_upi_paise : ℕ
  pub frictionless_upi_bfsi_paise : ℕ
  pub upi_mandate_max_paise : ℕ
  pub card_recurring_max_paise : ℕ
  pub emandate_max_paise : ℕ

-- A band ends on the day that it starts, at a whole minute, and its end is in no band: no two bands
-- touch or overlap.
abbrev pub IsGap : List Band → Band → Type 0
IsGap bands b =
    (b.start < b.stop)
    × (b.stop < day)
    × (b.stop % minute ≡ 0)
    × (first (covers b.stop) bands ≡ none)

abbrev pub AreSeparated : List Band → Type 0
AreSeparated bands = All (IsGap bands) bands

-- What the rules ask of a policy file; `load` does not check it.
pub record IsCoherent (p : Policy) : Type 0 where
  pub separated : AreSeparated p.npci_restricted_bands
  pub opens_before : p.contact_open < p.contact_close
  pub closes_today : p.contact_close < day

-- config/policy.yaml, version policy-2026-09-04
abbrev pub policy_yaml : Policy
policy_yaml = record {
  npci_restricted_bands =
      record { start = 10 * hour; stop = 13 * hour }
      ∷ record { start = 17 * hour; stop = 21 * hour + 30 * minute }
      ∷ [];
  contact_open = 8 * hour;
  contact_close = 19 * hour;
  contact_max_per_window = 1;
  contact_window = 14 * day;
  retry_cap = 3;
  backoff = record {
    recoverable_technical = (30 * minute) ∷ (2 * hour) ∷ (6 * hour) ∷ [];
    recoverable_balance = day ∷ day ∷ (2 * day) ∷ [];
    notification_gap = (25 * hour) ∷ (25 * hour) ∷ (25 * hour) ∷ [];
    mandate_state_broken = [];
    customer_intent_revoked = [];
    unknown = [];
  };
  default_backoff = 6 * hour;
  reply_grace = 25 * hour;
  confidence_auto_execute = 900000;
  confidence_sampled_qa = 700000;
  reply_acts_on_money = 700000;
  reply_protective = 500000;
  reply_cancellation = 850000;
  ladder_rung_costs_paise = record {
    silent_retry = 0;
    nudge = 100;
    reauthorisation = 200;
    voice_call = 800;
    human_callback = 6000;
  };
  frictionless_upi_paise = 1500000;
  frictionless_upi_bfsi_paise = 10000000;
  upi_mandate_max_paise = 10000000;
  card_recurring_max_paise = 1500000;
  emandate_max_paise = 1000000000;
}

pub policy_yaml-IsCoherent : IsCoherent policy_yaml
policy_yaml-IsCoherent = ground arith
