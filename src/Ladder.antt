-- ===== src/Ladder.antt =====
-- src/unhalted/shell/ladder.py: which intervention to try, and whether it is worth its cost.
pub mod Economics
pub mod Steps
use unhalted.Prelude.{
  ℕ, ◌*◌, Bool, true, false, ◌&&◌, ◌||◌, not, ◌==◌, Option, none, some, List, [], ◌∷◌, leb, ltb,
  max, any, if◌then◌else◌,
}
use unhalted.Policy.{Policy, RungCosts}
use unhalted.Models.{
  DiagnosisClass, Rung, silent_retry, nudge, reauthorisation, voice_call, human_callback, RuleFired,
  channel_refused, free, uneconomic_provable, uneconomic_assumed, ltv_justified, economic,
}

-- `POLICY.ladder_rung_costs_paise[SLUG[rung]]`
unfoldable pub cost_in : RungCosts → Rung → ℕ
cost_in c silent_retry = c.silent_retry
cost_in c nudge = c.nudge
cost_in c reauthorisation = c.reauthorisation
cost_in c voice_call = c.voice_call
cost_in c human_callback = c.human_callback

-- `ENTRY.get(klass)`
unfoldable pub entry_rung : DiagnosisClass → Option Rung
entry_rung DiagnosisClass.recoverable_technical = some silent_retry
entry_rung DiagnosisClass.recoverable_balance = some nudge
entry_rung DiagnosisClass.notification_gap = some nudge
entry_rung DiagnosisClass.mandate_state_broken = some reauthorisation
entry_rung DiagnosisClass.customer_intent_revoked = none
entry_rung DiagnosisClass.unknown = none

-- A success rate is a whole number of percent.
unfoldable pub default_success : Rung → ℕ
default_success silent_retry = 20
default_success nudge = 25
default_success reauthorisation = 30
default_success voice_call = 35
default_success human_callback = 50

-- What a customer may refuse: the name of an intervention, or "voice".
pub data Channel : Type 0 where
  intervention : Rung → Channel
  voice : Channel

abbrev is_rung : Rung → Rung → Bool
is_rung silent_retry silent_retry = true
is_rung nudge nudge = true
is_rung reauthorisation reauthorisation = true
is_rung voice_call voice_call = true
is_rung human_callback human_callback = true
is_rung _ _ = false

abbrev pub names_rung : Rung → Channel → Bool
names_rung r (intervention s) = is_rung r s
names_rung r voice = false

abbrev pub is_voice : Channel → Bool
is_voice (intervention s) = false
is_voice voice = true

-- `intervention.name in refused_channels or (rung is Rung.VOICE_CALL and "voice" in ...)`
unfoldable pub refuses : Rung → List Channel → Bool
refuses rung refused =
    any (names_rung rung) refused || (is_rung rung voice_call && any is_voice refused)

pub record LadderDecision : Type 0 where
  pub rung : Rung
  pub approved : Bool
  pub assumption_used : Bool
  pub rules_fired : List RuleFired

-- `customer_ltv_paise or 0`
unfoldable pub ltv_or_zero : Option ℕ → ℕ
ltv_or_zero none = 0
ltv_or_zero (some ltv) = ltv

-- `customer_ltv_paise and customer_ltv_paise > amount_paise * 4`
unfoldable pub ltv_rules : Option ℕ → ℕ → List RuleFired
unfolding ltv_or_zero
ltv_rules ltv amount =
    if not (ltv_or_zero ltv == 0) && ltb (amount * 4) (ltv_or_zero ltv)
    then ltv_justified ∷ []
    else economic ∷ []

-- `(success_rates or DEFAULT_SUCCESS)[rung]`, in percent; a merchant's table names every rung
unfoldable pub rate_of : Option (Rung → ℕ) → Rung → ℕ
unfolding default_success
rate_of none rung = default_success rung
rate_of (some rates) rung = rates rung

module _ (p : Policy) where
  unfoldable pub evaluate : Rung → ℕ → Option ℕ → List Channel → Option (Rung → ℕ) → LadderDecision
  unfolding refuses cost_in ltv_or_zero ltv_rules rate_of
  evaluate rung amount ltv refused rates =
      let cost = cost_in p.ladder_rung_costs_paise rung in
      let stake = max amount (ltv_or_zero ltv) in
      if refuses rung refused
      then record {
        rung = rung;
        approved = false;
        assumption_used = false;
        rules_fired = channel_refused ∷ [];
      }
      else if cost == 0
      then record { rung = rung; approved = true; assumption_used = false; rules_fired = free ∷ [] }
      else if leb stake cost
      then record {
        rung = rung;
        approved = false;
        assumption_used = false;
        rules_fired = uneconomic_provable ∷ [];
      }
      else if leb (rate_of rates rung * stake) (cost * 100)
      then record {
        rung = rung;
        approved = false;
        assumption_used = true;
        rules_fired = uneconomic_assumed ∷ [];
      }
      else record {
        rung = rung;
        approved = true;
        assumption_used = true;
        rules_fired = ltv_rules ltv amount;
      }

-- `next_rung`: the loop over the values above the current one. Only the voice call can be skipped.
after_voice : List Channel → Option Rung
after_voice refused = if any is_voice refused then some human_callback else some voice_call

unfoldable pub next_rung : Rung → List Channel → Option Rung
unfolding after_voice
next_rung silent_retry refused = some nudge
next_rung nudge refused = some reauthorisation
next_rung reauthorisation refused = after_voice refused
next_rung voice_call refused = some human_callback
next_rung human_callback refused = none
