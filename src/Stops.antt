-- ===== src/Stops.antt =====
-- src/unhalted/shell/stops.py: the nine stop rules.
use unhalted.Prelude.{
  Bool, true, false, String, Option, none, some, ◌*◌, str_eq, if◌then◌else◌, List, [], ◌∷◌,
}
use unhalted.Clock.{Duration, minute}
use unhalted.Models.{
  CaseState, unrecovered, closed_revoked, StopCode, revoked, retry_cap, chargeback, merchant_pause,
  reg_hold,
}

pub data StopScope : Type 0 where
  of_case of_customer of_merchant : StopScope

-- `trigger`, `action` and `why` are texts for the audit trail.
pub record StopRule : Type 0 where
  pub code : StopCode
  pub scope : StopScope
  pub sla : Option Duration
  pub terminal_state : Option CaseState
  pub suppresses_contact : Bool

abbrev stop_rule_of : StopCode → StopScope → Option Duration → Option CaseState → Bool → StopRule
stop_rule_of code scope sla terminal suppresses = record {
  code = code;
  scope = scope;
  sla = sla;
  terminal_state = terminal;
  suppresses_contact = suppresses;
}

-- `RULES[code]`
unfoldable pub rule : StopCode → StopRule
rule revoked = stop_rule_of revoked of_customer (some minute) (some closed_revoked) true
rule StopCode.opt_out = stop_rule_of StopCode.opt_out of_customer (some minute) none true
rule StopCode.dispute =
    stop_rule_of StopCode.dispute of_customer (some minute) (some CaseState.held_for_human) true
rule StopCode.distress =
    stop_rule_of StopCode.distress of_case (some minute) (some CaseState.held_for_human) true
rule retry_cap = stop_rule_of retry_cap of_case none none false
rule StopCode.ladder_end = stop_rule_of StopCode.ladder_end of_case none (some unrecovered) true
rule chargeback =
    stop_rule_of chargeback of_customer (some (5 * minute)) (some CaseState.held_for_human) true
rule merchant_pause = stop_rule_of merchant_pause of_merchant (some (5 * minute)) none true
rule reg_hold =
    stop_rule_of reg_hold of_case (some (5 * minute)) (some CaseState.held_for_human) true

-- the keys of `RULES`; any other code is a `KeyError`
abbrev keys : List (String × StopCode)
keys =
    ("REVOKED", revoked)
    ∷ ("OPT_OUT", StopCode.opt_out)
    ∷ ("DISPUTE", StopCode.dispute)
    ∷ ("DISTRESS", StopCode.distress)
    ∷ ("RETRY_CAP", retry_cap)
    ∷ ("LADDER_END", StopCode.ladder_end)
    ∷ ("CHARGEBACK", chargeback)
    ∷ ("MERCHANT_PAUSE", merchant_pause)
    ∷ ("REG_HOLD", reg_hold)
    ∷ []

code_among : String → List (String × StopCode) → Option StopCode
code_among name [] = none
code_among name ((key, code) ∷ rest) = if str_eq key name then some code else code_among name rest

-- `rule(code)`, from the text of a code
unfoldable pub rule_named : String → Option StopRule
unfolding code_among rule
rule_named name = elim (code_among name keys) [ none ↦ none | some code ↦ some (rule code) ]
