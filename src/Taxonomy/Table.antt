-- ===== src/Taxonomy/Table.antt =====
-- `TABLE` of src/unhalted/core/taxonomy.py, in the order of the source. Directness is in hundredths.
use unhalted.Prelude.{ℕ, String, List, [], ◌∷◌}
use unhalted.Models.{DiagnosisClass}

-- `Rule`; its rationale is a text
pub record Rule : Type 0 where
  pub klass : DiagnosisClass
  pub directness : ℕ

-- (method, error_reason, error_source, error_step)
pub record Key : Type 0 where
  pub method : String
  pub reason : String
  pub source : String
  pub step : String

-- `ANY`
abbrev pub any : String
any = "*"

abbrev pub direct : ℕ
direct = 100

abbrev pub inferred : ℕ
inferred = 80

abbrev row : String → String → DiagnosisClass → ℕ → Key × Rule
row reason source klass directness = (
  record { method = any; reason = reason; source = source; step = any },
  record { klass = klass; directness = directness },
)

unfoldable pub table : List (Key × Rule)
table =
    row "insufficient_funds" any DiagnosisClass.recoverable_balance direct
    ∷ row "insufficient_fund" any DiagnosisClass.recoverable_balance direct
    ∷ row "payment_declined" any DiagnosisClass.recoverable_balance inferred
    ∷ row "bank_technical_error" any DiagnosisClass.recoverable_technical direct
    ∷ row "payment_failed" "bank" DiagnosisClass.recoverable_technical inferred
    ∷ row "payment_failed" "issuer" DiagnosisClass.recoverable_technical inferred
    ∷ row "payment_failed" "issuer_bank" DiagnosisClass.recoverable_technical inferred
    ∷ row "payment_timed_out" "customer" DiagnosisClass.notification_gap direct
    ∷ row "payment_timed_out" "bank" DiagnosisClass.recoverable_technical direct
    ∷ row "payment_timed_out" any DiagnosisClass.recoverable_technical inferred
    ∷ row "gateway_technical_error" any DiagnosisClass.recoverable_technical direct
    ∷ row "credit_failed" "customer" DiagnosisClass.mandate_state_broken direct
    ∷ row "credit_failed" any DiagnosisClass.recoverable_technical inferred
    ∷ row "payment_cancelled" any DiagnosisClass.customer_intent_revoked inferred
    ∷ row "invalid_vpa" any DiagnosisClass.mandate_state_broken direct
    ∷ row "transaction_on_vpa_restricted" any DiagnosisClass.mandate_state_broken direct
    ∷ row "card_expired" any DiagnosisClass.mandate_state_broken direct
    ∷ row "debit_instrument_blocked" any DiagnosisClass.mandate_state_broken direct
    ∷ row "card_disabled_for_online_payments" any DiagnosisClass.mandate_state_broken direct
    ∷ row "authentication_failed" any DiagnosisClass.notification_gap inferred
    ∷ row "card_not_enrolled" any DiagnosisClass.mandate_state_broken direct
    ∷ row "debit_instrument_inactive" any DiagnosisClass.mandate_state_broken direct
    ∷ row "vpa_resolution_failed" any DiagnosisClass.mandate_state_broken direct
    ∷ row "incorrect_cvv" any DiagnosisClass.mandate_state_broken inferred
    ∷ row "transaction_limit_exceeded" any DiagnosisClass.recoverable_balance inferred
    ∷ row "card_declined" any DiagnosisClass.recoverable_technical inferred
    ∷ row "payment_failed" any DiagnosisClass.recoverable_technical inferred
    ∷ row "payment_risk_check_failed" any DiagnosisClass.unknown 0
    ∷ row "payment_collect_request_expired" any DiagnosisClass.notification_gap direct
    ∷ row "mandate_not_active" any DiagnosisClass.mandate_state_broken direct
    ∷ row "bank_account_invalid" any DiagnosisClass.mandate_state_broken direct
    ∷ row "incorrect_ifsc" any DiagnosisClass.mandate_state_broken direct
    ∷ row "payment_mandate_not_active" any DiagnosisClass.recoverable_technical direct
    ∷ row "bank_account_validation_failed" any DiagnosisClass.recoverable_technical inferred
    ∷ row "server_error" any DiagnosisClass.recoverable_technical direct
    ∷ row "invalid_amount" any DiagnosisClass.unknown 0
    ∷ row "input_validation_failed" any DiagnosisClass.unknown 0
    ∷ row "international_transaction_not_allowed" any DiagnosisClass.unknown 0
    ∷ row "invalid_currency" any DiagnosisClass.unknown 0
    ∷ []
