-- ===== src/Tests/Signals.antt =====
-- A `payment.failed` event on its way to a signal.
use unhalted.Prelude.{ℕ, ◌+◌, ◌*◌, refl, none, List, [], ◌∷◌}
use unhalted.Prelude.Texts.{codes}
use unhalted.Models.{Text, FailureSignal}
use unhalted.Language.Json.{text, int, obj, Fields, field, end, Outside}
use unhalted.Normalize.{from_payment_failed}
use unhalted.Normalize.Pseudonyms.{IsAdmitted, from_payment_failed-IsAdmitted}
use unhalted.Tests.Fixtures.{morning}

abbrev plain : Outside
plain = record { repr = λ v. ""; fold = λ c. c ∷ []; loads = λ cs. none; float_of = λ s. none }

-- a digest that keeps nothing of its text
abbrev digest : List ℕ → List ℕ
digest cs = codes "0123456789abcdef0123456789abcdef"

-- a numbering of texts
abbrev numbered : List ℕ → Text
numbered [] = 0
numbered (c ∷ cs) = 1 + c + 1114112 * numbered cs

abbrev payment : Fields
payment = field "id" (text "pay_1") (
    field "amount" (int 49900)
      (field "contact" (text "+911234567890") (field "created_at" (int 1728012600) end)))

abbrev event : Fields
event =
    field "event" (text "payment.failed")
      (field "payload" (obj (field "payment" (obj (field "entity" (obj payment) end)) end)) end)

abbrev failed_payment : FailureSignal
failed_payment = record {
  payment_id = numbered (codes "pay_1");
  order_id = none;
  customer_ref = numbered (codes "cust_0123456789abcdef");
  amount_paise = 49900;
  method = none;
  error_reason = none;
  error_source = none;
  error_step = none;
  occurred_at = (1728012600 + 19800) * 1000000;
  mandate_max_paise = none;
}

from_payment_failed-IsAdmitted_example :
    (paid : Fields) × IsAdmitted plain digest numbered event paid failed_payment
unfolding from_payment_failed
from_payment_failed-IsAdmitted_example =
    from_payment_failed-IsAdmitted plain digest numbered event morning failed_payment refl
