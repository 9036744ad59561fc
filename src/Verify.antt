-- ===== src/Verify.antt =====
-- src/unhalted/shell/verify.py: whether an order has been paid by another attempt.
use unhalted.Prelude.{Bool, ◌||◌, String, str_eq, Option, none, some, List, any}
use unhalted.Models.{Text}

pub record Verification : Type 0 where
  pub already_paid : Bool

-- `Verifier.order_settled`; `none` is `VerificationUnavailable`
abbrev pub Verifier : Type 0
Verifier = Text → Option Verification

-- `p.get("status") in ("captured", "authorized")`
abbrev pub is_settled : String → Bool
is_settled status = str_eq status "captured" || str_eq status "authorized"

-- `RazorpayVerifier`: `payments` stands for the client's answer, the statuses of the order's payments
unfoldable pub razorpay : (Text → List String) → Verifier
razorpay payments order = some (record { already_paid = any is_settled (payments order) })

-- `UnavailableVerifier`
unfoldable pub unavailable : Verifier
unavailable order = none
