-- ===== src/Normalize.antt =====
-- src/unhalted/ingest/normalize.py: a `payment.failed` event, made into a signal.
--
-- `name_of` numbers the texts that the signal keeps only to compare, `sha256` is the hexadecimal
-- digest of a text, and `now` is what `datetime.now` gives. `FailureSignal` is a pydantic model: a
-- field of another type than its own raises. The fields that the model of a signal leaves out are
-- validated all the same.
pub mod Pseudonyms
use unhalted.Prelude.{
  ◌>>=◌, ℕ, ◌+◌, ◌*◌, ◌==◌, Bool, true, false, not, ltb, String, str_eq, Option, none, some, List,
  [], ◌∷◌, ◌++◌, take, if◌then◌else◌,
}
use unhalted.Prelude.Texts.{codes}
use unhalted.Clock.{Instant}
use unhalted.Models.{Text, FailureSignal}
use unhalted.Language.Json.{
  Json, null, flag, number, int, text, arr, obj, Fields, get, get_true, Outside,
}
use unhalted.Language.Evidence.{is_prefix}

-- What comes of the call: a signal, an `UnsupportedEvent`, or another exception.
pub data Normalised : Type 0 where
  signal : FailureSignal → Normalised
  unsupported raised : Normalised

-- `isinstance(v, int)`, which holds of a Boolean too
unfoldable pub as_int : Option Json → Option ℕ
as_int (some (int n)) = some n
as_int (some (flag true)) = some 1
as_int (some (flag false)) = some 0
as_int _ = none

-- `value["key"]`; none where it raises a `KeyError` or a `TypeError`
unfoldable pub item : String → Option Json → Option Json
unfolding get
item key (some (obj d)) = get key d
item key _ = none

-- `event["payload"]["payment"]["entity"]`
unfoldable pub entity_of : Fields → Option Json
unfolding item
entity_of event = item "entity" (item "payment" (item "payload" (some (obj event))))

-- `event.get("event") != "payment.failed"`, and the same test of a currency
unfoldable pub is_text : String → Option Json → Bool
is_text word (some (text s)) = str_eq s word
is_text word _ = false

-- a field of type `str | None`; the outer `none` is a validation error
unfoldable pub optional_text : Option Json → Option (Option String)
optional_text none = some none
optional_text (some null) = some none
optional_text (some (text s)) = some (some s)
optional_text (some _) = none

-- `payment.get("currency") or SUPPORTED_CURRENCY`
unfoldable pub is_supported : Fields → Bool
unfolding get_true is_text
is_supported payment = elim (get_true "currency" payment) [
  | none ↦ true
  | some v ↦ is_text "INR" (some v)
]

-- the `or` of two values, of which the first may be false or missing
abbrev pub or_else : Option Json → Option Json → Option Json
or_else (some v) other = some v
or_else none other = other

-- the identifier of the customer; a payment's id stands in where there is none
unfoldable pub identifier_of : Fields → Json → Json
unfolding get_true
identifier_of payment payment_id =
    elim (or_else (get_true "customer_id" payment) (
      or_else (get_true "vpa" payment)
        (or_else (get_true "contact" payment) (get_true "email" payment)))) [
          | none ↦ payment_id
          | some v ↦ v
        ]

-- the first instant, in seconds of the epoch, that `datetime` cannot hold
abbrev year_10000 : ℕ
year_10000 = 253402300800

-- `datetime.fromtimestamp(created, tz=UTC)`, on the Indian clock
unfoldable pub from_timestamp : ℕ → Option Instant
from_timestamp created = if ltb created year_10000 then some ((created + 19800) * 1000000) else none

unfoldable pub occurred_at_of : Option Json → Instant → Option Instant
unfolding as_int from_timestamp
occurred_at_of created now = elim (as_int created) [ none ↦ some now | some n ↦ from_timestamp n ]

module _ (o : Outside) (sha256 : List ℕ → List ℕ) (name_of : List ℕ → Text) where
  unfoldable pub pseudonymise : List ℕ → List ℕ
  pseudonymise value = codes "cust_" ++ take 16 (sha256 value)

  -- The reference, which is a text: an identifier that is no text, and reads like a reference, would
  -- be kept as it is and fail the validation.
  unfoldable pub customer_ref_of : Json → Option (List ℕ)
  unfolding pseudonymise
  customer_ref_of (text s) =
      some (if is_prefix (codes "cust_") (codes s) then codes s else pseudonymise (codes s))
  customer_ref_of v =
      if is_prefix (codes "cust_") (codes (o.repr v))
      then none
      else some (pseudonymise (codes (o.repr v)))

  -- a text of the signal that is only compared
  abbrev pub optional_name : Option String → Option Text
  optional_name none = none
  optional_name (some s) = some (name_of (codes s))

  -- the construction of the signal
  unfoldable pub build : Fields → Fields → Json → ℕ → Instant → Option FailureSignal
  unfolding customer_ref_of identifier_of occurred_at_of optional_text get get_true
  build event payment (text payment_id) amount now = do
    occurred ←
        occurred_at_of (or_else (get_true "created_at" payment) (get_true "created_at" event)) now
    order_id ← optional_text (get "order_id" payment)
    ref ← customer_ref_of (identifier_of payment (text payment_id))
    method ← optional_text (get "method" payment)
    error_code ← optional_text (get "error_code" payment)
    error_reason ← optional_text (get "error_reason" payment)
    error_source ← optional_text (get "error_source" payment)
    error_step ← optional_text (get "error_step" payment)
    token_id ← optional_text (get "token_id" payment)
    some (record {
      payment_id = name_of (codes payment_id);
      order_id = optional_name order_id;
      customer_ref = name_of ref;
      amount_paise = amount;
      method = method;
      error_reason = error_reason;
      error_source = error_source;
      error_step = error_step;
      occurred_at = occurred;
      mandate_max_paise = none;
    })
  build event payment _ amount now = none

  abbrev pub or_raised : Option FailureSignal → Normalised
  or_raised none = raised
  or_raised (some x) = signal x

  -- from the entity on
  unfoldable pub from_payment : Fields → Fields → Instant → Normalised
  unfolding as_int is_supported build get get_true
  from_payment event payment now = elim (get_true "id" payment) [
    | none ↦ unsupported
    | some payment_id ↦ elim (as_int (get "amount" payment)) [
      | none ↦ unsupported
      | some amount ↦
          if is_supported payment
          then or_raised (build event payment payment_id amount now)
          else unsupported
    ]
  ]

  unfoldable pub from_payment_failed : Fields → Instant → Normalised
  unfolding is_text entity_of from_payment get
  from_payment_failed event now =
      if not (is_text "payment.failed" (get "event" event))
      then unsupported
      else elim (entity_of event) [
        | none ↦ unsupported
        | some (obj payment) ↦ from_payment event payment now
        | some _ ↦ raised
      ]
