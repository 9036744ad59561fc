-- ===== src/Normalize/Pseudonyms.antt =====
-- `from_payment_failed` of src/unhalted/ingest/normalize.py: what it lets into a signal.
use unhalted.Prelude.{
  ℕ, ◌≡◌, refl, sym, ap, ◌∙◌, true, false, String, Option, none, some, List, ◌>>=◌, if◌then◌else◌,
  arith, Bool-cases, Option-cases, inl, inr,
}
use unhalted.Prelude.Texts.{codes}
use unhalted.Clock.{Instant}
use unhalted.Models.{Text, FailureSignal}
use unhalted.Language.Json.{
  Json, null, flag, number, int, text, arr, obj, Fields, get, get_true, Outside,
}
use unhalted.Language.Evidence.{is_prefix}
use unhalted.Normalize.{
  signal, as_int, entity_of, is_text, optional_text, is_supported, identifier_of, occurred_at_of,
  or_else, pseudonymise, customer_ref_of, optional_name, build, or_raised, from_payment,
  from_payment_failed,
}

module _ (o : Outside) (sha256 : List ℕ → List ℕ) (name_of : List ℕ → Text) where
  -- `str(identifier)`
  abbrev pub spelled_out : Json → List ℕ
  spelled_out (text s) = codes s
  spelled_out v = codes (o.repr v)

  -- The reference of an identifier: a text that is one already stays, all else becomes a pseudonym.
  pub data IsReference (v : Json) (ref : List ℕ) : Type 0 where
    kept :
        (s : String)
        → v ≡ text s
        → ref ≡ codes s
        → is_prefix (codes "cust_") ref ≡ true
        → IsReference v ref
    hidden :
        ref ≡ pseudonymise o sha256 name_of (spelled_out v)
        → is_prefix (codes "cust_") (spelled_out v) ≡ false
        → IsReference v ref

  -- an identifier that is no text becomes a digest, or nothing
  digested :
      (v : Json) (ref : List ℕ)
      → (if is_prefix (codes "cust_") (spelled_out v)
          then none
          else some (pseudonymise o sha256 name_of (spelled_out v)))
        ≡ some ref
      → IsReference v ref
  digested v ref e = elim (Bool-cases (is_prefix (codes "cust_") (spelled_out v))) [
    | inl looks ↦ absurd (ground (arith, looks, e))
    | inr plain ↦ hidden (ground (arith, plain, e)) plain
  ]

  customer_ref_of-IsReference :
      (v : Json) (ref : List ℕ) → customer_ref_of o sha256 name_of v ≡ some ref → IsReference v ref
  unfolding customer_ref_of
  customer_ref_of-IsReference (text s) ref e =
      elim (Bool-cases (is_prefix (codes "cust_") (codes s))) [
        | inl looks ↦
            let same : ref ≡ codes s = ground (arith, looks, e) in
            kept s refl same (ap (λ (r : List ℕ). is_prefix (codes "cust_") r) same ∙ looks)
        | inr plain ↦ hidden (ground (arith, plain, e)) plain
      ]
  customer_ref_of-IsReference null ref e = digested null ref e
  customer_ref_of-IsReference (flag b) ref e = digested (flag b) ref e
  customer_ref_of-IsReference (number n) ref e = digested (number n) ref e
  customer_ref_of-IsReference (int n) ref e = digested (int n) ref e
  customer_ref_of-IsReference (arr xs) ref e = digested (arr xs) ref e
  customer_ref_of-IsReference (obj d) ref e = digested (obj d) ref e

  -- what a signal keeps of the payment that it was built from
  abbrev Keeps : Json → ℕ → FailureSignal → Type 0
  Keeps v amount x =
      (x.amount_paise ≡ amount)
      × ((ref : List ℕ) × (x.customer_ref ≡ name_of ref) × IsReference v ref)

  assembled :
      (v : Json) (id : List ℕ) (amount : ℕ) (occurred : Option Instant)
      (order : Option (Option String)) (ref : Option (List ℕ))
      (method code reason source step token : Option (Option String)) (x : FailureSignal)
      → ((r : List ℕ) → ref ≡ some r → IsReference v r)
      → ◌≡◌ {A = Option FailureSignal}
          (do
            occurred' ← occurred
            order' ← order
            ref' ← ref
            method' ← method
            code' ← code
            reason' ← reason
            source' ← source
            step' ← step
            token' ← token
            some (record {
              payment_id = name_of id;
              order_id = optional_name o sha256 name_of order';
              customer_ref = name_of ref';
              amount_paise = amount;
              method = method';
              error_reason = reason';
              error_source = source';
              error_step = step';
              occurred_at = occurred';
              mandate_max_paise = none;
            }))
          (some x)
      → Keeps v amount x
  assembled v id amount none order ref method code reason source step token x g e = absurd (cc)
  assembled v id amount (some t) none ref method code reason source step token x g e = absurd (cc)
  assembled v id amount (some t) (some d) none method code reason source step token x g e =
      absurd (cc)
  assembled v id amount (some t) (some d) (some r) none code reason source step token x g e =
      absurd (cc)
  assembled v id amount (some t) (some d) (some r) (some m) none reason source step token x g e =
      absurd (cc)
  assembled v id amount (some t) (some d) (some r) (some m) (some c) none source step token x g e =
      absurd (cc)
  assembled v id amount (some t) (some d) (some r) (some m) (some c) (some a) none step token x g
        e =
      absurd (cc)
  assembled v id amount (some t) (some d) (some r) (some m) (some c) (some a) (some b) none token x
        g e =
      absurd (cc)
  assembled v id amount (some t) (some d) (some r) (some m) (some c) (some a) (some b) (some l) none
        x g e =
      absurd (cc)
  assembled v id amount (some t) (some d) (some r) (some m) (some c) (some a) (some b) (some l)
        (some k) x g e =
      (ground (arith, e), (r, ground (arith, e), g r refl))

  build-Keeps :
      (event payment : Fields) (id : Json) (amount : ℕ) (now : Instant) (x : FailureSignal)
      → build o sha256 name_of event payment id amount now ≡ some x
      → Keeps (identifier_of payment id) amount x
  unfolding build
  build-Keeps event payment (text id) amount now x e =
      assembled (identifier_of payment (text id)) (codes id) amount
        (occurred_at_of (or_else (get_true "created_at" payment) (get_true "created_at" event)) now)
        (optional_text (get "order_id" payment))
        (customer_ref_of o sha256 name_of (identifier_of payment (text id)))
        (optional_text (get "method" payment)) (optional_text (get "error_code" payment))
        (optional_text (get "error_reason" payment)) (optional_text (get "error_source" payment))
        (optional_text (get "error_step" payment)) (optional_text (get "token_id" payment)) x
        (customer_ref_of-IsReference (identifier_of payment (text id))) e
  build-Keeps event payment null amount now x e = absurd (cc)
  build-Keeps event payment (flag b) amount now x e = absurd (cc)
  build-Keeps event payment (number n) amount now x e = absurd (cc)
  build-Keeps event payment (int n) amount now x e = absurd (cc)
  build-Keeps event payment (arr xs) amount now x e = absurd (cc)
  build-Keeps event payment (obj d) amount now x e = absurd (cc)

  -- what a payment must be to give a signal
  abbrev pub IsAdmitted : Fields → Fields → FailureSignal → Type 0
  IsAdmitted event payment x =
      (is_text "payment.failed" (get "event" event) ≡ true)
      × (entity_of event ≡ some (obj payment))
      × (is_supported payment ≡ true)
      × (as_int (get "amount" payment) ≡ some x.amount_paise)
      × ((id : Json) × (ref : List ℕ) × (get_true "id" payment ≡ some id)
          × (x.customer_ref ≡ name_of ref)
          × IsReference (identifier_of payment id) ref)

  signal_only :
      (b : Option FailureSignal) (x : FailureSignal)
      → or_raised o sha256 name_of b ≡ signal x
      → b ≡ some x
  signal_only none x e = absurd (cc)
  signal_only (some y) x e = cc

  from_payment-Keeps :
      (event payment : Fields) (now : Instant) (x : FailureSignal)
      → from_payment o sha256 name_of event payment now ≡ signal x
      → (is_supported payment ≡ true)
        × ((amount : ℕ) × (id : Json) × (as_int (get "amount" payment) ≡ some amount)
            × (get_true "id" payment ≡ some id)
            × Keeps (identifier_of payment id) amount x)
  unfolding from_payment
  from_payment-Keeps event payment now x e = elim (Option-cases (get_true "id" payment)) [
    | inl nameless ↦ absurd (ground (arith, nameless, e))
    | inr (id, named) ↦ elim (Option-cases (as_int (get "amount" payment))) [
      | inl unknown ↦ absurd (ground (arith, named, unknown, e))
      | inr (amount, given) ↦ elim (Bool-cases (is_supported payment)) [
        | inr foreign ↦ absurd (ground (arith, named, given, foreign, e))
        | inl rupees ↦
            let made : or_raised o sha256 name_of
                  (build o sha256 name_of event payment id amount now)
                ≡ signal x =
              ground (arith, named, given, rupees, e) in
            (
              rupees,
              (
                amount,
                id,
                given,
                named,
                build-Keeps event payment id amount now x (signal_only _ x made),
              ),
            )
      ]
    ]
  ]

  from_entity :
      (event : Fields) (now : Instant) (v : Json) (x : FailureSignal)
      → entity_of event ≡ some v
      → is_text "payment.failed" (get "event" event) ≡ true
      → from_payment_failed o sha256 name_of event now ≡ signal x
      → (payment : Fields) × IsAdmitted event payment x
  unfolding from_payment_failed
  from_entity event now (obj payment) x at named e =
      let made : from_payment o sha256 name_of event payment now ≡ signal x =
        ground (arith, at, named, e) in
      let (rupees, (amount, id, given, called, (same, (ref, own, is_ref)))) =
        from_payment-Keeps event payment now x made in
      (
        payment,
        (named, at, rupees, given ∙ ap (λ n. some n) (sym same), (id, ref, called, own, is_ref)),
      )
  from_entity event now null x at named e = absurd (ground (arith, at, named, e))
  from_entity event now (flag b) x at named e = absurd (ground (arith, at, named, e))
  from_entity event now (number n) x at named e = absurd (ground (arith, at, named, e))
  from_entity event now (int n) x at named e = absurd (ground (arith, at, named, e))
  from_entity event now (text s) x at named e = absurd (ground (arith, at, named, e))
  from_entity event now (arr xs) x at named e = absurd (ground (arith, at, named, e))

  -- An event that gives a signal is a `payment.failed` event whose payment is in rupees, or names no
  -- currency, and has an integer amount, which is the signal's. The customer's reference in the
  -- signal is of the first identifier that the payment has: the identifier itself where it is a text
  -- that starts with `cust_`, and its pseudonym otherwise.
  pub from_payment_failed-IsAdmitted :
      (event : Fields) (now : Instant) (x : FailureSignal)
      → from_payment_failed o sha256 name_of event now ≡ signal x
      → (payment : Fields) × IsAdmitted event payment x
  unfolding from_payment_failed
  from_payment_failed-IsAdmitted event now x e =
      elim (Bool-cases (is_text "payment.failed" (get "event" event))) [
        | inr other ↦ absurd (ground (arith, other, e))
        | inl named ↦ elim (Option-cases (entity_of event)) [
          | inl missing ↦ absurd (ground (arith, named, missing, e))
          | inr (v, at) ↦ from_entity event now v x at named e
        ]
      ]
