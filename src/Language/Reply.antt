-- ===== src/Language/Reply.antt =====
-- `parse` of src/unhalted/core/reply.py: what is read into a reply. An exception that leaves the
-- function is none; the language, the condition and the costs of a parse are not read by any rule
-- and are left out.
use unhalted.Prelude.{
  ◌*◌, ◌^◌, ◌-◌, leb, ℕ, Bool, true, false, String, str_eq, Option, none, some, List, [], ◌∷◌,
  ◌>>=◌, if◌then◌else◌,
}
use unhalted.Models.{
  Intent, promise_to_pay, set_off_request, cancellation_request, service_complaint,
  channel_preference, Sentiment, cooperative, neutral, frustrated, distressed, DetectedIntent,
  ParsedReply, ProposedDate, missing,
}
use unhalted.Language.Json.{
  Json, flag, number, int, text, arr, obj, Items, nil, cons, Fields, get, get_true, get_text,
  Outside,
}
use unhalted.Language.Evidence.{quotes_the_source}
use unhalted.Language.Calls.{Answer, call_model}
use unhalted.Language.Fence.{extract}

-- `Intent(word)`; none is its error
unfoldable pub intent_of : String → Option Intent
intent_of word =
    if str_eq word "promise-to-pay"
    then some promise_to_pay
    else if str_eq word "dispute"
    then some Intent.dispute
    else if str_eq word "set-off-request"
    then some set_off_request
    else if str_eq word "opt-out"
    then some Intent.opt_out
    else if str_eq word "cancellation-request"
    then some cancellation_request
    else if str_eq word "service-complaint"
    then some service_complaint
    else if str_eq word "distress"
    then some Intent.distress
    else if str_eq word "channel-preference"
    then some channel_preference
    else if str_eq word "unknown"
    then some Intent.unknown
    else none

-- `Intent(raw_intent["type"])`
abbrev pub type_in : Option Json → Option Intent
type_in (some (text word)) = intent_of word
type_in _ = none

-- `Sentiment(data.get("sentiment", "neutral"))`, and what its error leaves
unfoldable pub sentiment_in : Option Json → Sentiment
sentiment_in (some (text word)) =
    if str_eq word "cooperative"
    then cooperative
    else if str_eq word "frustrated"
    then frustrated
    else if str_eq word "distress"
    then distressed
    else neutral
sentiment_in _ = neutral

abbrev pub keep : Option DetectedIntent → List DetectedIntent → List DetectedIntent
keep none rest = rest
keep (some i) rest = i ∷ rest

-- `base`, marked as failed
abbrev pub parse_failed_reply : ParsedReply
parse_failed_reply = record {
  intents = [];
  payment_date_raw = missing;
  sentiment = neutral;
  failed = true;
}

-- What `float` makes of a value: a number, an error that the loop catches, or the `OverflowError`
-- of an integer that is too large, which it does not catch.
pub data Confidence : Type 0 where
  reads : ℕ → Confidence
  refused overflows : Confidence

-- the least integer that no float is near: half a step above the largest float
unfoldable pub least_overflow : ℕ
least_overflow = 2 ^ 1024 - 2 ^ 970

unfoldable pub float_of_int : ℕ → Confidence
float_of_int n = if leb least_overflow n then overflows else reads (n * 1000000)

-- `DetectedIntent(...)`: the type is read first, and an error there drops the entry
abbrev pub read_entry : String → Option Intent → Confidence → Option (Option DetectedIntent)
read_entry evidence none c = some none
read_entry evidence (some i) refused = some none
read_entry evidence (some i) overflows = none
read_entry evidence (some i) (reads c) =
    some (some (record { type_of = i; confidence = c; evidence = evidence }))

module _ (o : Outside) where
  -- `float(raw_intent.get("confidence", 0.0))`
  unfoldable pub confidence_in : Option Json → Confidence
  unfolding float_of_int
  confidence_in none = reads 0
  confidence_in (some (number n)) = reads n
  confidence_in (some (int n)) = float_of_int n
  confidence_in (some (flag true)) = reads 1000000
  confidence_in (some (flag false)) = reads 0
  confidence_in (some (text s)) = elim (o.float_of s) [ none ↦ refused | some n ↦ reads n ]
  confidence_in (some _) = refused

  -- One entry of the list: kept, dropped (`some none`), or an error that leaves the function.
  unfoldable pub read_intent : String → Fields → Option (Option DetectedIntent)
  unfolding get_text get intent_of confidence_in
  read_intent reply d =
      let evidence = get_text o "evidence" d in
      if quotes_the_source o evidence reply
      then read_entry evidence (type_in (get "type" d)) (confidence_in (get "confidence" d))
      else some none

  -- The loop over the list: an entry that is no dictionary has no `get`, which is not caught.
  unfoldable pub read_items : String → Items → Option (List DetectedIntent)
  unfolding read_intent
  read_items reply nil = some []
  read_items reply (cons (obj d) xs) = do
    entry ← read_intent reply d
    rest ← read_items reply xs
    some (keep entry rest)
  read_items reply (cons _ xs) = none

  -- `data.get("intents") or []`: what is no list has nothing that is an entry
  unfoldable pub read_intents : String → Option Json → Option (List DetectedIntent)
  unfolding read_items
  read_intents reply none = some []
  read_intents reply (some (arr xs)) = read_items reply xs
  read_intents reply (some _) = none

  module _ (read_date : Json → ProposedDate) where
    -- `data.get("payment_date_raw") or None`; `read_date` is what `validate_date` makes of a value
    abbrev pub date_in : Option Json → ProposedDate
    date_in none = missing
    date_in (some v) = read_date v

    -- what follows the reading of the text: `data` must be a dictionary
    unfoldable pub read_data : String → Json → Option ParsedReply
    unfolding read_intents get_true get sentiment_in
    read_data reply (obj d) = do
      intents ← read_intents reply (get_true "intents" d)
      some (record {
        intents = intents;
        payment_date_raw = date_in (get_true "payment_date_raw" d);
        sentiment = sentiment_in (get "sentiment" d);
        failed = false;
      })
    read_data reply _ = none

    abbrev pub read_or_fail : String → Option Json → Option ParsedReply
    read_or_fail reply none = some parse_failed_reply
    read_or_fail reply (some v) = read_data reply v

    abbrev pub read_content : String → Option String → Option ParsedReply
    read_content reply none = some parse_failed_reply
    read_content reply (some content) = read_or_fail reply (extract o content)

    unfoldable pub parse : Bool → (ℕ → Answer) → String → Option ParsedReply
    unfolding read_data
    parse has_key answers reply = read_content reply (call_model has_key answers).content
