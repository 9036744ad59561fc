-- ===== src/Tests/Fixtures.antt =====
-- A customer, a failed debit and the stores that the tests start from.
use unhalted.Prelude.{ℕ, ◌*◌, ◌+◌, false, String, Option, none, some, List, [], ◌∷◌}
use unhalted.Clock.{Instant, Day, day, hour}
use unhalted.Models.{
  Text, FailureSignal, DiagnosisClass, rules_table, Case, CaseState, Kind, slug, retry, nudge,
  pending, DetectedIntent, Intent, promise_to_pay, cancellation_request, neutral, ParsedReply,
  ProposedDate, missing, spelled, StopCode,
}
use unhalted.Taxonomy.{Reasons}
use unhalted.Store.Tables.{Store, Action, customer_scope, Suppression, empty}

abbrev pub today : Day
today = 20000

-- nine in the morning, inside contact hours and before the first band
abbrev pub morning : Instant
morning = 20000 * day + 9 * hour

-- eleven, inside the first band
abbrev pub eleven : Instant
eleven = 20000 * day + 11 * hour

abbrev pub night : Instant
night = 20000 * day + 23 * hour

abbrev pub no_link : Case → Option Text
no_link c = none

-- a small table of documented causes
abbrev pub causes : Reasons
causes =
    ("upi", ("insufficient_funds", 1) ∷ ("payment_failed", 2) ∷ [])
    ∷ ("any", ("payment_failed", 2) ∷ [])
    ∷ []

abbrev pub signal_of : Option String → Option String → Option Text → FailureSignal
signal_of reason source order = record {
  payment_id = 11;
  order_id = order;
  customer_ref = 7;
  amount_paise = 49900;
  method = some "upi";
  error_reason = reason;
  error_source = source;
  error_step = none;
  occurred_at = morning;
  mandate_max_paise = some 100000;
}

abbrev pub short_of_funds : FailureSignal
short_of_funds = signal_of (some "insufficient_funds") none none

-- the bank is down: the class that is retried silently
abbrev pub bank_down : FailureSignal
bank_down = signal_of (some "bank_technical_error") none none

abbrev pub timed_out : FailureSignal
timed_out = signal_of (some "payment_timed_out") (some "bank") (some 31)

abbrev pub ambiguous : FailureSignal
ambiguous = signal_of (some "payment_failed") none none

abbrev pub case_one : Case
case_one = record {
  id = 1;
  customer_ref = 7;
  amount_paise = 49900;
  state = CaseState.open_case;
  opened_at = morning;
  retry_count = 0;
  nudges_suspended_until = none;
}

abbrev pub spent_case : Case
spent_case = record case_one { retry_count = 3 }

abbrev pub queued : Kind → Instant → Action
queued kind at = record {
  id = 1;
  case_id = 1;
  customer_ref = 7;
  kind = kind;
  variant = none;
  scheduled_for = some at;
  state = pending;
  cancelled_at = none;
  leased_until = none;
  worker = none;
  attempts = 0;
}

-- the case is open, its signal is on file
abbrev pub opened : Store
opened = record empty {
  cases = case_one ∷ [];
  signals = record { case_id = 1; signal = bank_down } ∷ [];
}

-- and diagnosed, with a message and a retry in the queue
abbrev pub worked : Store
worked = record opened {
  diagnoses =
      record {
        case_id = 1;
        diagnosis = record {
          klass = DiagnosisClass.recoverable_technical;
          confidence = 1000000;
          source = rules_table;
        };
      }
      ∷ [];
  pending_actions = queued (slug nudge) morning ∷ record (queued retry night) { id = 2 } ∷ [];
  next_action = 3;
}

abbrev pub bar : Suppression
bar = record {
  id = 1;
  scope = customer_scope;
  scope_key = 7;
  code = StopCode.opt_out;
  at = morning;
  lifted_at = none;
  lifted_by = none;
}

abbrev pub barred : Store
barred = record worked { contact_suppressions = bar ∷ []; next_suppression = 2 }

abbrev pub reply_of : List DetectedIntent → ProposedDate → ParsedReply
reply_of intents date = record {
  intents = intents;
  payment_date_raw = date;
  sentiment = neutral;
  failed = false;
}

abbrev intent : Intent → ℕ → DetectedIntent
intent i confidence = record { type_of = i; confidence = confidence; evidence = "" }

abbrev pub leave_me_alone : ParsedReply
leave_me_alone =
    reply_of (intent Intent.opt_out 900000 ∷ intent cancellation_request 950000 ∷ []) missing

abbrev pub cancel_it : ParsedReply
cancel_it = reply_of (intent cancellation_request 950000 ∷ []) missing

abbrev pub on_the_second : ParsedReply
on_the_second = reply_of (intent promise_to_pay 900000 ∷ []) (spelled 20002)
