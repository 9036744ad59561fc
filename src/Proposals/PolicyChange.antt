-- ===== src/Proposals/PolicyChange.antt =====
-- `propose` of src/unhalted/core/policy_change.py. An exception that leaves the function is none;
-- the texts of the reasons are what they are about.
use unhalted.Prelude.{
  ◌/◌, ◌%◌, ◌==◌, str_append, ℕ, Bool, true, false, not, String, str_eq, Option, none, some, List,
  [], ◌∷◌, any, ◌>>=◌, if◌then◌else◌,
}
use unhalted.Clock.{TimeOfDay, hour, minute}
use unhalted.Policy.{Policy, Band}
use unhalted.Language.Json.{
  int, Json, null, text, arr, obj, Items, nil, cons, Fields, end, field, get, get_true, get_text,
  text_of, Outside,
}
use unhalted.Language.Evidence.{quotes_the_source}
use unhalted.Language.Calls.{Answer, FailureReason, unparseable, call_model}
use unhalted.Language.Fence.{extract}

-- `ALLOWED_FIELDS`
abbrev pub allowed_fields : List String
allowed_fields =
    "npci.restricted_bands" ∷ "retries.cap" ∷ "contact.open" ∷ "contact.close"
    ∷ "limits.frictionless_upi_rupees" ∷ "limits.frictionless_upi_bfsi_rupees"
    ∷ "limits.upi_mandate_max_rupees" ∷ "limits.card_recurring_max_rupees"
    ∷ "limits.emandate_max_rupees" ∷ []

unfoldable pub is_allowed : String → Bool
is_allowed name = any (λ f. str_eq f name) allowed_fields

-- `ProposedChange`; `value` is none where the answer gives no value
pub record ProposedChange : Type 0 where
  pub name : String
  pub current : Json
  pub value : Option Json
  pub quote : String
  pub reasoning : String

-- why an entry was refused
pub data Dropped : Type 0 where
  not_a_field : String → Dropped
  no_quote : String → Dropped

pub record Proposal : Type 0 where
  pub changes : List ProposedChange
  pub unclear : List String
  pub dropped : List Dropped
  pub cost : ℕ
  pub failed : Bool
  pub failure_reason : Option FailureReason

abbrev pub failed_proposal : ℕ → Option FailureReason → Proposal
failed_proposal cost why = record {
  changes = [];
  unclear = [];
  dropped = [];
  cost = cost;
  failed = true;
  failure_reason = why;
}

-- the two lists that the loop fills
abbrev pub Sorted : Type 0
Sorted = List ProposedChange × List Dropped

-- the entries of `unclear`: of a text its characters, of a dictionary its keys
abbrev pub characters : String → List String
characters String.[] = []
characters (String.◌∷◌ c s) = String.◌∷◌ c String.[] ∷ characters s

abbrev pub keys_of : Fields → List String
keys_of end = []
keys_of (field k v rest) = k ∷ keys_of rest

-- `t.strftime("%H:%M")`
abbrev digit : ℕ → String
digit n =
    if n == 0
    then "0"
    else if n == 1
    then "1"
    else if n == 2
    then "2"
    else if n == 3
    then "3"
    else if n == 4
    then "4"
    else if n == 5
    then "5"
    else if n == 6
    then "6"
    else if n == 7
    then "7"
    else if n == 8
    then "8"
    else "9"

abbrev two_digits : ℕ → String
two_digits n = str_append (digit (n / 10)) (digit (n % 10))

unfoldable pub clock_text : TimeOfDay → String
clock_text t = str_append (two_digits (t / hour)) (str_append ":" (two_digits (t % hour / minute)))

-- `paise // RUPEE`
abbrev rupees : ℕ → Json
rupees paise = int (paise / 100)

abbrev bands_value : List Band → Items
bands_value [] = nil
bands_value (b ∷ bs) =
    cons (arr (cons (text (clock_text b.start)) (cons (text (clock_text b.stop)) nil)))
      (bands_value bs)

-- `_current_value`, of an allowed field
unfoldable pub current_value : Policy → String → Json
unfolding clock_text
current_value p name =
    if str_eq name "npci.restricted_bands"
    then arr (bands_value p.npci_restricted_bands)
    else if str_eq name "retries.cap"
    then int p.retry_cap
    else if str_eq name "contact.open"
    then text (clock_text p.contact_open)
    else if str_eq name "contact.close"
    then text (clock_text p.contact_close)
    else if str_eq name "limits.frictionless_upi_rupees"
    then rupees p.frictionless_upi_paise
    else if str_eq name "limits.frictionless_upi_bfsi_rupees"
    then rupees p.frictionless_upi_bfsi_paise
    else if str_eq name "limits.upi_mandate_max_rupees"
    then rupees p.upi_mandate_max_paise
    else if str_eq name "limits.card_recurring_max_rupees"
    then rupees p.card_recurring_max_paise
    else if str_eq name "limits.emandate_max_rupees"
    then rupees p.emandate_max_paise
    else null

module _ (o : Outside) where
  abbrev pub texts_of : Items → List String
  texts_of nil = []
  texts_of (cons v xs) = text_of o (some v) ∷ texts_of xs

  -- `tuple(str(u) for u in (data.get("unclear") or []))`; a number or a Boolean is not iterable
  unfoldable pub read_unclear : Option Json → Option (List String)
  read_unclear none = some []
  read_unclear (some (arr xs)) = some (texts_of xs)
  read_unclear (some (text s)) = some (characters s)
  read_unclear (some (obj d)) = some (keys_of d)
  read_unclear (some _) = none

  module _ (p : Policy) (source : String) where
    -- one turn of the loop
    unfoldable pub sort_entry : Fields → Sorted → Sorted
    unfolding get_text get is_allowed current_value
    sort_entry d (changes, dropped) =
        let name = get_text o "field" d in
        let quote = get_text o "quote" d in
        if not (is_allowed name)
        then (changes, not_a_field name ∷ dropped)
        else if not (quotes_the_source o quote source)
        then (changes, no_quote name ∷ dropped)
        else (
          record {
            name = name;
            current = current_value p name;
            value = get "proposed_value" d;
            quote = quote;
            reasoning = get_text o "reasoning" d;
          }
              ∷ changes,
          dropped,
        )

    -- the loop; an entry that is no dictionary has no `get`
    unfoldable pub sort_entries : Items → Option Sorted
    unfolding sort_entry
    sort_entries nil = some ([], [])
    sort_entries (cons (obj d) xs) = do rest ← sort_entries xs; some (sort_entry d rest)
    sort_entries (cons _ xs) = none

    -- `data.get("changes") or []`
    unfoldable pub read_changes : Option Json → Option Sorted
    unfolding sort_entries
    read_changes none = some ([], [])
    read_changes (some (arr xs)) = sort_entries xs
    read_changes (some _) = none

    unfoldable pub read_proposal : ℕ → Json → Option Proposal
    unfolding read_changes read_unclear get_true
    read_proposal cost (obj d) = do
      sorted ← read_changes (get_true "changes" d)
      unclear ← read_unclear (get_true "unclear" d)
      some (record {
        changes = sorted.0;
        unclear = unclear;
        dropped = sorted.1;
        cost = cost;
        failed = false;
        failure_reason = none;
      })
    read_proposal cost _ = none

    abbrev pub proposal_or_fail : ℕ → Option Json → Option Proposal
    proposal_or_fail cost none = some (failed_proposal cost (some unparseable))
    proposal_or_fail cost (some v) = read_proposal cost v

    abbrev pub proposal_of : ℕ → Option FailureReason → Option String → Option Proposal
    proposal_of cost why none = some (failed_proposal cost why)
    proposal_of cost why (some content) = proposal_or_fail cost (extract o content)

    unfoldable pub propose : Bool → (ℕ → Answer) → Option Proposal
    unfolding read_proposal
    propose has_key answers =
        let call = call_model has_key answers in
        proposal_of call.cost call.failure_reason call.content
