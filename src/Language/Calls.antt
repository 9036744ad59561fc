-- ===== src/Language/Calls.antt =====
-- `_call_model` of src/unhalted/core/reply.py: three attempts at the endpoint. The functions of this
-- name in core/policy_change.py and core/taxonomy_proposal.py are the same loop with other prompts.
-- A cost is a number of millionths.
use unhalted.Prelude.{
  ℕ, zero, suc, ◌+◌, Bool, true, false, String, Option, none, some, if◌then◌else◌,
}
use unhalted.Prelude.Texts.{codes}
use unhalted.Language.Evidence.{is_blank}

-- What comes of one request: a transport error, another status than 200, or an answer with the
-- fields that are read. An answer of status 200 that is no JSON, or of another shape than the
-- endpoint documents, raises in the source and is not modelled.
pub data Answer : Type 0 where
  transport_error : Answer
  status_other : ℕ → Answer
  answered : (cost : ℕ) (cut_off : Bool) (content : Option String) → Answer

pub data FailureReason : Type 0 where
  no_key unknown transport empty_content truncated_reply unparseable : FailureReason
  http_status : ℕ → FailureReason

pub record ModelCall : Type 0 where
  pub content : Option String
  pub failure_reason : Option FailureReason
  pub attempts : ℕ
  pub cost : ℕ
  pub truncated : Bool

-- `content and content.strip()`
abbrev pub is_usable : Option String → Bool
is_usable none = false
is_usable (some s) = if is_blank (codes s) then false else true

abbrev pub failed_call : FailureReason → ℕ → ℕ → ModelCall
failed_call why attempts cost = record {
  content = none;
  failure_reason = some why;
  attempts = attempts;
  cost = cost;
  truncated = false;
}

-- the branches on an answer; `retry` is the rest of the loop
unfoldable pub on_answer : ℕ → ℕ → Bool → Option String → ModelCall → ModelCall
on_answer attempt spent cut_off content retry =
    if cut_off
    then record (failed_call truncated_reply attempt spent) { truncated = true }
    else if is_usable content
    then record {
      content = content;
      failure_reason = none;
      attempts = attempt;
      cost = spent;
      truncated = false;
    }
    else retry

-- The loop, with the attempts that are left: the answers are numbered from 0.
unfoldable pub call_from : (ℕ → Answer) → ℕ → ℕ → FailureReason → ℕ → ModelCall
unfolding on_answer
call_from answers zero attempt last spent = failed_call last attempt spent
call_from answers (suc left) attempt last spent = elim (answers attempt) [
  | transport_error ↦ call_from answers left (attempt + 1) transport spent
  | status_other status ↦ call_from answers left (attempt + 1) (http_status status) spent
  | answered cost cut_off content ↦
      on_answer (attempt + 1) (spent + cost) cut_off content
        (call_from answers left (attempt + 1) empty_content (spent + cost))
]

-- `_call_model`: `has_key` says whether a key is configured
unfoldable pub call_model : Bool → (ℕ → Answer) → ModelCall
unfolding call_from
call_model false answers = failed_call no_key 0 0
call_model true answers = call_from answers 3 0 unknown 0
