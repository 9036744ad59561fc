-- ===== src/Store/Tables.antt =====
-- The tables of `SCHEMA` in src/unhalted/store.py, as records of lists in the order of their ids.
--
-- Left out are columns that only a viewer reads (`created_at`, `cancel_reason`, `last_error`,
-- `detail`). Timestamps are compared as instants:
-- the source compares ISO texts that all carry the one offset +05:30. A row that names no case is
-- refused by the foreign keys. That is not in the methods that write rows but in the handlers that
-- are given an id, `apply_stop` and `mark_recovered`; the others are given a case that was read.
use unhalted.Prelude.{ℕ, Option, List, []}
use unhalted.Clock.{Instant}
use unhalted.Models.{
  Text, FailureSignal, Diagnosis, Case, AuditRecord, Kind, NudgeVariant, ActionState, StopCode,
}

pub record SignalRow : Type 0 where
  pub case_id : Text
  pub signal : FailureSignal

pub record DiagnosisRow : Type 0 where
  pub case_id : Text
  pub diagnosis : Diagnosis

-- a row of `pending_actions`
pub record Action : Type 0 where
  pub id : ℕ
  pub case_id : Text
  pub customer_ref : Text
  pub kind : Kind
  pub variant : Option NudgeVariant
  pub scheduled_for : Option Instant
  pub state : ActionState
  pub cancelled_at : Option Instant
  pub leased_until : Option Instant
  pub worker : Option Text
  pub attempts : ℕ

pub data Scope : Type 0 where
  case_scope customer_scope : Scope

-- a row of `contact_suppressions`
pub record Suppression : Type 0 where
  pub id : ℕ
  pub scope : Scope
  pub scope_key : Text
  pub code : StopCode
  pub at : Instant
  pub lifted_at : Option Instant
  pub lifted_by : Option Text

-- a row of `processed_events`
pub record ProcessedEvent : Type 0 where
  pub event_id : Text
  pub case_id : Text

-- `next_action` and `next_suppression` are the AUTOINCREMENT counters.
pub record Store : Type 0 where
  pub cases : List Case
  pub signals : List SignalRow
  pub diagnoses : List DiagnosisRow
  pub audit : List AuditRecord
  pub pending_actions : List Action
  pub contact_suppressions : List Suppression
  pub processed_events : List ProcessedEvent
  pub next_action : ℕ
  pub next_suppression : ℕ

-- a new database
abbrev pub empty : Store
empty = record {
  cases = [];
  signals = [];
  diagnoses = [];
  audit = [];
  pending_actions = [];
  contact_suppressions = [];
  processed_events = [];
  next_action = 1;
  next_suppression = 1;
}
