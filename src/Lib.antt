-- ===== src/Lib.antt =====
-- unhalted: recovery of failed recurring debits, as a model of src/unhalted.
--
-- The program takes a failed debit (a `FailureSignal`), opens one case for its payment, classifies
-- the failure by a table of rules, and moves the case up a ladder of interventions: a silent retry,
-- a message, and rungs that have no executor here. The loop decides and writes rows into a queue;
-- the runner takes the rows that are due and executes them. A customer's reply, a stop rule or a
-- payment changes what is queued. Every rule of the shell is deterministic and reads one policy.
--
-- The modules, and the code that each is about:
--   Clock      instants, days and times of day, as src/unhalted/shell/windows.py compares them
--   Policy     the typed policy of src/unhalted/policy.py, and the values of config/policy.yaml
--   Models     src/unhalted/models.py; Models.Vocabulary has the closed sets of words
--   Windows    src/unhalted/shell/windows.py: `is_execution_allowed`, `next_allowed_execution`,
--              `is_contact_allowed`, `next_allowed_contact`, `contact_budget`
--   Limits     src/unhalted/shell/limits.py: `check`
--   Scheduler  src/unhalted/shell/scheduler.py: `backoff_for`, `schedule_retry`
--   Ladder     src/unhalted/shell/ladder.py: `entry_rung`, `evaluate`, `next_rung`
--   Stops      src/unhalted/shell/stops.py: `RULES` is the function `rule`
--   Replies    src/unhalted/shell/replies.py: `validate_date`, `decide`
--   Notify     src/unhalted/shell/notify.py: `body_for`, `deliver`
--   Verify     src/unhalted/shell/verify.py
--   Taxonomy   src/unhalted/core/taxonomy.py (`TABLE`, `lookup`) and core/diagnose.py
--   Store      src/unhalted/store.py: Tables has the tables, Cases, Trail, Queue and Suppressions
--              the methods that write them; the others are named for what they are about
--   Runner     src/unhalted/runner.py: `execute_nudge`, `execute_retry`, `run_due`
--   Agent      src/unhalted/agent.py: Entry, Retry, Escalation, Stop, Failure, Reply and Review have
--              the handlers; Frame carries a relation between stores through all of them, and the
--              other children are named for what they are about
--   Normalize  src/unhalted/ingest/normalize.py: `from_payment_failed`, `pseudonymise`
--   Webhooks   src/unhalted/ingest/webhooks.py: `razorpay_webhook`; Events and Delivery are about the
--              `processed_events` table
--   System     the steps that may happen to one store, in any order: the entry points above
--   Language   what is made of a language model's answers: core/reply.py (Calls, Fence, Reply) and
--              core/evidence.py (Evidence), over the JSON values of Json
--   Proposals  core/policy_change.py and core/taxonomy_proposal.py: what a person is asked to accept
--   Measure    src/unhalted/measure: outcomes.py, baseline.py, calibration.py and compare.py, each
--              in the child of its name; the other children are named for what they are about
--   Tests      runs on concrete inputs
--   Prelude    the names, lists, searches, orders and texts that the modules share
--
-- How the model stands to the code:
--   * The state is the record `Store`, a list for each table in the order of the ids. A method takes
--     the store and returns the new one; the lock and the transaction make each method one step. A
--     function that can raise returns `none` for the exception.
--   * An instant is a number of microseconds on the Indian clock, whose offset is fixed; a day and a
--     time of day are its quotient and remainder. The store's timestamps are ISO texts of one offset,
--     whose order is the order of instants. No arithmetic wraps: Python's integers do not.
--   * A confidence is a number of millionths, a success rate a whole number of percent, an amount a
--     number of paise. A text that is only compared or tested for being empty is a number, 0 for the
--     empty one; a method, a reason, a source and a step are strings, compared in lower case where
--     the source does so.
--   * The policy is a parameter. `IsCoherent` says what some theorems ask of it (bands that do not
--     touch, contact hours inside one day), which `load` does not check.
--   * What comes from outside is an argument: the fresh id of a case, the parsed reply that the
--     language model gave, the answer of the verifier, the payment link, the digest of a
--     request, and the data file of documented causes. For Language and Proposals it is the record
--     `Outside` (the `repr` and `casefold` of a text, `json.loads`, `float`), the answers of the
--     endpoint by the number of the attempt, and the reading of a proposed date; for Normalize
--     also the SHA-256 of a text and a numbering of texts.
--   * A foreign key refuses what is written for a case that has no row. The handlers that are given
--     an id, `apply_stop` and `mark_recovered`, raise then; those that are given a case, as
--     `handle_reply`, have read it. An answer of the endpoint has the documented shape.
--   * No number of a JSON value is negative; a float is a number of millionths, and the fractions of
--     a report are kept as a numerator and a denominator.
--   * The only fuel is in `climb`, the `while` of `escalate_after_cap`: five turns, for five rungs.
--     The retries of `call_model` are the range of three that the source counts out.
--   * Free texts (reasons, inputs, outcomes, rule versions) are left out; the action of an audit
--     record and the codes of the rules that fired are kept.
--
-- Not modelled: the prompts and the transport of the language model, the drafting and linting of
-- messages, the payment link's client, the loading of YAML, SQLite's files and migrations, the
-- command line, the viewer, the report over a generated batch and the operators' scripts.
pub mod Prelude
pub mod Clock
pub mod Policy
pub mod Models
pub mod Windows
pub mod Limits
pub mod Scheduler
pub mod Ladder
pub mod Stops
pub mod Replies
pub mod Store
pub mod Notify
pub mod Runner
pub mod Taxonomy
pub mod Verify
pub mod Agent
pub mod Language
pub mod Proposals
pub mod Normalize
pub mod Webhooks
pub mod System
pub mod Measure
pub mod Tests
