-- ===== src/System.antt =====
-- The program as a whole: what may happen to one store, in any order and at any times.
--
-- The steps are the entry points: the webhook of src/unhalted/ingest/webhooks.py, the handlers of
-- src/unhalted/agent.py, the lifting of a suppression in src/unhalted/store.py and a pass of
-- src/unhalted/runner.py. A handler that raises makes no step: what it had
-- written before it raised is not followed. The store's lock makes the methods
-- atomic; that a whole handler is one step is a choice of this model.
pub mod Growth
pub mod Entries
pub mod Turns
pub mod Ceiling
pub mod Trail
pub mod Limiter
use unhalted.Prelude.{ℕ, ◌≡◌, Option, some, List}
use unhalted.Clock.{Instant}
use unhalted.Policy.{Policy}
use unhalted.Models.{Text, FailureSignal, Case, ParsedReply, StopCode}
use unhalted.Taxonomy.{Reasons}
use unhalted.Verify.{Verifier}
use unhalted.Notify.{Message}
use unhalted.Replies.{ReplyOutcome}
use unhalted.Store.Tables.{Store, empty}
use unhalted.Store.Suppressions.{lift_suppression}
use unhalted.Agent.Failure.{handle_failure}
use unhalted.Agent.Stop.{apply_stop}
use unhalted.Agent.Reply.{handle_reply}
use unhalted.Agent.Review.{resume_after_review, mark_recovered}
use unhalted.Runner.{executors, run_due}
use unhalted.Webhooks.{Request, Response, razorpay_webhook}

module _ (p : Policy) (table : Reasons) (link : Case → Option Text)
    (digest : Text → Text → Text) where
  pub data Step (s : Store) : Store → Type 0 where
    webhook :
        (secret fresh other : Text) (r : Request) (now : Instant) (answer : Response) (s' : Store)
        → razorpay_webhook p table link digest secret fresh other r now s ≡ some (answer, s')
        → Step s s'
    failure :
        (fresh : Text) (x : FailureSignal) (verifier : Option Verifier) (now : Instant) (c : Case)
        (s' : Store)
        → handle_failure p table link fresh x verifier now s ≡ some (c, s')
        → Step s s'
    reply :
        (c : Case) (r : ParsedReply) (now : Instant) (out : ReplyOutcome) (s' : Store)
        → handle_reply p link c r now s ≡ some (out, s')
        → Step s s'
    stop :
        (code : StopCode) (id ref : Text) (now : Instant) (n : ℕ) (s' : Store)
        → apply_stop code id ref now s ≡ some (n, s')
        → Step s s'
    review : (c : Case) (now : Instant) → Step s (resume_after_review p link c now s).1
    recovery :
        (id : Text) (amount : ℕ) (now : Instant) (n : ℕ) (sent : List Message) (s' : Store)
        → mark_recovered p link id amount now s ≡ some (n, s', sent)
        → Step s s'
    lift : (id : ℕ) (by : Text) (now : Instant) → Step s (lift_suppression id by now s)
    pass :
        (now : Instant) (worker : Text) (limit : ℕ)
        → Step s (run_due (executors p link) now worker limit s).store

  -- the stores that the program reaches from a new database
  pub data Reach : Store → Type 0 where
    start : Reach empty
    then : {s s' : Store} → Reach s → Step s s' → Reach s'
