-- ===== src/Runner/Passes.antt =====
-- `run_due` of src/unhalted/runner.py: the contact ceiling over a pass.
use unhalted.Prelude.{ℕ, refl, Option, none, some, List, [], ◌∷◌, Bool-cases, inl, inr}
use unhalted.Clock.{Instant, Duration}
use unhalted.Policy.{Policy}
use unhalted.Models.{
  Text, Case, Kind, slug, retry, silent_retry, nudge, reauthorisation, voice_call, human_callback,
  cancelled, no_adapter,
}
use unhalted.Store.Tables.{Store, Action, Suppression}
use unhalted.Store.Trail.{belongs_to}
use unhalted.Store.Queue.{is_cancelled, action, lease_due_actions, release_expired_leases}
use unhalted.Store.Suppressions.{contact_suppression}
use unhalted.Runner.{
  Executor, Pass, execute, unless_suppressed, unless_cancelled, run_action, run_claimed, run_due,
  executors,
}
use unhalted.Runner.Ceiling.{CeilingHolds, Turn, quiet, Turn-CeilingHolds}
use unhalted.Runner.Turns.{
  IsGuarded, execute_nudge-IsGuarded, execute_retry-IsGuarded, finish-Turn, after_executor-Turn,
}

module _ (p : Policy) (link : Case → Option Text) where
  abbrev AllGuarded : Action → Instant → Store → Option Executor → Type 0
  AllGuarded a now s none = Unit
  AllGuarded a now s (some ex) = IsGuarded p link a now s ex

  executors-AllGuarded :
      (k : Kind) (a : Action) (now : Instant) (s : Store) → AllGuarded a now s (executors p link k)
  unfolding executors
  executors-AllGuarded (slug silent_retry) a now s = tt
  executors-AllGuarded (slug nudge) a now s = execute_nudge-IsGuarded p link a now s
  executors-AllGuarded (slug reauthorisation) a now s = tt
  executors-AllGuarded (slug voice_call) a now s = tt
  executors-AllGuarded (slug human_callback) a now s = tt
  executors-AllGuarded retry a now s = execute_retry-IsGuarded p link a now s

  still : (now : Instant) (s : Store) → Turn p now s s
  still now s = quiet (λ ref id. refl) refl

  execute-Turn :
      (e : Option Executor) (a : Action) (now : Instant) (x : Pass)
      → AllGuarded a now x.store e
      → Turn p now x.store (execute e a now x).store
  unfolding execute
  execute-Turn none a now x g = finish-Turn p link now a.id no_adapter x.store
  execute-Turn (some ex) a now x g =
      after_executor-Turn p link a now (ex x.store a now) x
        (λ o e. g o (ex x.store a now).1 (λ i. (e i, (ex x.store a now).1)))

  unless_suppressed-Turn :
      (bar : Option Suppression) (e : Option Executor) (a : Action) (now : Instant) (x : Pass)
      → AllGuarded a now x.store e
      → Turn p now x.store (unless_suppressed bar e a now x).store
  unfolding unless_suppressed
  unless_suppressed-Turn (some bar) e a now x g = finish-Turn p link now a.id cancelled x.store
  unless_suppressed-Turn none e a now x g = execute-Turn e a now x g

  unless_cancelled-Turn :
      (current : Option Action) (e : Option Executor) (a : Action) (now : Instant) (x : Pass)
      → AllGuarded a now x.store e
      → Turn p now x.store (unless_cancelled current e a now x).store
  unfolding unless_cancelled
  unless_cancelled-Turn none e a now x g = still now x.store
  unless_cancelled-Turn (some c) e a now x g = elim (Bool-cases (is_cancelled c.state)) [
    | inl stopped ↦ rw stopped (still now x.store)
    | inr live ↦
        rw live (
          unless_suppressed-Turn (contact_suppression c.case_id c.customer_ref x.store) e a now x g)
  ]

  claim-Turn :
      (now : Instant) (worker : Text) (lease_for : Duration) (limit : ℕ) (s : Store)
      → Turn p now s
          (lease_due_actions now worker lease_for limit (release_expired_leases now s).1).1
  unfolding lease_due_actions release_expired_leases belongs_to
  claim-Turn now worker lease_for limit s = quiet (λ ref id. refl) refl

  -- what every turn keeps, a pass keeps
  module _ (P : Store → Type 0)
      (keeps : (now : Instant) (s s' : Store) → Turn p now s s' → P s → P s') where
    run_claimed_kept :
        (now : Instant) (claimed : List Action) (x : Pass)
        → P x.store
        → P (run_claimed (executors p link) now claimed x).store
    unfolding run_claimed run_action
    run_claimed_kept now [] x h = h
    run_claimed_kept now (a ∷ rest) x h =
        let x' = run_action (executors p link) now a x in
        let turn : Turn p now x.store x'.store =
          unless_cancelled-Turn (action a.id x.store) (executors p link a.kind) a now x
            (executors-AllGuarded a.kind a now x.store) in
        run_claimed_kept now rest x' (keeps now x.store x'.store turn h)

    pub run_due_kept :
        (now : Instant) (worker : Text) (limit : ℕ) (s : Store)
        → P s
        → P (run_due (executors p link) now worker limit s).store
    unfolding run_due
    run_due_kept now worker limit s h =
        run_claimed_kept now _ _ (keeps now s _ (claim-Turn now worker _ limit s) h)

  -- A pass keeps the contact ceiling: if no window of the policy's length, ending at any instant,
  -- holds more delivered nudges to a customer than the policy allows, counted over all the
  -- customer's cases, then none does after the pass, whatever is due and however late it runs.
  run_due-CeilingHolds :
      (now : Instant) (worker : Text) (limit : ℕ) (s : Store)
      → CeilingHolds p s
      → CeilingHolds p (run_due (executors p link) now worker limit s).store
  run_due-CeilingHolds = run_due_kept (CeilingHolds p) (Turn-CeilingHolds p)
