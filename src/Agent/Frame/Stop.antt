-- ===== src/Agent/Frame/Stop.antt =====
-- A frame across `apply_stop` of src/unhalted/agent.py.
use unhalted.Prelude.{ℕ, refl, ◌≡◌, Option, none, some, Option-cases, Bool-cases, inl, inr}
use unhalted.Clock.{Instant}
use unhalted.Models.{Text, CaseState, StopCode}
use unhalted.Stops.{StopRule, StopScope, of_case, of_customer, of_merchant, rule}
use unhalted.Store.Tables.{Store, Suppression, Scope}
use unhalted.Store.Cases.{get_case}
use unhalted.Store.Suppressions.{suppress_contact}
use unhalted.Agent.Entry.{log}
use unhalted.Agent.Stop.{
  cancel_in_scope, set_terminal, suppress_once, suppress_in_scope, complete_stop, stop_on_file,
  apply_stop,
}
use unhalted.Agent.Frame.{Frame, KeptWith, framed-write, framed-set_state, framed-cancel}

module _ (F : Frame) where
  framed-suppress_once :
      {s s1 : Store} (bar : Option Suppression) (scope : Scope) (key : Text) (code : StopCode)
      (now : Instant)
      → F.rel s s1
      → F.rel s (suppress_once bar scope key code now s1)
  unfolding suppress_once suppress_contact
  framed-suppress_once {s} {s1} none scope key code now h =
      F.after s s1 _ h (F.elsewhere s1 _ refl refl refl)
  framed-suppress_once (some standing) scope key code now h = h

  framed-suppress_in_scope :
      {s s1 : Store} (reach : StopScope) (id ref : Text) (code : StopCode) (now : Instant)
      → F.rel s s1
      → F.rel s (suppress_in_scope reach id ref code now s1)
  unfolding suppress_in_scope
  framed-suppress_in_scope of_case id ref code now h = framed-suppress_once _ _ id code now h
  framed-suppress_in_scope of_customer id ref code now h = framed-suppress_once _ _ ref code now h
  framed-suppress_in_scope of_merchant id ref code now h = framed-suppress_once _ _ ref code now h

  framed-set_terminal :
      {s s1 : Store} (id : Text) (state : Option CaseState)
      → F.rel s s1
      → F.rel s (set_terminal id state s1)
  unfolding set_terminal
  framed-set_terminal id none h = h
  framed-set_terminal id (some state) h = framed-set_state F id state h

  framed-complete_stop :
      {s s1 : Store} (r : StopRule) (id ref : Text) (now : Instant)
      → F.rel s s1
      → F.rel s (complete_stop r id ref now s1)
  unfolding complete_stop log
  framed-complete_stop r id ref now h =
      let ended = framed-set_terminal id r.terminal_state h in
      elim (Bool-cases r.suppresses_contact) [
        | inl bars ↦
            rw bars
              (framed-write F _ (framed-suppress_in_scope r.scope id ref r.code now ended) refl)
        | inr leaves ↦ rw leaves (framed-write F _ ended refl)
      ]

  framed-cancel_in_scope :
      {s s1 s2 : Store} (reach : StopScope) (id ref : Text) (now : Instant) (n : ℕ)
      → F.rel s s1
      → cancel_in_scope reach id ref now s1 ≡ some (n, s2)
      → F.rel s s2
  unfolding cancel_in_scope
  framed-cancel_in_scope of_case id ref now n h e = framed-cancel F 0 id (some now) n h e
  framed-cancel_in_scope of_customer id ref now n h e = framed-cancel F ref 0 (some now) n h e
  framed-cancel_in_scope of_merchant id ref now n h e = framed-cancel F ref 0 (some now) n h e

  pub framed-stop_on_file :
      {s s1 : Store} (code : StopCode) (id ref : Text) (now : Instant)
      → F.rel s s1
      → KeptWith F s (stop_on_file code id ref now s1)
  unfolding stop_on_file
  framed-stop_on_file {s1} code id ref now h =
      elim (Option-cases (cancel_in_scope (rule code).scope id ref now s1)) [
        | inl raised ↦ rw (KeptWith, raised) tt
        | inr ((n, s2), e) ↦
            rw (KeptWith, e)
              (framed-complete_stop (rule code) id ref now
                (framed-cancel_in_scope (rule code).scope id ref now n h e))
      ]

  pub framed-apply_stop :
      {s s1 : Store} (code : StopCode) (id ref : Text) (now : Instant)
      → F.rel s s1
      → KeptWith F s (apply_stop code id ref now s1)
  unfolding apply_stop
  framed-apply_stop {s} {s1} code id ref now h = elim (Option-cases (get_case id s1)) [
    | inl missing ↦ rw (KeptWith, missing) tt
    | inr (c, at) ↦
        let kept = framed-stop_on_file {s = s} {s1 = s1} code id ref now h in rw (KeptWith, at) kept
  ]
