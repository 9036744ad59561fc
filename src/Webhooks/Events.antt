-- ===== src/Webhooks/Events.antt =====
-- The `processed_events` table as a frame: no handler of src/unhalted/agent.py writes it.
use unhalted.Prelude.{◌≡◌, refl, ◌∙◌, some, arith}
use unhalted.Models.{FailureSignal, Case}
use unhalted.Store.Tables.{Store}
use unhalted.Store.Cases.{insert_case, update_case}
use unhalted.Store.Trail.{write}
use unhalted.Agent.Frame.{Frame}

abbrev pub SameEvents : Store → Store → Type 0
SameEvents s s' = s'.processed_events ≡ s.processed_events

pub events-insert_case :
    (c : Case) (x : FailureSignal) (s s' : Store) → insert_case c x s ≡ some s' → SameEvents s s'
unfolding insert_case
events-insert_case c x s s' e = ground (arith, e)

abbrev pub events_frame : Frame
unfolding update_case write
events_frame = record {
  rel = SameEvents;
  stay = λ s. refl;
  after = λ s s1 s2 h h'. h' ∙ h;
  updates = λ id f s kept_id kept_ref. refl;
  writes = λ r s quiet. refl;
  opens = events-insert_case;
  elsewhere = λ s s' cases audit events. events;
}
