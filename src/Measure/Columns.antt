-- ===== src/Measure/Columns.antt =====
-- The two columns of `compare` in src/unhalted/measure/compare.py, against the records that they
-- are read from.
use mathlib.Core.List.{append-nil, append_assoc}
use unhalted.Prelude.{
  ℕ, zero, suc, ◌+◌, ◌*◌, ◌≡◌, refl, ◌&&◌, Bool, true, String, Option, none, some, List, [], ◌∷◌,
  ◌++◌, length, select, length-select-append, length-select-sort, IsOrdered, sort-IsOrdered, map,
  sym, ◌∙◌, subst, arith,
}
use unhalted.Clock.{Instant, day}
use unhalted.Policy.{Policy}
use unhalted.Models.{
  DiagnosisClass, Diagnosis, FailureSignal, Case, AuditRecord, AuditAction, retry_at, retry_refused,
  refused_on_amount, on_failure, as_fallback, on_promise, after_review,
}
use unhalted.Windows.{subject_to_execution_bands, is_execution_allowed}
use unhalted.Measure.Baseline.{one_if, is_futile, model_for}
use unhalted.Measure.Replay.{is_execution_allowed-day, is_restricted, violation, run_all_or_none}
use unhalted.Measure.Compare.{
  no_counts, ended_in, Event, Side, starts_scheduled, count_record, agent_event, agent_loop,
  agent_side, attempt_event, attempt_events, baseline_side, Comparison, anchor_of, base_of,
  klass_of, compare_case,
}
use unhalted.Measure.Marks.{is_of_agent, is_attempt, in_band, is_doomed, is_timed, told, replayed}

-- the prefixes that the text is tested for are those of the retries on the calendar, but for one
timed-starts_scheduled : (a : AuditAction) → starts_scheduled a ≡ is_timed a
unfolding starts_scheduled
timed-starts_scheduled (retry_at on_failure at) = refl
timed-starts_scheduled (retry_at as_fallback at) = refl
timed-starts_scheduled (retry_at on_promise at) = refl
timed-starts_scheduled (retry_at after_review at) = refl
timed-starts_scheduled (retry_refused on_failure) = refl
timed-starts_scheduled (retry_refused as_fallback) = refl
timed-starts_scheduled (retry_refused on_promise) = refl
timed-starts_scheduled (retry_refused after_review) = refl
timed-starts_scheduled (refused_on_amount on_failure) = refl
timed-starts_scheduled (refused_on_amount as_fallback) = refl
timed-starts_scheduled (refused_on_amount on_promise) = refl
timed-starts_scheduled (refused_on_amount after_review) = refl
timed-starts_scheduled _ = refl

-- how many events of the table pass
abbrev pub shown : (Event → Bool) → Comparison → ℕ
shown q x = length (select q x.events)

module _ (p : Policy) where
  -- what an attempt of the replay shows, at the failure's time of day
  abbrev lines_in_band : FailureSignal → Instant → ℕ
  lines_in_band signal at = one_if (is_restricted p signal.method at)

  attempt_events-lines :
      (left : ℕ) (signal : FailureSignal) (klass : DiagnosisClass) (n total : ℕ) (at : Instant)
      → (length
            (select (λ e. is_attempt e.baseline) (attempt_events p left signal klass n total at))
          ≡ left)
        × (length
              (select (λ e. is_doomed e.baseline) (attempt_events p left signal klass n total at))
            ≡ left * one_if (is_futile klass))
        × (length (select (λ e. in_band e.baseline) (attempt_events p left signal klass n total at))
            ≡ left * lines_in_band signal at)
        × (length (select is_of_agent (attempt_events p left signal klass n total at)) ≡ 0)
  unfolding attempt_events attempt_event
  attempt_events-lines zero signal klass n total at = omega arith
  attempt_events-lines (suc left) signal klass n total at =
      let ih = attempt_events-lines left signal klass (n + 1) total (at + day) in
      let e : is_execution_allowed p (at + day) signal.method
          ≡ is_execution_allowed p at signal.method =
        is_execution_allowed-day p at signal.method in
      ground (arith, ih, e)

  pub agent_loop-events :
      (klass : DiagnosisClass) (timeline : List AuditRecord) (events : List Event) (side : Side)
      → (agent_loop p klass timeline (events, side)).0 ≡ events ++ map agent_event timeline
  unfolding agent_loop
  agent_loop-events klass [] events side = sym (append-nil events)
  agent_loop-events klass (r ∷ rest) events side =
      agent_loop-events klass rest (events ++ agent_event r ∷ []) (count_record p klass r side)
      ∙ append_assoc events (agent_event r ∷ []) (map agent_event rest)

  agent_lines :
      (timeline : List AuditRecord)
      → (length (select is_of_agent (map agent_event timeline)) ≡ length timeline)
        × (length (select (λ e. is_attempt e.baseline) (map agent_event timeline)) ≡ 0)
        × (length (select (λ e. is_doomed e.baseline) (map agent_event timeline)) ≡ 0)
        × (length (select (λ e. in_band e.baseline) (map agent_event timeline)) ≡ 0)
  agent_lines [] = omega arith
  agent_lines (r ∷ rest) = omega (arith, agent_lines rest)

  -- a time is restricted for a method if the bands govern the method and hold the time
  restricted-governed :
      (method : Option String) (at : Instant)
      → is_restricted p method at ≡ (subject_to_execution_bands method && is_restricted p none at)
  unfolding is_execution_allowed subject_to_execution_bands
  restricted-governed none at = refl
  restricted-governed (some method) at = ground arith

  shown-compare :
      (q : Event → Bool) (c : Case) (signal : Option FailureSignal) (diagnosis : Option Diagnosis)
      (timeline : List AuditRecord)
      → shown q (compare_case p c signal diagnosis timeline)
        ≡ length (select q (map agent_event timeline))
          + length (select q (base_of p c signal (klass_of diagnosis) timeline).0)
  unfolding compare_case agent_side
  shown-compare q c signal diagnosis timeline =
      length-select-sort q (λ (e : Event). e.at) _
      ∙ length-select-append q (agent_side p timeline (klass_of diagnosis) c.state).0
          (base_of p c signal (klass_of diagnosis) timeline).0
      ∙ rw (agent_loop-events (klass_of diagnosis) timeline [] (no_counts (ended_in c.state))) refl

  base_events :
      (signal : FailureSignal) (klass : DiagnosisClass) (anchor : Instant)
      → (baseline_side p signal klass anchor).0
        ≡ attempt_events p 3 (record signal { occurred_at = anchor }) klass 1 3 anchor
  unfolding baseline_side
  base_events signal klass anchor =
      let three = (run_all_or_none p (record signal { occurred_at = anchor }) klass).0 in
      rw three refl

  base_counts :
      (signal : FailureSignal) (klass : DiagnosisClass) (anchor : Instant)
      → ((baseline_side p signal klass anchor).1.attempts ≡ 3)
        × ((baseline_side p signal klass anchor).1.futile_attempts ≡ 3 * one_if (is_futile klass))
        × ((baseline_side p signal klass anchor).1.attempts_in_restricted_window
            ≡ 3 * violation p (model_for signal.method) anchor)
  unfolding baseline_side
  base_counts signal klass anchor =
      let counted = run_all_or_none p (record signal { occurred_at = anchor }) klass in
      (counted.0, counted.2, counted.3)

  shown-signal :
      (q : Event → Bool) (c : Case) (signal : FailureSignal) (diagnosis : Option Diagnosis)
      (timeline : List AuditRecord)
      → shown q (compare_case p c (some signal) diagnosis timeline)
        ≡ length (select q (map agent_event timeline))
          + length (
              select q (
                attempt_events p 3
                  (record signal { occurred_at = anchor_of c timeline })
                  (klass_of diagnosis)
                  1
                  3
                  (anchor_of c timeline)))
  shown-signal q c signal diagnosis timeline =
      subst
        (λ (es : List Event).
          shown q (compare_case p c (some signal) diagnosis timeline)
          ≡ length (select q (map agent_event timeline)) + length (select q es))
        (base_events signal (klass_of diagnosis) (anchor_of c timeline))
        (shown-compare q c (some signal) diagnosis timeline)

  base-compare :
      (c : Case) (signal : FailureSignal) (diagnosis : Option Diagnosis)
      (timeline : List AuditRecord)
      → (compare_case p c (some signal) diagnosis timeline).base
        ≡ (baseline_side p signal (klass_of diagnosis) (anchor_of c timeline)).1
  unfolding compare_case
  base-compare c signal diagnosis timeline = refl

  told-agent_event : (r : AuditRecord) → agent_event r ≡ told r
  told-agent_event r = rw (timed-starts_scheduled r.action) (ground arith)

  told-timeline : (timeline : List AuditRecord) → map agent_event timeline ≡ map told timeline
  told-timeline [] = refl
  told-timeline (r ∷ rest) = rw (told-agent_event r, told-timeline rest) refl

  replayed-attempts :
      (signal : FailureSignal) (klass : DiagnosisClass) (anchor : Instant)
      → attempt_events p 3 (record signal { occurred_at = anchor }) klass 1 3 anchor
        ≡ replayed p signal klass anchor
  unfolding attempt_events attempt_event
  replayed-attempts signal klass anchor = refl

  shown-lines :
      (q : Event → Bool) (c : Case) (signal : FailureSignal) (diagnosis : Option Diagnosis)
      (timeline : List AuditRecord)
      → shown q (compare_case p c (some signal) diagnosis timeline)
        ≡ length (select q (map told timeline))
          + length (select q (replayed p signal (klass_of diagnosis) (anchor_of c timeline)))
  shown-lines q c signal diagnosis timeline =
      shown-signal q c signal diagnosis timeline
      ∙ rw
          (
            told-timeline timeline,
            replayed-attempts signal (klass_of diagnosis) (anchor_of c timeline),
          )
          refl

  compare-IsOrdered :
      (c : Case) (signal : Option FailureSignal) (diagnosis : Option Diagnosis)
      (timeline : List AuditRecord)
      → IsOrdered (λ (e : Event). e.at) (compare_case p c signal diagnosis timeline).events
  unfolding compare_case
  compare-IsOrdered c signal diagnosis timeline = sort-IsOrdered (λ (e : Event). e.at) _

  -- A case with a signal is compared line by line. Its table has, in the order of time, exactly
  -- these lines, each as often as here, by any test of a line: each record of the trail, at its
  -- time and with its action, marked if it is a stop or a retry moved out of a band, but for a retry
  -- re-armed after a review; the three attempts of the documented policy, a day apart, with their
  -- marks; and the end. The attempts
  -- marked as impossible, and as inside a restricted band, are as many as the replay counted. The
  -- last holds where the replay and the window rule agree on whether the bands govern the signal's
  -- method.
  pub compare-columns :
      (q : Event → Bool) (c : Case) (signal : FailureSignal) (diagnosis : Option Diagnosis)
      (timeline : List AuditRecord)
      → (model_for signal.method).subject_to_npci_bands ≡ subject_to_execution_bands signal.method
      → (shown is_of_agent (compare_case p c (some signal) diagnosis timeline) ≡ length timeline)
        × (shown (λ e. is_attempt e.baseline) (compare_case p c (some signal) diagnosis timeline)
            ≡ (compare_case p c (some signal) diagnosis timeline).base.attempts)
        × (shown (λ e. is_doomed e.baseline) (compare_case p c (some signal) diagnosis timeline)
            ≡ (compare_case p c (some signal) diagnosis timeline).base.futile_attempts)
        × (shown (λ e. in_band e.baseline) (compare_case p c (some signal) diagnosis timeline)
            ≡ (compare_case p c
                (some signal)
                diagnosis
                timeline).base.attempts_in_restricted_window)
        × (shown q (compare_case p c (some signal) diagnosis timeline)
            ≡ length (select q (map told timeline))
              + length (select q (replayed p signal (klass_of diagnosis) (anchor_of c timeline))))
        × IsOrdered (λ e. e.at) (compare_case p c (some signal) diagnosis timeline).events
  compare-columns q c signal diagnosis timeline rail =
      let klass = klass_of diagnosis in
      let anchor = anchor_of c timeline in
      let moved = record signal { occurred_at = anchor } in
      let counted = base_counts signal klass anchor in
      let attempts = attempt_events-lines 3 moved klass 1 3 anchor in
      let own = agent_lines timeline in
      let base = base-compare c signal diagnosis timeline in
      let agree = restricted-governed signal.method anchor in
      (
        omega (arith, shown-signal is_of_agent c signal diagnosis timeline, own, attempts),
        rw base (
            omega (
              arith,
              shown-signal (λ e. is_attempt e.baseline) c signal diagnosis timeline,
              own,
              attempts,
              counted,
            )),
        rw base (
            omega (
              arith,
              shown-signal (λ e. is_doomed e.baseline) c signal diagnosis timeline,
              own,
              attempts,
              counted,
            )),
        rw base (
            ground (
              arith,
              shown-signal (λ e. in_band e.baseline) c signal diagnosis timeline,
              own,
              attempts,
              counted,
              agree,
              rail,
            )),
        shown-lines q c signal diagnosis timeline,
        compare-IsOrdered c (some signal) diagnosis timeline,
      )

  -- A signal without a method: the table marks its attempts by the window rule, which governs it,
  -- and the replay counts none of them.
  compare-unnamed :
      (c : Case) (signal : FailureSignal) (diagnosis : Option Diagnosis)
      (timeline : List AuditRecord)
      → signal.method ≡ none
      → is_restricted p none (anchor_of c timeline) ≡ true
      → (shown (λ e. in_band e.baseline) (compare_case p c (some signal) diagnosis timeline) ≡ 3)
        × ((compare_case p c (some signal) diagnosis timeline).base.attempts_in_restricted_window
            ≡ 0)
  unfolding model_for
  compare-unnamed c signal diagnosis timeline unnamed inside =
      let klass = klass_of diagnosis in
      let anchor = anchor_of c timeline in
      let moved = record signal { occurred_at = anchor } in
      let counted = base_counts signal klass anchor in
      let attempts = attempt_events-lines 3 moved klass 1 3 anchor in
      let own = agent_lines timeline in
      let base = base-compare c signal diagnosis timeline in
      (
        ground (
          arith,
          shown-signal (λ e. in_band e.baseline) c signal diagnosis timeline,
          own,
          attempts,
          unnamed,
          inside,
        ),
        rw base (ground (arith, counted, unnamed)),
      )
