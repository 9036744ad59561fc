-- ===== src/Proposals/Grounded.antt =====
-- `propose` of src/unhalted/core/policy_change.py: no change is proposed that the text does not say.
use unhalted.Prelude.{
  ℕ, suc, ◌+◌, ◌≡◌, refl, subst, Bool, true, String, Option, none, some, [], All, length,
  Option-cases, Bool-cases, inl, inr, arith,
}
use unhalted.Policy.{Policy}
use unhalted.Language.Json.{
  Json, null, flag, number, int, text, arr, obj, Items, nil, cons, Fields, get_true, get_text,
  Outside,
}
use unhalted.Language.Evidence.{quotes_the_source}
use unhalted.Language.Calls.{Answer, FailureReason, unparseable, call_model}
use unhalted.Language.Fence.{extract, answer_of}
use unhalted.Proposals.PolicyChange.{
  ProposedChange, Proposal, failed_proposal, Sorted, is_allowed, sort_entry, sort_entries,
  read_changes, read_unclear, read_proposal, proposal_of, propose,
}

module _ (o : Outside) (p : Policy) (source : String) where
  -- a change of a field that may change, with a quote that stands in the text
  abbrev pub IsGrounded : ProposedChange → Type 0
  IsGrounded c = (is_allowed c.name ≡ true) × (quotes_the_source o c.quote source ≡ true)

  abbrev pub AreGrounded : Sorted → Type 0
  AreGrounded s = All IsGrounded s.0

  sort_entry-AreGrounded :
      (d : Fields) (s : Sorted)
      → AreGrounded s
      → AreGrounded (sort_entry o p source d s)
        × (length (sort_entry o p source d s).0 + length (sort_entry o p source d s).1
            ≡ suc (length s.0 + length s.1))
  unfolding sort_entry
  sort_entry-AreGrounded d (changes, dropped) g =
      let name = get_text o "field" d in
      let quote = get_text o "quote" d in
      elim (Bool-cases (is_allowed name)) [
        | inr other ↦ rw (other, sort_entry) (g, omega arith)
        | inl allowed ↦ elim (Bool-cases (quotes_the_source o quote source)) [
          | inr unsaid ↦ rw (allowed, unsaid) (g, omega arith)
          | inl said ↦ rw (allowed, said) (((allowed, said), g), omega arith)
        ]
      ]

  -- the number of entries of the answer
  abbrev pub entries : Items → ℕ
  entries nil = 0
  entries (cons v xs) = suc (entries xs)

  abbrev pub entries_in : Option Json → ℕ
  entries_in none = 0
  entries_in (some (arr xs)) = entries xs
  entries_in (some _) = 0

  abbrev pub IsSorted : ℕ → Sorted → Type 0
  IsSorted n s = AreGrounded s × (length s.0 + length s.1 ≡ n)

  sort_entries-IsSorted :
      (xs : Items) (s : Sorted) → sort_entries o p source xs ≡ some s → IsSorted (entries xs) s
  unfolding sort_entries
  sort_entries-IsSorted nil s e = let same : ([], []) ≡ s = cc in subst (IsSorted 0) same (tt, refl)
  sort_entries-IsSorted (cons (obj d) xs) s e = elim (Option-cases (sort_entries o p source xs)) [
    | inl raised ↦ absurd (cc)
    | inr (rest, at) ↦
        let (g, n) = sort_entries-IsSorted xs rest at in
        let (g', n') = sort_entry-AreGrounded d rest g in
        let same : sort_entry o p source d rest ≡ s = ground (arith, at, e) in
        subst (IsSorted (suc (entries xs))) same (g', omega (arith, n, n'))
  ]
  sort_entries-IsSorted (cons null xs) s e = absurd (cc)
  sort_entries-IsSorted (cons (flag b) xs) s e = absurd (cc)
  sort_entries-IsSorted (cons (number n) xs) s e = absurd (cc)
  sort_entries-IsSorted (cons (int n) xs) s e = absurd (cc)
  sort_entries-IsSorted (cons (text t) xs) s e = absurd (cc)
  sort_entries-IsSorted (cons (arr ys) xs) s e = absurd (cc)

  read_changes-IsSorted :
      (v : Option Json) (s : Sorted)
      → read_changes o p source v ≡ some s
      → IsSorted (entries_in v) s
  unfolding read_changes
  read_changes-IsSorted none s e =
      let same : ([], []) ≡ s = cc in subst (IsSorted 0) same (tt, refl)
  read_changes-IsSorted (some (arr xs)) s e = sort_entries-IsSorted xs s e
  read_changes-IsSorted (some null) s e = absurd (cc)
  read_changes-IsSorted (some (flag b)) s e = absurd (cc)
  read_changes-IsSorted (some (number n)) s e = absurd (cc)
  read_changes-IsSorted (some (int n)) s e = absurd (cc)
  read_changes-IsSorted (some (text t)) s e = absurd (cc)
  read_changes-IsSorted (some (obj d)) s e = absurd (cc)

  -- the entries that an answer has
  abbrev pub entries_of : Option Json → ℕ
  entries_of (some (obj d)) = entries_in (get_true "changes" d)
  entries_of _ = 0

  abbrev pub IsHonest : Option Json → Proposal → Type 0
  IsHonest v r = All IsGrounded r.changes × (length r.changes + length r.dropped ≡ entries_of v)

  read_proposal-IsHonest :
      (cost : ℕ) (v : Json) (r : Proposal)
      → read_proposal o p source cost v ≡ some r
      → IsHonest (some v) r
  unfolding read_proposal
  read_proposal-IsHonest cost (obj d) r e =
      elim (Option-cases (read_changes o p source (get_true "changes" d))) [
        | inl raised ↦ absurd (cc)
        | inr (s, at) ↦ elim (Option-cases (read_unclear o (get_true "unclear" d))) [
          | inl raised ↦ absurd (ground (arith, at, raised, e))
          | inr (u, there) ↦
              let h = read_changes-IsSorted (get_true "changes" d) s at in
              let changes : s.0 ≡ r.changes = ground (arith, at, there, e) in
              let dropped : s.1 ≡ r.dropped = ground (arith, at, there, e) in
              rw (← changes, ← dropped) h
        ]
      ]
  read_proposal-IsHonest cost null r e = absurd (cc)
  read_proposal-IsHonest cost (flag b) r e = absurd (cc)
  read_proposal-IsHonest cost (number n) r e = absurd (cc)
  read_proposal-IsHonest cost (int n) r e = absurd (cc)
  read_proposal-IsHonest cost (text t) r e = absurd (cc)
  read_proposal-IsHonest cost (arr xs) r e = absurd (cc)

  proposal_of-IsHonest :
      (cost : ℕ) (why : Option FailureReason) (content : Option String) (r : Proposal)
      → proposal_of o p source cost why content ≡ some r
      → IsHonest (answer_of o content) r
  proposal_of-IsHonest cost why none r e =
      let same : failed_proposal cost why ≡ r = cc in subst (IsHonest none) same (tt, refl)
  proposal_of-IsHonest cost why (some content) r e = elim (Option-cases (extract o content)) [
    | inl no_json ↦
        let same : failed_proposal cost (some unparseable) ≡ r = ground (arith, no_json, e) in
        subst (IsHonest (extract o content)) same (rw no_json (tt, refl))
    | inr (v, at) ↦
        let read : read_proposal o p source cost v ≡ some r = ground (arith, at, e) in
        rw at (read_proposal-IsHonest cost v r read)
  ]

  -- A circular changes only what may change, and only by its own words: each change that is
  -- proposed is of an allowed field and has a quote that stands in the text. Every other entry of
  -- the answer is counted among the dropped.
  pub propose-IsHonest :
      (has_key : Bool) (answers : ℕ → Answer) (r : Proposal)
      → propose o p source has_key answers ≡ some r
      → IsHonest (answer_of o (call_model has_key answers).content) r
  unfolding propose
  propose-IsHonest has_key answers r e =
      let call = call_model has_key answers in
      proposal_of-IsHonest call.cost call.failure_reason call.content r e
