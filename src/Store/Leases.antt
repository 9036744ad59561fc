-- ===== src/Store/Leases.antt =====
-- `lease_due_actions` of src/unhalted/store.py: two claims in a row.
use unhalted.Prelude.{
  ℕ, ◌+◌, ◌≡◌, refl, subst, Bool, true, false, List, [], ◌∷◌, map, any, select, sort_by, All,
  All-sort, All-take, All-mono, arith, Bool-cases, inl, inr, ◌&&◌,
}
use unhalted.Clock.{Instant, Duration}
use unhalted.Models.{Text}
use unhalted.Store.Tables.{Store, Action}
use unhalted.Store.Queue.{
  is_pending, is_due, due_at, is_row, is_among, lease, lease_row, due_actions, lease_due_actions,
}

-- a row that is pending was not claimed
abbrev Unclaimed : List Action → Action → Type 0
Unclaimed rows a = (is_pending a.state && is_among rows a) ≡ false

lease_row-Unclaimed :
    (rows : List Action) (until : Instant) (worker : Text) (a : Action)
    → Unclaimed rows (lease_row rows until worker a)
unfolding lease_row lease
lease_row-Unclaimed rows until worker a = elim (Bool-cases (is_among rows a)) [
  | inl claimed ↦ rw claimed refl
  | inr free ↦ rw (free, free) (ground arith)
]

leased-Unclaimed :
    (rows : List Action) (until : Instant) (worker : Text) (table : List Action)
    → All (Unclaimed rows) (map (lease_row rows until worker) table)
leased-Unclaimed rows until worker [] = tt
leased-Unclaimed rows until worker (a ∷ table) =
    (lease_row-Unclaimed rows until worker a, leased-Unclaimed rows until worker table)

-- among the rows that are due later, none was claimed before
due-All :
    (rows : List Action) (now : Instant) (table : List Action)
    → All (Unclaimed rows) table
    → All (λ a. is_among rows a ≡ false) (select (is_due now) table)
due-All rows now [] all = tt
due-All rows now (a ∷ table) all = elim (Bool-cases (is_due now a)) [
  | inl due ↦ rw due (ground (arith, due, all.0), due-All rows now table all.1)
  | inr other ↦ rw other (due-All rows now table all.1)
]

-- a row that shares its id with a row that was not claimed was not claimed
among-All :
    (rows due : List Action) (a : Action)
    → All (λ b. is_among rows b ≡ false) due
    → is_among due a ≡ true
    → is_among rows a ≡ false
among-All rows [] a all h = absurd (cc)
among-All rows (b ∷ due) a all h = elim (Bool-cases (is_row a.id b)) [
  | inl same ↦
      let ids : b.id ≡ a.id = ground (arith, same) in
      subst (λ (n : ℕ). any (is_row n) rows ≡ false) ids all.0
  | inr other ↦ among-All rows due a all.1 (rw other at h)
]

select-All :
    (rows due table : List Action)
    → All (λ b. is_among rows b ≡ false) due
    → All (λ a. is_among rows a ≡ false) (select (is_among due) table)
select-All rows due [] all = tt
select-All rows due (a ∷ table) all = elim (Bool-cases (is_among due a)) [
  | inl hit ↦ rw hit (among-All rows due a all hit, select-All rows due table all)
  | inr miss ↦ rw miss (select-All rows due table all)
]

clash : (b : Bool) → b ≡ true → b ≡ false → ⊥
clash b t f = cc

-- what is claimed is among the rows that were due
claimed-among :
    (due table : List Action) (a : Action)
    → is_among due a ≡ false
    → is_among (select (is_among due) table) a ≡ false
claimed-among due [] a h = refl
claimed-among due (b ∷ table) a h = elim (Bool-cases (is_among due b)) [
  | inl hit ↦ elim (Bool-cases (is_row a.id b)) [
    | inl same ↦
        let ids : b.id ≡ a.id = ground (arith, same) in
        absurd (clash (is_among due a) (subst (λ (n : ℕ). any (is_row n) due ≡ true) ids hit) h)
    | inr other ↦ rw (hit, other) (claimed-among due table a h)
  ]
  | inr miss ↦ rw miss (claimed-among due table a h)
]

-- Two claims, one after the other with no lease released between them, whatever their clocks,
-- workers and limits, claim no row twice: no row of the second has the id of a row of the first.
pub lease_exclusive :
    (now later : Instant) (first_worker second_worker : Text) (lease_for again : Duration)
    (limit more : ℕ) (s : Store)
    → All
        (λ a. is_among (lease_due_actions now first_worker lease_for limit s).0 a ≡ false)
        (lease_due_actions later second_worker again more
          (lease_due_actions now first_worker lease_for limit s).1).0
unfolding lease_due_actions due_actions
lease_exclusive now later first_worker second_worker lease_for again limit more s =
    let due = due_actions now limit s in
    let table = map (lease_row due (now + lease_for) first_worker) s.pending_actions in
    let second = due_actions later more (record s { pending_actions = table }) in
    let free =
      All-take (λ a. is_among due a ≡ false) more (sort_by due_at (select (is_due later) table))
        (All-sort (λ a. is_among due a ≡ false) due_at (select (is_due later) table)
          (due-All due later table
            (leased-Unclaimed due (now + lease_for) first_worker s.pending_actions))) in
    All-mono (λ a. is_among due a ≡ false) _ _ (λ a h. claimed-among due table a h)
      (select-All due second (map (lease_row second (later + again) second_worker) table) free)
