-- ===== src/System/Limiter.antt =====
-- What the program promises a customer, without its tables: a limiter of messages, and the ledger
-- of a store (the audit trail of src/unhalted/store.py) as a state of it.
use unhalted.Prelude.{
  Bool-cases, select-append_some, ℕ, ◌-◌, ◌<◌, ◌≡◌, refl, ◌∙◌, subst, sym, ap, Bool, true, ◌&&◌,
  none, some, Option, List, [], ◌∷◌, ◌++◌, ◌==◌, ltb, leb, length, map, select, All, All-mono,
  length-select-select, length-select-map, length-select_agree, arith, Option-cases, inl, inr,
}
use mathlib.Core.Path.{fun_ext}
use mathlib.Core.List.{map-append}
use unhalted.Clock.{Instant}
use unhalted.Policy.{Policy}
use unhalted.Models.{Text, Case, AuditRecord}
use unhalted.Taxonomy.{Reasons}
use unhalted.Windows.{inside_window}
use unhalted.Store.Tables.{Store}
use unhalted.Store.Cases.{get_case}
use unhalted.Store.Payments.{==_refl}
use unhalted.Store.Trail.{belongs_to, is_contact, contacts_since}
use unhalted.Runner.Ceiling.{counted, budget_counts, Turn, quiet, noted, sent}
use unhalted.Runner.Passes.{run_due_kept}
use unhalted.System.{Step, Reach, start, then}
use unhalted.System.Turns.{quiet-Grows, noted-Grows, sent-AllKnown}
use unhalted.System.Entries.{Step-cases}
use unhalted.System.Growth.{
  grows_frame, mark_event-Grows, is_delivery, nudges, Known, KeepsOwners, AllKnown, AllKnown-kept,
  Grows, belongs_to-one,
}

-- a message that a customer was sent
pub record Contact : Type 0 where
  pub to : Text
  pub at : Instant

-- how many messages of a ledger went to the customer after `since`
abbrev pub sent_since : Text → Instant → List Contact → ℕ
sent_since ref since ledger = length (select (λ c. (c.to == ref) && ltb since c.at) ledger)

module _ (p : Policy) where
  -- The limiter: it may send one more message to a customer who was sent fewer than the ceiling
  -- within the window before, and it never takes one back.
  pub data Sends (ledger : List Contact) : List Contact → Type 0 where
    idle : Sends ledger ledger
    send :
        {ledger' : List Contact} (c : Contact)
        → Sends ledger ledger'
        → sent_since c.to (c.at - p.contact_window) ledger' < p.contact_max_per_window
        → Sends ledger (ledger' ++ c ∷ [])

-- the customer of a case
unfoldable pub owner : Store → Text → Text
unfolding get_case
owner s id = elim (get_case id s) [ none ↦ 0 | some c ↦ c.customer_ref ]

abbrev pub contact_of : Store → AuditRecord → Contact
contact_of s r = record { to = owner s r.case_id; at = r.at }

-- The abstract view of a store: who was sent a nudge, and when.
unfoldable pub ledger : Store → List Contact
unfolding owner
ledger s = map (contact_of s) (nudges s)

owner-known : (s : Store) (ref id : Text) → belongs_to ref s id ≡ true → owner s id ≡ ref
unfolding owner belongs_to
owner-known s ref id h = elim (Option-cases (get_case id s)) [
  | inl gone ↦ absurd (ground (arith, gone, h))
  | inr (c, at) ↦ ground (arith, at, h)
]

map_agree :
    {A B : Type 0} (f g : A → B) (xs : List A) → All (λ x. f x ≡ g x) xs → map f xs ≡ map g xs
map_agree f g [] a = refl
map_agree f g (x ∷ xs) a = rw (a.0, map_agree f g xs a.1) refl

contacts_kept :
    (s s' : Store)
    → KeepsOwners s s'
    → AllKnown s
    → map (contact_of s') (nudges s) ≡ map (contact_of s) (nudges s)
contacts_kept s s' kept a = map_agree (contact_of s') (contact_of s) (nudges s) (
    All-mono (λ r. Known s r.case_id) _ (nudges s)
      (λ r (ref, h).
        ap (λ (t : Text). record { to = t; at = r.at })
          (owner-known s' ref r.case_id (kept ref r.case_id h)
            ∙ sym (owner-known s ref r.case_id h)))
      a)

ledger-Grows : (s s' : Store) → Grows s s' → AllKnown s → ledger s' ≡ ledger s
unfolding ledger
ledger-Grows s s' (same, kept) a =
    ap (λ (rs : List AuditRecord). map (contact_of s') rs) same ∙ contacts_kept s s' kept a

module _ (p : Policy) where
  -- what the budget counts is what the ledger says
  sent_since-ledger :
      (s : Store) (ref : Text) (now : Instant)
      → AllKnown s
      → sent_since ref (now - p.contact_window) (ledger s)
        ≡ length (inside_window p (contacts_since ref (now - p.contact_window) s) now)
  unfolding ledger is_contact
  sent_since-ledger s ref now a =
      let since = now - p.contact_window in
      let rest : AuditRecord → Bool =
        λ r. (leb since r.at && belongs_to ref s r.case_id) && ltb since r.at in
      let agree : All (λ r. ((owner s r.case_id == ref) && ltb since r.at) ≡ rest r) (nudges s) =
        All-mono (λ r. Known s r.case_id) _ (nudges s)
          (λ r (to, h).
            ground (arith, owner-known s to r.case_id h, belongs_to-one s to ref r.case_id h))
          a in
      let regroup : counted p ref now s ≡ (λ r. is_delivery r && rest r) =
        fun_ext (λ r. ground arith) in
      length-select-map (λ c. (c.to == ref) && ltb since c.at) (contact_of s) (nudges s)
      ∙ length-select_agree _ rest (nudges s) agree
      ∙ length-select-select is_delivery rest s.audit
      ∙ sym (ap (λ (f : AuditRecord → Bool). length (select f s.audit)) regroup)
      ∙ sym (budget_counts p ref now s)

  ledger-sent :
      (s s' : Store) (r : AuditRecord) (to : Text)
      → KeepsOwners s s'
      → s'.audit ≡ s.audit ++ r ∷ []
      → is_delivery r ≡ true
      → belongs_to to s' r.case_id ≡ true
      → AllKnown s
      → ledger s' ≡ ledger s ++ record { to = to; at = r.at } ∷ []
  unfolding ledger
  ledger-sent s s' r to kept e delivery own a =
      ap (λ (rs : List AuditRecord). map (contact_of s') (select is_delivery rs)) e
      ∙ ap (λ (rs : List AuditRecord). map (contact_of s') rs)
          (select-append_some is_delivery s.audit r delivery)
      ∙ map-append (contact_of s') (nudges s) (r ∷ [])
      ∙ ap (λ (cs : List Contact). cs ++ contact_of s' r ∷ []) (contacts_kept s s' kept a)
      ∙ ap (λ (t : Text). ledger s ++ record { to = t; at = r.at } ∷ [])
          (owner-known s' to r.case_id own)

  Turn-Sends :
      (before : List Contact) (now : Instant) (s s' : Store)
      → Turn p now s s'
      → AllKnown s
      → Sends p before (ledger s)
      → Sends p before (ledger s')
  Turn-Sends before now s s' (quiet same e) a so_far =
      subst (Sends p before) (sym (ledger-Grows s s' (quiet-Grows p s s' same e) a)) so_far
  Turn-Sends before now s s' (noted r same e none_sent) a so_far =
      subst (Sends p before) (sym (ledger-Grows s s' (noted-Grows p s s' r same e none_sent) a))
        so_far
  Turn-Sends before now s s' (sent r to same e at own room) a so_far =
      elim (Bool-cases (is_delivery r)) [
        | inr other ↦
            subst (Sends p before) (sym (ledger-Grows s s' (noted-Grows p s s' r same e other) a))
              so_far
        | inl delivery ↦
            let after =
              ledger-sent s s' r to (λ ref id h. same ref id ∙ h) e delivery
                (same to r.case_id ∙ own to ∙ ==_refl to) a in
            let fits : sent_since to (r.at - p.contact_window) (ledger s)
                < p.contact_max_per_window =
              rw (at, sent_since-ledger s to now a) room in
            subst (Sends p before) (sym after) (send (record { to = to; at = r.at }) so_far fits)
      ]

  Turn-AllKnown : (now : Instant) (s s' : Store) → Turn p now s s' → AllKnown s → AllKnown s'
  Turn-AllKnown now s s' (quiet same e) = AllKnown-kept s s' (quiet-Grows p s s' same e)
  Turn-AllKnown now s s' (noted r same e none_sent) =
      AllKnown-kept s s' (noted-Grows p s s' r same e none_sent)
  Turn-AllKnown now s s' (sent r to same e at own room) = sent-AllKnown p s s' r to same e own

  module _ (table : Reasons) (link : Case → Option Text) (digest : Text → Text → Text) where
    Step-Sends :
        (s s' : Store)
        → Step p table link digest s s'
        → AllKnown s
        → AllKnown s' × Sends p (ledger s) (ledger s')
    Step-Sends s s' st a =
        elim (Step-cases grows_frame mark_event-Grows p table link digest s s' st) [
          | inl g ↦ (
            AllKnown-kept s s' g a,
            subst (Sends p (ledger s)) (sym (ledger-Grows s s' g a)) idle,
          )
          | inr (now, worker, limit, e) ↦
              let P : Store → Type 0 = λ t. AllKnown t × Sends p (ledger s) (ledger t) in
              subst P e (
                run_due_kept p link P
                  (λ now t t' turn (b, so_far).
                    (Turn-AllKnown now t t' turn b, Turn-Sends (ledger s) now t t' turn b so_far))
                  now worker limit s (a, idle))
        ]

    Reach-AllKnown : (s : Store) → Reach p table link digest s → AllKnown s
    Reach-AllKnown s start = tt
    Reach-AllKnown s' (then {s} r st) = (Step-Sends s s' st (Reach-AllKnown s r)).0

    -- The program refines a limiter of messages: in a store reached from a new database, each
    -- webhook, failure, reply, stop, review, payment, lifting of a suppression or pass of the runner
    -- changes the ledger of delivered nudges only by adding messages at its end, one by one, each to
    -- a customer who at that time was sent fewer than the policy's ceiling within the window before.
    pub Step-refines :
        (s s' : Store)
        → Reach p table link digest s
        → Step p table link digest s s'
        → Sends p (ledger s) (ledger s')
    Step-refines s s' r st = (Step-Sends s s' st (Reach-AllKnown s r)).1
