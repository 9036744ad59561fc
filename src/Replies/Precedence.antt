-- ===== src/Replies/Precedence.antt =====
-- `decide` of src/unhalted/shell/replies.py: the order in which it protects a customer.
use unhalted.Prelude.{
  ℕ, ◌≡◌, ◌≢◌, ◌↔◌, refl, Bool, Bool-cases, true, false, not, ◌&&◌, ◌||◌, Option, none, some, List,
  [], ◌∷◌, any, leb, ltb, arith, inl, inr, if◌then◌else◌,
}
use unhalted.Clock.{Day}
use unhalted.Policy.{Policy}
use unhalted.Models.{
  Intent, cancellation_request, same_intent, DetectedIntent, ParsedReply, confidence_among,
  confidence_for, has, StopCode,
}
use unhalted.Replies.{in_distress, decide}

-- some intent of the kind stands in the list, read with at least the confidence
abbrev pub is_read : Intent → ℕ → List DetectedIntent → Bool
is_read i at_least ds = any (λ d. same_intent d.type_of i && leb at_least d.confidence) ds

-- the default of `max` is 0
confidence-unread :
    (i : Intent) (ds : List DetectedIntent)
    → any (λ d. same_intent d.type_of i) ds ≡ false
    → confidence_among i ds ≡ 0
unfolding confidence_among
confidence-unread i [] e = refl
confidence-unread i (d ∷ ds) e = ground (arith, e, confidence-unread i ds)

among-is_read :
    (i : Intent) (at_least : ℕ) (ds : List DetectedIntent)
    → (leb at_least (confidence_among i ds) && any (λ d. same_intent d.type_of i) ds)
      ≡ is_read i at_least ds
unfolding confidence_among
among-is_read i at_least [] = ground arith
among-is_read i at_least (d ∷ ds) =
    elim (Bool-cases (any (λ (x : DetectedIntent). same_intent x.type_of i) ds)) [
      | inr none_left ↦
          ground (arith, among-is_read i at_least ds, none_left, confidence-unread i ds none_left)
      | inl more ↦ ground (arith, among-is_read i at_least ds, more)
    ]

has-is_read :
    (r : ParsedReply) (i : Intent) (at_least : ℕ) → has r i at_least ≡ is_read i at_least r.intents
unfolding has confidence_for
has-is_read r i at_least = among-is_read i at_least r.intents

-- the stops that a reply can fire, in no order
abbrev pub stops : List StopCode
stops = StopCode.opt_out ∷ StopCode.dispute ∷ StopCode.distress ∷ []

-- how late a stop comes: the most protective first
abbrev pub rank : StopCode → ℕ
rank StopCode.distress = 0
rank StopCode.dispute = 1
rank _ = 2

-- the reply gives cause for a stop
abbrev pub is_caused : ℕ → ParsedReply → StopCode → Bool
is_caused t r StopCode.distress = is_read Intent.distress t r.intents || in_distress r.sentiment
is_caused t r StopCode.dispute = is_read Intent.dispute t r.intents
is_caused t r StopCode.opt_out = is_read Intent.opt_out t r.intents
is_caused t r _ = false

-- it gives cause for a stop that comes sooner
abbrev pub is_forestalled : ℕ → ParsedReply → StopCode → Bool
is_forestalled t r code = any (λ other. is_caused t r other && ltb (rank other) (rank code)) stops

module _ (p : Policy) where
  chain :
      (r : ParsedReply) (today : Day) (expires : Option Day)
      → r.failed ≡ false
      → (decide p r today expires).stop_code ≡ (
          if has r Intent.distress p.reply_protective || in_distress r.sentiment
          then some StopCode.distress
          else if has r Intent.dispute p.reply_protective
          then some StopCode.dispute
          else if has r Intent.opt_out p.reply_protective
          then some StopCode.opt_out
          else none)
  unfolding decide
  chain r today expires h = ground arith

  -- A reply that was read fires a stop exactly if it gives cause for it and for none that comes
  -- sooner, in the order distress, dispute, opt-out; and none exactly if it gives cause for none of
  -- these. Cause is an intent of that kind read with the policy's protective confidence, which is
  -- 0.50 in config/policy.yaml, or for distress the reply's tone.
  pub stop_code-decide :
      (r : ParsedReply) (today : Day) (expires : Option Day) (code : StopCode)
      → r.failed ≡ false
      → (((decide p r today expires).stop_code ≡ some code) ↔ (
          is_caused p.reply_protective r code && not (is_forestalled p.reply_protective r code)
          ≡ true))
        × (((decide p r today expires).stop_code ≡ none)
            ↔ (any (is_caused p.reply_protective r) stops ≡ false))
  stop_code-decide r today expires code h =
      let t = p.reply_protective in
      rw
        (
          chain r today expires h,
          has-is_read r Intent.distress t,
          has-is_read r Intent.dispute t,
          has-is_read r Intent.opt_out t,
        )
        (ground arith)

  -- A cancellation read at its threshold needs a person, whatever else the reply says.
  cancellation_reaches_person :
      (r : ParsedReply) (today : Day) (expires : Option Day)
      → has r cancellation_request p.reply_cancellation ≡ true
      → (decide p r today expires).needs_human ≡ true
  unfolding decide
  cancellation_reaches_person r today expires h = ground arith

  -- Every reply leaves an entry in `rules_fired`.
  pub decide_never_silent :
      (r : ParsedReply) (today : Day) (expires : Option Day)
      → (decide p r today expires).rules_fired ≢ []
  unfolding decide
  decide_never_silent r today expires = ground arith
