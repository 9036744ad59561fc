-- ===== src/Language/Reading.antt =====
-- `parse` of src/unhalted/core/reply.py: what an answer of the model can become.
use unhalted.Prelude.{
  ◌>>=◌, if◌then◌else◌, ℕ, ◌≡◌, ◌↔◌, refl, Bool, true, false, String, Option, none, some, List, [],
  All, leb, not, ◌&&◌, Option-cases, inl, inr, arith, subst, sym, ◌∙◌,
}
use unhalted.Models.{Intent, DetectedIntent, ParsedReply, ProposedDate}
use unhalted.Policy.{Policy}
use unhalted.Clock.{Day}
use unhalted.Replies.{decide}
use unhalted.Language.Json.{
  Json, null, flag, number, int, text, arr, obj, Items, nil, cons, Fields, get, get_true, get_text,
  Outside,
}
use unhalted.Language.Evidence.{quotes_the_source}
use unhalted.Language.Calls.{Answer, call_model}
use unhalted.Language.Fence.{answer_of}
use unhalted.Language.Reply.{
  Confidence, reads, refused, overflows, least_overflow, float_of_int, read_entry, type_in,
  confidence_in, read_intent, keep, read_items, read_intents, parse_failed_reply, read_data,
  read_or_fail, read_content, parse,
}

decide_failed :
    (p : Policy) (r : ParsedReply) (today : Day) (expires : Option Day)
    → r.failed ≡ true
    → (decide p r today expires).needs_human ≡ true
unfolding decide
decide_failed p r today expires failed = rw failed refl

-- an integer that no float is near
abbrev pub is_huge : Option Json → Bool
is_huge (some (int n)) = leb least_overflow n
is_huge _ = false

abbrev pub is_known : Option Intent → Bool
is_known none = false
is_known (some i) = true

module _ (o : Outside) (reply : String) where
  -- an entry that is quoted and of a known type, with an integer that is too large for a float
  abbrev pub is_overflowing : Fields → Bool
  is_overflowing d =
      quotes_the_source o (get_text o "evidence" d) reply
      && (is_known (type_in (get "type" d)) && is_huge (get "confidence" d))

  -- every entry of the list is a dictionary, and none overflows
  abbrev pub are_entries : Items → Bool
  are_entries nil = true
  are_entries (cons (obj d) xs) = not (is_overflowing d) && are_entries xs
  are_entries (cons _ xs) = false

  abbrev pub is_list_of_entries : Option Json → Bool
  is_list_of_entries none = true
  is_list_of_entries (some (arr xs)) = are_entries xs
  is_list_of_entries (some _) = false

  -- a dictionary whose intents are absent, empty, or a list of such entries
  abbrev pub is_readable : Json → Bool
  is_readable (obj d) = is_list_of_entries (get_true "intents" d)
  is_readable _ = false

-- the evidence of an intent stands in the reply
abbrev pub IsQuoted : Outside → String → DetectedIntent → Type 0
IsQuoted o reply i = quotes_the_source o i.evidence reply ≡ true

-- an intent is read only where its quote was found, and keeps it as its evidence
kept_quote :
    (found : Bool) (kind : Option Intent) (confidence : Confidence) (quote : String)
    (i : DetectedIntent)
    → (if found then read_entry quote kind confidence else some none) ≡ some (some i)
    → (found ≡ true) × (i.evidence ≡ quote)
kept_quote found none confidence quote i e = absurd (ground arith)
kept_quote found (some k) refused quote i e = absurd (ground arith)
kept_quote found (some k) overflows quote i e = absurd (ground arith)
kept_quote found (some k) (reads c) quote i e = (ground arith, ground arith)

-- an entry raises exactly if it is found, known and too large
raised_entry :
    (found : Bool) (kind : Option Intent) (confidence : Confidence) (huge : Bool) (quote : String)
    → (confidence ≡ overflows) ↔ (huge ≡ true)
    → ((if found then read_entry quote kind confidence else some none) ≡ none)
      ↔ (found && (is_known kind && huge) ≡ true)
raised_entry false kind confidence huge quote h = ground arith
raised_entry true none confidence huge quote h = ground arith
raised_entry true (some k) (reads c) huge quote h = ground (arith, h)
raised_entry true (some k) refused huge quote h = ground (arith, h)
raised_entry true (some k) overflows huge quote h = ground (arith, h)

-- a list raises exactly if an entry of it does
raised_items :
    (entry : Option (Option DetectedIntent)) (rest : Option (List DetectedIntent))
    (overflow readable : Bool)
    → (entry ≡ none) ↔ (overflow ≡ true)
    → (rest ≡ none) ↔ (readable ≡ false)
    → ((do e ← entry; r ← rest; some (keep e r)) ≡ none) ↔ (not overflow && readable ≡ false)
raised_items none rest overflow readable h k = ground (arith, h)
raised_items (some e) none overflow readable h k = ground (arith, h, k)
raised_items (some e) (some r) overflow readable h k = ground (arith, h, k)

module _ (o : Outside) (read_date : Json → ProposedDate) where
  read_intent-IsQuoted :
      (reply : String) (d : Fields) (i : DetectedIntent)
      → read_intent o reply d ≡ some (some i)
      → IsQuoted o reply i
  unfolding read_intent
  read_intent-IsQuoted reply d i e =
      let quote = get_text o "evidence" d in
      let (found, same) =
        kept_quote (quotes_the_source o quote reply) (type_in (get "type" d))
          (confidence_in o (get "confidence" d)) quote i e in
      rw same found

  keep-All :
      (reply : String) (d : Fields) (entry : Option DetectedIntent) (rest : List DetectedIntent)
      → read_intent o reply d ≡ some entry
      → All (IsQuoted o reply) rest
      → All (IsQuoted o reply) (keep entry rest)
  keep-All reply d none rest e h = h
  keep-All reply d (some i) rest e h = (read_intent-IsQuoted reply d i e, h)

  huge-confidence : (v : Option Json) → (confidence_in o v ≡ overflows) ↔ (is_huge v ≡ true)
  unfolding confidence_in float_of_int
  huge-confidence none = ground arith
  huge-confidence (some (int n)) = ground arith
  huge-confidence (some (number n)) = ground arith
  huge-confidence (some null) = ground arith
  huge-confidence (some (flag true)) = ground arith
  huge-confidence (some (flag false)) = ground arith
  huge-confidence (some (text s)) = ground arith
  huge-confidence (some (arr xs)) = ground arith
  huge-confidence (some (obj d)) = ground arith

  read_intent-none :
      (reply : String) (d : Fields)
      → (read_intent o reply d ≡ none) ↔ (is_overflowing o reply d ≡ true)
  unfolding read_intent
  read_intent-none reply d =
      raised_entry (quotes_the_source o (get_text o "evidence" d) reply) (type_in (get "type" d))
        (confidence_in o (get "confidence" d)) (is_huge (get "confidence" d))
        (get_text o "evidence" d) (huge-confidence (get "confidence" d))

  read_items-IsQuoted :
      (reply : String) (xs : Items) (intents : List DetectedIntent)
      → read_items o reply xs ≡ some intents
      → All (IsQuoted o reply) intents
  unfolding read_items
  read_items-IsQuoted reply nil intents e =
      let empty : [] ≡ intents = cc in
      subst (λ (is : List DetectedIntent). All (IsQuoted o reply) is) empty tt
  read_items-IsQuoted reply (cons (obj d) xs) intents e =
      elim (Option-cases (read_intent o reply d)) [
        | inl overflow ↦ absurd (ground (arith, overflow, e))
        | inr (entry, one) ↦ elim (Option-cases (read_items o reply xs)) [
          | inl raised ↦ absurd (ground (arith, one, raised, e))
          | inr (rest, at) ↦
              let ih = read_items-IsQuoted reply xs rest at in
              let kept : keep entry rest ≡ intents = ground (arith, one, at, e) in
              subst (λ (is : List DetectedIntent). All (IsQuoted o reply) is) kept
                (keep-All reply d entry rest one ih)
        ]
      ]
  read_items-IsQuoted reply (cons null xs) intents e = absurd (cc)
  read_items-IsQuoted reply (cons (flag b) xs) intents e = absurd (cc)
  read_items-IsQuoted reply (cons (number n) xs) intents e = absurd (cc)
  read_items-IsQuoted reply (cons (int n) xs) intents e = absurd (cc)
  read_items-IsQuoted reply (cons (text s) xs) intents e = absurd (cc)
  read_items-IsQuoted reply (cons (arr ys) xs) intents e = absurd (cc)

  read_intents-IsQuoted :
      (reply : String) (v : Option Json) (intents : List DetectedIntent)
      → read_intents o reply v ≡ some intents
      → All (IsQuoted o reply) intents
  unfolding read_intents
  read_intents-IsQuoted reply none intents e =
      let empty : [] ≡ intents = cc in
      subst (λ (is : List DetectedIntent). All (IsQuoted o reply) is) empty tt
  read_intents-IsQuoted reply (some (arr xs)) intents e = read_items-IsQuoted reply xs intents e
  read_intents-IsQuoted reply (some null) intents e = absurd (cc)
  read_intents-IsQuoted reply (some (flag b)) intents e = absurd (cc)
  read_intents-IsQuoted reply (some (number n)) intents e = absurd (cc)
  read_intents-IsQuoted reply (some (int n)) intents e = absurd (cc)
  read_intents-IsQuoted reply (some (text s)) intents e = absurd (cc)
  read_intents-IsQuoted reply (some (obj d)) intents e = absurd (cc)

  read_data-IsQuoted :
      (reply : String) (v : Json) (r : ParsedReply)
      → read_data o read_date reply v ≡ some r
      → All (IsQuoted o reply) r.intents × (r.failed ≡ false)
  unfolding read_data
  read_data-IsQuoted reply (obj d) r e =
      elim (Option-cases (read_intents o reply (get_true "intents" d))) [
        | inl raised ↦ absurd (cc)
        | inr (intents, at) ↦
            let read = read_intents-IsQuoted reply (get_true "intents" d) intents at in
            let same : intents ≡ r.intents = ground (arith, at, e) in
            (
              subst (λ (is : List DetectedIntent). All (IsQuoted o reply) is) same read,
              ground (arith, at, e),
            )
      ]
  read_data-IsQuoted reply null r e = absurd (cc)
  read_data-IsQuoted reply (flag b) r e = absurd (cc)
  read_data-IsQuoted reply (number n) r e = absurd (cc)
  read_data-IsQuoted reply (int n) r e = absurd (cc)
  read_data-IsQuoted reply (text s) r e = absurd (cc)
  read_data-IsQuoted reply (arr xs) r e = absurd (cc)

  read_items-none :
      (reply : String) (xs : Items)
      → (read_items o reply xs ≡ none) ↔ (are_entries o reply xs ≡ false)
  unfolding read_items
  read_items-none reply nil = ground arith
  read_items-none reply (cons (obj d) xs) =
      raised_items (read_intent o reply d) (read_items o reply xs) (is_overflowing o reply d)
        (are_entries o reply xs) (read_intent-none reply d) (read_items-none reply xs)
  read_items-none reply (cons null xs) = ground arith
  read_items-none reply (cons (flag b) xs) = ground arith
  read_items-none reply (cons (number n) xs) = ground arith
  read_items-none reply (cons (int n) xs) = ground arith
  read_items-none reply (cons (text s) xs) = ground arith
  read_items-none reply (cons (arr ys) xs) = ground arith

  read_intents-none :
      (reply : String) (v : Option Json)
      → (read_intents o reply v ≡ none) ↔ (is_list_of_entries o reply v ≡ false)
  unfolding read_intents
  read_intents-none reply none = ground arith
  read_intents-none reply (some (arr xs)) = read_items-none reply xs
  read_intents-none reply (some null) = ground arith
  read_intents-none reply (some (flag b)) = ground arith
  read_intents-none reply (some (number n)) = ground arith
  read_intents-none reply (some (int n)) = ground arith
  read_intents-none reply (some (text s)) = ground arith
  read_intents-none reply (some (obj d)) = ground arith

  read_data-none :
      (reply : String) (v : Json)
      → (read_data o read_date reply v ≡ none) ↔ (is_readable o reply v ≡ false)
  unfolding read_data
  read_data-none reply (obj d) = ground (arith, read_intents-none reply (get_true "intents" d))
  read_data-none reply null = ground arith
  read_data-none reply (flag b) = ground arith
  read_data-none reply (number n) = ground arith
  read_data-none reply (int n) = ground arith
  read_data-none reply (text s) = ground arith
  read_data-none reply (arr xs) = ground arith

  abbrev Reads : String → ParsedReply → Type 0
  Reads reply r = All (IsQuoted o reply) r.intents × (r.failed ≡ true → r.intents ≡ [])

  read_or_fail-Reads :
      (reply : String) (v : Option Json) (r : ParsedReply)
      → read_or_fail o read_date reply v ≡ some r
      → Reads reply r
  read_or_fail-Reads reply none r e =
      let same : parse_failed_reply ≡ r = cc in subst (Reads reply) same (tt, λ _. refl)
  read_or_fail-Reads reply (some v) r e =
      let (quoted, read) = read_data-IsQuoted reply v r e in (quoted, λ failed. absurd (cc))

  read_content-answer :
      (reply : String) (content : Option String)
      → read_content o read_date reply content
        ≡ read_or_fail o read_date reply (answer_of o content)
  read_content-answer reply none = refl
  read_content-answer reply (some content) = refl

  -- Where the endpoint's answers have the documented shape: a reply becomes a failed parse, which no
  -- intent stands in, if the call gave no text or the text is no JSON. Any other text raises in
  -- exactly these cases: it is no dictionary; its intents, where it has any, are no list of
  -- dictionaries; or one of them that is quoted and of a known type has an integer as its
  -- confidence that is too large for a float.
  pub parse_raises :
      (has_key : Bool) (answers : ℕ → Answer) (reply : String)
      → (answer_of o (call_model has_key answers).content ≡ none
          → (r : ParsedReply) × (parse o read_date has_key answers reply ≡ some r)
            × (r.failed ≡ true)
            × (r.intents ≡ []))
        × ((v : Json)
            → answer_of o (call_model has_key answers).content ≡ some v
            → (parse o read_date has_key answers reply ≡ none) ↔ (is_readable o reply v ≡ false))
  unfolding parse
  parse_raises has_key answers reply =
      let content = (call_model has_key answers).content in
      (
        λ unread.
            (parse_failed_reply, rw (read_content-answer reply content, unread) refl, refl, refl),
        λ v read. rw (read_content-answer reply content, read) (read_data-none reply v),
      )

  -- The model cannot put words into a customer's mouth: whatever it answers, each intent of a parse
  -- has a quote that stands in the reply. A failed parse has no intent and goes to a person.
  pub parse-IsQuoted :
      (p : Policy) (has_key : Bool) (answers : ℕ → Answer) (reply : String) (r : ParsedReply)
      (today : Day) (expires : Option Day)
      → parse o read_date has_key answers reply ≡ some r
      → All (IsQuoted o reply) r.intents
        × (r.failed ≡ true → (r.intents ≡ []) × ((decide p r today expires).needs_human ≡ true))
  unfolding parse
  parse-IsQuoted p has_key answers reply r today expires e =
      let content = (call_model has_key answers).content in
      let (quoted, silent) =
        read_or_fail-Reads reply (answer_of o content) r
          (sym (read_content-answer reply content) ∙ e) in
      (quoted, λ failed. (silent failed, decide_failed p r today expires failed))
