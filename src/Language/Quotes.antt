-- ===== src/Language/Quotes.antt =====
-- `quotes_the_source` of src/unhalted/core/evidence.py: what it accepts, and what it refuses.
use mathlib.Core.List.{append_assoc, append-nil}
use unhalted.Prelude.{
  ℕ, ◌≡◌, ◌≢◌, ◌↔◌, refl, sym, ap, ◌∙◌, true, false, List, [], ◌∷◌, ◌++◌, Bool-cases, inl, inr,
  arith,
}
use unhalted.Language.Json.{Outside}
use unhalted.Language.Evidence.{
  is_blank, split_from, split, join, is_prefix, occurs_in, casefold, squash, quotes,
}

abbrev pub Chars : Type 0
Chars = List ℕ

is_prefix-append : (xs ys : Chars) → is_prefix xs (xs ++ ys) ≡ true
is_prefix-append [] ys = refl
is_prefix-append (x ∷ xs) ys = ground (arith, is_prefix-append xs ys)

is_prefix_sound : (xs ys : Chars) → is_prefix xs ys ≡ true → (post : Chars) × (ys ≡ xs ++ post)
is_prefix_sound [] ys h = (ys, refl)
is_prefix_sound (x ∷ xs) [] h = absurd (cc)
is_prefix_sound (x ∷ xs) (y ∷ ys) h =
    let (post, e) = is_prefix_sound xs ys (ground (arith, h)) in (post, ground (arith, e, h))

occurs_in-append : (pre xs post : Chars) → occurs_in xs (pre ++ (xs ++ post)) ≡ true
unfolding occurs_in
occurs_in-append [] [] [] = refl
occurs_in-append [] [] (c ∷ cs) = refl
occurs_in-append [] (x ∷ xs) post = ground (arith, is_prefix-append xs post)
occurs_in-append (c ∷ pre) xs post = ground (arith, occurs_in-append pre xs post)

occurs_in_sound :
    (xs ys : Chars)
    → occurs_in xs ys ≡ true
    → (pre : Chars) × (post : Chars) × (ys ≡ pre ++ (xs ++ post))
unfolding occurs_in
occurs_in_sound xs [] h = let (post, e) = is_prefix_sound xs [] h in ([], post, e)
occurs_in_sound xs (y ∷ ys) h = elim (Bool-cases (is_prefix xs (y ∷ ys))) [
  | inl starts ↦ let (post, e) = is_prefix_sound xs (y ∷ ys) starts in ([], post, e)
  | inr later ↦
      let (pre, post, e) = occurs_in_sound xs ys (ground (arith, h, later)) in
      (y ∷ pre, post, ap (λ (t : Chars). y ∷ t) e)
]

abbrev Words : Type 0
Words = List Chars

-- the joined text before and after a run of words
join-append :
    (w : Chars) (ws : Words) (v : Chars) (vs : Words)
    → join ((w ∷ ws) ++ (v ∷ vs)) ≡ join (w ∷ ws) ++ (b' ' ∷ join (v ∷ vs))
unfolding join
join-append w [] v vs = refl
join-append w (u ∷ ws) v vs =
    rw (join-append u ws v vs) (sym (append_assoc w (b' ' ∷ join (u ∷ ws)) (b' ' ∷ join (v ∷ vs))))

join_before :
    (a : Words) (v : Chars) (vs : Words)
    → (pre : Chars) × (join (a ++ (v ∷ vs)) ≡ pre ++ join (v ∷ vs))
join_before [] v vs = ([], refl)
join_before (w ∷ ws) v vs = (
  join (w ∷ ws) ++ (b' ' ∷ []),
  join-append w ws v vs ∙ sym (append_assoc (join (w ∷ ws)) (b' ' ∷ []) (join (v ∷ vs))),
)

join_after :
    (w : Chars) (ws c : Words) → (post : Chars) × (join ((w ∷ ws) ++ c) ≡ join (w ∷ ws) ++ post)
join_after w ws [] = ([], simp (append-nil))
join_after w ws (v ∷ vs) = (b' ' ∷ join (v ∷ vs), join-append w ws v vs)

-- a blank text has no words
is_blank-split : (cs : Chars) → is_blank cs ≡ true → split_from [] cs ≡ []
unfolding split_from
is_blank-split [] h = refl
is_blank-split (c ∷ cs) h = ground (arith, h, is_blank-split cs)

module _ (o : Outside) where
  casefold-append : (xs ys : Chars) → casefold o (xs ++ ys) ≡ casefold o xs ++ casefold o ys
  unfolding casefold
  casefold-append [] ys = refl
  casefold-append (x ∷ xs) ys =
      rw (casefold-append xs ys) (sym (append_assoc (o.fold x) (casefold o xs) (casefold o ys)))

  casefold-around :
      (pre xs post : Chars)
      → casefold o (pre ++ (xs ++ post)) ≡ casefold o pre ++ (casefold o xs ++ casefold o post)
  casefold-around pre xs post =
      casefold-append pre (xs ++ post)
      ∙ ap (λ (t : Chars). casefold o pre ++ t) (casefold-append xs post)

  -- A span is accepted exactly when it is not blank and its words, put in the lower case and joined
  -- by single spaces, stand somewhere in the words of the source, put so too.
  quotes_iff :
      (span source : Chars)
      → (quotes o span source ≡ true) ↔ (
          (is_blank span ≡ false)
          × ((pre : Chars) × (post : Chars) × (squash o source ≡ pre ++ (squash o span ++ post))))
  unfolding quotes
  quotes_iff span source = (
    λ ok. (
      ground (arith, ok),
      occurs_in_sound (squash o span) (squash o source) (ground (arith, ok)),
    ),
    λ (worded, (pre, post, e)). rw (worded, e) (occurs_in-append pre (squash o span) post),
  )

  -- Every run of whole words of the source is accepted as a quote, however it is spaced.
  quotes-run :
      (span source : Chars) (a b c : Words)
      → split source ≡ a ++ (b ++ c)
      → split span ≡ b
      → b ≢ []
      → quotes o span source ≡ true
  unfolding quotes
  quotes-run span source a [] c e e' ne = absurd (ne refl)
  quotes-run span source a (w ∷ ws) c e e' ne =
      let worded : is_blank span ≡ false = elim (Bool-cases (is_blank span)) [
        | inl blank ↦ absurd (cc (is_blank-split span blank))
        | inr other ↦ other
      ] in
      let (post, after) = join_after w ws c in
      let (pre, before) = join_before a w (ws ++ c) in
      let joined : join (a ++ ((w ∷ ws) ++ c)) ≡ pre ++ (join (w ∷ ws) ++ post) =
        before ∙ ap (λ (t : Chars). pre ++ t) after in
      rw (worded, e, e', joined, casefold-around pre (join (w ∷ ws)) post)
        (occurs_in-append (casefold o pre) (casefold o (join (w ∷ ws))) (casefold o post))
