-- ===== src/Language/Evidence.antt =====
-- `quotes_the_source` of src/unhalted/core/evidence.py, on the code points of its texts.
use unhalted.Prelude.{
  ℕ, Bool, true, false, not, ◌&&◌, ◌||◌, ◌==◌, leb, String, List, [], ◌∷◌, ◌++◌, if◌then◌else◌,
}
use unhalted.Prelude.Texts.{codes}
use unhalted.Language.Json.{Outside}

-- `str.isspace` of one code point
unfoldable pub is_space : ℕ → Bool
is_space c =
    (leb 9 c && leb c 13)
    || (leb 28 c && leb c 32)
    || (c == 133)
    || (c == 160)
    || (c == 5760)
    || (leb 8192 c && leb c 8202)
    || (c == 8232)
    || (c == 8233)
    || (c == 8239)
    || (c == 8287)
    || (c == 12288)

abbrev pub is_blank : List ℕ → Bool
is_blank [] = true
is_blank (c ∷ cs) = is_space c && is_blank cs

-- a word that has ended, if there is one, before those that follow
abbrev pub word : List ℕ → List (List ℕ) → List (List ℕ)
word [] ws = ws
word (c ∷ cs) ws = (c ∷ cs) ∷ ws

-- `text.split()`, with the word that is being read
unfoldable pub split_from : List ℕ → List ℕ → List (List ℕ)
unfolding is_space
split_from w [] = word w []
split_from w (c ∷ cs) =
    let here = split_from [] cs in
    let on = split_from (w ++ c ∷ []) cs in if is_space c then word w here else on

abbrev pub split : List ℕ → List (List ℕ)
split cs = split_from [] cs

-- `" ".join(words)`
unfoldable pub join : List (List ℕ) → List ℕ
join [] = []
join (w ∷ []) = w
join (w ∷ v ∷ ws) = w ++ (b' ' ∷ join (v ∷ ws))

abbrev pub is_prefix : List ℕ → List ℕ → Bool
is_prefix [] ys = true
is_prefix (x ∷ xs) [] = false
is_prefix (x ∷ xs) (y ∷ ys) = x == y && is_prefix xs ys

-- `xs in ys`
unfoldable pub occurs_in : List ℕ → List ℕ → Bool
occurs_in xs [] = is_prefix xs []
occurs_in xs (y ∷ ys) = is_prefix xs (y ∷ ys) || occurs_in xs ys

module _ (o : Outside) where
  -- `text.casefold()`
  unfoldable pub casefold : List ℕ → List ℕ
  casefold [] = []
  casefold (c ∷ cs) = o.fold c ++ casefold cs

  abbrev pub squash : List ℕ → List ℕ
  squash cs = casefold (join (split cs))

  unfoldable pub quotes : List ℕ → List ℕ → Bool
  unfolding split_from join occurs_in casefold
  quotes span source = not (is_blank span) && occurs_in (squash span) (squash source)

  unfoldable pub quotes_the_source : String → String → Bool
  unfolding quotes
  quotes_the_source span source = quotes (codes span) (codes source)
