-- ===== src/Language/Fence.antt =====
-- `_extract` of src/unhalted/core/reply.py, on code points; core/policy_change.py and
-- core/taxonomy_proposal.py have the same function.
use unhalted.Prelude.{ℕ, ◌==◌, String, Option, none, some, List, [], ◌∷◌, if◌then◌else◌}
use unhalted.Prelude.Texts.{codes}
use unhalted.Language.Json.{Json, Outside}
use unhalted.Language.Evidence.{is_space, is_prefix}

abbrev pub newline : ℕ
newline = 10

-- three backquotes
abbrev pub fence : List ℕ
fence = 96 ∷ 96 ∷ 96 ∷ []

abbrev pub space_before : ℕ → List ℕ → List ℕ
space_before c [] = if is_space c then [] else c ∷ []
space_before c (d ∷ ds) = c ∷ d ∷ ds

unfoldable pub strip_right : List ℕ → List ℕ
unfolding is_space
strip_right [] = []
strip_right (c ∷ cs) = space_before c (strip_right cs)

-- `text.strip()`
unfoldable pub strip : List ℕ → List ℕ
unfolding strip_right is_space
strip [] = []
strip (c ∷ cs) = let rest = strip cs in if is_space c then rest else strip_right (c ∷ cs)

-- what follows the first newline, if there is one
unfoldable pub after_line : List ℕ → Option (List ℕ)
after_line [] = none
after_line (c ∷ cs) = let rest = after_line cs in if c == newline then some cs else rest

-- what precedes the last fence, if there is one
unfoldable pub before_fence : List ℕ → Option (List ℕ)
before_fence [] = none
before_fence (c ∷ cs) = elim (before_fence cs) [
  | some front ↦ some (c ∷ front)
  | none ↦ if is_prefix fence (c ∷ cs) then some [] else none
]

abbrev pub or_whole : List ℕ → Option (List ℕ) → List ℕ
or_whole cs none = cs
or_whole cs (some part) = part

-- `text.split("\n", 1)[-1].rsplit("```", 1)[0]`
unfoldable pub inside_fence : List ℕ → List ℕ
unfolding after_line before_fence
inside_fence cs = let body = or_whole cs (after_line cs) in or_whole body (before_fence body)

unfoldable pub unfence : List ℕ → List ℕ
unfolding strip inside_fence
unfence raw = let cs = strip raw in if is_prefix fence cs then strip (inside_fence cs) else strip cs

module _ (o : Outside) where
  -- `_extract`; none is an error of `json.loads`
  unfoldable pub extract : String → Option Json
  unfolding unfence
  extract raw = o.loads (unfence (codes raw))

  -- the text of a call, if there is one and it is JSON
  abbrev pub answer_of : Option String → Option Json
  answer_of none = none
  answer_of (some content) = extract content
