-- ===== src/Language/Fenced.antt =====
-- `_extract` of src/unhalted/core/reply.py, on an answer in a fence.
use mathlib.Core.List.{append_assoc}
use unhalted.Prelude.{
  ℕ, ◌≡◌, refl, sym, ap, subst, false, ◌==◌, none, some, List, [], ◌∷◌, ◌++◌, All, arith,
}
use unhalted.Language.Evidence.{is_space}
use unhalted.Language.Fence.{
  newline, fence, space_before, strip_right, strip, after_line, before_fence, inside_fence, unfence,
}

-- a newline at the end is stripped
strip_right-newline : (cs : List ℕ) → strip_right (cs ++ newline ∷ []) ≡ strip_right cs
unfolding strip_right
strip_right-newline [] = refl
strip_right-newline (c ∷ cs) = ap (space_before c) (strip_right-newline cs)

strip-newline : (cs : List ℕ) → strip (cs ++ newline ∷ []) ≡ strip cs
unfolding strip
strip-newline [] = refl
strip-newline (c ∷ cs) = ground (arith, strip-newline cs, strip_right-newline (c ∷ cs))

-- the last fence is the one at the end, after a newline
before_fence-end :
    (body : List ℕ) → before_fence (body ++ newline ∷ fence) ≡ some (body ++ newline ∷ [])
unfolding before_fence
before_fence-end [] = refl
before_fence-end (c ∷ cs) = rw (before_fence-end cs) refl

-- the first line goes
after_line-first :
    (info rest : List ℕ)
    → All (λ c. (c == newline) ≡ false) info
    → after_line (info ++ newline ∷ rest) ≡ some rest
unfolding after_line
after_line-first [] rest no_newline = refl
after_line-first (c ∷ cs) rest no_newline =
    ground (arith, no_newline.0, after_line-first cs rest no_newline.1)

-- a text that ends in a fence keeps its end
kept : (c : ℕ) (cs : List ℕ) → space_before c (cs ++ fence) ≡ c ∷ (cs ++ fence)
kept c [] = refl
kept c (d ∷ ds) = refl

strip_right-fence : (cs : List ℕ) → strip_right (cs ++ fence) ≡ cs ++ fence
unfolding strip_right
strip_right-fence [] = refl
strip_right-fence (c ∷ cs) = rw (strip_right-fence cs) (kept c cs)

-- the last fence is the one at the end
before_fence-last : (cs : List ℕ) → before_fence (cs ++ fence) ≡ some cs
unfolding before_fence
before_fence-last [] = refl
before_fence-last (c ∷ cs) = rw (before_fence-last cs) refl

-- there is no second line
after_line-only :
    (info : List ℕ) → All (λ c. (c == newline) ≡ false) info → after_line (info ++ fence) ≡ none
unfolding after_line
after_line-only [] no_newline = refl
after_line-only (c ∷ cs) no_newline = ground (arith, no_newline.0, after_line-only cs no_newline.1)

unfence-lines :
    (info body : List ℕ)
    → All (λ c. (c == newline) ≡ false) info
    → unfence (fence ++ (info ++ newline ∷ (body ++ newline ∷ fence))) ≡ strip body
unfolding unfence inside_fence strip after_line before_fence is_space
unfence-lines info body no_newline =
    let rest = body ++ newline ∷ fence in
    let front = fence ++ (info ++ newline ∷ (body ++ newline ∷ [])) in
    let raw = fence ++ (info ++ newline ∷ rest) in
    let ends : raw ≡ front ++ fence = simp (append_assoc) in
    let whole : strip_right raw ≡ raw =
      subst (λ (r : List ℕ). strip_right r ≡ r) (sym ends) (strip_right-fence front) in
    let line : after_line (info ++ newline ∷ rest) ≡ some rest =
      after_line-first info rest no_newline in
    rw (whole, line, before_fence-end body) (strip-newline body)

unfence-one_line :
    (info : List ℕ)
    → All (λ c. (c == newline) ≡ false) info
    → unfence (fence ++ (info ++ fence)) ≡ strip (fence ++ info)
unfolding unfence inside_fence strip after_line is_space
unfence-one_line info no_newline =
    let whole : strip_right (fence ++ (info ++ fence)) ≡ fence ++ (info ++ fence) =
      strip_right-fence (fence ++ info) in
    let line : after_line (info ++ fence) ≡ none = after_line-only info no_newline in
    let last : before_fence (fence ++ (info ++ fence)) ≡ some (fence ++ info) =
      before_fence-last (fence ++ info) in
    rw (whole, line, last) refl

-- An answer whose first line is a fence, with or without the name of a language, and whose last
-- line is a fence is read as what stands between these lines, whatever that contains; the white
-- space around it is stripped. If all stands on one line, the closing fence goes and the opening
-- one stays.
pub unfence-fenced :
    (info body : List ℕ)
    → All (λ c. (c == newline) ≡ false) info
    → (unfence (fence ++ (info ++ newline ∷ (body ++ newline ∷ fence))) ≡ strip body)
      × (unfence (fence ++ (info ++ fence)) ≡ strip (fence ++ info))
unfence-fenced info body no_newline =
    (unfence-lines info body no_newline, unfence-one_line info no_newline)
