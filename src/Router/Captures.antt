-- ===== src/Router/Captures.antt =====
-- How many captures an expression of nodejs/core/router.js gives: one for each of its groups.
use bzd.Prelude.Text.{Text}
use bzd.Prelude.{
  ℕ, suc, ◌≡◌, refl, ap, inl, inr, Bool, true, false, Option, none, some, List, [], ◌∷◌, ◌++◌,
  length, Bool-cases, ◌==◌,
}
use bzd.Router.{Element, lit, segment, slash_rest, rest, some_rest, digits}
use bzd.Router.Expression.{
  capture, or_else, greedy, greedy_some, greedy_slash, match_elements, is_dot, slash,
}

-- The groups of an expression.
abbrev pub groups_of : List Element → ℕ
groups_of [] = 0
groups_of (lit c ∷ elements) = groups_of elements
groups_of (segment ∷ elements) = suc (groups_of elements)
groups_of (slash_rest ∷ elements) = suc (groups_of elements)
groups_of (rest ∷ elements) = suc (groups_of elements)
groups_of (some_rest ∷ elements) = suc (groups_of elements)
groups_of (digits ∷ elements) = suc (groups_of elements)

-- The captures are that many, if there are any.
abbrev pub Counts : ℕ → Option (List Text) → Type 0
Counts n none = Unit
Counts n (some captures) = length captures ≡ n

pub capture-Counts :
    (n : ℕ) (taken : Text) (o : Option (List Text)) → Counts n o → Counts (suc n) (capture taken o)
capture-Counts n taken none h = tt
capture-Counts n taken (some captures) h = ap suc h

pub or_else-Counts :
    (n : ℕ) (a b : Option (List Text)) → Counts n a → Counts n b → Counts n (or_else a b)
or_else-Counts n none b h k = k
or_else-Counts n (some captures) b h k = h

module _ (next : Text → Option (List Text)) (n : ℕ) (h : (s : Text) → Counts n (next s)) where
  pub greedy-Counts : (p : ℕ → Bool) (taken s : Text) → Counts (suc n) (greedy next p taken s)
  unfolding greedy
  greedy-Counts p taken [] = capture-Counts n taken (next []) (h [])
  greedy-Counts p taken (c ∷ s) =
      let here = capture-Counts n taken (next (c ∷ s)) (h (c ∷ s)) in
      elim (p c)
        as (λ b. Counts (suc n) (elim b [
          | true ↦ or_else (greedy next p (taken ++ c ∷ []) s) (capture taken (next (c ∷ s)))
          | false ↦ capture taken (next (c ∷ s))
        ])) [
          | true ↦
              or_else-Counts (suc n) (greedy next p (taken ++ c ∷ []) s) _
                (greedy-Counts p (taken ++ c ∷ []) s) here
          | false ↦ here
        ]

  pub greedy_some-Counts : (p : ℕ → Bool) (s : Text) → Counts (suc n) (greedy_some next p s)
  greedy_some-Counts p [] = tt
  greedy_some-Counts p (c ∷ s) = elim (Bool-cases (p c)) [
    | inl e ↦ rw e (greedy-Counts p (c ∷ []) s)
    | inr e ↦ rw e tt
  ]

  pub greedy_slash-Counts : (s : Text) → Counts (suc n) (greedy_slash next s)
  greedy_slash-Counts [] = capture-Counts n [] (next []) (h [])
  greedy_slash-Counts (c ∷ s) = elim (Bool-cases (c == slash)) [
    | inl e ↦ rw e (greedy-Counts is_dot (c ∷ []) s)
    | inr e ↦ rw e tt
  ]

pub match_elements-Counts :
    (fold : ℕ → ℕ) (elements : List Element) (s : Text)
    → Counts (groups_of elements) (match_elements fold elements s)
unfolding match_elements
match_elements-Counts fold [] [] = refl
match_elements-Counts fold [] (c ∷ s) = tt
match_elements-Counts fold (lit c ∷ elements) [] = tt
match_elements-Counts fold (lit c ∷ elements) (d ∷ s) = elim (Bool-cases (fold c == fold d)) [
  | inl e ↦ rw e (match_elements-Counts fold elements s)
  | inr e ↦ rw e tt
]
match_elements-Counts fold (segment ∷ elements) s =
    greedy_some-Counts (match_elements fold elements) (groups_of elements)
      (match_elements-Counts fold elements) _ s
match_elements-Counts fold (slash_rest ∷ elements) s =
    greedy_slash-Counts (match_elements fold elements) (groups_of elements)
      (match_elements-Counts fold elements) s
match_elements-Counts fold (rest ∷ elements) s =
    greedy-Counts (match_elements fold elements) (groups_of elements)
      (match_elements-Counts fold elements) _ [] s
match_elements-Counts fold (some_rest ∷ elements) s =
    greedy_some-Counts (match_elements fold elements) (groups_of elements)
      (match_elements-Counts fold elements) _ s
match_elements-Counts fold (digits ∷ elements) s =
    greedy_some-Counts (match_elements fold elements) (groups_of elements)
      (match_elements-Counts fold elements) _ s

pub match_elements-length :
    (fold : ℕ → ℕ) (elements : List Element) (s : Text) {captures : List Text}
    → match_elements fold elements s ≡ some captures
    → length captures ≡ groups_of elements
match_elements-length fold elements s h = rw h at (match_elements-Counts fold elements s)
