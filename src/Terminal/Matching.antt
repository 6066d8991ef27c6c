-- ===== src/Terminal/Matching.antt =====
-- What the expressions find in the start of a stream is found in the stream: of vt100.vue, the
-- expressions of `categoryMapping` and `regexprCategory`.
use mathlib.Core.List
use bzd.Prelude.Text.{Text}
use bzd.Prelude.{
  ℕ, ◌≤◌, ◌<◌, ◌≡◌, refl, sym, ap, ◌∙◌, ◌⊎◌, inl, inr, Bool, false, Option, none, some, [], ◌∷◌,
  ◌++◌, ◌==◌, length, arith, Option-cases, length-append,
}
use bzd.Terminal.Stream.{
  Category, csi_private, csi, csi8, osc, escape, prefix, category_at, find_category,
}

abbrev pub ends_escape : Text → Bool
ends_escape [] = false
ends_escape (c ∷ []) = c == escape
ends_escape (c ∷ d ∷ s) = ends_escape (d ∷ s)

pub ends_escape-append : (p s : Text) → ends_escape (p ++ s) ≡ false → ends_escape s ≡ false
ends_escape-append [] s h = h
ends_escape-append (c ∷ []) [] h = refl
ends_escape-append (c ∷ []) (d ∷ s) h = h
ends_escape-append (c ∷ d ∷ p) s h = ends_escape-append (d ∷ p) s h

-- A text is the end of another.
abbrev pub IsEnd : Text → Text → Type 0
IsEnd rest s = (p : Text) × (s ≡ p ++ rest)

pub IsEnd-length : (rest s : Text) → IsEnd rest s → length rest ≤ length s
IsEnd-length rest s (p, e) = omega (arith, ap length e, length-append p rest)

pub IsEnd-ends_escape :
    (rest s : Text) → IsEnd rest s → ends_escape s ≡ false → ends_escape rest ≡ false
IsEnd-ends_escape rest s (p, e) h = ends_escape-append p rest (sym (ap ends_escape e) ∙ h)

pub Text-cases : (s : Text) → (s ≡ []) ⊎ ((c : ℕ) × (rest : Text) × (s ≡ c ∷ rest))
Text-cases [] = inl refl
Text-cases (c ∷ s) = inr (c, s, refl)

-- The categories.
category_at-prefix :
    (c : ℕ) (s : Text) (k : Category) (rest : Text)
    → category_at c s ≡ some (k, rest)
    → c ∷ s ≡ prefix k ++ rest
unfolding category_at
category_at-prefix c [] k rest h = ground arith
category_at-prefix c (d ∷ []) k rest h = ground arith
category_at-prefix c (d ∷ e ∷ s) k rest h = ground arith

category_at-append_some :
    (c : ℕ) (s : Text) (k : Category) (d : ℕ) (rest b : Text)
    → category_at c s ≡ some (k, d ∷ rest)
    → category_at c (s ++ b) ≡ some (k, d ∷ (rest ++ b))
unfolding category_at
category_at-append_some c [] k d rest b h = ground arith
category_at-append_some c (e ∷ []) k d rest b h = ground arith
category_at-append_some c (e ∷ f ∷ s) k d rest b h = ground arith

category_at-append_none :
    (c d : ℕ) (s b : Text) → category_at c (d ∷ s) ≡ none → category_at c ((d ∷ s) ++ b) ≡ none
unfolding category_at
category_at-append_none c d s b h = ground arith

category_at_last :
    (c : ℕ) (b : Text) → category_at c [] ≡ none → (c == escape) ≡ false → category_at c b ≡ none
unfolding category_at
category_at_last c b h e = ground arith

-- What a search finds behind a text that holds nothing itself.
abbrev pub shift : Text → Option (Text × Category × Text) → Option (Text × Category × Text)
shift p none = none
shift p (some (before, k, rest)) = some (p ++ before, k, rest)

abbrev shift_one : ℕ → Option (Text × Category × Text) → Option (Text × Category × Text)
shift_one c found = elim found [ none ↦ none | some (before, k, rest) ↦ some (c ∷ before, k, rest) ]

shift-cons :
    (c : ℕ) (p : Text) (found : Option (Text × Category × Text))
    → shift_one c (shift p found) ≡ shift (c ∷ p) found
shift-cons c p none = refl
shift-cons c p (some (before, k, rest)) = refl

shift-nil : (found : Option (Text × Category × Text)) → shift [] found ≡ found
shift-nil none = refl
shift-nil (some (before, k, rest)) = refl

find_category_step :
    (c : ℕ) (s : Text)
    → category_at c s ≡ none
    → find_category (c ∷ s) ≡ shift_one c (find_category s)
unfolding find_category
find_category_step c s h = rw (h, find_category) refl

find_category_here :
    (c : ℕ) (s : Text) {k : Category} {rest : Text}
    → category_at c s ≡ some (k, rest)
    → find_category (c ∷ s) ≡ some ([], k, rest)
unfolding find_category
find_category_here c s h = rw (h, find_category) refl

-- A search finds something at the first character, or in the text behind it.
find_category-some :
    (c : ℕ) (s before : Text) (k : Category) (rest : Text)
    → find_category (c ∷ s) ≡ some (before, k, rest)
    → ((before ≡ []) × (category_at c s ≡ some (k, rest)))
      ⊎ ((more : Text) × (before ≡ c ∷ more)
          × (category_at c s ≡ none)
          × (find_category s ≡ some (more, k, rest)))
find_category-some c s before k rest h = elim (Option-cases (category_at c s)) [
  | inr ((l, r), at) ↦ let e = sym (find_category_here c s at) ∙ h in inl (cc, cc)
  | inl at ↦ elim (Option-cases (find_category s)) [
    | inl nothing ↦ let e = sym (find_category_step c s at) ∙ h in absurd (cc)
    | inr ((more, l, r), found) ↦
        let e = sym (find_category_step c s at) ∙ h in inr (more, cc, at, cc)
  ]
]

find_category-none :
    (c : ℕ) (s : Text)
    → find_category (c ∷ s) ≡ none
    → (category_at c s ≡ none) × (find_category s ≡ none)
unfolding find_category
find_category-none c s h = elim (Option-cases (category_at c s)) [
  | inr (found, at) ↦ absurd (cc)
  | inl at ↦ elim (Option-cases (find_category s)) [
    | inl nothing ↦ (at, nothing)
    | inr ((more, l, r), found) ↦ absurd (cc)
  ]
]

pub find_category-append_none :
    (a b : Text)
    → find_category a ≡ none
    → ends_escape a ≡ false
    → find_category (a ++ b) ≡ shift a (find_category b)
find_category-append_none [] b h e = sym (shift-nil (find_category b))
find_category-append_none (c ∷ []) b h e =
    let (at, below) = find_category-none c [] h in
    find_category_step c b (category_at_last c b at e)
    ∙ ap (shift_one c) (sym (shift-nil (find_category b)))
    ∙ shift-cons c [] (find_category b)
find_category-append_none (c ∷ d ∷ s) b h e =
    let (at, below) = find_category-none c (d ∷ s) h in
    find_category_step c (d ∷ (s ++ b)) (category_at-append_none c d s b at)
    ∙ ap (shift_one c) (find_category-append_none (d ∷ s) b below e)
    ∙ shift-cons c (d ∷ s) (find_category b)

-- Where a search stops does not depend on what follows, unless nothing follows the match.
pub find_category-append_some :
    (a before : Text) (k : Category) (d : ℕ) (rest b : Text)
    → find_category a ≡ some (before, k, d ∷ rest)
    → find_category (a ++ b) ≡ some (before, k, d ∷ (rest ++ b))
unfolding find_category
find_category-append_some [] before k d rest b h = absurd (cc)
find_category-append_some (c ∷ []) before k d rest b h =
    elim (find_category-some c [] before k (d ∷ rest) h) [
      | inl (first, at) ↦
          find_category_here c b (category_at-append_some c [] k d rest b at)
          ∙ ap (λ p. some (p, k, d ∷ (rest ++ b))) (sym first)
      | inr (more, first, at, below) ↦ absurd (cc)
    ]
find_category-append_some (c ∷ e ∷ s) before k d rest b h =
    elim (find_category-some c (e ∷ s) before k (d ∷ rest) h) [
      | inl (first, at) ↦
          find_category_here c (e ∷ (s ++ b)) (category_at-append_some c (e ∷ s) k d rest b at)
          ∙ ap (λ p. some (p, k, d ∷ (rest ++ b))) (sym first)
      | inr (more, first, at, below) ↦
          find_category_step c (e ∷ (s ++ b)) (category_at-append_none c e s b at)
          ∙ ap (shift_one c) (find_category-append_some (e ∷ s) more k d rest b below)
          ∙ ap (λ p. some (p, k, d ∷ (rest ++ b))) (sym first)
    ]

-- A search that goes on in a longer stream may begin again where it stopped.
pub find_category-again :
    (a before : Text) (k : Category) (rest b : Text)
    → find_category a ≡ some (before, k, rest)
    → find_category (a ++ b) ≡ shift before (find_category ((prefix k ++ rest) ++ b))
unfolding find_category
find_category-again [] before k rest b h = absurd (cc)
find_category-again (c ∷ s) before k rest b h = elim (find_category-some c s before k rest h) [
  | inl (first, at) ↦
      ap (λ (t : Text). find_category (t ++ b)) (category_at-prefix c s k rest at)
      ∙ sym (shift-nil _)
      ∙ ap (λ p. shift p (find_category ((prefix k ++ rest) ++ b))) (sym first)
  | inr (more, first, at, below) ↦
      find_category_step c (s ++ b) (extended c s at below)
      ∙ ap (shift_one c) (find_category-again s more k rest b below)
      ∙ shift-cons c more _
      ∙ ap (λ p. shift p (find_category ((prefix k ++ rest) ++ b))) (sym first)
]
  where
    extended :
        (c : ℕ) (s : Text) {found : Text × Category × Text}
        → category_at c s ≡ none
        → find_category s ≡ some found
        → category_at c (s ++ b) ≡ none
    extended c [] at below = absurd (cc)
    extended c (d ∷ s) at below = category_at-append_none c d s b at

pub find_category-splits :
    (a before : Text) (k : Category) (rest : Text)
    → find_category a ≡ some (before, k, rest)
    → a ≡ before ++ (prefix k ++ rest)
unfolding find_category
find_category-splits [] before k rest h = absurd (cc)
find_category-splits (c ∷ s) before k rest h = elim (find_category-some c s before k rest h) [
  | inl (first, at) ↦
      category_at-prefix c s k rest at ∙ ap (λ (p : Text). p ++ (prefix k ++ rest)) (sym first)
  | inr (more, first, at, below) ↦
      ap (λ (t : Text). c ∷ t) (find_category-splits s more k rest below)
      ∙ ap (λ (p : Text). p ++ (prefix k ++ rest)) (sym first)
]

length-prefix_pos : (k : Category) → 0 < length (prefix k)
length-prefix_pos csi_private = omega arith
length-prefix_pos csi = omega arith
length-prefix_pos csi8 = omega arith
length-prefix_pos osc = omega arith

pub find_category-length :
    (a before : Text) (k : Category) (rest : Text)
    → find_category a ≡ some (before, k, rest)
    → length rest < length a
find_category-length a before k rest h = omega (
  arith,
  ap length (find_category-splits a before k rest h),
  length-append before (prefix k ++ rest),
  length-append (prefix k) rest,
  length-prefix_pos k,
)

pub find_category-IsEnd :
    (a before : Text) (k : Category) (rest : Text)
    → find_category a ≡ some (before, k, rest)
    → IsEnd rest a
find_category-IsEnd a before k rest h = (
  before ++ prefix k,
  find_category-splits a before k rest h ∙ sym (List.append_assoc before (prefix k) rest),
)
