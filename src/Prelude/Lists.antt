-- ===== src/Prelude/Lists.antt =====
-- Lists measured and indexed by native numbers, under the library's names, and predicates on them.
use Prim.Native.Nat.{ℕ, zero, suc, ◌+◌, ◌<◌}
use mathlib.Core.Path.{◌≡◌, refl, sym, ap, ◌∙◌}
use mathlib.Core.Logic.{◌⊎◌, inl, inr}
use mathlib.Core.List.{List, [], ◌∷◌, ◌++◌}
use mathlib.Core.Bool.{Bool, true, false, ◌&&◌, ◌||◌}
use mathlib.Core.Option.{Option, none, some}
use native.Mathlib.Omega.{arith}
use bzd.Prelude.Logic.{if◌then◌else◌, Bool-cases}

module _ {ℓ} {A : Type ℓ} where
  abbrev pub length : List A → ℕ
  length [] = 0
  length (x ∷ xs) = suc (length xs)

  abbrev pub get_elem? : List A → ℕ → Option A
  get_elem? [] i = none
  get_elem? (x ∷ xs) zero = some x
  get_elem? (x ∷ xs) (suc i) = get_elem? xs i

  -- A write out of bounds changes nothing.
  abbrev pub set : List A → ℕ → A → List A
  set [] i v = []
  set (x ∷ xs) zero v = v ∷ xs
  set (x ∷ xs) (suc i) v = x ∷ set xs i v

  -- `splice(i, 0, v)`: an index past the end appends.
  abbrev pub insert_idx : List A → ℕ → A → List A
  insert_idx xs zero v = v ∷ xs
  insert_idx [] (suc i) v = v ∷ []
  insert_idx (x ∷ xs) (suc i) v = x ∷ insert_idx xs i v

  -- `splice(i, 1)`: an index past the end removes nothing.
  abbrev pub erase_idx : List A → ℕ → List A
  erase_idx [] i = []
  erase_idx (x ∷ xs) zero = xs
  erase_idx (x ∷ xs) (suc i) = x ∷ erase_idx xs i

  abbrev pub drop : ℕ → List A → List A
  drop zero xs = xs
  drop (suc n) [] = []
  drop (suc n) (x ∷ xs) = drop n xs

  abbrev pub take : ℕ → List A → List A
  take zero xs = []
  take (suc n) [] = []
  take (suc n) (x ∷ xs) = x ∷ take n xs

  abbrev pub filter_b : (A → Bool) → List A → List A
  filter_b p [] = []
  filter_b p (x ∷ xs) = let rest = filter_b p xs in if p x then x ∷ rest else rest

  abbrev pub any : (A → Bool) → List A → Bool
  any p [] = false
  any p (x ∷ xs) = p x || any p xs

  abbrev pub all : (A → Bool) → List A → Bool
  all p [] = true
  all p (x ∷ xs) = p x && all p xs

  pub length-append : (xs ys : List A) → length (xs ++ ys) ≡ length xs + length ys
  length-append [] ys = omega arith
  length-append (x ∷ xs) ys = omega (arith, length-append xs ys)

  pub get_elem?-some : (xs : List A) (i : ℕ) → i < length xs → (a : A) × (get_elem? xs i ≡ some a)
  get_elem?-some [] i h = elim h [ ]
  get_elem?-some (x ∷ xs) zero h = (x, refl)
  get_elem?-some (x ∷ xs) (suc i) h = get_elem?-some xs i (omega arith)

  pub lt-length_of_get_elem? :
      (xs : List A) (i : ℕ) {a : A} → get_elem? xs i ≡ some a → i < length xs
  lt-length_of_get_elem? [] i h = cc
  lt-length_of_get_elem? (x ∷ xs) zero h = omega arith
  lt-length_of_get_elem? (x ∷ xs) (suc i) h = omega (arith, lt-length_of_get_elem? xs i h)

module _ {ℓ κ} {A : Type ℓ} where
  -- Every element satisfies `P`.
  abbrev pub All : (A → Type κ) → List A → Type κ
  All P [] = Unit
  All P (x ∷ xs) = P x × All P xs

module _ {A : Type 0} where
  -- A place at which an element stands in a list.
  abbrev pub In : A → List A → Type 0
  In x [] = ⊥
  In x (y ∷ ys) = (x ≡ y) ⊎ In x ys

  pub any→ : (p : A → Bool) (l : List A) → any p l ≡ true → (x : A) × In x l × (p x ≡ true)
  any→ p [] h = absurd (cc)
  any→ p (x ∷ l) h = elim (Bool-cases (p x)) [
    | inl e ↦ (x, inl refl, e)
    | inr e ↦ let (y, i, q) = any→ p l (ground (arith)) in (y, inr i, q)
  ]

  pub any← : (p : A → Bool) (l : List A) (x : A) → In x l → p x ≡ true → any p l ≡ true
  any← p [] x i h = absurd i
  any← p (y ∷ l) x (inl e) h = let t : p y ≡ true = sym (ap p e) ∙ h in ground (arith)
  any← p (y ∷ l) x (inr i) h = let t = any← p l x i h in ground (arith)

  pub all→ : (p : A → Bool) (l : List A) → all p l ≡ true → (x : A) → In x l → p x ≡ true
  all→ p [] h x i = absurd i
  all→ p (y ∷ l) h x (inl e) = let t : p x ≡ p y = ap p e in ground (arith)
  all→ p (y ∷ l) h x (inr i) = all→ p l (ground (arith)) x i

  pub all← : (p : A → Bool) (l : List A) → ((x : A) → In x l → p x ≡ true) → all p l ≡ true
  all← p [] h = refl
  all← p (y ∷ l) h =
      let head = h y (inl refl) in let rest = all← p l (λ x i. h x (inr i)) in ground (arith)

  pub In-filter→ : (p : A → Bool) (x : A) (l : List A) → In x (filter_b p l) → In x l × (p x ≡ true)
  In-filter→ p x [] i = absurd i
  In-filter→ p x (y ∷ l) i = by_test (In-filter→ p x l) (p y) refl i
    where
      by_test :
          (In x (filter_b p l) → In x l × (p x ≡ true))
          → (b : Bool) → p y ≡ b
          → In x (if b then y ∷ filter_b p l else filter_b p l)
          → In x (y ∷ l) × (p x ≡ true)
      by_test below true e (inl same) = (inl same, ap p same ∙ e)
      by_test below true e (inr i) = let (j, h) = below i in (inr j, h)
      by_test below false e i = let (j, h) = below i in (inr j, h)

  pub In-filter← : (p : A → Bool) (x : A) (l : List A) → In x l → p x ≡ true → In x (filter_b p l)
  In-filter← p x [] i h = absurd i
  In-filter← p x (y ∷ l) i h = by_test (λ j. In-filter← p x l j h) (p y) refl i
    where
      by_test :
          (In x l → In x (filter_b p l))
          → (b : Bool) → p y ≡ b
          → In x (y ∷ l)
          → In x (if b then y ∷ filter_b p l else filter_b p l)
      by_test below true e (inl same) = inl same
      by_test below true e (inr i) = inr (below i)
      by_test below false e (inl same) = let t : p x ≡ p y = ap p same in absurd (cc)
      by_test below false e (inr i) = below i

  pub In-append_left : (x : A) (l m : List A) → In x l → In x (l ++ m)
  In-append_left x [] m i = absurd i
  In-append_left x (y ∷ l) m (inl e) = inl e
  In-append_left x (y ∷ l) m (inr i) = inr (In-append_left x l m i)

  pub In-append_right : (x : A) (l m : List A) → In x m → In x (l ++ m)
  In-append_right x [] m i = i
  In-append_right x (y ∷ l) m i = inr (In-append_right x l m i)

  pub In-append→ : (x : A) (l m : List A) → In x (l ++ m) → In x l ⊎ In x m
  In-append→ x [] m i = inr i
  In-append→ x (y ∷ l) m (inl e) = inl (inl e)
  In-append→ x (y ∷ l) m (inr i) = elim (In-append→ x l m i) [ inl j ↦ inl (inr j) | inr j ↦ inr j ]
