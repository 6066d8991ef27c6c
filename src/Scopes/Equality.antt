-- ===== src/Scopes/Equality.antt =====
-- `sameAs`: two lists of scopes are compared as sets.
use mathlib.Core.List.{foldl}
use bzd.Prelude.Text.{Text, includes, same, same_refl, eq_of_same}
use bzd.Prelude.{
  suc, ◌≤◌, ◌≡◌, refl, sym, ap, subst, ◌∙◌, inl, inr, ◌↔◌, Bool, true, false, List, [], ◌∷◌, ◌++◌,
  length, filter_b, all, arith, Bool-cases, if◌then◌else◌, ◌==◌, In, any→, any←, all→, all←,
  In-append→, In-filter→,
}
use bzd.Scopes.{new_scopes, add_to_set, same_as}

-- No scope twice.
abbrev pub IsDistinct : List Text → Type 0
IsDistinct [] = Unit
IsDistinct (s ∷ rest) = (¬ (In s rest)) × IsDistinct rest

includes→ : (l : List Text) (s : Text) → includes l s ≡ true → In s l
includes→ l s h =
    let (t, i, e) = any→ (λ t. same t s) l h in subst (λ x. In x l) (eq_of_same t s e) i

includes← : (l : List Text) (s : Text) → In s l → includes l s ≡ true
includes← l s i = any← (λ t. same t s) l s i (same_refl s)

append-IsDistinct :
    (l : List Text) (s : Text) → IsDistinct l → ¬ (In s l) → IsDistinct (l ++ s ∷ [])
append-IsDistinct [] s d n = (λ i. i, tt)
append-IsDistinct (t ∷ l) s d n = (
  (λ i. elim (In-append→ t l (s ∷ []) i) [
    | inl j ↦ d.0 j
    | inr (inl e) ↦ n (inl (sym e))
    | inr (inr j) ↦ j
  ]),
  append-IsDistinct l s d.1 (λ i. n (inr i)),
)

set-IsDistinct :
    (scopes set : List Text) → IsDistinct set → IsDistinct (foldl add_to_set set scopes)
set-IsDistinct [] set d = d
set-IsDistinct (s ∷ scopes) set d = elim (Bool-cases (includes set s)) [
  | inl e ↦ rw e (set-IsDistinct scopes set d)
  | inr e ↦ rw e (
      set-IsDistinct scopes (set ++ s ∷ [])
        (append-IsDistinct set s d (λ i. let h = includes← set s i in ground arith)))
]

filter-IsDistinct : (p : Text → Bool) (l : List Text) → IsDistinct l → IsDistinct (filter_b p l)
filter-IsDistinct p [] d = tt
filter-IsDistinct p (s ∷ l) d = elim (Bool-cases (p s)) [
  | inl e ↦ rw e ((λ i. d.0 (In-filter→ p s l i).0), filter-IsDistinct p l d.1)
  | inr e ↦ rw e (filter-IsDistinct p l d.1)
]

new_scopes-IsDistinct : (scopes : List Text) → IsDistinct (new_scopes scopes).list
unfolding new_scopes
new_scopes-IsDistinct scopes = filter-IsDistinct _ _ (set-IsDistinct scopes [] tt)

-- A list without one of its places.
remove : (s : Text) (l : List Text) → In s l → List Text
remove s [] i = absurd i
remove s (t ∷ l) (inl e) = l
remove s (t ∷ l) (inr i) = t ∷ remove s l i

length-remove : (s : Text) (l : List Text) (i : In s l) → suc (length (remove s l i)) ≡ length l
unfolding remove
length-remove s [] i = absurd i
length-remove s (t ∷ l) (inl e) = refl
length-remove s (t ∷ l) (inr i) = ap suc (length-remove s l i)

In-remove← : (s x : Text) (l : List Text) (i : In s l) → In x l → ¬ (x ≡ s) → In x (remove s l i)
unfolding remove
In-remove← s x [] i j ne = absurd i
In-remove← s x (t ∷ l) (inl e) (inl f) ne = absurd (ne (f ∙ sym e))
In-remove← s x (t ∷ l) (inl e) (inr j) ne = j
In-remove← s x (t ∷ l) (inr i) (inl f) ne = inl f
In-remove← s x (t ∷ l) (inr i) (inr j) ne = inr (In-remove← s x l i j ne)

In-remove→ : (s x : Text) (l : List Text) (i : In s l) → In x (remove s l i) → In x l
unfolding remove
In-remove→ s x [] i j = absurd i
In-remove→ s x (t ∷ l) (inl e) j = inr j
In-remove→ s x (t ∷ l) (inr i) (inl f) = inl f
In-remove→ s x (t ∷ l) (inr i) (inr j) = inr (In-remove→ s x l i j)

-- A distinct list whose members are all in another list is no longer than it.
length-le_of_In :
    (l m : List Text) → IsDistinct l → ((x : Text) → In x l → In x m) → length l ≤ length m
length-le_of_In [] m d h = omega arith
length-le_of_In (s ∷ l) m d h =
    let i = h s (inl refl) in
    let less =
      length-le_of_In l (remove s m i) d.1
        (λ x j. In-remove← s x m i (h x (inr j)) (λ e. d.0 (subst (λ y. In y l) e j))) in
    omega (arith, less, length-remove s m i)

-- With the lengths equal, it has all members of the other list.
In-of_length :
    (l m : List Text)
    → IsDistinct l
    → ((x : Text) → In x l → In x m)
    → length l ≡ length m
    → (x : Text) → In x m
    → In x l
In-of_length l m d h same x i = elim (Bool-cases (includes l x)) [
  | inl e ↦ includes→ l x e
  | inr e ↦
      let less = length-le_of_In l (remove x m i) d (λ y j.
        In-remove← x y m i (h y j)
          (λ f. let k = includes← l x (subst (λ z. In z l) f j) in ground arith)) in
      absurd (omega (arith, less, same, length-remove x m i))
]

lists_iff :
    (a b : List Text)
    → IsDistinct a
    → IsDistinct b
    → ((if length b == length a then all (includes a) b else false) ≡ true)
      ↔ ((s : Text) → In s a ↔ In s b)
lists_iff a b da db = (
  λ h s.
      let inside : (x : Text) → In x b → In x a =
        λ x i. includes→ a x (all→ (includes a) b (ground arith) x i) in
      (In-of_length b a db inside (ground arith) s, inside s),
  λ h.
      let le = length-le_of_In a b da (λ x. (h x).0) in
      let ge = length-le_of_In b a db (λ x. (h x).1) in
      let each = all← (includes a) b (λ x i. includes← a x ((h x).1 i)) in ground arith,
)

-- `sameAs` of two objects returns true exactly if they have the same scopes, in whatever order.
pub same_as_iff :
    (scopes others : List Text)
    → (same_as (new_scopes scopes) others ≡ true)
      ↔ ((s : Text) → In s (new_scopes scopes).list ↔ In s (new_scopes others).list)
unfolding same_as
same_as_iff scopes others =
    lists_iff (new_scopes scopes).list (new_scopes others).list (new_scopes-IsDistinct scopes)
      (new_scopes-IsDistinct others)
