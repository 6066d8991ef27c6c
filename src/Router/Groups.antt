-- ===== src/Router/Groups.antt =====
-- Counting down over the groups of a match in nodejs/core/router.js to the last one that is defined.
use bzd.Prelude.{
  ℕ, zero, suc, ◌+◌, ◌<◌, ◌≡◌, refl, sym, ap, ◌∙◌, inl, inr, Option, none, some, List, [], ◌∷◌,
  ◌++◌, map, length, length-append, get_elem?, Option-cases, arith,
}
use bzd.Prelude.Text.{Text}
use bzd.Router.Match.{repeat, group, count_down}

pub length-repeat : {A : Type 0} (a : A) (n : ℕ) → length (repeat a n) ≡ n
length-repeat a zero = refl
length-repeat a (suc n) = ap suc (length-repeat a n)

pub group-repeat-none : (n i : ℕ) → group (repeat none n) i ≡ none
group-repeat-none zero i = refl
group-repeat-none (suc n) zero = refl
group-repeat-none (suc n) (suc i) = group-repeat-none n i

pub group-append_right :
    (a b : List (Option Text)) (i : ℕ) → group (a ++ b) (length a + i) ≡ group b i
group-append_right [] b i = ap (group b) (omega arith)
group-append_right (g ∷ a) b i =
    ap (group (g ∷ (a ++ b))) {x = suc (length a) + i} {y = suc (length a + i)} (omega arith)
    ∙ group-append_right a b i

pub group-append_left :
    (a b : List (Option Text)) (i : ℕ) → i < length a → group (a ++ b) i ≡ group a i
group-append_left [] b i h = absurd (omega arith)
group-append_left (g ∷ a) b zero h = refl
group-append_left (g ∷ a) b (suc i) h = group-append_left a b i (omega arith)

pub group-map-some : (l : List Text) (i : ℕ) → group (map some l) i ≡ get_elem? l i
group-map-some [] i = refl
group-map-some (x ∷ l) zero = refl
group-map-some (x ∷ l) (suc i) = group-map-some l i

pub count_down-none :
    (groups : List (Option Text)) (c : ℕ)
    → group groups c ≡ none
    → count_down groups (suc c) ≡ count_down groups c
unfolding count_down
count_down-none groups c h = rw (h, count_down) refl

pub count_down-some :
    (groups : List (Option Text)) (c : ℕ) {s : Text}
    → group groups c ≡ some s
    → count_down groups (suc c) ≡ suc c
unfolding count_down
count_down-some groups c h = rw (h, count_down) refl

pub count_down-repeat-none : (n k : ℕ) → count_down (repeat none n) k ≡ 0
unfolding count_down
count_down-repeat-none n zero = refl
count_down-repeat-none n (suc k) =
    count_down-none (repeat none n) k (group-repeat-none n k) ∙ count_down-repeat-none n k

-- Groups that take no part are passed over.
pub count_down-append_none :
    (a : List (Option Text)) (n k : ℕ)
    → count_down (a ++ repeat none n) (length a + k) ≡ count_down (a ++ repeat none n) (length a)
count_down-append_none a n zero = ap (count_down (a ++ repeat none n)) (omega arith)
count_down-append_none a n (suc k) =
    ap (count_down (a ++ repeat none n)) {x = length a + suc k} {y = suc (length a + k)}
      (omega arith)
    ∙ count_down-none (a ++ repeat none n) (length a + k)
        (group-append_right a (repeat none n) k ∙ group-repeat-none n k)
    ∙ count_down-append_none a n k

-- Groups in front do not change which group is the last.
pub count_down-append_front :
    (a b : List (Option Text)) (k c : ℕ)
    → count_down b k ≡ suc c
    → count_down (a ++ b) (length a + k) ≡ length a + suc c
unfolding count_down
count_down-append_front a b zero c h = absurd (omega arith)
count_down-append_front a b (suc k) c h = elim (Option-cases (group b k)) [
  | inl e ↦
      ap (count_down (a ++ b)) {x = length a + suc k} {y = suc (length a + k)} (omega arith)
      ∙ count_down-none (a ++ b) (length a + k) (group-append_right a b k ∙ e)
      ∙ count_down-append_front a b k c (sym (count_down-none b k e) ∙ h)
  | inr (s, e) ↦
      ap (count_down (a ++ b)) {x = length a + suc k} {y = suc (length a + k)} (omega arith)
      ∙ count_down-some (a ++ b) (length a + k) (group-append_right a b k ∙ e)
      ∙ omega (arith, sym (count_down-some b k e) ∙ h)
]

pub group-repeat-some : (n i : ℕ) → i < n → group (repeat (some []) n) i ≡ some []
group-repeat-some zero i h = absurd (omega arith)
group-repeat-some (suc n) zero h = refl
group-repeat-some (suc n) (suc i) h = group-repeat-some n i (omega arith)

pub length-map-some : (l : List Text) → length (map (λ s. some s) l) ≡ length l
length-map-some [] = refl
length-map-some (s ∷ l) = ap suc (length-map-some l)

-- The groups of a route that matches, before those of others.
abbrev pub own_groups : List Text → ℕ → List (Option Text)
own_groups captures d = map (λ s. some s) captures ++ repeat (some []) (suc d)

pub length-own_groups :
    (captures : List Text) (d : ℕ) → length (own_groups captures d) ≡ length captures + suc d
length-own_groups captures d =
    length-append (map (λ s. some s) captures) (repeat (some []) (suc d))
    ∙ omega (arith, length-map-some captures, length-repeat {A = Option Text} (some []) d)

pub count_down-own_groups :
    (captures : List Text) (d n : ℕ)
    → let groups = own_groups captures d ++ repeat none n in
      count_down groups (length groups) ≡ length captures + suc d
count_down-own_groups captures d n =
    let front = own_groups captures d in
    let groups = front ++ repeat none n in
    let whole : length groups ≡ length front + n =
      omega (arith, length-append front (repeat none n), length-repeat {A = Option Text} none n) in
    let own : length front ≡ suc (length captures + d) =
      omega (arith, length-own_groups captures d) in
    let before : length (map (λ s. some s) captures) ≡ length captures = length-map-some captures in
    let last : group groups (length captures + d) ≡ some [] =
      group-append_left front (repeat none n) (length captures + d) (omega arith)
      ∙ ap (λ l. group front (l + d)) (sym before)
      ∙ group-append_right (map (λ s. some s) captures) (repeat (some []) (suc d)) d
      ∙ group-repeat-some (suc d) d (omega arith) in
    ap (count_down groups) whole
    ∙ count_down-append_none front n n
    ∙ ap (count_down groups) own
    ∙ count_down-some groups (length captures + d) last
    ∙ omega arith

pub group-own_groups :
    (captures : List Text) (d n j : ℕ)
    → j < length captures
    → group (own_groups captures d ++ repeat none n) j ≡ get_elem? captures j
group-own_groups captures d n j h =
    group-append_left (own_groups captures d) (repeat none n) j
      (omega (arith, length-own_groups captures d))
    ∙ group-append_left (map (λ s. some s) captures) (repeat (some []) (suc d)) j
        (omega (arith, length-map-some captures))
    ∙ group-map-some captures j
