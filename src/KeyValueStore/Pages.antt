-- ===== src/KeyValueStore/Pages.antt =====
-- The iterator over the pages of a list gives the list.
use bzd.Prelude.{
  ℕ, zero, suc, ◌+◌, ◌*◌, ◌-◌, ◌≤◌, ◌<◌, ◌≡◌, refl, sym, ap, ◌∙◌, inl, inr, some, List, [], ◌∷◌,
  ◌++◌, leb, ◌>>=◌, length, take, drop, arith, Bool-cases,
}
use bzd.KeyValueStore.{slice, make_from_list, iterate}

module _ {A : Type 0} where
  take-drop : (n : ℕ) (l : List A) → take n l ++ drop n l ≡ l
  take-drop zero l = refl
  take-drop (suc n) [] = refl
  take-drop (suc n) (x ∷ l) = ap (λ r. x ∷ r) (take-drop n l)

  drop-drop : (m n : ℕ) (l : List A) → drop m (drop n l) ≡ drop (n + m) l
  drop-drop m zero l = let e : m ≡ 0 + m = omega arith in ap (λ k. drop k l) e
  drop-drop m (suc n) [] =
      let e : suc (n + m) ≡ suc n + m = omega arith in nothing m ∙ ap (λ k. drop {A = A} k []) e
    where
      nothing : (m : ℕ) → drop {A = A} m [] ≡ drop {A = A} (suc (n + m)) []
      nothing zero = refl
      nothing (suc m) = refl
  drop-drop m (suc n) (x ∷ l) =
      let e : suc (n + m) ≡ suc n + m = omega arith in drop-drop m n l ∙ ap (λ k. drop k (x ∷ l)) e

  take-all : (n : ℕ) (l : List A) → length l ≤ n → take n l ≡ l
  take-all zero [] h = refl
  take-all zero (x ∷ l) h = absurd (omega (arith, h))
  take-all (suc n) [] h = refl
  take-all (suc n) (x ∷ l) h = ap (λ r. x ∷ r) (take-all n l (omega (arith, h)))

  length-drop : (n : ℕ) (l : List A) → length (drop n l) ≡ length l - n
  length-drop zero l = omega arith
  length-drop (suc n) [] = omega arith
  length-drop (suc n) (x ∷ l) = omega (arith, length-drop n l)

  iterate_from :
      (l : List A) (fuel page max : ℕ)
      → 0 < max
      → page * max ≤ length l
      → length l < page * max + fuel
      → iterate fuel (make_from_list l) (record { page = page; max = max })
        ≡ some (drop (page * max) l)
  unfolding iterate make_from_list
  iterate_from l zero page max positive le lt = absurd (omega (arith, le, lt))
  iterate_from l (suc fuel) page max positive le lt =
      let width : page * max + max - page * max ≡ max = omega arith in
      let next : (page + 1) * max ≡ page * max + max = omega arith in
      elim (Bool-cases (leb (length l) (page * max + max))) [
        | inl last ↦
            let short : length (drop (page * max) l) ≤ page * max + max - page * max =
              let all : length l ≤ page * max + max = ground arith in
              omega (arith, length-drop (page * max) l, all) in
            rw (last, iterate, make_from_list) (ap some (take-all _ (drop (page * max) l) short))
        | inr more ↦
            let inside : page * max + max < length l = ground arith in
            let rest =
              iterate_from l fuel (page + 1) max positive (omega (arith, next, inside))
                (omega (arith, next, lt, positive)) in
            rw (more, iterate, make_from_list)
              (ap (λ o. do r ← o; some (slice l (page * max) (page * max + max) ++ r)) rest
                ∙ ap some (
                    ap (λ n. take n (drop (page * max) l) ++ drop ((page + 1) * max) l) width
                    ∙ ap (λ n. take max (drop (page * max) l) ++ drop n l) next
                    ∙ ap (λ r. take max (drop (page * max) l) ++ r)
                        (sym (drop-drop max (page * max) l))
                    ∙ take-drop max (drop (page * max) l)))
      ]

  -- `makeIterator` over the pages of a list, from the first one on and with any positive size, ends
  -- and gives the whole list, each item once and in order.
  pub iterate-make_from_list :
      (l : List A) (max : ℕ)
      → 0 < max
      → iterate (suc (length l)) (make_from_list l) (record { page = 0; max = max }) ≡ some l
  iterate-make_from_list l max positive =
      iterate_from l (suc (length l)) 0 max positive (omega arith) (omega arith)
      ∙ (let e : 0 * max ≡ 0 = omega arith in ap (λ n. some (drop n l)) e)
