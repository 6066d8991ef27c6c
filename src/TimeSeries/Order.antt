-- ===== src/TimeSeries/Order.antt =====
-- The orders that a series keeps: its timestamps rise, strictly so if they are unique.
use bzd.Prelude.{
  ℕ, zero, suc, ◌≤◌, ◌<◌, ◌≡◌, subst, sym, ap, ◌∙◌, dec_lt, Bool, true, false, some, List, [], ◌∷◌,
  arith, get_elem?, All,
}
use bzd.TimeSeries.{Entry, TimeSeries}

abbrev pub Rises : Bool → ℕ → ℕ → Type 0
Rises true a b = a < b
Rises false a b = a ≤ b

pub le_of_Rises : (u : Bool) (a b : ℕ) → Rises u a b → a ≤ b
le_of_Rises true a b h = omega arith
le_of_Rises false a b h = h

pub Rises-trans : (u : Bool) (a b c : ℕ) → Rises u a b → Rises u b c → Rises u a c
Rises-trans true a b c h k = omega arith
Rises-trans false a b c h k = omega arith

module _ {ℓ} {V : Type ℓ} where
  -- Every entry comes after those before it: `<` if `unique`, else `≤`.
  abbrev pub IsOrdered : Bool → List (Entry V) → Type 0
  IsOrdered unique [] = Unit
  IsOrdered unique (e ∷ rest) =
      All (λ (f : Entry V). Rises unique e.0 f.0) rest × IsOrdered unique rest

  abbrev pub IsConsistent : TimeSeries V → Type 0
  IsConsistent ts = IsOrdered ts.unique ts.entries

  pub All-get_elem? {κ} :
      (P : Entry V → Type κ) (l : List (Entry V)) (i : ℕ) {e : Entry V}
      → All P l
      → get_elem? l i ≡ some e
      → P e
  All-get_elem? P [] i h g = absurd (cc)
  All-get_elem? P (x ∷ l) zero {e} h g = subst P {x = x} {y = e} (cc) h.0
  All-get_elem? P (x ∷ l) (suc i) h g = All-get_elem? P l i h.1 g

  -- The order by index.
  pub IsOrdered-get_elem? :
      (u : Bool) (l : List (Entry V)) (i j : ℕ) {a b : Entry V}
      → IsOrdered u l
      → i < j
      → get_elem? l i ≡ some a
      → get_elem? l j ≡ some b
      → Rises u a.0 b.0
  IsOrdered-get_elem? u [] i j h lt g k = absurd (cc)
  IsOrdered-get_elem? u (x ∷ l) i zero h lt g k = absurd (omega arith)
  IsOrdered-get_elem? u (x ∷ l) zero (suc j) {a} {b} h lt g k =
      All-get_elem? (λ f. Rises u a.0 f.0) l j
        (subst (λ (e : Entry V). All (λ (f : Entry V). Rises u e.0 f.0) l) {x = x} {y = a} (cc) h.0)
        k
  IsOrdered-get_elem? u (x ∷ l) (suc i) (suc j) h lt g k =
      IsOrdered-get_elem? u l i j h.1 (omega arith) g k

  pub le_by_index :
      (u : Bool) (l : List (Entry V)) (i j : ℕ) {a b : Entry V}
      → IsOrdered u l
      → i ≤ j
      → get_elem? l i ≡ some a
      → get_elem? l j ≡ some b
      → a.0 ≤ b.0
  le_by_index u l i j {a} {b} o le g k = elim (dec_lt i j) [
    | yes p ↦ le_of_Rises u a.0 b.0 (IsOrdered-get_elem? u l i j o p g k)
    | no p ↦
        let here : i ≡ j = omega arith in
        let same : some a ≡ some b = sym g ∙ ap (get_elem? l) here ∙ k in ground arith
  ]
