-- ===== src/Scopes/Containment.antt =====
-- What a list of scopes contains: each scope contains itself and all that is below its path.
use mathlib.Core.List.{foldl}
use mathlib.Core.List
use bzd.Prelude.Text.{Text, includes, starts_with, last?}
use bzd.Prelude.{
  ℕ, ◌≡◌, refl, sym, ap, subst, ◌∙◌, ◌≢◌, ◌⊎◌, inl, inr, ◌↔◌, Bool, true, false, not, none, some,
  List, [], ◌∷◌, ◌++◌, ◌==◌, if◌then◌else◌, length, get_elem?, all, arith, Bool-cases, In, any→,
  any←, In-filter→, In-append→,
}
use bzd.Scopes.{
  Scopes, new_scopes, add_to_set, is_space, slash, covers, contains, check_valid, passed,
}

abbrev pub StartsAtSlash : Text → Type 0
StartsAtSlash [] = ⊥
StartsAtSlash (c ∷ s) = c ≡ slash

abbrev pub EndsAtSlash : Text → Type 0
EndsAtSlash [] = ⊥
EndsAtSlash (c ∷ []) = c ≡ slash
EndsAtSlash (c ∷ d ∷ s) = EndsAtSlash (d ∷ s)

-- `scope` is the path `base` itself, or goes on below it.
abbrev pub IsWithin : Text → Text → Type 0
IsWithin base scope =
    (rest : Text) × (scope ≡ base ++ rest) × ((rest ≡ []) ⊎ (StartsAtSlash rest ⊎ EndsAtSlash base))

starts_with→ : (s p : Text) → starts_with s p ≡ true → (rest : Text) × (s ≡ p ++ rest)
starts_with→ s [] h = (s, refl)
starts_with→ [] (c ∷ p) h = absurd (cc)
starts_with→ (d ∷ s) (c ∷ p) h =
    let (rest, e) = starts_with→ s p (ground arith) in (rest, ground arith)

starts_with-append : (p rest : Text) → starts_with (p ++ rest) p ≡ true
starts_with-append [] rest = refl
starts_with-append (c ∷ p) rest = let h = starts_with-append p rest in ground arith

ends : Text → Bool
ends base = elim (last? base) [ none ↦ false | some c ↦ c == slash ]

ends→ : (base : Text) → ends base ≡ true → EndsAtSlash base
unfolding ends
ends→ [] h = absurd (cc)
ends→ (c ∷ []) h = ground arith
ends→ (c ∷ d ∷ s) h = ends→ (d ∷ s) h

ends← : (base : Text) → EndsAtSlash base → ends base ≡ true
unfolding ends
ends← [] h = absurd h
ends← (c ∷ []) h = ground arith
ends← (c ∷ d ∷ s) h = ends← (d ∷ s) h

-- The test of the character behind the base.
stops : Text → ℕ → Bool
stops scope i = elim (get_elem? scope i) [ none ↦ true | some c ↦ c == slash ]

stops→ :
    (base rest : Text)
    → stops (base ++ rest) (length base) ≡ true
    → (rest ≡ []) ⊎ StartsAtSlash rest
unfolding stops
stops→ [] [] h = inl refl
stops→ [] (c ∷ rest) h = inr (ground arith)
stops→ (c ∷ base) rest h = stops→ base rest h

stops← :
    (base rest : Text)
    → (rest ≡ []) ⊎ StartsAtSlash rest
    → stops (base ++ rest) (length base) ≡ true
unfolding stops
stops← [] [] h = refl
stops← [] (c ∷ rest) (inl e) = absurd (cc)
stops← [] (c ∷ rest) (inr e) = ground arith
stops← (c ∷ base) rest h = stops← base rest h

covers→ : (scope base : Text) → covers scope base ≡ true → IsWithin base scope
unfolding covers ends stops
covers→ scope base h =
    let (rest, e) = starts_with→ scope base (ground arith) in
    (
      rest,
      e,
      elim (Bool-cases (ends base)) [
        | inl at ↦ inr (inr (ends→ base at))
        | inr off ↦
            elim (stops→ base rest (ap (λ s. stops s (length base)) (sym e) ∙ (ground arith))) [
              | inl empty ↦ inl empty
              | inr start ↦ inr (inl start)
            ]
      ],
    )

pub covers← : (scope base : Text) → IsWithin base scope → covers scope base ≡ true
unfolding covers ends stops
covers← scope base (rest, e, way) =
    let starts = starts_with-append base rest in
    rw e (elim way [
      | inl empty ↦ let at = stops← base rest (inl empty) in ground arith
      | inr (inl start) ↦ let at = stops← base rest (inr start) in ground arith
      | inr (inr slashed) ↦ let at = ends← base slashed in ground arith
    ])

-- `contains` returns true exactly for the scopes that are one of the list or below the path of one.
pub contains_iff :
    (scopes : Scopes) (scope : Text)
    → (contains scopes scope ≡ true) ↔ ((base : Text) × In base scopes.list × IsWithin base scope)
unfolding contains
contains_iff scopes scope = (
  λ h. let (base, i, c) = any→ (covers scope) scopes.list h in (base, i, covers→ scope base c),
  λ (base, i, w). any← (covers scope) scopes.list base i (covers← scope base w),
)

EndsAtSlash-append : (s t : Text) → EndsAtSlash (s ++ t) → t ≢ [] → EndsAtSlash t
EndsAtSlash-append [] t h ne = h
EndsAtSlash-append (c ∷ []) [] h ne = absurd (ne refl)
EndsAtSlash-append (c ∷ []) (d ∷ t) h ne = h
EndsAtSlash-append (c ∷ d ∷ s) t h ne = EndsAtSlash-append (d ∷ s) t h ne

StartsAtSlash-append : (s t : Text) → StartsAtSlash s → StartsAtSlash (s ++ t)
StartsAtSlash-append [] t h = absurd h
StartsAtSlash-append (c ∷ s) t h = h

-- Below what is below a scope.
pub IsWithin-trans : (a b c : Text) → IsWithin a b → IsWithin b c → IsWithin a c
IsWithin-trans a b c (r, e, way) (q, f, on) =
    let split : c ≡ a ++ (r ++ q) = f ∙ ap (λ s. s ++ q) e ∙ List.append_assoc a r q in
    (
      r ++ q,
      split,
      elim way [
        | inl empty ↦ rw empty (elim on [
          | inl stop ↦ inl stop
          | inr (inl start) ↦ inr (inl start)
          | inr (inr slashed) ↦
              inr (inr (subst EndsAtSlash (e ∙ ap (λ s. a ++ s) empty ∙ List.append-nil a) slashed))
        ])
        | inr (inl start) ↦ inr (inl (StartsAtSlash-append r q start))
        | inr (inr slashed) ↦ inr (inr slashed)
      ],
    )

-- The scopes of a new object are those it is made of, but for blank ones.
In-add_to_set→ : (s t : Text) (set : List Text) → In t (add_to_set set s) → In t set ⊎ (t ≡ s)
In-add_to_set→ s t set i = by_test (includes set s) i
  where
    by_test : (b : Bool) → In t (if b then set else set ++ s ∷ []) → In t set ⊎ (t ≡ s)
    by_test true j = inl j
    by_test false j = elim (In-append→ t set (s ∷ []) j) [
      | inl k ↦ inl k
      | inr (inl e) ↦ inr e
      | inr (inr k) ↦ absurd k
    ]

pub In-set→ :
    (t : Text) (scopes set : List Text)
    → In t (foldl add_to_set set scopes)
    → In t set ⊎ In t scopes
In-set→ t [] set i = inl i
In-set→ t (s ∷ scopes) set i = elim (In-set→ t scopes (add_to_set set s) i) [
  | inl j ↦ elim (In-add_to_set→ s t set j) [ inl k ↦ inl k | inr e ↦ inr (inl e) ]
  | inr j ↦ inr (inr j)
]

check_valid→ :
    (this : Scopes) (scopes : List Text)
    → check_valid this scopes ≡ passed
    → (s : Text) → In s scopes
    → contains this s ≡ true
unfolding check_valid
check_valid→ this [] h s i = absurd i
check_valid→ this (t ∷ scopes) h s (inl e) = ground (arith, ap (contains this) e)
check_valid→ this (t ∷ scopes) h s (inr i) = check_valid→ this scopes (ground arith) s i

-- What an object contains all scopes of, contains no less than that.
pub check_valid-within :
    (this other : Scopes) (scope : Text)
    → check_valid this other.list ≡ passed
    → contains other scope ≡ true
    → contains this scope ≡ true
check_valid-within this other scope valid has =
    let (base, i, w) = (contains_iff other scope).0 has in
    let (top, l, v) = (contains_iff this base).0 (check_valid→ this other.list valid base i) in
    (contains_iff this scope).1 (top, l, IsWithin-trans top base scope v w)

-- No escalation: if `checkValid` lets scopes pass, then an object made of them contains no scope
-- that the object they were checked against does not contain.
pub check_valid-no_escalation :
    (this : Scopes) (scopes : List Text) (scope : Text)
    → check_valid this scopes ≡ passed
    → contains (new_scopes scopes) scope ≡ true
    → contains this scope ≡ true
unfolding new_scopes
check_valid-no_escalation this scopes scope valid has =
    let (base, i, w) = (contains_iff (new_scopes scopes) scope).0 has in
    let (j, full) = In-filter→ (λ s. not (all is_space s)) base (foldl add_to_set [] scopes) i in
    elim (In-set→ base scopes [] j) [
      | inl k ↦ absurd k
      | inr k ↦
          let (top, l, v) = (contains_iff this base).0 (check_valid→ this scopes valid base k) in
          (contains_iff this scope).1 (top, l, IsWithin-trans top base scope v w)
    ]
