-- ===== src/Prelude/Map.antt =====
-- JavaScript's `Map`, and an object used as one: entries in the order of their insertion, with a
-- decision of equality on the keys. An object's keys that are integers are not modelled, nor the
-- names that every object inherits and `in` finds, such as `constructor`.
use mathlib.Core.Path.{◌≡◌, refl, sym, ap, ◌∙◌}
use mathlib.Core.Logic.{◌≢◌, ite, if_pos, if_neg}
use mathlib.Core.Option.{Option, none, some}
use mathlib.Core.List.{List, [], ◌∷◌, ◌++◌, foldl}
use native.Mathlib.Omega.{arith}

abbrev pub Map {ℓ} : Type ℓ → Type ℓ → Type ℓ
Map K V = List (K × V)

module _ {ℓ} {K V : Type ℓ} (dec : Discrete K) where
  -- `get`, with `undefined` as `none`; `has` and `in` ask whether it is `some`.
  unfoldable pub get : K → Map K V → Option V
  get k [] = none
  get k ((j, v) ∷ m) = ite (dec j k) (some v) (get k m)

  -- A key that is there keeps its place; a new one goes to the end.
  unfoldable pub set : K → V → Map K V → Map K V
  set k v [] = (k, v) ∷ []
  set k v ((j, w) ∷ m) = ite (dec j k) ((j, v) ∷ m) ((j, w) ∷ set k v m)

  unfoldable pub delete : K → Map K V → Map K V
  delete k [] = []
  delete k ((j, w) ∷ m) = ite (dec j k) m ((j, w) ∷ delete k m)

  -- No key twice.
  abbrev pub IsDistinct : Map K V → Type ℓ
  IsDistinct [] = Unit
  IsDistinct ((j, w) ∷ m) = (get j m ≡ none) × IsDistinct m

  pub get-set_self : (k : K) (v : V) (m : Map K V) → get k (set k v m) ≡ some v
  unfolding get set
  get-set_self k v [] = if_pos (dec k k) refl _ _
  get-set_self k v ((j, w) ∷ m) = elim (dec j k) [
    | yes p ↦ rw (if_pos _ p) (if_pos (dec j k) p _ _)
    | no p ↦ rw (if_neg _ p, if_neg (dec j k) p) (get-set_self k v m)
  ]

  pub get-set_ne : (k q : K) (v : V) (m : Map K V) → q ≢ k → get q (set k v m) ≡ get q m
  unfolding get set
  get-set_ne k q v [] h = if_neg (dec k q) (λ p. h (sym p)) _ _
  get-set_ne k q v ((j, w) ∷ m) h = ground (arith, get-set_ne k q v m)

  pub get-delete_ne : (k q : K) (m : Map K V) → q ≢ k → get q (delete k m) ≡ get q m
  unfolding get delete
  get-delete_ne k q [] h = refl
  get-delete_ne k q ((j, w) ∷ m) h = ground (arith, get-delete_ne k q m)

  pub get-delete_self : (k : K) (m : Map K V) → IsDistinct m → get k (delete k m) ≡ none
  unfolding get delete
  get-delete_self k [] d = refl
  get-delete_self k ((j, w) ∷ m) d = ground (arith, get-delete_self k m d.1)

  pub delete-absent : (k : K) (m : Map K V) → get k m ≡ none → delete k m ≡ m
  unfolding get delete
  delete-absent k [] h = refl
  delete-absent k ((j, w) ∷ m) h = ground (arith, delete-absent k m)

  pub set-absent : (k : K) (v : V) (m : Map K V) → get k m ≡ none → set k v m ≡ m ++ (k, v) ∷ []
  unfolding get set
  set-absent k v [] h = refl
  set-absent k v ((j, w) ∷ m) h = ground (arith, set-absent k v m)

  pub set-IsDistinct : (k : K) (v : V) (m : Map K V) → IsDistinct m → IsDistinct (set k v m)
  unfolding get set
  set-IsDistinct k v [] d = (refl, tt)
  set-IsDistinct k v ((j, w) ∷ m) d = elim (dec j k) [
    | yes p ↦ rw (if_pos _ p) d
    | no p ↦ rw (if_neg _ p) ((get-set_ne k j v m p ∙ d.0), set-IsDistinct k v m d.1)
  ]

  pub delete-IsDistinct : (k : K) (m : Map K V) → IsDistinct m → IsDistinct (delete k m)
  unfolding get delete
  delete-IsDistinct k [] d = tt
  delete-IsDistinct k ((j, w) ∷ m) d = elim (dec j k) [
    | yes p ↦ rw (if_pos _ p) d.1
    | no p ↦ rw (if_neg _ p) ((get-delete_ne k j m p ∙ d.0), delete-IsDistinct k m d.1)
  ]

module _ {ℓ} {K V W : Type ℓ} (dec : Discrete K) (f : K → V → Option W) where
  abbrev pub collect_entry : Map K W → K × V → Map K W
  collect_entry obj (k, v) = elim (f k v) [ none ↦ obj | some w ↦ set dec k w obj ]

  -- A `reduce` over the entries that adds to an object what `f` gives, and skips those it gives none.
  abbrev pub collect : Map K W → Map K V → Map K W
  collect obj m = foldl collect_entry obj m

  abbrev pub collected : K → Option V → Option W → Option W
  collected k none old = old
  collected k (some v) old = elim (f k v) [ none ↦ old | some w ↦ some w ]

  get-collect_entry_self :
      (k : K) (v : V) (obj : Map K W)
      → get dec k (collect_entry obj (k, v)) ≡ collected k (some v) (get dec k obj)
  get-collect_entry_self k v obj = by_value (f k v)
    where
      by_value :
          (o : Option W)
          → get dec k (elim o [ none ↦ obj | some w ↦ set dec k w obj ])
            ≡ (elim o [ none ↦ get dec k obj | some w ↦ some w ])
      by_value none = refl
      by_value (some w) = get-set_self dec k w obj

  get-collect_entry_ne :
      (k q : K) (v : V) (obj : Map K W)
      → q ≢ k
      → get dec q (collect_entry obj (k, v)) ≡ get dec q obj
  get-collect_entry_ne k q v obj ne = by_value (f k v)
    where
      by_value :
          (o : Option W)
          → get dec q (elim o [ none ↦ obj | some w ↦ set dec k w obj ]) ≡ get dec q obj
      by_value none = refl
      by_value (some w) = get-set_ne dec k q w obj ne

  pub get-collect :
      (k : K) (obj : Map K W) (m : Map K V)
      → IsDistinct dec m
      → get dec k (collect obj m) ≡ collected k (get dec k m) (get dec k obj)
  unfolding get
  get-collect k obj [] d = refl
  get-collect k obj ((j, v) ∷ m) d = elim (dec j k) [
    | yes p ↦
        get-collect k (collect_entry obj (j, v)) m d.1
        ∙ rw (if_pos (dec j k) p, sym (ap (λ x. get dec x m) p) ∙ d.0)
            (ap (λ x. get dec x (collect_entry obj (j, v))) (sym p)
              ∙ get-collect_entry_self j v obj
              ∙ ap (λ x. collected x (some v) (get dec x obj)) p)
    | no p ↦
        get-collect k (collect_entry obj (j, v)) m d.1
        ∙ rw (if_neg (dec j k) p, get-collect_entry_ne j k v obj (λ e. p (sym e))) refl
  ]

  pub collect-IsDistinct :
      (obj : Map K W) (m : Map K V) → IsDistinct dec obj → IsDistinct dec (collect obj m)
  collect-IsDistinct obj [] d = d
  collect-IsDistinct obj ((j, v) ∷ m) d =
      collect-IsDistinct (collect_entry obj (j, v)) m (by_value (f j v))
    where
      by_value : (o : Option W) → IsDistinct dec (elim o [ none ↦ obj | some w ↦ set dec j w obj ])
      by_value none = d
      by_value (some w) = set-IsDistinct dec j w obj d

-- Object.assign(m, n)
abbrev pub assign {ℓ} : {K V : Type ℓ} → Discrete K → Map K V → Map K V → Map K V
assign dec m n = collect dec (λ k v. some v) m n
