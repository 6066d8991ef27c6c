-- ===== src/Scopes/Dictionary.antt =====
-- The dictionaries whose keys are guarded by scopes: `checkDictionary` and `filterDictionary`.
use mathlib.Core.List.{foldl}
use mathlib.Core.Logic.{if_pos, if_neg}
use bzd.Prelude.Map
use bzd.Prelude.Map.{Map}
use bzd.Prelude.Text.{Text, includes, same, eq_of_same, text_discrete}
use bzd.Prelude.{
  ◌≡◌, ◌≢◌, refl, sym, ap, subst, ◌∙◌, inl, inr, ◌↔◌, true, Option, none, some, List, [], ◌∷◌, ◌++◌,
  map, if◌then◌else◌, arith, Bool-cases, Option-cases, In, any→, In-append_left, In-append_right,
  In-append→,
}
use bzd.Scopes.{
  Scopes, add_to_set, OneOrMany, match_any, Check, passed, not_valid_key, not_guarded_key,
  not_valid_scope, first_failure, filter_entry, filter_dictionary, check_key, check_keys,
  check_dictionary,
}
use bzd.Scopes.Containment.{In-set→}

In-add_to_set_new : (s : Text) (set : List Text) → In s (add_to_set set s)
In-add_to_set_new s set = elim (Bool-cases (includes set s)) [
  | inl e ↦
      let (t, i, same) = any→ (λ t. same t s) set e in
      rw e (subst (λ x. In x set) (eq_of_same t s same) i)
  | inr e ↦ rw e (In-append_right s set (s ∷ []) (inl refl))
]

In-add_to_set_old : (s t : Text) (set : List Text) → In t set → In t (add_to_set set s)
In-add_to_set_old s t set i = elim (Bool-cases (includes set s)) [
  | inl e ↦ rw e i
  | inr e ↦ rw e (In-append_left t set (s ∷ []) i)
]

In-set_old : (t : Text) (keys set : List Text) → In t set → In t (foldl add_to_set set keys)
In-set_old t [] set i = i
In-set_old t (k ∷ keys) set i = In-set_old t keys (add_to_set set k) (In-add_to_set_old k t set i)

pub In-set← : (t : Text) (keys set : List Text) → In t keys → In t (foldl add_to_set set keys)
In-set← t [] set i = absurd i
In-set← t (k ∷ keys) set (inl e) =
    In-set_old t keys (add_to_set set k)
      (subst (λ x. In x (add_to_set set k)) (sym e) (In-add_to_set_new k set))
In-set← t (k ∷ keys) set (inr i) = In-set← t keys (add_to_set set k) i

first_failure→ : (a b : Check) → first_failure a b ≡ passed → (a ≡ passed) × (b ≡ passed)
first_failure→ passed b h = (refl, h)
first_failure→ (not_valid_key k) b h = absurd (cc)
first_failure→ (not_guarded_key k) b h = absurd (cc)
first_failure→ (not_valid_scope s) b h = absurd (cc)

first_failure← : (a b : Check) → a ≡ passed → b ≡ passed → first_failure a b ≡ passed
first_failure← a b h k = rw h k

module _ {V : Type 0} where
  In-keys← :
      (k : Text) (m : Map Text V) (v : V)
      → Map.get text_discrete k m ≡ some v
      → In k (map (λ e. e.0) m)
  unfolding Map.get
  In-keys← k [] v h = absurd (cc)
  In-keys← k ((j, w) ∷ m) v h = elim (text_discrete j k) [
    | yes p ↦ inl (sym p)
    | no p ↦ inr (In-keys← k m v (sym (if_neg (text_discrete j k) p _ _) ∙ h))
  ]

  In-keys→ :
      (k : Text) (m : Map Text V)
      → In k (map (λ e. e.0) m)
      → (v : V) × (Map.get text_discrete k m ≡ some v)
  unfolding Map.get
  In-keys→ k [] i = absurd i
  In-keys→ k ((j, w) ∷ m) i = elim (text_discrete j k) [
    | yes p ↦ (w, if_pos (text_discrete j k) p _ _)
    | no p ↦ elim i [
      | inl e ↦ absurd (p (sym e))
      | inr l ↦ let (v, h) = In-keys→ k m l in (v, if_neg (text_discrete j k) p _ _ ∙ h)
    ]
  ]

module _ {V : Type 0} (scopes : Scopes) (values : Map Text V) (guards : Map Text OneOrMany) where
  check_key→ :
      (k : Text) (v : V)
      → Map.get text_discrete k values ≡ some v
      → check_key scopes values guards k ≡ passed
      → (required : OneOrMany) × (Map.get text_discrete k guards ≡ some required)
        × (match_any scopes required ≡ true)
  unfolding check_key
  check_key→ k v there h = elim (Option-cases (Map.get text_discrete k guards)) [
    | inl e ↦ absurd (ground arith)
    | inr (required, e) ↦ (required, e, ground arith)
  ]

  check_key← :
      (k : Text) (required : OneOrMany)
      → Map.get text_discrete k guards ≡ some required
      → ((v : V) → Map.get text_discrete k values ≡ some v → match_any scopes required ≡ true)
      → check_key scopes values guards k ≡ passed
  unfolding check_key
  check_key← k required there h = elim (Option-cases (Map.get text_discrete k values)) [
    | inl e ↦ rw (there, check_key, e) refl
    | inr (v, e) ↦ let m = h v e in rw (there, check_key, e, m) refl
  ]

  check_keys→ :
      (keys : List Text)
      → check_keys scopes values guards keys ≡ passed
      → (k : Text) → In k keys
      → check_key scopes values guards k ≡ passed
  unfolding check_keys
  check_keys→ [] h k i = absurd i
  check_keys→ (j ∷ keys) h k i =
      let (here, below) = first_failure→ _ _ h in
      elim i [
        | inl e ↦ ap (check_key scopes values guards) e ∙ here
        | inr l ↦ check_keys→ keys below k l
      ]

  check_keys← :
      (keys : List Text)
      → ((k : Text) → In k keys → check_key scopes values guards k ≡ passed)
      → check_keys scopes values guards keys ≡ passed
  unfolding check_keys
  check_keys← [] h = refl
  check_keys← (j ∷ keys) h =
      first_failure← _ _ (h j (inl refl)) (check_keys← keys (λ k i. h k (inr i)))

  abbrev all_keys : List Text
  all_keys = map (λ e. e.0) values ++ map (λ e. e.0) guards

  -- `checkDictionary` passes exactly if every key of the data is in the map of the guards and matches
  -- one of its scopes.
  pub check_dictionary_iff : (check_dictionary scopes values guards ≡ passed) ↔ (
      (k : Text) (v : V)
      → Map.get text_discrete k values ≡ some v
      → (required : OneOrMany) × (Map.get text_discrete k guards ≡ some required)
        × (match_any scopes required ≡ true))
  unfolding check_dictionary
  check_dictionary_iff = (
    λ h k v there. check_key→ k v there (
        check_keys→ _ h k
          (In-set← k all_keys [] (In-append_left k _ _ (In-keys← k values v there)))),
    λ h. check_keys← _ (λ k i. elim (In-set→ k all_keys [] i) [
      | inl j ↦ absurd j
      | inr j ↦ elim (In-append→ k (map (λ e. e.0) values) _ j) [
        | inl l ↦
            let (v, there) = In-keys→ k values l in
            let (required, guarded, m) = h k v there in check_key← k required guarded (λ w e. m)
        | inr l ↦
            let (required, guarded) = In-keys→ k guards l in
            check_key← k required guarded (λ w e. let (r, g, m) = h k w e in ground arith)
      ]
    ]),
  )

  -- What one key of the dictionary that `filterDictionary` builds is.
  abbrev pub filtered : Text → Option OneOrMany → Option (Option V) → Option (Option V)
  filtered k none old = old
  filtered k (some required) old =
      if match_any scopes required then some (Map.get text_discrete k values) else old

  pub filtered→ :
      (k : Text) (guard : Option OneOrMany) (o : Option V)
      → filtered k guard none ≡ some o
      → (required : OneOrMany) × (guard ≡ some required)
        × (match_any scopes required ≡ true)
        × (o ≡ Map.get text_discrete k values)
  filtered→ k none o h = absurd (cc)
  filtered→ k (some required) o h = (required, refl, ground arith, ground arith)

  filter_entry-get_ne :
      (k j : Text) (required : OneOrMany) (obj : Map Text (Option V))
      → k ≢ j
      → Map.get text_discrete k (filter_entry scopes values obj (j, required))
        ≡ Map.get text_discrete k obj
  filter_entry-get_ne k j required obj ne = elim (Bool-cases (match_any scopes required)) [
    | inl e ↦ rw e (Map.get-set_ne text_discrete j k _ obj ne)
    | inr e ↦ rw e refl
  ]

  filter_entry-get_self :
      (j : Text) (required : OneOrMany) (obj : Map Text (Option V))
      → Map.get text_discrete j (filter_entry scopes values obj (j, required))
        ≡ filtered j (some required) (Map.get text_discrete j obj)
  filter_entry-get_self j required obj = elim (Bool-cases (match_any scopes required)) [
    | inl e ↦ rw e (Map.get-set_self text_discrete j _ obj)
    | inr e ↦ rw e refl
  ]

  pub filter_entries-get :
      (k : Text) (m : Map Text OneOrMany) (obj : Map Text (Option V))
      → Map.IsDistinct text_discrete m
      → Map.get text_discrete k (foldl (filter_entry scopes values) obj m)
        ≡ filtered k (Map.get text_discrete k m) (Map.get text_discrete k obj)
  unfolding Map.get
  filter_entries-get k [] obj d = refl
  filter_entries-get k ((j, required) ∷ m) obj d = elim (text_discrete j k) [
    | yes p ↦
        filter_entries-get k m (filter_entry scopes values obj (j, required)) d.1
        ∙ rw (if_pos (text_discrete j k) p, sym (ap (λ x. Map.get text_discrete x m) p) ∙ d.0)
            (ap (λ x. Map.get text_discrete x (filter_entry scopes values obj (j, required)))
                (sym p)
              ∙ filter_entry-get_self j required obj
              ∙ ap (λ x. filtered x (some required) (Map.get text_discrete x obj)) p)
    | no p ↦
        filter_entries-get k m (filter_entry scopes values obj (j, required)) d.1
        ∙ rw (if_neg (text_discrete j k) p, filter_entry-get_ne k j required obj (λ e. p (sym e)))
            refl
  ]

-- After `checkDictionary` has passed, `filterDictionary` with the same map leaves out no key of the
-- data and changes none; and, passed or not, it has no key that is not in the map or matches no scope.
pub filter_dictionary-is_guarded :
    {V : Type 0} (scopes : Scopes) (values : Map Text V) (guards : Map Text OneOrMany)
    → Map.IsDistinct text_discrete guards
    → (check_dictionary scopes values guards ≡ passed
        → (k : Text) (v : V) → Map.get text_discrete k values ≡ some v
        → Map.get text_discrete k (filter_dictionary scopes values guards) ≡ some (some v))
      × ((k : Text) (o : Option V)
          → Map.get text_discrete k (filter_dictionary scopes values guards) ≡ some o
          → (required : OneOrMany) × (Map.get text_discrete k guards ≡ some required)
            × (match_any scopes required ≡ true)
            × (o ≡ Map.get text_discrete k values))
unfolding filter_dictionary Map.get
filter_dictionary-is_guarded scopes values guards d = (
  λ h k v there.
      let (required, guarded, m) = (check_dictionary_iff scopes values guards).0 h k v there in
      filter_entries-get scopes values guards k guards [] d ∙ rw (guarded, m, there) refl,
  λ k o there.
      filtered→ scopes values guards k (Map.get text_discrete k guards) o
        (sym (filter_entries-get scopes values guards k guards [] d) ∙ there),
)
