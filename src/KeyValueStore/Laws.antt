-- ===== src/KeyValueStore/Laws.antt =====
-- The store in memory is a map from buckets and keys to values.
use bzd.Prelude.Map
use bzd.Prelude.Map.{Map}
use bzd.Prelude.Text.{Text, text_discrete}
use bzd.Prelude.{◌≡◌, ◌≢◌, refl, sym, ap, subst, ◌∙◌, Option, none, some, []}
use bzd.KeyValueStore.{Buckets, or_empty, bucket_of, set_value, get_value, delete_value}

-- No key twice in any bucket.
abbrev pub AllDistinct : {V : Type 0} → Buckets V → Type 0
AllDistinct buckets = (bucket : Text) → Map.IsDistinct text_discrete (bucket_of buckets bucket)

module _ {V : Type 0} (buckets : Buckets V) (bucket key : Text) where
  bucket_of-set_self :
      (m : Map Text V) → bucket_of (Map.set text_discrete bucket m buckets) bucket ≡ m
  bucket_of-set_self m = ap or_empty (Map.get-set_self text_discrete bucket m buckets)

  bucket_of-set_ne :
      (m : Map Text V) (other : Text)
      → other ≢ bucket
      → bucket_of (Map.set text_discrete bucket m buckets) other ≡ bucket_of buckets other
  bucket_of-set_ne m other ne = ap or_empty (Map.get-set_ne text_discrete bucket other m buckets ne)

  -- A change of the bucket that changes one key changes what is read in one place.
  get_value-other :
      (m : Map Text V)
      → ((k : Text) → k ≢ key → Map.get text_discrete k m ≡ get_value buckets bucket k)
      → (b k : Text) → ¬ ((b ≡ bucket) × (k ≡ key))
      → get_value (Map.set text_discrete bucket m buckets) b k ≡ get_value buckets b k
  unfolding get_value
  get_value-other m keeps b k other = elim (text_discrete b bucket) [
    | yes p ↦
        ap (λ x. Map.get text_discrete k (bucket_of (Map.set text_discrete bucket m buckets) x)) p
        ∙ ap (Map.get text_discrete k) (bucket_of-set_self m)
        ∙ keeps k (λ q. other (p, q))
        ∙ ap (λ x. Map.get text_discrete k (bucket_of buckets x)) (sym p)
    | no p ↦ ap (Map.get text_discrete k) (bucket_of-set_ne m b p)
  ]

  -- `set` under a key is read back, and changes what is read in no other place.
  pub get_value-set_value :
      (new_uid : Text) (v : V)
      → (get_value (set_value buckets bucket (some key) new_uid v).0 bucket key ≡ some v)
        × ((b k : Text)
            → ¬ ((b ≡ bucket) × (k ≡ key))
            → get_value (set_value buckets bucket (some key) new_uid v).0 b k
              ≡ get_value buckets b k)
  unfolding get_value set_value
  get_value-set_value new_uid v =
      let m = Map.set text_discrete key v (bucket_of buckets bucket) in
      (
        ap (Map.get text_discrete key) (bucket_of-set_self m)
            ∙ Map.get-set_self text_discrete key v (bucket_of buckets bucket),
        get_value-other m
            (λ k ne. Map.get-set_ne text_discrete key k v (bucket_of buckets bucket) ne),
      )

  -- `delete` leaves nothing to read under the key, and changes what is read in no other place.
  pub get_value-delete_value :
      Map.IsDistinct text_discrete (bucket_of buckets bucket)
      → (get_value (delete_value buckets bucket key) bucket key ≡ none)
        × ((b k : Text)
            → ¬ ((b ≡ bucket) × (k ≡ key))
            → get_value (delete_value buckets bucket key) b k ≡ get_value buckets b k)
  unfolding get_value delete_value Map.get
  get_value-delete_value d = by_bucket (Map.get text_discrete bucket buckets) refl
    where
      deleted : Option (Map Text V) → Buckets V
      deleted o = elim o [
        | none ↦ buckets
        | some m ↦ Map.set text_discrete bucket (Map.delete text_discrete key m) buckets
      ]

      by_bucket :
          (o : Option (Map Text V))
          → Map.get text_discrete bucket buckets ≡ o
          → (get_value (deleted o) bucket key ≡ none)
            × ((b k : Text)
                → ¬ ((b ≡ bucket) × (k ≡ key))
                → get_value (deleted o) b k ≡ get_value buckets b k)
      by_bucket none e =
          (ap (λ o. Map.get text_discrete key (or_empty o)) e ∙ empty, λ b k other. refl)
        where
          empty : Map.get {V = V} text_discrete key [] ≡ none
          empty = refl
      by_bucket (some m) e =
          let rest = Map.delete text_discrete key m in
          (
            ap (Map.get text_discrete key) (bucket_of-set_self rest)
                ∙ Map.get-delete_self text_discrete key m
                    (subst (Map.IsDistinct text_discrete) (ap or_empty e) d),
            get_value-other rest (λ k ne.
                Map.get-delete_ne text_discrete key k m ne
                ∙ ap (λ o. Map.get text_discrete k (or_empty o)) (sym e)),
          )

  pub set_value-IsDistinct :
      (new_uid : Text) (v : V)
      → Map.IsDistinct text_discrete (bucket_of buckets bucket)
      → Map.IsDistinct text_discrete
          (bucket_of (set_value buckets bucket (some key) new_uid v).0 bucket)
  unfolding set_value
  set_value-IsDistinct new_uid v d =
      subst (Map.IsDistinct text_discrete) (sym (bucket_of-set_self _))
        (Map.set-IsDistinct text_discrete key v (bucket_of buckets bucket) d)

  pub delete_value-IsDistinct :
      Map.IsDistinct text_discrete (bucket_of buckets bucket)
      → Map.IsDistinct text_discrete (bucket_of (delete_value buckets bucket key) bucket)
  unfolding delete_value
  delete_value-IsDistinct d = by_bucket (Map.get text_discrete bucket buckets) refl
    where
      by_bucket :
          (o : Option (Map Text V))
          → Map.get text_discrete bucket buckets ≡ o
          → Map.IsDistinct text_discrete (
              bucket_of
                (elim o [
                  | none ↦ buckets
                  | some m ↦ Map.set text_discrete bucket (Map.delete text_discrete key m) buckets
                ])
                bucket)
      by_bucket none e = d
      by_bucket (some m) e =
          subst (Map.IsDistinct text_discrete)
            (sym (bucket_of-set_self (Map.delete text_discrete key m)))
            (Map.delete-IsDistinct text_discrete key m
              (subst (Map.IsDistinct text_discrete) (ap or_empty e) d))
