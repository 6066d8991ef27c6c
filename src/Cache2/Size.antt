-- ===== src/Cache2/Size.antt =====
-- The accounting of sizes: a collection's size is that of its entries, and the cache's that of its
-- collections. With it the subtractions of the code never go below zero.
use mathlib.Core.Logic.{if_pos, if_neg}
use bzd.Prelude.Map
use bzd.Prelude.Map.{Map, IsDistinct}
use bzd.Prelude.{ℕ, ◌+◌, ◌≤◌, ◌≡◌, refl, sym, subst, ap, Option, none, some, [], ◌∷◌, arith}
use bzd.Cache2.{Entry, Collection, Cache, Payload, size_or_zero, touch, write_entry}

module _ {ℓ} {K V E : Type ℓ} (dec : Discrete K) where
  unfoldable pub total : Map K (Entry V E) → ℕ
  total [] = 0
  total ((k, e) ∷ m) = e.size + total m

  unfoldable pub total_collections : Map K (Collection K V E) → ℕ
  total_collections [] = 0
  total_collections ((k, d) ∷ m) = d.size + total_collections m

  pub record IsCounted (d : Collection K V E) : Type ℓ where
    pub counted : d.size ≡ total d.values
    pub distinct : IsDistinct dec d.values

  abbrev pub AllCounted : Map K (Collection K V E) → Type ℓ
  AllCounted [] = Unit
  AllCounted ((k, d) ∷ m) = IsCounted d × AllCounted m

  pub record IsAccounted (c : Cache K V E) : Type ℓ where
    pub sum : c.size ≡ total_collections c.collections
    pub each : AllCounted c.collections
    pub distinct : IsDistinct dec c.collections

  -- a map of entries
  total-delete :
      (k : K) (m : Map K (Entry V E))
      → total (Map.delete dec k m) + size_or_zero (Map.get dec k m) ≡ total m
  unfolding total Map.delete Map.get
  total-delete k [] = refl
  total-delete k ((j, e) ∷ m) = ground (arith, total-delete k m)

  total-set :
      (k : K) (e : Entry V E) (m : Map K (Entry V E))
      → total (Map.set dec k e m) + size_or_zero (Map.get dec k m) ≡ total m + e.size
  unfolding total Map.set Map.get
  total-set k e [] = omega arith
  total-set k e ((j, f) ∷ m) = ground (arith, total-set k e m)

  -- a map of collections
  abbrev collection_size : Option (Collection K V E) → ℕ
  collection_size none = 0
  collection_size (some d) = d.size

  pub total_collections-set :
      (k : K) (d : Collection K V E) (m : Map K (Collection K V E))
      → total_collections (Map.set dec k d m) + collection_size (Map.get dec k m)
        ≡ total_collections m + d.size
  unfolding total_collections Map.set Map.get
  total_collections-set k d [] = omega arith
  total_collections-set k d ((j, f) ∷ m) = ground (arith, total_collections-set k d m)

  pub get-IsCounted :
      (k : K) (m : Map K (Collection K V E)) (d : Collection K V E)
      → AllCounted m
      → Map.get dec k m ≡ some d
      → IsCounted d
  unfolding Map.get
  get-IsCounted k [] d a h = absurd (cc)
  get-IsCounted k ((j, f) ∷ m) d a h = elim (dec j k) [
    | yes p ↦ subst IsCounted {x = f} {y = d} (ground arith) a.0
    | no p ↦ get-IsCounted k m d a.1 (ground arith)
  ]

  set-AllCounted :
      (k : K) (d : Collection K V E) (m : Map K (Collection K V E))
      → IsCounted d
      → AllCounted m
      → AllCounted (Map.set dec k d m)
  unfolding Map.set
  set-AllCounted k d [] h a = (h, tt)
  set-AllCounted k d ((j, f) ∷ m) h a = elim (dec j k) [
    | yes p ↦ rw (if_pos _ p) (h, a.1)
    | no p ↦ rw (if_neg _ p) (a.0, set-AllCounted k d m h a.1)
  ]

  -- One collection is replaced, and the cache's size changes by as much.
  replace-IsAccounted :
      (c c' : Cache K V E) (k : K) (d d' : Collection K V E)
      → Map.get dec k c.collections ≡ some d
      → IsCounted d'
      → c'.collections ≡ Map.set dec k d' c.collections
      → c'.size + d.size ≡ c.size + d'.size
      → IsAccounted c
      → IsAccounted c'
  replace-IsAccounted c c' k d d' found counted same size a = record {
    sum = omega (
      arith,
      total_collections-set k d' c.collections,
      ap collection_size found,
      ap total_collections same,
      a.sum,
    );
    each = subst AllCounted (sym same) (set-AllCounted k d' c.collections counted a.each);
    distinct =
        subst (IsDistinct dec) (sym same) (Map.set-IsDistinct dec k d' c.collections a.distinct);
  }

  -- A new collection that is empty.
  pub add-IsAccounted :
      (c : Cache K V E) (k : K) (d : Collection K V E)
      → Map.get dec k c.collections ≡ none
      → d.values ≡ []
      → d.size ≡ 0
      → IsAccounted c
      → IsAccounted (record c { collections = Map.set dec k d c.collections })
  unfolding total
  add-IsAccounted c k d new empty zero_size a = record {
    sum = omega (arith, total_collections-set k d c.collections, ap collection_size new, a.sum);
    each =
        set-AllCounted k d c.collections
          (record { counted = rw empty zero_size; distinct = rw empty tt }) a.each;
    distinct = Map.set-IsDistinct dec k d c.collections a.distinct;
  }

  get-le-total : (k : K) (m : Map K (Entry V E)) → size_or_zero (Map.get dec k m) ≤ total m
  get-le-total k m = omega (arith, total-delete k m)

  size-le :
      (k : K) (m : Map K (Collection K V E)) (d : Collection K V E)
      → Map.get dec k m ≡ some d
      → d.size ≤ total_collections m
  unfolding total_collections Map.get
  size-le k [] d h = absurd (cc)
  size-le k ((j, f) ∷ m) d h = ground (arith, size-le k m d)

  delete-set-IsDistinct :
      (k : K) (e : Entry V E) (m : Map K (Entry V E))
      → IsDistinct dec m
      → IsDistinct dec (Map.set dec k e (Map.delete dec k m))
  delete-set-IsDistinct k e m d =
      Map.set-IsDistinct dec k e (Map.delete dec k m) (Map.delete-IsDistinct dec k m d)

  -- What a touch and a write do to a map of entries: the size changes by the difference.
  total-delete-set :
      (k : K) (e : Entry V E) (m : Map K (Entry V E))
      → IsDistinct dec m
      → total (Map.set dec k e (Map.delete dec k m)) + size_or_zero (Map.get dec k m)
        ≡ total m + e.size
  total-delete-set k e m d = omega (
    arith,
    total-delete k m,
    total-set k e (Map.delete dec k m),
    ap size_or_zero (Map.get-delete_self dec k m d),
  )

  module _ {c : Cache K V E} (a : IsAccounted c) (collection : K) (d : Collection K V E)
      (found : Map.get dec collection c.collections ≡ some d) where
    pub write_entry-IsAccounted :
        (key : K) (payload : Payload V E) (now size : ℕ)
        → IsAccounted (write_entry dec c collection d key payload now size)
    unfolding write_entry
    write_entry-IsAccounted key payload now size =
        let k = get-IsCounted collection c.collections d a.each found in
        let old_le = get-le-total key d.values in
        let d_le = size-le collection c.collections d found in
        replace-IsAccounted c (write_entry dec c collection d key payload now size) collection d _
          found
          (record {
            counted = omega (arith, k.counted, old_le, total-delete-set key _ d.values k.distinct);
            distinct = delete-set-IsDistinct key _ d.values k.distinct;
          })
          refl (omega (arith, k.counted, old_le, d_le, a.sum)) a

    pub touch-IsAccounted :
        (key : K) (entry : Entry V E)
        → Map.get dec key d.values ≡ some entry
        → IsAccounted (touch dec c collection d key entry)
    touch-IsAccounted key entry there =
        let k = get-IsCounted collection c.collections d a.each found in
        replace-IsAccounted c (touch dec c collection d key entry) collection d _ found
          (record {
            counted = omega (
              arith,
              k.counted,
              total-delete-set key entry d.values k.distinct,
              ap size_or_zero there,
            );
            distinct = delete-set-IsDistinct key entry d.values k.distinct;
          })
          refl (omega arith) a

    -- Another entry of the same size in the place of one.
    pub swap_entry-IsAccounted :
        (key : K) (entry : Entry V E)
        → size_or_zero (Map.get dec key d.values) ≡ entry.size
        → IsAccounted (record c {
          collections =
              Map.set dec collection
                (record d { values = Map.set dec key entry d.values })
                c.collections;
        })
    swap_entry-IsAccounted key entry same =
        let k = get-IsCounted collection c.collections d a.each found in
        replace-IsAccounted c _ collection d (record d { values = Map.set dec key entry d.values })
          found
          (record {
            counted = omega (arith, k.counted, total-set key entry d.values, same);
            distinct = Map.set-IsDistinct dec key entry d.values k.distinct;
          })
          refl (omega arith) a
