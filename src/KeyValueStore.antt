-- ===== src/KeyValueStore.antt =====
-- nodejs/db/key_value_store (key_value_store.js, memory.js) and the paging of nodejs/db/utils.js: the
-- store in memory, its pages, and the iterator over them.
pub mod Pages
pub mod Laws
use mathlib.Core.List.{foldl}
use bzd.Prelude.Map
use bzd.Prelude.Map.{Map}
use bzd.Prelude.Text.{Text, codes, text_discrete}
use bzd.Prelude.{
  ℕ, zero, suc, ◌+◌, ◌*◌, ◌-◌, Bool, true, false, Option, none, some, List, [], ◌∷◌, ◌++◌, map, ltb,
  leb, ◌==◌, if◌then◌else◌, ◌>>=◌, length, take, drop,
}

pub record Paging : Type 0 where
  pub page : ℕ
  pub max : ℕ

-- `CollectionPaging`: the data and the next page, if there is one.
pub record CollectionPaging (A : Type 0) : Type 0 where
  pub items : A
  pub next_paging : Option Paging

module _ {A : Type 0} where
  -- list.slice(start, end)
  abbrev pub slice : List A → ℕ → ℕ → List A
  slice list start end = take (end - start) (drop start list)

  -- `makeFromList`, with the callback that returns its argument.
  unfoldable pub make_from_list : List A → Paging → CollectionPaging (List A)
  make_from_list list paging =
      let index_start = paging.page * paging.max in
      let index_end = index_start + paging.max in
      record {
        items = slice list index_start index_end;
        next_paging =
            if leb (length list) index_end
            then none
            else some (record { page = paging.page + 1; max = paging.max });
      }

-- The order of `sort`, by code units.
abbrev pub text_leb : Text → Text → Bool
text_leb [] t = true
text_leb (c ∷ s) [] = false
text_leb (c ∷ s) (d ∷ t) = if ltb c d then true else if c == d then text_leb s t else false

pub insert_text : Text → List Text → List Text
insert_text s [] = s ∷ []
insert_text s (t ∷ rest) = if text_leb s t then s ∷ t ∷ rest else t ∷ insert_text s rest

pub sort_texts : List Text → List Text
unfolding insert_text
sort_texts [] = []
sort_texts (s ∷ rest) = insert_text s (sort_texts rest)

-- The buckets of the store in memory.
abbrev pub Buckets : Type 0 → Type 0
Buckets V = Map Text (Map Text V)

module _ {V : Type 0} where
  -- The object that `reduce` makes of keys.
  abbrev pub pick : Map Text V → Map Text V → Text → Map Text V
  pick values obj key = elim (Map.get text_discrete key values) [
    | none ↦ obj
    | some v ↦ Map.set text_discrete key v obj
  ]

  unfoldable pub make_from_object : Map Text V → Paging → CollectionPaging (Map Text V)
  unfolding make_from_list sort_texts
  make_from_object values paging =
      let result = make_from_list (sort_texts (map (λ e. e.0) values)) paging in
      record { items = foldl (pick values) [] result.items; next_paging = result.next_paging }

  abbrev pub or_empty : Option (Map Text V) → Map Text V
  or_empty none = []
  or_empty (some m) = m

  -- A bucket that is missing reads as an empty one.
  abbrev pub bucket_of : Buckets V → Text → Map Text V
  bucket_of buckets bucket = or_empty (Map.get text_discrete bucket buckets)

  -- `_setImpl`; without a key it makes a new one, which it returns, but it stores under the text of
  -- `null`.
  unfoldable pub set_value : Buckets V → Text → Option Text → Text → V → Buckets V × Text
  set_value buckets bucket key new_uid v = (
    Map.set text_discrete bucket
        (Map.set text_discrete (elim key [ none ↦ codes "null" | some k ↦ k ]) v
          (bucket_of buckets bucket))
        buckets,
    elim key [ none ↦ new_uid | some k ↦ k ],
  )

  -- `_getImpl`; `none` is the default value.
  unfoldable pub get_value : Buckets V → Text → Text → Option V
  get_value buckets bucket key = Map.get text_discrete key (bucket_of buckets bucket)

  unfoldable pub count : Buckets V → Text → ℕ
  count buckets bucket = length (bucket_of buckets bucket)

  -- `_updateImpl`, whose modifier may throw.
  unfoldable pub update : Buckets V → Text → Text → (Option V → Option V) → Option (Buckets V)
  unfolding get_value set_value
  update buckets bucket key modifier = do
    v ← modifier (get_value buckets bucket key)
    some (set_value buckets bucket (some key) key v).0

  unfoldable pub list_values : Buckets V → Text → Paging → CollectionPaging (Map Text V)
  unfolding make_from_object
  list_values buckets bucket paging = make_from_object (bucket_of buckets bucket) paging

  unfoldable pub delete_value : Buckets V → Text → Text → Buckets V
  delete_value buckets bucket key = elim (Map.get text_discrete bucket buckets) [
    | none ↦ buckets
    | some m ↦ Map.set text_discrete bucket (Map.delete text_discrete key m) buckets
  ]

-- The loop of `makeIterator` over pages; `none` is a loop that has not ended within the fuel.
pub iterate : {A : Type 0} → ℕ → (Paging → CollectionPaging (List A)) → Paging → Option (List A)
iterate zero generator paging = none
iterate (suc fuel) generator paging =
    let result = generator paging in
    elim result.next_paging [
      | none ↦ some result.items
      | some next ↦ do rest ← iterate fuel generator next; some (result.items ++ rest)
    ]

-- `dump`, which reads pages of 50; each page has a key at least.
unfoldable pub dump : {V : Type 0} → Buckets V → Text → Option (Map Text V)
unfolding iterate list_values
dump buckets bucket = do
  entries ←
      iterate (suc (count buckets bucket)) (λ paging. list_values buckets bucket paging)
        (record { page = 0; max = 50 })
  some (foldl (λ obj (k, v). Map.set text_discrete k v obj) [] entries)
