-- ===== src/Terminal/Osc.antt =====
-- The system commands of nodejs/vue/components/terminal/frontend/vt100.vue, in a stream that goes on.
use bzd.Prelude.Text.{Text}
use bzd.Prelude.{
  ℕ, ◌≡◌, ◌≢◌, refl, sym, ap, ◌∙◌, inl, inr, Bool, true, Option, none, some, [], ◌∷◌, ◌++◌, ◌==◌,
  any, arith, Bool-cases, Option-cases,
}
use bzd.Terminal.Stream.{
  bell, is_digit, span, unfinished, named, found_osc, until_bell, after_name, osc_at, osc_within,
  match_osc,
}
use bzd.Terminal.Matching.{Text-cases}
use bzd.Terminal.Found.{extend, span-append}

-- (.*?)\x07: with a bell in the text, what follows it does not matter.
until_bell-append :
    (s b params rest : Text)
    → until_bell s ≡ some (params, rest)
    → until_bell (s ++ b) ≡ some (params, rest ++ b)
unfolding until_bell
until_bell-append [] b params rest h = absurd (cc)
until_bell-append (c ∷ s) b params rest h = elim (Option-cases (until_bell s)) [
  | inl nothing ↦ ground (arith, nothing)
  | inr ((more, left), found) ↦
      let ih = until_bell-append s b more left found in ground (arith, ih, found)
]

abbrev is_bell : ℕ → Bool
is_bell c = c == bell

until_bell-none :
    (s b : Text) → until_bell s ≡ none → any is_bell s ≡ true → until_bell (s ++ b) ≡ none
unfolding until_bell
until_bell-none [] b h rings = absurd (cc)
until_bell-none (c ∷ s) b h rings = elim (Option-cases (until_bell s)) [
  | inl nothing ↦ let ih = until_bell-none s b nothing in ground (arith, ih, nothing)
  | inr ((more, left), found) ↦ ground (arith, found)
]

until_bell-rings :
    (s : Text) {found : Text × Text} → until_bell s ≡ some found → any is_bell s ≡ true
unfolding until_bell
until_bell-rings [] h = absurd (cc)
until_bell-rings (c ∷ s) h = elim (Option-cases (until_bell s)) [
  | inl nothing ↦ ground (arith, nothing)
  | inr ((more, left), found) ↦ let ih = until_bell-rings s found in ground (arith, ih)
]

-- A name of digits rings no bell.
span-rings : (s : Text) → any is_bell s ≡ true → any is_bell (span is_digit s).1 ≡ true
unfolding span
span-rings [] h = h
span-rings (c ∷ s) h = elim (Bool-cases (is_digit c)) [
  | inl e ↦ rw (e, span) (span-rings s (ground arith))
  | inr e ↦ rw (e, span) h
]

rings-of-span : (s : Text) → any is_bell (span is_digit s).1 ≡ true → any is_bell s ≡ true
unfolding span
rings-of-span [] h = h
rings-of-span (c ∷ s) h = elim (Bool-cases (is_digit c)) [
  | inl e ↦ let ih = rings-of-span s (rw (e, span) at h) in ground (arith, ih)
  | inr e ↦ rw (e, span) at h
]

after_name-append :
    (s b params rest : Text)
    → after_name s ≡ some (params, rest)
    → after_name (s ++ b) ≡ some (params, rest ++ b)
after_name-append [] b params rest h = absurd (cc)
after_name-append (c ∷ s) b params rest h = elim (Bool-cases (c == b';')) [
  | inl e ↦ rw e (until_bell-append s b params rest (rw e at h))
  | inr e ↦
      let no : ◌≡◌ {A = Option (Text × Text)} none (some (params, rest)) = rw e at h in absurd (cc)
]

after_name-none :
    (s b : Text) → after_name s ≡ none → any is_bell s ≡ true → after_name (s ++ b) ≡ none
after_name-none [] b h rings = absurd (cc)
after_name-none (c ∷ s) b h rings = elim (Bool-cases (c == b';')) [
  | inl e ↦ rw e (until_bell-none s b (rw e at h) (ground (arith)))
  | inr e ↦ rw e refl
]

abbrev pub extend_osc : Text → Option (Text × Text × Text) → Option (Text × Text × Text)
extend_osc b none = none
extend_osc b (some (name, params, rest)) = some (name, params, rest ++ b)

-- With a bell in the stream it is settled whether a match starts here.
found_osc-append :
    (name : Text) (c : ℕ) (rest b : Text)
    → any is_bell (c ∷ rest) ≡ true
    → found_osc (name, c ∷ (rest ++ b)) ≡ extend_osc b (found_osc (name, c ∷ rest))
found_osc-append [] c rest b rings = refl
found_osc-append (d ∷ name) c rest b rings = elim (Option-cases (after_name (c ∷ rest))) [
  | inl nothing ↦
      ap (named (d ∷ name)) (after_name-none (c ∷ rest) b nothing rings)
      ∙ sym (ap (λ f. extend_osc b (named (d ∷ name) f)) nothing)
  | inr ((params, behind), found) ↦
      ap (named (d ∷ name)) (after_name-append (c ∷ rest) b params behind found)
      ∙ sym (ap (λ f. extend_osc b (named (d ∷ name) f)) found)
]

osc_at-append : (s b : Text) → any is_bell s ≡ true → osc_at (s ++ b) ≡ extend_osc b (osc_at s)
unfolding osc_at
osc_at-append s b rings = elim (Text-cases (span is_digit s).1) [
  | inl e ↦
      let left : any is_bell [] ≡ true = sym (ap (any is_bell) e) ∙ span-rings s rings in
      absurd (cc)
  | inr (c, rest, e) ↦
      ap found_osc (span-append is_digit s b c rest e)
      ∙ found_osc-append (span is_digit s).0 c rest b
          (sym (ap (any is_bell) e) ∙ span-rings s rings)
      ∙ sym (ap (λ r. extend_osc b (found_osc ((span is_digit s).0, r))) e)
]

after_name-rings :
    (s : Text) {found : Text × Text} → after_name s ≡ some found → any is_bell s ≡ true
after_name-rings [] h = absurd (cc)
after_name-rings (c ∷ s) {found} h = elim (Bool-cases (c == b';')) [
  | inl e ↦ let below = until_bell-rings s (rw e at h) in ground (arith, below)
  | inr e ↦ let no : ◌≡◌ {A = Option (Text × Text)} none (some found) = rw e at h in absurd (cc)
]

found_osc-rings :
    (name rest : Text) {found : Text × Text × Text}
    → found_osc (name, rest) ≡ some found
    → any is_bell rest ≡ true
found_osc-rings [] rest h = absurd (cc)
found_osc-rings (d ∷ name) rest h = elim (Option-cases (after_name rest)) [
  | inl nothing ↦ absurd (cc)
  | inr (found, at) ↦ after_name-rings rest at
]

osc_at-rings :
    (s : Text) {found : Text × Text × Text} → osc_at s ≡ some found → any is_bell s ≡ true
unfolding osc_at
osc_at-rings s at = rings-of-span s (found_osc-rings (span is_digit s).0 (span is_digit s).1 at)

osc_within-rings : (s : Text) → osc_within s ≡ true → any is_bell s ≡ true
unfolding osc_within
osc_within-rings [] h = absurd (cc)
osc_within-rings (c ∷ s) h = elim (Option-cases (osc_at (c ∷ s))) [
  | inr (found, at) ↦ osc_at-rings (c ∷ s) at
  | inl nothing ↦
      let below = osc_within-rings s (rw (nothing, osc_within) at h) in ground (arith, below)
]

osc_within-append : (s b : Text) → osc_within s ≡ true → osc_within (s ++ b) ≡ true
unfolding osc_within
osc_within-append [] b h = absurd (cc)
osc_within-append (c ∷ s) b h = elim (Option-cases (osc_at (c ∷ s))) [
  | inr (found, at) ↦
      let rings = osc_within-rings (c ∷ s) h in
      let longer : osc_at (c ∷ (s ++ b)) ≡ extend_osc b (some found) =
        osc_at-append (c ∷ s) b rings ∙ ap (extend_osc b) at in
      rw (longer, osc_within) refl
  | inl nothing ↦
      let rings = osc_within-rings (c ∷ s) h in
      let longer : osc_at (c ∷ (s ++ b)) ≡ none =
        osc_at-append (c ∷ s) b rings ∙ ap (extend_osc b) nothing in
      rw (longer, osc_within) (osc_within-append s b (rw (nothing, osc_within) at h))
]

pub match_osc-append :
    (s b : Text) → match_osc s ≢ unfinished → match_osc (s ++ b) ≡ extend b (match_osc s)
unfolding match_osc
match_osc-append s b h = elim (Option-cases (osc_at s)) [
  | inr ((name, params, rest), at) ↦
      let rings = osc_at-rings s at in
      let longer : osc_at (s ++ b) ≡ some (name, params, rest ++ b) =
        osc_at-append s b rings ∙ ap (extend_osc b) at in
      rw (longer, at, match_osc) refl
  | inl nothing ↦ elim (Bool-cases (osc_within s)) [
    | inl within ↦
        let longer : osc_at (s ++ b) ≡ none =
          osc_at-append s b (osc_within-rings s within) ∙ ap (extend_osc b) nothing in
        rw (longer, nothing, match_osc) (rw (osc_within-append s b within, within) refl)
    | inr never ↦ absurd (h (rw (nothing, match_osc) (rw never refl)))
  ]
]
