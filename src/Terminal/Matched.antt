-- ===== src/Terminal/Matched.antt =====
-- The commands that nodejs/vue/components/terminal/frontend/vt100.vue finds, in a stream that goes on.
use mathlib.Core.List
use bzd.Prelude.Text.{Text}
use bzd.Prelude.{
  ℕ, ◌≡◌, ◌≢◌, refl, sym, ap, subst, ◌∙◌, inl, inr, Bool, some, [], ◌∷◌, ◌++◌, ◌==◌, any, arith,
  Bool-cases, Option-cases,
}
use bzd.Terminal.Stream.{
  Category, csi_private, csi, csi8, osc, bell, is_digit, is_param, span, Found, unfinished,
  malformed, matched, match_csi, found_csi, found_private, found_osc, is_ending, match_private,
  until_bell, osc_at, osc_within, match_osc, match_command,
}
use bzd.Terminal.Matching.{IsEnd, Text-cases}
use bzd.Terminal.Found.{extend, span-splits, match_csi-append, match_private-append}
use bzd.Terminal.Osc.{match_osc-append}

-- A command that a stream holds is found whatever follows, and so is the lack of one.
pub match_command-append :
    (k : Category) (s b : Text)
    → match_command k s ≢ unfinished
    → match_command k (s ++ b) ≡ extend b (match_command k s)
unfolding match_command
match_command-append csi_private s b h = match_private-append s b h
match_command-append csi s b h = match_csi-append s b h
match_command-append csi8 s b h = match_csi-append s b h
match_command-append osc s b h = match_osc-append s b h

-- The stream behind a command is an end of the stream.
abbrev pub EndsWithin : Text → Found → Type 0
EndsWithin s unfinished = Unit
EndsWithin s malformed = Unit
EndsWithin s (matched command rest) = IsEnd rest s

IsEnd-cons : (c : ℕ) (rest s : Text) → IsEnd rest s → IsEnd rest (c ∷ s)
IsEnd-cons c rest s (p, e) = (c ∷ p, ap (λ (t : Text). c ∷ t) e)

IsEnd-span :
    (p : ℕ → Bool) (s : Text) (c : ℕ) (rest : Text) → (span p s).1 ≡ c ∷ rest → IsEnd rest s
IsEnd-span p s c rest e = (
  (span p s).0 ++ c ∷ [],
  span-splits p s
      ∙ ap (λ (t : Text). (span p s).0 ++ t) e
      ∙ sym (List.append_assoc (span p s).0 (c ∷ []) rest),
)

until_bell-IsEnd : (s params rest : Text) → until_bell s ≡ some (params, rest) → IsEnd rest s
unfolding until_bell
until_bell-IsEnd [] params rest h = absurd (cc)
until_bell-IsEnd (c ∷ s) params rest h = elim (Option-cases (until_bell s)) [
  | inl nothing ↦ (c ∷ [], ground (arith, nothing))
  | inr ((more, left), found) ↦ elim (Bool-cases (c == bell)) [
    | inl e ↦ (c ∷ [], ground (arith, found))
    | inr e ↦ IsEnd-cons c rest s (
        until_bell-IsEnd s more rest
          (found ∙ ap (λ (r : Text). some (more, r)) (ground (arith, found))))
  ]
]

IsEnd-trans : (a b c : Text) → IsEnd a b → IsEnd b c → IsEnd a c
IsEnd-trans a b c (p, e) (q, f) =
    (q ++ p, f ∙ ap (λ (t : Text). q ++ t) e ∙ sym (List.append_assoc q p a))

found_osc-IsEnd :
    (name rest n params behind : Text)
    → found_osc (name, rest) ≡ some (n, params, behind)
    → IsEnd behind rest
found_osc-IsEnd [] rest n params behind h = absurd (cc)
found_osc-IsEnd (d ∷ name) [] n params behind h = absurd (cc)
found_osc-IsEnd (d ∷ name) (c ∷ rest) n params behind h = elim (Bool-cases (c == b';')) [
  | inr e ↦ absurd (ground (arith, e))
  | inl e ↦ elim (Option-cases (until_bell rest)) [
    | inl nothing ↦ absurd (ground (arith, e, nothing))
    | inr ((p, left), found) ↦ IsEnd-cons c behind rest (
        until_bell-IsEnd rest p behind
          (found ∙ ap (λ (r : Text). some (p, r)) (ground (arith, e, found))))
  ]
]

osc_at-IsEnd : (s name params rest : Text) → osc_at s ≡ some (name, params, rest) → IsEnd rest s
unfolding osc_at
osc_at-IsEnd s name params rest h =
    IsEnd-trans rest (span is_digit s).1 s
      (found_osc-IsEnd (span is_digit s).0 (span is_digit s).1 name params rest h)
      ((span is_digit s).0, span-splits is_digit s)

match_csi-EndsWithin : (s : Text) → EndsWithin s (match_csi s)
unfolding match_csi
match_csi-EndsWithin s = elim (Text-cases (span is_param s).1) [
  | inl e ↦ subst (λ r. EndsWithin s (found_csi ((span is_param s).0, r))) (sym e) tt
  | inr (c, rest, e) ↦
      subst (λ r. EndsWithin s (found_csi ((span is_param s).0, r))) (sym e)
        (IsEnd-span is_param s c rest e)
]

found_private-EndsWithin :
    (s params : Text) (c : ℕ) (rest : Text)
    → IsEnd rest s
    → EndsWithin s (found_private (params, c ∷ rest))
found_private-EndsWithin s params c rest end = elim (Bool-cases (is_ending c)) [
  | inl e ↦ rw e end
  | inr e ↦ rw e (elim (Bool-cases (any is_ending rest)) [ inl f ↦ rw f tt | inr f ↦ rw f tt ])
]

match_private-EndsWithin : (s : Text) → EndsWithin s (match_private s)
unfolding match_private
match_private-EndsWithin s = elim (Text-cases (span is_param s).1) [
  | inl e ↦ subst (λ r. EndsWithin s (found_private ((span is_param s).0, r))) (sym e) tt
  | inr (c, rest, e) ↦
      subst (λ r. EndsWithin s (found_private ((span is_param s).0, r))) (sym e)
        (found_private-EndsWithin s (span is_param s).0 c rest (IsEnd-span is_param s c rest e))
]

match_osc-EndsWithin : (s : Text) → EndsWithin s (match_osc s)
unfolding match_osc
match_osc-EndsWithin s = elim (Option-cases (osc_at s)) [
  | inr ((name, params, rest), at) ↦ rw (at, match_osc) (osc_at-IsEnd s name params rest at)
  | inl nothing ↦
      rw (nothing, match_osc)
        (elim (Bool-cases (osc_within s)) [ inl f ↦ rw f tt | inr f ↦ rw f tt ])
]

pub match_command-EndsWithin : (k : Category) (s : Text) → EndsWithin s (match_command k s)
unfolding match_command
match_command-EndsWithin csi_private s = match_private-EndsWithin s
match_command-EndsWithin csi s = match_csi-EndsWithin s
match_command-EndsWithin csi8 s = match_csi-EndsWithin s
match_command-EndsWithin osc s = match_osc-EndsWithin s

-- Nothing at all is an unfinished command.
pub match_command-nil : (k : Category) → match_command k [] ≡ unfinished
unfolding match_command match_private match_csi match_osc osc_at osc_within span
match_command-nil csi_private = refl
match_command-nil csi = refl
match_command-nil csi8 = refl
match_command-nil osc = refl
