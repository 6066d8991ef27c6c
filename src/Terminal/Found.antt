-- ===== src/Terminal/Found.antt =====
-- What the expressions of the commands find in the start of a stream is found in the stream.
use bzd.Prelude.Text.{Text}
use bzd.Prelude.{
  ℕ, ◌≡◌, ◌≢◌, refl, sym, ap, ◌∙◌, inl, inr, Bool, true, [], ◌∷◌, ◌++◌, any, Bool-cases,
}
use bzd.Terminal.Stream.{
  is_param, span, Found, unfinished, malformed, matched, match_csi, found_csi, found_private,
  is_ending, match_private,
}
use bzd.Terminal.Matching.{Text-cases}

-- The result of a longer stream.
abbrev pub extend : Text → Found → Found
extend b unfinished = unfinished
extend b malformed = malformed
extend b (matched command rest) = matched command (rest ++ b)

pub span-append :
    (p : ℕ → Bool) (s b : Text) (c : ℕ) (rest : Text)
    → (span p s).1 ≡ c ∷ rest
    → span p (s ++ b) ≡ ((span p s).0, c ∷ (rest ++ b))
unfolding span
span-append p [] b c rest h = absurd (cc)
span-append p (d ∷ s) b c rest h = elim (Bool-cases (p d)) [
  | inl e ↦
      let ih = span-append p s b c rest (rw (e, span) at h) in
      rw (e, span) (ap (λ (q : Text × Text). (d ∷ q.0, q.1)) ih)
  | inr e ↦
      let same : d ∷ s ≡ c ∷ rest = rw (e, span) at h in
      rw (e, span) (ap (λ (t : Text). ([], t)) (ap (λ (t : Text). t ++ b) same))
]

pub span-splits : (p : ℕ → Bool) (s : Text) → s ≡ (span p s).0 ++ (span p s).1
unfolding span
span-splits p [] = refl
span-splits p (c ∷ s) = elim (Bool-cases (p c)) [
  | inl e ↦ rw (e, span) (ap (λ (t : Text). c ∷ t) (span-splits p s))
  | inr e ↦ rw (e, span) refl
]

any-append : (p : ℕ → Bool) (s b : Text) → any p s ≡ true → any p (s ++ b) ≡ true
any-append p [] b h = absurd (cc)
any-append p (c ∷ s) b h = elim (Bool-cases (p c)) [
  | inl e ↦ rw e refl
  | inr e ↦ let below : any p s ≡ true = rw e at h in rw e (any-append p s b below)
]

pub match_csi-append :
    (s b : Text) → match_csi s ≢ unfinished → match_csi (s ++ b) ≡ extend b (match_csi s)
unfolding match_csi
match_csi-append s b h = elim (Text-cases (span is_param s).1) [
  | inl e ↦ absurd (h (ap (λ r. found_csi ((span is_param s).0, r)) e))
  | inr (c, rest, e) ↦
      ap found_csi (span-append is_param s b c rest e)
      ∙ sym (ap (λ r. extend b (found_csi ((span is_param s).0, r))) e)
]

found_private-append :
    (params : Text) (c : ℕ) (rest b : Text)
    → found_private (params, c ∷ rest) ≢ unfinished
    → found_private (params, c ∷ (rest ++ b)) ≡ extend b (found_private (params, c ∷ rest))
found_private-append params c rest b h = elim (Bool-cases (is_ending c)) [
  | inl ends ↦ rw ends refl
  | inr goes_on ↦ rw goes_on (elim (Bool-cases (any is_ending rest)) [
    | inl later ↦ rw (any-append is_ending rest b later, later) refl
    | inr never ↦ absurd (h (rw goes_on (rw never refl)))
  ])
]

pub match_private-append :
    (s b : Text)
    → match_private s ≢ unfinished
    → match_private (s ++ b) ≡ extend b (match_private s)
unfolding match_private
match_private-append s b h = elim (Text-cases (span is_param s).1) [
  | inl e ↦ absurd (h (ap (λ r. found_private ((span is_param s).0, r)) e))
  | inr (c, rest, e) ↦
      let at = ap (λ r. found_private ((span is_param s).0, r)) e in
      ap found_private (span-append is_param s b c rest e)
      ∙ found_private-append (span is_param s).0 c rest b (λ u. h (at ∙ u))
      ∙ ap (extend b) (sym at)
]
