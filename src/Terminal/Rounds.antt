-- ===== src/Terminal/Rounds.antt =====
-- The rounds of `process` of vt100.vue, and that its fuel is enough.
use bzd.Prelude.Text.{Text}
use bzd.Prelude.{
  ℕ, zero, suc, ◌<◌, ◌≡◌, refl, sym, ◌∙◌, ◌⊎◌, inl, inr, Option, none, some, [], ◌++◌, length,
  arith, Option-cases,
}
use bzd.Terminal.{Terminal, Reply, accepted, refused, assertion, type_error, range_error}
use bzd.Terminal.Screen.{write}
use bzd.Terminal.Stream.{
  Category, prefix, find_category, Command, Found, unfinished, malformed, matched, match_command,
}
use bzd.Terminal.Process.{handle, Progress, finished, go_on, process_from, process}
use bzd.Terminal.Matching.{IsEnd, IsEnd-length, find_category-length}
use bzd.Terminal.Matched.{match_command-EndsWithin}

abbrev pub Result : Type 0
Result = Option (Terminal × Progress)

pub Found-cases :
    (f : Found)
    → (f ≡ unfinished)
      ⊎ ((f ≡ malformed) ⊎ ((command : Command) × (behind : Text) × (f ≡ matched command behind)))
Found-cases unfinished = inl refl
Found-cases malformed = inr (inl refl)
Found-cases (matched command behind) = inr (inr (command, behind, refl))

pub go_on-eq :
    (f g : Terminal → Result) (reply : Terminal × Reply)
    → ((t : Terminal) → f t ≡ g t)
    → go_on f reply ≡ go_on g reply
go_on-eq f g (t, accepted) h = h t
go_on-eq f g (t, refused) h = h t
go_on-eq f g (t, assertion) h = refl
go_on-eq f g (t, range_error) h = refl
go_on-eq f g (t, type_error) h = refl

-- The rounds of the loop, on fuel.
module _ (fuel : ℕ) (t : Terminal) (s : Text) where
  round-none : find_category s ≡ none → process_from (suc fuel) t s ≡ some (write t s, finished [])
  unfolding process_from
  round-none e = rw (e, process_from) refl

  module _ (before : Text) (k : Category) (rest : Text) where
    round-unfinished :
        find_category s ≡ some (before, k, rest)
        → match_command k rest ≡ unfinished
        → process_from (suc fuel) t s ≡ some (write t before, finished (prefix k ++ rest))
    unfolding process_from
    round-unfinished e f = rw (e, process_from) (rw f refl)

    round-malformed :
        find_category s ≡ some (before, k, rest)
        → match_command k rest ≡ malformed
        → process_from (suc fuel) t s ≡ process_from fuel (write t before) rest
    unfolding process_from
    round-malformed e f = rw (e, process_from) (rw f refl)

    round-matched :
        (command : Command) (behind : Text)
        → find_category s ≡ some (before, k, rest)
        → match_command k rest ≡ matched command behind
        → process_from (suc fuel) t s
          ≡ go_on (λ next. process_from fuel next behind) (handle (write t before) command)
    unfolding process_from
    round-matched command behind e f = rw (e, process_from) (rw f refl)

pub behind-IsEnd :
    (k : Category) (rest : Text) (command : Command) (behind : Text)
    → match_command k rest ≡ matched command behind
    → IsEnd behind rest
behind-IsEnd k rest command behind e = rw e at (match_command-EndsWithin k rest)

-- With more fuel than characters, the amount of it does not matter.
process_from-eq :
    (f g : ℕ) (t : Terminal) (s : Text)
    → length s < f
    → length s < g
    → process_from f t s ≡ process_from g t s
process_from-eq zero g t s p q = absurd (omega arith)
process_from-eq (suc f) zero t s p q = absurd (omega arith)
process_from-eq (suc f) (suc g) t s p q = elim (Option-cases (find_category s)) [
  | inl e ↦ round-none f t s e ∙ sym (round-none g t s e)
  | inr ((before, k, rest), e) ↦
      let less = find_category-length s before k rest e in
      elim (Found-cases (match_command k rest)) [
        | inl u ↦
            round-unfinished f t s before k rest e u
            ∙ sym (round-unfinished g t s before k rest e u)
        | inr (inl m) ↦
            round-malformed f t s before k rest e m
            ∙ process_from-eq f g (write t before) rest (omega (arith, less)) (omega (arith, less))
            ∙ sym (round-malformed g t s before k rest e m)
        | inr (inr (command, behind, m)) ↦
            let shorter = IsEnd-length behind rest (behind-IsEnd k rest command behind m) in
            round-matched f t s before k rest command behind e m
            ∙ go_on-eq _ _ (handle (write t before) command) (λ next.
              process_from-eq f g next behind (omega (arith, less, shorter))
                (omega (arith, less, shorter)))
            ∙ sym (round-matched g t s before k rest command behind e m)
      ]
]

-- The rounds of `process`.
module _ (t : Terminal) (s : Text) where
  pub process-none : find_category s ≡ none → process t s ≡ some (write t s, finished [])
  unfolding process
  process-none e = round-none (length s) t s e

  module _ (before : Text) (k : Category) (rest : Text) where
    pub process-unfinished :
        find_category s ≡ some (before, k, rest)
        → match_command k rest ≡ unfinished
        → process t s ≡ some (write t before, finished (prefix k ++ rest))
    unfolding process
    process-unfinished e f = round-unfinished (length s) t s before k rest e f

    pub process-malformed :
        find_category s ≡ some (before, k, rest)
        → match_command k rest ≡ malformed
        → process t s ≡ process (write t before) rest
    unfolding process
    process-malformed e f =
        let less = find_category-length s before k rest e in
        round-malformed (length s) t s before k rest e f
        ∙ process_from-eq (length s) (suc (length rest)) (write t before) rest less (omega arith)

    pub process-matched :
        (command : Command) (behind : Text)
        → find_category s ≡ some (before, k, rest)
        → match_command k rest ≡ matched command behind
        → process t s ≡ go_on (λ next. process next behind) (handle (write t before) command)
    unfolding process
    process-matched command behind e f =
        let less = find_category-length s before k rest e in
        let shorter = IsEnd-length behind rest (behind-IsEnd k rest command behind f) in
        round-matched (length s) t s before k rest command behind e f
        ∙ go_on-eq _ _ (handle (write t before) command) (λ next.
          process_from-eq (length s) (suc (length behind)) next behind
            (omega (arith, less, shorter)) (omega arith))
