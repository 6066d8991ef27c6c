-- ===== src/Terminal/Chunks.antt =====
-- `process` of vt100.vue takes a stream in chunks.
use mathlib.Core.List
use bzd.Prelude.Text.{Text}
use bzd.Prelude.{
  ◌≢◌, ℕ, zero, suc, ◌<◌, ◌≡◌, refl, sym, ap, ◌∙◌, inl, inr, false, none, some, [], ◌++◌, length,
  arith, Option-cases,
}
use bzd.Terminal.{Terminal, Reply, accepted, refused, assertion, type_error, range_error}
use bzd.Terminal.Screen.{write}
use bzd.Terminal.Stream.{
  Category, prefix, find_category, Command, Found, unfinished, malformed, matched, match_command,
}
use bzd.Terminal.Process.{
  handle, finished, thrown_assertion, thrown_type_error, thrown_range_error, go_on, process,
}
use bzd.Terminal.Ready.{write-append}
use bzd.Terminal.Matching.{
  ends_escape, shift, IsEnd-length, IsEnd-ends_escape, find_category-append_none,
  find_category-append_some, find_category-again, find_category-splits, find_category-length,
  find_category-IsEnd, Text-cases,
}
use bzd.Terminal.Found.{extend}
use bzd.Terminal.Matched.{match_command-append, match_command-nil}
use bzd.Terminal.Rounds.{
  Result, Found-cases, behind-IsEnd, process-none, process-unfinished, process-malformed,
  process-matched,
}

-- `process` again, on what it left and the next chunk.
abbrev pub continue : Text → Result → Result
continue b none = none
continue b (some (t, finished rest)) = process t (rest ++ b)
continue b (some (t, thrown_assertion)) = some (t, thrown_assertion)
continue b (some (t, thrown_type_error)) = some (t, thrown_type_error)
continue b (some (t, thrown_range_error)) = some (t, thrown_range_error)

go_on-continue :
    (b : Text) (f g : Terminal → Result) (reply : Terminal × Reply)
    → ((t : Terminal) → f t ≡ continue b (g t))
    → go_on f reply ≡ continue b (go_on g reply)
go_on-continue b f g (t, accepted) h = h t
go_on-continue b f g (t, refused) h = h t
go_on-continue b f g (t, assertion) h = refl
go_on-continue b f g (t, type_error) h = refl
go_on-continue b f g (t, range_error) h = refl

-- A text before the first command is written as if it came alone.
process-shift :
    (t : Terminal) (p b s : Text)
    → s ≡ p ++ b
    → find_category s ≡ shift p (find_category b)
    → process t s ≡ process (write t p) b
process-shift t p b s split found = elim (Option-cases (find_category b)) [
  | inl e ↦
      process-none t s (found ∙ ap (shift p) e)
      ∙ ap (λ u. some (u, finished [])) (ap (write t) split ∙ write-append t p b)
      ∙ sym (process-none (write t p) b e)
  | inr ((before, k, rest), e) ↦
      let at : find_category s ≡ some (p ++ before, k, rest) = found ∙ ap (shift p) e in
      let written = write-append t p before in
      elim (Found-cases (match_command k rest)) [
        | inl u ↦
            process-unfinished t s (p ++ before) k rest at u
            ∙ ap (λ w. some (w, finished (prefix k ++ rest))) written
            ∙ sym (process-unfinished (write t p) b before k rest e u)
        | inr (inl m) ↦
            process-malformed t s (p ++ before) k rest at m
            ∙ ap (λ w. process w rest) written
            ∙ sym (process-malformed (write t p) b before k rest e m)
        | inr (inr (command, behind, m)) ↦
            process-matched t s (p ++ before) k rest command behind at m
            ∙ ap (λ w. go_on (λ next. process next behind) (handle w command)) written
            ∙ sym (process-matched (write t p) b before k rest command behind e m)
      ]
]

-- A first part that has something behind the first command.
module _ (t : Terminal) (a b before : Text) (k : Category) (rest : Text)
    (e : find_category a ≡ some (before, k, rest)) where
  nothing_found : (f : Found) → f ≢ unfinished → match_command k rest ≡ f → rest ≢ []
  nothing_found f h m nothing = h (sym m ∙ ap (match_command k) nothing ∙ match_command-nil k)

  longer_stream :
      (f : Found)
      → f ≢ unfinished
      → match_command k rest ≡ f
      → find_category (a ++ b) ≡ some (before, k, rest ++ b)
  longer_stream f h m = elim (Text-cases rest) [
    | inl nothing ↦ absurd (nothing_found f h m nothing)
    | inr (d, more, cons) ↦
        find_category-append_some a before k d more b
          (e ∙ ap (λ (r : Text). some (before, k, r)) cons)
        ∙ ap (λ (r : Text). some (before, k, r ++ b)) (sym cons)
  ]

  longer_command :
      (f : Found)
      → f ≢ unfinished
      → match_command k rest ≡ f
      → match_command k (rest ++ b) ≡ extend b f
  longer_command f h m = match_command-append k rest b (λ u. h (sym m ∙ u)) ∙ ap (extend b) m

  append_unfinished :
      match_command k rest ≡ unfinished → process t (a ++ b) ≡ continue b (process t a)
  append_unfinished u =
      process-shift t before ((prefix k ++ rest) ++ b) (a ++ b)
        (ap (λ (s : Text). s ++ b) (find_category-splits a before k rest e)
          ∙ List.append_assoc before (prefix k ++ rest) b)
        (find_category-again a before k rest b e)
      ∙ sym (ap (continue b) (process-unfinished t a before k rest e u))

  append_malformed :
      match_command k rest ≡ malformed
      → process (write t before) (rest ++ b) ≡ continue b (process (write t before) rest)
      → process t (a ++ b) ≡ continue b (process t a)
  append_malformed m below =
      process-malformed t (a ++ b) before k (rest ++ b) (longer_stream malformed (λ u. cc) m)
        (longer_command malformed (λ u. cc) m)
      ∙ below
      ∙ sym (ap (continue b) (process-malformed t a before k rest e m))

  append_matched :
      (command : Command) (behind : Text)
      → match_command k rest ≡ matched command behind
      → ((next : Terminal) → process next (behind ++ b) ≡ continue b (process next behind))
      → process t (a ++ b) ≡ continue b (process t a)
  append_matched command behind m below =
      process-matched t (a ++ b) before k (rest ++ b) command (behind ++ b)
        (longer_stream (matched command behind) (λ u. cc) m)
        (longer_command (matched command behind) (λ u. cc) m)
      ∙ go_on-continue b _ (λ next. process next behind) (handle (write t before) command) below
      ∙ sym (ap (continue b) (process-matched t a before k rest command behind e m))

append_within :
    (n : ℕ) (t : Terminal) (a b : Text)
    → length a < n
    → ends_escape a ≡ false
    → process t (a ++ b) ≡ continue b (process t a)
append_within zero t a b less no_escape = absurd (omega arith)
append_within (suc n) t a b less no_escape = elim (Option-cases (find_category a)) [
  | inl e ↦
      process-shift t a b (a ++ b) refl (find_category-append_none a b e no_escape)
      ∙ sym (ap (continue b) (process-none t a e))
  | inr ((before, k, rest), e) ↦
      let shorter = find_category-length a before k rest e in
      let clean = IsEnd-ends_escape rest a (find_category-IsEnd a before k rest e) no_escape in
      elim (Found-cases (match_command k rest)) [
        | inl u ↦ append_unfinished t a b before k rest e u
        | inr (inl m) ↦
            append_malformed t a b before k rest e m
              (append_within n (write t before) rest b (omega (arith, shorter)) clean)
        | inr (inr (command, behind, m)) ↦
            let end = behind-IsEnd k rest command behind m in
            let least = IsEnd-length behind rest end in
            append_matched t a b before k rest e command behind m (λ next.
              append_within n next behind b (omega (arith, shorter, least))
                (IsEnd-ends_escape behind rest end clean))
      ]
]

-- A stream may be cut anywhere but behind an escape character: `process` of the whole is `process` of
-- the first part and then, on what that left and the second part, `process` again. If the first part
-- throws, the whole ends in the same exception, with the same terminal.
pub process-append :
    (t : Terminal) (a b : Text)
    → ends_escape a ≡ false
    → process t (a ++ b) ≡ continue b (process t a)
process-append t a b no_escape = append_within (suc (length a)) t a b (omega arith) no_escape
