-- ===== src/Lock/Turns.antt =====
-- The steps of nodejs/core/lock.js keep the order of the chain, and the callbacks take turns.
use bzd.Prelude.{
  ℕ, suc, ◌<◌, ◌≡◌, refl, sym, ap, subst, ◌∙◌, inl, inr, Option, none, some, arith, ℕ_discrete,
  ◌==◌, if◌then◌else◌,
}
use bzd.Lock.{
  Outcome, done, failed, Status, waiting, running, called_back, settled, Lock, update,
  settled_outcome, outcome_of, reaction, is_task, settle, Step, acquires, reacts, returns, settles,
  Reachable, start, step,
}
use bzd.Lock.Chain.{
  update_self, update_other, IsSettled, IsFailedBy, IsFirst, IsChain, set_status-IsChain,
  acquire-IsChain,
}

module _ {E : Type 0} where
  -- What is about to change is not settled, and all before it is.
  pub IsFirst-of_outcome :
      (lock : Lock E) (i : ℕ) (r : Outcome E)
      → IsChain lock
      → i < lock.count
      → outcome_of lock (lock.previous i) ≡ some r
      → IsFirst lock.status i
  IsFirst-of_outcome lock i r chain b e = elim (chain.chained i b) [
    | inl (f, before) ↦ before
    | inr (k, c, f) ↦
        let s : settled_outcome (lock.status k) ≡ some r = ap (outcome_of lock) (sym f) ∙ e in
        elim (chain.in_order k (omega arith)) [
          | inl w ↦ let no_way : none ≡ some r = rw w at s in absurd (cc)
          | inr before ↦ λ j d. elim (ℕ_discrete j k) [
            | yes q ↦ subst (λ m. IsSettled (lock.status m)) (sym q) (of_outcome (lock.status k) s)
            | no q ↦ before j (omega arith)
          ]
        ]
  ]
    where
      of_outcome : (status : Status E) → settled_outcome status ≡ some r → IsSettled status
      of_outcome waiting h = absurd (cc)
      of_outcome running h = absurd (cc)
      of_outcome (called_back q) h = absurd (cc)
      of_outcome (settled q) h = tt

  pub IsFirst-of_started :
      (lock : Lock E) (i : ℕ)
      → IsChain lock
      → i < lock.count
      → ¬ (lock.status i ≡ waiting)
      → IsFirst lock.status i
  IsFirst-of_started lock i chain b h = elim (chain.in_order i b) [
    | inl w ↦ absurd (h w)
    | inr before ↦ before
  ]

  pub settle-IsChain :
      (lock : Lock E) (i : ℕ) (r : Outcome E)
      → IsChain lock
      → i < lock.count
      → lock.status i ≡ called_back r
      → IsChain (settle lock i r)
  unfolding settle
  settle-IsChain lock i r chain b s =
      let open_ : ¬ IsSettled (lock.status i) = λ h. subst IsSettled s h in
      let first = IsFirst-of_started lock i chain b (λ w. absurd (cc)) in
      let fails =
        λ (k : ℕ) (e : E) (c : i ≡ suc k) (p : lock.previous (suc k) ≡ some k)
            (t : lock.status k ≡ settled (failed e)).
          settles_as e r (
            subst (IsFailedBy e) (ap lock.status (sym c) ∙ s)
              (chain.failing k e (omega arith) p t)) in
      let now = set_status-IsChain lock i (settled r) chain b open_ first fails in
      record {
        last = elim chain.last [
          | inl (f, all_settled) ↦ absurd (open_ (all_settled i b))
          | inr (n, c, f) ↦ elim (ℕ_discrete n i) [
            | yes e ↦ inl (
              next_task f ∙ is_last n i e,
              λ j d. elim (ℕ_discrete j i) [
                | yes q ↦
                    subst IsSettled
                      (sym (
                        ap (update lock.status i (settled r)) q
                        ∙ update_self lock.status i (settled r)))
                      tt
                | no q ↦
                    subst IsSettled (sym (update_other lock.status i (settled r) j q))
                      (first j (omega arith))
              ],
            )
            | no e ↦ inr (n, c, next_task f ∙ is_not_last n i e)
          ]
        ];
        chained = now.chained;
        in_order = now.in_order;
        failing = now.failing;
      }
    where
      next_task :
          {o : Option ℕ}
          → lock.last_task ≡ o
          → (if is_task lock.last_task i then none else lock.last_task)
            ≡ (if is_task o i then none else o)
      next_task e = ap (λ o. if is_task o i then none else o) e

      is_last : (n i : ℕ) → n ≡ i → (if n == i then none else some n) ≡ none
      is_last n i e = ground arith

      is_not_last : (n i : ℕ) → ¬ (n ≡ i) → (if n == i then none else some n) ≡ some n
      is_not_last n i e = ground arith

      settles_as : (e : E) (r : Outcome E) → IsFailedBy e (called_back r) → IsFailedBy e (settled r)
      settles_as e done h = h
      settles_as e (failed f) h = h

  pub Step-IsChain : (a b : Lock E) → Step a b → IsChain a → IsChain b
  Step-IsChain a b (acquires lock) chain = acquire-IsChain lock chain
  Step-IsChain a b (reacts lock i r c w e) chain =
      set_status-IsChain lock i (reaction r) chain c (λ h. subst IsSettled w h)
        (IsFirst-of_outcome lock i r chain c e)
        (λ k f g p s.
          let outcomes : some r ≡ some (failed f) =
            sym e ∙ ap (outcome_of lock) (ap lock.previous g ∙ p) ∙ ap settled_outcome s in
          let same_outcome : r ≡ failed f = cc in
          subst (λ q. IsFailedBy f (reaction q)) (sym same_outcome) refl)
  Step-IsChain a b (returns lock i r c s) chain =
      set_status-IsChain lock i (called_back r) chain c (λ h. subst IsSettled s h)
        (IsFirst-of_started lock i chain c (λ w. absurd (cc)))
        (λ k e g p t.
          absurd (
            subst (IsFailedBy e) (ap lock.status (sym g) ∙ s)
              (chain.failing k e (omega arith) p t)))
  Step-IsChain a b (settles lock i r c s) chain = settle-IsChain lock i r chain c s

  pub reachable-IsChain : {lock : Lock E} → Reachable lock → IsChain lock
  reachable-IsChain start = record {
    last = inl (refl, λ j b. absurd (omega arith));
    chained = λ i b. absurd (omega arith);
    in_order = λ i b. absurd (omega arith);
    failing = λ k e b p s. absurd (omega arith);
  }
  reachable-IsChain (step a b r s) = Step-IsChain a b s (reachable-IsChain r)

  pub running-before :
      (lock : Lock E) (i j : ℕ)
      → IsChain lock
      → i < lock.count
      → lock.status i ≡ running
      → lock.status j ≡ running
      → ¬ (j < i)
  running-before lock i j chain b s t c =
      subst IsSettled t (IsFirst-of_started lock i chain b (λ w. absurd (cc)) j c)

  -- In every state that calls of `acquire`, ends of callbacks and reactions of promises lead to, no two
  -- callbacks run, and a promise that no longer waits has only settled promises before it: the callbacks
  -- take turns in the order of the calls.
  pub reachable-takes_turns :
      (lock : Lock E)
      → Reachable lock
      → ((i j : ℕ)
          → i < lock.count
          → j < lock.count
          → lock.status i ≡ running
          → lock.status j ≡ running
          → i ≡ j)
        × ((i : ℕ) → i < lock.count → ¬ (lock.status i ≡ waiting) → IsFirst lock.status i)
  reachable-takes_turns lock r =
      let chain = reachable-IsChain r in
      (
        λ i j b c s t.
            let not_before = running-before lock i j chain b s t in
            let not_after = running-before lock j i chain c t s in omega arith,
        λ i b h. IsFirst-of_started lock i chain b h,
      )

  -- In every such state, where a call of `acquire` waited for the promise of the call before, and that
  -- promise failed, its own callback is not run and was not: it still waits, or it fails with the same
  -- error.
  pub reachable-fails_next :
      (lock : Lock E) (k : ℕ) (e : E)
      → Reachable lock
      → suc k < lock.count
      → lock.previous (suc k) ≡ some k
      → lock.status k ≡ settled (failed e)
      → IsFailedBy e (lock.status (suc k))
  reachable-fails_next lock k e r = (reachable-IsChain r).failing k e
