-- ===== src/Lock/Chain.antt =====
-- The order and the failures of the chain of promises of nodejs/core/lock.js.
use bzd.Prelude.{
  ℕ, suc, ◌<◌, ◌≡◌, refl, sym, ap, subst, ◌∙◌, ◌⊎◌, inl, inr, none, some, arith, ℕ_discrete,
}
use bzd.Lock.{
  done, failed, Status, waiting, running, called_back, settled, Lock, update, acquire, set_status,
}

pub update_self : {A : Type 0} (f : ℕ → A) (i : ℕ) (a : A) → update f i a i ≡ a
update_self f i a = ground arith

pub update_other :
    {A : Type 0} (f : ℕ → A) (i : ℕ) (a : A) (j : ℕ) → ¬ (j ≡ i) → update f i a j ≡ f j
update_other f i a j h = ground arith

module _ {E : Type 0} where
  abbrev pub IsSettled : Status E → Type 0
  IsSettled waiting = ⊥
  IsSettled running = ⊥
  IsSettled (called_back r) = ⊥
  IsSettled (settled r) = Unit

  -- Its callback is not run, and it fails with the error or is to fail with it.
  abbrev pub IsFailedBy : E → Status E → Type 0
  IsFailedBy e waiting = Unit
  IsFailedBy e running = ⊥
  IsFailedBy e (called_back done) = ⊥
  IsFailedBy e (called_back (failed f)) = f ≡ e
  IsFailedBy e (settled done) = ⊥
  IsFailedBy e (settled (failed f)) = f ≡ e

  -- All promises before one are settled.
  abbrev pub IsFirst : (ℕ → Status E) → ℕ → Type 0
  IsFirst status i = (j : ℕ) → j < i → IsSettled (status j)

  pub record IsChain (lock : Lock E) : Type 0 where
    pub last :
        ((lock.last_task ≡ none) × IsFirst lock.status lock.count)
        ⊎ ((n : ℕ) × (lock.count ≡ suc n) × (lock.last_task ≡ some n))
    pub chained :
        (i : ℕ)
        → i < lock.count
        → ((lock.previous i ≡ none) × IsFirst lock.status i)
          ⊎ ((k : ℕ) × (i ≡ suc k) × (lock.previous i ≡ some k))
    pub in_order : (i : ℕ) → i < lock.count → (lock.status i ≡ waiting) ⊎ IsFirst lock.status i
    pub failing :
        (k : ℕ) (e : E)
        → suc k < lock.count
        → lock.previous (suc k) ≡ some k
        → lock.status k ≡ settled (failed e)
        → IsFailedBy e (lock.status (suc k))

  pub IsFirst-update :
      (status : ℕ → Status E) (i : ℕ) (x : Status E) (n : ℕ)
      → ¬ IsSettled (status i)
      → IsFirst status n
      → IsFirst (update status i x) n
  IsFirst-update status i x n h first j b = elim (ℕ_discrete j i) [
    | yes e ↦ absurd (h (subst (λ k. IsSettled (status k)) e (first j b)))
    | no e ↦ subst IsSettled (sym (update_other status i x j e)) (first j b)
  ]

  -- A promise that is not settled goes on.
  pub set_status-IsChain :
      (lock : Lock E) (i : ℕ) (x : Status E)
      → IsChain lock
      → i < lock.count
      → ¬ IsSettled (lock.status i)
      → IsFirst lock.status i
      → ((k : ℕ) (e : E)
          → i ≡ suc k
          → lock.previous (suc k) ≡ some k
          → lock.status k ≡ settled (failed e)
          → IsFailedBy e x)
      → IsChain (set_status lock i x)
  set_status-IsChain lock i x chain b open_ first fails = record {
    last = elim chain.last [
      | inl (e, all_settled) ↦ inl (e, IsFirst-update lock.status i x lock.count open_ all_settled)
      | inr last ↦ inr last
    ];
    chained = λ j c. elim (chain.chained j c) [
      | inl (e, before) ↦ inl (e, IsFirst-update lock.status i x j open_ before)
      | inr link ↦ inr link
    ];
    in_order = λ j c. elim (ℕ_discrete j i) [
      | yes e ↦
          inr (IsFirst-update lock.status i x j open_ (subst (IsFirst lock.status) (sym e) first))
      | no e ↦ elim (chain.in_order j c) [
        | inl w ↦ inl (update_other lock.status i x j e ∙ w)
        | inr before ↦ inr (IsFirst-update lock.status i x j open_ before)
      ]
    ];
    failing = λ k e c p s. elim (ℕ_discrete k i) [
      | yes same ↦
          let next_waits : lock.status (suc k) ≡ waiting = elim (chain.in_order (suc k) c) [
            | inl w ↦ w
            | inr before ↦
                absurd
                  (open_ (subst (λ n. IsSettled (lock.status n)) same (before k (omega arith))))
          ] in
          subst (IsFailedBy e)
            (sym (update_other lock.status i x (suc k) (λ q. omega arith) ∙ next_waits)) tt
      | no other ↦
          let failed_before = sym (update_other lock.status i x k other) ∙ s in
          elim (ℕ_discrete (suc k) i) [
            | yes same ↦
                subst (IsFailedBy e)
                  (sym (ap (update lock.status i x) same ∙ update_self lock.status i x))
                  (fails k e (sym same) p failed_before)
            | no not_next ↦
                subst (IsFailedBy e) (sym (update_other lock.status i x (suc k) not_next))
                  (chain.failing k e c p failed_before)
          ]
    ];
  }

  pub IsFirst-later :
      (status : ℕ → Status E) (i : ℕ) (x : Status E) (n : ℕ)
      → n < suc i
      → IsFirst status n
      → IsFirst (update status i x) n
  IsFirst-later status i x n b first j c =
      subst IsSettled (sym (update_other status i x j (λ e. omega arith))) (first j c)

  pub acquire-IsChain : (lock : Lock E) → IsChain lock → IsChain (acquire lock)
  unfolding acquire
  acquire-IsChain lock chain =
      let n = lock.count in
      record {
        last = inr (n, omega arith, refl);
        chained = λ i b. elim (ℕ_discrete i n) [
          | yes e ↦
              let mine : update lock.previous n lock.last_task i ≡ lock.last_task =
                ap (update lock.previous n lock.last_task) e
                ∙ update_self lock.previous n lock.last_task in
              elim chain.last [
                | inl (f, all_settled) ↦ inl (
                  mine ∙ f,
                  IsFirst-later lock.status n waiting i (omega arith)
                      (λ j c. all_settled j (omega arith)),
                )
                | inr (k, c, f) ↦ inr (k, e ∙ c, mine ∙ f)
              ]
          | no e ↦
              let same = update_other lock.previous n lock.last_task i e in
              elim (chain.chained i (omega arith)) [
                | inl (f, before) ↦
                    inl (same ∙ f, IsFirst-later lock.status n waiting i (omega arith) before)
                | inr (k, c, f) ↦ inr (k, c, same ∙ f)
              ]
        ];
        in_order = λ i b. elim (ℕ_discrete i n) [
          | yes e ↦ inl (ap (update lock.status n waiting) e ∙ update_self lock.status n waiting)
          | no e ↦ elim (chain.in_order i (omega arith)) [
            | inl w ↦ inl (update_other lock.status n waiting i e ∙ w)
            | inr before ↦ inr (IsFirst-later lock.status n waiting i (omega arith) before)
          ]
        ];
        failing = λ k e b p s. elim (ℕ_discrete (suc k) n) [
          | yes same ↦
              subst (IsFailedBy e)
                (sym (ap (update lock.status n waiting) same ∙ update_self lock.status n waiting))
                tt
          | no other ↦
              subst (IsFailedBy e) (sym (update_other lock.status n waiting (suc k) other)) (
                chain.failing k e (omega arith)
                  (sym (update_other lock.previous n lock.last_task (suc k) other) ∙ p)
                  (sym (update_other lock.status n waiting k (λ q. omega arith)) ∙ s))
        ];
      }
