-- ===== src/Mutex/Drain.antt =====
-- Every callback that waits is called, if those that hold the mutex release it.
use mathlib.Core.List
use bzd.Prelude.{ℕ, ◌≡◌, refl, sym, ◌∙◌, Bool, true, false, List, [], ◌∷◌, ◌++◌, arith}
use bzd.Mutex.{Mutex, release, run_timer, Step, releases, fires, Reachable}
use bzd.Mutex.Steps.{mutex, IsWell, reachable-IsWell}

-- Any number of steps, none of which is a call of `lock`.
pub data Runs : Mutex → Mutex → Type 0 where
  done : (m : Mutex) → Runs m m
  then : (m m' m'' : Mutex) → Step m m' → m'.asked ≡ m.asked → Runs m' m'' → Runs m m''

-- What the steps lead to: every callback that asked was called, and the mutex is open.
abbrev pub Drained : Mutex → Type 0
Drained m = (m' : Mutex) × Runs m m' × (m'.is_lock ≡ false) × (m'.entered ≡ m.asked)

drain : (q : List ℕ) (c : ℕ) (a e : List ℕ) → e ++ q ≡ a → Drained (mutex q true [] (c ∷ []) a e)
unfolding release run_timer
drain [] c a e order =
    let m = mutex [] true [] (c ∷ []) a e in
    (
      mutex [] false [] [] a e,
      then m _ _ (releases m c [] refl) refl (done _),
      refl,
      sym (List.append-nil e) ∙ order,
    )
drain (d ∷ q) c a e order =
    let m = mutex (d ∷ q) true [] (c ∷ []) a e in
    let n = mutex q true (d ∷ []) [] a e in
    let (end, runs, unlocked, all) =
      drain q d a (e ++ d ∷ []) (List.append_assoc e (d ∷ []) q ∙ order) in
    (
      end,
      then m n end (releases m c [] refl) refl (then n _ end (fires n d [] refl) refl runs),
      unlocked,
      all,
    )

-- No callback is forgotten: from every state that can be reached, releases by the holders and timers
-- alone, without another call of `lock`, lead to a state in which the mutex is open and all
-- callbacks given to `lock` so far were called, in the order of their calls.
pub reachable-Drained : (m : Mutex) → Reachable m → Drained m
unfolding run_timer
reachable-Drained m r =
    by_fields m.queue m.is_lock m.timers m.holders m.asked m.entered (reachable-IsWell m r)
  where
    by_fields :
        (q : List ℕ) (b : Bool) (t h a e : List ℕ)
        → IsWell (mutex q b t h a e)
        → Drained (mutex q b t h a e)
    by_fields (c ∷ q) false t h a e w = let n = w.none_waits refl in absurd (cc)
    by_fields [] false (c ∷ t) h a e w = absurd (omega (arith, w.one))
    by_fields [] false [] h a e w = (_, done _, refl, sym (List.append-nil e) ∙ w.in_order)
    by_fields q true [] [] a e w = absurd (omega (arith, w.one))
    by_fields q true [] (c ∷ []) a e w = drain q c a e w.in_order
    by_fields q true [] (c ∷ d ∷ h) a e w = absurd (omega (arith, w.one))
    by_fields q true (c ∷ []) [] a e w =
        let m = mutex q true (c ∷ []) [] a e in
        let (end, runs, unlocked, all) =
          drain q c a (e ++ c ∷ []) (List.append_assoc e (c ∷ []) q ∙ w.in_order) in
        (end, then m _ end (fires m c [] refl) refl runs, unlocked, all)
    by_fields q true (c ∷ []) (d ∷ h) a e w = absurd (omega (arith, w.one))
    by_fields q true (c ∷ d ∷ t) h a e w = absurd (omega (arith, w.one))
