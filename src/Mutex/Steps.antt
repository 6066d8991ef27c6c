-- ===== src/Mutex/Steps.antt =====
-- Mutual exclusion and the order of entry, by induction on the steps.
use mathlib.Core.List
use bzd.Prelude.{
  ℕ, ◌+◌, ◌≡◌, refl, sym, ap, ◌∙◌, Bool, true, false, List, [], ◌∷◌, ◌++◌, length, length-append,
  arith, if◌then◌else◌,
}
use bzd.Mutex.{
  Mutex, new_mutex, lock, release, run_timer, Step, locks, releases, fires, Reachable, start, step,
}

-- One callback is called or about to be called exactly while the mutex is locked, nothing waits for
-- an open mutex, and the callbacks are called in the order of the calls of `lock`.
pub record IsWell (m : Mutex) : Type 0 where
  pub one : length m.holders + length m.timers ≡ (if m.is_lock then 1 else 0)
  pub none_waits : m.is_lock ≡ false → m.queue ≡ []
  pub in_order : m.entered ++ (m.timers ++ m.queue) ≡ m.asked

-- A mutex by its fields, so that they can be taken apart.
abbrev pub mutex : List ℕ → Bool → List ℕ → List ℕ → List ℕ → List ℕ → Mutex
mutex queue is_lock timers holders asked entered = record {
  queue = queue;
  is_lock = is_lock;
  timers = timers;
  holders = holders;
  asked = asked;
  entered = entered;
}

append_last : (e t q : List ℕ) (c : ℕ) → e ++ (t ++ (q ++ c ∷ [])) ≡ (e ++ (t ++ q)) ++ c ∷ []
append_last e t q c =
    ap (λ l. e ++ l) (sym (List.append_assoc t q (c ∷ [])))
    ∙ sym (List.append_assoc e (t ++ q) (c ∷ []))

append_middle : (e t : List ℕ) (c : ℕ) → (e ++ c ∷ []) ++ t ≡ e ++ c ∷ t
append_middle e t c = List.append_assoc e (c ∷ []) t

lock-IsWell : (m : Mutex) (callback : ℕ) → IsWell m → IsWell (lock m callback)
unfolding lock
lock-IsWell m callback w = by_fields m.queue m.is_lock m.timers m.holders m.asked m.entered w
  where
    by_fields :
        (q : List ℕ) (b : Bool) (t h a e : List ℕ)
        → IsWell (mutex q b t h a e)
        → IsWell (lock (mutex q b t h a e) callback)
    by_fields q true t h a e w = record {
      one = w.one;
      none_waits = λ h. absurd (cc);
      in_order = append_last e t q callback ∙ ap (λ l. l ++ callback ∷ []) w.in_order;
    }
    by_fields (c ∷ q) false t h a e w = let n = w.none_waits refl in absurd (cc)
    by_fields [] false (c ∷ t) h a e w = absurd (omega (arith, w.one))
    by_fields [] false [] h a e w = record {
      one = omega (arith, w.one, length-append h (callback ∷ []));
      none_waits = λ h. absurd (cc);
      in_order =
          List.append-nil _ ∙ ap (λ l. l ++ callback ∷ []) (sym (List.append-nil e) ∙ w.in_order);
    }

release-IsWell :
    (m : Mutex) (callback : ℕ) (rest : List ℕ)
    → m.holders ≡ callback ∷ rest
    → IsWell m
    → IsWell (release (record m { holders = rest }))
unfolding release
release-IsWell m callback rest held w =
    by_fields m.queue m.is_lock m.timers m.asked m.entered (record {
      one = ap (λ l. length l + length m.timers) (sym held) ∙ w.one;
      none_waits = w.none_waits;
      in_order = w.in_order;
    })
  where
    by_fields :
        (q : List ℕ) (b : Bool) (t a e : List ℕ)
        → IsWell (mutex q b t (callback ∷ rest) a e)
        → IsWell (release (mutex q b t rest a e))
    by_fields q false t a e w = absurd (omega (arith, w.one))
    by_fields [] true t a e w = record {
      one = omega (arith, w.one);
      none_waits = λ h. refl;
      in_order = w.in_order;
    }
    by_fields (c ∷ q) true t a e w = record {
      one = omega (arith, w.one, length-append t (c ∷ []));
      none_waits = λ h. absurd (cc);
      in_order = ap (λ l. e ++ l) (append_middle t q c) ∙ w.in_order;
    }

run_timer-IsWell :
    (m : Mutex) (callback : ℕ) (rest : List ℕ)
    → m.timers ≡ callback ∷ rest
    → IsWell m
    → IsWell (run_timer m)
unfolding run_timer
run_timer-IsWell m callback rest due w =
    by_fields m.queue m.is_lock m.timers m.holders m.asked m.entered w
  where
    by_fields :
        (q : List ℕ) (b : Bool) (t h a e : List ℕ)
        → IsWell (mutex q b t h a e)
        → IsWell (run_timer (mutex q b t h a e))
    by_fields q b [] h a e w = w
    by_fields q b (c ∷ t) h a e w = record {
      one = omega (arith, w.one, length-append h (c ∷ []));
      none_waits = w.none_waits;
      in_order = append_middle e (t ++ q) c ∙ w.in_order;
    }

Step-IsWell : (m m' : Mutex) → Step m m' → IsWell m → IsWell m'
Step-IsWell _ _ (locks m callback) w = lock-IsWell m callback w
Step-IsWell _ _ (releases m callback rest held) w = release-IsWell m callback rest held w
Step-IsWell _ _ (fires m callback rest due) w = run_timer-IsWell m callback rest due w

-- In every state that calls of `lock`, releases by holders and timers can reach, at most one callback
-- holds the mutex or is about to, exactly while it is locked; no callback waits for an open
-- mutex; and the callbacks are called in the order of the calls of `lock`, none left out.
pub reachable-IsWell : (m : Mutex) → Reachable m → IsWell m
unfolding new_mutex
reachable-IsWell _ start = record { one = refl; none_waits = λ h. refl; in_order = refl }
reachable-IsWell _ (step m₀ m r s) = Step-IsWell m₀ m s (reachable-IsWell m₀ r)
