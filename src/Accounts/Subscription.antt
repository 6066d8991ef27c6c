-- ===== src/Accounts/Subscription.antt =====
-- apps/accounts/backend/users/subscription.js: the class `Subscription`. The current time is an
-- argument, in milliseconds.
use bzd.Prelude.Map
use bzd.Prelude.Map.{Map}
use bzd.Prelude.Text.{Text, text_discrete}
use bzd.Prelude.{
  ℕ, ◌+◌, ◌-◌, ◌≤◌, ◌≡◌, refl, ap, ◌∙◌, Bool, true, false, not, ◌&&◌, Option, none, some, [], ltb,
  ◌==◌, if◌then◌else◌, arith,
}

-- The attribute `duration` or the attribute `end`.
pub data Time : Type 0 where
  duration : ℕ → Time
  ends : ℕ → Time

pub record Subscription : Type 0 where
  pub time : Time
  pub recurring : Option (Map Text ℕ)

-- The constructor: exactly one of `duration` and `end` is given.
unfoldable pub new_subscription : Option ℕ → Option ℕ → Option (Map Text ℕ) → Option Subscription
new_subscription none none recurring = none
new_subscription (some d) none recurring =
    some (record { time = duration d; recurring = recurring })
new_subscription none (some t) recurring = some (record { time = ends t; recurring = recurring })
new_subscription (some d) (some t) recurring = none

unfoldable pub is_started : Subscription → Bool
is_started s = elim s.time [ duration d ↦ false | ends t ↦ true ]

-- Math.max(this.value.end - Date.now(), 0)
abbrev pub time_left : Time → ℕ → ℕ
time_left (duration d) now = d
time_left (ends t) now = t - now

unfoldable pub get_duration : Subscription → ℕ → ℕ
get_duration s now = time_left s.time now

unfoldable pub is_expired : Subscription → ℕ → Bool
unfolding get_duration
is_expired s now = get_duration s now == 0

unfoldable pub is_active : Subscription → ℕ → Bool
unfolding is_started is_expired
is_active s now = is_started s && not (is_expired s now)

unfoldable pub start : Subscription → ℕ → Subscription
start s now = record s { time = elim s.time [ duration d ↦ ends (now + d) | ends t ↦ ends t ] }

unfoldable pub stop : Subscription → ℕ → Subscription
stop s now = record s {
  time = elim s.time [ duration d ↦ duration d | ends t ↦ duration (t - now) ];
}

abbrev pub get_recurring_subscriptions : Subscription → Map Text ℕ
get_recurring_subscriptions s = elim s.recurring [ none ↦ [] | some m ↦ m ]

unfoldable pub sanitize : Subscription → ℕ → Subscription
sanitize s now = record s {
  recurring = some (
      Map.collect text_discrete (λ uid end_ms. if ltb now end_ms then some end_ms else none) []
        (get_recurring_subscriptions s));
}

abbrev pub extend : Time → ℕ → Time
extend (duration d) more = duration (d + more)
extend (ends t) more = ends (t + more)

unfoldable pub add : Subscription → Subscription → ℕ → Subscription
unfolding get_duration sanitize
add s subscription now =
    sanitize
      (record {
        time = extend s.time (get_duration subscription now);
        recurring = some (
            Map.assign text_discrete (get_recurring_subscriptions s)
              (get_recurring_subscriptions subscription));
      })
      now

unfoldable pub add_recurring_subscription : Subscription → Text → ℕ → Subscription
add_recurring_subscription s uid end_ms = record s {
  recurring = some (Map.set text_discrete uid end_ms (get_recurring_subscriptions s));
}

-- The subscription, and whether there was one to stop.
unfoldable pub stop_recurring_subscription : Subscription → Text → Subscription × Bool
stop_recurring_subscription s uid =
    elim (Map.get text_discrete uid (get_recurring_subscriptions s)) [
      | none ↦ (s, false)
      | some end_ms ↦ (
        record s {
          recurring = some (Map.delete text_discrete uid (get_recurring_subscriptions s));
        },
        true,
      )
    ]

-- A subscription that is stopped keeps what is left of it, whatever time passes; started again, it
-- runs down from there, and is active until that is used up.
pub get_duration-start-stop :
    (s : Subscription) (now later again t : ℕ)
    → again ≤ t
    → (get_duration (stop s now) later ≡ get_duration s now)
      × (get_duration (start (stop s now) again) t ≡ get_duration s now - (t - again))
      × (is_active (start (stop s now) again) t ≡ ltb (t - again) (get_duration s now))
unfolding get_duration stop start is_active is_started is_expired
get_duration-start-stop s now later again t le = by_time s.time
  where
    by_time :
        (time : Time)
        → (time_left (elim time [ duration d ↦ duration d | ends t ↦ duration (t - now) ]) later
            ≡ time_left time now)
          × (get_duration (start (stop (record s { time = time }) now) again) t
              ≡ time_left time now - (t - again))
          × (is_active (start (stop (record s { time = time }) now) again) t
              ≡ ltb (t - again) (time_left time now))
    by_time (duration d) = (refl, omega arith, ground arith)
    by_time (ends e) = (refl, omega arith, ground arith)

-- What `sanitize` leaves of the end of a recurring subscription.
abbrev pub unless_over : ℕ → Option ℕ → Option ℕ
unless_over now none = none
unless_over now (some end_ms) = if ltb now end_ms then some end_ms else none

abbrev pub or_else : Option ℕ → Option ℕ → Option ℕ
or_else none other = other
or_else (some t) other = some t

get-sanitize :
    (m : Map Text ℕ) (now : ℕ) (uid : Text)
    → Map.IsDistinct text_discrete m
    → Map.get text_discrete uid (
        Map.collect text_discrete (λ uid end_ms. if ltb now end_ms then some end_ms else none) [] m)
      ≡ unless_over now (Map.get text_discrete uid m)
unfolding Map.get
get-sanitize m now uid d =
    Map.get-collect text_discrete (λ uid end_ms. if ltb now end_ms then some end_ms else none) uid
      [] m d
    ∙ by_end (Map.get text_discrete uid m)
  where
    by_end :
        (o : Option ℕ)
        → Map.collected text_discrete
            (λ uid end_ms. if ltb now end_ms then some end_ms else none)
            uid
            o
            none
          ≡ unless_over now o
    by_end none = refl
    by_end (some t) = ground arith

get-assign :
    (m n : Map Text ℕ) (uid : Text)
    → Map.IsDistinct text_discrete n
    → Map.get text_discrete uid (Map.assign text_discrete m n)
      ≡ or_else (Map.get text_discrete uid n) (Map.get text_discrete uid m)
get-assign m n uid d =
    Map.get-collect text_discrete (λ k v. some v) uid m n d ∙ by_value (Map.get text_discrete uid n)
  where
    by_value :
        (o : Option ℕ)
        → Map.collected text_discrete (λ k v. some v) uid o (Map.get text_discrete uid m)
          ≡ or_else o (Map.get text_discrete uid m)
    by_value none = refl
    by_value (some t) = refl

-- An end that is not over leaves room to add to it.
extend_lem :
    (time : Time) (more now : ℕ)
    → ((t : ℕ) → time ≡ ends t → now ≤ t)
    → time_left (extend time more) now ≡ time_left time now + more
extend_lem (duration d) more now running = refl
extend_lem (ends t) more now running = let le = running t refl in omega arith

-- `add` to a subscription that is not over adds the time that the other one has left, whether it runs
-- or not; the recurring subscriptions are those of both, the other's first, but for those that are over.
pub get_duration-add :
    (s other : Subscription) (now : ℕ)
    → ((t : ℕ) → s.time ≡ ends t → now ≤ t)
    → Map.IsDistinct text_discrete (get_recurring_subscriptions s)
    → Map.IsDistinct text_discrete (get_recurring_subscriptions other)
    → (get_duration (add s other now) now ≡ get_duration s now + get_duration other now)
      × ((uid : Text)
          → Map.get text_discrete uid (get_recurring_subscriptions (add s other now))
            ≡ unless_over now (
                or_else
                  (Map.get text_discrete uid (get_recurring_subscriptions other))
                  (Map.get text_discrete uid (get_recurring_subscriptions s))))
unfolding get_duration add sanitize
get_duration-add s other now running ds d = (
  extend_lem s.time (time_left other.time now) now running,
  λ uid.
      get-sanitize _ now uid (
        Map.collect-IsDistinct text_discrete (λ k v. some v) (get_recurring_subscriptions s)
          (get_recurring_subscriptions other) ds)
      ∙ ap (unless_over now)
          (get-assign (get_recurring_subscriptions s) (get_recurring_subscriptions other) uid d),
)
