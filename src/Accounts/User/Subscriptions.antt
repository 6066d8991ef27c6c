-- ===== src/Accounts/User/Subscriptions.antt =====
-- The subscriptions of the class `User`, each under the application it is for.
use mathlib.Core.List.{foldl}
use bzd.Prelude.Map
use bzd.Prelude.Map.{Map}
use bzd.Prelude.Text.{Text, text_discrete}
use bzd.Prelude.{ℕ, ◌≡◌, ◌≢◌, Option, none, some, List, [], ◌∷◌, ◌++◌, if◌then◌else◌}
use bzd.Accounts.Subscription
use bzd.Accounts.Subscription.{Subscription, stop_recurring_subscription}
use bzd.Accounts.User.{
  User, Change, subscriptions, subscription_added, recurring_stopped, create_dummy, modify,
  get_or_empty,
}

abbrev pub get_subscriptions : User → Map Text Subscription
get_subscriptions u = get_or_empty u.value.subscriptions

abbrev pub with_subscriptions : User → Map Text Subscription → User
with_subscriptions u map = record u { value = record (u.value) { subscriptions = some map } }

-- `getSubscription`; `none` is the exception or, if that is allowed, `null`.
unfoldable pub get_subscription : User → Text → Option Subscription
get_subscription u application = Map.get text_discrete application (get_subscriptions u)

-- A subscription that is there is extended in place.
unfoldable pub add_subscription : ℕ → User → Text → Subscription → User
unfolding get_subscription
add_subscription now u application subscription =
    modify
      (with_subscriptions u (
        Map.set text_discrete application
          (elim (get_subscription u application) [
            | some original ↦ Subscription.add original subscription now
            | none ↦ subscription
          ])
          (get_subscriptions u)))
      (subscription_added application)

unfoldable pub set_subscriptions : User → Map Text Subscription → ℕ → User
set_subscriptions u all now =
    let dummy =
      foldl (λ v (application, s). add_subscription now v application s) (create_dummy now) all in
    record (with_subscriptions u (get_subscriptions dummy)) {
      modified = u.modified ++ subscriptions ∷ dummy.modified;
    }

-- The loop of `stopRecurringSubscription`: the subscriptions, and what goes to `modified`.
pub stop_in_entries : Text → Map Text Subscription → Map Text Subscription × List Change
stop_in_entries uid [] = ([], [])
stop_in_entries uid ((application, s) ∷ rest) =
    let (stopped, found) = stop_recurring_subscription s uid in
    let (others, changes) = stop_in_entries uid rest in
    (
      (application, stopped) ∷ others,
      if found then recurring_stopped application ∷ changes else changes,
    )

unfoldable pub stop_recurring : User → Text → User
unfolding stop_in_entries
stop_recurring u uid = elim u.value.subscriptions [
  | none ↦ u
  | some all ↦
      let (stopped, changes) = stop_in_entries uid all in
      record (with_subscriptions u stopped) { modified = u.modified ++ changes }
]

-- `addSubscription` extends the subscription that the application has, or is the first one; it changes
-- that of no other application.
pub get_subscription-add_subscription :
    (now : ℕ) (u : User) (application : Text) (subscription : Subscription) (other : Text)
    → (get_subscription (add_subscription now u application subscription) application
        ≡ some (elim (get_subscription u application) [
          | some original ↦ Subscription.add original subscription now
          | none ↦ subscription
        ]))
      × (other ≢ application
          → get_subscription (add_subscription now u application subscription) other
            ≡ get_subscription u other)
unfolding get_subscription add_subscription
get_subscription-add_subscription now u application subscription other = (
  Map.get-set_self text_discrete application _ (get_subscriptions u),
  λ ne. Map.get-set_ne text_discrete application other _ (get_subscriptions u) ne,
)
