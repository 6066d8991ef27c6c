-- ===== src/Accounts.antt =====
-- apps/accounts/backend/users: the users, with their subscriptions, tokens and roles.
pub mod Subscription
pub mod Token
pub mod Roles
pub mod User
pub mod Users
pub mod PendingActions
