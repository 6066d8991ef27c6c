-- ===== src/Tests.antt =====
-- Runs of the definitions on small inputs, and the theorems at inputs that meet their hypotheses.
mod Accounts
mod TimeSeries
mod Cache2
mod Lock
mod Mutex
mod Router
mod Scopes
mod Store
mod Users
mod RateLimiter
mod Terminal
mod Storage
