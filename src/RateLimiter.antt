-- ===== src/RateLimiter.antt =====
-- nodejs/core/rate_limit.js: the class `RateLimiter`, over the cache. Its clock is the system's, which
-- is its default, so that it and the cache see one time. What the cache stores for a key is the list
-- of timestamps; the function that fetches is never called.
pub mod Window
use bzd.Prelude.{
  ℕ, ◌+◌, ◌-◌, Bool, true, false, Option, none, some, List, [], ◌∷◌, ◌++◌, ltb, leb, if◌then◌else◌,
  length, drop, filter_b,
}
use bzd.Cache2.{
  Cache, Payload, value, error, fetching, Outcome, returned, thrown, register, set, get_instant,
}

pub record Config (K : Type 0) : Type 0 where
  pub bucket : K
  pub threshold : ℕ
  pub window_ms : ℕ

-- timestamps.filter((timestamp) => timestamp > now - this.config.windowMs)
abbrev pub recent : ℕ → ℕ → List ℕ → List ℕ
recent window_ms now timestamps = filter_b (λ t. ltb now (t + window_ms)) timestamps

-- entry.timestamps ?? []; the array of a fetch has no such field.
abbrev pub timestamps_of : {E : Type 0} → Payload (List ℕ) E → List ℕ
timestamps_of (value timestamps) = timestamps
timestamps_of (error e) = []
timestamps_of (fetching id) = []

-- Caps the number of timestamps: the first ones are dropped.
abbrev pub cap : ℕ → List ℕ → List ℕ
cap threshold timestamps =
    if ltb threshold (length timestamps)
    then drop (length timestamps - threshold) timestamps
    else timestamps

module _ {K E : Type 0} (dec : Discrete K) (config : Config K) where
  -- The constructor.
  unfoldable pub new_limiter : Cache K (List ℕ) E → Cache K (List ℕ) E × Outcome E (Unit {0})
  new_limiter cache = register dec cache config.bucket (some config.window_ms) none

  -- `isOverLimit`
  unfoldable pub is_over_limit : Cache K (List ℕ) E → K → ℕ → Cache K (List ℕ) E × Outcome E Bool
  is_over_limit cache key now =
      let (read, outcome) = get_instant dec cache config.bucket key now in
      (
        read,
        elim outcome [
          | thrown t ↦ thrown t
          | returned none ↦ returned false
          | returned (some entry) ↦
              returned
                (leb config.threshold (length (recent config.window_ms now (timestamps_of entry))))
        ],
      )

  -- What `record` stores, given what it read.
  abbrev pub next_timestamps : ℕ → Option (Payload (List ℕ) E) → List ℕ
  next_timestamps now entry? = cap config.threshold (
      recent config.window_ms now (elim entry? [ none ↦ [] | some entry ↦ timestamps_of entry ])
      ++ now ∷ [])

  -- `record`
  unfoldable pub record_request : Cache K (List ℕ) E → K → ℕ → Cache K (List ℕ) E × Outcome E Bool
  record_request cache key now =
      let (read, outcome) = get_instant dec cache config.bucket key now in
      elim outcome [
        | thrown t ↦ (read, thrown t)
        | returned entry? ↦
            let next = next_timestamps now entry? in
            let (written, stored) = set dec read config.bucket key (value next) now in
            (
              written,
              elim stored [
                | thrown t ↦ thrown t
                | returned done ↦ returned (ltb (length next) config.threshold)
              ],
            )
      ]

  -- `reset`
  unfoldable pub reset : Cache K (List ℕ) E → K → ℕ → Cache K (List ℕ) E × Outcome E (Unit {0})
  reset cache key now = set dec cache config.bucket key (value []) now
