-- ===== src/RateLimiter/Window.antt =====
-- What the limiter answers after a request or a reset.
use bzd.Prelude.Map
use bzd.Prelude.Map.{Map}
use bzd.Prelude.{ℕ, Option, none, some, List, [], length, drop, ◌-◌}
use bzd.Cache2.{Payload, value, error, fetching}

-- The requests that the cache has of a key.
abbrev pub known_requests : {E : Type 0} → Option (Payload (List ℕ) E) → List ℕ
known_requests none = []
known_requests (some (value timestamps)) = timestamps
known_requests (some (error e)) = []
known_requests (some (fetching id)) = []

-- The last ones of a list.
abbrev pub last_of : ℕ → List ℕ → List ℕ
last_of n l = drop (length l - n) l
