-- ===== src/Tests/RateLimiter.antt =====
-- Runs of nodejs/core/rate_limit.js, on a cache whose collection 7 is the bucket.
use bzd.Prelude.Map
use bzd.Prelude.{
  ℕ, ◌≡◌, refl, true, false, Option, none, some, List, [], ◌∷◌, length, ℕ_discrete as dec,
}
use bzd.Cache2.{Collection, Cache, Payload, value, until, returned, register, set, get_instant}
use bzd.RateLimiter.{Config, new_limiter, is_over_limit, record_request, reset}

program : Unit {0}
unfolding register set get_instant new_limiter is_over_limit record_request reset Map.get Map.set
    Map.delete dec
program = tt

abbrev config : Config ℕ
config = record { bucket = 7; threshold = 2; window_ms = 10 }

abbrev requests : Collection ℕ (List ℕ) ℕ
requests = record {
  timeout_ms = 10;
  get_size = λ timestamps. length timestamps;
  values =
      (1, record { payload = value (93 ∷ 97 ∷ []); timeout = until 107; size = 2 })
      ∷ (2, record { payload = value (88 ∷ []); timeout = until 98; size = 1 })
      ∷ [];
  size = 3;
}

abbrev cache : Cache ℕ (List ℕ) ℕ
cache = record {
  timeout_ms = 10;
  get_size = λ timestamps. length timestamps;
  max_size = 8;
  collections = (7, requests) ∷ [];
  size = 3;
  trigger = none;
}

answers :
    ((record_request dec config cache 1 104).1 ≡ returned false)
    × ((record_request dec config cache 2 104).1 ≡ returned true)
    × ((record_request dec config cache 3 104).1 ≡ returned true)
    × ((is_over_limit dec config cache 1 102).1 ≡ returned true)
    × ((is_over_limit dec config cache 1 103).1 ≡ returned false)
unfolding program
answers = (refl, refl, refl, refl, refl)

abbrev seen : Option (Payload (List ℕ) ℕ)
seen = some (value (93 ∷ 97 ∷ []))
