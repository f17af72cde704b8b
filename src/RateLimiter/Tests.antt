-- ===== src/RateLimiter/Tests.antt =====
-- Runs of the rate limits with the default budget and in-process counters.
use Prim.Native.String.{String}
use clicked.Prelude.{ℕ, ◌≡◌, ◌≤◌, ◌<◌, refl, Option, none, false, List, [], ◌∷◌, arith}
use clicked.RateLimits.{RateLimitBucket, Environment, get_rate_limit_rule}
use clicked.RateLimits.Positive.{get_rate_limit_rule-positive}
use clicked.RateLimiter.{Request, consume_rate_limit, counter_key}
use clicked.RateLimiter.Budget.{spent, counters_after, IsLocalTrace}
use clicked.RateLimiter.Limit.{admitted, rule_in, consume_rate_limit-used, admitted_within_limit}

abbrev no_number : String → Option ℕ
no_number s = none

abbrev unsplit : String → String × Option String
unsplit s = (s, none)

abbrev unset : Environment
unset = record { override = λ b. none; socket_rate_limit_per_sec = none }

abbrev request : ℕ → Request
request now = record {
  bucket = RateLimitBucket.auth_verify;
  identifier = 10;
  cost = 1;
  now = now;
  reply = none;
}

abbrev earlier : List Request
earlier = request 2000 ∷ request 1000 ∷ []

trace : IsLocalTrace (rule_in no_number unsplit unset) (request 3000 ∷ earlier) 3000
unfolding IsLocalTrace
trace = (refl, omega arith, (refl, omega arith, (refl, omega arith, tt)))

get_rate_limit_rule-positive_example :
    (0 < (get_rate_limit_rule no_number unsplit unset RateLimitBucket.auth_verify).limit)
    × (0 < (get_rate_limit_rule no_number unsplit unset RateLimitBucket.auth_verify).window_seconds)
get_rate_limit_rule-positive_example =
    get_rate_limit_rule-positive no_number unsplit unset RateLimitBucket.auth_verify

consume_rate_limit-used_example :
    (consume_rate_limit
      (rule_in no_number unsplit unset)
      false
      (counters_after (rule_in no_number unsplit unset) earlier)
      (request 3000)).0.used
    ≡ spent
        (rule_in no_number unsplit unset)
        (counter_key (rule_in no_number unsplit unset) false RateLimitBucket.auth_verify 10 3000)
        (request 3000 ∷ earlier)
consume_rate_limit-used_example =
    consume_rate_limit-used no_number unsplit unset (request 3000) earlier trace

admitted_within_limit_example :
    admitted
      (rule_in no_number unsplit unset)
      (record { bucket = RateLimitBucket.auth_verify; window = 0; identifier = 10 })
      (request 3000 ∷ earlier)
    ≤ (rule_in no_number unsplit unset RateLimitBucket.auth_verify).limit
admitted_within_limit_example =
    admitted_within_limit no_number unsplit unset
      (record { bucket = RateLimitBucket.auth_verify; window = 0; identifier = 10 })
      (request 3000 ∷ earlier) 3000 trace
