-- ===== src/RateLimiter/Limit.antt =====
-- What the budget of config/rateLimits.ts admits while the counters are in-process.
use Prim.Native.String.{String}
use clicked.Prelude.{
  ℕ, ◌+◌, ◌≤◌, ◌<◌, ◌≡◌, subst, Option, Bool, true, false, List, [], ◌∷◌, ◌&&◌, if◌then◌else◌,
  arith, Bool-cases, inl, inr,
}
use clicked.RateLimits.{RateLimitBucket, RateLimitRule, Environment, get_rate_limit_rule}
use clicked.RateLimits.Positive.{get_rate_limit_rule-positive}
use clicked.RateLimiter.{
  CounterKey, LocalCounter, same_key, Request, counter_key, consume_rate_limit,
}
use clicked.RateLimiter.Window.{same_key→≡}
use clicked.RateLimiter.Budget.{spent, spent-same, key_of, counters_after, IsLocalTrace, used-spent}

module _ (get_rule : RateLimitBucket → RateLimitRule) where
  abbrev is_allowed : List Request → Request → Bool
  is_allowed rs r = (consume_rate_limit get_rule false (counters_after get_rule rs) r).0.allowed

  -- What the admitted ones of a list of requests, the latest first, cost a counter.
  unfoldable pub admitted : CounterKey → List Request → ℕ
  admitted key [] = 0
  admitted key (r ∷ rs) =
      if same_key (counter_key get_rule false r.bucket r.identifier r.now) key && is_allowed rs r
      then r.cost + admitted key rs
      else admitted key rs

  admitted-le-spent :
      (key : CounterKey) (rs : List Request) → admitted key rs ≤ spent get_rule key rs
  unfolding admitted spent
  admitted-le-spent key [] = omega arith
  admitted-le-spent key (r ∷ rs) = ground (arith, admitted-le-spent key rs)

  allowed-used :
      (cs : List LocalCounter) (r : Request)
      → (consume_rate_limit get_rule false cs r).0.allowed ≡ true
      → (consume_rate_limit get_rule false cs r).0.used ≤ (get_rule r.bucket).limit
  unfolding consume_rate_limit
  allowed-used cs r h = ground arith

  admitted_le_limit :
      ((b : RateLimitBucket) → 0 < (get_rule b).window_seconds)
      → (key : CounterKey) (rs : List Request) (t : ℕ) → IsLocalTrace get_rule rs t
      → admitted key rs ≤ (get_rule key.bucket).limit
  unfolding admitted IsLocalTrace
  admitted_le_limit pos key [] t h = omega arith
  admitted_le_limit pos key (r ∷ rs) t (local, past, before) =
      elim (Bool-cases (same_key (key_of get_rule r) key && is_allowed rs r)) [
        | inr refused ↦ rw refused (admitted_le_limit pos key rs r.now before)
        | inl taken ↦
            let hit : same_key (key_of get_rule r) key ≡ true = ground arith in
            let allowed : is_allowed rs r ≡ true = ground arith in
            let same : key_of get_rule r ≡ key = same_key→≡ (key_of get_rule r) key hit in
            let small = allowed-used (counters_after get_rule rs) r allowed in
            let used = used-spent get_rule pos r rs (local, omega arith, before) in
            let charged : spent get_rule key (r ∷ rs) ≤ (get_rule key.bucket).limit =
              subst (λ k. spent get_rule k (r ∷ rs) ≤ (get_rule k.bucket).limit) same
                (omega arith) in
            let all = admitted-le-spent key rs in
            let total = spent-same get_rule key r rs hit in rw taken (omega arith)
      ]

module _ (parse_int : String → Option ℕ) (split_slash : String → String × Option String) where
  abbrev pub rule_in : Environment → RateLimitBucket → RateLimitRule
  rule_in env = get_rate_limit_rule parse_int split_slash env

  -- While no request reaches Redis and the clock does not run backwards, the reported consumption
  -- is the sum of what all requests so far, this one and the refused ones included, have charged to
  -- the same bucket, identifier and window. This holds for every environment, however requests of
  -- other buckets, identifiers and windows are interleaved.
  pub consume_rate_limit-used :
      (env : Environment) (r : Request) (rs : List Request)
      → IsLocalTrace (rule_in env) (r ∷ rs) r.now
      → (consume_rate_limit (rule_in env) false (counters_after (rule_in env) rs) r).0.used
        ≡ spent (rule_in env) (counter_key (rule_in env) false r.bucket r.identifier r.now) (r ∷ rs)
  consume_rate_limit-used env r rs h =
      used-spent (rule_in env) (λ b. (get_rate_limit_rule-positive parse_int split_slash env b).1) r
        rs h

  -- While no request reaches Redis and the clock does not run backwards, the admitted requests of
  -- one bucket, identifier and window together cost at most the bucket's limit in force, whatever
  -- else is requested in between.
  pub admitted_within_limit :
      (env : Environment) (key : CounterKey) (rs : List Request) (t : ℕ)
      → IsLocalTrace (rule_in env) rs t
      → admitted (rule_in env) key rs ≤ (rule_in env key.bucket).limit
  admitted_within_limit env =
      admitted_le_limit (rule_in env)
        (λ b. (get_rate_limit_rule-positive parse_int split_slash env b).1)
