-- ===== src/RateLimiter.antt =====
-- The rate-limit counters (apps/backend/src/services/rateLimiter.ts). A clock reading is in
-- milliseconds. What Redis answers to the INCRBY of a request is an argument of it: none when there
-- is no Redis, when the call fails and when the reply is not a number. A counter's key
-- `rl:<bucket>:<window>:<identifier>` is the triple of its parts; the in-process map is the list of
-- its entries in insertion order.
pub mod Window
pub mod Budget
pub mod Limit
mod Tests
use Prim.Native.String.{String}
use clicked.Prelude.{
  ℕ, ◌+◌, ◌-◌, ◌*◌, ◌/◌, max, Option, none, some, Bool, true, false, List, [], ◌∷◌, ◌++◌, ◌==◌, not,
  ◌&&◌, ltb, leb, if◌then◌else◌, rows_where, find_first, update_where,
}
use clicked.RateLimits.{RateLimitBucket, RateLimitRule}

abbrev bucket_place : RateLimitBucket → ℕ
bucket_place RateLimitBucket.global_ip = 0
bucket_place RateLimitBucket.auth_challenge = 1
bucket_place RateLimitBucket.auth_verify = 2
bucket_place RateLimitBucket.device_link_challenge = 3
bucket_place RateLimitBucket.device_link_verify = 4
bucket_place RateLimitBucket.key_bundle = 5
bucket_place RateLimitBucket.key_bundle_daily = 6
bucket_place RateLimitBucket.upload_slot = 7
bucket_place RateLimitBucket.upload_bytes_daily = 8
bucket_place RateLimitBucket.file_download = 9
bucket_place RateLimitBucket.push_subscribe = 10
bucket_place RateLimitBucket.socket_default = 11
bucket_place RateLimitBucket.socket_send_message = 12
bucket_place RateLimitBucket.socket_typing = 13
bucket_place RateLimitBucket.socket_ask_assistant = 14

pub record CounterKey : Type 0 where
  pub bucket : RateLimitBucket
  pub window : ℕ
  pub identifier : ℕ

pub record LocalCounter : Type 0 where
  pub key : CounterKey
  pub used : ℕ
  pub expires_at : ℕ

pub record RateLimitResult : Type 0 where
  pub allowed : Bool
  pub limit : ℕ
  pub remaining : ℕ
  pub reset_seconds : ℕ
  pub used : ℕ

abbrev pub same_key : CounterKey → CounterKey → Bool
same_key k m =
    (bucket_place k.bucket == bucket_place m.bucket)
    && (k.window == m.window)
    && (k.identifier == m.identifier)

-- floor(now / 1000 / window_seconds)
abbrev pub window_index : ℕ → ℕ → ℕ
window_index window_seconds now = now / (1000 * window_seconds)

abbrev pub add_cost : ℕ → LocalCounter → LocalCounter
add_cost cost c = record { key = c.key; used = c.used + cost; expires_at = c.expires_at }

abbrev pub is_live : ℕ → LocalCounter → Bool
is_live now c = ltb now c.expires_at

abbrev pub entry_of : CounterKey → LocalCounter → Bool
entry_of key c = same_key c.key key

-- The opportunistic prune and the new entry.
abbrev pub fresh_entry : CounterKey → ℕ → ℕ → ℕ → List LocalCounter → List LocalCounter
fresh_entry key cost ttl_seconds now counters =
    rows_where (is_live now) counters
    ++ record { key = key; used = cost; expires_at = now + ttl_seconds * 1000 } ∷ []

abbrev pub charge_entry :
    CounterKey → ℕ → ℕ → ℕ → List LocalCounter → Option LocalCounter → ℕ × List LocalCounter
charge_entry key cost ttl_seconds now counters none =
    (cost, fresh_entry key cost ttl_seconds now counters)
charge_entry key cost ttl_seconds now counters (some existing) =
    if leb existing.expires_at now
    then (cost, fresh_entry key cost ttl_seconds now counters)
    else (existing.used + cost, update_where (entry_of key) (add_cost cost) counters)

unfoldable pub consume_locally : List LocalCounter → CounterKey → ℕ → ℕ → ℕ → ℕ × List LocalCounter
consume_locally counters key cost ttl_seconds now =
    charge_entry key cost ttl_seconds now counters (find_first (entry_of key) counters)

-- max(1, ceil((window + 1) * window_seconds - now / 1000))
abbrev pub seconds_left : ℕ → ℕ → ℕ
seconds_left window_seconds now =
    max 1 (((window_index window_seconds now + 1) * window_seconds * 1000 - now + 999) / 1000)

-- One call: who is charged, in which bucket, how much, when, and what Redis answers.
pub record Request : Type 0 where
  pub bucket : RateLimitBucket
  pub identifier : ℕ
  pub cost : ℕ
  pub now : ℕ
  pub reply : Option ℕ

-- The rules in force and the kill switch are those of config/rateLimits.ts.
module _ (get_rule : RateLimitBucket → RateLimitRule) (disabled : Bool) where
  abbrev pub counter_key : RateLimitBucket → ℕ → ℕ → CounterKey
  counter_key bucket identifier now = record {
    bucket = bucket;
    window = window_index (get_rule bucket).window_seconds now;
    identifier = identifier;
  }

  abbrev pub consume : List LocalCounter → Request → Option ℕ → ℕ × List LocalCounter
  consume counters r (some incremented) = (incremented, counters)
  consume counters r none =
      consume_locally counters (counter_key r.bucket r.identifier r.now) r.cost
        (get_rule r.bucket).window_seconds r.now

  abbrev result_of : RateLimitRule → ℕ → ℕ → RateLimitResult
  result_of rule now used = record {
    allowed = leb used rule.limit;
    limit = rule.limit;
    remaining = max 0 (rule.limit - used);
    reset_seconds = seconds_left rule.window_seconds now;
    used = used;
  }

  unfoldable pub consume_rate_limit :
      List LocalCounter → Request → RateLimitResult × List LocalCounter
  consume_rate_limit counters r =
      if disabled
      then (
        record {
          allowed = true;
          limit = (get_rule r.bucket).limit;
          remaining = (get_rule r.bucket).limit;
          reset_seconds = (get_rule r.bucket).window_seconds;
          used = 0;
        },
        counters,
      )
      else (
        result_of (get_rule r.bucket) r.now (consume counters r r.reply).0,
        (consume counters r r.reply).1,
      )

  unfoldable pub peek_rate_limit :
      List LocalCounter → RateLimitBucket → ℕ → ℕ → Option ℕ → RateLimitResult × List LocalCounter
  peek_rate_limit counters bucket identifier now reply =
      consume_rate_limit counters
        (record { bucket = bucket; identifier = identifier; cost = 0; now = now; reply = reply })

  unfoldable pub reset_rate_limit : List LocalCounter → RateLimitBucket → ℕ → ℕ → List LocalCounter
  reset_rate_limit counters bucket identifier now =
      rows_where (λ c. not (same_key c.key (counter_key bucket identifier now))) counters

unfoldable pub reset_rate_limit_bucket : List LocalCounter → RateLimitBucket → List LocalCounter
reset_rate_limit_bucket counters bucket =
    rows_where (λ c. not (bucket_place c.key.bucket == bucket_place bucket)) counters

unfoldable pub clear_local_rate_limit_counters : List LocalCounter → List LocalCounter
clear_local_rate_limit_counters counters = []
