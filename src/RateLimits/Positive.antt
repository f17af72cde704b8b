-- ===== src/RateLimits/Positive.antt =====
-- Every rule in force is usable.
use Prim.Native.String.{String}
use clicked.Prelude.{ℕ, ◌<◌, Option, arith}
use clicked.RateLimits.{
  RateLimitBucket, global_ip, auth_challenge, auth_verify, device_link_challenge,
  device_link_verify, key_bundle, key_bundle_daily, upload_slot, upload_bytes_daily, file_download,
  push_subscribe, socket_default, socket_send_message, socket_typing, socket_ask_assistant,
  Environment, rate_limit_defaults, get_rate_limit_rule,
}

defaults_positive :
    (b : RateLimitBucket)
    → (0 < (rate_limit_defaults b).limit) × (0 < (rate_limit_defaults b).window_seconds)
unfolding rate_limit_defaults
defaults_positive global_ip = omega arith
defaults_positive _ = omega arith

module _ (parse_int : String → Option ℕ) (split_slash : String → String × Option String) where
  -- Whatever the environment holds, malformed overrides and zeros included, the rule in force for a
  -- bucket admits at least one unit and its window is at least a second long.
  pub get_rate_limit_rule-positive :
      (env : Environment) (b : RateLimitBucket)
      → (0 < (get_rate_limit_rule parse_int split_slash env b).limit)
        × (0 < (get_rate_limit_rule parse_int split_slash env b).window_seconds)
  unfolding get_rate_limit_rule
  get_rate_limit_rule-positive env socket_default = ground (arith, defaults_positive socket_default)
  get_rate_limit_rule-positive env global_ip = ground (arith, defaults_positive global_ip)
  get_rate_limit_rule-positive env auth_challenge = ground (arith, defaults_positive auth_challenge)
  get_rate_limit_rule-positive env auth_verify = ground (arith, defaults_positive auth_verify)
  get_rate_limit_rule-positive env device_link_challenge =
      ground (arith, defaults_positive device_link_challenge)
  get_rate_limit_rule-positive env device_link_verify =
      ground (arith, defaults_positive device_link_verify)
  get_rate_limit_rule-positive env key_bundle = ground (arith, defaults_positive key_bundle)
  get_rate_limit_rule-positive env key_bundle_daily =
      ground (arith, defaults_positive key_bundle_daily)
  get_rate_limit_rule-positive env upload_slot = ground (arith, defaults_positive upload_slot)
  get_rate_limit_rule-positive env upload_bytes_daily =
      ground (arith, defaults_positive upload_bytes_daily)
  get_rate_limit_rule-positive env file_download = ground (arith, defaults_positive file_download)
  get_rate_limit_rule-positive env push_subscribe = ground (arith, defaults_positive push_subscribe)
  get_rate_limit_rule-positive env socket_send_message =
      ground (arith, defaults_positive socket_send_message)
  get_rate_limit_rule-positive env socket_typing = ground (arith, defaults_positive socket_typing)
  get_rate_limit_rule-positive env socket_ask_assistant =
      ground (arith, defaults_positive socket_ask_assistant)
