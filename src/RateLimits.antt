-- ===== src/RateLimits.antt =====
-- The rate-limit budget (apps/backend/src/config/rateLimits.ts). The standard library's parsing of
-- a number (`parse_int`, none for NaN and for negative numbers) and its `split('/', 2)` are
-- parameters; a variable of the environment is its text, if it is set, without outer spaces.
pub mod Positive
use Prim.Native.String.{String}
use text.Mathlib.Text.{◌==◌ as str_eq}
use clicked.Prelude.{
  ℕ, ◌*◌, Option, none, some, Bool, true, false, ltb, or_else, if◌then◌else◌, ◌>>=◌,
}

pub data RateLimitBucket : Type 0 where
  global_ip auth_challenge auth_verify device_link_challenge device_link_verify : RateLimitBucket
  key_bundle key_bundle_daily upload_slot upload_bytes_daily file_download : RateLimitBucket
  push_subscribe socket_default socket_send_message socket_typing : RateLimitBucket
  socket_ask_assistant : RateLimitBucket

pub record RateLimitRule : Type 0 where
  pub limit : ℕ
  pub window_seconds : ℕ

abbrev rule : ℕ → ℕ → RateLimitRule
rule limit seconds = record { limit = limit; window_seconds = seconds }

abbrev minute : ℕ
minute = 60

abbrev day : ℕ
day = 24 * 60 * 60

unfoldable pub rate_limit_defaults : RateLimitBucket → RateLimitRule
rate_limit_defaults global_ip = rule 600 minute
rate_limit_defaults auth_challenge = rule 10 minute
rate_limit_defaults auth_verify = rule 5 minute
rate_limit_defaults device_link_challenge = rule 10 minute
rate_limit_defaults device_link_verify = rule 5 minute
rate_limit_defaults key_bundle = rule 30 minute
rate_limit_defaults key_bundle_daily = rule 200 day
rate_limit_defaults upload_slot = rule 20 minute
rate_limit_defaults upload_bytes_daily = rule (2 * 1024 * 1024 * 1024) day
rate_limit_defaults file_download = rule 120 minute
rate_limit_defaults push_subscribe = rule 10 minute
rate_limit_defaults socket_default = rule 10 1
rate_limit_defaults socket_send_message = rule 30 10
rate_limit_defaults socket_typing = rule 20 5
rate_limit_defaults socket_ask_assistant = rule 5 minute

unfoldable pub socket_event_bucket : String → RateLimitBucket
socket_event_bucket event =
    if str_eq event "send_message"
    then socket_send_message
    else if str_eq event "send_file_message"
    then socket_send_message
    else if str_eq event "typing_start"
    then socket_typing
    else if str_eq event "typing_stop"
    then socket_typing
    else if str_eq event "ask_assistant"
    then socket_ask_assistant
    else socket_default

-- The variables that are read: each bucket's override and the historical socket knob.
pub record Environment : Type 0 where
  pub override : RateLimitBucket → Option String
  pub socket_rate_limit_per_sec : Option String

module _ (parse_int : String → Option ℕ) (split_slash : String → String × Option String) where
  abbrev pub positive : Option ℕ → Option ℕ
  positive none = none
  positive (some n) = if ltb 0 n then some n else none

  abbrev positive_int : Option String → Option ℕ
  positive_int none = none
  positive_int (some raw) = positive (parse_int raw)

  abbrev with_legacy : RateLimitRule → Option ℕ → RateLimitRule
  with_legacy fallback none = fallback
  with_legacy fallback (some legacy) = rule legacy 1

  abbrev without_override : Environment → RateLimitBucket → RateLimitRule → RateLimitRule
  without_override env socket_default fallback =
      with_legacy fallback (positive_int env.socket_rate_limit_per_sec)
  without_override env _ fallback = fallback

  abbrev overridden : RateLimitRule → Option ℕ → Option ℕ → RateLimitRule
  overridden fallback none window = fallback
  overridden fallback (some limit) window = rule limit (or_else window fallback.window_seconds)

  abbrev with_override :
      Environment → RateLimitBucket → RateLimitRule → Option String → RateLimitRule
  with_override env bucket fallback none = without_override env bucket fallback
  with_override env bucket fallback (some text) =
      if str_eq text ""
      then without_override env bucket fallback
      else overridden fallback (positive_int (some (split_slash text).0))
          (positive_int (split_slash text).1)

  unfoldable pub get_rate_limit_rule : Environment → RateLimitBucket → RateLimitRule
  get_rate_limit_rule env bucket =
      with_override env bucket (rate_limit_defaults bucket) (env.override bucket)

-- The kill switch: the text of RATE_LIMIT_DISABLED.
unfoldable pub is_rate_limiting_disabled : Option String → Bool
is_rate_limiting_disabled none = false
is_rate_limiting_disabled (some text) = str_eq text "true"
