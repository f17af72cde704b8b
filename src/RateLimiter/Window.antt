-- ===== src/RateLimiter/Window.antt =====
-- Counter keys and fixed windows.
use native.Mathlib.Nat.{le-div_iff_mul-le, div-lt_iff_lt-mul, div-mul-le_self}
use clicked.Prelude.{
  ℕ, ◌+◌, ◌-◌, ◌*◌, ◌/◌, ◌≤◌, ◌<◌, max, ◌≡◌, refl, sym, ap, subst, ◌∙◌, true, false, ◌==◌,
  if◌then◌else◌, arith,
}
use clicked.RateLimits.{RateLimitBucket}
use clicked.RateLimiter.{bucket_place, CounterKey, same_key, window_index, seconds_left}

bucket_at : ℕ → RateLimitBucket
bucket_at n =
    if n == 0
    then RateLimitBucket.global_ip
    else if n == 1
    then RateLimitBucket.auth_challenge
    else if n == 2
    then RateLimitBucket.auth_verify
    else if n == 3
    then RateLimitBucket.device_link_challenge
    else if n == 4
    then RateLimitBucket.device_link_verify
    else if n == 5
    then RateLimitBucket.key_bundle
    else if n == 6
    then RateLimitBucket.key_bundle_daily
    else if n == 7
    then RateLimitBucket.upload_slot
    else if n == 8
    then RateLimitBucket.upload_bytes_daily
    else if n == 9
    then RateLimitBucket.file_download
    else if n == 10
    then RateLimitBucket.push_subscribe
    else if n == 11
    then RateLimitBucket.socket_default
    else if n == 12
    then RateLimitBucket.socket_send_message
    else if n == 13
    then RateLimitBucket.socket_typing
    else RateLimitBucket.socket_ask_assistant

bucket_at-place : (b : RateLimitBucket) → bucket_at (bucket_place b) ≡ b
unfolding bucket_at
bucket_at-place RateLimitBucket.global_ip = refl
bucket_at-place RateLimitBucket.auth_challenge = refl
bucket_at-place RateLimitBucket.auth_verify = refl
bucket_at-place RateLimitBucket.device_link_challenge = refl
bucket_at-place RateLimitBucket.device_link_verify = refl
bucket_at-place RateLimitBucket.key_bundle = refl
bucket_at-place RateLimitBucket.key_bundle_daily = refl
bucket_at-place RateLimitBucket.upload_slot = refl
bucket_at-place RateLimitBucket.upload_bytes_daily = refl
bucket_at-place RateLimitBucket.file_download = refl
bucket_at-place RateLimitBucket.push_subscribe = refl
bucket_at-place RateLimitBucket.socket_default = refl
bucket_at-place RateLimitBucket.socket_send_message = refl
bucket_at-place RateLimitBucket.socket_typing = refl
bucket_at-place RateLimitBucket.socket_ask_assistant = refl

same_bucket : (a b : RateLimitBucket) → bucket_place a ≡ bucket_place b → a ≡ b
same_bucket a b h = sym (bucket_at-place a) ∙ ap bucket_at h ∙ bucket_at-place b

pub same_key→≡ : (k m : CounterKey) → same_key k m ≡ true → k ≡ m
same_key→≡ k m h =
    let b : k.bucket ≡ m.bucket = same_bucket k.bucket m.bucket (ground arith) in
    let w : k.window ≡ m.window = ground arith in
    let i : k.identifier ≡ m.identifier = ground arith in
    λ j. record { bucket = b j; window = w j; identifier = i j }

pub same_key-sym : (k m : CounterKey) → same_key m k ≡ false → same_key k m ≡ false
same_key-sym k m h = ground arith

pub same_key-sym_true : (k m : CounterKey) → same_key m k ≡ true → same_key k m ≡ true
same_key-sym_true k m h = ground arith

pub same_key_refl : (k : CounterKey) → same_key k k ≡ true
same_key_refl k = ground arith

-- The quotient of a number by a positive one is where its multiple is.
quotient_of : (n d q : ℕ) → 0 < d → q * d ≤ n → n < (q + 1) * d → n / d ≡ q
quotient_of n d q pos low high =
    let a : q ≤ n / d = (le-div_iff_mul-le pos).1 low in
    let b : n / d < q + 1 = (div-lt_iff_lt-mul pos).1 high in omega arith

pub window_bounds :
    (w now : ℕ)
    → 0 < w
    → (window_index w now * (1000 * w) ≤ now) × (now < (window_index w now + 1) * (1000 * w))
window_bounds w now h =
    (div-mul-le_self now (1000 * w), (div-lt_iff_lt-mul (omega arith)).0 (omega arith))

rounded_up :
    (w p now : ℕ)
    → p ≤ now
    → now < p + 1000 * w
    → (p + 1000 * w ≤ now + max 1 ((p + 1000 * w - now + 999) / 1000) * 1000)
      × (now + max 1 ((p + 1000 * w - now + 999) / 1000) * 1000 < p + 1000 * w + 1000)
rounded_up w p now low high = omega arith

-- Waiting for the reported number of seconds leads into the very next window.
pub seconds_left-next_window :
    (window_seconds now : ℕ)
    → 0 < window_seconds
    → window_index window_seconds (now + seconds_left window_seconds now * 1000)
      ≡ window_index window_seconds now + 1
seconds_left-next_window w now h =
    let low = (window_bounds w now h).0 in
    let high = (window_bounds w now h).1 in
    let same : window_index w now * (1000 * w) + 1000 * w ≡ (window_index w now + 1) * w * 1000 =
      omega arith in
    let s = seconds_left w now in
    let near = rounded_up w (window_index w now * (1000 * w)) now low (omega arith) in
    let bounds : ((window_index w now + 1) * w * 1000 ≤ now + s * 1000)
        × (now + s * 1000 < (window_index w now + 1) * w * 1000 + 1000) =
      subst
        (λ e.
          (e ≤ now + max 1 ((e - now + 999) / 1000) * 1000)
          × (now + max 1 ((e - now + 999) / 1000) * 1000 < e + 1000))
        same near in
    quotient_of (now + s * 1000) (1000 * w) (window_index w now + 1) (omega arith) (omega arith)
      (omega arith)
