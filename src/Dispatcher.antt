-- ===== src/Dispatcher.antt =====
-- The dispatcher of socket events (apps/backend/src/socket/dispatcher.ts), with its envelope
-- (lib/eventEnvelope.ts) and its replay protection (services/replay-protection.service.ts).
-- Redis is an interface: what SET NX EX answers and what becomes of the keys. The ids of devices and
-- events are numbers; whether `trim` leaves nothing of one is a parameter, and so is `parseInt`. What
-- is emitted to the socket is the outcome. The handlers act on a state of the application.
pub mod Once
mod Tests
use Prim.Native.String.{String}
use text.Mathlib.Text.{◌==◌ as str_eq}
use clicked.Prelude.{
  ℕ, ◌+◌, ◌*◌, ◌≡◌, ◌≢◌, ◌≤◌, ◌<◌, Option, none, some, Bool, true, false, ◌&&◌, ◌||◌, not, List, [],
  ◌∷◌, leb, if◌then◌else◌,
}

pub record EventEnvelope : Type 0 where
  pub event_id : ℕ
  pub type : String
  pub timestamp : ℕ
  pub payload : List String

abbrev known_event_types : List String
known_event_types =
    "auth" ∷ "heartbeat" ∷ "join_room" ∷ "send_message" ∷ "edit_message" ∷ "send_file_message"
    ∷ "file_message" ∷ "message_history" ∷ "delete_message" ∷ "message_read" ∷ "message_delivered"
    ∷ "create_conversation" ∷ "typing_start" ∷ "typing_stop" ∷ "ask_assistant" ∷ "resume"
    ∷ "join_device_channel" ∷ "room_joined" ∷ "new_message" ∷ "message_ack" ∷ "message_deleted"
    ∷ "message_edited" ∷ "read_receipt" ∷ "delivery_receipt" ∷ "device_delivery_receipt"
    ∷ "conversation_created" ∷ "ephemeral_replay" ∷ "resume_complete" ∷ "device_envelope"
    ∷ "presence" ∷ "presence_update" ∷ "user_online" ∷ "user_offline" ∷ "device_revoked"
    ∷ "dispatch_ack" ∷ "rate_limited" ∷ "payload_too_large" ∷ "message_envelope" ∷ "error" ∷ []

abbrev has_text : String → List String → Bool
has_text s [] = false
has_text s (t ∷ ts) = str_eq t s || has_text s ts

unfoldable pub is_known_event_type : String → Bool
is_known_event_type type = has_text type known_event_types

-- SOCKET_EVENT_MAX_AGE_MS, SOCKET_EVENT_MAX_FUTURE_SKEW_MS and the seconds of the replay keys.
pub record Settings : Type 0 where
  pub max_age_ms : ℕ
  pub max_future_skew_ms : ℕ
  pub ttl_seconds : ℕ

module _ (parse_int : String → Option ℕ) where
  abbrev ttl_in_range : Option ℕ → ℕ
  ttl_in_range none = 300
  ttl_in_range (some n) = if leb 1 n && leb n 86400 then n else 300

  -- From the text of REPLAY_PROTECTION_TTL_SECONDS.
  unfoldable pub get_replay_protection_ttl : Option String → ℕ
  get_replay_protection_ttl none = 300
  get_replay_protection_ttl (some text) =
      if str_eq text "" then 300 else ttl_in_range (parse_int text)

-- `timestamp >= now - max_age && timestamp <= now + max_future_skew`
unfoldable pub is_envelope_timestamp_fresh : Settings → ℕ → ℕ → Bool
is_envelope_timestamp_fresh settings now timestamp =
    leb now (timestamp + settings.max_age_ms) && leb timestamp (now + settings.max_future_skew_ms)

-- `replay:<device>:<event>`
pub record ReplayKey : Type 0 where
  pub device_id : ℕ
  pub event_id : ℕ

pub data SetReply : Type 0 where
  -- The key was new; it was there; Redis is absent or the call failed.
  set_ok set_null set_failed : SetReply

-- SET key 1 EX seconds NX at a time in milliseconds, and whether a key is there at a time.
pub record KeyStore (R : Type 0) : Type 0 where
  pub set_nx : R → ReplayKey → ℕ → ℕ → SetReply × R
  pub is_set : R → ReplayKey → ℕ → Bool
  -- SETEX, which leaves the keys as they are where Redis is absent or fails.
  pub set_ex : R → ReplayKey → ℕ → ℕ → R

-- What Redis documents of SET NX EX.
pub record IsKeyStore {R : Type 0} (redis : KeyStore R) : Type 0 where
  -- A key that is there is not set anew.
  pub present :
      (r : R) (k : ReplayKey) (ttl now : ℕ)
      → redis.is_set r k now ≡ true
      → (redis.set_nx r k ttl now).0 ≢ set_ok
  -- A key that is set stays for its time to live.
  pub stays :
      (r : R) (k : ReplayKey) (ttl now later : ℕ)
      → (redis.set_nx r k ttl now).0 ≡ set_ok
      → later < now + ttl * 1000
      → redis.is_set (redis.set_nx r k ttl now).1 k later ≡ true
  -- Setting a key removes none.
  pub keeps :
      (r : R) (k m : ReplayKey) (ttl now later : ℕ)
      → redis.is_set r k later ≡ true
      → redis.is_set (redis.set_nx r m ttl now).1 k later ≡ true

-- A handler returns, or it throws, having changed the application's state.
abbrev pub Handler : Type 0 → Type 0
Handler S = List String → S → Bool × S

pub data Outcome : Type 0 where
  unauthenticated malformed unknown_type stale : Outcome
  -- `dispatch_ack` with the duplicate flag.
  acknowledged : (duplicate : Bool) → Outcome
  -- Nothing is emitted.
  no_handler handler_failed : Outcome

abbrev is_null : SetReply → Bool
is_null set_null = true
is_null _ = false

module _ {R : Type 0} (redis : KeyStore R) (is_blank : ℕ → Bool) where
  unfoldable pub is_replay : ℕ → R → ℕ → ℕ → ℕ → Bool × R
  is_replay ttl r device event now = if is_blank device || is_blank event then (false, r) else (
    is_null (redis.set_nx r (record { device_id = device; event_id = event }) ttl now).0,
    (redis.set_nx r (record { device_id = device; event_id = event }) ttl now).1,
  )

  unfoldable pub mark_seen : ℕ → R → ℕ → ℕ → ℕ → R
  mark_seen ttl r device event now =
      if is_blank device || is_blank event
      then r
      else redis.set_ex r (record { device_id = device; event_id = event }) ttl now

-- `register`: the handlers with one more, in place of an earlier one of its type.
unfoldable pub register :
    {S : Type 0} → (String → Option (Handler S)) → String → Handler S → String → Option (Handler S)
register handlers type handler asked = if str_eq asked type then some handler else handlers asked

module _ {R S : Type 0} where
  abbrev pub finished : R → Bool × S → Outcome × R × S
  finished r (true, s) = (acknowledged false, r, s)
  finished r (false, s) = (handler_failed, r, s)

  abbrev pub run_handler : Option (Handler S) → List String → R → S → Outcome × R × S
  run_handler none payload r s = (no_handler, r, s)
  run_handler (some handler) payload r s = finished r (handler payload s)

  abbrev pub after_replay_check :
      (String → Option (Handler S)) → EventEnvelope → S → Bool × R → Outcome × R × S
  after_replay_check handlers e s (true, r) = (acknowledged true, r, s)
  after_replay_check handlers e s (false, r) = run_handler (handlers e.type) e.payload r s

module _ {R S : Type 0} (redis : KeyStore R) (is_blank : ℕ → Bool) where
  abbrev dispatch_from :
      (String → Option (Handler S))
      → Settings
      → ℕ
      → R
      → S
      → ℕ
      → Option EventEnvelope
      → Outcome × R × S
  dispatch_from handlers settings device r s now none = (malformed, r, s)
  dispatch_from handlers settings device r s now (some e) =
      if not (is_known_event_type e.type)
      then (unknown_type, r, s)
      else if not (is_envelope_timestamp_fresh settings now e.timestamp)
      then (stale, r, s)
      else after_replay_check handlers e s
          (is_replay redis is_blank settings.ttl_seconds r device e.event_id now)

  -- The listener: the socket's device, if it is authenticated, and the event as the schema reads it,
  -- none where it refuses it.
  unfoldable pub dispatch :
      (String → Option (Handler S))
      → Settings
      → Option ℕ
      → R
      → S
      → ℕ
      → Option EventEnvelope
      → Outcome × R × S
  dispatch handlers settings none r s now raw = (unauthenticated, r, s)
  dispatch handlers settings (some device) r s now raw =
      dispatch_from handlers settings device r s now raw
