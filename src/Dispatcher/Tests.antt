-- ===== src/Dispatcher/Tests.antt =====
-- Runs of the dispatcher over a list of keys with their expiry.
use Prim.Native.String.{String}
use clicked.Prelude.{
  ℕ, suc, ◌+◌, ◌*◌, ◌≡◌, ◌≢◌, ◌<◌, refl, Option, some, Bool, true, false, ◌&&◌, List, [], ◌∷◌, any,
  ◌==◌, ltb, arith,
}
use clicked.Dispatcher.{
  EventEnvelope, Settings, ReplayKey, SetReply, set_ok, set_null, set_failed, KeyStore, IsKeyStore,
  Handler, Outcome, acknowledged, handler_failed, is_known_event_type, is_envelope_timestamp_fresh,
  is_replay, dispatch,
}
use clicked.Dispatcher.Once.{
  IsChecked, key_of, after, state_later, dispatch_once, dispatch-retry_of_failed,
}

abbrev Keys : Type 0
Keys = List (ReplayKey × ℕ)

abbrev is_live : ReplayKey → ℕ → ReplayKey × ℕ → Bool
is_live k now entry =
    (entry.0.device_id == k.device_id) && ((entry.0.event_id == k.event_id) && ltb now entry.1)

abbrev set_unless : Bool → Keys → ReplayKey → ℕ → SetReply × Keys
set_unless true r k expires = (set_null, r)
set_unless false r k expires = (set_ok, (k, expires) ∷ r)

abbrev keys : KeyStore Keys
keys = record {
  set_nx = λ r k ttl now. set_unless (any (is_live k now) r) r k (now + ttl * 1000);
  is_set = λ r k now. any (is_live k now) r;
  set_ex = λ r k ttl now. (k, now + ttl * 1000) ∷ r;
}

set_unless-keeps :
    (b : Bool) (r : Keys) (k m : ReplayKey) (expires later : ℕ)
    → any (is_live k later) r ≡ true
    → any (is_live k later) (set_unless b r m expires).1 ≡ true
set_unless-keeps true r k m expires later h = h
set_unless-keeps false r k m expires later h = ground arith

set_unless-stays :
    (b : Bool) (r : Keys) (k : ReplayKey) (expires later : ℕ)
    → (set_unless b r k expires).0 ≡ set_ok
    → later < expires
    → any (is_live k later) (set_unless b r k expires).1 ≡ true
set_unless-stays true r k expires later h soon = cc
set_unless-stays false r k expires later h soon = ground arith

keys-IsKeyStore : IsKeyStore keys
keys-IsKeyStore = record {
  present = λ r k ttl now h new. ground arith;
  stays = λ r k ttl now later h soon.
      set_unless-stays (any (is_live k now) r) r k (now + ttl * 1000) later h soon;
  keeps = λ r k m ttl now later h.
      set_unless-keeps (any (is_live m now) r) r k m (now + ttl * 1000) later h;
}

abbrev named : ℕ → Bool
named id = false

abbrev counting : String → Option (Handler ℕ)
counting type = some (λ payload n. (true, suc n))

abbrev failing : String → Option (Handler ℕ)
failing type = some (λ payload n. (false, n))

abbrev defaults : Settings
defaults = record { max_age_ms = 300000; max_future_skew_ms = 30000; ttl_seconds = 300 }

abbrev event : EventEnvelope
event = record { event_id = 5; type = "send_message"; timestamp = 999000; payload = [] }

event-IsChecked : IsChecked keys named counting defaults keys-IsKeyStore [] 1 1000000 event
unfolding is_known_event_type is_envelope_timestamp_fresh
event-IsChecked = (refl, refl, refl, refl, refl)

unhandled_event-IsChecked : IsChecked keys named failing defaults keys-IsKeyStore [] 1 1000000 event
unfolding is_known_event_type is_envelope_timestamp_fresh
unhandled_event-IsChecked = (refl, refl, refl, refl, refl)

abbrev later_counting : Keys × ℕ
later_counting =
    state_later keys named counting defaults keys-IsKeyStore [] 0 1 1000000 event [] 1001000 event

abbrev later_failing : Keys × ℕ
later_failing =
    state_later keys named failing defaults keys-IsKeyStore [] 0 1 1000000 event [] 1001000 event

answers : (keys.set_nx later_counting.0 (key_of 1 event) 300 1001000).0 ≢ set_failed
unfolding after dispatch is_known_event_type is_envelope_timestamp_fresh is_replay
answers h = cc

answers_failing : (keys.set_nx later_failing.0 (key_of 1 event) 300 1001000).0 ≢ set_failed
unfolding after dispatch is_known_event_type is_envelope_timestamp_fresh is_replay
answers_failing h = cc

dispatch_once_example :
    (dispatch keys named counting defaults
      (some 1)
      later_counting.0
      later_counting.1
      1001000
      (some event)).2
    ≡ later_counting.1
dispatch_once_example =
    dispatch_once keys named counting defaults keys-IsKeyStore [] 0 1 1000000 event [] 1001000 event
      event-IsChecked refl (omega arith) answers

fails : (dispatch keys named failing defaults (some 1) [] 0 1000000 (some event)).0 ≡ handler_failed
unfolding dispatch is_known_event_type is_envelope_timestamp_fresh is_replay
fails = refl

type_known : is_known_event_type "send_message" ≡ true
unfolding is_known_event_type
type_known = refl

still_fresh : is_envelope_timestamp_fresh defaults 1001000 999000 ≡ true
unfolding is_envelope_timestamp_fresh
still_fresh = refl

dispatch-retry_of_failed_example :
    dispatch keys named failing defaults
      (some 1)
      later_failing.0
      later_failing.1
      1001000
      (some event)
    ≡ (
      acknowledged true,
      (keys.set_nx later_failing.0 (key_of 1 event) 300 1001000).1,
      later_failing.1,
    )
dispatch-retry_of_failed_example =
    dispatch-retry_of_failed keys named failing defaults keys-IsKeyStore [] 0 1 1000000 event []
      1001000 event unhandled_event-IsChecked fails refl (omega arith) answers_failing type_known
      still_fresh

-- With the default settings, an event whose timestamp lies in the future is handled a second time
-- once its key has expired.
abbrev early_event : EventEnvelope
early_event = record { event_id = 5; type = "send_message"; timestamp = 1020000; payload = [] }

abbrev after_early : Outcome × Keys × ℕ
after_early = dispatch keys named counting defaults (some 1) [] 0 1000000 (some early_event)

handled_twice :
    (dispatch keys named counting defaults
      (some 1)
      after_early.1
      after_early.2
      1310000
      (some early_event)).2
    ≡ 2
unfolding dispatch is_known_event_type is_envelope_timestamp_fresh is_replay
handled_twice = refl
