-- ===== src/Dispatcher/Once.antt =====
-- An event is handled once while Redis answers, and what a retry of a failed one gets.
use Prim.Native.String.{String}
use clicked.Prelude.{
  ℕ, ◌+◌, ◌*◌, ◌≡◌, ◌≢◌, ◌<◌, refl, sym, subst, ap, Option, none, some, Bool, true, false, ◌||◌,
  List, [], ◌∷◌, arith, Bool-cases, inl, inr,
}
use clicked.Dispatcher.{
  EventEnvelope, Settings, ReplayKey, SetReply, set_ok, set_null, set_failed, KeyStore, IsKeyStore,
  Handler, acknowledged, handler_failed, is_known_event_type, is_envelope_timestamp_fresh, is_null,
  is_replay, after_replay_check, run_handler, finished, dispatch_from, dispatch,
}

-- An event that reaches a listener at some time, on the socket of some device.
pub record Arrival : Type 0 where
  pub device : Option ℕ
  pub now : ℕ
  pub raw : Option EventEnvelope

abbrev pub key_of : ℕ → EventEnvelope → ReplayKey
key_of device e = record { device_id = device; event_id = e.event_id }

null_of_refused : (x : SetReply) → x ≢ set_ok → x ≢ set_failed → is_null x ≡ true
null_of_refused set_ok a b = absurd (a refl)
null_of_refused set_null a b = refl
null_of_refused set_failed a b = absurd (b refl)

module _ {R S : Type 0} where
  finished-redis : (r : R) (x : Bool × S) → (finished r x).1 ≡ r
  finished-redis r (true, s) = refl
  finished-redis r (false, s) = refl

  run_handler-redis :
      (o : Option (Handler S)) (payload : List String) (r : R) (s : S)
      → (run_handler o payload r s).1 ≡ r
  run_handler-redis none payload r s = refl
  run_handler-redis (some handler) payload r s = finished-redis r (handler payload s)

  after_replay_check-redis :
      (handlers : String → Option (Handler S)) (e : EventEnvelope) (s : S) (x : Bool × R)
      → (after_replay_check handlers e s x).1 ≡ x.1
  after_replay_check-redis handlers e s (true, r) = refl
  after_replay_check-redis handlers e s (false, r) =
      run_handler-redis (handlers e.type) e.payload r s

module _ {R S : Type 0} (redis : KeyStore R) (is_blank : ℕ → Bool)
    (handlers : String → Option (Handler S)) (settings : Settings) where
  -- What Redis and the application are after some events, the first one first.
  unfoldable pub after : R → S → List Arrival → R × S
  after r s [] = (r, s)
  after r s (a ∷ as_) =
      let next = dispatch redis is_blank handlers settings a.device r s a.now a.raw in
      after next.1 next.2 as_

  module _ (law : IsKeyStore redis) where
    is_replay-keeps :
        (r : R) (device event now : ℕ) (k : ReplayKey) (later : ℕ)
        → redis.is_set r k later ≡ true
        → redis.is_set (is_replay redis is_blank settings.ttl_seconds r device event now).1 k later
          ≡ true
    unfolding is_replay
    is_replay-keeps r device event now k later h =
        elim (Bool-cases (is_blank device || is_blank event)) [
          | inl blank ↦ rw blank h
          | inr named ↦ rw named (
              law.keeps r k (record { device_id = device; event_id = event }) settings.ttl_seconds
                now later h)
        ]

    -- No event takes a key away.
    dispatch-keeps :
        (a : Arrival) (r : R) (s : S) (k : ReplayKey) (later : ℕ)
        → redis.is_set r k later ≡ true
        → redis.is_set
            (dispatch redis is_blank handlers settings a.device r s a.now a.raw).1
            k
            later
          ≡ true
    unfolding dispatch
    dispatch-keeps a r s k later h = kept a.device a.raw
      where
        of_event :
            (device : ℕ) (raw : Option EventEnvelope)
            → redis.is_set
                (dispatch_from redis is_blank handlers settings device r s a.now raw).1
                k
                later
              ≡ true
        of_event device none = h
        of_event device (some e) = elim (Bool-cases (is_known_event_type e.type)) [
          | inr unknown ↦ rw unknown h
          | inl known ↦ elim (Bool-cases (is_envelope_timestamp_fresh settings a.now e.timestamp)) [
            | inr old ↦ rw (known, old) h
            | inl fresh ↦
                rw
                  (
                    known,
                    fresh,
                    after_replay_check-redis handlers e s
                        (is_replay redis is_blank settings.ttl_seconds r device e.event_id a.now),
                  )
                  (is_replay-keeps r device e.event_id a.now k later h)
          ]
        ]

        kept :
            (device : Option ℕ) (raw : Option EventEnvelope)
            → redis.is_set
                (dispatch redis is_blank handlers settings device r s a.now raw).1
                k
                later
              ≡ true
        kept none raw = h
        kept (some device) raw = of_event device raw

    after-keeps :
        (as_ : List Arrival) (r : R) (s : S) (k : ReplayKey) (later : ℕ)
        → redis.is_set r k later ≡ true
        → redis.is_set (after r s as_).0 k later ≡ true
    unfolding after
    after-keeps [] r s k later h = h
    after-keeps (a ∷ as_) r s k later h =
        let next = dispatch redis is_blank handlers settings a.device r s a.now a.raw in
        after-keeps as_ next.1 next.2 k later (dispatch-keeps a r s k later h)

    -- An event that has been checked for replay, with Redis answering that it is new.
    abbrev pub IsChecked : R → ℕ → ℕ → EventEnvelope → Type 0
    IsChecked r device now e =
        (is_known_event_type e.type ≡ true)
        × (is_envelope_timestamp_fresh settings now e.timestamp ≡ true)
        × (is_blank device ≡ false)
        × (is_blank e.event_id ≡ false)
        × ((redis.set_nx r (key_of device e) settings.ttl_seconds now).0 ≡ set_ok)

    key_after_check :
        (r : R) (s : S) (device now later : ℕ) (e : EventEnvelope)
        → IsChecked r device now e
        → later < now + settings.ttl_seconds * 1000
        → redis.is_set
            (dispatch redis is_blank handlers settings (some device) r s now (some e)).1
            (key_of device e)
            later
          ≡ true
    unfolding dispatch is_replay
    key_after_check r s device now later e (known, fresh, device_named, event_named, new) soon =
        rw
          (
            known,
            fresh,
            after_replay_check-redis handlers e s
                (is_replay redis is_blank settings.ttl_seconds r device e.event_id now),
          )
          (rw (device_named, event_named)
            (law.stays r (key_of device e) settings.ttl_seconds now later new soon))

    seen_again :
        (r : R) (s : S) (device now : ℕ) (e : EventEnvelope)
        → is_known_event_type e.type ≡ true
        → is_envelope_timestamp_fresh settings now e.timestamp ≡ true
        → is_blank device ≡ false
        → is_blank e.event_id ≡ false
        → redis.is_set r (key_of device e) now ≡ true
        → (redis.set_nx r (key_of device e) settings.ttl_seconds now).0 ≢ set_failed
        → dispatch redis is_blank handlers settings (some device) r s now (some e)
          ≡ (acknowledged true, (redis.set_nx r (key_of device e) settings.ttl_seconds now).1, s)
    unfolding dispatch is_replay
    seen_again r s device now e known fresh device_named event_named there answers =
        rw
          (
            known,
            fresh,
            device_named,
            event_named,
            null_of_refused _ (law.present r (key_of device e) settings.ttl_seconds now there)
                answers,
          )
          refl

    still_kept :
        (timestamp now later : ℕ)
        → is_envelope_timestamp_fresh settings later timestamp ≡ true
        → timestamp + settings.max_age_ms < now + settings.ttl_seconds * 1000
        → later < now + settings.ttl_seconds * 1000
    unfolding is_envelope_timestamp_fresh
    still_kept timestamp now later fresh old = ground arith

    module _ (r : R) (s : S) (device now : ℕ) (e : EventEnvelope) (between : List Arrival)
        (later : ℕ) (again : EventEnvelope) where
      abbrev pub state_later : R × S
      state_later =
          let next = dispatch redis is_blank handlers settings (some device) r s now (some e) in
          after next.1 next.2 between

      acknowledged_later :
          IsChecked r device now e
          → again.event_id ≡ e.event_id
          → later < now + settings.ttl_seconds * 1000
          → (redis.set_nx state_later.0 (key_of device again) settings.ttl_seconds later).0
            ≢ set_failed
          → is_known_event_type again.type ≡ true
          → is_envelope_timestamp_fresh settings later again.timestamp ≡ true
          → dispatch redis is_blank handlers settings
              (some device)
              state_later.0
              state_later.1
              later
              (some again)
            ≡ (
              acknowledged true,
              (redis.set_nx state_later.0 (key_of device again) settings.ttl_seconds later).1,
              state_later.1,
            )
      acknowledged_later checked same soon answers known fresh =
          let next = dispatch redis is_blank handlers settings (some device) r s now (some e) in
          let there =
            after-keeps between next.1 next.2 (key_of device e) later
              (key_after_check r s device now later e checked soon) in
          seen_again state_later.0 state_later.1 device later again known fresh checked.2
            (subst (λ x. is_blank x ≡ false) (sym same) checked.3)
            (subst
              (λ x.
                redis.is_set state_later.0 (record { device_id = device; event_id = x }) later
                ≡ true)
              (sym same) there)
            answers

      -- Once an event of a device, with ids that are not blank, has been checked for replay, and Redis
      -- has answered that it is new, the same event from that device does not reach a handler again, at
      -- whatever time and whatever other events come in between: the application's state stays as it
      -- is. This needs Redis to answer the second time too, and the event's timestamp to be so old that
      -- it is stale by the time its key expires.
      pub dispatch_once :
          IsChecked r device now e
          → again.event_id ≡ e.event_id
          → again.timestamp + settings.max_age_ms < now + settings.ttl_seconds * 1000
          → (redis.set_nx state_later.0 (key_of device again) settings.ttl_seconds later).0
            ≢ set_failed
          → (dispatch redis is_blank handlers settings
              (some device)
              state_later.0
              state_later.1
              later
              (some again)).2
            ≡ state_later.1
      unfolding dispatch
      dispatch_once checked same old answers = elim (Bool-cases (is_known_event_type again.type)) [
        | inr unknown ↦ rw unknown refl
        | inl known ↦
            elim (Bool-cases (is_envelope_timestamp_fresh settings later again.timestamp)) [
              | inr late ↦ rw (known, late) refl
              | inl fresh ↦
                  ap (λ x. x.2)
                    (acknowledged_later checked same
                      (still_kept again.timestamp now later fresh old) answers known fresh)
            ]
      ]

      -- An event that was checked for replay and whose handler threw is not run when its device sends
      -- it again within the life of its key, fresh and of a known type, and Redis answers: the client is
      -- told that it is a duplicate, as for one that was handled.
      pub dispatch-retry_of_failed :
          IsChecked r device now e
          → (dispatch redis is_blank handlers settings (some device) r s now (some e)).0
            ≡ handler_failed
          → again.event_id ≡ e.event_id
          → later < now + settings.ttl_seconds * 1000
          → (redis.set_nx state_later.0 (key_of device again) settings.ttl_seconds later).0
            ≢ set_failed
          → is_known_event_type again.type ≡ true
          → is_envelope_timestamp_fresh settings later again.timestamp ≡ true
          → dispatch redis is_blank handlers settings
              (some device)
              state_later.0
              state_later.1
              later
              (some again)
            ≡ (
              acknowledged true,
              (redis.set_nx state_later.0 (key_of device again) settings.ttl_seconds later).1,
              state_later.1,
            )
      dispatch-retry_of_failed checked failed = acknowledged_later checked
