-- ===== src/Inbound/Caching.antt =====
-- A message that has been read stays readable.
use clicked.Prelude.{
  ℕ, ◌≡◌, refl, sym, ap, ◌∙◌, Option, none, some, true, false, List, [], ◌∷◌, ◌==◌, if◌then◌else◌,
  arith, Bool-cases, inl, inr,
}
use clicked.KeyMaterial.{Text, Bytes}
use clicked.Inbound.{
  Reader, Client, Outcome, done, threw, and_then, get, set, is_blank, EnvelopeInput,
  decrypted_message, cache_hit, get_cached_plaintext, conclude, read_from, unless_cached, key_from,
  fetched, set_session_key, remove_session_key, decrypt_and_verify_envelope,
  fetch_sender_device_public_key, process_inbound_envelope,
}

get-set {ℓ} : {A : Type ℓ} (id : ℕ) (a : A) (es : List (ℕ × A)) → get id (set id a es) ≡ some a
get-set id a [] = let e : (id == id) ≡ true = ground arith in rw e refl
get-set id a (e ∷ es) = elim (Bool-cases (e.0 == id)) [
  | inl same ↦ let self : (id == id) ≡ true = ground arith in rw (same, self) refl
  | inr other ↦ rw (other, other) (get-set id a es)
]

get-set_other {ℓ} :
    {A : Type ℓ} (id id' : ℕ) (a : A) (es : List (ℕ × A))
    → (id == id') ≡ false
    → get id' (set id a es) ≡ get id' es
get-set_other id id' a [] other = rw other refl
get-set_other id id' a (e ∷ es) other = elim (Bool-cases (e.0 == id)) [
  | inl same ↦ let apart : (e.0 == id') ≡ false = ground arith in rw (same, apart, other) refl
  | inr differs ↦ elim (Bool-cases (e.0 == id')) [
    | inl found ↦ rw (differs, found) refl
    | inr missing ↦ rw (differs, missing) (get-set_other id id' a es other)
  ]
]

module _ (r : Reader) where
  process-hit :
      (e : EnvelopeInput) (server : ℕ → Option Text) (s : Client) (plaintext : Text)
      → get_cached_plaintext e.message_id s ≡ some plaintext
      → is_blank plaintext ≡ false
      → process_inbound_envelope r e server s ≡ (decrypted_message e plaintext, s)
  unfolding process_inbound_envelope
  process-hit e server s plaintext cached text =
      ap (λ o. unless_cached r e server s (cache_hit o)) cached
      ∙ ap (λ b. unless_cached r e server s (if b then none else some plaintext)) text

  hit_of_cached :
      (o : Option Text) (plaintext : Text)
      → cache_hit o ≡ some plaintext
      → (o ≡ some plaintext) × (is_blank plaintext ≡ false)
  hit_of_cached none plaintext e = cc
  hit_of_cached (some t) plaintext e = elim (Bool-cases (is_blank t)) [
    | inl blank ↦ absurd (never (rw blank at e))
    | inr text ↦
        let same : t ≡ plaintext = some_eq (rw text at e) in
        (ap some same, ap is_blank (sym same) ∙ text)
  ]
    where
      never : ◌≡◌ {A = Option Text} none (some plaintext) → ⊥
      never e = cc

      some_eq : some t ≡ some plaintext → t ≡ plaintext
      some_eq e = cc

  -- An envelope that gave a text left it in the cache.
  cached_of_read :
      (e : EnvelopeInput) (server : ℕ → Option Text) (s : Client) (plaintext : Text)
      → (process_inbound_envelope r e server s).0.plaintext ≡ some plaintext
      → get_cached_plaintext e.message_id (process_inbound_envelope r e server s).1 ≡ some plaintext
  unfolding process_inbound_envelope
  cached_of_read e server s plaintext read =
      by_cache (cache_hit (get_cached_plaintext e.message_id s)) refl read
    where
      by_result :
          (o : Outcome Text) (t : Client)
          → (conclude r e o t).0.plaintext ≡ some plaintext
          → get_cached_plaintext e.message_id (conclude r e o t).1 ≡ some plaintext
      by_result (done text) t h = get-set e.message_id text t.cache ∙ h
      by_result (threw x) t h = cc

      by_device :
          (d : Option ℕ)
          → (read_from r e server s d).0.plaintext ≡ some plaintext
          → get_cached_plaintext e.message_id (read_from r e server s d).1 ≡ some plaintext
      by_device none h = cc
      by_device (some device) h =
          let key = fetch_sender_device_public_key r device server s in
          by_result
            (and_then key.0 (λ k. decrypt_and_verify_envelope r e.ciphertext device k key.1)) key.1
            h

      by_cache :
          (o : Option Text)
          → cache_hit (get_cached_plaintext e.message_id s) ≡ o
          → (unless_cached r e server s o).0.plaintext ≡ some plaintext
          → get_cached_plaintext e.message_id (unless_cached r e server s o).1 ≡ some plaintext
      by_cache none hit h = by_device e.sender_device_id h
      by_cache (some text) hit h =
          (hit_of_cached (get_cached_plaintext e.message_id s) text hit).0 ∙ h

  -- A text in the cache that is not empty stays there, whatever envelope comes next.
  process-keeps :
      (e : EnvelopeInput) (server : ℕ → Option Text) (s : Client) (id : ℕ) (plaintext : Text)
      → get_cached_plaintext id s ≡ some plaintext
      → is_blank plaintext ≡ false
      → get_cached_plaintext id (process_inbound_envelope r e server s).1 ≡ some plaintext
  unfolding process_inbound_envelope fetch_sender_device_public_key
  process-keeps e server s id plaintext cached text =
      by_cache (cache_hit (get_cached_plaintext e.message_id s)) refl
    where
      by_result :
          (o : Outcome Text) (t : Client)
          → get_cached_plaintext id t ≡ some plaintext
          → (e.message_id == id) ≡ false
          → get_cached_plaintext id (conclude r e o t).1 ≡ some plaintext
      by_result (done found) t kept other = get-set_other e.message_id id found t.cache other ∙ kept
      by_result (threw x) t kept other = kept

      key_kept :
          (device : ℕ) (known : Option Text)
          → get_cached_plaintext id (key_from r device server s known).1 ≡ some plaintext
      key_kept device (some key) = cached
      key_kept device none = by_reply (server device)
        where
          by_reply :
              (o : Option Text) → get_cached_plaintext id (fetched r device o s).1 ≡ some plaintext
          by_reply none = cached
          by_reply (some key) = cached

      by_device :
          (d : Option ℕ)
          → (e.message_id == id) ≡ false
          → get_cached_plaintext id (read_from r e server s d).1 ≡ some plaintext
      by_device none other = cached
      by_device (some device) other =
          let key = key_from r device server s (get device s.device_keys) in
          by_result
            (and_then key.0 (λ k. decrypt_and_verify_envelope r e.ciphertext device k key.1)) key.1
            (key_kept device (get device s.device_keys)) other

      by_cache :
          (o : Option Text)
          → cache_hit (get_cached_plaintext e.message_id s) ≡ o
          → get_cached_plaintext id (unless_cached r e server s o).1 ≡ some plaintext
      by_cache (some found) hit = cached
      by_cache none hit = elim (Bool-cases (e.message_id == id)) [
        | inl same ↦
            let i : e.message_id ≡ id = ground arith in
            absurd (
              no_miss (
                sym hit
                ∙ ap (λ m. cache_hit (get_cached_plaintext m s)) i
                ∙ ap cache_hit cached
                ∙ ap (λ b. if b then none else some plaintext) text))
        | inr other ↦ by_device e.sender_device_id other
      ]
        where
          no_miss : ◌≡◌ {A = Option Text} none (some plaintext) → ⊥
          no_miss c = cc

  -- What happens to a client until its page is unloaded: an envelope comes in, with what the server
  -- replies to a request for a device's key; a session is set up with a device; or it is removed.
  pub data Event : Type 0 where
    received : EnvelopeInput → (ℕ → Option Text) → Event
    session_set : (device : ℕ) → Bytes → Event
    session_removed : (device : ℕ) → Event

  unfoldable pub after_events : List Event → Client → Client
  after_events [] s = s
  after_events (received e server ∷ events) s =
      after_events events (process_inbound_envelope r e server s).1
  after_events (session_set device key ∷ events) s =
      after_events events (set_session_key device key s)
  after_events (session_removed device ∷ events) s =
      after_events events (remove_session_key device s)

  after_events-keeps :
      (events : List Event) (s : Client) (id : ℕ) (plaintext : Text)
      → get_cached_plaintext id s ≡ some plaintext
      → is_blank plaintext ≡ false
      → get_cached_plaintext id (after_events events s) ≡ some plaintext
  unfolding after_events
  after_events-keeps [] s id plaintext cached text = cached
  after_events-keeps (received e server ∷ events) s id plaintext cached text =
      after_events-keeps events (process_inbound_envelope r e server s).1 id plaintext
        (process-keeps e server s id plaintext cached text) text
  after_events-keeps (session_set device key ∷ events) s id plaintext cached text =
      after_events-keeps events (set_session_key device key s) id plaintext cached text
  after_events-keeps (session_removed device ∷ events) s id plaintext cached text =
      after_events-keeps events (remove_session_key device s) id plaintext cached text

  -- Once an envelope of a message has been read to a text that is not empty, every later envelope with
  -- the message's id gives the same text and changes nothing, whatever it contains and whatever keys
  -- are at hand, after any number of other envelopes, of this message or of others, and of sessions
  -- set and removed, as long as the page is not unloaded.
  pub process_inbound_envelope-again :
      (e e' : EnvelopeInput) (server server' : ℕ → Option Text) (s : Client) (plaintext : Text)
      (events : List Event)
      → (process_inbound_envelope r e server s).0.plaintext ≡ some plaintext
      → is_blank plaintext ≡ false
      → e'.message_id ≡ e.message_id
      → let after = after_events events (process_inbound_envelope r e server s).1 in
        process_inbound_envelope r e' server' after ≡ (decrypted_message e' plaintext, after)
  process_inbound_envelope-again e e' server server' s plaintext events read text same =
      let after = after_events events (process_inbound_envelope r e server s).1 in
      process-hit e' server' after plaintext
        (ap (λ i. get_cached_plaintext i after) same
          ∙ after_events-keeps events (process_inbound_envelope r e server s).1 e.message_id
              plaintext (cached_of_read e server s plaintext read) text)
        text
