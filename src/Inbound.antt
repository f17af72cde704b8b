-- ===== src/Inbound.antt =====
-- Receiving an envelope (apps/web/src/lib/crypto: decrypt.ts, processEnvelope.ts, deviceKeys.ts,
-- plaintextCache.ts, sessionStore.ts and types.ts). WebCrypto, base64, the text decoder and JSON are
-- the functions of `Reader`, which give nothing where they throw. The module-level maps are the fields
-- of `Client`. The reply of the server to a request for a device's key is a function of the device.
pub mod Signatures
pub mod Caching
pub mod Merging
pub mod SealedText
mod Tests
use mathlib.Core.Option
use clicked.Prelude.{
  ℕ, zero, suc, ◌+◌, ◌≡◌, Option, none, some, Bool, true, false, not, ◌&&◌, ◌||◌, List, [], ◌∷◌,
  ◌++◌, ◌==◌, if◌then◌else◌, rows_where, order_asc,
}
use clicked.KeyMaterial.{Text, Bytes}

-- The fields of the parsed object, those of another type left out.
pub record EncryptedEnvelopePayload : Type 0 where
  pub v : Option ℕ
  pub iv : Text
  pub ct : Text
  pub sig : Text

-- What `JSON.parse` gives: it throws, or gives null, or a value with some of the fields. A field that
-- is missing is the empty text, which the code does not tell from it.
pub data Parsed : Type 0 where
  unparsable : Parsed
  null : Parsed
  value : EncryptedEnvelopePayload → Parsed

pub record Reader : Type 0 where
  pub atob : Text → Option Bytes
  pub parse_json : Bytes → Parsed
  pub verify : (identity_key signature message : Bytes) → Option Bool
  pub aes_gcm_decrypt : (key iv ciphertext : Bytes) → Option Bytes
  pub decode : Bytes → Text

-- The error that is thrown.
pub data Failure : Type 0 where
  pre_link_error : Failure
  verification_failed_error : Failure
  decrypt_error : Failure
  other_error : Failure

pub data Outcome {ℓ} (A : Type ℓ) : Type ℓ where
  done : A → Outcome A
  threw : Failure → Outcome A

abbrev pub and_then {ℓ ℓ'} :
    {A : Type ℓ} → {A' : Type ℓ'} → Outcome A → (A → Outcome A') → Outcome A'
and_then (done a) f = f a
and_then (threw e) f = threw e

abbrev pub or_throw {ℓ} : {A : Type ℓ} → Failure → Option A → Outcome A
or_throw e none = threw e
or_throw e (some a) = done a

abbrev pub is_blank : Text → Bool
is_blank [] = true
is_blank (c ∷ cs) = false

abbrev pub is_version_1 : Option ℕ → Bool
is_version_1 none = false
is_version_1 (some v) = v == 1

-- `Map.get` and `Map.set`, for the maps by id.
abbrev pub get {ℓ} : {A : Type ℓ} → ℕ → List (ℕ × A) → Option A
get id [] = none
get id (e ∷ es) = if e.0 == id then some e.1 else get id es

abbrev pub set {ℓ} : {A : Type ℓ} → ℕ → A → List (ℕ × A) → List (ℕ × A)
set id a [] = (id, a) ∷ []
set id a (e ∷ es) = if e.0 == id then (id, a) ∷ es else e ∷ set id a es

pub record Client : Type 0 where
  pub cache : List (ℕ × Text)
  pub device_keys : List (ℕ × Text)
  pub session_keys : List (ℕ × Bytes)

abbrev pub get_session_key : ℕ → Client → Option Bytes
get_session_key device s = get device s.session_keys

abbrev pub set_session_key : ℕ → Bytes → Client → Client
set_session_key device key s = record s { session_keys = set device key s.session_keys }

abbrev pub remove_session_key : ℕ → Client → Client
remove_session_key device s = record s {
  session_keys = rows_where (λ e. not (e.0 == device)) s.session_keys;
}

abbrev pub get_cached_plaintext : ℕ → Client → Option Text
get_cached_plaintext message s = get message s.cache

abbrev pub set_cached_plaintext : ℕ → Text → Client → Client
set_cached_plaintext message plaintext s = record s { cache = set message plaintext s.cache }

module _ (r : Reader) where
  abbrev supported : Parsed → Outcome EncryptedEnvelopePayload
  supported unparsable = threw decrypt_error
  supported null = threw other_error
  supported (value p) =
      if not (is_version_1 p.v) || is_blank p.iv || is_blank p.ct
      then threw decrypt_error
      else done p

  abbrev parse_bytes : Option Bytes → Outcome EncryptedEnvelopePayload
  parse_bytes none = threw decrypt_error
  parse_bytes (some bytes) = supported (r.parse_json bytes)

  unfoldable pub parse_envelope_payload : Text → Outcome EncryptedEnvelopePayload
  parse_envelope_payload ciphertext = parse_bytes (r.atob ciphertext)

  unfoldable pub verify_envelope_signature : Text → Text → Text → Text → Outcome Bool
  verify_envelope_signature identity_public_key iv ct sig =
      and_then (or_throw other_error (r.atob identity_public_key)) (λ key.
        and_then (or_throw other_error (r.atob iv)) (λ iv_bytes.
          and_then (or_throw other_error (r.atob ct)) (λ ct_bytes.
            and_then (or_throw other_error (r.atob sig))
              (λ sig_bytes. or_throw other_error (r.verify key sig_bytes (iv_bytes ++ ct_bytes))))))

  -- An envelope without a signature passes.
  abbrev pub check_signature : EncryptedEnvelopePayload → Text → Outcome Bool
  check_signature p identity_public_key =
      if is_blank p.sig
      then done true
      else verify_envelope_signature identity_public_key p.iv p.ct p.sig

  abbrev pub open_body : EncryptedEnvelopePayload → Bytes → Outcome Text
  open_body p key = and_then (or_throw decrypt_error (r.atob p.iv)) (λ iv.
      and_then (or_throw decrypt_error (r.atob p.ct)) (λ ct.
        and_then (or_throw decrypt_error (r.aes_gcm_decrypt key iv ct))
          (λ bytes. done (r.decode bytes))))

  abbrev pub read_payload : EncryptedEnvelopePayload → ℕ → Text → Client → Outcome Text
  read_payload p sender_device identity_public_key s =
      and_then (check_signature p identity_public_key) (λ valid.
        if not valid
        then threw verification_failed_error
        else and_then (or_throw pre_link_error (get_session_key sender_device s)) (open_body p))

  unfoldable pub decrypt_and_verify_envelope : Text → ℕ → Text → Client → Outcome Text
  decrypt_and_verify_envelope ciphertext sender_device identity_public_key s =
      and_then (parse_envelope_payload ciphertext)
        (λ p. read_payload p sender_device identity_public_key s)

pub data Status : Type 0 where
  pending : Status
  decrypted : Status
  unavailable : Status

pub data UnavailableReason : Type 0 where
  pre_link : UnavailableReason
  undecryptable : UnavailableReason
  verification_failed : UnavailableReason

pub record EnvelopeInput : Type 0 where
  pub message_id : ℕ
  pub conversation_id : ℕ
  pub sender_id : ℕ
  pub sender_device_id : Option ℕ
  pub sequence_number : ℕ
  pub content_type : ℕ
  pub created_at : ℕ
  pub ciphertext : Text

pub record InboundMessage : Type 0 where
  pub message_id : ℕ
  pub conversation_id : ℕ
  pub sender_id : ℕ
  pub sender_device_id : Option ℕ
  pub sequence_number : ℕ
  pub content_type : ℕ
  pub created_at : ℕ
  pub status : Status
  pub plaintext : Option Text
  pub unavailable_reason : Option UnavailableReason

abbrev pub unavailable_reason_from_error : Failure → UnavailableReason
unavailable_reason_from_error pre_link_error = pre_link
unavailable_reason_from_error verification_failed_error = verification_failed
unavailable_reason_from_error decrypt_error = undecryptable
unavailable_reason_from_error other_error = undecryptable

abbrev pub base_message : EnvelopeInput → InboundMessage
base_message e = record {
  message_id = e.message_id;
  conversation_id = e.conversation_id;
  sender_id = e.sender_id;
  sender_device_id = e.sender_device_id;
  sequence_number = e.sequence_number;
  content_type = e.content_type;
  created_at = e.created_at;
  status = pending;
  plaintext = none;
  unavailable_reason = none;
}

abbrev pub decrypted_message : EnvelopeInput → Text → InboundMessage
decrypted_message e plaintext = record (base_message e) {
  status = decrypted;
  plaintext = some plaintext;
}

abbrev pub unavailable_message : EnvelopeInput → UnavailableReason → InboundMessage
unavailable_message e reason = record (base_message e) {
  status = unavailable;
  unavailable_reason = some reason;
}

-- A cached text that is empty is no hit.
abbrev pub cache_hit : Option Text → Option Text
cache_hit none = none
cache_hit (some t) = if is_blank t then none else some t

module _ (r : Reader) where
  abbrev pub fetched : ℕ → Option Text → Client → Outcome Text × Client
  fetched device none s = (threw other_error, s)
  fetched device (some key) s = (done key, record s { device_keys = set device key s.device_keys })

  abbrev pub key_from : ℕ → (ℕ → Option Text) → Client → Option Text → Outcome Text × Client
  key_from device server s (some key) = (done key, s)
  key_from device server s none = fetched device (server device) s

  unfoldable pub fetch_sender_device_public_key :
      ℕ → (ℕ → Option Text) → Client → Outcome Text × Client
  fetch_sender_device_public_key device server s =
      key_from device server s (get device s.device_keys)

  abbrev pub conclude : EnvelopeInput → Outcome Text → Client → InboundMessage × Client
  conclude e (threw x) s = (unavailable_message e (unavailable_reason_from_error x), s)
  conclude e (done plaintext) s =
      (decrypted_message e plaintext, set_cached_plaintext e.message_id plaintext s)

  abbrev pub read_with_key : EnvelopeInput → ℕ → Outcome Text × Client → InboundMessage × Client
  read_with_key e device (key, s) =
      conclude e (and_then key (λ k. decrypt_and_verify_envelope r e.ciphertext device k s)) s

  abbrev pub read_from :
      EnvelopeInput → (ℕ → Option Text) → Client → Option ℕ → InboundMessage × Client
  read_from e server s none = (unavailable_message e pre_link, s)
  read_from e server s (some device) =
      read_with_key e device (fetch_sender_device_public_key device server s)

  abbrev pub unless_cached :
      EnvelopeInput → (ℕ → Option Text) → Client → Option Text → InboundMessage × Client
  unless_cached e server s (some plaintext) = (decrypted_message e plaintext, s)
  unless_cached e server s none = read_from e server s e.sender_device_id

  unfoldable pub process_inbound_envelope :
      EnvelopeInput → (ℕ → Option Text) → Client → InboundMessage × Client
  process_inbound_envelope e server s =
      unless_cached e server s (cache_hit (get_cached_plaintext e.message_id s))

abbrev pub sort_by_sequence_number : List InboundMessage → List InboundMessage
sort_by_sequence_number = order_asc (λ m. m.sequence_number)

abbrev or_kept {ℓ} : {A : Type ℓ} → Option A → Option A → Option A
or_kept none kept = kept
or_kept (some a) kept = some a

-- `{ ...existing, ...incoming }`, where the optional fields of `incoming` may be missing.
abbrev pub spread : InboundMessage → InboundMessage → InboundMessage
spread existing incoming = record incoming {
  plaintext = or_kept incoming.plaintext existing.plaintext;
  unavailable_reason = or_kept incoming.unavailable_reason existing.unavailable_reason;
}

abbrev pub is_decrypted : Status → Bool
is_decrypted pending = false
is_decrypted decrypted = true
is_decrypted unavailable = false

unfoldable pub merge_inbound_message : Option InboundMessage → InboundMessage → InboundMessage
merge_inbound_message none incoming = incoming
merge_inbound_message (some existing) incoming =
    if is_decrypted existing.status then existing else spread existing incoming
