-- ===== src/SealedBox.antt =====
-- Sending a message to devices (apps/web/src/lib/crypto.ts): the sealed box of a device, the envelopes
-- of a batch of devices, and the request with its one retry. WebCrypto, base64 and the text encoder
-- are libraries: `Subtle` has their functions and `IsSubtle` what they document. Random bytes are
-- arguments, and the exchange with the server is a function of the attempt.
pub mod Opened
pub mod Sending
pub mod Toy
mod Tests
use Prim.Native.String.{String}
use mathlib.Core.Option
use clicked.Prelude.{
  ℕ, zero, suc, ◌+◌, ◌≡◌, ◌≤◌, Option, none, some, Bool, true, false, not, ◌&&◌, ◌||◌, List, [],
  ◌∷◌, ◌++◌, map, leb, ◌==◌, if◌then◌else◌, length, ◌>>=◌,
}
use clicked.KeyMaterial.{Text, Bytes, base64_byte_length}
use clicked.IdentityTrust.{Trust, Json, DeviceRecord, assert_devices_trusted}

-- `K` is an imported P-256 public key and `S` a plaintext string. Importing gives nothing where it
-- throws.
pub record Subtle (K S : Type 0) : Type 0 where
  pub atob : Text → Option Bytes
  pub btoa : Bytes → Text
  pub import_raw : Bytes → Option K
  pub import_spki : Bytes → Option K
  pub export_raw : (private_key : Bytes) → Bytes
  pub derive_ecdh : K → (private_key : Bytes) → Bytes
  pub derive_hkdf : (material salt info : Bytes) → Bytes
  pub aes_gcm_encrypt : (key iv plaintext : Bytes) → Bytes
  pub aes_gcm_decrypt : (key iv ciphertext : Bytes) → Option Bytes
  pub encode : S → Bytes
  pub decode : Bytes → S
  pub encode_label : String → Bytes

pub record IsSubtle {K S : Type 0} (c : Subtle K S) : Type 0 where
  -- Text that is base64 decodes, to as many bytes as its length and padding say.
  pub atob-length :
      (s : Text) (n : ℕ)
      → base64_byte_length s ≡ some n
      → (bytes : Bytes) × (c.atob s ≡ some bytes) × (length bytes ≡ n)
  pub atob-btoa : (bytes : Bytes) → c.atob (c.btoa bytes) ≡ some bytes
  -- The raw form of a P-256 public key is an uncompressed point.
  pub export_raw-point :
      (key : Bytes) → (rest : Bytes) × (c.export_raw key ≡ 4 ∷ rest) × (length rest ≡ 64)
  pub decrypt-encrypt :
      (key iv plaintext : Bytes)
      → c.aes_gcm_decrypt key iv (c.aes_gcm_encrypt key iv plaintext) ≡ some plaintext
  pub decode-encode : (s : S) → c.decode (c.encode s) ≡ s

pub data RecipientKey (K : Type 0) : Type 0 where
  ecdh : K → RecipientKey K
  hkdf : Bytes → RecipientKey K

abbrev pub zeros : ℕ → Bytes
zeros zero = []
zeros (suc n) = 0 ∷ zeros n

abbrev pub starts_with : ℕ → Bytes → Bool
starts_with b [] = false
starts_with b (c ∷ cs) = c == b

module _ {K S : Type 0} (c : Subtle K S) where
  abbrev pub import_recipient_bytes : Bytes → Option (RecipientKey K)
  import_recipient_bytes raw =
      if length raw == 65 && starts_with 4 raw
      then Option.map ecdh (c.import_raw raw)
      else if length raw == 91
      then Option.map ecdh (c.import_spki raw)
      else some (hkdf raw)

  unfoldable pub import_recipient_public_key : Text → Option (RecipientKey K)
  import_recipient_public_key identity = c.atob identity >>= import_recipient_bytes

  unfoldable pub derive_aes_key : RecipientKey K → Bytes → Bytes → Bytes
  derive_aes_key (hkdf material) ephemeral info = c.derive_hkdf material (zeros 32) info
  derive_aes_key (ecdh key) ephemeral info = c.derive_ecdh key ephemeral

  -- `iv` and the ephemeral private key are random.
  unfoldable pub sealed_box_encrypt : S → Text → Bytes → Bytes → Option Text
  sealed_box_encrypt plaintext recipient ephemeral iv = do
    key ← import_recipient_public_key recipient
    some (
        c.btoa (
          c.export_raw ephemeral
          ++ (iv
              ++ c.aes_gcm_encrypt
                  (derive_aes_key key ephemeral (c.encode_label "clicked-sealed-box-v1")) iv
                  (c.encode plaintext))))

pub record MessageEnvelope : Type 0 where
  pub recipient_device_id : ℕ
  pub ciphertext : Text

-- The errors that the functions throw.
pub data SendError : Type 0 where
  identity_key_changed : ℕ × List ℕ → SendError
  not_importable : SendError
  device_set_mismatch : SendError
  device_list_failed : ℕ → SendError
  send_failed : ℕ → Option ℕ → SendError

pub data Outcome {ℓ} (A : Type ℓ) : Type ℓ where
  done : A → Outcome A
  threw : SendError → Outcome A

-- The reply to the request for the devices of a conversation.
pub data DevicesReply : Type 0 where
  found : List DeviceRecord → DevicesReply
  refused : ℕ → DevicesReply

-- The reply to a posted message; an error of the body is a number, and `mismatch` is
-- `device_set_mismatch`.
pub record Response : Type 0 where
  pub status : ℕ
  pub error : Option ℕ

-- The server's replies at an attempt.
pub record Server : Type 0 where
  pub devices : ℕ → DevicesReply
  pub post : ℕ → List MessageEnvelope → Response

abbrev pub mismatch : ℕ
mismatch = 0

abbrev pub is_ok : Response → Bool
is_ok r = leb 200 r.status && leb r.status 299

abbrev pub is_mismatch : Response → Bool
is_mismatch r = r.status == 409 && is_error r.error
  where
    is_error : Option ℕ → Bool
    is_error none = false
    is_error (some e) = e == mismatch

unfoldable pub fetch_conversation_devices : DevicesReply → Outcome (List DeviceRecord)
fetch_conversation_devices (found devices) = done devices
fetch_conversation_devices (refused status) =
    if status == 409 then threw device_set_mismatch else threw (device_list_failed status)

module _ {K S R : Type 0} (c : Subtle K S) (j : Json R) where
  abbrev with_envelope :
      ℕ → Option Text → Option (List MessageEnvelope) → Option (List MessageEnvelope)
  with_envelope id none rest = none
  with_envelope id (some ciphertext) none = none
  with_envelope id (some ciphertext) (some rest) =
      some (record { recipient_device_id = id; ciphertext = ciphertext } ∷ rest)

  -- `Promise.all` of the boxes; `random` has a device's ephemeral private key and vector.
  abbrev pub seal_all : S → (ℕ → Bytes × Bytes) → List DeviceRecord → Option (List MessageEnvelope)
  seal_all plaintext random [] = some []
  seal_all plaintext random (d ∷ ds) =
      with_envelope d.id
        (sealed_box_encrypt c plaintext d.identity_public_key (random d.id).0 (random d.id).1)
        (seal_all plaintext random ds)

  abbrev sealed : Option (List MessageEnvelope) → Outcome (List MessageEnvelope)
  sealed none = threw not_importable
  sealed (some es) = done es

  abbrev pub build_after :
      S
      → (ℕ → Bytes × Bytes)
      → List DeviceRecord
      → Option (ℕ × List ℕ)
      → Outcome (List MessageEnvelope)
  build_after plaintext random devices none = sealed (seal_all plaintext random devices)
  build_after plaintext random devices (some error) = threw (identity_key_changed error)

  unfoldable pub build_envelopes :
      S
      → (ℕ → Bytes × Bytes)
      → ℕ
      → List DeviceRecord
      → Trust R
      → Outcome (List MessageEnvelope) × Trust R
  build_envelopes plaintext random now devices s =
      let checked = assert_devices_trusted j now devices s in
      (build_after plaintext random devices checked.0, checked.1)

  -- What an attempt does: the envelopes that it posts, if it comes to that, with the reply.
  pub record Attempt : Type 0 where
    pub reply : Outcome Response
    pub posted : List (List MessageEnvelope)
    pub trust : Trust R

  abbrev pub post_built : Server → ℕ → Outcome (List MessageEnvelope) × Trust R → Attempt
  post_built server n (threw e, s) = record { reply = threw e; posted = []; trust = s }
  post_built server n (done es, s) = record {
    reply = done (server.post n es);
    posted = es ∷ [];
    trust = s;
  }

  abbrev pub attempt_with :
      Server → ℕ → S → (ℕ → Bytes × Bytes) → ℕ → Trust R → Outcome (List DeviceRecord) → Attempt
  attempt_with server n plaintext random now s (threw e) = record {
    reply = threw e;
    posted = [];
    trust = s;
  }
  attempt_with server n plaintext random now s (done devices) =
      post_built server n (build_envelopes plaintext random now devices s)

  abbrev pub attempt : Server → ℕ → S → (ℕ → Bytes × Bytes) → ℕ → Trust R → Attempt
  attempt server n plaintext random now s =
      attempt_with server n plaintext random now s (fetch_conversation_devices (server.devices n))

  abbrev pub finish : Attempt → Attempt
  finish a = record a { reply = checked_reply a.reply }
    where
      checked_reply : Outcome Response → Outcome Response
      checked_reply (threw e) = threw e
      checked_reply (done r) = if is_ok r then done r else threw (send_failed r.status r.error)

  -- The second attempt adds to what has been posted.
  abbrev pub retry_after : Attempt → Attempt → Outcome Response → Attempt
  retry_after first second (threw e) = first
  retry_after first second (done r) =
      if is_mismatch r
      then record {
        reply = second.reply;
        posted = first.posted ++ second.posted;
        trust = second.trust;
      }
      else first

  unfoldable pub send_encrypted_message :
      Server → S → (ℕ → ℕ → Bytes × Bytes) → ℕ → Trust R → Attempt
  send_encrypted_message server plaintext random now s =
      let first = attempt server 0 plaintext (random 0) now s in
      let second = attempt server 1 plaintext (random 1) now first.trust in
      finish (retry_after first second first.reply)
