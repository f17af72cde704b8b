-- ===== src/Inbound/Tests.antt =====
-- Envelopes that are read, refused and cached.
use clicked.Prelude.{
  ℕ, ◌≡◌, refl, Option, none, some, Bool, false, List, [], ◌∷◌, ◌++◌, ◌==◌, if◌then◌else◌,
}
use clicked.KeyMaterial.{Text, Bytes}
use clicked.SealedBox.{zeros, import_recipient_public_key, derive_aes_key, sealed_box_encrypt}
use clicked.SealedBox.Toy.{toy, toy-IsSubtle}
use clicked.Inbound.{
  EncryptedEnvelopePayload, Parsed, unparsable, value, Reader, done, threw,
  verification_failed_error, Client, parse_envelope_payload, verify_envelope_signature,
  decrypt_and_verify_envelope, fetch_sender_device_public_key, EnvelopeInput, InboundMessage,
  decrypted_message, unavailable_message, undecryptable, pre_link, process_inbound_envelope,
}
use clicked.Inbound.Signatures.{unsigned-read}
use clicked.Inbound.Caching.{
  Event, received, session_removed, after_events, process_inbound_envelope-again,
}
use clicked.Inbound.Merging.{merge_all, reading, first_decrypted, IsWhole, merge_all-reading}
use clicked.Inbound.SealedText.{IsReaderOf, sealed-unavailable}

-- The JSON of an envelope is `{`, its vector and its body, each of one character, and its signature.
abbrev fields : Bytes → Parsed
fields [] = unparsable
fields (iv ∷ []) = unparsable
fields (iv ∷ ct ∷ sig) =
    value (record { v = some 1; iv = 0 ∷ iv ∷ []; ct = 0 ∷ ct ∷ []; sig = sig })

abbrev parse : Bytes → Parsed
parse [] = unparsable
parse (b ∷ bs) = if b == 123 then fields bs else unparsable

abbrev same_head : Bytes → Bytes → Bool
same_head [] cs = false
same_head (b ∷ bs) [] = false
same_head (b ∷ bs) (c ∷ cs) = b == c

abbrev reader : Reader
reader = record {
  atob = toy.atob;
  parse_json = parse;
  verify = λ key signature message. some (same_head key signature);
  aes_gcm_decrypt = λ key iv ciphertext. some ciphertext;
  decode = λ bytes. bytes;
}

reader-IsReaderOf : IsReaderOf toy reader
reader-IsReaderOf = record { same_atob = λ t. refl; control_character = λ rest. refl }

-- A client with a session with the device 3.
abbrev client : Client
client = record { cache = []; device_keys = []; session_keys = (3, (9 ∷ [])) ∷ [] }

-- The device 3 has the identity key 7.
abbrev server : ℕ → Option Text
server device = if device == 3 then some (0 ∷ 7 ∷ []) else none

abbrev envelope : Text → EnvelopeInput
envelope ciphertext = record {
  message_id = 50;
  conversation_id = 1;
  sender_id = 2;
  sender_device_id = some 3;
  sequence_number = 4;
  content_type = 0;
  created_at = 100;
  ciphertext = ciphertext;
}

abbrev signed_text : Text
signed_text = 0 ∷ 123 ∷ 5 ∷ 6 ∷ 0 ∷ 7 ∷ []

abbrev forged_text : Text
forged_text = 0 ∷ 123 ∷ 5 ∷ 6 ∷ 0 ∷ 8 ∷ []

abbrev stripped_text : Text
stripped_text = 0 ∷ 123 ∷ 5 ∷ 6 ∷ []

abbrev forged : EncryptedEnvelopePayload
forged = record { v = some 1; iv = 0 ∷ 5 ∷ []; ct = 0 ∷ 6 ∷ []; sig = 0 ∷ 8 ∷ [] }

read :
    (process_inbound_envelope reader (envelope signed_text) server client).0
    ≡ decrypted_message (envelope signed_text) (6 ∷ [])
unfolding toy process_inbound_envelope fetch_sender_device_public_key decrypt_and_verify_envelope
    parse_envelope_payload verify_envelope_signature
read = refl

unsigned-read_example :
    (decrypt_and_verify_envelope reader forged_text 3 (0 ∷ 7 ∷ []) client
      ≡ threw verification_failed_error)
    × (decrypt_and_verify_envelope reader stripped_text 3 [] client ≡ done (6 ∷ []))
unfolding toy parse_envelope_payload verify_envelope_signature
unsigned-read_example =
    unsigned-read reader forged_text stripped_text forged 3 (0 ∷ 7 ∷ []) [] client (9 ∷ []) (6 ∷ [])
      refl refl refl refl refl refl

-- Another message comes in and the session is removed.
abbrev meanwhile : List (Event reader)
meanwhile =
    received (record (envelope stripped_text) { message_id = 51 }) server
    ∷ session_removed 3
    ∷ received (envelope forged_text) server
    ∷ []

abbrev later : Client
later =
    after_events reader meanwhile
      (process_inbound_envelope reader (envelope signed_text) server client).1

process_inbound_envelope-again_example :
    process_inbound_envelope reader (envelope []) (λ device. none) later
    ≡ (decrypted_message (envelope []) (6 ∷ []), later)
unfolding toy process_inbound_envelope fetch_sender_device_public_key decrypt_and_verify_envelope
    parse_envelope_payload verify_envelope_signature
process_inbound_envelope-again_example =
    process_inbound_envelope-again reader (envelope signed_text) (envelope []) server
      (λ device. none) client (6 ∷ []) meanwhile refl refl refl

abbrev unread : InboundMessage
unread = unavailable_message (envelope []) pre_link

abbrev read_once : InboundMessage
read_once = decrypted_message (envelope []) (6 ∷ [])

merge_all-reading_example :
    reading (merge_all none (unread ∷ read_once ∷ unread ∷ []))
    ≡ reading (first_decrypted (unread ∷ read_once ∷ unread ∷ []))
unfolding IsWhole
merge_all-reading_example =
    merge_all-reading (unread ∷ read_once ∷ unread ∷ []) (refl, (refl, (refl, tt)))

-- A box for an identity key of 44 bytes.
abbrev identity : Text
identity = 0 ∷ zeros 44

abbrev boxed : Text
boxed = 0 ∷ 4 ∷ (zeros 64 ++ (zeros 12 ++ (0 ∷ 1 ∷ [])))

sealed-unavailable_example :
    ((process_inbound_envelope reader (envelope boxed) server client).0
      ≡ unavailable_message (envelope boxed) undecryptable)
    × ((process_inbound_envelope reader (envelope boxed) server client).1.cache ≡ client.cache)
unfolding toy sealed_box_encrypt import_recipient_public_key derive_aes_key
sealed-unavailable_example =
    sealed-unavailable toy reader toy-IsSubtle reader-IsReaderOf (1 ∷ []) identity (9 ∷ [])
      (zeros 12) (envelope boxed) 3 server client refl refl refl
