-- ===== src/SealedBox/Tests.antt =====
-- A message to the devices of two users.
use clicked.Prelude.{ℕ, zero, suc, ◌≡◌, refl, none, some, [], ◌∷◌, ◌++◌, ◌==◌, if◌then◌else◌}
use clicked.KeyMaterial.{
  Text, Bytes, base64_byte_length, is_valid_base64, key_issues, b64_length_refinement,
}
use clicked.IdentityTrust.{
  TrustedSnapshot, Trust, Json, DeviceRecord, fingerprint_of, get_trusted_snapshot, trust_devices,
  check_identity_change, assert_devices_trusted,
}
use clicked.SealedBox.{
  zeros, done, DevicesReply, found, Server, mismatch, import_recipient_public_key, derive_aes_key,
  sealed_box_encrypt, fetch_conversation_devices, build_envelopes, send_encrypted_message,
}
use clicked.SealedBox.Toy.{toy, toy-IsSubtle}
use clicked.SealedBox.Opened.{open_with_public_key, sealed_box_encrypt-opened}

abbrev copies : ℕ → ℕ → Text
copies zero c = []
copies (suc n) c = c ∷ copies n c

-- 44 bytes.
abbrev identity : ℕ → Text
identity c = copies 59 c ++ (61 ∷ [])

sealed_box_encrypt-opened_example :
    (sealed : Text) × (sealed_box_encrypt toy (1 ∷ 2 ∷ []) (identity 65) (9 ∷ []) (zeros 12)
      ≡ some sealed)
    × (open_with_public_key toy (identity 65) sealed ≡ some (1 ∷ 2 ∷ []))
unfolding key_issues b64_length_refinement base64_byte_length is_valid_base64
sealed_box_encrypt-opened_example =
    sealed_box_encrypt-opened toy toy-IsSubtle (1 ∷ 2 ∷ []) (identity 65) (9 ∷ []) (zeros 12) refl
      refl

abbrev plain : Json TrustedSnapshot
plain = record { id_text = λ n. n ∷ []; stringify = λ s. s; parse = λ r. some r }

abbrev empty : Trust TrustedSnapshot
empty = record { stored = []; handlers = []; resets = [] }

abbrev phone : DeviceRecord
phone = record { id = 3; user_id = 7; identity_public_key = identity 65 }

abbrev laptop : DeviceRecord
laptop = record { id = 4; user_id = 7; identity_public_key = identity 66 }

abbrev friend : DeviceRecord
friend = record { id = 5; user_id = 8; identity_public_key = identity 67 }

-- The first set of devices is out of date.
abbrev server : Server
server = record {
  devices = devices_at;
  post = λ n es.
      if n == 0
      then record { status = 409; error = some mismatch }
      else record { status = 201; error = none };
}
  where
    devices_at : ℕ → DevicesReply
    devices_at zero = found (phone ∷ [])
    devices_at (suc n) = found (phone ∷ friend ∷ [])

abbrev random : ℕ → ℕ → Bytes × Bytes
random n id = (n ∷ id ∷ [], zeros 12)

retried :
    (send_encrypted_message toy plain server (1 ∷ []) random 100 empty).reply
    ≡ done (record { status = 201; error = none })
unfolding toy send_encrypted_message fetch_conversation_devices build_envelopes sealed_box_encrypt
    import_recipient_public_key derive_aes_key assert_devices_trusted check_identity_change
    get_trusted_snapshot trust_devices fingerprint_of base64_byte_length is_valid_base64
retried = refl
