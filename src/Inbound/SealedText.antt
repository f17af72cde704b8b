-- ===== src/Inbound/SealedText.antt =====
-- The messages that the application sends, received by the application.
use clicked.Prelude.{ℕ, ◌≡◌, refl, sym, ap, ◌∙◌, Option, none, some, ◌∷◌, ◌++◌, ◌>>=◌}
use clicked.KeyMaterial.{Text, Bytes}
use clicked.SealedBox.{
  Subtle, IsSubtle, RecipientKey, import_recipient_public_key, derive_aes_key, sealed_box_encrypt,
}
use clicked.Inbound.{
  Reader, Client, unparsable, threw, decrypt_error, parse_bytes, parse_envelope_payload,
  decrypt_and_verify_envelope, EnvelopeInput, unavailable_message, undecryptable, cache_hit,
  get_cached_plaintext, read_with_key, read_from, unless_cached, get, fetched, key_from,
  fetch_sender_device_public_key, process_inbound_envelope,
}

-- The reader has the sender's base64, and no JSON text begins with the control character U+0004.
pub record IsReaderOf {K S : Type 0} (c : Subtle K S) (r : Reader) : Type 0 where
  pub same_atob : (t : Text) → r.atob t ≡ c.atob t
  pub control_character : (rest : Bytes) → r.parse_json (4 ∷ rest) ≡ unparsable

module _ {K S : Type 0} (c : Subtle K S) (r : Reader) where
  sealed-unparsable :
      (law : IsSubtle c) (reader : IsReaderOf c r) (plaintext : S) (recipient : Text)
      (ephemeral iv : Bytes) (sealed : Text)
      → sealed_box_encrypt c plaintext recipient ephemeral iv ≡ some sealed
      → parse_envelope_payload r sealed ≡ threw decrypt_error
  unfolding sealed_box_encrypt parse_envelope_payload
  sealed-unparsable law reader plaintext recipient ephemeral iv sealed e =
      by_key (import_recipient_public_key c recipient) e
    where
      by_key :
          (o : Option (RecipientKey K))
          → (o >>= (λ key. some (
              c.btoa (
                c.export_raw ephemeral
                ++ (iv
                    ++ c.aes_gcm_encrypt
                        (derive_aes_key c key ephemeral (c.encode_label "clicked-sealed-box-v1"))
                        iv
                        (c.encode plaintext))))))
            ≡ some sealed
          → parse_bytes r (r.atob sealed) ≡ threw decrypt_error
      by_key none h = cc
      by_key (some key) h =
          let body =
            iv
            ++ c.aes_gcm_encrypt
                (derive_aes_key c key ephemeral (c.encode_label "clicked-sealed-box-v1")) iv
                (c.encode plaintext) in
          let (rest, point, size) = law.export_raw-point ephemeral in
          let text : c.btoa (c.export_raw ephemeral ++ body) ≡ sealed = cc in
          let bytes : r.atob sealed ≡ some (4 ∷ (rest ++ body)) =
            ap r.atob (sym text)
            ∙ reader.same_atob (c.btoa (c.export_raw ephemeral ++ body))
            ∙ law.atob-btoa (c.export_raw ephemeral ++ body)
            ∙ ap (λ k. some (k ++ body)) point in
          rw (bytes, reader.control_character (rest ++ body)) refl

  -- A ciphertext that `sealed_box_encrypt` has made, which is what the application sends, is never
  -- read by the receiving application: unless the text is cached already, the message is unavailable
  -- and the client has cached no text.
  pub sealed-unavailable :
      (law : IsSubtle c) (reader : IsReaderOf c r) (plaintext : S) (recipient : Text)
      (ephemeral iv : Bytes) (e : EnvelopeInput) (device : ℕ) (server : ℕ → Option Text)
      (s : Client)
      → sealed_box_encrypt c plaintext recipient ephemeral iv ≡ some e.ciphertext
      → e.sender_device_id ≡ some device
      → get_cached_plaintext e.message_id s ≡ none
      → ((process_inbound_envelope r e server s).0 ≡ unavailable_message e undecryptable)
        × ((process_inbound_envelope r e server s).1.cache ≡ s.cache)
  unfolding process_inbound_envelope decrypt_and_verify_envelope fetch_sender_device_public_key
  sealed-unavailable law reader plaintext recipient ephemeral iv e device server s sealed sender
        uncached =
      let start : process_inbound_envelope r e server s ≡ read_from r e server s (some device) =
        ap (λ o. unless_cached r e server s (cache_hit o)) uncached
        ∙ ap (read_from r e server s) sender in
      rw start (by_known (get device s.device_keys))
    where
      broken : parse_envelope_payload r e.ciphertext ≡ threw decrypt_error
      broken = sealed-unparsable law reader plaintext recipient ephemeral iv e.ciphertext sealed

      by_reply :
          (o : Option Text)
          → ((read_with_key r e device (fetched r device o s)).0
              ≡ unavailable_message e undecryptable)
            × ((read_with_key r e device (fetched r device o s)).1.cache ≡ s.cache)
      by_reply none = (refl, refl)
      by_reply (some key) = rw broken (refl, refl)

      by_known :
          (o : Option Text)
          → ((read_with_key r e device (key_from r device server s o)).0
              ≡ unavailable_message e undecryptable)
            × ((read_with_key r e device (key_from r device server s o)).1.cache ≡ s.cache)
      by_known none = by_reply (server device)
      by_known (some key) = rw broken (refl, refl)
