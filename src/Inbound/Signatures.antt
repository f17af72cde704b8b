-- ===== src/Inbound/Signatures.antt =====
-- What the signature of an envelope is worth.
use clicked.Prelude.{ℕ, ◌≡◌, refl, some, false, []}
use clicked.KeyMaterial.{Text, Bytes}
use clicked.Inbound.{
  Reader, Client, EncryptedEnvelopePayload, done, threw, is_blank, verification_failed_error,
  get_session_key, open_body, verify_envelope_signature, parse_envelope_payload,
  decrypt_and_verify_envelope,
}

abbrev pub unsigned : EncryptedEnvelopePayload → EncryptedEnvelopePayload
unsigned p = record p { sig = [] }

module _ (r : Reader) where
  -- An envelope whose signature is refused is not read; the same envelope with its signature taken
  -- off is read whenever its body opens under the session key, for any identity key of the sender.
  pub unsigned-read :
      (ciphertext stripped : Text) (p : EncryptedEnvelopePayload) (device : ℕ)
      (identity_public_key other_key : Text) (s : Client) (key : Bytes) (plaintext : Text)
      → parse_envelope_payload r ciphertext ≡ done p
      → parse_envelope_payload r stripped ≡ done (unsigned p)
      → is_blank p.sig ≡ false
      → verify_envelope_signature r identity_public_key p.iv p.ct p.sig ≡ done false
      → get_session_key device s ≡ some key
      → open_body r p key ≡ done plaintext
      → (decrypt_and_verify_envelope r ciphertext device identity_public_key s
          ≡ threw verification_failed_error)
        × (decrypt_and_verify_envelope r stripped device other_key s ≡ done plaintext)
  unfolding decrypt_and_verify_envelope
  unsigned-read ciphertext stripped p device identity_public_key other_key s key plaintext parsed
        parsed' signed refused known opens =
      (rw (parsed, signed, refused) refl, rw (parsed', known) opens)
