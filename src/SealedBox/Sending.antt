-- ===== src/SealedBox/Sending.antt =====
-- What is posted when a message is sent.
use clicked.Prelude.{
  ℕ, ◌≡◌, refl, sym, subst, Option, none, some, true, has, map, List, [], ◌∷◌, All,
}
use clicked.KeyMaterial.{Text, Bytes}
use clicked.IdentityTrust.{Trust, Json, IsJson, DeviceRecord, assert_devices_trusted}
use clicked.IdentityTrust.Groups.{IsPlainRecord}
use clicked.IdentityTrust.Batch.{IsPlainTrust, IsPinned, assert_devices_trusted-Pinned}
use clicked.SealedBox.{
  Subtle, MessageEnvelope, done, found, Server, sealed_box_encrypt, with_envelope, seal_all,
  build_after, sealed, build_envelopes,
}

module _ {K S R : Type 0} (c : Subtle K S) (j : Json R) where
  -- One envelope for each device, in order, with the box for its key.
  pub Boxed : S → (ℕ → Bytes × Bytes) → List MessageEnvelope → List DeviceRecord → Type 0
  Boxed plaintext random [] [] = Unit
  Boxed plaintext random [] (d ∷ ds) = ⊥
  Boxed plaintext random (e ∷ es) [] = ⊥
  Boxed plaintext random (e ∷ es) (d ∷ ds) =
      (e.recipient_device_id ≡ d.id)
      × (sealed_box_encrypt c plaintext d.identity_public_key (random d.id).0 (random d.id).1
          ≡ some e.ciphertext)
      × Boxed plaintext random es ds

  with_envelope-some :
      (id : ℕ) (box : Option Text) (rest : Option (List MessageEnvelope))
      (es : List MessageEnvelope)
      → with_envelope c j id box rest ≡ some es
      → (ciphertext : Text) × (others : List MessageEnvelope) × (box ≡ some ciphertext)
        × (rest ≡ some others)
        × (es ≡ record { recipient_device_id = id; ciphertext = ciphertext } ∷ others)
  with_envelope-some id none rest es e = cc
  with_envelope-some id (some ciphertext) none es e = cc
  with_envelope-some id (some ciphertext) (some others) es e = (ciphertext, others, refl, refl, cc)

  seal_all-Boxed :
      (plaintext : S) (random : ℕ → Bytes × Bytes) (devices : List DeviceRecord)
      (es : List MessageEnvelope)
      → seal_all c j plaintext random devices ≡ some es
      → Boxed plaintext random es devices
  unfolding Boxed
  seal_all-Boxed plaintext random [] es e =
      let nothing : es ≡ [] = cc in subst (λ x. Boxed plaintext random x []) (sym nothing) tt
  seal_all-Boxed plaintext random (d ∷ ds) es e =
      let (ciphertext, others, box, rest, whole) =
        with_envelope-some d.id
          (sealed_box_encrypt c plaintext d.identity_public_key (random d.id).0 (random d.id).1)
          (seal_all c j plaintext random ds) es e in
      subst (λ x. Boxed plaintext random x (d ∷ ds)) (sym whole)
        (refl, box, seal_all-Boxed plaintext random ds others rest)

  sealed-done :
      (o : Option (List MessageEnvelope)) (es : List MessageEnvelope)
      → sealed c j o ≡ done es
      → o ≡ some es
  sealed-done none es e = cc
  sealed-done (some xs) es e = cc

  build_after-done :
      (plaintext : S) (random : ℕ → Bytes × Bytes) (devices : List DeviceRecord)
      (error : Option (ℕ × List ℕ)) (es : List MessageEnvelope)
      → build_after c j plaintext random devices error ≡ done es
      → (error ≡ none) × (seal_all c j plaintext random devices ≡ some es)
  build_after-done plaintext random devices none es e =
      (refl, sealed-done (seal_all c j plaintext random devices) es e)
  build_after-done plaintext random devices (some error) es e = cc

  -- Envelopes are built only for a batch in which every user's devices are the pinned ones, and then
  -- there is one for each device.
  pub build_envelopes-Boxed :
      (law : IsJson j) (plaintext : S) (random : ℕ → Bytes × Bytes) (now : ℕ)
      (devices : List DeviceRecord) (s : Trust R) (es : List MessageEnvelope)
      → All (IsPlainRecord j) devices
      → IsPlainTrust j s
      → (build_envelopes c j plaintext random now devices s).0 ≡ done es
      → Boxed plaintext random es devices
        × ((user : ℕ)
            → has user (map (λ d. d.user_id) devices) ≡ true
            → IsPinned j (build_envelopes c j plaintext random now devices s).1 devices user)
  unfolding build_envelopes
  build_envelopes-Boxed law plaintext random now devices s es plain h e =
      let (passed, boxes) =
        build_after-done plaintext random devices (assert_devices_trusted j now devices s).0 es e in
      (
        seal_all-Boxed plaintext random devices es boxes,
        assert_devices_trusted-Pinned j law now devices s plain h passed,
      )

  -- Envelopes for the devices that the server has reported at an attempt, whose users are pinned with
  -- exactly these devices.
  pub record IsFor (server : Server) (plaintext : S) (random : ℕ → ℕ → Bytes × Bytes) (s : Trust R)
      (es : List MessageEnvelope) : Type 0 where
    pub n : ℕ
    pub devices : List DeviceRecord
    pub reported : server.devices n ≡ found devices
    pub boxed : Boxed plaintext (random n) es devices
    pub pinned :
        (user : ℕ) → has user (map (λ d. d.user_id) devices) ≡ true → IsPinned j s devices user
