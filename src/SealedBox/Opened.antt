-- ===== src/SealedBox/Opened.antt =====
-- Who can open a sealed box.
use clicked.Prelude.{
  ℕ, zero, suc, ◌≡◌, refl, sym, ap, ◌∙◌, Option, some, [], ◌∷◌, ◌++◌, take, length, arith, ◌>>=◌,
}
use clicked.KeyMaterial.{Text, Bytes, identity_public_key_issues}
use clicked.KeyMaterial.Sizes.{key_issues-refinement}
use clicked.SealedBox.{
  Subtle, IsSubtle, hkdf, zeros, import_recipient_bytes, import_recipient_public_key,
  derive_aes_key, sealed_box_encrypt,
}

abbrev pub drop : ℕ → Bytes → Bytes
drop zero bs = bs
drop (suc n) [] = []
drop (suc n) (b ∷ bs) = drop n bs

drop-append : (xs ys : Bytes) (n : ℕ) → length xs ≡ n → drop n (xs ++ ys) ≡ ys
drop-append [] ys n e = rw (sym e) refl
drop-append (x ∷ xs) ys zero e = absurd (omega arith)
drop-append (x ∷ xs) ys (suc n) e = drop-append xs ys n (omega arith)

take-append : (xs ys : Bytes) (n : ℕ) → length xs ≡ n → take n (xs ++ ys) ≡ xs
take-append [] ys n e = rw (sym e) refl
take-append (x ∷ xs) ys zero e = absurd (omega arith)
take-append (x ∷ xs) ys (suc n) e = ap (◌∷◌ x) (take-append xs ys n (omega arith))

module _ {K S : Type 0} (c : Subtle K S) where
  -- Opening a box with nothing but the public key to which it was sealed.
  unfoldable pub open_with_public_key : Text → Text → Option S
  open_with_public_key identity sealed = do
    material ← c.atob identity
    packed ← c.atob sealed
    plaintext ←
        c.aes_gcm_decrypt
          (c.derive_hkdf material (zeros 32) (c.encode_label "clicked-sealed-box-v1"))
          (take 12 (drop 65 packed)) (drop 12 (drop 65 packed))
    some (c.decode plaintext)

  -- A key of 44 bytes is not imported as a key of the curve.
  import_recipient_bytes-hkdf :
      (raw : Bytes) → length raw ≡ 44 → import_recipient_bytes c raw ≡ some (hkdf raw)
  import_recipient_bytes-hkdf raw e = rw e refl

  -- A message to any identity key that the server registers is sealed, and whoever knows that public
  -- key, as the server does, can open it: no private key takes part.
  pub sealed_box_encrypt-opened :
      (law : IsSubtle c) (plaintext : S) (identity : Text) (ephemeral iv : Bytes)
      → identity_public_key_issues identity ≡ []
      → length iv ≡ 12
      → (sealed : Text) × (sealed_box_encrypt c plaintext identity ephemeral iv ≡ some sealed)
        × (open_with_public_key identity sealed ≡ some plaintext)
  unfolding sealed_box_encrypt import_recipient_public_key derive_aes_key open_with_public_key
  sealed_box_encrypt-opened law plaintext identity ephemeral iv accepted size =
      let (material, read, length_44) =
        law.atob-length identity 44 ((key_issues-refinement 44 identity).0 accepted) in
      let key = c.derive_hkdf material (zeros 32) (c.encode_label "clicked-sealed-box-v1") in
      let box = c.aes_gcm_encrypt key iv (c.encode plaintext) in
      let packed = c.export_raw ephemeral ++ (iv ++ box) in
      let (rest, point, length_64) = law.export_raw-point ephemeral in
      let exported : length (c.export_raw ephemeral) ≡ 65 = ap length point ∙ omega arith in
      let body : drop 65 packed ≡ iv ++ box =
        drop-append (c.export_raw ephemeral) (iv ++ box) 65 exported in
      (
        c.btoa packed,
        rw (read, import_recipient_bytes-hkdf material length_44) refl,
        rw
            (
              read,
              law.atob-btoa packed,
              body,
              take-append iv box 12 size,
              drop-append iv box 12 size,
              law.decrypt-encrypt key iv (c.encode plaintext),
              law.decode-encode plaintext,
            )
            refl,
      )
