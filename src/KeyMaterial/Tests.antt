-- ===== src/KeyMaterial/Tests.antt =====
-- Texts that are accepted and refused.
use clicked.Prelude.{ℕ, zero, suc, ◌≡◌, ◌↔◌, refl, some, [], ◌∷◌, ◌++◌}
use clicked.KeyMaterial.{
  Text, wrong_length, is_valid_base64, base64_byte_length, b64_length_refinement, key_issues,
  identity_public_key_issues, mls_key_package_issues,
}
use clicked.KeyMaterial.Base64.{IsBase64Of, key_issues-accepted_iff}

abbrev copies : ℕ → ℕ → Text
copies zero c = []
copies (suc n) c = c ∷ copies n c

-- 59 times `A` and `=`.
abbrev spki : Text
spki = copies 59 65 ++ (61 ∷ [])

raw_key_refused :
    identity_public_key_issues (copies 43 65 ++ (61 ∷ [])) ≡ wrong_length (some 32) ∷ []
unfolding key_issues b64_length_refinement base64_byte_length is_valid_base64
raw_key_refused = refl

key_package_accepted : mls_key_package_issues (copies 80 65) ≡ []
unfolding mls_key_package_issues base64_byte_length is_valid_base64
key_package_accepted = refl

key_issues-accepted_iff_example : (key_issues 44 spki ≡ []) ↔ IsBase64Of 44 spki
key_issues-accepted_iff_example = key_issues-accepted_iff 44 spki
