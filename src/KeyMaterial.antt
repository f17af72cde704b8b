-- ===== src/KeyMaterial.antt =====
-- The checks of key material that clients register (apps/backend/src/lib/keys.ts). Text is a list of
-- character codes, and the length -1 of text that is not base64 is `none`. The verification of a
-- signature is the platform's, and its exceptions count as a refusal.
pub mod Sizes
mod Base64
mod Tests
use mathlib.Core.Option
use clicked.Prelude.{
  ℕ, zero, suc, ◌+◌, ◌-◌, ◌*◌, ◌/◌, ◌%◌, Option, none, some, Bool, true, false, not, ◌&&◌, ◌||◌,
  List, [], ◌∷◌, ◌++◌, ltb, leb, ◌==◌, if◌then◌else◌, length,
}

abbrev pub Text : Type 0
Text = List ℕ

abbrev pub Bytes : Type 0
Bytes = List ℕ

abbrev pub ed25519_raw_key_bytes : ℕ
ed25519_raw_key_bytes = 32

abbrev pub ed25519_spki_bytes : ℕ
ed25519_spki_bytes = 44

abbrev pub ed25519_sig_bytes : ℕ
ed25519_sig_bytes = 64

abbrev pub mls_key_package_min_bytes : ℕ
mls_key_package_min_bytes = 32

abbrev pub mls_key_package_max_bytes : ℕ
mls_key_package_max_bytes = 4096

-- A–Z, a–z, 0–9, `+` and `/`.
abbrev pub is_base64_character : ℕ → Bool
is_base64_character c =
    leb 65 c && leb c 90 || leb 97 c && leb c 122 || leb 48 c && leb c 57 || c == 43 || c == 47

abbrev pub is_padding : ℕ → Text → Bool
is_padding n [] = true
is_padding zero (c ∷ cs) = false
is_padding (suc n) (c ∷ cs) = c == 61 && is_padding n cs

-- `/^[A-Za-z0-9+/]*={0,2}$/`
abbrev pub is_body_and_padding : Text → Bool
is_body_and_padding [] = true
is_body_and_padding (c ∷ cs) =
    if is_base64_character c then is_body_and_padding cs else is_padding 2 (c ∷ cs)

abbrev pub is_blank : Text → Bool
is_blank [] = true
is_blank (c ∷ cs) = false

unfoldable pub is_valid_base64 : Text → Bool
is_valid_base64 s = not (is_blank s) && is_body_and_padding s && length s % 4 == 0

abbrev pub same_text : Text → Text → Bool
same_text [] [] = true
same_text [] (d ∷ ds) = false
same_text (c ∷ cs) [] = false
same_text (c ∷ cs) (d ∷ ds) = c == d && same_text cs ds

abbrev pub ends_with : Text → Text → Bool
ends_with [] suffix = same_text [] suffix
ends_with (c ∷ cs) suffix = same_text (c ∷ cs) suffix || ends_with cs suffix

abbrev pub padding_of : Text → ℕ
padding_of s = if ends_with s (61 ∷ 61 ∷ []) then 2 else if ends_with s (61 ∷ []) then 1 else 0

unfoldable pub base64_byte_length : Text → Option ℕ
base64_byte_length s =
    if not (is_valid_base64 s) then none else some (length s * 3 / 4 - padding_of s)

-- The issues that a refinement adds.
pub data Issue : Type 0 where
  required : Issue
  not_base64 : Issue
  wrong_length : Option ℕ → Issue

abbrev has_length : ℕ → Option ℕ → Bool
has_length expected none = false
has_length expected (some n) = n == expected

unfoldable pub b64_length_refinement : ℕ → Text → List Issue
b64_length_refinement expected val =
    if not (is_valid_base64 val)
    then not_base64 ∷ []
    else if not (has_length expected (base64_byte_length val))
    then wrong_length (base64_byte_length val) ∷ []
    else []

-- `min(1)` and the refinement both run.
abbrev pub required_issues : Text → List Issue
required_issues [] = required ∷ []
required_issues (c ∷ cs) = []

-- The schema of a key of a fixed length.
unfoldable pub key_issues : ℕ → Text → List Issue
key_issues expected val = required_issues val ++ b64_length_refinement expected val

abbrev pub identity_public_key_issues : Text → List Issue
identity_public_key_issues = key_issues ed25519_spki_bytes

abbrev pub pre_key_public_key_issues : Text → List Issue
pre_key_public_key_issues = key_issues ed25519_raw_key_bytes

abbrev pub signature_issues : Text → List Issue
signature_issues = key_issues ed25519_sig_bytes

abbrev is_outside_window : Option ℕ → Bool
is_outside_window none = true
is_outside_window (some n) = ltb n mls_key_package_min_bytes || ltb mls_key_package_max_bytes n

abbrev window_refinement : Text → List Issue
window_refinement val =
    if not (is_valid_base64 val)
    then not_base64 ∷ []
    else if is_outside_window (base64_byte_length val)
    then wrong_length (base64_byte_length val) ∷ []
    else []

unfoldable pub mls_key_package_issues : Text → List Issue
mls_key_package_issues val = required_issues val ++ window_refinement val

abbrev true_or_refused : Option Bool → Bool
true_or_refused none = false
true_or_refused (some b) = b

-- `from_base64` is `Buffer.from(…, 'base64')`, and `verify` the platform's one-shot verification,
-- which gives nothing where it throws.
unfoldable pub verify_ed25519_signature :
    (Text → Bytes) → (Bytes → Bytes → Bytes → Option Bool) → Text → Text → Text → Bool
verify_ed25519_signature from_base64 verify identity payload signature =
    true_or_refused (verify (from_base64 payload) (from_base64 identity) (from_base64 signature))
