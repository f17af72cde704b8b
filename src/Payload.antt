-- ===== src/Payload.antt =====
-- Validation of a message payload (apps/backend/src/lib/validateMessagePayload.ts). The standard
-- library's `trim` and `toLowerCase` are parameters.
pub mod Acceptance
mod Tests
use Prim.Native.String
use Prim.Native.String.{String}
use text.Mathlib.Text.{◌==◌ as str_eq}
use clicked.Prelude.{
  ℕ, Option, none, some, Bool, true, false, not, ◌&&◌, ◌||◌, List, [], ◌∷◌, if◌then◌else◌,
}

pub record Envelope : Type 0 where
  pub recipient_device_id : ℕ
  pub ciphertext : String

pub record MessagePayload : Type 0 where
  pub content_type : Option String
  pub ciphertext : Option String
  pub envelopes : Option (List Envelope)
  pub file_id : Option String
  pub mls_epoch : Option ℕ

-- `invalid` carries the status code and the message.
pub data ValidationResult : Type 0 where
  valid : ValidationResult
  invalid : ℕ → String → ValidationResult

abbrev pub is_one_of : String → List String → Bool
is_one_of s [] = false
is_one_of s (t ∷ ts) = str_eq s t || is_one_of s ts

abbrev pub file_content_types : List String
file_content_types = "file" ∷ "image" ∷ "video" ∷ "audio" ∷ []

abbrev pub allowed_content_types : List String
allowed_content_types = "text" ∷ file_content_types

unfoldable pub is_file_type : String → Bool
is_file_type s = is_one_of s file_content_types

unfoldable pub is_allowed_type : String → Bool
is_allowed_type s = is_one_of s allowed_content_types

abbrev pub has_envelopes : Option (List Envelope) → Bool
has_envelopes none = false
has_envelopes (some []) = false
has_envelopes (some (e ∷ es)) = true

module _ (trim : String → String) where
  -- `!value?.trim()`
  abbrev pub is_blank : Option String → Bool
  is_blank none = true
  is_blank (some s) = str_eq (trim s) ""

module _ (trim to_lower_case : String → String) where
  -- `contentType?.trim().toLowerCase() || 'text'`
  abbrev or_text : String → String
  or_text s = if str_eq s "" then "text" else s

  unfoldable pub normal_content_type : Option String → String
  normal_content_type none = "text"
  normal_content_type (some s) = or_text (to_lower_case (trim s))

  abbrev validate_mls : MessagePayload → String → ValidationResult
  validate_mls p content_type =
      if has_envelopes p.envelopes
      then invalid 400
          "MLS group messages carry a single group ciphertext, not per-device envelopes"
      else if is_blank trim p.ciphertext
      then invalid 400 "ciphertext is required for MLS group messages"
      else if is_file_type content_type && is_blank trim p.file_id
      then invalid 400 "fileId is required for file-type messages"
      else valid

  abbrev validate_file : MessagePayload → ValidationResult
  validate_file p =
      if is_blank trim p.file_id
      then invalid 400 "fileId is required for file-type messages"
      else if not (has_envelopes p.envelopes)
      then invalid 400
          "envelopes are required for file-type messages (they carry the encrypted file key)"
      else valid

  abbrev validate_text : MessagePayload → ValidationResult
  validate_text p =
      if not (has_envelopes p.envelopes)
      then invalid 400 "text messages require at least one envelope with an encrypted key"
      else valid

  abbrev validate_per_device : MessagePayload → String → ValidationResult
  validate_per_device p content_type =
      if is_file_type content_type then validate_file p else validate_text p

  abbrev validate_allowed : MessagePayload → String → Option ℕ → ValidationResult
  validate_allowed p content_type none = validate_per_device p content_type
  validate_allowed p content_type (some epoch) = validate_mls p content_type

  abbrev validate_as : MessagePayload → String → ValidationResult
  validate_as p content_type =
      if str_eq content_type "system"
      then invalid 403 "system messages are reserved for the server"
      else if not (is_allowed_type content_type)
      then invalid 400 (String.◌++◌ "unsupported contentType: \"" (String.◌++◌ content_type "\""))
      else validate_allowed p content_type p.mls_epoch

  unfoldable pub validate_message_payload : MessagePayload → ValidationResult
  validate_message_payload p = validate_as p (normal_content_type p.content_type)
