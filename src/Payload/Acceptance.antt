-- ===== src/Payload/Acceptance.antt =====
-- Which payloads are accepted.
use Prim.Native.String.{String}
use text.Mathlib.Text.{◌==◌ as str_eq}
use text.Mathlib.TextEquality.{eq_iff}
use clicked.Prelude.{
  ℕ, ◌≡◌, ◌≢◌, ◌↔◌, Option, none, some, true, false, arith, inl, inr, ◌⊎◌, Option-cases,
}
use clicked.Payload.{
  MessagePayload, valid, invalid, is_file_type, is_allowed_type, has_envelopes, is_blank,
  normal_content_type, validate_message_payload,
}

module _ (trim to_lower_case : String → String) where
  -- The rules of the two key-distribution models.
  abbrev pub MeetsModel : MessagePayload → String → Option ℕ → Type 0
  MeetsModel p content_type none =
      (has_envelopes p.envelopes ≡ true)
      × ((is_file_type content_type ≡ false) ⊎ (is_blank trim p.file_id ≡ false))
  MeetsModel p content_type (some epoch) =
      (has_envelopes p.envelopes ≡ false)
      × (is_blank trim p.ciphertext ≡ false)
      × ((is_file_type content_type ≡ false) ⊎ (is_blank trim p.file_id ≡ false))

  abbrev pub IsAcceptable : MessagePayload → Type 0
  IsAcceptable p =
      (is_allowed_type (normal_content_type trim to_lower_case p.content_type) ≡ true)
      × MeetsModel p (normal_content_type trim to_lower_case p.content_type) p.mls_epoch

  system_not_allowed : (s : String) → str_eq s "system" ≡ true → is_allowed_type s ≡ false
  unfolding is_allowed_type
  system_not_allowed s h = rw ((eq_iff s "system").0 h)

  accepted :
      (p : MessagePayload) → validate_message_payload trim to_lower_case p ≡ valid → IsAcceptable p
  unfolding validate_message_payload
  accepted p h = elim (Option-cases p.mls_epoch) [
    | inl per_device ↦ rw per_device (ground arith)
    | inr (epoch, group) ↦ rw group (ground arith)
  ]

  accepts :
      (p : MessagePayload) → IsAcceptable p → validate_message_payload trim to_lower_case p ≡ valid
  unfolding validate_message_payload
  accepts p h = elim (Option-cases p.mls_epoch) [
    | inl per_device ↦
        let k : IsAcceptable_as none = rw per_device at h in
        ground (arith, system_not_allowed (normal_content_type trim to_lower_case p.content_type))
    | inr (epoch, group) ↦
        let k : IsAcceptable_as (some epoch) = rw group at h in
        ground (arith, system_not_allowed (normal_content_type trim to_lower_case p.content_type))
  ]
    where
      IsAcceptable_as : Option ℕ → Type 0
      IsAcceptable_as e =
          (is_allowed_type (normal_content_type trim to_lower_case p.content_type) ≡ true)
          × MeetsModel p (normal_content_type trim to_lower_case p.content_type) e

-- A payload is accepted exactly when its content type, trimmed and in lower case (absent or empty
-- means text), is one that clients may send, and it follows the rules of its model: an MLS message
-- has a non-blank ciphertext and no envelopes, any other message has envelopes, and a file-type
-- message of either model has a non-blank file id.
pub validate_message_payload-valid_iff :
    (trim to_lower_case : String → String) (p : MessagePayload)
    → (validate_message_payload trim to_lower_case p ≡ valid) ↔ IsAcceptable trim to_lower_case p
validate_message_payload-valid_iff trim to_lower_case p =
    (accepted trim to_lower_case p, accepts trim to_lower_case p)

-- A rejection has status 403 exactly for the content type system, and 400 for all else.
pub validate_message_payload-status :
    (trim to_lower_case : String → String) (p : MessagePayload) (code : ℕ) (message : String)
    → validate_message_payload trim to_lower_case p ≡ invalid code message
    → ((code ≡ 403) × (normal_content_type trim to_lower_case p.content_type ≡ "system"))
      ⊎ ((code ≡ 400) × (normal_content_type trim to_lower_case p.content_type ≢ "system"))
unfolding validate_message_payload
validate_message_payload-status trim to_lower_case p code message h =
    ground (arith, eq_iff (normal_content_type trim to_lower_case p.content_type) "system")
