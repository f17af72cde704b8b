-- ===== src/Payload/Tests.antt =====
-- Runs of the validation, for texts with no outer spaces and in lower case.
use Prim.Native.String.{String}
use clicked.Prelude.{ℕ, ◌≡◌, ◌↔◌, refl, none, some, [], ◌∷◌}
use clicked.Payload.{MessagePayload, valid, invalid, validate_message_payload, normal_content_type}
use clicked.Payload.Acceptance.{IsAcceptable, validate_message_payload-valid_iff}

abbrev unchanged : String → String
unchanged s = s

abbrev text_message : MessagePayload
text_message = record {
  content_type = some "text";
  ciphertext = none;
  envelopes = some (record { recipient_device_id = 2; ciphertext = "c" } ∷ []);
  file_id = none;
  mls_epoch = none;
}

abbrev system_message : MessagePayload
system_message = record {
  content_type = some "system";
  ciphertext = some "c";
  envelopes = none;
  file_id = none;
  mls_epoch = none;
}

validate_message_payload-valid_iff_example :
    (validate_message_payload unchanged unchanged text_message ≡ valid)
    ↔ IsAcceptable unchanged unchanged text_message
validate_message_payload-valid_iff_example =
    validate_message_payload-valid_iff unchanged unchanged text_message

abbrev forbidden : ℕ
forbidden = 403

system_refused :
    validate_message_payload unchanged unchanged system_message
    ≡ invalid 403 "system messages are reserved for the server"
unfolding validate_message_payload normal_content_type
system_refused = refl
