-- ===== src/Fanout/Tests.antt =====
-- Runs of the fan-out.
use Prim.Native.String.{String}
use clicked.Prelude.{ℕ, ◌≡◌, ◌⊎◌, refl, none, some, List, [], ◌∷◌, All}
use clicked.Schema.{Device}
use clicked.Fanout.{
  Store, NewMessage, sent, device_set_mismatch, expected_devices, resolve_recipient_device_set,
  envelope_rows, new_row, fanout_message,
}
use clicked.Fanout.Recipients.{SameIds, IsAddressed, fanned_out, fanout_message-cases}

abbrev device : ℕ → ℕ → Device
device id user = record {
  id = id;
  user_id = user;
  identity_public_key = "key";
  last_seen_at = none;
  revoked_at = none;
}

-- Users 10 and 20 in conversation 7; user 10 sends from device 11.
abbrev store : Store
store = record {
  members =
      record { conversation_id = 7; user_id = 10 }
      ∷ record { conversation_id = 7; user_id = 20 }
      ∷ [];
  devices = device 11 10 ∷ device 12 10 ∷ device 21 20 ∷ [];
  messages = [];
  envelopes = [];
  next_id = 1;
}

abbrev message : NewMessage
message = record {
  conversation_id = 7;
  sender_id = 10;
  content_type = "text";
  ciphertext = none;
  mls_epoch = none;
}

abbrev ciphertexts : List (ℕ × String)
ciphertexts = (21, "a") ∷ (12, "b") ∷ []

fanout_message-cases_example :
    (SameIds (21 ∷ 12 ∷ []) (resolve_recipient_device_set store 7 (some 11))
      × (fanout_message store message (some 11) ciphertexts
          ≡ (sent (new_row store message), fanned_out store message (some 11) ciphertexts))
      × All
          (IsAddressed store message (some 11))
          (envelope_rows (expected_devices store 7 (some 11)) 1 ciphertexts))
    ⊎ ((¬ SameIds (21 ∷ 12 ∷ []) (resolve_recipient_device_set store 7 (some 11)))
        × (fanout_message store message (some 11) ciphertexts
            ≡ (device_set_mismatch (resolve_recipient_device_set store 7 (some 11)), store)))
fanout_message-cases_example = fanout_message-cases store message (some 11) ciphertexts refl
