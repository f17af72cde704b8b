-- ===== src/Delivery/Tests.antt =====
-- Runs of delivery receipts.
use clicked.Prelude.{ℕ, ◌≡◌, ◌↔◌, refl, none, true, [], ◌∷◌, All}
use clicked.Schema.{Device}
use clicked.Delivery.{
  EnvelopeRow, Deliveries, active_of, is_message_fully_delivered_to_user,
  handle_device_delivery_receipt,
}
use clicked.Delivery.Receipts.{
  has_received, is_message_fully_delivered_to_user_iff, handle_device_delivery_receipt-again,
}

abbrev own_device : ℕ → Device
own_device id = record {
  id = id;
  user_id = 20;
  identity_public_key = "key";
  last_seen_at = none;
  revoked_at = none;
}

abbrev sent_to : ℕ → EnvelopeRow
sent_to id = record {
  message_id = 3;
  recipient_device_id = id;
  recipient_user_id = 20;
  delivered_at = none;
}

abbrev deliveries : Deliveries
deliveries = record {
  devices = own_device 21 ∷ own_device 22 ∷ [];
  members = [];
  messages = record { id = 3; sender_id = 10 } ∷ [];
  envelopes = sent_to 21 ∷ sent_to 22 ∷ [];
}

is_message_fully_delivered_to_user_iff_example :
    (is_message_fully_delivered_to_user deliveries 3 20 ≡ true)
    ↔ All (λ d. active_of 20 d ≡ true → has_received deliveries 3 20 d ≡ true) deliveries.devices
is_message_fully_delivered_to_user_iff_example =
    is_message_fully_delivered_to_user_iff deliveries 3 20

abbrev after_receipt : Deliveries
after_receipt = (handle_device_delivery_receipt deliveries 3 21 20 7 100).1

handle_device_delivery_receipt-again_example :
    handle_device_delivery_receipt after_receipt 3 21 20 7 200 ≡ ([], after_receipt)
handle_device_delivery_receipt-again_example =
    handle_device_delivery_receipt-again deliveries 3 21 20 7 100 20 7 200 (sent_to 21) refl
