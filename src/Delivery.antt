-- ===== src/Delivery.antt =====
-- Delivery receipts (apps/backend/src/services/deliveryAggregation.ts). A receipt's effect is the
-- envelopes that it leaves and the notifications that it sends over the sockets, which Redis
-- publishes to the other nodes again.
pub mod Receipts
mod Tests
use mathlib.Core.Option
use clicked.Prelude.{
  ℕ, Option, none, some, Bool, true, false, ◌&&◌, List, [], ◌∷◌, ◌++◌, map, ◌==◌, if◌then◌else◌,
  is_none, is_some, every, has, rows_where, find_first, update_where,
}
use clicked.Schema.{ConversationMember, Device}

-- The columns that the service reads.
pub record MessageRow : Type 0 where
  pub id : ℕ
  pub sender_id : ℕ

pub record EnvelopeRow : Type 0 where
  pub message_id : ℕ
  pub recipient_device_id : ℕ
  pub recipient_user_id : ℕ
  pub delivered_at : Option ℕ

pub record Deliveries : Type 0 where
  pub devices : List Device
  pub members : List ConversationMember
  pub messages : List MessageRow
  pub envelopes : List EnvelopeRow

abbrev pub active_of : ℕ → Device → Bool
active_of user d = d.user_id == user && is_none d.revoked_at

abbrev pub addressed_to : ℕ → ℕ → EnvelopeRow → Bool
addressed_to message user e = e.message_id == message && e.recipient_user_id == user

abbrev pub delivered_ids : List EnvelopeRow → List ℕ
delivered_ids es = map (λ e. e.recipient_device_id) (rows_where (λ e. is_some e.delivered_at) es)

-- With no active devices the source returns true before it reads the envelopes, as `every` does.
unfoldable pub is_message_fully_delivered_to_user : Deliveries → ℕ → ℕ → Bool
is_message_fully_delivered_to_user s message user =
    every (λ id. has id (delivered_ids (rows_where (addressed_to message user) s.envelopes)))
      (map (λ d. d.id) (rows_where (active_of user) s.devices))

pub data Notification : Type 0 where
  message_fully_delivered : (sender message conversation recipient : ℕ) → Notification
  device_delivery_receipt : (conversation message recipient device : ℕ) → Notification

abbrev pub envelope_for : ℕ → ℕ → EnvelopeRow → Bool
envelope_for message device e = e.message_id == message && e.recipient_device_id == device

abbrev pub deliver : ℕ → EnvelopeRow → EnvelopeRow
deliver now e = record e { delivered_at = some now }

abbrev pub delivered : Deliveries → ℕ → ℕ → ℕ → Deliveries
delivered s message device now = record s {
  envelopes = update_where (envelope_for message device) (deliver now) s.envelopes;
}

abbrev is_delivered : Option EnvelopeRow → Bool
is_delivered none = false
is_delivered (some e) = is_some e.delivered_at

abbrev notify : Deliveries → MessageRow → ℕ → ℕ → ℕ → List Notification
notify s m device user conversation =
    (if is_message_fully_delivered_to_user s m.id user
      then message_fully_delivered m.sender_id m.id conversation user ∷ []
      else [])
    ++ device_delivery_receipt conversation m.id user device ∷ []

abbrev receipt_for : Deliveries → ℕ → ℕ → ℕ → ℕ → Option MessageRow → List Notification × Deliveries
receipt_for s device user conversation now none = ([], s)
receipt_for s device user conversation now (some m) =
    if is_delivered (find_first (envelope_for m.id device) s.envelopes) then ([], s) else (
      notify (delivered s m.id device now) m device user conversation,
      delivered s m.id device now,
    )

unfoldable pub handle_device_delivery_receipt :
    Deliveries → ℕ → ℕ → ℕ → ℕ → ℕ → List Notification × Deliveries
handle_device_delivery_receipt s message device user conversation now =
    receipt_for s device user conversation now (find_first (λ m. m.id == message) s.messages)

pub record DeliveryStatus : Type 0 where
  pub user_id : ℕ
  pub fully_delivered : Bool
  pub device_deliveries : List (ℕ × Option ℕ)

-- The entries of the returned object, one for each member.
unfoldable pub get_message_delivery_status : Deliveries → ℕ → ℕ → List DeliveryStatus
get_message_delivery_status s message conversation =
    map
      (λ (m : ConversationMember). record {
        user_id = m.user_id;
        fully_delivered = is_message_fully_delivered_to_user s message m.user_id;
        device_deliveries =
            map (λ e. (e.recipient_device_id, e.delivered_at))
              (rows_where (addressed_to message m.user_id) s.envelopes);
      })
      (rows_where (λ m. m.conversation_id == conversation) s.members)
