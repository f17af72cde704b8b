-- ===== src/Fanout.antt =====
-- Fan-out of a message to the recipient devices of a conversation
-- (apps/backend/src/services/fanout.ts). The counters and timers of lib/metrics.ts are not modelled.
pub mod Recipients
mod Tests
use Prim.Native.String.{String}
use mathlib.Core.Option
use clicked.Prelude.{
  ℕ, suc, ◌+◌, Option, none, some, Bool, true, false, not, ◌&&◌, List, [], ◌∷◌, ◌++◌, map, ◌==◌,
  if◌then◌else◌, is_none, any, every, has, length, find_first, rows_where,
}
use clicked.Schema.{ConversationMember, Device}

pub record NewMessage : Type 0 where
  pub conversation_id : ℕ
  pub sender_id : ℕ
  pub content_type : String
  pub ciphertext : Option String
  pub mls_epoch : Option ℕ

pub record Message : Type 0 where
  pub id : ℕ
  pub message : NewMessage

-- `recipient_user_id` is what the map from devices to users holds.
pub record MessageEnvelope : Type 0 where
  pub message_id : ℕ
  pub recipient_device_id : ℕ
  pub recipient_user_id : Option ℕ
  pub ciphertext : String

pub record Store : Type 0 where
  pub members : List ConversationMember
  pub devices : List Device
  pub messages : List Message
  pub envelopes : List MessageEnvelope
  -- The next generated row id.
  pub next_id : ℕ

abbrev pub member_ids : Store → ℕ → List ℕ
member_ids s conversation =
    map (λ m. m.user_id) (rows_where (λ m. m.conversation_id == conversation) s.members)

abbrev pub is_sender : Option ℕ → ℕ → Bool
is_sender none id = false
is_sender (some sender) id = id == sender

-- With no members the source returns early; the query then finds nothing either.
unfoldable pub expected_devices : Store → ℕ → Option ℕ → List Device
expected_devices s conversation sender_device =
    rows_where (λ d. not (is_sender sender_device d.id))
      (rows_where (λ d. has d.user_id (member_ids s conversation) && is_none d.revoked_at)
        s.devices)

unfoldable pub resolve_recipient_device_set : Store → ℕ → Option ℕ → List ℕ
resolve_recipient_device_set s conversation sender_device =
    map (λ d. d.id) (expected_devices s conversation sender_device)

-- `new Set(xs).size`
abbrev pub set_size : List ℕ → ℕ
set_size [] = 0
set_size (x ∷ xs) = if has x xs then set_size xs else suc (set_size xs)

-- The provided ids are the keys of an object, so they are distinct.
unfoldable pub sets_match : List ℕ → List ℕ → Bool
sets_match provided expected =
    length provided == set_size expected && every (λ d. has d expected) provided

abbrev pub owner_of : List Device → ℕ → Option ℕ
owner_of ds id = Option.map (λ d. d.user_id) (find_first (λ d. d.id == id) ds)

abbrev pub envelope_rows : List Device → ℕ → List (ℕ × String) → List MessageEnvelope
envelope_rows ds message [] = []
envelope_rows ds message ((device, ciphertext) ∷ cs) =
    record {
      message_id = message;
      recipient_device_id = device;
      recipient_user_id = owner_of ds device;
      ciphertext = ciphertext;
    }
    ∷ envelope_rows ds message cs

pub data FanoutResult : Type 0 where
  sent : Message → FanoutResult
  device_set_mismatch : List ℕ → FanoutResult

abbrev pub provided_ids : List (ℕ × String) → List ℕ
provided_ids = map (λ c. c.0)

abbrev pub new_row : Store → NewMessage → Message
new_row s m = record { id = s.next_id; message = m }

unfoldable pub fanout_message :
    Store → NewMessage → Option ℕ → List (ℕ × String) → FanoutResult × Store
fanout_message s m sender_device ciphertexts =
    let devices = expected_devices s m.conversation_id sender_device in
    let expected = map (λ d. d.id) devices in
    if sets_match (provided_ids ciphertexts) expected
    then (
      sent (new_row s m),
      record s {
        messages = s.messages ++ new_row s m ∷ [];
        envelopes = s.envelopes ++ envelope_rows devices s.next_id ciphertexts;
        next_id = s.next_id + 1;
      },
    )
    else (device_set_mismatch expected, s)

pub data GroupFanoutResult : Type 0 where
  group_sent : Message → GroupFanoutResult
  not_member : GroupFanoutResult

unfoldable pub fanout_group_mls_message : Store → NewMessage → ℕ → GroupFanoutResult × Store
fanout_group_mls_message s m sender =
    if any (λ c. c.conversation_id == m.conversation_id && c.user_id == sender) s.members
    then (
      group_sent (new_row s m),
      record s { messages = s.messages ++ new_row s m ∷ []; next_id = s.next_id + 1 },
    )
    else (not_member, s)
