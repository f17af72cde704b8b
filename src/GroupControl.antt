-- ===== src/GroupControl.antt =====
-- The group-control log: epochs, sequence numbers and catch-up
-- (apps/backend/src/services/groupControl.ts; the tables of db/schema.ts). A transaction that
-- throws leaves the store as it was. Sockets and timestamps are not modelled.
pub mod Log
mod Tests
use Prim.Native.String.{String}
use mathlib.Core.Option
use clicked.Prelude.{
  ℕ, ◌+◌, Option, none, some, Bool, true, false, not, ◌&&◌, ◌||◌, List, [], ◌∷◌, ◌++◌, min, max,
  length, take, ltb, ◌==◌, if◌then◌else◌, ◌>>=◌, is_none, is_some, any, rows_where, find_first,
  update_where, order_asc, max_key,
}
use clicked.Schema.{Conversation}

pub data GroupControlEventType : Type 0 where
  member_added member_removed member_left commit : GroupControlEventType

-- The body of a system message.
pub record GroupSystemEventBody : Type 0 where
  pub event_type : GroupControlEventType
  pub conversation_id : ℕ
  pub epoch : ℕ
  pub sequence : ℕ
  pub actor_user_id : Option ℕ
  pub target_user_id : Option ℕ

-- The ciphertext column: opaque text, or the body that the service writes as JSON.
pub data Ciphertext : Type 0 where
  encrypted : String → Ciphertext
  system_body : GroupSystemEventBody → Ciphertext

pub data ContentType : Type 0 where
  text file image video audio system : ContentType

pub record SystemPayload : Type 0 where
  pub user_id : ℕ
  pub change : String

pub record Message : Type 0 where
  pub id : ℕ
  pub conversation_id : ℕ
  pub sender_id : ℕ
  pub content_type : ContentType
  pub ciphertext : Option Ciphertext
  pub system_payload : Option SystemPayload

pub record GroupControlEvent : Type 0 where
  pub conversation_id : ℕ
  pub sequence : ℕ
  pub epoch : ℕ
  pub event_type : GroupControlEventType
  pub actor_user_id : Option ℕ
  pub target_user_id : Option ℕ
  pub message_id : Option ℕ
  pub payload : Option String

pub record Store : Type 0 where
  pub conversations : List Conversation
  pub events : List GroupControlEvent
  pub messages : List Message
  -- The next generated row id.
  pub next_id : ℕ

pub record AppendInput : Type 0 where
  pub conversation_id : ℕ
  pub event_type : GroupControlEventType
  pub actor_user_id : Option ℕ
  pub target_user_id : Option ℕ
  pub payload : Option String

abbrev is_system : ContentType → Bool
is_system system = true
is_system _ = false

-- messages_system_payload_check
abbrev pub system_payload_check : Message → Bool
system_payload_check m =
    not (is_system m.content_type) || (is_none m.ciphertext && is_some m.system_payload)

unfoldable pub insert_message : Message → List Message → Option (List Message)
insert_message m ms = if system_payload_check m then some (ms ++ m ∷ []) else none

-- group_control_conversation_sequence_idx
unfoldable pub insert_event :
    GroupControlEvent → List GroupControlEvent → Option (List GroupControlEvent)
insert_event e es =
    if any (λ f. f.conversation_id == e.conversation_id && f.sequence == e.sequence) es
    then none
    else some (es ++ e ∷ [])

unfoldable pub build_system_event_body : GroupControlEvent → GroupSystemEventBody
build_system_event_body e = record {
  event_type = e.event_type;
  conversation_id = e.conversation_id;
  epoch = e.epoch;
  sequence = e.sequence;
  actor_user_id = e.actor_user_id;
  target_user_id = e.target_user_id;
}

abbrev pub events_of : ℕ → List GroupControlEvent → List GroupControlEvent
events_of conversation es = rows_where (λ e. e.conversation_id == conversation) es

abbrev pub bump : Conversation → Conversation
bump v = record v { epoch = v.epoch + 1 }

abbrev pub system_message : AppendInput → ℕ → ℕ → ℕ → ℕ → Message
system_message i id epoch sequence actor = record {
  id = id;
  conversation_id = i.conversation_id;
  sender_id = actor;
  content_type = system;
  ciphertext = some (
      system_body (record {
        event_type = i.event_type;
        conversation_id = i.conversation_id;
        epoch = epoch;
        sequence = sequence;
        actor_user_id = some actor;
        target_user_id = i.target_user_id;
      }));
  system_payload = none;
}

-- The timeline entry, where the event has an actor: its id, and the messages with it.
abbrev write_system_message :
    Store → AppendInput → ℕ → ℕ → Option ℕ → Option (Option ℕ × List Message)
write_system_message s i epoch sequence none = some (none, s.messages)
write_system_message s i epoch sequence (some actor) = do
  ms ← insert_message (system_message i s.next_id epoch sequence actor) s.messages
  some (some s.next_id, ms)

abbrev pub event_row : AppendInput → ℕ → ℕ → Option ℕ → GroupControlEvent
event_row i epoch sequence message = record {
  conversation_id = i.conversation_id;
  sequence = sequence;
  epoch = epoch;
  event_type = i.event_type;
  actor_user_id = i.actor_user_id;
  target_user_id = i.target_user_id;
  message_id = message;
  payload = i.payload;
}

abbrev next_sequence : Store → ℕ → ℕ
next_sequence s conversation = max_key (λ e. e.sequence) (events_of conversation s.events) + 1

-- The rest of the transaction, once the conversation's row is locked and bumped to `epoch`.
unfoldable pub append_at : Store → AppendInput → ℕ → Option (GroupControlEvent × Store)
append_at s i epoch = do
  let sequence = next_sequence s i.conversation_id
  written ← write_system_message s i epoch sequence i.actor_user_id
  let e = event_row i epoch sequence written.0
  events ← insert_event e s.events
  some (
    e,
    record {
      conversations = update_where (λ v. v.id == i.conversation_id) bump s.conversations;
      events = events;
      messages = written.1;
      next_id = s.next_id + 1;
    },
  )

-- `not_found` and `refused` are the errors thrown: no such conversation, and a constraint of the
-- database.
pub data AppendResult : Type 0 where
  appended : GroupControlEvent → AppendResult
  not_found refused : AppendResult

abbrev append_outcome : Store → Option (GroupControlEvent × Store) → AppendResult × Store
append_outcome s none = (refused, s)
append_outcome s (some (e, s')) = (appended e, s')

unfoldable pub append_group_control_event : Store → AppendInput → AppendResult × Store
append_group_control_event s i =
    elim (find_first (λ v. v.id == i.conversation_id) s.conversations) [
      | none ↦ (not_found, s)
      | some v ↦ append_outcome s (append_at s i (v.epoch + 1))
    ]

abbrev pub max_page_size : ℕ
max_page_size = 500

abbrev pub page_size : ℕ → ℕ
page_size limit = min (max 1 limit) max_page_size

pub record EventPage : Type 0 where
  pub events : List GroupControlEvent
  pub has_more : Bool

abbrev page_of : ℕ → List GroupControlEvent → EventPage
page_of size rows =
    let more = ltb size (length rows) in
    record { events = if more then take size rows else rows; has_more = more }

unfoldable pub read_group_control_events : Store → ℕ → ℕ → ℕ → EventPage
read_group_control_events s conversation since limit = page_of (page_size limit) (
    take (page_size limit + 1) (
      order_asc (λ e. e.sequence)
        (rows_where (λ e. e.conversation_id == conversation && ltb since e.sequence) s.events)))

pub record GroupState : Type 0 where
  pub epoch : ℕ
  pub latest_sequence : ℕ

unfoldable pub get_group_state : Store → ℕ → Option GroupState
get_group_state s conversation =
    Option.map
      (λ (v : Conversation). record {
        epoch = v.epoch;
        latest_sequence = max_key (λ e. e.sequence) (events_of conversation s.events);
      })
      (find_first (λ v. v.id == conversation) s.conversations)
