-- ===== src/GroupControl/Tests.antt =====
-- Runs of the group-control log.
use clicked.Prelude.{ℕ, ◌≡◌, refl, Option, none, some, false, [], ◌∷◌, map}
use clicked.Schema.{ConversationType, Conversation}
use clicked.GroupControl.{
  Store, AppendInput, GroupControlEvent, member_added, refused, append_group_control_event,
  read_group_control_events,
}
use clicked.GroupControl.Log.{
  IsGapFree, append-refused_with_actor, append-IsGapFree, read_group_control_events-page,
}

-- Conversation 7 at epoch 1, with its first event.
abbrev conversation : Conversation
conversation = record { id = 7; type = ConversationType.group; epoch = 1 }

abbrev first_event : GroupControlEvent
first_event = record {
  conversation_id = 7;
  sequence = 1;
  epoch = 1;
  event_type = member_added;
  actor_user_id = none;
  target_user_id = some 20;
  message_id = none;
  payload = none;
}

abbrev store : Store
store = record {
  conversations = conversation ∷ [];
  events = first_event ∷ [];
  messages = [];
  next_id = 3;
}

abbrev input : Option ℕ → AppendInput
input actor = record {
  conversation_id = 7;
  event_type = member_added;
  actor_user_id = actor;
  target_user_id = some 30;
  payload = none;
}

store-IsGapFree : IsGapFree store
store-IsGapFree = (record { sequences = refl; epochs = refl }, tt)

append-refused_with_actor_example :
    append_group_control_event store (input (some 10)) ≡ (refused, store)
append-refused_with_actor_example =
    append-refused_with_actor store (input (some 10)) 10 conversation refl refl

append-IsGapFree_example : IsGapFree (append_group_control_event store (input none)).1
append-IsGapFree_example = append-IsGapFree store (input none) store-IsGapFree

read_group_control_events-page_example :
    (map (λ e. e.sequence) (read_group_control_events store 7 0 10).events ≡ 1 ∷ [])
    × ((read_group_control_events store 7 0 10).has_more ≡ false)
read_group_control_events-page_example =
    read_group_control_events-page store 7 0 10 conversation store-IsGapFree refl
