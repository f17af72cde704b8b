-- ===== src/Mls/Routes.antt =====
-- The routes of a conversation's MLS group (apps/backend/src/routes/mls.ts). A request is the token's
-- user and device, the conversation of the path and the validated body; a reply has the status and the
-- fields of the source. What a route sends to sockets is not modelled. A number of the query is
-- given as `Number` and `Number.isInteger` read it: none where it is no natural number.
pub mod Publishing
pub mod Replay
pub mod Reachable
use Prim.Native.String.{String}
use mathlib.Core.Option
use text.Mathlib.Text.{◌==◌ as str_eq}
use clicked.Prelude.{
  ℕ, suc, ◌+◌, Option, none, some, Bool, true, false, ◌&&◌, ◌||◌, not, List, [], ◌∷◌, ◌++◌, map,
  min, max, ltb, ◌==◌, if◌then◌else◌, is_none, any, has, is_distinct, rows_where, find_first,
  or_else,
}
use clicked.Schema.{ConversationType, Conversation, ConversationMember, Device}
use clicked.Mls.Visibility.{MlsEpochWindow}
use clicked.Mls.Ledger.{
  Ledger, MlsGroup, MlsGroupMember, MlsCommit, AddedDevice, CommitInput, CommitResult, committed,
  epoch_conflict, aborted, active_leaf, get_group_by_conversation, get_epoch_window,
  list_devices_awaiting_join, is_active_member, record_commit, commit_page_size, list_commits_since,
  claim_welcome, pending_welcome_epoch,
}

-- The tables that the routes read beside the ledger.
pub record Directory : Type 0 where
  pub conversations : List Conversation
  pub members : List ConversationMember
  pub devices : List Device

pub record Caller : Type 0 where
  pub user_id : ℕ
  pub device_id : Option ℕ
  pub conversation_id : Option ℕ

pub data Context : Type 0 where
  refused : ℕ → String → Context
  resolved : (conversation_id device_id : ℕ) → Option MlsGroup → Context

abbrev pub with_group : Bool → ℕ → ℕ → Option MlsGroup → Context
with_group true conversation device none = refused 404 "Conversation has no MLS group"
with_group require conversation device group = resolved conversation device group

abbrev pub is_conversation_member : Directory → ℕ → ℕ → Bool
is_conversation_member dir conversation user =
    any (λ m. m.conversation_id == conversation && m.user_id == user) dir.members

abbrev pub context_of : Directory → Ledger → Bool → ℕ → Option ℕ → Option ℕ → Context
context_of dir l require user none device = refused 400 "Conversation id is required"
context_of dir l require user (some conversation) none = refused 400 "Token is missing a deviceId"
context_of dir l require user (some conversation) (some device) =
    if is_conversation_member dir conversation user
    then with_group require conversation device (get_group_by_conversation l conversation)
    else refused 403 "Not a member of this conversation"

unfoldable pub resolve_context : Directory → Ledger → Caller → Bool → Context
resolve_context dir l caller require =
    context_of dir l require caller.user_id caller.conversation_id caller.device_id

-- POST /conversations/:id/mls/group
pub record InitGroup : Type 0 where
  pub group_id : String
  pub cipher_suite : ℕ

pub data InitReply : Type 0 where
  init_refused : ℕ → String → InitReply
  group_exists : MlsGroup → InitReply
  group_created : MlsGroup → InitReply

abbrev pub new_group : Ledger → ℕ → InitGroup → MlsGroup
new_group l conversation body = record {
  id = l.next_id;
  conversation_id = conversation;
  group_id = body.group_id;
  cipher_suite = body.cipher_suite;
  current_epoch = 0;
}

abbrev pub founder : MlsGroup → ℕ → ℕ → MlsGroupMember
founder g device user = record {
  mls_group_id = g.id;
  device_id = device;
  user_id = user;
  joined_at_epoch = g.current_epoch;
  removed_at_epoch = none;
}

-- mls_groups_conversation_idx and mls_groups_group_id_idx
unfoldable pub insert_group : MlsGroup → List MlsGroup → Option (List MlsGroup)
insert_group g rows =
    if any (λ h. h.conversation_id == g.conversation_id || str_eq h.group_id g.group_id) rows
    then none
    else some (rows ++ g ∷ [])

abbrev is_group : ConversationType → Bool
is_group ConversationType.dm = false
is_group ConversationType.group = true

abbrev inserted : Ledger → Caller → MlsGroup → ℕ → Option (List MlsGroup) → InitReply × Ledger
inserted l caller g device none = (init_refused 409 "Conversation already has an MLS group", l)
inserted l caller g device (some groups) = (
  group_created g,
  record l {
    groups = groups;
    members = l.members ++ founder g device caller.user_id ∷ [];
    next_id = suc l.next_id;
  },
)

abbrev pub init_in : Directory → Ledger → Caller → InitGroup → Context → InitReply × Ledger
init_in dir l caller body (refused status error) = (init_refused status error, l)
init_in dir l caller body (resolved conversation device (some g)) = (group_exists g, l)
init_in dir l caller body (resolved conversation device none) =
    if any (λ c. c.id == conversation && is_group c.type) dir.conversations
    then inserted l caller (new_group l conversation body) device
        (insert_group (new_group l conversation body) l.groups)
    else (init_refused 400 "MLS groups are only available for group conversations", l)

unfoldable pub post_group : Directory → Ledger → Caller → InitGroup → InitReply × Ledger
post_group dir l caller body = init_in dir l caller body (resolve_context dir l caller false)

-- GET /conversations/:id/mls/group
pub data GroupReply : Type 0 where
  group_refused : ℕ → String → GroupReply
  group_state :
      (group : MlsGroup)
      → (membership : Option MlsEpochWindow)
      → (pending_welcome history_available_from_epoch : Option ℕ) → GroupReply

abbrev group_state_of : Ledger → ℕ → Option MlsGroup → GroupReply
group_state_of l device none = group_refused 404 "Conversation has no MLS group"
group_state_of l device (some g) =
    group_state g (get_epoch_window l g.id device) (pending_welcome_epoch l g.id device)
      (Option.map (λ w. w.joined_at_epoch) (get_epoch_window l g.id device))

unfoldable pub get_group : Directory → Ledger → Caller → GroupReply
get_group dir l caller = elim (resolve_context dir l caller true) [
  | refused status error ↦ group_refused status error
  | resolved conversation device group ↦ group_state_of l device group
]

-- GET /conversations/:id/mls/pending-devices
pub data PendingReply : Type 0 where
  pending_refused : ℕ → String → PendingReply
  pending_devices : (current_epoch : ℕ) → (devices : List Device) → PendingReply

abbrev pending_of : Directory → Ledger → ℕ → Option MlsGroup → PendingReply
pending_of dir l conversation none = pending_refused 404 "Conversation has no MLS group"
pending_of dir l conversation (some g) =
    pending_devices g.current_epoch
      (list_devices_awaiting_join dir.members dir.devices l conversation g.id)

unfoldable pub get_pending_devices : Directory → Ledger → Caller → PendingReply
get_pending_devices dir l caller = elim (resolve_context dir l caller true) [
  | refused status error ↦ pending_refused status error
  | resolved conversation device group ↦ pending_of dir l conversation group
]

-- POST /conversations/:id/mls/commits
-- The text of a uuid in a body. The code compares texts, the database uuids: `spelling` numbers the ways
-- to write one with upper-case and lower-case letters, and 0 is the database's own.
pub record UuidText : Type 0 where
  pub uuid : ℕ
  pub spelling : ℕ

abbrev pub same_uuid_text : UuidText → UuidText → Bool
same_uuid_text a b = a.uuid == b.uuid && a.spelling == b.spelling

-- `includes`, and whether a `Set` of the texts has as many.
abbrev pub includes : List UuidText → UuidText → Bool
includes texts text = any (λ t. same_uuid_text text t) texts

abbrev pub are_distinct : List UuidText → Bool
are_distinct [] = true
are_distinct (t ∷ ts) = not (includes ts t) && are_distinct ts

pub record AddedBody : Type 0 where
  pub device_id : UuidText
  pub welcome : String

pub record PublishCommit : Type 0 where
  pub epoch : ℕ
  pub commit : String
  pub added_devices : List AddedBody
  pub removed_device_ids : List UuidText

pub data PublishReply : Type 0 where
  publish_refused : ℕ → String → PublishReply
  invalid_devices : List UuidText → PublishReply
  commit_conflict : (current_epoch expected_epoch : ℕ) → PublishReply
  -- The transaction threw.
  publish_failed : PublishReply
  published : (epoch : ℕ) → (added_device_ids removed_device_ids : List UuidText) → PublishReply

abbrev pub added_ids_of : PublishCommit → List UuidText
added_ids_of body = map (λ d. d.device_id) body.added_devices

abbrev pub device_owner : Directory → ℕ → Option ℕ
device_owner dir id =
    Option.map (λ d. d.user_id) (find_first (λ d. d.id == id && is_none d.revoked_at) dir.devices)

-- `deviceOwner.get(id)`, of a map whose keys are the ids of the rows that were found.
abbrev pub owner_of_text : Directory → UuidText → Option ℕ
owner_of_text dir id = if id.spelling == 0 then device_owner dir id.uuid else none

abbrev pub owned_by_member : Directory → ℕ → Option ℕ → Bool
owned_by_member dir conversation none = false
owned_by_member dir conversation (some owner) =
    has owner
      (map (λ m. m.user_id) (rows_where (λ m. m.conversation_id == conversation) dir.members))

abbrev pub is_addable : Directory → ℕ → UuidText → Bool
is_addable dir conversation id = owned_by_member dir conversation (owner_of_text dir id)

-- The guard before it has found an owner for every added device.
abbrev pub with_owner : Directory → AddedBody → AddedDevice
with_owner dir d = record {
  device_id = d.device_id.uuid;
  user_id = or_else (owner_of_text dir d.device_id) 0;
  welcome = d.welcome;
}

abbrev pub commit_input : Directory → MlsGroup → ℕ → PublishCommit → CommitInput
commit_input dir g device body = record {
  mls_group_id = g.id;
  epoch = body.epoch;
  committer_device_id = device;
  commit = body.commit;
  added_devices = map (with_owner dir) body.added_devices;
  removed_device_ids = map (λ id. id.uuid) body.removed_device_ids;
}

abbrev publish_reply : PublishCommit → CommitResult → PublishReply
publish_reply body (committed epoch) = published epoch (added_ids_of body) body.removed_device_ids
publish_reply body (epoch_conflict current) = commit_conflict current (current + 1)
publish_reply body aborted = publish_failed

abbrev recorded : PublishCommit → CommitResult × Ledger → PublishReply × Ledger
recorded body (result, l) = (publish_reply body result, l)

-- The guards read the ledger `l`; the transaction of `recordCommit` runs later, on the ledger `now`.
abbrev publish_in :
    Directory → (l now : Ledger) → PublishCommit → ℕ → ℕ → MlsGroup → PublishReply × Ledger
publish_in dir l now body conversation device g =
    if not (is_active_member l g.id device)
    then (publish_refused 403 "Only an active group member device may publish a commit", now)
    else if not (are_distinct (added_ids_of body))
    then (publish_refused 400 "addedDevices contains duplicate deviceIds", now)
    else if any (includes body.removed_device_ids) (added_ids_of body)
    then (publish_refused 400 "A device cannot be added and removed by the same commit", now)
    else if any (λ id. not (is_addable dir conversation id)) (added_ids_of body)
    then (
      invalid_devices (rows_where (λ id. not (is_addable dir conversation id)) (added_ids_of body)),
      now,
    )
    else recorded body (record_commit now (commit_input dir g device body))

abbrev publish_with : Directory → (l now : Ledger) → PublishCommit → Context → PublishReply × Ledger
publish_with dir l now body (refused status error) = (publish_refused status error, now)
publish_with dir l now body (resolved conversation device none) =
    (publish_refused 404 "Conversation has no MLS group", now)
publish_with dir l now body (resolved conversation device (some g)) =
    publish_in dir l now body conversation device g

unfoldable pub post_commit :
    Directory → (l now : Ledger) → Caller → PublishCommit → PublishReply × Ledger
post_commit dir l now caller body = publish_with dir l now body (resolve_context dir l caller true)

-- GET /conversations/:id/mls/commits
pub data SinceEpoch : Type 0 where
  absent malformed : SinceEpoch
  since : ℕ → SinceEpoch

pub data CommitsReply : Type 0 where
  commits_refused : ℕ → String → CommitsReply
  commits_page :
      (since_epoch current_epoch : ℕ)
      → (commits : List MlsCommit) → (has_more : Bool) → CommitsReply

abbrev since_of : ℕ → SinceEpoch → Option ℕ
since_of joined absent = some joined
since_of joined malformed = none
since_of joined (since n) = some (max n joined)

abbrev limit_of : Option ℕ → ℕ
limit_of none = commit_page_size
limit_of (some n) = if ltb 0 n then min n commit_page_size else commit_page_size

-- `commits[commits.length - 1]?.epoch ?? since_epoch`
abbrev pub last_epoch : ℕ → List MlsCommit → ℕ
last_epoch s [] = s
last_epoch s (c ∷ cs) = last_epoch c.epoch cs

abbrev pub page_after : Ledger → MlsGroup → ℕ → Option ℕ → CommitsReply
page_after l g limit none = commits_refused 400 "sinceEpoch must be a non-negative integer"
page_after l g limit (some s) =
    commits_page s g.current_epoch (list_commits_since l g.id s limit)
      (ltb (last_epoch s (list_commits_since l g.id s limit)) g.current_epoch)

abbrev commits_for :
    Ledger → SinceEpoch → Option ℕ → MlsGroup → Option MlsEpochWindow → CommitsReply
commits_for l s limit g none = commits_refused 403 "Device is not a member of this MLS group"
commits_for l s limit g (some w) = page_after l g (limit_of limit) (since_of w.joined_at_epoch s)

abbrev commits_with : Ledger → SinceEpoch → Option ℕ → Context → CommitsReply
commits_with l s limit (refused status error) = commits_refused status error
commits_with l s limit (resolved conversation device none) =
    commits_refused 404 "Conversation has no MLS group"
commits_with l s limit (resolved conversation device (some g)) =
    commits_for l s limit g (get_epoch_window l g.id device)

unfoldable pub get_commits : Directory → Ledger → Caller → SinceEpoch → Option ℕ → CommitsReply
get_commits dir l caller s limit = commits_with l s limit (resolve_context dir l caller true)

-- GET /conversations/:id/mls/welcome
pub data WelcomeReply : Type 0 where
  welcome_refused : ℕ → String → WelcomeReply
  welcome_claimed : (group : MlsGroup) → (epoch : ℕ) → (welcome : String) → WelcomeReply

abbrev welcome_reply : MlsGroup → Option (ℕ × String) × Ledger → WelcomeReply × Ledger
welcome_reply g (none, l) = (welcome_refused 404 "No pending Welcome for this device", l)
welcome_reply g (some (epoch, welcome), l) = (welcome_claimed g epoch welcome, l)

abbrev welcome_with : Ledger → ℕ → Context → WelcomeReply × Ledger
welcome_with l now (refused status error) = (welcome_refused status error, l)
welcome_with l now (resolved conversation device none) =
    (welcome_refused 404 "Conversation has no MLS group", l)
welcome_with l now (resolved conversation device (some g)) =
    welcome_reply g (claim_welcome l g.id device now)

unfoldable pub get_welcome : Directory → Ledger → Caller → ℕ → WelcomeReply × Ledger
get_welcome dir l caller now = welcome_with l now (resolve_context dir l caller true)
