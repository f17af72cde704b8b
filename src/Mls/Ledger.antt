-- ===== src/Mls/Ledger.antt =====
-- The MLS ledger and its transactions (apps/backend/src/services/mlsGroups.ts; the tables and
-- unique indexes of db/schema.ts). A transaction that a unique index refuses leaves the ledger as
-- it was; the row lock of `recordCommit` makes a transaction one step.
pub mod Applied
pub mod Race
pub mod Epochs
pub mod Windows
pub mod Reading
pub mod Welcomes
use Prim.Native.String.{String}
use clicked.Prelude.{
  ℕ, suc, ◌+◌, Option, none, some, Bool, true, false, ◌&&◌, not, List, [], ◌∷◌, ◌++◌, map, min, ltb,
  ◌==◌, if◌then◌else◌, is_none, any, has, take, rows_where, find_first, update_where, first_desc,
  order_asc, ◌>>=◌,
}
use mathlib.Core.Option
use clicked.Schema.{ConversationMember, Device}
use clicked.Mls.Visibility.{MlsEpochWindow}

pub record MlsGroup : Type 0 where
  pub id : ℕ
  pub conversation_id : ℕ
  pub group_id : String
  pub cipher_suite : ℕ
  pub current_epoch : ℕ

pub record MlsGroupMember : Type 0 where
  pub mls_group_id : ℕ
  pub device_id : ℕ
  pub user_id : ℕ
  pub joined_at_epoch : ℕ
  pub removed_at_epoch : Option ℕ

pub record MlsCommit : Type 0 where
  pub mls_group_id : ℕ
  pub epoch : ℕ
  pub committer_device_id : ℕ
  pub commit : String

pub record MlsWelcome : Type 0 where
  pub id : ℕ
  pub mls_group_id : ℕ
  pub device_id : ℕ
  pub epoch : ℕ
  pub welcome : String
  pub claimed_at : Option ℕ

pub record Ledger : Type 0 where
  pub groups : List MlsGroup
  pub members : List MlsGroupMember
  pub commits : List MlsCommit
  pub welcomes : List MlsWelcome
  -- The next generated row id.
  pub next_id : ℕ

unfoldable pub get_group_by_conversation : Ledger → ℕ → Option MlsGroup
get_group_by_conversation l conversation_id =
    find_first (λ g. g.conversation_id == conversation_id) l.groups

abbrev pub leaf_of_device : ℕ → ℕ → MlsGroupMember → Bool
leaf_of_device group device m = m.mls_group_id == group && m.device_id == device

abbrev pub window_of : MlsGroupMember → MlsEpochWindow
window_of m = record { joined_at_epoch = m.joined_at_epoch; removed_at_epoch = m.removed_at_epoch }

unfoldable pub get_epoch_window : Ledger → ℕ → ℕ → Option MlsEpochWindow
get_epoch_window l group device =
    Option.map window_of
      (first_desc (λ m. m.joined_at_epoch) (rows_where (leaf_of_device group device) l.members))

pub record ConversationWindow : Type 0 where
  pub has_group : Bool
  pub window : Option MlsEpochWindow

abbrev window_in_group : Ledger → MlsGroup → Option ℕ → ConversationWindow
window_in_group l g none = record { has_group = true; window = none }
window_in_group l g (some device) = record {
  has_group = true;
  window = get_epoch_window l g.id device;
}

unfoldable pub get_conversation_epoch_window : Ledger → ℕ → Option ℕ → ConversationWindow
get_conversation_epoch_window l conversation_id device =
    elim (get_group_by_conversation l conversation_id) [
      | none ↦ record { has_group = false; window = none }
      | some g ↦ window_in_group l g device
    ]

abbrev pub active_leaf : ℕ → ℕ → MlsGroupMember → Bool
active_leaf group device m = leaf_of_device group device m && is_none m.removed_at_epoch

unfoldable pub is_active_member : Ledger → ℕ → ℕ → Bool
is_active_member l group device = any (active_leaf group device) l.members

abbrev active_device_of : List ConversationMember → ℕ → Device → Bool
active_device_of cms conversation_id d =
    has d.user_id
      (map (λ m. m.user_id) (rows_where (λ m. m.conversation_id == conversation_id) cms))
    && is_none d.revoked_at

-- The devices, as rows; the source passes on their id, user and identity key.
unfoldable pub list_devices_awaiting_join :
    List ConversationMember → List Device → Ledger → ℕ → ℕ → List Device
list_devices_awaiting_join cms ds l conversation_id group =
    let active_devices = rows_where (active_device_of cms conversation_id) ds in
    let joined =
      rows_where
        (λ m.
          m.mls_group_id == group
          && (is_none m.removed_at_epoch && has m.device_id (map (λ d. d.id) active_devices)))
        l.members in
    rows_where (λ d. not (has d.id (map (λ m. m.device_id) joined))) active_devices

pub record AddedDevice : Type 0 where
  pub device_id : ℕ
  pub user_id : ℕ
  pub welcome : String

pub record CommitInput : Type 0 where
  pub mls_group_id : ℕ
  pub epoch : ℕ
  pub committer_device_id : ℕ
  pub commit : String
  pub added_devices : List AddedDevice
  pub removed_device_ids : List ℕ

-- `aborted`: a unique index refused a row, and the transaction threw.
pub data CommitResult : Type 0 where
  committed : ℕ → CommitResult
  epoch_conflict : ℕ → CommitResult
  aborted : CommitResult

abbrev pub commit_row : CommitInput → MlsCommit
commit_row c = record {
  mls_group_id = c.mls_group_id;
  epoch = c.epoch;
  committer_device_id = c.committer_device_id;
  commit = c.commit;
}

-- mls_commits_group_epoch_idx
unfoldable pub insert_commit : MlsCommit → List MlsCommit → Option (List MlsCommit)
insert_commit r rows =
    if any (λ s. s.mls_group_id == r.mls_group_id && s.epoch == r.epoch) rows
    then none
    else some (rows ++ r ∷ [])

abbrev pub leaf_row : CommitInput → AddedDevice → MlsGroupMember
leaf_row c d = record {
  mls_group_id = c.mls_group_id;
  device_id = d.device_id;
  user_id = d.user_id;
  joined_at_epoch = c.epoch;
  removed_at_epoch = none;
}

-- mls_group_members_active_idx
unfoldable pub insert_leaves :
    List MlsGroupMember → List MlsGroupMember → Option (List MlsGroupMember)
insert_leaves [] rows = some rows
insert_leaves (r ∷ rs) rows =
    let rest = insert_leaves rs (rows ++ r ∷ []) in
    if any (active_leaf r.mls_group_id r.device_id) rows then none else rest

abbrev pub welcome_row : CommitInput → ℕ → AddedDevice → MlsWelcome
welcome_row c id d = record {
  id = id;
  mls_group_id = c.mls_group_id;
  device_id = d.device_id;
  epoch = c.epoch;
  welcome = d.welcome;
  claimed_at = none;
}

abbrev pub same_welcome : MlsWelcome → MlsWelcome → Bool
same_welcome r s =
    s.mls_group_id == r.mls_group_id && (s.device_id == r.device_id && s.epoch == r.epoch)

-- mls_welcomes_group_device_epoch_idx
unfoldable pub insert_welcomes :
    CommitInput → ℕ → List AddedDevice → List MlsWelcome → Option (ℕ × List MlsWelcome)
insert_welcomes c id [] rows = some (id, rows)
insert_welcomes c id (d ∷ ds) rows =
    let rest = insert_welcomes c (suc id) ds (rows ++ welcome_row c id d ∷ []) in
    if any (same_welcome (welcome_row c id d)) rows then none else rest

abbrev pub removed_leaf : CommitInput → MlsGroupMember → Bool
removed_leaf c m =
    m.mls_group_id == c.mls_group_id
    && (is_none m.removed_at_epoch && has m.device_id c.removed_device_ids)

abbrev pub close_leaf : ℕ → MlsGroupMember → MlsGroupMember
close_leaf epoch m = record m { removed_at_epoch = some epoch }

abbrev pub set_epoch : ℕ → MlsGroup → MlsGroup
set_epoch epoch g = record g { current_epoch = epoch }

unfoldable pub apply_commit : Ledger → CommitInput → Option Ledger
apply_commit l c = do
  commits ← insert_commit (commit_row c) l.commits
  members ←
      insert_leaves (map (leaf_row c) c.added_devices)
        (update_where (removed_leaf c) (close_leaf c.epoch) l.members)
  welcomes ← insert_welcomes c l.next_id c.added_devices l.welcomes
  some (record {
    groups = update_where (λ g. g.id == c.mls_group_id) (set_epoch c.epoch) l.groups;
    members = members;
    commits = commits;
    welcomes = welcomes.1;
    next_id = welcomes.0;
  })

abbrev pub outcome_of : Ledger → CommitInput → Option Ledger → CommitResult × Ledger
outcome_of l c none = (aborted, l)
outcome_of l c (some l') = (committed c.epoch, l')

unfoldable pub record_commit : Ledger → CommitInput → CommitResult × Ledger
record_commit l c = elim (find_first (λ g. g.id == c.mls_group_id) l.groups) [
  | none ↦ (epoch_conflict 0, l)
  | some g ↦
      if c.epoch == g.current_epoch + 1
      then outcome_of l c (apply_commit l c)
      else (epoch_conflict g.current_epoch, l)
]

abbrev pub commit_page_size : ℕ
commit_page_size = 200

unfoldable pub list_commits_since : Ledger → ℕ → ℕ → ℕ → List MlsCommit
list_commits_since l group since_epoch limit = take (min limit commit_page_size) (
    order_asc (λ c. c.epoch)
      (rows_where (λ c. c.mls_group_id == group && ltb since_epoch c.epoch) l.commits))

abbrev pub pending_for : ℕ → ℕ → MlsWelcome → Bool
pending_for group device w =
    w.mls_group_id == group && (w.device_id == device && is_none w.claimed_at)

abbrev pub pending_welcome : Ledger → ℕ → ℕ → Option MlsWelcome
pending_welcome l group device =
    first_desc (λ w. w.epoch) (rows_where (pending_for group device) l.welcomes)

abbrev pub claim : ℕ → MlsWelcome → MlsWelcome
claim now w = record w { claimed_at = some now }

unfoldable pub claim_welcome : Ledger → ℕ → ℕ → ℕ → Option (ℕ × String) × Ledger
claim_welcome l group device now = elim (pending_welcome l group device) [
  | none ↦ (none, l)
  | some w ↦ (
    some (w.epoch, w.welcome),
    record l { welcomes = update_where (λ v. v.id == w.id) (claim now) l.welcomes },
  )
]

unfoldable pub pending_welcome_epoch : Ledger → ℕ → ℕ → Option ℕ
pending_welcome_epoch l group device = Option.map (λ w. w.epoch) (pending_welcome l group device)
