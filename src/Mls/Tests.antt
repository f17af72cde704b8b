-- ===== src/Mls/Tests.antt =====
-- Runs of the MLS services and routes.
use clicked.Prelude.{ℕ, ◌≡◌, ◌≢◌, ◌⊎◌, refl, none, some, false, List, [], ◌∷◌}
use clicked.Schema.{ConversationType, Device}
use clicked.Mls.Visibility.{before_join, mls_unavailable_reason}
use clicked.Mls.Ledger.{
  Ledger, MlsGroup, MlsGroupMember, MlsCommit, MlsWelcome, CommitInput, committed, epoch_conflict,
  get_epoch_window, get_group_by_conversation, is_active_member, insert_commit, insert_leaves,
  insert_welcomes, apply_commit, record_commit, list_commits_since, claim_welcome,
  pending_welcome_epoch,
}
use clicked.Mls.Ledger.Race.{record_commit_race}
use clicked.Mls.Ledger.Reading.{IsWellFormed, record_commit-reading}
use clicked.Mls.Ledger.Welcomes.{Claimed, claim_welcome-Claimed}
use clicked.Mls.KeyPackages.{MlsKeyPackage, claim_key_package, count_available_key_packages}
use clicked.Mls.KeyPackages.Claims.{claim_key_package_twice, HandedOut, claim_key_package-HandedOut}
use clicked.Mls.Routes.{
  Directory, Caller, InitGroup, UuidText, PublishCommit, published, post_group, post_commit,
  get_commits, commits_page, SinceEpoch, resolve_context,
}
use clicked.Mls.Routes.Publishing.{Published, post_commit-Published}
use clicked.Mls.Routes.Replay.{Replayed, get_commits-Replayed}
use clicked.Mls.Routes.Reachable.{start, after_post_group, Reachable-IsWellFormed, empty_ledger}

-- Group 1 of conversation 7 at epoch 1, with device 11 of user 10 in it.
abbrev group : MlsGroup
group = record { id = 1; conversation_id = 7; group_id = "g"; cipher_suite = 1; current_epoch = 1 }

abbrev seat : MlsGroupMember
seat = record {
  mls_group_id = 1;
  device_id = 11;
  user_id = 10;
  joined_at_epoch = 0;
  removed_at_epoch = none;
}

abbrev first_commit : MlsCommit
first_commit = record { mls_group_id = 1; epoch = 1; committer_device_id = 11; commit = "c1" }

abbrev ledger : Ledger
ledger = record {
  groups = group ∷ [];
  members = seat ∷ [];
  commits = first_commit ∷ [];
  welcomes = [];
  next_id = 5;
}

ledger-IsWellFormed : IsWellFormed ledger
ledger-IsWellFormed = record { sequenced = (refl, tt); seated = ((refl, tt), tt) }

-- Device 11 adds device 21 of user 20.
abbrev add_device : CommitInput
add_device = record {
  mls_group_id = 1;
  epoch = 2;
  committer_device_id = 11;
  commit = "c2";
  added_devices = record { device_id = 21; user_id = 20; welcome = "w" } ∷ [];
  removed_device_ids = [];
}

abbrev rival : CommitInput
rival = record {
  mls_group_id = 1;
  epoch = 2;
  committer_device_id = 12;
  commit = "c3";
  added_devices = [];
  removed_device_ids = 11 ∷ [];
}

abbrev grown : Ledger
grown = (record_commit ledger add_device).1

add_device_committed : record_commit ledger add_device ≡ (committed 2, grown)
unfolding record_commit apply_commit insert_commit insert_leaves insert_welcomes
add_device_committed = refl

record_commit-reading_example :
    mls_unavailable_reason 1 (get_epoch_window grown 1 21) ≡ some before_join
record_commit-reading_example =
    record_commit-reading ledger add_device grown 2 21 1 ledger-IsWellFormed add_device_committed

record_commit_race_example : record_commit grown rival ≡ (epoch_conflict 2, grown)
record_commit_race_example =
    record_commit_race ledger add_device rival grown 2 add_device_committed refl refl

claim_welcome-Claimed_example :
    ((pending_welcome_epoch grown 1 21 ≡ none) × (claim_welcome grown 1 21 100 ≡ (none, grown)))
    ⊎ ((w : MlsWelcome) × (pending_welcome_epoch grown 1 21 ≡ some w.epoch)
        × ((claim_welcome grown 1 21 100).0 ≡ some (w.epoch, w.welcome))
        × Claimed grown 1 21 w (claim_welcome grown 1 21 100).1)
claim_welcome-Claimed_example = claim_welcome-Claimed grown 1 21 100

-- Two packages of device 21.
abbrev key_package_row : ℕ → ℕ → MlsKeyPackage
key_package_row id created = record {
  id = id;
  device_id = 21;
  cipher_suite = 1;
  key_package = "k";
  expires_at = none;
  consumed = false;
  consumed_at = none;
  created_at = created;
}

abbrev stock : List MlsKeyPackage
stock = key_package_row 1 4 ∷ key_package_row 2 3 ∷ []

older_claimed : (claim_key_package stock 10 21 none).0 ≡ some (key_package_row 2 3)
unfolding claim_key_package
older_claimed = refl

other_claimed :
    (claim_key_package (claim_key_package stock 10 21 none).1 11 21 (some 1)).0
    ≡ some (key_package_row 1 4)
unfolding claim_key_package
other_claimed = refl

claim_key_package_twice_example : (key_package_row 1 4).id ≢ (key_package_row 2 3).id
claim_key_package_twice_example =
    claim_key_package_twice stock 10 21 11 21 none (some 1) (key_package_row 2 3)
      (key_package_row 1 4) older_claimed other_claimed

claim_key_package-HandedOut_example :
    ((count_available_key_packages stock 10 21 none ≡ 0)
      × (claim_key_package stock 10 21 none ≡ (none, stock)))
    ⊎ ((p : MlsKeyPackage) × ((claim_key_package stock 10 21 none).0 ≡ some p)
        × HandedOut stock 10 21 none p (claim_key_package stock 10 21 none).1)
claim_key_package-HandedOut_example = claim_key_package-HandedOut stock 10 21 none

-- Users 10 and 20 in conversation 7, with devices 11 and 21.
abbrev device : ℕ → ℕ → Device
device id user = record {
  id = id;
  user_id = user;
  identity_public_key = "key";
  last_seen_at = none;
  revoked_at = none;
}

abbrev directory : Directory
directory = record {
  conversations = record { id = 7; type = ConversationType.group; epoch = 0 } ∷ [];
  members =
      record { conversation_id = 7; user_id = 10 }
      ∷ record { conversation_id = 7; user_id = 20 }
      ∷ [];
  devices = device 11 10 ∷ device 21 20 ∷ [];
}

abbrev caller : Caller
caller = record { user_id = 10; device_id = some 11; conversation_id = some 7 }

abbrev own : ℕ → UuidText
own uuid = record { uuid = uuid; spelling = 0 }

abbrev publish_body : PublishCommit
publish_body = record {
  epoch = 2;
  commit = "c2";
  added_devices = record { device_id = own 21; welcome = "w" } ∷ [];
  removed_device_ids = [];
}

abbrev after_publish : Ledger
after_publish = (post_commit directory ledger ledger caller publish_body).1

publishes :
    post_commit directory ledger ledger caller publish_body
    ≡ (published 2 (own 21 ∷ []) [], after_publish)
unfolding post_commit resolve_context get_group_by_conversation is_active_member record_commit
    apply_commit insert_commit insert_leaves insert_welcomes
publishes = refl

post_commit-Published_example : Published directory ledger ledger caller publish_body after_publish
post_commit-Published_example =
    post_commit-Published directory ledger ledger caller publish_body after_publish 2 (own 21 ∷ [])
      [] publishes

-- The same device, added and, in upper case, removed.
abbrev swap_body : PublishCommit
swap_body = record {
  epoch = 3;
  commit = "c3";
  added_devices = record { device_id = own 21; welcome = "w" } ∷ [];
  removed_device_ids = record { uuid = 21; spelling = 1 } ∷ [];
}

added_and_removed :
    (post_commit directory after_publish after_publish caller swap_body).0
    ≡ published 3 (own 21 ∷ []) (record { uuid = 21; spelling = 1 } ∷ [])
unfolding post_commit resolve_context get_group_by_conversation is_active_member record_commit
    apply_commit insert_commit insert_leaves insert_welcomes
added_and_removed = refl

one_page :
    get_commits directory ledger caller SinceEpoch.absent (some 50)
    ≡ commits_page 0 1 (first_commit ∷ []) false
unfolding get_commits resolve_context get_group_by_conversation get_epoch_window list_commits_since
one_page = refl

get_commits-Replayed_example :
    Replayed directory ledger caller SinceEpoch.absent 0 1 (first_commit ∷ []) false
get_commits-Replayed_example =
    get_commits-Replayed directory ledger caller SinceEpoch.absent (some 50) 0 1 (first_commit ∷ [])
      false ledger-IsWellFormed.sequenced one_page

abbrev init_body : InitGroup
init_body = record { group_id = "g"; cipher_suite = 1 }

abbrev founded_ledger : Ledger
founded_ledger = (post_group directory empty_ledger caller init_body).1

Reachable-IsWellFormed_example : IsWellFormed founded_ledger
Reachable-IsWellFormed_example =
    Reachable-IsWellFormed founded_ledger (after_post_group directory caller init_body start)
