-- ===== src/IdentityTrust.antt =====
-- The identity keys that a client trusts (apps/web/src/lib/identityTrust.ts, and the check of
-- apps/web/src/lib/crypto.ts that calls it). User and device ids are natural numbers and `localeCompare` is
-- their order; the text of a device id, which a fingerprint joins, is `id_text` of its number. The
-- local storage is a list of keys and raw texts; `Json` is what it takes to write and read a snapshot.
-- The registered reset handlers are numbers, and their calls are logged in the state.
pub mod Sorted
pub mod Fingerprint
pub mod Groups
pub mod Pinning
pub mod Batch
pub mod Changes
mod Tests
use mathlib.Core.Option
use clicked.Prelude.{
  ℕ, zero, suc, ◌+◌, ◌≡◌, Option, none, some, Bool, true, false, not, ◌&&◌, List, [], ◌∷◌, ◌++◌,
  map, ◌==◌, if◌then◌else◌, any, has, find_first, rows_where, order_asc, is_some, ◌>>=◌,
}
use clicked.KeyMaterial.{Text, same_text}

pub record TrustedDevice : Type 0 where
  pub id : ℕ
  pub identity_public_key : Text

pub record TrustedSnapshot : Type 0 where
  pub devices : List TrustedDevice
  pub trusted_at : ℕ

-- `R` is raw text; `parse` gives nothing where parsing throws or a field has another type.
pub record Json (R : Type 0) : Type 0 where
  pub id_text : ℕ → Text
  pub stringify : TrustedSnapshot → R
  pub parse : R → Option TrustedSnapshot

pub record IsJson {R : Type 0} (j : Json R) : Type 0 where
  pub id_text_injective : (a b : ℕ) → j.id_text a ≡ j.id_text b → a ≡ b
  pub parse-stringify : (s : TrustedSnapshot) → j.parse (j.stringify s) ≡ some s

pub record Trust (R : Type 0) : Type 0 where
  pub stored : List (ℕ × R)
  pub handlers : List ℕ
  pub resets : List (ℕ × List ℕ)

pub data Status : Type 0 where
  trusted : Status
  first_contact : Status
  changed : Status

pub record IdentityCheckResult : Type 0 where
  pub status : Status
  pub changed_device_ids : List ℕ

abbrev pub sort_devices : List TrustedDevice → List TrustedDevice
sort_devices = order_asc (λ d. d.id)

-- `${d.id}:${d.identityPublicKey}`
abbrev pub fingerprint_part : (ℕ → Text) → TrustedDevice → Text
fingerprint_part id_text d = id_text d.id ++ (58 ∷ d.identity_public_key)

-- `join('|')`
abbrev pub join_parts : List Text → Text
join_parts [] = []
join_parts (t ∷ []) = t
join_parts (t ∷ u ∷ us) = t ++ (124 ∷ join_parts (u ∷ us))

unfoldable pub fingerprint_of : (ℕ → Text) → List TrustedDevice → Text
fingerprint_of id_text devices = join_parts (map (fingerprint_part id_text) (sort_devices devices))

-- `Set.add`, in insertion order.
abbrev pub add_id : List ℕ → ℕ → List ℕ
add_id ids id = if has id ids then ids else ids ++ (id ∷ [])

-- Whether the device is pinned with this key.
abbrev pub is_pinned_as : Text → Option TrustedDevice → Bool
is_pinned_as key none = false
is_pinned_as key (some pinned) = same_text pinned.identity_public_key key

-- The two loops of `checkIdentityChange`: devices that are new or have another key, then those gone.
abbrev pub add_altered : List TrustedDevice → List TrustedDevice → List ℕ → List ℕ
add_altered pinned [] ids = ids
add_altered pinned (d ∷ ds) ids = add_altered pinned ds (
    if is_pinned_as d.identity_public_key (find_first (λ p. p.id == d.id) pinned)
    then ids
    else add_id ids d.id)

abbrev pub add_gone : List TrustedDevice → List TrustedDevice → List ℕ → List ℕ
add_gone devices [] ids = ids
add_gone devices (p ∷ ps) ids =
    add_gone devices ps (if any (λ d. d.id == p.id) devices then ids else add_id ids p.id)

unfoldable pub changed_ids : List TrustedDevice → List TrustedDevice → List ℕ
changed_ids pinned devices = add_gone devices pinned (add_altered pinned devices [])

abbrev pub on_session_reset : {R : Type 0} → ℕ → Trust R → Trust R
on_session_reset handler s = record s { handlers = add_id s.handlers handler }

abbrev pub remove_handler : {R : Type 0} → ℕ → Trust R → Trust R
remove_handler handler s = record s { handlers = rows_where (λ h. not (h == handler)) s.handlers }

abbrev pub reset_sessions : {R : Type 0} → List ℕ → Trust R → Trust R
reset_sessions ids s = record s { resets = s.resets ++ map (λ handler. (handler, ids)) s.handlers }

abbrev pub read_raw : {R : Type 0} → ℕ → List (ℕ × R) → Option R
read_raw key [] = none
read_raw key (e ∷ es) = if e.0 == key then some e.1 else read_raw key es

abbrev pub write_raw : {R : Type 0} → ℕ → R → List (ℕ × R) → List (ℕ × R)
write_raw key value [] = (key, value) ∷ []
write_raw key value (e ∷ es) = if e.0 == key then (key, value) ∷ es else e ∷ write_raw key value es

abbrev pub remove_raw : {R : Type 0} → ℕ → List (ℕ × R) → List (ℕ × R)
remove_raw key [] = []
remove_raw key (e ∷ es) = if e.0 == key then remove_raw key es else e ∷ remove_raw key es

pub record DeviceRecord : Type 0 where
  pub id : ℕ
  pub user_id : ℕ
  pub identity_public_key : Text

module _ {R : Type 0} (j : Json R) where
  abbrev parsed : Option R → Option TrustedSnapshot
  parsed none = none
  parsed (some raw) = j.parse raw

  unfoldable pub get_trusted_snapshot : ℕ → Trust R → Option TrustedSnapshot
  get_trusted_snapshot user s = parsed (read_raw user s.stored)

  abbrev pub save_snapshot : ℕ → ℕ → List TrustedDevice → Trust R → Trust R
  save_snapshot now user devices s = record s {
    stored =
        write_raw user (j.stringify (record { devices = sort_devices devices; trusted_at = now }))
          s.stored;
  }

  unfoldable pub trust_devices : ℕ → ℕ → List TrustedDevice → Trust R → Trust R
  trust_devices now user devices s = save_snapshot now user devices s

  unfoldable pub clear_trusted_snapshot : ℕ → Trust R → Trust R
  clear_trusted_snapshot user s = record s { stored = remove_raw user s.stored }

  abbrev pub check_against :
      ℕ → ℕ → List TrustedDevice → Trust R → Option TrustedSnapshot → IdentityCheckResult × Trust R
  check_against now user devices s none =
      (record { status = first_contact; changed_device_ids = [] }, trust_devices now user devices s)
  check_against now user devices s (some snapshot) =
      if same_text (fingerprint_of j.id_text snapshot.devices) (fingerprint_of j.id_text devices)
      then (record { status = trusted; changed_device_ids = [] }, s)
      else let ids = changed_ids snapshot.devices devices in
        (record { status = changed; changed_device_ids = ids }, reset_sessions ids s)

  unfoldable pub check_identity_change :
      ℕ → ℕ → List TrustedDevice → Trust R → IdentityCheckResult × Trust R
  check_identity_change now user devices s =
      check_against now user devices s (get_trusted_snapshot user s)

  -- The devices of a batch by user, in the order in which the users come up.
  abbrev pub add_device :
      DeviceRecord → List (ℕ × List TrustedDevice) → List (ℕ × List TrustedDevice)
  add_device d [] =
      (d.user_id, record { id = d.id; identity_public_key = d.identity_public_key } ∷ []) ∷ []
  add_device d (g ∷ gs) =
      if g.0 == d.user_id
      then (g.0, g.1 ++ (record { id = d.id; identity_public_key = d.identity_public_key } ∷ []))
        ∷ gs
      else g ∷ add_device d gs

  abbrev pub by_user :
      List DeviceRecord → List (ℕ × List TrustedDevice) → List (ℕ × List TrustedDevice)
  by_user [] groups = groups
  by_user (d ∷ ds) groups = by_user ds (add_device d groups)

  -- Every user in turn; the first that has changed is reported and ends the loop.
  abbrev pub after_check :
      Status → ℕ × List ℕ → Option (ℕ × List ℕ) × Trust R → Trust R → Option (ℕ × List ℕ) × Trust R
  after_check trusted error rest s = rest
  after_check first_contact error rest s = rest
  after_check changed error rest s = (some error, s)

  abbrev pub check_users :
      ℕ → List (ℕ × List TrustedDevice) → Trust R → Option (ℕ × List ℕ) × Trust R
  check_users now [] s = (none, s)
  check_users now (g ∷ gs) s =
      let result = check_identity_change now g.0 g.1 s in
      after_check result.0.status (g.0, result.0.changed_device_ids) (check_users now gs result.1)
        result.1

  -- The user and the devices of the error, or none.
  unfoldable pub assert_devices_trusted :
      ℕ → List DeviceRecord → Trust R → Option (ℕ × List ℕ) × Trust R
  assert_devices_trusted now devices s = check_users now (by_user devices []) s
