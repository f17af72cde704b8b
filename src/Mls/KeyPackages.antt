-- ===== src/Mls/KeyPackages.antt =====
-- The stock of MLS key packages of a device (apps/backend/src/services/mlsKeyPackages.ts).
-- The hash of a package and the socket server are not modelled.
use Prim.Native.String.{String}
use clicked.Prelude.{
  ℕ, ◌≡◌, ◌≤◌, Option, none, some, Bool, true, false, not, ◌&&◌, List, [], ◌∷◌, length, ltb, leb,
  ◌==◌, if◌then◌else◌, All, rows_where, update_where, first_asc,
}
pub mod Claims

pub record MlsKeyPackage : Type 0 where
  pub id : ℕ
  pub device_id : ℕ
  pub cipher_suite : ℕ
  pub key_package : String
  pub expires_at : Option ℕ
  pub consumed : Bool
  pub consumed_at : Option ℕ
  pub created_at : ℕ

abbrev pub low_watermark : ℕ
low_watermark = 10

abbrev pub package_cap : ℕ
package_cap = 100

abbrev pub is_unexpired : ℕ → Option ℕ → Bool
is_unexpired now none = true
is_unexpired now (some expires) = ltb now expires

abbrev pub suits : Option ℕ → MlsKeyPackage → Bool
suits none p = true
suits (some suite) p = p.cipher_suite == suite

abbrev pub available_filter : ℕ → ℕ → Option ℕ → MlsKeyPackage → Bool
available_filter now device suite p =
    p.device_id == device && (not p.consumed && (is_unexpired now p.expires_at && suits suite p))

unfoldable pub count_available_key_packages : List MlsKeyPackage → ℕ → ℕ → Option ℕ → ℕ
count_available_key_packages ps now device suite =
    length (rows_where (available_filter now device suite) ps)

abbrev pub consume : ℕ → MlsKeyPackage → MlsKeyPackage
consume now p = record p { consumed = true; consumed_at = some now }

-- The candidate is returned as a row; the source selects four of its columns.
unfoldable pub claim_key_package :
    List MlsKeyPackage → ℕ → ℕ → Option ℕ → Option MlsKeyPackage × List MlsKeyPackage
claim_key_package ps now device suite =
    elim (first_asc (λ p. p.created_at) (rows_where (available_filter now device suite) ps)) [
      | none ↦ (none, ps)
      | some p ↦ (some p, update_where (λ q. q.id == p.id) (consume now) ps)
    ]

-- What is emitted, with the room: the device's and then the user's.
pub data Room : Type 0 where
  device_room user_room : ℕ → Room

pub record LowSignal : Type 0 where
  pub room : Room
  pub device_id : ℕ
  pub remaining : ℕ
  pub threshold : ℕ
  pub cap : ℕ

abbrev low_signal : ℕ → ℕ → Room → LowSignal
low_signal device remaining room = record {
  room = room;
  device_id = device;
  remaining = remaining;
  threshold = low_watermark;
  cap = package_cap;
}

-- The result, and the events emitted where a socket server runs.
unfoldable pub signal_replenishment_if_low : Bool → ℕ → ℕ → ℕ → Bool × List LowSignal
signal_replenishment_if_low has_server device user remaining =
    if ltb low_watermark remaining
    then (false, [])
    else if has_server
    then (
      true,
      low_signal device remaining (device_room device)
          ∷ low_signal device remaining (user_room user)
          ∷ [],
    )
    else (false, [])
