-- ===== src/IdentityTrust/Tests.antt =====
-- Pins of two users.
use clicked.Prelude.{◌≡◌, ◌↔◌, ◌⊎◌, refl, some, not, List, [], ◌∷◌, has}
use clicked.IdentityTrust.{
  TrustedDevice, TrustedSnapshot, Json, IsJson, Trust, trusted, changed, fingerprint_of,
  changed_ids, get_trusted_snapshot, trust_devices, on_session_reset, check_identity_change,
  DeviceRecord,
}
use clicked.IdentityTrust.Pinning.{run_checks, trust_devices-Pinned}
use clicked.IdentityTrust.Sorted.{SameDevices}
use clicked.IdentityTrust.Changes.{key_of, same_key, changed_ids_iff}

abbrev plain : Json TrustedSnapshot
plain = record { id_text = λ n. n ∷ []; stringify = λ s. s; parse = λ r. some r }

plain-IsJson : IsJson plain
plain-IsJson = record { id_text_injective = λ a b e. cc; parse-stringify = λ s. refl }

abbrev empty : Trust TrustedSnapshot
empty = on_session_reset 1 (record { stored = []; handlers = []; resets = [] })

abbrev phone : TrustedDevice
phone = record { id = 3; identity_public_key = 30 ∷ [] }

abbrev laptop : TrustedDevice
laptop = record { id = 2; identity_public_key = 20 ∷ [] }

abbrev rogue : TrustedDevice
rogue = record { id = 3; identity_public_key = 31 ∷ [] }

-- A swapped key is refused, the sessions of its device are reset, and the pin stays.
abbrev pinned : Trust TrustedSnapshot
pinned = trust_devices plain 100 7 (phone ∷ laptop ∷ []) empty

swapped :
    (check_identity_change plain 200 7 (laptop ∷ rogue ∷ []) pinned).1.resets ≡ (1, (3 ∷ [])) ∷ []
unfolding trust_devices get_trusted_snapshot check_identity_change fingerprint_of changed_ids
swapped = refl

abbrev after_checks : Trust TrustedSnapshot
after_checks =
    run_checks plain ((200, 7, (rogue ∷ [])) ∷ (250, 8, (phone ∷ [])) ∷ [])
      (trust_devices plain 100 7 (phone ∷ laptop ∷ []) empty)

trust_devices-Pinned_example :
    (((check_identity_change plain 300 7 (laptop ∷ phone ∷ []) after_checks).0.status ≡ trusted)
      ↔ SameDevices (phone ∷ laptop ∷ []) (laptop ∷ phone ∷ []))
    × (((check_identity_change plain 300 7 (laptop ∷ phone ∷ []) after_checks).0.status ≡ trusted)
        ⊎ ((check_identity_change plain 300 7 (laptop ∷ phone ∷ []) after_checks).0.status
            ≡ changed))
trust_devices-Pinned_example =
    trust_devices-Pinned plain plain-IsJson empty 100 7 (phone ∷ laptop ∷ [])
      ((200, 7, (rogue ∷ [])) ∷ (250, 8, (phone ∷ [])) ∷ []) 300 (laptop ∷ phone ∷ [])
      (((refl, refl), (refl, refl)), (((refl, refl), (refl, refl)), tt))
      (((refl, refl), (refl, refl)), (((refl, refl), (refl, refl)), tt)) refl refl

abbrev batch : List DeviceRecord
batch =
    record { id = 3; user_id = 7; identity_public_key = 30 ∷ [] }
    ∷ record { id = 5; user_id = 8; identity_public_key = 50 ∷ [] }
    ∷ record { id = 2; user_id = 7; identity_public_key = 20 ∷ [] }
    ∷ []

changed_ids_iff_example :
    has 3 (changed_ids (phone ∷ laptop ∷ []) (laptop ∷ rogue ∷ []))
    ≡ not (same_key (key_of 3 (phone ∷ laptop ∷ [])) (key_of 3 (laptop ∷ rogue ∷ [])))
changed_ids_iff_example = changed_ids_iff (phone ∷ laptop ∷ []) (laptop ∷ rogue ∷ []) 3 refl refl
