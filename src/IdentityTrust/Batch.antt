-- ===== src/IdentityTrust/Batch.antt =====
-- That a batch of devices passes only when they are the pinned ones.
use clicked.Prelude.{
  ℕ, ◌≡◌, refl, sym, ap, ◌∙◌, subst, Option, none, some, true, false, List, [], ◌∷◌, map, ◌==◌,
  if◌then◌else◌, has, All, arith, Bool-cases, inl, inr,
}
use clicked.KeyMaterial.{same_text}
use clicked.KeyMaterial.Sizes.{same_text-≡}
use clicked.IdentityTrust.{
  TrustedDevice, TrustedSnapshot, Json, IsJson, Trust, Status, trusted, first_contact, changed,
  sort_devices, fingerprint_of, get_trusted_snapshot, check_against, trust_devices,
  check_identity_change, DeviceRecord, by_user, after_check, check_users, assert_devices_trusted,
}
use clicked.IdentityTrust.Changes.{key_of}
use clicked.IdentityTrust.Sorted.{SameDevices, key_of-sort_devices, All-order_asc}
use clicked.IdentityTrust.Fingerprint.{IsPlainDevice, fingerprint_of-SameDevices}
use clicked.IdentityTrust.Groups.{
  batch_key, records_of, members, key_of-records_of, IsPlainRecord, by_user-members, by_user-has,
  by_user-plain,
}
use clicked.IdentityTrust.Pinning.{get_trusted_snapshot-trust_devices, check_identity_change-kept}

module _ {R : Type 0} (j : Json R) where
  -- Every pin is of devices whose ids and keys have no `:` and no `|`.
  abbrev pub IsPlainTrust : Trust R → Type 0
  IsPlainTrust s =
      (user : ℕ) (snapshot : TrustedSnapshot)
      → get_trusted_snapshot j user s ≡ some snapshot
      → All (IsPlainDevice j.id_text) snapshot.devices

  -- The user's pin has just the devices that the batch has for the user, with the same keys.
  pub record IsPinned (s : Trust R) (devices : List DeviceRecord) (user : ℕ) : Type 0 where
    pub snapshot : TrustedSnapshot
    pub stored : get_trusted_snapshot j user s ≡ some snapshot
    pub same : (id : ℕ) → key_of id snapshot.devices ≡ batch_key user id devices

  -- The pin of a group's user has just the devices of the group.
  record IsGroupPinned (s : Trust R) (g : ℕ × List TrustedDevice) : Type 0 where
    snapshot : TrustedSnapshot
    stored : get_trusted_snapshot j g.0 s ≡ some snapshot
    same : SameDevices snapshot.devices g.1

  passed_of_rest :
      (status : Status) (error : ℕ × List ℕ) (rest : Option (ℕ × List ℕ) × Trust R) (s : Trust R)
      → (after_check j status error rest s).0 ≡ none
      → (after_check j status error rest s ≡ rest) × (rest.0 ≡ none) × (status ≡ changed → ⊥)
  passed_of_rest trusted error rest s e = (refl, e, λ c. cc)
  passed_of_rest first_contact error rest s e = (refl, e, λ c. cc)
  passed_of_rest changed error rest s e = cc

  pub check_users-kept :
      (law : IsJson j) (now user : ℕ) (gs : List (ℕ × List TrustedDevice)) (s : Trust R)
      (snapshot : TrustedSnapshot)
      → get_trusted_snapshot j user s ≡ some snapshot
      → get_trusted_snapshot j user (check_users j now gs s).1 ≡ some snapshot
  check_users-kept law now user [] s snapshot e = e
  check_users-kept law now user (g ∷ gs) s snapshot e =
      let result = check_identity_change j now g.0 g.1 s in
      let kept = check_identity_change-kept j law now user g.0 g.1 s snapshot e in
      either result.0.status (g.0, result.0.changed_device_ids) (check_users j now gs result.1)
        result.1 kept (check_users-kept law now user gs result.1 snapshot kept)
    where
      either :
          (status : Status) (error : ℕ × List ℕ) (rest : Option (ℕ × List ℕ) × Trust R)
          (s' : Trust R)
          → get_trusted_snapshot j user s' ≡ some snapshot
          → get_trusted_snapshot j user rest.1 ≡ some snapshot
          → get_trusted_snapshot j user (after_check j status error rest s').1 ≡ some snapshot
      either trusted error rest s' a b = b
      either first_contact error rest s' a b = b
      either changed error rest s' a b = a

  pub check_identity_change-IsPlainTrust :
      (law : IsJson j) (now user : ℕ) (devices : List TrustedDevice) (s : Trust R)
      → All (IsPlainDevice j.id_text) devices
      → IsPlainTrust s
      → IsPlainTrust (check_identity_change j now user devices s).1
  unfolding check_identity_change get_trusted_snapshot
  check_identity_change-IsPlainTrust law now user devices s plain h =
      by_pin (get_trusted_snapshot j user s)
    where
      set_pin :
          (user' : ℕ) (snapshot : TrustedSnapshot)
          → get_trusted_snapshot j user' (trust_devices j now user devices s) ≡ some snapshot
          → All (IsPlainDevice j.id_text) snapshot.devices
      set_pin user' snapshot e = elim (Bool-cases (user == user')) [
        | inl mine ↦
            let new : some (record { devices = sort_devices devices; trusted_at = now })
                ≡ some snapshot =
              sym (get_trusted_snapshot-trust_devices j law now user' user devices s ∙ rw mine refl)
              ∙ e in
            let ds : sort_devices devices ≡ snapshot.devices = cc in
            subst (All (IsPlainDevice j.id_text)) ds
              (All-order_asc (IsPlainDevice j.id_text) (λ d. d.id) devices plain)
        | inr other ↦ h user' snapshot (
            sym (get_trusted_snapshot-trust_devices j law now user' user devices s ∙ rw other refl)
            ∙ e)
      ]

      by_pin :
          (pinned : Option TrustedSnapshot)
          → (user' : ℕ) (snapshot : TrustedSnapshot)
          → get_trusted_snapshot j user' (check_against j now user devices s pinned).1
            ≡ some snapshot
          → All (IsPlainDevice j.id_text) snapshot.devices
      by_pin none user' snapshot e = set_pin user' snapshot e
      by_pin (some p) user' snapshot e =
          elim (Bool-cases
            (same_text (fingerprint_of j.id_text p.devices) (fingerprint_of j.id_text devices))) [
              | inl same ↦ h user' snapshot (rw same at e)
              | inr other ↦ h user' snapshot (rw other at e)
            ]

  pub check_users-IsPlainTrust :
      (law : IsJson j) (now : ℕ) (gs : List (ℕ × List TrustedDevice)) (s : Trust R)
      → All (λ g. All (IsPlainDevice j.id_text) g.1) gs
      → IsPlainTrust s
      → IsPlainTrust (check_users j now gs s).1
  check_users-IsPlainTrust law now [] s plain h = h
  check_users-IsPlainTrust law now (g ∷ gs) s (plain, plains) h =
      let result = check_identity_change j now g.0 g.1 s in
      let kept = check_identity_change-IsPlainTrust law now g.0 g.1 s plain h in
      either result.0.status (g.0, result.0.changed_device_ids) (check_users j now gs result.1)
        result.1 kept (check_users-IsPlainTrust law now gs result.1 plains kept)
    where
      either :
          (status : Status) (error : ℕ × List ℕ) (rest : Option (ℕ × List ℕ) × Trust R)
          (s' : Trust R)
          → IsPlainTrust s'
          → IsPlainTrust rest.1
          → IsPlainTrust (after_check j status error rest s').1
      either trusted error rest s' a b = b
      either first_contact error rest s' a b = b
      either changed error rest s' a b = a

  checked-IsGroupPinned :
      (law : IsJson j) (now : ℕ) (g : ℕ × List TrustedDevice) (s : Trust R)
      → All (IsPlainDevice j.id_text) g.1
      → IsPlainTrust s
      → ((check_identity_change j now g.0 g.1 s).0.status ≡ changed → ⊥)
      → IsGroupPinned (check_identity_change j now g.0 g.1 s).1 g
  unfolding check_identity_change
  checked-IsGroupPinned law now g s plain h unchanged =
      by_pin (get_trusted_snapshot j g.0 s) refl unchanged
    where
      by_pin :
          (pinned : Option TrustedSnapshot)
          → get_trusted_snapshot j g.0 s ≡ pinned
          → ((check_against j now g.0 g.1 s pinned).0.status ≡ changed → ⊥)
          → IsGroupPinned (check_against j now g.0 g.1 s pinned).1 g
      by_pin none e u =
          let self : (g.0 == g.0) ≡ true = ground arith in
          record {
            snapshot = record { devices = sort_devices g.1; trusted_at = now };
            stored =
                get_trusted_snapshot-trust_devices j law now g.0 g.0 g.1 s
                ∙ ap
                    (λ b.
                      if b
                      then some (record { devices = sort_devices g.1; trusted_at = now })
                      else get_trusted_snapshot j g.0 s)
                    self;
            same = λ id. key_of-sort_devices id g.1;
          }
      by_pin (some snapshot) e u =
          elim (Bool-cases (
            same_text (fingerprint_of j.id_text snapshot.devices) (fingerprint_of j.id_text g.1))) [
              | inl same ↦ rw same (record {
                snapshot = snapshot;
                stored = e;
                same =
                    fingerprint_of-SameDevices j.id_text law.id_text_injective snapshot.devices g.1
                      (h g.0 snapshot e) plain (same_text-≡ _ _ same);
              })
              | inr other ↦ absurd (u (rw other refl))
            ]

  every_user-IsGroupPinned :
      (law : IsJson j) (now : ℕ) (gs : List (ℕ × List TrustedDevice)) (s : Trust R)
      → All (λ g. All (IsPlainDevice j.id_text) g.1) gs
      → IsPlainTrust s
      → (check_users j now gs s).0 ≡ none
      → All (IsGroupPinned (check_users j now gs s).1) gs
  every_user-IsGroupPinned law now [] s plain h e = tt
  every_user-IsGroupPinned law now (g ∷ gs) s (plain, plains) h e =
      let result = check_identity_change j now g.0 g.1 s in
      let (whole, rest, unchanged) =
        passed_of_rest result.0.status (g.0, result.0.changed_device_ids)
          (check_users j now gs result.1) result.1 e in
      let pin = checked-IsGroupPinned law now g s plain h unchanged in
      let kept = check_identity_change-IsPlainTrust law now g.0 g.1 s plain h in
      subst (λ r. All (IsGroupPinned r.1) (g ∷ gs)) (sym whole)
        (
          record {
            snapshot = pin.snapshot;
            stored = check_users-kept law now g.0 gs result.1 pin.snapshot pin.stored;
            same = pin.same;
          },
          every_user-IsGroupPinned law now gs result.1 plains kept rest,
        )

  -- A batch of devices passes the check only if afterwards every user in it is pinned with exactly the
  -- devices that the batch has for that user.
  pub assert_devices_trusted-Pinned :
      (law : IsJson j) (now : ℕ) (devices : List DeviceRecord) (s : Trust R)
      → All (IsPlainRecord j) devices
      → IsPlainTrust s
      → (assert_devices_trusted j now devices s).0 ≡ none
      → (user : ℕ) → has user (map (λ d. d.user_id) devices) ≡ true
      → IsPinned (assert_devices_trusted j now devices s).1 devices user
  unfolding assert_devices_trusted
  assert_devices_trusted-Pinned law now devices s plain h passed user there =
      let groups = by_user j devices [] in
      let pins =
        every_user-IsGroupPinned law now groups s (by_user-plain j devices [] plain tt) h passed in
      pinned_group (check_users j now groups s).1 groups pins
        (by_user-has j user devices [] ∙ there) (by_user-members j user devices)
    where
      pinned_group :
          (s' : Trust R) (gs : List (ℕ × List TrustedDevice))
          → All (IsGroupPinned s') gs
          → has user (map (λ g. g.0) gs) ≡ true
          → members user gs ≡ records_of user devices
          → IsPinned s' devices user
      pinned_group s' [] pins e m = absurd (never e)
        where
          never : false ≡ true → ⊥
          never e = cc
      pinned_group s' (g ∷ gs) (pin, pins) e m = elim (Bool-cases (g.0 == user)) [
        | inl mine ↦
            let same_user : g.0 ≡ user = ground arith in
            let group : g.1 ≡ records_of user devices = rw mine at m in
            record {
              snapshot = pin.snapshot;
              stored = ap (λ u. get_trusted_snapshot j u s') (sym same_user) ∙ pin.stored;
              same = λ id. pin.same id ∙ ap (key_of id) group ∙ key_of-records_of user id devices;
            }
        | inr other ↦ pinned_group s' gs pins (ground arith) (rw other at m)
      ]
