-- ===== src/IdentityTrust/Pinning.antt =====
-- That a pin moves only when the user trusts another set of devices.
use clicked.Prelude.{
  ℕ, ◌≡◌, ◌↔◌, ◌⊎◌, refl, sym, ap, ◌∙◌, subst, Option, none, some, Bool, true, false, List, [], ◌∷◌,
  map, ◌==◌, if◌then◌else◌, is_distinct, All, arith, Bool-cases, inl, inr,
}
use clicked.KeyMaterial.{same_text}
use clicked.KeyMaterial.Sizes.{same_text_refl, same_text-≡}
use clicked.IdentityTrust.{
  TrustedDevice, TrustedSnapshot, Json, IsJson, Trust, trusted, changed, sort_devices,
  fingerprint_part, join_parts, fingerprint_of, read_raw, write_raw, get_trusted_snapshot,
  trust_devices, parsed, check_against, check_identity_change,
}
use clicked.IdentityTrust.Changes.{ids_of}
use clicked.IdentityTrust.Sorted.{SameDevices, order_asc_twice, sort_devices-SameDevices}
use clicked.IdentityTrust.Fingerprint.{IsPlainDevice, fingerprint_of-SameDevices}

module _ {R : Type 0} where
  read_raw-write_raw :
      (k k' : ℕ) (value : R) (es : List (ℕ × R))
      → read_raw k' (write_raw k value es) ≡ (if k == k' then some value else read_raw k' es)
  read_raw-write_raw k k' value [] = refl
  read_raw-write_raw k k' value (e ∷ es) = elim (Bool-cases (e.0 == k)) [
    | inl hit ↦ let same : e.0 ≡ k = ground arith in rw (hit, same) (ground arith)
    | inr other ↦ elim (Bool-cases (e.0 == k')) [
      | inl found ↦ let apart : (k == k') ≡ false = ground arith in rw (other, found, apart) refl
      | inr missing ↦ rw (other, missing) (read_raw-write_raw k k' value es)
    ]
  ]

module _ {R : Type 0} (j : Json R) where
  -- Checks of users' devices one after the other, each at a time.
  unfoldable pub run_checks : List (ℕ × ℕ × List TrustedDevice) → Trust R → Trust R
  run_checks [] s = s
  run_checks ((now, user, devices) ∷ checks) s =
      run_checks checks (check_identity_change j now user devices s).1

  pub get_trusted_snapshot-trust_devices :
      (law : IsJson j) (now user user' : ℕ) (devices : List TrustedDevice) (s : Trust R)
      → get_trusted_snapshot j user (trust_devices j now user' devices s) ≡ (
          if user' == user
          then some (record { devices = sort_devices devices; trusted_at = now })
          else get_trusted_snapshot j user s)
  unfolding get_trusted_snapshot trust_devices
  get_trusted_snapshot-trust_devices law now user user' devices s =
      let snapshot : TrustedSnapshot = record {
        devices = sort_devices devices;
        trusted_at = now;
      } in
      ap (parsed j) (read_raw-write_raw user' user (j.stringify snapshot) s.stored)
      ∙ pushed (user' == user) snapshot
    where
      pushed :
          (b : Bool) (snapshot : TrustedSnapshot)
          → parsed j (if b then some (j.stringify snapshot) else read_raw user s.stored)
            ≡ (if b then some snapshot else parsed j (read_raw user s.stored))
      pushed true snapshot = law.parse-stringify snapshot
      pushed false snapshot = refl

  check_against-kept :
      (law : IsJson j) (now user user' : ℕ) (devices : List TrustedDevice) (s : Trust R)
      (snapshot : TrustedSnapshot) (pinned : Option TrustedSnapshot)
      → get_trusted_snapshot j user' s ≡ pinned
      → get_trusted_snapshot j user s ≡ some snapshot
      → get_trusted_snapshot j user (check_against j now user' devices s pinned).1 ≡ some snapshot
  unfolding get_trusted_snapshot
  check_against-kept law now user user' devices s snapshot none e' e =
      elim (Bool-cases (user' == user)) [
        | inl same ↦
            let u : user' ≡ user = ground arith in
            let clash : none ≡ some snapshot =
              sym e' ∙ ap (λ v. get_trusted_snapshot j v s) u ∙ e in
            cc
        | inr other ↦
            get_trusted_snapshot-trust_devices law now user user' devices s
            ∙ ap
                (λ b.
                  if b
                  then some (record { devices = sort_devices devices; trusted_at = now })
                  else get_trusted_snapshot j user s)
                other
            ∙ e
      ]
  check_against-kept law now user user' devices s snapshot (some pinned) e' e =
      elim (Bool-cases
        (same_text (fingerprint_of j.id_text pinned.devices) (fingerprint_of j.id_text devices))) [
          | inl same ↦ rw same e
          | inr other ↦ rw other e
        ]

  pub check_identity_change-kept :
      (law : IsJson j) (now user user' : ℕ) (devices : List TrustedDevice) (s : Trust R)
      (snapshot : TrustedSnapshot)
      → get_trusted_snapshot j user s ≡ some snapshot
      → get_trusted_snapshot j user (check_identity_change j now user' devices s).1 ≡ some snapshot
  unfolding check_identity_change
  check_identity_change-kept law now user user' devices s snapshot e =
      check_against-kept law now user user' devices s snapshot (get_trusted_snapshot j user' s) refl
        e

  run_checks-kept :
      (law : IsJson j) (checks : List (ℕ × ℕ × List TrustedDevice)) (user : ℕ) (s : Trust R)
      (snapshot : TrustedSnapshot)
      → get_trusted_snapshot j user s ≡ some snapshot
      → get_trusted_snapshot j user (run_checks checks s) ≡ some snapshot
  unfolding run_checks
  run_checks-kept law [] user s snapshot e = e
  run_checks-kept law ((now, user', devices) ∷ checks) user s snapshot e =
      run_checks-kept law checks user (check_identity_change j now user' devices s).1 snapshot
        (check_identity_change-kept law now user user' devices s snapshot e)

  check_identity_change-status :
      (now user : ℕ) (devices : List TrustedDevice) (s : Trust R) (snapshot : TrustedSnapshot)
      → get_trusted_snapshot j user s ≡ some snapshot
      → (check_identity_change j now user devices s).0.status ≡ (
          if same_text
            (fingerprint_of j.id_text snapshot.devices)
            (fingerprint_of j.id_text devices)
          then trusted
          else changed)
  unfolding check_identity_change
  check_identity_change-status now user devices s snapshot e =
      ap (λ o. (check_against j now user devices s o).0.status) e
      ∙ elim (Bool-cases (
          same_text (fingerprint_of j.id_text snapshot.devices)
            (fingerprint_of j.id_text devices))) [
              | inl same ↦ rw same refl
              | inr other ↦ rw other refl
            ]

  -- A sorted set has the fingerprint of the set.
  fingerprint_of-sorted :
      (ds es : List TrustedDevice)
      → sort_devices ds ≡ sort_devices es
      → fingerprint_of j.id_text ds ≡ fingerprint_of j.id_text es
  unfolding fingerprint_of
  fingerprint_of-sorted ds es e = ap (λ xs. join_parts (map (fingerprint_part j.id_text) xs)) e

  status_of_test :
      (b : Bool)
      → ((if b then trusted else changed) ≡ trusted) ⊎ ((if b then trusted else changed) ≡ changed)
  status_of_test true = inl refl
  status_of_test false = inr refl

  passed_test : (b : Bool) → (if b then trusted else changed) ≡ trusted → b ≡ true
  passed_test true e = refl
  passed_test false e = cc

  -- Once a user's devices are trusted, and after any checks of this user's or others' devices, a check
  -- of the user passes exactly for the devices that were trusted, each with the same key and in any
  -- order; any other set is reported as changed, however often it is checked. This holds for sets of
  -- devices with distinct ids, whose ids and keys have no `:` and no `|`.
  pub trust_devices-Pinned :
      (law : IsJson j) (s : Trust R) (now user : ℕ) (devices : List TrustedDevice)
      (checks : List (ℕ × ℕ × List TrustedDevice)) (later : ℕ) (devices' : List TrustedDevice)
      → All (IsPlainDevice j.id_text) devices
      → All (IsPlainDevice j.id_text) devices'
      → is_distinct (ids_of devices) ≡ true
      → is_distinct (ids_of devices') ≡ true
      → let checked =
          check_identity_change j later user devices'
            (run_checks checks (trust_devices j now user devices s)) in
        ((checked.0.status ≡ trusted) ↔ SameDevices devices devices')
        × ((checked.0.status ≡ trusted) ⊎ (checked.0.status ≡ changed))
  trust_devices-Pinned law s now user devices checks later devices' plain plain' once once' =
      let snapshot : TrustedSnapshot = record {
        devices = sort_devices devices;
        trusted_at = now;
      } in
      let self : (user == user) ≡ true = ground arith in
      let pinned : get_trusted_snapshot j user (trust_devices j now user devices s)
          ≡ some snapshot =
        get_trusted_snapshot-trust_devices law now user user devices s
        ∙ ap (λ b. if b then some snapshot else get_trusted_snapshot j user s) self in
      let after = run_checks checks (trust_devices j now user devices s) in
      let sorted = sort_devices devices in
      let test = same_text (fingerprint_of j.id_text sorted) (fingerprint_of j.id_text devices') in
      let status : (check_identity_change j later user devices' after).0.status
          ≡ (if test then trusted else changed) =
        check_identity_change-status later user devices' after snapshot
          (run_checks-kept law checks user (trust_devices j now user devices s) snapshot pinned) in
      let twice : sort_devices sorted ≡ sort_devices devices =
        order_asc_twice (λ d. d.id) devices in
      (
        (
          λ e.
              fingerprint_of-SameDevices j.id_text law.id_text_injective devices devices' plain
                plain'
                (sym (fingerprint_of-sorted sorted devices twice)
                  ∙ same_text-≡ _ _ (passed_test test (sym status ∙ e))),
          λ same.
              status
              ∙ ap (λ b. if b then trusted else changed)
                  (ap (λ t. same_text t (fingerprint_of j.id_text devices'))
                      (fingerprint_of-sorted sorted devices twice
                        ∙ fingerprint_of-sorted devices devices'
                            (sort_devices-SameDevices devices devices' once once' same))
                    ∙ same_text_refl (fingerprint_of j.id_text devices')),
        ),
        subst (λ x. (x ≡ trusted) ⊎ (x ≡ changed)) (sym status) (status_of_test test),
      )
