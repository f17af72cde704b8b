-- ===== src/IdentityTrust/Groups.antt =====
-- The devices of a batch, grouped by user.
use mathlib.Core.Option
use clicked.Prelude.{
  ℕ, ◌≡◌, refl, sym, ap, ◌∙◌, Option, true, false, ◌&&◌, ◌||◌, List, [], ◌∷◌, ◌++◌, map, ◌==◌,
  if◌then◌else◌, has, find_first, rows_where, All, All-append, arith, Bool-cases, inl, inr,
}
use clicked.KeyMaterial.{Text}
use clicked.IdentityTrust.{TrustedDevice, Json, DeviceRecord, add_device, by_user}
use clicked.IdentityTrust.Changes.{key_of}
use clicked.IdentityTrust.Fingerprint.{IsPlain, IsPlainDevice}

-- The key of a user's device in a batch.
abbrev pub batch_key : (user id : ℕ) → List DeviceRecord → Option Text
batch_key user id devices =
    Option.map (λ d. d.identity_public_key)
      (find_first (λ d. d.user_id == user && d.id == id) devices)

abbrev trusted_of : DeviceRecord → TrustedDevice
trusted_of d = record { id = d.id; identity_public_key = d.identity_public_key }

-- A user's devices in a batch.
abbrev pub records_of : ℕ → List DeviceRecord → List TrustedDevice
records_of user devices = map trusted_of (rows_where (λ d. d.user_id == user) devices)

-- The devices of the user's group.
abbrev pub members : ℕ → List (ℕ × List TrustedDevice) → List TrustedDevice
members user [] = []
members user (g ∷ gs) = if g.0 == user then g.1 else members user gs

pub key_of-records_of :
    (user id : ℕ) (devices : List DeviceRecord)
    → key_of id (records_of user devices) ≡ batch_key user id devices
key_of-records_of user id [] = refl
key_of-records_of user id (d ∷ ds) = elim (Bool-cases (d.user_id == user)) [
  | inr other ↦ rw other (key_of-records_of user id ds)
  | inl mine ↦ elim (Bool-cases (d.id == id)) [
    | inl hit ↦ rw (mine, hit) refl
    | inr miss ↦ rw (mine, miss) (key_of-records_of user id ds)
  ]
]

module _ {R : Type 0} (j : Json R) where
  abbrev pub IsPlainRecord : DeviceRecord → Type 0
  IsPlainRecord d = IsPlain (j.id_text d.id) × IsPlain d.identity_public_key

  add_device-members :
      (user : ℕ) (d : DeviceRecord) (gs : List (ℕ × List TrustedDevice))
      → members user (add_device j d gs)
        ≡ (if d.user_id == user then members user gs ++ trusted_of d ∷ [] else members user gs)
  add_device-members user d [] = refl
  add_device-members user d (g ∷ gs) = elim (Bool-cases (g.0 == d.user_id)) [
    | inl here ↦
        let same : g.0 ≡ d.user_id = ground arith in
        elim (Bool-cases (d.user_id == user)) [
          | inl mine ↦ let also : (g.0 == user) ≡ true = ground arith in rw (here, mine, also) refl
          | inr other ↦
              let also : (g.0 == user) ≡ false = ground arith in rw (here, other, also) refl
        ]
    | inr apart ↦ elim (Bool-cases (g.0 == user)) [
      | inl found ↦
          let other : (d.user_id == user) ≡ false = ground arith in rw (apart, found, other) refl
      | inr missing ↦ rw (apart, missing) (add_device-members user d gs)
    ]
  ]

  by_user-grown :
      (user : ℕ) (ds : List DeviceRecord) (gs : List (ℕ × List TrustedDevice))
      → members user (by_user j ds gs) ≡ members user gs ++ records_of user ds
  by_user-grown user [] gs = sym (append_nothing (members user gs))
    where
      append_nothing : (xs : List TrustedDevice) → xs ++ [] ≡ xs
      append_nothing [] = refl
      append_nothing (x ∷ xs) = ap (◌∷◌ x) (append_nothing xs)
  by_user-grown user (d ∷ ds) gs =
      by_user-grown user ds (add_device j d gs)
      ∙ ap (λ xs. xs ++ records_of user ds) (add_device-members user d gs)
      ∙ elim (Bool-cases (d.user_id == user)) [
        | inl mine ↦ rw mine (regroup (members user gs))
        | inr other ↦ rw other refl
      ]
    where
      regroup :
          (xs : List TrustedDevice)
          → (xs ++ trusted_of d ∷ []) ++ records_of user ds
            ≡ xs ++ trusted_of d ∷ records_of user ds
      regroup [] = refl
      regroup (x ∷ xs) = ap (◌∷◌ x) (regroup xs)

  pub by_user-members :
      (user : ℕ) (ds : List DeviceRecord) → members user (by_user j ds []) ≡ records_of user ds
  by_user-members user ds = by_user-grown user ds []

  add_device-has :
      (user : ℕ) (d : DeviceRecord) (gs : List (ℕ × List TrustedDevice))
      → has user (map (λ g. g.0) (add_device j d gs))
        ≡ (has user (map (λ g. g.0) gs) || user == d.user_id)
  add_device-has user d [] = ground arith
  add_device-has user d (g ∷ gs) = elim (Bool-cases (g.0 == d.user_id)) [
    | inl here ↦ rw here (ground arith)
    | inr apart ↦ rw (apart, add_device-has user d gs) (ground arith)
  ]

  -- Every user of a batch has a group.
  pub by_user-has :
      (user : ℕ) (ds : List DeviceRecord) (gs : List (ℕ × List TrustedDevice))
      → has user (map (λ g. g.0) (by_user j ds gs))
        ≡ (has user (map (λ g. g.0) gs) || has user (map (λ d. d.user_id) ds))
  by_user-has user [] gs = ground arith
  by_user-has user (d ∷ ds) gs =
      by_user-has user ds (add_device j d gs) ∙ rw (add_device-has user d gs) (ground arith)

  add_device-plain :
      (d : DeviceRecord) (gs : List (ℕ × List TrustedDevice))
      → IsPlainRecord d
      → All (λ g. All (IsPlainDevice j.id_text) g.1) gs
      → All (λ g. All (IsPlainDevice j.id_text) g.1) (add_device j d gs)
  add_device-plain d [] h hs = ((h, tt), tt)
  add_device-plain d (g ∷ gs) h (k, ks) = elim (Bool-cases (g.0 == d.user_id)) [
    | inl here ↦
        rw here (All-append (IsPlainDevice j.id_text) g.1 (trusted_of d ∷ []) k (h, tt), ks)
    | inr apart ↦ rw apart (k, add_device-plain d gs h ks)
  ]

  pub by_user-plain :
      (ds : List DeviceRecord) (gs : List (ℕ × List TrustedDevice))
      → All IsPlainRecord ds
      → All (λ g. All (IsPlainDevice j.id_text) g.1) gs
      → All (λ g. All (IsPlainDevice j.id_text) g.1) (by_user j ds gs)
  by_user-plain [] gs h hs = hs
  by_user-plain (d ∷ ds) gs (h, hs) ks =
      by_user-plain ds (add_device j d gs) hs (add_device-plain d gs h ks)
