-- ===== src/IdentityTrust/Sorted.antt =====
-- Sorting devices by their id keeps the key of each, and the order of distinct ids is the only one.
use clicked.Prelude.{
  ℕ, suc, ◌≡◌, ◌≤◌, refl, sym, ap, ◌∙◌, none, some, true, false, List, [], ◌∷◌, leb, ◌==◌,
  if◌then◌else◌, has, is_distinct, order_asc, insert_asc, IsAscending, order_asc_of_IsAscending,
  All, All-map, arith, Bool-cases, inl, inr, ◌⊎◌,
}
use clicked.IdentityTrust.{TrustedDevice, sort_devices}
use clicked.IdentityTrust.Changes.{key_of, ids_of}

-- The same devices with the same keys.
abbrev pub SameDevices : List TrustedDevice → List TrustedDevice → Type 0
SameDevices ds es = (id : ℕ) → key_of id ds ≡ key_of id es

module _ {A : Type 0} (key : A → ℕ) where
  insert_asc-All :
      (n : ℕ) (x : A) (xs : List A)
      → n ≤ key x
      → All (λ y. n ≤ key y) xs
      → All (λ y. n ≤ key y) (insert_asc key x xs)
  insert_asc-All n x [] h hs = (h, tt)
  insert_asc-All n x (y ∷ ys) h (k, ks) = elim (Bool-cases (leb (key x) (key y))) [
    | inl before ↦ rw before (h, (k, ks))
    | inr after ↦ rw after (k, insert_asc-All n x ys h ks)
  ]

  insert_asc-IsAscending :
      (x : A) (xs : List A) → IsAscending key xs → IsAscending key (insert_asc key x xs)
  insert_asc-IsAscending x [] h = (tt, tt)
  insert_asc-IsAscending x (y ∷ ys) (h, hs) = elim (Bool-cases (leb (key x) (key y))) [
    | inl before ↦ rw before ((ground arith, All-map _ _ (λ z k. ground arith) ys h), (h, hs))
    | inr after ↦
        rw after (insert_asc-All (key y) x ys (ground arith) h, insert_asc-IsAscending x ys hs)
  ]

  order_asc-IsAscending : (xs : List A) → IsAscending key (order_asc key xs)
  order_asc-IsAscending [] = tt
  order_asc-IsAscending (x ∷ xs) =
      insert_asc-IsAscending x (order_asc key xs) (order_asc-IsAscending xs)

  pub order_asc_twice : (xs : List A) → order_asc key (order_asc key xs) ≡ order_asc key xs
  order_asc_twice xs = order_asc_of_IsAscending key (order_asc key xs) (order_asc-IsAscending xs)

module _ {A : Type 0} (P : A → Type 0) (key : A → ℕ) where
  All-insert_asc : (x : A) (xs : List A) → P x → All P xs → All P (insert_asc key x xs)
  All-insert_asc x [] h hs = (h, tt)
  All-insert_asc x (y ∷ ys) h (k, ks) = elim (Bool-cases (leb (key x) (key y))) [
    | inl before ↦ rw before (h, (k, ks))
    | inr after ↦ rw after (k, All-insert_asc x ys h ks)
  ]

  pub All-order_asc : (xs : List A) → All P xs → All P (order_asc key xs)
  All-order_asc [] h = tt
  All-order_asc (x ∷ xs) (h, hs) = All-insert_asc x (order_asc key xs) h (All-order_asc xs hs)

pub key_of-cons :
    (id : ℕ) (d : TrustedDevice) (ds : List TrustedDevice)
    → key_of id (d ∷ ds) ≡ (if d.id == id then some d.identity_public_key else key_of id ds)
key_of-cons id d ds = elim (Bool-cases (d.id == id)) [
  | inl hit ↦ rw hit refl
  | inr miss ↦ rw miss refl
]

key_of-insert_asc :
    (id : ℕ) (d : TrustedDevice) (ds : List TrustedDevice)
    → key_of id (insert_asc (λ d. d.id) d ds)
      ≡ (if d.id == id then some d.identity_public_key else key_of id ds)
key_of-insert_asc id d [] = key_of-cons id d []
key_of-insert_asc id d (e ∷ es) = elim (Bool-cases (leb d.id e.id)) [
  | inl before ↦ rw before (key_of-cons id d (e ∷ es))
  | inr after ↦ rw after (
      key_of-cons id e (insert_asc (λ d. d.id) d es)
      ∙ ap (λ o. if e.id == id then some e.identity_public_key else o) (key_of-insert_asc id d es)
      ∙ swapped after (Bool-cases (e.id == id))
      ∙ ap (λ o. if d.id == id then some d.identity_public_key else o) (sym (key_of-cons id e es)))
]
  where
    swapped :
        leb d.id e.id ≡ false
        → ((e.id == id) ≡ true) ⊎ ((e.id == id) ≡ false)
        → (if e.id == id
            then some e.identity_public_key
            else (if d.id == id then some d.identity_public_key else key_of id es))
          ≡ (if d.id == id
              then some d.identity_public_key
              else (if e.id == id then some e.identity_public_key else key_of id es))
    swapped after (inl hit) =
        let apart : (d.id == id) ≡ false = ground arith in rw (hit, apart) refl
    swapped after (inr miss) = rw miss refl

pub key_of-sort_devices :
    (id : ℕ) (ds : List TrustedDevice) → key_of id (sort_devices ds) ≡ key_of id ds
key_of-sort_devices id [] = refl
key_of-sort_devices id (d ∷ ds) =
    key_of-insert_asc id d (sort_devices ds)
    ∙ ap (λ o. if d.id == id then some d.identity_public_key else o) (key_of-sort_devices id ds)
    ∙ sym (key_of-cons id d ds)

abbrev Strict : List TrustedDevice → Type 0
Strict [] = Unit
Strict (d ∷ ds) = All (λ e. suc d.id ≤ e.id) ds × Strict ds

key_of-above :
    (id : ℕ) (ds : List TrustedDevice) → All (λ e. suc id ≤ e.id) ds → key_of id ds ≡ none
key_of-above id [] h = refl
key_of-above id (d ∷ ds) (h, hs) =
    let apart : (d.id == id) ≡ false = ground arith in
    key_of-cons id d ds ∙ rw apart (key_of-above id ds hs)

insert_asc-Strict :
    (d : TrustedDevice) (ds : List TrustedDevice)
    → key_of d.id ds ≡ none
    → Strict ds
    → Strict (insert_asc (λ d. d.id) d ds)
insert_asc-Strict d [] new h = (tt, tt)
insert_asc-Strict d (e ∷ es) new (h, hs) = elim (Bool-cases (leb d.id e.id)) [
  | inl before ↦
      let apart : (e.id == d.id) ≡ false = miss (Bool-cases (e.id == d.id)) in
      rw before (((ground arith), All-map _ _ (λ z k. ground arith) es h), (h, hs))
  | inr after ↦
      let apart : (e.id == d.id) ≡ false = ground arith in
      rw after (
        insert_asc-All (λ d. d.id) (suc e.id) d es (ground arith) h,
        insert_asc-Strict d es (sym (key_of-cons d.id e es ∙ rw apart refl) ∙ new) hs,
      )
]
  where
    miss : ((e.id == d.id) ≡ true) ⊎ ((e.id == d.id) ≡ false) → (e.id == d.id) ≡ false
    miss (inl hit) =
        let clash : some e.identity_public_key ≡ none =
          sym (key_of-cons d.id e es ∙ rw hit refl) ∙ new in
        cc
    miss (inr other) = other

key_of-absent :
    (id : ℕ) (ds : List TrustedDevice) → has id (ids_of ds) ≡ false → key_of id ds ≡ none
key_of-absent id [] h = refl
key_of-absent id (d ∷ ds) h =
    let apart : (d.id == id) ≡ false = ground arith in
    key_of-cons id d ds ∙ rw apart (key_of-absent id ds (ground arith))

sort_devices-Strict :
    (ds : List TrustedDevice) → is_distinct (ids_of ds) ≡ true → Strict (sort_devices ds)
sort_devices-Strict [] h = tt
sort_devices-Strict (d ∷ ds) h =
    insert_asc-Strict d (sort_devices ds)
      (key_of-sort_devices d.id ds ∙ key_of-absent d.id ds (ground arith))
      (sort_devices-Strict ds (ground arith))

pub device_eq :
    (d e : TrustedDevice) → d.id ≡ e.id → d.identity_public_key ≡ e.identity_public_key → d ≡ e
device_eq d e p q =
    ap (λ n. record { id = n; identity_public_key = d.identity_public_key }) p
    ∙ ap (λ k. record { id = e.id; identity_public_key = k }) q

Strict-unique : (ds es : List TrustedDevice) → Strict ds → Strict es → SameDevices ds es → ds ≡ es
Strict-unique [] [] h k same = refl
Strict-unique [] (e ∷ es) h k same =
    let self : (e.id == e.id) ≡ true = ground arith in
    let clash : none ≡ some e.identity_public_key =
      same e.id ∙ key_of-cons e.id e es ∙ rw self refl in
    cc
Strict-unique (d ∷ ds) [] h k same =
    let self : (d.id == d.id) ≡ true = ground arith in
    let clash : none ≡ some d.identity_public_key =
      sym (same d.id) ∙ key_of-cons d.id d ds ∙ rw self refl in
    cc
Strict-unique (d ∷ ds) (e ∷ es) (h, hs) (k, ks) same = elim (Bool-cases (d.id == e.id)) [
  | inl here ↦ heads (ground arith) (Strict-unique ds es hs ks)
  | inr apart ↦ elim (Bool-cases (leb d.id e.id)) [
    | inl before ↦ absurd (
        unmatched d ds (e ∷ es) (λ id. same id)
          (ground arith, All-map _ _ (λ z b. ground arith) es k))
    | inr after ↦ absurd (
        unmatched e es (d ∷ ds) (λ id. sym (same id))
          (ground arith, All-map _ _ (λ z b. ground arith) ds h))
  ]
]
  where
    unmatched :
        (a : TrustedDevice) (rest bs : List TrustedDevice)
        → SameDevices (a ∷ rest) bs
        → All (λ b. suc a.id ≤ b.id) bs
        → ⊥
    unmatched a rest bs same above =
        let self : (a.id == a.id) ≡ true = ground arith in
        let clash : some a.identity_public_key ≡ none =
          sym (key_of-cons a.id a rest ∙ rw self refl) ∙ same a.id ∙ key_of-above a.id bs above in
        cc

    heads : d.id ≡ e.id → (SameDevices ds es → ds ≡ es) → d ∷ ds ≡ e ∷ es
    heads id_same rest_of =
        let self : (d.id == d.id) ≡ true = ground arith in
        let also : (e.id == d.id) ≡ true = ground arith in
        let keys : some d.identity_public_key ≡ some e.identity_public_key =
          sym (key_of-cons d.id d ds ∙ rw self refl)
          ∙ same d.id
          ∙ (key_of-cons d.id e es ∙ rw also refl) in
        let key : d.identity_public_key ≡ e.identity_public_key = cc in
        let rest : ds ≡ es = rest_of tails in
        ap (λ x. x ∷ ds) (device_eq d e id_same key) ∙ ap (◌∷◌ e) rest
      where
        tails : SameDevices ds es
        tails id = elim (Bool-cases (d.id == id)) [
          | inl here ↦
              let i : d.id ≡ id = ground arith in
              let j : e.id ≡ id = ground arith in
              key_of-above id ds (All-map _ _ (λ z b. ground arith) ds h)
              ∙ sym (key_of-above id es (All-map _ _ (λ z b. ground arith) es k))
          | inr miss ↦
              let other : (e.id == id) ≡ false = ground arith in
              sym (key_of-cons id d ds ∙ rw miss refl)
              ∙ same id
              ∙ (key_of-cons id e es ∙ rw other refl)
        ]

-- Sets of devices with distinct ids are the same exactly if they are equal when sorted.
pub sort_devices-SameDevices :
    (ds es : List TrustedDevice)
    → is_distinct (ids_of ds) ≡ true
    → is_distinct (ids_of es) ≡ true
    → SameDevices ds es
    → sort_devices ds ≡ sort_devices es
sort_devices-SameDevices ds es h k same =
    Strict-unique (sort_devices ds) (sort_devices es) (sort_devices-Strict ds h)
      (sort_devices-Strict es k)
      (λ id. key_of-sort_devices id ds ∙ same id ∙ sym (key_of-sort_devices id es))

pub SameDevices-of_sorted :
    (ds es : List TrustedDevice) → sort_devices ds ≡ sort_devices es → SameDevices ds es
SameDevices-of_sorted ds es e id =
    sym (key_of-sort_devices id ds) ∙ ap (key_of id) e ∙ key_of-sort_devices id es
