-- ===== src/IdentityTrust/Changes.antt =====
-- Which devices a check reports as changed.
use mathlib.Core.Option
use clicked.Prelude.{
  ℕ, ◌≡◌, refl, ap, ◌∙◌, subst, Option, none, some, Bool, true, false, not, ◌&&◌, ◌||◌, List, [],
  ◌∷◌, map, ◌==◌, any, has, has-append, is_distinct, find_first, find_first-holds, is_some, arith,
  Bool-cases, inl, inr,
}
use clicked.KeyMaterial.{Text, same_text}
use clicked.IdentityTrust.{TrustedDevice, add_id, is_pinned_as, add_altered, add_gone, changed_ids}

-- The key of a device in a set.
abbrev pub key_of : ℕ → List TrustedDevice → Option Text
key_of id devices = Option.map (λ d. d.identity_public_key) (find_first (λ d. d.id == id) devices)

abbrev pub same_key : Option Text → Option Text → Bool
same_key none none = true
same_key none (some b) = false
same_key (some a) none = false
same_key (some a) (some b) = same_text a b

has-add_id : (x id : ℕ) (ids : List ℕ) → has x (add_id ids id) ≡ (has x ids || x == id)
has-add_id x id ids = elim (Bool-cases (has id ids)) [
  | inl known ↦ elim (Bool-cases (x == id)) [
    | inl same ↦ let e : x ≡ id = ground arith in rw (known, e, known) refl
    | inr other ↦ rw (known, other) (ground arith)
  ]
  | inr new ↦ rw (new, has-append x ids (id ∷ [])) (ground arith)
]

module _ (pinned : List TrustedDevice) where
  abbrev is_altered : TrustedDevice → Bool
  is_altered d = not (is_pinned_as d.identity_public_key (find_first (λ p. p.id == d.id) pinned))

  has-add_altered :
      (x : ℕ) (ds : List TrustedDevice) (ids : List ℕ)
      → has x (add_altered pinned ds ids) ≡ (has x ids || any (λ d. x == d.id && is_altered d) ds)
  has-add_altered x [] ids = ground arith
  has-add_altered x (d ∷ ds) ids =
      elim (Bool-cases
        (is_pinned_as d.identity_public_key (find_first (λ p. p.id == d.id) pinned))) [
          | inl same ↦ rw (same, has-add_altered x ds ids) (ground arith)
          | inr other ↦
              rw (other, has-add_altered x ds (add_id ids d.id), has-add_id x d.id ids)
                (ground arith)
        ]

module _ (devices : List TrustedDevice) where
  has-add_gone :
      (x : ℕ) (ps : List TrustedDevice) (ids : List ℕ)
      → has x (add_gone devices ps ids)
        ≡ (has x ids || any (λ p. x == p.id && not (any (λ d. d.id == p.id) devices)) ps)
  has-add_gone x [] ids = ground arith
  has-add_gone x (p ∷ ps) ids = elim (Bool-cases (any (λ d. d.id == p.id) devices)) [
    | inl still ↦ rw (still, has-add_gone x ps ids) (ground arith)
    | inr gone ↦
        rw (gone, has-add_gone x ps (add_id ids p.id), has-add_id x p.id ids) (ground arith)
  ]

abbrev holds_of : (TrustedDevice → Bool) → Option TrustedDevice → Bool
holds_of f none = false
holds_of f (some d) = f d

abbrev pub ids_of : List TrustedDevice → List ℕ
ids_of = map (λ d. d.id)

module _ (f : TrustedDevice → Bool) (x : ℕ) where
  any_absent :
      (ds : List TrustedDevice) → has x (ids_of ds) ≡ false → any (λ d. x == d.id && f d) ds ≡ false
  any_absent [] h = refl
  any_absent (d ∷ ds) h =
      let here : (x == d.id) ≡ false = ground arith in rw (here, any_absent ds (ground arith)) refl

  -- Of distinct ids, only the first device with an id counts.
  any_first :
      (ds : List TrustedDevice)
      → is_distinct (ids_of ds) ≡ true
      → any (λ d. x == d.id && f d) ds ≡ holds_of f (find_first (λ d. d.id == x) ds)
  any_first [] h = refl
  any_first (d ∷ ds) h = elim (Bool-cases (d.id == x)) [
    | inl same ↦
        let other_way : (x == d.id) ≡ true = ground arith in
        let e : d.id ≡ x = ground arith in
        let absent : has x (ids_of ds) ≡ false =
          subst (λ i. has i (ids_of ds) ≡ false) e (ground arith) in
        rw (same, other_way, any_absent ds absent)
          (elim (f d) as (λ b. (true && b || false) ≡ b) [ true ↦ refl | false ↦ refl ])
    | inr apart ↦
        let other_way : (x == d.id) ≡ false = ground arith in
        rw (apart, other_way) (any_first ds (ground arith))
  ]

any_id :
    (x : ℕ) (ds : List TrustedDevice)
    → any (λ d. d.id == x) ds ≡ is_some (find_first (λ d. d.id == x) ds)
any_id x [] = refl
any_id x (d ∷ ds) = elim (Bool-cases (d.id == x)) [
  | inl same ↦ rw same refl
  | inr other ↦ rw other (any_id x ds)
]

id_of_found :
    (x : ℕ) (ds : List TrustedDevice) (d : TrustedDevice)
    → find_first (λ d. d.id == x) ds ≡ some d
    → d.id ≡ x
id_of_found x ds d e = let h = find_first-holds (λ d. d.id == x) ds e in ground arith

-- A check reports a device as changed exactly if its key in the checked set is not its key in the
-- pinned one: another, new, or gone. The ids of each set are distinct.
pub changed_ids_iff :
    (pinned devices : List TrustedDevice) (x : ℕ)
    → is_distinct (ids_of pinned) ≡ true
    → is_distinct (ids_of devices) ≡ true
    → has x (changed_ids pinned devices) ≡ not (same_key (key_of x pinned) (key_of x devices))
unfolding changed_ids
changed_ids_iff pinned devices x distinct distinct' =
    has-add_gone devices x pinned (add_altered pinned devices [])
    ∙ ap (λ b. b || any (λ p. x == p.id && not (any (λ d. d.id == p.id) devices)) pinned)
        (has-add_altered pinned x devices [])
    ∙ ap (λ b. b || any (λ p. x == p.id && not (any (λ d. d.id == p.id) devices)) pinned)
        (any_first (is_altered pinned) x devices distinct')
    ∙ ap (λ b. holds_of (is_altered pinned) (find_first (λ d. d.id == x) devices) || b)
        (any_first (λ p. not (any (λ d. d.id == p.id) devices)) x pinned distinct)
    ∙ by_lookup (find_first (λ d. d.id == x) devices) (find_first (λ d. d.id == x) pinned) refl refl
  where
    by_lookup :
        (found kept : Option TrustedDevice)
        → find_first (λ d. d.id == x) devices ≡ found
        → find_first (λ d. d.id == x) pinned ≡ kept
        → (holds_of (is_altered pinned) found
            || holds_of (λ p. not (any (λ d. d.id == p.id) devices)) kept)
          ≡ not (
              same_key
                (Option.map (λ d. d.identity_public_key) kept)
                (Option.map (λ d. d.identity_public_key) found))
    by_lookup none none e k = refl
    by_lookup none (some p) e k = rw (id_of_found x pinned p k, any_id x devices, e) refl
    by_lookup (some d) none e k = rw (id_of_found x devices d e, k) refl
    by_lookup (some d) (some p) e k =
        rw (id_of_found x devices d e, k, id_of_found x pinned p k, any_id x devices, e)
          (elim (same_text p.identity_public_key d.identity_public_key)
            as (λ b. (not b || false) ≡ not b) [ true ↦ refl | false ↦ refl ])
