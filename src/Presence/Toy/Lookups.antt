-- ===== src/Presence/Toy/Lookups.antt =====
-- Looking up what is stored and what a deletion has left.
use clicked.Prelude.{
  ℕ, ◌≡◌, refl, sym, ◌∙◌, none, some, Bool, true, false, not, ◌&&◌, List, [], ◌∷◌, ltb, ◌==◌,
  rows_where, arith, Bool-cases, ◌⊎◌, inl, inr,
}
use clicked.Presence.{Key, Field, code_of, field_code, same_key, same_field}
use clicked.Presence.Toy.{
  HashEntry, Member, entry_at, value_at, count_entries, has_member, count_members,
}

pub same_key-left : (k k' x : Key) → same_key k k' ≡ true → same_key x k ≡ same_key x k'
same_key-left k k' x e =
    let a : (code_of k).0 ≡ (code_of k').0 = ground arith in
    let b : (code_of k).1 ≡ (code_of k').1 = ground arith in
    let c : (code_of k).2 ≡ (code_of k').2 = ground arith in rw (a, b, c) refl

pub same_key_comm : (k k' : Key) → same_key k k' ≡ true → same_key k' k ≡ true
same_key_comm k k' e = ground arith

pub same_key-other :
    (k k' x : Key) → same_key k k' ≡ false → same_key x k ≡ true → same_key x k' ≡ false
same_key-other k k' x other hit = elim (Bool-cases (same_key x k')) [
  | inr apart ↦ apart
  | inl both ↦
      let back : same_key k x ≡ true = same_key_comm x k hit in
      let c : same_key k k' ≡ true = sym (same_key-left x k' k both) ∙ back in cc
]

pub same_field-left : (f f' x : Field) → same_field f f' ≡ true → same_field x f ≡ same_field x f'
same_field-left f f' x e =
    let a : (field_code f).0 ≡ (field_code f').0 = ground arith in
    let b : (field_code f).1 ≡ (field_code f').1 = ground arith in rw (a, b) refl

pub same_field-other :
    (f f' x : Field) → same_field f f' ≡ false → same_field x f ≡ true → same_field x f' ≡ false
same_field-other f f' x other hit = ground arith

pub and_true : (a b : Bool) → (a && b) ≡ true → (a ≡ true) × (b ≡ true)
and_true true true e = (refl, refl)
and_true true false e = cc
and_true false b e = cc

pub and_false : (a b : Bool) → (a && b) ≡ false → (a ≡ false) ⊎ (b ≡ false)
and_false true b e = inr e
and_false false b e = inl refl

pub and_right : (a : Bool) → (a && false) ≡ false
and_right true = refl
and_right false = refl

module _ (k k' : Key) (f f' : Field) where
  pub entry_at-same :
      (same_key k k' && same_field f f') ≡ true
      → (e : HashEntry) → entry_at k' f' e ≡ entry_at k f e
  entry_at-same h e =
      let (a, b) = and_true (same_key k k') (same_field f f') h in
      rw (same_key-left k k' e.key a, same_field-left f f' e.field b) refl

  pub entry_at-other :
      (same_key k k' && same_field f f') ≡ false
      → (e : HashEntry) → entry_at k f e ≡ true
      → entry_at k' f' e ≡ false
  entry_at-other h e hit =
      let (a, b) = and_true (same_key e.key k) (same_field e.field f) hit in
      elim (and_false (same_key k k') (same_field f f') h) [
        | inl keys ↦ rw (same_key-other k k' e.key keys a) refl
        | inr fields ↦ rw (same_field-other f f' e.field fields b) (and_right (same_key e.key k'))
      ]

-- Looking up what a deletion has left.
module _ (k : Key) (f : Field) (p : HashEntry → Bool) where
  pub value_at-deleted :
      (es : List HashEntry)
      → ((e : HashEntry) → entry_at k f e ≡ true → p e ≡ true)
      → value_at k f (rows_where (λ e. not (p e)) es) ≡ none
  value_at-deleted [] h = refl
  value_at-deleted (e ∷ es) h = elim (Bool-cases (p e)) [
    | inl gone ↦ rw gone (value_at-deleted es h)
    | inr kept ↦ elim (Bool-cases (entry_at k f e)) [
      | inl hit ↦ let c = h e hit in absurd (clash (sym c ∙ kept))
      | inr other ↦ rw (kept, other) (value_at-deleted es h)
    ]
  ]
    where
      clash : true ≡ false → ⊥
      clash c = cc

  pub value_at-left :
      (es : List HashEntry)
      → ((e : HashEntry) → p e ≡ true → entry_at k f e ≡ false)
      → value_at k f (rows_where (λ e. not (p e)) es) ≡ value_at k f es
  value_at-left [] h = refl
  value_at-left (e ∷ es) h = elim (Bool-cases (p e)) [
    | inl gone ↦ rw (gone, h e gone) (value_at-left es h)
    | inr kept ↦ elim (Bool-cases (entry_at k f e)) [
      | inl hit ↦ rw (kept, hit) refl
      | inr other ↦ rw (kept, other) (value_at-left es h)
    ]
  ]

module _ (k k' : Key) (m m' : ℕ) where
  pub member-same :
      (same_key k k' && m == m') ≡ true
      → (e : Member) → (same_key e.key k' && e.member == m') ≡ (same_key e.key k && e.member == m)
  member-same h e =
      let (a, b) = and_true (same_key k k') (m == m') h in
      let n : m ≡ m' = ground arith in rw (same_key-left k k' e.key a, n) refl

  pub member-other :
      (same_key k k' && m == m') ≡ false
      → (e : Member) → (same_key e.key k && e.member == m) ≡ true
      → (same_key e.key k' && e.member == m') ≡ false
  member-other h e hit =
      let (a, b) = and_true (same_key e.key k) (e.member == m) hit in
      elim (and_false (same_key k k') (m == m') h) [
        | inl keys ↦ rw (same_key-other k k' e.key keys a) refl
        | inr numbers ↦
            let apart : (e.member == m') ≡ false = ground arith in
            rw apart (and_right (same_key e.key k'))
      ]

module _ (k : Key) (m : ℕ) (p : Member → Bool) where
  pub has_member-deleted :
      (es : List Member)
      → ((e : Member) → (same_key e.key k && e.member == m) ≡ true → p e ≡ true)
      → has_member k m (rows_where (λ e. not (p e)) es) ≡ false
  has_member-deleted [] h = refl
  has_member-deleted (e ∷ es) h = elim (Bool-cases (p e)) [
    | inl gone ↦ rw gone (has_member-deleted es h)
    | inr kept ↦ elim (Bool-cases (same_key e.key k && e.member == m)) [
      | inl hit ↦ let c = h e hit in absurd (clash (sym c ∙ kept))
      | inr other ↦ rw (kept, other) (has_member-deleted es h)
    ]
  ]
    where
      clash : true ≡ false → ⊥
      clash c = cc

  pub has_member-left :
      (es : List Member)
      → ((e : Member) → p e ≡ true → (same_key e.key k && e.member == m) ≡ false)
      → has_member k m (rows_where (λ e. not (p e)) es) ≡ has_member k m es
  has_member-left [] h = refl
  has_member-left (e ∷ es) h = elim (Bool-cases (p e)) [
    | inl gone ↦ rw (gone, h e gone) (has_member-left es h)
    | inr kept ↦ elim (Bool-cases (same_key e.key k && e.member == m)) [
      | inl hit ↦ rw (kept, hit) refl
      | inr other ↦ rw (kept, other) (has_member-left es h)
    ]
  ]

pub hlen-entries :
    (k : Key) (f : Field) (v : ℕ) (es : List HashEntry)
    → value_at k f es ≡ some v
    → ltb 0 (count_entries k es) ≡ true
hlen-entries k f v [] e = cc
hlen-entries k f v (x ∷ es) e = elim (Bool-cases (same_key x.key k)) [
  | inl hit ↦ rw hit (ground arith)
  | inr other ↦ rw other (hlen-entries k f v es (rw other at e))
]

pub entries-hlen :
    (k : Key) (es : List HashEntry)
    → ltb 0 (count_entries k es) ≡ true
    → (f : Field) × (v : ℕ) × (value_at k f es ≡ some v)
entries-hlen k [] e = cc
entries-hlen k (x ∷ es) e = elim (Bool-cases (same_key x.key k)) [
  | inl hit ↦
      let self : same_field x.field x.field ≡ true = ground arith in
      (x.field, x.value, rw (hit, self) refl)
  | inr other ↦ let (f, v, there) = entries-hlen k es (rw other at e) in (f, v, rw other there)
]

pub scard-members :
    (k : Key) (m : ℕ) (es : List Member)
    → has_member k m es ≡ true
    → ltb 0 (count_members k es) ≡ true
scard-members k m [] e = cc
scard-members k m (x ∷ es) e = elim (Bool-cases (same_key x.key k)) [
  | inl hit ↦ rw hit (ground arith)
  | inr other ↦ rw other (scard-members k m es (rw other at e))
]

pub members-scard :
    (k : Key) (es : List Member)
    → ltb 0 (count_members k es) ≡ true
    → (m : ℕ) × (has_member k m es ≡ true)
members-scard k [] e = cc
members-scard k (x ∷ es) e = elim (Bool-cases (same_key x.key k)) [
  | inl hit ↦
      let self : (x.member == x.member) ≡ true = ground arith in (x.member, rw (hit, self) refl)
  | inr other ↦ let (m, there) = members-scard k es (rw other at e) in (m, rw other there)
]
