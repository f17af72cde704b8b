-- ===== src/Presence/Toy/Laws.antt =====
-- That the store keeps the laws of the commands.
use clicked.Prelude.{
  ℕ, ◌≡◌, refl, sym, ap, ◌∙◌, none, true, false, not, ◌&&◌, ◌||◌, List, [], ◌∷◌, ◌==◌,
  if◌then◌else◌, rows_where, Bool-cases, inl, inr,
}
use clicked.Presence.{Key, Field, same_key, same_field, IsRedis}
use clicked.Presence.Toy.{HashEntry, Member, Store, entry_at, value_at, has_member, toy}
use clicked.Presence.Toy.Lookups.{
  same_key-left, same_key-other, and_true, entry_at-same, entry_at-other, value_at-deleted,
  value_at-left, member-same, member-other, has_member-deleted, has_member-left, hlen-entries,
  entries-hlen, scard-members, members-scard,
}

-- The law of a deletion, from what it deletes.
value_at-hdel :
    (k k' : Key) (f f' : Field) (es : List HashEntry)
    → value_at k' f' (rows_where (λ e. not (entry_at k f e)) es)
      ≡ (if same_key k k' && same_field f f' then none else value_at k' f' es)
value_at-hdel k k' f f' es = elim (Bool-cases (same_key k k' && same_field f f')) [
  | inl same ↦ rw same (
      value_at-deleted k' f' (entry_at k f) es
        (λ e hit. sym (entry_at-same k k' f f' same e) ∙ hit))
  | inr other ↦ rw other (value_at-left k' f' (entry_at k f) es (entry_at-other k k' f f' other))
]

value_at-del :
    (k k' : Key) (f : Field) (es : List HashEntry)
    → value_at k' f (rows_where (λ e. not (same_key e.key k)) es)
      ≡ (if same_key k k' then none else value_at k' f es)
value_at-del k k' f es = elim (Bool-cases (same_key k k')) [
  | inl same ↦ rw same (
      value_at-deleted k' f (λ e. same_key e.key k) es
        (λ e hit.
          same_key-left k k' e.key same
          ∙ (and_true (same_key e.key k') (same_field e.field f) hit).0))
  | inr other ↦ rw other (
      value_at-left k' f (λ e. same_key e.key k) es
        (λ e hit. ap (λ b. b && same_field e.field f) (same_key-other k k' e.key other hit)))
]

has_member-srem :
    (k k' : Key) (m m' : ℕ) (es : List Member)
    → has_member k' m' (rows_where (λ e. not (same_key e.key k && e.member == m)) es)
      ≡ (not (same_key k k' && m == m') && has_member k' m' es)
has_member-srem k k' m m' es = elim (Bool-cases (same_key k k' && m == m')) [
  | inl same ↦ rw same (
      has_member-deleted k' m' (λ e. same_key e.key k && e.member == m) es
        (λ e hit. sym (member-same k k' m m' same e) ∙ hit))
  | inr other ↦ rw other (
      has_member-left k' m' (λ e. same_key e.key k && e.member == m) es
        (member-other k k' m m' other))
]

has_member-del :
    (k k' : Key) (m : ℕ) (es : List Member)
    → has_member k' m (rows_where (λ e. not (same_key e.key k)) es)
      ≡ (not (same_key k k') && has_member k' m es)
has_member-del k k' m es = elim (Bool-cases (same_key k k')) [
  | inl same ↦ rw same (
      has_member-deleted k' m (λ e. same_key e.key k) es
        (λ e hit.
          same_key-left k k' e.key same ∙ (and_true (same_key e.key k') (e.member == m) hit).0))
  | inr other ↦ rw other (
      has_member-left k' m (λ e. same_key e.key k) es
        (λ e hit. ap (λ b. b && e.member == m) (same_key-other k k' e.key other hit)))
]

has_member-same :
    (k k' : Key) (m m' : ℕ)
    → (same_key k k' && m == m') ≡ true
    → (es : List Member) → has_member k m es ≡ has_member k' m' es
has_member-same k k' m m' same [] = refl
has_member-same k k' m m' same (e ∷ es) =
    rw (member-same k k' m m' same e, has_member-same k k' m m' same es) refl

-- Adding a member that is there already changes nothing.
has_member-sadd :
    (k k' : Key) (m m' : ℕ) (r : Store)
    → has_member k' m'
        (if has_member k m r.members
          then r
          else record r { members = record { key = k; member = m } ∷ r.members }).members
      ≡ (same_key k k' && m == m' || has_member k' m' r.members)
has_member-sadd k k' m m' r = elim (Bool-cases (has_member k m r.members)) [
  | inr new ↦ rw new refl
  | inl known ↦ elim (Bool-cases (same_key k k' && m == m')) [
    | inr other ↦ rw (known, other) refl
    | inl same ↦ rw (known, same) (sym (has_member-same k k' m m' same r.members) ∙ known)
  ]
]

pub toy-IsRedis : IsRedis toy
unfolding toy
toy-IsRedis = record {
  hget-hset = λ k k' f f' v r. refl;
  hget-hdel = λ k k' f f' r. value_at-hdel k k' f f' r.entries;
  hget-del = λ k k' f r. value_at-del k k' f r.entries;
  hget-sadd = λ k k' f m r.
      elim (has_member k m r.members)
        as (λ b.
          value_at k' f
            (if b
              then r
              else record r { members = record { key = k; member = m } ∷ r.members }).entries
          ≡ value_at k' f r.entries) [ true ↦ refl | false ↦ refl ];
  hget-srem = λ k k' f m r. refl;
  hget-expire = λ k k' f n r. refl;
  hlen-some = λ k f v r e. hlen-entries k f v r.entries e;
  hlen-positive = λ k r e. entries-hlen k r.entries e;
  sismember-sadd = has_member-sadd;
  sismember-srem = λ k k' m m' r. has_member-srem k k' m m' r.members;
  sismember-del = λ k k' m r. has_member-del k k' m r.members;
  sismember-hset = λ k k' f v m r. refl;
  sismember-hdel = λ k k' f m r. refl;
  sismember-expire = λ k k' n m r. refl;
  scard-member = λ k m r e. scard-members k m r.members e;
  scard-positive = λ k r e. members-scard k r.members e;
}
