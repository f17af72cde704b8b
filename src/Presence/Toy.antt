-- ===== src/Presence/Toy.antt =====
-- A store of hash entries and of set members, for tests.
pub mod Lookups
pub mod Laws
use clicked.Prelude.{
  ℕ, ◌+◌, ◌≡◌, refl, sym, ap, ◌∙◌, Option, none, some, Bool, true, false, not, ◌&&◌, ◌||◌, List, [],
  ◌∷◌, ltb, ◌==◌, if◌then◌else◌, rows_where, arith, Bool-cases, ◌⊎◌, inl, inr,
}
use clicked.Presence.{Key, Field, code_of, field_code, same_key, same_field, Redis, IsRedis}

pub record HashEntry : Type 0 where
  pub key : Key
  pub field : Field
  pub value : ℕ

pub record Member : Type 0 where
  pub key : Key
  pub member : ℕ

pub record Store : Type 0 where
  pub entries : List HashEntry
  pub members : List Member

abbrev pub entry_at : Key → Field → HashEntry → Bool
entry_at k f e = same_key e.key k && same_field e.field f

abbrev pub value_at : Key → Field → List HashEntry → Option ℕ
value_at k f [] = none
value_at k f (e ∷ es) = if entry_at k f e then some e.value else value_at k f es

abbrev pub count_entries : Key → List HashEntry → ℕ
count_entries k [] = 0
count_entries k (e ∷ es) = if same_key e.key k then 1 + count_entries k es else count_entries k es

abbrev pub has_member : Key → ℕ → List Member → Bool
has_member k m [] = false
has_member k m (e ∷ es) = same_key e.key k && e.member == m || has_member k m es

abbrev pub count_members : Key → List Member → ℕ
count_members k [] = 0
count_members k (e ∷ es) = if same_key e.key k then 1 + count_members k es else count_members k es

unfoldable pub toy : Redis Store
toy = record {
  hset = λ k f v r. record r { entries = record { key = k; field = f; value = v } ∷ r.entries };
  hdel = λ k f r. record r { entries = rows_where (λ e. not (entry_at k f e)) r.entries };
  hget = λ k f r. value_at k f r.entries;
  hlen = λ k r. count_entries k r.entries;
  sadd = λ k m r.
      if has_member k m r.members
      then r
      else record r { members = record { key = k; member = m } ∷ r.members };
  srem = λ k m r. record r {
    members = rows_where (λ e. not (same_key e.key k && e.member == m)) r.members;
  };
  sismember = λ k m r. has_member k m r.members;
  scard = λ k r. count_members k r.members;
  del = λ k r. record {
    entries = rows_where (λ e. not (same_key e.key k)) r.entries;
    members = rows_where (λ e. not (same_key e.key k)) r.members;
  };
  expire = λ k seconds r. r;
}
