-- ===== src/Nonces.antt =====
-- Challenge nonces (apps/backend/src/lib/nonce.ts). A store maps a wallet address, or a user for
-- device linking, to its nonce; a clock reading is in milliseconds. The random bytes are an
-- argument.
pub mod SingleUse
mod Tests
use clicked.Prelude.{
  ℕ, ◌+◌, ◌*◌, Option, none, some, Bool, true, false, not, List, [], ◌∷◌, ◌++◌, ltb, ◌==◌,
  if◌then◌else◌, rows_where, find_first,
}

pub record Entry : Type 0 where
  pub key : ℕ
  pub nonce : ℕ
  pub expires_at : ℕ

-- The login store and the device-link store.
pub record Nonces : Type 0 where
  pub store : List Entry
  pub device_link_store : List Entry

abbrev pub ttl_ms : ℕ
ttl_ms = 5 * 60 * 1000

abbrev pub device_link_ttl_ms : ℕ
device_link_ttl_ms = 2 * 60 * 1000

abbrev pub without_key : ℕ → List Entry → List Entry
without_key key = rows_where (λ e. not (e.key == key))

-- `target.set(key, …)`: it replaces the key's entry.
unfoldable pub issue : List Entry → ℕ → ℕ → ℕ → ℕ → List Entry
issue target key ttl random now =
    without_key key target ++ record { key = key; nonce = random; expires_at = now + ttl } ∷ []

abbrev pub is_accepted : Entry → ℕ → ℕ → Bool
is_accepted e nonce now = if ltb e.expires_at now then false else e.nonce == nonce

abbrev pub consume_entry : List Entry → ℕ → ℕ → ℕ → Option Entry → Bool × List Entry
consume_entry target key nonce now none = (false, target)
consume_entry target key nonce now (some e) = (is_accepted e nonce now, without_key key target)

unfoldable pub consume_from : List Entry → ℕ → ℕ → ℕ → Bool × List Entry
consume_from target key nonce now =
    consume_entry target key nonce now (find_first (λ e. e.key == key) target)

unfoldable pub create_nonce : Nonces → ℕ → ℕ → ℕ → ℕ × Nonces
create_nonce n wallet random now =
    (random, record n { store = issue n.store wallet ttl_ms random now })

unfoldable pub consume_nonce : Nonces → ℕ → ℕ → ℕ → Bool × Nonces
consume_nonce n wallet nonce now =
    let result = consume_from n.store wallet nonce now in (result.0, record n { store = result.1 })

unfoldable pub create_device_link_nonce : Nonces → ℕ → ℕ → ℕ → ℕ × Nonces
create_device_link_nonce n user random now = (
  random,
  record n { device_link_store = issue n.device_link_store user device_link_ttl_ms random now },
)

unfoldable pub consume_device_link_nonce : Nonces → ℕ → ℕ → ℕ → Bool × Nonces
consume_device_link_nonce n user nonce now =
    let result = consume_from n.device_link_store user nonce now in
    (result.0, record n { device_link_store = result.1 })
