-- ===== src/Nonces/Tests.antt =====
-- Runs of the challenges.
use clicked.Prelude.{ℕ, ◌+◌, ◌≡◌, ◌≤◌, ◌↔◌, true, false, []}
use clicked.Nonces.{
  Nonces, ttl_ms, device_link_ttl_ms, create_nonce, consume_nonce, create_device_link_nonce,
  consume_device_link_nonce,
}
use clicked.Nonces.SingleUse.{consume_nonce-once}

abbrev empty : Nonces
empty = record { store = []; device_link_store = [] }

abbrev answer : ℕ
answer = 77

abbrev issued : Nonces
issued = (create_device_link_nonce (create_nonce empty 4 77 1000).1 4 88 2000).1

consume_nonce-once_example :
    ((consume_nonce issued 4 77 3000).0 ≡ true ↔ ((answer ≡ answer) × (3000 ≤ 1000 + ttl_ms)))
    × ((consume_nonce (consume_nonce issued 4 77 3000).1 4 77 4000).0 ≡ false)
    × ((consume_device_link_nonce (consume_nonce issued 4 77 3000).1 4 77 4000).0 ≡ true
        ↔ ((answer ≡ 88) × (4000 ≤ 2000 + device_link_ttl_ms)))
consume_nonce-once_example = consume_nonce-once empty 4 77 1000 88 2000 77 3000 77 4000
