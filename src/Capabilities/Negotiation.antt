-- ===== src/Capabilities/Negotiation.antt =====
-- What `selectProtocol` chooses.
use clicked.Prelude.{ℕ, ◌≤◌, ◌≡◌, Bool, true, false, arith, ◌⊎◌}
use clicked.Capabilities.{
  KnownProtocol, sealed_box, signal, mls, RawCapabilities, normalize_capabilities, select_protocol,
  both_advertise, baseline_protocol,
}

-- Stronger protocols rank higher.
abbrev pub rank : KnownProtocol → ℕ
rank sealed_box = 0
rank signal = 1
rank mls = 2

abbrev pub speak : RawCapabilities → RawCapabilities → KnownProtocol → Bool
speak a b = both_advertise (normalize_capabilities a) (normalize_capabilities b)

-- The chosen protocol is at least as strong as every protocol that both devices advertise, and
-- they both advertise it unless it is the baseline, chosen where they share none.
pub select_protocol-best :
    (a b : RawCapabilities) (p : KnownProtocol)
    → (speak a b p ≡ true → rank p ≤ rank (select_protocol a b).protocol)
      × ((speak a b (select_protocol a b).protocol ≡ true)
          ⊎ (((select_protocol a b).protocol ≡ baseline_protocol) × (speak a b p ≡ false)))
unfolding select_protocol
select_protocol-best a b sealed_box = ground arith
select_protocol-best a b signal = ground arith
select_protocol-best a b mls = ground arith

-- Either device may do the negotiation: both get the same protocol.
pub select_protocol_comm :
    (a b : RawCapabilities) → (select_protocol a b).protocol ≡ (select_protocol b a).protocol
unfolding select_protocol
select_protocol_comm a b = ground arith
