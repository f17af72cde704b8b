-- ===== src/E2eeProtocol.antt =====
-- Enforcement of the negotiated protocol on sent envelopes
-- (apps/backend/src/services/e2eeProtocol.ts).
pub mod Enforcement
mod Tests
use mathlib.Core.Option
use clicked.Prelude.{
  ℕ, Option, none, some, Bool, true, false, not, List, [], ◌∷◌, ◌++◌, map, ◌==◌, if◌then◌else◌, any,
  has, find_first, rows_where,
}
use clicked.Capabilities.{
  KnownProtocol, RawCapabilities, missing, baseline_protocol, normalize_capabilities,
  select_protocol, has_protocol, same_protocol,
}

-- The columns of `devices` that the checks read.
pub record DeviceCapabilityRow : Type 0 where
  pub id : ℕ
  pub capabilities : RawCapabilities

pub record EnvelopeProtocolInput : Type 0 where
  pub recipient_device_id : ℕ
  pub protocol : KnownProtocol

pub data ViolationReason : Type 0 where
  unsupported_by_recipient downgrade : ViolationReason

pub record ProtocolViolation : Type 0 where
  pub recipient_device_id : ℕ
  pub declared : KnownProtocol
  pub expected : KnownProtocol
  pub reason : ViolationReason

-- Status 400 or 409, with the violations.
pub data EnvelopeProtocolCheck : Type 0 where
  ok : EnvelopeProtocolCheck
  rejected : ℕ → List ProtocolViolation → EnvelopeProtocolCheck

unfoldable pub capabilities_of : List DeviceCapabilityRow → ℕ → Option RawCapabilities
capabilities_of ds id = Option.map (λ d. d.capabilities) (find_first (λ d. d.id == id) ds)

abbrev or_missing : Option RawCapabilities → RawCapabilities
or_missing none = missing
or_missing (some c) = c

unfoldable pub sender_capabilities : List DeviceCapabilityRow → Option ℕ → RawCapabilities
sender_capabilities ds none = missing
sender_capabilities ds (some id) = or_missing (capabilities_of ds id)

abbrev pub expected_protocol : RawCapabilities → RawCapabilities → KnownProtocol
expected_protocol sender recipient = (select_protocol sender recipient).protocol

abbrev violation_with : EnvelopeProtocolInput → KnownProtocol → ViolationReason → ProtocolViolation
violation_with e expected reason = record {
  recipient_device_id = e.recipient_device_id;
  declared = e.protocol;
  expected = expected;
  reason = reason;
}

-- One round of the loop: the violations of an envelope, none where its device does not resolve.
unfoldable pub check_envelope :
    RawCapabilities → Option RawCapabilities → EnvelopeProtocolInput → List ProtocolViolation
check_envelope sender none e = []
check_envelope sender (some recipient) e =
    if not (has_protocol e.protocol (normalize_capabilities recipient).protocols)
    then violation_with e (expected_protocol sender recipient) unsupported_by_recipient ∷ []
    else if not (same_protocol e.protocol (expected_protocol sender recipient))
    then violation_with e (expected_protocol sender recipient) downgrade ∷ []
    else []

unfoldable pub violations :
    List DeviceCapabilityRow → RawCapabilities → List EnvelopeProtocolInput → List ProtocolViolation
violations ds sender [] = []
violations ds sender (e ∷ es) =
    check_envelope sender (capabilities_of ds e.recipient_device_id) e ++ violations ds sender es

abbrev pub is_unsupported : ProtocolViolation → Bool
is_unsupported v = elim v.reason [ unsupported_by_recipient ↦ true | downgrade ↦ false ]

abbrev verdict : List ProtocolViolation → EnvelopeProtocolCheck
verdict [] = ok
verdict (v ∷ vs) = rejected (if any is_unsupported (v ∷ vs) then 400 else 409) (v ∷ vs)

-- With no envelopes the source returns at once; the loop then has no violations either.
unfoldable pub check_envelope_protocols :
    List DeviceCapabilityRow → Option ℕ → List EnvelopeProtocolInput → EnvelopeProtocolCheck
check_envelope_protocols ds sender [] = ok
check_envelope_protocols ds sender (e ∷ es) =
    verdict (violations ds (sender_capabilities ds sender) (e ∷ es))

-- What the returned map holds for a device: the negotiated protocol for a row that was found, and
-- the baseline for an id with no row.
unfoldable pub protocol_for_recipient : List DeviceCapabilityRow → Option ℕ → ℕ → KnownProtocol
protocol_for_recipient ds sender id = elim (capabilities_of ds id) [
  | none ↦ baseline_protocol
  | some recipient ↦ expected_protocol (sender_capabilities ds sender) recipient
]

unfoldable pub protocols_for_recipients :
    List DeviceCapabilityRow → Option ℕ → List ℕ → List (ℕ × KnownProtocol)
protocols_for_recipients ds sender ids = map (λ id. (id, protocol_for_recipient ds sender id)) ids
