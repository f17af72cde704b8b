-- ===== src/E2eeProtocol/Tests.antt =====
-- Runs of the check of envelopes.
use clicked.Prelude.{ℕ, ◌≡◌, ◌≢◌, ◌↔◌, refl, none, some, true, false, List, [], ◌∷◌}
use clicked.Capabilities.{
  KnownProtocol, sealed_box, signal, mls, RawCapabilities, document, known, baseline_protocol,
  normalize_capabilities,
}
use clicked.Capabilities.Negotiation.{speak}
use clicked.E2eeProtocol.{
  DeviceCapabilityRow, EnvelopeProtocolInput, ok, capabilities_of, sender_capabilities,
  check_envelope_protocols, protocol_for_recipient,
}
use clicked.E2eeProtocol.Enforcement.{
  AllAcceptable, check_envelope_protocols-ok_iff, advice-acceptable, unreachable_device,
}

abbrev signal_device : RawCapabilities
signal_device = document (some (known signal ∷ known sealed_box ∷ [])) none none

abbrev mls_device : RawCapabilities
mls_device = document (some (known mls ∷ [])) none none

abbrev rows : List DeviceCapabilityRow
rows =
    record { id = 1; capabilities = signal_device }
    ∷ record { id = 2; capabilities = signal_device }
    ∷ record { id = 3; capabilities = mls_device }
    ∷ []

abbrev envelope : ℕ → KnownProtocol → EnvelopeProtocolInput
envelope device protocol = record { recipient_device_id = device; protocol = protocol }

check_envelope_protocols-ok_iff_example :
    (check_envelope_protocols rows (some 1) (envelope 2 signal ∷ []) ≡ ok)
    ↔ AllAcceptable rows (sender_capabilities rows (some 1)) (envelope 2 signal ∷ [])
check_envelope_protocols-ok_iff_example =
    check_envelope_protocols-ok_iff rows (some 1) (envelope 2 signal ∷ [])

of_signal_device : capabilities_of rows 2 ≡ some signal_device
unfolding capabilities_of
of_signal_device = refl

of_mls_device : capabilities_of rows 3 ≡ some mls_device
unfolding capabilities_of
of_mls_device = refl

both_signal : speak (sender_capabilities rows (some 1)) signal_device signal ≡ true
unfolding sender_capabilities capabilities_of normalize_capabilities
both_signal = refl

none_shared : (q : KnownProtocol) → speak (sender_capabilities rows (some 1)) mls_device q ≡ false
unfolding sender_capabilities capabilities_of normalize_capabilities
none_shared sealed_box = refl
none_shared signal = refl
none_shared mls = refl

advice-acceptable_example :
    check_envelope_protocols rows
      (some 1)
      (envelope 2 (protocol_for_recipient rows (some 1) 2) ∷ [])
    ≡ ok
advice-acceptable_example =
    advice-acceptable rows (some 1) 2 signal_device signal of_signal_device both_signal

unreachable_device_example :
    (protocol_for_recipient rows (some 1) 3 ≡ baseline_protocol)
    × (check_envelope_protocols rows (some 1) (envelope 3 mls ∷ []) ≢ ok)
unfolding normalize_capabilities
unreachable_device_example =
    unreachable_device rows (some 1) 3 mls_device mls of_mls_device none_shared refl
