-- ===== src/E2eeProtocol/Enforcement.antt =====
-- Which envelopes pass the check, and when the advised protocol does.
use clicked.Prelude.{
  ℕ, ◌≡◌, ◌≢◌, ◌↔◌, refl, ◌∙◌, Option, none, some, true, false, List, [], ◌∷◌, ◌++◌, arith, inl,
  inr, ◌⊎◌, if◌then◌else◌, any, All,
}
use clicked.Capabilities.{
  KnownProtocol, sealed_box, signal, mls, RawCapabilities, baseline_protocol,
  normalize_capabilities, has_protocol, same_protocol,
}
use clicked.Capabilities.Negotiation.{speak, select_protocol-best}
use clicked.E2eeProtocol.{
  DeviceCapabilityRow, EnvelopeProtocolInput, ProtocolViolation, ok, rejected, capabilities_of,
  sender_capabilities, expected_protocol, check_envelope, violations, is_unsupported,
  check_envelope_protocols, protocol_for_recipient,
}

-- An envelope is acceptable if its device does not resolve, or it names the protocol negotiated
-- for the pair and the recipient advertises it.
abbrev pub IsAcceptable : RawCapabilities → Option RawCapabilities → KnownProtocol → Type 0
IsAcceptable sender none p = Unit
IsAcceptable sender (some recipient) p =
    (p ≡ expected_protocol sender recipient)
    × (has_protocol p (normalize_capabilities recipient).protocols ≡ true)

same_protocol→≡ : (p q : KnownProtocol) → same_protocol p q ≡ true → p ≡ q
same_protocol→≡ sealed_box q h = ground arith
same_protocol→≡ signal q h = ground arith
same_protocol→≡ mls q h = ground arith

same_protocol_refl : (p : KnownProtocol) → same_protocol p p ≡ true
same_protocol_refl sealed_box = refl
same_protocol_refl _ = refl

check_envelope-nil_iff :
    (sender : RawCapabilities) (o : Option RawCapabilities) (e : EnvelopeProtocolInput)
    → (check_envelope sender o e ≡ []) ↔ IsAcceptable sender o e.protocol
unfolding check_envelope
check_envelope-nil_iff sender none e = (λ h. tt, λ h. refl)
check_envelope-nil_iff sender (some r) e = (
  λ h. ground (arith, same_protocol→≡ e.protocol (expected_protocol sender r)),
  λ h. ground (arith, same_protocol_refl e.protocol),
)

append-nil_parts {ℓ} : {A : Type ℓ} (xs ys : List A) → xs ++ ys ≡ [] → (xs ≡ []) × (ys ≡ [])
append-nil_parts [] ys h = (refl, h)
append-nil_parts (x ∷ xs) ys h = cc

module _ (ds : List DeviceCapabilityRow) (sender : RawCapabilities) where
  abbrev pub AllAcceptable : List EnvelopeProtocolInput → Type 0
  AllAcceptable es =
      All (λ e. IsAcceptable sender (capabilities_of ds e.recipient_device_id) e.protocol) es

  violations-nil :
      (es : List EnvelopeProtocolInput) → violations ds sender es ≡ [] → AllAcceptable es
  unfolding violations
  violations-nil [] h = tt
  violations-nil (e ∷ es) h =
      let (here, later) =
        append-nil_parts (check_envelope sender (capabilities_of ds e.recipient_device_id) e)
          (violations ds sender es) h in
      ((check_envelope-nil_iff sender _ e).0 here, violations-nil es later)

  nil-violations :
      (es : List EnvelopeProtocolInput) → AllAcceptable es → violations ds sender es ≡ []
  unfolding violations
  nil-violations [] h = refl
  nil-violations (e ∷ es) (h, hs) =
      rw ((check_envelope-nil_iff sender _ e).1 h) (nil-violations es hs)

verdict_of :
    (ds : List DeviceCapabilityRow) (sender : Option ℕ) (es : List EnvelopeProtocolInput)
    → ((violations ds (sender_capabilities ds sender) es ≡ [])
        × (check_envelope_protocols ds sender es ≡ ok))
      ⊎ ((violations ds (sender_capabilities ds sender) es ≢ [])
          × (check_envelope_protocols ds sender es
              ≡ rejected
                  (if any is_unsupported (violations ds (sender_capabilities ds sender) es)
                    then 400
                    else 409)
                  (violations ds (sender_capabilities ds sender) es)))
unfolding check_envelope_protocols violations
verdict_of ds sender [] = inl (refl, refl)
verdict_of ds sender (e ∷ es) = ground arith

-- The check passes exactly when each envelope whose device resolves names the protocol negotiated
-- for the pair and the recipient advertises that protocol.
pub check_envelope_protocols-ok_iff :
    (ds : List DeviceCapabilityRow) (sender : Option ℕ) (es : List EnvelopeProtocolInput)
    → (check_envelope_protocols ds sender es ≡ ok)
      ↔ AllAcceptable ds (sender_capabilities ds sender) es
check_envelope_protocols-ok_iff ds sender es = elim (verdict_of ds sender es) [
  | inl (nil, pass) ↦ (λ _. violations-nil ds _ es nil, λ _. pass)
  | inr (some_left, fail) ↦
      (λ pass. absurd (fails pass fail), λ good. absurd (some_left (nil-violations ds _ es good)))
]
  where
    fails :
        {code : ℕ} {vs : List ProtocolViolation}
        → check_envelope_protocols ds sender es ≡ ok
        → check_envelope_protocols ds sender es ≡ rejected code vs
        → ⊥
    fails p q = cc

advertised_by_recipient :
    (a b : RawCapabilities) (p : KnownProtocol)
    → speak a b p ≡ true
    → has_protocol p (normalize_capabilities b).protocols ≡ true
advertised_by_recipient a b p h = ground arith

expected_advertised :
    (a b : RawCapabilities) (shared : KnownProtocol)
    → speak a b shared ≡ true
    → has_protocol (expected_protocol a b) (normalize_capabilities b).protocols ≡ true
expected_advertised a b shared h = elim (select_protocol-best a b shared).1 [
  | inl both ↦ advertised_by_recipient a b (expected_protocol a b) both
  | inr (_, unshared) ↦ ground arith
]

expected_baseline :
    (a b : RawCapabilities)
    → ((q : KnownProtocol) → speak a b q ≡ false)
    → expected_protocol a b ≡ baseline_protocol
expected_baseline a b none_shared = elim (select_protocol-best a b sealed_box).1 [
  | inl both ↦ ground (arith, none_shared (expected_protocol a b))
  | inr (base, _) ↦ base
]

advice_for_known :
    (ds : List DeviceCapabilityRow) (sender : Option ℕ) (device : ℕ) (recipient : RawCapabilities)
    → capabilities_of ds device ≡ some recipient
    → protocol_for_recipient ds sender device
      ≡ expected_protocol (sender_capabilities ds sender) recipient
unfolding protocol_for_recipient
advice_for_known ds sender device recipient known = rw (known, protocol_for_recipient)

-- Where sender and recipient share a protocol, the one that `protocolsForRecipients` advises
-- passes the check.
pub advice-acceptable :
    (ds : List DeviceCapabilityRow) (sender : Option ℕ) (device : ℕ) (recipient : RawCapabilities)
    (shared : KnownProtocol)
    → capabilities_of ds device ≡ some recipient
    → speak (sender_capabilities ds sender) recipient shared ≡ true
    → check_envelope_protocols ds sender (
        record { recipient_device_id = device; protocol = protocol_for_recipient ds sender device }
        ∷ [])
      ≡ ok
advice-acceptable ds sender device recipient shared known both =
    let advised = advice_for_known ds sender device recipient known in
    (check_envelope_protocols-ok_iff ds sender _).1 (
      rw known (
        advised,
        rw advised (expected_advertised (sender_capabilities ds sender) recipient shared both),
      ),
      tt,
    )

-- Where they share none and the recipient's document leaves the baseline out, no envelope to the
-- device passes, whichever protocol it names: the advice, the baseline, is refused too.
pub unreachable_device :
    (ds : List DeviceCapabilityRow) (sender : Option ℕ) (device : ℕ) (recipient : RawCapabilities)
    (p : KnownProtocol)
    → capabilities_of ds device ≡ some recipient
    → ((q : KnownProtocol) → speak (sender_capabilities ds sender) recipient q ≡ false)
    → has_protocol baseline_protocol (normalize_capabilities recipient).protocols ≡ false
    → (protocol_for_recipient ds sender device ≡ baseline_protocol)
      × (check_envelope_protocols ds sender
            (record { recipient_device_id = device; protocol = p } ∷ [])
          ≢ ok)
unreachable_device ds sender device recipient p known none_shared no_baseline = (
  advice_for_known ds sender device recipient known ∙ base,
  λ pass. refuse (rw known at ((check_envelope_protocols-ok_iff ds sender _).0 pass).0),
)
  where
    base : expected_protocol (sender_capabilities ds sender) recipient ≡ baseline_protocol
    base = expected_baseline (sender_capabilities ds sender) recipient none_shared

    refuse : IsAcceptable (sender_capabilities ds sender) (some recipient) p → ⊥
    refuse (e, h) = ground (arith, base)
