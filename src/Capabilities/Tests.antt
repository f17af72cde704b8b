-- ===== src/Capabilities/Tests.antt =====
-- Runs of the negotiation.
use clicked.Prelude.{◌≡◌, ◌≤◌, ◌⊎◌, none, some, true, false, [], ◌∷◌}
use clicked.Capabilities.{
  sealed_box, signal, mls, RawCapabilities, document, known, baseline_protocol, select_protocol,
}
use clicked.Capabilities.Negotiation.{speak, rank, select_protocol-best}

abbrev new_device : RawCapabilities
new_device = document (some (known mls ∷ known signal ∷ [])) none none

abbrev old_device : RawCapabilities
old_device = document (some (known signal ∷ known sealed_box ∷ [])) none none

select_protocol-best_example :
    (speak new_device old_device signal ≡ true
      → rank signal ≤ rank (select_protocol new_device old_device).protocol)
    × ((speak new_device old_device (select_protocol new_device old_device).protocol ≡ true)
        ⊎ (((select_protocol new_device old_device).protocol ≡ baseline_protocol)
            × (speak new_device old_device signal ≡ false)))
select_protocol-best_example = select_protocol-best new_device old_device signal
