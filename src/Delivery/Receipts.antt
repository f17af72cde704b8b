-- ===== src/Delivery/Receipts.antt =====
-- What full delivery means, and that a repeated receipt changes nothing.
use clicked.Prelude.{
  ℕ, ◌≡◌, ◌↔◌, refl, sym, ap, ◌∙◌, some, Bool, true, ◌&&◌, List, [], ◌∷◌, map, ◌==◌, ==→≡, is_some,
  any, every, has, All, All-map, rows_where, find_first, find_first-holds, update_where, arith,
  Bool-cases, Option-cases, inl, inr,
}
use clicked.Schema.{Device}
use clicked.Delivery.{
  EnvelopeRow, Deliveries, active_of, addressed_to, delivered_ids,
  is_message_fully_delivered_to_user, envelope_for, deliver, is_delivered,
  handle_device_delivery_receipt,
}

-- An envelope of the message to the user's device has a delivery time.
abbrev pub has_received : Deliveries → ℕ → ℕ → Device → Bool
has_received s message user d =
    any
      (λ e.
        addressed_to message user e && (e.recipient_device_id == d.id && is_some e.delivered_at))
      s.envelopes

has-delivered_ids :
    (message user id : ℕ) (es : List EnvelopeRow)
    → has id (delivered_ids (rows_where (addressed_to message user) es))
      ≡ any
          (λ e.
            addressed_to message user e && (e.recipient_device_id == id && is_some e.delivered_at))
          es
has-delivered_ids message user id [] = refl
has-delivered_ids message user id (e ∷ es) = ground (arith, has-delivered_ids message user id es)

every-devices :
    (p : ℕ → Bool) (user : ℕ) (ds : List Device)
    → (every p (map (λ d. d.id) (rows_where (active_of user) ds)) ≡ true)
      ↔ All (λ d. active_of user d ≡ true → p d.id ≡ true) ds
every-devices p user [] = (λ h. tt, λ h. refl)
every-devices p user (d ∷ ds) =
    let rest = every-devices p user ds in
    elim (Bool-cases (active_of user d)) [
      | inl active ↦ rw active (
        λ h. (λ k. ground arith, rest.0 (ground arith)),
        λ g. ground (arith, g.0 refl, rest.1 g.1),
      )
      | inr other ↦ rw other (λ h. (λ k. cc, rest.0 h), λ g. rest.1 g.1)
    ]

-- A message is fully delivered to a user exactly when each of the user's devices that is not revoked
-- has an envelope of it, addressed to that user, with a delivery time.
pub is_message_fully_delivered_to_user_iff :
    (s : Deliveries) (message user : ℕ)
    → (is_message_fully_delivered_to_user s message user ≡ true)
      ↔ All (λ d. active_of user d ≡ true → has_received s message user d ≡ true) s.devices
unfolding is_message_fully_delivered_to_user
is_message_fully_delivered_to_user_iff s message user =
    let listed =
      λ (id : ℕ). has id (delivered_ids (rows_where (addressed_to message user) s.envelopes)) in
    let devices = every-devices listed user s.devices in
    (
      λ h.
          All-map _ _ (λ d f k. sym (has-delivered_ids message user d.id s.envelopes) ∙ f k)
            s.devices (devices.0 h),
      λ g. devices.1 (
          All-map _ _ (λ d f k. has-delivered_ids message user d.id s.envelopes ∙ f k) s.devices g),
    )

delivered_is_delivered :
    (message device now : ℕ) (es : List EnvelopeRow) (e : EnvelopeRow)
    → find_first (envelope_for message device) es ≡ some e
    → is_delivered (
        find_first
          (envelope_for message device)
          (update_where (envelope_for message device) (deliver now) es))
      ≡ true
delivered_is_delivered message device now [] e h = cc
delivered_is_delivered message device now (x ∷ es) e h =
    ground (arith, delivered_is_delivered message device now es e)

-- A receipt that follows another one for the same message and device, where the device has an
-- envelope of the message, changes nothing and notifies nobody, whichever user and conversation it
-- names.
pub handle_device_delivery_receipt-again :
    (s : Deliveries) (message device user conversation now other_user other_conversation later : ℕ)
    (e : EnvelopeRow)
    → find_first (envelope_for message device) s.envelopes ≡ some e
    → handle_device_delivery_receipt
        (handle_device_delivery_receipt s message device user conversation now).1
        message
        device
        other_user
        other_conversation
        later
      ≡ ([], (handle_device_delivery_receipt s message device user conversation now).1)
unfolding handle_device_delivery_receipt
handle_device_delivery_receipt-again s message device user conversation now other_user
      other_conversation later e h =
    elim (Option-cases (find_first (λ m. m.id == message) s.messages)) [
      | inl missing ↦ rw (missing, missing) refl
      | inr (m, found) ↦
          let same : m.id ≡ message =
            ==→≡ _ _ (find_first-holds (λ m. m.id == message) s.messages {r = m} found) in
          let there : find_first (envelope_for m.id device) s.envelopes ≡ some e =
            ap (λ x. find_first (envelope_for x device) s.envelopes) same ∙ h in
          elim (Bool-cases (is_delivered (find_first (envelope_for m.id device) s.envelopes))) [
            | inl before ↦ rw (found, before, found, before) refl
            | inr first ↦
                rw (found, first, found, delivered_is_delivered m.id device now s.envelopes e there)
                  refl
          ]
    ]
