-- ===== src/Inbound/Merging.antt =====
-- What remains of a message of which several versions arrive.
use clicked.Prelude.{
  ℕ, ◌≡◌, refl, ap, ◌∙◌, Option, none, some, true, false, List, [], ◌∷◌, if◌then◌else◌, find_first,
  is_some, All, Bool-cases, inl, inr,
}
use clicked.KeyMaterial.{Text}
use clicked.Inbound.{
  Reader, Client, Outcome, done, threw, and_then, EnvelopeInput, InboundMessage, is_decrypted,
  or_kept, spread, merge_inbound_message, cache_hit, get_cached_plaintext, conclude, read_from,
  unless_cached, decrypt_and_verify_envelope, fetch_sender_device_public_key,
  process_inbound_envelope,
}

-- The versions of a message, merged as they arrive.
unfoldable pub merge_all : Option InboundMessage → List InboundMessage → Option InboundMessage
merge_all kept [] = kept
merge_all kept (m ∷ ms) = merge_all (some (merge_inbound_message kept m)) ms

abbrev pub first_decrypted : List InboundMessage → Option InboundMessage
first_decrypted = find_first (λ m. is_decrypted m.status)

-- Whether a merged message can be read, and its text.
abbrev pub reading : Option InboundMessage → Option (Option Text)
reading none = none
reading (some m) = if is_decrypted m.status then some m.plaintext else none

decrypted_stays :
    (m : InboundMessage) (ms : List InboundMessage)
    → is_decrypted m.status ≡ true
    → merge_all (some m) ms ≡ some m
unfolding merge_all merge_inbound_message
decrypted_stays m [] e = refl
decrypted_stays m (n ∷ ns) e =
    ap (λ b. merge_all (some (if b then m else spread m n)) ns) e ∙ decrypted_stays m ns e

-- A message has a text exactly if it is decrypted, as those of `process_inbound_envelope` do.
unfoldable pub IsWhole : InboundMessage → Type 0
IsWhole m = is_some m.plaintext ≡ is_decrypted m.status

process_inbound_envelope-IsWhole :
    (r : Reader) (e : EnvelopeInput) (server : ℕ → Option Text) (s : Client)
    → IsWhole (process_inbound_envelope r e server s).0
unfolding process_inbound_envelope IsWhole
process_inbound_envelope-IsWhole r e server s =
    by_cache (cache_hit (get_cached_plaintext e.message_id s))
  where
    by_result : (o : Outcome Text) (t : Client) → IsWhole (conclude r e o t).0
    by_result (done plaintext) t = refl
    by_result (threw x) t = refl

    by_device : (d : Option ℕ) → IsWhole (read_from r e server s d).0
    by_device none = refl
    by_device (some device) =
        let key = fetch_sender_device_public_key r device server s in
        by_result (and_then key.0 (λ k. decrypt_and_verify_envelope r e.ciphertext device k key.1))
          key.1

    by_cache : (o : Option Text) → IsWhole (unless_cached r e server s o).0
    by_cache none = by_device e.sender_device_id
    by_cache (some plaintext) = refl

none_of_unread : (o : Option Text) → is_some o ≡ false → o ≡ none
none_of_unread none e = refl
none_of_unread (some t) e = cc

or_kept-none : (o : Option Text) → or_kept o none ≡ o
or_kept-none none = refl
or_kept-none (some t) = refl

merge_all-unread :
    (kept : InboundMessage) (ms : List InboundMessage)
    → is_decrypted kept.status ≡ false
    → kept.plaintext ≡ none
    → All IsWhole ms
    → reading (merge_all (some kept) ms) ≡ reading (first_decrypted ms)
unfolding merge_all merge_inbound_message IsWhole
merge_all-unread kept [] unread nothing whole = rw unread refl
merge_all-unread kept (m ∷ ms) unread nothing (w, ws) =
    let text : (spread kept m).plaintext ≡ m.plaintext =
      ap (or_kept m.plaintext) nothing ∙ or_kept-none m.plaintext in
    let step : merge_all (some kept) (m ∷ ms) ≡ merge_all (some (spread kept m)) ms =
      ap (λ b. merge_all (some (if b then kept else spread kept m)) ms) unread in
    elim (Bool-cases (is_decrypted m.status)) [
      | inl read ↦
          ap reading (step ∙ decrypted_stays (spread kept m) ms read)
          ∙ ap (λ b. if b then some (spread kept m).plaintext else none) read
          ∙ ap some text
          ∙ rw (read, read) refl
      | inr other ↦
          ap reading step
          ∙ merge_all-unread (spread kept m) ms other
              (text ∙ none_of_unread m.plaintext (w ∙ other)) ws
          ∙ rw other refl
    ]

-- Of the versions of a message that arrive, in any number and order, the first that is decrypted is
-- what the user reads; if none is, the message stays unread.
pub merge_all-reading :
    (ms : List InboundMessage)
    → All IsWhole ms
    → reading (merge_all none ms) ≡ reading (first_decrypted ms)
unfolding merge_all merge_inbound_message IsWhole
merge_all-reading [] whole = refl
merge_all-reading (m ∷ ms) (w, ws) = elim (Bool-cases (is_decrypted m.status)) [
  | inl read ↦ ap reading (decrypted_stays m ms read) ∙ rw (read, read) refl
  | inr other ↦
      merge_all-unread m ms other (none_of_unread m.plaintext (w ∙ other)) ws ∙ rw other refl
]
