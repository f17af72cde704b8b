-- ===== src/Nonces/SingleUse.antt =====
-- A challenge is answered at most once, within its time, and by its own nonce.
use clicked.Prelude.{
  ℕ, ◌+◌, ◌≡◌, ◌≢◌, ◌≤◌, ◌↔◌, refl, Option, none, some, true, false, List, [], ◌∷◌, ◌++◌, ◌==◌,
  find_first, arith, Option-cases, inl, inr,
}
use clicked.Nonces.{
  Entry, Nonces, ttl_ms, device_link_ttl_ms, without_key, issue, is_accepted, consume_from,
  create_nonce, consume_nonce, create_device_link_nonce, consume_device_link_nonce,
}

abbrev entry_for : ℕ → List Entry → Option Entry
entry_for key = find_first (λ e. e.key == key)

entry_for-without : (key : ℕ) (es : List Entry) → entry_for key (without_key key es) ≡ none
entry_for-without key [] = refl
entry_for-without key (e ∷ es) = ground (arith, entry_for-without key es)

entry_for-without_other :
    (key other : ℕ) (es : List Entry)
    → key ≢ other
    → entry_for key (without_key other es) ≡ entry_for key es
entry_for-without_other key other [] h = refl
entry_for-without_other key other (e ∷ es) h =
    ground (arith, entry_for-without_other key other es h)

entry_for-snoc :
    (key : ℕ) (es : List Entry) (e : Entry)
    → entry_for key es ≡ none
    → entry_for key (es ++ e ∷ []) ≡ entry_for key (e ∷ [])
entry_for-snoc key [] e h = refl
entry_for-snoc key (x ∷ es) e h = ground (arith, entry_for-snoc key es e)

issued_entry :
    (key ttl random now : ℕ) (es : List Entry)
    → entry_for key (issue es key ttl random now)
      ≡ some (record { key = key; nonce = random; expires_at = now + ttl })
unfolding issue
issued_entry key ttl random now es = ground (
  arith,
  entry_for-snoc key (without_key key es)
      (record { key = key; nonce = random; expires_at = now + ttl }) (entry_for-without key es),
)

consume_from-found :
    (key nonce now : ℕ) (es : List Entry) (e : Entry)
    → entry_for key es ≡ some e
    → consume_from es key nonce now ≡ (is_accepted e nonce now, without_key key es)
unfolding consume_from
consume_from-found key nonce now es e h = rw h refl

consume_from-missing :
    (key nonce now : ℕ) (es : List Entry)
    → entry_for key es ≡ none
    → consume_from es key nonce now ≡ (false, es)
unfolding consume_from
consume_from-missing key nonce now es h = rw h refl

-- After an answer, right or wrong, no further answer is accepted.
consume_from-twice :
    (key nonce now again later : ℕ) (es : List Entry)
    → (consume_from (consume_from es key nonce now).1 key again later).0 ≡ false
consume_from-twice key nonce now again later es = elim (Option-cases (entry_for key es)) [
  | inl missing ↦
      rw
        (
          consume_from-missing key nonce now es missing,
          consume_from-missing key again later es missing,
        )
        refl
  | inr (e, found) ↦
      rw
        (
          consume_from-found key nonce now es e found,
          consume_from-missing key again later (without_key key es) (entry_for-without key es),
        )
        refl
]

-- The answer to a challenge is accepted exactly when it is the issued nonce and comes no later than
-- five minutes after it, and two minutes for device linking; then, and after a wrong answer
-- likewise, no answer to the challenge is accepted again. Challenges of the other kind do not
-- matter, even if their key is the same: here a device-link challenge for the same key is issued in
-- between.
pub consume_nonce-once :
    (n : Nonces) (wallet random now other_random between answer at again later : ℕ)
    → ((consume_nonce
            (create_device_link_nonce
              (create_nonce n wallet random now).1
              wallet
              other_random
              between).1
            wallet
            answer
            at).0
          ≡ true
        ↔ ((answer ≡ random) × (at ≤ now + ttl_ms)))
      × ((consume_nonce
            (consume_nonce
              (create_device_link_nonce
                (create_nonce n wallet random now).1
                wallet
                other_random
                between).1
              wallet
              answer
              at).1
            wallet
            again
            later).0
          ≡ false)
      × ((consume_device_link_nonce
              (consume_nonce
                (create_device_link_nonce
                  (create_nonce n wallet random now).1
                  wallet
                  other_random
                  between).1
                wallet
                answer
                at).1
              wallet
              again
              later).0
            ≡ true
          ↔ ((again ≡ other_random) × (later ≤ between + device_link_ttl_ms)))
unfolding create_nonce consume_nonce create_device_link_nonce consume_device_link_nonce
consume_nonce-once n wallet random now other_random between answer at again later = (
  rw
      (consume_from-found wallet answer at (issue n.store wallet ttl_ms random now) _
        (issued_entry wallet ttl_ms random now n.store))
      (λ h. ground arith, λ h. ground arith),
  consume_from-twice wallet answer at again later (issue n.store wallet ttl_ms random now),
  rw
      (consume_from-found wallet again later
        (issue n.device_link_store wallet device_link_ttl_ms other_random between) _
        (issued_entry wallet device_link_ttl_ms other_random between n.device_link_store))
      (λ h. ground arith, λ h. ground arith),
)
