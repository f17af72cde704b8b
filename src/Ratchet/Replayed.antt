-- ===== src/Ratchet/Replayed.antt =====
-- A message of the current chain that comes a second time.
use clicked.Prelude.{
  ℕ, ◌+◌, ◌-◌, ◌≡◌, ◌≤◌, ◌<◌, ap, ◌∙◌, none, some, true, false, if◌then◌else◌, List, [], ◌∷◌, ltb,
  ◌==◌, has, All, arith, Bool-cases, inl, inr,
}
use clicked.Ratchet.{
  Bytes, Platform, IsPlatform, DoubleRatchetState, EncryptedMessagePayload, decrypted, failed,
  dh_changed, max_skip, get_key, skipped_key_id, kdf_ck, skip_from, skip_rounds, skip_message_keys,
  receive_at, receive_skipped, ratchet_decrypt, decrypt_with,
}
use clicked.Ratchet.Keys.{dh_changed_refl}
use clicked.Ratchet.Chain.{
  chain_key, chain_key-next, message_key, Tracks, ratchet_decrypt-missing, has_of_past,
}
use clicked.Ratchet.Receiving.{IsSealed, ratchet_decrypt-Received}
use clicked.Ratchet.Session.{deliver}

received_before :
    (n i : ℕ) (received : List ℕ) → All (λ j. j < n) received → has i received ≡ true → i < n
received_before n i [] h e = absurd (ground arith)
received_before n i (j ∷ js) (h, hs) e = elim (Bool-cases (i == j)) [
  | inl same ↦ ground arith
  | inr other ↦ received_before n i js hs (ground arith)
]

module _ {B T : Type 0} (p : Platform B T) where
  -- A message of the current chain that has no skipped key is tried with the chain's next key,
  -- also when its number is below the one that key belongs to.
  reads_next :
      (s : DoubleRatchetState B) (m : EncryptedMessagePayload B) (ad random dh c : Bytes)
      → s.dhr ≡ some dh
      → s.ckr ≡ some c
      → p.from_base64 m.dh ≡ dh
      → m.n ≤ s.nr
      → get_key p (skipped_key_id p (some dh) m.n) s.mkskipped ≡ none
      → ratchet_decrypt p s m ad random ≡ receive_at p s m ad (some c)
  unfolding skip_message_keys
  reads_next s m ad random dh c dhr ckr of_chain old missing =
      let known : dh_changed s.dhr (p.from_base64 m.dh) ≡ false =
        ap (λ x. dh_changed x (p.from_base64 m.dh)) dhr
        ∙ ap (dh_changed (some dh)) of_chain
        ∙ dh_changed_refl dh in
      let without : get_key p (skipped_key_id p (some (p.from_base64 m.dh)) m.n) s.mkskipped
          ≡ none =
        ap (λ d. get_key p (skipped_key_id p (some d) m.n) s.mkskipped) of_chain ∙ missing in
      let small : ltb (s.nr + max_skip) m.n ≡ false = ground arith in
      let no_rounds : m.n - s.nr ≡ 0 = omega arith in
      let skipped : skip_message_keys p s m.n ≡ some s =
        ap (λ b. if b then none else some (skip_from p s m.n s.ckr)) small
        ∙ ap (λ o. some (skip_from p s m.n o)) ckr
        ∙ ap (λ k. some (skip_rounds p k s c)) no_rounds in
      ratchet_decrypt-missing p s m ad random without known
      ∙ ap (receive_skipped p s m ad) skipped
      ∙ ap (receive_at p s m ad) ckr

  -- A message that the receiver has already received, or a forged one with its header, uses up the
  -- key of the next message of the chain. That next message is read if it comes first; after the
  -- repeated one it is tried with the key that follows, and fails if that key does not open it.
  pub replay-Lost :
      (law : IsPlatform p) (total : ℕ) (dh ck : Bytes) (received : List ℕ)
      (s : DoubleRatchetState B) (repeated next : EncryptedMessagePayload B) (text : T)
      (ad r1 r2 : Bytes)
      → Tracks p total dh ck received s
      → s.nr < total
      → total ≤ max_skip + 1
      → p.from_base64 repeated.dh ≡ dh
      → has repeated.n received ≡ true
      → IsSealed p dh ck s.nr text ad next
      → decrypt_with p (message_key p ck (s.nr + 1)) next ad ≡ failed
      → ((ratchet_decrypt p s next ad r2).0 ≡ decrypted text)
        × ((deliver p s ad ((repeated, r1) ∷ (next, r2) ∷ [])).0
            ≡ decrypt_with p (message_key p ck s.nr) repeated ad ∷ failed ∷ [])
  unfolding deliver
  replay-Lost law total dh ck received s repeated next text ad r1 r2 t open_ short of_chain again
        sealed wrong =
      let old : repeated.n < s.nr = received_before s.nr repeated.n received t.past again in
      let none_kept : get_key p (skipped_key_id p (some dh) repeated.n) s.mkskipped ≡ none =
        t.keys repeated.n ∙ rw again (ground arith) in
      let first =
        reads_next s repeated ad r1 dh (chain_key p ck s.nr) t.dhr t.ckr of_chain (omega arith)
          none_kept in
      let s1 : DoubleRatchetState B = record s {
        ckr = some (kdf_ck p (chain_key p ck s.nr)).0;
        nr = s.nr + 1;
      } in
      let number = sealed.number in
      let none_next : get_key p (skipped_key_id p (some dh) next.n) s.mkskipped ≡ none =
        ap (λ n. get_key p (skipped_key_id p (some dh) n) s.mkskipped) number
        ∙ t.keys s.nr
        ∙ ground arith in
      let second =
        reads_next s1 next ad r2 dh (chain_key p ck (s.nr + 1)) t.dhr
          (ap some (chain_key-next p ck s.nr)) sealed.of_chain (omega arith) none_next in
      (
        (ratchet_decrypt-Received p law total dh ck received s.nr text ad next sealed s r2 t open_
            short (has_of_past p s.nr received t.past)).text_read,
        ap (λ d. d.0 ∷ (deliver p d.1 ad ((next, r2) ∷ [])).0) first
            ∙ ap (λ d. decrypt_with p (message_key p ck s.nr) repeated ad ∷ d.0 ∷ []) second
            ∙ ap (λ o. decrypt_with p (message_key p ck s.nr) repeated ad ∷ o ∷ []) wrong,
      )
