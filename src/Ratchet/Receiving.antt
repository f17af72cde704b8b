-- ===== src/Ratchet/Receiving.antt =====
-- A receiver that gets a message of the chain, next in order, ahead or late.
use clicked.Prelude.{
  ℕ, ◌+◌, ◌≡◌, ◌≤◌, ◌<◌, refl, sym, ap, ◌∙◌, subst, Option, none, some, false, not, ◌&&◌, List, ◌∷◌,
  ltb, ◌==◌, if◌then◌else◌, has, All-map, arith, Bool-cases, inl, inr,
}
use clicked.Ratchet.{
  Bytes, Platform, IsPlatform, DoubleRatchetState, EncryptedMessagePayload, Decrypted, decrypted,
  dh_changed, max_skip, get_key, delete_key, skipped_key_id, receive_at, receive, ratchet_decrypt,
  decrypt_with,
}
use clicked.Ratchet.Keys.{dh_changed_refl, same_id-chain, get_key-delete_key, length-delete_key}
use clicked.Ratchet.Chain.{
  chain_key, message_key, chain_key-next, Tracks, SameSending, keys_without_next, keys_without_late,
  ratchet_decrypt-found, ratchet_decrypt-missing, skip_message_keys-Tracks,
}

module _ {B T : Type 0} (p : Platform B T) where
  -- A message of the chain of `dh` that starts at `ck`: its number, its text and its associated data.
  pub record IsSealed (dh ck : Bytes) (i : ℕ) (text : T) (ad : Bytes)
      (m : EncryptedMessagePayload B) : Type 0 where
    pub of_chain : p.from_base64 m.dh ≡ dh
    pub number : m.n ≡ i
    pub opens : decrypt_with p (message_key p ck i) m ad ≡ decrypted text

  -- What follows from receiving the message `i` of a chain.
  pub record Received (total : ℕ) (dh ck : Bytes) (received : List ℕ) (i : ℕ) (text : T)
      (s : DoubleRatchetState B) (result : Decrypted T × DoubleRatchetState B) : Type 0 where
    pub text_read : result.0 ≡ decrypted text
    pub tracks : Tracks p total dh ck (i ∷ received) result.1
    pub sending : SameSending p s result.1

  module _ (law : IsPlatform p) (total : ℕ) (dh ck : Bytes) (received : List ℕ) (i : ℕ) (text : T)
      (ad : Bytes) (m : EncryptedMessagePayload B) (sealed : IsSealed dh ck i text ad m) where
    receive_at-Received :
        (s : DoubleRatchetState B)
        → Tracks p total dh ck received s
        → s.nr ≡ i
        → i < total
        → Received total dh ck received i text s (receive_at p s m ad (some (chain_key p ck s.nr)))
    receive_at-Received s t e inside = record {
      text_read = ap (λ n. decrypt_with p (message_key p ck n) m ad) e ∙ sealed.opens;
      tracks = record {
        dhr = t.dhr;
        ckr = ap some (chain_key-next p ck s.nr);
        keys = λ j. t.keys j ∙ keys_without_next p ck received i s.nr j e;
        past = (omega arith, All-map _ _ (λ j h. omega arith) received t.past);
        reached = omega arith;
        room = let room = t.room in omega arith;
      };
      sending = record { dhs = refl; rk = refl; cks = refl; ns = refl; pn = refl };
    }

    -- The key of a skipped message is looked up under the message's own header.
    at_own_id :
        (s : DoubleRatchetState B) (o : Option Bytes)
        → get_key p (skipped_key_id p (some dh) i) s.mkskipped ≡ o
        → get_key p (skipped_key_id p (some (p.from_base64 m.dh)) m.n) s.mkskipped ≡ o
    at_own_id s o e =
        ap (λ x. get_key p (skipped_key_id p (some x) m.n) s.mkskipped) sealed.of_chain
        ∙ ap (λ n. get_key p (skipped_key_id p (some dh) n) s.mkskipped) sealed.number
        ∙ e

    late-Received :
        (s : DoubleRatchetState B)
        → Tracks p total dh ck received s
        → i < s.nr
        → Received total dh ck received i text s (
          decrypt_with p (message_key p ck i) m ad,
          record s {
            mkskipped = delete_key p (skipped_key_id p (some (p.from_base64 m.dh)) m.n) s.mkskipped;
          },
        )
    late-Received s t late = record {
      text_read = sealed.opens;
      tracks = record {
        dhr = t.dhr;
        ckr = t.ckr;
        keys = λ j. deleted j;
        past = (late, t.past);
        reached = t.reached;
        room =
            let room = t.room in
            let shrunk =
              length-delete_key p (skipped_key_id p (some (p.from_base64 m.dh)) m.n) s.mkskipped in
            omega arith;
      };
      sending = record { dhs = refl; rk = refl; cks = refl; ns = refl; pn = refl };
    }
      where
        deleted :
            (j : ℕ)
            → get_key p
                (skipped_key_id p (some dh) j)
                (delete_key p (skipped_key_id p (some (p.from_base64 m.dh)) m.n) s.mkskipped)
              ≡ (if ltb j s.nr && not (has j (i ∷ received))
                  then some (message_key p ck j)
                  else none)
        deleted j =
            ap
              (λ x.
                get_key p (skipped_key_id p (some dh) j)
                  (delete_key p (skipped_key_id p (some x) m.n) s.mkskipped))
              sealed.of_chain
            ∙ ap
                (λ n.
                  get_key p (skipped_key_id p (some dh) j)
                    (delete_key p (skipped_key_id p (some dh) n) s.mkskipped))
                sealed.number
            ∙ get_key-delete_key p law (skipped_key_id p (some dh) i) (skipped_key_id p (some dh) j)
                s.mkskipped
            ∙ ap (λ b. if b then none else get_key p (skipped_key_id p (some dh) j) s.mkskipped)
                (same_id-chain p law dh i j)
            ∙ ap (λ o. if i == j then none else o) (t.keys j)
            ∙ keys_without_late p ck received i s.nr j

    receive-Received :
        (s : DoubleRatchetState B)
        → Tracks p total dh ck received s
        → i < total
        → total ≤ max_skip + 1
        → s.nr ≤ i
        → Received total dh ck received i text s (receive p s m ad)
    receive-Received s t inside short ahead =
        let (s', skipped, t', at, sending) =
          skip_message_keys-Tracks p law total dh ck received i s t inside short in
        let r = receive_at-Received s' t' (omega arith) inside in
        rw (sealed.number, skipped, t'.ckr)
          (record {
            text_read = r.text_read;
            tracks = r.tracks;
            sending = record {
              dhs = r.sending.dhs ∙ sending.dhs;
              rk = r.sending.rk ∙ sending.rk;
              cks = r.sending.cks ∙ sending.cks;
              ns = r.sending.ns ∙ sending.ns;
              pn = r.sending.pn ∙ sending.pn;
            };
          })

    pub ratchet_decrypt-Received :
        (s : DoubleRatchetState B) (random : Bytes)
        → Tracks p total dh ck received s
        → i < total
        → total ≤ max_skip + 1
        → has i received ≡ false
        → Received total dh ck received i text s (ratchet_decrypt p s m ad random)
    ratchet_decrypt-Received s random t inside short new = elim (Bool-cases (ltb i s.nr)) [
      | inl late ↦
          let found : get_key p (skipped_key_id p (some dh) i) s.mkskipped
              ≡ some (message_key p ck i) =
            t.keys i ∙ rw (late, new) refl in
          let same =
            ratchet_decrypt-found p s m ad random (message_key p ck i)
              (at_own_id s (some (message_key p ck i)) found) in
          subst (Received total dh ck received i text s) (sym same)
            (late-Received s t (ground arith))
      | inr ahead ↦
          let missing : get_key p (skipped_key_id p (some dh) i) s.mkskipped ≡ none =
            t.keys i ∙ rw ahead refl in
          let known : dh_changed s.dhr (p.from_base64 m.dh) ≡ false =
            ap (λ x. dh_changed x (p.from_base64 m.dh)) t.dhr
            ∙ ap (dh_changed (some dh)) sealed.of_chain
            ∙ dh_changed_refl dh in
          let same = ratchet_decrypt-missing p s m ad random (at_own_id s none missing) known in
          subst (Received total dh ck received i text s) (sym same)
            (receive-Received s t inside short (ground arith))
    ]
