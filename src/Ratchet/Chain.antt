-- ===== src/Ratchet/Chain.antt =====
-- What a receiver knows of one sending chain of its peer: the next key of the chain, and the keys of
-- the messages that it has skipped.
use clicked.Prelude.{
  ℕ, zero, suc, ◌+◌, ◌-◌, ◌≡◌, ◌≤◌, ◌<◌, refl, sym, ap, ◌∙◌, subst, none, some, true, false, not,
  ◌&&◌, List, [], ◌∷◌, ltb, ◌==◌, if◌then◌else◌, length, has, All, All-map, arith, Bool-cases, inl,
  inr,
}
use clicked.Ratchet.{
  Bytes, Platform, IsPlatform, SkippedKeyId, DoubleRatchetState, EncryptedMessagePayload,
  dh_changed, max_skip, max_skipped_keys, prune_skipped_keys, get_key, set_key, delete_key,
  skipped_key_id, kdf_ck, skip_one, skip_rounds, skip_message_keys, receive, receive_ratcheted,
  decrypt_or_receive, ratchet_decrypt, decrypt_with,
}
use clicked.Ratchet.Keys.{prune_unfilled, same_id-chain, get_key-set_key, length-set_key}

module _ {B T : Type 0} (p : Platform B T) where
  -- The chain key after some messages of a chain that starts at `ck`, and the key of a message.
  unfoldable pub chain_key : Bytes → ℕ → Bytes
  chain_key ck zero = ck
  chain_key ck (suc i) = (kdf_ck p (chain_key ck i)).0

  abbrev pub message_key : Bytes → ℕ → Bytes
  message_key ck i = (kdf_ck p (chain_key ck i)).1

  -- A receiver that has received the messages `received` of the chain of `dh` that starts at `ck`,
  -- and has room for the keys of the chain's first `total` messages.
  pub record Tracks (total : ℕ) (dh ck : Bytes) (received : List ℕ) (s : DoubleRatchetState B)
      : Type 0 where
    pub dhr : s.dhr ≡ some dh
    pub ckr : s.ckr ≡ some (chain_key ck s.nr)
    pub keys :
        (i : ℕ)
        → get_key p (skipped_key_id p (some dh) i) s.mkskipped
          ≡ (if ltb i s.nr && not (has i received) then some (message_key ck i) else none)
    pub past : All (λ i. i < s.nr) received
    pub reached : s.nr ≤ total
    pub room : length s.mkskipped + (total - s.nr) ≤ max_skipped_keys

  -- What belongs to sending is the same.
  pub record SameSending (s s' : DoubleRatchetState B) : Type 0 where
    pub dhs : s'.dhs ≡ s.dhs
    pub rk : s'.rk ≡ s.rk
    pub cks : s'.cks ≡ s.cks
    pub ns : s'.ns ≡ s.ns
    pub pn : s'.pn ≡ s.pn

  pub has_of_past : (n : ℕ) (received : List ℕ) → All (λ i. i < n) received → has n received ≡ false
  has_of_past n [] h = refl
  has_of_past n (i ∷ is) (h, hs) = ground (arith, has_of_past n is hs)

  pub chain_key-next : (ck : Bytes) (n : ℕ) → (kdf_ck p (chain_key ck n)).0 ≡ chain_key ck (n + 1)
  unfolding chain_key
  chain_key-next ck n =
      let next : (kdf_ck p (chain_key ck n)).0 ≡ chain_key ck (suc n) = chain_key_suc ck n in
      let same : suc n ≡ n + 1 = omega arith in
      subst (λ m. (kdf_ck p (chain_key ck n)).0 ≡ chain_key ck m) same next
    where
      chain_key_suc : (ck : Bytes) (n : ℕ) → (kdf_ck p (chain_key ck n)).0 ≡ chain_key ck (suc n)
      chain_key_suc ck n = refl

  -- The keys that are kept once the key of the message `n` is among them.
  keys_with_next :
      (ck : Bytes) (received : List ℕ) (n i : ℕ)
      → has n received ≡ false
      → (if n == i
          then some (message_key ck n)
          else if ltb i n && not (has i received)
          then some (message_key ck i)
          else none)
        ≡ (if ltb i (n + 1) && not (has i received) then some (message_key ck i) else none)
  keys_with_next ck received n i h = elim (Bool-cases (n == i)) [
    | inl same ↦
        let e : n ≡ i = ground arith in
        let f : has i received ≡ false = subst (λ m. has m received ≡ false) e h in
        rw (same, f, ap (message_key ck) e) (ground arith)
    | inr other ↦ rw other (ground arith)
  ]

  -- The keys that are kept once the message `i` is received, next in order or late.
  pub keys_without_next :
      (ck : Bytes) (received : List ℕ) (i n j : ℕ)
      → n ≡ i
      → (if ltb j n && not (has j received) then some (message_key ck j) else none)
        ≡ (if ltb j (n + 1) && not (has j (i ∷ received)) then some (message_key ck j) else none)
  keys_without_next ck received i n j e = ground arith

  pub keys_without_late :
      (ck : Bytes) (received : List ℕ) (i n j : ℕ)
      → (if i == j
          then none
          else if ltb j n && not (has j received)
          then some (message_key ck j)
          else none)
        ≡ (if ltb j n && not (has j (i ∷ received)) then some (message_key ck j) else none)
  keys_without_late ck received i n j = ground arith

  module _ (s : DoubleRatchetState B) (m : EncryptedMessagePayload B) (ad random : Bytes) where
    abbrev own_id : SkippedKeyId B
    own_id = skipped_key_id p (some (p.from_base64 m.dh)) m.n

    pub ratchet_decrypt-found :
        (mk : Bytes)
        → get_key p own_id s.mkskipped ≡ some mk
        → ratchet_decrypt p s m ad random
          ≡ (decrypt_with p mk m ad, record s { mkskipped = delete_key p own_id s.mkskipped })
    unfolding ratchet_decrypt
    ratchet_decrypt-found mk e = ap (decrypt_or_receive p s m ad random) e

    pub ratchet_decrypt-missing :
        get_key p own_id s.mkskipped ≡ none
        → dh_changed s.dhr (p.from_base64 m.dh) ≡ false
        → ratchet_decrypt p s m ad random ≡ receive p s m ad
    unfolding ratchet_decrypt
    ratchet_decrypt-missing e known =
        ap (decrypt_or_receive p s m ad random) e
        ∙ ap
            (λ b.
              if b
              then receive_ratcheted p s m ad random (skip_message_keys p s m.pn)
              else receive p s m ad)
            known

    pub ratchet_decrypt-changed :
        get_key p own_id s.mkskipped ≡ none
        → dh_changed s.dhr (p.from_base64 m.dh) ≡ true
        → ratchet_decrypt p s m ad random
          ≡ receive_ratcheted p s m ad random (skip_message_keys p s m.pn)
    unfolding ratchet_decrypt
    ratchet_decrypt-changed e changed =
        ap (decrypt_or_receive p s m ad random) e
        ∙ ap
            (λ b.
              if b
              then receive_ratcheted p s m ad random (skip_message_keys p s m.pn)
              else receive p s m ad)
            changed

  module _ (law : IsPlatform p) (total : ℕ) (dh ck : Bytes) (received : List ℕ) where
    skip_one-Tracks :
        (s : DoubleRatchetState B)
        → Tracks total dh ck received s
        → s.nr < total
        → Tracks total dh ck received (skip_one p s (chain_key ck s.nr))
    skip_one-Tracks s t open_ =
        let id = skipped_key_id p s.dhr s.nr in
        let set = set_key p id (message_key ck s.nr) s.mkskipped in
        let grown = length-set_key p id (message_key ck s.nr) s.mkskipped in
        let room = t.room in
        let whole : prune_skipped_keys set ≡ set = prune_unfilled set (omega arith) in
        record {
          dhr = t.dhr;
          ckr = ap some (chain_key-next ck s.nr);
          keys = λ i.
              rw
                (
                  whole,
                  get_key-set_key p law id (skipped_key_id p (some dh) i),
                  t.dhr,
                  same_id-chain p law dh s.nr i,
                  t.keys i,
                )
                (keys_with_next ck received s.nr i (has_of_past s.nr received t.past));
          past = All-map _ _ (λ i h. omega arith) received t.past;
          reached = omega arith;
          room = rw whole (omega arith);
        }

    skip_rounds-Tracks :
        (k : ℕ) (s : DoubleRatchetState B) (c : Bytes)
        → c ≡ chain_key ck s.nr
        → Tracks total dh ck received s
        → s.nr + k ≤ total
        → Tracks total dh ck received (skip_rounds p k s c)
          × ((skip_rounds p k s c).nr ≡ s.nr + k)
          × SameSending s (skip_rounds p k s c)
    skip_rounds-Tracks zero s c e t fits =
        (t, omega arith, record { dhs = refl; rk = refl; cks = refl; ns = refl; pn = refl })
    skip_rounds-Tracks (suc k) s c e t fits =
        let next =
          subst (λ x. Tracks total dh ck received (skip_one p s x)) (sym e)
            (skip_one-Tracks s t (omega arith)) in
        let same : (kdf_ck p c).0 ≡ chain_key ck (s.nr + 1) =
          ap (λ x. (kdf_ck p x).0) e ∙ chain_key-next ck s.nr in
        let ih = skip_rounds-Tracks k (skip_one p s c) (kdf_ck p c).0 same next (omega arith) in
        (
          ih.0,
          ih.1 ∙ omega arith,
          record { dhs = ih.2.dhs; rk = ih.2.rk; cks = ih.2.cks; ns = ih.2.ns; pn = ih.2.pn },
        )

    -- Skipping up to a message of the chain.
    pub skip_message_keys-Tracks :
        (i : ℕ) (s : DoubleRatchetState B)
        → Tracks total dh ck received s
        → i < total
        → total ≤ max_skip + 1
        → (s' : DoubleRatchetState B) × (skip_message_keys p s i ≡ some s')
          × Tracks total dh ck received s'
          × (s'.nr ≡ s.nr + (i - s.nr))
          × SameSending s s'
    unfolding skip_message_keys
    skip_message_keys-Tracks i s t inside short =
        let reached = t.reached in
        let small : ltb (s.nr + max_skip) i ≡ false = ground arith in
        let done = skip_rounds-Tracks (i - s.nr) s (chain_key ck s.nr) refl t (omega arith) in
        (
          skip_rounds p (i - s.nr) s (chain_key ck s.nr),
          rw (small, t.ckr) refl,
          done.0,
          done.1,
          done.2,
        )
