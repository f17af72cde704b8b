-- ===== src/Ratchet/Session.antt =====
-- Two parties in turn: one sends messages, and the other receives them in any order.
use clicked.Prelude.{
  ℕ, zero, suc, ◌+◌, ◌-◌, ◌≡◌, ◌≤◌, ◌<◌, refl, sym, ap, ◌∙◌, subst, Option, none, some, true, false,
  List, [], ◌∷◌, map, if◌then◌else◌, length, has, is_distinct, All, arith, ◌>>=◌,
}
use clicked.Ratchet.{
  Bytes, Platform, IsPlatform, DoubleRatchetState, EncryptedMessagePayload, Decrypted, decrypted,
  dh_changed, max_skip, max_skipped_keys, prune_skipped_keys, get_key, set_key, skipped_key_id,
  kdf_ck, skip_one, skip_rounds, skip_from, ratchet_encrypt, encrypt_at, ratchet_decrypt, text_of,
}
use clicked.Ratchet.Keys.{prune_unfilled, same_id-other, get_key-set_key, length-set_key}
use clicked.Ratchet.Chain.{chain_key, chain_key-next, Tracks, SameSending}
use clicked.Ratchet.Receiving.{IsSealed, ratchet_decrypt-Received}

unfoldable pub pick {ℓ} : {A : Type ℓ} → List A → ℕ → Option A
pick [] i = none
pick (x ∷ xs) zero = some x
pick (x ∷ xs) (suc i) = pick xs i

module _ {B T : Type 0} (p : Platform B T) where
  -- Sending texts, each with its random initial vector, under the same associated data.
  unfoldable pub send_all :
      DoubleRatchetState B
      → Bytes
      → List (T × Bytes)
      → Option (List (EncryptedMessagePayload B) × DoubleRatchetState B)
  send_all s ad [] = some ([], s)
  send_all s ad ((text, iv) ∷ rest) = do
    first ← ratchet_encrypt p s text ad iv
    others ← send_all first.1 ad rest
    some (first.0 ∷ others.0, others.1)

  -- Receiving messages one after the other, each with the random bytes that it may use.
  unfoldable pub deliver :
      DoubleRatchetState B
      → Bytes
      → List (EncryptedMessagePayload B × Bytes)
      → List (Decrypted T) × DoubleRatchetState B
  deliver s ad [] = ([], s)
  deliver s ad ((m, random) ∷ rest) =
      let first = ratchet_decrypt p s m ad random in
      let others = deliver first.1 ad rest in (first.0 ∷ others.0, others.1)

  abbrev add_arrival :
      Option (EncryptedMessagePayload B)
      → Bytes
      → List (EncryptedMessagePayload B × Bytes)
      → List (EncryptedMessagePayload B × Bytes)
  add_arrival none random rest = rest
  add_arrival (some m) random rest = (m, random) ∷ rest

  abbrev add_text : Option (T × Bytes) → List (Decrypted T) → List (Decrypted T)
  add_text none rest = rest
  add_text (some t) rest = decrypted t.0 ∷ rest

  -- Some of the messages sent, in the order in which they arrive.
  unfoldable pub arrivals :
      List (EncryptedMessagePayload B) → List (ℕ × Bytes) → List (EncryptedMessagePayload B × Bytes)
  arrivals ms [] = []
  arrivals ms ((i, random) ∷ order) = add_arrival (pick ms i) random (arrivals ms order)

  -- The texts of these messages.
  unfoldable pub texts_of : List (T × Bytes) → List (ℕ × Bytes) → List (Decrypted T)
  texts_of texts [] = []
  texts_of texts ((i, random) ∷ order) = add_text (pick texts i) (texts_of texts order)

  abbrev pub indices : List (ℕ × Bytes) → List ℕ
  indices = map (λ o. o.0)

  pub AllSealed :
      Bytes → Bytes → Bytes → ℕ → ℕ → List (EncryptedMessagePayload B) → List (T × Bytes) → Type 0
  AllSealed dh ck ad pn n [] [] = Unit
  AllSealed dh ck ad pn n [] (t ∷ ts) = ⊥
  AllSealed dh ck ad pn n (m ∷ ms) [] = ⊥
  AllSealed dh ck ad pn n (m ∷ ms) (t ∷ ts) =
      IsSealed p dh ck n t.0 ad m × (m.pn ≡ pn) × AllSealed dh ck ad pn (n + 1) ms ts

  module _ (law : IsPlatform p) (dh ck ad : Bytes) (pn : ℕ) where
    pub pick-AllSealed :
        (n i : ℕ) (ms : List (EncryptedMessagePayload B)) (ts : List (T × Bytes))
        → AllSealed dh ck ad pn n ms ts
        → i < length ts
        → (m : EncryptedMessagePayload B) × (t : T × Bytes) × (pick ms i ≡ some m)
          × (pick ts i ≡ some t)
          × IsSealed p dh ck (n + i) t.0 ad m
          × (m.pn ≡ pn)
    unfolding AllSealed pick
    pick-AllSealed n i [] [] h inside = absurd (omega arith)
    pick-AllSealed n i [] (t ∷ ts) h inside = absurd h
    pick-AllSealed n i (m ∷ ms) [] h inside = absurd h
    pick-AllSealed n zero (m ∷ ms) (t ∷ ts) (sealed, previous, rest) inside =
        let same : n ≡ n + 0 = omega arith in
        (m, t, refl, refl, subst (λ k. IsSealed p dh ck k t.0 ad m) same sealed, previous)
    pick-AllSealed n (suc i) (m ∷ ms) (t ∷ ts) (sealed, previous, rest) inside =
        let (m', t', a, b, sealed', previous') =
          pick-AllSealed (n + 1) i ms ts rest (omega arith) in
        let same : n + 1 + i ≡ n + suc i = omega arith in
        (m', t', a, b, subst (λ k. IsSealed p dh ck k t'.0 ad m') same sealed', previous')

  pub still_new :
      (i : ℕ) (received js : List ℕ)
      → has i js ≡ false
      → All (λ j. has j received ≡ false) js
      → All (λ j. has j (i ∷ received) ≡ false) js
  still_new i received [] h new = tt
  still_new i received (j ∷ js) h (n, ns) =
      (ground arith, still_new i received js (ground arith) ns)

  -- What belongs to receiving is the same.
  pub record SameReceiving (s s' : DoubleRatchetState B) : Type 0 where
    pub dhs : s'.dhs ≡ s.dhs
    pub dhr : s'.dhr ≡ s.dhr
    pub rk : s'.rk ≡ s.rk
    pub nr : s'.nr ≡ s.nr
    pub mkskipped : s'.mkskipped ≡ s.mkskipped

  module _ (law : IsPlatform p) (ck ad : Bytes) where
    pub send_all-AllSealed :
        (s : DoubleRatchetState B) (texts : List (T × Bytes))
        → s.cks ≡ some (chain_key p ck s.ns)
        → (ms : List (EncryptedMessagePayload B)) × (s' : DoubleRatchetState B) × (send_all s ad
              texts
            ≡ some (ms, s'))
          × AllSealed s.dhs.public_key ck ad s.pn s.ns ms texts
          × SameReceiving s s'
    unfolding send_all AllSealed ratchet_encrypt
    send_all-AllSealed s [] e =
        ([], s, refl, tt, record { dhs = refl; dhr = refl; rk = refl; nr = refl; mkskipped = refl })
    send_all-AllSealed s ((text, iv) ∷ rest) e =
        let c = chain_key p ck s.ns in
        let sealed = p.aes_gcm_encrypt (kdf_ck p c).1 iv ad (p.encode text) in
        let m : EncryptedMessagePayload B = record {
          dh = p.to_base64 s.dhs.public_key;
          pn = s.pn;
          n = s.ns;
          ciphertext = p.to_base64 sealed;
          iv = p.to_base64 iv;
        } in
        let s1 : DoubleRatchetState B = record s { cks = some (kdf_ck p c).0; ns = s.ns + 1 } in
        let sent : ratchet_encrypt p s text ad iv ≡ some (m, s1) =
          ap (encrypt_at p s text ad iv) e in
        let (ms, s', others, all, same) =
          send_all-AllSealed s1 rest (ap some (chain_key-next p ck s.ns)) in
        let opened : p.aes_gcm_decrypt (kdf_ck p c).1 (p.from_base64 m.iv) ad
              (p.from_base64 m.ciphertext)
            ≡ some (p.encode text) =
          ap (λ x. p.aes_gcm_decrypt (kdf_ck p c).1 x ad (p.from_base64 m.ciphertext))
            (law.from-to_base64 iv)
          ∙ ap (p.aes_gcm_decrypt (kdf_ck p c).1 iv ad) (law.from-to_base64 sealed)
          ∙ law.decrypt-encrypt (kdf_ck p c).1 iv ad (p.encode text) in
        (
          m ∷ ms,
          s',
          rw (sent, others) refl,
          (
            record {
              of_chain = law.from-to_base64 s.dhs.public_key;
              number = refl;
              opens = ap (text_of p) opened ∙ ap decrypted (law.decode-encode text);
            },
            refl,
            all,
          ),
          record {
            dhs = same.dhs;
            dhr = same.dhr;
            rk = same.rk;
            nr = same.nr;
            mkskipped = same.mkskipped;
          },
        )

  module _ (law : IsPlatform p) (total : ℕ) (dh ck ad : Bytes) (pn : ℕ)
      (ms : List (EncryptedMessagePayload B)) (texts : List (T × Bytes))
      (sealed : AllSealed dh ck ad pn 0 ms texts) where
    -- Any of the chain's messages, in any order, each once.
    pub deliver-Tracks :
        (order : List (ℕ × Bytes)) (received : List ℕ) (s : DoubleRatchetState B)
        → Tracks p total dh ck received s
        → length texts ≤ total
        → total ≤ max_skip + 1
        → All (λ i. i < length texts) (indices order)
        → All (λ i. has i received ≡ false) (indices order)
        → is_distinct (indices order) ≡ true
        → ((deliver s ad (arrivals ms order)).0 ≡ texts_of texts order)
          × SameSending p s (deliver s ad (arrivals ms order)).1
    unfolding deliver arrivals texts_of
    deliver-Tracks [] received s t enough short inside new distinct =
        (refl, record { dhs = refl; rk = refl; cks = refl; ns = refl; pn = refl })
    deliver-Tracks ((i, random) ∷ order) received s t enough short (here, inside) (fresh, new)
          distinct =
        let (m, text, sent, said, sealed_m, previous) =
          pick-AllSealed law dh ck ad pn 0 i ms texts sealed here in
        let r =
          ratchet_decrypt-Received p law total dh ck received i text.0 ad m
            (subst (λ k. IsSealed p dh ck k text.0 ad m) (omega arith) sealed_m) s random t
            (omega arith) short fresh in
        let next = (ratchet_decrypt p s m ad random).1 in
        let ih =
          deliver-Tracks order (i ∷ received) next r.tracks enough short inside
            (still_new i received (indices order) (ground arith) new) (ground arith) in
        let arrived : arrivals ms ((i, random) ∷ order) ≡ (m, random) ∷ arrivals ms order =
          ap (λ o. add_arrival o random (arrivals ms order)) sent in
        let read : texts_of texts ((i, random) ∷ order) ≡ decrypted text.0 ∷ texts_of texts order =
          ap (λ o. add_text o (texts_of texts order)) said in
        (
          ap (λ a. (deliver s ad a).0) arrived
              ∙ ap (λ x. x ∷ (deliver next ad (arrivals ms order)).0) r.text_read
              ∙ ap (λ xs. decrypted text.0 ∷ xs) ih.0
              ∙ sym read,
          subst (λ a. SameSending p s (deliver s ad a).1) (sym arrived)
              (record {
                dhs = ih.1.dhs ∙ r.sending.dhs;
                rk = ih.1.rk ∙ r.sending.rk;
                cks = ih.1.cks ∙ r.sending.cks;
                ns = ih.1.ns ∙ r.sending.ns;
                pn = ih.1.pn ∙ r.sending.pn;
              }),
        )

  -- Skipping messages of the chain before leaves what is known of the next one.
  pub record LeavesOther (dh : Bytes) (k : ℕ) (s s' : DoubleRatchetState B) : Type 0 where
    pub dhs : s'.dhs ≡ s.dhs
    pub rk : s'.rk ≡ s.rk
    pub ns : s'.ns ≡ s.ns
    pub room : length s'.mkskipped ≤ length s.mkskipped + k
    pub keys :
        (i : ℕ)
        → get_key p (skipped_key_id p (some dh) i) s'.mkskipped
          ≡ get_key p (skipped_key_id p (some dh) i) s.mkskipped

  module _ (law : IsPlatform p) (dh : Bytes) where
    skip_rounds-LeavesOther :
        (k : ℕ) (s : DoubleRatchetState B) (c : Bytes)
        → dh_changed s.dhr dh ≡ true
        → length s.mkskipped + k ≤ max_skipped_keys
        → LeavesOther dh k s (skip_rounds p k s c)
    skip_rounds-LeavesOther zero s c changed room = record {
      dhs = refl;
      rk = refl;
      ns = refl;
      room = omega arith;
      keys = λ i. refl;
    }
    skip_rounds-LeavesOther (suc k) s c changed room =
        let id = skipped_key_id p s.dhr s.nr in
        let set = set_key p id (kdf_ck p c).1 s.mkskipped in
        let grown = length-set_key p id (kdf_ck p c).1 s.mkskipped in
        let whole : prune_skipped_keys set ≡ set = prune_unfilled set (omega arith) in
        let size : length (prune_skipped_keys set) ≤ length s.mkskipped + 1 = rw whole grown in
        let ih = skip_rounds-LeavesOther k (skip_one p s c) (kdf_ck p c).0 changed (omega arith) in
        record {
          dhs = ih.dhs;
          rk = ih.rk;
          ns = ih.ns;
          room = let later = ih.room in omega arith;
          keys = λ i.
              ih.keys i
              ∙ ap (get_key p (skipped_key_id p (some dh) i)) whole
              ∙ get_key-set_key p law id (skipped_key_id p (some dh) i) (kdf_ck p c).1 s.mkskipped
              ∙ ap
                  (λ b.
                    if b
                    then some (kdf_ck p c).1
                    else get_key p (skipped_key_id p (some dh) i) s.mkskipped)
                  (same_id-other p law s.dhr dh s.nr i changed);
        }

    pub skip_from-LeavesOther :
        (s : DoubleRatchetState B) (until : ℕ) (o : Option Bytes)
        → dh_changed s.dhr dh ≡ true
        → length s.mkskipped + (until - s.nr) ≤ max_skipped_keys
        → LeavesOther dh (until - s.nr) s (skip_from p s until o)
    skip_from-LeavesOther s until none changed room = record {
      dhs = refl;
      rk = refl;
      ns = refl;
      room = omega arith;
      keys = λ i. refl;
    }
    skip_from-LeavesOther s until (some c) changed room =
        skip_rounds-LeavesOther (until - s.nr) s c changed room
