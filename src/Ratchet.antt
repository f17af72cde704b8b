-- ===== src/Ratchet.antt =====
-- The Double Ratchet with out-of-order delivery (apps/web/src/lib/crypto/doubleRatchet.ts).
-- Bytes are lists of numbers. The curve, HKDF, AES-GCM, base64 and the text encoder are libraries:
-- `Platform` has their functions and `IsPlatform` what they document. Random bytes are arguments. A
-- function that throws gives `none` or `failed`; the source changes its state in place, so what it
-- has changed before it throws is part of the result. The exceptions of the curve at keys of low order are
-- left out.
pub mod Keys
pub mod Chain
pub mod Receiving
pub mod Session
pub mod Turn
pub mod Replayed
mod Tests
use Prim.Native.String.{String}
use mathlib.Core.Option
use clicked.Prelude.{
  ℕ, zero, suc, ◌+◌, ◌-◌, ◌≡◌, ◌↔◌, Option, none, some, Bool, true, false, not, ◌&&◌, List, [], ◌∷◌,
  ◌++◌, ltb, ◌==◌, if◌then◌else◌, length, take, any,
}

abbrev pub Bytes : Type 0
Bytes = List ℕ

-- `B` is base64 text and `T` is text.
pub record Platform (B T : Type 0) : Type 0 where
  pub get_public_key : Bytes → Bytes
  pub get_shared_secret : (private_key public_key : Bytes) → Bytes
  pub hkdf : (input salt info : Bytes) → (length : ℕ) → Bytes
  pub aes_gcm_encrypt : (key iv ad plaintext : Bytes) → Bytes
  pub aes_gcm_decrypt : (key iv ad ciphertext : Bytes) → Option Bytes
  pub to_base64 : Bytes → B
  pub from_base64 : B → Bytes
  pub same_text : B → B → Bool
  pub encode : T → Bytes
  pub decode : Bytes → T
  pub encode_label : String → Bytes

pub record IsPlatform {B T : Type 0} (p : Platform B T) : Type 0 where
  pub shared_secret_comm :
      (a b : Bytes)
      → p.get_shared_secret a (p.get_public_key b) ≡ p.get_shared_secret b (p.get_public_key a)
  pub decrypt-encrypt :
      (key iv ad plaintext : Bytes)
      → p.aes_gcm_decrypt key iv ad (p.aes_gcm_encrypt key iv ad plaintext) ≡ some plaintext
  pub from-to_base64 : (bytes : Bytes) → p.from_base64 (p.to_base64 bytes) ≡ bytes
  pub same_text_iff : (a b : B) → (p.same_text a b ≡ true) ↔ (a ≡ b)
  pub decode-encode : (t : T) → p.decode (p.encode t) ≡ t

abbrev pub max_skip : ℕ
max_skip = 100

abbrev pub max_skipped_keys : ℕ
max_skipped_keys = 1000

pub record KeyPair : Type 0 where
  pub private_key : Bytes
  pub public_key : Bytes

-- `<base64 of the key, or none>:<n>`
pub record SkippedKeyId (B : Type 0) : Type 0 where
  pub dh : Option B
  pub n : ℕ

pub record EncryptedMessagePayload (B : Type 0) : Type 0 where
  pub dh : B
  pub pn : ℕ
  pub n : ℕ
  pub ciphertext : B
  pub iv : B

-- The map of skipped keys has its entries in insertion order.
pub record DoubleRatchetState (B : Type 0) : Type 0 where
  pub dhs : KeyPair
  pub dhr : Option Bytes
  pub rk : Bytes
  pub cks : Option Bytes
  pub ckr : Option Bytes
  pub ns : ℕ
  pub nr : ℕ
  pub pn : ℕ
  pub mkskipped : List (SkippedKeyId B × Bytes)

pub data Decrypted (T : Type 0) : Type 0 where
  decrypted : T → Decrypted T
  failed : Decrypted T

abbrev drop : ℕ → Bytes → Bytes
drop zero bs = bs
drop (suc n) [] = []
drop (suc n) (b ∷ bs) = drop n bs

abbrev pub same_bytes : Bytes → Bytes → Bool
same_bytes [] [] = true
same_bytes [] (c ∷ cs) = false
same_bytes (b ∷ bs) [] = false
same_bytes (b ∷ bs) (c ∷ cs) = b == c && same_bytes bs cs

abbrev pub dh_changed : Option Bytes → Bytes → Bool
dh_changed none header = true
dh_changed (some dhr) header = not (same_bytes header dhr)

abbrev pub prune_skipped_keys {ℓ} : {A : Type ℓ} → List A → List A
prune_skipped_keys [] = []
prune_skipped_keys (e ∷ es) =
    if ltb max_skipped_keys (length (e ∷ es)) then prune_skipped_keys es else e ∷ es

module _ {B T : Type 0} (p : Platform B T) where
  abbrev pub same_id : SkippedKeyId B → SkippedKeyId B → Bool
  same_id a b = same_dh a.dh b.dh && a.n == b.n
    where
      same_dh : Option B → Option B → Bool
      same_dh none none = true
      same_dh none (some y) = false
      same_dh (some x) none = false
      same_dh (some x) (some y) = p.same_text x y

  -- `Map.get`, `Map.set` and `Map.delete`
  abbrev pub get_key : SkippedKeyId B → List (SkippedKeyId B × Bytes) → Option Bytes
  get_key id [] = none
  get_key id (e ∷ es) = if same_id e.0 id then some e.1 else get_key id es

  abbrev pub set_key :
      SkippedKeyId B → Bytes → List (SkippedKeyId B × Bytes) → List (SkippedKeyId B × Bytes)
  set_key id mk [] = (id, mk) ∷ []
  set_key id mk (e ∷ es) = if same_id e.0 id then (e.0, mk) ∷ es else e ∷ set_key id mk es

  abbrev pub delete_key :
      SkippedKeyId B → List (SkippedKeyId B × Bytes) → List (SkippedKeyId B × Bytes)
  delete_key id [] = []
  delete_key id (e ∷ es) = if same_id e.0 id then delete_key id es else e ∷ delete_key id es

  abbrev pub generate_key_pair : Bytes → KeyPair
  generate_key_pair random = record { private_key = random; public_key = p.get_public_key random }

  unfoldable pub kdf_rk : Bytes → Bytes → Bytes × Bytes
  kdf_rk rk dh_out =
      let derived = p.hkdf dh_out rk (p.encode_label "DoubleRatchetRK") 64 in
      (take 32 derived, take 32 (drop 32 derived))

  -- The next chain key and the message key.
  unfoldable pub kdf_ck : Bytes → Bytes × Bytes
  kdf_ck ck = (
    p.hkdf (1 ∷ []) ck (p.encode_label "DoubleRatchetCK") 32,
    p.hkdf (2 ∷ []) ck (p.encode_label "DoubleRatchetMK") 32,
  )

  abbrev pub skipped_key_id : Option Bytes → ℕ → SkippedKeyId B
  skipped_key_id dh n = record { dh = Option.map p.to_base64 dh; n = n }

  unfoldable pub init_alice : Bytes → Bytes → Bytes → DoubleRatchetState B
  init_alice shared_key bob_dh_public_key random =
      let step = kdf_rk shared_key (p.get_shared_secret random bob_dh_public_key) in
      record {
        dhs = generate_key_pair random;
        dhr = some bob_dh_public_key;
        rk = step.0;
        cks = some step.1;
        ckr = none;
        ns = 0;
        nr = 0;
        pn = 0;
        mkskipped = [];
      }

  unfoldable pub init_bob : Bytes → KeyPair → DoubleRatchetState B
  init_bob shared_key bob_key_pair = record {
    dhs = bob_key_pair;
    dhr = none;
    rk = shared_key;
    cks = none;
    ckr = none;
    ns = 0;
    nr = 0;
    pn = 0;
    mkskipped = [];
  }

  -- One round of the loop of `skipMessageKeys`, at the chain key `ck`.
  abbrev pub skip_one : DoubleRatchetState B → Bytes → DoubleRatchetState B
  skip_one s ck = record s {
    ckr = some (kdf_ck ck).0;
    mkskipped = prune_skipped_keys (set_key (skipped_key_id s.dhr s.nr) (kdf_ck ck).1 s.mkskipped);
    nr = s.nr + 1;
  }

  -- Its loop, which runs `until - nr` times.
  abbrev pub skip_rounds : ℕ → DoubleRatchetState B → Bytes → DoubleRatchetState B
  skip_rounds zero s ck = s
  skip_rounds (suc k) s ck = skip_rounds k (skip_one s ck) (kdf_ck ck).0

  abbrev pub skip_from : DoubleRatchetState B → ℕ → Option Bytes → DoubleRatchetState B
  skip_from s until none = s
  skip_from s until (some ck) = skip_rounds (until - s.nr) s ck

  unfoldable pub skip_message_keys : DoubleRatchetState B → ℕ → Option (DoubleRatchetState B)
  skip_message_keys s until =
      if ltb (s.nr + max_skip) until then none else some (skip_from s until s.ckr)

  abbrev pub encrypt_at :
      DoubleRatchetState B
      → T
      → Bytes
      → Bytes
      → Option Bytes
      → Option (EncryptedMessagePayload B × DoubleRatchetState B)
  encrypt_at s plaintext ad iv none = none
  encrypt_at s plaintext ad iv (some ck) = some (
    record {
      dh = p.to_base64 s.dhs.public_key;
      pn = s.pn;
      n = s.ns;
      ciphertext = p.to_base64 (p.aes_gcm_encrypt (kdf_ck ck).1 iv ad (p.encode plaintext));
      iv = p.to_base64 iv;
    },
    record s { cks = some (kdf_ck ck).0; ns = s.ns + 1 },
  )

  unfoldable pub ratchet_encrypt :
      DoubleRatchetState B
      → T
      → Bytes
      → Bytes
      → Option (EncryptedMessagePayload B × DoubleRatchetState B)
  ratchet_encrypt s plaintext ad iv = encrypt_at s plaintext ad iv s.cks

  abbrev pub text_of : Option Bytes → Decrypted T
  text_of none = failed
  text_of (some bytes) = decrypted (p.decode bytes)

  abbrev pub decrypt_with : Bytes → EncryptedMessagePayload B → Bytes → Decrypted T
  decrypt_with mk m ad =
      text_of (p.aes_gcm_decrypt mk (p.from_base64 m.iv) ad (p.from_base64 m.ciphertext))

  -- The receiving and the sending half of a DH ratchet step to the peer's new key.
  abbrev pub dh_ratchet : DoubleRatchetState B → Bytes → Bytes → DoubleRatchetState B
  dh_ratchet s header_dh random =
      let receiving = kdf_rk s.rk (p.get_shared_secret s.dhs.private_key header_dh) in
      let sending = kdf_rk receiving.0 (p.get_shared_secret random header_dh) in
      record s {
        dhs = generate_key_pair random;
        dhr = some header_dh;
        rk = sending.0;
        cks = some sending.1;
        ckr = some receiving.1;
        pn = s.ns;
        ns = 0;
        nr = 0;
      }

  abbrev pub receive_at :
      DoubleRatchetState B
      → EncryptedMessagePayload B
      → Bytes
      → Option Bytes
      → Decrypted T × DoubleRatchetState B
  receive_at s m ad none = (failed, s)
  receive_at s m ad (some ck) =
      (decrypt_with (kdf_ck ck).1 m ad, record s { ckr = some (kdf_ck ck).0; nr = s.nr + 1 })

  abbrev pub receive_skipped :
      DoubleRatchetState B
      → EncryptedMessagePayload B
      → Bytes
      → Option (DoubleRatchetState B)
      → Decrypted T × DoubleRatchetState B
  receive_skipped s m ad none = (failed, s)
  receive_skipped s m ad (some s') = receive_at s' m ad s'.ckr

  abbrev pub receive :
      DoubleRatchetState B → EncryptedMessagePayload B → Bytes → Decrypted T × DoubleRatchetState B
  receive s m ad = receive_skipped s m ad (skip_message_keys s m.n)

  abbrev pub receive_ratcheted :
      DoubleRatchetState B
      → EncryptedMessagePayload B
      → Bytes
      → Bytes
      → Option (DoubleRatchetState B)
      → Decrypted T × DoubleRatchetState B
  receive_ratcheted s m ad random none = (failed, s)
  receive_ratcheted s m ad random (some s') =
      receive (dh_ratchet s' (p.from_base64 m.dh) random) m ad

  abbrev pub decrypt_or_receive :
      DoubleRatchetState B
      → EncryptedMessagePayload B
      → Bytes
      → Bytes
      → Option Bytes
      → Decrypted T × DoubleRatchetState B
  decrypt_or_receive s m ad random (some mk) = (
    decrypt_with mk m ad,
    record s {
      mkskipped = delete_key (skipped_key_id (some (p.from_base64 m.dh)) m.n) s.mkskipped;
    },
  )
  decrypt_or_receive s m ad random none =
      if dh_changed s.dhr (p.from_base64 m.dh)
      then receive_ratcheted s m ad random (skip_message_keys s m.pn)
      else receive s m ad

  unfoldable pub ratchet_decrypt :
      DoubleRatchetState B
      → EncryptedMessagePayload B
      → Bytes
      → Bytes
      → Decrypted T × DoubleRatchetState B
  ratchet_decrypt s m ad random =
      decrypt_or_receive s m ad random
        (get_key (skipped_key_id (some (p.from_base64 m.dh)) m.n) s.mkskipped)
