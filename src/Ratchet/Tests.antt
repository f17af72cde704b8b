-- ===== src/Ratchet/Tests.antt =====
-- A platform of small numbers, and runs of the ratchet on it.
use clicked.Prelude.{
  ℕ, zero, suc, ◌+◌, ◌-◌, ◌*◌, ◌%◌, ◌≡◌, refl, sym, ap, ◌∙◌, Option, none, some, true, not, ◌&&◌,
  if◌then◌else◌, List, [], ◌∷◌, ltb, ◌==◌, has, arith,
}
use clicked.Ratchet.{
  Bytes, Platform, IsPlatform, DoubleRatchetState, EncryptedMessagePayload, decrypted, failed,
  same_bytes, kdf_rk, kdf_ck, init_alice, init_bob, generate_key_pair, ratchet_encrypt,
  ratchet_decrypt, skip_message_keys, decrypt_with,
}
use clicked.Ratchet.Keys.{same_bytes_refl}
use clicked.Ratchet.Chain.{chain_key, message_key, Tracks}
use clicked.Ratchet.Receiving.{IsSealed}
use clicked.Ratchet.Session.{pick, send_all, deliver, arrivals, texts_of}
use clicked.Ratchet.Turn.{Ready, turn, init-Ready}
use clicked.Ratchet.Replayed.{replay-Lost}

abbrev sum : Bytes → ℕ
sum [] = 0
sum (b ∷ bs) = b + sum bs

abbrev copies : ℕ → ℕ → Bytes
copies zero b = []
copies (suc n) b = b ∷ copies n b

-- Each pair of positions adds up.
abbrev blend : Bytes → Bytes → Bytes
blend [] bs = bs
blend (a ∷ az) [] = a ∷ az
blend (a ∷ az) (b ∷ bs) = (a + b) ∷ blend az bs

blend_comm : (a b : Bytes) → blend a b ≡ blend b a
blend_comm [] [] = refl
blend_comm [] (b ∷ bs) = refl
blend_comm (a ∷ az) [] = refl
blend_comm (a ∷ az) (b ∷ bs) = let e : a + b ≡ b + a = omega arith in rw (e, blend_comm az bs) refl

abbrev shift : ℕ → Bytes → Bytes
shift k [] = []
shift k (b ∷ bs) = (b + k) ∷ shift k bs

abbrev unshift : ℕ → Bytes → Bytes
unshift k [] = []
unshift k (b ∷ bs) = (b - k) ∷ unshift k bs

unshift-shift : (k : ℕ) (bs : Bytes) → unshift k (shift k bs) ≡ bs
unshift-shift k [] = refl
unshift-shift k (b ∷ bs) = let e : b + k - k ≡ b = omega arith in rw (e, unshift-shift k bs) refl

abbrev open_with : ℕ → Bytes → Option Bytes
open_with k [] = none
open_with k (c ∷ cs) = if c == k then some (unshift k cs) else none

open_with-shift : (k : ℕ) (bs : Bytes) → open_with k (k ∷ shift k bs) ≡ some bs
open_with-shift k bs = let e : (k == k) ≡ true = ground arith in rw (e, unshift-shift k bs) refl

-- A first byte that the key, the vector and the associated data determine stands for the tag.
unfoldable toy : Platform Bytes Bytes
toy = record {
  get_public_key = λ key. key;
  get_shared_secret = blend;
  hkdf = λ input salt info length. copies length ((sum input * 7 + sum salt * 3 + 1) % 251);
  aes_gcm_encrypt = λ key iv ad plaintext.
      (sum key + sum iv + sum ad) ∷ shift (sum key + sum iv + sum ad) plaintext;
  aes_gcm_decrypt = λ key iv ad ciphertext. open_with (sum key + sum iv + sum ad) ciphertext;
  to_base64 = λ bytes. bytes;
  from_base64 = λ text. text;
  same_text = same_bytes;
  encode = λ text. text;
  decode = λ bytes. bytes;
  encode_label = λ label. [];
}

same_bytes→≡ : (a b : Bytes) → same_bytes a b ≡ true → a ≡ b
same_bytes→≡ [] [] e = refl
same_bytes→≡ [] (b ∷ bs) e = cc
same_bytes→≡ (a ∷ az) [] e = cc
same_bytes→≡ (a ∷ az) (b ∷ bs) e =
    let head : a ≡ b = ground arith in let tail : az ≡ bs = same_bytes→≡ az bs (ground arith) in cc

toy-IsPlatform : IsPlatform toy
unfolding toy
toy-IsPlatform = record {
  shared_secret_comm = blend_comm;
  decrypt-encrypt = λ key iv ad plaintext. open_with-shift (sum key + sum iv + sum ad) plaintext;
  from-to_base64 = λ bytes. refl;
  same_text_iff = λ a b. (same_bytes→≡ a b, λ e. ap (same_bytes a) (sym e) ∙ same_bytes_refl a);
  decode-encode = λ t. refl;
}

abbrev alice : DoubleRatchetState Bytes
alice = init_alice toy (1 ∷ 2 ∷ []) (toy.get_public_key (5 ∷ 6 ∷ [])) (9 ∷ [])

abbrev bob : DoubleRatchetState Bytes
bob = init_bob toy (1 ∷ 2 ∷ []) (generate_key_pair toy (5 ∷ 6 ∷ []))

abbrev texts : List (Bytes × Bytes)
texts = ((10 ∷ []), (1 ∷ [])) ∷ ((20 ∷ 21 ∷ []), (2 ∷ [])) ∷ ((30 ∷ []), (3 ∷ [])) ∷ []

abbrev order : List (ℕ × Bytes)
order = (2, (13 ∷ [])) ∷ (0, (14 ∷ [])) ∷ []

abbrev sent : Option (List (EncryptedMessagePayload Bytes) × DoubleRatchetState Bytes)
sent = send_all toy alice [] texts

abbrev copies_sent :
    Option (List (EncryptedMessagePayload Bytes) × DoubleRatchetState Bytes)
    → List (EncryptedMessagePayload Bytes)
copies_sent none = []
copies_sent (some r) = r.0

-- The second message is lost, and the third arrives before the first.
out_of_order :
    (deliver toy bob [] (arrivals toy (copies_sent sent) order)).0
    ≡ decrypted (30 ∷ []) ∷ decrypted (10 ∷ []) ∷ []
unfolding toy init_alice init_bob kdf_rk kdf_ck pick send_all deliver arrivals ratchet_encrypt
    ratchet_decrypt skip_message_keys
out_of_order = refl

turn_example :
    (ms : List (EncryptedMessagePayload Bytes)) × (x' : DoubleRatchetState Bytes) × (ck' : Bytes)
    × (send_all toy alice [] texts ≡ some (ms, x'))
    × ((deliver toy bob [] (arrivals toy ms order)).0 ≡ texts_of toy texts order)
    × Ready toy (deliver toy bob [] (arrivals toy ms order)).1 x' ck'
unfolding toy init_alice init_bob
turn_example =
    turn toy toy-IsPlatform alice bob
      (init-Ready toy toy-IsPlatform (1 ∷ 2 ∷ []) (5 ∷ 6 ∷ []) (9 ∷ [])).0 [] texts 2 (13 ∷ [])
      ((0, (14 ∷ [])) ∷ []) (init-Ready toy toy-IsPlatform (1 ∷ 2 ∷ []) (5 ∷ 6 ∷ []) (9 ∷ [])).1
      (record { short = omega arith; previous = omega arith; room = omega arith })
      (record { unseen = refl; no_keys = λ i. refl }) (omega arith, (omega arith, tt)) refl

-- Bob has received the first message of Alice's chain that starts at `7`.
abbrev receiving : DoubleRatchetState Bytes
receiving = record {
  dhs = generate_key_pair toy (5 ∷ []);
  dhr = some (9 ∷ []);
  rk = [];
  cks = none;
  ckr = some (chain_key toy (7 ∷ []) 1);
  ns = 0;
  nr = 1;
  pn = 0;
  mkskipped = [];
}

abbrev first_message : EncryptedMessagePayload Bytes
first_message = record {
  dh = 9 ∷ [];
  pn = 0;
  n = 0;
  ciphertext = toy.aes_gcm_encrypt (message_key toy (7 ∷ []) 0) (1 ∷ []) [] (10 ∷ []);
  iv = 1 ∷ [];
}

abbrev second_message : EncryptedMessagePayload Bytes
second_message = record {
  dh = 9 ∷ [];
  pn = 0;
  n = 1;
  ciphertext = toy.aes_gcm_encrypt (message_key toy (7 ∷ []) 1) (2 ∷ []) [] (20 ∷ []);
  iv = 2 ∷ [];
}

receiving-Tracks : Tracks toy 3 (9 ∷ []) (7 ∷ []) (0 ∷ []) receiving
receiving-Tracks = record {
  dhr = refl;
  ckr = refl;
  keys = λ i. nothing_skipped i;
  past = (omega arith, tt);
  reached = omega arith;
  room = omega arith;
}
  where
    nothing_skipped :
        (i : ℕ)
        → ◌≡◌ {A = Option Bytes} none
            (if ltb i 1 && not (has i (0 ∷ [])) then some (message_key toy (7 ∷ []) i) else none)
    nothing_skipped i = ground arith

second_message-IsSealed : IsSealed toy (9 ∷ []) (7 ∷ []) 1 (20 ∷ []) [] second_message
unfolding toy kdf_ck chain_key
second_message-IsSealed = record { of_chain = refl; number = refl; opens = refl }

replay-Lost_example :
    ((ratchet_decrypt toy receiving second_message [] []).0 ≡ decrypted (20 ∷ []))
    × ((deliver toy receiving [] ((first_message, []) ∷ (second_message, []) ∷ [])).0
        ≡ decrypt_with toy (message_key toy (7 ∷ []) 1) first_message [] ∷ failed ∷ [])
unfolding toy kdf_ck chain_key
replay-Lost_example =
    replay-Lost toy toy-IsPlatform 3 (9 ∷ []) (7 ∷ []) (0 ∷ []) receiving first_message
      second_message (20 ∷ []) [] [] [] receiving-Tracks (omega arith) (omega arith) refl refl
      second_message-IsSealed refl
