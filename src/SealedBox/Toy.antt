-- ===== src/SealedBox/Toy.antt =====
-- A platform of small numbers, for tests.
use clicked.Prelude.{
  ℕ, zero, suc, ◌+◌, ◌≡◌, refl, ap, Option, none, some, [], ◌∷◌, ◌++◌, length, ◌==◌, if◌then◌else◌,
  ==_refl, arith,
}
use clicked.KeyMaterial.{Text, Bytes, base64_byte_length, is_valid_base64}
use clicked.SealedBox.{Subtle, IsSubtle, zeros}

abbrev pub sum : Bytes → ℕ
sum [] = 0
sum (b ∷ bs) = b + sum bs

abbrev pub sized : Option ℕ → Option Bytes
sized none = none
sized (some n) = some (zeros n)

-- Encoded bytes begin with a character that is not base64, so that other texts can decode by size.
abbrev pub decoded : Text → Option Bytes
decoded [] = none
decoded (zero ∷ bs) = some bs
decoded (suc c ∷ cs) = sized (base64_byte_length (suc c ∷ cs))

abbrev pub open_with : ℕ → Bytes → Option Bytes
open_with k [] = none
open_with k (b ∷ bs) = if b == k then some bs else none

unfoldable pub toy : Subtle Bytes Bytes
toy = record {
  atob = decoded;
  btoa = λ bytes. 0 ∷ bytes;
  import_raw = λ raw. some raw;
  import_spki = λ raw. some raw;
  export_raw = λ key. 4 ∷ zeros 64;
  derive_ecdh = λ key private_key. key ++ private_key;
  derive_hkdf = λ material salt info. material;
  aes_gcm_encrypt = λ key iv plaintext. (sum key + sum iv) ∷ plaintext;
  aes_gcm_decrypt = λ key iv ciphertext. open_with (sum key + sum iv) ciphertext;
  encode = λ text. text;
  decode = λ bytes. bytes;
  encode_label = λ label. [];
}

length-zeros : (n : ℕ) → length (zeros n) ≡ n
length-zeros zero = refl
length-zeros (suc n) = omega (arith, length-zeros n)

decoded-length :
    (s : Text) (n : ℕ)
    → base64_byte_length s ≡ some n
    → (bytes : Bytes) × (decoded s ≡ some bytes) × (length bytes ≡ n)
unfolding base64_byte_length is_valid_base64
decoded-length [] n e = cc
decoded-length (zero ∷ cs) n e = cc
decoded-length (suc c ∷ cs) n e = (zeros n, ap sized e, length-zeros n)

pub toy-IsSubtle : IsSubtle toy
unfolding toy
toy-IsSubtle = record {
  atob-length = decoded-length;
  atob-btoa = λ bytes. refl;
  export_raw-point = λ key. (zeros 64, refl, refl);
  decrypt-encrypt = λ key iv plaintext. rw (==_refl (sum key + sum iv)) refl;
  decode-encode = λ s. refl;
}
