-- ===== src/X3dh.antt =====
-- Session establishment by X3DH (apps/web/src/lib/x3dh.ts). The curves, HKDF and base64 are
-- libraries: `Curves` has their functions and `IsCurves` what they document. Random private keys are
-- arguments, of the length that the curves have; an exception is the result `refused` with its reason.
-- The curves give nothing where they throw, for a public key of another length, one that is no point,
-- or one of low order.
pub mod Agreement
pub mod Refusals
mod Tests
use Prim.Native.String.{String}
use mathlib.Core.Option
use clicked.Prelude.{
  ℕ, zero, suc, ◌+◌, ◌≡◌, Option, none, some, Bool, true, false, not, ◌&&◌, List, [], ◌∷◌, ◌++◌,
  ◌==◌, if◌then◌else◌, length,
}

abbrev pub Bytes : Type 0
Bytes = List ℕ

-- `B` is base64 text.
pub record Curves (B : Type 0) : Type 0 where
  pub ed_public_key : Bytes → Bytes
  pub sign : (message private_key : Bytes) → Bytes
  pub verify : (signature message public_key : Bytes) → Option Bool
  pub to_montgomery_secret : Bytes → Bytes
  pub to_montgomery : Bytes → Option Bytes
  pub x_public_key : Bytes → Bytes
  pub get_shared_secret : (private_key public_key : Bytes) → Option Bytes
  pub hkdf : (input : Bytes) → (salt : Option Bytes) → (info : Bytes) → (length : ℕ) → Bytes
  pub to_base64 : Bytes → B
  pub from_base64 : B → Option Bytes
  pub encode_label : String → Bytes

pub record IsCurves {B : Type 0} (c : Curves B) : Type 0 where
  -- Two key pairs have one shared secret, which either side computes.
  pub shared_secret :
      (a b : Bytes)
      → (secret : Bytes) × (c.get_shared_secret a (c.x_public_key b) ≡ some secret)
        × (c.get_shared_secret b (c.x_public_key a) ≡ some secret)
  pub montgomery-public_key :
      (key : Bytes)
      → c.to_montgomery (c.ed_public_key key) ≡ some (c.x_public_key (c.to_montgomery_secret key))
  pub length-ed_public_key : (key : Bytes) → length (c.ed_public_key key) ≡ 32
  pub verify-sign :
      (message key : Bytes)
      → c.verify (c.sign message key) message (c.ed_public_key key) ≡ some true
  pub from-to_base64 : (bytes : Bytes) → c.from_base64 (c.to_base64 bytes) ≡ some bytes

pub record IdentityKeyPair : Type 0 where
  pub private_key : Bytes
  pub public_key : Bytes

pub record PreKeyPair : Type 0 where
  pub key_id : ℕ
  pub private_key : Bytes
  pub public_key : Bytes

pub record SignedPreKeyPair : Type 0 where
  pub pair : PreKeyPair
  pub signature : Bytes

pub record SignedPreKey (B : Type 0) : Type 0 where
  pub key_id : ℕ
  pub public_key : B
  pub signature : B

pub record OneTimePreKey (B : Type 0) : Type 0 where
  pub key_id : ℕ
  pub public_key : B

pub record PreKeyBundle (B : Type 0) : Type 0 where
  pub device_id : ℕ
  pub identity_public_key : B
  pub registration_id : Option ℕ
  pub signed_pre_key : SignedPreKey B
  pub one_time_pre_key : Option (OneTimePreKey B)

pub record X3dhSession : Type 0 where
  pub session_key : Bytes
  pub associated_data : Bytes
  pub ephemeral_public_key : Bytes
  pub used_one_time_pre_key_id : Option ℕ

pub record InitialMessageHeader (B : Type 0) : Type 0 where
  pub sender_identity_public_key : B
  pub ephemeral_public_key : B
  pub used_signed_pre_key_id : ℕ
  pub used_one_time_pre_key_id : Option ℕ

pub data Refusal : Type 0 where
  malformed_base64 : Refusal
  spki_length : ℕ → Refusal
  signature_verification_failed : Refusal
  missing_one_time_pre_key : Refusal
  curve_error : Refusal

pub data Outcome {ℓ} (A : Type ℓ) : Type ℓ where
  done : A → Outcome A
  refused : Refusal → Outcome A

abbrev pub and_then {ℓ ℓ'} :
    {A : Type ℓ} → {A' : Type ℓ'} → Outcome A → (A → Outcome A') → Outcome A'
and_then (done a) f = f a
and_then (refused r) f = refused r

abbrev pub ed25519_spki_header : Bytes
ed25519_spki_header = 48 ∷ 42 ∷ 48 ∷ 5 ∷ 6 ∷ 3 ∷ 43 ∷ 101 ∷ 112 ∷ 3 ∷ 33 ∷ 0 ∷ []

abbrev pub copies : ℕ → ℕ → Bytes
copies zero b = []
copies (suc n) b = b ∷ copies n b

abbrev pub drop : ℕ → Bytes → Bytes
drop zero bs = bs
drop (suc n) [] = []
drop (suc n) (b ∷ bs) = drop n bs

unfoldable pub raw_ed25519_public_key_to_spki : Bytes → Bytes
raw_ed25519_public_key_to_spki raw = ed25519_spki_header ++ raw

unfoldable pub spki_to_raw_ed25519_public_key : Bytes → Outcome Bytes
spki_to_raw_ed25519_public_key spki =
    if not (length spki == length ed25519_spki_header + 32)
    then refused (spki_length (length spki))
    else done (drop (length ed25519_spki_header) spki)

abbrev pub decoded : Option Bytes → Outcome Bytes
decoded none = refused malformed_base64
decoded (some bytes) = done bytes

-- The exceptions of the curves.
abbrev pub curve {ℓ} : {A : Type ℓ} → Option A → Outcome A
curve none = refused curve_error
curve (some a) = done a

module _ {B : Type 0} (c : Curves B) where
  abbrev pub from_base64 : B → Outcome Bytes
  from_base64 b64 = decoded (c.from_base64 b64)

  unfoldable pub generate_identity_key_pair : Bytes → IdentityKeyPair
  generate_identity_key_pair random = record {
    private_key = random;
    public_key = c.ed_public_key random;
  }

  unfoldable pub generate_signed_pre_key : IdentityKeyPair → ℕ → Bytes → SignedPreKeyPair
  generate_signed_pre_key identity key_id random = record {
    pair = record { key_id = key_id; private_key = random; public_key = c.x_public_key random };
    signature = c.sign (c.x_public_key random) identity.private_key;
  }

  -- One key for each of the random private keys.
  unfoldable pub generate_one_time_pre_keys : ℕ → List Bytes → List PreKeyPair
  generate_one_time_pre_keys start_key_id [] = []
  generate_one_time_pre_keys start_key_id (random ∷ rest) =
      record { key_id = start_key_id; private_key = random; public_key = c.x_public_key random }
      ∷ generate_one_time_pre_keys (start_key_id + 1) rest

  abbrev pub derive_session_key : Bytes → Bytes
  derive_session_key dh_concat = c.hkdf (copies 32 255 ++ dh_concat) none (c.encode_label "X3DH") 32

  -- The fourth exchange, if the bundle has a one-time prekey.
  abbrev pub initiator_dh4 : Bytes → Option (OneTimePreKey B) → Outcome Bytes
  initiator_dh4 ephemeral none = done []
  initiator_dh4 ephemeral (some otp) =
      and_then (from_base64 otp.public_key)
        (λ public_key. curve (c.get_shared_secret ephemeral public_key))

  -- The session that the four exchanges give.
  abbrev pub initiated :
      PreKeyBundle B
      → IdentityKeyPair
      → Bytes
      → (their_identity dh1 dh2 dh3 dh4 : Bytes) → X3dhSession
  initiated bundle mine ephemeral their_identity dh1 dh2 dh3 dh4 = record {
    session_key = derive_session_key (dh1 ++ (dh2 ++ (dh3 ++ dh4)));
    associated_data = mine.public_key ++ their_identity;
    ephemeral_public_key = c.x_public_key ephemeral;
    used_one_time_pre_key_id = Option.map (λ otp. otp.key_id) bundle.one_time_pre_key;
  }

  abbrev pub initiate_with :
      PreKeyBundle B
      → IdentityKeyPair
      → Bytes
      → (their_identity their_spk : Bytes) → Outcome X3dhSession
  initiate_with bundle mine ephemeral their_identity their_spk =
      and_then (curve (c.to_montgomery their_identity)) (λ their_x.
        and_then (curve (c.get_shared_secret (c.to_montgomery_secret mine.private_key) their_spk))
          (λ dh1. and_then (curve (c.get_shared_secret ephemeral their_x)) (λ dh2.
            and_then (curve (c.get_shared_secret ephemeral their_spk)) (λ dh3.
              and_then (initiator_dh4 ephemeral bundle.one_time_pre_key)
                (λ dh4. done (initiated bundle mine ephemeral their_identity dh1 dh2 dh3 dh4))))))

  unfoldable pub initiate_session : PreKeyBundle B → IdentityKeyPair → Bytes → Outcome X3dhSession
  initiate_session bundle mine ephemeral =
      and_then (from_base64 bundle.identity_public_key) (λ spki.
        and_then (spki_to_raw_ed25519_public_key spki) (λ their_identity.
          and_then (from_base64 bundle.signed_pre_key.public_key) (λ their_spk.
            and_then (from_base64 bundle.signed_pre_key.signature) (λ signature.
              and_then (curve (c.verify signature their_spk their_identity)) (λ valid.
                if not valid
                then refused signature_verification_failed
                else initiate_with bundle mine ephemeral their_identity their_spk)))))

  -- Whether the one-time prekey that the header names is at hand.
  abbrev pub has_one_time_pre_key : Option ℕ → Option PreKeyPair → Bool
  has_one_time_pre_key none mine = true
  has_one_time_pre_key (some used) none = false
  has_one_time_pre_key (some used) (some mine) = mine.key_id == used

  abbrev pub responder_dh4 : Option ℕ → Option PreKeyPair → Bytes → Outcome Bytes
  responder_dh4 none mine their_ephemeral = done []
  responder_dh4 (some used) none their_ephemeral = done []
  responder_dh4 (some used) (some mine) their_ephemeral =
      curve (c.get_shared_secret mine.private_key their_ephemeral)

  abbrev pub complete_with :
      InitialMessageHeader B
      → IdentityKeyPair
      → SignedPreKeyPair
      → Option PreKeyPair
      → (their_identity their_ephemeral : Bytes) → Outcome X3dhSession
  complete_with header mine my_signed my_one_time their_identity their_ephemeral =
      and_then (curve (c.to_montgomery their_identity)) (λ their_x.
        and_then (curve (c.get_shared_secret my_signed.pair.private_key their_x)) (λ dh1.
          and_then
            (curve (c.get_shared_secret (c.to_montgomery_secret mine.private_key) their_ephemeral))
            (λ dh2.
              and_then (curve (c.get_shared_secret my_signed.pair.private_key their_ephemeral))
                (λ dh3.
                  and_then
                    (responder_dh4 header.used_one_time_pre_key_id my_one_time their_ephemeral)
                    (λ dh4. done (record {
                      session_key = derive_session_key (dh1 ++ (dh2 ++ (dh3 ++ dh4)));
                      associated_data = their_identity ++ mine.public_key;
                      ephemeral_public_key = their_ephemeral;
                      used_one_time_pre_key_id = header.used_one_time_pre_key_id;
                    }))))))

  unfoldable pub complete_session :
      InitialMessageHeader B
      → IdentityKeyPair
      → SignedPreKeyPair
      → Option PreKeyPair
      → Outcome X3dhSession
  complete_session header mine my_signed my_one_time =
      if not (has_one_time_pre_key header.used_one_time_pre_key_id my_one_time)
      then refused missing_one_time_pre_key
      else and_then (from_base64 header.sender_identity_public_key) (λ spki.
        and_then (spki_to_raw_ed25519_public_key spki) (λ their_identity.
          and_then (from_base64 header.ephemeral_public_key) (λ their_ephemeral.
            complete_with header mine my_signed my_one_time their_identity their_ephemeral)))
