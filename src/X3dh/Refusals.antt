-- ===== src/X3dh/Refusals.antt =====
-- Which bundles and headers are refused.
use clicked.Prelude.{
  ◌≡◌, ◌↔◌, refl, ap, ◌∙◌, subst, Option, none, some, Bool, true, false, not, [], ◌==◌,
  if◌then◌else◌, length, arith,
}
use clicked.X3dh.{
  Bytes, Curves, IdentityKeyPair, OneTimePreKey, PreKeyBundle, X3dhSession, Outcome, done, refused,
  and_then, curve, signature_verification_failed, spki_length, drop, spki_to_raw_ed25519_public_key,
  decoded, from_base64, initiator_dh4, initiated, initiate_session,
}

and_then-done {ℓ ℓ'} :
    {A : Type ℓ} {A' : Type ℓ'} (o : Outcome A) (f : A → Outcome A') (x : A')
    → and_then o f ≡ done x
    → (a : A) × (o ≡ done a) × (f a ≡ done x)
and_then-done (done a) f x e = (a, refl, e)
and_then-done (refused r) f x e = cc

decoded-done : (o : Option Bytes) (bytes : Bytes) → decoded o ≡ done bytes → o ≡ some bytes
decoded-done none bytes e = cc
decoded-done (some b) bytes e = cc

-- A test that refuses when it fails.
checked-done {ℓ} :
    {A : Type ℓ} (b : Bool) (r : Outcome A) (o : Outcome A) (x : A)
    → ((y : A) → r ≡ done y → ⊥)
    → (if not b then r else o) ≡ done x
    → (b ≡ true) × (o ≡ done x)
checked-done true r o x never e = (refl, e)
checked-done false r o x never e = absurd (never x e)

spki_to_raw-done :
    (spki raw : Bytes)
    → spki_to_raw_ed25519_public_key spki ≡ done raw
    → (length spki ≡ 44) × (raw ≡ drop 12 spki)
unfolding spki_to_raw_ed25519_public_key
spki_to_raw-done spki raw e =
    let h =
      checked-done (length spki == 44) (refused (spki_length (length spki))) (done (drop 12 spki))
        raw (λ y z. cc) e in
    let right = h.1 in (ground arith, cc)

curve-done {ℓ} : {A : Type ℓ} (o : Option A) (x : A) → curve o ≡ done x → o ≡ some x
curve-done none x e = cc
curve-done (some a) x e = cc

valid-done {ℓ} :
    {A : Type ℓ} (b : Bool) (o : Outcome A) (x : A)
    → (if not b then refused signature_verification_failed else o) ≡ done x
    → (b ≡ true) × (o ≡ done x)
valid-done b o x e = checked-done b (refused signature_verification_failed) o x (λ y z. cc) e

module _ {B : Type 0} (c : Curves B) where
  -- The one-time prekey of a bundle, if it has one, is base64 of a key with which the ephemeral one
  -- has a shared secret.
  pub IsUsable : Bytes → Option (OneTimePreKey B) → Type 0
  IsUsable ephemeral none = Unit
  IsUsable ephemeral (some otp) =
      (key : Bytes) × (secret : Bytes) × (c.from_base64 otp.public_key ≡ some key)
      × (c.get_shared_secret ephemeral key ≡ some secret)

  -- The identity key has the length of an Ed25519 key in DER form, its signature of the signed prekey
  -- verifies, the keys are base64, and the curves have a shared secret for each pair of keys.
  pub record IsVerified (bundle : PreKeyBundle B) (mine : IdentityKeyPair) (ephemeral : Bytes)
      : Type 0 where
    pub spki : Bytes
    pub their_spk : Bytes
    pub signature : Bytes
    pub their_x : Bytes
    pub secret1 : Bytes
    pub secret2 : Bytes
    pub secret3 : Bytes
    pub identity_read : c.from_base64 bundle.identity_public_key ≡ some spki
    pub spk_read : c.from_base64 bundle.signed_pre_key.public_key ≡ some their_spk
    pub signature_read : c.from_base64 bundle.signed_pre_key.signature ≡ some signature
    pub identity_length : length spki ≡ 44
    pub verified : c.verify signature their_spk (drop 12 spki) ≡ some true
    pub converted : c.to_montgomery (drop 12 spki) ≡ some their_x
    pub identity_exchange :
        c.get_shared_secret (c.to_montgomery_secret mine.private_key) their_spk ≡ some secret1
    pub ephemeral_exchange : c.get_shared_secret ephemeral their_x ≡ some secret2
    pub prekey_exchange : c.get_shared_secret ephemeral their_spk ≡ some secret3
    pub one_time_exchange : IsUsable ephemeral bundle.one_time_pre_key

  IsUsable-of_dh4 :
      (ephemeral dh4 : Bytes) (one_time : Option (OneTimePreKey B))
      → initiator_dh4 c ephemeral one_time ≡ done dh4
      → IsUsable ephemeral one_time
  unfolding IsUsable
  IsUsable-of_dh4 ephemeral dh4 none e = tt
  IsUsable-of_dh4 ephemeral dh4 (some otp) e =
      let (key, read, exchange) =
        and_then-done (from_base64 c otp.public_key)
          (λ key. curve (c.get_shared_secret ephemeral key)) dh4 e in
      (
        key,
        dh4,
        decoded-done (c.from_base64 otp.public_key) key read,
        curve-done (c.get_shared_secret ephemeral key) dh4 exchange,
      )

  dh4_of_IsUsable :
      (ephemeral : Bytes) (one_time : Option (OneTimePreKey B))
      → IsUsable ephemeral one_time
      → (dh4 : Bytes) × (initiator_dh4 c ephemeral one_time ≡ done dh4)
  unfolding IsUsable
  dh4_of_IsUsable ephemeral none d = ([], refl)
  dh4_of_IsUsable ephemeral (some otp) (key, secret, read, exchange) =
      (secret, rw (read, exchange) refl)

  -- A session is established with exactly the bundles whose keys are base64, whose identity key has
  -- the right length and has signed the prekey, and whose keys the curves accept: the identity key
  -- converts, and each exchange, the one with an unsigned one-time prekey included, has a secret.
  -- Every other bundle is refused.
  pub initiate_session-established_iff :
      (bundle : PreKeyBundle B) (mine : IdentityKeyPair) (ephemeral : Bytes)
      → ((session : X3dhSession) × (initiate_session c bundle mine ephemeral ≡ done session))
        ↔ IsVerified bundle mine ephemeral
  unfolding initiate_session spki_to_raw_ed25519_public_key
  initiate_session-established_iff bundle mine ephemeral = (to, from)
    where
      to :
          (session : X3dhSession) × (initiate_session c bundle mine ephemeral ≡ done session)
          → IsVerified bundle mine ephemeral
      to (session, e) =
          let (spki, a, e1) = and_then-done _ _ session e in
          let (raw, b, e2) = and_then-done (spki_to_raw_ed25519_public_key spki) _ session e1 in
          let (their_spk, d, e3) = and_then-done _ _ session e2 in
          let (signature, f, e4) = and_then-done _ _ session e3 in
          let (valid, v, e5) = and_then-done _ _ session e4 in
          let (right, e6) = valid-done valid _ session e5 in
          let (their_x, x, e7) = and_then-done _ _ session e6 in
          let (dh1, k1, e8) = and_then-done _ _ session e7 in
          let (dh2, k2, e9) = and_then-done _ _ session e8 in
          let (dh3, k3, e10) = and_then-done _ _ session e9 in
          let (dh4, k4, e11) =
            and_then-done (initiator_dh4 c ephemeral bundle.one_time_pre_key) _ session e10 in
          let shape = spki_to_raw-done spki raw b in
          record {
            spki = spki;
            their_spk = their_spk;
            signature = signature;
            their_x = their_x;
            secret1 = dh1;
            secret2 = dh2;
            secret3 = dh3;
            identity_read = decoded-done _ spki a;
            spk_read = decoded-done _ their_spk d;
            signature_read = decoded-done _ signature f;
            identity_length = shape.0;
            verified =
                subst (λ k. c.verify signature their_spk k ≡ some true) shape.1
                  (curve-done _ valid v ∙ ap some right);
            converted =
                subst (λ k. c.to_montgomery k ≡ some their_x) shape.1 (curve-done _ their_x x);
            identity_exchange = curve-done _ dh1 k1;
            ephemeral_exchange = curve-done _ dh2 k2;
            prekey_exchange = curve-done _ dh3 k3;
            one_time_exchange = IsUsable-of_dh4 ephemeral dh4 bundle.one_time_pre_key k4;
          }

      from :
          IsVerified bundle mine ephemeral
          → (session : X3dhSession) × (initiate_session c bundle mine ephemeral ≡ done session)
      from v =
          let (dh4, last) = dh4_of_IsUsable ephemeral bundle.one_time_pre_key v.one_time_exchange in
          (
            initiated c bundle mine ephemeral (drop 12 v.spki) v.secret1 v.secret2 v.secret3 dh4,
            rw
                (
                  v.identity_read, v.identity_length, v.spk_read, v.signature_read, v.verified,
                  v.converted, v.identity_exchange, v.ephemeral_exchange, v.prekey_exchange, last,
                )
                refl,
          )
