-- ===== src/X3dh/Agreement.antt =====
-- That both sides of X3DH derive the same session.
use mathlib.Core.Option
use clicked.Prelude.{ℕ, ◌≡◌, refl, ◌∙◌, Option, none, some, true, [], ◌++◌, length, arith}
use clicked.X3dh.{
  Bytes, Curves, IsCurves, IdentityKeyPair, PreKeyPair, SignedPreKeyPair, OneTimePreKey,
  PreKeyBundle, X3dhSession, InitialMessageHeader, done, raw_ed25519_public_key_to_spki,
  spki_to_raw_ed25519_public_key, from_base64, generate_identity_key_pair, generate_signed_pre_key,
  derive_session_key, initiator_dh4, initiate_with, initiate_session, has_one_time_pre_key,
  responder_dh4, complete_with, complete_session,
}

-- The DER form of a raw key of 32 bytes is read back as that key.
pub spki_to_raw-raw_to_spki :
    (raw : Bytes)
    → length raw ≡ 32
    → spki_to_raw_ed25519_public_key (raw_ed25519_public_key_to_spki raw) ≡ done raw
unfolding spki_to_raw_ed25519_public_key raw_ed25519_public_key_to_spki
spki_to_raw-raw_to_spki raw h = rw h refl

module _ {B : Type 0} (c : Curves B) where
  -- The bundle that a device publishes, with the public halves of its prekeys.
  abbrev pub published_one_time : PreKeyPair → OneTimePreKey B
  published_one_time pair = record {
    key_id = pair.key_id;
    public_key = c.to_base64 pair.public_key;
  }

  abbrev pub published :
      ℕ → Option ℕ → IdentityKeyPair → SignedPreKeyPair → Option PreKeyPair → PreKeyBundle B
  published device_id registration_id identity signed one_time = record {
    device_id = device_id;
    identity_public_key = c.to_base64 (raw_ed25519_public_key_to_spki identity.public_key);
    registration_id = registration_id;
    signed_pre_key = record {
      key_id = signed.pair.key_id;
      public_key = c.to_base64 signed.pair.public_key;
      signature = c.to_base64 signed.signature;
    };
    one_time_pre_key = Option.map published_one_time one_time;
  }

  -- The header of the initiator's first message.
  abbrev pub header_of : IdentityKeyPair → SignedPreKeyPair → X3dhSession → InitialMessageHeader B
  header_of identity their_signed session = record {
    sender_identity_public_key = c.to_base64 (raw_ed25519_public_key_to_spki identity.public_key);
    ephemeral_public_key = c.to_base64 session.ephemeral_public_key;
    used_signed_pre_key_id = their_signed.pair.key_id;
    used_one_time_pre_key_id = session.used_one_time_pre_key_id;
  }

  -- The one-time prekey of a key id and a random private key.
  abbrev pub drawn : Option (ℕ × Bytes) → Option PreKeyPair
  drawn none = none
  drawn (some (key_id, random)) =
      some (record { key_id = key_id; private_key = random; public_key = c.x_public_key random })

  module _ (law : IsCurves c) where
    from-to_base64 : (bytes : Bytes) → from_base64 c (c.to_base64 bytes) ≡ done bytes
    from-to_base64 bytes = rw (law.from-to_base64 bytes) refl

    module _ (identity random : Bytes) (key_id : ℕ) where
      abbrev bob : IdentityKeyPair
      bob = generate_identity_key_pair c identity

      abbrev signed : SignedPreKeyPair
      signed = generate_signed_pre_key c bob key_id random

      initiate_session-published :
          (device_id : ℕ) (registration_id : Option ℕ) (mine : IdentityKeyPair)
          (one_time : Option PreKeyPair) (ephemeral : Bytes)
          → initiate_session c
              (published device_id registration_id bob signed one_time)
              mine
              ephemeral
            ≡ initiate_with c
                (published device_id registration_id bob signed one_time)
                mine
                ephemeral
                (c.ed_public_key identity)
                (c.x_public_key random)
      unfolding initiate_session generate_identity_key_pair generate_signed_pre_key
      initiate_session-published device_id registration_id mine one_time ephemeral =
          rw
            (
              law.from-to_base64 (raw_ed25519_public_key_to_spki (c.ed_public_key identity)),
              spki_to_raw-raw_to_spki (c.ed_public_key identity)
                  (law.length-ed_public_key identity),
              law.from-to_base64 (c.x_public_key random),
              law.from-to_base64 (c.sign (c.x_public_key random) identity),
              law.verify-sign (c.x_public_key random) identity,
            )
            refl

      complete_session-header :
          (theirs ephemeral : Bytes) (session : X3dhSession) (one_time : Option PreKeyPair)
          → session.ephemeral_public_key ≡ c.x_public_key ephemeral
          → has_one_time_pre_key c session.used_one_time_pre_key_id one_time ≡ true
          → complete_session c
              (header_of (generate_identity_key_pair c theirs) signed session)
              bob
              signed
              one_time
            ≡ complete_with c
                (header_of (generate_identity_key_pair c theirs) signed session)
                bob
                signed
                one_time
                (c.ed_public_key theirs)
                (c.x_public_key ephemeral)
      unfolding complete_session generate_identity_key_pair
      complete_session-header theirs ephemeral session one_time e at_hand =
          rw
            (
              at_hand,
              law.from-to_base64 (raw_ed25519_public_key_to_spki (c.ed_public_key theirs)),
              spki_to_raw-raw_to_spki (c.ed_public_key theirs) (law.length-ed_public_key theirs),
              e,
              law.from-to_base64 (c.x_public_key ephemeral),
            )
            refl

    module _ (a b r e : Bytes) (key_id device_id : ℕ) (registration_id : Option ℕ) where
      abbrev alice : IdentityKeyPair
      alice = generate_identity_key_pair c a

      abbrev responder : IdentityKeyPair
      responder = generate_identity_key_pair c b

      abbrev prekey : SignedPreKeyPair
      prekey = generate_signed_pre_key c responder key_id r

      -- The first three secrets.
      abbrev dh1 : Bytes
      dh1 = (law.shared_secret (c.to_montgomery_secret a) r).0

      abbrev dh2 : Bytes
      dh2 = (law.shared_secret e (c.to_montgomery_secret b)).0

      abbrev dh3 : Bytes
      dh3 = (law.shared_secret e r).0

      abbrev session_with : Bytes → Option ℕ → X3dhSession
      session_with dh4 used = record {
        session_key = derive_session_key c (dh1 ++ (dh2 ++ (dh3 ++ dh4)));
        associated_data = c.ed_public_key a ++ c.ed_public_key b;
        ephemeral_public_key = c.x_public_key e;
        used_one_time_pre_key_id = used;
      }

      completed :
          (dh4 : Bytes) (used : Option ℕ) (one_time : Option PreKeyPair)
          → responder_dh4 c used one_time (c.x_public_key e) ≡ done dh4
          → has_one_time_pre_key c used one_time ≡ true
          → complete_session c
              (header_of alice prekey (session_with dh4 used))
              responder
              prekey
              one_time
            ≡ done (session_with dh4 used)
      unfolding generate_identity_key_pair generate_signed_pre_key
      completed dh4 used one_time same at_hand =
          complete_session-header b r key_id a e (session_with dh4 used) one_time refl at_hand
          ∙ rw
              (
                law.montgomery-public_key a,
                (law.shared_secret (c.to_montgomery_secret a) r).2,
                (law.shared_secret e (c.to_montgomery_secret b)).2,
                (law.shared_secret e r).2,
                same,
              )
              refl

      initiated_with :
          (dh4 : Bytes) (one_time : Option PreKeyPair)
          → initiator_dh4 c e (Option.map published_one_time one_time) ≡ done dh4
          → initiate_session c
              (published device_id registration_id responder prekey one_time)
              alice
              e
            ≡ done (
                session_with dh4
                  (Option.map (λ otp. otp.key_id) (Option.map published_one_time one_time)))
      unfolding generate_identity_key_pair
      initiated_with dh4 one_time last =
          initiate_session-published b r key_id device_id registration_id alice one_time e
          ∙ rw
              (
                law.montgomery-public_key b,
                (law.shared_secret (c.to_montgomery_secret a) r).1,
                (law.shared_secret e (c.to_montgomery_secret b)).1,
                (law.shared_secret e r).1,
                last,
              )
              refl

      -- The initiator establishes a session with the bundle that the responder has published, and the
      -- responder, given the header of the first message and the one-time prekey that was used,
      -- derives the same session: key, associated data and identifiers.
      pub initiate_session-complete_session :
          (one_time : Option (ℕ × Bytes))
          → (session : X3dhSession) × (initiate_session c
                (published device_id registration_id responder prekey (drawn one_time))
                alice
                e
              ≡ done session)
            × (complete_session c (header_of alice prekey session) responder prekey (drawn one_time)
                ≡ done session)
      initiate_session-complete_session none =
          (session_with [] none, initiated_with [] none refl, completed [] none none refl refl)
      initiate_session-complete_session (some (one_id, random)) =
          let (dh4, mine, theirs) = law.shared_secret e random in
          (
            session_with dh4 (some one_id),
            initiated_with dh4 (drawn (some (one_id, random)))
                (rw (law.from-to_base64 (c.x_public_key random), mine) refl),
            completed dh4 (some one_id) (drawn (some (one_id, random))) (rw theirs refl)
                (ground arith),
          )
