-- ===== src/X3dh/Tests.antt =====
-- Curves of small numbers, and sessions on them.
use clicked.Prelude.{
  ℕ, ◌+◌, ◌%◌, ◌≡◌, ◌↔◌, refl, ap, none, some, [], ◌∷◌, ◌==◌, if◌then◌else◌, arith,
}
use clicked.X3dh.{
  Bytes, Curves, IsCurves, IdentityKeyPair, SignedPreKeyPair, PreKeyBundle, X3dhSession, done,
  refused, curve_error, missing_one_time_pre_key, signature_verification_failed, copies,
  generate_identity_key_pair, generate_signed_pre_key, raw_ed25519_public_key_to_spki,
  spki_to_raw_ed25519_public_key, initiate_session, complete_session,
}
use clicked.X3dh.Agreement.{published, header_of, drawn, initiate_session-complete_session}
use clicked.X3dh.Refusals.{IsVerified, initiate_session-established_iff}

abbrev sum : Bytes → ℕ
sum [] = 0
sum (b ∷ bs) = b + sum bs

abbrev head : Bytes → ℕ
head [] = 0
head (b ∷ bs) = b

unfoldable toy : Curves Bytes
toy = record {
  ed_public_key = λ key. copies 32 (sum key);
  sign = λ message key. (sum message + sum key) ∷ [];
  verify = λ signature message public_key. some (sum signature == sum message + head public_key);
  to_montgomery_secret = λ key. sum key ∷ [];
  to_montgomery = λ public_key. some (7 ∷ head public_key ∷ []);
  x_public_key = λ key. 7 ∷ key;
  get_shared_secret = λ private_key public_key.
      if head public_key == 7 then some ((sum private_key + sum public_key) ∷ []) else none;
  hkdf = λ input salt info length. copies length (sum input % 251);
  to_base64 = λ bytes. bytes;
  from_base64 = λ text. some text;
  encode_label = λ label. [];
}

toy-IsCurves : IsCurves toy
unfolding toy
toy-IsCurves = record {
  shared_secret = λ a b.
      let e : sum b + (7 + sum a) ≡ sum a + (7 + sum b) = omega arith in
      ((sum a + (7 + sum b)) ∷ [], refl, ap (λ n. some (n ∷ [])) e);
  montgomery-public_key = λ key. refl;
  length-ed_public_key = λ key. refl;
  verify-sign = λ message key. ground arith;
  from-to_base64 = λ bytes. refl;
}

abbrev alice : IdentityKeyPair
alice = generate_identity_key_pair toy (1 ∷ 2 ∷ [])

abbrev bob : IdentityKeyPair
bob = generate_identity_key_pair toy (3 ∷ 4 ∷ [])

abbrev signed : SignedPreKeyPair
signed = generate_signed_pre_key toy bob 7 (5 ∷ 6 ∷ [])

abbrev bundle : PreKeyBundle Bytes
bundle = published toy 40 none bob signed (drawn toy (some (8, (9 ∷ []))))

initiate_session-complete_session_example :
    (session : X3dhSession) × (initiate_session toy bundle alice (11 ∷ []) ≡ done session)
    × (complete_session toy
          (header_of toy alice signed session)
          bob
          signed
          (drawn toy (some (8, (9 ∷ []))))
        ≡ done session)
initiate_session-complete_session_example =
    initiate_session-complete_session toy toy-IsCurves (1 ∷ 2 ∷ []) (3 ∷ 4 ∷ []) (5 ∷ 6 ∷ [])
      (11 ∷ []) 7 40 none (some (8, (9 ∷ [])))

initiate_session-established_iff_example :
    ((session : X3dhSession) × (initiate_session toy bundle alice (11 ∷ []) ≡ done session))
    ↔ IsVerified toy bundle alice (11 ∷ [])
initiate_session-established_iff_example =
    initiate_session-established_iff toy bundle alice (11 ∷ [])

-- A one-time prekey that the curve does not accept is unsigned, and stops the session.
useless :
    initiate_session toy
      (record bundle { one_time_pre_key = some (record { key_id = 8; public_key = 6 ∷ [] }) })
      alice
      (11 ∷ [])
    ≡ refused curve_error
unfolding toy initiate_session generate_identity_key_pair generate_signed_pre_key
    raw_ed25519_public_key_to_spki spki_to_raw_ed25519_public_key
useless = refl

-- A signature by another identity is refused.
forged :
    initiate_session toy (published toy 40 none alice signed none) alice (11 ∷ [])
    ≡ refused signature_verification_failed
unfolding toy initiate_session generate_identity_key_pair generate_signed_pre_key
    raw_ed25519_public_key_to_spki spki_to_raw_ed25519_public_key
forged = refl

-- Without the one-time prekey that was used, the responder refuses.
consumed :
    (session : X3dhSession)
    → session.used_one_time_pre_key_id ≡ some 8
    → complete_session toy (header_of toy alice signed session) bob signed none
      ≡ refused missing_one_time_pre_key
unfolding complete_session
consumed session e = rw e refl
