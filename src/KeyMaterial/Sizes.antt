-- ===== src/KeyMaterial/Sizes.antt =====
-- The texts that the schemas of key material accept.
use clicked.Prelude.{
  ℕ, ◌-◌, ◌*◌, ◌/◌, ◌%◌, ◌≡◌, ◌↔◌, refl, sym, ap, ◌∙◌, none, some, true, [], ◌∷◌, ◌==◌, length,
  arith, ◌⊎◌, Bool-cases, inl, inr,
}
use clicked.KeyMaterial.{
  Text, same_text, is_valid_base64, ends_with, padding_of, base64_byte_length,
  b64_length_refinement, key_issues, identity_public_key_issues,
}

pub same_text_refl : (s : Text) → same_text s s ≡ true
same_text_refl [] = refl
same_text_refl (c ∷ cs) = ground (arith, same_text_refl cs)

pub same_text-≡ : (s t : Text) → same_text s t ≡ true → s ≡ t
same_text-≡ [] [] e = refl
same_text-≡ [] (d ∷ ds) e = cc
same_text-≡ (c ∷ cs) [] e = cc
same_text-≡ (c ∷ cs) (d ∷ ds) e =
    let here : c ≡ d = ground arith in
    let rest : cs ≡ ds = same_text-≡ cs ds (ground arith) in ap (λ x. x ∷ cs) here ∙ ap (◌∷◌ d) rest

refinement-accepted_iff :
    (expected : ℕ) (val : Text)
    → (b64_length_refinement expected val ≡ []) ↔ (base64_byte_length val ≡ some expected)
unfolding b64_length_refinement base64_byte_length
refinement-accepted_iff expected val = elim (Bool-cases (is_valid_base64 val)) [
  | inr invalid ↦ rw invalid (λ e. cc, λ e. cc)
  | inl valid ↦ elim (Bool-cases (length val * 3 / 4 - padding_of val == expected)) [
    | inl right ↦
        let n : length val * 3 / 4 - padding_of val ≡ expected = ground arith in
        rw (valid, right) (λ e. ap some n, λ e. refl)
    | inr wrong ↦
        rw (valid, wrong)
          (
            λ e. cc,
            λ e. let n : length val * 3 / 4 - padding_of val ≡ expected = cc in ground arith,
          )
  ]
]

pub key_issues-refinement :
    (expected : ℕ) (val : Text)
    → (key_issues expected val ≡ []) ↔ (base64_byte_length val ≡ some expected)
unfolding key_issues base64_byte_length is_valid_base64
key_issues-refinement expected [] = (λ e. cc, λ e. cc)
key_issues-refinement expected (c ∷ cs) = refinement-accepted_iff expected (c ∷ cs)

padding_of-cases :
    (val : Text) → (padding_of val ≡ 0) ⊎ ((padding_of val ≡ 1) ⊎ (padding_of val ≡ 2))
padding_of-cases val = elim (Bool-cases (ends_with val (61 ∷ 61 ∷ []))) [
  | inl two ↦ inr (inr (rw two refl))
  | inr not_two ↦ elim (Bool-cases (ends_with val (61 ∷ []))) [
    | inl one ↦ inr (inl (rw (not_two, one) refl))
    | inr not_one ↦ inl (rw (not_two, not_one) refl)
  ]
]

pub base64_byte_length-valid :
    (val : Text) (n : ℕ)
    → base64_byte_length val ≡ some n
    → (length val % 4 ≡ 0) × (length val * 3 / 4 - padding_of val ≡ n)
unfolding base64_byte_length is_valid_base64
base64_byte_length-valid val n e = elim (Bool-cases (is_valid_base64 val)) [
  | inr invalid ↦
      let none_of : base64_byte_length val ≡ none = rw invalid refl in
      let clash : none ≡ some n = sym none_of ∙ e in cc
  | inl valid ↦
      let whole : (length val % 4 == 0) ≡ true = ground arith in
      let some_of : base64_byte_length val ≡ some (length val * 3 / 4 - padding_of val) =
        rw valid refl in
      let same : some (length val * 3 / 4 - padding_of val) ≡ some n = sym some_of ∙ e in
      (ground arith, cc)
]

-- An accepted identity key is a text of 60 characters with one of padding.
pub identity_public_key-shape :
    (val : Text) → identity_public_key_issues val ≡ [] → (length val ≡ 60) × (padding_of val ≡ 1)
identity_public_key-shape val e =
    let (whole, size) = base64_byte_length-valid val 44 ((key_issues-refinement 44 val).0 e) in
    elim (padding_of-cases val) [
      | inl none_there ↦ absurd (omega arith)
      | inr (inl one) ↦ (omega arith, one)
      | inr (inr two) ↦ absurd (omega arith)
    ]
