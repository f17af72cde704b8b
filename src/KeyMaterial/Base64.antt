-- ===== src/KeyMaterial/Base64.antt =====
-- What the texts that the schemas of key material accept look like.
use clicked.Prelude.{
  ℕ, zero, suc, ◌+◌, ◌-◌, ◌*◌, ◌/◌, ◌%◌, ◌≡◌, ◌≤◌, ◌<◌, ◌↔◌, ◌⊎◌, refl, sym, ap, ◌∙◌, none, some,
  true, false, [], ◌∷◌, ◌++◌, ◌==◌, leb, ◌&&◌, length, length-append, All, arith, Bool-cases, inl,
  inr,
}
use clicked.KeyMaterial.{
  Text, is_base64_character, is_blank, is_padding, is_body_and_padding, is_valid_base64, ends_with,
  padding_of, base64_byte_length, key_issues,
}
use clicked.KeyMaterial.Sizes.{base64_byte_length-valid, key_issues-refinement}

-- An upper-case or lower-case letter, a digit, `+` or `/`.
abbrev pub IsBase64Character : ℕ → Type 0
IsBase64Character c =
    ((65 ≤ c) × (c ≤ 90))
    ⊎ (((97 ≤ c) × (c ≤ 122)) ⊎ (((48 ≤ c) × (c ≤ 57)) ⊎ ((c ≡ 43) ⊎ (c ≡ 47))))

abbrev pub equals_signs : ℕ → Text
equals_signs zero = []
equals_signs (suc n) = 61 ∷ equals_signs n

-- Base64 of `n` bytes: whole groups of four characters, the last with up to two signs of padding, each
-- group for three bytes and each sign for one byte less.
pub record IsBase64Of (n : ℕ) (val : Text) : Type 0 where
  body : Text
  padding : ℕ
  groups : ℕ
  text : val ≡ body ++ equals_signs padding
  characters : All IsBase64Character body
  little : padding ≤ 2
  some_group : 0 < groups
  whole : length body + padding ≡ 4 * groups
  bytes : n + padding ≡ 3 * groups

character_of_test : (c : ℕ) → is_base64_character c ≡ true → IsBase64Character c
character_of_test c e = elim (Bool-cases (leb 65 c && leb c 90)) [
  | inl upper ↦ inl (ground arith, ground arith)
  | inr not_upper ↦ elim (Bool-cases (leb 97 c && leb c 122)) [
    | inl lower ↦ inr (inl (ground arith, ground arith))
    | inr not_lower ↦ elim (Bool-cases (leb 48 c && leb c 57)) [
      | inl digit ↦ inr (inr (inl (ground arith, ground arith)))
      | inr not_digit ↦ elim (Bool-cases (c == 43)) [
        | inl plus ↦ inr (inr (inr (inl (ground arith))))
        | inr not_plus ↦ inr (inr (inr (inr (ground arith))))
      ]
    ]
  ]
]

test_of_character : (c : ℕ) → IsBase64Character c → is_base64_character c ≡ true
test_of_character c (inl (a, b)) = ground arith
test_of_character c (inr (inl (a, b))) = ground arith
test_of_character c (inr (inr (inl (a, b)))) = ground arith
test_of_character c (inr (inr (inr (inl e)))) = ground arith
test_of_character c (inr (inr (inr (inr e)))) = ground arith

length-equals_signs : (n : ℕ) → length (equals_signs n) ≡ n
length-equals_signs zero = refl
length-equals_signs (suc n) = ap suc (length-equals_signs n)

is_padding-signs :
    (n : ℕ) (t : Text) → is_padding n t ≡ true → (t ≡ equals_signs (length t)) × (length t ≤ n)
is_padding-signs n [] e = (refl, omega arith)
is_padding-signs zero (c ∷ cs) e = cc
is_padding-signs (suc n) (c ∷ cs) e =
    let (signs, few) = is_padding-signs n cs (ground arith) in
    let sign : c ≡ 61 = ground arith in (ap (λ x. x ∷ cs) sign ∙ ap (◌∷◌ 61) signs, omega arith)

split_body :
    (t : Text)
    → is_body_and_padding t ≡ true
    → (body : Text) × (p : ℕ) × (t ≡ body ++ equals_signs p) × (p ≤ 2) × All IsBase64Character body
split_body [] e = ([], 0, refl, omega arith, tt)
split_body (c ∷ cs) e = elim (Bool-cases (is_base64_character c)) [
  | inl character ↦
      let (body, p, text, few, all) = split_body cs (rw character at e) in
      (c ∷ body, p, ap (◌∷◌ c) text, few, (character_of_test c character, all))
  | inr other ↦
      let (signs, few) = is_padding-signs 2 (c ∷ cs) (rw other at e) in
      ([], length (c ∷ cs), signs, few, tt)
]

signs-is_padding : (n p : ℕ) → p ≤ n → is_padding n (equals_signs p) ≡ true
signs-is_padding n zero h = refl
signs-is_padding zero (suc p) h = absurd (omega arith)
signs-is_padding (suc n) (suc p) h = signs-is_padding n p (omega arith)

signs-is_body_and_padding : (p : ℕ) → p ≤ 2 → is_body_and_padding (equals_signs p) ≡ true
signs-is_body_and_padding zero h = refl
signs-is_body_and_padding (suc p) h = signs-is_padding 2 (suc p) h

body-is_body_and_padding :
    (body : Text) (p : ℕ)
    → All IsBase64Character body
    → p ≤ 2
    → is_body_and_padding (body ++ equals_signs p) ≡ true
body-is_body_and_padding [] p h few = signs-is_body_and_padding p few
body-is_body_and_padding (c ∷ cs) p (h, hs) few =
    rw (test_of_character c h) (body-is_body_and_padding cs p hs few)

ends_with-body :
    (body rest suffix : Text)
    → All IsBase64Character body
    → ends_with (body ++ rest) (61 ∷ suffix) ≡ ends_with rest (61 ∷ suffix)
ends_with-body [] rest suffix h = refl
ends_with-body (c ∷ cs) rest suffix (h, hs) =
    let character = test_of_character c h in
    let apart : (c == 61) ≡ false = ground arith in rw apart (ends_with-body cs rest suffix hs)

padding_of-signs : (p : ℕ) → p ≤ 2 → padding_of (equals_signs p) ≡ p
padding_of-signs zero h = refl
padding_of-signs (suc zero) h = refl
padding_of-signs (suc (suc zero)) h = refl
padding_of-signs (suc (suc (suc p))) h = absurd (omega arith)

padding_of-body :
    (body : Text) (p : ℕ)
    → All IsBase64Character body
    → p ≤ 2
    → padding_of (body ++ equals_signs p) ≡ p
padding_of-body body p h few =
    rw (ends_with-body body (equals_signs p) (61 ∷ []) h, ends_with-body body (equals_signs p) [] h)
      (padding_of-signs p few)

length-not_blank : (val : Text) → is_blank val ≡ false → 0 < length val
length-not_blank [] e = cc
length-not_blank (c ∷ cs) e = omega arith

not_blank-length : (val : Text) → 0 < length val → is_blank val ≡ false
not_blank-length [] h = absurd (omega arith)
not_blank-length (c ∷ cs) h = refl

valid_of_length :
    (val : Text) (n : ℕ)
    → base64_byte_length val ≡ some n
    → (is_blank val ≡ false) × (is_body_and_padding val ≡ true)
unfolding base64_byte_length is_valid_base64
valid_of_length val n e = elim (Bool-cases (is_valid_base64 val)) [
  | inl valid ↦ (ground arith, ground arith)
  | inr invalid ↦
      let none_of : base64_byte_length val ≡ none = rw invalid refl in
      let clash : none ≡ some n = sym none_of ∙ e in cc
]

length-shape :
    (body : Text) (p : ℕ) (val : Text) → val ≡ body ++ equals_signs p → length val ≡ length body + p
length-shape body p val text =
    ap length text
    ∙ length-append body (equals_signs p)
    ∙ ap (λ n. length body + n) (length-equals_signs p)

-- A schema of keys of a fixed length accepts a text exactly if it is base64 of that many bytes: groups
-- of four base64 characters, the last of which may end with one or two signs of padding, where each
-- group stands for three bytes and each sign for one byte less.
pub key_issues-accepted_iff :
    (expected : ℕ) (val : Text) → (key_issues expected val ≡ []) ↔ IsBase64Of expected val
unfolding base64_byte_length is_valid_base64
key_issues-accepted_iff expected val = (to, from)
  where
    to : key_issues expected val ≡ [] → IsBase64Of expected val
    to e =
        let size = (key_issues-refinement expected val).0 e in
        let (not_blank, shaped) = valid_of_length val expected size in
        let (fours, count) = base64_byte_length-valid val expected size in
        let (body, p, text, few, all) = split_body val shaped in
        let long = length-shape body p val text in
        let some_there = length-not_blank val not_blank in
        let pad : padding_of val ≡ p = ap padding_of text ∙ padding_of-body body p all few in
        record {
          body = body;
          padding = p;
          groups = length val / 4;
          text = text;
          characters = all;
          little = few;
          some_group = omega arith;
          whole = omega arith;
          bytes = omega arith;
        }

    from : IsBase64Of expected val → key_issues expected val ≡ []
    from b =
        let long = length-shape b.body b.padding val b.text in
        let there = b.some_group in
        let whole = b.whole in
        let bytes = b.bytes in
        let few = b.little in
        let not_blank = not_blank-length val (omega arith) in
        let shaped : is_body_and_padding val ≡ true =
          ap is_body_and_padding b.text
          ∙ body-is_body_and_padding b.body b.padding b.characters few in
        let pad : padding_of val ≡ b.padding =
          ap padding_of b.text ∙ padding_of-body b.body b.padding b.characters few in
        let fours : (length val % 4 == 0) ≡ true = by_number (length val % 4) 0 (omega arith) in
        let count : length val * 3 / 4 - padding_of val ≡ expected = omega arith in
        (key_issues-refinement expected val).1 (rw (not_blank, shaped, fours, count) refl)
      where
        by_number : (a b : ℕ) → a ≡ b → (a == b) ≡ true
        by_number a b e = ground arith
