-- ===== src/Ratchet/Keys.antt =====
-- The map of skipped keys, while it is not full.
use clicked.Prelude.{
  ℕ, ◌+◌, ◌≡◌, ◌≤◌, refl, sym, ap, ◌∙◌, Option, none, some, true, false, List, [], ◌∷◌, ◌==◌,
  if◌then◌else◌, length, arith, Bool-cases, inl, inr,
}
use clicked.Ratchet.{
  Bytes, Platform, IsPlatform, SkippedKeyId, same_bytes, dh_changed, max_skipped_keys,
  prune_skipped_keys, same_id, get_key, set_key, delete_key, skipped_key_id,
}

pub same_bytes_refl : (bs : Bytes) → same_bytes bs bs ≡ true
same_bytes_refl [] = refl
same_bytes_refl (b ∷ bs) = ground (arith, same_bytes_refl bs)

pub dh_changed_refl : (bs : Bytes) → dh_changed (some bs) bs ≡ false
dh_changed_refl bs = rw (same_bytes_refl bs) refl

pub prune_unfilled {ℓ} :
    {A : Type ℓ} (es : List A) → length es ≤ max_skipped_keys → prune_skipped_keys es ≡ es
prune_unfilled [] h = refl
prune_unfilled (e ∷ es) h = ground arith

module _ {B T : Type 0} (p : Platform B T) where
  -- The ids of two numbers of one chain differ as the numbers do.
  pub same_id-chain :
      (h : IsPlatform p) (dh : Bytes) (i j : ℕ)
      → same_id p (skipped_key_id p (some dh) i) (skipped_key_id p (some dh) j) ≡ (i == j)
  same_id-chain h dh i j = rw ((h.same_text_iff (p.to_base64 dh) (p.to_base64 dh)).1 refl) refl

  -- An id of another chain is another id.
  pub same_id-other :
      (h : IsPlatform p) (dhr : Option Bytes) (dh : Bytes) (i j : ℕ)
      → dh_changed dhr dh ≡ true
      → same_id p (skipped_key_id p dhr i) (skipped_key_id p (some dh) j) ≡ false
  same_id-other h none dh i j changed = refl
  same_id-other h (some old) dh i j changed =
      elim (Bool-cases (p.same_text (p.to_base64 old) (p.to_base64 dh))) [
        | inr other ↦ rw other refl
        | inl same ↦
            let e : old ≡ dh =
              sym (h.from-to_base64 old)
              ∙ ap p.from_base64 ((h.same_text_iff _ _).0 same)
              ∙ h.from-to_base64 dh in
            let c : dh_changed (some old) dh ≡ false =
              ap (λ x. dh_changed (some old) x) (sym e) ∙ dh_changed_refl old in
            ground arith
      ]

  same_id→≡ : (h : IsPlatform p) (a b : SkippedKeyId B) → same_id p a b ≡ true → a ≡ b
  same_id→≡ h a b e =
      let dh : a.dh ≡ b.dh = same_dh h a.dh b.dh a.n b.n e in
      let n : a.n ≡ b.n = ground arith in λ i. record { dh = dh i; n = n i }
    where
      same_dh :
          (h : IsPlatform p) (x y : Option B) (n m : ℕ)
          → same_id p (record { dh = x; n = n }) (record { dh = y; n = m }) ≡ true
          → x ≡ y
      same_dh h none none n m e = refl
      same_dh h none (some y) n m e = cc
      same_dh h (some x) none n m e = cc
      same_dh h (some x) (some y) n m e = ap some ((h.same_text_iff x y).0 (ground arith))

  same_id_refl : (h : IsPlatform p) (a : SkippedKeyId B) → same_id p a a ≡ true
  same_id_refl h a = reflexive a.dh a.n
    where
      reflexive :
          (x : Option B) (n : ℕ)
          → same_id p (record { dh = x; n = n }) (record { dh = x; n = n }) ≡ true
      reflexive none n = ground arith
      reflexive (some x) n = rw ((h.same_text_iff x x).1 refl) (ground arith)

  -- Of two entries found at two ids, equal ones have equal ids.
  same_id-of_other :
      (h : IsPlatform p) (e k id : SkippedKeyId B)
      → same_id p e k ≡ false
      → same_id p e id ≡ true
      → same_id p k id ≡ false
  same_id-of_other h e k id other hit = elim (Bool-cases (same_id p k id)) [
    | inr apart ↦ apart
    | inl both ↦
        let same : e ≡ k = same_id→≡ h e id hit ∙ sym (same_id→≡ h k id both) in
        let c : same_id p e k ≡ true = ap (λ x. same_id p e x) (sym same) ∙ same_id_refl h e in cc
  ]

  module _ (h : IsPlatform p) (k id : SkippedKeyId B) where
    pub get_key-set_key :
        (mk : Bytes) (es : List (SkippedKeyId B × Bytes))
        → get_key p id (set_key p k mk es) ≡ (if same_id p k id then some mk else get_key p id es)
    get_key-set_key mk [] = refl
    get_key-set_key mk (e ∷ es) = elim (Bool-cases (same_id p e.0 k)) [
      | inl hit ↦
          rw (hit, ap (λ x. same_id p x id) (same_id→≡ h e.0 k hit))
            (elim (same_id p k id)
              as (λ b.
                (if b then some mk else get_key p id es)
                ≡ (if b then some mk else (if b then some e.1 else get_key p id es))) [
                  | true ↦ refl
                  | false ↦ refl
                ])
      | inr other ↦ elim (Bool-cases (same_id p e.0 id)) [
        | inl found ↦ rw (other, found, same_id-of_other h e.0 k id other found) refl
        | inr missing ↦ rw (other, missing) (get_key-set_key mk es)
      ]
    ]

    pub get_key-delete_key :
        (es : List (SkippedKeyId B × Bytes))
        → get_key p id (delete_key p k es) ≡ (if same_id p k id then none else get_key p id es)
    get_key-delete_key [] =
        elim (same_id p k id) as (λ b. ◌≡◌ {A = Option Bytes} none (if b then none else none)) [
          | true ↦ refl
          | false ↦ refl
        ]
    get_key-delete_key (e ∷ es) = elim (Bool-cases (same_id p e.0 k)) [
      | inl hit ↦
          rw (hit, ap (λ x. same_id p x id) (same_id→≡ h e.0 k hit), get_key-delete_key es)
            (elim (same_id p k id)
              as (λ b.
                (if b then none else get_key p id es)
                ≡ (if b then none else (if b then some e.1 else get_key p id es))) [
                  | true ↦ refl
                  | false ↦ refl
                ])
      | inr other ↦ elim (Bool-cases (same_id p e.0 id)) [
        | inl found ↦ rw (other, found, same_id-of_other h e.0 k id other found) refl
        | inr missing ↦ rw (other, missing) (get_key-delete_key es)
      ]
    ]

  pub length-set_key :
      (k : SkippedKeyId B) (mk : Bytes) (es : List (SkippedKeyId B × Bytes))
      → length (set_key p k mk es) ≤ length es + 1
  length-set_key k mk [] = omega arith
  length-set_key k mk (e ∷ es) = ground (arith, length-set_key k mk es)

  pub length-delete_key :
      (k : SkippedKeyId B) (es : List (SkippedKeyId B × Bytes))
      → length (delete_key p k es) ≤ length es
  length-delete_key k [] = omega arith
  length-delete_key k (e ∷ es) = ground (arith, length-delete_key k es)
