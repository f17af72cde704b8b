-- ===== src/IdentityTrust/Fingerprint.antt =====
-- That a fingerprint determines the devices whose texts have none of its separators.
use clicked.Prelude.{
  ℕ, ◌≡◌, refl, sym, ap, ◌∙◌, true, false, List, [], ◌∷◌, ◌++◌, map, has, has-append, All, arith,
}
use clicked.KeyMaterial.{Text}
use clicked.IdentityTrust.{
  TrustedDevice, sort_devices, fingerprint_part, join_parts, fingerprint_of,
}
use clicked.IdentityTrust.Sorted.{SameDevices, All-order_asc, device_eq, SameDevices-of_sorted}

-- Neither `:` nor `|`.
abbrev pub IsPlain : Text → Type 0
IsPlain t = (has 58 t ≡ false) × (has 124 t ≡ false)

abbrev pub IsPlainDevice : (ℕ → Text) → TrustedDevice → Type 0
IsPlainDevice id_text d = IsPlain (id_text d.id) × IsPlain d.identity_public_key

cut :
    (c : ℕ) (a b r s : Text)
    → has c a ≡ false
    → has c b ≡ false
    → a ++ (c ∷ r) ≡ b ++ (c ∷ s)
    → (a ≡ b) × (r ≡ s)
cut c [] [] r s h k e = (refl, cc)
cut c [] (y ∷ b) r s h k e = let same : c ≡ y = cc in absurd (ground arith)
cut c (x ∷ a) [] r s h k e = let same : x ≡ c = cc in absurd (ground arith)
cut c (x ∷ a) (y ∷ b) r s h k e =
    let same : x ≡ y = cc in
    let (front, back) = cut c a b r s (ground arith) (ground arith) cc in (cc, back)

has-cut : (c : ℕ) (b s : Text) → has c (b ++ (c ∷ s)) ≡ true
has-cut c b s = rw (has-append c b (c ∷ s)) (ground arith)

uncut : (c : ℕ) (a b s : Text) → has c a ≡ false → a ≡ b ++ (c ∷ s) → ⊥
uncut c a b s h e = let clash : false ≡ true = sym h ∙ ap (has c) e ∙ has-cut c b s in cc

-- A part has a `:`, and no `|`.
abbrev IsPart : Text → Type 0
IsPart t = (has 58 t ≡ true) × (has 124 t ≡ false)

no_part : (a b : Text) (c : ℕ) → [] ≡ a ++ (c ∷ b) → ⊥
no_part [] b c e = cc
no_part (x ∷ a) b c e = cc

join_parts-injective :
    (ts us : List Text) → All IsPart ts → All IsPart us → join_parts ts ≡ join_parts us → ts ≡ us
join_parts-injective [] [] h k e = refl
join_parts-injective [] (u ∷ []) h (k, ks) e = let clash : false ≡ true = ap (has 58) e ∙ k.0 in cc
join_parts-injective [] (u ∷ v ∷ us) h k e = absurd (no_part u (join_parts (v ∷ us)) 124 e)
join_parts-injective (t ∷ []) [] (h, hs) k e =
    let clash : false ≡ true = ap (has 58) (sym e) ∙ h.0 in cc
join_parts-injective (t ∷ v ∷ ts) [] h k e = absurd (no_part t (join_parts (v ∷ ts)) 124 (sym e))
join_parts-injective (t ∷ []) (u ∷ []) h k e = ap (λ x. x ∷ []) e
join_parts-injective (t ∷ []) (u ∷ v ∷ us) (h, hs) k e =
    absurd (uncut 124 t u (join_parts (v ∷ us)) h.1 e)
join_parts-injective (t ∷ v ∷ ts) (u ∷ []) h (k, ks) e =
    absurd (uncut 124 u t (join_parts (v ∷ ts)) k.1 (sym e))
join_parts-injective (t ∷ v ∷ ts) (u ∷ w ∷ us) (h, hs) (k, ks) e =
    let (front, back) = cut 124 t u (join_parts (v ∷ ts)) (join_parts (w ∷ us)) h.1 k.1 e in
    let rest = join_parts-injective (v ∷ ts) (w ∷ us) hs ks back in
    ap (λ x. x ∷ v ∷ ts) front ∙ ap (◌∷◌ u) rest

module _ (id_text : ℕ → Text) (injective : (a b : ℕ) → id_text a ≡ id_text b → a ≡ b) where
  fingerprint_part-IsPart :
      (d : TrustedDevice) → IsPlainDevice id_text d → IsPart (fingerprint_part id_text d)
  fingerprint_part-IsPart d h = (
    has-cut 58 (id_text d.id) d.identity_public_key,
    has-append 124 (id_text d.id) (58 ∷ d.identity_public_key) ∙ ground (arith, h.0.1, h.1.1),
  )

  parts-IsPart :
      (ds : List TrustedDevice)
      → All (IsPlainDevice id_text) ds
      → All IsPart (map (fingerprint_part id_text) ds)
  parts-IsPart [] h = tt
  parts-IsPart (d ∷ ds) (h, hs) = (fingerprint_part-IsPart d h, parts-IsPart ds hs)

  parts-injective :
      (ds es : List TrustedDevice)
      → All (IsPlainDevice id_text) ds
      → All (IsPlainDevice id_text) es
      → map (fingerprint_part id_text) ds ≡ map (fingerprint_part id_text) es
      → ds ≡ es
  parts-injective [] [] h k e = refl
  parts-injective [] (f ∷ fs) h k e = cc
  parts-injective (d ∷ ds) [] h k e = cc
  parts-injective (d ∷ ds) (f ∷ fs) (h, hs) (k, ks) e =
      let part : fingerprint_part id_text d ≡ fingerprint_part id_text f = cc in
      let (id, key) =
        cut 58 (id_text d.id) (id_text f.id) d.identity_public_key f.identity_public_key h.0.0 k.0.0
          part in
      let rest : ds ≡ fs = parts-injective ds fs hs ks cc in
      ap (λ x. x ∷ ds) (device_eq d f (injective d.id f.id id) key) ∙ ap (◌∷◌ f) rest

  -- Devices of equal fingerprints are the same.
  pub fingerprint_of-SameDevices :
      (ds es : List TrustedDevice)
      → All (IsPlainDevice id_text) ds
      → All (IsPlainDevice id_text) es
      → fingerprint_of id_text ds ≡ fingerprint_of id_text es
      → SameDevices ds es
  unfolding fingerprint_of
  fingerprint_of-SameDevices ds es h k e =
      let ds' = sort_devices ds in
      let es' = sort_devices es in
      let h' = All-order_asc (IsPlainDevice id_text) (λ d. d.id) ds h in
      let k' = All-order_asc (IsPlainDevice id_text) (λ d. d.id) es k in
      SameDevices-of_sorted ds es (
        parts-injective ds' es' h' k' (
          join_parts-injective (map (fingerprint_part id_text) ds')
            (map (fingerprint_part id_text) es') (parts-IsPart ds' h') (parts-IsPart es' k') e))
