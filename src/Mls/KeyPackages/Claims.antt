-- ===== src/Mls/KeyPackages/Claims.antt =====
-- Handing out key packages, each at most once (`claimKeyPackage`).
use clicked.Prelude.{
  ℕ, ◌≡◌, ◌≢◌, ◌≤◌, Option, none, some, true, not, ◌&&◌, List, arith, length, ◌==◌, Option-cases,
  inl, inr, ◌⊎◌, All, rows_where, rows_where-claimed, rows_where-All, first_asc, first_asc-smallest,
  first_asc-All, first_asc-none, ap,
}
use clicked.Mls.KeyPackages.{
  MlsKeyPackage, available_filter, count_available_key_packages, claim_key_package, consume,
}

-- A claim that hands out `p` and leaves the packages `ps'`.
pub record HandedOut (ps : List MlsKeyPackage) (now device : ℕ) (suite : Option ℕ)
    (p : MlsKeyPackage) (ps' : List MlsKeyPackage) : Type 0 where
  pub was_available : available_filter now device suite p ≡ true
  pub oldest :
      All (λ q. p.created_at ≤ q.created_at) (rows_where (available_filter now device suite) ps)
  pub rest :
      (later any_device : ℕ) (any_suite : Option ℕ)
      → rows_where (available_filter later any_device any_suite) ps'
        ≡ rows_where (λ q. available_filter later any_device any_suite q && not (q.id == p.id)) ps

-- A claim hands out an available package, the oldest one; from then on no query finds that package
-- available, and every other package is available as before. It fails only when the device has no
-- available package, and then changes nothing.
pub claim_key_package-HandedOut :
    (ps : List MlsKeyPackage) (now device : ℕ) (suite : Option ℕ)
    → ((count_available_key_packages ps now device suite ≡ 0)
        × (claim_key_package ps now device suite ≡ (none, ps)))
      ⊎ ((p : MlsKeyPackage) × ((claim_key_package ps now device suite).0 ≡ some p)
          × HandedOut ps now device suite p (claim_key_package ps now device suite).1)
unfolding claim_key_package count_available_key_packages
claim_key_package-HandedOut ps now device suite =
    elim (Option-cases (first_asc (λ p. p.created_at) stock)) [
      | inl e ↦
          inl (ap length (first_asc-none (λ p. p.created_at) stock e), rw (e, claim_key_package))
      | inr (p, e) ↦ inr (
        p,
        rw (e, claim_key_package),
        record {
          was_available =
              first_asc-All (λ q. available_filter now device suite q ≡ true) _ stock p e
                (rows_where-All _ ps);
          oldest = first_asc-smallest (λ q. q.created_at) stock {r = p} e;
          rest = λ later any_device any_suite.
              rw (e, claim_key_package)
                (rows_where-claimed (available_filter later any_device any_suite)
                  (λ q. q.id == p.id) (consume now) ps (λ q. ground arith));
        },
      )
    ]
  where
    stock : List MlsKeyPackage
    stock = rows_where (available_filter now device suite) ps

claimed_candidate :
    (ps : List MlsKeyPackage) (now device : ℕ) (suite : Option ℕ) (p : MlsKeyPackage)
    → (claim_key_package ps now device suite).0 ≡ some p
    → first_asc (λ q. q.created_at) (rows_where (available_filter now device suite) ps) ≡ some p
unfolding claim_key_package
claimed_candidate ps now device suite p e = ground arith

stock_after_claim :
    (ps : List MlsKeyPackage) (now device later other_device : ℕ) (suite other_suite : Option ℕ)
    (p : MlsKeyPackage)
    → (claim_key_package ps now device suite).0 ≡ some p
    → rows_where
        (available_filter later other_device other_suite)
        (claim_key_package ps now device suite).1
      ≡ rows_where (λ q. available_filter later other_device other_suite q && not (q.id == p.id)) ps
unfolding claim_key_package
stock_after_claim ps now device later other_device suite other_suite p e =
    rw (claimed_candidate ps now device suite p e, claim_key_package)
      (rows_where-claimed (available_filter later other_device other_suite) (λ q. q.id == p.id)
        (consume now) ps (λ q. ground arith))

-- A claim that follows one which handed out a package never hands out the same one, whoever asks,
-- for whichever device and suite, at whatever times.
pub claim_key_package_twice :
    (ps : List MlsKeyPackage) (now device later other_device : ℕ) (suite other_suite : Option ℕ)
    (p q : MlsKeyPackage)
    → (claim_key_package ps now device suite).0 ≡ some p
    → (claim_key_package (claim_key_package ps now device suite).1 later other_device other_suite).0
      ≡ some q
    → q.id ≢ p.id
claim_key_package_twice ps now device later other_device suite other_suite p q first second =
    let candidate =
      claimed_candidate (claim_key_package ps now device suite).1 later other_device other_suite q
        second in
    let other : (available_filter later other_device other_suite q && not (q.id == p.id)) ≡ true =
      first_asc-All
        (λ r. (available_filter later other_device other_suite r && not (r.id == p.id)) ≡ true)
        (λ r. r.created_at) _ q
        (rw (stock_after_claim ps now device later other_device suite other_suite p first) at
          candidate)
        (rows_where-All _ ps) in
    ground arith
