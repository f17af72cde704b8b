-- ===== src/Prelude/Log.antt =====
-- Numbered logs: rows whose keys are consecutive numbers, in order, and the pages read from them.
use Prim.Native.Nat.{ℕ, zero, suc, ◌+◌, ◌-◌, ◌≤◌, ◌<◌, min}
use mathlib.Core.Path.{◌≡◌, refl, sym, ap, ◌∙◌}
use mathlib.Core.Logic.{inl, inr}
use mathlib.Core.Bool.{Bool, true, false, ◌&&◌}
use mathlib.Core.List.{List, [], ◌∷◌, ◌++◌, map}
use native.Mathlib.Omega.{arith}
use clicked.Prelude.Tests.{ltb, leb, if◌then◌else◌, ◌==◌, ==→≡, Bool-cases}
use clicked.Prelude.Lists.{All, any, has, take, length, count_from, length-count_from}
use clicked.Prelude.Rows.{rows_where, max_key, order_asc, IsAscending, order_asc_of_IsAscending}

pub count_from-snoc : (a n : ℕ) → count_from a n ++ suc (a + n) ∷ [] ≡ count_from a (suc n)
count_from-snoc a zero = ground arith
count_from-snoc a (suc n) = ground (arith, count_from-snoc (suc a) n)

-- Two counts from one number are of equal length only if their ends agree.
pub count_from-injective : (a m n : ℕ) → count_from a m ≡ count_from a n → m ≡ n
count_from-injective a m n e =
    omega (arith, ap length e, length-count_from a m, length-count_from a n)

after-count_from_all :
    (a since n : ℕ) → since ≤ a → rows_where (λ e. ltb since e) (count_from a n) ≡ count_from a n
after-count_from_all a since zero h = refl
after-count_from_all a since (suc n) h =
    ground (arith, after-count_from_all (suc a) since n (omega arith))

after-count_from :
    (a since n : ℕ)
    → a ≤ since
    → rows_where (λ e. ltb since e) (count_from a n) ≡ count_from since (a + n - since)
after-count_from a since zero h = let e : a + 0 - since ≡ 0 = omega arith in rw e
after-count_from a since (suc n) h = elim (Bool-cases (since == a)) [
  | inl here ↦
      let e : since ≡ a = ==→≡ _ _ here in
      let k : a + suc n - since ≡ suc n = omega arith in
      ground (arith, after-count_from_all a since (suc n) (omega arith))
  | inr above ↦
      let k : suc a + n - since ≡ a + suc n - since = omega arith in
      ground (arith, after-count_from (suc a) since n (ground arith))
]

pub take-count_from : (k a n : ℕ) → take k (count_from a n) ≡ count_from a (min k n)
take-count_from zero a n = let e : min 0 n ≡ 0 = omega arith in rw e
take-count_from (suc k) a zero = let e : min (suc k) 0 ≡ 0 = omega arith in rw e
take-count_from (suc k) a (suc n) =
    let e : min (suc k) (suc n) ≡ suc (min k n) = omega arith in
    rw e (ap (◌∷◌ (suc a)) (take-count_from k (suc a) n))

beyond_count : (a n k : ℕ) → a + n < k → has k (count_from a n) ≡ false
beyond_count a zero k h = refl
beyond_count a (suc n) k h = ground (arith, beyond_count (suc a) n k (omega arith))

module _ {ℓ} {A : Type ℓ} where
  pub rows_where-and :
      (p q : A → Bool) (xs : List A)
      → rows_where (λ r. p r && q r) xs ≡ rows_where q (rows_where p xs)
  rows_where-and p q [] = refl
  rows_where-and p q (x ∷ xs) = ground (arith, rows_where-and p q xs)

  any-and : (p q : A → Bool) (xs : List A) → any (λ r. p r && q r) xs ≡ any q (rows_where p xs)
  any-and p q [] = refl
  any-and p q (x ∷ xs) = ground (arith, any-and p q xs)

  module _ (key : A → ℕ) where
    pub map-take : (n : ℕ) (xs : List A) → map key (take n xs) ≡ take n (map key xs)
    map-take zero xs = refl
    map-take (suc n) [] = refl
    map-take (suc n) (x ∷ xs) = ground (arith, map-take n xs)

    -- An appended row joins the log that selects it.
    pub log-append :
        (p : A → Bool) (xs : List A) (r : A)
        → map key (rows_where p (xs ++ r ∷ []))
          ≡ (if p r then map key (rows_where p xs) ++ key r ∷ [] else map key (rows_where p xs))
    log-append p [] r = ground arith
    log-append p (x ∷ xs) r = ground (arith, log-append p xs r)

    map-after :
        (since : ℕ) (xs : List A)
        → map key (rows_where (λ r. ltb since (key r)) xs)
          ≡ rows_where (λ e. ltb since e) (map key xs)
    map-after since [] = refl
    map-after since (x ∷ xs) = ground (arith, map-after since xs)

    above-All :
        (a b n : ℕ) (xs : List A) → a ≤ b → map key xs ≡ count_from b n → All (λ r. a ≤ key r) xs
    above-All a b n [] h e = tt
    above-All a b zero (x ∷ xs) h e = cc
    above-All a b (suc n) (x ∷ xs) h e =
        (ground arith, above-All a (suc b) n xs (omega arith) (ground arith))

    pub count_from-IsAscending :
        (a n : ℕ) (xs : List A) → map key xs ≡ count_from a n → IsAscending key xs
    count_from-IsAscending a n [] e = tt
    count_from-IsAscending a zero (x ∷ xs) e = cc
    count_from-IsAscending a (suc n) (x ∷ xs) e = (
      above-All (key x) (suc a) n xs (ground arith) (ground arith),
      count_from-IsAscending (suc a) n xs (ground arith),
    )

    pub after_log :
        (since n : ℕ) (xs : List A)
        → map key xs ≡ count_from 0 n
        → map key (rows_where (λ r. ltb since (key r)) xs) ≡ count_from since (n - since)
    after_log since n xs h =
        map-after since xs
        ∙ ap (rows_where (λ e. ltb since e)) h
        ∙ after-count_from 0 since n (omega arith)
        ∙ ap (λ k. count_from since (k - since)) (omega arith)

    -- Ordering the entries after a cursor changes nothing, so a page holds the next numbers.
    pub order_after_log :
        (since n : ℕ) (xs : List A)
        → map key xs ≡ count_from 0 n
        → order_asc key (rows_where (λ r. ltb since (key r)) xs)
          ≡ rows_where (λ r. ltb since (key r)) xs
    order_after_log since n xs h =
        order_asc_of_IsAscending key _ (count_from-IsAscending since _ _ (after_log since n xs h))

    pub page_of_log :
        (since n k : ℕ) (xs : List A)
        → map key xs ≡ count_from 0 n
        → map key (take k (order_asc key (rows_where (λ r. ltb since (key r)) xs)))
          ≡ count_from since (min k (n - since))
    page_of_log since n k xs h =
        ap (λ ys. map key (take k ys)) (order_after_log since n xs h)
        ∙ map-take k _
        ∙ ap (take k) (after_log since n xs h)
        ∙ take-count_from k since (n - since)

    none_from :
        (b n top : ℕ) (xs : List A)
        → top ≤ b
        → map key xs ≡ count_from b n
        → rows_where (λ r. leb (key r) top) xs ≡ []
    none_from b n top [] h e = refl
    none_from b zero top (x ∷ xs) h e = cc
    none_from b (suc n) top (x ∷ xs) h e =
        let above : leb (key x) top ≡ false = ground arith in
        rw above (none_from (suc b) n top xs (omega arith) (ground arith))

    -- The first entries of a log are those up to a number.
    pub take_of_log :
        (a n k : ℕ) (xs : List A)
        → map key xs ≡ count_from a n
        → take k xs ≡ rows_where (λ r. leb (key r) (a + k)) xs
    take_of_log a n zero xs e = sym (none_from a n (a + 0) xs (omega arith) e)
    take_of_log a n (suc k) [] e = refl
    take_of_log a zero (suc k) (x ∷ xs) e = cc
    take_of_log a (suc n) (suc k) (x ∷ xs) e =
        let within : leb (key x) (a + suc k) ≡ true = ground arith in
        let same : suc a + k ≡ a + suc k = omega arith in
        rw within (
          ap (◌∷◌ x) (
            take_of_log (suc a) n k xs (ground arith)
            ∙ ap (λ top. rows_where (λ r. leb (key r) top) xs) same))

    pub max_of_log :
        (a n : ℕ) (xs : List A) → map key xs ≡ count_from a (suc n) → max_key key xs ≡ a + suc n
    max_of_log a n [] h = cc
    max_of_log a zero (x ∷ []) h = ground arith
    max_of_log a zero (x ∷ y ∷ xs) h = cc
    max_of_log a (suc n) (x ∷ []) h = cc
    max_of_log a (suc n) (x ∷ y ∷ xs) h =
        ground (arith, max_of_log (suc a) n (y ∷ xs) (ground arith))

    pub max_of_log_from_one :
        (n : ℕ) (xs : List A) → map key xs ≡ count_from 0 n → max_key key xs ≡ n
    max_of_log_from_one zero [] h = refl
    max_of_log_from_one zero (x ∷ xs) h = cc
    max_of_log_from_one (suc n) xs h = omega (arith, max_of_log 0 n xs h)

    any_key : (k : ℕ) (xs : List A) → any (λ r. key r == k) xs ≡ has k (map key xs)
    any_key k [] = refl
    any_key k (x ∷ xs) = ground (arith, any_key k xs)

    -- The next number is not in the log yet.
    pub next_is_free :
        (p : A → Bool) (n : ℕ) (xs : List A)
        → map key (rows_where p xs) ≡ count_from 0 n
        → any (λ r. p r && key r == suc n) xs ≡ false
    next_is_free p n xs h =
        any-and p (λ r. key r == suc n) xs
        ∙ any_key (suc n) (rows_where p xs)
        ∙ ap (has (suc n)) h
        ∙ beyond_count 0 n (suc n) (omega arith)
