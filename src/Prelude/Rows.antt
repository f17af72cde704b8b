-- ===== src/Prelude/Rows.antt =====
-- Queries over a table. A table is the list of its rows in the order in which a scan meets them;
-- a query's conditions are those of the source, and no statement depends on the scan order
-- unless it says so.
use Prim.Native.Nat.{ℕ, ◌≤◌, ◌<◌}
use mathlib.Core.Path.{◌≡◌, refl, ap, subst}
use mathlib.Core.Logic.{◌⊎◌, inl, inr}
use mathlib.Core.Bool.{Bool, true, false, not, ◌&&◌}
use mathlib.Core.Option
use mathlib.Core.Option.{Option, none, some}
use mathlib.Core.List.{List, [], ◌∷◌, ◌++◌}
use native.Mathlib.Omega.{arith}
use clicked.Prelude.Tests.{leb, if◌then◌else◌, Bool-cases}
use clicked.Prelude.Lists.{All, All-map}

module _ {ℓ} {A : Type ℓ} where
  -- `select … where p`, `findMany({ where: p })`, `xs.filter(p)`.
  abbrev pub rows_where : (A → Bool) → List A → List A
  rows_where p [] = []
  rows_where p (r ∷ rs) = if p r then r ∷ rows_where p rs else rows_where p rs

  -- `findFirst({ where: p })`, `… limit 1`, `xs.find(p)`.
  abbrev pub find_first : (A → Bool) → List A → Option A
  find_first p [] = none
  find_first p (r ∷ rs) = if p r then some r else find_first p rs

  -- `update … set f where p`.
  abbrev pub updated : (A → Bool) → (A → A) → A → A
  updated p f r = if p r then f r else r

  abbrev pub update_where : (A → Bool) → (A → A) → List A → List A
  update_where p f [] = []
  update_where p f (r ∷ rs) = updated p f r ∷ update_where p f rs

  -- `… orderBy(desc(key)) limit 1`: the first row met among those with the largest key.
  abbrev pub later_of : (A → ℕ) → A → Option A → A
  later_of key r none = r
  later_of key r (some s) = if leb (key s) (key r) then r else s

  abbrev pub first_desc : (A → ℕ) → List A → Option A
  first_desc key [] = none
  first_desc key (r ∷ rs) = some (later_of key r (first_desc key rs))

  -- `… orderBy(asc(key)) limit 1`.
  abbrev pub sooner_of : (A → ℕ) → A → Option A → A
  sooner_of key r none = r
  sooner_of key r (some s) = if leb (key r) (key s) then r else s

  abbrev pub first_asc : (A → ℕ) → List A → Option A
  first_asc key [] = none
  first_asc key (r ∷ rs) = some (sooner_of key r (first_asc key rs))

  -- `… orderBy(asc(key))`, rows of equal keys in scan order.
  abbrev pub insert_asc : (A → ℕ) → A → List A → List A
  insert_asc key r [] = r ∷ []
  insert_asc key r (s ∷ rs) = if leb (key r) (key s) then r ∷ s ∷ rs else s ∷ insert_asc key r rs

  abbrev pub order_asc : (A → ℕ) → List A → List A
  order_asc key [] = []
  order_asc key (r ∷ rs) = insert_asc key r (order_asc key rs)

  -- `coalesce(max(key), 0)`.
  abbrev pub max_key : (A → ℕ) → List A → ℕ
  max_key key [] = 0
  max_key key (r ∷ rs) = if leb (key r) (max_key key rs) then max_key key rs else key r

  -- A query sees the rows that it saw before, and those of the inserted ones that it selects.
  pub rows_where-append :
      (p : A → Bool) (xs ys : List A) → rows_where p (xs ++ ys) ≡ rows_where p xs ++ rows_where p ys
  rows_where-append p [] ys = refl
  rows_where-append p (x ∷ xs) ys = ground (arith, rows_where-append p xs ys)

  pub rows_where-All : (p : A → Bool) (xs : List A) → All (λ r. p r ≡ true) (rows_where p xs)
  rows_where-All p [] = tt
  rows_where-All p (x ∷ xs) = ground (arith, rows_where-All p xs)

  pub All-rows_where {κ} :
      (P : A → Type κ) (p : A → Bool) (xs : List A) → All P xs → All P (rows_where p xs)
  All-rows_where P p [] h = tt
  All-rows_where P p (x ∷ xs) (h, hs) =
      elim (p x) as (λ b. All P (if b then x ∷ rows_where p xs else rows_where p xs)) [
        | true ↦ (h, All-rows_where P p xs hs)
        | false ↦ All-rows_where P p xs hs
      ]

  -- An update that leaves a query's columns alone commutes with the query.
  pub rows_where-update_where :
      (q p : A → Bool) (f : A → A) (xs : List A)
      → ((r : A) → q (f r) ≡ q r)
      → rows_where q (update_where p f xs) ≡ update_where p f (rows_where q xs)
  rows_where-update_where q p f [] same = refl
  rows_where-update_where q p f (x ∷ xs) same =
      ground (arith, same x, rows_where-update_where q p f xs same)

  later_of-map :
      (key : A → ℕ) (g : A → A) (x : A) (o : Option A)
      → ((r : A) → key (g r) ≡ key r)
      → later_of key (g x) (Option.map g o) ≡ g (later_of key x o)
  later_of-map key g x none same = refl
  later_of-map key g x (some y) same = ground (arith, same x, same y)

  -- An update that leaves the key alone does not change which row is the latest.
  pub first_desc-update_where :
      (key : A → ℕ) (p : A → Bool) (f : A → A) (xs : List A)
      → ((r : A) → key (updated p f r) ≡ key r)
      → first_desc key (update_where p f xs) ≡ Option.map (updated p f) (first_desc key xs)
  first_desc-update_where key p f [] same = refl
  first_desc-update_where key p f (x ∷ xs) same =
      rw (first_desc-update_where key p f xs same)
        (ap some (later_of-map key (updated p f) x (first_desc key xs) same))

  -- A row above all others is the latest.
  pub first_desc-append_top :
      (key : A → ℕ) (xs : List A) (top : A)
      → All (λ r. key r < key top) xs
      → first_desc key (xs ++ top ∷ []) ≡ some top
  first_desc-append_top key [] top h = refl
  first_desc-append_top key (x ∷ xs) top (h, hs) =
      rw (first_desc-append_top key xs top hs) (ground arith)

  -- `order_asc` keeps a list that is in order already.
  abbrev pub IsAscending : (A → ℕ) → List A → Type 0
  IsAscending key [] = Unit
  IsAscending key (x ∷ xs) = All (λ r. key x ≤ key r) xs × IsAscending key xs

  insert_asc_least :
      (key : A → ℕ) (x : A) (xs : List A)
      → All (λ r. key x ≤ key r) xs
      → insert_asc key x xs ≡ x ∷ xs
  insert_asc_least key x [] h = refl
  insert_asc_least key x (y ∷ ys) h = ground arith

  pub order_asc_of_IsAscending :
      (key : A → ℕ) (xs : List A) → IsAscending key xs → order_asc key xs ≡ xs
  order_asc_of_IsAscending key [] h = refl
  order_asc_of_IsAscending key (x ∷ xs) (h, hs) =
      rw (order_asc_of_IsAscending key xs hs) (insert_asc_least key x xs h)

  -- What `find_first` returns satisfies the condition.
  pub find_first-holds :
      (p : A → Bool) (xs : List A) {r : A} → find_first p xs ≡ some r → p r ≡ true
  find_first-holds p [] e = cc
  find_first-holds p (x ∷ xs) {r} e = ground (arith, find_first-holds p xs {r = r})

  -- What holds of all rows holds of the row that a query returns.
  pub find_first-All {κ} :
      (P : A → Type κ) (p : A → Bool) (xs : List A) (r : A)
      → find_first p xs ≡ some r
      → All P xs
      → P r
  find_first-All P p [] r e h = cc
  find_first-All P p (x ∷ xs) r e (h, hs) = elim (Bool-cases (p x)) [
    | inl hit ↦ let same : x ≡ r = ground arith in subst P same h
    | inr miss ↦ find_first-All P p xs r (ground arith) hs
  ]

  -- An update that leaves a query's columns alone does not hide a row from it.
  pub find_first-update_none :
      (p u : A → Bool) (f : A → A) (xs : List A)
      → ((r : A) → p (f r) ≡ p r)
      → find_first p (update_where u f xs) ≡ none
      → find_first p xs ≡ none
  find_first-update_none p u f [] same h = refl
  find_first-update_none p u f (x ∷ xs) same h =
      ground (arith, same x, find_first-update_none p u f xs same)

  pub find_first-snoc_none :
      (p : A → Bool) (xs : List A) (n : A) → find_first p (xs ++ n ∷ []) ≡ none → p n ≡ false
  find_first-snoc_none p [] n h = ground arith
  find_first-snoc_none p (x ∷ xs) n h = ground (arith, find_first-snoc_none p xs n)

  -- A row that a query no longer finds was not there or has been left out.
  pub find_first-left_out :
      (p q : A → Bool) (xs : List A) (n : A)
      → find_first p (rows_where q xs ++ n ∷ []) ≡ none
      → (find_first p xs ≡ none) ⊎ ((x : A) × (find_first p xs ≡ some x) × (q x ≡ false))
  find_first-left_out p q [] n h = inl refl
  find_first-left_out p q (x ∷ xs) n h = elim (Bool-cases (p x)) [
    | inl hit ↦ inr (x, ground arith, ground arith)
    | inr miss ↦ rw miss (find_first-left_out p q xs n (ground arith))
  ]

  -- What a query misses is no row of the table.
  pub find_first-missing :
      (p : A → Bool) (xs : List A) → find_first p xs ≡ none → All (λ x. p x ≡ false) xs
  find_first-missing p [] h = tt
  find_first-missing p (x ∷ xs) h = ground (arith, find_first-missing p xs)

  later_of-cases :
      (key : A → ℕ) (x : A) (o : Option A) → (later_of key x o ≡ x) ⊎ (o ≡ some (later_of key x o))
  later_of-cases key x none = inl refl
  later_of-cases key x (some y) = ground arith

  pub first_desc-All {κ} :
      (P : A → Type κ) (key : A → ℕ) (xs : List A) (r : A)
      → first_desc key xs ≡ some r
      → All P xs
      → P r
  first_desc-All P key [] r e h = cc
  first_desc-All P key (x ∷ xs) r e (h, hs) = elim (later_of-cases key x (first_desc key xs)) [
    | inl here ↦ let same : x ≡ r = ground arith in subst P same h
    | inr there ↦ first_desc-All P key xs r (ground arith) hs
  ]

  -- Rows that an update takes out of a query leave it, and the others stay.
  pub rows_where-claimed :
      (p q : A → Bool) (f : A → A) (xs : List A)
      → ((r : A) → p (f r) ≡ false)
      → rows_where p (update_where q f xs) ≡ rows_where (λ r. p r && not (q r)) xs
  rows_where-claimed p q f [] closes = refl
  rows_where-claimed p q f (x ∷ xs) closes =
      ground (arith, closes x, rows_where-claimed p q f xs closes)

  -- The row that an ordered query returns has the largest, or the smallest, key.
  pub first_desc-largest :
      (key : A → ℕ) (xs : List A) {r : A} → first_desc key xs ≡ some r → All (λ s. key s ≤ key r) xs
  first_desc-largest key [] e = tt
  first_desc-largest key (x ∷ []) {r} e = (ground arith, tt)
  first_desc-largest key (x ∷ z ∷ zs) {r} e =
      let y : A = later_of key z (first_desc key zs) in
      let above : key y ≤ key r = ground arith in
      (
        ground arith,
        All-map (λ s. key s ≤ key y) (λ s. key s ≤ key r) (λ s h. omega arith) (z ∷ zs)
            (first_desc-largest key (z ∷ zs) {r = y} refl),
      )

  pub first_asc-smallest :
      (key : A → ℕ) (xs : List A) {r : A} → first_asc key xs ≡ some r → All (λ s. key r ≤ key s) xs
  first_asc-smallest key [] e = tt
  first_asc-smallest key (x ∷ []) {r} e = (ground arith, tt)
  first_asc-smallest key (x ∷ z ∷ zs) {r} e =
      let y : A = sooner_of key z (first_asc key zs) in
      let below : key r ≤ key y = ground arith in
      (
        ground arith,
        All-map (λ s. key y ≤ key s) (λ s. key r ≤ key s) (λ s h. omega arith) (z ∷ zs)
            (first_asc-smallest key (z ∷ zs) {r = y} refl),
      )

  sooner_of-cases :
      (key : A → ℕ) (x : A) (o : Option A)
      → (sooner_of key x o ≡ x) ⊎ (o ≡ some (sooner_of key x o))
  sooner_of-cases key x none = inl refl
  sooner_of-cases key x (some y) = ground arith

  pub first_asc-All {κ} :
      (P : A → Type κ) (key : A → ℕ) (xs : List A) (r : A)
      → first_asc key xs ≡ some r
      → All P xs
      → P r
  first_asc-All P key [] r e h = cc
  first_asc-All P key (x ∷ xs) r e (h, hs) = elim (sooner_of-cases key x (first_asc key xs)) [
    | inl here ↦ let same : x ≡ r = ground arith in subst P same h
    | inr there ↦ first_asc-All P key xs r (ground arith) hs
  ]

  pub first_asc-none : (key : A → ℕ) (xs : List A) → first_asc key xs ≡ none → xs ≡ []
  first_asc-none key [] e = refl
  first_asc-none key (x ∷ xs) e = cc
