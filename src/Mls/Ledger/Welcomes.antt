-- ===== src/Mls/Ledger/Welcomes.antt =====
-- Claiming a Welcome (`claimWelcome`, `pendingWelcomeEpoch`).
use clicked.Prelude.{
  ℕ, ◌≡◌, ◌≤◌, none, some, true, not, ◌&&◌, List, arith, ◌==◌, Option-cases, inl, inr, ◌⊎◌, All,
  rows_where, rows_where-claimed, first_desc, first_desc-largest, first_desc-All, rows_where-All,
}
use clicked.Mls.Ledger.{
  Ledger, MlsWelcome, pending_for, claim, claim_welcome, pending_welcome_epoch,
}

abbrev pub pending : Ledger → ℕ → ℕ → List MlsWelcome
pending l group device = rows_where (pending_for group device) l.welcomes

-- A claim that hands out the pending welcome `w` and leaves the ledger `l'`.
pub record Claimed (l : Ledger) (group device : ℕ) (w : MlsWelcome) (l' : Ledger) : Type 0 where
  pub was_pending : pending_for group device w ≡ true
  pub newest : All (λ v. v.epoch ≤ w.epoch) (pending l group device)
  pub rest :
      pending l' group device
      ≡ rows_where (λ v. pending_for group device v && not (v.id == w.id)) l.welcomes

-- `claimWelcome` hands out the newest pending Welcome of the device, whose epoch
-- `pendingWelcomeEpoch` announced, and afterwards that one alone is no longer pending; where none
-- is pending it returns nothing and changes nothing.
pub claim_welcome-Claimed :
    (l : Ledger) (group device now : ℕ)
    → ((pending_welcome_epoch l group device ≡ none)
        × (claim_welcome l group device now ≡ (none, l)))
      ⊎ ((w : MlsWelcome) × (pending_welcome_epoch l group device ≡ some w.epoch)
          × ((claim_welcome l group device now).0 ≡ some (w.epoch, w.welcome))
          × Claimed l group device w (claim_welcome l group device now).1)
unfolding claim_welcome pending_welcome_epoch
claim_welcome-Claimed l group device now =
    elim (Option-cases (first_desc (λ w. w.epoch) (pending l group device))) [
      | inl e ↦ inl (rw e, rw (e, claim_welcome))
      | inr (w, e) ↦ inr (
        w,
        rw e,
        rw (e, claim_welcome),
        record {
          was_pending =
              first_desc-All (λ v. pending_for group device v ≡ true) _ (pending l group device) w e
                (rows_where-All _ l.welcomes);
          newest = first_desc-largest (λ v. v.epoch) _ {r = w} e;
          rest =
              rw (e, claim_welcome)
                (rows_where-claimed (pending_for group device) (λ v. v.id == w.id) (claim now)
                  l.welcomes (λ v. ground arith));
        },
      )
    ]
