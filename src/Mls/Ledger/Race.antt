-- ===== src/Mls/Ledger/Race.antt =====
-- Concurrent commits for one epoch (`recordCommit`).
use mathlib.Core.Option
use mathlib.Core.Path.{subst}
use clicked.Prelude.{
  ℕ, ◌+◌, ◌≡◌, ◌≢◌, refl, sym, ap, ◌∙◌, some, List, [], ◌∷◌, arith, ◌==◌, find_first, update_where,
}
use clicked.Mls.Ledger.{
  Ledger, MlsGroup, CommitInput, committed, epoch_conflict, set_epoch, record_commit,
}
use clicked.Mls.Ledger.Applied.{record_commit-Recorded}

pub find_first-set_epoch :
    (group epoch : ℕ) (gs : List MlsGroup)
    → find_first (λ g. g.id == group) (update_where (λ g. g.id == group) (set_epoch epoch) gs)
      ≡ Option.map (set_epoch epoch) (find_first (λ g. g.id == group) gs)
find_first-set_epoch group epoch [] = refl
find_first-set_epoch group epoch (g ∷ gs) = ground (arith, find_first-set_epoch group epoch gs)

-- The group's row after a recorded commit holds the commit's epoch.
pub group_after_commit :
    (l : Ledger) (c : CommitInput) (l' : Ledger) {e : ℕ}
    → record_commit l c ≡ (committed e, l')
    → (g : MlsGroup) × (find_first (λ g. g.id == c.mls_group_id) l'.groups ≡ some g)
      × (g.current_epoch ≡ c.epoch)
group_after_commit l c l' e =
    let r = record_commit-Recorded l c l' e in
    (
      set_epoch c.epoch r.group,
      ap (find_first (λ g. g.id == c.mls_group_id)) r.applied.groups
          ∙ find_first-set_epoch c.mls_group_id c.epoch l.groups
          ∙ ap (Option.map (set_epoch c.epoch)) r.found,
      refl,
    )

record_commit_stale :
    (l : Ledger) (d : CommitInput) (g : MlsGroup)
    → find_first (λ h. h.id == d.mls_group_id) l.groups ≡ some g
    → d.epoch ≢ g.current_epoch + 1
    → record_commit l d ≡ (epoch_conflict g.current_epoch, l)
unfolding record_commit
record_commit_stale l d g found late = ground arith

-- Of two commits to a group that claim the same epoch, the one submitted right after the other is
-- recorded is refused, told the epoch of the other to rebase on, and changes nothing.
pub record_commit_race :
    (l : Ledger) (c d : CommitInput) (l' : Ledger) (e : ℕ)
    → record_commit l c ≡ (committed e, l')
    → d.mls_group_id ≡ c.mls_group_id
    → d.epoch ≡ c.epoch
    → record_commit l' d ≡ (epoch_conflict c.epoch, l')
record_commit_race l c d l' e h same_group same_epoch =
    let (g, found, now) = group_after_commit l c l' h in
    rw (← now) (
      record_commit_stale l' d g
        (subst (λ k. find_first (λ h. h.id == k) l'.groups ≡ some g) (sym same_group) found)
        (omega arith))
