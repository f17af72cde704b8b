-- ===== src/Mls/Ledger/Epochs.antt =====
-- The commit log of a group: its epochs are 1 … current epoch, with no gap, and replay gives a
-- device the ones that it lacks, in order (`recordCommit`, `listCommitsSince`).
use clicked.Prelude.{
  ℕ, suc, ◌+◌, ◌-◌, ◌≡◌, sym, ap, ◌∙◌, some, List, [], ◌∷◌, ◌++◌, map, min, arith, ltb, ◌==◌,
  Bool-cases, inl, inr, All, count_from, rows_where, find_first, update_where, updated, page_of_log,
  log-append, rows_where-and, count_from-snoc, count_from-injective, ==→≡,
}
use clicked.Mls.Ledger.{
  Ledger, MlsGroup, MlsCommit, CommitInput, commit_row, set_epoch, record_commit,
  list_commits_since, commit_page_size,
}
use clicked.Mls.Ledger.Applied.{record_commit-Recorded, record_commit-cases}

abbrev pub epochs_of : ℕ → List MlsCommit → List ℕ
epochs_of group cs = map (λ c. c.epoch) (rows_where (λ c. c.mls_group_id == group) cs)

-- The commits of a group produced the epochs 1 … `current_epoch`, in this order.
abbrev pub IsGapFree : List MlsCommit → MlsGroup → Type 0
IsGapFree cs g = epochs_of g.id cs ≡ count_from 0 g.current_epoch

abbrev pub IsSequenced : Ledger → Type 0
IsSequenced l = All (IsGapFree l.commits) l.groups

module _ (c : CommitInput) (cs : List MlsCommit) (n : ℕ) (next : c.epoch ≡ n + 1) where
  epochs_of-commit :
      (g : MlsGroup)
      → epochs_of c.mls_group_id cs ≡ count_from 0 n
      → epochs_of g.id cs ≡ count_from 0 g.current_epoch
      → g.id ≡ c.mls_group_id
      → epochs_of g.id (cs ++ commit_row c ∷ []) ≡ count_from 0 c.epoch
  epochs_of-commit g mine h same =
      let e : c.epoch ≡ suc g.current_epoch = omega (
        arith,
        next,
        count_from-injective 0 g.current_epoch n (sym h ∙ ap (λ k. epochs_of k cs) same ∙ mine),
      ) in
      ground (
        arith,
        log-append (λ d. d.epoch) (λ d. d.mls_group_id == g.id) cs (commit_row c),
        count_from-snoc 0 g.current_epoch,
      )

  IsGapFree-commit :
      (g : MlsGroup)
      → epochs_of c.mls_group_id cs ≡ count_from 0 n
      → IsGapFree cs g
      → IsGapFree
          (cs ++ commit_row c ∷ [])
          (updated (λ h. h.id == c.mls_group_id) (set_epoch c.epoch) g)
  IsGapFree-commit g mine h = elim (Bool-cases (g.id == c.mls_group_id)) [
    | inl same ↦ rw same (epochs_of-commit g mine h (==→≡ _ _ same))
    | inr other ↦
        rw other (
          ground (arith, log-append (λ d. d.epoch) (λ d. d.mls_group_id == g.id) cs (commit_row c)))
  ]

IsSequenced-commit :
    (c : CommitInput) (cs : List MlsCommit) (n : ℕ) (gs : List MlsGroup)
    → c.epoch ≡ n + 1
    → epochs_of c.mls_group_id cs ≡ count_from 0 n
    → All (IsGapFree cs) gs
    → All
        (IsGapFree (cs ++ commit_row c ∷ []))
        (update_where (λ g. g.id == c.mls_group_id) (set_epoch c.epoch) gs)
IsSequenced-commit c cs n [] next mine h = tt
IsSequenced-commit c cs n (g ∷ gs) next mine (h, hs) =
    (IsGapFree-commit c cs n next g mine h, IsSequenced-commit c cs n gs next mine hs)

pub find_first-IsGapFree :
    (group : ℕ) (cs : List MlsCommit) (gs : List MlsGroup) (g : MlsGroup)
    → find_first (λ h. h.id == group) gs ≡ some g
    → All (IsGapFree cs) gs
    → epochs_of group cs ≡ count_from 0 g.current_epoch
find_first-IsGapFree group cs [] g e h = cc
find_first-IsGapFree group cs (x ∷ gs) g e (h, hs) = elim (Bool-cases (x.id == group)) [
  | inl same ↦
      let here : x ≡ g = ground arith in
      ap (λ k. epochs_of k cs) (sym (==→≡ _ _ same))
      ∙ h
      ∙ ap (λ y. count_from 0 y.current_epoch) here
  | inr other ↦ find_first-IsGapFree group cs gs g (ground arith) hs
]

-- Whatever is submitted, accepted or not, the commit log of every group stays the list of the
-- epochs 1 … current epoch.
pub record_commit-IsSequenced :
    (l : Ledger) (c : CommitInput) → IsSequenced l → IsSequenced (record_commit l c).1
record_commit-IsSequenced l c h = elim (record_commit-cases l c) [
  | inl same ↦ rw same h
  | inr done ↦
      let r = record_commit-Recorded l c (record_commit l c).1 done in
      rw (r.applied.groups, r.applied.commits)
        (IsSequenced-commit c l.commits r.group.current_epoch l.groups r.next
          (find_first-IsGapFree c.mls_group_id l.commits l.groups r.group r.found h) h)
]

pub list_commits_since_gap_free :
    (l : Ledger) (group n since limit : ℕ)
    → epochs_of group l.commits ≡ count_from 0 n
    → map (λ c. c.epoch) (list_commits_since l group since limit)
      ≡ count_from since (min (min limit commit_page_size) (n - since))
unfolding list_commits_since
list_commits_since_gap_free l group n since limit h =
    rw (rows_where-and (λ c. c.mls_group_id == group) (λ c. ltb since c.epoch) l.commits)
      (page_of_log (λ c. c.epoch) since n (min limit commit_page_size) _ h)

-- Where the commit logs have no gap, a device that asks for the commits after the epoch that it has applied gets the next ones, in
-- order and with no gap: at most `limit` and at most one page of them, and otherwise all that
-- there are up to the group's current epoch.
pub list_commits_since-epochs :
    (l : Ledger) (group since limit : ℕ) (g : MlsGroup)
    → IsSequenced l
    → find_first (λ h. h.id == group) l.groups ≡ some g
    → map (λ c. c.epoch) (list_commits_since l group since limit)
      ≡ count_from since (min (min limit commit_page_size) (g.current_epoch - since))
list_commits_since-epochs l group since limit g h found =
    list_commits_since_gap_free l group g.current_epoch since limit
      (find_first-IsGapFree group l.commits l.groups g found h)
