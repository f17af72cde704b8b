-- ===== src/Mls/Ledger/Reading.antt =====
-- What a device can read after a commit (`recordCommit` with lib/mlsVisibility.ts), and the
-- invariant behind it.
use mathlib.Core.Option
use clicked.Prelude.{
  ℕ, ◌+◌, ◌≡◌, ◌≤◌, ◌<◌, sym, ap, ◌∙◌, Option, none, some, Bool, true, false, ◌&&◌, List, [], ◌∷◌,
  ◌++◌, map, arith, ltb, leb, ◌==◌, if◌then◌else◌, Bool-cases, Option-cases, inl, inr, is_none, All,
  All-append, has, rows_where, find_first-holds, find_first-All, update_where, updated, first_desc,
  first_desc-All, All-rows_where, rows_where-All, ==→≡, count_from, count_from-injective,
}
use clicked.Mls.Visibility.{MlsEpochWindow, before_join, after_removal, mls_unavailable_reason}
use clicked.Mls.Ledger.{
  Ledger, MlsGroup, MlsGroupMember, MlsCommit, AddedDevice, CommitInput, committed, leaf_row,
  removed_leaf, close_leaf, set_epoch, leaf_of_device, get_epoch_window, record_commit,
}
use clicked.Mls.Ledger.Applied.{Recorded, record_commit-Recorded, record_commit-cases}
use clicked.Mls.Ledger.Epochs.{
  IsGapFree, IsSequenced, find_first-IsGapFree, epochs_of, record_commit-IsSequenced,
}
use clicked.Mls.Ledger.Windows.{
  IsSeated, joined_in_time, added_ids, closed_by, opened_by, record_commit-window,
}

pub record IsWellFormed (l : Ledger) : Type 0 where
  pub sequenced : IsSequenced l
  pub seated : IsSeated l

module _ (c : CommitInput) (g : MlsGroup) where
  old_leaves_in_time :
      (ms : List MlsGroupMember)
      → g.current_epoch ≤ c.epoch
      → All (λ m. joined_in_time g m ≡ true) ms
      → All
          (λ m.
            joined_in_time (updated (λ h. h.id == c.mls_group_id) (set_epoch c.epoch) g) m ≡ true)
          (update_where (removed_leaf c) (close_leaf c.epoch) ms)
  old_leaves_in_time [] le h = tt
  old_leaves_in_time (m ∷ ms) le (h, hs) = ground (arith, old_leaves_in_time ms le hs)

  other_leaves_in_time :
      (ms : List MlsGroupMember)
      → (g.id == c.mls_group_id) ≡ false
      → All (λ m. joined_in_time g m ≡ true) ms
      → All
          (λ m.
            joined_in_time (updated (λ h. h.id == c.mls_group_id) (set_epoch c.epoch) g) m ≡ true)
          (update_where (removed_leaf c) (close_leaf c.epoch) ms)
  other_leaves_in_time [] other h = tt
  other_leaves_in_time (m ∷ ms) other (h, hs) = ground (arith, other_leaves_in_time ms other hs)

  new_leaves_in_time :
      (ds : List AddedDevice)
      → All
          (λ m.
            joined_in_time (updated (λ h. h.id == c.mls_group_id) (set_epoch c.epoch) g) m ≡ true)
          (map (leaf_row c) ds)
  new_leaves_in_time [] = tt
  new_leaves_in_time (d ∷ ds) = ground (arith, new_leaves_in_time ds)

seated_after :
    (c : CommitInput) (cs : List MlsCommit) (ms : List MlsGroupMember) (n : ℕ) (gs : List MlsGroup)
    → c.epoch ≡ n + 1
    → epochs_of c.mls_group_id cs ≡ count_from 0 n
    → All (IsGapFree cs) gs
    → All (λ g. All (λ m. joined_in_time g m ≡ true) ms) gs
    → All
        (λ g.
          All
            (λ m. joined_in_time g m ≡ true)
            (update_where (removed_leaf c) (close_leaf c.epoch) ms
              ++ map (leaf_row c) c.added_devices))
        (update_where (λ g. g.id == c.mls_group_id) (set_epoch c.epoch) gs)
seated_after c cs ms n [] next mine ks hs = tt
seated_after c cs ms n (g ∷ gs) next mine (k, ks) (h, hs) = (
  All-append _ _ _
      (elim (Bool-cases (g.id == c.mls_group_id)) [
        | inl same ↦
            old_leaves_in_time c g ms
              (omega (
                arith,
                next,
                count_from-injective 0 g.current_epoch n
                    (sym k ∙ ap (λ i. epochs_of i cs) (==→≡ _ _ same) ∙ mine),
              ))
              h
        | inr other ↦ other_leaves_in_time c g ms other h
      ])
      (new_leaves_in_time c g c.added_devices),
  seated_after c cs ms n gs next mine ks hs,
)

-- Whatever is submitted to a well-formed ledger, accepted or not, it stays so: every group's commit log
-- is gap-free, and no leaf joined at an epoch that its group has not reached.
pub record_commit-IsWellFormed :
    (l : Ledger) (c : CommitInput) → IsWellFormed l → IsWellFormed (record_commit l c).1
record_commit-IsWellFormed l c h = record {
  sequenced = record_commit-IsSequenced l c h.sequenced;
  seated = elim (record_commit-cases l c) [
    | inl same ↦ rw same h.seated
    | inr done ↦
        let r = record_commit-Recorded l c (record_commit l c).1 done in
        rw (r.applied.groups, r.applied.members)
          (seated_after c l.commits l.members r.group.current_epoch l.groups r.next
            (find_first-IsGapFree c.mls_group_id l.commits l.groups r.group r.found h.sequenced)
            h.sequenced h.seated)
  ];
}

abbrev pub is_open : Option MlsEpochWindow → Bool
is_open none = false
is_open (some w) = is_none w.removed_at_epoch

abbrev OpenedBefore : ℕ → Option MlsEpochWindow → Type 0
OpenedBefore epoch none = Unit
OpenedBefore epoch (some w) = w.joined_at_epoch < epoch

reason_of-closed_by :
    (c : CommitInput) (device x : ℕ) (o : Option MlsEpochWindow)
    → OpenedBefore c.epoch o
    → mls_unavailable_reason x (Option.map (closed_by c device) o) ≡ (
        if has device c.removed_device_ids && (is_open o && leb c.epoch x)
        then some after_removal
        else mls_unavailable_reason x o)
unfolding mls_unavailable_reason
reason_of-closed_by c device x none h = ground arith
reason_of-closed_by c device x (some w) h = ground arith

reason_of-opened_by :
    (c : CommitInput) (x : ℕ)
    → mls_unavailable_reason x (some (opened_by c))
      ≡ (if ltb x c.epoch then some before_join else none)
unfolding mls_unavailable_reason
reason_of-opened_by c x = ground arith

leaf_joined_before :
    (c : CommitInput) (g : MlsGroup) (device : ℕ) (m : MlsGroupMember)
    → g.id ≡ c.mls_group_id
    → c.epoch ≡ g.current_epoch + 1
    → leaf_of_device c.mls_group_id device m ≡ true
    → joined_in_time g m ≡ true
    → m.joined_at_epoch < c.epoch
leaf_joined_before c g device m same next here h = ground arith

get_epoch_window-OpenedBefore :
    (l : Ledger) (c : CommitInput) (l' : Ledger) (device : ℕ)
    → IsSeated l
    → Recorded l c l'
    → OpenedBefore c.epoch (get_epoch_window l c.mls_group_id device)
unfolding get_epoch_window
get_epoch_window-OpenedBefore l c l' device seated r =
    elim (Option-cases (first_desc (λ m. m.joined_at_epoch) rows)) [
      | inl e ↦ rw e tt
      | inr (m, e) ↦ rw e (
          leaf_joined_before c r.group device m
            (==→≡ _ _
              (find_first-holds (λ g. g.id == c.mls_group_id) l.groups {r = r.group} r.found))
            r.next
            (first_desc-All (λ m. leaf_of_device c.mls_group_id device m ≡ true) _ rows m e
              (rows_where-All _ l.members))
            (first_desc-All (λ m. joined_in_time r.group m ≡ true) _ rows m e
              (All-rows_where _ _ l.members here)))
    ]
  where
    rows : List MlsGroupMember
    rows = rows_where (leaf_of_device c.mls_group_id device) l.members

    here : All (λ m. joined_in_time r.group m ≡ true) l.members
    here =
        find_first-All (λ g. All (λ m. joined_in_time g m ≡ true) l.members) _ l.groups r.group
          r.found seated

-- After a commit recorded in a well-formed ledger a device that it adds reads every epoch from the
-- commit's on and none
-- before; a device with an open window that it removes reads what it could read before the
-- commit's epoch and nothing from it on; for every other device nothing changes.
pub record_commit-reading :
    (l : Ledger) (c : CommitInput) (l' : Ledger) (e device x : ℕ)
    → IsWellFormed l
    → record_commit l c ≡ (committed e, l')
    → mls_unavailable_reason x (get_epoch_window l' c.mls_group_id device) ≡ (
        if has device (added_ids c)
        then (if ltb x c.epoch then some before_join else none)
        else if has device c.removed_device_ids
            && (is_open (get_epoch_window l c.mls_group_id device) && leb c.epoch x)
        then some after_removal
        else mls_unavailable_reason x (get_epoch_window l c.mls_group_id device))
record_commit-reading l c l' e device x h done =
    rw (record_commit-window l c l' e device h.seated done)
      (elim (Bool-cases (has device (added_ids c))) [
        | inl added ↦ rw added (reason_of-opened_by c x)
        | inr kept ↦ rw kept (
            reason_of-closed_by c device x _ (
              get_epoch_window-OpenedBefore l c l' device h.seated
                (record_commit-Recorded l c l' done)))
      ])
