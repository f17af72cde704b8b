-- ===== src/Mls/Ledger/Windows.antt =====
-- The epoch windows of devices across a commit (`recordCommit`, `getEpochWindow`), and what they
-- mean for reading (lib/mlsVisibility.ts).
use mathlib.Core.List.{append-nil}
use mathlib.Core.Option
use mathlib.Core.Path.{subst}
use clicked.Prelude.{
  ℕ, ◌+◌, ◌≡◌, ◌<◌, refl, ap, ◌∙◌, none, some, Bool, true, false, not, ◌&&◌, ◌||◌, List, [], ◌∷◌,
  ◌++◌, map, arith, leb, ◌==◌, if◌then◌else◌, Bool-cases, Option-cases, inl, inr, is_none, All, has,
  rows_where, rows_where-append, rows_where-update_where, update_where, updated, first_desc,
  first_desc-update_where, first_desc-All, find_first-All, find_first-holds, rows_where-All, ==→≡,
}
use clicked.Mls.Visibility.{MlsEpochWindow}
use clicked.Mls.Ledger.{
  Ledger, MlsGroup, MlsGroupMember, AddedDevice, CommitInput, committed, leaf_row, removed_leaf,
  close_leaf, leaf_of_device, window_of, get_epoch_window, record_commit,
}
use clicked.Mls.Ledger.Applied.{Recorded, record_commit-Recorded}

-- No leaf joined at an epoch that its group has not reached.
abbrev pub joined_in_time : MlsGroup → MlsGroupMember → Bool
joined_in_time g m = not (m.mls_group_id == g.id) || leb m.joined_at_epoch g.current_epoch

abbrev pub IsSeated : Ledger → Type 0
IsSeated l = All (λ g. All (λ m. joined_in_time g m ≡ true) l.members) l.groups

abbrev pub added_ids : CommitInput → List ℕ
added_ids c = map (λ d. d.device_id) c.added_devices

-- A window that a removal closes, if it is open.
abbrev pub closed_by : CommitInput → ℕ → MlsEpochWindow → MlsEpochWindow
closed_by c device w =
    if has device c.removed_device_ids && is_none w.removed_at_epoch
    then record w { removed_at_epoch = some c.epoch }
    else w

abbrev pub opened_by : CommitInput → MlsEpochWindow
opened_by c = record { joined_at_epoch = c.epoch; removed_at_epoch = none }

joined : MlsGroupMember → ℕ
joined m = m.joined_at_epoch

window_of-latest_equal :
    (w : MlsEpochWindow) (y : MlsGroupMember) (ys : List MlsGroupMember)
    → All (λ m. window_of m ≡ w) (y ∷ ys)
    → Option.map window_of (first_desc (λ m. m.joined_at_epoch) (y ∷ ys)) ≡ some w
window_of-latest_equal w y [] (h, hs) = ap some h
window_of-latest_equal w y (z ∷ zs) (h, hs) = ground (arith, window_of-latest_equal w z zs hs)

window_of-latest_new :
    (w : MlsEpochWindow) (xs : List MlsGroupMember) (y : MlsGroupMember) (ys : List MlsGroupMember)
    → All (λ m. m.joined_at_epoch < w.joined_at_epoch) xs
    → All (λ m. window_of m ≡ w) (y ∷ ys)
    → Option.map window_of (first_desc (λ m. m.joined_at_epoch) (xs ++ y ∷ ys)) ≡ some w
window_of-latest_new w [] y ys h k = window_of-latest_equal w y ys k
window_of-latest_new w (x ∷ xs) y ys (h, hs) k = ground (arith, window_of-latest_new w xs y ys hs k)

module _ (c : CommitInput) (device : ℕ) where
  leaves_added :
      (ds : List AddedDevice)
      → All
          (λ m. window_of m ≡ opened_by c)
          (rows_where (leaf_of_device c.mls_group_id device) (map (leaf_row c) ds))
  leaves_added [] = tt
  leaves_added (d ∷ ds) = ground (arith, leaves_added ds)

  no_leaf_added :
      (ds : List AddedDevice)
      → has device (map (λ d. d.device_id) ds) ≡ false
      → rows_where (leaf_of_device c.mls_group_id device) (map (leaf_row c) ds) ≡ []
  no_leaf_added [] h = refl
  no_leaf_added (d ∷ ds) h = ground (arith, no_leaf_added ds)

  some_leaf_added :
      (ds : List AddedDevice)
      → has device (map (λ d. d.device_id) ds) ≡ true
      → (y : MlsGroupMember) × (ys : List MlsGroupMember) × (rows_where
            (leaf_of_device c.mls_group_id device)
            (map (leaf_row c) ds)
          ≡ y ∷ ys)
  some_leaf_added [] h = cc
  some_leaf_added (d ∷ ds) h = elim (Bool-cases (d.device_id == device)) [
    | inl same ↦ (
      leaf_row c d,
      rows_where (leaf_of_device c.mls_group_id device) (map (leaf_row c) ds),
      ground arith,
    )
    | inr other ↦ let (y, ys, e) = some_leaf_added ds (ground arith) in (y, ys, ground arith)
  ]

  module _ (l : Ledger) (l' : Ledger) where
    leaves_after :
        l'.members
          ≡ update_where (removed_leaf c) (close_leaf c.epoch) l.members
            ++ map (leaf_row c) c.added_devices
        → rows_where (leaf_of_device c.mls_group_id device) l'.members
          ≡ update_where
              (removed_leaf c)
              (close_leaf c.epoch)
              (rows_where (leaf_of_device c.mls_group_id device) l.members)
            ++ rows_where (leaf_of_device c.mls_group_id device) (map (leaf_row c) c.added_devices)
    leaves_after e =
        ap (rows_where (leaf_of_device c.mls_group_id device)) e
        ∙ rows_where-append (leaf_of_device c.mls_group_id device) _ _
        ∙ ap
            (λ ms.
              ms
              ++ rows_where (leaf_of_device c.mls_group_id device)
                  (map (leaf_row c) c.added_devices))
            (rows_where-update_where (leaf_of_device c.mls_group_id device) (removed_leaf c)
              (close_leaf c.epoch) l.members (λ m. refl))

  joined_before :
      (g : MlsGroup) (ms : List MlsGroupMember)
      → g.id ≡ c.mls_group_id
      → c.epoch ≡ g.current_epoch + 1
      → All (λ m. joined_in_time g m ≡ true) ms
      → All
          (λ m. m.joined_at_epoch < c.epoch)
          (update_where
            (removed_leaf c)
            (close_leaf c.epoch)
            (rows_where (leaf_of_device c.mls_group_id device) ms))
  joined_before g [] same next h = tt
  joined_before g (m ∷ ms) same next (h, hs) = ground (arith, joined_before g ms same next hs)

  closed_leaf :
      (m : MlsGroupMember)
      → leaf_of_device c.mls_group_id device m ≡ true
      → window_of (updated (removed_leaf c) (close_leaf c.epoch) m)
        ≡ closed_by c device (window_of m)
  closed_leaf m h = ground arith

  closing_keeps_joined :
      (m : MlsGroupMember)
      → (updated (removed_leaf c) (close_leaf c.epoch) m).joined_at_epoch ≡ m.joined_at_epoch
  closing_keeps_joined m = ground arith

  closed_latest :
      (ms : List MlsGroupMember)
      → All (λ m. leaf_of_device c.mls_group_id device m ≡ true) ms
      → Option.map window_of (
          first_desc
            (λ m. m.joined_at_epoch)
            (update_where (removed_leaf c) (close_leaf c.epoch) ms))
        ≡ Option.map
            (closed_by c device)
            (Option.map window_of (first_desc (λ m. m.joined_at_epoch) ms))
  closed_latest ms h = elim (Option-cases (first_desc (λ m. m.joined_at_epoch) ms)) [
    | inl e ↦ rw (
      first_desc-update_where (λ m. m.joined_at_epoch) (removed_leaf c) (close_leaf c.epoch) ms
          (closing_keeps_joined),
      e,
    )
    | inr (m, e) ↦
        rw
          (
            first_desc-update_where (λ m. m.joined_at_epoch) (removed_leaf c) (close_leaf c.epoch)
                ms (closing_keeps_joined),
            e,
          )
          (ap some (
            closed_leaf m (
              first_desc-All (λ m. leaf_of_device c.mls_group_id device m ≡ true)
                (λ m. m.joined_at_epoch) ms m e h)))
  ]

  window_after_join :
      (l : Ledger) (g : MlsGroup) (ms : List MlsGroupMember)
      → g.id ≡ c.mls_group_id
      → c.epoch ≡ g.current_epoch + 1
      → All (λ m. joined_in_time g m ≡ true) ms
      → has device (added_ids c) ≡ true
      → Option.map window_of (
          first_desc
            (λ m. m.joined_at_epoch)
            (update_where
                (removed_leaf c)
                (close_leaf c.epoch)
                (rows_where (leaf_of_device c.mls_group_id device) ms)
              ++ rows_where
                  (leaf_of_device c.mls_group_id device)
                  (map (leaf_row c) c.added_devices)))
        ≡ some (opened_by c)
  window_after_join l g ms same next h added =
      let (y, ys, e) = some_leaf_added c.added_devices added in
      rw e (
        window_of-latest_new (opened_by c) _ y ys (joined_before g ms same next h)
          (subst (All (λ m. window_of m ≡ opened_by c)) e (leaves_added c.added_devices)))

  window_after_no_join :
      (ms : List MlsGroupMember)
      → has device (added_ids c) ≡ false
      → Option.map window_of (
          first_desc
            (λ m. m.joined_at_epoch)
            (update_where
                (removed_leaf c)
                (close_leaf c.epoch)
                (rows_where (leaf_of_device c.mls_group_id device) ms)
              ++ rows_where
                  (leaf_of_device c.mls_group_id device)
                  (map (leaf_row c) c.added_devices)))
        ≡ Option.map (closed_by c device) (
            Option.map window_of (
              first_desc
                (λ m. m.joined_at_epoch)
                (rows_where (leaf_of_device c.mls_group_id device) ms)))
  window_after_no_join ms h =
      rw (no_leaf_added c.added_devices h, append-nil)
        (closed_latest _ (rows_where-All (leaf_of_device c.mls_group_id device) ms))

-- Where no leaf has joined ahead of its group, a recorded commit opens a window at its epoch for each device that it adds, closes at its epoch
-- the open window of each device that it removes, and leaves every other device's window alone.
pub record_commit-window :
    (l : Ledger) (c : CommitInput) (l' : Ledger) (e device : ℕ)
    → IsSeated l
    → record_commit l c ≡ (committed e, l')
    → get_epoch_window l' c.mls_group_id device ≡ (
        if has device (added_ids c)
        then some (opened_by c)
        else Option.map (closed_by c device) (get_epoch_window l c.mls_group_id device))
unfolding get_epoch_window
record_commit-window l c l' e device seated h =
    ap (λ ms. Option.map window_of (first_desc (λ m. m.joined_at_epoch) ms))
      (leaves_after c device l l' r.applied.members)
    ∙ elim (Bool-cases (has device (added_ids c))) [
      | inl added ↦ rw added (
          window_after_join c device l r.group l.members
            (==→≡ _ _
              (find_first-holds (λ g. g.id == c.mls_group_id) l.groups {r = r.group} r.found))
            r.next
            (find_first-All (λ g. All (λ m. joined_in_time g m ≡ true) l.members) _ l.groups r.group
              r.found seated)
            added)
      | inr kept ↦ rw kept (window_after_no_join c device l.members kept)
    ]
  where
    r : Recorded l c l'
    r = record_commit-Recorded l c l' h
