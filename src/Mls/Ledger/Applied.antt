-- ===== src/Mls/Ledger/Applied.antt =====
-- What a recorded commit changes in each table (`recordCommit`).
use mathlib.Core.List.{append-nil, append_assoc}
use clicked.Prelude.{
  ℕ, suc, ◌+◌, ◌≡◌, none, some, List, [], ◌∷◌, ◌++◌, map, arith, ◌==◌, Bool-cases, Option-cases,
  inl, inr, find_first, update_where, length, ◌⊎◌, ==→≡,
}
use clicked.Mls.Ledger.{
  Ledger, MlsGroup, MlsGroupMember, MlsWelcome, CommitInput, AddedDevice, committed, commit_row,
  leaf_row, welcome_row, removed_leaf, close_leaf, set_epoch, insert_commit, insert_leaves,
  insert_welcomes, apply_commit, record_commit,
}

abbrev pub welcome_rows : CommitInput → ℕ → List AddedDevice → List MlsWelcome
welcome_rows c id [] = []
welcome_rows c id (d ∷ ds) = welcome_row c id d ∷ welcome_rows c (suc id) ds

-- An insert is refused, or appends all its rows.
insert_leaves-cases :
    (rs rows : List MlsGroupMember)
    → (insert_leaves rs rows ≡ none) ⊎ (insert_leaves rs rows ≡ some (rows ++ rs))
unfolding insert_leaves
insert_leaves-cases [] rows = inr (ground (arith, append-nil rows))
insert_leaves-cases (r ∷ rs) rows =
    ground (arith, insert_leaves-cases rs (rows ++ r ∷ []), append_assoc rows (r ∷ []) rs)

insert_welcomes-cases :
    (c : CommitInput) (id : ℕ) (ds : List AddedDevice) (rows : List MlsWelcome)
    → (insert_welcomes c id ds rows ≡ none)
      ⊎ (insert_welcomes c id ds rows ≡ some (id + length ds, rows ++ welcome_rows c id ds))
unfolding insert_welcomes
insert_welcomes-cases c id [] rows = inr (ground (arith, append-nil rows))
insert_welcomes-cases c id (d ∷ ds) rows = ground (
  arith,
  insert_welcomes-cases c (suc id) ds (rows ++ welcome_row c id d ∷ []),
  append_assoc rows (welcome_row c id d ∷ []) (welcome_rows c (suc id) ds),
)

-- The four tables after the commit.
pub record Applied (l : Ledger) (c : CommitInput) (l' : Ledger) : Type 0 where
  pub groups : l'.groups ≡ update_where (λ g. g.id == c.mls_group_id) (set_epoch c.epoch) l.groups
  pub commits : l'.commits ≡ l.commits ++ commit_row c ∷ []
  pub members :
      l'.members
      ≡ update_where (removed_leaf c) (close_leaf c.epoch) l.members
        ++ map (leaf_row c) c.added_devices
  pub welcomes : l'.welcomes ≡ l.welcomes ++ welcome_rows c l.next_id c.added_devices
  pub next_id : l'.next_id ≡ l.next_id + length c.added_devices

apply_commit-Applied :
    (l : Ledger) (c : CommitInput) (l' : Ledger) → apply_commit l c ≡ some l' → Applied l c l'
unfolding apply_commit insert_commit
apply_commit-Applied l c l' e = record {
  groups = ground (arith, leaves, welcomes);
  commits = ground (arith, leaves, welcomes);
  members = ground (arith, leaves, welcomes);
  welcomes = ground (arith, leaves, welcomes);
  next_id = ground (arith, leaves, welcomes);
}
  where
    leaves :
        (insert_leaves
            (map (leaf_row c) c.added_devices)
            (update_where (removed_leaf c) (close_leaf c.epoch) l.members)
          ≡ none)
        ⊎ (insert_leaves
              (map (leaf_row c) c.added_devices)
              (update_where (removed_leaf c) (close_leaf c.epoch) l.members)
            ≡ some (
                update_where (removed_leaf c) (close_leaf c.epoch) l.members
                ++ map (leaf_row c) c.added_devices))
    leaves = insert_leaves-cases _ _

    welcomes :
        (insert_welcomes c l.next_id c.added_devices l.welcomes ≡ none)
        ⊎ (insert_welcomes c l.next_id c.added_devices l.welcomes
            ≡ some (
              l.next_id + length c.added_devices,
              l.welcomes ++ welcome_rows c l.next_id c.added_devices,
            ))
    welcomes = insert_welcomes-cases _ _ _ _

pub record Recorded (l : Ledger) (c : CommitInput) (l' : Ledger) : Type 0 where
  pub group : MlsGroup
  pub found : find_first (λ g. g.id == c.mls_group_id) l.groups ≡ some group
  pub next : c.epoch ≡ group.current_epoch + 1
  pub applied : Applied l c l'

pub record_commit-Recorded :
    (l : Ledger) (c : CommitInput) (l' : Ledger) {e : ℕ}
    → record_commit l c ≡ (committed e, l')
    → Recorded l c l'
unfolding record_commit
record_commit-Recorded l c l' e =
    elim (Option-cases (find_first (λ g. g.id == c.mls_group_id) l.groups)) [
      | inl missing ↦ ground arith
      | inr (g, found) ↦ elim (Bool-cases (c.epoch == g.current_epoch + 1)) [
        | inl next ↦ elim (Option-cases (apply_commit l c)) [
          | inl failed ↦ ground arith
          | inr (l2, done) ↦ record {
            group = g;
            found = found;
            next = ==→≡ _ _ next;
            applied = apply_commit-Applied l c l' (ground arith);
          }
        ]
        | inr other ↦ ground arith
      ]
    ]

-- A commit that is not recorded, for whatever reason, changes nothing.
pub record_commit-cases :
    (l : Ledger) (c : CommitInput)
    → ((record_commit l c).1 ≡ l) ⊎ (record_commit l c ≡ (committed c.epoch, (record_commit l c).1))
unfolding record_commit
record_commit-cases l c = ground arith
