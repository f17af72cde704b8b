-- ===== src/Mls/Routes/Reachable.antt =====
-- Every ledger that the routes can produce is well-formed.
use Prim.Native.String.{String}
use text.Mathlib.Text.{◌==◌ as str_eq}
use clicked.Prelude.{
  ℕ, suc, ◌≡◌, ◌≤◌, ◌<◌, refl, ◌∙◌, Option, none, some, Bool, true, false, not, ◌||◌, ◌&&◌, List,
  [], ◌∷◌, ◌++◌, map, arith, ◌==◌, if◌then◌else◌, Option-cases, Bool-cases, inl, inr, ◌⊎◌, All,
  All-map, All-append, find_first-All, find_first-holds, update_where, rows_where, any, ==→≡,
}
use clicked.Mls.Ledger.{
  Ledger, MlsGroup, MlsGroupMember, MlsCommit, AddedDevice, CommitInput, CommitResult,
  pending_welcome, is_active_member, leaf_row, removed_leaf, close_leaf, set_epoch, record_commit,
  claim_welcome,
}
use clicked.Mls.Ledger.Applied.{Recorded, record_commit-Recorded, record_commit-cases}
use clicked.Mls.Ledger.Windows.{joined_in_time}
use clicked.Mls.Ledger.Reading.{IsWellFormed, record_commit-IsWellFormed}
use clicked.Mls.Routes.{
  Directory, Caller, Context, refused, resolved, resolve_context, InitGroup, new_group, founder,
  insert_group, post_group, PublishCommit, PublishReply, publish_refused, invalid_devices, UuidText,
  are_distinct, added_ids_of, commit_input, is_group, post_commit, recorded, publish_with,
  get_welcome, welcome_with, welcome_reply, inserted, init_in,
}

abbrev pub empty_ledger : Ledger
empty_ledger = record { groups = []; members = []; commits = []; welcomes = []; next_id = 0 }

-- The ledgers that requests to the routes lead to, from the empty one, whatever the users, devices,
-- conversations and their members are at the time of each request. The guards of a commit may have read
-- any ledger.
pub data Reachable : Ledger → Type 0 where
  start : Reachable empty_ledger
  after_post_group :
      (dir : Directory) {l : Ledger} (caller : Caller) (body : InitGroup)
      → Reachable l
      → Reachable (post_group dir l caller body).1
  after_post_commit :
      (dir : Directory) (before : Ledger) {l : Ledger} (caller : Caller) (body : PublishCommit)
      → Reachable l
      → Reachable (post_commit dir before l caller body).1
  after_get_welcome :
      (dir : Directory) {l : Ledger} (caller : Caller) (now : ℕ)
      → Reachable l
      → Reachable (get_welcome dir l caller now).1

-- Rows refer to groups with an id that has been generated.
record IsFresh (l : Ledger) : Type 0 where
  groups : All (λ g. g.id < l.next_id) l.groups
  members : All (λ m. m.mls_group_id < l.next_id) l.members
  commits : All (λ c. c.mls_group_id < l.next_id) l.commits

no_rows_of :
    (id : ℕ) (cs : List MlsCommit)
    → All (λ c. c.mls_group_id < id) cs
    → rows_where (λ c. c.mls_group_id == id) cs ≡ []
no_rows_of id [] h = refl
no_rows_of id (c ∷ cs) (h, hs) = ground (arith, no_rows_of id cs hs)

All-weaken :
    {A : Type 0} (key : A → ℕ) (n m : ℕ) (xs : List A)
    → n ≤ m
    → All (λ x. key x < n) xs
    → All (λ x. key x < m) xs
All-weaken key n m xs h a = All-map _ _ (λ x k. omega arith) xs a

module _ (l : Ledger) (g : MlsGroup) (device user : ℕ) (id : g.id ≡ l.next_id)
    (epoch : g.current_epoch ≡ 0) where
  old_members_in_time :
      (ms : List MlsGroupMember)
      → All (λ m. m.mls_group_id < l.next_id) ms
      → All (λ m. joined_in_time g m ≡ true) ms
  old_members_in_time [] h = tt
  old_members_in_time (m ∷ ms) (h, hs) = (ground arith, old_members_in_time ms hs)

  founder_in_time :
      (gs : List MlsGroup)
      → All (λ h. h.id < l.next_id) gs
      → All (λ h. All (λ m. joined_in_time h m ≡ true) l.members) gs
      → All (λ h. All (λ m. joined_in_time h m ≡ true) (l.members ++ founder g device user ∷ [])) gs
  founder_in_time [] f h = tt
  founder_in_time (x ∷ xs) (f, fs) (h, hs) =
      (All-append _ l.members _ h (ground arith, tt), founder_in_time xs fs hs)

  abbrev with_group_row : Ledger
  with_group_row = record l {
    groups = l.groups ++ g ∷ [];
    members = l.members ++ founder g device user ∷ [];
    next_id = suc l.next_id;
  }

  founded : IsWellFormed l → IsFresh l → IsWellFormed with_group_row × IsFresh with_group_row
  founded h f = (
    record {
      sequenced =
          All-append _ l.groups _ h.sequenced
            (rw (id, epoch, no_rows_of l.next_id l.commits f.commits) refl, tt);
      seated = All-append _ l.groups _ (founder_in_time l.groups f.groups h.seated) (
        All-append _ l.members _ (old_members_in_time l.members f.members) (ground arith, tt),
        tt,
      );
    },
    record {
      groups =
          All-append _ l.groups _ (All-weaken (λ h. h.id) _ _ l.groups (omega arith) f.groups)
            (omega arith, tt);
      members =
          All-append _ l.members _
            (All-weaken (λ h. h.mls_group_id) _ _ l.members (omega arith) f.members)
            (omega arith, tt);
      commits = All-weaken (λ h. h.mls_group_id) _ _ l.commits (omega arith) f.commits;
    },
  )

module _ (c : CommitInput) (n : ℕ) where
  groups_fresh :
      (gs : List MlsGroup)
      → All (λ g. g.id < n) gs
      → All (λ g. g.id < n) (update_where (λ g. g.id == c.mls_group_id) (set_epoch c.epoch) gs)
  groups_fresh [] h = tt
  groups_fresh (g ∷ gs) (h, hs) = (ground arith, groups_fresh gs hs)

  leaves_fresh :
      (ms : List MlsGroupMember)
      → All (λ m. m.mls_group_id < n) ms
      → All (λ m. m.mls_group_id < n) (update_where (removed_leaf c) (close_leaf c.epoch) ms)
  leaves_fresh [] h = tt
  leaves_fresh (m ∷ ms) (h, hs) = (ground arith, leaves_fresh ms hs)

  new_leaves_fresh :
      (ds : List AddedDevice)
      → c.mls_group_id < n
      → All (λ m. m.mls_group_id < n) (map (leaf_row c) ds)
  new_leaves_fresh [] h = tt
  new_leaves_fresh (d ∷ ds) h = (h, new_leaves_fresh ds h)

Recorded-IsFresh :
    (l : Ledger) (c : CommitInput) (l' : Ledger) → Recorded l c l' → IsFresh l → IsFresh l'
Recorded-IsFresh l c l' r f =
    let same : r.group.id ≡ c.mls_group_id =
      ==→≡ _ _ (find_first-holds (λ g. g.id == c.mls_group_id) l.groups {r = r.group} r.found) in
    let old =
      find_first-All (λ g. g.id < l.next_id) (λ g. g.id == c.mls_group_id) l.groups r.group r.found
        f.groups in
    let grown : l.next_id ≤ l'.next_id = rw r.applied.next_id (omega arith) in
    record {
      groups =
          rw r.applied.groups
            (groups_fresh c _ l.groups (All-weaken (λ g. g.id) _ _ l.groups grown f.groups));
      members = rw r.applied.members (
          All-append _ (update_where (removed_leaf c) (close_leaf c.epoch) l.members) _
            (leaves_fresh c _ l.members
              (All-weaken (λ m. m.mls_group_id) _ _ l.members grown f.members))
            (new_leaves_fresh c _ c.added_devices (omega arith)));
      commits = rw r.applied.commits (
          All-append _ l.commits _ (All-weaken (λ d. d.mls_group_id) _ _ l.commits grown f.commits)
            (omega arith, tt));
    }

record_commit-IsFresh : (l : Ledger) (c : CommitInput) → IsFresh l → IsFresh (record_commit l c).1
record_commit-IsFresh l c f = elim (record_commit-cases l c) [
  | inl same ↦ rw same f
  | inr done ↦ Recorded-IsFresh l c _ (record_commit-Recorded l c (record_commit l c).1 done) f
]

unfoldable IsSound : Ledger → Type 0
IsSound l = IsWellFormed l × IsFresh l

record_commit-IsSound : (l : Ledger) (c : CommitInput) → IsSound l → IsSound (record_commit l c).1
unfolding IsSound
record_commit-IsSound l c h = (record_commit-IsWellFormed l c h.0, record_commit-IsFresh l c h.1)

module _ (l : Ledger) (e0 e1 e2 : String) (n0 n1 n2 : ℕ) (bad : List UuidText)
    (r : PublishReply × Ledger) where
  ledger_after_guards :
      (active unique overlap unfit : Bool)
      → ((if not active
            then (publish_refused n0 e0, l)
            else if not unique
            then (publish_refused n1 e1, l)
            else if overlap
            then (publish_refused n2 e2, l)
            else if unfit
            then (invalid_devices bad, l)
            else r).1
          ≡ l)
        ⊎ ((if not active
              then (publish_refused n0 e0, l)
              else if not unique
              then (publish_refused n1 e1, l)
              else if overlap
              then (publish_refused n2 e2, l)
              else if unfit
              then (invalid_devices bad, l)
              else r).1
            ≡ r.1)
  ledger_after_guards false unique overlap unfit = inl refl
  ledger_after_guards true false overlap unfit = inl refl
  ledger_after_guards true true true unfit = inl refl
  ledger_after_guards true true false true = inl refl
  ledger_after_guards true true false false = inr refl

recorded-ledger : (body : PublishCommit) (x : CommitResult × Ledger) → (recorded body x).1 ≡ x.1
recorded-ledger body (result, l) = refl

-- A request for a commit leaves the ledger or records a commit.
post_commit-ledger :
    (dir : Directory) (before l : Ledger) (body : PublishCommit) (ctx : Context)
    → ((publish_with dir before l body ctx).1 ≡ l)
      ⊎ ((c : CommitInput) × ((publish_with dir before l body ctx).1 ≡ (record_commit l c).1))
post_commit-ledger dir before l body (refused status error) = inl refl
post_commit-ledger dir before l body (resolved conversation device none) = inl refl
post_commit-ledger dir before l body (resolved conversation device (some g)) =
    let c = commit_input dir g device body in
    elim (ledger_after_guards l _ _ _ _ _ _ _ (recorded body (record_commit l c))
      (is_active_member before g.id device) (are_distinct (added_ids_of body)) _ _) [
        | inl same ↦ inl same
        | inr done ↦ inr (c, done ∙ recorded-ledger body (record_commit l c))
      ]

claim_welcome-keeps :
    (l : Ledger) (group device now : ℕ) → IsSound l → IsSound (claim_welcome l group device now).1
unfolding claim_welcome IsSound
claim_welcome-keeps l group device now h = elim (Option-cases (pending_welcome l group device)) [
  | inl e ↦ rw (e, claim_welcome) h
  | inr (w, e) ↦
      rw (e, claim_welcome)
        (
          record { sequenced = h.0.sequenced; seated = h.0.seated },
          record { groups = h.1.groups; members = h.1.members; commits = h.1.commits },
        )
]

welcome_reply-ledger :
    (g : MlsGroup) (x : Option (ℕ × String) × Ledger) → (welcome_reply g x).1 ≡ x.1
welcome_reply-ledger g (none, l) = refl
welcome_reply-ledger g (some (epoch, welcome), l) = refl

get_welcome-IsSound :
    (l : Ledger) (now : ℕ) (ctx : Context) → IsSound l → IsSound (welcome_with l now ctx).1
get_welcome-IsSound l now (refused status error) h = h
get_welcome-IsSound l now (resolved conversation device none) h = h
get_welcome-IsSound l now (resolved conversation device (some g)) h =
    rw (welcome_reply-ledger g (claim_welcome l g.id device now))
      (claim_welcome-keeps l g.id device now h)

inserted-IsSound :
    (l : Ledger) (caller : Caller) (g : MlsGroup) (device : ℕ)
    → g.id ≡ l.next_id
    → g.current_epoch ≡ 0
    → IsSound l
    → IsSound (inserted l caller g device (insert_group g l.groups)).1
unfolding insert_group IsSound
inserted-IsSound l caller g device id epoch h =
    elim (Bool-cases (
      any (λ k. k.conversation_id == g.conversation_id || str_eq k.group_id g.group_id) l.groups)) [
        | inl taken ↦ rw taken h
        | inr free ↦ rw free (founded l g device caller.user_id id epoch h.0 h.1)
      ]

post_group-IsSound :
    (dir : Directory) (l : Ledger) (caller : Caller) (body : InitGroup) (ctx : Context)
    → IsSound l
    → IsSound (init_in dir l caller body ctx).1
post_group-IsSound dir l caller body (refused status error) h = h
post_group-IsSound dir l caller body (resolved conversation device (some g)) h = h
post_group-IsSound dir l caller body (resolved conversation device none) h =
    elim (Bool-cases (any (λ c. c.id == conversation && is_group c.type) dir.conversations)) [
      | inl ok ↦
          rw ok (inserted-IsSound l caller (new_group l conversation body) device refl refl h)
      | inr other ↦ rw other h
    ]

Reachable-IsSound : (l : Ledger) → Reachable l → IsSound l
unfolding post_group post_commit get_welcome IsSound
Reachable-IsSound _ start =
    (record { sequenced = tt; seated = tt }, record { groups = tt; members = tt; commits = tt })
Reachable-IsSound _ (after_post_group dir {l} caller body h) =
    post_group-IsSound dir l caller body (resolve_context dir l caller false)
      (Reachable-IsSound l h)
Reachable-IsSound _ (after_post_commit dir before {l} caller body h) =
    elim (post_commit-ledger dir before l body (resolve_context dir before caller true)) [
      | inl same ↦ rw same (Reachable-IsSound l h)
      | inr (c, done) ↦ rw done (record_commit-IsSound l c (Reachable-IsSound l h))
    ]
Reachable-IsSound _ (after_get_welcome dir {l} caller now h) =
    get_welcome-IsSound l now (resolve_context dir l caller true) (Reachable-IsSound l h)

-- Every ledger that the routes lead to from the empty one is well-formed: the commits of each
-- group are its epochs 1 … current epoch in order, and no leaf joined at an epoch that its group has
-- not reached.
pub Reachable-IsWellFormed : (l : Ledger) → Reachable l → IsWellFormed l
unfolding IsSound
Reachable-IsWellFormed l h = (Reachable-IsSound l h).0
