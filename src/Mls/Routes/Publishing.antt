-- ===== src/Mls/Routes/Publishing.antt =====
-- What a published commit has passed (POST /conversations/:id/mls/commits).
use Prim.Native.String.{String}
use clicked.Prelude.{
  ℕ, ◌≡◌, refl, sym, ap, ◌∙◌, subst, none, Bool-cases, some, Bool, true, false, not, List, [], ◌∷◌,
  ◌++◌, map, arith, Option-cases, inl, inr, any, has, is_distinct, All, update_where, rows_where,
  ◌==◌, if◌then◌else◌,
}
use clicked.Mls.Ledger.{
  Ledger, MlsGroup, MlsGroupMember, CommitInput, CommitResult, committed, epoch_conflict, aborted,
  leaf_row, removed_leaf, close_leaf, is_active_member, record_commit,
}
use clicked.Mls.Ledger.Applied.{record_commit-Recorded}
use clicked.Mls.Routes.{
  Directory, Caller, Context, resolved, refused, resolve_context, PublishCommit, PublishReply,
  UuidText, includes, are_distinct, published, publish_refused, invalid_devices, recorded,
  publish_with, publish_in, AddedBody, added_ids_of, is_addable, device_owner, with_owner,
  commit_input, post_commit,
}

-- A leaf whose user is in the conversation and whose device is an active one of that user.
pub record IsSeatOf (dir : Directory) (conversation : ℕ) (m : MlsGroupMember) : Type 0 where
  owner : device_owner dir m.device_id ≡ some m.user_id
  member :
      has m.user_id
        (map (λ r. r.user_id) (rows_where (λ r. r.conversation_id == conversation) dir.members))
      ≡ true

pub record Published (dir : Directory) (l now : Ledger) (caller : Caller) (body : PublishCommit)
    (l' : Ledger) : Type 0 where
  conversation : ℕ
  device : ℕ
  group : MlsGroup
  context : resolve_context dir l caller true ≡ resolved conversation device (some group)
  by_member : is_active_member l group.id device ≡ true
  distinct : is_distinct (map (λ id. id.uuid) (added_ids_of body)) ≡ true
  own_spelling : All (λ id. id.spelling ≡ 0) (added_ids_of body)
  not_removed : any (includes body.removed_device_ids) (added_ids_of body) ≡ false
  recorded : record_commit now (commit_input dir group device body) ≡ (committed body.epoch, l')
  new_leaves : List MlsGroupMember
  new_devices : map (λ m. m.device_id) new_leaves ≡ map (λ id. id.uuid) (added_ids_of body)
  leaves :
      l'.members
      ≡ update_where
          (removed_leaf (commit_input dir group device body))
          (close_leaf body.epoch)
          now.members
        ++ new_leaves
  seats : All (IsSeatOf dir conversation) new_leaves

-- Texts in one spelling are distinct only if their uuids are.
own_uuids-distinct :
    (ids : List UuidText)
    → All (λ id. id.spelling ≡ 0) ids
    → are_distinct ids ≡ true
    → is_distinct (map (λ id. id.uuid) ids) ≡ true
own_uuids-distinct [] own e = refl
own_uuids-distinct (t ∷ ts) (own, owns) e =
    let apart : has t.uuid (map (λ id. id.uuid) ts) ≡ false =
      sym (includes-has ts owns) ∙ ground arith in
    let rest = own_uuids-distinct ts owns (ground arith) in ground arith
  where
    includes-has :
        (xs : List UuidText)
        → All (λ id. id.spelling ≡ 0) xs
        → includes xs t ≡ has t.uuid (map (λ id. id.uuid) xs)
    includes-has [] h = refl
    includes-has (x ∷ xs) (h, hs) =
        let same : (t.spelling == x.spelling) ≡ true = ground arith in
        rw (same, includes-has xs hs) (ground arith)

module _ (dir : Directory) (conversation : ℕ) where
  seat_of :
      (c : CommitInput) (d : AddedBody)
      → is_addable dir conversation d.device_id ≡ true
      → IsSeatOf dir conversation (leaf_row c (with_owner dir d))
  seat_of c d h = elim (Bool-cases (d.device_id.spelling == 0)) [
    | inr other ↦ absurd (never (rw other at h))
    | inl own ↦ elim (Option-cases (device_owner dir d.device_id.uuid)) [
      | inl missing ↦ absurd (never (rw (own, missing) at h))
      | inr (owner, found) ↦ record {
        owner = found ∙ ap some (sym (user_of own found));
        member = rw (user_of own found) (rw (own, found) at h);
      }
    ]
  ]
    where
      never : false ≡ true → ⊥
      never e = cc

      user_of :
          {owner : ℕ}
          → (d.device_id.spelling == 0) ≡ true
          → device_owner dir d.device_id.uuid ≡ some owner
          → (with_owner dir d).user_id ≡ owner
      user_of own found = rw (own, found) refl

  own_of : (id : UuidText) → is_addable dir conversation id ≡ true → id.spelling ≡ 0
  own_of id h = elim (Bool-cases (id.spelling == 0)) [
    | inl own ↦ ground arith
    | inr other ↦ absurd (never (rw other at h))
  ]
    where
      never : false ≡ true → ⊥
      never e = cc

  owns_of :
      (ids : List UuidText)
      → any (λ id. not (is_addable dir conversation id)) ids ≡ false
      → All (λ id. id.spelling ≡ 0) ids
  owns_of [] h = tt
  owns_of (id ∷ ids) h = (own_of id (ground arith), owns_of ids (ground arith))

  leaf_devices :
      (c : CommitInput) (ds : List AddedBody)
      → map (λ m. m.device_id) (map (leaf_row c) (map (with_owner dir) ds))
        ≡ map (λ id. id.uuid) (map (λ d. d.device_id) ds)
  leaf_devices c [] = refl
  leaf_devices c (d ∷ ds) = ap (◌∷◌ d.device_id.uuid) (leaf_devices c ds)

  seats_of :
      (c : CommitInput) (ds : List AddedBody)
      → any (λ id. not (is_addable dir conversation id)) (map (λ d. d.device_id) ds) ≡ false
      → All (IsSeatOf dir conversation) (map (leaf_row c) (map (with_owner dir) ds))
  seats_of c [] h = tt
  seats_of c (d ∷ ds) h = (seat_of c d (ground arith), seats_of c ds (ground arith))

committed_of_published :
    (body : PublishCommit) (r : CommitResult × Ledger) (epoch : ℕ) (added removed : List UuidText)
    (l' : Ledger)
    → recorded body r ≡ (published epoch added removed, l')
    → r ≡ (committed epoch, l')
committed_of_published body (committed e, m) epoch added removed l' h = cc
committed_of_published body (epoch_conflict e, m) epoch added removed l' h = cc
committed_of_published body (aborted, m) epoch added removed l' h = cc

context_of_published :
    (dir : Directory) (l now : Ledger) (body : PublishCommit) (ctx : Context) (epoch : ℕ)
    (added removed : List UuidText) (l' : Ledger)
    → publish_with dir l now body ctx ≡ (published epoch added removed, l')
    → (conversation : ℕ) × (device : ℕ) × (g : MlsGroup) × (ctx
        ≡ resolved conversation device (some g))
      × (publish_in dir l now body conversation device g ≡ (published epoch added removed, l'))
context_of_published dir l now body (refused status error) epoch added removed l' h = cc
context_of_published dir l now body (resolved conversation device none) epoch added removed l' h =
    cc
context_of_published dir l now body (resolved conversation device (some g)) epoch added removed l'
      h =
    (conversation, device, g, refl, h)

committed-epoch :
    (l : Ledger) (c : CommitInput) (e : ℕ) (l' : Ledger)
    → record_commit l c ≡ (committed e, l')
    → e ≡ c.epoch
unfolding record_commit
committed-epoch l c e l' h = ground arith

module _ (l : Ledger) (e0 e1 e2 : String) (n0 n1 n2 : ℕ) (bad : List UuidText)
    (r : PublishReply × Ledger) where
  -- Only a request that passes the four guards is published.
  guards_of_published :
      (active unique overlap unfit : Bool) (epoch : ℕ) (added removed : List UuidText) (l' : Ledger)
      → (if not active
          then (publish_refused n0 e0, l)
          else if not unique
          then (publish_refused n1 e1, l)
          else if overlap
          then (publish_refused n2 e2, l)
          else if unfit
          then (invalid_devices bad, l)
          else r)
        ≡ (published epoch added removed, l')
      → (active ≡ true)
        × (unique ≡ true)
        × (overlap ≡ false)
        × (unfit ≡ false)
        × (r ≡ (published epoch added removed, l'))
  guards_of_published false unique overlap unfit epoch added removed l' h = cc
  guards_of_published true false overlap unfit epoch added removed l' h = cc
  guards_of_published true true true unfit epoch added removed l' h = cc
  guards_of_published true true false true epoch added removed l' h = cc
  guards_of_published true true false false epoch added removed l' h = (refl, refl, refl, refl, h)

-- A commit is published only for a device with an active leaf, and it is then the next commit of the
-- ledger on which its transaction runs. It seats exactly the devices that the body adds, which are
-- distinct and written as the database writes them; each is, where the guards read, an active device of
-- a user who is in the conversation. The leaves that were there stay, and those of the removed devices
-- are closed. No added id is also a removed one in the same spelling.
pub post_commit-Published :
    (dir : Directory) (l now : Ledger) (caller : Caller) (body : PublishCommit) (l' : Ledger)
    (epoch : ℕ) (added removed : List UuidText)
    → post_commit dir l now caller body ≡ (published epoch added removed, l')
    → Published dir l now caller body l'
unfolding post_commit
post_commit-Published dir l now caller body l' epoch added removed h =
    let (conversation, device, g, context, guarded) =
      context_of_published dir l now body (resolve_context dir l caller true) epoch added removed l'
        h in
    let (active, unique, apart, fit, done) =
      guards_of_published now _ _ _ _ _ _ _ _ (is_active_member l g.id device)
        (are_distinct (added_ids_of body)) _ _ epoch added removed l' guarded in
    let c = commit_input dir g device body in
    let result = committed_of_published body (record_commit now c) epoch added removed l' done in
    let own = owns_of dir conversation (added_ids_of body) fit in
    record {
      conversation = conversation;
      device = device;
      group = g;
      context = context;
      by_member = active;
      distinct = own_uuids-distinct (added_ids_of body) own unique;
      own_spelling = own;
      not_removed = apart;
      recorded =
          subst (λ e. record_commit now c ≡ (committed e, l'))
            (committed-epoch now c epoch l' result) result;
      new_leaves = map (leaf_row c) (map (with_owner dir) body.added_devices);
      new_devices = leaf_devices dir conversation c body.added_devices;
      leaves = (record_commit-Recorded now c l' result).applied.members;
      seats = seats_of dir conversation c body.added_devices fit;
    }
