-- ===== src/Mls/Routes/Replay.antt =====
-- Replaying commits page by page (GET /conversations/:id/mls/commits).
use Prim.Native.String.{String}
use clicked.Prelude.{
  leb, rows_where, order_asc, take, max, ◌⊎◌, inl, inr, Bool-cases, rows_where-and, order_after_log,
  after_log, take_own_length, take_of_log, ℕ, zero, suc, ◌+◌, ◌-◌, ◌≡◌, ◌≤◌, ◌<◌, refl, sym, ap,
  ◌∙◌, Option, none, some, Bool, true, false, List, [], ◌∷◌, map, min, arith, ltb, ◌==◌, length,
  length-map, length-count_from, count_from, find_first-All,
}
use clicked.Mls.Visibility.{MlsEpochWindow}
use clicked.Mls.Ledger.{
  Ledger, MlsGroup, MlsCommit, commit_page_size, get_group_by_conversation, get_epoch_window,
  list_commits_since,
}
use clicked.Mls.Ledger.Epochs.{IsSequenced, IsGapFree, list_commits_since_gap_free}
use clicked.Mls.Routes.{
  Directory, Caller, Context, refused, resolved, resolve_context, SinceEpoch, commits_page,
  since_of, limit_of, context_of, with_group, is_conversation_member, last_epoch, page_after,
  commits_for, commits_with, get_commits,
}

-- The commits of a group that produced the epochs after `since` up to `until`.
abbrev pub commits_between : Ledger → ℕ → (since until : ℕ) → List MlsCommit
commits_between l group since until =
    rows_where (λ c. leb c.epoch until)
      (rows_where (λ c. ltb since c.epoch) (rows_where (λ c. c.mls_group_id == group) l.commits))

-- The page starts at the epoch of the join, or at the one that was asked for if that is later.
abbrev pub IsStart : SinceEpoch → (joined since : ℕ) → Type 0
IsStart SinceEpoch.absent joined since = since ≡ joined
IsStart SinceEpoch.malformed joined since = ⊥
IsStart (SinceEpoch.since n) joined since =
    (n ≤ since) × (joined ≤ since) × ((since ≡ n) ⊎ (since ≡ joined))

-- A page for the caller's device and the group of the conversation that the caller names.
pub record Replayed (dir : Directory) (l : Ledger) (caller : Caller) (s : SinceEpoch)
    (since current : ℕ) (commits : List MlsCommit) (has_more : Bool) : Type 0 where
  conversation : ℕ
  device : ℕ
  group : MlsGroup
  window : MlsEpochWindow
  asked : caller.conversation_id ≡ some conversation
  by_device : caller.device_id ≡ some device
  by_member : is_conversation_member dir conversation caller.user_id ≡ true
  of_conversation : get_group_by_conversation l conversation ≡ some group
  of_device : get_epoch_window l group.id device ≡ some window
  start : IsStart s window.joined_at_epoch since
  up_to : current ≡ group.current_epoch
  content : commits ≡ commits_between l group.id since (since + length commits)
  in_order : map (λ c. c.epoch) commits ≡ count_from since (length commits)
  page : length commits ≤ commit_page_size
  complete : has_more ≡ false → current ≤ since + length commits
  progress : has_more ≡ true → (0 < length commits) × (since + length commits < current)

last_epoch-count :
    (s n : ℕ) (cs : List MlsCommit)
    → map (λ c. c.epoch) cs ≡ count_from s n
    → last_epoch s cs ≡ s + n
last_epoch-count s zero [] h = omega arith
last_epoch-count s zero (c ∷ cs) h = cc
last_epoch-count s (suc n) [] h = cc
last_epoch-count s (suc n) (c ∷ cs) h = ground (arith, last_epoch-count (suc s) n cs)

limit_of-bounds : (o : Option ℕ) → (0 < limit_of o) × (limit_of o ≤ commit_page_size)
limit_of-bounds none = omega arith
limit_of-bounds (some n) = ground arith

pub resolved-group :
    (dir : Directory) (l : Ledger) (caller : Caller) (require : Bool) (conversation device : ℕ)
    (g : Option MlsGroup)
    → resolve_context dir l caller require ≡ resolved conversation device g
    → get_group_by_conversation l conversation ≡ g
unfolding resolve_context
resolved-group dir l caller require conversation device g e = ground arith

-- Whose request a resolved context is.
module _ (dir : Directory) (l : Ledger) (user conversation device : ℕ) (g : Option MlsGroup) where
  abbrev IsRequest : Option ℕ → Option ℕ → Type 0
  IsRequest c d =
      (c ≡ some conversation)
      × (d ≡ some device)
      × (is_conversation_member dir conversation user ≡ true)

  IsRequest-of_ids :
      (c d : ℕ)
      → is_conversation_member dir c user ≡ true
      → c ≡ conversation
      → d ≡ device
      → IsRequest (some c) (some d)
  IsRequest-of_ids c d member same_c same_d = (
    ap some same_c,
    ap some same_d,
    ap (λ n. is_conversation_member dir n user) (sym same_c) ∙ member,
  )

  IsRequest-of_group :
      (require : Bool) (c d : ℕ) (o : Option MlsGroup)
      → is_conversation_member dir c user ≡ true
      → with_group require c d o ≡ resolved conversation device g
      → IsRequest (some c) (some d)
  IsRequest-of_group true c d none member e = cc
  IsRequest-of_group false c d none member e =
      let same_c : c ≡ conversation = cc in
      let same_d : d ≡ device = cc in IsRequest-of_ids c d member same_c same_d
  IsRequest-of_group true c d (some h) member e =
      let same_c : c ≡ conversation = cc in
      let same_d : d ≡ device = cc in IsRequest-of_ids c d member same_c same_d
  IsRequest-of_group false c d (some h) member e =
      let same_c : c ≡ conversation = cc in
      let same_d : d ≡ device = cc in IsRequest-of_ids c d member same_c same_d

  not_refused : (n : ℕ) (message : String) → refused n message ≡ resolved conversation device g → ⊥
  not_refused n message e = cc

  IsRequest-of_context :
      (require : Bool) (c d : Option ℕ)
      → context_of dir l require user c d ≡ resolved conversation device g
      → IsRequest c d
  IsRequest-of_context require none d e = cc
  IsRequest-of_context require (some c) none e = cc
  IsRequest-of_context require (some c) (some d) e =
      elim (Bool-cases (is_conversation_member dir c user)) [
        | inl member ↦
            IsRequest-of_group require c d (get_group_by_conversation l c) member (rw member at e)
        | inr outside ↦ absurd (not_refused _ _ (rw outside at e))
      ]

group_of_context :
    (dir : Directory) (l : Ledger) (caller : Caller) (conversation device : ℕ) (g : MlsGroup)
    → IsSequenced l
    → resolve_context dir l caller true ≡ resolved conversation device (some g)
    → IsGapFree l.commits g
unfolding get_group_by_conversation
group_of_context dir l caller conversation device g h e =
    find_first-All (IsGapFree l.commits) (λ g. g.conversation_id == conversation) l.groups g
      (resolved-group dir l caller true conversation device (some g) e) h

page_content :
    (l : Ledger) (g : MlsGroup) (limit since : ℕ)
    → IsGapFree l.commits g
    → list_commits_since l g.id since limit
      ≡ commits_between l g.id since (since + length (list_commits_since l g.id since limit))
unfolding list_commits_since
page_content l g limit since free =
    let of_group = rows_where (λ c. c.mls_group_id == g.id) l.commits in
    let later = rows_where (λ c. ltb since c.epoch) of_group in
    let k = min limit commit_page_size in
    let taken : list_commits_since l g.id since limit ≡ take k later =
      ap (λ xs. take k (order_asc (λ c. c.epoch) xs))
        (rows_where-and (λ c. c.mls_group_id == g.id) (λ c. ltb since c.epoch) l.commits)
      ∙ ap (take k) (order_after_log (λ c. c.epoch) since g.current_epoch of_group free) in
    taken
    ∙ take_own_length k later
    ∙ take_of_log (λ c. c.epoch) since (g.current_epoch - since) (length (take k later)) later
        (after_log (λ c. c.epoch) since g.current_epoch of_group free)
    ∙ ap (λ xs. commits_between l g.id since (since + length xs)) (sym taken)

IsStart-of_since : (joined n : ℕ) (s : SinceEpoch) → since_of joined s ≡ some n → IsStart s joined n
IsStart-of_since joined n SinceEpoch.absent h = ground arith
IsStart-of_since joined n SinceEpoch.malformed h = cc
IsStart-of_since joined n (SinceEpoch.since m) h =
    let e : max m joined ≡ n = cc in
    elim (Bool-cases (leb m joined)) [
      | inl below ↦ (ground arith, ground arith, inr (ground arith))
      | inr above ↦ (ground arith, ground arith, inl (ground arith))
    ]

page-Replayed :
    (dir : Directory) (l : Ledger) (caller : Caller) (s : SinceEpoch) (conversation device : ℕ)
    (g : MlsGroup) (w : MlsEpochWindow) (limit : Option ℕ) (since : ℕ)
    → IsSequenced l
    → resolve_context dir l caller true ≡ resolved conversation device (some g)
    → get_epoch_window l g.id device ≡ some w
    → since_of w.joined_at_epoch s ≡ some since
    → Replayed dir l caller s since g.current_epoch
        (list_commits_since l g.id since (limit_of limit))
        (ltb (last_epoch since (list_commits_since l g.id since (limit_of limit))) g.current_epoch)
unfolding resolve_context
page-Replayed dir l caller s conversation device g w limit since h context of_device start =
    let free = group_of_context dir l caller conversation device g h context in
    let request =
      IsRequest-of_context dir l caller.user_id conversation device (some g) true
        caller.conversation_id caller.device_id context in
    let cs = list_commits_since l g.id since (limit_of limit) in
    let n = min (min (limit_of limit) commit_page_size) (g.current_epoch - since) in
    let epochs : map (λ c. c.epoch) cs ≡ count_from since n =
      list_commits_since_gap_free l g.id g.current_epoch since (limit_of limit) free in
    let size : length cs ≡ n =
      sym (length-map (λ c. c.epoch) cs) ∙ ap length epochs ∙ length-count_from since n in
    let bounds = limit_of-bounds limit in
    let last = last_epoch-count since n cs epochs in
    record {
      conversation = conversation;
      device = device;
      group = g;
      window = w;
      asked = request.0;
      by_device = request.1;
      by_member = request.2;
      of_conversation = resolved-group dir l caller true conversation device (some g) context;
      of_device = of_device;
      start = IsStart-of_since w.joined_at_epoch since s start;
      up_to = refl;
      content = page_content l g (limit_of limit) since free;
      in_order = rw size epochs;
      page = omega arith;
      complete = λ h. ground arith;
      progress = λ h. ground arith;
    }

module _ (l : Ledger) (since current : ℕ) (commits : List MlsCommit) (has_more : Bool) where
  group_of_page :
      (s : SinceEpoch) (limit : Option ℕ) (ctx : Context)
      → commits_with l s limit ctx ≡ commits_page since current commits has_more
      → (conversation : ℕ) × (device : ℕ) × (g : MlsGroup) × (ctx
          ≡ resolved conversation device (some g))
        × (commits_for l s limit g (get_epoch_window l g.id device)
            ≡ commits_page since current commits has_more)
  group_of_page s limit (refused status error) e = cc
  group_of_page s limit (resolved conversation device none) e = cc
  group_of_page s limit (resolved conversation device (some g)) e =
      (conversation, device, g, refl, e)

  window_of_page :
      (s : SinceEpoch) (limit : Option ℕ) (g : MlsGroup) (o : Option MlsEpochWindow)
      → commits_for l s limit g o ≡ commits_page since current commits has_more
      → (w : MlsEpochWindow) × (o ≡ some w)
        × (page_after l g (limit_of limit) (since_of w.joined_at_epoch s)
            ≡ commits_page since current commits has_more)
  window_of_page s limit g none e = cc
  window_of_page s limit g (some w) e = (w, refl, e)

  page_fields :
      (g : MlsGroup) (limit : ℕ) (o : Option ℕ)
      → page_after l g limit o ≡ commits_page since current commits has_more
      → (o ≡ some since)
        × (current ≡ g.current_epoch)
        × (commits ≡ list_commits_since l g.id since limit)
        × (has_more
            ≡ ltb (last_epoch since (list_commits_since l g.id since limit)) g.current_epoch)
  page_fields g limit none e = cc
  page_fields g limit (some s) e = let same : s ≡ since = cc in (cc, cc, cc, rw (sym same) cc)

-- For a ledger whose commit logs have no gap, a page is answered only to a member of the
-- conversation that the request names, whose device has a window in the conversation's group. It
-- starts at the epoch at which this device joined, or at the epoch asked for if that is later. It
-- holds exactly the commits of the group from there up to some epoch, in order and with no gap, and at
-- most a page of them. It says that there is no more only when it reaches the current epoch, and
-- otherwise it has at least one commit and does not reach it, so that asking again makes progress.
pub get_commits-Replayed :
    (dir : Directory) (l : Ledger) (caller : Caller) (s : SinceEpoch) (limit : Option ℕ)
    (since current : ℕ) (commits : List MlsCommit) (has_more : Bool)
    → IsSequenced l
    → get_commits dir l caller s limit ≡ commits_page since current commits has_more
    → Replayed dir l caller s since current commits has_more
unfolding get_commits
get_commits-Replayed dir l caller s limit since current commits has_more h e =
    let (conversation, device, g, context, for_group) =
      group_of_page l since current commits has_more s limit (resolve_context dir l caller true)
        e in
    let (w, of_device, page) =
      window_of_page l since current commits has_more s limit g (get_epoch_window l g.id device)
        for_group in
    let (start, up_to, found, more) =
      page_fields l since current commits has_more g (limit_of limit) (since_of w.joined_at_epoch s)
        page in
    rw (up_to, found, more)
      (page-Replayed dir l caller s conversation device g w limit since h context of_device start)
