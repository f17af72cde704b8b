-- ===== src/GroupControl/Log.antt =====
-- The control log of a conversation is gap-free, in step with its epoch, and read back in order
-- (`appendGroupControlEvent`, `readGroupControlEvents`, `getGroupState`); with an actor nothing is
-- ever appended.
use clicked.Prelude.{
  ℕ, ◌+◌, ◌-◌, ◌≡◌, ◌≤◌, sym, ap, ◌∙◌, none, some, List, [], ◌∷◌, ◌++◌, map, min, length, arith,
  inl, inr, ltb, ◌==◌, ==→≡, Bool-cases, Option-cases, All, rows_where-and, find_first,
  find_first-holds, find_first-All, log-append, update_where, updated, count_from, count_from-snoc,
  count_from-injective, page_of_log, max_of_log_from_one, next_is_free, length-count_from,
  length-map, map-take, take-count_from, ◌<◌,
}
use clicked.Schema.{Conversation}
use clicked.GroupControl.{
  Store, AppendInput, GroupControlEvent, appended, not_found, refused, append_group_control_event,
  append_at, insert_event, insert_message, event_row, events_of, bump, read_group_control_events,
  get_group_state, page_size, page_of,
}

-- The sequence numbers and the epochs of a conversation's events are 1 … its epoch, in order.
pub record IsInStep (es : List GroupControlEvent) (v : Conversation) : Type 0 where
  pub sequences : map (λ e. e.sequence) (events_of v.id es) ≡ count_from 0 v.epoch
  pub epochs : map (λ e. e.epoch) (events_of v.id es) ≡ count_from 0 v.epoch

abbrev pub IsGapFree : Store → Type 0
IsGapFree s = All (IsInStep s.events) s.conversations

-- An append with an actor, to a conversation that exists, is refused, whatever the event and the
-- rest of the state: the system message that it
-- writes carries its body as ciphertext and has no system payload, which the check of the messages
-- table forbids for system rows.
pub append-refused_with_actor :
    (s : Store) (i : AppendInput) (actor : ℕ) (v : Conversation)
    → i.actor_user_id ≡ some actor
    → find_first (λ w. w.id == i.conversation_id) s.conversations ≡ some v
    → append_group_control_event s i ≡ (refused, s)
unfolding append_group_control_event append_at insert_message
append-refused_with_actor s i actor v acts found = ground arith

in_step_at :
    (s : Store) (conversation : ℕ) (v : Conversation)
    → IsGapFree s
    → find_first (λ w. w.id == conversation) s.conversations ≡ some v
    → (map (λ e. e.sequence) (events_of conversation s.events) ≡ count_from 0 v.epoch)
      × (map (λ e. e.epoch) (events_of conversation s.events) ≡ count_from 0 v.epoch)
in_step_at s conversation v h found =
    let same =
      ==→≡ _ _ (find_first-holds (λ w. w.id == conversation) s.conversations {r = v} found) in
    let k = find_first-All (IsInStep s.events) _ s.conversations v found h in
    (
      ap (λ c. map (λ e. e.sequence) (events_of c s.events)) (sym same) ∙ k.sequences,
      ap (λ c. map (λ e. e.epoch) (events_of c s.events)) (sym same) ∙ k.epochs,
    )

-- The row and the store of an actor-less append to a conversation at epoch `n`.
abbrev pub next_event : AppendInput → ℕ → GroupControlEvent
next_event i n = event_row i (n + 1) (n + 1) none

abbrev pub next_store : Store → AppendInput → ℕ → Store
next_store s i n = record s {
  conversations = update_where (λ w. w.id == i.conversation_id) bump s.conversations;
  events = s.events ++ next_event i n ∷ [];
  next_id = s.next_id + 1;
}

append_at-next :
    (s : Store) (i : AppendInput) (n : ℕ)
    → map (λ e. e.sequence) (events_of i.conversation_id s.events) ≡ count_from 0 n
    → i.actor_user_id ≡ none
    → append_at s i (n + 1) ≡ some (next_event i n, next_store s i n)
unfolding append_at insert_event
append_at-next s i n h silent = ground (
  arith,
  max_of_log_from_one (λ e. e.sequence) n (events_of i.conversation_id s.events) h,
  next_is_free (λ e. e.sequence) (λ e. e.conversation_id == i.conversation_id) n s.events h,
)

-- An event with no actor, on a conversation of a gap-free store, takes the next sequence number,
-- which is also the next epoch; the conversation's epoch rises with it, and nothing else changes.
pub append-next :
    (s : Store) (i : AppendInput) (v : Conversation)
    → IsGapFree s
    → i.actor_user_id ≡ none
    → find_first (λ w. w.id == i.conversation_id) s.conversations ≡ some v
    → append_group_control_event s i ≡ (appended (next_event i v.epoch), next_store s i v.epoch)
unfolding append_group_control_event
append-next s i v h silent found =
    rw (found, append_group_control_event)
      (rw (append_at-next s i v.epoch (in_step_at s i.conversation_id v h found).0 silent))

append_missing :
    (s : Store) (i : AppendInput)
    → find_first (λ w. w.id == i.conversation_id) s.conversations ≡ none
    → append_group_control_event s i ≡ (not_found, s)
unfolding append_group_control_event
append_missing s i missing = rw (missing, append_group_control_event)

module _ (s : Store) (i : AppendInput) (n : ℕ) where
  event-IsInStep :
      (w : Conversation)
      → (w.id ≡ i.conversation_id → w.epoch ≡ n)
      → IsInStep s.events w
      → IsInStep (s.events ++ next_event i n ∷ []) (updated (λ v. v.id == i.conversation_id) bump w)
  event-IsInStep w here h = elim (Bool-cases (w.id == i.conversation_id)) [
    | inl same ↦
        let e : w.epoch ≡ n = here (==→≡ _ _ same) in
        let k = count_from-snoc 0 w.epoch in
        rw same (record {
          sequences = ground (
            arith,
            h.sequences,
            log-append (λ e. e.sequence) (λ e. e.conversation_id == w.id) s.events (next_event i n),
          );
          epochs = ground (
            arith,
            h.epochs,
            log-append (λ e. e.epoch) (λ e. e.conversation_id == w.id) s.events (next_event i n),
          );
        })
    | inr other ↦ rw other (record {
      sequences = ground (
        arith,
        h.sequences,
        log-append (λ e. e.sequence) (λ e. e.conversation_id == w.id) s.events (next_event i n),
      );
      epochs = ground (
        arith,
        h.epochs,
        log-append (λ e. e.epoch) (λ e. e.conversation_id == w.id) s.events (next_event i n),
      );
    })
  ]

  gap_free_after :
      (ws : List Conversation)
      → map (λ e. e.sequence) (events_of i.conversation_id s.events) ≡ count_from 0 n
      → All (IsInStep s.events) ws
      → All
          (IsInStep (s.events ++ next_event i n ∷ []))
          (update_where (λ v. v.id == i.conversation_id) bump ws)
  gap_free_after [] h hs = tt
  gap_free_after (w ∷ ws) h (k, ks) = (
    event-IsInStep w
        (λ same.
          count_from-injective 0 w.epoch n
            (sym k.sequences ∙ ap (λ c. map (λ e. e.sequence) (events_of c s.events)) same ∙ h))
        k,
    gap_free_after ws h ks,
  )

-- Whatever is appended to a gap-free store, accepted or not, every conversation's log stays gap-free
-- and in step with
-- the conversation's epoch.
pub append-IsGapFree :
    (s : Store) (i : AppendInput) → IsGapFree s → IsGapFree (append_group_control_event s i).1
append-IsGapFree s i h =
    elim (Option-cases (find_first (λ w. w.id == i.conversation_id) s.conversations)) [
      | inl missing ↦ rw (append_missing s i missing) h
      | inr (v, found) ↦ elim (Option-cases i.actor_user_id) [
        | inl silent ↦ rw (append-next s i v h silent found) (
            gap_free_after s i v.epoch s.conversations (in_step_at s i.conversation_id v h found).0
              h)
        | inr (actor, acts) ↦ rw (append-refused_with_actor s i actor v acts found) h
      ]
    ]

page_of-count :
    (size since m : ℕ) (rows : List GroupControlEvent)
    → map (λ e. e.sequence) rows ≡ count_from since (min (size + 1) m)
    → (map (λ e. e.sequence) (page_of size rows).events ≡ count_from since (min size m))
      × ((page_of size rows).has_more ≡ ltb size m)
page_of-count size since m rows h =
    let full : length rows ≡ min (size + 1) m = omega (
      arith,
      length-map (λ (e : GroupControlEvent). e.sequence) rows,
      ap length h,
      length-count_from since (min (size + 1) m),
    ) in
    let a : size < m → min (size + 1) m ≡ size + 1 = λ k. omega arith in
    let b : size < m → min size m ≡ size = λ k. omega arith in
    let c : m ≤ size → min (size + 1) m ≡ min size m = λ k. omega arith in
    let d : min size (min (size + 1) m) ≡ min size m = omega arith in
    ground (
      arith,
      map-take (λ (e : GroupControlEvent). e.sequence) size rows,
      take-count_from size since (min (size + 1) m),
    )

-- In a gap-free store a client that asks for the events after its cursor gets the next sequence numbers, in order and
-- with no gap, at most a page of them; the page is followed by more exactly when the log holds more.
pub read_group_control_events-page :
    (s : Store) (conversation since limit : ℕ) (v : Conversation)
    → IsGapFree s
    → find_first (λ w. w.id == conversation) s.conversations ≡ some v
    → (map (λ e. e.sequence) (read_group_control_events s conversation since limit).events
        ≡ count_from since (min (page_size limit) (v.epoch - since)))
      × ((read_group_control_events s conversation since limit).has_more
          ≡ ltb (page_size limit) (v.epoch - since))
unfolding read_group_control_events
read_group_control_events-page s conversation since limit v h found =
    page_of-count (page_size limit) since (v.epoch - since) _ (
      rw
        (rows_where-and (λ e. e.conversation_id == conversation) (λ e. ltb since e.sequence)
          s.events)
        (page_of_log (λ e. e.sequence) since v.epoch (page_size limit + 1) _
          (in_step_at s conversation v h found).0))

-- A conversation of a gap-free store stands at the epoch that is its latest sequence number, so a
-- client may compare its cursor with either.
pub get_group_state-in_step :
    (s : Store) (conversation : ℕ) (v : Conversation)
    → IsGapFree s
    → find_first (λ w. w.id == conversation) s.conversations ≡ some v
    → get_group_state s conversation ≡ some (record { epoch = v.epoch; latest_sequence = v.epoch })
unfolding get_group_state
get_group_state-in_step s conversation v h found = rw (found) (
    ground (
      arith,
      max_of_log_from_one (λ e. e.sequence) v.epoch (events_of conversation s.events)
          (in_step_at s conversation v h found).0,
    ))
