-- ===== src/RateLimiter/Budget.antt =====
-- What the in-process counters count: for each bucket, identifier and window, what was charged.
use clicked.Prelude.{
  ℕ, ◌+◌, ◌*◌, ◌≤◌, ◌<◌, ◌≡◌, refl, sym, ap, subst, ◌∙◌, none, some, Bool, true, false, List, [],
  ◌∷◌, ◌++◌, leb, if◌then◌else◌, rows_where, find_first, update_where, updated, All, All-append,
  inl, inr, ◌⊎◌, arith, Bool-cases, Option-cases, find_first-holds, find_first-All,
  find_first-left_out, find_first-update_none, find_first-snoc_none, find_first-missing,
}
use clicked.RateLimits.{RateLimitBucket, RateLimitRule}
use clicked.RateLimiter.{
  CounterKey, LocalCounter, same_key, add_cost, is_live, entry_of, fresh_entry, consume_locally,
  Request, counter_key, consume_rate_limit,
}
use clicked.RateLimiter.Window.{
  same_key→≡, same_key_refl, same_key-sym, same_key-sym_true, window_bounds,
}

module _ (get_rule : RateLimitBucket → RateLimitRule) where
  abbrev pub key_of : Request → CounterKey
  key_of r = counter_key get_rule false r.bucket r.identifier r.now

  -- What a list of requests, the latest first, charged to a counter.
  unfoldable pub spent : CounterKey → List Request → ℕ
  spent key [] = 0
  spent key (r ∷ rs) =
      if same_key (counter_key get_rule false r.bucket r.identifier r.now) key
      then r.cost + spent key rs
      else spent key rs

  -- When the counter's window ends, in milliseconds.
  abbrev end_of : CounterKey → ℕ
  end_of key = (key.window + 1) * (1000 * (get_rule key.bucket).window_seconds)

  abbrev IsCounted : List Request → LocalCounter → Type 0
  IsCounted rs c = (c.used ≡ spent c.key rs) × (end_of c.key ≤ c.expires_at)

  -- At a clock reading, every entry counts what was charged to its counter, and nothing was charged
  -- to a counter without an entry whose window is not over.
  abbrev Counts : List LocalCounter → List Request → ℕ → Type 0
  Counts counters rs t =
      All (IsCounted rs) counters
      × ((key : CounterKey)
          → find_first (entry_of key) counters ≡ none
          → (spent key rs ≡ 0) ⊎ (end_of key ≤ t))

  -- An entry of a counter that lost all its entries had expired.
  absent_after :
      (key : CounterKey) (now : ℕ) (n : LocalCounter) (rs : List Request) (cs : List LocalCounter)
      → All (IsCounted rs) cs
      → find_first (entry_of key) (rows_where (is_live now) cs ++ n ∷ []) ≡ none
      → (find_first (entry_of key) cs ≡ none) ⊎ (end_of key ≤ now)
  absent_after key now n rs cs a h =
      elim (find_first-left_out (entry_of key) (is_live now) cs n h) [
        | inl missing ↦ inl missing
        | inr (c, found, expired) ↦
            let same = same_key→≡ c.key key (find_first-holds (entry_of key) cs found) in
            let late : end_of key ≤ c.expires_at =
              subst (λ k. end_of k ≤ c.expires_at) same
                (find_first-All (IsCounted rs) (entry_of key) cs c found a).1 in
            inr (ground arith)
      ]

  -- A request that is not charged to a counter leaves what was charged to it.
  pub spent-other :
      (key : CounterKey) (r : Request) (rs : List Request)
      → same_key (key_of r) key ≡ false
      → spent key (r ∷ rs) ≡ spent key rs
  unfolding spent
  spent-other key r rs h = rw h refl

  pub spent-same :
      (key : CounterKey) (r : Request) (rs : List Request)
      → same_key (key_of r) key ≡ true
      → spent key (r ∷ rs) ≡ r.cost + spent key rs
  unfolding spent
  spent-same key r rs h = rw h refl

  -- The entries of other counters stay right after a request.
  rows_where-IsCounted :
      (r : Request) (rs : List Request) (q : LocalCounter → Bool) (cs : List LocalCounter)
      → All (IsCounted rs) cs
      → All (λ c. entry_of (key_of r) c ≡ false) cs
      → All (IsCounted (r ∷ rs)) (rows_where q cs)
  rows_where-IsCounted r rs q [] a others = tt
  rows_where-IsCounted r rs q (c ∷ cs) (a, as_) (other, others) =
      let here : IsCounted (r ∷ rs) c =
        (a.0 ∙ sym (spent-other c.key r rs (same_key-sym (key_of r) c.key other)), a.1) in
      let rest = rows_where-IsCounted r rs q cs as_ others in
      elim (q c)
        as (λ b. All (IsCounted (r ∷ rs)) (if b then c ∷ rows_where q cs else rows_where q cs)) [
          | true ↦ (here, rest)
          | false ↦ rest
        ]

  -- Charging the entries of a counter keeps all entries right.
  update_where-IsCounted :
      (r : Request) (rs : List Request) (cs : List LocalCounter)
      → All (IsCounted rs) cs
      → All (IsCounted (r ∷ rs)) (update_where (entry_of (key_of r)) (add_cost r.cost) cs)
  update_where-IsCounted r rs [] a = tt
  update_where-IsCounted r rs (c ∷ cs) (a, as_) = (here, update_where-IsCounted r rs cs as_)
    where
      here : IsCounted (r ∷ rs) (updated (entry_of (key_of r)) (add_cost r.cost) c)
      here = elim (Bool-cases (entry_of (key_of r) c)) [
        | inl hit ↦
            rw (hit, spent-same c.key r rs (same_key-sym_true (key_of r) c.key hit))
              (ground arith, a.1)
        | inr miss ↦ rw (miss, spent-other c.key r rs (same_key-sym (key_of r) c.key miss)) a
      ]

  abbrev ttl_of : Request → ℕ
  ttl_of r = (get_rule r.bucket).window_seconds

  in_window : (r : Request) → 0 < ttl_of r → r.now < end_of (key_of r)
  in_window r pos = (window_bounds (ttl_of r) r.now pos).1

  fresh_entry-Counts :
      (cs : List LocalCounter) (rs : List Request) (t : ℕ) (r : Request)
      → Counts cs rs t
      → t ≤ r.now
      → 0 < ttl_of r
      → find_first (entry_of (key_of r)) cs ≡ none
      → (r.cost ≡ spent (key_of r) (r ∷ rs))
        × Counts (fresh_entry (key_of r) r.cost (ttl_of r) r.now cs) (r ∷ rs) r.now
  fresh_entry-Counts cs rs t r (counted, absent) later pos missing = (first, (kept, gone))
    where
      none_yet : spent (key_of r) rs ≡ 0
      none_yet = elim (absent (key_of r) missing) [
        | inl z ↦ z
        | inr over ↦ let soon = in_window r pos in omega arith
      ]

      first : r.cost ≡ spent (key_of r) (r ∷ rs)
      first = rw (spent-same (key_of r) r rs (same_key_refl (key_of r)), none_yet) (omega arith)

      kept : All (IsCounted (r ∷ rs)) (fresh_entry (key_of r) r.cost (ttl_of r) r.now cs)
      kept =
          All-append (IsCounted (r ∷ rs)) (rows_where (is_live r.now) cs) (_ ∷ [])
            (rows_where-IsCounted r rs (is_live r.now) cs counted
              (find_first-missing (entry_of (key_of r)) cs missing))
            ((first, let start = (window_bounds (ttl_of r) r.now pos).0 in omega arith), tt)

      gone :
          (key : CounterKey)
          → find_first (entry_of key) (fresh_entry (key_of r) r.cost (ttl_of r) r.now cs) ≡ none
          → (spent key (r ∷ rs) ≡ 0) ⊎ (end_of key ≤ r.now)
      gone key h =
          let other = find_first-snoc_none (entry_of key) (rows_where (is_live r.now) cs) _ h in
          rw (spent-other key r rs other) (elim (absent_after key r.now _ rs cs counted h) [
            | inl missing_key ↦ elim (absent key missing_key) [
              | inl z ↦ inl z
              | inr over ↦ inr (omega arith)
            ]
            | inr over ↦ inr over
          ])

  update_where-Counts :
      (cs : List LocalCounter) (rs : List Request) (t : ℕ) (r : Request) (c : LocalCounter)
      → Counts cs rs t
      → t ≤ r.now
      → find_first (entry_of (key_of r)) cs ≡ some c
      → (c.used + r.cost ≡ spent (key_of r) (r ∷ rs))
        × Counts (update_where (entry_of (key_of r)) (add_cost r.cost) cs) (r ∷ rs) r.now
  update_where-Counts cs rs t r c (counted, absent) later found =
      (used, (update_where-IsCounted r rs cs counted, gone))
    where
      same : c.key ≡ key_of r
      same = same_key→≡ c.key (key_of r) (find_first-holds (entry_of (key_of r)) cs found)

      used : c.used + r.cost ≡ spent (key_of r) (r ∷ rs)
      used =
          rw
            (spent-same (key_of r) r rs (same_key_refl (key_of r)), sym (ap (λ k. spent k rs) same))
            (let here =
                (find_first-All (IsCounted rs) (entry_of (key_of r)) cs c found counted).0 in
              omega arith)

      gone :
          (key : CounterKey)
          → find_first (entry_of key) (update_where (entry_of (key_of r)) (add_cost r.cost) cs)
            ≡ none
          → (spent key (r ∷ rs) ≡ 0) ⊎ (end_of key ≤ r.now)
      gone key h =
          let missing : find_first (entry_of key) cs ≡ none =
            find_first-update_none (entry_of key) (entry_of (key_of r)) (add_cost r.cost) cs
              (λ e. refl) h in
          elim (Bool-cases (same_key (key_of r) key)) [
            | inl hit ↦
                let mine =
                  subst (λ k. find_first (entry_of k) cs ≡ none)
                    (sym (same_key→≡ (key_of r) key hit)) missing in
                cc
            | inr other ↦
                rw (spent-other key r rs other)
                  (elim (absent key missing) [ inl z ↦ inl z | inr over ↦ inr (omega arith) ])
          ]

  consume_locally-Counts :
      (cs : List LocalCounter) (rs : List Request) (t : ℕ) (r : Request)
      → Counts cs rs t
      → t ≤ r.now
      → 0 < ttl_of r
      → ((consume_locally cs (key_of r) r.cost (ttl_of r) r.now).0 ≡ spent (key_of r) (r ∷ rs))
        × Counts (consume_locally cs (key_of r) r.cost (ttl_of r) r.now).1 (r ∷ rs) r.now
  unfolding consume_locally
  consume_locally-Counts cs rs t r (counted, absent) later pos =
      elim (Option-cases (find_first (entry_of (key_of r)) cs)) [
        | inl missing ↦
            rw missing (fresh_entry-Counts cs rs t r (counted, absent) later pos missing)
        | inr (c, found) ↦
            let same =
              same_key→≡ c.key (key_of r) (find_first-holds (entry_of (key_of r)) cs found) in
            let late : end_of (key_of r) ≤ c.expires_at =
              subst (λ k. end_of k ≤ c.expires_at) same
                (find_first-All (IsCounted rs) (entry_of (key_of r)) cs c found counted).1 in
            let soon = in_window r pos in
            let live : leb c.expires_at r.now ≡ false = ground arith in
            rw (found, live) (update_where-Counts cs rs t r c (counted, absent) later found)
      ]

  -- The counters after a list of requests, the latest first.
  unfoldable pub counters_after : List Request → List LocalCounter
  counters_after [] = []
  counters_after (r ∷ rs) = (consume_rate_limit get_rule false (counters_after rs) r).1

  -- The requests are in the order of the clock and none of them reaches Redis.
  unfoldable pub IsLocalTrace : List Request → ℕ → Type 0
  IsLocalTrace [] t = Unit
  IsLocalTrace (r ∷ rs) t = (r.reply ≡ none) × (r.now ≤ t) × IsLocalTrace rs r.now

  charge_local :
      (cs : List LocalCounter) (r : Request)
      → r.reply ≡ none
      → (consume_rate_limit get_rule false cs r).1
        ≡ (consume_locally cs (key_of r) r.cost (ttl_of r) r.now).1
  unfolding consume_rate_limit
  charge_local cs r h = rw h refl

  used_local :
      (cs : List LocalCounter) (r : Request)
      → r.reply ≡ none
      → (consume_rate_limit get_rule false cs r).0.used
        ≡ (consume_locally cs (key_of r) r.cost (ttl_of r) r.now).0
  unfolding consume_rate_limit
  used_local cs r h = rw h refl

  counters_after-Counts :
      ((b : RateLimitBucket) → 0 < (get_rule b).window_seconds)
      → (rs : List Request) (t : ℕ) → IsLocalTrace rs t
      → Counts (counters_after rs) rs t
  unfolding counters_after IsLocalTrace spent
  counters_after-Counts pos [] t h = (tt, λ key h. inl refl)
  counters_after-Counts pos (r ∷ rs) t (local, past, before) =
      let next =
        (consume_locally-Counts (counters_after rs) rs r.now r
          (counters_after-Counts pos rs r.now before) (omega arith) (pos r.bucket)).1 in
      rw (charge_local (counters_after rs) r local)
        (next.0, λ key h. elim (next.1 key h) [ inl z ↦ inl z | inr over ↦ inr (omega arith) ])

  pub used-spent :
      ((b : RateLimitBucket) → 0 < (get_rule b).window_seconds)
      → (r : Request) (rs : List Request) → IsLocalTrace (r ∷ rs) r.now
      → (consume_rate_limit get_rule false (counters_after rs) r).0.used ≡ spent (key_of r) (r ∷ rs)
  unfolding IsLocalTrace
  used-spent pos r rs (local, past, before) =
      rw (used_local (counters_after rs) r local)
        (consume_locally-Counts (counters_after rs) rs r.now r
          (counters_after-Counts pos rs r.now before) (omega arith) (pos r.bucket)).0
