-- ===== src/Presence/Cleaned.antt =====
-- What a clean-up of a user's stale sockets changes.
use clicked.Prelude.{
  ℕ, ◌≡◌, refl, sym, ap, ◌∙◌, Option, none, some, Bool, true, false, ◌||◌, List, [], ◌∷◌, ◌==◌, All,
  arith, Bool-cases, inl, inr,
}
use clicked.Presence.{
  Key, Field, presence_hash, presence_sockets, presence_device_sockets, device_sockets_by_device,
  presence_socket, device_id_field, same_key, Redis, IsRedis, del_if_empty, remove_from_device,
  remove_stale_socket_mapping, is_ignored, remove_stale, cleanup_stale_sockets,
}
use clicked.Presence.Online.{entry, has_socket, sismember-del_if_empty_other}

module _ {R : Type 0} (redis : Redis R) where
  -- The entries stay, sockets only go, and those of other users stay.
  pub record Cleaned (user : ℕ) (r r' : R) : Type 0 where
    pub entries : (user' : ℕ) (f : Field) → entry redis user' f r' ≡ entry redis user' f r
    pub sockets :
        (user' device socket : ℕ)
        → has_socket redis user' device socket r' ≡ true
        → has_socket redis user' device socket r ≡ true
    pub others :
        (user' device socket : ℕ)
        → (user == user') ≡ false
        → has_socket redis user' device socket r' ≡ has_socket redis user' device socket r

  pub Cleaned-refl : (user : ℕ) (r : R) → Cleaned user r r
  Cleaned-refl user r = record {
    entries = λ user' f. refl;
    sockets = λ user' device socket e. e;
    others = λ user' device socket o. refl;
  }

  Cleaned-trans :
      (user : ℕ) (r r1 r2 : R) → Cleaned user r r1 → Cleaned user r1 r2 → Cleaned user r r2
  Cleaned-trans user r r1 r2 a b = record {
    entries = λ user' f. b.entries user' f ∙ a.entries user' f;
    sockets =
        λ user' device socket e. a.sockets user' device socket (b.sockets user' device socket e);
    others =
        λ user' device socket o. b.others user' device socket o ∙ a.others user' device socket o;
  }

  module _ (law : IsRedis redis) where
    srem-Cleaned :
        (user m : ℕ) (k : Key) (r : R)
        → ((user' device : ℕ)
            → (user == user') ≡ false
            → same_key k (presence_device_sockets user' device) ≡ false)
        → Cleaned user r (redis.srem k m r)
    srem-Cleaned user m k r apart = record {
      entries = λ user' f. law.hget-srem k (presence_hash user') f m r;
      sockets = λ user' device socket e.
          let w =
            sym (law.sismember-srem k (presence_device_sockets user' device) m socket r) ∙ e in
          ground arith;
      others = λ user' device socket o.
          law.sismember-srem k (presence_device_sockets user' device) m socket r
          ∙ rw (apart user' device o) refl;
    }

    del-Cleaned :
        (user : ℕ) (k : Key) (r : R)
        → ((user' : ℕ) → same_key k (presence_hash user') ≡ false)
        → ((user' device : ℕ)
            → (user == user') ≡ false
            → same_key k (presence_device_sockets user' device) ≡ false)
        → Cleaned user r (redis.del k r)
    del-Cleaned user k r no_hash apart = record {
      entries = λ user' f. law.hget-del k (presence_hash user') f r ∙ rw (no_hash user') refl;
      sockets = λ user' device socket e.
          let w = sym (law.sismember-del k (presence_device_sockets user' device) socket r) ∙ e in
          ground arith;
      others = λ user' device socket o.
          law.sismember-del k (presence_device_sockets user' device) socket r
          ∙ rw (apart user' device o) refl;
    }

    del_if_empty-Cleaned :
        (user : ℕ) (k : Key) (r : R)
        → ((user' : ℕ) → same_key k (presence_hash user') ≡ false)
        → ((user' device : ℕ)
            → (user == user') ≡ false
            → same_key k (presence_device_sockets user' device) ≡ false)
        → Cleaned user r (del_if_empty redis k r)
    del_if_empty-Cleaned user k r no_hash apart = elim (Bool-cases (redis.scard k r == 0)) [
      | inl empty ↦ rw empty (del-Cleaned user k r no_hash apart)
      | inr some_left ↦ rw some_left (Cleaned-refl user r)
    ]

    remove_from_device-Cleaned :
        (user socket : ℕ) (d : Option ℕ) (r : R)
        → Cleaned user r (remove_from_device redis user socket d r)
    remove_from_device-Cleaned user socket none r = Cleaned-refl user r
    remove_from_device-Cleaned user socket (some device) r =
        let k = presence_device_sockets user device in
        let b = device_sockets_by_device device in
        let r1 = redis.srem k socket r in
        let r2 = del_if_empty redis k r1 in
        let r3 = redis.srem b socket r2 in
        Cleaned-trans user r r1 (del_if_empty redis b r3)
          (srem-Cleaned user socket k r (λ user' d o. ground arith))
          (Cleaned-trans user r1 r2 (del_if_empty redis b r3)
            (del_if_empty-Cleaned user k r1 (λ user'. refl) (λ user' d o. ground arith))
            (Cleaned-trans user r2 r3 (del_if_empty redis b r3)
              (srem-Cleaned user socket b r2 (λ user' d o. refl))
              (del_if_empty-Cleaned user b r3 (λ user'. refl) (λ user' d o. refl))))

    remove_stale_socket_mapping-Cleaned :
        (user socket : ℕ) (r : R) → Cleaned user r (remove_stale_socket_mapping redis user socket r)
    unfolding remove_stale_socket_mapping
    remove_stale_socket_mapping-Cleaned user socket r =
        let device = redis.hget (presence_socket socket) device_id_field r in
        let r1 = redis.srem (presence_sockets user) socket r in
        let r2 = remove_from_device redis user socket device r1 in
        Cleaned-trans user r r1 (redis.del (presence_socket socket) r2)
          (srem-Cleaned user socket (presence_sockets user) r (λ user' d o. refl))
          (Cleaned-trans user r1 r2 (redis.del (presence_socket socket) r2)
            (remove_from_device-Cleaned user socket device r1)
            (del-Cleaned user (presence_socket socket) r2 (λ user'. refl) (λ user' d o. refl)))

    remove_stale-Cleaned :
        (is_live : ℕ → Bool) (user : ℕ) (ignored : Option ℕ) (listed : List ℕ) (r : R)
        → Cleaned user r (remove_stale redis is_live user ignored listed r)
    remove_stale-Cleaned is_live user ignored [] r = Cleaned-refl user r
    remove_stale-Cleaned is_live user ignored (socket ∷ rest) r =
        elim (Bool-cases (is_ignored redis ignored socket || is_live socket)) [
          | inl stays ↦ rw stays (remove_stale-Cleaned is_live user ignored rest r)
          | inr stale ↦ rw stale (
              Cleaned-trans user r (remove_stale_socket_mapping redis user socket r) _
                (remove_stale_socket_mapping-Cleaned user socket r)
                (remove_stale-Cleaned is_live user ignored rest
                  (remove_stale_socket_mapping redis user socket r)))
        ]

    pub cleanup_stale_sockets-Cleaned :
        (is_live : ℕ → Bool) (user : ℕ) (ignored : Option ℕ) (listed : List ℕ) (r : R)
        → Cleaned user r (cleanup_stale_sockets redis is_live user ignored listed r)
    unfolding cleanup_stale_sockets
    cleanup_stale_sockets-Cleaned is_live user ignored [] r = Cleaned-refl user r
    cleanup_stale_sockets-Cleaned is_live user ignored (socket ∷ rest) r =
        let r1 = remove_stale redis is_live user ignored (socket ∷ rest) r in
        Cleaned-trans user r r1 (del_if_empty redis (presence_sockets user) r1)
          (remove_stale-Cleaned is_live user ignored (socket ∷ rest) r)
          (del_if_empty-Cleaned user (presence_sockets user) r1 (λ user'. refl) (λ user' d o. refl))

    remove_stale_none :
        (is_live : ℕ → Bool) (user : ℕ) (ignored : Option ℕ) (listed : List ℕ) (r : R)
        → All (λ socket. is_live socket ≡ true) listed
        → remove_stale redis is_live user ignored listed r ≡ r
    remove_stale_none is_live user ignored [] r h = refl
    remove_stale_none is_live user ignored (socket ∷ rest) r (h, hs) =
        let stays : (is_ignored redis ignored socket || is_live socket) ≡ true = ground arith in
        rw stays (remove_stale_none is_live user ignored rest r hs)

    -- Where all sockets are live, a clean-up changes no registration.
    pub has_socket-cleanup_of_live :
        (is_live : ℕ → Bool) (user : ℕ) (ignored : Option ℕ) (listed : List ℕ) (r : R)
        (user' device socket : ℕ)
        → All (λ socket. is_live socket ≡ true) listed
        → has_socket redis user' device socket
            (cleanup_stale_sockets redis is_live user ignored listed r)
          ≡ has_socket redis user' device socket r
    unfolding cleanup_stale_sockets
    has_socket-cleanup_of_live is_live user ignored [] r user' device socket h = refl
    has_socket-cleanup_of_live is_live user ignored (first ∷ rest) r user' device socket h =
        sismember-del_if_empty_other redis law (presence_sockets user)
          (remove_stale redis is_live user ignored (first ∷ rest) r)
          (presence_device_sockets user' device) socket refl
        ∙ ap (has_socket redis user' device socket)
            (remove_stale_none is_live user ignored (first ∷ rest) r h)
