-- ===== src/Presence/Online.antt =====
-- That the devices shown online are those with a registered socket.
use clicked.Prelude.{
  ℕ, ◌≡◌, refl, sym, ap, ◌∙◌, Option, none, some, Bool, true, false, not, ◌&&◌, ◌||◌, ◌==◌,
  if◌then◌else◌, arith, Bool-cases, Option-cases, inl, inr,
}
use clicked.Presence.{
  Key, Field, presence_hash, presence_device, presence_sockets, presence_device_sockets,
  device_sockets_by_device, device_entry, last_seen_field, same_key, same_field, Redis, IsRedis,
  presence_ttl, touch_device, register_presence_socket, del_if_empty, without_socket,
  unregister_presence_socket, set_offline, mark_device_offline,
}

module _ {R : Type 0} (redis : Redis R) where
  abbrev pub entry : ℕ → Field → R → Option ℕ
  entry user field r = redis.hget (presence_hash user) field r

  abbrev pub has_socket : ℕ → ℕ → ℕ → R → Bool
  has_socket user device socket r = redis.sismember (presence_device_sockets user device) socket r

  module _ (law : IsRedis redis) where
    pub entry-touch_device :
        (user device now : ℕ) (r : R) (user' : ℕ) (f : Field)
        → entry user' f (touch_device redis user device now r) ≡ (
            if user == user' && same_field (device_entry device) f
            then some now
            else entry user' f r)
    entry-touch_device user device now r user' f =
        let r1 = redis.hset (presence_hash user) (device_entry device) now r in
        law.hget-expire (presence_device user device) (presence_hash user') f presence_ttl
          (redis.hset (presence_device user device) last_seen_field now r1)
        ∙ law.hget-hset (presence_device user device) (presence_hash user') last_seen_field f now r1
        ∙ law.hget-hset (presence_hash user) (presence_hash user') (device_entry device) f now r
        ∙ elim (user == user')
            as (λ b.
              (if (b && true) && same_field (device_entry device) f
                then some now
                else entry user' f r)
              ≡ (if b && same_field (device_entry device) f then some now else entry user' f r)) [
                | true ↦ refl
                | false ↦ refl
              ]

    pub has_socket-touch_device :
        (user device now : ℕ) (r : R) (user' device' socket : ℕ)
        → has_socket user' device' socket (touch_device redis user device now r)
          ≡ has_socket user' device' socket r
    has_socket-touch_device user device now r user' device' socket =
        rw (law.sismember-expire, law.sismember-hset, law.sismember-hset) refl

    pub entry-register :
        (user device socket : ℕ) (r : R) (user' : ℕ) (f : Field)
        → entry user' f (register_presence_socket redis user device socket r) ≡ entry user' f r
    unfolding register_presence_socket
    entry-register user device socket r user' f =
        rw
          (
            law.hget-expire, law.hget-expire, law.hget-expire, law.hget-expire, law.hget-hset,
            law.hget-hset, law.hget-sadd, law.hget-sadd, law.hget-sadd,
          )
          refl

    pub has_socket-register :
        (user device socket : ℕ) (r : R) (user' device' socket' : ℕ)
        → has_socket user' device' socket' (register_presence_socket redis user device socket r) ≡ (
            user == user' && device == device' && socket == socket'
            || has_socket user' device' socket' r)
    unfolding register_presence_socket
    has_socket-register user device socket r user' device' socket' =
        rw
          (
            law.sismember-expire, law.sismember-expire, law.sismember-expire, law.sismember-expire,
            law.sismember-hset, law.sismember-hset, law.sismember-sadd, law.sismember-sadd,
            law.sismember-sadd,
          )
          (ground arith)

    pub sismember-del_if_empty_other :
        (k : Key) (r : R) (k' : Key) (m : ℕ)
        → same_key k k' ≡ false
        → redis.sismember k' m (del_if_empty redis k r) ≡ redis.sismember k' m r
    sismember-del_if_empty_other k r k' m other = elim (Bool-cases (redis.scard k r == 0)) [
      | inr some_left ↦ rw some_left refl
      | inl empty ↦
          rw empty (law.sismember-del k k' m r ∙ ap (λ b. not b && redis.sismember k' m r) other)
    ]

    no_member :
        (k : Key) (m : ℕ) (r : R) → (redis.scard k r == 0) ≡ true → redis.sismember k m r ≡ false
    no_member k m r empty = elim (Bool-cases (redis.sismember k m r)) [
      | inr absent ↦ absent
      | inl there ↦ let positive = law.scard-member k m r there in absurd (ground arith)
    ]

    -- Deleting a device's set of sockets when it is empty changes no membership.
    pub has_socket-del_if_empty :
        (user device : ℕ) (r : R) (user' device' m : ℕ)
        → has_socket user' device' m (del_if_empty redis (presence_device_sockets user device) r)
          ≡ has_socket user' device' m r
    has_socket-del_if_empty user device r user' device' m =
        elim (Bool-cases (
          same_key (presence_device_sockets user device) (presence_device_sockets user' device'))) [
            | inr other ↦
                sismember-del_if_empty_other (presence_device_sockets user device) r
                  (presence_device_sockets user' device') m other
            | inl same ↦
                elim (Bool-cases (redis.scard (presence_device_sockets user device) r == 0)) [
                  | inr some_left ↦ rw some_left refl
                  | inl empty ↦
                      let u : user ≡ user' = ground arith in
                      let d : device ≡ device' = ground arith in
                      let absent : has_socket user' device' m r ≡ false =
                        ap (λ v. has_socket v device' m r) (sym u)
                        ∙ ap (λ v. has_socket user v m r) (sym d)
                        ∙ no_member (presence_device_sockets user device) m r empty in
                      rw empty (
                        law.sismember-del (presence_device_sockets user device)
                          (presence_device_sockets user' device') m r
                        ∙ ap (λ b. not b && has_socket user' device' m r) same
                        ∙ sym absent)
                ]
          ]

    pub entry-del_if_empty_sockets :
        (k : Key) (r : R) (user' : ℕ) (f : Field)
        → same_key k (presence_hash user') ≡ false
        → entry user' f (del_if_empty redis k r) ≡ entry user' f r
    entry-del_if_empty_sockets k r user' f other = elim (Bool-cases (redis.scard k r == 0)) [
      | inr some_left ↦ rw some_left refl
      | inl empty ↦ rw empty (
          law.hget-del k (presence_hash user') f r
          ∙ ap (λ b. if b then none else entry user' f r) other)
    ]

    pub entry-unregister :
        (user device socket : ℕ) (r : R) (user' : ℕ) (f : Field)
        → entry user' f (unregister_presence_socket redis user device socket r).1 ≡ entry user' f r
    unfolding unregister_presence_socket
    entry-unregister user device socket r user' f =
        entry-del_if_empty_sockets (presence_sockets user) _ user' f refl
        ∙ entry-del_if_empty_sockets (device_sockets_by_device device) _ user' f refl
        ∙ entry-del_if_empty_sockets (presence_device_sockets user device) _ user' f refl
        ∙ rw (law.hget-del, law.hget-srem, law.hget-srem, law.hget-srem) refl

    pub has_socket-without_socket :
        (user device socket : ℕ) (r : R) (user' device' socket' : ℕ)
        → has_socket user' device' socket' (without_socket redis user device socket r) ≡ (
            not (user == user' && device == device' && socket == socket')
            && has_socket user' device' socket' r)
    has_socket-without_socket user device socket r user' device' socket' =
        rw (law.sismember-del, law.sismember-srem, law.sismember-srem, law.sismember-srem)
          (ground arith)

    pub has_socket-unregister :
        (user device socket : ℕ) (r : R) (user' device' socket' : ℕ)
        → has_socket user' device' socket' (unregister_presence_socket redis user device socket r).1
          ≡ (not (user == user' && device == device' && socket == socket')
              && has_socket user' device' socket' r)
    unfolding unregister_presence_socket
    has_socket-unregister user device socket r user' device' socket' =
        sismember-del_if_empty_other (presence_sockets user) _
          (presence_device_sockets user' device') socket' refl
        ∙ sismember-del_if_empty_other (device_sockets_by_device device) _
            (presence_device_sockets user' device') socket' refl
        ∙ has_socket-del_if_empty user device _ user' device' socket'
        ∙ has_socket-without_socket user device socket r user' device' socket'

    abbrev dropped : ℕ → ℕ → R → R
    dropped user device r =
        redis.del (presence_device user device)
          (redis.hdel (presence_hash user) (device_entry device) r)

    entry-dropped :
        (user device : ℕ) (r : R) (user' : ℕ) (f : Field)
        → entry user' f (dropped user device r)
          ≡ (if user == user' && same_field (device_entry device) f then none else entry user' f r)
    entry-dropped user device r user' f =
        law.hget-del (presence_device user device) (presence_hash user') f
          (redis.hdel (presence_hash user) (device_entry device) r)
        ∙ law.hget-hdel (presence_hash user) (presence_hash user') (device_entry device) f r
        ∙ elim (user == user')
            as (λ b.
              (if (b && true) && same_field (device_entry device) f then none else entry user' f r)
              ≡ (if b && same_field (device_entry device) f then none else entry user' f r)) [
                | true ↦ refl
                | false ↦ refl
              ]

    no_entry :
        (user : ℕ) (f : Field) (r : R)
        → (redis.hlen (presence_hash user) r == 0) ≡ true
        → entry user f r ≡ none
    no_entry user f r empty = elim (Option-cases (entry user f r)) [
      | inl absent ↦ absent
      | inr (v, there) ↦
          let positive = law.hlen-some (presence_hash user) f v r there in absurd (ground arith)
    ]

    pub entry-set_offline :
        (user device : ℕ) (r : R) (user' : ℕ) (f : Field)
        → entry user' f (set_offline redis user device r).1
          ≡ (if user == user' && same_field (device_entry device) f then none else entry user' f r)
    unfolding set_offline
    entry-set_offline user device r user' f =
        elim (Bool-cases (redis.hlen (presence_hash user) (dropped user device r) == 0)) [
          | inr some_left ↦ rw some_left (entry-dropped user device r user' f)
          | inl empty ↦ rw empty (
              law.hget-del (presence_hash user) (presence_hash user') f (dropped user device r)
              ∙ elim (Bool-cases (user == user')) [
                | inr other ↦ rw other (entry-dropped user device r user' f ∙ rw other refl)
                | inl same ↦
                    let u : user ≡ user' = ground arith in
                    let gone : entry user' f (dropped user device r) ≡ none =
                      ap (λ v. entry v f (dropped user device r)) (sym u)
                      ∙ no_entry user f (dropped user device r) empty in
                    rw same (sym gone ∙ entry-dropped user device r user' f ∙ rw same refl)
              ])
        ]

    pub has_socket-set_offline :
        (user device : ℕ) (r : R) (user' device' socket : ℕ)
        → has_socket user' device' socket (set_offline redis user device r).1
          ≡ has_socket user' device' socket r
    unfolding set_offline
    has_socket-set_offline user device r user' device' socket =
        elim (Bool-cases (redis.hlen (presence_hash user) (dropped user device r) == 0)) [
          | inr some_left ↦ rw some_left (rw (law.sismember-del, law.sismember-hdel) refl)
          | inl empty ↦
              rw empty (rw (law.sismember-del, law.sismember-del, law.sismember-hdel) refl)
        ]

    pub mark_device_offline-set_offline :
        (user device : ℕ) (r : R)
        → mark_device_offline redis user device r ≡ set_offline redis user device r
    unfolding mark_device_offline set_offline
    mark_device_offline-set_offline user device r = refl
