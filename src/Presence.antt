-- ===== src/Presence.antt =====
-- Which users and devices are online (apps/backend/src/services/presence.ts), and the gateway's use of
-- it when a socket connects, beats, times out and disconnects (index.ts and services/heartbeat.ts).
-- Redis is an interface: `Redis` has the commands and `IsRedis` what they document while no key runs
-- out of its time. Ids and times are numbers. The clean-up of a user's stale sockets takes the members
-- of the user's set and what the cluster says of each as arguments; the delayed broadcast of a user's
-- going offline is left out.
pub mod Online
pub mod InStep
mod Cleaned
mod Steps
pub mod Reached
pub mod Toy
mod Tests
use clicked.Prelude.{
  ℕ, zero, suc, ◌+◌, ◌≡◌, ◌≤◌, ◌<◌, ◌↔◌, Option, none, some, Bool, true, false, not, ◌&&◌, ◌||◌,
  List, [], ◌∷◌, ltb, ◌==◌, if◌then◌else◌, has,
}

pub data Key : Type 0 where
  presence_hash : (user : ℕ) → Key
  presence_device : (user device : ℕ) → Key
  presence_sockets : (user : ℕ) → Key
  presence_device_sockets : (user device : ℕ) → Key
  device_sockets_by_device : (device : ℕ) → Key
  presence_socket : (socket : ℕ) → Key

pub data Field : Type 0 where
  device_entry : ℕ → Field
  last_seen_field : Field
  user_id_field : Field
  device_id_field : Field

-- The kind of a key, and the ids in it.
abbrev pub code_of : Key → ℕ × ℕ × ℕ
code_of (presence_hash user) = (0, user, 0)
code_of (presence_device user device) = (1, user, device)
code_of (presence_sockets user) = (2, user, 0)
code_of (presence_device_sockets user device) = (3, user, device)
code_of (device_sockets_by_device device) = (4, device, 0)
code_of (presence_socket socket) = (5, socket, 0)

abbrev pub same_key : Key → Key → Bool
same_key a b =
    (code_of a).0 == (code_of b).0
    && (code_of a).1 == (code_of b).1
    && (code_of a).2 == (code_of b).2

abbrev pub field_code : Field → ℕ × ℕ
field_code (device_entry device) = (0, device)
field_code last_seen_field = (1, 0)
field_code user_id_field = (2, 0)
field_code device_id_field = (3, 0)

abbrev pub same_field : Field → Field → Bool
same_field a b = (field_code a).0 == (field_code b).0 && (field_code a).1 == (field_code b).1

pub record Redis (R : Type 0) : Type 0 where
  pub hset : Key → Field → ℕ → R → R
  pub hdel : Key → Field → R → R
  pub hget : Key → Field → R → Option ℕ
  pub hlen : Key → R → ℕ
  pub sadd : Key → ℕ → R → R
  pub srem : Key → ℕ → R → R
  pub sismember : Key → ℕ → R → Bool
  pub scard : Key → R → ℕ
  pub del : Key → R → R
  pub expire : Key → (seconds : ℕ) → R → R

pub record IsRedis {R : Type 0} (redis : Redis R) : Type 0 where
  pub hget-hset :
      (k k' : Key) (f f' : Field) (v : ℕ) (r : R)
      → redis.hget k' f' (redis.hset k f v r)
        ≡ (if same_key k k' && same_field f f' then some v else redis.hget k' f' r)
  pub hget-hdel :
      (k k' : Key) (f f' : Field) (r : R)
      → redis.hget k' f' (redis.hdel k f r)
        ≡ (if same_key k k' && same_field f f' then none else redis.hget k' f' r)
  pub hget-del :
      (k k' : Key) (f : Field) (r : R)
      → redis.hget k' f (redis.del k r) ≡ (if same_key k k' then none else redis.hget k' f r)
  pub hget-sadd :
      (k k' : Key) (f : Field) (m : ℕ) (r : R)
      → redis.hget k' f (redis.sadd k m r) ≡ redis.hget k' f r
  pub hget-srem :
      (k k' : Key) (f : Field) (m : ℕ) (r : R)
      → redis.hget k' f (redis.srem k m r) ≡ redis.hget k' f r
  pub hget-expire :
      (k k' : Key) (f : Field) (n : ℕ) (r : R)
      → redis.hget k' f (redis.expire k n r) ≡ redis.hget k' f r
  pub hlen-some :
      (k : Key) (f : Field) (v : ℕ) (r : R)
      → redis.hget k f r ≡ some v
      → ltb 0 (redis.hlen k r) ≡ true
  pub hlen-positive :
      (k : Key) (r : R)
      → ltb 0 (redis.hlen k r) ≡ true
      → (f : Field) × (v : ℕ) × (redis.hget k f r ≡ some v)
  pub sismember-sadd :
      (k k' : Key) (m m' : ℕ) (r : R)
      → redis.sismember k' m' (redis.sadd k m r)
        ≡ (same_key k k' && m == m' || redis.sismember k' m' r)
  pub sismember-srem :
      (k k' : Key) (m m' : ℕ) (r : R)
      → redis.sismember k' m' (redis.srem k m r)
        ≡ (not (same_key k k' && m == m') && redis.sismember k' m' r)
  pub sismember-del :
      (k k' : Key) (m : ℕ) (r : R)
      → redis.sismember k' m (redis.del k r) ≡ (not (same_key k k') && redis.sismember k' m r)
  pub sismember-hset :
      (k k' : Key) (f : Field) (v m : ℕ) (r : R)
      → redis.sismember k' m (redis.hset k f v r) ≡ redis.sismember k' m r
  pub sismember-hdel :
      (k k' : Key) (f : Field) (m : ℕ) (r : R)
      → redis.sismember k' m (redis.hdel k f r) ≡ redis.sismember k' m r
  pub sismember-expire :
      (k k' : Key) (n m : ℕ) (r : R)
      → redis.sismember k' m (redis.expire k n r) ≡ redis.sismember k' m r
  pub scard-member :
      (k : Key) (m : ℕ) (r : R) → redis.sismember k m r ≡ true → ltb 0 (redis.scard k r) ≡ true
  pub scard-positive :
      (k : Key) (r : R) → ltb 0 (redis.scard k r) ≡ true → (m : ℕ) × (redis.sismember k m r ≡ true)

abbrev pub presence_ttl : ℕ
presence_ttl = 90

module _ {R : Type 0} (redis : Redis R) where
  abbrev pub touch_device : ℕ → ℕ → ℕ → R → R
  touch_device user device last_seen r =
      let r1 = redis.hset (presence_hash user) (device_entry device) last_seen r in
      let r2 = redis.hset (presence_device user device) last_seen_field last_seen r1 in
      redis.expire (presence_device user device) presence_ttl r2

  -- Whether the user has come online, and what is stored.
  unfoldable pub set_online : ℕ → ℕ → ℕ → R → Bool × R
  set_online user device last_seen r =
      (not (ltb 0 (redis.hlen (presence_hash user) r)), touch_device user device last_seen r)

  unfoldable pub register_presence_socket : ℕ → ℕ → ℕ → R → R
  register_presence_socket user device socket r =
      let r1 = redis.sadd (presence_sockets user) socket r in
      let r2 = redis.sadd (presence_device_sockets user device) socket r1 in
      let r3 = redis.sadd (device_sockets_by_device device) socket r2 in
      let r4 =
        redis.hset (presence_socket socket) device_id_field device
          (redis.hset (presence_socket socket) user_id_field user r3) in
      let r5 = redis.expire (presence_sockets user) presence_ttl r4 in
      let r6 = redis.expire (presence_device_sockets user device) presence_ttl r5 in
      let r7 = redis.expire (device_sockets_by_device device) presence_ttl r6 in
      redis.expire (presence_socket socket) presence_ttl r7

  unfoldable pub refresh_presence_socket : ℕ → ℕ → ℕ → R → R
  refresh_presence_socket user device socket r = register_presence_socket user device socket r

  -- `if (remaining === 0) await redis.del(key)`
  abbrev pub del_if_empty : Key → R → R
  del_if_empty key r = if redis.scard key r == 0 then redis.del key r else r

  abbrev pub without_socket : ℕ → ℕ → ℕ → R → R
  without_socket user device socket r =
      let r1 = redis.srem (presence_sockets user) socket r in
      let r2 = redis.srem (presence_device_sockets user device) socket r1 in
      let r3 = redis.srem (device_sockets_by_device device) socket r2 in
      redis.del (presence_socket socket) r3

  -- Whether the device has no socket left.
  unfoldable pub unregister_presence_socket : ℕ → ℕ → ℕ → R → Bool × R
  unregister_presence_socket user device socket r =
      let r4 = without_socket user device socket r in
      let r5 = del_if_empty (presence_device_sockets user device) r4 in
      let r6 = del_if_empty (device_sockets_by_device device) r5 in
      let r7 = del_if_empty (presence_sockets user) r6 in
      (redis.scard (presence_device_sockets user device) r4 == 0, r7)

  abbrev pub remove_from_device : ℕ → ℕ → Option ℕ → R → R
  remove_from_device user socket none r = r
  remove_from_device user socket (some device) r =
      let r2 =
        del_if_empty (presence_device_sockets user device)
          (redis.srem (presence_device_sockets user device) socket r) in
      del_if_empty (device_sockets_by_device device)
        (redis.srem (device_sockets_by_device device) socket r2)

  unfoldable pub remove_stale_socket_mapping : ℕ → ℕ → R → R
  remove_stale_socket_mapping user socket r =
      let device = redis.hget (presence_socket socket) device_id_field r in
      let r1 = redis.srem (presence_sockets user) socket r in
      redis.del (presence_socket socket) (remove_from_device user socket device r1)

  abbrev pub is_ignored : Option ℕ → ℕ → Bool
  is_ignored none socket = false
  is_ignored (some other) socket = socket == other

  -- `is_live` tells whether the cluster has the socket or cannot be asked, and the list has the members
  -- of the user's set.
  abbrev pub remove_stale : (ℕ → Bool) → ℕ → Option ℕ → List ℕ → R → R
  remove_stale is_live user ignored [] r = r
  remove_stale is_live user ignored (socket ∷ rest) r = remove_stale is_live user ignored rest (
      if is_ignored ignored socket || is_live socket
      then r
      else remove_stale_socket_mapping user socket r)

  unfoldable pub cleanup_stale_sockets : (ℕ → Bool) → ℕ → Option ℕ → List ℕ → R → R
  cleanup_stale_sockets is_live user ignored [] r = r
  cleanup_stale_sockets is_live user ignored (socket ∷ rest) r =
      del_if_empty (presence_sockets user) (remove_stale is_live user ignored (socket ∷ rest) r)

  unfoldable pub is_device_connected_in_registry : ℕ → R → Bool
  is_device_connected_in_registry device r = ltb 0 (redis.scard (device_sockets_by_device device) r)

  unfoldable pub refresh_presence : ℕ → ℕ → ℕ → R → R
  refresh_presence user device last_seen r =
      if not (ltb 0 (redis.hlen (presence_hash user) r))
      then r
      else touch_device user device last_seen r

  -- Whether the user has gone offline.
  unfoldable pub set_offline : ℕ → ℕ → R → Bool × R
  set_offline user device r =
      let r2 =
        redis.del (presence_device user device)
          (redis.hdel (presence_hash user) (device_entry device) r) in
      if redis.hlen (presence_hash user) r2 == 0
      then (true, redis.del (presence_hash user) r2)
      else (false, r2)

  -- The same commands as `set_offline`.
  unfoldable pub mark_device_offline : ℕ → ℕ → R → Bool × R
  mark_device_offline user device r =
      let r2 =
        redis.del (presence_device user device)
          (redis.hdel (presence_hash user) (device_entry device) r) in
      if redis.hlen (presence_hash user) r2 == 0
      then (true, redis.del (presence_hash user) r2)
      else (false, r2)

  unfoldable pub is_online : ℕ → R → Bool
  is_online user r = ltb 0 (redis.hlen (presence_hash user) r)

  -- A socket connects: the store, and whether its user came online. The clean-up of the user's other
  -- sockets finds those listed in the user's set.
  unfoldable pub connect : (ℕ → Bool) → List ℕ → ℕ → ℕ → ℕ → ℕ → R → Bool × R
  connect is_live listed user device socket now r = set_online user device now (
      cleanup_stale_sockets is_live user (some socket) listed
        (register_presence_socket user device socket r))

  abbrev pub offline_if_last : (ℕ → ℕ → R → Bool × R) → ℕ → ℕ → Bool × R → Bool × R
  offline_if_last take_offline user device (no_sockets, r) =
      if no_sockets then take_offline user device r else (false, r)

  abbrev pub cleaned_after : (ℕ → Bool) → List ℕ → ℕ → Bool × R → Bool × R
  cleaned_after is_live listed user (no_sockets, r) =
      (no_sockets, cleanup_stale_sockets is_live user none listed r)

  -- A socket disconnects, or its heartbeat times out: whether its user went offline. Nothing is
  -- changed while the gateway shuts down.
  unfoldable pub disconnect : Bool → (ℕ → Bool) → List ℕ → ℕ → ℕ → ℕ → R → Bool × R
  disconnect shutting_down is_live listed user device socket r =
      if shutting_down
      then (false, r)
      else offline_if_last set_offline user device
          (cleaned_after is_live listed user (unregister_presence_socket user device socket r))

  unfoldable pub time_out : ℕ → ℕ → ℕ → R → Bool × R
  time_out user device socket r =
      offline_if_last mark_device_offline user device
        (unregister_presence_socket user device socket r)

  unfoldable pub beat : ℕ → ℕ → ℕ → ℕ → R → R
  beat user device socket now r =
      refresh_presence_socket user device socket (refresh_presence user device now r)
