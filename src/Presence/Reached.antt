-- ===== src/Presence/Reached.antt =====
-- The stores that the gateway's sockets lead to.
use clicked.Prelude.{ℕ, ◌≡◌, Option, none, Bool, true, false, List}
use clicked.Presence.{
  Field, Redis, IsRedis, connect, disconnect, time_out, beat, cleanup_stale_sockets,
}
use clicked.Presence.Online.{entry, has_socket}
use clicked.Presence.InStep.{InStep}
use clicked.Presence.Steps.{IsCalm}

module _ {R : Type 0} (redis : Redis R) (law : IsRedis redis) (calm : ℕ → Bool) where
  -- The stores that an empty one leads to: sockets connect, registered sockets beat, any socket
  -- disconnects, also while its gateway shuts down, or times out, and stale sockets are cleaned up, in
  -- any order. No clean-up takes a socket of a calm user for stale.
  pub data Reachable : R → Type 0 where
    nothing :
        (r : R)
        → ((user : ℕ) (f : Field) → entry redis user f r ≡ none)
        → ((user device socket : ℕ) → has_socket redis user device socket r ≡ false)
        → Reachable r
    connected :
        (is_live : ℕ → Bool) (listed : List ℕ) (user device socket now : ℕ) (r : R)
        → IsCalm redis law calm user is_live listed
        → Reachable r
        → Reachable (connect redis is_live listed user device socket now r).1
    beaten :
        (user device socket now : ℕ) (r : R)
        → Reachable r
        → has_socket redis user device socket r ≡ true
        → Reachable (beat redis user device socket now r)
    disconnected :
        (shutting_down : Bool) (is_live : ℕ → Bool) (listed : List ℕ) (user device socket : ℕ)
        (r : R)
        → IsCalm redis law calm user is_live listed
        → Reachable r
        → Reachable (disconnect redis shutting_down is_live listed user device socket r).1
    timed_out :
        (user device socket : ℕ) (r : R)
        → Reachable r
        → Reachable (time_out redis user device socket r).1
    cleaned_up :
        (is_live : ℕ → Bool) (listed : List ℕ) (ignored : Option ℕ) (user : ℕ) (r : R)
        → IsCalm redis law calm user is_live listed
        → Reachable r
        → Reachable (cleanup_stale_sockets redis is_live user ignored listed r)
