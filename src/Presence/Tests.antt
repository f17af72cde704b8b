-- ===== src/Presence/Tests.antt =====
-- Sockets of one user.
use clicked.Prelude.{ℕ, ◌≡◌, refl, none, Bool, ◌==◌, true, false, [], ◌∷◌}
use clicked.Presence.{
  set_online, register_presence_socket, unregister_presence_socket, set_offline,
  remove_stale_socket_mapping, cleanup_stale_sockets, is_online, is_device_connected_in_registry,
  connect, disconnect,
}
use clicked.Presence.Toy.{Store, toy}

abbrev empty : Store
empty = record { entries = []; members = [] }

abbrev all_live : ℕ → Bool
all_live socket = true

abbrev opened : Store
opened = (connect toy all_live (3 ∷ []) 1 2 4 101 (connect toy all_live [] 1 2 3 100 empty).1).1

abbrev closed : Store
closed = (disconnect toy false all_live (4 ∷ []) 1 2 3 opened).1

-- The user 1 has the device 2, on which the socket 3 connects and then the socket 4, and 3 disconnects;
-- then sockets of the user 5 are cleaned up.
abbrev store : Store
store = cleanup_stale_sockets toy (λ socket. false) 5 none (9 ∷ []) closed

abbrev calm : ℕ → Bool
calm user = user == 1

still_online : is_online toy 1 store ≡ true
unfolding toy connect disconnect is_online set_online register_presence_socket
    unregister_presence_socket set_offline cleanup_stale_sockets remove_stale_socket_mapping
still_online = refl

gone : is_online toy 1 (disconnect toy false all_live [] 1 2 4 store).1 ≡ false
unfolding toy connect disconnect is_online set_online register_presence_socket
    unregister_presence_socket set_offline cleanup_stale_sockets remove_stale_socket_mapping
gone = refl

-- The gateway of the socket 4 stops without a disconnect, and the clean-up of another one removes the
-- socket: the user has no socket, and is online for good.
abbrev cleaned : Store
cleaned = cleanup_stale_sockets toy (λ socket. false) 1 none (4 ∷ []) store

no_socket : is_device_connected_in_registry toy 2 cleaned ≡ false
unfolding toy connect disconnect set_online register_presence_socket unregister_presence_socket
    set_offline cleanup_stale_sockets remove_stale_socket_mapping is_device_connected_in_registry
no_socket = refl

online_for_good : is_online toy 1 cleaned ≡ true
unfolding toy connect disconnect is_online set_online register_presence_socket
    unregister_presence_socket set_offline cleanup_stale_sockets remove_stale_socket_mapping
online_for_good = refl
