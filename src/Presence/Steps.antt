-- ===== src/Presence/Steps.antt =====
-- That each step of the gateway keeps entries and registrations in step.
use clicked.Prelude.{
  ℕ, ◌≡◌, refl, sym, ap, ◌∙◌, subst, Option, none, some, Bool, true, false, ◌&&◌, ◌||◌, List, ◌==◌,
  if◌then◌else◌, All, arith, Bool-cases, inl, inr,
}
use clicked.Presence.{
  presence_hash, presence_device_sockets, device_entry, same_field, Redis, IsRedis, touch_device,
  set_online, register_presence_socket, refresh_presence_socket, without_socket,
  unregister_presence_socket, refresh_presence, set_offline, mark_device_offline, connect,
  offline_if_last, disconnect, time_out, beat, cleanup_stale_sockets,
}
use clicked.Presence.Online.{
  has_socket, entry-touch_device, has_socket-touch_device, entry-register, has_socket-register,
  entry-unregister, has_socket-unregister, has_socket-without_socket, entry-set_offline,
  has_socket-set_offline, mark_device_offline-set_offline,
}
use clicked.Presence.InStep.{InStep, Touched, Removed, Removed-InStep}
use clicked.Presence.Cleaned.{
  Cleaned, Cleaned-refl, cleanup_stale_sockets-Cleaned, has_socket-cleanup_of_live,
}

module _ {R : Type 0} (redis : Redis R) (law : IsRedis redis) (calm : ℕ → Bool) where
  -- A clean-up that takes no socket of a calm user for stale.
  abbrev pub IsCalm : ℕ → (ℕ → Bool) → List ℕ → Type 0
  IsCalm user is_live listed = calm user ≡ true → All (λ socket. is_live socket ≡ true) listed

  -- The registrations of calm users stay.
  has_socket-cleaned :
      (is_live : ℕ → Bool) (listed : List ℕ) (ignored : Option ℕ) (user : ℕ) (r : R)
      → IsCalm user is_live listed
      → (user' device socket : ℕ) → calm user' ≡ true
      → has_socket redis user' device socket
          (cleanup_stale_sockets redis is_live user ignored listed r)
        ≡ has_socket redis user' device socket r
  has_socket-cleaned is_live listed ignored user r live user' device socket peace =
      elim (Bool-cases (user == user')) [
        | inl same ↦
            let u : user ≡ user' = ground arith in
            has_socket-cleanup_of_live redis law is_live user ignored listed r user' device socket
              (live (ap calm u ∙ peace))
        | inr other ↦
            (cleanup_stale_sockets-Cleaned redis law is_live user ignored listed r).others user'
              device socket other
      ]

  pub cleanup-InStep :
      (is_live : ℕ → Bool) (listed : List ℕ) (ignored : Option ℕ) (user : ℕ) (r : R)
      → IsCalm user is_live listed
      → InStep redis calm r
      → InStep redis calm (cleanup_stale_sockets redis is_live user ignored listed r)
  cleanup-InStep is_live listed ignored user r live h =
      let cleaned = cleanup_stale_sockets-Cleaned redis law is_live user ignored listed r in
      record {
        shown = λ user' f v peace e.
            let (device, socket, field, there) =
              h.shown user' f v peace (sym (cleaned.entries user' f) ∙ e) in
            (
              device,
              socket,
              field,
              has_socket-cleaned is_live listed ignored user r live user' device socket peace
                  ∙ there,
            );
        kept = λ user' device socket e.
            let (v, there) = h.kept user' device socket (cleaned.sockets user' device socket e) in
            (v, cleaned.entries user' (device_entry device) ∙ there);
      }

  pub connect-Touched :
      (is_live : ℕ → Bool) (listed : List ℕ) (user device socket now : ℕ) (r : R)
      → IsCalm user is_live listed
      → Touched redis calm user device socket now r
          (connect redis is_live listed user device socket now r).1
  unfolding connect set_online
  connect-Touched is_live listed user device socket now r live =
      let r1 = register_presence_socket redis user device socket r in
      let r2 = cleanup_stale_sockets redis is_live user (some socket) listed r1 in
      let cleaned = cleanup_stale_sockets-Cleaned redis law is_live user (some socket) listed r1 in
      record {
        entries = λ user' f.
            entry-touch_device redis law user device now r2 user' f
            ∙ ap (λ o. if user == user' && same_field (device_entry device) f then some now else o)
                (cleaned.entries user' f ∙ entry-register redis law user device socket r user' f);
        no_new = λ user' device' socket' e.
            sym (has_socket-register redis law user device socket r user' device' socket')
            ∙ cleaned.sockets user' device' socket' (
                sym (has_socket-touch_device redis law user device now r2 user' device' socket')
                ∙ e);
        sockets = λ user' device' socket' peace.
            has_socket-touch_device redis law user device now r2 user' device' socket'
            ∙ has_socket-cleaned is_live listed (some socket) user r1 live user' device' socket'
                peace
            ∙ has_socket-register redis law user device socket r user' device' socket';
      }

  -- A beat of a registered socket, whose user has an entry.
  pub beat-Touched :
      (user device socket now : ℕ) (r : R)
      → InStep redis calm r
      → has_socket redis user device socket r ≡ true
      → Touched redis calm user device socket now r (beat redis user device socket now r)
  unfolding beat refresh_presence refresh_presence_socket
  beat-Touched user device socket now r h there =
      let (v, shown) = h.kept user device socket there in
      let present = law.hlen-some (presence_hash user) (device_entry device) v r shown in
      rw present (record {
        entries = λ user' f.
            entry-register redis law user device socket (touch_device redis user device now r) user'
              f
            ∙ entry-touch_device redis law user device now r user' f;
        no_new = λ user' device' socket' e. sym (same_sockets user' device' socket') ∙ e;
        sockets = λ user' device' socket' peace. same_sockets user' device' socket';
      })
    where
      same_sockets :
          (user' device' socket' : ℕ)
          → has_socket redis user' device' socket' (
              register_presence_socket redis user device socket
                (touch_device redis user device now r))
            ≡ (user == user' && device == device' && socket == socket'
                || has_socket redis user' device' socket' r)
      same_sockets user' device' socket' =
          has_socket-register redis law user device socket (touch_device redis user device now r)
            user' device' socket'
          ∙ ap (λ b. user == user' && device == device' && socket == socket' || b)
              (has_socket-touch_device redis law user device now r user' device' socket')

  module _ (user device socket : ℕ) (r : R) where
    abbrev left : Bool × R
    left = unregister_presence_socket redis user device socket r

    has_socket_left :
        (m : ℕ)
        → has_socket redis user device m left.1
          ≡ has_socket redis user device m (without_socket redis user device socket r)
    has_socket_left m =
        has_socket-unregister redis law user device socket r user device m
        ∙ sym (has_socket-without_socket redis law user device socket r user device m)

    left-none : left.0 ≡ true → (m : ℕ) → has_socket redis user device m left.1 ≡ false
    unfolding unregister_presence_socket
    left-none e m =
        elim (Bool-cases
          (has_socket redis user device m (without_socket redis user device socket r))) [
            | inr absent ↦ has_socket_left m ∙ absent
            | inl there ↦
                let positive =
                  law.scard-member (presence_device_sockets user device) m
                    (without_socket redis user device socket r) there in
                absurd (ground arith)
          ]

    left-some : left.0 ≡ false → (m : ℕ) × (has_socket redis user device m left.1 ≡ true)
    unfolding unregister_presence_socket
    left-some e =
        let (m, there) =
          law.scard-positive (presence_device_sockets user device)
            (without_socket redis user device socket r) (ground arith) in
        (m, has_socket_left m ∙ there)

    -- The removal of a socket, after which the store is cleaned to `r1`.
    offline_if_last-Removed :
        (last : Bool) (r1 : R)
        → left.0 ≡ last
        → Cleaned redis user left.1 r1
        → ((user' device' socket' : ℕ)
            → calm user' ≡ true
            → has_socket redis user' device' socket' r1
              ≡ has_socket redis user' device' socket' left.1)
        → Removed redis calm user device socket last r
            (offline_if_last redis (set_offline redis) user device (last, r1)).1
    offline_if_last-Removed true r1 e cleaned same = record {
      entries = λ user' f.
          entry-set_offline redis law user device r1 user' f
          ∙ ap (λ o. if user == user' && same_field (device_entry device) f then none else o)
              (cleaned.entries user' f ∙ entry-unregister redis law user device socket r user' f);
      no_new = λ user' device' socket' h.
          no_new r1 cleaned user' device' socket'
            (sym (has_socket-set_offline redis law user device r1 user' device' socket') ∙ h);
      sockets = λ user' device' socket' peace.
          has_socket-set_offline redis law user device r1 user' device' socket'
          ∙ same user' device' socket' peace
          ∙ has_socket-unregister redis law user device socket r user' device' socket';
      none_left = λ yes_last m.
          has_socket-set_offline redis law user device r1 user device m ∙ none_cleaned m;
      some_left = λ not_last. absurd (ground arith);
    }
      where
        no_new :
            (r1 : R)
            → Cleaned redis user left.1 r1
            → (user' device' socket' : ℕ) → has_socket redis user' device' socket' r1 ≡ true
            → has_socket redis user' device' socket' r ≡ true
        no_new r1 cleaned user' device' socket' h =
            let w =
              sym (has_socket-unregister redis law user device socket r user' device' socket')
              ∙ cleaned.sockets user' device' socket' h in
            ground arith

        none_cleaned : (m : ℕ) → has_socket redis user device m r1 ≡ false
        none_cleaned m = elim (Bool-cases (has_socket redis user device m r1)) [
          | inr absent ↦ absent
          | inl there ↦
              let clash : true ≡ false =
                sym (cleaned.sockets user device m there) ∙ left-none e m in
              cc
        ]
    offline_if_last-Removed false r1 e cleaned same = record {
      entries = λ user' f.
          cleaned.entries user' f ∙ entry-unregister redis law user device socket r user' f;
      no_new = λ user' device' socket' h.
          let w =
            sym (has_socket-unregister redis law user device socket r user' device' socket')
            ∙ cleaned.sockets user' device' socket' h in
          ground arith;
      sockets = λ user' device' socket' peace.
          same user' device' socket' peace
          ∙ has_socket-unregister redis law user device socket r user' device' socket';
      none_left = λ yes_last m. absurd (ground arith);
      some_left =
          λ not_last peace. let (m, there) = left-some e in (m, same user device m peace ∙ there);
    }

    pub disconnect-InStep :
        (shutting_down : Bool) (is_live : ℕ → Bool) (listed : List ℕ)
        → IsCalm user is_live listed
        → InStep redis calm r
        → InStep redis calm (disconnect redis shutting_down is_live listed user device socket r).1
    unfolding disconnect
    disconnect-InStep true is_live listed live h = h
    disconnect-InStep false is_live listed live h =
        let r1 = cleanup_stale_sockets redis is_live user none listed left.1 in
        Removed-InStep redis calm user device socket left.0 r
          (offline_if_last redis (set_offline redis) user device (left.0, r1)).1
          (offline_if_last-Removed left.0 r1 refl
            (cleanup_stale_sockets-Cleaned redis law is_live user none listed left.1)
            (has_socket-cleaned is_live listed none user left.1 live))
          h

    pub time_out-InStep :
        InStep redis calm r → InStep redis calm (time_out redis user device socket r).1
    unfolding time_out
    time_out-InStep h =
        subst (λ d. InStep redis calm d.1) (sym same)
          (Removed-InStep redis calm user device socket left.0 r
            (offline_if_last redis (set_offline redis) user device (left.0, left.1)).1
            (offline_if_last-Removed left.0 left.1 refl (Cleaned-refl redis user left.1)
              (λ user' device' socket' peace. refl))
            h)
      where
        same :
            offline_if_last redis (mark_device_offline redis) user device left
            ≡ offline_if_last redis (set_offline redis) user device left
        same = elim (Bool-cases left.0) [
          | inl last ↦ rw last (mark_device_offline-set_offline redis law user device left.1)
          | inr others ↦ rw others refl
        ]
