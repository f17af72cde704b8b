-- ===== src/Presence/InStep.antt =====
-- Presence over the life of the gateway's sockets.
use clicked.Prelude.{
  ℕ, ◌≡◌, refl, sym, ap, ◌∙◌, subst, none, some, Bool, true, false, not, ◌&&◌, ◌||◌, ◌==◌,
  if◌then◌else◌, arith, Bool-cases, ◌⊎◌, inl, inr,
}
use clicked.Presence.{Field, device_entry, same_field, Redis}
use clicked.Presence.Online.{entry, has_socket}

module _ {R : Type 0} (redis : Redis R) (calm : ℕ → Bool) where
  -- A device with a registered socket has an entry in its user's hash, and of a calm user there is no
  -- other entry.
  pub record InStep (r : R) : Type 0 where
    pub shown :
        (user : ℕ) (f : Field) (v : ℕ)
        → calm user ≡ true
        → entry redis user f r ≡ some v
        → (device : ℕ) × (socket : ℕ) × (same_field (device_entry device) f ≡ true)
          × (has_socket redis user device socket r ≡ true)
    pub kept :
        (user device socket : ℕ)
        → has_socket redis user device socket r ≡ true
        → (v : ℕ) × (entry redis user (device_entry device) r ≡ some v)

  -- What a socket that connects or beats changes.
  pub record Touched (user device socket now : ℕ) (r r' : R) : Type 0 where
    pub entries :
        (user' : ℕ) (f : Field)
        → entry redis user' f r' ≡ (
            if user == user' && same_field (device_entry device) f
            then some now
            else entry redis user' f r)
    pub no_new :
        (user' device' socket' : ℕ)
        → has_socket redis user' device' socket' r' ≡ true
        → (user == user' && device == device' && socket == socket'
            || has_socket redis user' device' socket' r)
          ≡ true
    pub sockets :
        (user' device' socket' : ℕ)
        → calm user' ≡ true
        → has_socket redis user' device' socket' r' ≡ (
            user == user' && device == device' && socket == socket'
            || has_socket redis user' device' socket' r)

  pub Touched-InStep :
      (user device socket now : ℕ) (r r' : R)
      → Touched user device socket now r r'
      → InStep r
      → InStep r'
  Touched-InStep user device socket now r r' t h = record {
    shown = λ user' f v peace e. shown' user' f v peace e;
    kept = λ user' device' socket' e. kept' user' device' socket' e;
  }
    where
      shown' :
          (user' : ℕ) (f : Field) (v : ℕ)
          → calm user' ≡ true
          → entry redis user' f r' ≡ some v
          → (device' : ℕ) × (socket' : ℕ) × (same_field (device_entry device') f ≡ true)
            × (has_socket redis user' device' socket' r' ≡ true)
      shown' user' f v peace e =
          elim (Bool-cases (user == user' && same_field (device_entry device) f)) [
            | inl new ↦
                (device, socket, ground arith, t.sockets user' device socket peace ∙ ground arith)
            | inr old ↦
                let before : entry redis user' f r ≡ some v =
                  sym (
                    t.entries user' f ∙ ap (λ b. if b then some now else entry redis user' f r) old)
                  ∙ e in
                let (device', socket', field, there) = h.shown user' f v peace before in
                (device', socket', field, t.sockets user' device' socket' peace ∙ ground arith)
          ]

      kept' :
          (user' device' socket' : ℕ)
          → has_socket redis user' device' socket' r' ≡ true
          → (v : ℕ) × (entry redis user' (device_entry device') r' ≡ some v)
      kept' user' device' socket' e = elim (Bool-cases (user == user' && device == device')) [
        | inl new ↦ (now, t.entries user' (device_entry device') ∙ rw (same_entry new) refl)
        | inr old ↦
            let before : has_socket redis user' device' socket' r ≡ true =
              let w = t.no_new user' device' socket' e in ground arith in
            let (v, there) = h.kept user' device' socket' before in
            (v, t.entries user' (device_entry device') ∙ rw (other_entry old) there)
      ]
        where
          same_entry :
              (user == user' && device == device') ≡ true
              → (user == user' && same_field (device_entry device) (device_entry device')) ≡ true
          same_entry e = ground arith

          other_entry :
              (user == user' && device == device') ≡ false
              → (user == user' && same_field (device_entry device) (device_entry device')) ≡ false
          other_entry e = ground arith

  -- What the removal of a socket changes, when the device has another one and when it has none.
  pub record Removed (user device socket : ℕ) (last : Bool) (r r' : R) : Type 0 where
    pub entries :
        (user' : ℕ) (f : Field)
        → entry redis user' f r' ≡ (
            if last && (user == user' && same_field (device_entry device) f)
            then none
            else entry redis user' f r)
    pub no_new :
        (user' device' socket' : ℕ)
        → has_socket redis user' device' socket' r' ≡ true
        → has_socket redis user' device' socket' r ≡ true
    pub sockets :
        (user' device' socket' : ℕ)
        → calm user' ≡ true
        → has_socket redis user' device' socket' r' ≡ (
            not (user == user' && device == device' && socket == socket')
            && has_socket redis user' device' socket' r)
    pub none_left : last ≡ true → (m : ℕ) → has_socket redis user device m r' ≡ false
    pub some_left :
        last ≡ false → calm user ≡ true → (m : ℕ) × (has_socket redis user device m r' ≡ true)

  pub Removed-InStep :
      (user device socket : ℕ) (last : Bool) (r r' : R)
      → Removed user device socket last r r'
      → InStep r
      → InStep r'
  Removed-InStep user device socket last r r' t h = record {
    shown = λ user' f v peace e. shown' user' f v peace e (Bool-cases last);
    kept = λ user' device' socket' e. kept' user' device' socket' e;
  }
    where
      other_socket :
          (user' : ℕ) (f : Field) (device' socket' : ℕ)
          → calm user' ≡ true
          → same_field (device_entry device') f ≡ true
          → has_socket redis user' device' socket' r ≡ true
          → (user == user' && device == device') ≡ false
          → (device'' : ℕ) × (socket'' : ℕ) × (same_field (device_entry device'') f ≡ true)
            × (has_socket redis user' device'' socket'' r' ≡ true)
      other_socket user' f device' socket' peace field there other =
          (device', socket', field, t.sockets user' device' socket' peace ∙ ground arith)

      shown' :
          (user' : ℕ) (f : Field) (v : ℕ)
          → calm user' ≡ true
          → entry redis user' f r' ≡ some v
          → (last ≡ true) ⊎ (last ≡ false)
          → (device' : ℕ) × (socket' : ℕ) × (same_field (device_entry device') f ≡ true)
            × (has_socket redis user' device' socket' r' ≡ true)
      shown' user' f v peace e (inl gone) =
          elim (Bool-cases (user == user' && same_field (device_entry device) f)) [
            | inl dropped ↦
                let nothing : entry redis user' f r' ≡ none =
                  t.entries user' f ∙ rw (gone, dropped) refl in
                absurd (clash (sym nothing ∙ e))
            | inr old ↦
                let before : entry redis user' f r ≡ some v =
                  sym (t.entries user' f ∙ rw (gone, old) refl) ∙ e in
                let (device', socket', field, there) = h.shown user' f v peace before in
                other_socket user' f device' socket' peace field there (ground arith)
          ]
        where
          clash : none ≡ some v → ⊥
          clash e = cc
      shown' user' f v peace e (inr left) =
          let before : entry redis user' f r ≡ some v =
            sym (t.entries user' f ∙ rw left refl) ∙ e in
          let (device', socket', field, there) = h.shown user' f v peace before in
          elim (Bool-cases (user == user' && device == device')) [
            | inl same ↦
                let u : user ≡ user' = ground arith in
                let (m, stays) = t.some_left left (ap calm u ∙ peace) in
                (
                  device,
                  m,
                  ground arith,
                  subst (λ w. has_socket redis w device m r' ≡ true) u stays,
                )
            | inr other ↦ other_socket user' f device' socket' peace field there other
          ]

      kept' :
          (user' device' socket' : ℕ)
          → has_socket redis user' device' socket' r' ≡ true
          → (v : ℕ) × (entry redis user' (device_entry device') r' ≡ some v)
      kept' user' device' socket' e =
          let before : has_socket redis user' device' socket' r ≡ true =
            t.no_new user' device' socket' e in
          let (v, there) = h.kept user' device' socket' before in
          (
            v,
            t.entries user' (device_entry device')
                ∙ by_last (Bool-cases last) (Bool-cases (user == user' && device == device')) v
                    there,
          )
        where
          by_last :
              (last ≡ true) ⊎ (last ≡ false)
              → ((user == user' && device == device') ≡ true)
                ⊎ ((user == user' && device == device') ≡ false)
              → (v : ℕ) → entry redis user' (device_entry device') r ≡ some v
              → (if last
                    && (user == user' && same_field (device_entry device) (device_entry device'))
                  then none
                  else entry redis user' (device_entry device') r)
                ≡ some v
          by_last (inr left) which v there = rw left there
          by_last (inl gone) (inr other) v there =
              let none_of : (last
                    && (user == user' && same_field (device_entry device) (device_entry device')))
                  ≡ false =
                ground arith in
              rw none_of there
          by_last (inl gone) (inl same) v there =
              let u : user ≡ user' = ground arith in
              let d : device ≡ device' = ground arith in
              let absent : has_socket redis user' device' socket' r' ≡ false =
                ap (λ w. has_socket redis w device' socket' r') (sym u)
                ∙ ap (λ w. has_socket redis user w socket' r') (sym d)
                ∙ t.none_left gone socket' in
              absurd (ground arith)
