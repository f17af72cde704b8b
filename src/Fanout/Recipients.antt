-- ===== src/Fanout/Recipients.antt =====
-- A message is fanned out exactly when the sender encrypted to exactly the expected devices.
use Prim.Native.String.{String}
use clicked.Prelude.{
  ℕ, ◌+◌, ◌≡◌, ◌↔◌, refl, sym, ◌∙◌, Option, none, some, Bool, true, false, not, ◌&&◌, List, [], ◌∷◌,
  ◌++◌, map, arith, inl, inr, ◌⊎◌, ◌==◌, Bool-cases, is_none, every, has, is_distinct, length,
  find_first, rows_where, find_first-All, All,
}
use clicked.Schema.{Device}
use clicked.Fanout.{
  Store, NewMessage, MessageEnvelope, sent, device_set_mismatch, expected_devices,
  resolve_recipient_device_set, set_size, sets_match, envelope_rows, provided_ids, new_row,
  fanout_message, member_ids, is_sender,
}

-- The ids other than `p`.
abbrev without : ℕ → List ℕ → List ℕ
without p = rows_where (λ e. not (e == p))

has-without : (p d : ℕ) (es : List ℕ) → has d (without p es) ≡ (has d es && not (d == p))
has-without p d [] = refl
has-without p d (e ∷ es) = ground (arith, has-without p d es)

set_size-without_absent :
    (p : ℕ) (es : List ℕ) → has p es ≡ false → set_size (without p es) ≡ set_size es
set_size-without_absent p [] h = refl
set_size-without_absent p (e ∷ es) h =
    ground (arith, set_size-without_absent p es, has-without p e es)

set_size-without :
    (p : ℕ) (es : List ℕ) → has p es ≡ true → set_size (without p es) + 1 ≡ set_size es
set_size-without p [] h = cc
set_size-without p (e ∷ es) h =
    ground (arith, set_size-without p es, set_size-without_absent p es, has-without p e es)

every-without :
    (p : ℕ) (ps es : List ℕ)
    → has p ps ≡ false
    → every (λ d. has d es) ps ≡ true
    → every (λ d. has d (without p es)) ps ≡ true
every-without p [] es h k = refl
every-without p (q ∷ ps) es h k = ground (arith, every-without p ps es, has-without p q es)

set_size-zero : (d : ℕ) (es : List ℕ) → set_size es ≡ 0 → has d es ≡ false
set_size-zero d [] h = refl
set_size-zero d (e ∷ es) h = ground (arith, set_size-zero e es)

-- Distinct ids that are all expected, and as many as there are expected ones, are all of them.
covers :
    (ps es : List ℕ) (d : ℕ)
    → is_distinct ps ≡ true
    → every (λ p. has p es) ps ≡ true
    → length ps ≡ set_size es
    → has d es ≡ true
    → has d ps ≡ true
covers [] es d u h n k = ground (arith, set_size-zero d es)
covers (p ∷ ps) es d u h n k = ground (
  arith,
  covers ps (without p es) d,
  every-without p ps es,
  set_size-without p es,
  has-without p d es,
)

every_expected :
    (ps es : List ℕ) (d : ℕ) → every (λ p. has p es) ps ≡ true → has d ps ≡ true → has d es ≡ true
every_expected [] es d h k = cc
every_expected (p ∷ ps) es d h k = ground (arith, every_expected ps es d)

abbrev pub SameIds : List ℕ → List ℕ → Type 0
SameIds ps es = (d : ℕ) → has d ps ≡ has d es

length_of_same : (ps es : List ℕ) → is_distinct ps ≡ true → SameIds ps es → length ps ≡ set_size es
length_of_same [] [] u same = refl
length_of_same [] (e ∷ es) u same = ground (arith, same e)
length_of_same (p ∷ ps) es u same = ground (
  arith,
  same p,
  set_size-without p es,
  length_of_same ps (without p es) (ground arith) (λ d. ground (arith, same d, has-without p d es)),
)

all_in_self :
    (ps qs : List ℕ)
    → ((d : ℕ) → has d ps ≡ true → has d qs ≡ true)
    → every (λ p. has p qs) ps ≡ true
all_in_self [] qs h = refl
all_in_self (p ∷ ps) qs h = ground (arith, h p, all_in_self ps qs (λ d k. h d (ground arith)))

-- Distinct ids pass the comparison exactly when they are the expected ids, in whatever order.
sets_match_iff :
    (ps es : List ℕ) → is_distinct ps ≡ true → (sets_match ps es ≡ true) ↔ SameIds ps es
unfolding sets_match
sets_match_iff ps es u = (
  λ h d. elim (Bool-cases (has d ps)) [
    | inl provided ↦ rw provided (sym (every_expected ps es d (ground arith) provided))
    | inr left_out ↦ elim (Bool-cases (has d es)) [
      | inl expected ↦ covers ps es d u (ground arith) (ground arith) expected ∙ sym expected
      | inr neither ↦ left_out ∙ sym neither
    ]
  ],
  λ same.
      let every_one = all_in_self ps es (λ d h. sym (same d) ∙ h) in
      ground (arith, length_of_same ps es u same),
)

-- The envelope of a device that is an active device of a member and not the sending one, addressed
-- to the device's owner.
pub record IsAddressed (s : Store) (m : NewMessage) (sender : Option ℕ) (e : MessageEnvelope)
    : Type 0 where
  pub device : Device
  pub found :
      find_first (λ d. d.id == e.recipient_device_id) (expected_devices s m.conversation_id sender)
      ≡ some device
  pub owner : e.recipient_user_id ≡ some device.user_id
  pub member : has device.user_id (member_ids s m.conversation_id) ≡ true
  pub active : device.revoked_at ≡ none
  pub not_sender : is_sender sender device.id ≡ false

find_of_has :
    (ds : List Device) (id : ℕ)
    → has id (map (λ d. d.id) ds) ≡ true
    → (d : Device) × (find_first (λ d. d.id == id) ds ≡ some d)
find_of_has [] id h = cc
find_of_has (d ∷ ds) id h = elim (Bool-cases (d.id == id)) [
  | inl same ↦ (d, rw same)
  | inr other ↦ let (x, found) = find_of_has ds id (ground arith) in (x, rw other found)
]

is_recipient : Store → ℕ → Option ℕ → Device → Bool
is_recipient s conversation sender d =
    not (is_sender sender d.id)
    && (has d.user_id (member_ids s conversation) && is_none d.revoked_at)

expected_are_recipients :
    (s : Store) (conversation : ℕ) (sender : Option ℕ) (ds : List Device)
    → All
        (λ d. is_recipient s conversation sender d ≡ true)
        (rows_where
          (λ d. not (is_sender sender d.id))
          (rows_where (λ d. has d.user_id (member_ids s conversation) && is_none d.revoked_at) ds))
unfolding is_recipient
expected_are_recipients s conversation sender [] = tt
expected_are_recipients s conversation sender (d ∷ ds) =
    ground (arith, expected_are_recipients s conversation sender ds)

addressed :
    (s : Store) (m : NewMessage) (sender : Option ℕ) (id : ℕ) (cs : List (ℕ × String))
    → every
        (λ d. has d (map (λ d. d.id) (expected_devices s m.conversation_id sender)))
        (provided_ids cs)
      ≡ true
    → All
        (IsAddressed s m sender)
        (envelope_rows (expected_devices s m.conversation_id sender) id cs)
unfolding is_recipient
addressed s m sender id [] h = tt
addressed s m sender id ((device, ciphertext) ∷ cs) h =
    let (d, found) =
      find_of_has (expected_devices s m.conversation_id sender) device (ground arith) in
    let good : is_recipient s m.conversation_id sender d ≡ true =
      find_first-All (λ d. is_recipient s m.conversation_id sender d ≡ true) _
        (expected_devices s m.conversation_id sender) d found
        (unfold expected_devices in expected_are_recipients s m.conversation_id sender s.devices) in
    (
      record {
        device = d;
        found = found;
        owner = rw found;
        member = ground arith;
        active = ground arith;
        not_sender = ground arith;
      },
      addressed s m sender id cs (ground arith),
    )

abbrev pub fanned_out : Store → NewMessage → Option ℕ → List (ℕ × String) → Store
fanned_out s m sender cs = record s {
  messages = s.messages ++ new_row s m ∷ [];
  envelopes =
      s.envelopes ++ envelope_rows (expected_devices s m.conversation_id sender) s.next_id cs;
  next_id = s.next_id + 1;
}

-- Where the sender encrypted to exactly the devices that the conversation expects, the message is
-- stored with one envelope for each, addressed to an active device of a member, other than the
-- sending one, and to that device's owner; otherwise nothing is stored and the sender is told the
-- expected devices. The keys of the given object are distinct.
pub fanout_message-cases :
    (s : Store) (m : NewMessage) (sender : Option ℕ) (cs : List (ℕ × String))
    → is_distinct (provided_ids cs) ≡ true
    → (SameIds (provided_ids cs) (resolve_recipient_device_set s m.conversation_id sender)
        × (fanout_message s m sender cs ≡ (sent (new_row s m), fanned_out s m sender cs))
        × All
            (IsAddressed s m sender)
            (envelope_rows (expected_devices s m.conversation_id sender) s.next_id cs))
      ⊎ ((¬ SameIds (provided_ids cs) (resolve_recipient_device_set s m.conversation_id sender))
          × (fanout_message s m sender cs
              ≡ (device_set_mismatch (resolve_recipient_device_set s m.conversation_id sender), s)))
unfolding fanout_message resolve_recipient_device_set
fanout_message-cases s m sender cs u = elim (Bool-cases (sets_match (provided_ids cs) expected)) [
  | inl match ↦ inl (
    (sets_match_iff _ expected u).0 match,
    rw match,
    addressed s m sender s.next_id cs
        (all_in_self _ expected (λ d h. sym ((sets_match_iff _ expected u).0 match d) ∙ h)),
  )
  | inr differ ↦ inr ((λ same. differs ((sets_match_iff _ expected u).1 same) differ), rw differ)
]
  where
    expected : List ℕ
    expected = map (λ d. d.id) (expected_devices s m.conversation_id sender)

    differs : {b : Bool} → b ≡ true → b ≡ false → ⊥
    differs p q = cc
