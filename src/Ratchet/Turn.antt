-- ===== src/Ratchet/Turn.antt =====
-- The turns of a conversation: one party sends some texts under a new key of its own, and the other
-- receives them in any order and answers under a new key.
use clicked.Prelude.{
  ℕ, ◌+◌, ◌-◌, ◌≡◌, ◌≤◌, ◌<◌, refl, sym, ap, ◌∙◌, subst, Option, none, some, true, false, List, [],
  ◌∷◌, ◌&&◌, if◌then◌else◌, ltb, length, has, is_distinct, All, arith,
}
use clicked.Ratchet.{
  Bytes, Platform, IsPlatform, DoubleRatchetState, EncryptedMessagePayload, dh_changed, max_skip,
  max_skipped_keys, get_key, skipped_key_id, kdf_rk, init_alice, init_bob, generate_key_pair,
  skip_from, skip_message_keys, dh_ratchet, receive, receive_ratcheted, ratchet_decrypt,
}
use clicked.Ratchet.Keys.{dh_changed_refl}
use clicked.Ratchet.Chain.{
  chain_key, message_key, Tracks, SameSending, ratchet_decrypt-missing, ratchet_decrypt-changed,
}
use clicked.Ratchet.Receiving.{IsSealed}
use clicked.Ratchet.Session.{
  send_all, deliver, arrivals, texts_of, indices, AllSealed, pick-AllSealed, SameReceiving,
  send_all-AllSealed, deliver-Tracks, LeavesOther, skip_from-LeavesOther,
}

module _ {B T : Type 0} (p : Platform B T) where
  -- The party `x` may send under a key pair that `y` has not seen, and both know the same root key.
  pub record Ready (x y : DoubleRatchetState B) (ck : Bytes) : Type 0 where
    pub cks : x.cks ≡ some ck
    pub ns : x.ns ≡ 0
    pub own : x.dhs.public_key ≡ p.get_public_key x.dhs.private_key
    pub chained :
        kdf_rk p y.rk (p.get_shared_secret y.dhs.private_key x.dhs.public_key) ≡ (x.rk, ck)
    pub unseen : dh_changed y.dhr x.dhs.public_key ≡ true
    pub no_keys :
        (i : ℕ) → get_key p (skipped_key_id p (some x.dhs.public_key) i) y.mkskipped ≡ none

  -- A key that `x` has not seen.
  pub record IsNew (x : DoubleRatchetState B) (dh : Bytes) : Type 0 where
    pub unseen : dh_changed x.dhr dh ≡ true
    pub no_keys : (i : ℕ) → get_key p (skipped_key_id p (some dh) i) x.mkskipped ≡ none

  -- The bounds on skipped keys that a turn of `total` messages keeps to.
  pub record Fits (total : ℕ) (x y : DoubleRatchetState B) : Type 0 where
    pub short : total ≤ max_skip + 1
    pub previous : x.pn ≤ y.nr + max_skip
    pub room : length y.mkskipped + (x.pn - y.nr) + total ≤ max_skipped_keys

  module _ (law : IsPlatform p) (total : ℕ) (x y : DoubleRatchetState B) (ck random : Bytes)
      (ready : Ready x y ck) (fits : Fits total x y) where
    abbrev left : DoubleRatchetState B
    left = skip_from p y x.pn y.ckr

    abbrev pub ratcheted : DoubleRatchetState B
    ratcheted = dh_ratchet p left x.dhs.public_key random

    left-LeavesOther : LeavesOther p x.dhs.public_key (x.pn - y.nr) y left
    left-LeavesOther =
        skip_from-LeavesOther p law x.dhs.public_key y x.pn y.ckr ready.unseen
          (let r = fits.room in omega arith)

    received_root :
        kdf_rk p left.rk (p.get_shared_secret left.dhs.private_key x.dhs.public_key) ≡ (x.rk, ck)
    received_root =
        let same = left-LeavesOther in
        ap (λ k. kdf_rk p k (p.get_shared_secret left.dhs.private_key x.dhs.public_key)) same.rk
        ∙ ap (λ d. kdf_rk p y.rk (p.get_shared_secret d.private_key x.dhs.public_key)) same.dhs
        ∙ ready.chained

    ratcheted-Tracks : Tracks p total x.dhs.public_key ck [] ratcheted
    unfolding chain_key
    ratcheted-Tracks =
        let same = left-LeavesOther in
        let r = fits.room in
        let size = same.room in
        record {
          dhr = refl;
          ckr = ap (λ d. some d.1) received_root;
          keys = λ i. same.keys i ∙ ready.no_keys i ∙ none_before i;
          past = tt;
          reached = omega arith;
          room = omega arith;
        }
      where
        none_before :
            (i : ℕ)
            → ◌≡◌ {A = Option Bytes} none
                (if ltb i 0 && true then some (message_key p ck i) else none)
        none_before i = ground arith

    abbrev ratcheted_ck : Bytes
    ratcheted_ck =
        (kdf_rk p (kdf_rk p left.rk (p.get_shared_secret left.dhs.private_key x.dhs.public_key)).0
          (p.get_shared_secret random x.dhs.public_key)).1

    ratcheted-Ready :
        (x' y' : DoubleRatchetState B)
        → SameReceiving p x x'
        → IsNew x (p.get_public_key random)
        → SameSending p ratcheted y'
        → (ck' : Bytes) × Ready y' x' ck'
    ratcheted-Ready x' y' sent new same =
        let agreed : p.get_shared_secret x'.dhs.private_key y'.dhs.public_key
            ≡ p.get_shared_secret random x.dhs.public_key =
          ap (λ d. p.get_shared_secret d.private_key y'.dhs.public_key) sent.dhs
          ∙ ap (λ d. p.get_shared_secret x.dhs.private_key d.public_key) same.dhs
          ∙ law.shared_secret_comm x.dhs.private_key random
          ∙ ap (p.get_shared_secret random) (sym ready.own) in
        let root : x'.rk
            ≡ (kdf_rk p left.rk (p.get_shared_secret left.dhs.private_key x.dhs.public_key)).0 =
          sent.rk ∙ ap (λ d. d.0) (sym received_root) in
        let step : kdf_rk p x'.rk (p.get_shared_secret x'.dhs.private_key y'.dhs.public_key)
            ≡ kdf_rk p
                (kdf_rk p left.rk (p.get_shared_secret left.dhs.private_key x.dhs.public_key)).0
                (p.get_shared_secret random x.dhs.public_key) =
          ap (λ k. kdf_rk p k (p.get_shared_secret x'.dhs.private_key y'.dhs.public_key)) root
          ∙ ap
              (kdf_rk p
                (kdf_rk p left.rk (p.get_shared_secret left.dhs.private_key x.dhs.public_key)).0)
              agreed in
        let key : y'.dhs.public_key ≡ p.get_public_key random = ap (λ d. d.public_key) same.dhs in
        (
          ratcheted_ck,
          record {
            cks = same.cks;
            ns = same.ns;
            own = key ∙ ap (λ d. p.get_public_key d.private_key) (sym same.dhs);
            chained = step ∙ ap (λ k. (k, ratcheted_ck)) (sym same.rk);
            unseen =
                ap (λ o. dh_changed o y'.dhs.public_key) sent.dhr
                ∙ ap (dh_changed x.dhr) key
                ∙ new.unseen;
            no_keys = λ i.
                ap (get_key p (skipped_key_id p (some y'.dhs.public_key) i)) sent.mkskipped
                ∙ ap (λ k. get_key p (skipped_key_id p (some k) i) x.mkskipped) key
                ∙ new.no_keys i;
          },
        )

    -- The first message to arrive under the new key, whichever of the chain it is.
    first-ratcheted :
        (i : ℕ) (text : T) (ad : Bytes) (m : EncryptedMessagePayload B)
        → IsSealed p x.dhs.public_key ck i text ad m
        → m.pn ≡ x.pn
        → ratchet_decrypt p y m ad random ≡ ratchet_decrypt p ratcheted m ad random
    unfolding skip_message_keys
    first-ratcheted i text ad m sealed previous =
        let t = ratcheted-Tracks in
        let small : ltb (y.nr + max_skip) x.pn ≡ false = let b = fits.previous in ground arith in
        let skipped : skip_message_keys p y m.pn ≡ some left =
          ap (skip_message_keys p y) previous ∙ ap (λ b. if b then none else some left) small in
        let unknown : dh_changed y.dhr (p.from_base64 m.dh) ≡ true =
          ap (dh_changed y.dhr) sealed.of_chain ∙ ready.unseen in
        let known : dh_changed (some x.dhs.public_key) (p.from_base64 m.dh) ≡ false =
          ap (dh_changed (some x.dhs.public_key)) sealed.of_chain
          ∙ dh_changed_refl x.dhs.public_key in
        let without : get_key p (skipped_key_id p (some (p.from_base64 m.dh)) m.n) y.mkskipped
            ≡ none =
          ap (λ d. get_key p (skipped_key_id p (some d) m.n) y.mkskipped) sealed.of_chain
          ∙ ready.no_keys m.n in
        let left_without : get_key p (skipped_key_id p (some (p.from_base64 m.dh)) m.n)
              ratcheted.mkskipped
            ≡ none =
          ap (λ d. get_key p (skipped_key_id p (some d) m.n) ratcheted.mkskipped) sealed.of_chain
          ∙ left-LeavesOther.keys m.n
          ∙ ready.no_keys m.n in
        ratchet_decrypt-changed p y m ad random without unknown
        ∙ ap (receive_ratcheted p y m ad random) skipped
        ∙ ap (λ d. receive p (dh_ratchet p left d random) m ad) sealed.of_chain
        ∙ sym (ratchet_decrypt-missing p ratcheted m ad random left_without known)

    deliver_first :
        (ms : List (EncryptedMessagePayload B)) (texts : List (T × Bytes)) (ad : Bytes) (i : ℕ)
        (order : List (ℕ × Bytes))
        → AllSealed p x.dhs.public_key ck ad x.pn 0 ms texts
        → i < length texts
        → deliver p y ad (arrivals p ms ((i, random) ∷ order))
          ≡ deliver p ratcheted ad (arrivals p ms ((i, random) ∷ order))
    unfolding arrivals deliver
    deliver_first ms texts ad i order sealed inside =
        let (m, text, sent, said, sealed_m, previous) =
          pick-AllSealed p law x.dhs.public_key ck ad x.pn 0 i ms texts sealed inside in
        let first =
          first-ratcheted i text.0 ad m
            (subst (λ k. IsSealed p x.dhs.public_key ck k text.0 ad m) (omega arith) sealed_m)
            previous in
        let arrived : arrivals p ms ((i, random) ∷ order) ≡ (m, random) ∷ arrivals p ms order =
          rw sent refl in
        ap (deliver p y ad) arrived
        ∙ ap
            (λ d. (
              d.0 ∷ (deliver p d.1 ad (arrivals p ms order)).0,
              (deliver p d.1 ad (arrivals p ms order)).1,
            ))
            first
        ∙ ap (deliver p ratcheted ad) (sym arrived)

  nothing_received : (is : List ℕ) → All (λ i. has i [] ≡ false) is
  nothing_received [] = tt
  nothing_received (i ∷ is) = (refl, nothing_received is)

  -- A party that is ready sends its texts, and the other receives any of the messages, at least one,
  -- in any order, each once: every text is read, and the other is then ready to send to the first,
  -- as long as the key it draws is new and the bounds on skipped keys are kept.
  pub turn :
      (law : IsPlatform p) (x y : DoubleRatchetState B) (ck ad : Bytes) (texts : List (T × Bytes))
      (i : ℕ) (random : Bytes) (order : List (ℕ × Bytes))
      → Ready x y ck
      → Fits (length texts) x y
      → IsNew x (p.get_public_key random)
      → All (λ j. j < length texts) (indices p ((i, random) ∷ order))
      → is_distinct (indices p ((i, random) ∷ order)) ≡ true
      → (ms : List (EncryptedMessagePayload B)) × (x' : DoubleRatchetState B) × (ck' : Bytes)
        × (send_all p x ad texts ≡ some (ms, x'))
        × ((deliver p y ad (arrivals p ms ((i, random) ∷ order))).0
            ≡ texts_of p texts ((i, random) ∷ order))
        × Ready (deliver p y ad (arrivals p ms ((i, random) ∷ order))).1 x' ck'
  unfolding chain_key
  turn law x y ck ad texts i random order ready fits new inside distinct =
      let total = length texts in
      let (ms, x', sent, sealed, same) =
        send_all-AllSealed p law ck ad x texts
          (ready.cks ∙ ap (λ n. some (chain_key p ck n)) (sym ready.ns)) in
      let sealed_0 =
        subst (λ n. AllSealed p x.dhs.public_key ck ad x.pn n ms texts) ready.ns sealed in
      let whole =
        deliver_first law total x y ck random ready fits ms texts ad i order sealed_0 inside.0 in
      let start = ratcheted law total x y ck random ready fits in
      let all =
        deliver-Tracks p law total x.dhs.public_key ck ad x.pn ms texts sealed_0
          ((i, random) ∷ order) [] start (ratcheted-Tracks law total x y ck random ready fits)
          (omega arith) fits.short inside (nothing_received (indices p ((i, random) ∷ order)))
          distinct in
      let next =
        ratcheted-Ready law total x y ck random ready fits x'
          (deliver p start ad (arrivals p ms ((i, random) ∷ order))).1 same new all.1 in
      (
        ms,
        x',
        next.0,
        sent,
        ap (λ d. d.0) whole ∙ all.0,
        subst (λ d. Ready d.1 x' next.0) (sym whole) next.1,
      )

  -- Once X3DH has given both the same shared key, Alice is ready to send to Bob.
  pub init-Ready :
      (law : IsPlatform p) (shared_key bob random : Bytes)
      → (ck : Bytes) × Ready
          (init_alice p shared_key (p.get_public_key bob) random)
          (init_bob p shared_key (generate_key_pair p bob))
          ck
  unfolding init_alice init_bob
  init-Ready law shared_key bob random = (
    (kdf_rk p shared_key (p.get_shared_secret random (p.get_public_key bob))).1,
    record {
      cks = refl;
      ns = refl;
      own = refl;
      chained = ap (kdf_rk p shared_key) (law.shared_secret_comm bob random);
      unseen = refl;
      no_keys = λ i. refl;
    },
  )
