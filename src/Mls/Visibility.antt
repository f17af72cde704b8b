-- ===== src/Mls/Visibility.antt =====
-- Which epochs a device can decrypt (apps/backend/src/lib/mlsVisibility.ts).
use Prim.Native.String.{String}
use clicked.Prelude.{ℕ, Option, none, some, List, [], ltb, leb, if◌then◌else◌}

-- The epochs `[joined_at_epoch, removed_at_epoch)`.
pub record MlsEpochWindow : Type 0 where
  pub joined_at_epoch : ℕ
  pub removed_at_epoch : Option ℕ

pub data MlsUnavailableReason : Type 0 where
  before_join after_removal not_a_member : MlsUnavailableReason

unfoldable pub is_past_removal : ℕ → Option ℕ → MlsUnavailableReason → Option MlsUnavailableReason
is_past_removal epoch none reason = none
is_past_removal epoch (some removed) reason = if leb removed epoch then some reason else none

unfoldable pub mls_unavailable_reason : ℕ → Option MlsEpochWindow → Option MlsUnavailableReason
unfolding is_past_removal
mls_unavailable_reason epoch none = some not_a_member
mls_unavailable_reason epoch (some w) =
    if ltb epoch w.joined_at_epoch
    then some before_join
    else is_past_removal epoch w.removed_at_epoch after_removal

-- The fields of a message that the read paths may blank, with the tag that they add.
pub record VisibleMessage : Type 0 where
  pub mls_epoch : Option ℕ
  pub ciphertext : Option String
  pub envelopes : Option (List String)
  pub unavailable : Option MlsUnavailableReason

abbrev blank_envelopes : Option (List String) → Option (List String)
blank_envelopes none = none
blank_envelopes (some es) = some []

abbrev mark_unavailable : VisibleMessage → Option MlsUnavailableReason → VisibleMessage
mark_unavailable m none = m
mark_unavailable m (some reason) = record m {
  ciphertext = none;
  envelopes = blank_envelopes m.envelopes;
  unavailable = some reason;
}

abbrev visible_at : VisibleMessage → Option MlsEpochWindow → Option ℕ → VisibleMessage
visible_at m w none = m
visible_at m w (some epoch) = mark_unavailable m (mls_unavailable_reason epoch w)

unfoldable pub apply_mls_visibility : VisibleMessage → Option MlsEpochWindow → VisibleMessage
apply_mls_visibility m w = visible_at m w m.mls_epoch
