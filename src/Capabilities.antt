-- ===== src/Capabilities.antt =====
-- Capability documents of devices and protocol negotiation (apps/backend/src/lib/capabilities.ts).
pub mod Negotiation
mod Tests
use Prim.Native.String.{String}
use text.Mathlib.Text.{◌==◌ as str_eq}
use clicked.Prelude.{
  ℕ, Option, none, some, Bool, true, false, ◌&&◌, ◌||◌, List, [], ◌∷◌, if◌then◌else◌, find_first,
}

pub data KnownProtocol : Type 0 where
  sealed_box signal mls : KnownProtocol

-- A name in a document: one that the server knows, or any other text.
pub data ProtocolName : Type 0 where
  known : KnownProtocol → ProtocolName
  unknown : String → ProtocolName

-- The capabilities column: null or absent, a value that the schema rejects, or a document with its
-- optional fields.
pub data RawCapabilities : Type 0 where
  missing malformed : RawCapabilities
  document :
      Option (List ProtocolName) → Option (List String) → Option (List String) → RawCapabilities

pub record DeviceCapabilities : Type 0 where
  pub protocols : List ProtocolName
  pub ciphersuites : List String
  pub file_transfer : List String

abbrev pub baseline_protocol : KnownProtocol
baseline_protocol = sealed_box

abbrev pub default_capabilities : DeviceCapabilities
default_capabilities = record {
  protocols = known baseline_protocol ∷ [];
  ciphersuites = [];
  file_transfer = [];
}

-- `protocols?.length ? protocols : [BASELINE_PROTOCOL]`
abbrev protocols_or_baseline : Option (List ProtocolName) → List ProtocolName
protocols_or_baseline none = known baseline_protocol ∷ []
protocols_or_baseline (some []) = known baseline_protocol ∷ []
protocols_or_baseline (some (p ∷ ps)) = p ∷ ps

abbrev names_or_none : Option (List String) → List String
names_or_none none = []
names_or_none (some xs) = xs

unfoldable pub normalize_capabilities : RawCapabilities → DeviceCapabilities
normalize_capabilities missing = default_capabilities
normalize_capabilities malformed = default_capabilities
normalize_capabilities (document ps cs fs) = record {
  protocols = protocols_or_baseline ps;
  ciphersuites = names_or_none cs;
  file_transfer = names_or_none fs;
}

abbrev pub same_protocol : KnownProtocol → KnownProtocol → Bool
same_protocol sealed_box sealed_box = true
same_protocol signal signal = true
same_protocol mls mls = true
same_protocol _ _ = false

abbrev names : ProtocolName → KnownProtocol → Bool
names (known q) p = same_protocol q p
names (unknown s) p = false

abbrev pub has_protocol : KnownProtocol → List ProtocolName → Bool
has_protocol p [] = false
has_protocol p (q ∷ qs) = names q p || has_protocol p qs

abbrev pub has_name : String → List String → Bool
has_name s [] = false
has_name s (t ∷ ts) = str_eq t s || has_name s ts

-- `a.find((suite) => setB.has(suite)) ?? null`
unfoldable pub select_ciphersuite : List String → List String → Option String
select_ciphersuite a b = find_first (λ suite. has_name suite b) a

pub record Selection : Type 0 where
  pub protocol : KnownProtocol
  pub ciphersuite : Option String

abbrev pub protocol_priority : List KnownProtocol
protocol_priority = mls ∷ signal ∷ sealed_box ∷ []

abbrev suite_for : KnownProtocol → DeviceCapabilities → DeviceCapabilities → Option String
suite_for mls a b = select_ciphersuite a.ciphersuites b.ciphersuites
suite_for _ a b = none

abbrev pub both_advertise : DeviceCapabilities → DeviceCapabilities → KnownProtocol → Bool
both_advertise a b p = has_protocol p a.protocols && has_protocol p b.protocols

-- The loop of `selectProtocol` over the candidates, and its fallback.
abbrev select_from : DeviceCapabilities → DeviceCapabilities → List KnownProtocol → Selection
select_from a b [] = record { protocol = baseline_protocol; ciphersuite = none }
select_from a b (p ∷ ps) =
    if both_advertise a b p
    then record { protocol = p; ciphersuite = suite_for p a b }
    else select_from a b ps

unfoldable pub select_protocol : RawCapabilities → RawCapabilities → Selection
select_protocol a b =
    select_from (normalize_capabilities a) (normalize_capabilities b) protocol_priority

unfoldable pub supports_file_transfer : RawCapabilities → String → Bool
supports_file_transfer a version = has_name version (normalize_capabilities a).file_transfer
