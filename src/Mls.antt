-- ===== src/Mls.antt =====
-- MLS groups: the ledger of epochs, leaves, commits and welcomes
-- (apps/backend/src/services/mlsGroups.ts), what a device may read (lib/mlsVisibility.ts), and the
-- routes that write the ledger (routes/mls.ts).
pub mod Visibility
pub mod Ledger
pub mod KeyPackages
pub mod Routes
mod Tests
