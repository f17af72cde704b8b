-- ===== src/Schema.antt =====
-- Rows of the tables that several services read (apps/backend/src/db/schema.ts).
-- Identifiers (uuids) are opaque and compared for equality only: they are numbers here, and so are
-- timestamps. A nullable column is an `Option`.
use Prim.Native.String.{String}
use clicked.Prelude.{ℕ, Option}

pub data ConversationType : Type 0 where
  dm group : ConversationType

pub record Conversation : Type 0 where
  pub id : ℕ
  pub type : ConversationType
  pub epoch : ℕ

pub record ConversationMember : Type 0 where
  pub conversation_id : ℕ
  pub user_id : ℕ

pub record Device : Type 0 where
  pub id : ℕ
  pub user_id : ℕ
  pub identity_public_key : String
  pub last_seen_at : Option ℕ
  pub revoked_at : Option ℕ
