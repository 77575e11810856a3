-- ===== src/Db/Error.antt =====
-- crates/forge-index-db/src/error.rs. An error of the driver or of the JSON library is its text.
use forge_index.Base.{String}
use forge_index.Base.Text.{Text}

pub data DbError : Type 0 where
  schema_locked : String → DbError
  pool_creation : Text → DbError
  migration : Text → DbError
  flush : String → Text → DbError
  query : String → Text → DbError
  serialization : Text → DbError
  buffer_full : String → DbError
  sqlx : Text → DbError
