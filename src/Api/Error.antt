-- ===== src/Api/Error.antt =====
-- crates/forge-index-api/src/error.rs
use forge_index.Base.Text.{Text}

pub data ApiError : Type 0 where
  internal : Text → ApiError
  not_found : Text → ApiError
  bad_request : Text → ApiError
