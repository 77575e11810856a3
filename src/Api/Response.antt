-- ===== src/Api/Response.antt =====
-- The envelope of the API's answers: crates/forge-index-api/src/response.rs and
-- crates/forge-index-api/src/error.rs. A status is its number, a header its name and its value.
use forge_index.Base.{ℕ, Option, none, some, List, []}
use forge_index.Base.Json.{Json}
use forge_index.Base.Text.{Text, codes}
use forge_index.Api.Error.{ApiError, internal, not_found, bad_request}

pub record ApiErrorBody : Type 0 where
  pub code : Text
  pub message : Text

pub record ApiResponse : Type 0 where
  pub payload : Option Json
  pub meta : Option Json
  pub error : Option ApiErrorBody

pub record Response : Type 0 where
  pub status : ℕ
  pub headers : List (Text × Text)
  pub body : ApiResponse

abbrev pub api_ok : Json → Response
api_ok payload = record {
  status = 200;
  headers = [];
  body = record { payload = some payload; meta = none; error = none };
}

abbrev pub ok_with_meta : Json → Json → Response
ok_with_meta payload meta = record {
  status = 200;
  headers = [];
  body = record { payload = some payload; meta = some meta; error = none };
}

abbrev pub error_response : ℕ → Text → Text → Response
error_response status code message = record {
  status = status;
  headers = [];
  body = record {
    payload = none;
    meta = none;
    error = some (record { code = code; message = message });
  };
}

abbrev pub into_response : ApiError → Response
into_response (internal msg) = error_response 500 (codes "INTERNAL") msg
into_response (not_found msg) = error_response 404 (codes "NOT_FOUND") msg
into_response (bad_request msg) = error_response 400 (codes "BAD_REQUEST") msg
