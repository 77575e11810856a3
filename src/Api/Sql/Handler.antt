-- ===== src/Api/Sql/Handler.antt =====
-- The SQL endpoint: `sql_handler` in crates/forge-index-api/src/handlers/sql.rs. An address is a number.
-- Where the check of the query panics there is no answer.
pub mod Guarded
mod Examples
use forge_index.Base.{ℕ, Bool, true, false, Option, none, some, List, [], ◌∷◌, ◌++◌, if◌then◌else◌}
use forge_index.Base.Exec.{Result, ok, err}
use forge_index.Base.Json.{Json, Items, nil, cons, number, string, array, object, end, field}
use forge_index.Base.Search.{strip_prefix}
use forge_index.Base.Text.{Text, codes, show_nat, text_eq}
use forge_index.Api.Response.{Response, error_response, ok_with_meta}
use forge_index.Api.Sql.Execute.{SqlResult, Driver, execute_sql}
use forge_index.Api.Sql.RateLimiter.{SqlRateLimiter, try_acquire}
use forge_index.Api.Sql.Types.{Casing, SqlError, Refusal, ValidatedSql}
use forge_index.Api.Sql.Validate.{validate_sql}

pub record SqlState : Type 0 where
  pub pg_schema : Text
  pub rate_limiter : SqlRateLimiter
  pub api_key : Option Text
  pub prod_mode : Bool

pub record SqlRequest : Type 0 where
  pub query : Text
  pub timeout_ms : Option ℕ

-- what the headers and the connection say; the header is none if it is missing or no text
pub record Caller : Type 0 where
  pub authorization : Option Text
  pub ip : Option ℕ

abbrev pub localhost : ℕ
localhost = 2130706433

abbrev pub ip_of : Caller → ℕ
ip_of caller = elim caller.ip [ none ↦ localhost | some ip ↦ ip ]

-- the text of an error
abbrev pub sql_error_text : SqlError → Text
sql_error_text (SqlError.invalid_statement msg) = msg
sql_error_text (SqlError.forbidden_keyword kw) = codes "Forbidden keyword: " ++ kw
sql_error_text (SqlError.too_long len max) =
    codes "Query too long: "
    ++ (show_nat len ++ (codes " chars (max " ++ (show_nat max ++ codes ")")))
sql_error_text SqlError.timeout = codes "Query execution timed out"
sql_error_text (SqlError.database e) = codes "Database error: " ++ e

abbrev pub status_of : SqlError → ℕ × Text
status_of (SqlError.invalid_statement msg) = (400, codes "INVALID_SQL")
status_of (SqlError.forbidden_keyword kw) = (400, codes "FORBIDDEN_KEYWORD")
status_of (SqlError.too_long len max) = (400, codes "QUERY_TOO_LONG")
status_of SqlError.timeout = (408, codes "TIMEOUT")
status_of (SqlError.database e) = (500, codes "DATABASE_ERROR")

-- the answer to a query that does not pass the check
abbrev pub rejection : SqlError → Response
rejection e = let (status, code) = status_of e in error_response status code (sql_error_text e)

abbrev pub unauthorized : Response
unauthorized =
    error_response 401 (codes "UNAUTHORIZED") (codes "Invalid or missing Authorization header")

abbrev pub rate_limited : Response
rate_limited =
    record (error_response 429 (codes "RATE_LIMITED")
      (codes "Too many requests. Max 10 requests per second.")) {
        headers = (codes "Retry-After", codes "1") ∷ [];
      }

-- the token that was sent is the key
abbrev pub token_matches : Text → Option Text → Bool
token_matches key none = false
token_matches key (some token) = text_eq token key

abbrev pub token_is : Text → Option Text → Bool
token_is key none = false
token_is key (some header) = token_matches key (strip_prefix (codes "Bearer ") header)

abbrev pub key_accepted : Option Text → Option Text → Bool
key_accepted none header = true
key_accepted (some key) header = token_is key header

-- step 1
abbrev pub is_authorized : SqlState → Caller → Bool
is_authorized state caller =
    if state.prod_mode then key_accepted state.api_key caller.authorization else true

abbrev pub items_of : List Json → Items
items_of [] = nil
items_of (v ∷ vs) = cons v (items_of vs)

abbrev pub column_items : List Text → Items
column_items [] = nil
column_items (c ∷ cs) = cons (string c) (column_items cs)

-- the answer to a query that ran
abbrev pub respond : Result SqlError SqlResult → Response
respond (ok result) =
    ok_with_meta
      (object (
        field (codes "rows") (array (items_of result.rows))
          (field (codes "columns") (array (column_items result.columns)) end)))
      (object (
        field (codes "execution_time_ms") (number (show_nat result.execution_time_ms))
          (field (codes "row_count") (number (show_nat result.row_count)) end)))
respond (err SqlError.timeout) =
    error_response 408 (codes "TIMEOUT") (codes "Query execution timed out")
respond (err (SqlError.invalid_statement msg)) = error_response 500 (codes "DATABASE_ERROR") msg
respond (err (SqlError.forbidden_keyword kw)) =
    error_response 500 (codes "DATABASE_ERROR") (sql_error_text (SqlError.forbidden_keyword kw))
respond (err (SqlError.too_long len max)) =
    error_response 500 (codes "DATABASE_ERROR") (sql_error_text (SqlError.too_long len max))
respond (err (SqlError.database e)) =
    error_response 500 (codes "DATABASE_ERROR") (sql_error_text (SqlError.database e))

module _ {W : Type 0} (casing : Casing) (driver : Driver W) where
  -- steps 3 and 4, for each outcome of the check
  abbrev pub run_checked : Result Refusal ValidatedSql → Option ℕ → W → Option Response × W
  run_checked (err (Refusal.refused e)) timeout_ms w = (some (rejection e), w)
  run_checked (err Refusal.panicked) timeout_ms w = (none, w)
  run_checked (ok v) timeout_ms w =
      let (result, w') = execute_sql driver v timeout_ms w in (some (respond result), w')

  -- `now` is the time of the call
  unfoldable pub sql_handler :
      (now : ℕ) → Caller → SqlRequest → SqlState × W → Option Response × (SqlState × W)
  sql_handler now caller req (state, w) =
      if is_authorized state caller
      then (let (granted, limiter) = try_acquire (ip_of caller) now state.rate_limiter in
          let counted = record state { rate_limiter = limiter } in
          if granted
          then (let (answer, w') =
                run_checked (validate_sql casing req.query state.pg_schema) req.timeout_ms w in
              (answer, (counted, w')))
          else (some rate_limited, (counted, w)))
      else (some unauthorized, (state, w))
