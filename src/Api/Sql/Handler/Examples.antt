-- ===== src/Api/Sql/Handler/Examples.antt =====
-- A query with the right key and one with none: crates/forge-index-api/src/handlers/sql.rs.
use forge_index.Base.{
  ℕ, ◌+◌, ◌-◌, ◌*◌, ◌≤◌, ◌≡◌, refl, true, none, some, [], ◌∷◌, map, ◌&&◌, arith, leb, if◌then◌else◌,
}
use forge_index.Base.Exec.{ok, pure}
use forge_index.Base.Search.{trim, replace, split_whitespace}
use forge_index.Base.Text.{codes, show_nat, text_eq}
use forge_index.Api.Sql.Execute.{Driver, execute_sql}
use forge_index.Api.Sql.Handler.{SqlState, SqlRequest, Caller, ip_of, respond, sql_handler}
use forge_index.Api.Sql.Handler.Guarded.{Authorized, sql_handler_guarded}
use forge_index.Api.Sql.Keywords.{
  contains_keyword, contains_from, find_keyword_pos, keyword_pos_from,
}
use forge_index.Api.Sql.Limit.{enforce_limit}
use forge_index.Api.Sql.RateLimiter
use forge_index.Api.Sql.RateLimiter.{try_acquire, bucket_of, bucket_acquire}
use forge_index.Api.Sql.RateLimiter.Isolation.{
  granted_to, granted_alone, times_of, span, granted_to_bound,
}
use forge_index.Api.Sql.Tables.{
  extract_table_names, tables_from, add_prefixes, add_schema_prefix, prefix_after,
}
use forge_index.Api.Sql.Types.{Casing, ValidatedSql}
use forge_index.Api.Sql.Validate.{validate_sql, check_text, check_keywords, check_schemas}
use forge_index.Api.Sql.Validate.Accepted.{Passes}
use forge_index.Rpc.RateLimiter.{token}
use forge_index.Rpc.RateLimiter as Bucket

abbrev upper : ℕ → ℕ
upper c = if leb b'a' c && leb c b'z' then c - 32 else c

abbrev lower : ℕ → ℕ
lower c = if leb b'A' c && leb c b'Z' then c + 32 else c

abbrev ascii : Casing
ascii = record { to_uppercase = map upper; to_lowercase = map lower }

-- the state of the database counts the queries
abbrev driver : Driver ℕ
driver = record {
  begin = pure tt;
  execute = λ text. pure tt;
  fetch_all = λ text w. (ok [], w + 1);
  rollback = λ w. w;
  elapsed = λ w. 3;
}

abbrev state : SqlState
state = record {
  pg_schema = codes "app";
  rate_limiter = record { buckets = []; max_rps = 10 };
  api_key = some (codes "key");
  prod_mode = true;
}

abbrev caller : Caller
caller = record { authorization = some (codes "Bearer key"); ip = some 9 }

abbrev request : SqlRequest
request = record { query = codes "select id from t"; timeout_ms = none }

ran : (sql_handler ascii driver 5 caller request (state, 0)).1.1 ≡ 1
unfolding sql_handler execute_sql try_acquire bucket_of bucket_acquire Bucket.new validate_sql
    check_text check_keywords check_schemas contains_keyword contains_from extract_table_names
    tables_from add_prefixes add_schema_prefix prefix_after replace split_whitespace enforce_limit
    find_keyword_pos keyword_pos_from show_nat text_eq
ran = refl

sql_handler_guarded_example :
    Authorized state caller
    × ((try_acquire (ip_of caller) 5 state.rate_limiter).0 ≡ true)
    × Passes ascii (trim request.query)
    × ((v : ValidatedSql) × (validate_sql ascii request.query state.pg_schema ≡ ok v)
        × ((sql_handler ascii driver 5 caller request (state, 0)).0
            ≡ some (respond (execute_sql driver v none 0).0))
        × ((sql_handler ascii driver 5 caller request (state, 0)).1.1
            ≡ (execute_sql driver v none 0).1))
sql_handler_guarded_example =
    sql_handler_guarded ascii driver 5 caller request state 0
      (λ same. absurd (omega (arith, ran, same)))

-- two callers in turn
granted_to_bound_example :
    (granted_to 4 ((4, 0) ∷ (5, 1) ∷ (4, 2) ∷ []) (RateLimiter.new 1)
      ≡ granted_alone 1 (0 ∷ 2 ∷ []))
    × (granted_to 4 ((4, 0) ∷ (5, 1) ∷ (4, 2) ∷ []) (RateLimiter.new 1) * token
        ≤ 1 * token + span (times_of 4 ((4, 0) ∷ (5, 1) ∷ (4, 2) ∷ [])) * 1)
granted_to_bound_example = granted_to_bound 1 4 ((4, 0) ∷ (5, 1) ∷ (4, 2) ∷ []) (omega arith)
