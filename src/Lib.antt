-- ===== src/Lib.antt =====
-- forge-index: an indexer of EVM chains, as definitions and theorems.
--
-- The program reads logs from a chain's nodes, decodes them, lets handlers turn them into rows and
-- serves the rows over HTTP. Its core is the sync engine. A backfill plans ranges of blocks
-- (crates/forge-index-sync/src/backfill), and live blocks pass the reorg detector
-- (crates/forge-index-sync/src/reorg) before their events reach the handlers
-- (crates/forge-index-sync/src/realtime). Handlers write into a buffer that is flushed to Postgres in
-- batches (crates/forge-index-db/src), and the API turns filters and cursors of a request into SQL
-- (crates/forge-index-api/src).
--
-- Files, by the crate they are about:
-- Base: what the components share. Wrapping machine integers (Word), maps as association lists
--   (Maps), state with early returns (Exec), JSON values (Json), text as a list of character codes
--   (Text), SQL's string literals and a reader for them (Quote), trimming from the back (Trim),
--   searching text (Search), decimal numbers (Decimal), numbers as bytes (Bytes).
-- Core: blocks and logs (Types, and Alloy, which makes them from what the provider returns),
--   decoded events (Event), and the ABI decoder: abi/types.rs (Abi, AbiType), the texts of hashes
--   and addresses (HexText, types/hash.rs and types/address.rs), one word of abi/decoder.rs (Slot)
--   and the rest of that file (Decoder), and the ABI's JSON of abi/parser.rs (AbiParser), with the
--   JSON parser as a parameter. Encode is the layout that the contract ABI prescribes, which the
--   source does not have. The decimal text of a 256-bit number, the lossy reading of UTF-8 and the
--   allocator are parameters; an offset is a 64-bit `usize`, and a panic is a result.
-- Rpc: the errors of the RPC clients and their retries, where the delays and the sleep are
--   parameters; the calls of a node (Client, client.rs and types.rs); requests that share one call
--   (Dedup, dedup.rs), where tasks take turns in any order; the buckets of the rate limiter
--   (RateLimiter, rate_limiter.rs), counted in whole parts of a token and in exact arithmetic,
--   without the wait for a token; the tables of the cache (LogCache and Store, cache/store.rs), each
--   the list of its rows and of the statements on it that fail, with the hashes and addresses of
--   logs as texts; and the client that reads through them (CachedClient, cached_client.rs).
-- Config: the data of a configuration (Contract, Types), its checks (Validation, validation.rs),
--   its builder (Builder, builder.rs) and the builders and the SQL of tables (Schema, schema.rs).
--   Whether a text is JSON is a parameter.
-- Sync.ChainState: reorg/chain_state.rs. The deque is a list from the oldest block to the newest.
-- Sync.Detector: reorg/detector.rs. `process_block` and `find_fork_point` take the detector and
--   the state of the network's client and return both; the client is a parameter.
-- Sync.Planner: backfill/planner.rs. The loop that cuts ranges runs on fuel, one more than the
--   number of blocks, which is enough because with a positive chunk size each turn goes past a block
--   at least.
-- Sync.Worker, Sync.Coordinator and Sync.Progress: the rest of backfill. The worker decodes with
--   Core.Decoder, and a panic there ends the backfill. The network, the database and what handlers
--   do outside of the buffer are one state of which nothing is known.
-- Sync.Factory and Sync.Finality: factory.rs and realtime/finality.rs.
-- Sync.Handler, Sync.Processor and Sync.Subscriber: reorg/handler.rs, realtime/processor.rs and
--   realtime/subscriber.rs. The stream of blocks is the list of what it yields.
-- Db.Row, Db.Buffer and Db.Reorg: row.rs, buffer.rs and reorg.rs. The database is a parameter that
--   runs SQL texts.
-- Db.Query: query.rs. The database is a parameter that runs SQL texts.
-- Db.Manager: manager.rs and `build_id` of the schema. The driver and the digest are parameters.
-- Telemetry.BuildId: telemetry's build_id.rs. The digest and the printer of plain values are
--   parameters.
-- Api.Pagination and Api.Filters: graphql/pagination.rs and graphql/filters.rs.
-- Api.Response: response.rs and error.rs.
-- Api.Sql: sql/parser.rs (Types, Keywords, Tables, Limit, Validate), sql/executor.rs (Execute) and
--   handlers/sql.rs (RateLimiter, Handler). A text is its code points, positions count UTF-8 bytes.
--   The searches run on fuel, as many rounds as the text has characters or one more; each round
--   takes at least one. The driver is a parameter.
--
-- Numbers are natural numbers, and a 64-bit sum or difference has its wrap-around written out. A hash
-- or an address is the number its bytes spell, a timestamp a number. Locks are not modelled: but
-- for Dedup, an operation runs to its end before the next one. Logging and metrics are left out, as
-- are the inside of the RPC provider's library, the routes of the HTTP server and the GraphQL schema,
-- which are built by libraries, and the command line.
pub mod Base
pub mod Core
pub mod Rpc
pub mod Config
pub mod Db
pub mod Sync
pub mod Telemetry
pub mod Api
