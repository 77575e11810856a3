-- ===== src/Rpc/LogCache.antt =====
-- The cached logs: crates/forge-index-rpc/src/cache/store.rs, with the table of
-- crates/forge-index-rpc/src/cache/migrations.rs as the list of its rows. A number of 32 or 64 bits
-- stands for itself, whichever sign its column gives it. The hexadecimal codec and the digest are
-- parameters, and so is the format of a log's id.
pub mod Taken
pub mod Fresh
use forge_index.Base.{
  ℕ, zero, suc, ◌+◌, ◌-◌, ◌%◌, ◌^◌, String, Bool, true, false, not, ◌&&◌, ◌||◌, Option, none, some,
  List, [], ◌∷◌, ◌++◌, map, ltb, ◌==◌, if◌then◌else◌, keep, length,
}
use forge_index.Base.Exec.{Result, ok, err, Exec, ◌>>=◌, ◌>>◌, pure}
use forge_index.Base.Sort.{sort_by}
use forge_index.Base.Text.{Text, codes, join, text_eq}
use forge_index.Base.Int.{ℤ, pos, negsuc}
use forge_index.Core.HexText.{HexLibrary, hash_text, address_text, from_hex}
use forge_index.Core.Types.{Log}
use forge_index.Rpc.Table.{Table, statement, insert_new}
use forge_index.Rpc.Types.{LogFilter}

-- The libraries behind the texts, and `format!("{}-{}")`, which makes the id of a log.
pub record Texts : Type 0 where
  pub hex : HexLibrary
  pub log_id : (block_hash : Text) (log_index : ℤ) → String

pub record LogRow : Type 0 where
  pub chain_id : ℕ
  pub from_block : ℕ
  pub to_block : ℕ
  pub address : List Text
  pub topics : List Text
  pub log_index : ℕ
  pub block_number : ℕ
  pub block_hash : Text
  pub tx_hash : Text
  pub tx_index : ℕ
  pub log_address : Text
  pub log_topics : List Text
  pub payload : List ℕ
  pub removed : Bool

abbrev pub LogTable : Type 0
LogTable = Table LogRow

-- the primary key
abbrev pub same_key : LogRow → LogRow → Bool
same_key a b =
    (a.chain_id == b.chain_id) && (a.block_number == b.block_number) && (a.log_index == b.log_index)

abbrev pub texts_eq : List Text → List Text → Bool
texts_eq [] [] = true
texts_eq [] (t ∷ ts) = false
texts_eq (s ∷ ss) [] = false
texts_eq (s ∷ ss) (t ∷ ts) = let rest = texts_eq ss ts in if text_eq s t then rest else false

abbrev pub u32_max : ℕ
u32_max = 2 ^ 32 - 1

abbrev pub u64_max : ℕ
u64_max = 2 ^ 64 - 1

-- a number as a signed column orders it
abbrev pub signed_block : LogRow → ℕ
signed_block r = (r.block_number + 2 ^ 63) % 2 ^ 64

abbrev pub signed_index : LogRow → ℕ
signed_index r = (r.log_index + 2 ^ 31) % 2 ^ 32

-- `ORDER BY block_number, log_index`
abbrev pub row_before : LogRow → LogRow → Bool
row_before a b =
    ltb (signed_block a) (signed_block b)
    || ((signed_block a == signed_block b) && not (ltb (signed_index b) (signed_index a)))

abbrev pub or_miss :
    ℕ → Exec LogTable Text (Option (List Log)) → Exec LogTable Text (Option (List Log))
or_miss zero found = pure none
or_miss (suc n) found = found

-- the sign that an `i32` column gives a number
abbrev pub as_i32 : ℕ → ℤ
as_i32 n = if ltb n (2 ^ 31) then pos n else negsuc (u32_max - n)

-- `unwrap_or` of zero bytes
abbrev pub or_zeros : Option ℕ → ℕ
or_zeros none = 0
or_zeros (some n) = n

abbrev pub add_hash : Option ℕ → List ℕ → List ℕ
add_hash none ns = ns
add_hash (some n) ns = n ∷ ns

-- `filter_map` of the topics
unfoldable pub known_hashes : Texts → List Text → List ℕ
known_hashes texts [] = []
known_hashes texts (t ∷ ts) = add_hash (from_hex texts.hex 64 t) (known_hashes texts ts)

module _ (texts : Texts) where
  abbrev pub topic_columns : List (Option (List ℕ)) → List Text
  topic_columns [] = []
  topic_columns (none ∷ ts) = topic_columns ts
  topic_columns (some hashes ∷ ts) =
      join (codes ",") (map (hash_text texts.hex) hashes) ∷ topic_columns ts

  -- whether the row was stored for the chain and the filter
  unfoldable pub in_window : ℕ → LogFilter → LogRow → Bool
  in_window chain_id filter row =
      (row.chain_id == chain_id)
      && (row.from_block == filter.from_block)
      && (row.to_block == filter.to_block)
      && texts_eq row.address (map (address_text texts.hex) filter.address)
      && texts_eq row.topics (topic_columns filter.topics)

  unfoldable pub row_of : ℕ → LogFilter → Log → LogRow
  row_of chain_id filter log = record {
    chain_id = chain_id;
    from_block = filter.from_block;
    to_block = filter.to_block;
    address = map (address_text texts.hex) filter.address;
    topics = topic_columns filter.topics;
    log_index = log.log_index;
    block_number = log.block_number;
    block_hash = hash_text texts.hex log.block_hash;
    tx_hash = hash_text texts.hex log.transaction_hash;
    tx_index = log.transaction_index;
    log_address = address_text texts.hex log.address;
    log_topics = map (hash_text texts.hex) log.topics;
    payload = log.payload;
    removed = log.removed;
  }

  -- the row that marks an answer without logs; its numbers are -1
  unfoldable pub sentinel : ℕ → LogFilter → LogRow
  sentinel chain_id filter = record {
    chain_id = chain_id;
    from_block = filter.from_block;
    to_block = filter.to_block;
    address = map (address_text texts.hex) filter.address;
    topics = topic_columns filter.topics;
    log_index = u32_max;
    block_number = u64_max;
    block_hash = [];
    tx_hash = [];
    tx_index = u32_max;
    log_address = [];
    log_topics = [];
    payload = [];
    removed = false;
  }

  unfoldable pub into_log : ℕ → LogRow → Log
  into_log chain_id row = record {
    id = texts.log_id row.block_hash (as_i32 row.log_index);
    chain_id = chain_id;
    address = or_zeros (from_hex texts.hex 40 row.log_address);
    topics = known_hashes texts row.log_topics;
    payload = row.payload;
    block_number = row.block_number;
    block_hash = or_zeros (from_hex texts.hex 64 row.block_hash);
    transaction_hash = or_zeros (from_hex texts.hex 64 row.tx_hash);
    log_index = row.log_index;
    transaction_index = row.tx_index;
    removed = row.removed;
  }

  unfoldable pub get_logs : ℕ → LogFilter → Exec LogTable Text (Option (List Log))
  get_logs chain_id filter =
      statement (λ rows. (length (keep (in_window chain_id filter) rows), rows)) >>= λ counted.
      or_miss counted (
        statement (λ rows. (sort_by row_before (keep (in_window chain_id filter) rows), rows))
        >>= λ found. pure (some (map (into_log chain_id) found)))

  -- the loop over the logs
  unfoldable pub put_rows : ℕ → LogFilter → List Log → Exec LogTable Text (Unit {0})
  put_rows chain_id filter [] = pure tt
  put_rows chain_id filter (log ∷ logs) =
      statement (insert_new same_key (row_of chain_id filter log)) >> put_rows chain_id filter logs

  unfoldable pub put_sentinel : ℕ → LogFilter → List Log → Exec LogTable Text (Unit {0})
  put_sentinel chain_id filter [] = statement (insert_new same_key (sentinel chain_id filter))
  put_sentinel chain_id filter (log ∷ logs) = pure tt

  unfoldable pub put_logs : ℕ → LogFilter → List Log → Exec LogTable Text (Unit {0})
  put_logs chain_id filter logs = put_rows chain_id filter logs >> put_sentinel chain_id filter logs
