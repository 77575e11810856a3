-- ===== src/Rpc/CacheExamples.antt =====
-- Two logs of a block that two overlapping filters ask for: crates/forge-index-rpc/src/cached_client.rs.
use forge_index.Base.{
  ℕ, ◌+◌, ◌-◌, ◌*◌, ◌/◌, ◌%◌, ◌<◌, ◌≡◌, refl, ap, ◌∙◌, Option, none, some, Bool, List, [], ◌∷◌,
  false, All, length, ltb, if◌then◌else◌, arith,
}
use forge_index.Base.Exec.{Exec, ok, pure}
use forge_index.Base.Search.{byte_len, utf8_len}
use forge_index.Base.Text.{Text, text_eq}
use forge_index.Base.Bytes.{to_be, from_be}
use forge_index.Core.HexText.{
  HexLibrary, is_high, upper_if, checksum_case, from_hex, address_text, hash_text,
}
use forge_index.Core.HexText.RoundTrip.{IsHex}
use forge_index.Core.Types.{Log}
use forge_index.Rpc.CachedClient.{
  CachedRpcClient, get_logs_cached, answer_from, ask_node, store_answer,
}
use forge_index.Rpc.CachedClient.Lost.{lost_log}
use forge_index.Rpc.Error.{RpcError}
use forge_index.Rpc.LogCache.{
  Texts, get_logs, put_logs, put_rows, put_sentinel, in_window, row_of, into_log, known_hashes,
}
use forge_index.Rpc.LogCache.Fresh.{IsStored, get_logs-put_logs}
use forge_index.Rpc.LogCache.Taken.{Taken}
use forge_index.Rpc.Types.{LogFilter}

abbrev digit : ℕ → ℕ
digit n = if ltb n 10 then n + b'0' else n + 87

abbrev digit_value : ℕ → ℕ
digit_value c = if ltb c 58 then c - b'0' else if ltb c 91 then c - 55 else c - 87

abbrev encode : List ℕ → Text
encode [] = []
encode (b ∷ bs) = digit (b / 16) ∷ digit (b % 16) ∷ encode bs

abbrev add_byte : ℕ → Option (List ℕ) → Option (List ℕ)
add_byte b none = none
add_byte b (some bs) = some (b ∷ bs)

abbrev read : Text → Option (List ℕ)
read [] = some []
read (c ∷ []) = none
read (c ∷ d ∷ s) = add_byte (digit_value c * 16 + digit_value d) (read s)

abbrev hex : HexLibrary
hex = record { hex_encode = encode; hex_decode = read; keccak256 = λ t. t }

two_digits :
    (b : ℕ) → b < 256 → digit_value (digit (b / 16)) * 16 + digit_value (digit (b % 16)) ≡ b
two_digits b h = ground arith

digit_len : (n : ℕ) → n < 16 → utf8_len (digit n) ≡ 1
digit_len n h = ground (arith, h)

encode_size : (bs : List ℕ) → All (λ b. b < 256) bs → byte_len (encode bs) ≡ 2 * length bs
encode_size [] h = refl
encode_size (b ∷ bs) (h, hs) =
    omega
      (arith, digit_len (b / 16) (omega arith), digit_len (b % 16) (omega arith), encode_size bs hs)

read-encode : (bs : List ℕ) → All (λ b. b < 256) bs → read (encode bs) ≡ some bs
read-encode [] h = refl
read-encode (b ∷ bs) (h, hs) =
    ap (λ n. add_byte n (read (encode bs))) (two_digits b h) ∙ ap (add_byte b) (read-encode bs hs)

value_caseless : (high : Bool) (c : ℕ) → digit_value (upper_if high c) ≡ digit_value c
value_caseless high c = ground arith

read_caseless : (hash_hex s : Text) → read (checksum_case hash_hex s) ≡ read s
unfolding checksum_case
read_caseless hash_hex [] = refl
read_caseless [] (c ∷ []) = refl
read_caseless (d ∷ hash_hex) (c ∷ []) = refl
read_caseless [] (c ∷ d ∷ s) =
    ap (add_byte (digit_value c * 16 + digit_value d)) (read_caseless [] s)
read_caseless (e ∷ []) (c ∷ d ∷ s) =
    ap (λ n. add_byte (n * 16 + digit_value d) (read (checksum_case [] s)))
      (value_caseless (is_high e) c)
    ∙ ap (add_byte (digit_value c * 16 + digit_value d)) (read_caseless [] s)
read_caseless (e ∷ f ∷ hash_hex) (c ∷ d ∷ s) =
    (λ i.
      add_byte (value_caseless (is_high e) c i * 16 + value_caseless (is_high f) d i)
        (read (checksum_case hash_hex s)))
    ∙ ap (add_byte (digit_value c * 16 + digit_value d)) (read_caseless hash_hex s)

hex-IsHex : IsHex hex
hex-IsHex = record { size = encode_size; decoded = read-encode; caseless = read_caseless }

abbrev texts : Texts
texts = record { hex = hex; log_id = λ h i. "log" }

abbrev wide : LogFilter
wide = record { address = []; topics = []; from_block = 1; to_block = 9 }

abbrev narrow : LogFilter
narrow = record { address = []; topics = []; from_block = 5; to_block = 5 }

abbrev log_at : ℕ → Log
log_at index = record {
  id = "log";
  chain_id = 1;
  address = 7;
  topics = [];
  payload = [];
  block_number = 5;
  block_hash = 6;
  transaction_hash = 3;
  log_index = index;
  transaction_index = 0;
  removed = false;
}

stored : (index : ℕ) → IsStored texts 1 narrow (log_at index)
stored index = record {
  chain = refl;
  id = refl;
  address = omega arith;
  topics = tt;
  block_hash = omega arith;
  transaction_hash = omega arith;
}

abbrev fetch : LogFilter → Exec ℕ RpcError (List Log)
fetch filter = pure (log_at 0 ∷ log_at 1 ∷ [])

-- the first log was fetched with the wide filter
abbrev client : CachedRpcClient ℕ
client = record {
  inner = 0;
  cache = record {
    logs = record { rows = row_of texts 1 wide (log_at 0) ∷ []; faults = [] };
    blocks = record { rows = []; faults = [] };
    transactions = record { rows = []; faults = [] };
    eth_calls = record { rows = []; faults = [] };
    checkpoints = record { rows = []; faults = [] };
  };
  hits = 0;
  misses = 1;
}

taken : Taken (in_window texts 1 narrow) (row_of texts 1 narrow (log_at 0)) client.cache.logs.rows
unfolding in_window row_of
taken = (refl, ((λ _. refl), tt))

answered :
    (get_logs texts 1 narrow (get_logs_cached texts fetch 1 narrow client).1.cache.logs).0
    ≡ ok (some (log_at 1 ∷ []))
unfolding get_logs_cached answer_from ask_node store_answer get_logs put_logs put_rows put_sentinel
    in_window row_of into_log text_eq from_hex known_hashes address_text hash_text checksum_case
    to_be from_be
answered = refl

lost_log_example :
    ((get_logs_cached texts fetch 1 narrow (get_logs_cached texts fetch 1 narrow client).1).0
      ≡ ok (log_at 1 ∷ []))
    × All (λ l. ¬ ((l.block_number ≡ 5) × (l.log_index ≡ 0))) (log_at 1 ∷ [])
lost_log_example = lost_log texts fetch 1 narrow (log_at 0) client (log_at 1 ∷ []) taken answered

get_logs-put_logs_example :
    (get_logs texts 1 narrow
      (put_logs texts 1 narrow (log_at 0 ∷ log_at 1 ∷ []) (record { rows = []; faults = [] })).1).0
    ≡ ok (some (log_at 0 ∷ log_at 1 ∷ []))
unfolding row_of
get_logs-put_logs_example =
    get_logs-put_logs texts 1 narrow (log_at 0) (log_at 1 ∷ []) [] hex-IsHex refl
      (refl, (refl, tt), (refl, tt, tt)) (stored 0, (stored 1, tt)) (refl, tt)
