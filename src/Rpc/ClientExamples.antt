-- ===== src/Rpc/ClientExamples.antt =====
-- Examples of calls: crates/forge-index-rpc/src/client.rs.
use forge_index.Base.{ℕ, zero, suc, String, ◌≡◌, refl, true, Option, none, some, List, [], ◌∷◌, map}
use forge_index.Base.Exec.{Result, ok, err, fail}
use forge_index.Base.Json.{Json}
use forge_index.Base.Text.{codes}
use forge_index.Core.Alloy.{AlloyHeader}
use forge_index.Core.Types.{Log}
use forge_index.Rpc.Client.{
  Provider, Serde, AlloyReceipt, or_empty, get_block_by_number, receipt_of,
}
use forge_index.Rpc.Client.Keys.{logs, cache_key-separates}
use forge_index.Rpc.Client.Receipts.{receipt_of-same_ids}
use forge_index.Rpc.Client.Replies.{answering}

-- a header as the list of its numbers
abbrev numbers : AlloyHeader → List ℕ
numbers h =
    let rest = elim h.base_fee_per_gas as (λ _. List ℕ) [ none ↦ [] | some fee ↦ fee ∷ [] ] in
    h.number ∷ h.hash ∷ h.parent_hash ∷ h.timestamp ∷ h.gas_limit ∷ h.gas_used ∷ h.beneficiary
    ∷ rest

abbrev fee_of : List ℕ → Option ℕ
fee_of [] = none
fee_of (fee ∷ rest) = some fee

abbrev read_numbers : Json → Result String AlloyHeader
read_numbers (Json.number (n ∷ h ∷ p ∷ t ∷ l ∷ u ∷ b ∷ rest)) = ok (record {
  number = n;
  hash = h;
  parent_hash = p;
  timestamp = t;
  gas_limit = l;
  gas_used = u;
  base_fee_per_gas = fee_of rest;
  beneficiary = b;
})
read_numbers _ = err "no header"

abbrev serde : Serde AlloyHeader
serde = record { to_value = λ h. ok (Json.number (numbers h)); from_value = read_numbers }

abbrev header : AlloyHeader
header = record {
  number = 9;
  hash = 19;
  parent_hash = 18;
  timestamp = 100;
  gas_limit = 30;
  gas_used = 21;
  base_fee_per_gas = some 7;
  beneficiary = 5;
}

-- the node fails once and then has the block
abbrev reply : ℕ → Result String (Option AlloyHeader)
reply zero = err "connection refused"
reply (suc n) = ok (some header)

abbrev provider : Provider ℕ
provider = record {
  get_logs = λ f. fail "";
  get_block_by_number = λ n. answering reply;
  get_block_by_hash = λ h. fail "";
  get_transaction_by_hash = λ h. fail "";
  get_transaction_receipt = λ h. fail "";
  get_block_number = fail "";
  call = λ to input block. fail "";
  subscribe_blocks = fail "";
}

abbrev delays : List ℕ
delays = 2000 ∷ 30000 ∷ 30000 ∷ 30000 ∷ []

cache_key-separates_example :
    (logs ≡ logs) × (or_empty (some (codes "{}")) ≡ or_empty (some (codes "{}")))
cache_key-separates_example =
    cache_key-separates (λ t. t) logs logs (some (codes "{}")) (some (codes "{}")) (λ h. h) refl

-- a receipt of a transaction with one log
abbrev receipt : ℕ → ℕ → AlloyReceipt
receipt transaction index = record {
  transaction_hash = transaction;
  block_number = some 9;
  block_hash = some 19;
  transaction_index = some index;
  from = 1;
  to = some 2;
  gas_used = 21;
  status = true;
  logs = record { address = 2; topics = 3 ∷ []; payload = transaction ∷ [] } ∷ [];
  contract_address = none;
}

receipt_of-same_ids_example :
    map (λ (l : Log). l.id) (receipt_of (λ b i. "log") 1 (receipt 50 0)).logs
    ≡ map (λ (l : Log). l.id) (receipt_of (λ b i. "log") 1 (receipt 51 1)).logs
receipt_of-same_ids_example =
    receipt_of-same_ids (λ b i. "log") 1 (receipt 50 0) (receipt 51 1) refl refl
