-- ===== src/Rpc/Client/Receipts.antt =====
-- The logs of a receipt: crates/forge-index-rpc/src/client.rs.
use forge_index.Base.{ℕ, suc, String, ◌≡◌, refl, sym, ap, ◌∙◌, List, [], ◌∷◌, map, length}
use forge_index.Core.Alloy.{or_zero}
use forge_index.Core.Types.{Log}
use forge_index.Rpc.Client.{AlloyReceipt, ReceiptLog, receipt_logs, receipt_of}

module _ (log_id : (block_hash log_index : ℕ) → String) (chain_id : ℕ) where
  -- the texts from an index on
  abbrev ids : (block_hash : ℕ) → ℕ → List ReceiptLog → List String
  ids block_hash i [] = []
  ids block_hash i (l ∷ ls) = log_id block_hash i ∷ ids block_hash (suc i) ls

  id-receipt_logs :
      (r : AlloyReceipt) (i : ℕ) (ls : List ReceiptLog)
      → map (λ (l : Log). l.id) (receipt_logs log_id chain_id r i ls)
        ≡ ids (or_zero r.block_hash) i ls
  unfolding receipt_logs
  id-receipt_logs r i [] = refl
  id-receipt_logs r i (l ∷ ls) =
      ap (λ rest. log_id (or_zero r.block_hash) i ∷ rest) (id-receipt_logs r (suc i) ls)

  same_ids :
      (block_hash i : ℕ) (ls ms : List ReceiptLog)
      → length ls ≡ length ms
      → ids block_hash i ls ≡ ids block_hash i ms
  same_ids block_hash i [] [] h = refl
  same_ids block_hash i [] (m ∷ ms) h = cc h
  same_ids block_hash i (l ∷ ls) [] h = cc h
  same_ids block_hash i (l ∷ ls) (m ∷ ms) h =
      ap (λ rest. log_id block_hash i ∷ rest) (same_ids block_hash (suc i) ls ms (cc h))

  -- Two receipts of the same block that have equally many logs give them the same ids, though they are
  -- of different transactions.
  pub receipt_of-same_ids :
      (a b : AlloyReceipt)
      → or_zero a.block_hash ≡ or_zero b.block_hash
      → length a.logs ≡ length b.logs
      → map (λ (l : Log). l.id) (receipt_of log_id chain_id a).logs
        ≡ map (λ (l : Log). l.id) (receipt_of log_id chain_id b).logs
  unfolding receipt_of
  receipt_of-same_ids a b same_block same_length =
      id-receipt_logs a 0 a.logs
      ∙ (ap (λ h. ids h 0 a.logs) same_block
          ∙ (same_ids (or_zero b.block_hash) 0 a.logs b.logs same_length
              ∙ sym (id-receipt_logs b 0 b.logs)))
