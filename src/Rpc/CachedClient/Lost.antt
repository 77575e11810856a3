-- ===== src/Rpc/CachedClient/Lost.antt =====
-- A log that another filter has put into the cache: crates/forge-index-rpc/src/cached_client.rs.
use forge_index.Base.{
  ℕ, Bool, true, false, not, Option, none, some, List, [], ◌∷◌, ◌==◌, All, ◌≡◌, sym, ap, subst,
}
use forge_index.Base.Exec.{Result, ok, err, Exec}
use forge_index.Base.Text.{Text}
use forge_index.Core.Types.{Log}
use forge_index.Rpc.CachedClient.{
  CachedRpcClient, real_logs, store_answer, ask_node, answer_from, get_logs_cached,
}
use forge_index.Rpc.Error.{RpcError}
use forge_index.Rpc.LogCache.{Texts, LogRow, get_logs, in_window, row_of, u32_max}
use forge_index.Rpc.LogCache.Taken.{
  Taken, put_logs-Keeps, get_logs_rows, get_logs-Without, Without, Other,
}
use forge_index.Rpc.Types.{LogFilter}

module _ {W : Type 0} (texts : Texts) (fetch : LogFilter → Exec W RpcError (List Log))
    (chain_id : ℕ) (filter : LogFilter) where
  module _ (window : LogRow → Bool) (k : LogRow) where
    stored-Taken :
        (answer : Result RpcError (List Log)) (c : CachedRpcClient W)
        → Taken window k c.cache.logs.rows
        → Taken window k (store_answer texts fetch chain_id filter answer c).1.cache.logs.rows
    unfolding store_answer
    stored-Taken (err e) c h = h
    stored-Taken (ok logs) c h = put_logs-Keeps window k texts chain_id filter logs c.cache.logs h

    answered-Taken :
        (found : Result Text (Option (List Log))) (c : CachedRpcClient W)
        → Taken window k c.cache.logs.rows
        → Taken window k (answer_from texts fetch chain_id filter found c).1.cache.logs.rows
    unfolding answer_from ask_node
    answered-Taken (ok (some logs)) c h = h
    answered-Taken (ok none) c h = stored-Taken _ _ h
    answered-Taken (err e) c h = stored-Taken _ _ h

    -- a call of the client leaves a taken key taken
    call-Taken :
        (c : CachedRpcClient W)
        → Taken window k c.cache.logs.rows
        → Taken window k (get_logs_cached texts fetch chain_id filter c).1.cache.logs.rows
    unfolding get_logs_cached
    call-Taken c h = answered-Taken (get_logs texts chain_id filter c.cache.logs).0 _ (
        subst (Taken window k)
          (sym (get_logs_rows texts chain_id filter c.cache.logs.rows c.cache.logs.faults)) h)

  keep-All :
      (log : Log) (logs : List Log)
      → All (Other texts chain_id filter log) logs
      → All (Other texts chain_id filter log) (real_logs logs)
  keep-All log [] h = tt
  keep-All log (l ∷ logs) (h, hs) = one (not (l.log_index == u32_max)) (keep-All log logs hs)
    where
      one :
          (b : Bool)
          → All (Other texts chain_id filter log) (real_logs logs)
          → All
              (Other texts chain_id filter log)
              (elim b [ true ↦ l ∷ real_logs logs | false ↦ real_logs logs ])
      one true rest = (h, rest)
      one false rest = rest

  -- If the cache holds the block number and the index of a log under other filters and not under this
  -- one, and a call with this filter is followed by one that the cache answers, then that answer does
  -- not have the log, whatever the node returned to the first call.
  pub lost_log :
      (log : Log) (c : CachedRpcClient W) (found : List Log)
      → Taken (in_window texts chain_id filter) (row_of texts chain_id filter log) c.cache.logs.rows
      → (get_logs texts chain_id filter
          (get_logs_cached texts fetch chain_id filter c).1.cache.logs).0
        ≡ ok (some found)
      → ((get_logs_cached texts fetch chain_id filter
            (get_logs_cached texts fetch chain_id filter c).1).0
          ≡ ok (real_logs found))
        × All
            (λ l. ¬ ((l.block_number ≡ log.block_number) × (l.log_index ≡ log.log_index)))
            (real_logs found)
  unfolding get_logs_cached answer_from
  lost_log log c found h answered =
      let c1 = (get_logs_cached texts fetch chain_id filter c).1 in
      let still =
        call-Taken (in_window texts chain_id filter) (row_of texts chain_id filter log) c h in
      (
        ap
            (λ r.
              (answer_from texts fetch chain_id filter r (record c1 {
                cache = record c1.cache { logs = (get_logs texts chain_id filter c1.cache.logs).1 };
              })).0)
            answered,
        keep-All log found (
            subst (Without texts chain_id filter log) answered (
              get_logs-Without texts chain_id filter log c1.cache.logs.rows c1.cache.logs.faults
                still.1)),
      )
