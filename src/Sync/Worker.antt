-- ===== src/Sync/Worker.antt =====
-- The worker that fetches one contract's events: crates/forge-index-sync/src/backfill/worker.rs. The
-- cached client is a parameter. A decoder that panics ends the fetch with a crash.
pub mod Events
use forge_index.Base.{
  ℕ, zero, suc, ◌+◌, ◌-◌, ◌*◌, ◌/◌, ◌%◌, ◌^◌, ◌≤◌, ◌<◌, min, max, String, ◌≡◌, refl, sym, ap, subst,
  ◌∙◌, ◌≢◌, ◌↔◌, ◌⊎◌, inl, inr, Bool, true, false, not, ◌&&◌, ◌||◌, Option, none, some, List, [],
  ◌∷◌, ◌++◌, map, reverse, append_assoc, append-nil, reverse-cons, reverse-append, reverse-reverse,
  arith, str_eq, eq_iff, ltb, leb, ◌==◌, if◌then◌else◌, ltb→lt, ltb→ge, lt→ltb, ge→ltb, leb→le,
  leb→gt, le→leb, gt→leb, ==_iff, ==_refl, Bool-cases, Option-cases, length, get_elem?, take, drop,
  last?, drop_while, keep, length-append, length-reverse, last?-snoc, All, All-append,
}
use forge_index.Base.Exec.{Result, ok, err, Exec, map_err, ◌>>=◌}
use forge_index.Base.Sort.{sort_by}
use forge_index.Config.Contract.{ContractConfig, AddressConfig}
use forge_index.Core.Abi.{parse_error, unknown_type, decode_mismatch, invalid_selector}
use forge_index.Base.Maps.{Map}
use forge_index.Core.AbiType.{AbiEvent}
use forge_index.Core.Decoder
use forge_index.Core.Event.{DecodedEvent}
use forge_index.Core.Slot.{Fault, failed, panicked, Library}
use forge_index.Core.Types.{Log}
use forge_index.Rpc.Types.{LogFilter}
use forge_index.Rpc.Error.{RpcError}
use forge_index.Sync.Error.{Halt, failure, crash, decode}
use forge_index.Sync.Error
use forge_index.Sync.Planner.{BlockRange}

-- `decoder` holds the events of the ABI by their selectors
pub record BackfillWorker : Type 0 where
  pub decoder : Map ℕ AbiEvent
  pub contract : ContractConfig
  pub chain_id : ℕ
  pub selectors : List ℕ
  pub addresses : List ℕ

-- the addresses that the configuration names
abbrev pub configured : AddressConfig → List ℕ
configured (AddressConfig.single addr) = addr ∷ []
configured (AddressConfig.multiple addrs) = addrs
configured (AddressConfig.factory f) = []

unfoldable pub new : Map ℕ AbiEvent → ContractConfig → ℕ → List ℕ → BackfillWorker
new decoder contract chain_id selectors = record {
  decoder = decoder;
  contract = contract;
  chain_id = chain_id;
  selectors = selectors;
  addresses = configured contract.address;
}

unfoldable pub set_addresses : List ℕ → BackfillWorker → BackfillWorker
set_addresses addresses w = record w { addresses = addresses }

abbrev pub topics_of : List ℕ → List (Option (List ℕ))
topics_of [] = []
topics_of (s ∷ ss) = some (s ∷ ss) ∷ []

unfoldable pub filter_of : BackfillWorker → BlockRange → LogFilter
filter_of w range = record {
  address = w.addresses;
  topics = topics_of w.selectors;
  from_block = range.from;
  to_block = range.to;
}

-- by (block_number, log_index)
abbrev pub before : DecodedEvent → DecodedEvent → Bool
before a b =
    if a.raw_log.block_number == b.raw_log.block_number
    then leb a.raw_log.log_index b.raw_log.log_index
    else ltb a.raw_log.block_number b.raw_log.block_number

-- one turn of the loop over the logs: an event, a log to skip, an error or a panic
abbrev pub add_event :
    String
    → Result Fault DecodedEvent
    → Result Halt (List DecodedEvent)
    → Result Halt (List DecodedEvent)
add_event contract (ok e) (ok es) = ok (e ∷ es)
add_event contract (ok e) (err later) = err later
add_event contract (err panicked) rest = err crash
add_event contract (err (failed invalid_selector)) rest = rest
add_event contract (err (failed (parse_error t))) rest =
    err (failure (decode contract (parse_error t)))
add_event contract (err (failed (unknown_type t))) rest =
    err (failure (decode contract (unknown_type t)))
add_event contract (err (failed (decode_mismatch t))) rest =
    err (failure (decode contract (decode_mismatch t)))

abbrev pub sorted : Result Halt (List DecodedEvent) → Result Halt (List DecodedEvent)
sorted (ok es) = ok (sort_by before es)
sorted (err e) = err e

module _ (lib : Library) (w : BackfillWorker) where
  -- what the worker's decoder makes of a log
  abbrev pub decode_log : Log → Result Fault DecodedEvent
  decode_log l = Decoder.decode lib w.decoder l w.contract.name

  unfoldable pub decode_logs : List Log → Result Halt (List DecodedEvent)
  decode_logs [] = ok []
  decode_logs (l ∷ ls) = add_event w.contract.name (decode_log l) (decode_logs ls)

  unfoldable pub fetch_range :
      {W : Type 0}
      → (LogFilter → Exec W RpcError (List Log))
      → BlockRange
      → Exec W Halt (List DecodedEvent)
  unfolding decode_logs filter_of
  fetch_range get_logs range = do
    logs ← map_err (λ e. failure (Error.rpc w.chain_id e)) (get_logs (filter_of w range))
    λ s. (sorted (decode_logs logs), s)
