-- ===== src/Sync/Worker/Events.antt =====
-- The events that a worker returns: crates/forge-index-sync/src/backfill/worker.rs.
use forge_index.Base.{
  ℕ, String, ◌≡◌, ◌⊎◌, Bool, true, false, List, [], ◌∷◌, ◌++◌, arith, ltb, leb, ◌==◌, if◌then◌else◌,
  All,
}
use forge_index.Base.Exec.{Result, ok, err, Exec}
use forge_index.Core.Slot.{Fault, failed, panicked, Library}
use forge_index.Core.Abi.{invalid_selector}
use forge_index.Core.Event.{DecodedEvent}
use forge_index.Core.Types.{Log}
use forge_index.Sync.Error.{Halt, failure, crash, decode}
use forge_index.Sync.Worker.{BackfillWorker, before, decode_log, decode_logs}

pub before_total : (a b : DecodedEvent) → (before a b ≡ true) ⊎ (before b a ≡ true)
before_total a b =
    total a.raw_log.block_number b.raw_log.block_number a.raw_log.log_index b.raw_log.log_index
  where
    total :
        (m n i j : ℕ)
        → ((if m == n then leb i j else ltb m n) ≡ true)
          ⊎ ((if n == m then leb j i else ltb n m) ≡ true)
    total m n i j = ground arith

-- a log that is no reason to stop
abbrev pub is_fine : Result Fault DecodedEvent → Bool
is_fine (ok e) = true
is_fine (err (failed invalid_selector)) = true
is_fine (err _) = false

abbrev pub add_known : Result Fault DecodedEvent → List DecodedEvent → List DecodedEvent
add_known (ok e) es = e ∷ es
add_known (err e) es = es

-- what a worker makes of a log that stops it
abbrev pub stop_of : String → Fault → Halt
stop_of contract (failed e) = failure (decode contract e)
stop_of contract panicked = crash

module _ (lib : Library) (w : BackfillWorker) where
  -- the events of the logs that decode
  unfoldable pub known : List Log → List DecodedEvent
  known [] = []
  known (l ∷ ls) = add_known (decode_log lib w l) (known ls)

  abbrev pub Fine : Log → Type 0
  Fine l = is_fine (decode_log lib w l) ≡ true

  -- the first log that is a reason to stop, with its error
  pub record Stops (logs : List Log) (e : Fault) : Type 0 where
    pub earlier : List Log
    pub log : Log
    pub later : List Log
    pub split : logs ≡ earlier ++ log ∷ later
    pub fine : All Fine earlier
    pub refused : decode_log lib w log ≡ err e
    pub serious : is_fine (err e) ≡ false

  Outcome : List Log → Type 0
  Outcome logs =
      ((decode_logs lib w logs ≡ ok (known logs)) × All Fine logs)
      ⊎ ((e : Fault) × Stops logs e × (decode_logs lib w logs ≡ err (stop_of w.contract.name e)))
