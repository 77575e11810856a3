-- ===== src/Sync/Subscriber/Attempts.antt =====
-- How often the subscriber tries: crates/forge-index-sync/src/realtime/subscriber.rs.
use forge_index.Base.{ℕ, zero, suc, ◌+◌, ◌-◌, ◌^◌, ◌<◌, String, ◌≡◌, refl, List, arith}
use forge_index.Base.Exec.{Result, ok, err, Exec}
use forge_index.Core.Types.{Block}
use forge_index.Rpc.Error.{RpcError}
use forge_index.Sync.Error.{subscription_lost}
use forge_index.Sync.Subscriber.{max_reconnect_attempts, connect_from, connect}

-- the attempts so far and the seconds slept
abbrev pub Tally : Type 0
Tally = ℕ × ℕ

-- a client whose attempts have the results `answer 0`, `answer 1`, …
abbrev pub nth_answer : (ℕ → Result RpcError (List Block)) → Exec Tally RpcError (List Block)
nth_answer answer (n, slept) = (answer n, (suc n, slept))

abbrev pub add_sleep : (seconds : ℕ) → Tally → Tally
add_sleep seconds (n, slept) = (n, slept + seconds)

module _ (answer : ℕ → Result RpcError (List Block)) (failed_after : ℕ → RpcError → String)
    (chain_id : ℕ) where
  -- The first of the three attempts that succeeds gives the stream, no attempt follows it, and before it
  -- the seconds slept are one less than a power of two: none, 1 or 3.
  pub connect_first :
      (k : ℕ) (stream : List Block)
      → k < max_reconnect_attempts
      → ((j : ℕ) → j < k → (e : RpcError) × (answer j ≡ err e))
      → answer k ≡ ok stream
      → connect (nth_answer answer) add_sleep failed_after chain_id (0, 0)
        ≡ (ok stream, (suc k, 2 ^ k - 1))
  unfolding connect connect_from
  connect_first zero stream few failed got = rw got refl
  connect_first (suc zero) stream few failed got =
      let (e, first) = failed 0 (omega arith) in rw first (rw got refl)
  connect_first (suc (suc zero)) stream few failed got =
      let (e, first) = failed 0 (omega arith) in
      let (e', second) = failed 1 (omega arith) in rw first (rw second (rw got refl))
  connect_first (suc (suc (suc k))) stream few failed got = absurd (omega arith)

  -- After three attempts that fail, the subscription is lost with the last error, after 3 seconds.
  pub connect_lost :
      (a b c : RpcError)
      → answer 0 ≡ err a
      → answer 1 ≡ err b
      → answer 2 ≡ err c
      → connect (nth_answer answer) add_sleep failed_after chain_id (0, 0)
        ≡ (err (subscription_lost chain_id (failed_after 3 c)), (3, 3))
  unfolding connect connect_from
  connect_lost a b c first second third = rw first (rw second (rw third refl))
