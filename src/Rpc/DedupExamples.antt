-- ===== src/Rpc/DedupExamples.antt =====
-- Examples of requests that share one call: crates/forge-index-rpc/src/dedup.rs.
use forge_index.Base.{ℕ, ◌+◌, ◌<◌, ◌≡◌, refl, some, [], ◌∷◌, arith}
use forge_index.Base.Maps.{nat_key}
use forge_index.Rpc.Dedup.{
  Channel, fetching, start, join, receive, answer, System, turn, Reach, begin, later, dedup_timeout,
}
use forge_index.Rpc.Dedup.Answers.{IsAnswer, Reach-IsAnswer}
use forge_index.Rpc.Dedup.Single.{IsTimely, Reach-single}
use forge_index.Rpc.Dedup.Evicted.{overlap}

-- every task asks for the key 7
abbrev keys : ℕ → ℕ
keys i = 7

abbrev channel : Channel ℕ
channel = record { key = 7; id = 0 }

at_start : (t : ℕ) → 0 < t + dedup_timeout
at_start t = omega arith

-- a request, a task that joins it, and the answer 5
abbrev shared_run : (s : System ℕ ℕ) × Reach nat_key keys (λ s. Unit) s
shared_run =
    let started = later begin (turn 0 (start refl)) tt in
    let joined = later started (turn 1 (join {t = 0} refl (at_start 0))) tt in
    let answered = later joined (turn 0 (answer 5)) tt in
    (_, later answered (turn 1 (receive refl)) tt)

Reach-IsAnswer_example : IsAnswer {K = ℕ} {R = ℕ} 7 5 ((7, 5) ∷ [])
Reach-IsAnswer_example = Reach-IsAnswer nat_key keys (λ s. Unit) shared_run.1 1 5 refl

abbrev one_run : (s : System ℕ ℕ) × Reach nat_key keys IsTimely s
one_run =
    let started = later begin (turn 0 (start refl)) (λ i c t runs. at_start t) in
    (_, later started (turn 1 (join {t = 0} refl (at_start 0))) (λ i c t runs. at_start t))

Reach-single_example : (Path ℕ 0 0) × (one_run.0.shared.in_flight 7 ≡ some (channel, 0))
Reach-single_example = Reach-single nat_key keys one_run.1 0 0 channel channel 0 0 refl refl refl

overlap_example :
    (s : System ℕ ℕ) × (Reach nat_key keys (λ s. Unit) s
      × ((s.shared.now ≡ dedup_timeout)
          × ((s.phase 1 ≡ fetching (record { key = 7; id = 1 }) dedup_timeout)
              × (s.phase 2 ≡ fetching (record { key = 7; id = 2 }) dedup_timeout))))
overlap_example = overlap nat_key keys refl refl 5
