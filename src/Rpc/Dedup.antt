-- ===== src/Rpc/Dedup.antt =====
-- Requests that share one call: crates/forge-index-rpc/src/dedup.rs. Tasks take turns; a turn is what a
-- task does between two waits or between two uses of the map. A channel is known by a number and by
-- the key that it was made for, and a task on it remembers what had been sent before it subscribed,
-- which it does not receive. A caller that gives up while its request runs is not modelled.
pub mod Answers
pub mod Single
pub mod Evicted
use forge_index.Base.{
  ℕ, suc, ◌+◌, ◌≤◌, ◌<◌, ◌≡◌, ◌≢◌, Bool, true, false, ◌&&◌, Option, none, some, List, [], ◌∷◌, ◌==◌,
  if◌then◌else◌,
}
use forge_index.Base.Maps.{Key}

-- `DEDUP_TIMEOUT`, in seconds
abbrev pub dedup_timeout : ℕ
dedup_timeout = 30

pub record Channel (K : Type 0) : Type 0 where
  pub key : K
  pub id : ℕ

-- where a task stands in the loop of `dedup`
pub data Phase (K R : Type 0) : Type 0 where
  looking : Phase K R
  -- an entry as old as the timeout was found, and is not yet removed
  evicting : Phase K R
  -- the channel, and what had been sent on it before
  waiting : Channel K → Option R → Phase K R
  -- the channel, and when the request began
  fetching : Channel K → ℕ → Phase K R
  -- after the result was sent
  sent : Channel K → ℕ → R → Phase K R
  done : R → Phase K R

-- what the tasks share: the map, what was sent on each channel, which of them lost the sender of its
-- request, the clock, and the answers of the node so far
pub record Shared (K R : Type 0) : Type 0 where
  pub in_flight : K → Option (Channel K × ℕ)
  pub heard : Channel K → Option R
  pub dropped : Channel K → Bool
  pub next : ℕ
  pub now : ℕ
  pub answers : List (K × R)

module _ {K : Type 0} (key : Key K) where
  abbrev pub same_channel : Channel K → Channel K → Bool
  same_channel c d = key.beq c.key d.key && (c.id == d.id)

  abbrev pub set_entry : {A : Type 0} → K → Option A → (K → Option A) → K → Option A
  set_entry k v m j = if key.beq k j then v else m j

  abbrev pub set_channel : {A : Type 0} → Channel K → A → (Channel K → A) → Channel K → A
  set_channel c v m d = if same_channel c d then v else m d

module _ {K R : Type 0} (key : Key K) where
  -- one turn of a task with the key `k`
  pub data Move (k : K) (m : Shared K R) : Phase K R → Shared K R → Phase K R → Type 0 where
    start :
        m.in_flight k ≡ none
        → Move k m looking
            (record m {
              in_flight =
                  set_entry key k (some (record { key = k; id = m.next }, m.now)) m.in_flight;
              next = suc m.next;
            })
            (fetching (record { key = k; id = m.next }) m.now)
    expire :
        {c : Channel K} {t : ℕ}
        → m.in_flight k ≡ some (c, t)
        → t + dedup_timeout ≤ m.now
        → Move k m looking m evicting
    -- what is there by then is removed
    evict : Move k m evicting (record m { in_flight = set_entry key k none m.in_flight }) looking
    join :
        {c : Channel K} {t : ℕ}
        → m.in_flight k ≡ some (c, t)
        → m.now < t + dedup_timeout
        → Move k m looking m (waiting c (m.heard c))
    receive : {c : Channel K} {r : R} → m.heard c ≡ some r → Move k m (waiting c none) m (done r)
    -- a task that subscribed after the result was sent, once no sender is left
    lost :
        {c : Channel K} {r : R}
        → m.dropped c ≡ true
        → ((t : ℕ) → m.in_flight k ≢ some (c, t))
        → Move k m (waiting c (some r)) m looking
    answer :
        {c : Channel K} {t : ℕ} (r : R)
        → Move k m
            (fetching c t)
            (record m { heard = set_channel key c (some r) m.heard; answers = (k, r) ∷ m.answers })
            (sent c t r)
    remove :
        {c : Channel K} {t : ℕ} {r : R}
        → Move k m
            (sent c t r)
            (record m {
              in_flight = set_entry key k none m.in_flight;
              dropped = set_channel key c true m.dropped;
            })
            (done r)

pub record System (K R : Type 0) : Type 0 where
  pub shared : Shared K R
  pub phase : ℕ → Phase K R

module _ {K R : Type 0} where
  abbrev pub set_phase : ℕ → Phase K R → (ℕ → Phase K R) → ℕ → Phase K R
  set_phase i p phases j = if i == j then p else phases j

  abbrev pub init : System K R
  init = record {
    shared = record {
      in_flight = λ k. none;
      heard = λ c. none;
      dropped = λ c. false;
      next = 0;
      now = 0;
      answers = [];
    };
    phase = λ i. looking;
  }

  -- `keys` is what each task asks for
  module _ (key : Key K) (keys : ℕ → K) where
    pub data Step (s : System K R) : System K R → Type 0 where
      turn :
          (i : ℕ) {m : Shared K R} {p : Phase K R}
          → Move key (keys i) s.shared (s.phase i) m p
          → Step s (record { shared = m; phase = set_phase i p s.phase })
      tick : Step s (record s { shared = record s.shared { now = suc s.shared.now } })

    -- what is reached while `P` holds
    pub data Reach (P : System K R → Type 0) : System K R → Type 0 where
      begin : Reach P init
      later : {s t : System K R} → Reach P s → Step s t → P t → Reach P t
