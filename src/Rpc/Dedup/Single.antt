-- ===== src/Rpc/Dedup/Single.antt =====
-- One request for a key at a time: crates/forge-index-rpc/src/dedup.rs.
use forge_index.Base.{
  ℕ, ◌+◌, ◌≤◌, ◌<◌, ◌≡◌, ◌≢◌, ◌⊎◌, inl, inr, refl, sym, ap, subst, ◌∙◌, true, false, Option, none,
  some, ◌==◌, ==_iff, ==_refl, Bool-cases, if◌then◌else◌, arith,
}
use forge_index.Base.Maps.{Key}
use forge_index.Rpc.Dedup.{
  Channel, Phase, looking, evicting, waiting, fetching, sent, done, Shared, set_entry, Move, start,
  expire, evict, join, receive, lost, answer, remove, System, set_phase, Step, turn, tick, Reach,
  begin, later, dedup_timeout,
}

module _ {K R : Type 0} where
  -- the entry of a task whose request has not left the map
  abbrev pub request_of : Phase K R → Option (Channel K × ℕ)
  request_of looking = none
  request_of evicting = none
  request_of (waiting c old) = none
  request_of (fetching c t) = some (c, t)
  request_of (sent c t r) = some (c, t)
  request_of (done r) = none

  -- no entry is about to be removed by its age
  abbrev IsCalm : Phase K R → Type 0
  IsCalm evicting = ⊥
  IsCalm _ = Unit

  -- no request runs for as long as the timeout
  abbrev pub IsTimely : System K R → Type 0
  IsTimely s =
      (i : ℕ) (c : Channel K) (t : ℕ)
      → request_of (s.phase i) ≡ some (c, t)
      → s.shared.now < t + dedup_timeout

too_old : (now t : ℕ) → t + dedup_timeout ≤ now → now < t + dedup_timeout → ⊥
too_old now t old young = ground (arith, old, young)

apart : (i j : ℕ) → (i == j) ≡ false → i ≢ j
apart i j other same = ground (arith, other, same)

-- how the requests stand after the turn of one task
module _ {K R : Type 0} (phases : ℕ → Phase K R) (i : ℕ) (q : Phase K R) where
  request_here : (j : ℕ) → (i == j) ≡ true → request_of (set_phase i q phases j) ≡ request_of q
  request_here j same = ap (λ b. request_of (if b then q else phases j)) same

  request_away :
      (j : ℕ) → (i == j) ≡ false → request_of (set_phase i q phases j) ≡ request_of (phases j)
  request_away j other = ap (λ b. request_of (if b then q else phases j)) other

  request_same :
      request_of q ≡ request_of (phases i)
      → (j : ℕ) → request_of (phases j) ≡ request_of (set_phase i q phases j)
  request_same same_request j = elim (Bool-cases (i == j)) [
    | inl same ↦
        ap (λ (n : ℕ). request_of (phases n)) (sym ((==_iff i j).0 same))
        ∙ sym same_request
        ∙ sym (request_here j same)
    | inr other ↦ sym (request_away j other)
  ]

  request_before :
      (j : ℕ) (c : Channel K) (t : ℕ)
      → request_of (set_phase i q phases j) ≡ some (c, t)
      → (((i == j) ≡ true) × (request_of q ≡ some (c, t)))
        ⊎ (((i == j) ≡ false) × (request_of (phases j) ≡ some (c, t)))
  request_before j c t h = elim (Bool-cases (i == j)) [
    | inl same ↦ inl (same, sym (request_here j same) ∙ h)
    | inr other ↦ inr (other, sym (request_away j other) ∙ h)
  ]

  IsCalm-after :
      ((j : ℕ) → IsCalm (phases j)) → IsCalm q → (j : ℕ) → IsCalm (set_phase i q phases j)
  IsCalm-after calm here j = elim (Bool-cases (i == j)) [
    | inl same ↦ rw same here
    | inr other ↦ rw other (calm j)
  ]

module _ {K : Type 0} (key : Key K) (entries : K → Option (Channel K × ℕ)) where
  entry_away :
      (k : K) (v : Option (Channel K × ℕ)) (j : K) → k ≢ j → set_entry key k v entries j ≡ entries j
  entry_away k v j away = elim (Bool-cases (key.beq k j)) [
    | inl same ↦ absurd (away ((key.beq_iff k j).0 same))
    | inr other ↦ ap (λ b. if b then v else entries j) other
  ]

  pub entry_here :
      (k : K) (v : Option (Channel K × ℕ)) (j : K) → k ≡ j → set_entry key k v entries j ≡ v
  entry_here k v j same = ap (λ b. if b then v else entries j) ((key.beq_iff k j).1 same)

  entry_before :
      (k : K) (v : Option (Channel K × ℕ)) (j : K) (c : Channel K) (t : ℕ)
      → set_entry key k v entries j ≡ some (c, t)
      → ((k ≡ j) × (v ≡ some (c, t))) ⊎ ((k ≢ j) × (entries j ≡ some (c, t)))
  entry_before k v j c t h = elim (Bool-cases (key.beq k j)) [
    | inl same ↦
        let found = ap (λ b. if b then v else entries j) same in
        inl ((key.beq_iff k j).0 same, sym found ∙ h)
    | inr other ↦
        let left = ap (λ b. if b then v else entries j) other in
        inr (λ e. cc (other, (key.beq_iff k j).1 e), sym left ∙ h)
  ]

-- tasks with different keys are different
distinct :
    {K : Type 0} (keys : ℕ → K) (i j : ℕ) (k : K) → keys j ≡ k → keys i ≢ k → (i == j) ≡ false
distinct keys i j k own other = elim (Bool-cases (i == j)) [
  | inl same ↦ absurd (other (ap keys ((==_iff i j).0 same) ∙ own))
  | inr differ ↦ differ
]

module _ {K R : Type 0} (key : Key K) (keys : ℕ → K) where
  -- the map holds one entry for each request that runs and no other, and no two tasks run a request for
  -- the same key
  abbrev IsSingle : (K → Option (Channel K × ℕ)) → (ℕ → Phase K R) → Type 0
  IsSingle entries phases =
      ((i : ℕ) (c : Channel K) (t : ℕ)
        → request_of (phases i) ≡ some (c, t)
        → entries (keys i) ≡ some (c, t))
      × ((i j : ℕ) (c d : Channel K) (t u : ℕ)
          → request_of (phases i) ≡ some (c, t)
          → request_of (phases j) ≡ some (d, u)
          → keys i ≡ keys j
          → i ≡ j)
      × ((k : K) (c : Channel K) (t : ℕ)
          → entries k ≡ some (c, t)
          → (i : ℕ) × ((keys i ≡ k) × (request_of (phases i) ≡ some (c, t))))

  module _ (entries : K → Option (Channel K × ℕ)) where
    -- the turn of task `i` changes neither the map nor its request
    unchanged :
        (phases : ℕ → Phase K R) (i : ℕ) (q : Phase K R)
        → IsSingle entries phases
        → request_of q ≡ request_of (phases i)
        → IsSingle entries (set_phase i q phases)
    unchanged phases i q (there, single, owned) same_request =
        let before = request_same phases i q same_request in
        (
          λ j c t h. there j c t (before j ∙ h),
          λ j k c d t u h h'. single j k c d t u (before j ∙ h) (before k ∙ h'),
          λ k c t h. let (j, (own, runs)) = owned k c t h in (j, (own, sym (before j) ∙ runs)),
        )

    -- the turn of task `i` ends its request, and the entry of its key is removed
    module _ (phases : ℕ → Phase K R) (i : ℕ) (q : Phase K R) (c₀ : Channel K) (t₀ : ℕ)
        (runs₀ : request_of (phases i) ≡ some (c₀, t₀)) (idle : request_of q ≡ none) where
      still :
          (j : ℕ) (c : Channel K) (t : ℕ)
          → request_of (set_phase i q phases j) ≡ some (c, t)
          → (i ≢ j) × (request_of (phases j) ≡ some (c, t))
      still j c t h = elim (request_before phases i q j c t h) [
        | inl (same, mine) ↦ cc (idle, mine)
        | inr (other, runs) ↦ (apart i j other, runs)
      ]

      ended :
          IsSingle entries phases
          → IsSingle (set_entry key (keys i) none entries) (set_phase i q phases)
      ended (there, single, owned) = (
        λ j c t h.
            let (other, runs) = still j c t h in
            entry_away key entries (keys i) none (keys j)
              (λ same. other (single i j c₀ c t₀ t runs₀ runs same))
            ∙ there j c t runs,
        λ j k c d t u h h'. single j k c d t u (still j c t h).1 (still k d u h').1,
        λ k c t h. elim (entry_before key entries (keys i) none k c t h) [
          | inl (same, gone) ↦ cc gone
          | inr (other, left) ↦
              let (j, (own, runs)) = owned k c t left in
              (j, (own, request_away phases i q j (distinct keys i j k own other) ∙ runs))
        ],
      )

    -- the turn of task `i` begins a request where its key has none
    module _ (phases : ℕ → Phase K R) (i : ℕ) (c₀ : Channel K) (t₀ : ℕ)
        (free : entries (keys i) ≡ none) where
      started :
          IsSingle entries phases
          → IsSingle
              (set_entry key (keys i) (some (c₀, t₀)) entries)
              (set_phase i (fetching c₀ t₀) phases)
      started (there, single, owned) = (
        λ j c t h. elim (request_before phases i q j c t h) [
          | inl (same, mine) ↦
              entry_here key entries (keys i) (some (c₀, t₀)) (keys j)
                (ap keys ((==_iff i j).0 same))
              ∙ mine
          | inr (other, runs) ↦
              entry_away key entries (keys i) (some (c₀, t₀)) (keys j) (busy there j c t runs)
              ∙ there j c t runs
        ],
        λ j k c d t u h h' same. elim (request_before phases i q j c t h) [
          | inl (a, _) ↦ elim (request_before phases i q k d u h') [
            | inl (b, _) ↦ sym ((==_iff i j).0 a) ∙ (==_iff i k).0 b
            | inr (_, b) ↦ absurd (busy there k d u b (ap keys ((==_iff i j).0 a) ∙ same))
          ]
          | inr (_, a) ↦ elim (request_before phases i q k d u h') [
            | inl (b, _) ↦ absurd (busy there j c t a (ap keys ((==_iff i k).0 b) ∙ sym same))
            | inr (_, b) ↦ single j k c d t u a b same
          ]
        ],
        λ k c t h. elim (entry_before key entries (keys i) (some (c₀, t₀)) k c t h) [
          | inl (same, mine) ↦ (i, (same, request_here phases i q i (==_refl i) ∙ mine))
          | inr (other, left) ↦
              let (j, (own, runs)) = owned k c t left in
              (j, (own, request_away phases i q j (distinct keys i j k own other) ∙ runs))
        ],
      )
        where
          q : Phase K R
          q = fetching c₀ t₀

          busy :
              ((j : ℕ) (c : Channel K) (t : ℕ)
                → request_of (phases j) ≡ some (c, t)
                → entries (keys j) ≡ some (c, t))
              → (j : ℕ) (c : Channel K) (t : ℕ) → request_of (phases j) ≡ some (c, t)
              → keys i ≢ keys j
          busy there j c t runs same = cc (free, ap entries same, there j c t runs)

  -- the system as its invariant reads it
  abbrev IsCalmSingle : System K R → Type 0
  IsCalmSingle s = IsSingle s.shared.in_flight s.phase × ((i : ℕ) → IsCalm (s.phase i))

  turn-IsSingle :
      (s : System K R) (i : ℕ) {m : Shared K R} {p q : Phase K R}
      → s.phase i ≡ p
      → Move key (keys i) s.shared p m q
      → IsTimely s
      → IsCalmSingle s
      → IsSingle m.in_flight (set_phase i q s.phase) × IsCalm q
  turn-IsSingle s i at (start free) timely (single, calm) =
      (started _ s.phase i _ _ free single, tt)
  turn-IsSingle s i at (expire {c} {t} found old) timely (single, calm) =
      let (j, (_, runs)) = single.2 (keys i) c t found in
      let young = timely j c t runs in absurd (too_old s.shared.now t old young)
  turn-IsSingle s i at evict timely (single, calm) = absurd (subst IsCalm at (calm i))
  turn-IsSingle s i at (join found young) timely (single, calm) =
      (unchanged _ s.phase i _ single (sym (ap request_of at)), tt)
  turn-IsSingle s i at (receive got) timely (single, calm) =
      (unchanged _ s.phase i _ single (sym (ap request_of at)), tt)
  turn-IsSingle s i at (lost gone absent) timely (single, calm) =
      (unchanged _ s.phase i _ single (sym (ap request_of at)), tt)
  turn-IsSingle s i at (answer r) timely (single, calm) =
      (unchanged _ s.phase i _ single (sym (ap request_of at)), tt)
  turn-IsSingle s i at remove timely (single, calm) =
      (ended _ s.phase i _ _ _ (ap request_of at) refl single, tt)

  Step-IsCalmSingle :
      {s t : System K R} → Step key keys s t → IsTimely s → IsCalmSingle s → IsCalmSingle t
  Step-IsCalmSingle {s} (turn i {m} {p} mv) timely single =
      let (single', here) = turn-IsSingle s i refl mv timely single in
      (single', IsCalm-after s.phase i p single.1 here)
  Step-IsCalmSingle tick timely single = single

  Reach-IsCalmSingle : {s : System K R} → Reach key keys IsTimely s → IsTimely s × IsCalmSingle s
  Reach-IsCalmSingle begin = (
    λ i c t h. cc h,
    ((λ i c t h. cc h, λ i j c d t u h h' same. cc h, λ k c t h. cc h), λ i. tt),
  )
  Reach-IsCalmSingle (later reach step timely) =
      let (before, single) = Reach-IsCalmSingle reach in
      (timely, Step-IsCalmSingle step before single)

  -- However the tasks take turns, while no request runs for as long as the timeout, two tasks that run a
  -- request for the same key are one task, and the key's entry in the map is that request's.
  pub Reach-single :
      {s : System K R}
      → Reach key keys IsTimely s
      → (i j : ℕ) (c d : Channel K) (t u : ℕ) → request_of (s.phase i) ≡ some (c, t)
      → request_of (s.phase j) ≡ some (d, u)
      → keys i ≡ keys j
      → (i ≡ j) × (s.shared.in_flight (keys i) ≡ some (c, t))
  Reach-single reach i j c d t u runs runs' same =
      let (_, ((there, single, _), _)) = Reach-IsCalmSingle reach in
      (single i j c d t u runs runs' same, there i c t runs)
