-- ===== src/Rpc/Dedup/Answers.antt =====
-- Whose answer a task gets: crates/forge-index-rpc/src/dedup.rs.
use forge_index.Base.{
  ℕ, ◌≡◌, ◌⊎◌, inl, inr, refl, sym, ap, subst, ◌∙◌, Bool, true, false, ◌&&◌, Option, none, some,
  List, [], ◌∷◌, ◌==◌, ==_iff, Bool-cases, if◌then◌else◌, arith,
}
use forge_index.Base.Maps.{Key}
use forge_index.Rpc.Dedup.{
  Channel, Phase, looking, evicting, waiting, fetching, sent, done, Shared, same_channel, set_entry,
  set_channel, Move, start, expire, evict, join, receive, lost, answer, remove, System, Step, turn,
  tick, Reach, begin, later,
}

and_left : (a b : Bool) → (a && b) ≡ true → a ≡ true
and_left true b h = refl
and_left false b h = cc h

module _ {K : Type 0} (key : Key K) where
  entry_key :
      (c d : Channel K) (t u : ℕ)
      → Path (Option (Channel K × ℕ)) (some (d, u)) (some (c, t))
      → d.key ≡ c.key
  entry_key c d t u e = ap (λ o. elim o as (λ _. K) [ none ↦ c.key | some (x, _) ↦ x.key ]) e

  entry_set :
      (entries : K → Option (Channel K × ℕ)) (k : K) (v : Option (Channel K × ℕ))
      → ((j : K) (c : Channel K) (t : ℕ) → entries j ≡ some (c, t) → c.key ≡ j)
      → ((c : Channel K) (t : ℕ) → v ≡ some (c, t) → c.key ≡ k)
      → (j : K) (c : Channel K) (t : ℕ) → set_entry key k v entries j ≡ some (c, t)
      → c.key ≡ j
  entry_set entries k v tidy new j c t h = elim (Bool-cases (key.beq k j)) [
    | inl same ↦
        new c t (sym (ap (λ b. if b then v else entries j) same) ∙ h) ∙ (key.beq_iff k j).0 same
    | inr other ↦ tidy j c t (sym (ap (λ b. if b then v else entries j) other) ∙ h)
  ]

module _ {K R : Type 0} where
  -- the node gave the result to a request with the key
  abbrev pub IsAnswer : K → R → List (K × R) → Type 0
  IsAnswer k r [] = ⊥
  IsAnswer k r ((j, a) ∷ rest) = ((j ≡ k) × (a ≡ r)) ⊎ IsAnswer k r rest

  -- a task's channel is one of its key, and its result an answer to it
  abbrev IsOwn : K → List (K × R) → Phase K R → Type 0
  IsOwn k answers looking = Unit
  IsOwn k answers evicting = Unit
  IsOwn k answers (waiting c old) = c.key ≡ k
  IsOwn k answers (fetching c t) = c.key ≡ k
  IsOwn k answers (sent c t r) = (c.key ≡ k) × IsAnswer k r answers
  IsOwn k answers (done r) = IsAnswer k r answers

  abbrev Tidy : Shared K R → Type 0
  Tidy m =
      ((k : K) (c : Channel K) (t : ℕ) → m.in_flight k ≡ some (c, t) → c.key ≡ k)
      × ((c : Channel K) (r : R) → m.heard c ≡ some r → IsAnswer c.key r m.answers)

  module _ (key : Key K) where
    IsOwn-more :
        (k j : K) (a : R) (answers : List (K × R)) (p : Phase K R)
        → IsOwn k answers p
        → IsOwn k ((j, a) ∷ answers) p
    IsOwn-more k j a answers looking h = tt
    IsOwn-more k j a answers evicting h = tt
    IsOwn-more k j a answers (waiting c old) h = h
    IsOwn-more k j a answers (fetching c t) h = h
    IsOwn-more k j a answers (sent c t r) (h, ha) = (h, inr ha)
    IsOwn-more k j a answers (done r) h = inr h

    heard_set :
        (heard : Channel K → Option R) (answers : List (K × R)) (c : Channel K) (r : R) (k : K)
        → ((d : Channel K) (x : R) → heard d ≡ some x → IsAnswer d.key x answers)
        → c.key ≡ k
        → (d : Channel K) (x : R) → set_channel key c (some r) heard d ≡ some x
        → IsAnswer d.key x ((k, r) ∷ answers)
    heard_set heard answers c r k tidy own d x h = elim (Bool-cases (same_channel key c d)) [
      | inl same ↦
          let sent_now = ap (λ b. if b then some r else heard d) same in
          inl (
            sym own
                ∙ (key.beq_iff c.key d.key).0 (and_left (key.beq c.key d.key) (c.id == d.id) same),
            ground (arith, sent_now, h),
          )
      | inr other ↦ inr (tidy d x (sym (ap (λ b. if b then some r else heard d) other) ∙ h))
    ]

    -- what a turn keeps, and how its task stands after it
    Move-Tidy :
        {k : K} {m n : Shared K R} {p q : Phase K R}
        → Move key k m p n q
        → Tidy m
        → IsOwn k m.answers p
        → Tidy n × IsOwn k n.answers q
    Move-Tidy (start free) tidy own =
        ((entry_set key _ _ _ tidy.0 (λ c t e. entry_key key _ c _ t (sym e)), tidy.1), refl)
    Move-Tidy (expire there old) tidy own = (tidy, tt)
    Move-Tidy evict tidy own = ((entry_set key _ _ none tidy.0 (λ c t e. cc e), tidy.1), tt)
    Move-Tidy (join there young) tidy own = (tidy, tidy.0 _ _ _ there)
    Move-Tidy {m} (receive {c} {r} got) tidy own =
        (tidy, subst (λ j. IsAnswer j r m.answers) own (tidy.1 c r got))
    Move-Tidy (lost gone absent) tidy own = (tidy, tt)
    Move-Tidy (answer r) tidy own =
        ((tidy.0, heard_set _ _ _ r _ tidy.1 own), (own, inl (refl, refl)))
    Move-Tidy remove tidy own = ((entry_set key _ _ none tidy.0 (λ c t e. cc e), tidy.1), own.1)

    abbrev OwnSystem : (ℕ → K) → System K R → Type 0
    OwnSystem keys s = Tidy s.shared × ((i : ℕ) → IsOwn (keys i) s.shared.answers (s.phase i))

    -- answers are never forgotten
    Move-keeps_answers :
        {k : K} {m n : Shared K R} {p q : Phase K R}
        → Move key k m p n q
        → (j : K) (x : Phase K R) → IsOwn j m.answers x
        → IsOwn j n.answers x
    Move-keeps_answers (answer r) j x h = IsOwn-more j _ r _ x h
    Move-keeps_answers _ j x h = h

    Step-Own :
        {keys : ℕ → K} {s t : System K R} → Step key keys s t → OwnSystem keys s → OwnSystem keys t
    Step-Own {keys} {s} (turn i {m} {p} mv) (tidy, own) =
        let (tidy', mine) = Move-Tidy mv tidy (own i) in
        (
          tidy',
          λ j. elim (Bool-cases (i == j)) [
            | inl same ↦
                rw same (subst (λ (x : ℕ). IsOwn (keys x) m.answers p) ((==_iff i j).0 same) mine)
            | inr other ↦ rw other (Move-keeps_answers mv (keys j) (s.phase j) (own j))
          ],
        )
    Step-Own tick h = h

    Reach-Own :
        {keys : ℕ → K} {P : System K R → Type 0} {s : System K R}
        → Reach key keys P s
        → OwnSystem keys s
    Reach-Own begin = ((λ k c t e. cc e, λ c r e. cc e), λ i. tt)
    Reach-Own (later reach step h) = Step-Own step (Reach-Own reach)

    -- However the tasks take turns, a task that is done has a result that the node gave to a request
    -- with the task's own key.
    pub Reach-IsAnswer :
        (keys : ℕ → K) (P : System K R → Type 0) {s : System K R}
        → Reach key keys P s
        → (i : ℕ) (r : R) → s.phase i ≡ done r
        → IsAnswer (keys i) r s.shared.answers
    Reach-IsAnswer keys P {s} reach i r h =
        subst (IsOwn (keys i) s.shared.answers) h ((Reach-Own reach).1 i)
