-- ===== src/Config/Validation/Valid.antt =====
-- Which configurations crates/forge-index-config/src/validation.rs lets pass.
use forge_index.Base.{
  ℕ, zero, suc, String, ◌≡◌, refl, ◌↔◌, Bool, true, false, not, ◌||◌, List, [], ◌∷◌, ◌++◌, map,
  arith, str_eq, ◌==◌, All,
}
use forge_index.Base.Text.{Text}
use forge_index.Config.Types.{Config, TableDef, DatabaseConfig, postgres, pg_lite}
use forge_index.Config.Validation.{
  each, unless, member, repeats, count_keys, check_count, check_table, check_database, validate,
}

append_nil_iff : (xs ys : List Text) → ((xs ++ ys) ≡ []) ↔ ((xs ≡ []) × (ys ≡ []))
append_nil_iff [] ys = (λ h. (refl, h), λ h. h.1)
append_nil_iff (x ∷ xs) ys = (λ h. ground (arith, h), λ h. ground (arith, h.0))

unless_iff : (b : Bool) (message : Text) → (unless b message ≡ []) ↔ (b ≡ true)
unless_iff true message = (λ h. refl, λ h. refl)
unless_iff false message = (λ h. ground (arith, h), λ h. ground (arith, h))

not_iff : (b : Bool) → (not b ≡ true) ↔ (b ≡ false)
not_iff true = (λ h. ground (arith, h), λ h. ground (arith, h))
not_iff false = (λ h. refl, λ h. refl)

or_iff : (b c : Bool) → ((b || c) ≡ false) ↔ ((b ≡ false) × (c ≡ false))
or_iff true c = (λ h. ground (arith, h), λ h. ground (arith, h.0))
or_iff false c = (λ h. (refl, h), λ h. h.1)

then_iff : {P Q R : Type 0} → P ↔ Q → Q ↔ R → P ↔ R
then_iff f g = (λ p. g.0 (f.0 p), λ r. f.1 (g.1 r))

both_iff : {P Q R S : Type 0} → P ↔ Q → R ↔ S → (P × R) ↔ (Q × S)
both_iff f g = (λ h. (f.0 h.0, g.0 h.1), λ h. (f.1 h.0, g.1 h.1))

-- two lists of messages are empty
parts_iff :
    {P Q : Type 0} (xs ys : List Text) → (xs ≡ []) ↔ P → (ys ≡ []) ↔ Q → ((xs ++ ys) ≡ []) ↔ (P × Q)
parts_iff xs ys f g = then_iff (append_nil_iff xs ys) (both_iff f g)

module _ {A : Type 0} where
  each_iff :
      {P : A → Type 0} (f : A → List Text) (xs : List A)
      → ((x : A) → (f x ≡ []) ↔ P x)
      → (each f xs ≡ []) ↔ All P xs
  each_iff f [] h = (λ _. tt, λ _. refl)
  each_iff f (x ∷ xs) h = parts_iff (f x) (each f xs) (h x) (each_iff f xs h)

  -- no element is the same as one after it
  abbrev pub Distinct : (A → A → Bool) → List A → Type 0
  Distinct same [] = Unit {0}
  Distinct same (x ∷ xs) = All (λ y. same x y ≡ false) xs × Distinct same xs

  conjunction_iff :
      {P Q R : A → Type 0} (xs : List A)
      → ((x : A) → P x ↔ (Q x × R x))
      → All P xs ↔ (All Q xs × All R xs)
  conjunction_iff [] h = (λ _. (tt, tt), λ _. tt)
  conjunction_iff (x ∷ xs) h =
      let rest = conjunction_iff xs h in
      (
        λ p. ((((h x).0 p.0).0, (rest.0 p.1).0), (((h x).0 p.0).1, (rest.0 p.1).1)),
        λ q. ((h x).1 (q.0.0, q.1.0), rest.1 (q.0.1, q.1.1)),
      )

  repeats_seen :
      (same : A → A → Bool) (message : A → Text) (seen xs : List A)
      → (repeats same message seen xs ≡ [])
        ↔ (All (λ y. member same y seen ≡ false) xs × Distinct same xs)
  repeats_seen same message seen [] = (λ _. (tt, tt), λ _. refl)
  repeats_seen same message seen (x ∷ xs) =
      let here =
        then_iff (unless_iff (not (member same x seen)) (message x))
          (not_iff (member same x seen)) in
      let rest = repeats_seen same message (x ∷ seen) xs in
      let split = conjunction_iff xs (λ y. or_iff (same x y) (member same y seen)) in
      then_iff
        (parts_iff (unless (not (member same x seen)) (message x))
          (repeats same message (x ∷ seen) xs) here rest)
        (
          λ h. ((h.0, (split.0 h.1.0).1), ((split.0 h.1.0).0, h.1.1)),
          λ h. (h.0.0, (split.1 (h.1.0, h.0.1), h.1.1)),
        )

  nothing_seen : (same : A → A → Bool) (xs : List A) → All (λ y. member same y [] ≡ false) xs
  nothing_seen same [] = tt
  nothing_seen same (x ∷ xs) = (refl, nothing_seen same xs)

  repeats_iff :
      (same : A → A → Bool) (message : A → Text) (xs : List A)
      → (repeats same message [] xs ≡ []) ↔ Distinct same xs
  repeats_iff same message xs =
      then_iff (repeats_seen same message [] xs) (λ h. h.1, λ h. (nothing_seen same xs, h))

check_count_iff : (table : String) (n : ℕ) → (check_count table n ≡ []) ↔ (n ≡ 1)
check_count_iff table zero = (λ h. ground (arith, h), λ h. absurd (omega (arith, h)))
check_count_iff table (suc zero) = (λ h. refl, λ h. refl)
check_count_iff table (suc (suc n)) = (λ h. ground (arith, h), λ h. absurd (omega (arith, h)))

-- one column is the key, and no two columns have one name
abbrev pub ValidTable : TableDef → Type 0
ValidTable t = (count_keys t.columns ≡ 1) × Distinct str_eq (map (λ c. c.name) t.columns)

check_table_iff : (t : TableDef) → (check_table t ≡ []) ↔ ValidTable t
unfolding check_table
check_table_iff t =
    parts_iff (check_count t.name (count_keys t.columns)) _
      (check_count_iff t.name (count_keys t.columns))
      (repeats_iff str_eq _ (map (λ c. c.name) t.columns))

abbrev pub ValidDatabase : DatabaseConfig → Type 0
ValidDatabase (postgres connection_string schema pool) = str_eq connection_string "" ≡ false
ValidDatabase (pg_lite directory) = Unit {0}

check_database_iff : (d : DatabaseConfig) → (check_database d ≡ []) ↔ ValidDatabase d
unfolding check_database
check_database_iff (postgres connection_string schema pool) =
    then_iff (unless_iff (not (str_eq connection_string "")) _)
      (not_iff (str_eq connection_string ""))
check_database_iff (pg_lite directory) = (λ _. tt, λ _. refl)

-- the chain is one of the configured chains
abbrev pub Known : Config → String → Type 0
Known config n = member str_eq n (map (λ c. c.name) config.chains) ≡ true

-- what a configuration has to be
abbrev pub Valid : (String → Bool) → Config → Type 0
Valid is_json config =
    All (λ c. str_eq c.rpc_http "" ≡ false) config.chains
    × (Distinct ◌==◌ (map (λ c. c.chain_id) config.chains)
        × (All (λ c. All (Known config) c.chain_names) config.contracts
            × (All (λ c. is_json c.abi_json ≡ true) config.contracts
                × (All (λ a. All (Known config) a.chain_names) config.accounts
                    × (All (λ b. Known config b.chain_name) config.block_intervals
                        × (Distinct str_eq (map (λ t. t.name) config.schema)
                            × (All ValidTable config.schema × (ValidDatabase config.database))))))))

-- A configuration passes without a message exactly if every chain has a URL, the chain ids are distinct,
-- every contract, account and block interval names known chains, every ABI is JSON, the tables' names
-- are distinct, every table has one key and distinct columns, and Postgres has a connection string.
pub validate_iff :
    (is_json : String → Bool) (config : Config)
    → (validate is_json config ≡ []) ↔ Valid is_json config
unfolding validate
validate_iff is_json config =
    let names = map (λ c. c.name) config.chains in
    parts_iff _ _
      (each_iff _ config.chains (λ c.
        then_iff (unless_iff (not (str_eq c.rpc_http "")) _) (not_iff (str_eq c.rpc_http ""))))
      (parts_iff _ _ (repeats_iff ◌==◌ _ (map (λ c. c.chain_id) config.chains)) (
        parts_iff _ _
          (each_iff _ config.contracts
            (λ c. each_iff _ c.chain_names (λ n. unless_iff (member str_eq n names) _)))
          (parts_iff _ _ (each_iff _ config.contracts (λ c. unless_iff (is_json c.abi_json) _)) (
            parts_iff _ _
              (each_iff _ config.accounts
                (λ a. each_iff _ a.chain_names (λ n. unless_iff (member str_eq n names) _)))
              (parts_iff _ _
                (each_iff _ config.block_intervals
                  (λ b. unless_iff (member str_eq b.chain_name names) _))
                (parts_iff _ _ (repeats_iff str_eq _ (map (λ t. t.name) config.schema)) (
                  parts_iff _ _ (each_iff _ config.schema check_table_iff)
                    (check_database_iff config.database))))))))
