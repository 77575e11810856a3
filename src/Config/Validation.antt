-- ===== src/Config/Validation.antt =====
-- The checks of a configuration: crates/forge-index-config/src/validation.rs. Whether a text is JSON is
-- a parameter.
pub mod Valid
use forge_index.Base.{
  ℕ, zero, suc, ◌+◌, ◌-◌, ◌*◌, ◌/◌, ◌%◌, ◌^◌, ◌≤◌, ◌<◌, min, max, String, ◌≡◌, refl, sym, ap, subst,
  ◌∙◌, ◌≢◌, ◌↔◌, ◌⊎◌, inl, inr, Bool, true, false, not, ◌&&◌, ◌||◌, Option, none, some, List, [],
  ◌∷◌, ◌++◌, map, reverse, append_assoc, append-nil, reverse-cons, reverse-append, reverse-reverse,
  arith, str_eq, eq_iff, ltb, leb, ◌==◌, if◌then◌else◌, ltb→lt, ltb→ge, lt→ltb, ge→ltb, leb→le,
  leb→gt, le→leb, gt→leb, ==_iff, ==_refl, Bool-cases, Option-cases, length, get_elem?, take, drop,
  last?, drop_while, keep, length-append, length-reverse, last?-snoc, All, All-append,
}
use forge_index.Base.Text.{Text, codes, show_nat}
use forge_index.Config.Contract.{ContractConfig}
use forge_index.Config.Types.{
  Config, ChainConfig, AccountConfig, BlockIntervalConfig, ColumnDef, TableDef, DatabaseConfig,
  postgres, pg_lite,
}

-- a message unless the test holds
abbrev pub unless : Bool → Text → List Text
unless true message = []
unless false message = message ∷ []

module _ {A : Type 0} where
  -- the messages of a loop
  abbrev pub each : (A → List Text) → List A → List Text
  each f [] = []
  each f (x ∷ xs) = f x ++ each f xs

  abbrev pub member : (A → A → Bool) → A → List A → Bool
  member same x [] = false
  member same x (y ∷ ys) = same y x || member same x ys

  -- a message for each element that a `HashSet` has seen
  abbrev pub repeats : (A → A → Bool) → (A → Text) → List A → List A → List Text
  repeats same message seen [] = []
  repeats same message seen (x ∷ xs) =
      unless (not (member same x seen)) (message x) ++ repeats same message (x ∷ seen) xs

abbrev pub in_quotes : String → Text
in_quotes name = codes "'" ++ (codes name ++ codes "'")

abbrev pub unknown_chain : String → String → String → Text
unknown_chain what name chain =
    codes what
    ++ (codes " " ++ (in_quotes name ++ (codes " references unknown chain " ++ in_quotes chain)))

unfoldable pub count_keys : List ColumnDef → ℕ
count_keys [] = 0
count_keys (c ∷ cs) = let rest = count_keys cs in if c.primary_key then suc rest else rest

abbrev pub check_count : String → ℕ → List Text
check_count table zero =
    (codes "Table " ++ (in_quotes table ++ codes " has no primary key column")) ∷ []
check_count table (suc zero) = []
check_count table (suc (suc n)) =
    (codes "Table "
      ++ (in_quotes table
          ++ (codes " has "
              ++ (show_nat (suc (suc n)) ++ codes " primary key columns, expected exactly 1"))))
    ∷ []

unfoldable pub check_table : TableDef → List Text
check_table t =
    check_count t.name (count_keys t.columns)
    ++ repeats str_eq
        (λ c.
          codes "Table "
          ++ (in_quotes t.name ++ (codes " has duplicate column name: " ++ in_quotes c)))
        [] (map (λ c. c.name) t.columns)

unfoldable pub check_database : DatabaseConfig → List Text
check_database (postgres connection_string schema pool) =
    unless (not (str_eq connection_string "")) (codes "Postgres connection_string is empty")
check_database (pg_lite directory) = []

unfoldable pub validate : (String → Bool) → Config → List Text
validate is_json config =
    let names = map (λ c. c.name) config.chains in
    each
      (λ c.
        unless (not (str_eq c.rpc_http ""))
          (codes "Chain " ++ (in_quotes c.name ++ codes " has an empty rpc_http URL")))
      config.chains
    ++ (repeats ◌==◌ (λ n. codes "Duplicate chain_id: " ++ show_nat n) []
          (map (λ c. c.chain_id) config.chains)
        ++ (each
              (λ c.
                each (λ n. unless (member str_eq n names) (unknown_chain "Contract" c.name n))
                  c.chain_names)
              config.contracts
            ++ (each
                  (λ c.
                    unless (is_json c.abi_json)
                      (codes "Contract " ++ (in_quotes c.name ++ codes " has invalid ABI JSON")))
                  config.contracts
                ++ (each
                      (λ a.
                        each
                          (λ n. unless (member str_eq n names) (unknown_chain "Account" a.name n))
                          a.chain_names)
                      config.accounts
                    ++ (each
                          (λ b.
                            unless (member str_eq b.chain_name names)
                              (unknown_chain "BlockInterval" b.name b.chain_name))
                          config.block_intervals
                        ++ (repeats str_eq (λ n. codes "Duplicate table name: " ++ in_quotes n) []
                              (map (λ t. t.name) config.schema)
                            ++ (each check_table config.schema
                                ++ check_database config.database)))))))
