-- ===== src/Config/Builder/Checked.antt =====
-- What the builder builds: `ConfigBuilder::build` in crates/forge-index-config/src/builder.rs.
use forge_index.Base.{
  subst, Option, none, some, String, Bool, List, [], ◌∷◌, ◌≡◌, sym, ap, ◌↔◌, arith,
}
use forge_index.Base.Exec.{Result, ok, err}
use forge_index.Base.Text.{Text}
use forge_index.Config.Builder.{
  ConfigBuilder, ForgeError, unwrap_schema, unwrap_database, assemble, checked, build,
}
use forge_index.Config.Types.{Config, DatabaseConfig, TableDef}
use forge_index.Config.Validation.{validate}
use forge_index.Config.Validation.Valid.{Valid, validate_iff}

value_of : {c d : Config} → Path (Result ForgeError Config) (ok c) (ok d) → c ≡ d
value_of {c} h = ap (λ r. elim r as (λ _. Config) [ ok x ↦ x | err e ↦ c ]) h

checked_iff :
    (errors : List Text) (c d : Config) → (checked errors c ≡ ok d) ↔ ((d ≡ c) × (errors ≡ []))
unfolding checked
checked_iff [] c d = (λ h. (sym (value_of h), λ i. []), λ (p, q). ap ok (sym p))
checked_iff (e ∷ errors) c d = (λ h. ground (arith, h), λ (p, q). ground (arith, q))

-- what stands where something may have been set
abbrev pub SetOr : {A : Type 0} → A → Option A → A → Type 0
SetOr default none x = x ≡ default
SetOr default (some a) x = x ≡ a

-- the parts of a configuration are the builder's
pub record IsBuiltFrom (b : ConfigBuilder) (c : Config) : Type 0 where
  pub chains : c.chains ≡ b.chains
  pub contracts : c.contracts ≡ b.contracts
  pub accounts : c.accounts ≡ b.accounts
  pub block_intervals : c.block_intervals ≡ b.block_intervals
  pub schema : SetOr [] b.schema c.schema
  pub database : SetOr (DatabaseConfig.postgres "" "public" 10) b.database c.database
  pub ordering : c.ordering ≡ b.ordering

schema_iff : (o : Option (List TableDef)) (x : List TableDef) → SetOr [] o x ↔ (x ≡ unwrap_schema o)
schema_iff none x = (λ h. h, λ h. h)
schema_iff (some a) x = (λ h. h, λ h. h)

database_iff :
    (o : Option DatabaseConfig) (x : DatabaseConfig)
    → SetOr (DatabaseConfig.postgres "" "public" 10) o x ↔ (x ≡ unwrap_database o)
database_iff none x = (λ h. h, λ h. h)
database_iff (some a) x = (λ h. h, λ h. h)

assemble-IsBuiltFrom : (b : ConfigBuilder) (c : Config) → c ≡ assemble b → IsBuiltFrom b c
unfolding assemble
assemble-IsBuiltFrom b c h = record {
  chains = ap (λ x. x.chains) h;
  contracts = ap (λ x. x.contracts) h;
  accounts = ap (λ x. x.accounts) h;
  block_intervals = ap (λ x. x.block_intervals) h;
  schema = (schema_iff b.schema c.schema).1 (ap (λ x. x.schema) h);
  database = (database_iff b.database c.database).1 (ap (λ x. x.database) h);
  ordering = ap (λ x. x.ordering) h;
}

IsBuiltFrom-assemble : (b : ConfigBuilder) (c : Config) → IsBuiltFrom b c → c ≡ assemble b
unfolding assemble
IsBuiltFrom-assemble b c h =
    let schema = (schema_iff b.schema c.schema).0 h.schema in
    let database = (database_iff b.database c.database).0 h.database in
    λ i. record {
      chains = h.chains i;
      contracts = h.contracts i;
      accounts = h.accounts i;
      block_intervals = h.block_intervals i;
      schema = schema i;
      database = database i;
      ordering = h.ordering i;
    }

-- A builder gives a configuration exactly if the configuration is valid and its parts are those that were
-- put into the builder, with no tables where no schema was set, and an empty connection to the Postgres
-- schema public with at most 10 connections where no database was.
pub build_iff :
    (is_json : String → Bool) (b : ConfigBuilder) (c : Config)
    → (build is_json b ≡ ok c) ↔ (IsBuiltFrom b c × Valid is_json c)
unfolding build
build_iff is_json b c =
    let (there, back) = checked_iff (validate is_json (assemble b)) (assemble b) c in
    let (valid, valid') = validate_iff is_json (assemble b) in
    (
      λ h.
          let (same, clear) = there h in
          (assemble-IsBuiltFrom b c same, subst (Valid is_json) (sym same) (valid clear)),
      λ (built, good).
          let same = IsBuiltFrom-assemble b c built in
          back (same, valid' (subst (Valid is_json) same good)),
    )
