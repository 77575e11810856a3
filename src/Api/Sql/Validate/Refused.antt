-- ===== src/Api/Sql/Validate/Refused.antt =====
-- Which queries are refused: `validate_sql` in crates/forge-index-api/src/sql/parser.rs.
use forge_index.Base.Exec.{Result, ok, err}
use forge_index.Base.Text.{Text}
use forge_index.Api.Sql.Types.{Refusal}

-- the check gives a query to run, or panics where a slice of it does not start at a character
abbrev pub IsNotRefused : {A : Type 0} → Result Refusal A → Type 0
IsNotRefused (ok a) = Unit
IsNotRefused (err (Refusal.refused e)) = ⊥
IsNotRefused (err Refusal.panicked) = Unit

abbrev IsNoPanic : {A : Type 0} → Result Refusal A → Type 0
IsNoPanic (ok a) = Unit
IsNoPanic (err (Refusal.refused e)) = Unit
IsNoPanic (err Refusal.panicked) = ⊥
